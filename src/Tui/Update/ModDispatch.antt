-- ===== src/Tui/Update/ModDispatch.antt =====
-- The actions of src/tui/app.rs on mods, CurseForge and modpacks, each to its arm of `update`.
use ichr.Base.{Option, Text, [], ◌∷◌, ◌++◌, push, pop}
use ichr.Tui.Effect.{fetch_cf_mod}
use ichr.Tui.State.{AppState, Step, with_view}
use ichr.Tui.Update.Instances.{to_default}
use ichr.Tui.Update.Mods.{
  open_mod_browser_arm, mod_browser_search_loaded_arm, mod_browser_search_failed_arm,
  mod_browser_move_arm, mod_browser_open_versions_arm, toggle_mod_mc_filter_arm,
  toggle_mod_loader_filter_arm, mod_browser_backspace_search_arm, mod_browser_begin_search_arm,
  mod_browser_exit_search_arm, mod_browser_type_search_arm, mod_browser_paste_search_arm,
  mod_detail_loaded_arm,
}
use ichr.Tui.Update.ModInstalls.{
  mod_versions_loaded_arm, mod_version_picker_move_arm, mod_version_picker_select_arm,
  mod_version_picker_cancel_arm, mod_deps_resolved_arm, confirm_mod_install_arm,
  cancel_mod_install_arm, mod_install_started_arm, mod_installed_arm, mod_install_failed_arm,
  open_installed_mods_arm, dismiss_mod_install_failed_arm,
}
use ichr.Tui.Update.ModLists.{
  installed_mods_loaded_arm, installed_mods_move_arm, toggle_mod_enabled_arm, mod_toggled_arm,
  open_uninstall_mod_confirm_arm, confirm_uninstall_mod_arm, cancel_uninstall_mod_arm,
  mod_uninstalled_arm,
}
use ichr.Tui.Update.Cf.{
  open_cf_browser_arm, cf_browser_search_start_arm, cf_browser_search_loaded_arm,
  cf_browser_search_failed_arm, cf_browser_move_selection_arm, cf_browser_toggle_mc_filter_arm,
  cf_browser_toggle_loader_filter_arm, cf_browser_detail_loaded_arm, edit_cf_search_arm,
  cf_file_picker_loaded_arm, cf_file_picker_move_arm, cf_file_picker_confirm_arm,
  cf_mod_install_started_arm, cf_mod_installed_arm, cf_mod_install_failed_arm,
}
use ichr.Tui.Update.Modpacks.{
  open_modpack_import_arm, import_path_type_arm, import_path_backspace_search_arm,
  import_path_submit_arm, modpack_import_started_arm, modpack_import_progress_arm,
  modpack_imported_arm, modpack_import_cancelled_arm, modpack_import_failed_arm,
  cancel_modpack_import_arm,
}
use ichr.Tui.Action.{
  ModAction, open_mod_browser, mod_browser_search_loaded, mod_browser_search_failed,
  mod_browser_move, mod_browser_open_versions, toggle_mod_mc_filter, toggle_mod_loader_filter,
  mod_browser_backspace_search, mod_browser_begin_search, mod_browser_exit_search,
  mod_browser_cancel, mod_browser_type_search, mod_browser_paste_search, mod_detail_loaded,
  mod_versions_loaded, mod_version_picker_move, mod_version_picker_select,
  mod_version_picker_cancel, mod_deps_resolved, confirm_mod_install, cancel_mod_install,
  mod_install_started, mod_installed, mod_install_failed, dismiss_mod_install_failed,
  open_installed_mods, installed_mods_loaded, installed_mods_move, toggle_mod_enabled, mod_toggled,
  open_uninstall_mod_confirm, confirm_uninstall_mod, cancel_uninstall_mod, mod_uninstalled,
  close_installed_mods,
}
use ichr.Tui.PackAction.{
  CfAction, open_cf_browser, cf_browser_search_start, cf_browser_search_loaded,
  cf_browser_search_failed, cf_browser_move_selection, cf_browser_toggle_mc_filter,
  cf_browser_toggle_loader_filter, cf_browser_open_detail, cf_browser_detail_loaded,
  cf_browser_type_search, cf_browser_paste_search, cf_browser_backspace_search,
  cf_file_picker_loaded, cf_file_picker_move, cf_file_picker_confirm, cf_mod_install_started,
  cf_mod_installed, cf_mod_install_failed, cf_dismiss_install_failed, ModpackAction,
  open_modpack_import, import_path_type_search, import_path_paste_search,
  import_path_backspace_search, import_path_submit, import_path_cancel, modpack_import_started,
  modpack_import_progress, modpack_imported, modpack_import_cancelled, modpack_import_failed,
  cancel_import, dismiss_modpack_import_failed,
}

abbrev pub mod_step : AppState → ModAction → Step
mod_step s (open_mod_browser slug) = with_view s (open_mod_browser_arm s slug s.active_view)
mod_step s (mod_browser_search_loaded slug hits) =
    with_view s (mod_browser_search_loaded_arm s slug hits s.active_view)
mod_step s (mod_browser_search_failed slug message) =
    with_view s (mod_browser_search_failed_arm slug message s.active_view)
mod_step s (mod_browser_move delta) = with_view s (mod_browser_move_arm s delta s.active_view)
mod_step s mod_browser_open_versions = with_view s (mod_browser_open_versions_arm s s.active_view)
mod_step s toggle_mod_mc_filter = with_view s (toggle_mod_mc_filter_arm s s.active_view)
mod_step s toggle_mod_loader_filter = with_view s (toggle_mod_loader_filter_arm s s.active_view)
mod_step s mod_browser_backspace_search =
    with_view s (mod_browser_backspace_search_arm s s.active_view)
mod_step s mod_browser_begin_search = with_view s (mod_browser_begin_search_arm s.active_view)
mod_step s mod_browser_exit_search = with_view s (mod_browser_exit_search_arm s s.active_view)
mod_step s mod_browser_cancel = with_view s to_default
mod_step s (mod_browser_type_search c) = with_view s (mod_browser_type_search_arm s c s.active_view)
mod_step s (mod_browser_paste_search pasted) =
    with_view s (mod_browser_paste_search_arm s pasted s.active_view)
mod_step s (mod_detail_loaded slug detail) =
    with_view s (mod_detail_loaded_arm slug detail s.active_view)
mod_step s (mod_versions_loaded slug versions) =
    with_view s (mod_versions_loaded_arm slug versions s.active_view)
mod_step s (mod_version_picker_move delta) =
    with_view s (mod_version_picker_move_arm delta s.active_view)
mod_step s mod_version_picker_select = with_view s (mod_version_picker_select_arm s s.active_view)
mod_step s mod_version_picker_cancel = with_view s (mod_version_picker_cancel_arm s s.active_view)
mod_step s (mod_deps_resolved slug project_id project_title version_id version_label graph) =
    with_view s (mod_deps_resolved_arm slug project_id project_title version_id version_label graph)
mod_step s confirm_mod_install = with_view s (confirm_mod_install_arm s.active_view)
mod_step s cancel_mod_install = with_view s (cancel_mod_install_arm s s.active_view)
mod_step s (mod_install_started slug project_id token) = mod_install_started_arm s slug token
mod_step s (mod_installed slug project_id) = mod_installed_arm s slug project_id
mod_step s (mod_install_failed slug mod_title version_label error log_tail) =
    mod_install_failed_arm s slug mod_title version_label error log_tail
mod_step s dismiss_mod_install_failed = with_view s (dismiss_mod_install_failed_arm s s.active_view)
mod_step s (open_installed_mods slug) = with_view s (open_installed_mods_arm slug)
mod_step s (installed_mods_loaded slug mods) = installed_mods_loaded_arm s slug mods
mod_step s (installed_mods_move delta) = with_view s (installed_mods_move_arm delta s.active_view)
mod_step s toggle_mod_enabled = with_view s (toggle_mod_enabled_arm s.active_view)
mod_step s (mod_toggled slug mod_id enabled) =
    with_view s (mod_toggled_arm slug mod_id enabled s.active_view)
mod_step s open_uninstall_mod_confirm = with_view s (open_uninstall_mod_confirm_arm s.active_view)
mod_step s confirm_uninstall_mod = with_view s (confirm_uninstall_mod_arm s.active_view)
mod_step s cancel_uninstall_mod = with_view s (cancel_uninstall_mod_arm s.active_view)
mod_step s (mod_uninstalled slug mod_id) = mod_uninstalled_arm s slug mod_id
mod_step s close_installed_mods = with_view s to_default

abbrev pub cf_step : AppState → CfAction → Step
cf_step s (open_cf_browser slug) = with_view s (open_cf_browser_arm s slug s.active_view)
cf_step s (cf_browser_search_start slug query mc loader) =
    with_view s (cf_browser_search_start_arm slug query mc loader s.active_view)
cf_step s (cf_browser_search_loaded slug hits) =
    with_view s (cf_browser_search_loaded_arm s slug hits s.active_view)
cf_step s (cf_browser_search_failed slug error) =
    with_view s (cf_browser_search_failed_arm slug error s.active_view)
cf_step s (cf_browser_move_selection delta) =
    with_view s (cf_browser_move_selection_arm s delta s.active_view)
cf_step s cf_browser_toggle_mc_filter =
    with_view s (cf_browser_toggle_mc_filter_arm s s.active_view)
cf_step s cf_browser_toggle_loader_filter =
    with_view s (cf_browser_toggle_loader_filter_arm s s.active_view)
cf_step s (cf_browser_open_detail slug mod_id) = (s, fetch_cf_mod slug mod_id ∷ [])
cf_step s (cf_browser_detail_loaded slug detail) =
    with_view s (cf_browser_detail_loaded_arm s slug detail s.active_view)
cf_step s (cf_browser_type_search c) =
    with_view s (edit_cf_search_arm s (λ t. push t c) s.active_view)
cf_step s (cf_browser_paste_search pasted) =
    with_view s (edit_cf_search_arm s (λ t. t ++ pasted) s.active_view)
cf_step s cf_browser_backspace_search = with_view s (edit_cf_search_arm s pop s.active_view)
cf_step s (cf_file_picker_loaded slug mod_detail files) =
    with_view s (cf_file_picker_loaded_arm slug mod_detail files)
cf_step s (cf_file_picker_move delta) = with_view s (cf_file_picker_move_arm delta s.active_view)
cf_step s cf_file_picker_confirm = with_view s (cf_file_picker_confirm_arm s s.active_view)
cf_step s (cf_mod_install_started slug mod_id file_id token) =
    cf_mod_install_started_arm s slug token
cf_step s (cf_mod_installed slug mod_id) = cf_mod_installed_arm s slug
cf_step s (cf_mod_install_failed slug mod_title file_label error web_url) =
    cf_mod_install_failed_arm s slug mod_title file_label error web_url
cf_step s cf_dismiss_install_failed = with_view s to_default

abbrev pub modpack_step : Option Text → AppState → ModpackAction → Step
modpack_step home s open_modpack_import = with_view s open_modpack_import_arm
modpack_step home s (import_path_type_search c) =
    with_view s (import_path_type_arm (c ∷ []) s.active_view)
modpack_step home s (import_path_paste_search pasted) =
    with_view s (import_path_type_arm pasted s.active_view)
modpack_step home s import_path_backspace_search =
    with_view s (import_path_backspace_search_arm s.active_view)
modpack_step home s import_path_submit = with_view s (import_path_submit_arm home s.active_view)
modpack_step home s import_path_cancel = with_view s to_default
modpack_step home s (modpack_import_started slug modpack_name token) =
    modpack_import_started_arm s slug modpack_name token
modpack_step home s (modpack_import_progress slug pct step_label bytes_done bytes_total) =
    with_view s (modpack_import_progress_arm pct step_label bytes_done bytes_total s.active_view)
modpack_step home s (modpack_imported slug) = modpack_imported_arm s slug
modpack_step home s modpack_import_cancelled = modpack_import_cancelled_arm s
modpack_step home s (modpack_import_failed modpack_name error log_tail) =
    modpack_import_failed_arm s modpack_name error log_tail
modpack_step home s cancel_import = cancel_modpack_import_arm s
modpack_step home s dismiss_modpack_import_failed = with_view s to_default
