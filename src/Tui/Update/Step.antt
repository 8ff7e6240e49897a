-- ===== src/Tui/Update/Step.antt =====
-- `update` of src/tui/app.rs, and the states that a list of actions goes through.
use ichr.Base.{Option, Text, true, [], ◌∷◌, ◌++◌, List, if◌then◌else◌}
use ichr.Tui.Effect.{quit_app, install_pack_from_modrinth}
use ichr.Tui.State.{AppState, Step, with_view}
use ichr.Tui.Update.Instances.{to_default}
use ichr.Tui.Update.Launches.{installed_icons_resolved_arm}
use ichr.Tui.Update.Packs.{
  open_pack_browser_arm, pack_browser_search_loaded_arm, pack_browser_search_failed_arm,
  pack_browser_move_arm, pack_browser_type_search_arm, pack_browser_backspace_search_arm,
  pack_browser_paste_search_arm, pack_browser_begin_search_arm, pack_browser_exit_search_arm,
  pack_drop_path_open_arm, pack_drop_path_type_arm, pack_drop_path_backspace_arm,
  pack_drop_path_submit_arm, pack_drop_path_cancel_arm, install_pack_from_browser_arm,
}
use ichr.Tui.Update.PackLists.{
  installed_packs_loaded_arm, installed_packs_move_arm, installed_packs_cycle_kind_arm,
  toggle_pack_enabled_arm, shader_toggle_notice_arm, open_uninstall_pack_confirm_arm,
  confirm_uninstall_pack_arm, cancel_uninstall_pack_arm, pack_installed_arm,
  pack_install_failed_arm, dismiss_pack_install_failed_arm, pack_drop_failed_arm,
  pack_uninstalled_arm, pack_toggle_failed_arm, pack_toggled_arm,
}
use ichr.Tui.Action.{
  IconAction, icon_fetched, installed_icons_resolved, Action, quit, tick, task, on_instances,
  on_accounts, on_java, on_loaders, on_launches, on_services, on_mods, on_cf, on_modpacks, on_packs,
  on_icons,
}
use ichr.Tui.PackAction.{
  PackAction, open_pack_browser, pack_browser_move, pack_browser_type_search,
  pack_browser_backspace_search, pack_browser_paste_search, pack_browser_begin_search,
  pack_browser_exit_search, pack_browser_search_loaded, pack_browser_search_failed,
  pack_browser_close, pack_drop_path_open, pack_drop_path_type, pack_drop_path_backspace,
  pack_drop_path_paste, pack_drop_path_submit, pack_drop_path_cancel, installed_packs_loaded,
  installed_packs_move, installed_packs_cycle_kind, toggle_pack_enabled, shader_toggle_notice,
  open_uninstall_pack_confirm, confirm_uninstall_pack, cancel_uninstall_pack, pack_installed,
  pack_install_failed, dismiss_pack_install_failed, pack_drop_failed, pack_uninstalled,
  pack_toggled, pack_toggle_failed, install_pack_from_browser, auto_start_pack_install,
  pack_versions_failed,
}
use ichr.Tui.Update.Dispatch.{
  task_step, instance_step, account_step, java_step, loader_step, launch_step, service_step,
}
use ichr.Tui.Update.ModDispatch.{mod_step, cf_step, modpack_step}

abbrev pub pack_step : AppState → PackAction → Step
pack_step s (open_pack_browser slug kind) = with_view s (open_pack_browser_arm s slug kind)
pack_step s (pack_browser_move delta) = with_view s (pack_browser_move_arm s delta s.active_view)
pack_step s (pack_browser_type_search c) =
    with_view s (pack_browser_type_search_arm s c s.active_view)
pack_step s pack_browser_backspace_search =
    with_view s (pack_browser_backspace_search_arm s s.active_view)
pack_step s (pack_browser_paste_search pasted) =
    with_view s (pack_browser_paste_search_arm s pasted s.active_view)
pack_step s pack_browser_begin_search = with_view s (pack_browser_begin_search_arm s.active_view)
pack_step s pack_browser_exit_search = with_view s (pack_browser_exit_search_arm s s.active_view)
pack_step s (pack_browser_search_loaded slug kind hits) =
    with_view s (pack_browser_search_loaded_arm s slug kind hits s.active_view)
pack_step s (pack_browser_search_failed slug kind message) =
    with_view s (pack_browser_search_failed_arm slug kind message s.active_view)
pack_step s pack_browser_close = with_view s to_default
pack_step s (pack_drop_path_open slug kind) = with_view s (pack_drop_path_open_arm slug kind)
pack_step s (pack_drop_path_type c) = with_view s (pack_drop_path_type_arm (c ∷ []) s.active_view)
pack_step s pack_drop_path_backspace = with_view s (pack_drop_path_backspace_arm s.active_view)
pack_step s (pack_drop_path_paste pasted) =
    with_view s (pack_drop_path_type_arm pasted s.active_view)
pack_step s pack_drop_path_submit = with_view s (pack_drop_path_submit_arm s.active_view)
pack_step s pack_drop_path_cancel = with_view s (pack_drop_path_cancel_arm s s.active_view)
pack_step s (installed_packs_loaded slug kind packs) = installed_packs_loaded_arm s slug kind packs
pack_step s (installed_packs_move delta) =
    with_view s (installed_packs_move_arm delta s.active_view)
pack_step s installed_packs_cycle_kind = with_view s (installed_packs_cycle_kind_arm s.active_view)
pack_step s toggle_pack_enabled = with_view s (toggle_pack_enabled_arm s.active_view)
pack_step s shader_toggle_notice = with_view s (shader_toggle_notice_arm s.active_view)
pack_step s open_uninstall_pack_confirm =
    with_view s (open_uninstall_pack_confirm_arm s.active_view)
pack_step s confirm_uninstall_pack = with_view s (confirm_uninstall_pack_arm s.active_view)
pack_step s cancel_uninstall_pack = with_view s (cancel_uninstall_pack_arm s.active_view)
pack_step s (pack_installed slug kind) = pack_installed_arm s slug kind
pack_step s (pack_install_failed slug kind pack_title version_label error) =
    pack_install_failed_arm s slug kind pack_title version_label error
pack_step s dismiss_pack_install_failed =
    with_view s (dismiss_pack_install_failed_arm s s.active_view)
pack_step s (pack_drop_failed slug kind error) = pack_drop_failed_arm s slug kind error
pack_step s (pack_uninstalled slug kind mod_id) = pack_uninstalled_arm s slug kind mod_id
pack_step s (pack_toggled slug kind mod_id new_enabled) =
    with_view s (pack_toggled_arm slug kind mod_id new_enabled s.active_view)
pack_step s (pack_toggle_failed slug kind error) =
    with_view s (pack_toggle_failed_arm slug kind error s.active_view)
pack_step s (install_pack_from_browser slug kind) =
    with_view s (install_pack_from_browser_arm s slug kind s.active_view)
pack_step s (auto_start_pack_install slug kind project_id project_slug project_title version) =
    (s, install_pack_from_modrinth slug kind project_id project_slug project_title version ∷ [])
pack_step s (pack_versions_failed slug kind project_id message) =
    pack_install_failed_arm s slug kind [] [] message

abbrev pub icon_step : AppState → IconAction → Step
icon_step s (icon_fetched source project_id) = (s, [])
icon_step s (installed_icons_resolved slug source hits) =
    (s, installed_icons_resolved_arm s source hits)

-- `home` is the user's home directory, which the import of a modpack asks for.
unfoldable pub update : Option Text → AppState → Action → Step
update home s quit = (record s { should_quit = true }, quit_app ∷ [])
update home s tick = (s, [])
update home s (task event) = task_step s event
update home s (on_instances action) = instance_step s action
update home s (on_accounts action) = account_step s action
update home s (on_java action) = java_step s action
update home s (on_loaders action) = loader_step s action
update home s (on_launches action) = launch_step s action
update home s (on_services action) = service_step s action
update home s (on_mods action) = mod_step s action
update home s (on_cf action) = cf_step s action
update home s (on_modpacks action) = modpack_step home s action
update home s (on_packs action) = pack_step s action
update home s (on_icons action) = icon_step s action

-- The loop of src/tui/run.rs, over the actions in the order they arrive: the state it ends in, and
-- every effect that it started. It ends early where an action asks to quit.
unfoldable pub run : Option Text → AppState → List Action → Step
run home s [] = (s, [])
run home s (a ∷ rest) =
    let r = update home s a in
    let later = run home r.0 rest in if r.0.should_quit then r else (later.0, r.1 ++ later.1)
