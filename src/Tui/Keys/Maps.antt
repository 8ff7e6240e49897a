-- ===== src/Tui/Keys/Maps.antt =====
-- `map_event` of src/tui/run.rs: the action of an event in the view that has focus.
use ichr.Base.{Bool, false, ◌&&◌, Option, none, some, [], Text, ◌==◌, if◌then◌else◌}
use ichr.Tui.State.{AppState, Step}
use ichr.Tui.View.{
  ActiveView, create_modal, name_input, version_picker, account_auth_failed, accounts_list,
  add_account_device_code, cf_browser, cf_file_picker_modal, cf_install_failed_modal,
  delete_confirm, dep_confirm_modal, group_inline, installed_mods_list, installed_packs_list,
  instance_list, java_picker_modal, launch_failed_modal, loader_install_failed_modal,
  loader_install_progress_modal, loader_picker_modal, loader_switch_confirm,
  loader_version_picker_modal, mod_browser, mod_install_failed_modal, mod_version_picker_modal,
  modpack_import_failed_modal, modpack_import_path_input, modpack_import_progress_modal,
  pack_browser, pack_drop_path_input, pack_install_failed_modal, rename_inline,
  uninstall_mod_confirm, uninstall_pack_confirm,
}
use ichr.Tui.Action.{Action, quit}
use ichr.Tui.Keys.{char, Event, key, Keybinds}
use ichr.Tui.Keys.Instances.{
  map_accounts_list_event, map_instance_list_event, map_version_picker_event,
}
use ichr.Tui.Keys.Browsers.{
  map_cf_browser_event, map_installed_mods_list_event, map_installed_packs_list_event,
  map_mod_browser_event, map_pack_browser_event,
}
use ichr.Tui.Keys.Modals.{
  map_delete_confirm_event, map_launch_failed_modal_event, map_add_account_device_code_event,
  map_account_auth_failed_event, map_loader_install_failed_event, map_loader_switch_confirm_event,
  map_uninstall_mod_confirm_event, map_mod_install_failed_event, map_modpack_import_progress_event,
  map_modpack_import_failed_event, map_cf_install_failed_event, map_uninstall_pack_confirm_event,
  map_pack_install_failed_event,
}
use ichr.Tui.Keys.Pickers.{
  map_cf_file_picker_event, map_dep_confirm_event, map_group_inline_event, map_java_picker_event,
  map_loader_install_progress_event, map_loader_picker_event, map_loader_version_picker_event,
  map_mod_version_picker_event, map_modpack_import_path_event, map_name_input_event,
  map_pack_drop_path_event, map_rename_inline_event,
}
use ichr.Tui.Update.Step.{update}

abbrev pub is_ctrl_c : Event → Bool
is_ctrl_c (key e) = elim e.code [ char c ↦ c == b'c' && e.modifiers.control | _ ↦ false ]
is_ctrl_c _ = false

abbrev pub map_view : Keybinds → Event → AppState → ActiveView → Option Action
map_view kb ev s (create_modal (name_input _ _)) = map_name_input_event ev s
map_view kb ev s (create_modal (version_picker _ _ _ _)) = map_version_picker_event ev s
map_view kb ev s (instance_list _) = map_instance_list_event kb ev s
map_view kb ev s (delete_confirm _ _) = map_delete_confirm_event ev
map_view kb ev s (rename_inline _ _ _) = map_rename_inline_event ev s
map_view kb ev s (group_inline _ _ _) = map_group_inline_event ev s
map_view kb ev s (launch_failed_modal _ _ _) = map_launch_failed_modal_event ev
map_view kb ev s (accounts_list _) = map_accounts_list_event ev s
map_view kb ev s (add_account_device_code _) = map_add_account_device_code_event ev
map_view kb ev s (account_auth_failed _) = map_account_auth_failed_event ev
map_view kb ev s (java_picker_modal _) = map_java_picker_event ev
map_view kb ev s (loader_picker_modal _ _) = map_loader_picker_event ev
map_view kb ev s (loader_version_picker_modal _) = map_loader_version_picker_event ev
map_view kb ev s (loader_install_progress_modal _) = map_loader_install_progress_event ev s
map_view kb ev s (loader_install_failed_modal _ _ _ _ _) = map_loader_install_failed_event ev
map_view kb ev s (loader_switch_confirm _) = map_loader_switch_confirm_event ev
map_view kb ev s (mod_browser _) = map_mod_browser_event ev s
map_view kb ev s (mod_version_picker_modal _) = map_mod_version_picker_event ev
map_view kb ev s (dep_confirm_modal _) = map_dep_confirm_event ev s
map_view kb ev s (installed_mods_list _) = map_installed_mods_list_event ev
map_view kb ev s (uninstall_mod_confirm _ _ _) = map_uninstall_mod_confirm_event ev
map_view kb ev s (mod_install_failed_modal _) = map_mod_install_failed_event ev
map_view kb ev s (cf_browser _) = map_cf_browser_event ev s
map_view kb ev s (modpack_import_path_input _ _) = map_modpack_import_path_event ev
map_view kb ev s (modpack_import_progress_modal _) = map_modpack_import_progress_event ev
map_view kb ev s (modpack_import_failed_modal _ _ _) = map_modpack_import_failed_event ev
map_view kb ev s (cf_file_picker_modal _) = map_cf_file_picker_event ev
map_view kb ev s (cf_install_failed_modal _ _ _ _ _) = map_cf_install_failed_event ev
map_view kb ev s (pack_browser _) = map_pack_browser_event ev s
map_view kb ev s (installed_packs_list _) = map_installed_packs_list_event ev s
map_view kb ev s (pack_drop_path_input _) = map_pack_drop_path_event ev
map_view kb ev s (uninstall_pack_confirm _ _ _ _) = map_uninstall_pack_confirm_event ev
map_view kb ev s (pack_install_failed_modal _) = map_pack_install_failed_event ev

abbrev pub map_event : Keybinds → Event → AppState → Option Action
map_event kb ev s = if is_ctrl_c ev then some quit else map_view kb ev s s.active_view

-- An event handled by the loop: its action, if it has one, goes to `update`.
abbrev pub taken : Option Text → AppState → Option Action → Step
taken home s none = (s, [])
taken home s (some action) = update home s action

unfoldable pub handle : Option Text → Keybinds → AppState → Event → Step
handle home kb s ev = taken home s (map_event kb ev s)
