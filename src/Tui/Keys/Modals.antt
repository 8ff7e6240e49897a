-- ===== src/Tui/Keys/Modals.antt =====
-- The keys of the modals of src/tui/views and src/tui/run.rs that a key leaves or answers.
use ichr.Base.{Option}
use ichr.Tui.Keys.{Event}
use ichr.Tui.Keys.Pickers.{esc_key, yes_no}
use ichr.Tui.Action.{
  Action, cancel_add_account, cancel_delete, cancel_loader_switch, cancel_uninstall_mod,
  close_modal, confirm_delete, confirm_loader_switch, confirm_uninstall_mod,
  dismiss_loader_install_failed, dismiss_mod_install_failed, on_accounts, on_cf, on_instances,
  on_loaders, on_modpacks, on_mods, on_packs,
}
use ichr.Tui.PackAction.{
  cancel_import, cancel_uninstall_pack, cf_dismiss_install_failed, confirm_uninstall_pack,
  dismiss_modpack_import_failed, dismiss_pack_install_failed,
}

abbrev pub map_delete_confirm_event : Event → Option Action
map_delete_confirm_event ev = yes_no (on_instances confirm_delete) (on_instances cancel_delete) ev

abbrev pub map_launch_failed_modal_event : Event → Option Action
map_launch_failed_modal_event ev = esc_key (on_instances close_modal) ev

abbrev pub map_add_account_device_code_event : Event → Option Action
map_add_account_device_code_event ev = esc_key (on_accounts cancel_add_account) ev

abbrev pub map_account_auth_failed_event : Event → Option Action
map_account_auth_failed_event ev = esc_key (on_instances close_modal) ev

abbrev pub map_loader_install_failed_event : Event → Option Action
map_loader_install_failed_event ev = esc_key (on_loaders dismiss_loader_install_failed) ev

abbrev pub map_loader_switch_confirm_event : Event → Option Action
map_loader_switch_confirm_event ev =
    yes_no (on_loaders confirm_loader_switch) (on_loaders cancel_loader_switch) ev

abbrev pub map_uninstall_mod_confirm_event : Event → Option Action
map_uninstall_mod_confirm_event ev =
    yes_no (on_mods confirm_uninstall_mod) (on_mods cancel_uninstall_mod) ev

abbrev pub map_mod_install_failed_event : Event → Option Action
map_mod_install_failed_event ev = esc_key (on_mods dismiss_mod_install_failed) ev

abbrev pub map_modpack_import_progress_event : Event → Option Action
map_modpack_import_progress_event ev = esc_key (on_modpacks cancel_import) ev

abbrev pub map_modpack_import_failed_event : Event → Option Action
map_modpack_import_failed_event ev = esc_key (on_modpacks dismiss_modpack_import_failed) ev

abbrev pub map_cf_install_failed_event : Event → Option Action
map_cf_install_failed_event ev = esc_key (on_cf cf_dismiss_install_failed) ev

abbrev pub map_uninstall_pack_confirm_event : Event → Option Action
map_uninstall_pack_confirm_event ev =
    yes_no (on_packs confirm_uninstall_pack) (on_packs cancel_uninstall_pack) ev

abbrev pub map_pack_install_failed_event : Event → Option Action
map_pack_install_failed_event ev = esc_key (on_packs dismiss_pack_install_failed) ev
