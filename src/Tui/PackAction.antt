-- ===== src/Tui/PackAction.antt =====
-- The sections of `Action` in src/tui/app.rs for CurseForge, for modpacks and for resource packs
-- and shaders.
use ichr.Base.{ℕ, Bool, Option, List, Text, ℤ}
use ichr.Mods.Types.{ModrinthVersion, InstalledModRow}
use ichr.Mods.Hits.{
  ModrinthSearchHit, CurseForgeSearchHit, CurseForgeProjectDetail, CurseForgeFileEntry,
}
use ichr.Packs.{PackKind}
use ichr.Tui.State.{Token}

-- Phase 9: CurseForge.
pub data CfAction : Type 0 where
  open_cf_browser : (slug : Text) → CfAction
  cf_browser_search_start : (slug query : Text) (mc : Option Text) (loader : Option ℤ) → CfAction
  cf_browser_search_loaded : (slug : Text) (hits : List CurseForgeSearchHit) → CfAction
  cf_browser_search_failed : (slug error : Text) → CfAction
  cf_browser_move_selection : (delta : ℤ) → CfAction
  cf_browser_toggle_mc_filter cf_browser_toggle_loader_filter : CfAction
  cf_browser_open_detail : (slug : Text) (mod_id : ℕ) → CfAction
  cf_browser_detail_loaded : (slug : Text) (detail : CurseForgeProjectDetail) → CfAction
  cf_browser_type_search : (c : ℕ) → CfAction
  cf_browser_paste_search : (s : Text) → CfAction
  cf_browser_backspace_search : CfAction
  cf_file_picker_loaded :
      (slug : Text) (mod_detail : CurseForgeProjectDetail) (files : List CurseForgeFileEntry)
      → CfAction
  cf_file_picker_move : (delta : ℤ) → CfAction
  cf_file_picker_confirm : CfAction
  cf_mod_install_started : (slug : Text) (mod_id file_id : ℕ) (token : Token) → CfAction
  cf_mod_installed : (slug : Text) (mod_id : ℕ) → CfAction
  cf_mod_install_failed :
      (slug mod_title file_label error : Text) (web_url : Option Text) → CfAction
  cf_dismiss_install_failed : CfAction

-- Phase 10: the import of a modpack.
pub data ModpackAction : Type 0 where
  open_modpack_import : ModpackAction
  import_path_type_search : (c : ℕ) → ModpackAction
  import_path_paste_search : (s : Text) → ModpackAction
  import_path_backspace_search import_path_submit import_path_cancel : ModpackAction
  modpack_import_started : (slug modpack_name : Text) (token : Token) → ModpackAction
  modpack_import_progress :
      (slug : Text) (pct : ℕ) (step_label : Text) (bytes_done bytes_total : ℕ) → ModpackAction
  modpack_imported : (slug : Text) → ModpackAction
  modpack_import_cancelled : ModpackAction
  modpack_import_failed : (modpack_name error log_tail : Text) → ModpackAction
  cancel_import dismiss_modpack_import_failed : ModpackAction

-- Phase 11: resource packs and shaders.
pub data PackAction : Type 0 where
  open_pack_browser : (slug : Text) (kind : PackKind) → PackAction
  pack_browser_move : (delta : ℤ) → PackAction
  pack_browser_type_search : (c : ℕ) → PackAction
  pack_browser_backspace_search : PackAction
  pack_browser_paste_search : (s : Text) → PackAction
  pack_browser_begin_search pack_browser_exit_search : PackAction
  pack_browser_search_loaded :
      (slug : Text) (kind : PackKind) (hits : List ModrinthSearchHit) → PackAction
  pack_browser_search_failed : (slug : Text) (kind : PackKind) (message : Text) → PackAction
  pack_browser_close : PackAction
  pack_drop_path_open : (slug : Text) (kind : PackKind) → PackAction
  pack_drop_path_type : (c : ℕ) → PackAction
  pack_drop_path_backspace : PackAction
  pack_drop_path_paste : (s : Text) → PackAction
  pack_drop_path_submit pack_drop_path_cancel : PackAction
  installed_packs_loaded :
      (slug : Text) (kind : PackKind) (packs : List InstalledModRow) → PackAction
  installed_packs_move : (delta : ℤ) → PackAction
  installed_packs_cycle_kind toggle_pack_enabled shader_toggle_notice : PackAction
  open_uninstall_pack_confirm confirm_uninstall_pack cancel_uninstall_pack : PackAction
  pack_installed : (slug : Text) (kind : PackKind) → PackAction
  pack_install_failed :
      (slug : Text) (kind : PackKind) (pack_title version_label error : Text) → PackAction
  dismiss_pack_install_failed : PackAction
  pack_drop_failed : (slug : Text) (kind : PackKind) (error : Text) → PackAction
  pack_uninstalled : (slug : Text) (kind : PackKind) (mod_id : Text) → PackAction
  pack_toggled : (slug : Text) (kind : PackKind) (mod_id : Text) (new_enabled : Bool) → PackAction
  pack_toggle_failed : (slug : Text) (kind : PackKind) (error : Text) → PackAction
  install_pack_from_browser : (slug : Text) (kind : PackKind) → PackAction
  auto_start_pack_install :
      (slug : Text) (kind : PackKind) (project_id project_slug project_title : Text)
      (version : ModrinthVersion)
      → PackAction
  pack_versions_failed : (slug : Text) (kind : PackKind) (project_id message : Text) → PackAction
