-- ===== src/Tui/View.antt =====
-- The views of src/tui/app.rs: which screen or modal has focus, with what it holds.
pub mod Browsers
use ichr.Base.{ℕ, Bool, Option, List, [], ◌∷◌, Text}
use ichr.Domain.Instance.{SystemJava, LoaderVersionEntry}
use ichr.Modpack.Parse.{LoaderType}
use ichr.Mods.Types.{ModrinthVersion, ResolvedDep, InstalledModRow}
use ichr.Mods.Hits.{ModrinthVersionEntry}
use ichr.Packs.{PackKind}
use ichr.Tui.View.Browsers.{
  ModBrowser, CfBrowser, CfFilePicker, PackBrowser, InstalledPacks, PackDrop, PackInstallFailed,
}

pub data VersionFilter : Type 0 where
  releases all_versions : VersionFilter

pub data CreateStep : Type 0 where
  name_input : (current : Text) (error : Option Text) → CreateStep
  version_picker :
      (name : Text) (filter : VersionFilter) (search : Text) (error : Option Text) → CreateStep

pub data ModInstallFailedReturnTo : Type 0 where
  to_mod_browser to_installed_mods : ModInstallFailedReturnTo

pub data JavaPickerRow : Type 0 where
  auto manual : JavaPickerRow
  detected : (java : SystemJava) → JavaPickerRow

pub record DeviceCode : Type 0 where
  pub user_code : Text
  pub verification_uri : Text
  pub expires_at : ℕ
  pub stage : Text

pub record JavaPicker : Type 0 where
  pub slug : Text
  pub options : List JavaPickerRow
  pub selected : ℕ

pub record LoaderVersionPicker : Type 0 where
  pub slug : Text
  pub loader : LoaderType
  pub versions : List LoaderVersionEntry
  pub filter_stable_only : Bool
  pub search : Text
  pub selected : ℕ
  pub current_version : Option Text

pub record LoaderInstallProgress : Type 0 where
  pub slug : Text
  pub loader : LoaderType
  pub version : Text
  pub step_label : Text
  pub step_index : ℕ
  pub step_total : ℕ
  pub bytes_done : ℕ
  pub bytes_total : ℕ
  pub cancel_token_key : Text
  pub log_tail : Text

pub record LoaderSwitch : Type 0 where
  pub slug : Text
  pub from_loader : Option Text
  pub to_loader : Text
  pub type_switch : Bool

pub record ModVersionPicker : Type 0 where
  pub slug : Text
  pub project_id : Text
  pub project_title : Text
  pub versions : List ModrinthVersionEntry
  pub selected : ℕ

pub record DepConfirm : Type 0 where
  pub slug : Text
  pub project_id : Text
  pub project_title : Text
  pub version_id : Text
  pub version_label : Text
  pub deps : List ResolvedDep
  pub total_bytes : ℕ
  pub total_files : ℕ
  pub has_conflict : Bool
  pub root_version : ModrinthVersion

pub record InstalledMods : Type 0 where
  pub slug : Text
  pub mods : List InstalledModRow
  pub selected : ℕ

pub record ModInstallFailed : Type 0 where
  pub slug : Text
  pub mod_title : Text
  pub version_label : Text
  pub error : Text
  pub log_tail : Text
  pub return_to : ModInstallFailedReturnTo

pub record ModpackProgress : Type 0 where
  pub modpack_name : Text
  pub step_label : Text
  pub step_index : ℕ
  pub step_total : ℕ
  pub bytes_done : ℕ
  pub bytes_total : ℕ
  pub cancel_token_key : Text
  pub log_tail : Text

pub data ActiveView : Type 0 where
  instance_list : (selected : ℕ) → ActiveView
  create_modal : (step : CreateStep) → ActiveView
  delete_confirm : (slug display_name : Text) → ActiveView
  rename_inline : (slug current original : Text) → ActiveView
  group_inline : (slug buffer : Text) (original : Option Text) → ActiveView
  launch_failed_modal : (slug error log_tail : Text) → ActiveView
  accounts_list : (selected : ℕ) → ActiveView
  add_account_device_code : (code : DeviceCode) → ActiveView
  account_auth_failed : (reason : Text) → ActiveView
  java_picker_modal : (picker : JavaPicker) → ActiveView
  loader_picker_modal : (slug : Text) (selected : ℕ) → ActiveView
  loader_version_picker_modal : (picker : LoaderVersionPicker) → ActiveView
  loader_install_progress_modal : (progress : LoaderInstallProgress) → ActiveView
  loader_install_failed_modal :
      (slug : Text) (loader : LoaderType) (version error log_tail : Text) → ActiveView
  loader_switch_confirm : (confirm : LoaderSwitch) → ActiveView
  mod_browser : (browser : ModBrowser) → ActiveView
  mod_version_picker_modal : (picker : ModVersionPicker) → ActiveView
  dep_confirm_modal : (confirm : DepConfirm) → ActiveView
  installed_mods_list : (list : InstalledMods) → ActiveView
  uninstall_mod_confirm : (slug mod_id display_name : Text) → ActiveView
  mod_install_failed_modal : (failure : ModInstallFailed) → ActiveView
  cf_browser : (browser : CfBrowser) → ActiveView
  cf_file_picker_modal : (picker : CfFilePicker) → ActiveView
  cf_install_failed_modal :
      (slug mod_title file_label error_message : Text) (web_url : Option Text) → ActiveView
  modpack_import_path_input : (buffer : Text) (error : Option Text) → ActiveView
  modpack_import_progress_modal : (progress : ModpackProgress) → ActiveView
  modpack_import_failed_modal : (modpack_name error log_tail : Text) → ActiveView
  pack_browser : (browser : PackBrowser) → ActiveView
  installed_packs_list : (list : InstalledPacks) → ActiveView
  pack_drop_path_input : (input : PackDrop) → ActiveView
  uninstall_pack_confirm : (slug : Text) (kind : PackKind) (mod_id file_name : Text) → ActiveView
  pack_install_failed_modal : (failure : PackInstallFailed) → ActiveView

-- `ActiveView::default`
abbrev pub default_view : ActiveView
default_view = instance_list 0
