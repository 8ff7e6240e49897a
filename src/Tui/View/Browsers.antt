-- ===== src/Tui/View/Browsers.antt =====
-- The browser views of src/tui/app.rs, and those of resource packs and shaders.
use ichr.Base.{ℕ, Bool, Option, List, Text, ℤ}
use ichr.Mods.Types.{InstalledModRow}
use ichr.Mods.Hits.{
  ModrinthSearchHit, ModrinthProjectDetail, ModBrowserFetchState, CurseForgeSearchHit,
  CurseForgeProjectDetail, CurseForgeFileEntry,
}
use ichr.Packs.{PackKind}

pub record ModBrowser : Type 0 where
  pub slug : Text
  pub search : Text
  pub is_searching : Bool
  pub mc_filter_override : Option Text
  pub loader_filter_override : Option Text
  pub results : List ModrinthSearchHit
  pub selected : ℕ
  pub fetch_state : ModBrowserFetchState
  pub selected_detail : Option ModrinthProjectDetail
  pub scroll_offset : ℕ

pub record CfBrowser : Type 0 where
  pub slug : Text
  pub search_input : Text
  pub results : List CurseForgeSearchHit
  pub selected : ℕ
  pub fetch_state : ModBrowserFetchState
  pub mc_filter : Option Text
  pub loader_filter : Option ℤ
  pub selected_detail : Option CurseForgeProjectDetail

pub record CfFilePicker : Type 0 where
  pub slug : Text
  pub mod_detail : CurseForgeProjectDetail
  pub files : List CurseForgeFileEntry
  pub selected : ℕ

pub record PackBrowser : Type 0 where
  pub slug : Text
  pub kind : PackKind
  pub search : Text
  pub is_searching : Bool
  pub fetch_state : ModBrowserFetchState
  pub results : List ModrinthSearchHit
  pub selected : ℕ
  pub scroll_offset : ℕ

pub record InstalledPacks : Type 0 where
  pub slug : Text
  pub kind : PackKind
  pub packs : List InstalledModRow
  pub selected : ℕ
  pub transient_status : Option Text

pub record PackDrop : Type 0 where
  pub slug : Text
  pub kind : PackKind
  pub buffer : Text
  pub error : Option Text

pub data PackInstallFailedReturnTo : Type 0 where
  to_pack_browser to_installed_packs : PackInstallFailedReturnTo

pub record PackInstallFailed : Type 0 where
  pub slug : Text
  pub kind : PackKind
  pub pack_title : Text
  pub version_label : Text
  pub error : Text
  pub return_to : PackInstallFailedReturnTo
