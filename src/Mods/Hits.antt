-- ===== src/Mods/Hits.antt =====
-- What the browsers of mods show: the view types of src/mods/types.rs, those of
-- src/mods/curseforge/types.rs and the enums of src/icons/mod.rs.
use ichr.Base.{ℕ, Bool, Option, List, Text, ℤ}

pub record ModrinthSearchHit : Type 0 where
  pub project_id : Text
  pub slug : Text
  pub title : Text
  pub description : Text
  pub downloads : ℕ
  pub already_installed : Bool
  pub icon_url : Option Text

pub record ModrinthProjectDetail : Type 0 where
  pub project_id : Text
  pub title : Text
  pub author : Text
  pub body : Text
  pub downloads : ℕ
  pub latest_version_label : Text
  pub latest_version_channel : Text
  pub license_id : Text
  pub categories : List Text

pub record ModrinthVersionEntry : Type 0 where
  pub version_id : Text
  pub version_label : Text
  pub channel : Text
  pub is_latest_stable : Bool

pub data ModBrowserFetchState : Type 0 where
  loading ready : ModBrowserFetchState
  error : (message : Text) → ModBrowserFetchState

pub record CurseForgeCategory : Type 0 where
  pub id : ℤ
  pub name : Text

pub record CurseForgeLogo : Type 0 where
  pub url : Text

pub record CurseForgeSearchHit : Type 0 where
  pub id : ℕ
  pub slug : Text
  pub name : Text
  pub summary : Text
  pub download_count : ℕ
  pub categories : List CurseForgeCategory
  pub logo : Option CurseForgeLogo
  pub already_installed : Bool

pub record CurseForgeAuthor : Type 0 where
  pub id : ℤ
  pub name : Text
  pub url : Text

pub record CurseForgeLinks : Type 0 where
  pub website_url : Text
  pub source_url : Option Text
  pub wiki_url : Option Text

pub record CurseForgeProjectDetail : Type 0 where
  pub id : ℕ
  pub slug : Text
  pub name : Text
  pub summary : Text
  pub description : Text
  pub download_count : ℕ
  pub authors : List CurseForgeAuthor
  pub links : CurseForgeLinks

pub record CurseForgeHash : Type 0 where
  pub value : Text
  pub algo : ℤ

pub record CurseForgeFileDep : Type 0 where
  pub mod_id : ℕ
  pub relation_type : ℤ

pub record CurseForgeFileEntry : Type 0 where
  pub id : ℕ
  pub display_name : Text
  pub file_name : Text
  pub release_type : ℤ
  pub file_status : ℤ
  pub hashes : List CurseForgeHash
  pub file_date : Text
  pub file_length : ℕ
  pub download_count : ℕ
  pub download_url : Option Text
  pub game_versions : List Text
  pub dependencies : List CurseForgeFileDep
  pub is_available : Bool

pub data IconSource : Type 0 where
  modrinth curseforge : IconSource

pub data IconFetchPurpose : Type 0 where
  detail list_row : IconFetchPurpose
