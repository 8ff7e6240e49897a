-- ===== src/Mods/Types.antt =====
-- src/mods/types.rs: versions and dependencies as Modrinth sends them, and the ledger's rows.
use ichr.Base.{ℕ, Bool, Option, List, [], Text}

pub data DepKind : Type 0 where
  required optional incompatible embedded : DepKind

pub record ModrinthDep : Type 0 where
  pub project_id : Option Text
  pub version_id : Option Text
  pub file_name : Option Text
  pub dependency_type : DepKind

pub record ModrinthHashes : Type 0 where
  pub sha1 : Text
  pub sha512 : Text

pub record ModrinthFile : Type 0 where
  pub url : Text
  pub filename : Text
  pub primary : Bool
  pub size : ℕ
  pub hashes : ModrinthHashes

pub record ModrinthVersion : Type 0 where
  pub id : Text
  pub project_id : Text
  pub name : Text
  pub version_number : Text
  pub version_type : Text
  pub game_versions : List Text
  pub loaders : List Text
  pub downloads : ℕ
  pub date_published : Text
  pub dependencies : List ModrinthDep
  pub files : List ModrinthFile

pub record ResolvedDep : Type 0 where
  pub kind : DepKind
  pub project_id : Text
  pub project_title : Text
  pub version : Option ModrinthVersion
  pub already_satisfied : Bool
  pub is_new_download : Bool

pub data ModSource : Type 0 where
  modrinth curse_forge manual modpack local : ModSource

pub data InstalledItemKind : Type 0 where
  mod_item resource_pack shader : InstalledItemKind

pub data HashAlgo : Type 0 where
  sha512 sha1 sha256 : HashAlgo

pub record InstalledModRow : Type 0 where
  pub mod_id : Text
  pub project_slug : Text
  pub display_name : Text
  pub version_id : Text
  pub version_label : Text
  pub file_name : Text
  pub sha512 : Text
  pub size : ℕ
  pub hash_algo : HashAlgo
  pub kind : InstalledItemKind
  pub source : ModSource
  pub enabled : Bool
  pub installed_at : Text

pub record Ledger : Type 0 where
  pub schema_version : ℕ
  pub mods : List InstalledModRow

unfoldable pub default_ledger : Ledger
default_ledger = record { schema_version = 1; mods = [] }
