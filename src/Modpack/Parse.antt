-- ===== src/Modpack/Parse.antt =====
-- src/modpack/parse.rs and the cases of src/modpack/error.rs that it raises. The JSON library is a
-- parameter.
pub mod Loaders
use ichr.Base.{
  ℕ, Bool, true, false, not, Option, none, some, List, [], ◌∷◌, ◌++◌, Text, codes, text_eq, lookup,
  keys, contains, is_some, Result, ok, err, ◌==◌, if◌then◌else◌,
}

pub data ModpackError : Type 0 where
  unsupported_format : (version : ℕ) → ModpackError
  unsupported_game : (game : Text) → ModpackError
  manifest_parse : (message : Text) → ModpackError
  missing_minecraft_dependency : ModpackError

pub data EnvRequirement : Type 0 where
  required optional unsupported : EnvRequirement

pub record MrpackEnv : Type 0 where
  pub client : EnvRequirement
  pub server : EnvRequirement

pub record MrpackHashes : Type 0 where
  pub sha1 : Text
  pub sha512 : Text

pub record MrpackFile : Type 0 where
  pub path : Text
  pub hashes : MrpackHashes
  pub env : Option MrpackEnv
  pub downloads : List Text
  pub file_size : ℕ

pub record MrpackIndex : Type 0 where
  pub format_version : ℕ
  pub game : Text
  pub version_id : Text
  pub name : Text
  pub summary : Option Text
  pub dependencies : List (Text × Text)
  pub files : List MrpackFile

abbrev check_index : MrpackIndex → Result ModpackError MrpackIndex
check_index idx =
    if not (idx.format_version == 1)
    then err (unsupported_format idx.format_version)
    else if not (text_eq idx.game (codes "minecraft"))
    then err (unsupported_game idx.game)
    else if not (is_some (lookup (codes "minecraft") idx.dependencies))
    then err missing_minecraft_dependency
    else ok idx

abbrev check_parsed : Result Text MrpackIndex → Result ModpackError MrpackIndex
check_parsed (ok idx) = check_index idx
check_parsed (err e) = err (manifest_parse e)

-- `from_str` is `serde_json::from_str`.
unfoldable pub parse_index :
    (Text → Result Text MrpackIndex) → Text → Result ModpackError MrpackIndex
parse_index from_str json = check_parsed (from_str json)

pub data LoaderType : Type 0 where
  fabric quilt forge neo_forge : LoaderType

abbrev pub loaders : List (Text × LoaderType)
loaders =
    (codes "fabric-loader", fabric)
    ∷ (codes "quilt-loader", quilt)
    ∷ (codes "forge", forge)
    ∷ (codes "neoforge", neo_forge)
    ∷ []

abbrev push_found : LoaderType → Option Text → List (LoaderType × Text) → List (LoaderType × Text)
push_found loader none found = found
push_found loader (some version) found = (loader, version) ∷ found

-- The loop over the loaders.
unfoldable pub found_loaders :
    List (Text × Text) → List (Text × LoaderType) → List (LoaderType × Text)
found_loaders deps [] = []
found_loaders deps ((key, loader) ∷ rest) =
    push_found loader (lookup key deps) (found_loaders deps rest)

abbrev first_found : List (LoaderType × Text) → Option (LoaderType × Text)
first_found [] = none
first_found (f ∷ found) = some f

-- With several keys the code also logs a warning.
unfoldable pub detect_loader : List (Text × Text) → Option (LoaderType × Text)
unfolding found_loaders
detect_loader deps = first_found (found_loaders deps loaders)

abbrev is_unsupported : EnvRequirement → Bool
is_unsupported unsupported = true
is_unsupported _ = false

unfoldable pub should_download_for_client : Option MrpackEnv → Bool
should_download_for_client none = true
should_download_for_client (some env) = not (is_unsupported env.client)

unfoldable pub strip_leading_dot_slash : Text → Text
strip_leading_dot_slash [] = []
strip_leading_dot_slash (c ∷ []) = c ∷ []
strip_leading_dot_slash (c ∷ d ∷ path) =
    if c == b'.' then (if d == b'/' then path else c ∷ d ∷ path) else c ∷ d ∷ path
