-- ===== src/Mojang/Inherits.antt =====
-- src/mojang/inherits.rs: a version merged with the parents that it inherits from.
pub mod Chain
pub mod Complete
pub mod Libraries
use ichr.Base.{
  ℕ, zero, suc, ◌+◌, Option, none, some, List, [], ◌∷◌, ◌++◌, map, Text, codes, text_eq, contains,
  lookup, leb, or_else, if◌then◌else◌, Result, ok, err, ok_or, ◌>>=◌,
}
use ichr.Error.{
  AppError, inherits_from_cycle, inherits_from_depth_exceeded, inherits_from_parent_missing,
  inherits_from_missing_required,
}
use ichr.Mojang.Types.{Library, Arguments, VersionJson, ResolvedVersion}
use ichr.Mojang.Natives.{maven_group_artifact}

abbrev pub max_inherits_depth : ℕ
max_inherits_depth = 3

abbrev pub lib_key : Library → Text
lib_key l = maven_group_artifact l.name

-- `iter().position(|k| k == key)`
unfoldable pub position : Text → List Text → Option ℕ
position key [] = none
position key (k ∷ ks) =
    if text_eq k key then some 0 else elim (position key ks) [ some i ↦ some (suc i) | none ↦ none ]

-- `libs[idx] = l`
unfoldable pub set : List Library → ℕ → Library → List Library
set [] i l = []
set (x ∷ xs) zero l = l ∷ xs
set (x ∷ xs) (suc i) l = x ∷ set xs i l

-- One round of the loop over the child's libraries.
unfoldable pub place : List Text → List Library → Library → List Library
place parent_keys libs cl = elim (position (lib_key cl) parent_keys) [
  | some idx ↦ set libs idx cl
  | none ↦ libs ++ cl ∷ []
]

unfoldable pub place_all : List Text → List Library → List Library → List Library
place_all parent_keys libs [] = libs
place_all parent_keys libs (cl ∷ cls) = place_all parent_keys (place parent_keys libs cl) cls

unfoldable pub merge_libraries : List Library → List Library → List Library
merge_libraries parent child = place_all (map lib_key parent) parent child

unfoldable pub merge_arguments : Option Arguments → Option Arguments → Option Arguments
merge_arguments (some p) (some c) = some (record { game = p.game ++ c.game; jvm = p.jvm ++ c.jvm })
merge_arguments none (some c) = some c
merge_arguments (some p) none = some p
merge_arguments none none = none

unfoldable pub merge : VersionJson → VersionJson → VersionJson
merge parent child = record {
  id = child.id;
  version_type = child.version_type;
  main_class = child.main_class;
  asset_index = or_else child.asset_index parent.asset_index;
  assets = or_else child.assets parent.assets;
  downloads = or_else child.downloads parent.downloads;
  libraries = merge_libraries parent.libraries child.libraries;
  java_version = or_else child.java_version parent.java_version;
  logging = or_else child.logging parent.logging;
  compliance_level = or_else child.compliance_level parent.compliance_level;
  minimum_launcher_version = or_else child.minimum_launcher_version parent.minimum_launcher_version;
  release_time = child.release_time;
  time = child.time;
  arguments = merge_arguments parent.arguments child.arguments;
  minecraft_arguments = or_else child.minecraft_arguments parent.minecraft_arguments;
  inherits_from = none;
}

abbrev pub Parents : Type 0
Parents = List (Text × VersionJson)

-- The body of `resolve_inner`, with its recursive call as the argument `rec`.
abbrev pub Resolver : Type 0
Resolver = VersionJson → List Text → ℕ → Result AppError VersionJson

unfoldable pub resolve_parent :
    Parents → Resolver → VersionJson → List Text → ℕ → Text → Result AppError VersionJson
resolve_parent parents rec child seen depth parent_id =
    if contains seen parent_id
    then err (inherits_from_cycle parent_id)
    else if leb max_inherits_depth (depth + 1)
    then err (inherits_from_depth_exceeded parent_id max_inherits_depth)
    else do
      parent ← ok_or (lookup parent_id parents) (inherits_from_parent_missing parent_id)
      resolved_parent ← rec parent (parent_id ∷ seen) (depth + 1)
      ok (merge resolved_parent child)

unfoldable pub resolve_step :
    Parents → Resolver → VersionJson → List Text → ℕ → Result AppError VersionJson
unfolding resolve_parent
resolve_step parents rec child seen depth = elim child.inherits_from [
  | none ↦ ok child
  | some parent_id ↦ resolve_parent parents rec child seen depth parent_id
]

abbrev pub out_of_fuel : Resolver
out_of_fuel child seen depth = err (inherits_from_depth_exceeded child.id max_inherits_depth)

-- `resolve_inner` on fuel. The depth test stops the recursion first (`resolve_inner_fuel`), so the
-- answer of `out_of_fuel` is never read.
unfoldable pub resolve_inner :
    Parents → ℕ → VersionJson → List Text → ℕ → Result AppError VersionJson
unfolding resolve_step
resolve_inner parents zero = resolve_step parents out_of_fuel
resolve_inner parents (suc fuel) = resolve_step parents (resolve_inner parents fuel)

-- The loop of `compute_root_id`.
unfoldable pub root_walk : Parents → ℕ → VersionJson → Text
root_walk parents zero current = current.id
root_walk parents (suc n) current = elim current.inherits_from [
  | none ↦ current.id
  | some parent_id ↦ elim (lookup parent_id parents) [
    | some p ↦ root_walk parents n p
    | none ↦ current.id
  ]
]

unfoldable pub compute_root_id : VersionJson → Parents → Text
unfolding root_walk
compute_root_id child parents = root_walk parents (max_inherits_depth + 1) child

abbrev missing : Text → Text → AppError
missing field id = inherits_from_missing_required field id

unfoldable pub promote : VersionJson → Text → VersionJson → Result AppError ResolvedVersion
promote child root_id merged = do
  asset_index ← ok_or merged.asset_index (missing (codes "asset_index") child.id)
  assets ← ok_or merged.assets (missing (codes "assets") child.id)
  downloads ← ok_or merged.downloads (missing (codes "downloads") child.id)
  ok (record {
    id = merged.id;
    root_id = root_id;
    version_type = merged.version_type;
    main_class = merged.main_class;
    asset_index = asset_index;
    assets = assets;
    downloads = downloads;
    libraries = merged.libraries;
    java_version = merged.java_version;
    logging = merged.logging;
    compliance_level = merged.compliance_level;
    minimum_launcher_version = merged.minimum_launcher_version;
    release_time = merged.release_time;
    time = merged.time;
    arguments = merged.arguments;
    minecraft_arguments = merged.minecraft_arguments;
  })

unfoldable pub resolve_inherits : VersionJson → Parents → Result AppError ResolvedVersion
unfolding resolve_inner compute_root_id promote
resolve_inherits child parents = do
  merged ← resolve_inner parents max_inherits_depth child (child.id ∷ []) 0
  promote child (compute_root_id child parents) merged
