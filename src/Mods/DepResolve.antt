-- ===== src/Mods/DepResolve.antt =====
-- src/mods/dep_resolve.rs: the required dependencies of a version, breadth first. The three fetch
-- closures of the caller are a parameter: each answers a request always in the same way.
pub mod Entries
pub mod Invariant
pub mod Closure
pub mod Totals
pub mod Graph
pub mod Fuel
use ichr.Base.{
  ℕ, zero, suc, ◌+◌, ◌%◌, ◌^◌, Bool, true, false, Option, none, some, List, [], ◌∷◌, ◌++◌, map,
  Text, contains, lookup, keys, if◌then◌else◌, Result, ok, err, ◌>>=◌,
}
use ichr.Mods.Types.{
  DepKind, required, optional, incompatible, embedded, ModrinthDep, ModrinthVersion, ResolvedDep,
}
use ichr.Mods.Error.{ModrinthError, dependency_conflict, no_compatible_version}
use ichr.Mods.Filter.{pick_primary_file}

pub record Fetch : Type 0 where
  pub latest_for_project : Text → Text → List Text → Result ModrinthError (Option ModrinthVersion)
  pub version_by_id : Text → Result ModrinthError ModrinthVersion
  pub project_titles : List Text → Result ModrinthError (List (Text × Text))

-- What the caller passes beside the root.
pub record Request : Type 0 where
  pub fetch : Fetch
  pub mc : Text
  pub loaders : List Text
  pub installed : List (Text × Text)

-- The variables of the loop.
pub record Walk : Type 0 where
  pub seen : List Text
  pub q : List ModrinthVersion
  pub deps : List ResolvedDep

pub record ResolvedDepGraph : Type 0 where
  pub root : ModrinthVersion
  pub deps : List ResolvedDep
  pub total_new_bytes : ℕ
  pub total_new_files : ℕ

module _ (rq : Request) where
  abbrev pub is_installed : Text → Bool
  is_installed project_id = contains (keys rq.installed) project_id

  abbrev pub entry : DepKind → Text → Bool → ResolvedDep
  entry kind project_id satisfied = record {
    kind = kind;
    project_id = project_id;
    project_title = [];
    version = none;
    already_satisfied = satisfied;
    is_new_download = false;
  }

  abbrev pub new_entry : Text → ModrinthVersion → ResolvedDep
  new_entry project_id version = record {
    kind = required;
    project_id = project_id;
    project_title = [];
    version = some version;
    already_satisfied = false;
    is_new_download = true;
  }

  abbrev push : Walk → ResolvedDep → Walk
  push w d = record w { deps = w.deps ++ d ∷ [] }

  -- The required project is not seen: it is fetched and queued.
  abbrev download : Text → Walk → Option ModrinthVersion → Result ModrinthError Walk
  download project_id w none = err (no_compatible_version project_id rq.mc rq.loaders)
  download project_id w (some version) = ok (record {
    seen = project_id ∷ w.seen;
    q = w.q ++ version ∷ [];
    deps = w.deps ++ new_entry project_id version ∷ [];
  })

  unfoldable pub process_kind : DepKind → Text → ModrinthVersion → Walk → Result ModrinthError Walk
  process_kind embedded project_id parent w = ok (push w (entry embedded project_id true))
  process_kind incompatible project_id parent w =
      if is_installed project_id
      then err (dependency_conflict project_id parent.project_id)
      else ok (push w (entry incompatible project_id false))
  process_kind optional project_id parent w =
      ok (push w (entry optional project_id (is_installed project_id)))
  process_kind required project_id parent w =
      if contains w.seen project_id then ok (push w (entry required project_id true)) else do
        chosen ← rq.fetch.latest_for_project project_id rq.mc rq.loaders
        download project_id w chosen

  unfoldable pub process_dep :
      ModrinthDep → Text → ModrinthVersion → Walk → Result ModrinthError Walk
  unfolding process_kind
  process_dep d project_id parent w = process_kind d.dependency_type project_id parent w

  abbrev project_of : Option Text → Option Text → Result ModrinthError (Option Text)
  project_of (some pid) v = ok (some pid)
  project_of none (some vid) = do
    resolved ← rq.fetch.version_by_id vid
    ok (some resolved.project_id)
  project_of none none = ok none

  -- The project that a dependency names; `none` is the `continue` of the loop.
  unfoldable pub dep_project : ModrinthDep → Result ModrinthError (Option Text)
  dep_project d = project_of d.project_id d.version_id

  abbrev process_project :
      ModrinthDep → ModrinthVersion → Walk → Option Text → Result ModrinthError Walk
  process_project d v w none = ok w
  process_project d v w (some project_id) = process_dep d project_id v w

  -- One round of the inner loop, and the inner loop.
  unfoldable pub step_dep : ModrinthVersion → ModrinthDep → Walk → Result ModrinthError Walk
  step_dep v d w = do project ← dep_project d; process_project d v w project

  unfoldable pub step_deps : ModrinthVersion → List ModrinthDep → Walk → Result ModrinthError Walk
  step_deps v [] w = ok w
  step_deps v (d ∷ ds) w = do w' ← step_dep v d w; step_deps v ds w'

  -- The outer loop, on fuel: `none` is the end of the fuel.
  unfoldable pub walk_queue : ℕ → List ModrinthVersion → Walk → Option (Result ModrinthError Walk)
  walk_queue fuel [] w = some (ok w)
  walk_queue zero (v ∷ q) w = none
  walk_queue (suc fuel) (v ∷ q) w = elim (step_deps v v.dependencies (record w { q = q })) [
    | err e ↦ some (err e)
    | ok w' ↦ walk_queue fuel w'.q w'
  ]

-- The ids of the entries, each once.
unfoldable pub unique_from : List Text → List ResolvedDep → List Text
unique_from seen_titles [] = []
unique_from seen_titles (d ∷ ds) =
    let fresh = d.project_id ∷ unique_from (d.project_id ∷ seen_titles) ds in
    let old = unique_from seen_titles ds in if contains seen_titles d.project_id then old else fresh

abbrev title_or_id : Option Text → Text → Text
title_or_id (some title) id = title
title_or_id none id = id

unfoldable pub hydrate : List (Text × Text) → ResolvedDep → ResolvedDep
hydrate titles d = record d {
  project_title = title_or_id (lookup d.project_id titles) d.project_id;
}

abbrev pub hydrate_ids :
    Request → List ResolvedDep → List Text → Result ModrinthError (List ResolvedDep)
hydrate_ids rq deps [] = ok deps
hydrate_ids rq deps (id ∷ ids) = do
  titles ← rq.fetch.project_titles (id ∷ ids)
  ok (map (hydrate titles) deps)

unfoldable pub hydrate_titles : Request → List ResolvedDep → Result ModrinthError (List ResolvedDep)
unfolding unique_from
hydrate_titles rq deps = hydrate_ids rq deps (unique_from [] deps)

abbrev pub u64_mod : ℕ
u64_mod = 2 ^ 64

abbrev pub primary_size : ModrinthVersion → ℕ
primary_size ver = elim (pick_primary_file ver.files) [ none ↦ 0 | some f ↦ f.size ]

abbrev pub is_required : DepKind → Bool
is_required required = true
is_required _ = false

-- One round of the loop over the totals: bytes, and files.
unfoldable pub add_totals : ℕ × ℕ → ResolvedDep → ℕ × ℕ
add_totals (bytes, files) rd =
    if is_required rd.kind
    then (if rd.is_new_download
        then elim rd.version [
          | none ↦ (bytes, files)
          | some ver ↦ ((bytes + primary_size ver) % u64_mod, files + 1)
        ]
        else (bytes, files))
    else (bytes, files)

unfoldable pub totals_from : ℕ × ℕ → List ResolvedDep → ℕ × ℕ
unfolding add_totals
totals_from t [] = t
totals_from t (rd ∷ deps) = totals_from (add_totals t rd) deps

abbrev pub start_walk : Request → Walk
start_walk rq = record { seen = keys rq.installed; q = []; deps = [] }

unfoldable pub finish : Request → ModrinthVersion → Walk → Result ModrinthError ResolvedDepGraph
unfolding hydrate_titles totals_from
finish rq root w = do
  deps ← hydrate_titles rq w.deps
  let (bytes, files) = totals_from (0, 0) deps
  ok (record { root = root; deps = deps; total_new_bytes = bytes; total_new_files = files })

unfoldable pub resolve_required_deps :
    ℕ → Request → ModrinthVersion → Option (Result ModrinthError ResolvedDepGraph)
unfolding finish
resolve_required_deps fuel rq root =
    elim (walk_queue rq fuel (root ∷ []) (record (start_walk rq) { q = root ∷ [] })) [
      | none ↦ none
      | some r ↦ some (do w ← r; finish rq root w)
    ]
