-- ===== src/Mods/Tests.antt =====
-- The mods component on small inputs: a mod, its library, and a core that needs the library back.
mod Files
mod Printed
mod Rows
mod Cleaning
use ichr.Base.{
  ◌+◌, ℕ, ◌%◌, true, false, Option, none, some, List, [], ◌∷◌, ◌++◌, ◌≡◌, ◌≢◌, refl, subst, inl,
  inr, Text, codes, text_eq, contains, keys, lookup, All, length, ok, Result, Bool-cases,
  if◌then◌else◌, arith,
}
use ichr.Mods.Types.{
  required, optional, DepKind, ModrinthDep, ModrinthVersion, ModrinthFile, ResolvedDep,
}
use ichr.Mods.Error.{ModrinthError}
use ichr.Mods.DepResolve.{
  Request, is_installed, ResolvedDepGraph, resolve_required_deps, walk_queue, step_deps, step_dep,
  dep_project, process_dep, hydrate, entry, new_entry, u64_mod,
}
use ichr.Mods.Filter.Latest.{IsLatest, pick_latest_by_date-IsLatest}
use ichr.Mods.Filter.{pick_latest_by_date, pick_primary_file}
use ichr.Mods.DepResolve.Entries.{new_ids, new_versions, IsSound}
use ichr.Mods.DepResolve.Invariant.{Distinct, IsClosed}
use ichr.Mods.DepResolve.Totals.{sum_sizes}
use ichr.Mods.DepResolve.Graph.{
  resolve_required_deps-Distinct, resolve_required_deps-IsClosed, resolve_required_deps-totals,
}
use ichr.Mods.Installer.{InstallStep, build_install_plan}
use ichr.Mods.Installer.Plan.{step_ids, step_bytes, build_install_plan-resolve_required_deps}
use ichr.Mods.Types.{sha512, mod_item, modrinth}
use ichr.Mods.DepResolve.{primary_size}
use ichr.Mods.DepResolve.Fuel.{Names, resolve_required_deps-fuel}

abbrev dep : DepKind → Text → ModrinthDep
dep kind id = record {
  project_id = some id;
  version_id = none;
  file_name = none;
  dependency_type = kind;
}

abbrev jar : ℕ → ModrinthFile
jar size = record {
  url = codes "https://cdn.modrinth.com/a.jar";
  filename = codes "a.jar";
  primary = true;
  size = size;
  hashes = record { sha1 = []; sha512 = [] };
}

abbrev version : Text → Text → ℕ → List ModrinthDep → ModrinthVersion
version id date size deps = record {
  id = id;
  project_id = id;
  name = id;
  version_number = codes "1";
  version_type = codes "release";
  game_versions = [];
  loaders = [];
  downloads = 0;
  date_published = date;
  dependencies = deps;
  files = jar size ∷ [];
}

abbrev core : ModrinthVersion
core = version (codes "core") (codes "2024") 30 (dep required (codes "lib") ∷ [])

abbrev lib : ModrinthVersion
lib =
    version (codes "lib") (codes "2023") 12
      (dep required (codes "core") ∷ dep required (codes "api") ∷ [])

abbrev app : ModrinthVersion
app =
    version (codes "app") (codes "2022") 7
      (dep required (codes "lib") ∷ dep optional (codes "map") ∷ [])

abbrev latest : Text → Result ModrinthError (Option ModrinthVersion)
latest x =
    if text_eq x (codes "lib")
    then ok (some lib)
    else if text_eq x (codes "core")
    then ok (some core)
    else ok none

abbrev request : Request
request = record {
  fetch = record {
    latest_for_project = λ x mc loaders. latest x;
    version_by_id = λ x. ok app;
    project_titles = λ xs. ok [];
  };
  mc = codes "1.20.4";
  loaders = codes "fabric" ∷ [];
  installed = (codes "api", codes "1") ∷ [];
}

abbrev titled : ResolvedDep → ResolvedDep
titled d = record d { project_title = d.project_id }

abbrev graph : ResolvedDepGraph
graph = record {
  root = app;
  deps =
      titled (new_entry request (codes "lib") lib)
      ∷ titled (entry request optional (codes "map") false)
      ∷ titled (new_entry request (codes "core") core)
      ∷ titled (entry request required (codes "api") true)
      ∷ titled (entry request required (codes "lib") true)
      ∷ [];
  total_new_bytes = 42;
  total_new_files = 2;
}

resolve_app : resolve_required_deps 4 request app ≡ some (ok graph)
unfolding resolve_required_deps walk_queue step_deps step_dep dep_project process_dep contains keys
    text_eq hydrate lookup pick_primary_file
resolve_app = refl

resolve_required_deps-Distinct_example :
    (graph.root ≡ app)
    × Distinct (new_ids graph.deps)
    × All (λ p. is_installed request p ≡ false) (new_ids graph.deps)
    × All (IsSound request) graph.deps
resolve_required_deps-Distinct_example =
    resolve_required_deps-Distinct 4 request app graph resolve_app

resolve_required_deps-IsClosed_example :
    All
      (λ v. IsClosed request (new_ids graph.deps ++ keys request.installed) v.dependencies)
      (app ∷ new_versions graph.deps)
resolve_required_deps-IsClosed_example =
    resolve_required_deps-IsClosed 4 request app graph resolve_app

abbrev projects : List Text
projects = codes "lib" ∷ codes "core" ∷ codes "map" ∷ codes "api" ∷ []

latest-Names : (x : Text) (v : ModrinthVersion) → latest x ≡ ok (some v) → Names request projects v
unfolding contains dep_project keys text_eq
latest-Names x v h = elim (Bool-cases (text_eq x (codes "lib"))) [
  | inl is_lib ↦
      let e : lib ≡ v = ground arith in subst (Names request projects) e (refl, (refl, tt))
  | inr no_lib ↦ elim (Bool-cases (text_eq x (codes "core"))) [
    | inl is_core ↦ let e : core ≡ v = ground arith in subst (Names request projects) e (refl, tt)
    | inr no_core ↦ absurd (ground arith)
  ]
]

resolve_required_deps-fuel_example : resolve_required_deps 5 request app ≢ none
unfolding contains dep_project keys text_eq
resolve_required_deps-fuel_example =
    resolve_required_deps-fuel 5 request projects app latest-Names (refl, (refl, tt)) (omega arith)

abbrev jar_step : Text → ModrinthVersion → ModrinthFile → InstallStep
jar_step title v f = record {
  row = record {
    mod_id = v.project_id;
    project_slug = v.project_id;
    display_name = title;
    version_id = v.id;
    version_label = codes "1";
    file_name = codes "a.jar";
    sha512 = [];
    size = f.size;
    hash_algo = sha512;
    kind = mod_item;
    source = modrinth;
    enabled = true;
    installed_at = codes "now";
  };
  file = f;
}

abbrev plan : List InstallStep
plan =
    jar_step (codes "App") app (jar 7)
    ∷ jar_step (codes "lib") lib (jar 12)
    ∷ jar_step (codes "core") core (jar 30)
    ∷ []

plan-app :
    build_install_plan (λ n. codes "now") app (codes "app") (codes "App") graph.deps ≡ ok plan
unfolding build_install_plan pick_primary_file
plan-app = refl

build_install_plan-resolve_required_deps_example :
    (step_ids plan ≡ app.project_id ∷ new_ids graph.deps)
    × (length plan ≡ 1 + graph.total_new_files)
    × (step_bytes plan % u64_mod ≡ (primary_size app + graph.total_new_bytes) % u64_mod)
build_install_plan-resolve_required_deps_example =
    build_install_plan-resolve_required_deps (λ n. codes "now") 4 request app graph (codes "app")
      (codes "App") plan resolve_app plan-app

pick_latest_by_date-IsLatest_example :
    (v : ModrinthVersion) × (pick_latest_by_date (app ∷ core ∷ lib ∷ []) ≡ some v)
    × IsLatest (app ∷ core ∷ lib ∷ []) v
pick_latest_by_date-IsLatest_example = pick_latest_by_date-IsLatest app (core ∷ lib ∷ [])

-- A library that needs the mod back: the mod itself is downloaded a second time.
abbrev back : ModrinthVersion
back = version (codes "lib") (codes "2023") 12 (dep required (codes "app") ∷ [])

abbrev circle : Request
circle = record {
  fetch = record {
    latest_for_project = λ x mc loaders. ok (some (if text_eq x (codes "lib") then back else app));
    version_by_id = λ x. ok app;
    project_titles = λ xs. ok [];
  };
  mc = codes "1.20.4";
  loaders = [];
  installed = [];
}

abbrev ids_of : Option (Result ModrinthError ResolvedDepGraph) → List Text
ids_of (some (ok g)) = new_ids g.deps
ids_of _ = []

root_again : ids_of (resolve_required_deps 4 circle app) ≡ codes "lib" ∷ codes "app" ∷ []
unfolding resolve_required_deps walk_queue step_deps step_dep dep_project process_dep contains keys
    text_eq hydrate lookup pick_primary_file new_ids
root_again = refl
