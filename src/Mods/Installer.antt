-- ===== src/Mods/Installer.antt =====
-- src/mods/installer.rs: the plan of an installation, from the graph that the resolver returns.
pub mod Plan
use ichr.Base.{
  ℕ, suc, Bool, true, false, Option, none, some, List, [], ◌∷◌, Text, Result, ok, err, ok_or, ◌>>=◌,
}
use ichr.Mods.Types.{
  required, DepKind, ModrinthFile, ModrinthVersion, ResolvedDep, InstalledModRow, sha512, mod_item,
  modrinth,
}
use ichr.Mods.Error.{ModrinthError, file_not_downloadable}
use ichr.Mods.Filter.{pick_primary_file}
use ichr.Mods.DepResolve.{is_required}

pub record InstallStep : Type 0 where
  pub row : InstalledModRow
  pub file : ModrinthFile

abbrev step : Text → Text → Text → ModrinthVersion → ModrinthFile → Text → InstallStep
step mod_id slug title version file now = record {
  row = record {
    mod_id = mod_id;
    project_slug = slug;
    display_name = title;
    version_id = version.id;
    version_label = version.version_number;
    file_name = file.filename;
    sha512 = file.hashes.sha512;
    size = file.size;
    hash_algo = sha512;
    kind = mod_item;
    source = modrinth;
    enabled = true;
    installed_at = now;
  };
  file = file;
}

abbrev title_of : Text → Text → Text
title_of id [] = id
title_of id (c ∷ title) = c ∷ title

-- What a dependency has to download: nothing where the loop continues.
abbrev wanted : DepKind → Bool → Option ModrinthVersion → Option ModrinthVersion
wanted required true version = version
wanted _ _ version = none

-- `now` answers the calls of `now_iso8601` in their order; `n` counts them.
module _ (now : ℕ → Text) where
  abbrev dep_step : ℕ → ResolvedDep → ModrinthVersion → Result ModrinthError InstallStep
  dep_step n d version = do
    f ← ok_or (pick_primary_file version.files) (file_not_downloadable d.project_id)
    ok (step d.project_id d.project_id (title_of d.project_id d.project_title) version f (now n))

  abbrev plan_dep :
      ℕ
      → ResolvedDep
      → Option ModrinthVersion
      → (ℕ → Result ModrinthError (List InstallStep))
      → Result ModrinthError (List InstallStep)
  plan_dep n d none rest = rest n
  plan_dep n d (some version) rest = do
    s ← dep_step n d version
    steps ← rest (suc n)
    ok (s ∷ steps)

  -- The loop over the dependencies.
  unfoldable pub plan_deps : List ResolvedDep → ℕ → Result ModrinthError (List InstallStep)
  plan_deps [] n = ok []
  plan_deps (d ∷ deps) n = plan_dep n d (wanted d.kind d.is_new_download d.version) (plan_deps deps)

  unfoldable pub build_install_plan :
      ModrinthVersion → Text → Text → List ResolvedDep → Result ModrinthError (List InstallStep)
  unfolding plan_deps
  build_install_plan root_version root_project_slug root_project_title deps = do
    root_file ←
        ok_or (pick_primary_file root_version.files) (file_not_downloadable root_project_slug)
    steps ← plan_deps deps 1
    ok (
        step root_version.project_id root_project_slug root_project_title root_version root_file
          (now 0)
        ∷ steps)
