-- ===== src/Java/Sources.antt =====
-- Where the answer of a resolution of src/java/service.rs comes from, and why one fails.
use ichr.Base.{
  ℕ, Bool, true, false, Option, none, some, List, [], ◌∷◌, Text, Result, err, ok, ◌≡◌, ◌≤◌, ◌⊎◌,
}
use ichr.Domain.Platform.{Arch, OsName}
use ichr.Domain.Instance.{JavaRuntimeId, mojang, adoptium, system, InstanceManifest}
use ichr.Error.{AppError, java_not_found}
use ichr.Mojang.Types.{ResolvedVersion}
use ichr.Java.Mapping.{mojang_platform_key}
use ichr.Java.Resolve.{
  Answers, Download, fetch_all_json, install_mojang_variant, install_adoptium, Traced,
  MojangJreIndex, MojangJreVariant, select_variant, jre_executable, component_hint,
  required_major_of, by_override, unless_set,
}

-- The component of a Mojang runtime that an instance is to use, if it is one.
abbrev pub component_of : Option JavaRuntimeId → Text → Option Text
component_of none component = some component
component_of (some (mojang variant)) component = some variant
component_of (some _) component = none

module _ (answers : Answers) (runtime_dir : Text) (os : OsName) (arch : Arch)
    (instance_ : InstanceManifest) (version : ResolvedVersion) where
  abbrev pub Wants : Text → Type 0
  Wants c = component_of instance_.java_override (component_hint version.java_version) ≡ some c

  abbrev pub required : ℕ
  required = required_major_of version.java_version

  abbrev pub on_disk : Text → Result AppError Bool
  on_disk c = answers.try_exists (jre_executable os runtime_dir c)

  -- Adoptium's runtime of a major version is pinned, or the required one has to do where Mojang has
  -- nothing for the platform.
  abbrev pub UsesAdoptium : ℕ → Type 0
  UsesAdoptium m =
      (instance_.java_override ≡ some (adoptium m))
      ⊎ ((instance_.java_override ≡ none) × (mojang_platform_key os arch ≡ none) × (m ≡ required))

  -- The errors of the calls, with the downloads asked for so far.
  pub data CallFailed : List Download → AppError → Type 0 where
    disk_failed : {e : AppError} (c : Text) → Wants c → on_disk c ≡ err e → CallFailed [] e
    index_failed : {e : AppError} → answers.all_json ≡ err e → CallFailed (fetch_all_json ∷ []) e
    variant_failed :
        {e : AppError} (v : MojangJreVariant) (c : Text)
        → Wants c
        → answers.mojang_variant v c ≡ err e
        → CallFailed (fetch_all_json ∷ install_mojang_variant v c ∷ []) e
    adoptium_failed :
        {e : AppError} (m : ℕ)
        → UsesAdoptium m
        → answers.adoptium_major m arch os ≡ err e
        → CallFailed (install_adoptium m ∷ []) e
    instead_failed :
        {e : AppError}
        → answers.adoptium_major required arch os ≡ err e
        → CallFailed (fetch_all_json ∷ install_adoptium required ∷ []) e

  -- Mojang has nothing for the platform, or not this component.
  pub data IsUnlisted (c : Text) : List Download → Type 0 where
    no_platform : mojang_platform_key os arch ≡ none → IsUnlisted c []
    no_variant :
        (key : Text) (index : MojangJreIndex)
        → mojang_platform_key os arch ≡ some key
        → answers.all_json ≡ ok index
        → select_variant index key c ≡ none
        → IsUnlisted c (fetch_all_json ∷ [])

  -- What was asked for, and what was answered.
  pub data Sourced : Traced Text → Type 0 where
    from_variable : (p : Text) → answers.ichr_java ≡ some p → Sourced ([], ok p)
    from_system :
        (p : Text) (m : ℕ)
        → answers.ichr_java ≡ none
        → instance_.java_override ≡ some (system p m)
        → answers.is_file p ≡ true
        → required ≤ m
        → Sourced ([], ok p)
    from_disk :
        (c key : Text)
        → answers.ichr_java ≡ none
        → Wants c
        → mojang_platform_key os arch ≡ some key
        → on_disk c ≡ ok true
        → Sourced ([], ok (jre_executable os runtime_dir c))
    from_mojang :
        (c key p : Text) (index : MojangJreIndex) (v : MojangJreVariant)
        → answers.ichr_java ≡ none
        → Wants c
        → on_disk c ≡ ok false
        → mojang_platform_key os arch ≡ some key
        → answers.all_json ≡ ok index
        → select_variant index key c ≡ some v
        → answers.mojang_variant v c ≡ ok p
        → Sourced (fetch_all_json ∷ install_mojang_variant v c ∷ [], ok p)
    from_adoptium :
        (m : ℕ) (p : Text)
        → answers.ichr_java ≡ none
        → UsesAdoptium m
        → answers.adoptium_major m arch os ≡ ok p
        → Sourced (install_adoptium m ∷ [], ok p)
    from_adoptium_instead :
        (c key p : Text) (index : MojangJreIndex)
        → answers.ichr_java ≡ none
        → instance_.java_override ≡ none
        → Wants c
        → on_disk c ≡ ok false
        → mojang_platform_key os arch ≡ some key
        → answers.all_json ≡ ok index
        → select_variant index key c ≡ none
        → answers.adoptium_major required arch os ≡ ok p
        → Sourced (fetch_all_json ∷ install_adoptium required ∷ [], ok p)
    call_failed : (ds : List Download) (e : AppError) → CallFailed ds e → Sourced (ds, err e)
    not_listed :
        (ds : List Download) (c : Text)
        → instance_.java_override ≡ some (mojang c)
        → IsUnlisted c ds
        → Sourced (ds, err java_not_found)
    refused_system :
        (p : Text) (m : ℕ) (e : AppError)
        → instance_.java_override ≡ some (system p m)
        → ¬ ((answers.is_file p ≡ true) × (required ≤ m))
        → Sourced ([], err e)

  abbrev chosen : Option Text → Traced Text
  chosen variable =
      unless_set answers runtime_dir os arch variable
        (by_override answers runtime_dir os arch instance_.java_override version.java_version)
