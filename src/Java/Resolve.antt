-- ===== src/Java/Resolve.antt =====
-- src/java/service.rs: the choice of the Java executable an instance is launched with. The paths
-- are those of src/persistence/paths.rs, and `select_variant` is that of src/java/mojang_jre.rs.
-- What the file system, the environment and the downloads answer is a record, and a resolution
-- returns the downloads it asked for, in order, beside its result.
use ichr.Base.{
  ℕ, Bool, Option, none, some, List, [], ◌∷◌, ◌++◌, Text, codes, text_eq, lookup, if◌then◌else◌,
  Result, err, ok,
}
use ichr.Domain.Platform.{Arch, OsName, linux, windows}
use ichr.Domain.Instance.{JavaRuntimeId, mojang, adoptium, system, InstanceManifest}
use ichr.Error.{AppError, java_not_found, java_override_not_found}
use ichr.Launcher.Classpath.{path_join}
use ichr.Mojang.Types.{JavaVersion, ResolvedVersion}
use ichr.Java.Mapping.{mojang_platform_key, validate_java_major}

pub record MojangManifestRef : Type 0 where
  pub sha1 : Text
  pub size : ℕ
  pub url : Text

pub record MojangJreVersionInfo : Type 0 where
  pub name : Text
  pub released : Text

pub record MojangJreVariant : Type 0 where
  pub manifest : MojangManifestRef
  pub version : MojangJreVersionInfo

abbrev pub MojangJreIndex : Type 0
MojangJreIndex = List (Text × List (Text × List MojangJreVariant))

abbrev pub first_variant : Option (List MojangJreVariant) → Option MojangJreVariant
first_variant none = none
first_variant (some []) = none
first_variant (some (v ∷ vs)) = some v

abbrev pub in_platform :
    Option (List (Text × List MojangJreVariant)) → Text → Option MojangJreVariant
in_platform none component = none
in_platform (some variants) component = first_variant (lookup component variants)

unfoldable pub select_variant : MojangJreIndex → Text → Text → Option MojangJreVariant
unfolding lookup text_eq
select_variant index platform_key component = in_platform (lookup platform_key index) component

abbrev pub java_bin : OsName → Text
java_bin linux = codes "bin/java"
java_bin windows = codes "bin/java.exe"

unfoldable pub jre_executable : OsName → Text → Text → Text
unfolding path_join
jre_executable os runtime_dir variant_id =
    path_join (path_join runtime_dir variant_id) (java_bin os)

-- The clients' answers, and the file system's.
pub record Answers : Type 0 where
  pub ichr_java : Option Text
  pub try_exists : Text → Result AppError Bool
  pub is_file : Text → Bool
  pub all_json : Result AppError MojangJreIndex
  pub mojang_variant : MojangJreVariant → Text → Result AppError Text
  pub adoptium_major : ℕ → Arch → OsName → Result AppError Text

pub data Download : Type 0 where
  fetch_all_json : Download
  install_mojang_variant : MojangJreVariant → (component : Text) → Download
  install_adoptium : (major : ℕ) → Download

abbrev pub Traced : Type 0 → Type 0
Traced A = List Download × Result AppError A

abbrev pub quiet : {A : Type 0} → Result AppError A → Traced A
quiet r = ([], r)

abbrev pub asked : {A : Type 0} → Download → Result AppError A → Traced A
asked d r = (d ∷ [], r)

infixl 5 ◌>>=◌
abbrev pub ◌>>=◌ : {A B : Type 0} → Traced A → (A → Traced B) → Traced B
(ds, err e) >>= next = (ds, err e)
(ds, ok a) >>= next = let t = next a in (ds ++ t.0, t.1)

abbrev pub component_hint : Option JavaVersion → Text
component_hint none = codes "jre-legacy"
component_hint (some jv) = jv.component

abbrev pub required_major_of : Option JavaVersion → ℕ
required_major_of none = 8
required_major_of (some jv) = jv.major_version

module _ (answers : Answers) (runtime_dir : Text) (os : OsName) (arch : Arch) where
  abbrev pub adoptium_for : ℕ → Traced Text
  adoptium_for major = asked (install_adoptium major) (answers.adoptium_major major arch os)

  abbrev pub mojang_for : MojangJreVariant → Text → Traced Text
  mojang_for v component =
      asked (install_mojang_variant v component) (answers.mojang_variant v component)

  abbrev pub variant_or_not_found : Text → Option MojangJreVariant → Traced Text
  variant_or_not_found variant none = quiet (err java_not_found)
  variant_or_not_found variant (some v) = mojang_for v variant

  -- An executable on disk, or what `absent` does.
  abbrev pub cached_or : Text → Traced Text → Traced Text
  cached_or exe absent =
      quiet (answers.try_exists exe) >>= λ exists. if exists then quiet (ok exe) else absent

  abbrev pub index_of : Traced MojangJreIndex
  index_of = asked fetch_all_json answers.all_json

  abbrev pub pinned_variant : Text → Option Text → Traced Text
  pinned_variant variant none = quiet (err java_not_found)
  pinned_variant variant (some plat) =
      cached_or (jre_executable os runtime_dir variant)
        (index_of >>= λ index. variant_or_not_found variant (select_variant index plat variant))

  unfoldable pub resolve_override : JavaRuntimeId → ℕ → Traced Text
  unfolding mojang_platform_key jre_executable select_variant validate_java_major
  resolve_override (mojang variant) required_major =
      pinned_variant variant (mojang_platform_key os arch)
  resolve_override (adoptium major) required_major = adoptium_for major
  resolve_override (system path major_version) required_major =
      if answers.is_file path
      then (quiet (validate_java_major major_version required_major path)
          >>= (λ u. quiet (ok path)))
      else quiet (err (java_override_not_found path))

  abbrev pub variant_or_adoptium : Text → ℕ → Option MojangJreVariant → Traced Text
  variant_or_adoptium component major none = adoptium_for major
  variant_or_adoptium component major (some v) = mojang_for v component

  abbrev pub automatic : Text → ℕ → Option Text → Traced Text
  automatic component major none = adoptium_for major
  automatic component major (some plat) = cached_or (jre_executable os runtime_dir component) (
      index_of >>= λ index.
      variant_or_adoptium component major (select_variant index plat component))

  abbrev pub by_override : Option JavaRuntimeId → Option JavaVersion → Traced Text
  by_override none jv =
      automatic (component_hint jv) (required_major_of jv) (mojang_platform_key os arch)
  by_override (some id) jv = resolve_override id (required_major_of jv)

  abbrev pub unless_set : Option Text → Traced Text → Traced Text
  unless_set (some p) other = quiet (ok p)
  unless_set none other = other

  unfoldable pub resolve_jre_for_launch : InstanceManifest → ResolvedVersion → Traced Text
  unfolding resolve_override mojang_platform_key jre_executable select_variant
  resolve_jre_for_launch instance_ version =
      unless_set answers.ichr_java (by_override instance_.java_override version.java_version)
