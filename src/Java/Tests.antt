-- ===== src/Java/Tests.antt =====
-- Versions as Java prints them, and the choice for an instance on Linux with one runtime on disk.
use ichr.Base.{
  true, false, none, some, [], ◌∷◌, ◌++◌, Text, codes, text_eq, has, starts_with, ends_with, ok,
  err, ◌≡◌, ◌↔◌, ◌≤◌, refl, arith,
}
use ichr.Domain.Platform.{linux, x86_64, aarch64, other}
use ichr.Domain.Instance.{InstanceManifest, mojang, system}
use ichr.Error.{java_not_found, http}
use ichr.Mojang.Types.{ResolvedVersion}
use ichr.Launcher.Classpath.{path_join}
use ichr.Instance.Slug.{decimal_from}
use ichr.Java.Mapping.{mojang_platform_key, adoptium_arch_str, parse_java_major, parse_u32}
use ichr.Java.Major.{quoted, parse_java_major-printed}
use ichr.Java.Resolve.{
  Answers, jre_executable, resolve_jre_for_launch, install_adoptium, required_major_of,
}
use ichr.Java.Offline.{resolve_jre_for_launch-system}

read_legacy : parse_java_major (codes "java version \"1.8.0_292\" 2021-07-20") ≡ some 8
unfolding parse_java_major
read_legacy = refl

read_bare : parse_java_major (codes "java version \"21\"") ≡ some 21
unfolding parse_java_major
read_bare = refl

read_garbage : parse_java_major (codes "garbage with no quotes at all") ≡ none
unfolding parse_java_major
read_garbage = refl

-- Thirty-two bits are not enough.
read_wide : parse_u32 (codes "4294967296") ≡ none
unfolding parse_u32
read_wide = refl

no_mojang_on_arm : mojang_platform_key linux aarch64 ≡ none
unfolding mojang_platform_key
no_mojang_on_arm = refl

riscv_is_x64 : adoptium_arch_str (other (codes "riscv64")) ≡ codes "x64"
unfolding adoptium_arch_str text_eq
riscv_is_x64 = refl

parse_java_major-printed_example :
    parse_java_major (
      (codes "openjdk version " ++ quoted false 17 (some (codes "0.2")) (codes " 2022-01-18"))
      ++ b'\n' ∷ codes "OpenJDK Runtime Environment")
    ≡ some 17
unfolding has decimal_from
parse_java_major-printed_example =
    parse_java_major-printed false 17 (some (codes "0.2")) (codes "openjdk version ")
      (codes " 2022-01-18") (codes "OpenJDK Runtime Environment") (omega arith) (λ e f. omega arith)
      refl refl refl refl refl

abbrev stored : Text
stored = codes "/data/runtime/java-runtime-delta/bin/java"

abbrev answers : Answers
answers = record {
  ichr_java = none;
  try_exists = λ path. ok (text_eq path stored);
  is_file = λ path. text_eq path (codes "/usr/bin/java");
  all_json = err (http (codes "offline"));
  mojang_variant = λ v component. err java_not_found;
  adoptium_major = λ major arch os. ok (codes "/data/runtime/adoptium/bin/java");
}

abbrev instance_ : InstanceManifest
instance_ = record {
  schema_version = 1;
  display_name = codes "Pack";
  slug = codes "pack";
  mc_version_id = codes "1.21";
  created_at = [];
  last_played_at = none;
  notes = none;
  group = none;
  java_override = some (mojang (codes "java-runtime-delta"));
  loader = none;
  total_play_time_ms = 0;
}

abbrev on_system : InstanceManifest
on_system = record instance_ { java_override = some (system (codes "/usr/bin/java") 21) }

abbrev version : ResolvedVersion
version = record {
  id = codes "1.21";
  root_id = codes "1.21";
  version_type = codes "release";
  main_class = codes "Main";
  asset_index = record { id = codes "5"; sha1 = []; size = 1; total_size = 2; url = [] };
  assets = codes "5";
  downloads = record {
    client = none;
    client_mappings = none;
    server = none;
    server_mappings = none;
  };
  libraries = [];
  java_version = some (record { component = codes "java-runtime-delta"; major_version = 21 });
  logging = none;
  compliance_level = none;
  minimum_launcher_version = none;
  release_time = [];
  time = [];
  arguments = none;
  minecraft_arguments = none;
}

-- Where Mojang has no runtime for the platform, Adoptium's is installed.
on_arm :
    resolve_jre_for_launch answers
      (codes "/data/runtime")
      linux
      aarch64
      (record instance_ { java_override = none })
      version
    ≡ (install_adoptium 21 ∷ [], ok (codes "/data/runtime/adoptium/bin/java"))
unfolding resolve_jre_for_launch
on_arm = refl

-- The pinned component is on disk, and is answered without a download.
from_cache :
    resolve_jre_for_launch answers (codes "/data/runtime") linux x86_64 instance_ version
    ≡ ([], ok (jre_executable linux (codes "/data/runtime") (codes "java-runtime-delta")))
unfolding resolve_jre_for_launch mojang_platform_key jre_executable path_join starts_with ends_with
    text_eq
from_cache = refl

resolve_jre_for_launch-system_example :
    (resolve_jre_for_launch answers (codes "/data/runtime") linux x86_64 on_system version
      ≡ ([], ok (codes "/usr/bin/java")))
    ↔ ((answers.is_file (codes "/usr/bin/java") ≡ true)
        × (required_major_of version.java_version ≤ 21))
resolve_jre_for_launch-system_example =
    resolve_jre_for_launch-system answers (codes "/data/runtime") linux x86_64 on_system version
      (codes "/usr/bin/java") 21 refl refl
