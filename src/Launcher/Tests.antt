-- ===== src/Launcher/Tests.antt =====
-- The class path of a small version: an allowed library, a refused one and one with natives.
use ichr.Base.{
  Option, none, some, List, [], ◌∷◌, ◌++◌, ◌≡◌, refl, Text, codes, text_eq, starts_with, ends_with,
  has, split, filter, join, ok,
}
use ichr.Domain.Platform.{linux, x86_64, os_str}
use ichr.Mojang.Types.{Rule, Library, ResolvedVersion}
use ichr.Mojang.Rules.{RuleContext, evaluate_rules, rule_matches}
use ichr.Mojang.Natives.{needs_native_extraction}
use ichr.Launcher.Classpath.{classpath_separator, library_path, version_jar, build_classpath}
use ichr.Launcher.Classpath.Entries.{is_on_classpath, artifact_paths, split-build_classpath}

abbrev here : RuleContext
here = record { os = linux; arch = x86_64; features = [] }

abbrev only_windows : Rule
only_windows = record {
  action = codes "allow";
  os = some (record { name = some (codes "windows"); arch = none; version = none });
  features = none;
}

abbrev library : Text → List Rule → Option (List (Text × Text)) → Library
library path rules natives = record {
  name = path;
  downloads = record {
    artifact = some (record { path = path; sha1 = none; size = none; url = [] });
    classifiers = some [];
  };
  rules = rules;
  natives = natives;
  extract = none;
}

abbrev version : ResolvedVersion
version = record {
  id = codes "fabric";
  root_id = codes "1.20";
  version_type = codes "release";
  main_class = codes "Main";
  asset_index = record { id = codes "5"; sha1 = []; size = 1; total_size = 2; url = [] };
  assets = codes "5";
  downloads = record {
    client = none;
    client_mappings = none;
    server = none;
    server_mappings = none;
  };
  libraries =
      library (codes "asm.jar") [] none
      ∷ library (codes "win.jar") (only_windows ∷ []) none
      ∷ library (codes "lwjgl.jar") [] (some [])
      ∷ [];
  java_version = none;
  logging = none;
  compliance_level = none;
  minimum_launcher_version = none;
  release_time = [];
  time = [];
  arguments = none;
  minecraft_arguments = none;
}

abbrev class_path : Text
class_path = codes "/d/libraries/asm.jar:/d/versions/1.20/1.20.jar"

class_path_linux : build_classpath linux version here (codes "/d") ≡ ok class_path
unfolding build_classpath join evaluate_rules needs_native_extraction rule_matches text_eq os_str
    library_path starts_with classpath_separator version_jar ends_with
class_path_linux = refl

split-build_classpath_example :
    split (classpath_separator linux) class_path
    ≡ artifact_paths (codes "/d") (filter (is_on_classpath here) version.libraries)
      ++ version_jar (codes "/d") version.root_id ∷ []
unfolding is_on_classpath artifact_paths evaluate_rules needs_native_extraction has library_path
    starts_with classpath_separator rule_matches text_eq os_str version_jar ends_with
split-build_classpath_example =
    split-build_classpath linux version here (codes "/d") class_path (refl, tt) refl
      class_path_linux
