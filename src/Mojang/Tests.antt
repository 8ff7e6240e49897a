-- ===== src/Mojang/Tests.antt =====
-- The version metadata on small inputs: a loader's version over a game version.
use ichr.Base.{
  true, false, Option, none, some, List, [], ◌∷◌, ◌++◌, ◌≡◌, refl, Text, codes, text_eq, contains,
  lookup, ok, err, or_else, arith,
}
use ichr.Domain.Platform.{linux, windows, x86_64, arch_str, os_str}
use ichr.Error.{inherits_from_depth_exceeded, inherits_from_missing_required}
use ichr.Mojang.Types.{
  Rule, object, plain, conditional, single, Arguments, AssetIndex, VersionDownloads, Library,
  VersionJson, ResolvedVersion,
}
use ichr.Mojang.Rules.{
  RuleContext, for_os_arch, rule_matches, features_all_satisfied, evaluate_rules,
}
use ichr.Mojang.Rules.Matching.{evaluate_rules-last}
use ichr.Mojang.Natives.{maven_group_artifact}
use ichr.Mojang.Args.{
  resolve_arg_entries, resolve_arguments, resolve_game_args, resolve_jvm_args,
  split_legacy_template,
}
use ichr.Mojang.Args.Inherited.{resolve_arguments-resolve_inherits}
use ichr.Mojang.Inherits.{
  Parents, max_inherits_depth, merge, merge_libraries, place_all, place, position, set,
  merge_arguments, resolve_inherits,
}
use ichr.Mojang.Inherits.Chain.{Chain, root, up, IsResolved, resolve_inherits-IsResolved}
use ichr.Mojang.Inherits.Complete.{resolve_inherits-Chain, resolve_inherits-third}
use ichr.Mojang.Inherits.Libraries.{find_lib, find_lib-merge_libraries}

program : Unit {0}
unfolding text_eq contains lookup arch_str os_str evaluate_rules rule_matches features_all_satisfied
    maven_group_artifact resolve_arg_entries resolve_arguments resolve_game_args resolve_jvm_args
    split_legacy_template merge merge_libraries place_all place position set merge_arguments
    resolve_inherits
program = tt

abbrev here : RuleContext
here = record { os = linux; arch = x86_64; features = [] }

abbrev allow : Rule
allow = record { action = codes "allow"; os = none; features = none }

abbrev on_windows : Rule
on_windows = record {
  action = codes "disallow";
  os = some (record { name = some (codes "windows"); arch = none; version = none });
  features = none;
}

abbrev demo : Rule
demo = record {
  action = codes "disallow";
  os = none;
  features = some (object ((codes "is_demo_user", true) ∷ []));
}

evaluate_tests :
    (evaluate_rules (allow ∷ on_windows ∷ []) here ≡ true)
    × (evaluate_rules (on_windows ∷ allow ∷ []) (for_os_arch windows x86_64) ≡ true)
    × (evaluate_rules (allow ∷ on_windows ∷ []) (for_os_arch windows x86_64) ≡ false)
    × (evaluate_rules (allow ∷ demo ∷ []) here ≡ true)
unfolding program for_os_arch
evaluate_tests = (refl, refl, refl, refl)

evaluate_rules-last_example :
    evaluate_rules (allow ∷ on_windows ∷ []) here ≡ text_eq (codes "allow") (codes "allow")
unfolding program
evaluate_rules-last_example = evaluate_rules-last here [] (on_windows ∷ []) allow refl (refl, tt)

abbrev library : Text → Library
library name = record {
  name = name;
  downloads = record { artifact = none; classifiers = none };
  rules = [];
  natives = none;
  extract = none;
}

abbrev index : AssetIndex
index = record { id = codes "17"; sha1 = []; size = 1; total_size = 2; url = [] }

abbrev no_downloads : VersionDownloads
no_downloads = record {
  client = none;
  client_mappings = none;
  server = none;
  server_mappings = none;
}

abbrev loader_args : Arguments
loader_args = record { game = []; jvm = plain (codes "-DFabric") ∷ [] }

abbrev game_args : Arguments
game_args = record {
  game =
      plain (codes "--demo")
      ∷ conditional (record { rules = on_windows ∷ []; value = single (codes "--win") })
      ∷ [];
  jvm = plain (codes "-Xss1M") ∷ [];
}

abbrev version : Text → Option Text → List Library → VersionJson
version id parent libs = record {
  id = id;
  version_type = codes "release";
  main_class = id;
  asset_index = none;
  assets = none;
  downloads = none;
  libraries = libs;
  java_version = none;
  logging = none;
  compliance_level = none;
  minimum_launcher_version = none;
  release_time = [];
  time = [];
  arguments = none;
  minecraft_arguments = none;
  inherits_from = parent;
}

abbrev vanilla : VersionJson
vanilla = record (version (codes "1.20.4") none (library (codes "org.ow2:asm:9.5") ∷ [])) {
  asset_index = some index;
  assets = some (codes "17");
  downloads = some no_downloads;
  arguments = some game_args;
}

abbrev fabric : VersionJson
fabric =
    record (version (codes "fabric") (some (codes "1.20.4"))
      (library (codes "org.ow2:asm:9.6") ∷ [])) { arguments = some loader_args }

abbrev installed : Parents
installed = (codes "1.20.4", vanilla) ∷ []

abbrev resolved : ResolvedVersion
resolved = record {
  id = codes "fabric";
  root_id = codes "1.20.4";
  version_type = codes "release";
  main_class = codes "fabric";
  asset_index = index;
  assets = codes "17";
  downloads = no_downloads;
  libraries = library (codes "org.ow2:asm:9.6") ∷ [];
  java_version = none;
  logging = none;
  compliance_level = none;
  minimum_launcher_version = none;
  release_time = [];
  time = [];
  arguments = some (record {
    game = game_args.game;
    jvm = plain (codes "-Xss1M") ∷ plain (codes "-DFabric") ∷ [];
  });
  minecraft_arguments = none;
}

resolve_fabric : resolve_inherits fabric installed ≡ ok resolved
unfolding program
resolve_fabric = refl

resolve_bare :
    resolve_inherits (version (codes "1.0") none []) []
    ≡ err (inherits_from_missing_required (codes "asset_index") (codes "1.0"))
unfolding program
resolve_bare = refl

resolve_inherits-IsResolved_example : IsResolved installed fabric resolved
resolve_inherits-IsResolved_example =
    resolve_inherits-IsResolved installed fabric resolved resolve_fabric

fabric-Chain : Chain installed fabric (vanilla ∷ [])
unfolding program
fabric-Chain = up (codes "1.20.4") refl refl (root refl)

resolve_inherits-Chain_example : (r : ResolvedVersion) × (resolve_inherits fabric installed ≡ ok r)
unfolding program
resolve_inherits-Chain_example =
    resolve_inherits-Chain index (codes "17") no_downloads fabric-Chain
      (codes "1.20.4", refl, refl, tt) (omega arith) refl refl refl

-- Four versions in a row, each over the next.
abbrev row : Parents
row =
    (codes "b", version (codes "b") (some (codes "c")) [])
    ∷ (codes "c", version (codes "c") (some (codes "d")) [])
    ∷ (codes "d", vanilla)
    ∷ []

resolve_inherits-third_example :
    resolve_inherits (version (codes "a") (some (codes "b")) []) row
    ≡ err (inherits_from_depth_exceeded (codes "d") max_inherits_depth)
unfolding program
resolve_inherits-third_example =
    resolve_inherits-third row (version (codes "a") (some (codes "b")) [])
      (version (codes "b") (some (codes "c")) []) (version (codes "c") (some (codes "d")) [])
      (codes "b") (codes "c") (codes "d") refl refl refl refl refl refl refl refl

find_lib-merge_libraries_example :
    find_lib (codes "org.ow2:asm") (merge_libraries vanilla.libraries fabric.libraries)
    ≡ or_else
        (find_lib (codes "org.ow2:asm") fabric.libraries)
        (find_lib (codes "org.ow2:asm") vanilla.libraries)
unfolding contains
find_lib-merge_libraries_example =
    find_lib-merge_libraries (codes "org.ow2:asm") vanilla.libraries fabric.libraries (refl, tt)

resolve_arguments-resolve_inherits_example : resolve_arguments resolved here ≡ (
  resolve_arg_entries game_args.game here ++ resolve_arg_entries [] here,
  resolve_arg_entries game_args.jvm here ++ resolve_arg_entries loader_args.jvm here,
)
unfolding program
resolve_arguments-resolve_inherits_example =
    resolve_arguments-resolve_inherits here installed fabric vanilla resolved (codes "1.20.4")
      game_args loader_args resolve_fabric refl refl refl refl refl
