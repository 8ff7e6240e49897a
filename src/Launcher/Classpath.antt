-- ===== src/Launcher/Classpath.antt =====
-- src/launcher/classpath.rs: the class path of a version. A path is its text, with slashes; the
-- separator is that of the host, which is a parameter.
pub mod Entries
use ichr.Base.{
  ℕ, Bool, true, false, not, Option, none, some, List, [], ◌∷◌, ◌++◌, Text, codes, starts_with,
  ends_with, join, if◌then◌else◌, Result, ok,
}
use ichr.Error.{AppError}
use ichr.Domain.Platform.{OsName, linux, windows}
use ichr.Mojang.Types.{Library, LibraryArtifact, ResolvedVersion}
use ichr.Mojang.Rules.{RuleContext, evaluate_rules}
use ichr.Mojang.Natives.{needs_native_extraction}

unfoldable pub classpath_separator : OsName → ℕ
classpath_separator windows = b';'
classpath_separator linux = b':'

-- `Path::join`: an absolute path replaces the base, and a slash comes between where none is.
abbrev with_slash : Text → Text
with_slash [] = []
with_slash (c ∷ base) = if ends_with (c ∷ base) (codes "/") then c ∷ base else c ∷ base ++ codes "/"

unfoldable pub path_join : Text → Text → Text
path_join base p = if starts_with p (codes "/") then p else with_slash base ++ p

-- src/persistence/paths.rs
unfoldable pub library_path : Text → Text → Text
unfolding path_join
library_path data_dir maven_path = path_join (path_join data_dir (codes "libraries")) maven_path

unfoldable pub version_jar : Text → Text → Text
unfolding path_join
version_jar data_dir version_id =
    path_join (path_join (path_join data_dir (codes "versions")) version_id)
      (version_id ++ codes ".jar")

abbrev artifact_entry : Text → Option LibraryArtifact → List Text → List Text
artifact_entry data_dir none rest = rest
artifact_entry data_dir (some artifact) rest = library_path data_dir artifact.path ∷ rest

-- The loop over the libraries; `rest` are the entries behind them.
unfoldable pub library_entries : RuleContext → Text → List Library → List Text → List Text
library_entries ctx data_dir [] rest = rest
library_entries ctx data_dir (lib ∷ libs) rest =
    let more = library_entries ctx data_dir libs rest in
    if not (evaluate_rules lib.rules ctx)
    then more
    else if needs_native_extraction lib
    then more
    else artifact_entry data_dir lib.downloads.artifact more

unfoldable pub build_classpath :
    OsName → ResolvedVersion → RuleContext → Text → Result AppError Text
unfolding library_entries
build_classpath host version ctx data_dir =
    let entries =
      library_entries ctx data_dir version.libraries (version_jar data_dir version.root_id ∷ []) in
    ok (join (classpath_separator host ∷ []) entries)
