-- ===== src/Loader/Maven.antt =====
-- src/loader/maven.rs: Maven coordinates, their repository paths and download URLs.
pub mod Coords
pub mod Paths
use ichr.Base.{
  ℕ, Bool, true, false, not, ◌&&◌, ◌||◌, Option, none, some, List, [], ◌∷◌, ◌++◌, map, Text, codes,
  text_eq, ◌==◌, is_alphanumeric, all, splitn, trim_end, if◌then◌else◌, Result, ok, err, ◌>>=◌,
}
use ichr.Loader.Error.{LoaderError, invalid_maven_coord}

abbrev is_empty : Text → Bool
is_empty [] = true
is_empty (c ∷ s) = false

unfoldable pub is_maven_byte : ℕ → Bool
is_maven_byte b = is_alphanumeric b || (b == b'.' || (b == b'_' || (b == b'-' || b == b'+')))

unfoldable pub is_safe_maven_segment : Text → Bool
is_safe_maven_segment s = not (is_empty s) && (not (text_eq s (codes "..")) && all is_maven_byte s)

pub record MavenCoord : Type 0 where
  pub group : Text
  pub artifact : Text
  pub version : Text
  pub classifier : Option Text
  pub extension : Option Text

-- The match on the parts; `none` is its last case.
unfoldable pub coord_of_parts : List Text → Option MavenCoord
coord_of_parts (g ∷ a ∷ v ∷ []) =
    some (record { group = g; artifact = a; version = v; classifier = none; extension = none })
coord_of_parts (g ∷ a ∷ v ∷ c ∷ []) =
    some (record { group = g; artifact = a; version = v; classifier = some c; extension = none })
coord_of_parts (g ∷ a ∷ v ∷ c ∷ e ∷ []) =
    some (record { group = g; artifact = a; version = v; classifier = some c; extension = some e })
coord_of_parts _ = none

-- A segment that is absent is not tested.
abbrev pub is_safe_option : Option Text → Bool
is_safe_option none = true
is_safe_option (some s) = is_safe_maven_segment s

unfoldable pub check_segments : Text → MavenCoord → Result LoaderError MavenCoord
check_segments coord mc =
    if not (is_safe_maven_segment mc.group)
      || (not (is_safe_maven_segment mc.artifact) || not (is_safe_maven_segment mc.version))
    then err (invalid_maven_coord coord)
    else if not (is_safe_option mc.classifier)
    then err (invalid_maven_coord coord)
    else if not (is_safe_option mc.extension)
    then err (invalid_maven_coord coord)
    else ok mc

-- `splitn(5, ':')` splits at four colons.
unfoldable pub parse_maven_coord : Text → Result LoaderError MavenCoord
unfolding coord_of_parts check_segments
parse_maven_coord coord = elim (coord_of_parts (splitn b':' 4 coord)) [
  | none ↦ err (invalid_maven_coord coord)
  | some mc ↦ check_segments coord mc
]

abbrev pub slash_for_dot : ℕ → ℕ
slash_for_dot c = if c == b'.' then b'/' else c

abbrev pub extension_or_jar : Option Text → Text
extension_or_jar none = codes "jar"
extension_or_jar (some e) = e

abbrev pub dashed : Option Text → Text
dashed none = []
dashed (some c) = b'-' ∷ c

unfoldable pub basename : MavenCoord → Text
basename mc =
    mc.artifact
    ++ (b'-' ∷ (mc.version ++ (dashed mc.classifier ++ (b'.' ∷ extension_or_jar mc.extension))))

unfoldable pub coord_path : MavenCoord → Text
unfolding basename
coord_path mc =
    map slash_for_dot mc.group
    ++ (b'/' ∷ (mc.artifact ++ (b'/' ∷ (mc.version ++ (b'/' ∷ basename mc)))))

unfoldable pub maven_coord_to_path : Text → Result LoaderError Text
maven_coord_to_path coord = do mc ← parse_maven_coord coord; ok (coord_path mc)

unfoldable pub maven_download_url : Text → Text → Result LoaderError Text
maven_download_url repo_base coord = do
  path ← maven_coord_to_path coord
  ok (trim_end b'/' repo_base ++ (b'/' ∷ path))
