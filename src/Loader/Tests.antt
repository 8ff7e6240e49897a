-- ===== src/Loader/Tests.antt =====
-- Coordinates on small inputs.
use ichr.Base.{
  none, some, ◌≡◌, ◌≢◌, refl, ◌↔◌, codes, text_eq, join, split, splitn, All, starts_with, trim_end,
  ok, err,
}
use ichr.Loader.Error.{invalid_maven_coord}
use ichr.Loader.Maven.{
  is_maven_byte, is_safe_maven_segment, MavenCoord, parse_maven_coord, coord_path,
  maven_coord_to_path, maven_download_url,
}
use ichr.Loader.Maven.Coords.{render, IsSafe, parse_maven_coord_iff}
use ichr.Loader.Maven.Paths.{maven_coord_to_path-All}

program : Unit {0}
unfolding text_eq join split splitn starts_with trim_end is_maven_byte is_safe_maven_segment
    parse_maven_coord coord_path maven_coord_to_path maven_download_url render
program = tt

abbrev mergetool : MavenCoord
mergetool = record {
  group = codes "net.neoforged";
  artifact = codes "mergetool";
  version = codes "2.0.0";
  classifier = some (codes "api");
  extension = none;
}

path_tests :
    (maven_coord_to_path (codes "net.neoforged:mergetool:2.0.0:api")
      ≡ ok (codes "net/neoforged/mergetool/2.0.0/mergetool-2.0.0-api.jar"))
    × (maven_coord_to_path (codes "org.lwjgl:lwjgl-glfw:3.3.3:natives-linux:zip")
        ≡ ok (codes "org/lwjgl/lwjgl-glfw/3.3.3/lwjgl-glfw-3.3.3-natives-linux.zip"))
    × (maven_coord_to_path (codes "g:a:v:c:e:extra")
        ≡ err (invalid_maven_coord (codes "g:a:v:c:e:extra")))
    × (maven_coord_to_path (codes "org.evil:..:1.0")
        ≡ err (invalid_maven_coord (codes "org.evil:..:1.0")))
    × (maven_coord_to_path (codes ".etc:a:1") ≡ ok (codes "/etc/a/1/a-1.jar"))
unfolding program
path_tests = (refl, refl, refl, refl, refl)

parse_maven_coord_iff_example :
    (parse_maven_coord (codes "net.neoforged:mergetool:2.0.0:api") ≡ ok mergetool)
    ↔ ((render mergetool ≡ codes "net.neoforged:mergetool:2.0.0:api") × IsSafe mergetool)
parse_maven_coord_iff_example =
    parse_maven_coord_iff (codes "net.neoforged:mergetool:2.0.0:api") mergetool

abbrev hidden : MavenCoord
hidden = record {
  group = codes ".etc";
  artifact = codes "a";
  version = codes "1";
  classifier = none;
  extension = none;
}

-- The group begins with a dot, and the path is absolute.
maven_coord_to_path-All_example :
    (mc : MavenCoord) × (parse_maven_coord (codes ".etc:a:1") ≡ ok mc)
    × All (λ p. p ≢ codes "..") (split b'/' (codes "/etc/a/1/a-1.jar"))
    × (starts_with (codes "/etc/a/1/a-1.jar") (codes "/") ≡ starts_with mc.group (codes "."))
maven_coord_to_path-All_example =
    maven_coord_to_path-All (codes ".etc:a:1") (codes "/etc/a/1/a-1.jar") path_tests.4
