-- ===== src/Modpack/Tests.antt =====
-- A small manifest, and one of another game.
use ichr.Base.{
  true, none, [], ◌∷◌, ◌≡◌, refl, ◌↔◌, Text, codes, text_eq, lookup, is_some, Result, ok, err,
  if◌then◌else◌,
}
use ichr.Modpack.Parse.{MrpackIndex, unsupported_game, parse_index, detect_loader}
use ichr.Modpack.Parse.Loaders.{priority, parse_index_iff, Chosen, detect_loader-Chosen}

abbrev index : Text → MrpackIndex
index game = record {
  format_version = 1;
  game = game;
  version_id = codes "1";
  name = codes "pack";
  summary = none;
  dependencies =
      (codes "neoforge", codes "21")
      ∷ (codes "quilt-loader", codes "0.2")
      ∷ (codes "minecraft", codes "1.20")
      ∷ [];
  files = [];
}

-- A JSON library that reads one document as the index, and every other one as another game's.
abbrev from_str : Text → Result Text MrpackIndex
from_str json =
    if text_eq json (codes "{}")
    then ok (index (codes "minecraft"))
    else ok (index (codes "terraria"))

other_game : parse_index from_str (codes "[]") ≡ err (unsupported_game (codes "terraria"))
unfolding parse_index text_eq
other_game = refl

parse_index_iff_example : (parse_index from_str (codes "{}") ≡ ok (index (codes "minecraft"))) ↔ (
    (from_str (codes "{}") ≡ ok (index (codes "minecraft")))
    × ((index (codes "minecraft")).format_version ≡ 1)
    × ((index (codes "minecraft")).game ≡ codes "minecraft")
    × (is_some (lookup (codes "minecraft") (index (codes "minecraft")).dependencies) ≡ true))
parse_index_iff_example = parse_index_iff from_str (codes "{}") (index (codes "minecraft"))

detect_loader-Chosen_example :
    Chosen
      (index (codes "minecraft")).dependencies
      priority
      (detect_loader (index (codes "minecraft")).dependencies)
detect_loader-Chosen_example = detect_loader-Chosen (index (codes "minecraft")).dependencies
