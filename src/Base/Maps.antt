-- ===== src/Base/Maps.antt =====
-- A `HashMap<String, V>` as an association list, read by its first entry for a key.
use mathlib.Core.Option.{Option, none, some}
use mathlib.Core.Path.{◌≡◌, refl}
use mathlib.Core.List.{List, [], ◌∷◌}
use native.Mathlib.Omega.{arith}
use ichr.Base.Tests.{if◌then◌else◌, is_some}
use ichr.Base.Texts.{Text, text_eq, contains}

module _ {ℓ} {V : Type ℓ} where
  -- `HashMap::get`
  unfoldable pub lookup : Text → List (Text × V) → Option V
  lookup k [] = none
  lookup k ((j, v) ∷ m) = if text_eq j k then some v else lookup k m

  unfoldable pub keys : List (Text × V) → List Text
  keys [] = []
  keys ((j, v) ∷ m) = j ∷ keys m

  pub contains-keys : (k : Text) (m : List (Text × V)) → contains (keys m) k ≡ is_some (lookup k m)
  unfolding lookup keys contains
  contains-keys k [] = refl
  contains-keys k ((j, v) ∷ m) = ground (arith, contains-keys k m)
