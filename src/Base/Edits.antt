-- ===== src/Base/Edits.antt =====
-- The edits that a text field and a hash map receive: characters pushed and popped, white space
-- trimmed, entries put and removed.
use Prim.Native.Nat.{ℕ, zero, suc}
use mathlib.Core.Path.{◌≡◌, refl, ap, subst, ◌∙◌}
use mathlib.Core.Logic.{inl, inr}
use mathlib.Core.Bool.{Bool, true, false, not, ◌&&◌, ◌||◌}
use mathlib.Core.Option.{Option, none, some}
use mathlib.Core.List.{List, [], ◌∷◌, ◌++◌}
use native.Mathlib.Omega.{arith}
use ichr.Base.Tests.{leb, ◌==◌, if◌then◌else◌, Bool-cases, is_some}
use ichr.Base.Texts.{Text, text_eq, text_eq_iff}
use ichr.Base.Maps.{lookup}

-- `String::push`
abbrev pub push : Text → ℕ → Text
push s c = s ++ c ∷ []

-- `String::pop`, the character it returns left aside.
unfoldable pub pop : Text → Text
pop [] = []
pop (c ∷ []) = []
pop (c ∷ d ∷ s) = c ∷ pop (d ∷ s)

-- `is_empty`
abbrev pub is_empty : Text → Bool
is_empty [] = true
is_empty (c ∷ s) = false

-- `char::is_whitespace`: the code points with the property White_Space.
abbrev pub is_whitespace : ℕ → Bool
is_whitespace c =
    leb 9 c && leb c 13
    || (c == 32
        || (c == 133
            || (c == 160
                || (c == 5760
                    || (leb 8192 c && leb c 8202
                        || (c == 8232
                            || (c == 8233 || (c == 8239 || (c == 8287 || c == 12288)))))))))

-- `str::trim_start`, `str::trim_end`, `str::trim`
unfoldable pub trim_left : Text → Text
trim_left [] = []
trim_left (c ∷ s) = if is_whitespace c then trim_left s else c ∷ s

abbrev keep_unless_blank : ℕ → Text → Text
keep_unless_blank c [] = if is_whitespace c then [] else c ∷ []
keep_unless_blank c (d ∷ s) = c ∷ d ∷ s

unfoldable pub trim_right : Text → Text
trim_right [] = []
trim_right (c ∷ s) = keep_unless_blank c (trim_right s)

abbrev pub trim : Text → Text
trim s = trim_right (trim_left s)

-- `str::split_once(char)`
unfoldable pub split_once : ℕ → Text → Option (Text × Text)
split_once sep [] = none
split_once sep (c ∷ s) = elim (split_once sep s) [
  | none ↦ if c == sep then some ([], s) else none
  | some (before, after) ↦ if c == sep then some ([], s) else some (c ∷ before, after)
]

-- `str::strip_prefix`
unfoldable pub strip_prefix : Text → Text → Option Text
strip_prefix s [] = some s
strip_prefix [] (p ∷ ps) = none
strip_prefix (c ∷ s) (p ∷ ps) = let rest = strip_prefix s ps in if c == p then rest else none

-- `slice::get`
abbrev pub get_elem? {ℓ} : {A : Type ℓ} → List A → ℕ → Option A
get_elem? [] n = none
get_elem? (x ∷ xs) zero = some x
get_elem? (x ∷ xs) (suc n) = get_elem? xs n

module _ {V : Type 0} where
  -- `HashMap::remove`, the value it returns left aside.
  unfoldable pub erase : Text → List (Text × V) → List (Text × V)
  erase k [] = []
  erase k ((j, v) ∷ m) = let rest = erase k m in if text_eq j k then rest else (j, v) ∷ rest

  -- `HashMap::insert`
  abbrev pub insert : Text → V → List (Text × V) → List (Text × V)
  insert k v m = (k, v) ∷ erase k m

  pub lookup-erase_same : (k : Text) (m : List (Text × V)) → lookup k (erase k m) ≡ none
  unfolding lookup erase
  lookup-erase_same k [] = refl
  lookup-erase_same k ((j, v) ∷ m) = ground (arith, lookup-erase_same k m)

  pub lookup-erase_other :
      (k q : Text) (m : List (Text × V)) → text_eq k q ≡ false → lookup q (erase k m) ≡ lookup q m
  unfolding lookup erase
  lookup-erase_other k q [] h = refl
  lookup-erase_other k q ((j, v) ∷ m) h = elim (Bool-cases (text_eq j k)) [
    | inl e ↦
        let d : text_eq j q ≡ false = ap (λ t. text_eq t q) ((text_eq_iff j k).0 e) ∙ h in
        ground (arith, lookup-erase_other k q m h)
    | inr e ↦ ground (arith, lookup-erase_other k q m h)
  ]

  -- The keys that a map holds after an entry is removed or put.
  pub is_some-erase :
      (k q : Text) (m : List (Text × V))
      → is_some (lookup q (erase k m)) ≡ (not (text_eq k q) && is_some (lookup q m))
  is_some-erase k q m = elim (Bool-cases (text_eq k q)) [
    | inl e ↦
        let same : k ≡ q = (text_eq_iff k q).0 e in
        let gone : lookup q (erase k m) ≡ none =
          subst (λ t. lookup t (erase k m) ≡ none) same (lookup-erase_same k m) in
        grind (arith, gone, e)
    | inr e ↦ grind (arith, lookup-erase_other k q m e, e)
  ]

  pub is_some-insert :
      (k q : Text) (v : V) (m : List (Text × V))
      → is_some (lookup q (insert k v m)) ≡ (text_eq k q || is_some (lookup q m))
  unfolding lookup
  is_some-insert k q v m = grind (arith, is_some-erase k q m)
