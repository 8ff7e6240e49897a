-- ===== src/Base/Results.antt =====
-- `Result<A, E>` with the `?` operator as bind.
use mathlib.Core.Path.{◌≡◌, refl}
use mathlib.Core.Logic.{◌⊎◌, inl, inr}
use mathlib.Core.Option.{Option, none, some}

pub data Result (E A : Type 0) : Type 0 where
  err : (why : E) → Result E A
  ok : (value : A) → Result E A

-- `Option::ok_or_else`
abbrev pub ok_or : {E A : Type 0} → Option A → E → Result E A
ok_or none missing = err missing
ok_or (some value) missing = ok value

module _ {E A : Type 0} where
  infixl 5 ◌>>=◌
  abbrev pub ◌>>=◌ : {B : Type 0} → Result E A → (A → Result E B) → Result E B
  err why >>= next = err why
  ok value >>= next = next value

  pub Result-cases : (r : Result E A) → ((a : A) × (r ≡ ok a)) ⊎ ((e : E) × (r ≡ err e))
  Result-cases (err why) = inr (why, refl)
  Result-cases (ok value) = inl (value, refl)

  pub >>=-eq-ok :
      {B : Type 0} (r : Result E A) (next : A → Result E B) {b : B}
      → (r >>= next) ≡ ok b
      → (a : A) × (r ≡ ok a) × (next a ≡ ok b)
  >>=-eq-ok (err why) next h = cc
  >>=-eq-ok (ok value) next h = (value, refl, h)
