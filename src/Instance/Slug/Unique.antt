-- ===== src/Instance/Slug/Unique.antt =====
-- The first free name.
use ichr.Base.{
  ℕ, zero, suc, ◌+◌, ◌≤◌, ◌<◌, Bool, true, false, ◌&&◌, ◌≡◌, refl, ◌⊎◌, inl, inr, Text,
  if◌then◌else◌, Bool-cases, arith, subst, sym, ap, ◌∙◌,
}
use ichr.Instance.Slug.{candidate, unique_from, unique_slug}

-- The `count` candidates from `n` on are taken.
unfoldable pub all_taken : (Text → Bool) → Text → ℕ → ℕ → Bool
all_taken exists base n zero = true
all_taken exists base n (suc count) =
    exists (candidate base n) && all_taken exists base (n + 1) count

module _ (exists : Text → Bool) (base : Text) where
  -- The name is the first candidate behind `count` taken ones, and free or past the last number.
  pub record First (n : ℕ) (name : Text) : Type 0 where
    pub count : ℕ
    pub taken : all_taken exists base n count ≡ true
    pub is_candidate : name ≡ candidate base (n + count)
    pub last : n + count ≤ 10000
    pub free : (exists name ≡ false) ⊎ (n + count ≡ 10000)

  unique_from-First :
      (fuel n : ℕ) → n + fuel ≡ 10000 → 0 < fuel → First n (unique_from exists base fuel n)
  unfolding unique_from all_taken
  unique_from-First zero n e lt = absurd (omega arith)
  unique_from-First (suc zero) n e lt = elim (Bool-cases (exists (candidate base n))) [
    | inl taken ↦ record {
      count = 1;
      taken = ground arith;
      is_candidate = ground arith;
      last = omega arith;
      free = inr (omega arith);
    }
    | inr free ↦ record {
      count = 0;
      taken = refl;
      is_candidate = ground arith;
      last = omega arith;
      free = inl (ground arith);
    }
  ]
  unique_from-First (suc (suc fuel)) n e lt = elim (Bool-cases (exists (candidate base n))) [
    | inl taken ↦
        let f = unique_from-First (suc fuel) (n + 1) (omega arith) (omega arith) in
        let same : unique_from exists base (suc (suc fuel)) n
            ≡ unique_from exists base (suc fuel) (n + 1) =
          ground arith in
        subst (First n) (sym same) (record {
          count = suc f.count;
          taken = ground (arith, f.taken);
          is_candidate = f.is_candidate ∙ ap (candidate base) (omega arith);
          last = omega (arith, f.last);
          free = elim f.free [ inl free ↦ inl free | inr end ↦ inr (omega arith) ];
        })
    | inr free ↦ record {
      count = 0;
      taken = refl;
      is_candidate = ground arith;
      last = omega arith;
      free = inl (ground arith);
    }
  ]

if-First :
    (exists : Text → Bool) (base name : Text)
    → First exists base 2 name
    → (exists base ≡ false) × ((if exists base then name else base) ≡ base)
      ⊎ (exists base ≡ true) × First exists base 2 (if exists base then name else base)
if-First exists base name f = elim (Bool-cases (exists base)) [
  | inl taken ↦
      let same : name ≡ (if exists base then name else base) = ground arith in
      inr (taken, subst (First exists base 2) same f)
  | inr free ↦ inl (free, ground arith)
]

-- The name is the base where that is free, and otherwise the first of base-2, base-3, ... that is
-- free; only where base-2 to base-9999 are all taken it is base-10000, free or not.
pub unique_slug-First :
    (exists : Text → Bool) (base : Text)
    → (exists base ≡ false) × (unique_slug exists base ≡ base)
      ⊎ (exists base ≡ true) × First exists base 2 (unique_slug exists base)
unfolding unique_slug
unique_slug-First exists base =
    if-First exists base (unique_from exists base 9998 2)
      (unique_from-First exists base 9998 2 refl (omega arith))
