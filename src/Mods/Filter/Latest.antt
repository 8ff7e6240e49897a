-- ===== src/Mods/Filter/Latest.antt =====
-- The latest version of a list.
use ichr.Base.{
  Bool, true, false, some, List, [], ◌∷◌, ◌++◌, ◌≡◌, refl, ap, subst, sym, ◌⊎◌, inl, inr, Text, All,
  Bool-cases, arith,
}
use ichr.Mods.Types.{ModrinthVersion}
use ichr.Mods.Filter.{text_leb, latest_from, pick_latest_by_date}

text_leb_refl : (s : Text) → text_leb s s ≡ true
unfolding text_leb
text_leb_refl [] = refl
text_leb_refl (a ∷ s) = ground (arith, text_leb_refl s)

text_leb_total : (s t : Text) → text_leb s t ≡ false → text_leb t s ≡ true
unfolding text_leb
text_leb_total [] t h = absurd (ground arith)
text_leb_total (a ∷ s) [] h = refl
text_leb_total (a ∷ s) (b ∷ t) h = ground (arith, text_leb_total s t)

text_leb_trans : (s t u : Text) → text_leb s t ≡ true → text_leb t u ≡ true → text_leb s u ≡ true
unfolding text_leb
text_leb_trans [] t u h k = refl
text_leb_trans (a ∷ s) [] u h k = absurd (ground arith)
text_leb_trans (a ∷ s) (b ∷ t) [] h k = absurd (ground arith)
text_leb_trans (a ∷ s) (b ∷ t) (c ∷ u) h k = ground (arith, text_leb_trans s t u)

abbrev pub date_leb : ModrinthVersion → ModrinthVersion → Bool
date_leb v w = text_leb v.date_published w.date_published

-- `v` stands in `vs`, no date is later than its own, and those behind it are earlier.
pub record IsLatest (vs : List ModrinthVersion) (v : ModrinthVersion) : Type 0 where
  pub before : List ModrinthVersion
  pub after : List ModrinthVersion
  pub split : vs ≡ before ++ v ∷ after
  pub not_later : All (λ w. date_leb w v ≡ true) before
  pub earlier : All (λ w. date_leb v w ≡ false) after

-- `v` is the first of the list, or no earlier than it.
first_leb :
    (b v : ModrinthVersion) (vs : List ModrinthVersion)
    → IsLatest (b ∷ vs) v
    → (b ≡ v) × All (λ w. date_leb v w ≡ false) vs ⊎ (date_leb b v ≡ true) × IsLatest vs v
first_leb b v vs l = go l.before l.split l.not_later
  where
    go :
        (before : List ModrinthVersion)
        → b ∷ vs ≡ before ++ v ∷ l.after
        → All (λ w. date_leb w v ≡ true) before
        → (b ≡ v) × All (λ w. date_leb v w ≡ false) vs ⊎ (date_leb b v ≡ true) × IsLatest vs v
    go [] e n =
        let same : b ≡ v = cc in
        let rest : vs ≡ l.after = cc in
        inl (same, subst (All (λ w. date_leb v w ≡ false)) (sym rest) l.earlier)
    go (x ∷ xs) e n =
        let same : b ≡ x = cc in
        let rest : vs ≡ xs ++ v ∷ l.after = cc in
        inr (
          subst (λ y. date_leb y v ≡ true) (sym same) n.0,
          record {
            before = xs;
            after = l.after;
            split = rest;
            not_later = n.1;
            earlier = l.earlier;
          },
        )

IsLatest-cons :
    (b v : ModrinthVersion) (vs : List ModrinthVersion)
    → date_leb b v ≡ true
    → IsLatest vs v
    → IsLatest (b ∷ vs) v
IsLatest-cons b v vs h l = record {
  before = b ∷ l.before;
  after = l.after;
  split = ap (λ r. b ∷ r) l.split;
  not_later = (h, l.not_later);
  earlier = l.earlier;
}

latest_from-IsLatest :
    (b : ModrinthVersion) (vs : List ModrinthVersion) → IsLatest (b ∷ vs) (latest_from b vs)
unfolding latest_from
latest_from-IsLatest b [] = record {
  before = [];
  after = [];
  split = refl;
  not_later = tt;
  earlier = tt;
}
latest_from-IsLatest b (w ∷ vs) = elim (Bool-cases (date_leb b w)) [
  | inl le ↦ rw le (elim (first_leb w (latest_from w vs) vs (latest_from-IsLatest w vs)) [
    | inl (same, rest) ↦
        IsLatest-cons b (latest_from w vs) (w ∷ vs) (subst (λ v. date_leb b v ≡ true) same le)
          (latest_from-IsLatest w vs)
    | inr (later, l) ↦
        IsLatest-cons b (latest_from w vs) (w ∷ vs)
          (text_leb_trans b.date_published w.date_published (latest_from w vs).date_published le
            later)
          (latest_from-IsLatest w vs)
  ])
  | inr lt ↦ rw lt (elim (first_leb b (latest_from b vs) vs (latest_from-IsLatest b vs)) [
    | inl (same, rest) ↦ record {
      before = [];
      after = w ∷ vs;
      split = ap (λ v. v ∷ w ∷ vs) same;
      not_later = tt;
      earlier = (subst (λ v. date_leb v w ≡ false) same lt, rest);
    }
    | inr (later, l) ↦ IsLatest-cons b (latest_from b vs) (w ∷ vs) later (
        IsLatest-cons w (latest_from b vs) vs
          (text_leb_trans w.date_published b.date_published (latest_from b vs).date_published
            (text_leb_total b.date_published w.date_published lt) later)
          l)
  ])
]

-- The pick is `none` only of no versions; of others it is a version of the list, and the last of
-- those with the greatest date.
pub pick_latest_by_date-IsLatest :
    (b : ModrinthVersion) (vs : List ModrinthVersion)
    → (v : ModrinthVersion) × (pick_latest_by_date (b ∷ vs) ≡ some v) × IsLatest (b ∷ vs) v
unfolding pick_latest_by_date
pick_latest_by_date-IsLatest b vs = (latest_from b vs, refl, latest_from-IsLatest b vs)
