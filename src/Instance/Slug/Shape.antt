-- ===== src/Instance/Slug/Shape.antt =====
-- The shape of a slug: its characters, its length and its dashes.
use ichr.Base.{
  ℕ, zero, suc, ◌≤◌, ◌<◌, Bool, true, false, not, ◌&&◌, ◌||◌, [], ◌∷◌, map, ◌≡◌, refl, inl, inr,
  Text, codes, filter, take, length, length-take, all, trim_end, keep_unless, trim_start, has_text,
  starts_with, is_upper, is_lower, is_digit, ◌==◌, if◌then◌else◌, Bool-cases, arith,
}
use ichr.Instance.Slug.{Unicode, max_slug_len, is_kept, collapse, trim_dashes, or_instance, slugify}

-- "[a-z0-9-]"
abbrev pub is_slug_char : ℕ → Bool
is_slug_char c = is_lower c || (is_digit c || c == b'-')

abbrev pub dashes : Text
dashes = codes "--"

abbrev pub dash : Text
dash = codes "-"

-- Neither a dash in front nor two in a row.
abbrev pub has_good_dashes : Text → Bool
has_good_dashes s = not (starts_with s dash) && not (has_text s dashes)

collapse-dashes :
    (prev : Bool) (s : Text)
    → (has_text (collapse prev s) dashes ≡ false)
      × (prev ≡ true → starts_with (collapse prev s) dash ≡ false)
unfolding collapse has_text starts_with
collapse-dashes prev [] = (refl, λ e. refl)
collapse-dashes prev (c ∷ s) =
    let (behind_dash, start) = collapse-dashes true s in
    let (behind_other, _) = collapse-dashes false s in
    let no_start = start refl in (ground arith, λ e. ground arith)

all-collapse :
    (p : ℕ → Bool) (prev : Bool) (s : Text) → all p s ≡ true → all p (collapse prev s) ≡ true
unfolding collapse
all-collapse p prev [] h = refl
all-collapse p prev (c ∷ s) h = ground (arith, all-collapse p true s, all-collapse p false s)

all-filter : (p : ℕ → Bool) (s : Text) → all p (filter p s) ≡ true
all-filter p [] = refl
all-filter p (c ∷ s) = ground (arith, all-filter p s)

all-trim_start : (p : ℕ → Bool) (c : ℕ) (s : Text) → all p s ≡ true → all p (trim_start c s) ≡ true
unfolding trim_start
all-trim_start p c [] h = refl
all-trim_start p c (d ∷ s) h = ground (arith, all-trim_start p c s)

trim_start-dashes :
    (s : Text) → has_text s dashes ≡ false → has_good_dashes (trim_start b'-' s) ≡ true
unfolding trim_start has_text starts_with
trim_start-dashes [] h = refl
trim_start-dashes (c ∷ s) h = ground (arith, trim_start-dashes s)

-- `r` is `s` with its end cut off.
data Cut : Text → Text → Type 0 where
  cut_all : (s : Text) → Cut [] s
  cut_tail : (c : ℕ) (r s : Text) → Cut r s → Cut (c ∷ r) (c ∷ s)

Cut-take : (n : ℕ) (s : Text) → Cut (take n s) s
unfolding take
Cut-take zero s = cut_all s
Cut-take (suc n) [] = cut_all []
Cut-take (suc n) (c ∷ s) = cut_tail c (take n s) s (Cut-take n s)

Cut-keep_unless : (d : ℕ) (b : Bool) (r s : Text) → Cut r s → Cut (keep_unless d b r) (d ∷ s)
Cut-keep_unless d true [] s h = cut_all (d ∷ s)
Cut-keep_unless d false r s h = cut_tail d r s h
Cut-keep_unless d true (x ∷ r) s h = cut_tail d (x ∷ r) s h

Cut-trim_end : (c : ℕ) (s : Text) → Cut (trim_end c s) s
unfolding trim_end
Cut-trim_end c [] = cut_all []
Cut-trim_end c (d ∷ s) = Cut-keep_unless d (d == c) (trim_end c s) s (Cut-trim_end c s)

Cut-starts_with :
    (p : Text) {r s : Text} → Cut r s → starts_with s p ≡ false → starts_with r p ≡ false
unfolding starts_with
Cut-starts_with [] h n = n
Cut-starts_with (q ∷ p) (cut_all s) n = refl
Cut-starts_with (q ∷ p) (cut_tail c r s h) n = ground (arith, Cut-starts_with p h)

Cut-has_text : {r s : Text} → Cut r s → has_text s dashes ≡ false → has_text r dashes ≡ false
unfolding has_text
Cut-has_text (cut_all s) n = unfold starts_with in refl
Cut-has_text (cut_tail c r s h) n =
    ground (arith, Cut-has_text h, Cut-starts_with dashes (cut_tail c r s h))

Cut-has_good_dashes : {r s : Text} → Cut r s → has_good_dashes s ≡ true → has_good_dashes r ≡ true
Cut-has_good_dashes {r} {s} h g =
    let start : starts_with s dash ≡ false = ground arith in
    let pair : has_text s dashes ≡ false = ground arith in
    ground (arith, Cut-starts_with dash h start, Cut-has_text h pair)

Cut-all : (p : ℕ → Bool) {r s : Text} → Cut r s → all p s ≡ true → all p r ≡ true
Cut-all p (cut_all s) h = refl
Cut-all p (cut_tail c r s k) h = ground (arith, Cut-all p k)

-- No upper case: `to_lowercase` leaves no ASCII letter in it, and whitespace becomes a dash.
kept_lower :
    (w : ℕ → Bool) (s : Text)
    → all (λ c. not (is_upper c)) s ≡ true
    → all is_slug_char (filter is_kept (map (λ c. if w c then b'-' else c) s)) ≡ true
unfolding is_kept
kept_lower w [] h = refl
kept_lower w (c ∷ s) h = elim (Bool-cases (w c)) [
  | inl white ↦ ground (arith, kept_lower w s)
  | inr other ↦ ground (arith, kept_lower w s)
]

pub record IsSlug (s : Text) : Type 0 where
  pub chars : all is_slug_char s ≡ true
  pub good_dashes : has_good_dashes s ≡ true
  pub some_char : 0 < length s
  pub short : length s ≤ max_slug_len

or_instance-IsSlug :
    (s : Text)
    → all is_slug_char s ≡ true
    → has_good_dashes s ≡ true
    → length s ≤ max_slug_len
    → IsSlug (or_instance s)
or_instance-IsSlug [] a g l = record {
  chars = refl;
  good_dashes = unfold starts_with has_text in refl;
  some_char = omega arith;
  short = omega arith;
}
or_instance-IsSlug (c ∷ s) a g l = record {
  chars = a;
  good_dashes = g;
  some_char = omega arith;
  short = l;
}

-- A slug is made of lower case ASCII letters, digits and dashes, is not empty and at most 40
-- characters long, does not begin with a dash and has no two dashes in a row, whatever the name;
-- lower-casing is to leave no ASCII capital.
pub slugify-IsSlug :
    (u : Unicode) (name : Text)
    → all (λ c. not (is_upper c)) (u.to_lowercase name) ≡ true
    → IsSlug (slugify u name)
unfolding slugify trim_dashes
slugify-IsSlug u name h =
    let kept =
      filter is_kept (map (λ c. if u.is_whitespace c then b'-' else c) (u.to_lowercase name)) in
    let one = collapse false kept in
    let front = trim_start b'-' one in
    let trimmed = trim_end b'-' front in
    let cut = Cut-take max_slug_len trimmed in
    let chars = Cut-all is_slug_char cut (
      Cut-all is_slug_char (Cut-trim_end b'-' front) (
        all-trim_start is_slug_char b'-' one (
          all-collapse is_slug_char false kept
            (kept_lower u.is_whitespace (u.to_lowercase name) h)))) in
    let good = Cut-has_good_dashes cut (
      Cut-has_good_dashes (Cut-trim_end b'-' front)
        (trim_start-dashes one (collapse-dashes false kept).0)) in
    or_instance-IsSlug (take max_slug_len trimmed) chars good (length-take max_slug_len trimmed)
