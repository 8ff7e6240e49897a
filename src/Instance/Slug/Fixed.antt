-- ===== src/Instance/Slug/Fixed.antt =====
-- The names that are their own slug.
use ichr.Base.{
  ℕ, ◌<◌, Bool, true, false, not, [], ◌∷◌, map, ◌≡◌, refl, ap, ◌∙◌, Text, filter, take, length,
  take-all, all, trim_end, trim_start, has_text, starts_with, ends_with, text_eq, if◌then◌else◌,
  arith,
}
use ichr.Instance.Slug.{Unicode, max_slug_len, is_kept, collapse, trim_dashes, or_instance, slugify}
use ichr.Instance.Slug.Shape.{is_slug_char, dash, dashes, IsSlug}

kept-id :
    (w : ℕ → Bool) (s : Text)
    → all is_slug_char s ≡ true
    → all (λ c. not (w c)) s ≡ true
    → filter is_kept (map (λ c. if w c then b'-' else c) s) ≡ s
unfolding is_kept
kept-id w [] h n = refl
kept-id w (c ∷ s) h n = ground (arith, kept-id w s)

collapse-id : (s : Text) → has_text s dashes ≡ false → collapse false s ≡ s
unfolding collapse has_text starts_with
collapse-id [] h = refl
collapse-id (c ∷ []) h = ground arith
collapse-id (c ∷ d ∷ s) h = ground (arith, collapse-id (d ∷ s), collapse-id s)

trim_start-id : (s : Text) → starts_with s dash ≡ false → trim_start b'-' s ≡ s
unfolding trim_start starts_with
trim_start-id [] h = refl
trim_start-id (c ∷ s) h = ground arith

trim_end-id : (s : Text) → ends_with s dash ≡ false → trim_end b'-' s ≡ s
unfolding trim_end ends_with text_eq
trim_end-id [] h = refl
trim_end-id (c ∷ []) h = ground arith
trim_end-id (c ∷ d ∷ s) h = ground (arith, trim_end-id (d ∷ s))

or_instance-id : (s : Text) → 0 < length s → or_instance s ≡ s
or_instance-id [] h = absurd (omega (arith, h))
or_instance-id (c ∷ s) h = refl

-- A name that has the shape of a slug and does not end in a dash is its own slug, where
-- lower-casing leaves it alone and none of its characters is whitespace.
pub slugify-id :
    (u : Unicode) (s : Text)
    → IsSlug s
    → ends_with s dash ≡ false
    → u.to_lowercase s ≡ s
    → all (λ c. not (u.is_whitespace c)) s ≡ true
    → slugify u s ≡ s
unfolding slugify trim_dashes
slugify-id u s i e lower white =
    let kept =
      ap (λ x. filter is_kept (map (λ c. if u.is_whitespace c then b'-' else c) x)) lower
      ∙ kept-id u.is_whitespace s i.chars white in
    let one = ap (λ x. collapse false x) kept ∙ collapse-id s (ground (arith, i.good_dashes)) in
    let trimmed =
      ap (λ x. trim_end b'-' (trim_start b'-' x)) one
      ∙ ap (trim_end b'-') (trim_start-id s (ground (arith, i.good_dashes)))
      ∙ trim_end-id s e in
    ap (λ x. or_instance (take max_slug_len x)) trimmed
    ∙ ap or_instance (take-all max_slug_len s i.short)
    ∙ or_instance-id s i.some_char
