-- ===== src/Mods/Filter/Cleaned.antt =====
-- The cleaned names of packs.
use ichr.Base.{
  ℕ, zero, suc, ◌≤◌, ◌<◌, Bool, true, false, some, [], ◌∷◌, ◌++◌, ◌≡◌, refl, sym, subst, inl, inr,
  Text, codes, has, has_text, starts_with, ends_with, text_eq, text_eq_iff, all, all-append, length,
  trim_start, keep_unless, Bool-cases, if◌then◌else◌, arith,
}
use ichr.Mods.Filter.{
  is_filename_byte, is_pack_byte, is_traversal, to_ascii_lowercase, strip_codes, underscores,
  allowed_or_underscore, replace_pairs, single_underscores, trim_front, trim_back, or_pack, stem_of,
  sanitize_pack_filename,
}

abbrev pub pair : Text
pair = codes "__"

all-underscores : (c : ℕ) → all is_pack_byte (underscores c) ≡ true
unfolding underscores is_pack_byte is_filename_byte
all-underscores c = ground arith

all-allowed_or_underscore : (s : Text) → all is_pack_byte (allowed_or_underscore s) ≡ true
unfolding allowed_or_underscore
all-allowed_or_underscore [] = refl
all-allowed_or_underscore (c ∷ s) = ground (
  arith,
  all-allowed_or_underscore s,
  all-underscores c,
  all-append is_pack_byte (underscores c) (allowed_or_underscore s),
)

module _ (p : ℕ → Bool) where
  all-trim_start : (c : ℕ) (s : Text) → all p s ≡ true → all p (trim_start c s) ≡ true
  unfolding trim_start
  all-trim_start c [] h = refl
  all-trim_start c (d ∷ s) h = ground (arith, all-trim_start c s)

  all-replace_pairs : (s : Text) → all p s ≡ true → all p (replace_pairs s) ≡ true
  unfolding replace_pairs
  all-replace_pairs [] h = refl
  all-replace_pairs (c ∷ []) h = h
  all-replace_pairs (c ∷ d ∷ s) h = ground (arith, all-replace_pairs s, all-replace_pairs (d ∷ s))

  all-single_underscores :
      (fuel : ℕ) (s : Text) → all p s ≡ true → all p (single_underscores fuel s) ≡ true
  unfolding single_underscores
  all-single_underscores zero s h = h
  all-single_underscores (suc fuel) s h =
      ground (arith, all-single_underscores fuel (replace_pairs s), all-replace_pairs s)

  all-trim_front : (s : Text) → all p s ≡ true → all p (trim_front s) ≡ true
  unfolding trim_front
  all-trim_front [] h = refl
  all-trim_front (c ∷ s) h = ground (arith, all-trim_front s)

  all-keep_unless :
      (d : ℕ) (b : Bool) (r : Text) → p d ≡ true → all p r ≡ true → all p (keep_unless d b r) ≡ true
  all-keep_unless d true [] h k = refl
  all-keep_unless d false r h k = ground arith
  all-keep_unless d true (x ∷ r) h k = ground arith

  all-trim_back : (s : Text) → all p s ≡ true → all p (trim_back s) ≡ true
  unfolding trim_back
  all-trim_back [] h = refl
  all-trim_back (c ∷ s) h =
      all-keep_unless c _ (trim_back s) (ground arith) (all-trim_back s (ground arith))

-- A round of the replacement shortens what has a pair, so the loop ends without one.
length-replace_pairs-le : (s : Text) → length (replace_pairs s) ≤ length s
unfolding replace_pairs
length-replace_pairs-le [] = omega arith
length-replace_pairs-le (c ∷ []) = omega arith
length-replace_pairs-le (c ∷ d ∷ s) =
    ground (arith, length-replace_pairs-le s, length-replace_pairs-le (d ∷ s))

length-replace_pairs-lt : (s : Text) → has_text s pair ≡ true → length (replace_pairs s) < length s
unfolding replace_pairs has_text starts_with
length-replace_pairs-lt [] h = absurd (ground arith)
length-replace_pairs-lt (c ∷ []) h = absurd (ground arith)
length-replace_pairs-lt (c ∷ d ∷ s) h =
    ground (arith, length-replace_pairs-le s, length-replace_pairs-lt (d ∷ s))

single_underscores-pair :
    (fuel : ℕ) (s : Text) → length s ≤ fuel → has_text (single_underscores fuel s) pair ≡ false
unfolding single_underscores
single_underscores-pair zero [] h = unfold has_text starts_with in refl
single_underscores-pair zero (c ∷ s) h = absurd (omega (arith, h))
single_underscores-pair (suc fuel) s h = elim (Bool-cases (has_text s pair)) [
  | inr single ↦
      subst
        (λ (b : Bool).
          has_text (if b then single_underscores fuel (replace_pairs s) else s) pair ≡ false)
        (sym single) single
  | inl more ↦
      let shorter = length-replace_pairs-lt s more in
      subst
        (λ (b : Bool).
          has_text (if b then single_underscores fuel (replace_pairs s) else s) pair ≡ false)
        (sym more) (single_underscores-pair fuel (replace_pairs s) (omega arith))
]

all-has : (c : ℕ) (s : Text) → is_pack_byte c ≡ false → all is_pack_byte s ≡ true → has c s ≡ false
unfolding has
all-has c [] h k = refl
all-has c (d ∷ s) h k = ground (arith, all-has c s)

ends_with-append : (s suffix : Text) → ends_with (s ++ suffix) suffix ≡ true
unfolding ends_with
ends_with-append [] [] = unfold text_eq in refl
ends_with-append [] (c ∷ suffix) = ground (arith, text_eq_iff (c ∷ suffix) (c ∷ suffix))
ends_with-append (c ∷ s) suffix = ground (arith, ends_with-append s suffix)

all-or_pack : (s : Text) → all is_pack_byte s ≡ true → all is_pack_byte (or_pack s) ≡ true
all-or_pack [] h = unfold is_pack_byte is_filename_byte in refl
all-or_pack (c ∷ s) h = h

pub record IsCleaned (t : Text) : Type 0 where
  pub bytes : all is_pack_byte t ≡ true
  pub extension : ends_with t (codes ".zip") ≡ true
  pub no_slash : has b'/' t ≡ false
  pub no_backslash : has 92 t ≡ false

cleaned : (s : Text) → all is_pack_byte s ≡ true → IsCleaned (or_pack s ++ codes ".zip")
cleaned s h =
    let zip : all is_pack_byte (codes ".zip") ≡ true =
      unfold is_pack_byte is_filename_byte in refl in
    let bytes : all is_pack_byte (or_pack s ++ codes ".zip") ≡ true =
      ground (arith, all-append is_pack_byte (or_pack s) (codes ".zip"), all-or_pack s h) in
    record {
      bytes = bytes;
      extension = ends_with-append (or_pack s) (codes ".zip");
      no_slash = all-has b'/' _ (unfold is_pack_byte is_filename_byte in refl) bytes;
      no_backslash = all-has 92 _ (unfold is_pack_byte is_filename_byte in refl) bytes;
    }

-- The loop over the underscores ends within as many rounds as the text is long, without two of them
-- in a row.
pub has_text-single_underscores :
    (s : Text) → has_text (single_underscores (length s) s) pair ≡ false
has_text-single_underscores s = single_underscores-pair (length s) s (omega arith)

-- A cleaned name of a pack consists of bytes that the test of pack names allows, ends in ".zip" and
-- holds no separator of paths.
pub sanitize_pack_filename-IsCleaned :
    (s t : Text) → sanitize_pack_filename s ≡ some t → IsCleaned t
unfolding sanitize_pack_filename
sanitize_pack_filename-IsCleaned s t h =
    let out = trim_start b'.' (allowed_or_underscore (strip_codes (stem_of s))) in
    let front =
      all-trim_start is_pack_byte b'.' _ (all-allowed_or_underscore (strip_codes (stem_of s))) in
    let single = all-single_underscores is_pack_byte (length out) out front in
    let trimmed = all-trim_front is_pack_byte (single_underscores (length out) out) single in
    let stem =
      all-trim_back is_pack_byte (trim_front (single_underscores (length out) out)) trimmed in
    let c = cleaned (trim_back (trim_front (single_underscores (length out) out))) stem in
    elim (Bool-cases (ends_with (to_ascii_lowercase s) (codes ".zip"))) [
      | inr bare ↦ absurd (ground arith)
      | inl zip ↦ elim (Bool-cases (is_traversal s)) [
        | inl out_of_dir ↦ absurd (ground arith)
        | inr inside ↦ subst IsCleaned (ground arith) c
      ]
    ]
