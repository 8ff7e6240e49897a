-- ===== src/Java/Major.antt =====
-- The major version is read back from what `java -version` prints.
use ichr.Base.{
  ℕ, zero, suc, ◌+◌, ◌*◌, ◌/◌, ◌%◌, ◌^◌, ◌<◌, Bool, true, false, Option, none, some, List, [], ◌∷◌,
  ◌++◌, Text, codes, text_eq, text_eq_iff, is_digit, ltb, has, has-append, split, split-append,
  split-none, Bool-cases, ◌≡◌, ◌≢◌, refl, sym, ap, ap₂, ◌∙◌, inl, inr, append-nil, append_assoc,
  arith,
}
use ichr.Instance.Slug.{decimal_from, decimal}
use ichr.Java.Mapping.{
  digits_from, parse_u32, first_line, after, before, major_of, parse_java_major,
}

first_line-append : (s t : Text) → has b'\n' s ≡ false → first_line (s ++ b'\n' ∷ t) ≡ s
unfolding first_line has
first_line-append [] t h = ground arith
first_line-append (c ∷ s) t h = ground (arith, first_line-append s t)

after-append : (stop : ℕ) (s t : Text) → has stop s ≡ false → after stop (s ++ stop ∷ t) ≡ some t
unfolding after has
after-append stop [] t h = ground arith
after-append stop (c ∷ s) t h = ground (arith, after-append stop s t)

before-append : (stop : ℕ) (s t : Text) → has stop s ≡ false → before stop (s ++ stop ∷ t) ≡ some s
unfolding before has
before-append stop [] t h = ground arith
before-append stop (c ∷ s) t h = grind (arith, before-append stop s t)

-- The digits of a number hold no other character.
has-decimal_from : (c fuel n : ℕ) → is_digit c ≡ false → has c (decimal_from fuel n) ≡ false
unfolding has decimal_from
has-decimal_from c zero n h = refl
has-decimal_from c (suc fuel) n h = grind (
  arith,
  has-decimal_from c fuel (n / 10) h,
  has-append c (decimal_from fuel (n / 10)) ((b'0' + n % 10) ∷ []),
)

-- The first digit of a number.
decimal_from-head :
    (fuel n : ℕ)
    → n < fuel
    → (c : ℕ) × (s : Text) × (decimal_from fuel n ≡ c ∷ s) × (is_digit c ≡ true)
unfolding decimal_from
decimal_from-head zero n h = absurd (omega arith)
decimal_from-head (suc fuel) n h = elim (Bool-cases (ltb n 10)) [
  | inl e ↦ rw e (b'0' + n, [], refl, ground arith)
  | inr e ↦
      let (c, s, q, d) = decimal_from-head fuel (n / 10) (ground arith) in
      rw e (c, s ++ (b'0' + n % 10) ∷ [], ap (λ x. x ++ (b'0' + n % 10) ∷ []) q, d)
]

digit-step :
    (acc d n : ℕ) (s : Text)
    → d < 10
    → n < 2 ^ 32
    → acc * 10 + d ≡ n
    → digits_from (some acc) ((b'0' + d) ∷ s) ≡ digits_from (some n) s
unfolding digits_from
digit-step acc d n s h k e = grind arith

-- Reading the digits of a number gives the number.
digits_from-decimal_from :
    (fuel n : ℕ) (s : Text)
    → n < fuel
    → n < 2 ^ 32
    → digits_from (some 0) (decimal_from fuel n ++ s) ≡ digits_from (some n) s
unfolding decimal_from
digits_from-decimal_from zero n s h k = absurd (omega arith)
digits_from-decimal_from (suc fuel) n s h k = elim (Bool-cases (ltb n 10)) [
  | inl e ↦ rw e (digit-step 0 n n s (ground arith) k (omega arith))
  | inr e ↦ rw e (
      ap (digits_from (some 0)) (append_assoc (decimal_from fuel (n / 10)) ((b'0' + n % 10) ∷ []) s)
      ∙ digits_from-decimal_from fuel (n / 10) ((b'0' + n % 10) ∷ s) (ground arith) (omega arith)
      ∙ digit-step (n / 10) (n % 10) n s (omega arith) k (omega arith))
]

parse_u32-digits :
    (c : ℕ) (s : Text) → is_digit c ≡ true → parse_u32 (c ∷ s) ≡ digits_from (some 0) (c ∷ s)
unfolding parse_u32
parse_u32-digits c [] h = refl
parse_u32-digits c (d ∷ s) h = grind arith

parse_u32-decimal : (n : ℕ) → n < 2 ^ 32 → parse_u32 (decimal n) ≡ some n
parse_u32-decimal n h =
    let (c, s, q, d) = decimal_from-head (suc n) n (omega arith) in
    ap parse_u32 q
    ∙ parse_u32-digits c s d
    ∙ sym (ap (digits_from (some 0)) (append-nil (decimal n) ∙ q))
    ∙ digits_from-decimal_from (suc n) n [] (omega arith) h
    ∙ unfold digits_from in refl

one : (n : ℕ) → some n ≡ some 1 → n ≡ 1
one n e = cc

decimal-ne-one : (n : ℕ) → n < 2 ^ 32 → n ≢ 1 → text_eq (decimal n) (codes "1") ≡ false
decimal-ne-one n h k = elim (Bool-cases (text_eq (decimal n) (codes "1"))) [
  | inl e ↦ absurd (
      k (
        one n (
          sym (parse_u32-decimal n h)
          ∙ ap parse_u32 ((text_eq_iff (decimal n) (codes "1")).0 e)
          ∙ unfold parse_u32 digits_from in refl)))
  | inr e ↦ e
]

-- What follows the number in a version: nothing, or a dot and more.
abbrev pub dotted : Option Text → Text
dotted none = []
dotted (some more) = b'.' ∷ more

-- A version as Java prints it, in the legacy form 1.8.0_292 or as 17.0.2.
abbrev pub printed : Bool → ℕ → Option Text → Text
printed true n more = codes "1." ++ (decimal n ++ dotted more)
printed false n more = decimal n ++ dotted more

split-dotted :
    (s : Text) (more : Option Text)
    → has b'.' s ≡ false
    → (rest : List Text) × (split b'.' (s ++ dotted more) ≡ s ∷ rest)
split-dotted s none h = ([], ap (split b'.') (append-nil s) ∙ split-none b'.' s h)
split-dotted s (some more) h = (
  split b'.' more,
  split-append b'.' s more ∙ ap (λ x. x ++ split b'.' more) (split-none b'.' s h),
)

major_of-printed :
    (legacy : Bool) (n : ℕ) (more : Option Text)
    → n < 2 ^ 32
    → (legacy ≡ false → n ≢ 1)
    → major_of (split b'.' (printed legacy n more)) ≡ some n
major_of-printed false n more h k =
    let (rest, q) = split-dotted (decimal n) more (has-decimal_from b'.' (suc n) n refl) in
    ap major_of q ∙ rw (decimal-ne-one n h (k refl)) (parse_u32-decimal n h)
major_of-printed true n more h k =
    let (rest, q) = split-dotted (decimal n) more (has-decimal_from b'.' (suc n) n refl) in
    let x = decimal n ++ dotted more in
    let first = split-none b'.' (codes "1") (unfold has in refl) in
    ap major_of (split-append b'.' (codes "1") x ∙ ap₂ ◌++◌ first q)
    ∙ unfold text_eq in parse_u32-decimal n h

has-printed :
    (legacy : Bool) (n : ℕ) (more : Option Text) (c : ℕ)
    → is_digit c ≡ false
    → c ≢ b'.'
    → has c (dotted more) ≡ false
    → has c (printed legacy n more) ≡ false
unfolding has
has-printed legacy n more c d e h =
    grind (arith, has-append c (decimal n) (dotted more), has-decimal_from c (suc n) n d)

-- The version in quotes, and what follows it.
abbrev pub quoted : Bool → ℕ → Option Text → Text → Text
quoted legacy n more trail = b'"' ∷ (printed legacy n more ++ b'"' ∷ trail)

module _ (legacy : Bool) (n : ℕ) (more : Option Text) (lead trail below : Text) where
  has-line :
      (c : ℕ)
      → c ≢ b'"'
      → has c lead ≡ false
      → has c (printed legacy n more) ≡ false
      → has c trail ≡ false
      → has c (lead ++ quoted legacy n more trail) ≡ false
  unfolding has
  has-line c ne l p t = grind (
    arith,
    has-append c lead (quoted legacy n more trail),
    has-append c (printed legacy n more) (b'"' ∷ trail),
  )

  -- The first line of what Java prints holds the version between two quotes. Its number, below
  -- 2^32, is read back, in the legacy form 1.8.0_292 and in the form 17.0.2, which no version of
  -- number 1 has: where the text before the version holds no quote, the rest of the version neither
  -- a quote nor a line's end, and the texts beside the version no line's end.
  pub parse_java_major-printed :
      n < 2 ^ 32
      → (legacy ≡ false → n ≢ 1)
      → has b'"' lead ≡ false
      → has b'\n' lead ≡ false
      → has b'"' (dotted more) ≡ false
      → has b'\n' (dotted more) ≡ false
      → has b'\n' trail ≡ false
      → parse_java_major ((lead ++ quoted legacy n more trail) ++ b'\n' ∷ below) ≡ some n
  unfolding parse_java_major
  parse_java_major-printed small ne lq ln mq mn tn =
      let version = printed legacy n more in
      let vq = has-printed legacy n more b'"' refl (λ e. omega arith) mq in
      let vn = has-printed legacy n more b'\n' refl (λ e. omega arith) mn in
      let line =
        first_line-append (lead ++ quoted legacy n more trail) below
          (has-line b'\n' (λ e. omega arith) ln vn tn) in
      let behind = after-append b'"' lead (version ++ b'"' ∷ trail) lq in
      let inside = before-append b'"' version trail vq in
      rw line (rw behind (rw inside (major_of-printed legacy n more small ne)))
