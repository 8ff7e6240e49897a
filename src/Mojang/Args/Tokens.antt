-- ===== src/Mojang/Args/Tokens.antt =====
-- The legacy template is split into its words.
use ichr.Base.{
  ℕ, Bool, true, false, not, List, [], ◌∷◌, ◌++◌, ◌≡◌, refl, sym, ap, ◌∙◌, Text, All, all, join,
  append_assoc, append-nil, arith, inl, inr, Bool-cases,
}
use ichr.Mojang.Args.{
  is_ascii_whitespace, close_token, split_whitespace_from, split_legacy_template,
}

abbrev no_blank : Text → Bool
no_blank = all (λ c. not (is_ascii_whitespace c))

-- A word: not empty, and free of blanks.
abbrev pub IsWord : Text → Type 0
IsWord [] = ⊥
IsWord (c ∷ t) = no_blank (c ∷ t) ≡ true

no_blank_snoc :
    (cur : Text) (c : ℕ)
    → no_blank cur ≡ true
    → is_ascii_whitespace c ≡ false
    → no_blank (cur ++ c ∷ []) ≡ true
no_blank_snoc [] c h e = ground arith
no_blank_snoc (d ∷ cur) c h e = ground (arith, no_blank_snoc cur c)

close_token-All :
    (cur : Text) (rest : List Text)
    → no_blank cur ≡ true
    → All IsWord rest
    → All IsWord (close_token cur rest)
close_token-All [] rest h a = a
close_token-All (c ∷ cur) rest h a = (h, a)

split_whitespace_from-All :
    (cur s : Text) → no_blank cur ≡ true → All IsWord (split_whitespace_from cur s)
unfolding split_whitespace_from
split_whitespace_from-All cur [] h = close_token-All cur [] h tt
split_whitespace_from-All cur (c ∷ s) h = elim (Bool-cases (is_ascii_whitespace c)) [
  | inl blank ↦ rw blank (close_token-All cur _ h (split_whitespace_from-All [] s refl))
  | inr plain ↦ rw plain (split_whitespace_from-All (cur ++ c ∷ []) s (no_blank_snoc cur c h plain))
]

split_whitespace_from-append :
    (cur t s : Text)
    → no_blank t ≡ true
    → split_whitespace_from cur (t ++ s) ≡ split_whitespace_from (cur ++ t) s
unfolding split_whitespace_from
split_whitespace_from-append cur [] s h = rw append-nil
split_whitespace_from-append cur (c ∷ t) s h =
    ground (arith, split_whitespace_from-append (cur ++ c ∷ []) t s, append_assoc cur (c ∷ []) t)

split_blank :
    (cur s : Text)
    → split_whitespace_from cur (32 ∷ s) ≡ close_token cur (split_whitespace_from [] s)
unfolding split_whitespace_from
split_blank cur s = refl

split_end : (cur : Text) → split_whitespace_from cur [] ≡ close_token cur []
unfolding split_whitespace_from
split_end cur = refl

split-join : (ts : List Text) → All IsWord ts → split_whitespace_from [] (join (32 ∷ []) ts) ≡ ts
unfolding join
split-join [] h = unfold split_whitespace_from in refl
split-join ([] ∷ ts) h = absurd h.0
split-join ((c ∷ t) ∷ []) h =
    ap (split_whitespace_from []) (sym (append-nil (c ∷ t)))
    ∙ split_whitespace_from-append [] (c ∷ t) [] h.0
    ∙ split_end (c ∷ t)
split-join ((c ∷ t) ∷ u ∷ ts) h =
    let ih = split-join (u ∷ ts) h.1 in
    split_whitespace_from-append [] (c ∷ t) (32 ∷ join (32 ∷ []) (u ∷ ts)) h.0
    ∙ split_blank (c ∷ t) (join (32 ∷ []) (u ∷ ts))
    ∙ ap (λ x. (c ∷ t) ∷ x) ih

-- Every token of a legacy template is a word.
pub split_legacy_template-All : (s : Text) → All IsWord (split_legacy_template s)
unfolding split_legacy_template
split_legacy_template-All s = split_whitespace_from-All [] s refl

-- A template that joins words by single spaces is split into just these words.
pub split_legacy_template-join :
    (ts : List Text) → All IsWord ts → split_legacy_template (join (32 ∷ []) ts) ≡ ts
unfolding split_legacy_template
split_legacy_template-join ts h = split-join ts h
