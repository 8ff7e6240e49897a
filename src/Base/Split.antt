-- ===== src/Base/Split.antt =====
-- `str::splitn`, `str::split` by a character, `trim_end_matches` and `trim_start_matches`.
use Prim.Native.Nat.{ℕ, zero, suc, ◌≤◌}
use mathlib.Core.Path.{◌≡◌, refl, sym, ap, ◌∙◌}
use mathlib.Core.Bool.{Bool, true, false}
use mathlib.Core.Logic.{◌≢◌, inl, inr}
use mathlib.Core.List.{List, [], ◌∷◌, ◌++◌, append-nil, append_assoc}
use native.Mathlib.Omega.{arith}
use ichr.Base.Tests.{◌==◌, ==_iff, if◌then◌else◌, Bool-cases}
use ichr.Base.Lists.{length, All, All-append}
use ichr.Base.Texts.{Text, has, has-append, join}

-- `left` separators may still split; `cur` is the part so far.
unfoldable pub splitn_from : ℕ → ℕ → Text → Text → List Text
splitn_from sep left cur [] = cur ∷ []
splitn_from sep zero cur (c ∷ s) = splitn_from sep zero (cur ++ c ∷ []) s
splitn_from sep (suc left) cur (c ∷ s) =
    let closed = cur ∷ splitn_from sep left [] s in
    let longer = splitn_from sep (suc left) (cur ++ c ∷ []) s in if c == sep then closed else longer

-- `s.splitn(left + 1, sep)`
unfoldable pub splitn : ℕ → ℕ → Text → List Text
unfolding splitn_from
splitn sep left s = splitn_from sep left [] s

unfoldable pub split_from : ℕ → Text → Text → List Text
split_from sep cur [] = cur ∷ []
split_from sep cur (c ∷ s) =
    let closed = cur ∷ split_from sep [] s in
    let longer = split_from sep (cur ++ c ∷ []) s in if c == sep then closed else longer

-- `s.split(sep)`
unfoldable pub split : ℕ → Text → List Text
unfolding split_from
split sep s = split_from sep [] s

abbrev pub keep_unless : ℕ → Bool → Text → Text
keep_unless d true [] = []
keep_unless d _ r = d ∷ r

unfoldable pub trim_end : ℕ → Text → Text
trim_end c [] = []
trim_end c (d ∷ s) = keep_unless d (d == c) (trim_end c s)

unfoldable pub trim_start : ℕ → Text → Text
trim_start c [] = []
trim_start c (d ∷ s) = let rest = trim_start c s in if d == c then rest else d ∷ s

module _ (sep : ℕ) where
  splitn_from-append :
      (left : ℕ) (cur t s : Text)
      → has sep t ≡ false
      → splitn_from sep left cur (t ++ s) ≡ splitn_from sep left (cur ++ t) s
  unfolding splitn_from has
  splitn_from-append left cur [] s h = ap (λ x. splitn_from sep left x s) (sym (append-nil cur))
  splitn_from-append zero cur (c ∷ t) s h =
      splitn_from-append zero (cur ++ c ∷ []) t s (ground arith)
      ∙ ap (λ x. splitn_from sep zero x s) (append_assoc cur (c ∷ []) t)
  splitn_from-append (suc left) cur (c ∷ t) s h =
      ground (arith, splitn_from-append (suc left) (cur ++ c ∷ []) t s, append_assoc cur (c ∷ []) t)

  splitn_from-sep :
      (left : ℕ) (cur s : Text)
      → splitn_from sep (suc left) cur (sep ∷ s) ≡ cur ∷ splitn_from sep left [] s
  unfolding splitn_from
  splitn_from-sep left cur s = ground arith

  -- Parts free of the separator, joined by it, are found again.
  splitn_from-join :
      (left : ℕ) (parts : List Text)
      → All (λ p. has sep p ≡ false) parts
      → parts ≢ []
      → length parts ≤ suc left
      → splitn_from sep left [] (join (sep ∷ []) parts) ≡ parts
  unfolding join
  splitn_from-join left [] h n k = absurd (n refl)
  splitn_from-join left (p ∷ []) h n k =
      ap (splitn_from sep left []) (sym (append-nil p))
      ∙ splitn_from-append left [] p [] h.0
      ∙ unfold splitn_from in refl
  splitn_from-join zero (p ∷ q ∷ ps) h n k = absurd (omega arith)
  splitn_from-join (suc left) (p ∷ q ∷ ps) h n k =
      let ih = splitn_from-join left (q ∷ ps) h.1 (λ e. cc) (omega arith) in
      splitn_from-append (suc left) [] p (sep ∷ join (sep ∷ []) (q ∷ ps)) h.0
      ∙ splitn_from-sep left p (join (sep ∷ []) (q ∷ ps))
      ∙ ap (λ x. p ∷ x) ih

  join-cons :
      (p : Text) (ps : List Text)
      → ps ≢ []
      → join (sep ∷ []) (p ∷ ps) ≡ p ++ sep ∷ join (sep ∷ []) ps
  unfolding join
  join-cons p [] h = absurd (h refl)
  join-cons p (q ∷ ps) h = refl

  splitn_from-ne : (left : ℕ) (cur s : Text) → splitn_from sep left cur s ≢ []
  unfolding splitn_from
  splitn_from-ne left cur [] = λ e. cc
  splitn_from-ne zero cur (c ∷ s) = splitn_from-ne zero (cur ++ c ∷ []) s
  splitn_from-ne (suc left) cur (c ∷ s) =
      ground (arith, splitn_from-ne (suc left) (cur ++ c ∷ []) s)

  -- The parts of `splitn`, joined again, are the text.
  join-splitn_from :
      (left : ℕ) (cur s : Text) → join (sep ∷ []) (splitn_from sep left cur s) ≡ cur ++ s
  unfolding splitn_from
  join-splitn_from left cur [] = unfold join in sym (append-nil cur)
  join-splitn_from zero cur (c ∷ s) =
      join-splitn_from zero (cur ++ c ∷ []) s ∙ append_assoc cur (c ∷ []) s
  join-splitn_from (suc left) cur (c ∷ s) = ground (
    arith,
    join-splitn_from (suc left) (cur ++ c ∷ []) s,
    append_assoc cur (c ∷ []) s,
    join-splitn_from left [] s,
    join-cons cur (splitn_from sep left [] s) (splitn_from-ne left [] s),
    ==_iff c sep,
  )

  split_from-append :
      (cur a b : Text)
      → split_from sep cur (a ++ sep ∷ b) ≡ split_from sep cur a ++ split_from sep [] b
  unfolding split_from
  split_from-append cur [] b = ground arith
  split_from-append cur (c ∷ a) b =
      ground (arith, split_from-append (cur ++ c ∷ []) a b, split_from-append [] a b)

  -- A part of `split` holds only what the text holds, without the separator.
  split_from-All :
      (P : ℕ → Type 0) (cur s : Text)
      → All P cur
      → All P s
      → has sep cur ≡ false
      → All (λ p. All P p × (has sep p ≡ false)) (split_from sep cur s)
  unfolding split_from
  split_from-All P cur [] hc hs n = ((hc, n), tt)
  split_from-All P cur (c ∷ s) hc hs n = elim (Bool-cases (c == sep)) [
    | inl e ↦ rw e ((hc, n), split_from-All P [] s tt hs.1 (unfold has in refl))
    | inr e ↦ rw e (
        split_from-All P (cur ++ c ∷ []) s (All-append P cur (c ∷ []) hc (hs.0, tt)) hs.1
          (has-append sep cur (c ∷ []) ∙ unfold has in rw (n, e)))
  ]

  split_from-none : (cur s : Text) → has sep s ≡ false → split_from sep cur s ≡ (cur ++ s) ∷ []
  unfolding split_from has
  split_from-none cur [] h = rw append-nil
  split_from-none cur (c ∷ s) h =
      ground (arith, split_from-none (cur ++ c ∷ []) s, append_assoc cur (c ∷ []) s)

-- The laws as clients use them.
pub splitn-join :
    (sep left : ℕ) (parts : List Text)
    → All (λ p. has sep p ≡ false) parts
    → parts ≢ []
    → length parts ≤ suc left
    → splitn sep left (join (sep ∷ []) parts) ≡ parts
unfolding splitn
splitn-join sep left parts h n k = splitn_from-join sep left parts h n k

pub join-splitn : (sep left : ℕ) (s : Text) → join (sep ∷ []) (splitn sep left s) ≡ s
unfolding splitn
join-splitn sep left s = join-splitn_from sep left [] s

pub split-append : (sep : ℕ) (a b : Text) → split sep (a ++ sep ∷ b) ≡ split sep a ++ split sep b
unfolding split
split-append sep a b = split_from-append sep [] a b

pub split-none : (sep : ℕ) (s : Text) → has sep s ≡ false → split sep s ≡ s ∷ []
unfolding split
split-none sep s h = split_from-none sep [] s h

pub split-All :
    (sep : ℕ) (P : ℕ → Type 0) (s : Text)
    → All P s
    → All (λ p. All P p × (has sep p ≡ false)) (split sep s)
unfolding split
split-All sep P s h = split_from-All sep P [] s tt h (unfold has in refl)

pub trim_end-append : (c : ℕ) (s : Text) → trim_end c (s ++ c ∷ []) ≡ trim_end c s
unfolding trim_end
trim_end-append c [] = ground arith
trim_end-append c (d ∷ s) = rw (trim_end-append c s)
