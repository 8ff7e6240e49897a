-- ===== src/Mods/Filter/Names.antt =====
-- File names: what the tests promise, switching names, and cleaned names of packs.
use ichr.Base.{
  some, [], ◌∷◌, ◌++◌, ◌≡◌, ◌≢◌, refl, ap, sym, subst, ◌↔◌, inl, inr, Text, text_eq, text_eq_iff,
  length, length-append, Bool-cases, Option-cases, arith,
}
use ichr.Mods.Filter.{disabled_suffix, disabled_filename, strip_suffix, enabled_filename}

strip_suffix-append :
    (suffix s : Text) → length suffix ≢ 0 → strip_suffix suffix (s ++ suffix) ≡ some s
unfolding strip_suffix
strip_suffix-append [] [] n = absurd (n refl)
strip_suffix-append (c ∷ suffix) [] n = ground (arith, text_eq_iff (c ∷ suffix) (c ∷ suffix))
strip_suffix-append suffix (c ∷ s) n = elim (Bool-cases (text_eq (c ∷ s ++ suffix) suffix)) [
  | inl same ↦
      let e = ap length ((text_eq_iff (c ∷ s ++ suffix) suffix).0 same) in
      let l = length-append s suffix in absurd (omega arith)
  | inr other ↦ ground (arith, strip_suffix-append suffix s)
]

strip_suffix_sound : (suffix s t : Text) → strip_suffix suffix s ≡ some t → s ≡ t ++ suffix
unfolding strip_suffix
strip_suffix_sound suffix [] t h = ground (arith, text_eq_iff [] suffix)
strip_suffix_sound suffix (c ∷ s) t h = elim (Bool-cases (text_eq (c ∷ s) suffix)) [
  | inl same ↦ ground (arith, text_eq_iff (c ∷ s) suffix)
  | inr other ↦ elim (Option-cases (strip_suffix suffix s)) [
    | inl nothing ↦ absurd (ground arith)
    | inr (r, found) ↦ ground (arith, strip_suffix_sound suffix s r found)
  ]
]

-- A name is read as that of a switched-off file exactly when it is the switched-off form of the name
-- that is read.
pub enabled_filename_iff :
    (name s : Text) → (enabled_filename s ≡ some name) ↔ (s ≡ disabled_filename name)
unfolding enabled_filename disabled_filename
enabled_filename_iff name s = (
  (λ h. strip_suffix_sound disabled_suffix s name h),
  (λ e.
      subst (λ x. strip_suffix disabled_suffix x ≡ some name) (sym e)
        (strip_suffix-append disabled_suffix name (λ z. absurd (omega (arith, z))))),
)
