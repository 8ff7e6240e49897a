-- ===== src/Disk/Atomic.antt =====
-- A file written as a whole or not at all.
use ichr.Base.{
  Option, some, ◌≡◌, ◌≢◌, refl, sym, ◌∙◌, subst, ◌⊎◌, inl, inr, Text, codes, Result, ok, err,
}
use ichr.Disk.{FilePath, Disk, IsDisk, with_extension, atomic_write}

abbrev pub tmp_of : FilePath → FilePath
tmp_of p = with_extension (codes "tmp") p

-- The answer of a call, and the state behind it.
call_cases :
    {S : Type 0} (r : Result Text Unit × S) → (r ≡ (ok tt, r.1)) ⊎ ((e : Text) × (r ≡ (err e, r.1)))
call_cases (ok u, s) = inl refl
call_cases (err e, s) = inr (e, refl)

module _ {S : Type 0} (disk : Disk S) (file : S → FilePath → Option Text)
    (laws : IsDisk disk file) where
  -- What `atomic_write` to `p` leaves of `p` and of another file `q`: the new content and the other
  -- file as it was, or, with an error, both as they were.
  pub data Outcome (p q : FilePath) (bytes : Text) (s : S) : Result Text Unit × S → Type 0 where
    done :
        (s' : S) → file s' p ≡ some bytes → file s' q ≡ file s q → Outcome p q bytes s (ok tt, s')
    failed :
        (e : Text) (s' : S)
        → file s' p ≡ file s p
        → file s' q ≡ file s q
        → Outcome p q bytes s (err e, s')

  -- The third call, and what the two before it kept.
  rename-Outcome :
      (p q : FilePath) (bytes : Text) (s t : S)
      → q ≢ p
      → q ≢ tmp_of p
      → file t (tmp_of p) ≡ some bytes
      → file t p ≡ file s p
      → file t q ≡ file s q
      → Outcome p q bytes s (disk.rename (tmp_of p) p t)
  rename-Outcome p q bytes s t np nt there same other =
      let renamed = disk.rename (tmp_of p) p t in
      elim (call_cases renamed) [
        | inl good ↦ subst (Outcome p q bytes s) (sym good) (
            done renamed.1 (laws.rename_there (tmp_of p) p t renamed.1 good ∙ there)
              (laws.rename_keeps (tmp_of p) p q t nt np ∙ other))
        | inr (e, bad) ↦ subst (Outcome p q bytes s) (sym bad) (
            failed e renamed.1 (laws.rename_fails (tmp_of p) p p t renamed.1 e bad ∙ same)
              (laws.rename_fails (tmp_of p) p q t renamed.1 e bad ∙ other))
      ]

  -- A write through a temporary file is all or nothing: where the path and another one are not its
  -- temporary path, the write either succeeds and the file has the new content, or fails and the
  -- file is as it was; the other file is as it was.
  pub atomic_write-Outcome :
      (p q : FilePath) (bytes : Text) (s : S)
      → p ≢ tmp_of p
      → q ≢ p
      → q ≢ tmp_of p
      → Outcome p q bytes s (atomic_write disk p bytes s)
  unfolding atomic_write
  atomic_write-Outcome p q bytes s ne np nt =
      let made = disk.create_dir_all p.dir s in
      let written = disk.write (tmp_of p) bytes made.1 in
      let keep_p = laws.write_keeps (tmp_of p) p bytes made.1 ne ∙ laws.dirs_keep p.dir s p in
      let keep_q = laws.write_keeps (tmp_of p) q bytes made.1 nt ∙ laws.dirs_keep p.dir s q in
      elim (call_cases made) [
        | inr (e, bad) ↦
            subst (Outcome p q bytes s) (rw bad refl)
              (failed e made.1 (laws.dirs_keep p.dir s p) (laws.dirs_keep p.dir s q))
        | inl good ↦ elim (call_cases written) [
          | inr (e, bad) ↦
              subst (Outcome p q bytes s) (rw (good, bad) refl) (failed e written.1 keep_p keep_q)
          | inl wrote ↦ subst (Outcome p q bytes s) (rw (good, wrote) refl) (
              rename-Outcome p q bytes s written.1 np nt
                (laws.write_there (tmp_of p) bytes made.1 written.1 wrote) keep_p keep_q)
        ]
      ]
