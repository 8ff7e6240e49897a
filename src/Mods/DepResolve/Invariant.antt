-- ===== src/Mods/DepResolve/Invariant.antt =====
-- The invariant of the loops: what is seen, what is queued, and which needs are met.
use ichr.Base.{
  true, false, ◌||◌, Option, some, List, [], ◌∷◌, ◌++◌, ◌≡◌, refl, sym, ap, ◌∙◌, Text, contains,
  contains-append, text_eq_iff, All, All-append, ok, Result, arith, append_assoc, append-nil, subst,
}
use ichr.Mods.Types.{DepKind, required, ModrinthDep, ModrinthVersion, ResolvedDep}
use ichr.Mods.Error.{ModrinthError}
use ichr.Mods.DepResolve.{Request, Walk, is_installed, dep_project}
use ichr.Mods.DepResolve.Entries.{
  new_ids, new_versions, new_ids-append, new_versions-append, IsSound, Adds, keeps, downloads,
}

-- No text of the list occurs again behind itself.
abbrev pub Distinct : List Text → Type 0
Distinct [] = Unit
Distinct (x ∷ xs) = (contains xs x ≡ false) × Distinct xs

Distinct-snoc :
    (xs : List Text) (p : Text) → Distinct xs → contains xs p ≡ false → Distinct (xs ++ p ∷ [])
unfolding contains
Distinct-snoc [] p d h = (refl, tt)
Distinct-snoc (x ∷ xs) p d h = (
  ground (arith, contains-append xs (p ∷ []) x, text_eq_iff x p, text_eq_iff p x),
  Distinct-snoc xs p d.1 (ground arith),
)

-- A required dependency that names a project has it in `seen`.
abbrev pub Needs : List Text → DepKind → Result ModrinthError (Option Text) → Type 0
Needs seen required (ok (some p)) = contains seen p ≡ true
Needs seen _ _ = Unit

module _ (rq : Request) where
  abbrev pub IsClosed : List Text → List ModrinthDep → Type 0
  IsClosed seen ds = All (λ d. Needs seen d.dependency_type (dep_project rq d)) ds

  pub record Inv (root : ModrinthVersion) (done : List ModrinthVersion) (w : Walk) : Type 0 where
    pub sound : All (IsSound rq) w.deps
    pub seen : (p : Text) → contains w.seen p ≡ (contains (new_ids w.deps) p || is_installed rq p)
    pub distinct : Distinct (new_ids w.deps)
    pub fresh : All (λ p. is_installed rq p ≡ false) (new_ids w.deps)
    pub queue : root ∷ new_versions w.deps ≡ done ++ w.q

  keeps-Inv :
      (root : ModrinthVersion) (done : List ModrinthVersion) (w : Walk) (d : ResolvedDep)
      → Inv root done w
      → IsSound rq d
      → d.is_new_download ≡ false
      → Inv root done (record w { deps = w.deps ++ d ∷ [] })
  keeps-Inv root done w d i s old =
      let ids : new_ids (w.deps ++ d ∷ []) ≡ new_ids w.deps =
        new_ids-append w.deps (d ∷ []) ∙ unfold new_ids in rw (old, append-nil) in
      let versions : new_versions (w.deps ++ d ∷ []) ≡ new_versions w.deps =
        new_versions-append w.deps (d ∷ []) ∙ unfold new_versions in rw (old, append-nil) in
      record {
        sound = All-append (IsSound rq) w.deps (d ∷ []) i.sound (s, tt);
        seen = λ p. rw ids (i.seen p);
        distinct = rw ids i.distinct;
        fresh = rw ids i.fresh;
        queue = rw versions i.queue;
      }

  downloads-Inv :
      (root : ModrinthVersion) (done : List ModrinthVersion) (w : Walk) (d : ResolvedDep)
      (v : ModrinthVersion) (p : Text)
      → Inv root done w
      → IsSound rq d
      → d.is_new_download ≡ true
      → d.version ≡ some v
      → d.project_id ≡ p
      → contains w.seen p ≡ false
      → Inv root done (record { seen = p ∷ w.seen; q = w.q ++ v ∷ []; deps = w.deps ++ d ∷ [] })
  unfolding contains
  downloads-Inv root done w d v p i s new ver named unseen =
      let ids : new_ids (w.deps ++ d ∷ []) ≡ new_ids w.deps ++ p ∷ [] =
        new_ids-append w.deps (d ∷ []) ∙ unfold new_ids in rw (new, named) in
      let versions : new_versions (w.deps ++ d ∷ []) ≡ new_versions w.deps ++ v ∷ [] =
        new_versions-append w.deps (d ∷ []) ∙ unfold new_versions in rw (new, ver) in
      record {
        sound = All-append (IsSound rq) w.deps (d ∷ []) i.sound (s, tt);
        seen = λ x. rw ids (ground (arith, contains-append (new_ids w.deps) (p ∷ []) x, i.seen x));
        distinct = rw ids (Distinct-snoc (new_ids w.deps) p i.distinct (ground (arith, i.seen p)));
        fresh = rw ids (
            All-append (λ x. is_installed rq x ≡ false) (new_ids w.deps) (p ∷ []) i.fresh
              (ground (arith, i.seen p), tt));
        queue = rw versions (ap (λ x. x ++ v ∷ []) i.queue ∙ append_assoc done w.q (v ∷ []));
      }

  pub Adds-Inv :
      {k : DepKind} {p : Text} {w w' : Walk} (root : ModrinthVersion) (done : List ModrinthVersion)
      → Adds rq k p w w'
      → Inv root done w
      → Inv root done w'
  Adds-Inv {w} root done (keeps d e s old need) i =
      subst (λ x. Inv root done x) (sym e) (keeps-Inv root done w d i s old)
  Adds-Inv {p} {w} root done (downloads d v e s new ver named unseen found) i =
      subst (λ x. Inv root done x) (sym e)
        (downloads-Inv root done w d v p i s new ver named unseen)

  -- What is seen stays seen, and a required project is seen after its round.
  pub Adds-seen :
      {k : DepKind} {p : Text} {w w' : Walk} (x : Text)
      → Adds rq k p w w'
      → contains w.seen x ≡ true
      → contains w'.seen x ≡ true
  unfolding contains
  Adds-seen x (keeps d e s old need) h = ground arith
  Adds-seen x (downloads d v e s new ver named unseen found) h = ground arith

  pub Adds-required :
      {k : DepKind} {p : Text} {w w' : Walk}
      → Adds rq k p w w'
      → k ≡ required
      → contains w'.seen p ≡ true
  unfolding contains
  Adds-required {p} {w} (keeps d e s old need) r = ground (arith, need r)
  Adds-required {p} (downloads d v e s new ver named unseen found) r =
      ground (arith, text_eq_iff p p)
