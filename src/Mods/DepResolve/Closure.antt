-- ===== src/Mods/DepResolve/Closure.antt =====
-- The result holds each project once and is closed under required dependencies.
use ichr.Base.{
  ℕ, zero, suc, true, Option, none, some, List, [], ◌∷◌, ◌++◌, ◌≡◌, refl, sym, ap, ◌∙◌, inl, inr,
  Text, contains, All, All-append, All-map, ok, Result, Result-cases, arith, append_assoc, subst,
  >>=-eq-ok,
}
use ichr.Mods.Types.{DepKind, required, ModrinthDep, ModrinthVersion}
use ichr.Mods.Error.{ModrinthError}
use ichr.Mods.DepResolve.{Request, Walk, dep_project, step_dep, step_deps, walk_queue}
use ichr.Mods.DepResolve.Entries.{step_dep-Adds}
use ichr.Mods.DepResolve.Invariant.{Needs, IsClosed, Inv, Adds-Inv, Adds-seen, Adds-required}

Needs-none :
    (seen : List Text) (k : DepKind) (r : Result ModrinthError (Option Text))
    → r ≡ ok none
    → Needs seen k r
Needs-none seen required (ok (some p)) e = absurd (ground arith)
Needs-none seen _ _ e = tt

Needs-some :
    (seen : List Text) (k : DepKind) (p : Text) (r : Result ModrinthError (Option Text))
    → r ≡ ok (some p)
    → (k ≡ required → contains seen p ≡ true)
    → Needs seen k r
Needs-some seen required p (ok (some x)) e h = ground (arith, h refl)
Needs-some seen _ p _ e h = tt

Needs-mono :
    (seen seen' : List Text) (k : DepKind) (r : Result ModrinthError (Option Text))
    → ((x : Text) → contains seen x ≡ true → contains seen' x ≡ true)
    → Needs seen k r
    → Needs seen' k r
Needs-mono seen seen' required (ok (some p)) m h = m p h
Needs-mono seen seen' _ _ m h = tt

module _ (rq : Request) (root : ModrinthVersion) where
  abbrev pub Grows : List Text → List Text → Type 0
  Grows seen seen' = (x : Text) → contains seen x ≡ true → contains seen' x ≡ true

  pub IsClosed-mono :
      (seen seen' : List Text) (ds : List ModrinthDep)
      → Grows seen seen'
      → IsClosed rq seen ds
      → IsClosed rq seen' ds
  IsClosed-mono seen seen' ds m h =
      All-map (λ d n. Needs-mono seen seen' d.dependency_type (dep_project rq d) m n) ds h

  step_dep-Inv :
      (done : List ModrinthVersion) (v : ModrinthVersion) (d : ModrinthDep) (w w' : Walk)
      → step_dep rq v d w ≡ ok w'
      → Inv rq root done w
      → Inv rq root done w'
        × Grows w.seen w'.seen
        × Needs w'.seen d.dependency_type (dep_project rq d)
  step_dep-Inv done v d w w' h i = elim (step_dep-Adds rq v d w w' h) [
    | inl (nothing, same) ↦ (
      subst (λ x. Inv rq root done x) (sym same) i,
      (λ x s. ground arith),
      Needs-none w'.seen d.dependency_type (dep_project rq d) nothing,
    )
    | inr (p, named, adds) ↦ (
      Adds-Inv rq root done adds i,
      (λ x s. Adds-seen rq x adds s),
      Needs-some w'.seen d.dependency_type p (dep_project rq d) named (Adds-required rq adds),
    )
  ]

  step_deps-Inv :
      (done : List ModrinthVersion) (v : ModrinthVersion) (ds : List ModrinthDep) (w w' : Walk)
      → step_deps rq v ds w ≡ ok w'
      → Inv rq root done w
      → Inv rq root done w' × Grows w.seen w'.seen × IsClosed rq w'.seen ds
  unfolding step_deps
  step_deps-Inv done v [] w w' h i =
      let e : w ≡ w' = ground arith in
      (subst (λ x. Inv rq root done x) e i, (λ x s. ground arith), tt)
  step_deps-Inv done v (d ∷ ds) w w' h i =
      let (m, one, rest) = >>=-eq-ok (step_dep rq v d w) (λ x. step_deps rq v ds x) h in
      let (i', g', n') = step_dep-Inv done v d w m one i in
      let (i'', g'', n'') = step_deps-Inv done v ds m w' rest i' in
      (
        i'',
        (λ x s. g'' x (g' x s)),
        (Needs-mono m.seen w'.seen d.dependency_type (dep_project rq d) g'' n', n''),
      )

  -- What holds when the loop is over.
  pub record Ended (w : Walk) : Type 0 where
    pub done : List ModrinthVersion
    pub inv : Inv rq root done w
    pub closed : All (λ u. IsClosed rq w.seen u.dependencies) done
    pub empty : w.q ≡ []

  pop-Inv :
      (done : List ModrinthVersion) (v : ModrinthVersion) (q : List ModrinthVersion) (w : Walk)
      → w.q ≡ v ∷ q
      → Inv rq root done w
      → Inv rq root (done ++ v ∷ []) (record w { q = q })
  pop-Inv done v q w e i = record {
    sound = i.sound;
    seen = i.seen;
    distinct = i.distinct;
    fresh = i.fresh;
    queue = i.queue ∙ ap (λ x. done ++ x) e ∙ sym (append_assoc done (v ∷ []) q);
  }

  pub walk_queue-Ended :
      (fuel : ℕ) (q done : List ModrinthVersion) (w w' : Walk)
      → walk_queue rq fuel q w ≡ some (ok w')
      → w.q ≡ q
      → Inv rq root done w
      → All (λ u. IsClosed rq w.seen u.dependencies) done
      → Ended w'
  unfolding walk_queue
  walk_queue-Ended fuel [] done w w' h e i c =
      let same : w ≡ w' = ground arith in
      subst Ended same (record { done = done; inv = i; closed = c; empty = e })
  walk_queue-Ended zero (v ∷ q) done w w' h e i c = absurd (ground arith)
  walk_queue-Ended (suc fuel) (v ∷ q) done w w' h e i c =
      elim (Result-cases (step_deps rq v v.dependencies (record w { q = q }))) [
        | inr (x, failed) ↦ absurd (ground arith)
        | inl (m, stepped) ↦
            let (i', g, n) =
              step_deps-Inv (done ++ v ∷ []) v v.dependencies (record w { q = q }) m stepped
                (pop-Inv done v q w e i) in
            walk_queue-Ended fuel m.q (done ++ v ∷ []) m w' (ground arith) refl i' (
              All-append (λ u. IsClosed rq m.seen u.dependencies) done (v ∷ [])
                (All-map (λ u k. IsClosed-mono w.seen m.seen u.dependencies g k) done c) (n, tt))
      ]
