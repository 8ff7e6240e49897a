-- ===== src/Mods/DepResolve/Fuel.antt =====
-- The loop over the queue ends: each round takes a version away, and a download that adds one sees
-- a project for the first time.
use ichr.Base.{
  ℕ, zero, suc, ◌+◌, ◌≤◌, ◌<◌, true, false, Option, none, some, List, [], ◌∷◌, ◌≡◌, ◌≢◌, refl, sym,
  ap, inl, inr, Text, contains, text_eq, text_eq_iff, length, length-append, All, All-append, ok,
  err, Result, Result-cases, Option-cases, Bool-cases, arith, subst, if◌then◌else◌, >>=-eq-ok,
}
use ichr.Mods.Types.{DepKind, ModrinthDep, ModrinthVersion}
use ichr.Mods.Error.{ModrinthError}
use ichr.Mods.DepResolve.{
  Request, Walk, dep_project, step_dep, step_deps, walk_queue, start_walk, resolve_required_deps,
}
use ichr.Mods.DepResolve.Entries.{Adds, keeps, downloads, step_dep-Adds}

-- The projects of the list that are not seen.
unfoldable pub unseen : List Text → List Text → ℕ
unseen [] seen = 0
unseen (u ∷ us) seen = let rest = unseen us seen in if contains seen u then rest else suc rest

unseen-cons-le : (us seen : List Text) (p : Text) → unseen us (p ∷ seen) ≤ unseen us seen
unfolding unseen contains
unseen-cons-le [] seen p = omega arith
unseen-cons-le (u ∷ us) seen p = ground (arith, unseen-cons-le us seen p)

unseen-cons-lt :
    (us seen : List Text) (p : Text)
    → contains us p ≡ true
    → contains seen p ≡ false
    → unseen us (p ∷ seen) < unseen us seen
unfolding unseen contains
unseen-cons-lt [] seen p h n = absurd (ground arith)
unseen-cons-lt (u ∷ us) seen p h n = elim (Bool-cases (text_eq u p)) [
  | inl same ↦ ground (arith, unseen-cons-le us seen p, text_eq_iff u p, text_eq_iff p u)
  | inr other ↦ ground (arith, unseen-cons-lt us seen p (ground arith) n)
]

unseen-length : (us seen : List Text) → unseen us seen ≤ length us
unfolding unseen
unseen-length [] seen = omega arith
unseen-length (u ∷ us) seen = ground (arith, unseen-length us seen)

-- The project, where there is one, is in the list.
abbrev pub InUniverse : List Text → Result ModrinthError (Option Text) → Type 0
InUniverse us (ok (some p)) = contains us p ≡ true
InUniverse us _ = Unit

InUniverse-some :
    (us : List Text) (r : Result ModrinthError (Option Text)) (p : Text)
    → InUniverse us r
    → r ≡ ok (some p)
    → contains us p ≡ true
InUniverse-some us (ok (some q)) p h e = ground arith
InUniverse-some us (ok none) p h e = absurd (ground arith)
InUniverse-some us (err x) p h e = absurd (ground arith)

module _ (rq : Request) (us : List Text) where
  -- The dependencies of the version name projects of the list.
  abbrev pub Names : ModrinthVersion → Type 0
  Names v = All (λ d. InUniverse us (dep_project rq d)) v.dependencies

  unfoldable measure : Walk → ℕ
  measure w = unseen us w.seen + length w.q

  Adds-measure :
      {k : DepKind} {p : Text} {w w' : Walk}
      → ((x : Text) (v : ModrinthVersion)
          → rq.fetch.latest_for_project x rq.mc rq.loaders ≡ ok (some v)
          → Names v)
      → contains us p ≡ true
      → Adds rq k p w w'
      → All Names w.q
      → (measure w' ≤ measure w) × All Names w'.q
  unfolding measure
  Adds-measure {w} {w'} offers h (keeps d e s old need) q =
      subst (λ x. (measure x ≤ measure w) × All Names x.q) (sym e) (omega arith, q)
  Adds-measure {p} {w} {w'} offers h (downloads d v e s new ver named fresh found) q =
      let less = unseen-cons-lt us w.seen p h fresh in
      let longer = length-append w.q (v ∷ []) in
      subst (λ x. (measure x ≤ measure w) × All Names x.q) (sym e)
        (ground arith, All-append Names w.q (v ∷ []) q (offers p v found, tt))

  step_deps-measure :
      ((x : Text) (v : ModrinthVersion)
        → rq.fetch.latest_for_project x rq.mc rq.loaders ≡ ok (some v)
        → Names v)
      → (v : ModrinthVersion) (ds : List ModrinthDep) (w w' : Walk)
      → All (λ d. InUniverse us (dep_project rq d)) ds
      → step_deps rq v ds w ≡ ok w'
      → All Names w.q
      → (measure w' ≤ measure w) × All Names w'.q
  unfolding step_deps
  step_deps-measure offers v [] w w' n h q =
      let e : w ≡ w' = ground arith in
      subst (λ x. (measure x ≤ measure w) × All Names x.q) e (omega arith, q)
  step_deps-measure offers v (d ∷ ds) w w' n h q =
      let (m, one, rest) = >>=-eq-ok (step_dep rq v d w) (λ x. step_deps rq v ds x) h in
      let (le, qm) : (measure m ≤ measure w) × All Names m.q = elim (step_dep-Adds rq v d w m one) [
        | inl (nothing, same) ↦
            subst (λ x. (measure x ≤ measure w) × All Names x.q) (sym same) (omega arith, q)
        | inr (p, named, adds) ↦
            Adds-measure offers (InUniverse-some us (dep_project rq d) p n.0 named) adds q
      ] in
      let (le', q') = step_deps-measure offers v ds m w' n.1 rest qm in (omega arith, q')

  walk_queue-fuel :
      ((x : Text) (v : ModrinthVersion)
        → rq.fetch.latest_for_project x rq.mc rq.loaders ≡ ok (some v)
        → Names v)
      → (fuel : ℕ) (q : List ModrinthVersion) (w : Walk) → w.q ≡ q
      → All Names q
      → measure w ≤ fuel
      → walk_queue rq fuel q w ≢ none
  unfolding walk_queue
  walk_queue-fuel offers fuel [] w e n le h = absurd (ground arith)
  walk_queue-fuel offers zero (v ∷ q) w e n le h = unfold measure in ground (arith, ap length e)
  walk_queue-fuel offers (suc fuel) (v ∷ q) w e n le h =
      elim (Result-cases (step_deps rq v v.dependencies (record w { q = q }))) [
        | inr (x, failed) ↦ absurd (ground arith)
        | inl (m, stepped) ↦
            let (less, qm) =
              step_deps-measure offers v v.dependencies (record w { q = q }) m n.0 stepped n.1 in
            let longer : suc (length q) ≡ length w.q = ap length (sym e) in
            walk_queue-fuel offers fuel m.q m refl qm (unfold measure in omega arith) (ground arith)
      ]

-- The resolver ends, also on dependencies that go in a circle: where the dependencies of the root
-- and of every version that the service may name as the latest are on projects of a finite list,
-- one round more than the list is long gives an answer, a graph or an error.
pub resolve_required_deps-fuel :
    (fuel : ℕ) (rq : Request) (us : List Text) (root : ModrinthVersion)
    → ((x : Text) (v : ModrinthVersion)
        → rq.fetch.latest_for_project x rq.mc rq.loaders ≡ ok (some v)
        → Names rq us v)
    → Names rq us root
    → length us < fuel
    → resolve_required_deps fuel rq root ≢ none
unfolding resolve_required_deps
resolve_required_deps-fuel fuel rq us root offers n lt h =
    let first : Walk = record (start_walk rq) { q = root ∷ [] } in
    let bound = unseen-length us first.seen in
    let ends =
      walk_queue-fuel rq us offers fuel (root ∷ []) first refl (n, tt)
        (unfold measure in ground (arith, bound)) in
    elim (Option-cases (walk_queue rq fuel (root ∷ []) first)) [
      | inl out ↦ absurd (ends out)
      | inr (r, some_r) ↦ absurd (ground arith)
    ]
