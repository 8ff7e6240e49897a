-- ===== src/Mods/DepResolve/Entries.antt =====
-- What one dependency adds to the loop's variables.
use ichr.Base.{
  Bool, true, false, Option, none, some, List, [], ◌∷◌, ◌++◌, ◌≡◌, refl, ◌⊎◌, inl, inr, Text,
  contains, ok, err, Result-cases, Option-cases, Bool-cases, arith, if◌then◌else◌,
}
use ichr.Mods.Types.{
  DepKind, required, optional, incompatible, embedded, ModrinthDep, ModrinthVersion, ResolvedDep,
}
use ichr.Mods.Error.{ModrinthError}
use ichr.Mods.DepResolve.{
  Request, Walk, is_installed, entry, new_entry, process_kind, process_dep, dep_project, step_dep,
}

-- The ids of the projects to download, and their versions, in order.
unfoldable pub new_ids : List ResolvedDep → List Text
new_ids [] = []
new_ids (d ∷ ds) = if d.is_new_download then d.project_id ∷ new_ids ds else new_ids ds

abbrev pub chosen : Bool → Option ModrinthVersion → List ModrinthVersion → List ModrinthVersion
chosen true (some v) vs = v ∷ vs
chosen _ _ vs = vs

unfoldable pub new_versions : List ResolvedDep → List ModrinthVersion
new_versions [] = []
new_versions (d ∷ ds) = chosen d.is_new_download d.version (new_versions ds)

pub new_ids-append : (xs ys : List ResolvedDep) → new_ids (xs ++ ys) ≡ new_ids xs ++ new_ids ys
unfolding new_ids
new_ids-append [] ys = refl
new_ids-append (x ∷ xs) ys = ground (arith, new_ids-append xs ys)

pub new_versions-append :
    (xs ys : List ResolvedDep) → new_versions (xs ++ ys) ≡ new_versions xs ++ new_versions ys
unfolding new_versions
new_versions-append [] ys = refl
new_versions-append (x ∷ xs) ys = ground (arith, new_versions-append xs ys)

module _ (rq : Request) where
  -- What an entry of the result says, by its kind.
  abbrev pub Says : DepKind → ResolvedDep → Type 0
  Says embedded d = (d.is_new_download ≡ false) × (d.version ≡ none) × (d.already_satisfied ≡ true)
  Says incompatible d =
      (d.is_new_download ≡ false)
      × (d.version ≡ none)
      × (d.already_satisfied ≡ false)
      × (is_installed rq d.project_id ≡ false)
  Says optional d =
      (d.is_new_download ≡ false)
      × (d.version ≡ none)
      × (d.already_satisfied ≡ is_installed rq d.project_id)
  Says required d =
      (d.is_new_download ≡ false) × (d.version ≡ none) × (d.already_satisfied ≡ true)
      ⊎ ((v : ModrinthVersion) × (d.is_new_download ≡ true)
          × (d.version ≡ some v)
          × (d.already_satisfied ≡ false)
          × (rq.fetch.latest_for_project d.project_id rq.mc rq.loaders ≡ ok (some v)))

  abbrev pub IsSound : ResolvedDep → Type 0
  IsSound d = Says d.kind d

  -- The effect of one dependency that names the project `p`.
  pub data Adds (k : DepKind) (p : Text) (w w' : Walk) : Type 0 where
    keeps :
        (d : ResolvedDep)
        → w' ≡ record w { deps = w.deps ++ d ∷ [] }
        → IsSound d
        → d.is_new_download ≡ false
        → (k ≡ required → contains w.seen p ≡ true)
        → Adds k p w w'
    downloads :
        (d : ResolvedDep) (v : ModrinthVersion)
        → w' ≡ record { seen = p ∷ w.seen; q = w.q ++ v ∷ []; deps = w.deps ++ d ∷ [] }
        → IsSound d
        → d.is_new_download ≡ true
        → d.version ≡ some v
        → d.project_id ≡ p
        → contains w.seen p ≡ false
        → rq.fetch.latest_for_project p rq.mc rq.loaders ≡ ok (some v)
        → Adds k p w w'

  latest_cases :
      (p : Text)
      → ((v : ModrinthVersion) × (rq.fetch.latest_for_project p rq.mc rq.loaders ≡ ok (some v)))
        ⊎ (rq.fetch.latest_for_project p rq.mc rq.loaders ≡ ok none)
        ⊎ ((e : ModrinthError) × (rq.fetch.latest_for_project p rq.mc rq.loaders ≡ err e))
  latest_cases p = elim (Result-cases (rq.fetch.latest_for_project p rq.mc rq.loaders)) [
    | inr failed ↦ inr (inr failed)
    | inl (o, answered) ↦ elim (Option-cases o) [
      | inl nothing ↦ inr (inl (cc))
      | inr (v, something) ↦ inl (v, cc)
    ]
  ]

  process_kind-Adds :
      (k : DepKind) (p : Text) (parent : ModrinthVersion) (w w' : Walk)
      → process_kind rq k p parent w ≡ ok w'
      → Adds k p w w'
  unfolding process_kind
  process_kind-Adds embedded p parent w w' h =
      keeps (entry rq embedded p true) (ground arith) (refl, refl, refl) refl (λ e. cc)
  process_kind-Adds optional p parent w w' h =
      keeps (entry rq optional p (is_installed rq p)) (ground arith) (refl, refl, refl) refl
        (λ e. cc)
  process_kind-Adds incompatible p parent w w' h = elim (Bool-cases (is_installed rq p)) [
    | inl there ↦ absurd (ground arith)
    | inr absent ↦
        keeps (entry rq incompatible p false) (ground arith) (refl, refl, refl, absent) refl
          (λ e. cc)
  ]
  process_kind-Adds required p parent w w' h = elim (Bool-cases (contains w.seen p)) [
    | inl there ↦
        keeps (entry rq required p true) (ground arith) (inl (refl, refl, refl)) refl (λ e. there)
    | inr absent ↦ elim (latest_cases p) [
      | inl (v, found) ↦
          downloads (new_entry rq p v) v (ground arith) (inr (v, refl, refl, refl, found)) refl refl
            refl absent found
      | inr (inl missing) ↦ absurd (ground arith)
      | inr (inr (e, failed)) ↦ absurd (ground arith)
    ]
  ]

  -- A round of the inner loop does nothing, or adds one entry.
  pub step_dep-Adds :
      (v : ModrinthVersion) (d : ModrinthDep) (w w' : Walk)
      → step_dep rq v d w ≡ ok w'
      → (dep_project rq d ≡ ok none) × (w' ≡ w)
        ⊎ ((p : Text) × (dep_project rq d ≡ ok (some p)) × Adds d.dependency_type p w w')
  unfolding step_dep process_dep
  step_dep-Adds v d w w' h = elim (Result-cases (dep_project rq d)) [
    | inr (e, failed) ↦ absurd (ground arith)
    | inl (o, named) ↦ elim (Option-cases o) [
      | inl nothing ↦ inl (cc, ground arith)
      | inr (p, something) ↦
          inr (p, cc, process_kind-Adds d.dependency_type p v w w' (ground arith))
    ]
  ]
