-- ===== src/Mods/DepResolve/Graph.antt =====
-- What the resolved graph says: each project once, closed under required dependencies, with the
-- totals of its downloads.
use ichr.Base.{
  ℕ, ◌%◌, false, Option, none, some, List, [], ◌∷◌, ◌++◌, map, ◌≡◌, refl, sym, ap, ◌∙◌, ◌⊎◌, inl,
  inr, Text, contains, contains-append, keys, length, All, All-map, ok, err, Result, arith,
  append-nil, subst, >>=-eq-ok,
}
use ichr.Mods.Types.{
  DepKind, required, optional, incompatible, embedded, ModrinthVersion, ResolvedDep,
}
use ichr.Mods.Error.{ModrinthError}
use ichr.Mods.DepResolve.{
  Request, Walk, ResolvedDepGraph, is_installed, walk_queue, start_walk, unique_from, hydrate,
  hydrate_ids, hydrate_titles, u64_mod, totals_from, finish, resolve_required_deps,
}
use ichr.Mods.DepResolve.Entries.{new_ids, new_versions, IsSound, Says}
use ichr.Mods.DepResolve.Invariant.{Distinct, IsClosed, Inv}
use ichr.Mods.DepResolve.Closure.{Ended, Grows, IsClosed-mono, walk_queue-Ended}
use ichr.Mods.DepResolve.Totals.{sum_sizes, totals_from_sound}

-- The titles change nothing else.
new_ids-hydrate :
    (t : List (Text × Text)) (ds : List ResolvedDep) → new_ids (map (hydrate t) ds) ≡ new_ids ds
unfolding new_ids hydrate
new_ids-hydrate t [] = refl
new_ids-hydrate t (d ∷ ds) = ground (arith, new_ids-hydrate t ds)

new_versions-hydrate :
    (t : List (Text × Text)) (ds : List ResolvedDep)
    → new_versions (map (hydrate t) ds) ≡ new_versions ds
unfolding new_versions hydrate
new_versions-hydrate t [] = refl
new_versions-hydrate t (d ∷ ds) = ground (arith, new_versions-hydrate t ds)

Says-hydrate :
    (rq : Request) (t : List (Text × Text)) (k : DepKind) (d : ResolvedDep)
    → Says rq k d
    → Says rq k (hydrate t d)
unfolding hydrate
Says-hydrate rq t embedded d h = h
Says-hydrate rq t incompatible d h = h
Says-hydrate rq t optional d h = h
Says-hydrate rq t required d h = h

hydrate-All :
    (rq : Request) (t : List (Text × Text)) (ds : List ResolvedDep)
    → All (IsSound rq) ds
    → All (IsSound rq) (map (hydrate t) ds)
unfolding hydrate
hydrate-All rq t [] h = tt
hydrate-All rq t (d ∷ ds) h = (Says-hydrate rq t d.kind d h.0, hydrate-All rq t ds h.1)

hydrate_ids-eq-ok :
    (rq : Request) (ds es : List ResolvedDep) (ids : List Text)
    → hydrate_ids rq ds ids ≡ ok es
    → (es ≡ ds) ⊎ ((t : List (Text × Text)) × (es ≡ map (hydrate t) ds))
hydrate_ids-eq-ok rq ds es [] h = inl (ground arith)
hydrate_ids-eq-ok rq ds es (id ∷ ids) h =
    let (t, asked, done) =
      >>=-eq-ok (rq.fetch.project_titles (id ∷ ids)) (λ t. ok (map (hydrate t) ds)) h in
    inr (t, ground arith)

walk_cases :
    (o : Option (Result ModrinthError Walk))
    → (o ≡ none) ⊎ ((x : ModrinthError) × (o ≡ some (err x))) ⊎ ((w : Walk) × (o ≡ some (ok w)))
walk_cases none = inl refl
walk_cases (some (err x)) = inr (inl (x, refl))
walk_cases (some (ok w)) = inr (inr (w, refl))

graph-eq :
    {a b : ResolvedDepGraph} → ◌≡◌ {A = Result ModrinthError ResolvedDepGraph} (ok a) (ok b) → a ≡ b
graph-eq e = cc

start-Inv :
    (rq : Request) (root : ModrinthVersion)
    → Inv rq root [] (record (start_walk rq) { q = root ∷ [] })
unfolding new_ids new_versions contains
start-Inv rq root = record { sound = tt; seen = λ p. refl; distinct = tt; fresh = tt; queue = refl }

pub record Final (rq : Request) (root : ModrinthVersion) (g : ResolvedDepGraph) : Type 0 where
  pub root_kept : g.root ≡ root
  pub sound : All (IsSound rq) g.deps
  pub distinct : Distinct (new_ids g.deps)
  pub fresh : All (λ p. is_installed rq p ≡ false) (new_ids g.deps)
  pub closed :
      All
        (λ v. IsClosed rq (new_ids g.deps ++ keys rq.installed) v.dependencies)
        (root ∷ new_versions g.deps)
  pub files : g.total_new_files ≡ length (new_ids g.deps)
  pub bytes : g.total_new_bytes ≡ sum_sizes (new_versions g.deps) % u64_mod

-- The entries after the titles are in, against those before.
record Hydrated (rq : Request) (ds es : List ResolvedDep) : Type 0 where
  pub sound : All (IsSound rq) es
  pub ids : new_ids es ≡ new_ids ds
  pub versions : new_versions es ≡ new_versions ds

hydrate_titles-Hydrated :
    (rq : Request) (ds es : List ResolvedDep)
    → All (IsSound rq) ds
    → hydrate_titles rq ds ≡ ok es
    → Hydrated rq ds es
unfolding hydrate_titles
hydrate_titles-Hydrated rq ds es s h = elim (hydrate_ids-eq-ok rq ds es (unique_from [] ds) h) [
  | inl same ↦ subst (Hydrated rq ds) (sym same) (record { sound = s; ids = refl; versions = refl })
  | inr (t, mapped) ↦ subst (Hydrated rq ds) (sym mapped) (record {
    sound = hydrate-All rq t ds s;
    ids = new_ids-hydrate t ds;
    versions = new_versions-hydrate t ds;
  })
]

Ended-IsClosed :
    (rq : Request) (root : ModrinthVersion) (w : Walk)
    → Ended rq root w
    → All
        (λ v. IsClosed rq (new_ids w.deps ++ keys rq.installed) v.dependencies)
        (root ∷ new_versions w.deps)
Ended-IsClosed rq root w e =
    let all_done : root ∷ new_versions w.deps ≡ e.done =
      e.inv.queue ∙ ap (λ x. e.done ++ x) e.empty ∙ append-nil e.done in
    let seen : List Text = new_ids w.deps ++ keys rq.installed in
    let grows : Grows rq root w.seen seen =
      λ x s. ground (arith, e.inv.seen x, contains-append (new_ids w.deps) (keys rq.installed) x) in
    subst (λ vs. All (λ v. IsClosed rq seen v.dependencies) vs) (sym all_done)
      (All-map (λ v c. IsClosed-mono rq root w.seen seen v.dependencies grows c) e.done e.closed)

abbrev built : ModrinthVersion → List ResolvedDep → ResolvedDepGraph
built root es =
    let (bytes, files) = totals_from (0, 0) es in
    record { root = root; deps = es; total_new_bytes = bytes; total_new_files = files }

built-Final :
    (rq : Request) (root : ModrinthVersion) (w : Walk) (es : List ResolvedDep)
    → Ended rq root w
    → Hydrated rq w.deps es
    → Final rq root (built root es)
built-Final rq root w es e y =
    let (bytes, files) = totals_from_sound rq 0 0 es y.sound (omega arith) in
    let closed : All (λ v. IsClosed rq (new_ids es ++ keys rq.installed) v.dependencies)
        (root ∷ new_versions es) =
      subst
        (λ ids.
          All (λ v. IsClosed rq (ids ++ keys rq.installed) v.dependencies) (root ∷ new_versions es))
        (sym y.ids)
        (subst
          (λ vs.
            All (λ v. IsClosed rq (new_ids w.deps ++ keys rq.installed) v.dependencies) (root ∷ vs))
          (sym y.versions) (Ended-IsClosed rq root w e)) in
    record {
      root_kept = refl;
      sound = y.sound;
      distinct = subst Distinct (sym y.ids) e.inv.distinct;
      fresh = subst (λ ids. All (λ p. is_installed rq p ≡ false) ids) (sym y.ids) e.inv.fresh;
      closed = closed;
      files = omega arith;
      bytes = omega arith;
    }

finish-Final :
    (rq : Request) (root : ModrinthVersion) (w : Walk) (g : ResolvedDepGraph)
    → Ended rq root w
    → finish rq root w ≡ ok g
    → Final rq root g
unfolding finish
finish-Final rq root w g e h =
    let (es, hydrated, done) = >>=-eq-ok (hydrate_titles rq w.deps) (λ x. ok (built root x)) h in
    subst (Final rq root) (graph-eq done)
      (built-Final rq root w es e (hydrate_titles-Hydrated rq w.deps es e.inv.sound hydrated))

resolve-Final :
    (fuel : ℕ) (rq : Request) (root : ModrinthVersion) (g : ResolvedDepGraph)
    → resolve_required_deps fuel rq root ≡ some (ok g)
    → Final rq root g
unfolding resolve_required_deps
resolve-Final fuel rq root g h =
    let first : Walk = record (start_walk rq) { q = root ∷ [] } in
    elim (walk_cases (walk_queue rq fuel (root ∷ []) first)) [
      | inl out ↦ absurd (ground arith)
      | inr (inl (x, failed)) ↦ absurd (ground arith)
      | inr (inr (w, walked)) ↦
          finish-Final rq root w g
            (walk_queue-Ended rq root fuel (root ∷ []) [] first w walked refl (start-Inv rq root)
              tt)
            (ground arith)
    ]

-- A graph that the resolver returns, on any fuel, holds the root as it was given; no project stands
-- twice among the dependencies to be downloaded and none that is installed is there, and every entry
-- says what its kind promises: a download carries the version that the service named as the latest.
-- The root's own project is not kept out of the dependencies.
pub resolve_required_deps-Distinct :
    (fuel : ℕ) (rq : Request) (root : ModrinthVersion) (g : ResolvedDepGraph)
    → resolve_required_deps fuel rq root ≡ some (ok g)
    → (g.root ≡ root)
      × Distinct (new_ids g.deps)
      × All (λ p. is_installed rq p ≡ false) (new_ids g.deps)
      × All (IsSound rq) g.deps
resolve_required_deps-Distinct fuel rq root g h =
    let f = resolve-Final fuel rq root g h in (f.root_kept, f.distinct, f.fresh, f.sound)

-- In a graph that the resolver returns, every required dependency of the root and of each version
-- to download that names a project has that project among the downloads or the installed ones.
pub resolve_required_deps-IsClosed :
    (fuel : ℕ) (rq : Request) (root : ModrinthVersion) (g : ResolvedDepGraph)
    → resolve_required_deps fuel rq root ≡ some (ok g)
    → All
        (λ v. IsClosed rq (new_ids g.deps ++ keys rq.installed) v.dependencies)
        (root ∷ new_versions g.deps)
resolve_required_deps-IsClosed fuel rq root g h = (resolve-Final fuel rq root g h).closed

-- The totals of a graph that the resolver returns: the files are the projects to download, and the
-- bytes are the sizes of the primary files of their versions, in 64 bits.
pub resolve_required_deps-totals :
    (fuel : ℕ) (rq : Request) (root : ModrinthVersion) (g : ResolvedDepGraph)
    → resolve_required_deps fuel rq root ≡ some (ok g)
    → (g.total_new_files ≡ length (new_ids g.deps))
      × (g.total_new_bytes ≡ sum_sizes (new_versions g.deps) % u64_mod)
resolve_required_deps-totals fuel rq root g h =
    let f = resolve-Final fuel rq root g h in (f.files, f.bytes)
