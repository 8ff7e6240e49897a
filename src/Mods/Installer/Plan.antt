-- ===== src/Mods/Installer/Plan.antt =====
-- The plan against the graph: the same projects, files and bytes.
use ichr.Base.{
  ℕ, suc, ◌+◌, ◌%◌, true, false, Option, none, some, List, [], ◌∷◌, length, ◌≡◌, refl, ap, subst,
  ◌⊎◌, inl, inr, Text, ok, ok_or, ◌>>=◌, >>=-eq-ok, All, arith,
}
use ichr.Mods.Types.{
  DepKind, required, optional, incompatible, embedded, ModrinthFile, ModrinthVersion, ResolvedDep,
}
use ichr.Mods.Error.{ModrinthError, file_not_downloadable}
use ichr.Mods.Filter.{pick_primary_file}
use ichr.Mods.DepResolve.{Request, ResolvedDepGraph, resolve_required_deps, primary_size, u64_mod}
use ichr.Mods.DepResolve.Entries.{new_ids, new_versions, IsSound, Says}
use ichr.Mods.DepResolve.Totals.{sum_sizes}
use ichr.Mods.DepResolve.Graph.{resolve_required_deps-Distinct, resolve_required_deps-totals}
use ichr.Mods.Installer.{
  InstallStep, step, title_of, wanted, dep_step, plan_dep, plan_deps, build_install_plan,
}

abbrev pub step_ids : List InstallStep → List Text
step_ids [] = []
step_ids (s ∷ steps) = s.row.mod_id ∷ step_ids steps

-- The bytes that a plan downloads.
abbrev pub step_bytes : List InstallStep → ℕ
step_bytes [] = 0
step_bytes (s ∷ steps) = s.file.size + step_bytes steps

-- What the steps are for: these projects, in this order, and these bytes.
record Matches (ids : List Text) (bytes : ℕ) (steps : List InstallStep) : Type 0 where
  pub same_ids : step_ids steps ≡ ids
  pub same_bytes : step_bytes steps ≡ bytes

-- An entry is downloaded, with its version, or adds nothing.
entry_cases :
    (rq : Request) (k : DepKind) (d : ResolvedDep)
    → d.kind ≡ k
    → Says rq k d
    → ((d.is_new_download ≡ false) × (wanted d.kind d.is_new_download d.version ≡ none))
      ⊎ ((v : ModrinthVersion) × (d.is_new_download ≡ true)
          × (d.version ≡ some v)
          × (wanted d.kind d.is_new_download d.version ≡ some v))
entry_cases rq embedded d e h = inl (h.0, ground arith)
entry_cases rq incompatible d e h = inl (h.0, ground arith)
entry_cases rq optional d e h = inl (h.0, ground arith)
entry_cases rq required d e (inl h) = inl (h.0, ground arith)
entry_cases rq required d e (inr (v, new, ver, sat, h)) = inr (v, new, ver, ground arith)

primary_size-some :
    (v : ModrinthVersion) (f : ModrinthFile)
    → pick_primary_file v.files ≡ some f
    → primary_size v ≡ f.size
primary_size-some v f h = rw (h, primary_size) refl

ok_or-eq-ok :
    {A : Type 0} (o : Option A) (e : ModrinthError) (a : A) → ok_or o e ≡ ok a → o ≡ some a
ok_or-eq-ok none e a h = absurd (ground arith)
ok_or-eq-ok (some b) e a h = ground arith

module _ (now : ℕ → Text) (rq : Request) where
  dep_step-eq-ok :
      (n : ℕ) (d : ResolvedDep) (v : ModrinthVersion) (s : InstallStep)
      → dep_step now n d v ≡ ok s
      → (s.row.mod_id ≡ d.project_id) × (s.file.size ≡ primary_size v)
  dep_step-eq-ok n d v s h =
      let (f, found, made) =
        >>=-eq-ok (ok_or (pick_primary_file v.files) (file_not_downloadable d.project_id))
          (λ f.
            ok (step d.project_id d.project_id (title_of d.project_id d.project_title) v f (now n)))
          h in
      let size =
        primary_size-some v f
          (ok_or-eq-ok (pick_primary_file v.files) (file_not_downloadable d.project_id) f found) in
      (ground arith, ground arith)

  Matches-cons :
      (d : ResolvedDep) (deps : List ResolvedDep) (v : ModrinthVersion) (s : InstallStep)
      (steps : List InstallStep)
      → d.is_new_download ≡ true
      → d.version ≡ some v
      → (s.row.mod_id ≡ d.project_id) × (s.file.size ≡ primary_size v)
      → Matches (new_ids deps) (sum_sizes (new_versions deps)) steps
      → Matches (new_ids (d ∷ deps)) (sum_sizes (new_versions (d ∷ deps))) (s ∷ steps)
  unfolding new_ids new_versions
  Matches-cons d deps v s steps new ver made m = record {
    same_ids = ground (arith, m.same_ids);
    same_bytes = ground (arith, m.same_bytes);
  }

  Matches-skip :
      (d : ResolvedDep) (deps : List ResolvedDep) (steps : List InstallStep)
      → d.is_new_download ≡ false
      → Matches (new_ids deps) (sum_sizes (new_versions deps)) steps
      → Matches (new_ids (d ∷ deps)) (sum_sizes (new_versions (d ∷ deps))) steps
  unfolding new_ids new_versions
  Matches-skip d deps steps old m = record {
    same_ids = ground (arith, m.same_ids);
    same_bytes = ground (arith, m.same_bytes);
  }

  plan_deps-Matches :
      (deps : List ResolvedDep) (n : ℕ) (steps : List InstallStep)
      → All (IsSound rq) deps
      → plan_deps now deps n ≡ ok steps
      → Matches (new_ids deps) (sum_sizes (new_versions deps)) steps
  unfolding plan_deps
  plan_deps-Matches [] n steps sound h =
      unfold new_ids new_versions in record { same_ids = ground arith; same_bytes = ground arith }
  plan_deps-Matches (d ∷ deps) n steps sound h = elim (entry_cases rq d.kind d refl sound.0) [
    | inl (old, nothing) ↦
        Matches-skip d deps steps old (plan_deps-Matches deps n steps sound.1 (ground arith))
    | inr (v, new, ver, some_v) ↦
        let this : plan_dep now n d (some v) (plan_deps now deps) ≡ ok steps =
          subst (λ o. plan_dep now n d o (plan_deps now deps) ≡ ok steps) some_v h in
        let (s, made, later) =
          >>=-eq-ok (dep_step now n d v)
            (λ s. plan_deps now deps (suc n) >>= λ steps. ok (s ∷ steps)) this in
        let (rest, planned, done) =
          >>=-eq-ok (plan_deps now deps (suc n)) (λ steps. ok (s ∷ steps)) later in
        let e : s ∷ rest ≡ steps = ground arith in
        subst (Matches (new_ids (d ∷ deps)) (sum_sizes (new_versions (d ∷ deps)))) e (
          Matches-cons d deps v s rest new ver (dep_step-eq-ok n d v s made)
            (plan_deps-Matches deps (suc n) rest sound.1 planned))
  ]

length-step_ids : (steps : List InstallStep) → length (step_ids steps) ≡ length steps
length-step_ids [] = refl
length-step_ids (s ∷ steps) = omega (arith, length-step_ids steps)

-- The plan for a graph that the resolver returned installs the root and then the projects to
-- download, in their order; it has one step more than the graph's count of files, and its bytes are,
-- in 64 bits, those of the root's primary file and the graph's total.
pub build_install_plan-resolve_required_deps :
    (now : ℕ → Text) (fuel : ℕ) (rq : Request) (root : ModrinthVersion) (g : ResolvedDepGraph)
    (slug title : Text) (steps : List InstallStep)
    → resolve_required_deps fuel rq root ≡ some (ok g)
    → build_install_plan now root slug title g.deps ≡ ok steps
    → (step_ids steps ≡ root.project_id ∷ new_ids g.deps)
      × (length steps ≡ 1 + g.total_new_files)
      × (step_bytes steps % u64_mod ≡ (primary_size root + g.total_new_bytes) % u64_mod)
unfolding build_install_plan
build_install_plan-resolve_required_deps now fuel rq root g slug title steps resolved planned =
    let (kept, distinct, fresh, sound) = resolve_required_deps-Distinct fuel rq root g resolved in
    let (files, bytes) = resolve_required_deps-totals fuel rq root g resolved in
    let (f, found, later) =
      >>=-eq-ok (ok_or (pick_primary_file root.files) (file_not_downloadable slug))
        (λ f. plan_deps now g.deps 1 >>= λ steps.
          ok (step root.project_id slug title root f (now 0) ∷ steps))
        planned in
    let (rest, listed, done) =
      >>=-eq-ok (plan_deps now g.deps 1)
        (λ steps. ok (step root.project_id slug title root f (now 0) ∷ steps)) later in
    let m = plan_deps-Matches now rq g.deps 1 rest sound listed in
    let size =
      primary_size-some root f
        (ok_or-eq-ok (pick_primary_file root.files) (file_not_downloadable slug) f found) in
    let e : step root.project_id slug title root f (now 0) ∷ rest ≡ steps = ground arith in
    let count = length-step_ids rest in
    subst
      (λ ss.
        (step_ids ss ≡ root.project_id ∷ new_ids g.deps)
        × (length ss ≡ 1 + g.total_new_files)
        × (step_bytes ss % u64_mod ≡ (primary_size root + g.total_new_bytes) % u64_mod))
      e
      (
        ap (λ x. root.project_id ∷ x) m.same_ids,
        ground (arith, ap length m.same_ids),
        omega (arith, m.same_bytes),
      )
