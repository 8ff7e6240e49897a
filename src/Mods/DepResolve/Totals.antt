-- ===== src/Mods/DepResolve/Totals.antt =====
-- The totals of a graph, from its entries.
use ichr.Base.{ℕ, ◌+◌, ◌%◌, ◌<◌, List, [], ◌∷◌, ◌≡◌, refl, inl, inr, length, All, arith}
use ichr.Mods.Types.{
  DepKind, required, optional, incompatible, embedded, ModrinthVersion, ResolvedDep,
}
use ichr.Mods.DepResolve.{Request, u64_mod, primary_size, add_totals, totals_from}
use ichr.Mods.DepResolve.Entries.{new_ids, new_versions, IsSound, Says}

abbrev pub sum_sizes : List ModrinthVersion → ℕ
sum_sizes [] = 0
sum_sizes (v ∷ vs) = primary_size v + sum_sizes vs

-- A sound entry counts for its download, and for nothing else.
add_totals_sound :
    (rq : Request) (bytes files : ℕ) (d : ResolvedDep) (k : DepKind)
    → d.kind ≡ k
    → Says rq k d
    → bytes < u64_mod
    → ((add_totals (bytes, files) d).0 ≡ (bytes + sum_sizes (new_versions (d ∷ []))) % u64_mod)
      × ((add_totals (bytes, files) d).1 ≡ files + length (new_ids (d ∷ [])))
      × ((add_totals (bytes, files) d).0 < u64_mod)
unfolding add_totals new_versions new_ids
add_totals_sound rq bytes files d embedded e h lt = ground arith
add_totals_sound rq bytes files d incompatible e h lt = ground arith
add_totals_sound rq bytes files d optional e h lt = ground arith
add_totals_sound rq bytes files d required e (inl h) lt = ground arith
add_totals_sound rq bytes files d required e (inr (v, new, ver, sat, h)) lt = ground arith

pub counts-cons :
    (d : ResolvedDep) (ds : List ResolvedDep)
    → (sum_sizes (new_versions (d ∷ ds))
        ≡ sum_sizes (new_versions (d ∷ [])) + sum_sizes (new_versions ds))
      × (length (new_ids (d ∷ ds)) ≡ length (new_ids (d ∷ [])) + length (new_ids ds))
unfolding new_versions new_ids
counts-cons d ds = ground arith

pub totals_from_sound :
    (rq : Request) (bytes files : ℕ) (ds : List ResolvedDep)
    → All (IsSound rq) ds
    → bytes < u64_mod
    → ((totals_from (bytes, files) ds).0 ≡ (bytes + sum_sizes (new_versions ds)) % u64_mod)
      × ((totals_from (bytes, files) ds).1 ≡ files + length (new_ids ds))
unfolding totals_from
totals_from_sound rq bytes files [] h lt = unfold new_versions new_ids in omega arith
totals_from_sound rq bytes files (d ∷ ds) h lt =
    let (b, f, small) = add_totals_sound rq bytes files d d.kind refl h.0 lt in
    let t = add_totals (bytes, files) d in
    let (bs, fs) = totals_from_sound rq t.0 t.1 ds h.1 small in
    let (sizes, lengths) = counts-cons d ds in (omega arith, omega arith)
