-- ===== src/Mojang/Inherits/Complete.antt =====
-- When `resolve_inner` succeeds, that its fuel is enough, and where the depth test stops it.
use ichr.Base.{
  ℕ, zero, suc, ◌+◌, ◌<◌, ◌≤◌, false, some, List, [], ◌∷◌, ◌≡◌, ◌∙◌, inl, inr, Option-cases,
  Result-cases, Text, contains, lookup, length, ok, err, arith,
}
use ichr.Error.{inherits_from_depth_exceeded}
use ichr.Mojang.Types.{VersionJson, ResolvedVersion, AssetIndex, VersionDownloads}
use ichr.Mojang.Inherits.{
  max_inherits_depth, Parents, Resolver, out_of_fuel, resolve_parent, resolve_step, resolve_inner,
  compute_root_id, promote, resolve_inherits,
}
use ichr.Mojang.Inherits.Chain.{Chain, root, up, flatten, nearest, flatten-IsNearest}

-- At the depth limit the recursive call is not made.
resolve_step-stop :
    (parents : Parents) (f g : Resolver) (v : VersionJson) (seen : List Text) (depth : ℕ)
    → max_inherits_depth ≤ depth + 1
    → resolve_step parents f v seen depth ≡ resolve_step parents g v seen depth
unfolding resolve_step
resolve_step-stop parents f g v seen depth h = ground arith

resolve_parent-eq :
    (parents : Parents) (f g : Resolver) (v : VersionJson) (seen : List Text) (depth : ℕ) (p : Text)
    → ((w : VersionJson) (s : List Text) → f w s (depth + 1) ≡ g w s (depth + 1))
    → resolve_parent parents f v seen depth p ≡ resolve_parent parents g v seen depth p
unfolding resolve_parent
resolve_parent-eq parents f g v seen depth p h = elim (Option-cases (lookup p parents)) [
  | inl e ↦ ground arith
  | inr (w, e) ↦ ground (arith, h w (p ∷ seen))
]

resolve_step-eq :
    (parents : Parents) (f g : Resolver) (v : VersionJson) (seen : List Text) (depth : ℕ)
    → ((w : VersionJson) (s : List Text) → f w s (depth + 1) ≡ g w s (depth + 1))
    → resolve_step parents f v seen depth ≡ resolve_step parents g v seen depth
unfolding resolve_step
resolve_step-eq parents f g v seen depth h = elim (Option-cases v.inherits_from) [
  | inl e ↦ ground arith
  | inr (p, e) ↦ ground (arith, resolve_parent-eq parents f g v seen depth p h)
]

-- More fuel gives the same answer once the fuel reaches the depth limit, so the fuel of
-- `resolve_inherits` is enough.
pub resolve_inner_fuel :
    (parents : Parents) (fuel : ℕ) (v : VersionJson) (seen : List Text) (depth : ℕ)
    → max_inherits_depth ≤ depth + fuel + 1
    → resolve_inner parents (suc fuel) v seen depth ≡ resolve_inner parents fuel v seen depth
unfolding resolve_inner
resolve_inner_fuel parents zero v seen depth h =
    resolve_step-stop parents (resolve_step parents out_of_fuel) out_of_fuel v seen depth
      (omega arith)
resolve_inner_fuel parents (suc fuel) v seen depth h =
    resolve_step-eq parents (resolve_inner parents (suc fuel)) (resolve_inner parents fuel) v seen
      depth (λ w s. resolve_inner_fuel parents fuel w s (depth + 1) (omega arith))

-- No parent on the way is named twice, nor is one of `seen`.
abbrev pub NoRepeat : List Text → VersionJson → List VersionJson → Type 0
NoRepeat seen v [] = Unit
NoRepeat seen v (w ∷ ws) =
    (p : Text) × (v.inherits_from ≡ some p) × (contains seen p ≡ false) × NoRepeat (p ∷ seen) w ws

resolve_inner-Chain :
    {parents : Parents} {v : VersionJson} {ws : List VersionJson} (fuel depth : ℕ)
    (seen : List Text)
    → Chain parents v ws
    → NoRepeat seen v ws
    → length ws + depth < max_inherits_depth
    → length ws ≤ fuel
    → resolve_inner parents fuel v seen depth ≡ ok (flatten v ws)
unfolding resolve_inner resolve_step flatten
resolve_inner-Chain zero depth seen (root e) n h k = ground arith
resolve_inner-Chain (suc fuel) depth seen (root e) n h k = ground arith
resolve_inner-Chain zero depth seen (up p e found c) n h k = absurd (omega arith)
resolve_inner-Chain {parents} (suc fuel) depth seen (up p e found c) (q, e', new, n) h k =
    let same : p ≡ q = ground arith in
    let ih =
      resolve_inner-Chain {parents = parents} fuel (depth + 1) (q ∷ seen) c n (omega arith)
        (omega arith) in
    ground (arith, ih)

promote_total :
    (child m : VersionJson) (root_id : Text) (a : AssetIndex) (t : Text) (d : VersionDownloads)
    → m.asset_index ≡ some a
    → m.assets ≡ some t
    → m.downloads ≡ some d
    → (r : ResolvedVersion) × (promote child root_id m ≡ ok r)
unfolding promote
promote_total child m root_id a t d ha ht hd = elim (Result-cases (promote child root_id m)) [
  | inl found ↦ found
  | inr (x, e) ↦ absurd (ground arith)
]

-- Completeness: a chain of at most two ancestors that names no version twice, and on which some
-- version sets each of the three required fields, resolves.
pub resolve_inherits-Chain :
    {parents : Parents} {child : VersionJson} {ws : List VersionJson} (a : AssetIndex) (t : Text)
    (d : VersionDownloads)
    → Chain parents child ws
    → NoRepeat (child.id ∷ []) child ws
    → length ws < max_inherits_depth
    → nearest (λ u. u.asset_index) child ws ≡ some a
    → nearest (λ u. u.assets) child ws ≡ some t
    → nearest (λ u. u.downloads) child ws ≡ some d
    → (r : ResolvedVersion) × (resolve_inherits child parents ≡ ok r)
unfolding resolve_inherits
resolve_inherits-Chain {parents} {child} {ws} a t d c n short ha ht hd =
    let inner =
      resolve_inner-Chain {parents = parents} max_inherits_depth 0 (child.id ∷ []) c n (omega arith)
        (omega arith) in
    let near = flatten-IsNearest child ws in
    let (r, e) =
      promote_total child (flatten child ws) (compute_root_id child parents) a t d
        (near.asset_index ∙ ha) (near.assets ∙ ht) (near.downloads ∙ hd) in
    (r, rw inner e)

-- The depth test counts one hop less than `max_inherits_depth`: a third ancestor is refused, even
-- where every parent is at hand and no version is named twice.
pub resolve_inherits-third :
    (parents : Parents) (child w u : VersionJson) (p q s : Text)
    → child.inherits_from ≡ some p
    → lookup p parents ≡ some w
    → w.inherits_from ≡ some q
    → lookup q parents ≡ some u
    → u.inherits_from ≡ some s
    → contains (child.id ∷ []) p ≡ false
    → contains (p ∷ child.id ∷ []) q ≡ false
    → contains (q ∷ p ∷ child.id ∷ []) s ≡ false
    → resolve_inherits child parents ≡ err (inherits_from_depth_exceeded s max_inherits_depth)
unfolding resolve_inherits resolve_inner resolve_step
resolve_inherits-third parents child w u p q s cp fw wq fu us hp hq hs = ground arith
