-- ===== src/Mojang/Inherits/Chain.antt =====
-- `resolve_inner` follows the chain of parents and folds `merge` over it.
use ichr.Base.{
  ℕ, zero, suc, ◌+◌, ◌<◌, ◌≤◌, Option, none, some, List, [], ◌∷◌, ◌≡◌, refl, sym, ap, subst, ◌∙◌,
  Text, lookup, length, or_else, ok, >>=-eq-ok, Result-cases, arith, inl, inr, Option-cases,
}
use ichr.Mojang.Types.{VersionJson, ResolvedVersion}
use ichr.Mojang.Inherits.{
  max_inherits_depth, merge, Parents, Resolver, out_of_fuel, resolve_parent, resolve_step,
  resolve_inner, root_walk, compute_root_id, promote, resolve_inherits,
}

-- `Chain parents v ws`: `ws` are the ancestors of `v`, nearest first, and the last has no parent.
pub data Chain (parents : Parents) : VersionJson → List VersionJson → Type 0 where
  root : {v : VersionJson} → v.inherits_from ≡ none → Chain parents v []
  up :
      {v w : VersionJson} {ws : List VersionJson} (p : Text)
      → v.inherits_from ≡ some p
      → lookup p parents ≡ some w
      → Chain parents w ws
      → Chain parents v (w ∷ ws)

-- `merge` folded over the ancestors.
unfoldable pub flatten : VersionJson → List VersionJson → VersionJson
flatten v [] = v
flatten v (w ∷ ws) = merge (flatten w ws) v

unfoldable pub oldest : VersionJson → List VersionJson → VersionJson
oldest v [] = v
oldest v (w ∷ ws) = oldest w ws

resolve_parent-eq-ok :
    (parents : Parents) (rec : Resolver) (child m : VersionJson) (seen : List Text) (depth : ℕ)
    (p : Text)
    → resolve_parent parents rec child seen depth p ≡ ok m
    → (w r : VersionJson) × (lookup p parents ≡ some w)
      × (rec w (p ∷ seen) (depth + 1) ≡ ok r)
      × (m ≡ merge r child)
      × (depth + 1 < max_inherits_depth)
unfolding resolve_parent
resolve_parent-eq-ok parents rec child m seen depth p h = elim (Option-cases (lookup p parents)) [
  | inl e ↦ absurd (ground arith)
  | inr (w, e) ↦ elim (Result-cases (rec w (p ∷ seen) (depth + 1))) [
    | inl (r, er) ↦ (w, r, e, er, ground arith, ground arith)
    | inr (x, er) ↦ absurd (ground arith)
  ]
]

-- An ancestor list of a successful resolution, and what it yields.
abbrev Follows : Parents → ℕ → VersionJson → VersionJson → Type 0
Follows parents depth v m =
    (ws : List VersionJson) × Chain parents v ws
    × (m ≡ flatten v ws)
    × (length ws + depth < max_inherits_depth)

resolve_step-Follows :
    (parents : Parents) (rec : Resolver) (v m : VersionJson) (seen : List Text) (depth : ℕ)
    → ((w r : VersionJson) (s : List Text)
        → rec w s (depth + 1) ≡ ok r
        → depth + 1 < max_inherits_depth
        → Follows parents (depth + 1) w r)
    → resolve_step parents rec v seen depth ≡ ok m
    → depth < max_inherits_depth
    → Follows parents depth v m
unfolding resolve_step flatten
resolve_step-Follows parents rec v m seen depth ih h lt = elim (Option-cases v.inherits_from) [
  | inl e ↦ ([], root e, ground arith, omega arith)
  | inr (p, e) ↦
      let (w, r, found, inner, merged, deep) =
        resolve_parent-eq-ok parents rec v m seen depth p (ground arith) in
      let (ws, chain, flat, short) = ih w r (p ∷ seen) inner deep in
      (w ∷ ws, up p e found chain, cc, omega arith)
]

resolve_inner-Follows :
    (parents : Parents) (fuel : ℕ) (v m : VersionJson) (seen : List Text) (depth : ℕ)
    → resolve_inner parents fuel v seen depth ≡ ok m
    → depth < max_inherits_depth
    → Follows parents depth v m
unfolding resolve_inner
resolve_inner-Follows parents zero v m seen depth h lt =
    resolve_step-Follows parents out_of_fuel v m seen depth (λ w r s e deep. absurd (ground arith))
      h lt
resolve_inner-Follows parents (suc fuel) v m seen depth h lt =
    resolve_step-Follows parents (resolve_inner parents fuel) v m seen depth
      (λ w r s e deep. resolve_inner-Follows parents fuel w r s (depth + 1) e deep) h lt

root_walk-Chain :
    {parents : Parents} {v : VersionJson} {ws : List VersionJson} (n : ℕ)
    → Chain parents v ws
    → length ws ≤ n
    → root_walk parents n v ≡ (oldest v ws).id
unfolding root_walk oldest
root_walk-Chain zero (root e) h = refl
root_walk-Chain (suc n) (root e) h = ground arith
root_walk-Chain zero (up p e found c) h = absurd (omega arith)
root_walk-Chain (suc n) (up p e found c) h = ground (arith, root_walk-Chain n c (omega arith))

-- The first value that a field has on the way to the root.
abbrev pub nearest :
    {A : Type 0} → (VersionJson → Option A) → VersionJson → List VersionJson → Option A
nearest f v [] = f v
nearest f v (w ∷ ws) = or_else (f v) (nearest f w ws)

pub record IsNearest (m v : VersionJson) (ws : List VersionJson) : Type 0 where
  pub id : m.id ≡ v.id
  pub main_class : m.main_class ≡ v.main_class
  pub version_type : m.version_type ≡ v.version_type
  pub release_time : m.release_time ≡ v.release_time
  pub time : m.time ≡ v.time
  pub asset_index : m.asset_index ≡ nearest (λ u. u.asset_index) v ws
  pub assets : m.assets ≡ nearest (λ u. u.assets) v ws
  pub downloads : m.downloads ≡ nearest (λ u. u.downloads) v ws
  pub java_version : m.java_version ≡ nearest (λ u. u.java_version) v ws
  pub logging : m.logging ≡ nearest (λ u. u.logging) v ws
  pub compliance_level : m.compliance_level ≡ nearest (λ u. u.compliance_level) v ws
  pub minimum_launcher_version :
      m.minimum_launcher_version ≡ nearest (λ u. u.minimum_launcher_version) v ws
  pub minecraft_arguments : m.minecraft_arguments ≡ nearest (λ u. u.minecraft_arguments) v ws

merge-IsNearest :
    (v w m : VersionJson) (ws : List VersionJson)
    → IsNearest m w ws
    → IsNearest (merge m v) v (w ∷ ws)
unfolding merge
merge-IsNearest v w m ws h = record {
  id = refl;
  main_class = refl;
  version_type = refl;
  release_time = refl;
  time = refl;
  asset_index = rw h.asset_index;
  assets = rw h.assets;
  downloads = rw h.downloads;
  java_version = rw h.java_version;
  logging = rw h.logging;
  compliance_level = rw h.compliance_level;
  minimum_launcher_version = rw h.minimum_launcher_version;
  minecraft_arguments = rw h.minecraft_arguments;
}

pub flatten-IsNearest : (v : VersionJson) (ws : List VersionJson) → IsNearest (flatten v ws) v ws
unfolding flatten
flatten-IsNearest v [] = ground arith
flatten-IsNearest v (w ∷ ws) = merge-IsNearest v w (flatten w ws) ws (flatten-IsNearest w ws)

-- What a resolved version owes to the child and its ancestors.
pub record IsResolved (parents : Parents) (child : VersionJson) (r : ResolvedVersion) : Type 0 where
  pub ancestors : List VersionJson
  pub chain : Chain parents child ancestors
  pub short : length ancestors < max_inherits_depth
  pub id : r.id ≡ child.id
  pub root_id : r.root_id ≡ (oldest child ancestors).id
  pub main_class : r.main_class ≡ child.main_class
  pub version_type : r.version_type ≡ child.version_type
  pub release_time : r.release_time ≡ child.release_time
  pub time : r.time ≡ child.time
  pub asset_index : nearest (λ u. u.asset_index) child ancestors ≡ some r.asset_index
  pub assets : nearest (λ u. u.assets) child ancestors ≡ some r.assets
  pub downloads : nearest (λ u. u.downloads) child ancestors ≡ some r.downloads
  pub java_version : r.java_version ≡ nearest (λ u. u.java_version) child ancestors
  pub logging : r.logging ≡ nearest (λ u. u.logging) child ancestors
  pub compliance_level : r.compliance_level ≡ nearest (λ u. u.compliance_level) child ancestors
  pub minimum_launcher_version :
      r.minimum_launcher_version ≡ nearest (λ u. u.minimum_launcher_version) child ancestors
  pub minecraft_arguments :
      r.minecraft_arguments ≡ nearest (λ u. u.minecraft_arguments) child ancestors
  pub libraries : r.libraries ≡ (flatten child ancestors).libraries
  pub arguments : r.arguments ≡ (flatten child ancestors).arguments

record IsPromoted (root_id : Text) (m : VersionJson) (r : ResolvedVersion) : Type 0 where
  pub id : r.id ≡ m.id
  pub root : r.root_id ≡ root_id
  pub main_class : r.main_class ≡ m.main_class
  pub version_type : r.version_type ≡ m.version_type
  pub release_time : r.release_time ≡ m.release_time
  pub time : r.time ≡ m.time
  pub logging : r.logging ≡ m.logging
  pub compliance_level : r.compliance_level ≡ m.compliance_level
  pub minimum_launcher_version : r.minimum_launcher_version ≡ m.minimum_launcher_version
  pub asset_index : m.asset_index ≡ some r.asset_index
  pub assets : m.assets ≡ some r.assets
  pub downloads : m.downloads ≡ some r.downloads
  pub java_version : r.java_version ≡ m.java_version
  pub minecraft_arguments : r.minecraft_arguments ≡ m.minecraft_arguments
  pub libraries : r.libraries ≡ m.libraries
  pub arguments : r.arguments ≡ m.arguments

promote-IsPromoted :
    (child m : VersionJson) (root_id : Text) (r : ResolvedVersion)
    → promote child root_id m ≡ ok r
    → IsPromoted root_id m r
unfolding promote
promote-IsPromoted child m root_id r h = ground arith

-- A successful resolution follows the chain of parents to its end, over at most two of them: the
-- result has the child's own id, type, main class and times, and the id of the last ancestor as
-- its root. Its asset index, assets, downloads, Java version, logging, compliance level, minimum
-- launcher version and legacy arguments each come from the nearest version that sets them, and its
-- libraries and arguments are those of the merge folded over the chain.
pub resolve_inherits-IsResolved :
    (parents : Parents) (child : VersionJson) (r : ResolvedVersion)
    → resolve_inherits child parents ≡ ok r
    → IsResolved parents child r
unfolding resolve_inherits compute_root_id
resolve_inherits-IsResolved parents child r h =
    let (m, inner, outer) =
      >>=-eq-ok (resolve_inner parents max_inherits_depth child (child.id ∷ []) 0) _ h in
    let (ws, chain, flat, short) =
      resolve_inner-Follows parents max_inherits_depth child m (child.id ∷ []) 0 inner
        (omega arith) in
    let near : IsNearest m child ws =
      subst (λ x. IsNearest x child ws) (sym flat) (flatten-IsNearest child ws) in
    let p = promote-IsPromoted child m (compute_root_id child parents) r outer in
    record {
      ancestors = ws;
      chain = chain;
      short = omega arith;
      id = p.id ∙ near.id;
      root_id = p.root ∙ root_walk-Chain (max_inherits_depth + 1) chain (omega arith);
      main_class = p.main_class ∙ near.main_class;
      version_type = p.version_type ∙ near.version_type;
      release_time = p.release_time ∙ near.release_time;
      time = p.time ∙ near.time;
      logging = p.logging ∙ near.logging;
      compliance_level = p.compliance_level ∙ near.compliance_level;
      minimum_launcher_version = p.minimum_launcher_version ∙ near.minimum_launcher_version;
      asset_index = sym near.asset_index ∙ p.asset_index;
      assets = sym near.assets ∙ p.assets;
      downloads = sym near.downloads ∙ p.downloads;
      java_version = p.java_version ∙ near.java_version;
      minecraft_arguments = p.minecraft_arguments ∙ near.minecraft_arguments;
      libraries = p.libraries ∙ ap (λ v. v.libraries) flat;
      arguments = p.arguments ∙ ap (λ v. v.arguments) flat;
    }
