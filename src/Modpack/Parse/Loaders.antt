-- ===== src/Modpack/Parse/Loaders.antt =====
-- The manifests that are accepted, and the loader that is chosen.
use ichr.Base.{
  true, Option, none, some, List, [], ◌∷◌, ◌++◌, ◌≡◌, refl, ap, ◌↔◌, inl, inr, Text, codes, text_eq,
  text_eq_iff, lookup, is_some, Result, ok, Result-cases, Option-cases, Bool-cases, ◌==◌, ==_iff,
  All, arith,
}
use ichr.Modpack.Parse.{
  MrpackIndex, check_index, parse_index, LoaderType, fabric, quilt, forge, neo_forge, found_loaders,
  first_found, detect_loader,
}

check_index_iff :
    (idx i : MrpackIndex)
    → (check_index idx ≡ ok i) ↔ (
        (idx ≡ i)
        × (idx.format_version ≡ 1)
        × (idx.game ≡ codes "minecraft")
        × (is_some (lookup (codes "minecraft") idx.dependencies) ≡ true))
check_index_iff idx i = (
  (λ h. elim (Bool-cases (idx.format_version == 1)) [
    | inr f ↦ absurd (ground arith)
    | inl f ↦ elim (Bool-cases (text_eq idx.game (codes "minecraft"))) [
      | inr g ↦ absurd (ground arith)
      | inl g ↦ elim (Bool-cases (is_some (lookup (codes "minecraft") idx.dependencies))) [
        | inr m ↦ absurd (ground arith)
        | inl m ↦ (
          ground arith,
          (==_iff idx.format_version 1).0 f,
          (text_eq_iff idx.game (codes "minecraft")).0 g,
          m,
        )
      ]
    ]
  ]),
  (λ (same, f, g, m).
      rw ((==_iff idx.format_version 1).1 f, (text_eq_iff idx.game (codes "minecraft")).1 g, m)
        (ground arith)),
)

-- A manifest is accepted exactly when it parses, its format version is 1, its game is minecraft and
-- its dependencies name a minecraft version; the index is then what was parsed.
pub parse_index_iff :
    (from_str : Text → Result Text MrpackIndex) (json : Text) (i : MrpackIndex)
    → (parse_index from_str json ≡ ok i) ↔ (
        (from_str json ≡ ok i)
        × (i.format_version ≡ 1)
        × (i.game ≡ codes "minecraft")
        × (is_some (lookup (codes "minecraft") i.dependencies) ≡ true))
unfolding parse_index
parse_index_iff from_str json i = elim (Result-cases (from_str json)) [
  | inr (e, bad) ↦ ((λ h. absurd (ground arith)), (λ (p, f, g, m). absurd (ground arith)))
  | inl (idx, good) ↦ (
    (λ h.
        let (same, f, g, m) = (check_index_iff idx i).0 (ground arith) in
        (ground arith, ground arith, ground arith, ground arith)),
    (λ (p, f, g, m).
        let same : idx ≡ i = ground arith in
        let c : check_index idx ≡ ok i =
          (check_index_iff idx i).1 (same, ground arith, ground arith, ground arith) in
        ground arith),
  )
]

-- The keys of a list of loaders that no dependency has.
abbrev Missing : List (Text × Text) → List (Text × LoaderType) → Type 0
Missing deps ks = All (λ k. lookup k.0 deps ≡ none) ks

-- What a choice says: the loader with its version, behind loaders of which no key is there, or no
-- loader and no key.
pub data Chosen (deps : List (Text × Text)) (ks : List (Text × LoaderType))
    : Option (LoaderType × Text) → Type 0 where
  chosen :
      (before : List (Text × LoaderType)) (key : Text) (loader : LoaderType)
      (after : List (Text × LoaderType)) (version : Text)
      → ks ≡ before ++ (key, loader) ∷ after
      → Missing deps before
      → lookup key deps ≡ some version
      → Chosen deps ks (some (loader, version))
  none_there : Missing deps ks → Chosen deps ks none

Chosen-cons :
    (deps : List (Text × Text)) (key : Text) (loader : LoaderType) (ks : List (Text × LoaderType))
    (o : Option (LoaderType × Text))
    → lookup key deps ≡ none
    → Chosen deps ks o
    → Chosen deps ((key, loader) ∷ ks) o
Chosen-cons deps key loader ks _ m (chosen before k l after version e missing found) =
    chosen ((key, loader) ∷ before) k l after version (ap (λ r. (key, loader) ∷ r) e) (m, missing)
      found
Chosen-cons deps key loader ks _ m (none_there missing) = none_there (m, missing)

found_loaders-Chosen :
    (deps : List (Text × Text)) (ks : List (Text × LoaderType))
    → Chosen deps ks (first_found (found_loaders deps ks))
unfolding found_loaders
found_loaders-Chosen deps [] = none_there tt
found_loaders-Chosen deps ((key, loader) ∷ ks) = elim (Option-cases (lookup key deps)) [
  | inl absent ↦ rw absent (Chosen-cons deps key loader ks _ absent (found_loaders-Chosen deps ks))
  | inr (version, there) ↦ rw there (chosen [] key loader ks version refl tt there)
]

-- The keys that a pack may name its loader by, the preferred ones first.
abbrev pub priority : List (Text × LoaderType)
priority =
    (codes "fabric-loader", fabric)
    ∷ (codes "quilt-loader", quilt)
    ∷ (codes "forge", forge)
    ∷ (codes "neoforge", neo_forge)
    ∷ []

-- The loader of a pack is Fabric, Quilt, Forge or NeoForge, by the keys fabric-loader, quilt-loader,
-- forge and neoforge: the first of them in this order whose key the dependencies have, with the
-- version under that key; there is none exactly where no key is there.
pub detect_loader-Chosen : (deps : List (Text × Text)) → Chosen deps priority (detect_loader deps)
unfolding detect_loader
detect_loader-Chosen deps = found_loaders-Chosen deps priority
