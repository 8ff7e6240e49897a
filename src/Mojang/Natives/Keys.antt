-- ===== src/Mojang/Natives/Keys.antt =====
-- The key under which libraries are deduplicated.
use ichr.Base.{ℕ, false, [], ◌∷◌, ◌++◌, ◌≡◌, refl, none, Text, has, append_assoc, append-nil, arith}
use ichr.Mojang.Natives.{second_colon, maven_group_artifact}

-- Over text without a colon the loop only collects.
second_colon-append :
    (taken s t : Text) (n : ℕ)
    → has b':' s ≡ false
    → second_colon taken n (s ++ t) ≡ second_colon (taken ++ s) n t
unfolding second_colon has
second_colon-append taken [] t n h = rw append-nil
second_colon-append taken (c ∷ s) t n h =
    ground (arith, second_colon-append (taken ++ c ∷ []) s t n, append_assoc taken (c ∷ []) s)

second_colon-none : (taken s : Text) (n : ℕ) → has b':' s ≡ false → second_colon taken n s ≡ none
unfolding second_colon has
second_colon-none taken [] n h = refl
second_colon-none taken (c ∷ s) n h = ground (arith, second_colon-none (taken ++ c ∷ []) s n)

-- The key of a coordinate is its group and artifact, whatever follows the second colon; a name
-- with fewer than two colons is its own key.
pub maven_group_artifact-append :
    (group artifact rest : Text)
    → has b':' group ≡ false
    → has b':' artifact ≡ false
    → (maven_group_artifact (group ++ b':' ∷ (artifact ++ b':' ∷ rest)) ≡ group ++ b':' ∷ artifact)
      × (maven_group_artifact (group ++ b':' ∷ artifact) ≡ group ++ b':' ∷ artifact)
      × (maven_group_artifact group ≡ group)
unfolding maven_group_artifact
maven_group_artifact-append group artifact rest hg ha = (
  rw (second_colon-append [] group (b':' ∷ (artifact ++ b':' ∷ rest)) 0 hg) (
      unfold second_colon in
      rw (second_colon-append (group ++ b':' ∷ []) artifact (b':' ∷ rest) 1 ha)
        (append_assoc group (b':' ∷ []) artifact)),
  rw (second_colon-append [] group (b':' ∷ artifact) 0 hg)
      (unfold second_colon in rw (second_colon-none (group ++ b':' ∷ []) artifact 1 ha)),
  rw (second_colon-none [] group 0 hg),
)
