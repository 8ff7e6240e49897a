-- ===== src/Mods/Ledger/Rows.antt =====
-- The rows of a ledger, found by their id.
use ichr.Base.{
  Bool, true, false, ◌||◌, Option, none, some, List, [], ◌∷◌, ◌≡◌, refl, subst, inl, inr, Text,
  text_eq, text_eq_iff, contains, find, All, Bool-cases, Option-cases, if◌then◌else◌, arith,
}
use ichr.Mods.Types.{InstalledModRow}
use ichr.Mods.Ledger.{has_id, upsert_row, remove_row, flip, flip_row}

unfoldable pub ids : List InstalledModRow → List Text
ids [] = []
ids (m ∷ mods) = m.mod_id ∷ ids mods

-- No two rows have the same id.
abbrev pub Unique : List InstalledModRow → Type 0
Unique [] = Unit
Unique (m ∷ mods) = (contains (ids mods) m.mod_id ≡ false) × Unique mods

-- Behind an insertion the inserted row is found under its id, and under every other id what was
-- found before.
pub find-upsert_row :
    (row : InstalledModRow) (id : Text) (mods : List InstalledModRow)
    → find (has_id id) (upsert_row row mods)
      ≡ (if text_eq row.mod_id id then some row else find (has_id id) mods)
unfolding upsert_row
find-upsert_row row id [] = refl
find-upsert_row row id (m ∷ mods) = elim (Bool-cases (text_eq m.mod_id row.mod_id)) [
  | inl same ↦
      let eq : m.mod_id ≡ row.mod_id = ground (arith, text_eq_iff m.mod_id row.mod_id) in
      rw same (ground arith)
  | inr other ↦ rw other (
      ground (
        arith,
        find-upsert_row row id mods,
        text_eq_iff m.mod_id id,
        text_eq_iff row.mod_id id,
        text_eq_iff m.mod_id row.mod_id,
      ))
]

pub contains-ids-upsert_row :
    (row : InstalledModRow) (id : Text) (mods : List InstalledModRow)
    → contains (ids (upsert_row row mods)) id ≡ (text_eq row.mod_id id || contains (ids mods) id)
unfolding upsert_row ids contains
contains-ids-upsert_row row id [] = ground arith
contains-ids-upsert_row row id (m ∷ mods) =
    ground (arith, contains-ids-upsert_row row id mods, text_eq_iff m.mod_id row.mod_id)

pub upsert_row-Unique :
    (row : InstalledModRow) (mods : List InstalledModRow)
    → Unique mods
    → Unique (upsert_row row mods)
unfolding upsert_row ids contains
upsert_row-Unique row [] u = (refl, tt)
upsert_row-Unique row (m ∷ mods) u = elim (Bool-cases (has_id row.mod_id m)) [
  | inl same ↦ ground (arith, text_eq_iff m.mod_id row.mod_id)
  | inr other ↦ ground (
    arith,
    upsert_row-Unique row mods u.1,
    contains-ids-upsert_row row m.mod_id mods,
    text_eq_iff row.mod_id m.mod_id,
    text_eq_iff m.mod_id row.mod_id,
  )
]

-- The ids of a list without a row.
contains-ids-remove_row :
    (id x : Text) (mods rest : List InstalledModRow)
    → remove_row id mods ≡ some rest
    → contains (ids mods) x ≡ false
    → contains (ids rest) x ≡ false
unfolding remove_row ids contains
contains-ids-remove_row id x [] rest e h = absurd (ground arith)
contains-ids-remove_row id x (m ∷ mods) rest e h = elim (Bool-cases (has_id id m)) [
  | inl same ↦ ground arith
  | inr other ↦ elim (Option-cases (remove_row id mods)) [
    | inl nothing ↦ absurd (ground arith)
    | inr (r, found) ↦ ground (arith, contains-ids-remove_row id x mods r found)
  ]
]

pub upsert_row-All :
    (P : InstalledModRow → Type 0) (row : InstalledModRow) (mods : List InstalledModRow)
    → P row
    → All P mods
    → All P (upsert_row row mods)
unfolding upsert_row
upsert_row-All P row [] p h = (p, tt)
upsert_row-All P row (m ∷ mods) p h = elim (Bool-cases (has_id row.mod_id m)) [
  | inl same ↦ rw same (p, h.1)
  | inr other ↦ rw other (h.0, upsert_row-All P row mods p h.1)
]

pub flip_row-All :
    (P : InstalledModRow → Type 0) (id : Text) (mods : List InstalledModRow)
    → ((m : InstalledModRow) → P m → P (flip m))
    → All P mods
    → All P (flip_row id mods)
unfolding flip_row
flip_row-All P id [] f h = tt
flip_row-All P id (m ∷ mods) f h = elim (Bool-cases (has_id id m)) [
  | inl same ↦ rw same (f m h.0, h.1)
  | inr other ↦ rw other (h.0, flip_row-All P id mods f h.1)
]

-- Removing a row leaves the others, in their order.
pub remove_row-All :
    (P : InstalledModRow → Type 0) (id : Text) (mods rest : List InstalledModRow)
    → remove_row id mods ≡ some rest
    → All P mods
    → All P rest
unfolding remove_row
remove_row-All P id [] rest e h = absurd (ground arith)
remove_row-All P id (m ∷ mods) rest e h = elim (Bool-cases (has_id id m)) [
  | inl same ↦ let eq : mods ≡ rest = ground arith in subst (All P) eq h.1
  | inr other ↦ elim (Option-cases (remove_row id mods)) [
    | inl nothing ↦ absurd (ground arith)
    | inr (r, found) ↦
        let eq : m ∷ r ≡ rest = ground arith in
        subst (All P) eq (h.0, remove_row-All P id mods r found h.1)
  ]
]

pub remove_row-Unique :
    (id : Text) (mods rest : List InstalledModRow)
    → remove_row id mods ≡ some rest
    → Unique mods
    → Unique rest
unfolding remove_row
remove_row-Unique id [] rest e u = absurd (ground arith)
remove_row-Unique id (m ∷ mods) rest e u = elim (Bool-cases (has_id id m)) [
  | inl same ↦ let eq : mods ≡ rest = ground arith in subst Unique eq u.1
  | inr other ↦ elim (Option-cases (remove_row id mods)) [
    | inl nothing ↦ absurd (ground arith)
    | inr (r, found) ↦
        let eq : m ∷ r ≡ rest = ground arith in
        subst Unique eq (
          contains-ids-remove_row id m.mod_id mods r found u.0,
          remove_row-Unique id mods r found u.1,
        )
  ]
]

find_absent :
    (id : Text) (mods : List InstalledModRow)
    → contains (ids mods) id ≡ false
    → find (has_id id) mods ≡ none
unfolding ids contains
find_absent id [] h = refl
find_absent id (m ∷ mods) h = ground (arith, find_absent id mods)

-- Where no id occurs twice, a removal leaves nothing under the id that was removed, and under every
-- other id what was found before.
pub find-remove_row :
    (id x : Text) (mods rest : List InstalledModRow)
    → remove_row id mods ≡ some rest
    → Unique mods
    → find (has_id x) rest ≡ (if text_eq id x then none else find (has_id x) mods)
unfolding remove_row
find-remove_row id x [] rest e u = absurd (ground arith)
find-remove_row id x (m ∷ mods) rest e u = elim (Bool-cases (has_id id m)) [
  | inl same ↦
      ground (
        arith,
        find_absent x mods,
        text_eq_iff m.mod_id id,
        text_eq_iff id x,
        text_eq_iff m.mod_id x,
      )
  | inr other ↦ elim (Option-cases (remove_row id mods)) [
    | inl nothing ↦ absurd (ground arith)
    | inr (r, found) ↦ ground (
      arith,
      find-remove_row id x mods r found u.1,
      text_eq_iff m.mod_id id,
      text_eq_iff id x,
      text_eq_iff m.mod_id x,
    )
  ]
]

pub flip_row-flip_row :
    (id : Text) (mods : List InstalledModRow) → flip_row id (flip_row id mods) ≡ mods
unfolding flip_row
flip_row-flip_row id [] = refl
flip_row-flip_row id (m ∷ mods) = ground (arith, flip_row-flip_row id mods)

pub ids-flip_row : (id : Text) (mods : List InstalledModRow) → ids (flip_row id mods) ≡ ids mods
unfolding flip_row ids
ids-flip_row id [] = refl
ids-flip_row id (m ∷ mods) = ground (arith, ids-flip_row id mods)

pub flip_row-Unique :
    (id : Text) (mods : List InstalledModRow) → Unique mods → Unique (flip_row id mods)
unfolding flip_row
flip_row-Unique id [] u = tt
flip_row-Unique id (m ∷ mods) u = elim (Bool-cases (has_id id m)) [
  | inl same ↦ ground arith
  | inr other ↦ ground (arith, flip_row-Unique id mods u.1, ids-flip_row id mods)
]

-- The row as it is found behind `flip_row`; `same` says that it is the one that was flipped.
abbrev pub flipped : Bool → Option InstalledModRow → Option InstalledModRow
flipped same none = none
flipped true (some m) = some (flip m)
flipped false (some m) = some m

-- Behind a switch the row under the id is the same but for its switch, which is turned round, and
-- under every other id is what was found before.
pub find-flip_row :
    (id x : Text) (mods : List InstalledModRow)
    → find (has_id x) (flip_row id mods) ≡ flipped (text_eq id x) (find (has_id x) mods)
unfolding flip_row
find-flip_row id x [] = ground arith
find-flip_row id x (m ∷ mods) = elim (Bool-cases (text_eq m.mod_id id)) [
  | inl same ↦
      rw same (ground (arith, text_eq_iff m.mod_id id, text_eq_iff id x, text_eq_iff m.mod_id x))
  | inr other ↦ rw other (
      ground (
        arith,
        find-flip_row id x mods,
        text_eq_iff m.mod_id id,
        text_eq_iff id x,
        text_eq_iff m.mod_id x,
      ))
]
