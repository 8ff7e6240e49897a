-- ===== src/Mojang/Inherits/Libraries.antt =====
-- The merged libraries: the child's version wins, the parent's others stay.
use ichr.Base.{
  ℕ, Bool, false, Option, none, some, List, [], ◌∷◌, ◌++◌, map, ◌≡◌, refl, sym, ◌∙◌, append-nil,
  append_assoc, contains-append, Text, text_eq, text_eq_iff, contains, find, or_else, if◌then◌else◌,
  arith, inl, inr, Option-cases,
}
use ichr.Mojang.Types.{Library}
use ichr.Mojang.Inherits.{lib_key, position, set, place, place_all, merge_libraries}

-- The library of a list that has a key: the first one.
abbrev pub find_lib : Text → List Library → Option Library
find_lib k = find (λ l. text_eq (lib_key l) k)

abbrev pub has_key : Text → List Library → Bool
has_key k libs = contains (map lib_key libs) k

-- No two libraries of the list have the same key.
abbrev pub DistinctKeys : List Library → Type 0
DistinctKeys [] = Unit
DistinctKeys (l ∷ ls) = (has_key (lib_key l) ls ≡ false) × DistinctKeys ls

find_lib-set :
    (k : Text) (cl : Library) (keys extra : List Text) (libs : List Library) (i : ℕ)
    → map lib_key libs ≡ keys ++ extra
    → position (lib_key cl) keys ≡ some i
    → (find_lib k (set libs i cl) ≡ (if text_eq (lib_key cl) k then some cl else find_lib k libs))
      × (map lib_key (set libs i cl) ≡ keys ++ extra)
unfolding position set
find_lib-set k cl [] extra libs i e p = cc
find_lib-set k cl (key ∷ keys) extra [] i e p = cc
find_lib-set k cl (key ∷ keys) extra (l ∷ libs) i e p =
    elim (Option-cases (position (lib_key cl) keys)) [
      | inl absent ↦ ground (
        arith,
        text_eq_iff key (lib_key cl),
        text_eq_iff (lib_key cl) k,
        text_eq_iff (lib_key l) k,
      )
      | inr (j, there) ↦ ground (
        arith,
        text_eq_iff key (lib_key cl),
        text_eq_iff (lib_key cl) k,
        text_eq_iff (lib_key l) k,
        find_lib-set k cl keys extra libs j,
      )
    ]

find_lib-snoc :
    (k : Text) (cl : Library) (libs : List Library)
    → has_key (lib_key cl) libs ≡ false
    → find_lib k (libs ++ cl ∷ []) ≡ (if text_eq (lib_key cl) k then some cl else find_lib k libs)
unfolding contains
find_lib-snoc k cl [] h = refl
find_lib-snoc k cl (l ∷ libs) h = ground (
  arith,
  find_lib-snoc k cl libs,
  text_eq_iff (lib_key cl) k,
  text_eq_iff (lib_key l) k,
  text_eq_iff (lib_key l) (lib_key cl),
)

position-none : (k : Text) (keys : List Text) → (position k keys ≡ none → contains keys k ≡ false)
unfolding position contains
position-none k [] h = refl
position-none k (j ∷ keys) h = ground (arith, position-none k keys)

-- `libs` starts with the parent's keys; `extra` are those that earlier rounds appended.
record Placed (keys extra : List Text) (cl : Library) (libs after : List Library) : Type 0 where
  pub found :
      (k : Text) → find_lib k after ≡ (if text_eq (lib_key cl) k then some cl else find_lib k libs)
  pub more : List Text
  pub listed : map lib_key after ≡ keys ++ more
  pub only :
      (k : Text)
      → contains extra k ≡ false
      → text_eq (lib_key cl) k ≡ false
      → contains more k ≡ false

map_snoc :
    (cl : Library) (libs : List Library)
    → map lib_key (libs ++ cl ∷ []) ≡ map lib_key libs ++ lib_key cl ∷ []
map_snoc cl [] = refl
map_snoc cl (l ∷ libs) = cc (map_snoc cl libs)

contains_snoc :
    (xs : List Text) (x k : Text)
    → contains xs k ≡ false
    → text_eq x k ≡ false
    → contains (xs ++ x ∷ []) k ≡ false
unfolding contains
contains_snoc [] x k h e = ground arith
contains_snoc (y ∷ xs) x k h e = ground (arith, contains_snoc xs x k)

place-Placed :
    (keys extra : List Text) (cl : Library) (libs : List Library)
    → map lib_key libs ≡ keys ++ extra
    → contains extra (lib_key cl) ≡ false
    → Placed keys extra cl libs (place keys libs cl)
unfolding place
place-Placed keys extra cl libs e new = elim (Option-cases (position (lib_key cl) keys)) [
  | inl absent ↦
      let unlisted : has_key (lib_key cl) libs ≡ false = rw e (
        ground (
          arith,
          contains-append keys extra (lib_key cl),
          position-none (lib_key cl) keys absent,
        )) in
      rw (absent, place)
        (record {
          found = λ k. find_lib-snoc k cl libs unlisted;
          more = extra ++ lib_key cl ∷ [];
          listed = map_snoc cl libs ∙ cc (append_assoc keys extra (lib_key cl ∷ []));
          only = λ k h d. contains_snoc extra (lib_key cl) k h d;
        })
  | inr (i, there) ↦
      rw (there, place)
        (record {
          found = λ k. (find_lib-set k cl keys extra libs i e there).0;
          more = extra;
          listed = (find_lib-set [] cl keys extra libs i e there).1;
          only = λ k h d. h;
        })
]

find_lib-none : (k : Text) (libs : List Library) → has_key k libs ≡ false → find_lib k libs ≡ none
unfolding contains
find_lib-none k [] h = refl
find_lib-none k (l ∷ libs) h = ground (arith, find_lib-none k libs)

-- No library of `cls` has one of the keys.
abbrev Avoids : List Text → List Library → Type 0
Avoids keys [] = Unit
Avoids keys (c ∷ cls) = (contains keys (lib_key c) ≡ false) × Avoids keys cls

Avoids-more :
    {keys extra : List Text} {cl : Library} {libs after : List Library} (cls : List Library)
    (p : Placed keys extra cl libs after)
    → Avoids extra cls
    → has_key (lib_key cl) cls ≡ false
    → Avoids p.more cls
unfolding contains
Avoids-more [] p h d = tt
Avoids-more {cl} (c ∷ cls) p h d = (
  p.only (lib_key c) h.0
      (ground (arith, text_eq_iff (lib_key cl) (lib_key c), text_eq_iff (lib_key c) (lib_key cl))),
  Avoids-more cls p h.1 (ground arith),
)

find_lib-place_all :
    (k : Text) (keys extra : List Text) (cls libs : List Library)
    → map lib_key libs ≡ keys ++ extra
    → DistinctKeys cls
    → Avoids extra cls
    → find_lib k (place_all keys libs cls) ≡ or_else (find_lib k cls) (find_lib k libs)
unfolding place_all
find_lib-place_all k keys extra [] libs e d a = refl
find_lib-place_all k keys extra (cl ∷ cls) libs e d a =
    let p = place-Placed keys extra cl libs e a.0 in
    let ih =
      find_lib-place_all k keys p.more cls (place keys libs cl) p.listed d.1
        (Avoids-more cls p a.1 d.0) in
    ground (arith, ih, p.found k, text_eq_iff (lib_key cl) k, find_lib-none (lib_key cl) cls d.0)

Avoids-nil : (cls : List Library) → Avoids [] cls
unfolding contains
Avoids-nil [] = tt
Avoids-nil (c ∷ cls) = (refl, Avoids-nil cls)

-- The child's libraries override the parent's: in the merged list the library with a given key is
-- the child's, if the child has one, and else the parent's. The child is to list no key twice.
pub find_lib-merge_libraries :
    (k : Text) (parent child : List Library)
    → DistinctKeys child
    → find_lib k (merge_libraries parent child) ≡ or_else (find_lib k child) (find_lib k parent)
unfolding merge_libraries
find_lib-merge_libraries k parent child d =
    find_lib-place_all k (map lib_key parent) [] child parent (sym (append-nil _)) d
      (Avoids-nil child)
