-- ===== src/Mods/Tests/Files.antt =====
-- A disk that is a function from paths to contents.
use ichr.Base.{
  Bool, true, false, ◌&&◌, Option, none, some, List, [], ◌∷◌, ◌≡◌, ◌≢◌, refl, ap, ap₂, subst, ◌∙◌,
  Text, codes, text_eq, text_eq_iff, is_some, Result, ok, err, if◌then◌else◌, Bool-cases, arith,
  inl, inr,
}
use ichr.Disk.{FilePath, Disk, IsDisk, IoError, not_found}

unfoldable pub dirs_eq : List Text → List Text → Bool
dirs_eq [] [] = true
dirs_eq (a ∷ s) (b ∷ t) = text_eq a b && dirs_eq s t
dirs_eq _ _ = false

dirs_eq_sound : (s t : List Text) → dirs_eq s t ≡ true → s ≡ t
unfolding dirs_eq
dirs_eq_sound [] [] h = refl
dirs_eq_sound [] (b ∷ t) h = cc
dirs_eq_sound (a ∷ s) [] h = cc
dirs_eq_sound (a ∷ s) (b ∷ t) h =
    ap₂ ◌∷◌ (ground (arith, text_eq_iff a b)) (dirs_eq_sound s t (ground arith))

dirs_eq_refl : (s : List Text) → dirs_eq s s ≡ true
unfolding dirs_eq
dirs_eq_refl [] = refl
dirs_eq_refl (a ∷ s) = ground (arith, text_eq_iff a a, dirs_eq_refl s)

unfoldable pub path_eq : FilePath → FilePath → Bool
unfolding dirs_eq
path_eq p q = dirs_eq p.dir q.dir && text_eq p.name q.name

path_eq_refl : (p : FilePath) → path_eq p p ≡ true
unfolding path_eq
path_eq_refl p = ground (arith, dirs_eq_refl p.dir, text_eq_iff p.name p.name)

path_eq_ne : (p q : FilePath) → p ≢ q → path_eq p q ≡ false
unfolding path_eq
path_eq_ne p q n = elim (Bool-cases (path_eq p q)) [
  | inr e ↦ e
  | inl e ↦
      let d = dirs_eq_sound p.dir q.dir (ground arith) in
      let m : p.name ≡ q.name = ground (arith, text_eq_iff p.name q.name) in
      absurd (n (ap₂ (λ x y. record { dir = x; name = y }) d m))
]

abbrev pub Files : Type 0
Files = FilePath → Option Text

abbrev pub set_file : Files → FilePath → Option Text → Files
set_file s p v q = if path_eq q p then v else s q

set_file_there : (s : Files) (p : FilePath) (v : Option Text) → set_file s p v p ≡ v
set_file_there s p v = rw (path_eq_refl p) refl

set_file_other : (s : Files) (p q : FilePath) (v : Option Text) → q ≢ p → set_file s p v q ≡ s q
set_file_other s p q v n = rw (path_eq_ne q p n) refl

abbrev answer : Option Text → Result Text Text
answer none = err (codes "no such file")
answer (some b) = ok b

abbrev move : Option Text → FilePath → FilePath → Files → Result Text Unit × Files
move none p q s = (err (codes "no such file"), s)
move (some b) p q s = (ok tt, set_file (set_file s p none) q (some b))

abbrev erase : Option Text → FilePath → Files → Result IoError Unit × Files
erase none p s = (err (not_found []), s)
erase (some b) p s = (ok tt, set_file s p none)

abbrev pub files_disk : Disk Files
files_disk = record {
  try_exists = λ p s. ok (is_some (s p));
  read = λ p s. answer (s p);
  create_dir_all = λ d s. (ok tt, s);
  write = λ p b s. (ok tt, set_file s p (some b));
  rename = λ p q s. move (s p) p q s;
  remove_file = λ p s. erase (s p) p s;
}

abbrev pub file_of : Files → FilePath → Option Text
file_of s p = s p

next_eq : {A : Type 0} {a b : A} {s t : Files} → ◌≡◌ {A = A × Files} (a, s) (b, t) → s ≡ t
next_eq e = ap (λ x. x.1) e

move_there :
    (o : Option Text) (p q : FilePath) (s s' : Files)
    → s p ≡ o
    → move o p q s ≡ (ok tt, s')
    → s' q ≡ o
move_there none p q s s' e h = absurd (ground arith)
move_there (some b) p q s s' e h =
    subst (λ (t : Files). t q ≡ some b) (next_eq h) (set_file_there (set_file s p none) q (some b))

move_gone :
    (o : Option Text) (p q : FilePath) (s s' : Files)
    → p ≢ q
    → move o p q s ≡ (ok tt, s')
    → s' p ≡ none
move_gone none p q s s' n h = absurd (ground arith)
move_gone (some b) p q s s' n h =
    subst (λ (t : Files). t p ≡ none) (next_eq h)
      (set_file_other (set_file s p none) q p (some b) n ∙ set_file_there s p none)

move_keeps :
    (o : Option Text) (p q x : FilePath) (s : Files) → x ≢ p → x ≢ q → (move o p q s).1 x ≡ s x
move_keeps none p q x s np nq = refl
move_keeps (some b) p q x s np nq =
    set_file_other (set_file s p none) q x (some b) nq ∙ set_file_other s p x none np

move_fails :
    (o : Option Text) (p q x : FilePath) (s s' : Files) (e : Text)
    → move o p q s ≡ (err e, s')
    → s' x ≡ s x
move_fails none p q x s s' e h = subst (λ (t : Files). t x ≡ s x) (next_eq h) refl
move_fails (some b) p q x s s' e h = absurd (ground arith)

erase_gone :
    (o : Option Text) (p : FilePath) (s s' : Files) → erase o p s ≡ (ok tt, s') → s' p ≡ none
erase_gone none p s s' h = absurd (ground arith)
erase_gone (some b) p s s' h =
    subst (λ (t : Files). t p ≡ none) (next_eq h) (set_file_there s p none)

erase_absent :
    (o : Option Text) (p : FilePath) (s s' : Files) (m : Text)
    → s p ≡ o
    → erase o p s ≡ (err (not_found m), s')
    → s' p ≡ none
erase_absent none p s s' m e h = subst (λ (t : Files). t p ≡ none) (next_eq h) e
erase_absent (some b) p s s' m e h = absurd (ground arith)

erase_keeps : (o : Option Text) (p q : FilePath) (s : Files) → q ≢ p → (erase o p s).1 q ≡ s q
erase_keeps none p q s n = refl
erase_keeps (some b) p q s n = set_file_other s p q none n

absent_none : (o : Option Text) → ◌≡◌ {A = Result Text Bool} (ok (is_some o)) (ok false) → o ≡ none
absent_none none h = refl
absent_none (some b) h = cc

answer_eq : (o : Option Text) (b : Text) → answer o ≡ ok b → o ≡ some b
answer_eq none b h = cc
answer_eq (some c) b h = cc

pub files_disk-IsDisk : IsDisk files_disk file_of
files_disk-IsDisk = record {
  exists_false = λ p s h. absent_none (s p) h;
  read_answer = λ p s b h. answer_eq (s p) b h;
  dirs_keep = λ d s q. refl;
  write_there =
      λ p b s s' h. subst (λ (t : Files). t p ≡ some b) (next_eq h) (set_file_there s p (some b));
  write_keeps = λ p q b s n. set_file_other s p q (some b) n;
  rename_there = λ p q s s' h. move_there (s p) p q s s' refl h;
  rename_gone = λ p q s s' n h. move_gone (s p) p q s s' n h;
  rename_keeps = λ p q x s np nq. move_keeps (s p) p q x s np nq;
  rename_fails = λ p q x s s' e h. move_fails (s p) p q x s s' e h;
  remove_gone = λ p s s' h. erase_gone (s p) p s s' h;
  remove_absent = λ p s s' m h. erase_absent (s p) p s s' m refl h;
  remove_keeps = λ p q s n. erase_keeps (s p) p q s n;
}
