-- ===== src/Disk.antt =====
-- The file system as the ledger uses it, and the atomic write of src/mojang/cache.rs. Its calls are a
-- parameter: each takes the state of the disk, and gives an answer and the next state.
pub mod Atomic
use ichr.Base.{
  arith, ℕ, Bool, true, false, Option, none, some, List, [], ◌∷◌, ◌++◌, ◌≡◌, ◌≢◌, refl, Text, codes,
  ◌==◌, Result, ok, err, if◌then◌else◌,
}

-- A path: the components of its directory, and its last one.
pub record FilePath : Type 0 where
  pub dir : List Text
  pub name : Text

pub data IoError : Type 0 where
  not_found : (message : Text) → IoError
  other : (message : Text) → IoError

pub record Disk (S : Type 0) : Type 1 where
  pub try_exists : FilePath → S → Result Text Bool
  pub read : FilePath → S → Result Text Text
  pub create_dir_all : List Text → S → Result Text Unit × S
  pub write : FilePath → Text → S → Result Text Unit × S
  pub rename : FilePath → FilePath → S → Result Text Unit × S
  pub remove_file : FilePath → S → Result IoError Unit × S

-- What the calls do to the files. Every call may fail. Where the existence test denies, there is no
-- file, and what is read is what the file holds; a call that succeeds has its effect and no other; a rename or a removal that
-- fails has none.
pub record IsDisk {S : Type 0} (disk : Disk S) (file : S → FilePath → Option Text) : Type 0 where
  pub exists_false : (p : FilePath) (s : S) → disk.try_exists p s ≡ ok false → file s p ≡ none
  pub read_answer : (p : FilePath) (s : S) (b : Text) → disk.read p s ≡ ok b → file s p ≡ some b
  pub dirs_keep :
      (d : List Text) (s : S) (q : FilePath) → file (disk.create_dir_all d s).1 q ≡ file s q
  pub write_there :
      (p : FilePath) (b : Text) (s s' : S) → disk.write p b s ≡ (ok tt, s') → file s' p ≡ some b
  pub write_keeps :
      (p q : FilePath) (b : Text) (s : S) → q ≢ p → file (disk.write p b s).1 q ≡ file s q
  pub rename_there :
      (p q : FilePath) (s s' : S) → disk.rename p q s ≡ (ok tt, s') → file s' q ≡ file s p
  pub rename_gone :
      (p q : FilePath) (s s' : S) → p ≢ q → disk.rename p q s ≡ (ok tt, s') → file s' p ≡ none
  pub rename_keeps :
      (p q x : FilePath) (s : S) → x ≢ p → x ≢ q → file (disk.rename p q s).1 x ≡ file s x
  pub rename_fails :
      (p q x : FilePath) (s s' : S) (e : Text)
      → disk.rename p q s ≡ (err e, s')
      → file s' x ≡ file s x
  pub remove_gone :
      (p : FilePath) (s s' : S) → disk.remove_file p s ≡ (ok tt, s') → file s' p ≡ none
  pub remove_absent :
      (p : FilePath) (s s' : S) (m : Text)
      → disk.remove_file p s ≡ (err (not_found m), s')
      → file s' p ≡ none
  pub remove_keeps : (p q : FilePath) (s : S) → q ≢ p → file (disk.remove_file p s).1 q ≡ file s q

-- An operation on the disk that may fail, and the `?` operator over it.
abbrev pub Io : Type 0 → Type 0 → Type 0 → Type 0
Io E S A = S → Result E A × S

abbrev pub and_then : {E S A B : Type 0} → Result E A × S → (A → Io E S B) → Result E B × S
and_then (ok a, s) f = f a s
and_then (err e, s) f = (err e, s)

infixl 5 ◌>>=◌
abbrev pub ◌>>=◌ : {E S A B : Type 0} → Io E S A → (A → Io E S B) → Io E S B
m >>= f = λ s. and_then (m s) f

-- A result that needs no disk.
abbrev pub lift : {E S A : Type 0} → Result E A → Io E S A
lift r s = (r, s)

-- `map_err`
abbrev pub wrapped : {D E S A : Type 0} → (D → E) → Result D A × S → Result E A × S
wrapped f (ok a, s) = (ok a, s)
wrapped f (err d, s) = (err (f d), s)

abbrev pub map_err : {D E S A : Type 0} → (D → E) → Io D S A → Io E S A
map_err f m = λ s. wrapped f (m s)

and_then-eq-ok :
    {E S A B : Type 0} (r : Result E A × S) (f : A → Io E S B) (s' : S) {b : B}
    → and_then r f ≡ (ok b, s')
    → (a : A) × (t : S) × (r ≡ (ok a, t)) × (f a t ≡ (ok b, s'))
and_then-eq-ok (ok a, s) f s' h = (a, s, refl, h)
and_then-eq-ok (err e, s) f s' h = absurd (ground arith)

pub Io_eq_ok :
    {E S A B : Type 0} (m : Io E S A) (f : A → Io E S B) (s s' : S) {b : B}
    → (m >>= f) s ≡ (ok b, s')
    → (a : A) × (t : S) × (m s ≡ (ok a, t)) × (f a t ≡ (ok b, s'))
Io_eq_ok m f s s' h = and_then-eq-ok (m s) f s' h

wrapped_eq_ok :
    {D E S A : Type 0} (f : D → E) (r : Result D A × S) (s' : S) {a : A}
    → wrapped f r ≡ (ok a, s')
    → r ≡ (ok a, s')
wrapped_eq_ok f (ok a, s) s' h = ground arith
wrapped_eq_ok f (err e, s) s' h = absurd (ground arith)

pub map_err-eq-ok :
    {D E S A : Type 0} (f : D → E) (m : Io D S A) (s s' : S) {a : A}
    → map_err f m s ≡ (ok a, s')
    → m s ≡ (ok a, s')
map_err-eq-ok f m s s' h = wrapped_eq_ok f (m s) s' h

-- The file name without what follows its last dot; a dot in front does not count.
unfoldable pub before_last_dot : Text → Option Text
before_last_dot [] = none
before_last_dot (c ∷ s) = elim (before_last_dot s) [
  | some t ↦ some (c ∷ t)
  | none ↦ if c == b'.' then some [] else none
]

abbrev stem_or : Option Text → Text → Text
stem_or (some (c ∷ t)) name = c ∷ t
stem_or _ name = name

-- `Path::with_extension`
unfoldable pub with_extension : Text → FilePath → FilePath
with_extension extension p = record p {
  name = stem_or (before_last_dot p.name) p.name ++ b'.' ∷ extension;
}

-- `atomic_write`: the whole of the file, through a temporary one beside it.
unfoldable pub atomic_write : {S : Type 0} → Disk S → FilePath → Text → Io Text S Unit
atomic_write disk dest bytes = do
  made ← disk.create_dir_all dest.dir
  written ← disk.write (with_extension (codes "tmp") dest) bytes
  disk.rename (with_extension (codes "tmp") dest) dest
