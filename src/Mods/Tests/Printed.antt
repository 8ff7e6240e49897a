-- ===== src/Mods/Tests/Printed.antt =====
-- A printed form of ledgers that reads back: texts behind their length.
use ichr.Base.{
  ℕ, zero, suc, Bool, true, false, List, [], ◌∷◌, ◌++◌, ◌≡◌, refl, ap, sym, subst, ◌∙◌, Text,
  length, Result, ok,
}
use ichr.Mods.Types.{
  InstalledModRow, Ledger, HashAlgo, sha512, sha1, sha256, InstalledItemKind, mod_item,
  resource_pack, shader, ModSource, modrinth, curse_forge, manual, modpack, local,
}
use ichr.Mods.Ledger.{Toml}
use ichr.Mods.Ledger.Stored.{IsToml}

unfoldable pub cut : ℕ → Text → Text × Text
cut zero s = ([], s)
cut (suc n) [] = ([], [])
cut (suc n) (c ∷ s) = let (a, b) = cut n s in (c ∷ a, b)

cut_append : (t s : Text) → cut (length t) (t ++ s) ≡ (t, s)
unfolding cut
cut_append [] s = refl
cut_append (c ∷ t) s = rw (cut_append t s) refl

unfoldable pub print_text : Text → Text → Text
print_text t rest = length t ∷ (t ++ rest)

unfoldable pub read_text : Text → Text × Text
unfolding cut
read_text [] = ([], [])
read_text (n ∷ s) = cut n s

read_print : (t rest : Text) → read_text (print_text t rest) ≡ (t, rest)
unfolding read_text print_text
read_print t rest = cut_append t rest

abbrev algo_code : HashAlgo → ℕ
algo_code sha512 = 0
algo_code sha1 = 1
algo_code sha256 = 2

abbrev algo_at : ℕ → HashAlgo
algo_at zero = sha512
algo_at (suc zero) = sha1
algo_at (suc (suc n)) = sha256

algo_at-algo_code : (a : HashAlgo) → algo_at (algo_code a) ≡ a
algo_at-algo_code sha512 = refl
algo_at-algo_code sha1 = refl
algo_at-algo_code sha256 = refl

abbrev kind_code : InstalledItemKind → ℕ
kind_code mod_item = 0
kind_code resource_pack = 1
kind_code shader = 2

abbrev kind_at : ℕ → InstalledItemKind
kind_at zero = mod_item
kind_at (suc zero) = resource_pack
kind_at (suc (suc n)) = shader

kind_at-kind_code : (k : InstalledItemKind) → kind_at (kind_code k) ≡ k
kind_at-kind_code mod_item = refl
kind_at-kind_code resource_pack = refl
kind_at-kind_code shader = refl

abbrev source_code : ModSource → ℕ
source_code modrinth = 0
source_code curse_forge = 1
source_code manual = 2
source_code modpack = 3
source_code local = 4

abbrev source_at : ℕ → ModSource
source_at zero = modrinth
source_at (suc zero) = curse_forge
source_at (suc (suc zero)) = manual
source_at (suc (suc (suc zero))) = modpack
source_at (suc (suc (suc (suc n)))) = local

source_at-source_code : (k : ModSource) → source_at (source_code k) ≡ k
source_at-source_code modrinth = refl
source_at-source_code curse_forge = refl
source_at-source_code manual = refl
source_at-source_code modpack = refl
source_at-source_code local = refl

abbrev switch_code : Bool → ℕ
switch_code true = 1
switch_code false = 0

abbrev switch_at : ℕ → Bool
switch_at zero = false
switch_at (suc n) = true

switch_at-switch_code : (b : Bool) → switch_at (switch_code b) ≡ b
switch_at-switch_code true = refl
switch_at-switch_code false = refl

abbrev head_of : Text → ℕ
head_of [] = 0
head_of (n ∷ s) = n

abbrev tail_of : Text → Text
tail_of [] = []
tail_of (n ∷ s) = s

unfoldable pub print_row : InstalledModRow → Text → Text
unfolding print_text
print_row m rest = print_text m.mod_id (
    print_text m.project_slug (
      print_text m.display_name (
        print_text m.version_id (
          print_text m.version_label (
            print_text m.file_name (
              print_text m.sha512 (
                m.size
                ∷ algo_code m.hash_algo
                ∷ kind_code m.kind
                ∷ source_code m.source
                ∷ switch_code m.enabled
                ∷ print_text m.installed_at rest)))))))

unfoldable pub read_row : Text → InstalledModRow × Text
unfolding read_text
read_row s =
    let (id, s1) = read_text s in
    let (slug, s2) = read_text s1 in
    let (display, s3) = read_text s2 in
    let (version, s4) = read_text s3 in
    let (label, s5) = read_text s4 in
    let (file, s6) = read_text s5 in
    let (hash, s7) = read_text s6 in
    let s8 = tail_of s7 in
    let s9 = tail_of s8 in
    let s10 = tail_of s9 in
    let s11 = tail_of s10 in
    let (at, s12) = read_text (tail_of s11) in
    (
      record {
        mod_id = id;
        project_slug = slug;
        display_name = display;
        version_id = version;
        version_label = label;
        file_name = file;
        sha512 = hash;
        size = head_of s7;
        hash_algo = algo_at (head_of s8);
        kind = kind_at (head_of s9);
        source = source_at (head_of s10);
        enabled = switch_at (head_of s11);
        installed_at = at;
      },
      s12,
    )

read_row-print_row : (m : InstalledModRow) (rest : Text) → read_row (print_row m rest) ≡ (m, rest)
unfolding read_row print_row
read_row-print_row m rest =
    simp (
      read_print, algo_at-algo_code, kind_at-kind_code, source_at-source_code,
      switch_at-switch_code,
    )

unfoldable pub print_rows : List InstalledModRow → Text
print_rows [] = []
print_rows (m ∷ mods) = print_row m (print_rows mods)

unfoldable pub read_rows : ℕ → Text → List InstalledModRow
read_rows zero s = []
read_rows (suc n) s = (read_row s).0 ∷ read_rows n (read_row s).1

read_rows-print_rows :
    (mods : List InstalledModRow) → read_rows (length mods) (print_rows mods) ≡ mods
unfolding read_rows print_rows
read_rows-print_rows [] = refl
read_rows-print_rows (m ∷ mods) =
    subst (λ x. x.0 ∷ read_rows (length mods) x.1 ≡ m ∷ mods)
      (sym (read_row-print_row m (print_rows mods))) (ap (λ x. m ∷ x) (read_rows-print_rows mods))

abbrev print : Ledger → Text
print l = l.schema_version ∷ length l.mods ∷ print_rows l.mods

abbrev parsed : Text → Ledger
parsed s = record {
  schema_version = head_of s;
  mods = read_rows (head_of (tail_of s)) (tail_of (tail_of s));
}

parsed-print : (l : Ledger) → parsed (print l) ≡ l
parsed-print l =
    ap (λ x. record { schema_version = l.schema_version; mods = x }) (read_rows-print_rows l.mods)

abbrev pub printed : Toml
printed = record {
  to_string_pretty = λ l. ok (print l);
  as_bytes = λ s. s;
  from_utf8 = λ s. ok s;
  from_str = λ s. ok (parsed s);
}

ok_eq : {a b : Text} → ◌≡◌ {A = Result Text Text} (ok a) (ok b) → a ≡ b
ok_eq e = cc

pub printed-IsToml : IsToml printed
printed-IsToml = record {
  utf8 = λ s. refl;
  reads_back = λ l s h.
      subst (λ (t : Text). ◌≡◌ {A = Result Text Ledger} (ok (parsed t)) (ok l)) (ok_eq h)
        (ap (λ (x : Ledger). ok x) (parsed-print l));
  some_byte = λ l s h e. let c : print l ≡ [] = ok_eq h ∙ e in cc;
}
