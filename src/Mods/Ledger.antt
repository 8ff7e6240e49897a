-- ===== src/Mods/Ledger.antt =====
-- src/mods/ledger.rs: the list of what is installed in an instance, beside the files themselves, with
-- the paths of src/persistence/paths.rs. The lock of an instance orders the operations, so each is
-- one function of the disk's state. The TOML and UTF-8 libraries are a parameter.
pub mod Rows
pub mod Stored
pub mod Operations
pub mod Toggle
pub mod Uninstall
pub mod Invariant
use ichr.Base.{
  ℕ, Bool, true, false, not, Option, none, some, List, [], ◌∷◌, ◌++◌, Text, codes, text_eq, find,
  Result, ok, err, ok_or, if◌then◌else◌,
}
use ichr.Disk.{FilePath, Disk, IoError, not_found, other, Io, ◌>>=◌, lift, map_err, atomic_write}
use ichr.Mods.Types.{InstalledModRow, Ledger, default_ledger}
use ichr.Mods.Error.{ModrinthError, io, ledger_parse, mod_not_found}
use ichr.Mods.Filter.{disabled_filename, is_safe_mod_filename, is_safe_pack_filename}

pub record Toml : Type 0 where
  pub to_string_pretty : Ledger → Result Text Text
  pub as_bytes : Text → Text
  pub from_utf8 : Text → Result Text Text
  pub from_str : Text → Result Text Ledger

-- `AppPaths::instance_dir` and the paths below it; `data_dir` is the root.
abbrev pub instance_dir : List Text → Text → List Text
instance_dir data_dir slug = data_dir ++ codes "instances" ∷ slug ∷ []

abbrev pub instance_mod_ledger : List Text → Text → FilePath
instance_mod_ledger data_dir slug = record {
  dir = instance_dir data_dir slug;
  name = codes "installed-mods.toml";
}

abbrev pub mods_dir : List Text → Text → List Text
mods_dir data_dir slug = instance_dir data_dir slug ++ codes ".minecraft" ∷ codes "mods" ∷ []

abbrev pub has_id : Text → InstalledModRow → Bool
has_id mod_id row = text_eq row.mod_id mod_id

-- `if let Some(existing) = mods.iter_mut().find(..) { *existing = row } else { mods.push(row) }`
unfoldable pub upsert_row : InstalledModRow → List InstalledModRow → List InstalledModRow
upsert_row row [] = row ∷ []
upsert_row row (m ∷ mods) =
    let rest = upsert_row row mods in if has_id row.mod_id m then row ∷ mods else m ∷ rest

-- `position` and `remove`; `none` where there is no such row.
unfoldable pub remove_row : Text → List InstalledModRow → Option (List InstalledModRow)
remove_row mod_id [] = none
remove_row mod_id (m ∷ mods) =
    let rest : Option (List InstalledModRow) = elim (remove_row mod_id mods) [
      | none ↦ none
      | some ms ↦ some (m ∷ ms)
    ] in
    if has_id mod_id m then some mods else rest

abbrev pub flip : InstalledModRow → InstalledModRow
flip row = record row { enabled = not row.enabled }

-- `row.enabled = !row.enabled` through the reference that `find` gave.
unfoldable pub flip_row : Text → List InstalledModRow → List InstalledModRow
flip_row mod_id [] = []
flip_row mod_id (m ∷ mods) =
    let rest = flip_row mod_id mods in if has_id mod_id m then flip m ∷ mods else m ∷ rest

abbrev unsafe_name : Text → ModrinthError
unsafe_name file_name = io (codes "unsafe ledger filename: " ++ file_name)

-- `io_err`: the message says what was tried; the path in it is left out.
abbrev io_err : Text → Text → ModrinthError
io_err tried e = io (tried ++ e)

abbrev bad_ledger : Text → Text → ModrinthError
bad_ledger tried e = ledger_parse (tried ++ e)

-- `unwrap_or(false)`
abbrev or_false : Result Text Bool → Bool
or_false (ok b) = b
or_false (err e) = false

abbrev as_result : {A : Type 0} → (Text → ModrinthError) → Result Text A → Result ModrinthError A
as_result f (ok a) = ok a
as_result f (err e) = err (f e)

abbrev check : Bool → ModrinthError → Result ModrinthError Unit
check true e = ok tt
check false e = err e

-- The answer to `remove_file`: a file that is missing already is no error.
abbrev missing_is_ok : {S : Type 0} → Result IoError Unit × S → Result ModrinthError Unit × S
missing_is_ok (ok u, s) = (ok tt, s)
missing_is_ok (err (not_found m), s) = (ok tt, s)
missing_is_ok (err (other m), s) = (err (io_err (codes "remove_file: ") m), s)

module _ {S : Type 0} (disk : Disk S) (toml : Toml) (data_dir : List Text) (slug : Text) where
  abbrev pub ledger_path : FilePath
  ledger_path = instance_mod_ledger data_dir slug

  abbrev pub mod_path : Text → FilePath
  mod_path file_name = record { dir = mods_dir data_dir slug; name = file_name }

  -- The file of a row under a switch that is on or off.
  abbrev pub file_path : InstalledModRow → Bool → FilePath
  file_path row true = mod_path row.file_name
  file_path row false = mod_path (disabled_filename row.file_name)

  abbrev parse_text : Result Text Text → Result ModrinthError Ledger
  parse_text (ok s) = as_result (bad_ledger (codes "parse: ")) (toml.from_str s)
  parse_text (err e) = err (bad_ledger (codes "non-UTF8 ledger: ") e)

  -- The content of a ledger file.
  abbrev pub parse : Text → Result ModrinthError Ledger
  parse [] = ok default_ledger
  parse (c ∷ raw) = parse_text (toml.from_utf8 (c ∷ raw))

  abbrev parse_read : Result Text Text → Result ModrinthError Ledger
  parse_read (ok raw) = parse raw
  parse_read (err e) = err (io_err (codes "read: ") e)

  unfoldable pub read_ledger : Io ModrinthError S Ledger
  read_ledger s =
      if or_false (disk.try_exists ledger_path s)
      then (parse_read (disk.read ledger_path s), s)
      else (ok default_ledger, s)

  unfoldable pub write_ledger : Ledger → Io ModrinthError S Unit
  write_ledger ledger = do
    s ← lift (as_result (bad_ledger (codes "serialize: ")) (toml.to_string_pretty ledger))
    map_err (io_err (codes "ledger write: ")) (atomic_write disk ledger_path (toml.as_bytes s))

  unfoldable pub upsert : (Text → Bool) → InstalledModRow → Io ModrinthError S Unit
  unfolding read_ledger write_ledger
  upsert is_safe row = do
    safe ← lift (check (is_safe row.file_name) (unsafe_name row.file_name))
    ledger ← read_ledger
    write_ledger (record ledger { mods = upsert_row row ledger.mods })

  unfoldable pub upsert_mod : InstalledModRow → Io ModrinthError S Unit
  unfolding upsert
  upsert_mod row = upsert is_safe_mod_filename row

  unfoldable pub upsert_pack : InstalledModRow → Io ModrinthError S Unit
  unfolding upsert
  upsert_pack row = upsert is_safe_pack_filename row

  unfoldable pub remove_mod : Text → Io ModrinthError S Unit
  unfolding read_ledger write_ledger
  remove_mod mod_id = do
    ledger ← read_ledger
    mods ← lift (ok_or (remove_row mod_id ledger.mods) (mod_not_found mod_id))
    write_ledger (record ledger { mods = mods })

  unfoldable pub toggle_enabled : Text → Io ModrinthError S Bool
  unfolding read_ledger write_ledger
  toggle_enabled mod_id = do
    ledger ← read_ledger
    row ← lift (ok_or (find (has_id mod_id) ledger.mods) (mod_not_found mod_id))
    safe ← lift (check (is_safe_mod_filename row.file_name) (unsafe_name row.file_name))
    renamed ←
        map_err (io_err (codes "rename: "))
          (disk.rename (file_path row row.enabled) (file_path row (not row.enabled)))
    written ← write_ledger (record ledger { mods = flip_row mod_id ledger.mods })
    lift (ok (not row.enabled))

  unfoldable pub uninstall : Text → Io ModrinthError S Unit
  unfolding read_ledger write_ledger
  uninstall mod_id = do
    ledger_pre ← read_ledger
    row ← lift (ok_or (find (has_id mod_id) ledger_pre.mods) (mod_not_found mod_id))
    safe ← lift (check (is_safe_mod_filename row.file_name) (unsafe_name row.file_name))
    removed ← λ s. missing_is_ok (disk.remove_file (file_path row row.enabled) s)
    mods ← lift (ok_or (remove_row mod_id ledger_pre.mods) (mod_not_found mod_id))
    write_ledger (record ledger_pre { mods = mods })
