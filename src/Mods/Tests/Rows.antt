-- ===== src/Mods/Tests/Rows.antt =====
-- A small instance: a mod that is installed, switched off and taken out again.
use ichr.Base.{ok, err, contains, ◌≡◌, refl, true, none, some, List, [], ◌∷◌, Text, codes, text_eq}
use ichr.Disk.{Disk, FilePath, atomic_write}
use ichr.Disk.Atomic.{Outcome, atomic_write-Outcome}
use ichr.Mods.Types.{InstalledModRow, sha512, mod_item, modrinth, default_ledger}
use ichr.Mods.Ledger.{read_ledger, upsert_mod}
use ichr.Mods.Ledger.Rows.{ids, Unique}
use ichr.Mods.Ledger.{remove_row}
use ichr.Mods.Ledger.Stored.{
  ledger_file, mod_file, stored, ledger-ne-tmp, mod_path-ne-ledger, mod_path-ne-tmp,
}
use ichr.Mods.Ledger.Invariant.{IsGood, Op, install_mod, toggle, delete, run_all, run_all-IsGood}
use ichr.Mods.Tests.Files.{Files, path_eq, set_file, files_disk, file_of, files_disk-IsDisk}
use ichr.Mods.Tests.Printed.{printed, printed-IsToml}

abbrev root : List Text
root = codes "data" ∷ []

abbrev slug : Text
slug = codes "world"

abbrev sodium : InstalledModRow
sodium = record {
  mod_id = codes "AANobbMI";
  project_slug = codes "sodium";
  display_name = codes "Sodium";
  version_id = codes "v1";
  version_label = codes "0.5.8";
  file_name = codes "sodium.jar";
  sha512 = codes "00ff";
  size = 1024;
  hash_algo = sha512;
  kind = mod_item;
  source = modrinth;
  enabled = true;
  installed_at = codes "2026-01-01";
}

abbrev jar_path : FilePath
jar_path = mod_file files_disk printed root slug (codes "sodium.jar")

abbrev ledger_at : FilePath
ledger_at = ledger_file files_disk printed root slug

-- The mod's file is there, and no ledger.
abbrev start : Files
start = set_file (λ p. none) jar_path (some (codes "jar"))

abbrev installed : Files
installed = (upsert_mod files_disk printed root slug sodium start).1

atomic_write-Outcome_example :
    Outcome files_disk file_of files_disk-IsDisk ledger_at jar_path
      (codes "x")
      start
      (atomic_write files_disk ledger_at (codes "x") start)
atomic_write-Outcome_example =
    atomic_write-Outcome files_disk file_of files_disk-IsDisk ledger_at jar_path (codes "x") start
      (ledger-ne-tmp files_disk printed root slug)
      (mod_path-ne-ledger files_disk printed root slug (codes "sodium.jar"))
      (mod_path-ne-tmp files_disk printed root slug (codes "sodium.jar"))

abbrev script : List Op
script = install_mod sodium ∷ toggle (codes "AANobbMI") ∷ delete (codes "AANobbMI") ∷ []

start-IsGood : IsGood (stored files_disk printed root slug file_of files_disk-IsDisk start)
unfolding path_eq text_eq default_ledger
start-IsGood = (tt, tt)

run_all-IsGood_example : IsGood (
    stored files_disk printed root slug file_of files_disk-IsDisk
      (run_all files_disk printed root slug script start))
run_all-IsGood_example =
    run_all-IsGood files_disk printed root slug file_of files_disk-IsDisk printed-IsToml script
      start start-IsGood

abbrev api : InstalledModRow
api = record sodium { mod_id = codes "P7dR8mSH"; file_name = codes "api.jar" }

remove_api : remove_row (codes "P7dR8mSH") (sodium ∷ api ∷ []) ≡ some (sodium ∷ [])
unfolding remove_row text_eq
remove_api = refl

two-Unique : Unique (sodium ∷ api ∷ [])
unfolding ids contains text_eq
two-Unique = (refl, (refl, tt))

-- A disk whose existence test fails.
abbrev untested_disk : Disk Files
untested_disk = record files_disk { try_exists = λ p s. err (codes "permission denied") }

-- On it the ledger of an instance with a mod is read as empty, and so an insertion replaces it.
read_as_empty :
    read_ledger untested_disk printed root slug installed ≡ (ok default_ledger, installed)
unfolding read_ledger
read_as_empty = refl
