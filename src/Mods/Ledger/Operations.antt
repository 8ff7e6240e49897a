-- ===== src/Mods/Ledger/Operations.antt =====
-- What each operation on the ledger leaves of the ledger and of the mods' files.
use ichr.Base.{
  Bool, true, Option, List, ◌≡◌, refl, subst, inl, inr, Text, Result, ok, err, Bool-cases,
}
use ichr.Disk.{FilePath, Disk, IsDisk}
use ichr.Mods.Types.{InstalledModRow, Ledger}
use ichr.Mods.Error.{ModrinthError}
use ichr.Mods.Filter.{is_safe_mod_filename, is_safe_pack_filename}
use ichr.Mods.Ledger.{Toml, read_ledger, upsert_row, unsafe_name, upsert, upsert_mod, upsert_pack}
use ichr.Mods.Ledger.Stored.{
  IsToml, mod_file, stored, HadLedger, ReadLedger, read_ledger-ReadLedger, Wrote, kept, refused,
  write_ledger-Wrote,
}

module _ {S : Type 0} (disk : Disk S) (toml : Toml) (data_dir : List Text) (slug : Text)
    (file : S → FilePath → Option Text) (laws : IsDisk disk file) (toml_laws : IsToml toml) where
  abbrev pub now : S → Result ModrinthError Ledger
  now s = stored disk toml data_dir slug file laws s

  abbrev pub content : S → Text → Option Text
  content s name = file s (mod_file disk toml data_dir slug name)

  pub Wrote-content :
      {l : Ledger} {s : S} {r : Result ModrinthError Unit × S} (name : Text)
      → Wrote disk toml data_dir slug file laws toml_laws l name s r
      → content r.1 name ≡ content s name
  Wrote-content name (kept s' e same) = same
  Wrote-content name (refused x s' e same) = same

  abbrev pub Had : S → Ledger → Type 0
  Had s l = HadLedger disk toml data_dir slug file laws s l

  abbrev pub read_cases :
      (s : S)
      → ReadLedger disk toml data_dir slug file laws s (read_ledger disk toml data_dir slug s)
  read_cases s = read_ledger-ReadLedger disk toml data_dir slug file laws s

  -- What an insertion leaves: the row in the ledger that was had, or, with an error, the ledger as it
  -- was; the file of a mod is as it was.
  pub data Upserted (is_safe : Text → Bool) (row : InstalledModRow) (name : Text) (s : S)
      : Result ModrinthError Unit × S → Type 0 where
    inserted :
        (l : Ledger) (s' : S)
        → is_safe row.file_name ≡ true
        → Had s l
        → now s' ≡ ok (record l { mods = upsert_row row l.mods })
        → content s' name ≡ content s name
        → Upserted is_safe row name s (ok tt, s')
    unchanged :
        (e : ModrinthError) (s' : S)
        → now s' ≡ now s
        → content s' name ≡ content s name
        → Upserted is_safe row name s (err e, s')

  Wrote-Upserted :
      (is_safe : Text → Bool) (row : InstalledModRow) (name : Text) (s : S) (l : Ledger)
      (r : Result ModrinthError Unit × S)
      → is_safe row.file_name ≡ true
      → Had s l
      → Wrote disk toml data_dir slug file laws toml_laws
          (record l { mods = upsert_row row l.mods })
          name
          s
          r
      → Upserted is_safe row name s r
  Wrote-Upserted is_safe row name s l _ safe had (kept s' e same) = inserted l s' safe had e same
  Wrote-Upserted is_safe row name s l _ safe had (refused x s' e same) = unchanged x s' e same

  upsert-Upserted :
      (is_safe : Text → Bool) (row : InstalledModRow) (name : Text) (s : S)
      → Upserted is_safe row name s (upsert disk toml data_dir slug is_safe row s)
  unfolding upsert
  upsert-Upserted is_safe row name s = elim (Bool-cases (is_safe row.file_name)) [
    | inr denied ↦
        subst (Upserted is_safe row name s) (rw denied refl)
          (unchanged (unsafe_name row.file_name) s refl refl)
    | inl safe ↦ elim (read_cases s) [
      | inr (e, bad) ↦
          subst (Upserted is_safe row name s) (rw (safe, bad) refl) (unchanged e s refl refl)
      | inl (l, read, had) ↦ subst (Upserted is_safe row name s) (rw (safe, read) refl) (
          Wrote-Upserted is_safe row name s l _ safe had (
            write_ledger-Wrote disk toml data_dir slug file laws toml_laws
              (record l { mods = upsert_row row l.mods }) name s))
    ]
  ]

  pub upsert_mod-Upserted :
      (row : InstalledModRow) (name : Text) (s : S)
      → Upserted is_safe_mod_filename row name s (upsert_mod disk toml data_dir slug row s)
        × Upserted is_safe_pack_filename row name s (upsert_pack disk toml data_dir slug row s)
  unfolding upsert_mod upsert_pack
  upsert_mod-Upserted row name s = (
    upsert-Upserted is_safe_mod_filename row name s,
    upsert-Upserted is_safe_pack_filename row name s,
  )
