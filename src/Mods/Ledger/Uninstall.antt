-- ===== src/Mods/Ledger/Uninstall.antt =====
-- Taking a mod out of the ledger, with its file or without.
use ichr.Base.{
  true, Option, none, some, List, [], ◌∷◌, ◌≡◌, ◌≢◌, refl, sym, ap, ◌∙◌, subst, ◌⊎◌, inl, inr, Text,
  codes, find, Result, ok, err, ok_or, Option-cases, Bool-cases,
}
use ichr.Disk.{FilePath, Disk, IsDisk, IoError, not_found, other, ◌>>=◌, lift}
use ichr.Mods.Types.{InstalledModRow, Ledger}
use ichr.Mods.Error.{ModrinthError, mod_not_found}
use ichr.Mods.Filter.{is_safe_mod_filename}
use ichr.Mods.Ledger.{
  Toml, has_id, remove_row, unsafe_name, remove_mod, uninstall, io_err, write_ledger,
}
use ichr.Mods.Ledger.Stored.{
  IsToml, ledger_file, loaded, HadLedger, HadLedger-stored, Wrote, kept, refused,
  write_ledger-Wrote, mod_path-ne-ledger,
}
use ichr.Mods.Ledger.Toggle.{at, holds, path, file_name_of, file_path-path, found-stored}
use ichr.Mods.Ledger.Operations.{read_cases}

removed-ne :
    (rows mods : List InstalledModRow) (id : Text) → remove_row id rows ≡ some mods → rows ≢ []
unfolding remove_row
removed-ne [] mods id h = cc
removed-ne (r ∷ rows) mods id h = λ e. cc

removal_cases :
    {S : Type 0} (r : Result IoError Unit × S)
    → (r ≡ (ok tt, r.1))
      ⊎ ((m : Text) × (r ≡ (err (not_found m), r.1)))
      ⊎ ((m : Text) × (r ≡ (err (other m), r.1)))
removal_cases (ok u, s) = inl refl
removal_cases (err (not_found m), s) = inr (inl (m, refl))
removal_cases (err (other m), s) = inr (inr (m, refl))

module _ {S : Type 0} (disk : Disk S) (toml : Toml) (data_dir : List Text) (slug : Text)
    (file : S → FilePath → Option Text) (laws : IsDisk disk file) (toml_laws : IsToml toml) where
  abbrev found_at : S → Result ModrinthError Ledger
  found_at s = at disk toml data_dir slug file laws toml_laws s

  abbrev left : S → Text → Option Text
  left s name = holds disk toml data_dir slug file laws toml_laws s name

  had-found :
      (s : S) (l : Ledger) (row : InstalledModRow) (id : Text)
      → HadLedger disk toml data_dir slug file laws s l
      → find (has_id id) l.mods ≡ some row
      → found_at s ≡ ok l
  had-found s l row id may found =
      found-stored disk toml data_dir slug file laws toml_laws s l row id may found

  -- A ledger from which a row is removed was in the file.
  removed-stored :
      (s : S) (l : Ledger) (mods : List InstalledModRow) (id : Text)
      → HadLedger disk toml data_dir slug file laws s l
      → remove_row id l.mods ≡ some mods
      → found_at s ≡ ok l
  removed-stored s l mods id may gone =
      HadLedger-stored disk toml data_dir slug file laws s l may (removed-ne l.mods mods id gone)

  -- What `remove_mod` leaves: the row is out of the ledger, or, with an error, all is as it was.
  pub data Removed (id name : Text) (s : S) : Result ModrinthError Unit × S → Type 0 where
    dropped :
        (l : Ledger) (mods : List InstalledModRow) (s' : S)
        → found_at s ≡ ok l
        → remove_row id l.mods ≡ some mods
        → found_at s' ≡ ok (record l { mods = mods })
        → left s' name ≡ left s name
        → Removed id name s (ok tt, s')
    stayed :
        (e : ModrinthError) (s' : S)
        → found_at s' ≡ found_at s
        → left s' name ≡ left s name
        → Removed id name s (err e, s')

  -- What `uninstall` leaves: the row is out of the ledger and the mod's file is gone, or, with an
  -- error, the ledger is as it was.
  pub data Uninstalled (id : Text) (s : S) : Result ModrinthError Unit × S → Type 0 where
    uninstalled :
        (l : Ledger) (row : InstalledModRow) (mods : List InstalledModRow) (s' : S)
        → found_at s ≡ ok l
        → find (has_id id) l.mods ≡ some row
        → is_safe_mod_filename row.file_name ≡ true
        → remove_row id l.mods ≡ some mods
        → found_at s' ≡ ok (record l { mods = mods })
        → left s' (file_name_of row row.enabled) ≡ none
        → Uninstalled id s (ok tt, s')
    listed : (e : ModrinthError) (s' : S) → found_at s' ≡ found_at s → Uninstalled id s (err e, s')

  Wrote-Removed :
      (id name : Text) (s : S) (l : Ledger) (mods : List InstalledModRow)
      (r : Result ModrinthError Unit × S)
      → found_at s ≡ ok l
      → remove_row id l.mods ≡ some mods
      → Wrote disk toml data_dir slug file laws toml_laws (record l { mods = mods }) name s r
      → Removed id name s r
  Wrote-Removed id name s l mods _ had gone (kept s' e same) = dropped l mods s' had gone e same
  Wrote-Removed id name s l mods _ had gone (refused x s' e same) = stayed x s' e same

  -- Taking a row out of the ledger is all or nothing: it leaves the ledger without the first row of
  -- that id, or an error and the ledger as it was. No file of a mod is touched.
  pub remove_mod-Removed :
      (id name : Text) (s : S) → Removed id name s (remove_mod disk toml data_dir slug id s)
  unfolding remove_mod
  remove_mod-Removed id name s = elim (read_cases disk toml data_dir slug file laws toml_laws s) [
    | inr (e, bad) ↦ subst (Removed id name s) (rw bad refl) (stayed e s refl refl)
    | inl (l, read, may) ↦ elim (Option-cases (remove_row id l.mods)) [
      | inl absent ↦
          subst (Removed id name s) (rw (read, absent) refl) (stayed (mod_not_found id) s refl refl)
      | inr (mods, gone) ↦ subst (Removed id name s) (rw (read, gone) refl) (
          Wrote-Removed id name s l mods _ (removed-stored s l mods id may gone) gone (
            write_ledger-Wrote disk toml data_dir slug file laws toml_laws
              (record l { mods = mods }) name s))
    ]
  ]

  abbrev removing : InstalledModRow → S → Result IoError Unit × S
  removing row s =
      disk.remove_file (path disk toml data_dir slug file laws toml_laws row row.enabled) s

  -- Behind the removal of the file.
  Wrote-Uninstalled :
      (id : Text) (s t : S) (l : Ledger) (row : InstalledModRow) (mods : List InstalledModRow)
      (r : Result ModrinthError Unit × S)
      → found_at s ≡ ok l
      → find (has_id id) l.mods ≡ some row
      → is_safe_mod_filename row.file_name ≡ true
      → remove_row id l.mods ≡ some mods
      → found_at t ≡ found_at s
      → left t (file_name_of row row.enabled) ≡ none
      → Wrote disk toml data_dir slug file laws toml_laws
          (record l { mods = mods })
          (file_name_of row row.enabled)
          t
          r
      → Uninstalled id s r
  Wrote-Uninstalled id s t l row mods _ had found safe gone same absent (kept s' e other_file) =
      uninstalled l row mods s' had found safe gone e (other_file ∙ absent)
  Wrote-Uninstalled id s t l row mods _ had found safe gone same absent
        (refused x s' e other_file) =
      listed x s' (e ∙ same)

  abbrev drop_row : Text → Ledger → S → Result ModrinthError Unit × S
  drop_row id l t =
      (do
        mods ← lift (ok_or (remove_row id l.mods) (mod_not_found id))
        write_ledger disk toml data_dir slug (record l { mods = mods }))
        t

  drop_row-Uninstalled :
      (id : Text) (s t : S) (l : Ledger) (row : InstalledModRow)
      → found_at s ≡ ok l
      → find (has_id id) l.mods ≡ some row
      → is_safe_mod_filename row.file_name ≡ true
      → found_at t ≡ found_at s
      → left t (file_name_of row row.enabled) ≡ none
      → Uninstalled id s (drop_row id l t)
  drop_row-Uninstalled id s t l row had found safe same absent =
      elim (Option-cases (remove_row id l.mods)) [
        | inl nothing ↦
            subst (Uninstalled id s) (rw nothing refl) (listed (mod_not_found id) t same)
        | inr (mods, gone) ↦ subst (Uninstalled id s) (rw gone refl) (
            Wrote-Uninstalled id s t l row mods _ had found safe gone same absent (
              write_ledger-Wrote disk toml data_dir slug file laws toml_laws
                (record l { mods = mods }) (file_name_of row row.enabled) t))
      ]

  removing-keeps : (s : S) (row : InstalledModRow) → found_at (removing row s).1 ≡ found_at s
  removing-keeps s row = ap (loaded disk toml data_dir slug) (
      laws.remove_keeps (path disk toml data_dir slug file laws toml_laws row row.enabled)
        (ledger_file disk toml data_dir slug) s
        (λ e. mod_path-ne-ledger disk toml data_dir slug (file_name_of row row.enabled) (sym e)))

  pub uninstall-Uninstalled :
      (id : Text) (s : S) → Uninstalled id s (uninstall disk toml data_dir slug id s)
  unfolding uninstall
  uninstall-Uninstalled id s = elim (read_cases disk toml data_dir slug file laws toml_laws s) [
    | inr (e, bad) ↦ subst (Uninstalled id s) (rw bad refl) (listed e s refl)
    | inl (l, read, may) ↦ elim (Option-cases (find (has_id id) l.mods)) [
      | inl absent ↦
          subst (Uninstalled id s) (rw (read, absent) refl) (listed (mod_not_found id) s refl)
      | inr (row, found) ↦ elim (Bool-cases (is_safe_mod_filename row.file_name)) [
        | inr denied ↦
            subst (Uninstalled id s) (rw (read, found, denied) refl)
              (listed (unsafe_name row.file_name) s refl)
        | inl safe ↦ elim (removal_cases (removing row s)) [
          | inl good ↦
              subst (Uninstalled id s)
                (rw
                  (
                    read,
                    found,
                    safe,
                    file_path-path disk toml data_dir slug file laws toml_laws row row.enabled,
                    good,
                  )
                  refl)
                (drop_row-Uninstalled id s (removing row s).1 l row (had-found s l row id may found)
                  found safe (removing-keeps s row) (laws.remove_gone _ s (removing row s).1 good))
          | inr (inl (m, missing)) ↦
              subst (Uninstalled id s)
                (rw
                  (
                    read,
                    found,
                    safe,
                    file_path-path disk toml data_dir slug file laws toml_laws row row.enabled,
                    missing,
                  )
                  refl)
                (drop_row-Uninstalled id s (removing row s).1 l row (had-found s l row id may found)
                  found safe (removing-keeps s row)
                  (laws.remove_absent _ s (removing row s).1 m missing))
          | inr (inr (m, failed)) ↦
              subst (Uninstalled id s)
                (rw
                  (
                    read,
                    found,
                    safe,
                    file_path-path disk toml data_dir slug file laws toml_laws row row.enabled,
                    failed,
                  )
                  refl)
                (listed (io_err (codes "remove_file: ") m) (removing row s).1
                  (removing-keeps s row))
        ]
      ]
    ]
  ]
