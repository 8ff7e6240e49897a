-- ===== src/Mods/Ledger/Toggle.antt =====
-- Switching a mod on and off.
use ichr.Base.{
  Bool, true, false, not, Option, none, some, List, [], ◌∷◌, ◌≡◌, ◌≢◌, refl, sym, ap, ◌∙◌, subst,
  ◌⊎◌, inl, inr, Text, codes, find, Result, ok, err, Option-cases, Bool-cases, length,
  length-append, arith,
}
use ichr.Disk.{FilePath, Disk, IsDisk, and_then}
use ichr.Mods.Types.{InstalledModRow, Ledger}
use ichr.Mods.Error.{ModrinthError, mod_not_found}
use ichr.Mods.Filter.{is_safe_mod_filename, disabled_filename, disabled_suffix}
use ichr.Mods.Ledger.{
  Toml, has_id, flip_row, unsafe_name, file_path, toggle_enabled, io_err, write_ledger,
}
use ichr.Mods.Ledger.Stored.{
  IsToml, ledger_file, mod_file, loaded, HadLedger, HadLedger-stored, Wrote, kept, refused,
  write_ledger-Wrote, mod_path-ne-ledger,
}
use ichr.Mods.Ledger.Operations.{now, content, read_cases, Wrote-content}

-- The name of a mod's file, switched on or off.
abbrev pub file_name_of : InstalledModRow → Bool → Text
file_name_of row true = row.file_name
file_name_of row false = disabled_filename row.file_name

disabled-ne : (name : Text) → disabled_filename name ≢ name
unfolding disabled_filename
disabled-ne name e =
    let n = ap length e in let m = length-append name disabled_suffix in absurd (omega arith)

file_name_of-ne : (row : InstalledModRow) (b : Bool) → file_name_of row b ≢ file_name_of row (not b)
file_name_of-ne row true e = disabled-ne row.file_name (sym e)
file_name_of-ne row false e = disabled-ne row.file_name e

pub found-ne :
    (rows : List InstalledModRow) (row : InstalledModRow) (id : Text)
    → find (has_id id) rows ≡ some row
    → rows ≢ []
found-ne [] row id h = cc
found-ne (r ∷ rows) row id h = λ e. cc

call_cases :
    {S : Type 0} (r : Result Text Unit × S) → (r ≡ (ok tt, r.1)) ⊎ ((e : Text) × (r ≡ (err e, r.1)))
call_cases (ok u, s) = inl refl
call_cases (err e, s) = inr (e, refl)

module _ {S : Type 0} (disk : Disk S) (toml : Toml) (data_dir : List Text) (slug : Text)
    (file : S → FilePath → Option Text) (laws : IsDisk disk file) (toml_laws : IsToml toml) where
  abbrev pub at : S → Result ModrinthError Ledger
  at s = now disk toml data_dir slug file laws toml_laws s

  abbrev pub holds : S → Text → Option Text
  holds s name = content disk toml data_dir slug file laws toml_laws s name

  abbrev pub path : InstalledModRow → Bool → FilePath
  path row b = mod_file disk toml data_dir slug (file_name_of row b)

  pub file_path-path :
      (row : InstalledModRow) (b : Bool) → file_path disk toml data_dir slug row b ≡ path row b
  file_path-path row true = refl
  file_path-path row false = refl

  -- What a switch leaves. `switched`: the file has its other name and the row says so. `untouched`:
  -- an error, with the ledger and every file as they were. `half`: an error behind the renaming, so
  -- that the file has its other name and the ledger is as it was.
  pub data Toggled (id : Text) (s : S) : Result ModrinthError Bool × S → Type 0 where
    switched :
        (l : Ledger) (row : InstalledModRow) (s' : S)
        → at s ≡ ok l
        → find (has_id id) l.mods ≡ some row
        → is_safe_mod_filename row.file_name ≡ true
        → at s' ≡ ok (record l { mods = flip_row id l.mods })
        → holds s' (file_name_of row (not row.enabled)) ≡ holds s (file_name_of row row.enabled)
        → holds s' (file_name_of row row.enabled) ≡ none
        → Toggled id s (ok (not row.enabled), s')
    untouched :
        (e : ModrinthError) (s' : S)
        → at s' ≡ at s
        → ((name : Text) → holds s' name ≡ holds s name)
        → Toggled id s (err e, s')
    half :
        (e : ModrinthError) (row : InstalledModRow) (s' : S)
        → at s' ≡ at s
        → holds s' (file_name_of row (not row.enabled)) ≡ holds s (file_name_of row row.enabled)
        → holds s' (file_name_of row row.enabled) ≡ none
        → Toggled id s (err e, s')

  -- A ledger in which a row is found was in the file.
  pub found-stored :
      (s : S) (l : Ledger) (row : InstalledModRow) (id : Text)
      → HadLedger disk toml data_dir slug file laws s l
      → find (has_id id) l.mods ≡ some row
      → at s ≡ ok l
  found-stored s l row id may found =
      HadLedger-stored disk toml data_dir slug file laws s l may (found-ne l.mods row id found)

  abbrev answer : Bool → Result ModrinthError Unit × S → Result ModrinthError Bool × S
  answer b r = and_then r (λ u s. (ok b, s))

  -- Behind a renaming that succeeded.
  Wrote-Toggled :
      (id : Text) (s t : S) (l : Ledger) (row : InstalledModRow) (r : Result ModrinthError Unit × S)
      → at s ≡ ok l
      → find (has_id id) l.mods ≡ some row
      → is_safe_mod_filename row.file_name ≡ true
      → at t ≡ at s
      → holds r.1 (file_name_of row (not row.enabled)) ≡ holds s (file_name_of row row.enabled)
      → holds r.1 (file_name_of row row.enabled) ≡ none
      → Wrote disk toml data_dir slug file laws toml_laws
          (record l { mods = flip_row id l.mods })
          (file_name_of row row.enabled)
          t
          r
      → Toggled id s (answer (not row.enabled) r)
  Wrote-Toggled id s t l row _ had found safe same there gone (kept s' e other) =
      switched l row s' had found safe e there gone
  Wrote-Toggled id s t l row _ had found safe same there gone (refused x s' e other) =
      half x row s' (e ∙ same) there gone

  abbrev renaming : InstalledModRow → S → Result Text Unit × S
  renaming row s = disk.rename (path row row.enabled) (path row (not row.enabled)) s

  abbrev written : Text → Ledger → S → Result ModrinthError Unit × S
  written id l t = write_ledger disk toml data_dir slug (record l { mods = flip_row id l.mods }) t

  renamed-Toggled :
      (id : Text) (s : S) (l : Ledger) (row : InstalledModRow)
      → at s ≡ ok l
      → find (has_id id) l.mods ≡ some row
      → is_safe_mod_filename row.file_name ≡ true
      → renaming row s ≡ (ok tt, (renaming row s).1)
      → Toggled id s (answer (not row.enabled) (written id l (renaming row s).1))
  renamed-Toggled id s l row had found safe good =
      let t = (renaming row s).1 in
      let from = file_name_of row row.enabled in
      let to = file_name_of row (not row.enabled) in
      let wrote = λ (name : Text).
        write_ledger-Wrote disk toml data_dir slug file laws toml_laws
          (record l { mods = flip_row id l.mods }) name t in
      let differ : path row row.enabled ≢ path row (not row.enabled) =
        λ e. file_name_of-ne row row.enabled (ap (λ (p : FilePath). p.name) e) in
      let ledger_ne : (name : Text)
          → ledger_file disk toml data_dir slug ≢ mod_file disk toml data_dir slug name =
        λ name e. mod_path-ne-ledger disk toml data_dir slug name (sym e) in
      Wrote-Toggled id s t l row (written id l t) had found safe
        (ap (loaded disk toml data_dir slug) (
          laws.rename_keeps (path row row.enabled) (path row (not row.enabled))
            (ledger_file disk toml data_dir slug) s (ledger_ne from) (ledger_ne to)))
        (Wrote-content disk toml data_dir slug file laws toml_laws to (wrote to)
          ∙ laws.rename_there (path row row.enabled) (path row (not row.enabled)) s t good)
        (Wrote-content disk toml data_dir slug file laws toml_laws from (wrote from)
          ∙ laws.rename_gone (path row row.enabled) (path row (not row.enabled)) s t differ good)
        (wrote from)

  pub toggle_enabled-Toggled :
      (id : Text) (s : S) → Toggled id s (toggle_enabled disk toml data_dir slug id s)
  unfolding toggle_enabled
  toggle_enabled-Toggled id s = elim (read_cases disk toml data_dir slug file laws toml_laws s) [
    | inr (e, bad) ↦ subst (Toggled id s) (rw bad refl) (untouched e s refl (λ name. refl))
    | inl (l, read, may) ↦ elim (Option-cases (find (has_id id) l.mods)) [
      | inl absent ↦
          subst (Toggled id s) (rw (read, absent) refl)
            (untouched (mod_not_found id) s refl (λ name. refl))
      | inr (row, found) ↦ elim (Bool-cases (is_safe_mod_filename row.file_name)) [
        | inr denied ↦
            subst (Toggled id s) (rw (read, found, denied) refl)
              (untouched (unsafe_name row.file_name) s refl (λ name. refl))
        | inl safe ↦ elim (call_cases (renaming row s)) [
          | inr (e, bad) ↦
              subst (Toggled id s)
                (rw
                  (
                    read,
                    found,
                    safe,
                    file_path-path row row.enabled,
                    file_path-path row (not row.enabled),
                    bad,
                  )
                  refl)
                (untouched (io_err (codes "rename: ") e) (renaming row s).1
                  (ap (loaded disk toml data_dir slug) (laws.rename_fails _ _ _ s _ e bad))
                  (λ name. laws.rename_fails _ _ _ s _ e bad))
          | inl good ↦
              subst (Toggled id s)
                (rw
                  (
                    read,
                    found,
                    safe,
                    file_path-path row row.enabled,
                    file_path-path row (not row.enabled),
                    good,
                  )
                  refl)
                (renamed-Toggled id s l row (found-stored s l row id may found) found safe good)
        ]
      ]
    ]
  ]
