-- ===== src/Mods/Ledger/Invariant.antt =====
-- The invariant of the ledger over any sequence of operations: no id twice, and only file names that
-- passed the test of their kind.
use ichr.Base.{
  Bool, true, Option, List, [], ◌∷◌, ◌≡◌, sym, subst, ◌⊎◌, inl, inr, Text, Result, ok, err, All,
}
use ichr.Disk.{FilePath, Disk, IsDisk}
use ichr.Mods.Types.{InstalledModRow, Ledger, default_ledger}
use ichr.Mods.Error.{ModrinthError}
use ichr.Mods.Filter.{is_safe_mod_filename, is_safe_pack_filename}
use ichr.Mods.Ledger.{Toml, upsert_mod, upsert_pack, remove_mod, toggle_enabled, uninstall}
use ichr.Mods.Ledger.Rows.{
  Unique, upsert_row-Unique, upsert_row-All, remove_row-Unique, remove_row-All, flip_row-Unique,
  flip_row-All,
}
use ichr.Mods.Ledger.Stored.{IsToml, stored, HadLedger, held, untested}
use ichr.Mods.Ledger.Operations.{Upserted, inserted, unchanged, upsert_mod-Upserted}
use ichr.Mods.Ledger.Toggle.{Toggled, switched, untouched, half, toggle_enabled-Toggled}
use ichr.Mods.Ledger.Uninstall.{
  Removed, dropped, stayed, remove_mod-Removed, Uninstalled, uninstalled, listed,
  uninstall-Uninstalled,
}

abbrev pub IsNamed : InstalledModRow → Type 0
IsNamed row =
    (is_safe_mod_filename row.file_name ≡ true) ⊎ (is_safe_pack_filename row.file_name ≡ true)

abbrev pub IsGood : Result ModrinthError Ledger → Type 0
IsGood (ok l) = Unique l.mods × All IsNamed l.mods
IsGood (err e) = ⊥

-- The operations, with their arguments.
pub data Op : Type 0 where
  install_mod : InstalledModRow → Op
  install_pack : InstalledModRow → Op
  drop : (mod_id : Text) → Op
  toggle : (mod_id : Text) → Op
  delete : (mod_id : Text) → Op

module _ {S : Type 0} (disk : Disk S) (toml : Toml) (data_dir : List Text) (slug : Text) where
  -- The state behind an operation, whether it succeeds or not.
  unfoldable pub run : Op → S → S
  run (install_mod row) s = (upsert_mod disk toml data_dir slug row s).1
  run (install_pack row) s = (upsert_pack disk toml data_dir slug row s).1
  run (drop mod_id) s = (remove_mod disk toml data_dir slug mod_id s).1
  run (toggle mod_id) s = (toggle_enabled disk toml data_dir slug mod_id s).1
  run (delete mod_id) s = (uninstall disk toml data_dir slug mod_id s).1

  unfoldable pub run_all : List Op → S → S
  unfolding run
  run_all [] s = s
  run_all (o ∷ os) s = run_all os (run o s)

module _ {S : Type 0} (disk : Disk S) (toml : Toml) (data_dir : List Text) (slug : Text)
    (file : S → FilePath → Option Text) (laws : IsDisk disk file) (toml_laws : IsToml toml) where
  abbrev Good : S → Type 0
  Good s = IsGood (stored disk toml data_dir slug file laws s)

  Had-IsGood :
      {s : S} {l : Ledger}
      → HadLedger disk toml data_dir slug file laws s l
      → Good s
      → IsGood (ok l)
  unfolding default_ledger
  Had-IsGood (held l there answered had) g = subst IsGood had g
  Had-IsGood (untested e bad) g = (tt, tt)

  Upserted-IsGood :
      {is_safe : Text → Bool} {row : InstalledModRow} {name : Text} {s : S}
      {r : Result ModrinthError Unit × S}
      → (is_safe row.file_name ≡ true → IsNamed row)
      → Upserted disk toml data_dir slug file laws toml_laws is_safe row name s r
      → Good s
      → Good r.1
  Upserted-IsGood {row} named (inserted l s' safe had e same) g =
      let (u, a) = Had-IsGood had g in
      subst IsGood (sym e)
        (upsert_row-Unique row l.mods u, upsert_row-All IsNamed row l.mods (named safe) a)
  Upserted-IsGood named (unchanged x s' e same) g = subst IsGood (sym e) g

  Removed-IsGood :
      {id name : Text} {s : S} {r : Result ModrinthError Unit × S}
      → Removed disk toml data_dir slug file laws toml_laws id name s r
      → Good s
      → Good r.1
  Removed-IsGood {id} (dropped l mods s' had gone e same) g =
      let (u, a) = subst IsGood had g in
      subst IsGood (sym e)
        (remove_row-Unique id l.mods mods gone u, remove_row-All IsNamed id l.mods mods gone a)
  Removed-IsGood (stayed x s' e same) g = subst IsGood (sym e) g

  Toggled-IsGood :
      {id : Text} {s : S} {r : Result ModrinthError Bool × S}
      → Toggled disk toml data_dir slug file laws toml_laws id s r
      → Good s
      → Good r.1
  Toggled-IsGood {id} (switched l row s' had found safe e there gone) g =
      let (u, a) = subst IsGood had g in
      subst IsGood (sym e)
        (flip_row-Unique id l.mods u, flip_row-All IsNamed id l.mods (λ m n. n) a)
  Toggled-IsGood (untouched x s' e files) g = subst IsGood (sym e) g
  Toggled-IsGood (half x row s' e there gone) g = subst IsGood (sym e) g

  Uninstalled-IsGood :
      {id : Text} {s : S} {r : Result ModrinthError Unit × S}
      → Uninstalled disk toml data_dir slug file laws toml_laws id s r
      → Good s
      → Good r.1
  Uninstalled-IsGood {id} (uninstalled l row mods s' had found safe gone e absent) g =
      let (u, a) = subst IsGood had g in
      subst IsGood (sym e)
        (remove_row-Unique id l.mods mods gone u, remove_row-All IsNamed id l.mods mods gone a)
  Uninstalled-IsGood (listed x s' e) g = subst IsGood (sym e) g

  run-IsGood : (o : Op) (s : S) → Good s → Good (run disk toml data_dir slug o s)
  unfolding run
  run-IsGood (install_mod row) s g =
      Upserted-IsGood (λ safe. inl safe)
        (upsert_mod-Upserted disk toml data_dir slug file laws toml_laws row [] s).0 g
  run-IsGood (install_pack row) s g =
      Upserted-IsGood (λ safe. inr safe)
        (upsert_mod-Upserted disk toml data_dir slug file laws toml_laws row [] s).1 g
  run-IsGood (drop id) s g =
      Removed-IsGood (remove_mod-Removed disk toml data_dir slug file laws toml_laws id [] s) g
  run-IsGood (toggle id) s g =
      Toggled-IsGood (toggle_enabled-Toggled disk toml data_dir slug file laws toml_laws id s) g
  run-IsGood (delete id) s g =
      Uninstalled-IsGood (uninstall-Uninstalled disk toml data_dir slug file laws toml_laws id s) g

  -- Over any sequence of insertions, removals, switches and uninstallations, whether each succeeds
  -- or fails, a ledger that can be read, without an id twice and with only file names that passed the
  -- test of a mod or of a pack, stays such a ledger.
  pub run_all-IsGood :
      (os : List Op) (s : S)
      → IsGood (stored disk toml data_dir slug file laws s)
      → IsGood (stored disk toml data_dir slug file laws (run_all disk toml data_dir slug os s))
  unfolding run_all
  run_all-IsGood [] s g = g
  run_all-IsGood (o ∷ os) s g =
      run_all-IsGood os (run disk toml data_dir slug o s) (run-IsGood o s g)
