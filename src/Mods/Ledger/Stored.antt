-- ===== src/Mods/Ledger/Stored.antt =====
-- Reading and writing the ledger's file.
use ichr.Base.{
  Bool, Bool-cases, true, false, Option, none, some, List, [], ◌∷◌, ◌≡◌, ◌≢◌, refl, sym, ap, ◌⊎◌,
  ◌∙◌, subst, inl, inr, Text, codes, text_eq, length, length-append, Result, ok, err, Result-cases,
  arith,
}
use ichr.Disk.{FilePath, Disk, IsDisk, with_extension, before_last_dot, atomic_write, wrapped}
use ichr.Disk.Atomic.{tmp_of, Outcome, done, failed, atomic_write-Outcome}
use ichr.Mods.Types.{Ledger, default_ledger}
use ichr.Mods.Error.{ModrinthError}
use ichr.Mods.Ledger.{
  Toml, instance_dir, instance_mod_ledger, mod_path, parse, read_ledger, write_ledger, io_err,
  bad_ledger,
}

-- A printed ledger is not empty and reads back.
pub record IsToml (toml : Toml) : Type 0 where
  pub utf8 : (s : Text) → toml.from_utf8 (toml.as_bytes s) ≡ ok s
  pub reads_back : (l : Ledger) (s : Text) → toml.to_string_pretty l ≡ ok s → toml.from_str s ≡ ok l
  pub some_byte : (l : Ledger) (s : Text) → toml.to_string_pretty l ≡ ok s → toml.as_bytes s ≢ []

module _ {S : Type 0} (disk : Disk S) (toml : Toml) (data_dir : List Text) (slug : Text) where
  abbrev pub ledger_file : FilePath
  ledger_file = instance_mod_ledger data_dir slug

  abbrev pub mod_file : Text → FilePath
  mod_file name = mod_path disk toml data_dir slug name

  pub ledger-ne-tmp : ledger_file ≢ tmp_of ledger_file
  unfolding with_extension before_last_dot text_eq
  ledger-ne-tmp e =
      let b : true ≡ false =
        ap (λ (p : FilePath). text_eq p.name (codes "installed-mods.toml")) e in
      cc

  dirs_differ :
      (p : FilePath) (name : Text) → p.dir ≡ instance_dir data_dir slug → mod_file name ≢ p
  dirs_differ p name d e =
      let n = ap length (ap (λ (q : FilePath). q.dir) e ∙ d) in
      let m = length-append (instance_dir data_dir slug) (codes ".minecraft" ∷ codes "mods" ∷ []) in
      absurd (omega arith)

  pub mod_path-ne-ledger : (name : Text) → mod_file name ≢ ledger_file
  mod_path-ne-ledger name = dirs_differ ledger_file name refl

  pub mod_path-ne-tmp : (name : Text) → mod_file name ≢ tmp_of ledger_file
  unfolding with_extension
  mod_path-ne-tmp name = dirs_differ (tmp_of ledger_file) name refl

  -- The ledger that the file holds.
  abbrev pub loaded : Option Text → Result ModrinthError Ledger
  loaded none = ok default_ledger
  loaded (some raw) = parse disk toml data_dir slug raw

  module _ (file : S → FilePath → Option Text) (laws : IsDisk disk file) where
    abbrev pub stored : S → Result ModrinthError Ledger
    stored s = loaded (file s ledger_file)

    -- A ledger that `read_ledger` may answer: the one the file holds, where the existence test gave
    -- an answer, or the empty one, where that test failed.
    pub data HadLedger (s : S) : Ledger → Type 0 where
      held :
          (l : Ledger) (there : Bool)
          → disk.try_exists ledger_file s ≡ ok there
          → stored s ≡ ok l
          → HadLedger s l
      untested : (e : Text) → disk.try_exists ledger_file s ≡ err e → HadLedger s default_ledger

    -- What `read_ledger` answers: such a ledger or an error. It leaves the disk as it is.
    abbrev pub ReadLedger : S → Result ModrinthError Ledger × S → Type 0
    ReadLedger s r =
        ((l : Ledger) × (r ≡ (ok l, s)) × HadLedger s l) ⊎ ((e : ModrinthError) × (r ≡ (err e, s)))

    parsed-ReadLedger :
        (s : S) (raw : Text)
        → disk.try_exists ledger_file s ≡ ok true
        → file s ledger_file ≡ some raw
        → ReadLedger s (parse disk toml data_dir slug raw, s)
    parsed-ReadLedger s raw there content =
        elim (Result-cases (parse disk toml data_dir slug raw)) [
          | inl (l, good) ↦
              subst (λ r. ReadLedger s (r, s)) (sym good)
                (inl (l, refl, held l true there (ap loaded content ∙ good)))
          | inr (e, bad) ↦ subst (λ r. ReadLedger s (r, s)) (sym bad) (inr (e, refl))
        ]

    pub read_ledger-ReadLedger : (s : S) → ReadLedger s (read_ledger disk toml data_dir slug s)
    unfolding read_ledger
    read_ledger-ReadLedger s = elim (Result-cases (disk.try_exists ledger_file s)) [
      | inr (e, bad) ↦
          subst (ReadLedger s) (rw bad refl) (inl (default_ledger, refl, untested e bad))
      | inl (b, good) ↦ elim (Bool-cases b) [
        | inr absent ↦
            let answered = good ∙ ap ok absent in
            let nothing = laws.exists_false ledger_file s answered in
            subst (ReadLedger s) (rw answered refl)
              (inl (default_ledger, refl, held default_ledger false answered (ap loaded nothing)))
        | inl there ↦
            let answered = good ∙ ap ok there in
            elim (Result-cases (disk.read ledger_file s)) [
              | inr (e, bad) ↦
                  subst (ReadLedger s) (rw (answered, bad) refl)
                    (inr (io_err (codes "read: ") e, refl))
              | inl (raw, content) ↦
                  subst (ReadLedger s) (rw (answered, content) refl)
                    (parsed-ReadLedger s raw answered (laws.read_answer ledger_file s raw content))
            ]
      ]
    ]

    -- A ledger with a row in it was in the file.
    pub HadLedger-stored : (s : S) (l : Ledger) → HadLedger s l → l.mods ≢ [] → stored s ≡ ok l
    unfolding default_ledger
    HadLedger-stored s _ (held l there good had) n = had
    HadLedger-stored s _ (untested e bad) n = absurd (n refl)

    module _ (toml_laws : IsToml toml) where
      parse-bytes :
          (b : Text) (l : Ledger) (t : Text)
          → b ≡ toml.as_bytes t
          → toml.to_string_pretty l ≡ ok t
          → parse disk toml data_dir slug b ≡ ok l
      parse-bytes [] l t e printed = absurd (toml_laws.some_byte l t printed (sym e))
      parse-bytes (c ∷ raw) l t e printed =
          let u : toml.from_utf8 (c ∷ raw) ≡ ok t = ap toml.from_utf8 e ∙ toml_laws.utf8 t in
          rw (u, toml_laws.reads_back l t printed) refl

      -- What `write_ledger` leaves of the ledger and of a mod's file.
      pub data Wrote (l : Ledger) (name : Text) (s : S)
          : Result ModrinthError Unit × S → Type 0 where
        kept :
            (s' : S)
            → stored s' ≡ ok l
            → file s' (mod_file name) ≡ file s (mod_file name)
            → Wrote l name s (ok tt, s')
        refused :
            (e : ModrinthError) (s' : S)
            → stored s' ≡ stored s
            → file s' (mod_file name) ≡ file s (mod_file name)
            → Wrote l name s (err e, s')

      write_text-Wrote :
          (l : Ledger) (name t : Text) (s : S) (r : Result Text Unit × S)
          → toml.to_string_pretty l ≡ ok t
          → Outcome disk file laws ledger_file (mod_file name) (toml.as_bytes t) s r
          → Wrote l name s (wrapped (io_err (codes "ledger write: ")) r)
      write_text-Wrote l name t s _ printed (done s' there other) =
          kept s' (ap loaded there ∙ parse-bytes (toml.as_bytes t) l t refl printed) other
      write_text-Wrote l name t s _ printed (failed e s' same other) =
          refused (io_err (codes "ledger write: ") e) s' (ap loaded same) other

      pub write_ledger-Wrote :
          (l : Ledger) (name : Text) (s : S)
          → Wrote l name s (write_ledger disk toml data_dir slug l s)
      unfolding write_ledger
      write_ledger-Wrote l name s = elim (Result-cases (toml.to_string_pretty l)) [
        | inr (e, bad) ↦
            subst (Wrote l name s) (rw bad refl)
              (refused (bad_ledger (codes "serialize: ") e) s refl refl)
        | inl (t, printed) ↦ subst (Wrote l name s) (rw printed refl) (
            write_text-Wrote l name t s (atomic_write disk ledger_file (toml.as_bytes t) s) printed
              (atomic_write-Outcome disk file laws ledger_file (mod_file name) (toml.as_bytes t) s
                ledger-ne-tmp (mod_path-ne-ledger name) (mod_path-ne-tmp name)))
      ]
