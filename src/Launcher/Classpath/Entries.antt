-- ===== src/Launcher/Classpath/Entries.antt =====
-- The entries that a class path is read back into.
use ichr.Base.{
  ℕ, Bool, false, not, ◌&&◌, Option, none, some, List, [], ◌∷◌, ◌++◌, filter, ◌≡◌, refl, ap, ◌∙◌,
  sym, inl, inr, Text, has, join, split, split-append, split-none, Result, ok, All, All-append,
  Bool-cases,
}
use ichr.Domain.Platform.{OsName}
use ichr.Error.{AppError}
use ichr.Mojang.Types.{Library, LibraryArtifact, ResolvedVersion}
use ichr.Mojang.Rules.{RuleContext, evaluate_rules}
use ichr.Mojang.Natives.{needs_native_extraction}
use ichr.Launcher.Classpath.{
  classpath_separator, version_jar, artifact_entry, library_entries, build_classpath,
}

ok_eq : {a b : Text} → ◌≡◌ {A = Result AppError Text} (ok a) (ok b) → a ≡ b
ok_eq e = cc

-- The library goes on the class path.
unfoldable pub is_on_classpath : RuleContext → Library → Bool
is_on_classpath ctx lib = evaluate_rules lib.rules ctx && not (needs_native_extraction lib)

-- The paths of the artifacts of a list of libraries.
unfoldable pub artifact_paths : Text → List Library → List Text
artifact_paths data_dir [] = []
artifact_paths data_dir (lib ∷ libs) =
    artifact_entry data_dir lib.downloads.artifact (artifact_paths data_dir libs)

artifact_entry-append :
    (data_dir : Text) (a : Option LibraryArtifact) (xs ys : List Text)
    → artifact_entry data_dir a (xs ++ ys) ≡ artifact_entry data_dir a xs ++ ys
artifact_entry-append data_dir none xs ys = refl
artifact_entry-append data_dir (some a) xs ys = refl

library_entries-filter :
    (ctx : RuleContext) (data_dir : Text) (libs : List Library) (rest : List Text)
    → library_entries ctx data_dir libs rest
      ≡ artifact_paths data_dir (filter (is_on_classpath ctx) libs) ++ rest
unfolding library_entries artifact_paths is_on_classpath
library_entries-filter ctx data_dir [] rest = refl
library_entries-filter ctx data_dir (lib ∷ libs) rest =
    let more = library_entries-filter ctx data_dir libs rest in
    let entry =
      artifact_entry-append data_dir lib.downloads.artifact
        (artifact_paths data_dir (filter (is_on_classpath ctx) libs)) rest in
    elim (Bool-cases (evaluate_rules lib.rules ctx)) [
      | inr out ↦ rw out more
      | inl on ↦ elim (Bool-cases (needs_native_extraction lib)) [
        | inl native ↦ rw (on, native) more
        | inr plain ↦
            rw (on, plain) (ap (artifact_entry data_dir lib.downloads.artifact) more ∙ entry)
      ]
    ]

-- Entries without the separator are read back from the text that joins them.
split-join :
    (sep : ℕ) (x : Text) (xs : List Text)
    → All (λ t. has sep t ≡ false) (x ∷ xs)
    → split sep (join (sep ∷ []) (x ∷ xs)) ≡ x ∷ xs
unfolding join
split-join sep x [] h = split-none sep x h.0
split-join sep x (y ∷ xs) h =
    split-append sep x (join (sep ∷ []) (y ∷ xs))
    ∙ ap (λ r. r ++ split sep (join (sep ∷ []) (y ∷ xs))) (split-none sep x h.0)
    ∙ ap (λ r. x ∷ r) (split-join sep y xs h.1)

split-join-append :
    (sep : ℕ) (xs : List Text) (y : Text)
    → All (λ t. has sep t ≡ false) xs
    → has sep y ≡ false
    → split sep (join (sep ∷ []) (xs ++ y ∷ [])) ≡ xs ++ y ∷ []
split-join-append sep [] y h k = split-join sep y [] (k, tt)
split-join-append sep (x ∷ xs) y h k =
    split-join sep x (xs ++ y ∷ [])
      (h.0, All-append (λ t. has sep t ≡ false) xs (y ∷ []) h.1 (k, tt))

-- The class path, read back at the host's separator, is the paths of the artifacts of just those
-- libraries that the rules allow and that are not extracted as natives, in their order, and last the
-- jar of the game version at the root of the chain; none of these paths is to hold the separator.
pub split-build_classpath :
    (host : OsName) (version : ResolvedVersion) (ctx : RuleContext) (data_dir cp : Text)
    → All
        (λ t. has (classpath_separator host) t ≡ false)
        (artifact_paths data_dir (filter (is_on_classpath ctx) version.libraries))
    → has (classpath_separator host) (version_jar data_dir version.root_id) ≡ false
    → build_classpath host version ctx data_dir ≡ ok cp
    → split (classpath_separator host) cp
      ≡ artifact_paths data_dir (filter (is_on_classpath ctx) version.libraries)
        ++ version_jar data_dir version.root_id ∷ []
unfolding build_classpath
split-build_classpath host version ctx data_dir cp free jar_free h =
    let sep = classpath_separator host in
    let jar = version_jar data_dir version.root_id in
    let entries = library_entries ctx data_dir version.libraries (jar ∷ []) in
    let listed = artifact_paths data_dir (filter (is_on_classpath ctx) version.libraries) in
    let joined : join (sep ∷ []) entries ≡ cp = ok_eq h in
    ap (split sep) (sym joined)
    ∙ ap (λ x. split sep (join (sep ∷ []) x))
        (library_entries-filter ctx data_dir version.libraries (jar ∷ []))
    ∙ split-join-append sep listed jar free jar_free
