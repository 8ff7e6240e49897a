-- ===== src/Tui/Marks.antt =====
-- The flag of src/tui/app.rs that tells an installed mod among the results of a search.
use ichr.Base.{
  Option, some, Bool, true, not, ◌||◌, Text, text_eq, text_eq_iff, text_eq_refl, List, [], ◌∷◌, map,
  all, ◌≡◌, refl, arith, if◌then◌else◌, contains, lookup, insert, subst, sym, Bool-cases, inl, inr,
  false, All, ap, ◌∙◌, Option-cases, lookup-erase_other,
}
use ichr.Mods.Hits.{ModrinthSearchHit}
use ichr.Tui.View.{ActiveView, mod_browser}
use ichr.Tui.State.{AppState}
use ichr.Tui.Action.{
  Action, on_mods, installed_mods_loaded, mod_uninstalled, mod_installed, mod_browser_search_loaded,
}
use ichr.Tui.Update.Mods.{stamped, mod_browser_search_loaded_arm}
use ichr.Tui.Update.ModLists.{dropped_ids}
use ichr.Tui.Update.ModInstalls.{with_id, without_id, ids_or_empty}
use ichr.Tui.Update.Step.{update, run}
use ichr.Tui.Runs.{run-kept_if}

abbrev pub is_marked : Text → ModrinthSearchHit → Bool
is_marked id hit = not (text_eq hit.project_id id) || hit.already_installed

-- In a browser of the instance, every result of the project is flagged as installed.
abbrev pub marks : Text → Text → ActiveView → Bool
marks slug id (mod_browser b) = if text_eq b.slug slug then all (is_marked id) b.results else true
marks slug id view = true

contains-with_id : (id : Text) (ids : List Text) → contains (with_id id ids) id ≡ true
unfolding contains
contains-with_id id ids = grind (arith, text_eq_refl id)

marked-stamped :
    (id : Text) (ids : List Text) (hit : ModrinthSearchHit)
    → contains ids id ≡ true
    → is_marked id (stamped ids hit) ≡ true
marked-stamped id ids hit h = elim (Bool-cases (text_eq hit.project_id id)) [
  | inl e ↦
      let held : contains ids hit.project_id ≡ true =
        subst (λ t. contains ids t ≡ true) (sym ((text_eq_iff hit.project_id id).0 e)) h in
      ground (arith, held)
  | inr e ↦ ground (arith, e)
]

all-stamped :
    (id : Text) (ids : List Text) (hits : List ModrinthSearchHit)
    → contains ids id ≡ true
    → all (is_marked id) (map (stamped ids) hits) ≡ true
all-stamped id ids [] h = refl
all-stamped id ids (hit ∷ hits) h =
    grind (arith, marked-stamped id ids hit h, all-stamped id ids hits h)

lookup-insert :
    {V : Type 0} (k q : Text) (v : V) (m : List (Text × V))
    → lookup q (insert k v m) ≡ (if text_eq k q then some v else lookup q m)
unfolding lookup
lookup-insert k q v m = grind (arith, lookup-erase_other k q m)

contains-kept_with_id :
    (i id : Text) (ids : List Text) → contains ids id ≡ true → contains (with_id i ids) id ≡ true
unfolding contains
contains-kept_with_id i id ids h = grind arith

contains-without_id :
    (i id : Text) (ids : List Text)
    → text_eq i id ≡ false
    → contains ids id ≡ true
    → contains (without_id i ids) id ≡ true
unfolding contains
contains-without_id i id [] n h = cc
contains-without_id i id (x ∷ ids) n h = elim (Bool-cases (text_eq x i)) [
  | inr e ↦ rw e (grind (arith, contains-without_id i id ids n))
  | inl e ↦
      let other : text_eq x id ≡ false =
        subst (λ t. text_eq t id ≡ false) (sym ((text_eq_iff x i).0 e)) n in
      rw e (contains-without_id i id ids n (grind arith))
]

abbrev known_in : Text → Text → List (Text × List Text) → Bool
known_in slug id m = contains (ids_or_empty (lookup slug m)) id

-- The state's own record of what is installed has the project.
abbrev pub is_known : Text → Text → AppState → Bool
is_known slug id t = known_in slug id t.installed_mod_project_ids

marks-search_loaded :
    (t : AppState) (slug id : Text) (hits : List ModrinthSearchHit) (view : ActiveView)
    → is_known slug id t ≡ true
    → marks slug id (mod_browser_search_loaded_arm t slug hits view).0 ≡ true
unfolding contains
marks-search_loaded t slug id hits (mod_browser b) h =
    elim (Option-cases (lookup slug t.installed_mod_project_ids)) [
      | inl none_there ↦ absurd (ground arith)
      | inr (ids, e) ↦
          let k : contains ids id ≡ true = subst (λ o. contains (ids_or_empty o) id ≡ true) e h in
          grind (arith, all-stamped id ids hits k, e)
    ]
marks-search_loaded t slug id hits view h = refl

-- Whether an action leaves the project among the installed ones: a list of the instance's mods must
-- have it, and a mod taken out must be another or another instance's.
abbrev pub keeps : Text → Text → Action → Bool
keeps slug id (on_mods (installed_mods_loaded target rows)) =
    not (text_eq target slug) || contains (map (λ r. r.mod_id) rows) id
keeps slug id (on_mods (mod_uninstalled target mod_id)) =
    not (text_eq target slug) || not (text_eq mod_id id)
keeps slug id _ = true

abbrev writes_ids : Action → Bool
writes_ids (on_mods (installed_mods_loaded target rows)) = true
writes_ids (on_mods (mod_uninstalled target mod_id)) = true
writes_ids (on_mods (mod_installed target project_id)) = true
writes_ids _ = false

ids-update :
    (home : Option Text) (s : AppState) (a : Action)
    → writes_ids a ≡ false
    → (update home s a).0.installed_mod_project_ids ≡ s.installed_mod_project_ids
unfolding update
ids-update home s a h = grind arith

insert-known :
    (target slug id : Text) (ids : List Text) (m : List (Text × List Text))
    → (text_eq target slug ≡ true → contains ids id ≡ true)
    → known_in slug id m ≡ true
    → known_in slug id (insert target ids m) ≡ true
insert-known target slug id ids m there h = elim (Bool-cases (text_eq target slug)) [
  | inl e ↦ rw (lookup-insert target slug ids m) (rw e (there e))
  | inr e ↦ rw (lookup-insert target slug ids m) (rw e h)
]

-- The set of the instance under its name, where the two names are equal.
known-target :
    (target slug id : Text) (m : List (Text × List Text))
    → text_eq target slug ≡ true
    → known_in slug id m ≡ true
    → known_in target id m ≡ true
known-target target slug id m e h =
    subst (λ t. known_in t id m ≡ true) (sym ((text_eq_iff target slug).0 e)) h

with_id-known :
    (target slug id p : Text) (m : List (Text × List Text))
    → known_in slug id m ≡ true
    → known_in slug id (insert target (with_id p (ids_or_empty (lookup target m))) m) ≡ true
with_id-known target slug id p m h =
    insert-known target slug id (with_id p (ids_or_empty (lookup target m))) m
      (λ e.
        contains-kept_with_id p id (ids_or_empty (lookup target m))
          (known-target target slug id m e h))
      h

dropped-known :
    (target slug id p : Text) (m : List (Text × List Text))
    → (not (text_eq target slug) || not (text_eq p id)) ≡ true
    → known_in slug id m ≡ true
    → known_in slug id (dropped_ids target p m) ≡ true
dropped-known target slug id p m k h = elim (Option-cases (lookup target m)) [
  | inl absent ↦ rw (absent, dropped_ids) h
  | inr (ids, there) ↦
      rw (there, dropped_ids)
        (insert-known target slug id (without_id p ids) m
          (λ e. contains-without_id p id ids (ground (arith, e, k)) (
            subst (λ o. contains (ids_or_empty o) id ≡ true) there
              (known-target target slug id m e h)))
          h)
]

is_known-update :
    (home : Option Text) (slug id : Text) (s : AppState) (a : Action)
    → keeps slug id a ≡ true
    → is_known slug id s ≡ true
    → is_known slug id (update home s a).0 ≡ true
unfolding update contains
is_known-update home slug id s (on_mods (installed_mods_loaded target rows)) k h =
    insert-known target slug id (map (λ r. r.mod_id) rows) s.installed_mod_project_ids
      (λ e. ground (arith, e, k)) h
is_known-update home slug id s (on_mods (mod_uninstalled target mod_id)) k h =
    dropped-known target slug id mod_id s.installed_mod_project_ids k h
is_known-update home slug id s (on_mods (mod_installed target project_id)) k h =
    with_id-known target slug id project_id s.installed_mod_project_ids h
is_known-update home slug id s a k h =
    ap (λ m. contains (ids_or_empty (lookup slug m)) id) (ids-update home s a refl) ∙ h

abbrev pub installed : Option Text → AppState → Text → Text → AppState
installed home s slug id = (update home s (on_mods (mod_installed slug id))).0

installed-is_known :
    (home : Option Text) (s : AppState) (slug id : Text)
    → is_known slug id (installed home s slug id) ≡ true
unfolding update
installed-is_known home s slug id =
    let m = s.installed_mod_project_ids in
    let ids = with_id id (ids_or_empty (lookup slug m)) in
    rw (lookup-insert slug slug ids m)
      (rw (text_eq_refl slug) (contains-with_id id (ids_or_empty (lookup slug m))))

-- After a mod was installed, and after whatever actions follow that neither load a list of the
-- instance's mods without it nor take it out, a search that is answered flags each of its results
-- that is of the mod's project, in a browser open on the instance.
pub marks-mod_installed :
    (home : Option Text) (s : AppState) (slug id : Text) (rest : List Action)
    (hits : List ModrinthSearchHit)
    → All (λ a. keeps slug id a ≡ true) rest
    → let t = (run home (installed home s slug id) rest).0 in
      marks slug id (update home t (on_mods (mod_browser_search_loaded slug hits))).0.active_view
      ≡ true
unfolding update
marks-mod_installed home s slug id rest hits h =
    let t = (run home (installed home s slug id) rest).0 in
    marks-search_loaded t slug id hits t.active_view (
      run-kept_if home (λ u. is_known slug id u ≡ true) (λ a. keeps slug id a ≡ true)
        (is_known-update home slug id) (installed home s slug id) rest h
        (installed-is_known home s slug id))
