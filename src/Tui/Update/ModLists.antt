-- ===== src/Tui/Update/ModLists.antt =====
-- The arms of `update` in src/tui/app.rs for the list of an instance's installed mods.
use ichr.Base.{
  Bool, false, not, Option, none, some, List, [], ◌∷◌, map, filter, length, ◌-◌, Text, text_eq,
  if◌then◌else◌, ℤ, get_elem?, lookup, insert, min,
}
use ichr.Mods.Types.{InstalledModRow}
use ichr.Tui.View.{
  ActiveView, InstalledMods, mod_browser, installed_mods_list, uninstall_mod_confirm, default_view,
}
use ichr.Tui.Effect.{Effect, fetch_installed_mods, toggle_mod_enabled_eff, uninstall_mod}
use ichr.Tui.State.{AppState, Step, ViewStep}
use ichr.Tui.Update.Mods.{clamped, stamp_all}
use ichr.Tui.Update.ModInstalls.{flag_results, without_id, fresh_list, open_installed_mods_arm}

-- The rows that the ledger holds now, in whichever view shows them.
abbrev pub show_installed : Text → List InstalledModRow → ActiveView → ActiveView
show_installed slug rows (mod_browser b) = mod_browser (
    if text_eq b.slug slug
    then record b { results = stamp_all (some (map (λ r. r.mod_id) rows)) b.results }
    else b)
show_installed slug rows (installed_mods_list l) = installed_mods_list (
    if text_eq l.slug slug
    then record l { mods = rows; selected = min l.selected (length rows - 1) }
    else l)
show_installed slug rows view = view

abbrev pub installed_mods_loaded_arm : AppState → Text → List InstalledModRow → Step
installed_mods_loaded_arm s slug rows = (
  record s {
    installed_mod_project_ids = insert slug (map (λ r. r.mod_id) rows) s.installed_mod_project_ids;
    active_view = show_installed slug rows s.active_view;
  },
  [],
)

abbrev pub installed_mods_move_arm : ℤ → ActiveView → ViewStep
installed_mods_move_arm delta (installed_mods_list l) =
    (installed_mods_list (record l { selected = clamped (length l.mods) l.selected delta }), [])
installed_mods_move_arm delta view = (view, [])

abbrev pub toggle_row : Text → Option InstalledModRow → List Effect
toggle_row slug none = []
toggle_row slug (some row) = toggle_mod_enabled_eff slug row.mod_id (not row.enabled) ∷ []

abbrev pub toggle_mod_enabled_arm : ActiveView → ViewStep
toggle_mod_enabled_arm (installed_mods_list l) =
    (installed_mods_list l, toggle_row l.slug (get_elem? l.mods l.selected))
toggle_mod_enabled_arm view = (view, [])

-- `iter_mut().find(p)` with the flag of the row found written.
unfoldable pub set_enabled : Text → Bool → List InstalledModRow → List InstalledModRow
set_enabled id enabled [] = []
set_enabled id enabled (r ∷ rows) =
    let rest = set_enabled id enabled rows in
    if text_eq r.mod_id id then record r { enabled = enabled } ∷ rows else r ∷ rest

abbrev pub mod_toggled_arm : Text → Text → Bool → ActiveView → ViewStep
mod_toggled_arm slug mod_id enabled (installed_mods_list l) = (
  installed_mods_list
      (if text_eq l.slug slug then record l { mods = set_enabled mod_id enabled l.mods } else l),
  [],
)
mod_toggled_arm slug mod_id enabled view = (view, [])

abbrev pub uninstall_row : InstalledMods → Option InstalledModRow → ActiveView
uninstall_row l none = installed_mods_list l
uninstall_row l (some row) = uninstall_mod_confirm l.slug row.mod_id row.display_name

abbrev pub open_uninstall_mod_confirm_arm : ActiveView → ViewStep
open_uninstall_mod_confirm_arm (installed_mods_list l) =
    (uninstall_row l (get_elem? l.mods l.selected), [])
open_uninstall_mod_confirm_arm view = (view, [])

abbrev pub confirm_uninstall_mod_arm : ActiveView → ViewStep
confirm_uninstall_mod_arm (uninstall_mod_confirm slug mod_id display_name) =
    (fresh_list slug, uninstall_mod slug mod_id ∷ fetch_installed_mods slug ∷ [])
confirm_uninstall_mod_arm view = (view, [])

abbrev pub cancel_uninstall_mod_arm : ActiveView → ViewStep
cancel_uninstall_mod_arm (uninstall_mod_confirm slug mod_id display_name) =
    open_installed_mods_arm slug
cancel_uninstall_mod_arm view = (default_view, [])

abbrev pub dropped_ids : Text → Text → List (Text × List Text) → List (Text × List Text)
dropped_ids slug id m = elim (lookup slug m) [
  | none ↦ m
  | some ids ↦ insert slug (without_id id ids) m
]

-- The row of the mod removed, in whichever view shows it.
abbrev pub show_uninstalled : Text → Text → ActiveView → ActiveView
show_uninstalled slug id (installed_mods_list l) =
    let kept = filter (λ r. not (text_eq r.mod_id id)) l.mods in
    installed_mods_list (
      if text_eq l.slug slug
      then record l { mods = kept; selected = min l.selected (length kept - 1) }
      else l)
show_uninstalled slug id view = flag_results slug id false view

abbrev pub mod_uninstalled_arm : AppState → Text → Text → Step
mod_uninstalled_arm s slug mod_id = (
  record s {
    installed_mod_project_ids = dropped_ids slug mod_id s.installed_mod_project_ids;
    active_view = show_uninstalled slug mod_id s.active_view;
  },
  [],
)
