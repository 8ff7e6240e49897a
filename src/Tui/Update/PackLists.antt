-- ===== src/Tui/Update/PackLists.antt =====
-- The arms of `update` in src/tui/app.rs for the lists of installed packs and for the outcome of
-- their installation.
use ichr.Base.{
  ◌-◌, Bool, false, Option, none, some, List, [], ◌∷◌, ◌++◌, map, length, Text, codes, is_empty,
  if◌then◌else◌, ℤ, min, get_elem?,
}
use ichr.Mods.Types.{InstalledModRow}
use ichr.Packs.{PackKind, resource, shader}
use ichr.Tui.View.{
  ActiveView, pack_browser, installed_packs_list, installed_mods_list, uninstall_pack_confirm,
  pack_install_failed_modal, default_view,
}
use ichr.Tui.View.Browsers.{
  InstalledPacks, PackInstallFailedReturnTo, to_pack_browser, to_installed_packs,
}
use ichr.Tui.Effect.{Effect, fetch_installed_packs, toggle_pack_enabled_eff, uninstall_pack}
use ichr.Tui.State.{AppState, Step, ViewStep}
use ichr.Tui.Update.Mods.{clamped, stamp_all}
use ichr.Tui.Update.ModInstalls.{flagged, without_id, open_installed_mods_arm}
use ichr.Tui.Update.ModLists.{set_enabled}
use ichr.Tui.Update.Packs.{is_for, lookup_pack, erase_pack, insert_pack, back_to_packs}

abbrev pub show_packs : Text → PackKind → List InstalledModRow → ActiveView → ActiveView
show_packs slug kind rows (pack_browser b) = pack_browser (
    if is_for b.slug b.kind slug kind
    then record b { results = stamp_all (some (map (λ r. r.mod_id) rows)) b.results }
    else b)
show_packs slug kind rows (installed_packs_list l) = installed_packs_list (
    if is_for l.slug l.kind slug kind
    then record l { packs = rows; selected = min l.selected (length rows - 1) }
    else l)
show_packs slug kind rows view = view

abbrev pub installed_packs_loaded_arm : AppState → Text → PackKind → List InstalledModRow → Step
installed_packs_loaded_arm s slug kind rows = (
  record s {
    installed_pack_project_ids =
        insert_pack slug kind (map (λ r. r.mod_id) rows) s.installed_pack_project_ids;
    active_view = show_packs slug kind rows s.active_view;
  },
  [],
)

abbrev pub installed_packs_move_arm : ℤ → ActiveView → ViewStep
installed_packs_move_arm delta (installed_packs_list l) = (
  installed_packs_list
      (record l { transient_status = none; selected = clamped (length l.packs) l.selected delta }),
  [],
)
installed_packs_move_arm delta view = (view, [])

-- The list of an instance's packs of a kind, empty until they are fetched.
abbrev pub fresh_pack_list : Text → PackKind → ActiveView
fresh_pack_list slug kind =
    installed_packs_list
      (record { slug = slug; kind = kind; packs = []; selected = 0; transient_status = none })

abbrev pub open_pack_list : Text → PackKind → ViewStep
open_pack_list slug kind = (fresh_pack_list slug kind, fetch_installed_packs slug kind ∷ [])

abbrev pub after_kind : Text → PackKind → ViewStep
after_kind slug resource = open_pack_list slug shader
after_kind slug shader = open_installed_mods_arm slug

abbrev pub installed_packs_cycle_kind_arm : ActiveView → ViewStep
installed_packs_cycle_kind_arm (installed_mods_list l) = open_pack_list l.slug resource
installed_packs_cycle_kind_arm (installed_packs_list l) = after_kind l.slug l.kind
installed_packs_cycle_kind_arm view = (view, [])

abbrev pub toggle_pack : InstalledPacks → Option InstalledModRow → List Effect
toggle_pack l none = []
toggle_pack l (some row) = toggle_pack_enabled_eff l.slug l.kind row.mod_id ∷ []

abbrev pub toggle_pack_enabled_arm : ActiveView → ViewStep
toggle_pack_enabled_arm (installed_packs_list l) =
    (installed_packs_list l, toggle_pack l (get_elem? l.packs l.selected))
toggle_pack_enabled_arm view = (view, [])

abbrev pub with_status : Text → ActiveView → ActiveView
with_status status (installed_packs_list l) =
    installed_packs_list (record l { transient_status = some status })
with_status status view = view

abbrev pub shader_toggle_notice_arm : ActiveView → ViewStep
shader_toggle_notice_arm view =
    (with_status (codes "Shaders cannot be toggled -- use Iris/OptiFine in-game") view, [])

abbrev pub uninstall_pack_row : InstalledPacks → Option InstalledModRow → ActiveView
uninstall_pack_row l none = installed_packs_list l
uninstall_pack_row l (some row) = uninstall_pack_confirm l.slug l.kind row.mod_id row.file_name

abbrev pub open_uninstall_pack_confirm_arm : ActiveView → ViewStep
open_uninstall_pack_confirm_arm (installed_packs_list l) =
    (uninstall_pack_row l (get_elem? l.packs l.selected), [])
open_uninstall_pack_confirm_arm view = (view, [])

abbrev pub confirm_uninstall_pack_arm : ActiveView → ViewStep
confirm_uninstall_pack_arm (uninstall_pack_confirm slug kind mod_id file_name) = (
  fresh_pack_list slug kind,
  uninstall_pack slug kind mod_id ∷ fetch_installed_packs slug kind ∷ [],
)
confirm_uninstall_pack_arm view = (view, [])

abbrev pub cancel_uninstall_pack_arm : ActiveView → ViewStep
cancel_uninstall_pack_arm (uninstall_pack_confirm slug kind mod_id file_name) =
    open_pack_list slug kind
cancel_uninstall_pack_arm view = open_pack_list [] resource

abbrev pub pack_installed_arm : AppState → Text → PackKind → Step
pack_installed_arm s slug kind = (
  record s { running_pack_jobs = erase_pack slug kind s.running_pack_jobs },
  fetch_installed_packs slug kind ∷ [],
)

abbrev pub pack_return_of : ActiveView → PackInstallFailedReturnTo
pack_return_of (pack_browser b) = to_pack_browser
pack_return_of view = to_installed_packs

abbrev pub pack_install_failed_arm : AppState → Text → PackKind → Text → Text → Text → Step
pack_install_failed_arm s slug kind pack_title version_label error = (
  record s {
    running_pack_jobs = erase_pack slug kind s.running_pack_jobs;
    active_view = pack_install_failed_modal (record {
      slug = slug;
      kind = kind;
      pack_title = if is_empty pack_title then codes "(unknown pack)" else pack_title;
      version_label = version_label;
      error = error;
      return_to = pack_return_of s.active_view;
    });
  },
  [],
)

abbrev pub pack_dismissed : AppState → Text → PackKind → PackInstallFailedReturnTo → ViewStep
pack_dismissed s slug kind to_pack_browser = back_to_packs s slug kind
pack_dismissed s slug kind to_installed_packs = open_pack_list slug kind

abbrev pub dismiss_pack_install_failed_arm : AppState → ActiveView → ViewStep
dismiss_pack_install_failed_arm s (pack_install_failed_modal f) =
    pack_dismissed s f.slug f.kind f.return_to
dismiss_pack_install_failed_arm s view = (default_view, [])

abbrev pub pack_drop_failed_arm : AppState → Text → PackKind → Text → Step
pack_drop_failed_arm s slug kind error = (
  record s {
    running_pack_jobs = erase_pack slug kind s.running_pack_jobs;
    active_view = with_status (codes "Drop failed: " ++ error) s.active_view;
  },
  [],
)

abbrev pub dropped_pack_ids :
    Text
    → PackKind
    → Text
    → List ((Text × PackKind) × List Text)
    → List ((Text × PackKind) × List Text)
dropped_pack_ids slug kind id m = elim (lookup_pack slug kind m) [
  | none ↦ m
  | some ids ↦ insert_pack slug kind (without_id id ids) m
]

abbrev pub show_pack_uninstalled : Text → PackKind → Text → ActiveView → ActiveView
show_pack_uninstalled slug kind id (pack_browser b) = pack_browser (
    if is_for b.slug b.kind slug kind
    then record b { results = map (flagged id false) b.results }
    else b)
show_pack_uninstalled slug kind id view = view

abbrev pub pack_uninstalled_arm : AppState → Text → PackKind → Text → Step
pack_uninstalled_arm s slug kind mod_id = (
  record s {
    installed_pack_project_ids = dropped_pack_ids slug kind mod_id s.installed_pack_project_ids;
    active_view = show_pack_uninstalled slug kind mod_id s.active_view;
  },
  fetch_installed_packs slug kind ∷ [],
)

abbrev pub pack_toggle_failed_arm : Text → PackKind → Text → ActiveView → ViewStep
pack_toggle_failed_arm slug kind error (installed_packs_list l) = (
  installed_packs_list (
      if is_for l.slug l.kind slug kind
      then record l { transient_status = some (codes "Toggle failed: " ++ error) }
      else l),
  [],
)
pack_toggle_failed_arm slug kind error view = (view, [])

abbrev pub pack_toggled_arm : Text → PackKind → Text → Bool → ActiveView → ViewStep
pack_toggled_arm slug kind mod_id new_enabled (installed_packs_list l) = (
  installed_packs_list (
      if is_for l.slug l.kind slug kind
      then record l { packs = set_enabled mod_id new_enabled l.packs }
      else l),
  [],
)
pack_toggled_arm slug kind mod_id new_enabled view = (view, [])
