-- ===== src/Tui/Bounds.antt =====
-- What the views of src/tui/app.rs keep within their bounds: the highlighted row, the step of a
-- progress bar, and the conflict flag of a confirmation. The lists of instances and of accounts keep
-- their row when what they list is loaded anew and shorter, so they are left out.
use ichr.Base.{
  ℕ, ◌-◌, ◌<◌, ◌≤◌, Option, none, some, Bool, Text, List, [], ◌∷◌, length, length-map, map, any,
  ◌≡◌, refl, arith, ℤ, shift, rem_euclid-lt, clamp-le,
}
use ichr.Mods.Types.{InstalledModRow}
use ichr.Mods.Hits.{ModrinthSearchHit}
use ichr.Tui.View.{
  ActiveView, java_picker_modal, loader_picker_modal, loader_version_picker_modal,
  loader_install_progress_modal, mod_browser, mod_version_picker_modal, dep_confirm_modal,
  installed_mods_list, cf_browser, cf_file_picker_modal, modpack_import_progress_modal,
  pack_browser, installed_packs_list,
}
use ichr.Tui.State.{AppState}
use ichr.Tui.Action.{
  Action, quit, tick, task, on_instances, on_accounts, on_java, on_loaders, on_launches,
  on_services, on_mods, on_cf, on_modpacks, on_packs, on_icons, InstanceAction, AccountAction,
  JavaAction, LoaderAction, LaunchAction, ServiceAction, ModAction, TaskEvent,
}
use ichr.Tui.PackAction.{CfAction, ModpackAction, PackAction}
use ichr.Tui.Update.Dispatch.{
  instance_step, account_step, java_step, loader_step, launch_step, service_step, task_step,
}
use ichr.Tui.Update.ModDispatch.{mod_step, cf_step, modpack_step}
use ichr.Tui.Update.Instances.{wrapped}
use ichr.Tui.Update.Loaders.{visible}
use ichr.Tui.Update.Mods.{clamped, stamp_all, stamped}
use ichr.Tui.Update.ModInstalls.{is_incompatible, flagged}
use ichr.Tui.Update.ModLists.{set_enabled}
use ichr.Tui.Runs.{run-kept}
use ichr.Tui.Update.Step.{update, run, pack_step}

-- A row of a list of that length, or the first one where the list is empty.
abbrev pub InRange : ℕ → ℕ → Type 0
InRange selected len = selected ≤ len - 1

abbrev pub IsWellFormed : ActiveView → Type 0
IsWellFormed (java_picker_modal p) = InRange p.selected (length p.options)
IsWellFormed (loader_picker_modal slug selected) = selected < 5
IsWellFormed (loader_version_picker_modal p) = InRange p.selected (length (visible p))
IsWellFormed (loader_install_progress_modal p) = (p.step_index ≤ 4) × (p.step_total ≡ 4)
IsWellFormed (mod_browser b) = InRange b.selected (length b.results)
IsWellFormed (mod_version_picker_modal p) = InRange p.selected (length p.versions)
IsWellFormed (dep_confirm_modal c) = c.has_conflict ≡ any is_incompatible c.deps
IsWellFormed (installed_mods_list l) = InRange l.selected (length l.mods)
IsWellFormed (cf_browser b) = InRange b.selected (length b.results)
IsWellFormed (cf_file_picker_modal p) = InRange p.selected (length p.files)
IsWellFormed (modpack_import_progress_modal p) = (p.step_index ≤ 7) × (p.step_total ≡ 7)
IsWellFormed (pack_browser b) = InRange b.selected (length b.results)
IsWellFormed (installed_packs_list l) = InRange l.selected (length l.packs)
IsWellFormed _ = Unit

wrapped-InRange :
    (len selected : ℕ) (delta : ℤ) → InRange selected len → InRange (wrapped len selected delta) len
wrapped-InRange len selected delta h = grind (arith, rem_euclid-lt (shift selected delta) len)

clamped-InRange :
    (len selected : ℕ) (delta : ℤ) → InRange selected len → InRange (clamped len selected delta) len
clamped-InRange len selected delta h = ground (arith, clamp-le (shift selected delta) (len - 1))

length-stamped :
    (ids : List Text) (hits : List ModrinthSearchHit)
    → length (map (stamped ids) hits) ≡ length hits
length-stamped ids hits = length-map (stamped ids) hits

length-stamp_all :
    (ids : Option (List Text)) (hits : List ModrinthSearchHit)
    → length (stamp_all ids hits) ≡ length hits
length-stamp_all none hits = refl
length-stamp_all (some ids) hits = length-stamped ids hits

length-flagged :
    (id : Text) (flag : Bool) (hits : List ModrinthSearchHit)
    → length (map (flagged id flag) hits) ≡ length hits
length-flagged id flag hits = length-map (flagged id flag) hits

length-set_enabled :
    (id : Text) (enabled : Bool) (rows : List InstalledModRow)
    → length (set_enabled id enabled rows) ≡ length rows
unfolding set_enabled
length-set_enabled id enabled [] = refl
length-set_enabled id enabled (r ∷ rows) = ground (arith, length-set_enabled id enabled rows)

instance_step-IsWellFormed :
    (s : AppState) (a : InstanceAction)
    → IsWellFormed s.active_view
    → IsWellFormed (instance_step s a).0.active_view
instance_step-IsWellFormed s a h = grind (arith, wrapped-InRange, clamped-InRange)

account_step-IsWellFormed :
    (s : AppState) (a : AccountAction)
    → IsWellFormed s.active_view
    → IsWellFormed (account_step s a).0.active_view
account_step-IsWellFormed s a h = grind (arith, wrapped-InRange, clamped-InRange)

java_step-IsWellFormed :
    (s : AppState) (a : JavaAction)
    → IsWellFormed s.active_view
    → IsWellFormed (java_step s a).0.active_view
java_step-IsWellFormed s a h = grind (arith, wrapped-InRange, clamped-InRange)

loader_step-IsWellFormed :
    (s : AppState) (a : LoaderAction)
    → IsWellFormed s.active_view
    → IsWellFormed (loader_step s a).0.active_view
loader_step-IsWellFormed s a h = grind (arith, wrapped-InRange, clamped-InRange)

launch_step-IsWellFormed :
    (s : AppState) (a : LaunchAction)
    → IsWellFormed s.active_view
    → IsWellFormed (launch_step s a).0.active_view
launch_step-IsWellFormed s a h = grind (arith, wrapped-InRange, clamped-InRange)

service_step-IsWellFormed :
    (s : AppState) (a : ServiceAction)
    → IsWellFormed s.active_view
    → IsWellFormed (service_step s a).0.active_view
service_step-IsWellFormed s a h = grind (arith, wrapped-InRange, clamped-InRange)

mod_step-IsWellFormed :
    (s : AppState) (a : ModAction)
    → IsWellFormed s.active_view
    → IsWellFormed (mod_step s a).0.active_view
mod_step-IsWellFormed s a h = grind (
  arith, wrapped-InRange, clamped-InRange, length-stamp_all, length-stamped, length-flagged,
  length-set_enabled,
)

cf_step-IsWellFormed :
    (s : AppState) (a : CfAction)
    → IsWellFormed s.active_view
    → IsWellFormed (cf_step s a).0.active_view
cf_step-IsWellFormed s a h = grind (arith, wrapped-InRange, clamped-InRange)

pack_step-IsWellFormed :
    (s : AppState) (a : PackAction)
    → IsWellFormed s.active_view
    → IsWellFormed (pack_step s a).0.active_view
pack_step-IsWellFormed s a h = grind (
  arith, wrapped-InRange, clamped-InRange, length-stamp_all, length-stamped, length-flagged,
  length-set_enabled,
)

task_step-IsWellFormed :
    (s : AppState) (a : TaskEvent)
    → IsWellFormed s.active_view
    → IsWellFormed (task_step s a).0.active_view
task_step-IsWellFormed s a h = grind (arith, wrapped-InRange, clamped-InRange)

modpack_step-IsWellFormed :
    (home : Option Text) (s : AppState) (a : ModpackAction)
    → IsWellFormed s.active_view
    → IsWellFormed (modpack_step home s a).0.active_view
modpack_step-IsWellFormed home s a h = grind (arith)

-- A view that is within its bounds stays so under every action.
pub update-IsWellFormed :
    (home : Option Text) (s : AppState) (a : Action)
    → IsWellFormed s.active_view
    → IsWellFormed (update home s a).0.active_view
unfolding update
update-IsWellFormed home s quit h = h
update-IsWellFormed home s tick h = h
update-IsWellFormed home s (task event) h = task_step-IsWellFormed s event h
update-IsWellFormed home s (on_instances action) h = instance_step-IsWellFormed s action h
update-IsWellFormed home s (on_accounts action) h = account_step-IsWellFormed s action h
update-IsWellFormed home s (on_java action) h = java_step-IsWellFormed s action h
update-IsWellFormed home s (on_loaders action) h = loader_step-IsWellFormed s action h
update-IsWellFormed home s (on_launches action) h = launch_step-IsWellFormed s action h
update-IsWellFormed home s (on_services action) h = service_step-IsWellFormed s action h
update-IsWellFormed home s (on_mods action) h = mod_step-IsWellFormed s action h
update-IsWellFormed home s (on_cf action) h = cf_step-IsWellFormed s action h
update-IsWellFormed home s (on_modpacks action) h = modpack_step-IsWellFormed home s action h
update-IsWellFormed home s (on_packs action) h = pack_step-IsWellFormed s action h
update-IsWellFormed home s (on_icons action) h = ground arith

-- From a view that is within its bounds, every list of actions ends in one: the highlighted row
-- of each picker of a runtime, a loader, a version or a file, of each browser, and of the lists of
-- installed mods and packs is one of its rows (the first where there are none), the step of a
-- progress bar is at most the number of steps, and the conflict flag of a confirmation tells whether
-- one of its dependencies is incompatible. Nothing is said of the row of the list of instances, of
-- the list of accounts or of the picker of a game version.
pub run-IsWellFormed :
    (home : Option Text) (s : AppState) (actions : List Action)
    → IsWellFormed s.active_view
    → IsWellFormed (run home s actions).0.active_view
run-IsWellFormed home s actions h =
    run-kept home (λ t. IsWellFormed t.active_view) (update-IsWellFormed home) s actions h
