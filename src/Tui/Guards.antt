-- ===== src/Tui/Guards.antt =====
-- Which effects `update` of src/tui/app.rs asks for: what guards the launch of an instance and the
-- installation of a mod.
use ichr.Base.{
  Option, Bool, true, false, ◌||◌, Text, text_eq, text_eq_iff, List, [], ◌∷◌, ◌++◌, any, ◌≡◌, refl,
  arith,
}
use ichr.Mods.Hits.{ModrinthSearchHit, IconSource}
use ichr.Tui.Effect.{Effect, launch, install_mod_with_deps}
use ichr.Tui.State.{AppState}
use ichr.Tui.Action.{
  Action, on_launches, on_mods, on_packs, on_icons, ModAction, IconAction, launch_instance,
}
use ichr.Tui.PackAction.{PackAction}
use ichr.Tui.Update.Launches.{is_running, row_icons}
use ichr.Tui.Update.Mods.{list_icons, detail_icon}
use ichr.Tui.Update.ModInstalls.{is_incompatible}
use ichr.Tui.Update.ModDispatch.{mod_step}
use ichr.Tui.Update.Step.{pack_step, icon_step, update, run}
use ichr.Tui.Runs.{run-Sound}
use ichr.Tui.Bounds.{IsWellFormed, update-IsWellFormed}

-- The launch of an instance, the installation of a mod with an incompatible dependency.
abbrev pub is_launch_of : Text → Effect → Bool
is_launch_of slug (launch target auth_ctx) = text_eq target slug
is_launch_of slug _ = false

abbrev pub is_conflict : Effect → Bool
is_conflict (install_mod_with_deps slug project_slug project_title root_version graph) =
    any is_incompatible graph.deps
is_conflict _ = false

abbrev pub asks_launch : Text → List Effect → Bool
asks_launch slug [] = false
asks_launch slug (e ∷ es) = is_launch_of slug e || asks_launch slug es

abbrev pub asks_conflict : List Effect → Bool
asks_conflict [] = false
asks_conflict (e ∷ es) = is_conflict e || asks_conflict es

launch-list_icons :
    (slug : Text) (hits : List ModrinthSearchHit) → asks_launch slug (list_icons hits) ≡ false
launch-list_icons slug [] = refl
launch-list_icons slug (hit ∷ hits) = ground (arith, launch-list_icons slug hits)

launch-row_icons :
    (slug : Text) (source : IconSource) (hits : List (Text × Option Text))
    → asks_launch slug (row_icons source hits) ≡ false
unfolding row_icons
launch-row_icons slug source [] = refl
launch-row_icons slug source ((id, url) ∷ hits) = ground (arith, launch-row_icons slug source hits)

launch-detail_icon :
    (slug : Text) (o : Option ModrinthSearchHit) (rest : List Effect)
    → asks_launch slug (detail_icon o rest) ≡ asks_launch slug rest
launch-detail_icon slug o rest = ground arith

conflict-list_icons : (hits : List ModrinthSearchHit) → asks_conflict (list_icons hits) ≡ false
conflict-list_icons [] = refl
conflict-list_icons (hit ∷ hits) = ground (arith, conflict-list_icons hits)

conflict-row_icons :
    (source : IconSource) (hits : List (Text × Option Text))
    → asks_conflict (row_icons source hits) ≡ false
unfolding row_icons
conflict-row_icons source [] = refl
conflict-row_icons source ((id, url) ∷ hits) = ground (arith, conflict-row_icons source hits)

conflict-detail_icon :
    (o : Option ModrinthSearchHit) (rest : List Effect)
    → asks_conflict (detail_icon o rest) ≡ asks_conflict rest
conflict-detail_icon o rest = ground arith

mod_step-no_launch :
    (s : AppState) (a : ModAction) (slug : Text) → asks_launch slug (mod_step s a).1 ≡ false
mod_step-no_launch s a slug = grind (arith, launch-list_icons, launch-detail_icon)

pack_step-no_launch :
    (s : AppState) (a : PackAction) (slug : Text) → asks_launch slug (pack_step s a).1 ≡ false
pack_step-no_launch s a slug = grind (arith, launch-list_icons, launch-detail_icon)

icon_step-no_launch :
    (s : AppState) (a : IconAction) (slug : Text) → asks_launch slug (icon_step s a).1 ≡ false
icon_step-no_launch s a slug = grind (arith, launch-row_icons)

mod_step-no_conflict :
    (s : AppState) (a : ModAction)
    → IsWellFormed s.active_view
    → asks_conflict (mod_step s a).1 ≡ false
mod_step-no_conflict s a h = grind (arith, conflict-list_icons, conflict-detail_icon)

pack_step-no_conflict : (s : AppState) (a : PackAction) → asks_conflict (pack_step s a).1 ≡ false
pack_step-no_conflict s a = grind (arith, conflict-list_icons, conflict-detail_icon)

icon_step-no_conflict : (s : AppState) (a : IconAction) → asks_conflict (icon_step s a).1 ≡ false
icon_step-no_conflict s a = grind (arith, conflict-row_icons)

-- Only the action that launches an instance asks for its launch, and not while the instance runs.
pub launch_guarded :
    (home : Option Text) (s : AppState) (a : Action) (slug : Text)
    → asks_launch slug (update home s a).1 ≡ true
    → (a ≡ on_launches (launch_instance slug)) × (is_running s slug ≡ false)
unfolding update
launch_guarded home s (on_launches (launch_instance target)) slug h =
    grind (arith, text_eq_iff target slug)
launch_guarded home s (on_mods action) slug h = grind (arith, mod_step-no_launch s action slug)
launch_guarded home s (on_packs action) slug h = grind (arith, pack_step-no_launch s action slug)
launch_guarded home s (on_icons action) slug h = grind (arith, icon_step-no_launch s action slug)
launch_guarded home s a slug h = grind arith

asks_conflict-append :
    (es fs : List Effect) → asks_conflict (es ++ fs) ≡ (asks_conflict es || asks_conflict fs)
asks_conflict-append [] fs = refl
asks_conflict-append (e ∷ es) fs = ground (arith, asks_conflict-append es fs)

conflict_guarded :
    (home : Option Text) (s : AppState) (a : Action)
    → IsWellFormed s.active_view
    → asks_conflict (update home s a).1 ≡ false
unfolding update
conflict_guarded home s (on_mods action) h = mod_step-no_conflict s action h
conflict_guarded home s (on_packs action) h = pack_step-no_conflict s action
conflict_guarded home s (on_icons action) h = icon_step-no_conflict s action
conflict_guarded home s a h = ground arith

-- From a view that is within its bounds, no list of actions starts the installation of a mod that
-- has an incompatible dependency among those resolved for it.
pub run-no_conflict :
    (home : Option Text) (s : AppState) (actions : List Action)
    → IsWellFormed s.active_view
    → asks_conflict (run home s actions).1 ≡ false
run-no_conflict home s actions h =
    (run-Sound home (λ t. IsWellFormed t.active_view) asks_conflict asks_conflict-append refl
      (update-IsWellFormed home) (conflict_guarded home) s actions h).1
