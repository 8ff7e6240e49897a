-- ===== src/Tui/Update/Loaders.antt =====
-- The arms of `update` in src/tui/app.rs for the picker of mod loaders and of their versions.
use ichr.Base.{
  ℕ, zero, suc, Bool, true, false, not, ◌&&◌, ◌||◌, Option, none, some, List, [], ◌∷◌, ◌++◌, length,
  Text, codes, text_eq, has_text, is_empty, if◌then◌else◌, ℤ, shift, rem_euclid,
}
use ichr.Domain.Instance.{ModloaderKind, vanilla, LoaderInfo, LoaderVersionEntry}
use ichr.Mods.Filter.{to_ascii_lowercase}
use ichr.Modpack.Parse.{LoaderType, fabric, quilt, forge, neo_forge}
use ichr.Tui.View.{
  ActiveView, LoaderVersionPicker, loader_picker_modal, loader_version_picker_modal,
  loader_switch_confirm, default_view,
}
use ichr.Tui.Effect.{fetch_loader_versions}
use ichr.Tui.State.{AppState, ViewStep, instance_of, loader_of}
use ichr.Tui.Update.Instances.{wrapped}
use ichr.Tui.Update.Launches.{is_running}

-- The installed kind that a loader's pipeline writes.
abbrev pub target_kind : LoaderType → ModloaderKind
target_kind fabric = ModloaderKind.fabric
target_kind quilt = ModloaderKind.quilt
target_kind forge = ModloaderKind.forge
target_kind neo_forge = ModloaderKind.neo_forge

abbrev pub kind_eq : ModloaderKind → ModloaderKind → Bool
kind_eq vanilla vanilla = true
kind_eq ModloaderKind.fabric ModloaderKind.fabric = true
kind_eq ModloaderKind.quilt ModloaderKind.quilt = true
kind_eq ModloaderKind.forge ModloaderKind.forge = true
kind_eq ModloaderKind.neo_forge ModloaderKind.neo_forge = true
kind_eq _ _ = false

abbrev pub kind_str : ModloaderKind → Text
kind_str ModloaderKind.fabric = codes "fabric"
kind_str ModloaderKind.quilt = codes "quilt"
kind_str ModloaderKind.forge = codes "forge"
kind_str ModloaderKind.neo_forge = codes "neoforge"
kind_str vanilla = codes "vanilla"

-- `format!("{kind_str}:{version}")`
abbrev pub loader_label_short : ModloaderKind → Text → Text
loader_label_short kind version = kind_str kind ++ codes ":" ++ version

abbrev pub passes_stability : LoaderType → Bool → LoaderVersionEntry → Bool
passes_stability quilt stable_only v = true
passes_stability _ stable_only v = not stable_only || v.stable

abbrev pub passes_search : Text → LoaderVersionEntry → Bool
passes_search s_lc v = is_empty s_lc || has_text (to_ascii_lowercase v.version) s_lc

-- The indices, from `i`, of the versions that pass both filters.
abbrev pub visible_from : LoaderType → Bool → Text → ℕ → List LoaderVersionEntry → List ℕ
visible_from loader stable_only s_lc i [] = []
visible_from loader stable_only s_lc i (v ∷ vs) =
    let rest = visible_from loader stable_only s_lc (suc i) vs in
    if passes_stability loader stable_only v && passes_search s_lc v then i ∷ rest else rest

abbrev pub loader_versions_visible_indices :
    List LoaderVersionEntry → LoaderType → Bool → Text → List ℕ
loader_versions_visible_indices versions loader stable_only search =
    visible_from loader stable_only (to_ascii_lowercase search) 0 versions

abbrev pub visible : LoaderVersionPicker → List ℕ
visible p = loader_versions_visible_indices p.versions p.loader p.filter_stable_only p.search

abbrev pub open_loader_picker_arm : AppState → Text → ActiveView → ViewStep
open_loader_picker_arm s slug view =
    if is_running s slug then (view, []) else (loader_picker_modal slug 0, [])

-- The picker has five rows: none, Fabric, Quilt, Forge and NeoForge.
abbrev pub loader_picker_move_arm : ℤ → ActiveView → ViewStep
loader_picker_move_arm delta (loader_picker_modal slug selected) =
    (loader_picker_modal slug (rem_euclid (shift selected delta) 5), [])
loader_picker_move_arm delta view = (view, [])

abbrev pub version_if : ModloaderKind → Option LoaderInfo → Option Text
version_if kind none = none
version_if kind (some l) = if kind_eq l.kind kind then some l.version else none

abbrev pub open_versions : AppState → Text → LoaderType → Bool → ViewStep
open_versions s slug loader stable_only = (
  loader_version_picker_modal (record {
    slug = slug;
    loader = loader;
    versions = [];
    filter_stable_only = stable_only;
    search = [];
    selected = 0;
    current_version = version_if (target_kind loader) (loader_of (instance_of s slug));
  }),
  fetch_loader_versions slug loader ∷ [],
)

abbrev pub confirm_removal : Text → Option LoaderInfo → ActiveView → ViewStep
confirm_removal slug none view = (view, [])
confirm_removal slug (some l) view = (
  loader_switch_confirm (record {
    slug = slug;
    from_loader = some (loader_label_short l.kind l.version);
    to_loader = codes "none";
    type_switch = false;
  }),
  [],
)

abbrev pub loader_row : AppState → Text → ℕ → ActiveView → ViewStep
loader_row s slug zero view = confirm_removal slug (loader_of (instance_of s slug)) view
loader_row s slug (suc zero) view = open_versions s slug fabric true
loader_row s slug (suc (suc zero)) view = open_versions s slug quilt false
loader_row s slug (suc (suc (suc zero))) view = open_versions s slug forge true
loader_row s slug (suc (suc (suc (suc zero)))) view = open_versions s slug neo_forge true
loader_row s slug _ view = (view, [])

abbrev pub loader_picker_select_arm : AppState → ActiveView → ViewStep
loader_picker_select_arm s (loader_picker_modal slug selected) =
    loader_row s slug selected (loader_picker_modal slug selected)
loader_picker_select_arm s view = (view, [])

abbrev pub loader_eq : LoaderType → LoaderType → Bool
loader_eq a b = kind_eq (target_kind a) (target_kind b)

abbrev pub loader_versions_loaded_arm :
    Text → LoaderType → List LoaderVersionEntry → ActiveView → ViewStep
loader_versions_loaded_arm slug loader versions (loader_version_picker_modal p) = (
  loader_version_picker_modal (
      if text_eq p.slug slug && loader_eq p.loader loader
      then record p { versions = versions; selected = 0 }
      else p),
  [],
)
loader_versions_loaded_arm slug loader versions view = (view, [])

abbrev pub loader_version_picker_move_arm : ℤ → ActiveView → ViewStep
loader_version_picker_move_arm delta (loader_version_picker_modal p) = (
  loader_version_picker_modal
      (record p { selected = wrapped (length (visible p)) p.selected delta }),
  [],
)
loader_version_picker_move_arm delta view = (view, [])

abbrev pub toggle_stable_filter_arm : ActiveView → ViewStep
toggle_stable_filter_arm (loader_version_picker_modal p) = (
  loader_version_picker_modal
      (record p { filter_stable_only = not p.filter_stable_only; selected = 0 }),
  [],
)
toggle_stable_filter_arm view = (view, [])

-- A character typed into the search, or its last one removed.
abbrev pub edit_loader_search_arm : (Text → Text) → ActiveView → ViewStep
edit_loader_search_arm edit (loader_version_picker_modal p) =
    (loader_version_picker_modal (record p { search = edit p.search; selected = 0 }), [])
edit_loader_search_arm edit view = (view, [])

abbrev pub row_of : LoaderType → ℕ
row_of fabric = 1
row_of quilt = 2
row_of forge = 3
row_of neo_forge = 4

abbrev pub loader_version_picker_cancel_arm : ActiveView → ViewStep
loader_version_picker_cancel_arm (loader_version_picker_modal p) =
    (loader_picker_modal p.slug (row_of p.loader), [])
loader_version_picker_cancel_arm view = (default_view, [])
