-- ===== src/Tui/Update/Cf.antt =====
-- The arms of `update` in src/tui/app.rs for CurseForge, and src/mods/curseforge/filter.rs.
use ichr.Base.{
  ◌-◌, Bool, not, Option, none, some, List, [], ◌∷◌, length, Text, text_eq, is_empty, if◌then◌else◌,
  ℤ, pos, min, get_elem?, insert, erase,
}
use ichr.Domain.Instance.{ModloaderKind, vanilla, fabric, quilt, forge, neo_forge, LoaderInfo}
use ichr.Instance.Slug.{decimal}
use ichr.Mods.Hits.{
  CurseForgeSearchHit, CurseForgeProjectDetail, CurseForgeFileEntry, loading, ready, error,
  curseforge, detail,
}
use ichr.Tui.View.{
  ActiveView, cf_browser, cf_file_picker_modal, cf_install_failed_modal, default_view,
}
use ichr.Tui.View.Browsers.{CfBrowser, CfFilePicker}
use ichr.Tui.Effect.{Effect, search_curse_forge, fetch_icon, list_cf_files, install_cf_mod}
use ichr.Tui.State.{AppState, Step, ViewStep, Token, instance_of, mc_of, loader_of}
use ichr.Tui.Update.Mods.{clamped, effective, toggled_filter, is_installing}

abbrev pub loader_number : ModloaderKind → Option ℤ
loader_number vanilla = none
loader_number forge = some (pos 1)
loader_number fabric = some (pos 4)
loader_number quilt = some (pos 5)
loader_number neo_forge = some (pos 6)

abbrev pub curseforge_loader_type : Option LoaderInfo → Option ℤ
curseforge_loader_type none = none
curseforge_loader_type (some l) = loader_number l.kind

-- The number of the loader that an instance has.
abbrev pub own_loader : AppState → Text → Option ℤ
own_loader s slug = curseforge_loader_type (loader_of (instance_of s slug))

abbrev pub open_cf_browser_arm : AppState → Text → ActiveView → ViewStep
open_cf_browser_arm s slug view =
    if not s.cf_api_key_present then (view, []) else if is_installing s slug then (view, []) else (
      cf_browser (record {
        slug = slug;
        search_input = [];
        results = [];
        selected = 0;
        fetch_state = loading;
        mc_filter = none;
        loader_filter = none;
        selected_detail = none;
      }),
      search_curse_forge slug [] (mc_of (instance_of s slug)) (own_loader s slug) ∷ [],
    )

abbrev pub cf_loading : Text → ActiveView → ActiveView
cf_loading slug (cf_browser b) =
    cf_browser (if text_eq b.slug slug then record b { fetch_state = loading } else b)
cf_loading slug view = view

abbrev pub cf_browser_search_start_arm :
    Text → Text → Option Text → Option ℤ → ActiveView → ViewStep
cf_browser_search_start_arm slug query mc loader view =
    (cf_loading slug view, search_curse_forge slug query mc loader ∷ [])

abbrev pub logo_icon : Option CurseForgeSearchHit → List Effect
logo_icon none = []
logo_icon (some hit) = elim hit.logo [
  | none ↦ []
  | some logo ↦
      if is_empty logo.url then [] else fetch_icon curseforge (decimal hit.id) logo.url detail ∷ []
]

abbrev pub with_logo : Bool → CfBrowser → ViewStep
with_logo icons_on b =
    (cf_browser b, if icons_on then logo_icon (get_elem? b.results b.selected) else [])

abbrev pub cf_browser_search_loaded_arm :
    AppState → Text → List CurseForgeSearchHit → ActiveView → ViewStep
cf_browser_search_loaded_arm s slug hits (cf_browser b) =
    if text_eq b.slug slug
    then with_logo s.icon_rendering_enabled (record b {
      results = hits;
      fetch_state = ready;
      selected = min b.selected (length hits - 1);
    })
    else (cf_browser b, [])
cf_browser_search_loaded_arm s slug hits view = (view, [])

abbrev pub cf_browser_search_failed_arm : Text → Text → ActiveView → ViewStep
cf_browser_search_failed_arm slug message (cf_browser b) =
    (cf_browser (if text_eq b.slug slug then record b { fetch_state = error message } else b), [])
cf_browser_search_failed_arm slug message view = (view, [])

abbrev pub cf_browser_move_selection_arm : AppState → ℤ → ActiveView → ViewStep
cf_browser_move_selection_arm s delta (cf_browser b) =
    with_logo s.icon_rendering_enabled
      (record b { selected = clamped (length b.results) b.selected delta })
cf_browser_move_selection_arm s delta view = (view, [])

-- The filter on the loader, or the instance's own where there is none.
abbrev pub loader_or_own : AppState → Text → Option ℤ → Option ℤ
loader_or_own s slug none = own_loader s slug
loader_or_own s slug (some v) = some v

abbrev pub cf_search_again : AppState → CfBrowser → Option ℤ → ViewStep
cf_search_again s b loader = (
  cf_browser b,
  search_curse_forge b.slug b.search_input (effective b.mc_filter (mc_of (instance_of s b.slug)))
        loader
      ∷ [],
)

abbrev pub cf_browser_toggle_mc_filter_arm : AppState → ActiveView → ViewStep
cf_browser_toggle_mc_filter_arm s (cf_browser b) =
    cf_search_again s (record b { mc_filter = toggled_filter b.mc_filter })
      (loader_or_own s b.slug b.loader_filter)
cf_browser_toggle_mc_filter_arm s view = (view, [])

abbrev pub toggled_loader : Option ℤ → Option ℤ → Option ℤ
toggled_loader own none = own
toggled_loader own (some _) = none

abbrev pub cf_browser_toggle_loader_filter_arm : AppState → ActiveView → ViewStep
cf_browser_toggle_loader_filter_arm s (cf_browser b) =
    let filter = toggled_loader (own_loader s b.slug) b.loader_filter in
    cf_search_again s (record b { loader_filter = filter }) filter
cf_browser_toggle_loader_filter_arm s view = (view, [])

abbrev pub cf_filters : AppState → Text → ActiveView → Option Text × Option ℤ
cf_filters s slug (cf_browser b) =
    (effective b.mc_filter (mc_of (instance_of s slug)), loader_or_own s slug b.loader_filter)
cf_filters s slug view = (none, none)

abbrev pub cf_detail_shown : Text → CurseForgeProjectDetail → ActiveView → ActiveView
cf_detail_shown slug found (cf_browser b) =
    cf_browser (if text_eq b.slug slug then record b { selected_detail = some found } else b)
cf_detail_shown slug found view = view

abbrev pub cf_browser_detail_loaded_arm :
    AppState → Text → CurseForgeProjectDetail → ActiveView → ViewStep
cf_browser_detail_loaded_arm s slug found view = (
  cf_detail_shown slug found view,
  list_cf_files slug found.id (cf_filters s slug view).0 (cf_filters s slug view).1 ∷ [],
)

-- The three edits of the search: a character typed, a text pasted, a character removed.
abbrev pub edit_cf_search_arm : AppState → (Text → Text) → ActiveView → ViewStep
edit_cf_search_arm s edit (cf_browser b) =
    cf_search_again s (record b { search_input = edit b.search_input })
      (loader_or_own s b.slug b.loader_filter)
edit_cf_search_arm s edit view = (view, [])

abbrev pub cf_file_picker_loaded_arm :
    Text → CurseForgeProjectDetail → List CurseForgeFileEntry → ViewStep
cf_file_picker_loaded_arm slug mod_detail files = (
  cf_file_picker_modal
      (record { slug = slug; mod_detail = mod_detail; files = files; selected = 0 }),
  [],
)

abbrev pub cf_file_picker_move_arm : ℤ → ActiveView → ViewStep
cf_file_picker_move_arm delta (cf_file_picker_modal p) =
    (cf_file_picker_modal (record p { selected = clamped (length p.files) p.selected delta }), [])
cf_file_picker_move_arm delta view = (view, [])

abbrev pub install_file : CfFilePicker → Option CurseForgeFileEntry → List Effect
install_file p none = []
install_file p (some file) = install_cf_mod p.slug p.mod_detail file ∷ []

abbrev pub cf_file_picker_confirm_arm : AppState → ActiveView → ViewStep
cf_file_picker_confirm_arm s (cf_file_picker_modal p) = (
  cf_file_picker_modal p,
  if is_installing s p.slug then [] else install_file p (get_elem? p.files p.selected),
)
cf_file_picker_confirm_arm s view = (view, [])

abbrev pub cf_mod_install_started_arm : AppState → Text → Token → Step
cf_mod_install_started_arm s slug token =
    (record s { running_mod_jobs = insert slug token s.running_mod_jobs }, [])

abbrev pub leave_picker : Text → ActiveView → ActiveView
leave_picker slug (cf_file_picker_modal p) =
    if text_eq p.slug slug then default_view else cf_file_picker_modal p
leave_picker slug view = view

abbrev pub cf_mod_installed_arm : AppState → Text → Step
cf_mod_installed_arm s slug = (
  record s {
    running_mod_jobs = erase slug s.running_mod_jobs;
    active_view = leave_picker slug s.active_view;
  },
  [],
)

abbrev pub cf_mod_install_failed_arm : AppState → Text → Text → Text → Text → Option Text → Step
cf_mod_install_failed_arm s slug mod_title file_label message web_url = (
  record s {
    running_mod_jobs = erase slug s.running_mod_jobs;
    active_view = cf_install_failed_modal slug mod_title file_label message web_url;
  },
  [],
)
