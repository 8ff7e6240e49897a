-- ===== src/Tui/Update/Mods.antt =====
-- The arms of `update` in src/tui/app.rs for the browser of mods, and `next_scroll_offset` of
-- src/tui/views/mod_browser.rs.
use ichr.Base.{
  ℕ, suc, ◌+◌, ◌-◌, Bool, true, false, Option, none, some, List, [], ◌∷◌, ◌++◌, map, length, Text,
  codes, text_eq, contains, is_empty, push, pop, ltb, leb, if◌then◌else◌, ℤ, shift, clamp, min,
  get_elem?, lookup, is_some, ◌==◌,
}
use ichr.Mods.Hits.{
  ModrinthSearchHit, ModrinthProjectDetail, loading, ready, error, modrinth, IconFetchPurpose,
  detail, list_row,
}
use ichr.Tui.View.{ActiveView, mod_browser, mod_version_picker_modal}
use ichr.Tui.View.Browsers.{ModBrowser}
use ichr.Tui.Effect.{Effect, search_modrinth, fetch_installed_mods, list_mod_versions, fetch_icon}
use ichr.Tui.State.{AppState, ViewStep, instance_of, mc_of, loader_of}

-- `(selected as isize + delta).clamp(0, len - 1)`, where there is a row at all.
abbrev pub clamped : ℕ → ℕ → ℤ → ℕ
clamped len selected delta = if ltb 0 len then clamp (shift selected delta) (len - 1) else selected

-- The first row shown, so that the selected one is among the visible ones.
abbrev pub next_scroll_offset : ℕ → ℕ → ℕ → ℕ → ℕ
next_scroll_offset selected current_offset visible_rows results_len =
    if visible_rows == 0
    then 0
    else let down =
        if leb (current_offset + visible_rows) selected
        then suc selected - visible_rows
        else current_offset in
      min (if ltb selected down then selected else down) (results_len - visible_rows)

-- A browser for an instance, its search not yet answered.
abbrev pub fresh_browser : Text → ActiveView
fresh_browser slug = mod_browser (record {
  slug = slug;
  search = [];
  is_searching = false;
  mc_filter_override = none;
  loader_filter_override = none;
  results = [];
  selected = 0;
  fetch_state = loading;
  selected_detail = none;
  scroll_offset = 0;
})

abbrev pub first_search : AppState → Text → Effect
first_search s slug =
    search_modrinth slug [] (mc_of (instance_of s slug)) (loader_of (instance_of s slug))

abbrev pub open_browser : AppState → Text → ViewStep
open_browser s slug = (fresh_browser slug, first_search s slug ∷ [])

abbrev pub is_installing : AppState → Text → Bool
is_installing s slug = is_some (lookup slug s.running_mod_jobs)

abbrev pub open_mod_browser_arm : AppState → Text → ActiveView → ViewStep
open_mod_browser_arm s slug view =
    if is_installing s slug
    then (view, [])
    else (fresh_browser slug, first_search s slug ∷ fetch_installed_mods slug ∷ [])

-- The flag that a row shows is raised where the installed set holds its project.
abbrev pub stamped : List Text → ModrinthSearchHit → ModrinthSearchHit
stamped ids hit =
    if contains ids hit.project_id then record hit { already_installed = true } else hit

abbrev pub stamp_all : Option (List Text) → List ModrinthSearchHit → List ModrinthSearchHit
stamp_all none hits = hits
stamp_all (some ids) hits = map (stamped ids) hits

abbrev pub icon_of : IconFetchPurpose → ModrinthSearchHit → List Effect → List Effect
icon_of purpose hit rest = elim hit.icon_url [
  | none ↦ rest
  | some url ↦ fetch_icon modrinth hit.project_id url purpose ∷ rest
]

abbrev pub list_icons : List ModrinthSearchHit → List Effect
list_icons [] = []
list_icons (hit ∷ hits) = icon_of list_row hit (list_icons hits)

abbrev pub detail_icon : Option ModrinthSearchHit → List Effect → List Effect
detail_icon none rest = rest
detail_icon (some hit) rest = icon_of detail hit rest

abbrev pub loaded_browser : AppState → Text → List ModrinthSearchHit → ModBrowser → ModBrowser
loaded_browser s slug hits b = record b {
  results = stamp_all (lookup slug s.installed_mod_project_ids) hits;
  fetch_state = ready;
  selected = min b.selected (length hits - 1);
  scroll_offset = 0;
}

abbrev pub with_icons : Bool → ModBrowser → ViewStep
with_icons icons_on b = (
  mod_browser b,
  if icons_on then detail_icon (get_elem? b.results b.selected) (list_icons b.results) else [],
)

abbrev pub mod_browser_search_loaded_arm :
    AppState → Text → List ModrinthSearchHit → ActiveView → ViewStep
mod_browser_search_loaded_arm s slug hits (mod_browser b) =
    if text_eq b.slug slug
    then with_icons s.icon_rendering_enabled (loaded_browser s slug hits b)
    else (mod_browser b, [])
mod_browser_search_loaded_arm s slug hits view = (view, [])

abbrev pub mod_browser_search_failed_arm : Text → Text → ActiveView → ViewStep
mod_browser_search_failed_arm slug message (mod_browser b) =
    (mod_browser (if text_eq b.slug slug then record b { fetch_state = error message } else b), [])
mod_browser_search_failed_arm slug message view = (view, [])

abbrev pub moved_browser : ℤ → ModBrowser → ModBrowser
moved_browser delta b =
    let len = length b.results in
    let new_idx = clamped len b.selected delta in
    if ltb 0 len
    then record b {
      selected = new_idx;
      scroll_offset = next_scroll_offset new_idx b.scroll_offset 8 len;
    }
    else b

abbrev pub mod_browser_move_arm : AppState → ℤ → ActiveView → ViewStep
mod_browser_move_arm s delta (mod_browser b) =
    let moved = moved_browser delta b in
    (
      mod_browser moved,
      if s.icon_rendering_enabled
          then detail_icon (get_elem? moved.results moved.selected) []
          else [],
    )
mod_browser_move_arm s delta view = (view, [])

abbrev pub versions_of : AppState → ModBrowser → Option ModrinthSearchHit → ViewStep
versions_of s b none = (mod_browser b, [])
versions_of s b (some hit) = (
  mod_version_picker_modal (record {
    slug = b.slug;
    project_id = hit.project_id;
    project_title = hit.title;
    versions = [];
    selected = 0;
  }),
  list_mod_versions b.slug hit.project_id hit.title (mc_of (instance_of s b.slug))
        (loader_of (instance_of s b.slug))
      ∷ [],
)

abbrev pub mod_browser_open_versions_arm : AppState → ActiveView → ViewStep
mod_browser_open_versions_arm s (mod_browser b) = versions_of s b (get_elem? b.results b.selected)
mod_browser_open_versions_arm s view = (view, [])

-- What an instance's filter comes to: the override `any` lifts it.
abbrev pub effective : {A : Type 0} → Option Text → Option A → Option A
effective none own = own
effective (some override) own = if text_eq override (codes "any") then none else own

-- The search of a browser sent again, as its filters and its query now stand.
abbrev pub search_again : AppState → ModBrowser → ViewStep
search_again s b = (
  mod_browser b,
  search_modrinth b.slug b.search (effective b.mc_filter_override (mc_of (instance_of s b.slug)))
        (effective b.loader_filter_override (loader_of (instance_of s b.slug)))
      ∷ [],
)

abbrev pub toggled_filter : Option Text → Option Text
toggled_filter none = some (codes "any")
toggled_filter (some _) = none

abbrev pub toggle_mod_mc_filter_arm : AppState → ActiveView → ViewStep
toggle_mod_mc_filter_arm s (mod_browser b) =
    search_again s (record b { mc_filter_override = toggled_filter b.mc_filter_override })
toggle_mod_mc_filter_arm s view = (view, [])

abbrev pub toggle_mod_loader_filter_arm : AppState → ActiveView → ViewStep
toggle_mod_loader_filter_arm s (mod_browser b) =
    search_again s (record b { loader_filter_override = toggled_filter b.loader_filter_override })
toggle_mod_loader_filter_arm s view = (view, [])

abbrev pub mod_browser_backspace_search_arm : AppState → ActiveView → ViewStep
mod_browser_backspace_search_arm s (mod_browser b) =
    search_again s (record b { search = pop b.search })
mod_browser_backspace_search_arm s view = (view, [])

abbrev pub mod_browser_begin_search_arm : ActiveView → ViewStep
mod_browser_begin_search_arm (mod_browser b) = (mod_browser (record b { is_searching = true }), [])
mod_browser_begin_search_arm view = (view, [])

abbrev pub mod_browser_exit_search_arm : AppState → ActiveView → ViewStep
mod_browser_exit_search_arm s (mod_browser b) =
    let left = record b { is_searching = false; search = [] } in
    if is_empty b.search then (mod_browser left, []) else search_again s left
mod_browser_exit_search_arm s view = (view, [])

abbrev pub mod_browser_type_search_arm : AppState → ℕ → ActiveView → ViewStep
mod_browser_type_search_arm s c (mod_browser b) =
    search_again s (record b { search = push b.search c })
mod_browser_type_search_arm s c view = (view, [])

abbrev pub mod_browser_paste_search_arm : AppState → Text → ActiveView → ViewStep
mod_browser_paste_search_arm s pasted (mod_browser b) =
    search_again s (record b { is_searching = true; search = b.search ++ pasted })
mod_browser_paste_search_arm s pasted view = (view, [])

abbrev pub mod_detail_loaded_arm : Text → ModrinthProjectDetail → ActiveView → ViewStep
mod_detail_loaded_arm slug found (mod_browser b) =
    (mod_browser (if text_eq b.slug slug then record b { selected_detail = some found } else b), [])
mod_detail_loaded_arm slug found view = (view, [])
