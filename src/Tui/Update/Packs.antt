-- ===== src/Tui/Update/Packs.antt =====
-- The arms of `update` in src/tui/app.rs for the browser of resource packs and shaders.
use ichr.Base.{
  ℕ, ◌-◌, Bool, true, false, ◌&&◌, Option, none, some, List, [], ◌∷◌, ◌++◌, length, Text, codes,
  text_eq, is_empty, push, pop, ltb, if◌then◌else◌, ℤ, min, get_elem?,
}
use ichr.Mods.Hits.{ModrinthSearchHit, loading, ready, error}
use ichr.Packs.{PackKind, resource, shader}
use ichr.Tui.View.{ActiveView, pack_browser, pack_drop_path_input}
use ichr.Tui.View.Browsers.{PackBrowser}
use ichr.Tui.Effect.{
  Effect, search_packs, fetch_installed_packs, drop_install_pack, fetch_pack_versions,
}
use ichr.Tui.State.{AppState, ViewStep, instance_of, mc_of}
use ichr.Tui.Update.Mods.{clamped, next_scroll_offset, stamp_all, detail_icon, list_icons}

abbrev pub kind_eq : PackKind → PackKind → Bool
kind_eq resource resource = true
kind_eq shader shader = true
kind_eq _ _ = false

-- Whether a view of an instance and a kind is the one that an answer is for.
abbrev pub is_for : Text → PackKind → Text → PackKind → Bool
is_for cur_slug cur_kind slug kind = text_eq cur_slug slug && kind_eq cur_kind kind

-- A `HashMap<(String, PackKind), V>` as an association list.
abbrev pub lookup_pack : {V : Type 0} → Text → PackKind → List ((Text × PackKind) × V) → Option V
lookup_pack slug kind [] = none
lookup_pack slug kind ((k, v) ∷ m) =
    if is_for k.0 k.1 slug kind then some v else lookup_pack slug kind m

abbrev pub erase_pack :
    {V : Type 0} → Text → PackKind → List ((Text × PackKind) × V) → List ((Text × PackKind) × V)
erase_pack slug kind [] = []
erase_pack slug kind ((k, v) ∷ m) =
    let rest = erase_pack slug kind m in if is_for k.0 k.1 slug kind then rest else (k, v) ∷ rest

abbrev pub insert_pack :
    {V : Type 0} → Text → PackKind → V → List ((Text × PackKind) × V) → List ((Text × PackKind) × V)
insert_pack slug kind v m = ((slug, kind), v) ∷ erase_pack slug kind m

abbrev pub fresh_packs : Text → PackKind → ActiveView
fresh_packs slug kind = pack_browser (record {
  slug = slug;
  kind = kind;
  search = [];
  is_searching = false;
  fetch_state = loading;
  results = [];
  selected = 0;
  scroll_offset = 0;
})

abbrev pub pack_search : AppState → Text → PackKind → Text → Effect
pack_search s slug kind query = search_packs slug kind query (mc_of (instance_of s slug))

abbrev pub open_pack_browser_arm : AppState → Text → PackKind → ViewStep
open_pack_browser_arm s slug kind =
    (fresh_packs slug kind, pack_search s slug kind [] ∷ fetch_installed_packs slug kind ∷ [])

abbrev pub loaded_packs :
    AppState → Text → PackKind → List ModrinthSearchHit → PackBrowser → PackBrowser
loaded_packs s slug kind hits b = record b {
  results = stamp_all (lookup_pack slug kind s.installed_pack_project_ids) hits;
  fetch_state = ready;
  selected = min b.selected (length hits - 1);
  scroll_offset = 0;
}

abbrev pub with_pack_icons : Bool → PackBrowser → ViewStep
with_pack_icons icons_on b = (
  pack_browser b,
  if icons_on then detail_icon (get_elem? b.results b.selected) (list_icons b.results) else [],
)

abbrev pub pack_browser_search_loaded_arm :
    AppState → Text → PackKind → List ModrinthSearchHit → ActiveView → ViewStep
pack_browser_search_loaded_arm s slug kind hits (pack_browser b) =
    if is_for b.slug b.kind slug kind
    then with_pack_icons s.icon_rendering_enabled (loaded_packs s slug kind hits b)
    else (pack_browser b, [])
pack_browser_search_loaded_arm s slug kind hits view = (view, [])

abbrev pub pack_browser_search_failed_arm : Text → PackKind → Text → ActiveView → ViewStep
pack_browser_search_failed_arm slug kind message (pack_browser b) = (
  pack_browser
      (if is_for b.slug b.kind slug kind then record b { fetch_state = error message } else b),
  [],
)
pack_browser_search_failed_arm slug kind message view = (view, [])

abbrev pub moved_packs : ℤ → PackBrowser → PackBrowser
moved_packs delta b =
    let len = length b.results in
    let new_idx = clamped len b.selected delta in
    if ltb 0 len
    then record b {
      selected = new_idx;
      scroll_offset = next_scroll_offset new_idx b.scroll_offset 8 len;
    }
    else b

abbrev pub pack_browser_move_arm : AppState → ℤ → ActiveView → ViewStep
pack_browser_move_arm s delta (pack_browser b) =
    let moved = moved_packs delta b in
    (
      pack_browser moved,
      if s.icon_rendering_enabled
          then detail_icon (get_elem? moved.results moved.selected) []
          else [],
    )
pack_browser_move_arm s delta view = (view, [])

-- The search sent again for the query as it now stands.
abbrev pub packs_again : AppState → PackBrowser → ViewStep
packs_again s b =
    (pack_browser (record b { fetch_state = loading }), pack_search s b.slug b.kind b.search ∷ [])

abbrev pub pack_browser_type_search_arm : AppState → ℕ → ActiveView → ViewStep
pack_browser_type_search_arm s c (pack_browser b) =
    packs_again s (record b { search = push b.search c })
pack_browser_type_search_arm s c view = (view, [])

abbrev pub pack_browser_backspace_search_arm : AppState → ActiveView → ViewStep
pack_browser_backspace_search_arm s (pack_browser b) =
    packs_again s (record b { search = pop b.search })
pack_browser_backspace_search_arm s view = (view, [])

abbrev pub pack_browser_paste_search_arm : AppState → Text → ActiveView → ViewStep
pack_browser_paste_search_arm s pasted (pack_browser b) =
    packs_again s (record b { is_searching = true; search = b.search ++ pasted })
pack_browser_paste_search_arm s pasted view = (view, [])

abbrev pub pack_browser_begin_search_arm : ActiveView → ViewStep
pack_browser_begin_search_arm (pack_browser b) =
    (pack_browser (record b { is_searching = true }), [])
pack_browser_begin_search_arm view = (view, [])

abbrev pub pack_browser_exit_search_arm : AppState → ActiveView → ViewStep
pack_browser_exit_search_arm s (pack_browser b) = (
  pack_browser (record b { is_searching = false; search = [] }),
  if is_empty b.search then [] else pack_search s b.slug b.kind [] ∷ [],
)
pack_browser_exit_search_arm s view = (view, [])

abbrev pub pack_drop_path_open_arm : Text → PackKind → ViewStep
pack_drop_path_open_arm slug kind =
    (pack_drop_path_input (record { slug = slug; kind = kind; buffer = []; error = none }), [])

-- A character typed and a text pasted are both appended.
abbrev pub pack_drop_path_type_arm : Text → ActiveView → ViewStep
pack_drop_path_type_arm typed (pack_drop_path_input d) =
    (pack_drop_path_input (record d { buffer = d.buffer ++ typed; error = none }), [])
pack_drop_path_type_arm typed view = (view, [])

abbrev pub pack_drop_path_backspace_arm : ActiveView → ViewStep
pack_drop_path_backspace_arm (pack_drop_path_input d) =
    (pack_drop_path_input (record d { buffer = pop d.buffer }), [])
pack_drop_path_backspace_arm view = (view, [])

abbrev pub pack_drop_path_submit_arm : ActiveView → ViewStep
pack_drop_path_submit_arm (pack_drop_path_input d) =
    if is_empty d.buffer
    then (pack_drop_path_input (record d { error = some (codes "Path cannot be empty") }), [])
    else (fresh_packs d.slug d.kind, drop_install_pack d.slug d.kind d.buffer ∷ [])
pack_drop_path_submit_arm view = (view, [])

abbrev pub back_to_packs : AppState → Text → PackKind → ViewStep
back_to_packs s slug kind = (fresh_packs slug kind, pack_search s slug kind [] ∷ [])

abbrev pub pack_drop_path_cancel_arm : AppState → ActiveView → ViewStep
pack_drop_path_cancel_arm s (pack_drop_path_input d) = back_to_packs s d.slug d.kind
pack_drop_path_cancel_arm s view = back_to_packs s [] resource

abbrev pub fetch_picked : AppState → Text → PackKind → Option ModrinthSearchHit → List Effect
fetch_picked s slug kind none = []
fetch_picked s slug kind (some hit) =
    fetch_pack_versions slug kind hit.project_id hit.slug hit.title (mc_of (instance_of s slug))
    ∷ []

abbrev pub install_pack_from_browser_arm : AppState → Text → PackKind → ActiveView → ViewStep
install_pack_from_browser_arm s slug kind (pack_browser b) =
    (pack_browser b, fetch_picked s slug kind (get_elem? b.results b.selected))
install_pack_from_browser_arm s slug kind view = (view, [])
