-- ===== src/Tui/Keys/Browsers.antt =====
-- The keys of the browsers and lists of src/tui/views.
use ichr.Base.{
  ℕ, Bool, true, false, ◌&&◌, Option, none, some, Text, ◌==◌, if◌then◌else◌, pos, negsuc, get_elem?,
  is_empty,
}
use ichr.Packs.{PackKind, resource, shader}
use ichr.Mods.Hits.{CurseForgeSearchHit}
use ichr.Tui.View.{ActiveView, mod_browser, cf_browser, pack_browser, installed_packs_list}
use ichr.Tui.View.Browsers.{PackBrowser}
use ichr.Tui.State.{AppState}
use ichr.Tui.Keys.{
  KeyCode, backspace, enter, esc, up, down, tab, char, Event, key, paste, other_event, typed,
}
use ichr.Tui.PackAction.{
  cf_browser_move_selection, cf_browser_backspace_search, cf_browser_open_detail,
  cf_browser_toggle_mc_filter, cf_browser_toggle_loader_filter, cf_browser_type_search,
  cf_browser_paste_search, pack_browser_move, install_pack_from_browser, pack_browser_exit_search,
  pack_browser_close, pack_browser_backspace_search, pack_browser_type_search,
  pack_browser_paste_search, pack_browser_begin_search, pack_drop_path_open, installed_packs_move,
  installed_packs_cycle_kind, toggle_pack_enabled, shader_toggle_notice,
  open_uninstall_pack_confirm,
}
use ichr.Tui.Action.{
  Action, on_instances, on_mods, on_cf, on_packs, close_modal, mod_browser_move,
  mod_browser_open_versions, mod_browser_exit_search, mod_browser_cancel,
  mod_browser_backspace_search, mod_browser_type_search, mod_browser_paste_search,
  mod_browser_begin_search, toggle_mod_mc_filter, toggle_mod_loader_filter, installed_mods_move,
  toggle_mod_enabled, open_uninstall_mod_confirm, close_installed_mods,
}

abbrev pub mod_searching : ActiveView → Bool
mod_searching (mod_browser b) = b.is_searching
mod_searching _ = false

-- A key that is a command while no text is typed.
abbrev pub browse_char : ℕ → Option Action
browse_char c =
    if c == b'/'
    then some (on_mods mod_browser_begin_search)
    else if c == b'v'
    then some (on_mods toggle_mod_mc_filter)
    else if c == b'l'
    then some (on_mods toggle_mod_loader_filter)
    else if c == b'k'
    then some (on_mods (mod_browser_move (negsuc 0)))
    else if c == b'j'
    then some (on_mods (mod_browser_move (pos 1)))
    else none

abbrev pub mod_browser_key : Bool → KeyCode → Bool → Option Action
mod_browser_key searching up control = some (on_mods (mod_browser_move (negsuc 0)))
mod_browser_key searching down control = some (on_mods (mod_browser_move (pos 1)))
mod_browser_key searching enter control = some (on_mods mod_browser_open_versions)
mod_browser_key searching esc control =
    some (if searching then on_mods mod_browser_exit_search else on_mods mod_browser_cancel)
mod_browser_key searching backspace control =
    if searching then some (on_mods mod_browser_backspace_search) else none
mod_browser_key searching (char c) true = none
mod_browser_key true (char c) false = some (on_mods (mod_browser_type_search c))
mod_browser_key false (char c) false = browse_char c
mod_browser_key searching _ control = none

abbrev pub map_mod_browser_event : Event → AppState → Option Action
map_mod_browser_event (key e) s =
    mod_browser_key (mod_searching s.active_view) e.code e.modifiers.control
map_mod_browser_event (paste t) s = some (on_mods (mod_browser_paste_search t))
map_mod_browser_event other_event s = none

abbrev pub cf_char : Bool → ℕ → Action
cf_char search_empty c =
    if search_empty && c == b'v'
    then on_cf cf_browser_toggle_mc_filter
    else if search_empty && c == b'l'
    then on_cf cf_browser_toggle_loader_filter
    else if search_empty && c == b'k'
    then on_cf (cf_browser_move_selection (negsuc 0))
    else if search_empty && c == b'j'
    then on_cf (cf_browser_move_selection (pos 1))
    else on_cf (cf_browser_type_search c)

abbrev pub open_detail : Text → Option CurseForgeSearchHit → Option Action
open_detail slug none = none
open_detail slug (some hit) = some (on_cf (cf_browser_open_detail slug hit.id))

abbrev pub cf_opened : ActiveView → Option Action
cf_opened (cf_browser b) = open_detail b.slug (get_elem? b.results b.selected)
cf_opened _ = none

abbrev pub cf_search_empty : ActiveView → Bool
cf_search_empty (cf_browser b) = is_empty b.search_input
cf_search_empty _ = true

abbrev pub map_cf_browser_event : Event → AppState → Option Action
map_cf_browser_event (key e) s = elim e.code [
  | up ↦ some (on_cf (cf_browser_move_selection (negsuc 0)))
  | down ↦ some (on_cf (cf_browser_move_selection (pos 1)))
  | esc ↦ some (on_instances close_modal)
  | backspace ↦ some (on_cf cf_browser_backspace_search)
  | enter ↦ cf_opened s.active_view
  | char c ↦ typed (cf_char (cf_search_empty s.active_view)) c e.modifiers
  | _ ↦ none
]
map_cf_browser_event (paste t) s = some (on_cf (cf_browser_paste_search t))
map_cf_browser_event other_event s = none

abbrev pub pack_char : PackBrowser → ℕ → Option Action
pack_char b c =
    if c == b'/'
    then some (on_packs pack_browser_begin_search)
    else if c == b'D'
    then some (on_packs (pack_drop_path_open b.slug b.kind))
    else if c == b'k'
    then some (on_packs (pack_browser_move (negsuc 0)))
    else if c == b'j'
    then some (on_packs (pack_browser_move (pos 1)))
    else none

abbrev pub pack_browser_key : PackBrowser → Bool → KeyCode → Bool → Option Action
pack_browser_key b searching up control = some (on_packs (pack_browser_move (negsuc 0)))
pack_browser_key b searching down control = some (on_packs (pack_browser_move (pos 1)))
pack_browser_key b searching enter control =
    some (on_packs (install_pack_from_browser b.slug b.kind))
pack_browser_key b searching esc control =
    some (if searching then on_packs pack_browser_exit_search else on_packs pack_browser_close)
pack_browser_key b searching backspace control =
    if searching then some (on_packs pack_browser_backspace_search) else none
pack_browser_key b searching (char c) true = none
pack_browser_key b true (char c) false = some (on_packs (pack_browser_type_search c))
pack_browser_key b false (char c) false = pack_char b c
pack_browser_key b searching _ control = none

abbrev pub pack_browser_event : PackBrowser → Event → Option Action
pack_browser_event b (key e) = pack_browser_key b b.is_searching e.code e.modifiers.control
pack_browser_event b (paste t) = some (on_packs (pack_browser_paste_search t))
pack_browser_event b other_event = none

abbrev pub map_pack_browser_event : Event → AppState → Option Action
map_pack_browser_event ev s = elim s.active_view [
  | pack_browser b ↦ pack_browser_event b ev
  | _ ↦ none
]

abbrev pub map_installed_mods_list_event : Event → Option Action
map_installed_mods_list_event (key e) = elim e.code [
  | up ↦ some (on_mods (installed_mods_move (negsuc 0)))
  | down ↦ some (on_mods (installed_mods_move (pos 1)))
  | tab ↦ some (on_packs installed_packs_cycle_kind)
  | esc ↦ some (on_mods close_installed_mods)
  | char c ↦
      if c == b'k'
      then some (on_mods (installed_mods_move (negsuc 0)))
      else if c == b'j'
      then some (on_mods (installed_mods_move (pos 1)))
      else if c == b'e'
      then some (on_mods toggle_mod_enabled)
      else if c == b'x'
      then some (on_mods open_uninstall_mod_confirm)
      else none
  | _ ↦ none
]
map_installed_mods_list_event _ = none

abbrev pub toggle_key : PackKind → Action
toggle_key resource = on_packs toggle_pack_enabled
toggle_key shader = on_packs shader_toggle_notice

abbrev pub pack_list_event : PackKind → Event → Option Action
pack_list_event kind (key e) = elim e.code [
  | up ↦ some (on_packs (installed_packs_move (negsuc 0)))
  | down ↦ some (on_packs (installed_packs_move (pos 1)))
  | tab ↦ some (on_packs installed_packs_cycle_kind)
  | esc ↦ some (on_mods close_installed_mods)
  | char c ↦
      if c == b'k'
      then some (on_packs (installed_packs_move (negsuc 0)))
      else if c == b'j'
      then some (on_packs (installed_packs_move (pos 1)))
      else if c == b'e'
      then some (toggle_key kind)
      else if c == b'x'
      then some (on_packs open_uninstall_pack_confirm)
      else none
  | _ ↦ none
]
pack_list_event kind _ = none

abbrev pub map_installed_packs_list_event : Event → AppState → Option Action
map_installed_packs_list_event ev s = elim s.active_view [
  | installed_packs_list l ↦ pack_list_event l.kind ev
  | _ ↦ none
]
