-- ===== src/Tui/Keys/Pickers.antt =====
-- The keys of the pickers and confirmations of src/tui/views and src/tui/run.rs.
use ichr.Base.{ℕ, Bool, false, ◌||◌, Option, none, some, Text, ◌==◌, if◌then◌else◌, ℤ, pos, negsuc}
use ichr.Tui.View.{
  ActiveView, create_modal, name_input, rename_inline, group_inline, loader_install_progress_modal,
  dep_confirm_modal,
}
use ichr.Tui.State.{AppState}
use ichr.Tui.Keys.{backspace, enter, esc, up, down, char, Event, key, paste, other_event, typed}
use ichr.Tui.PackAction.{
  cf_file_picker_move, cf_file_picker_confirm, import_path_cancel, import_path_submit,
  import_path_backspace_search, import_path_type_search, import_path_paste_search,
  pack_drop_path_cancel, pack_drop_path_submit, pack_drop_path_backspace, pack_drop_path_type,
  pack_drop_path_paste,
}
use ichr.Tui.Action.{
  Action, on_instances, on_java, on_loaders, on_mods, on_cf, on_modpacks, on_packs, close_modal,
  type_name, paste_name, backspace_name, submit_instance_name, type_rename, backspace_rename,
  submit_rename, type_group, backspace_group, submit_group, cancel_group_input, java_picker_move,
  java_picker_select, java_picker_cancel, loader_picker_move, loader_picker_select,
  loader_picker_cancel, loader_version_picker_move, toggle_stable_filter,
  loader_version_type_search, loader_version_backspace_search, loader_version_select,
  loader_version_picker_cancel, cancel_loader_install, mod_version_picker_move,
  mod_version_picker_select, mod_version_picker_cancel, confirm_mod_install, cancel_mod_install,
}

-- A list of rows: the arrows or k and j, the key Enter and the key Esc.
abbrev pub row_keys : (ℤ → Action) → Action → Action → Event → Option Action
row_keys move select leave (key e) = elim e.code [
  | up ↦ some (move (negsuc 0))
  | down ↦ some (move (pos 1))
  | char c ↦
      if c == b'k' then some (move (negsuc 0)) else if c == b'j' then some (move (pos 1)) else none
  | enter ↦ some select
  | esc ↦ some leave
  | _ ↦ none
]
row_keys move select leave _ = none

abbrev pub map_java_picker_event : Event → Option Action
map_java_picker_event ev =
    row_keys (λ d. on_java (java_picker_move d)) (on_java java_picker_select)
      (on_java java_picker_cancel) ev

abbrev pub map_loader_picker_event : Event → Option Action
map_loader_picker_event ev =
    row_keys (λ d. on_loaders (loader_picker_move d)) (on_loaders loader_picker_select)
      (on_loaders loader_picker_cancel) ev

abbrev pub map_mod_version_picker_event : Event → Option Action
map_mod_version_picker_event ev =
    row_keys (λ d. on_mods (mod_version_picker_move d)) (on_mods mod_version_picker_select)
      (on_mods mod_version_picker_cancel) ev

abbrev pub map_cf_file_picker_event : Event → Option Action
map_cf_file_picker_event ev =
    row_keys (λ d. on_cf (cf_file_picker_move d)) (on_cf cf_file_picker_confirm)
      (on_instances close_modal) ev

abbrev pub map_loader_version_picker_event : Event → Option Action
map_loader_version_picker_event (key e) = elim e.code [
  | up ↦ some (on_loaders (loader_version_picker_move (negsuc 0)))
  | down ↦ some (on_loaders (loader_version_picker_move (pos 1)))
  | char c ↦
      if c == b'k'
      then some (on_loaders (loader_version_picker_move (negsuc 0)))
      else if c == b'j'
      then some (on_loaders (loader_version_picker_move (pos 1)))
      else if c == b's'
      then some (on_loaders toggle_stable_filter)
      else typed (λ x. on_loaders (loader_version_type_search x)) c e.modifiers
  | backspace ↦ some (on_loaders loader_version_backspace_search)
  | enter ↦ some (on_loaders loader_version_select)
  | esc ↦ some (on_loaders loader_version_picker_cancel)
  | _ ↦ none
]
map_loader_version_picker_event _ = none

-- A modal that Esc alone leaves.
abbrev pub esc_key : Action → Event → Option Action
esc_key leave (key e) = elim e.code [ esc ↦ some leave | _ ↦ none ]
esc_key leave _ = none

abbrev pub map_loader_install_progress_event : Event → AppState → Option Action
map_loader_install_progress_event ev s = elim s.active_view [
  | loader_install_progress_modal p ↦ esc_key (on_loaders (cancel_loader_install p.slug)) ev
  | _ ↦ none
]

-- A question: y or Y, and any other key.
abbrev pub yes_no : Action → Action → Event → Option Action
yes_no agree refuse (key e) = elim e.code [
  | char c ↦ if c == b'y' || c == b'Y' then some agree else some refuse
  | _ ↦ some refuse
]
yes_no agree refuse _ = none

abbrev pub has_conflict_shown : ActiveView → Bool
has_conflict_shown (dep_confirm_modal c) = c.has_conflict
has_conflict_shown _ = false

abbrev pub map_dep_confirm_event : Event → AppState → Option Action
map_dep_confirm_event ev s =
    yes_no
      (if has_conflict_shown s.active_view
        then on_mods cancel_mod_install
        else on_mods confirm_mod_install)
      (on_mods cancel_mod_install) ev

-- A text field: Esc, Enter, Backspace, a character typed and, where it takes one, a text pasted.
abbrev pub text_keys :
    Action → Option Action → Action → (ℕ → Action) → (Text → Option Action) → Event → Option Action
text_keys leave submit remove type_char take_paste (key e) = elim e.code [
  | esc ↦ some leave
  | backspace ↦ some remove
  | enter ↦ submit
  | char c ↦ typed type_char c e.modifiers
  | _ ↦ none
]
text_keys leave submit remove type_char take_paste (paste s) = take_paste s
text_keys leave submit remove type_char take_paste other_event = none

abbrev pub name_submitted : ActiveView → Option Action
name_submitted (create_modal (name_input current error)) =
    some (on_instances (submit_instance_name current))
name_submitted _ = none

abbrev pub map_name_input_event : Event → AppState → Option Action
map_name_input_event ev s =
    text_keys (on_instances close_modal) (name_submitted s.active_view)
      (on_instances backspace_name) (λ c. on_instances (type_name c))
      (λ t. some (on_instances (paste_name t))) ev

abbrev pub rename_submitted : ActiveView → Option Action
rename_submitted (rename_inline slug current original) = some (on_instances (submit_rename current))
rename_submitted _ = none

abbrev pub map_rename_inline_event : Event → AppState → Option Action
map_rename_inline_event ev s =
    text_keys (on_instances close_modal) (rename_submitted s.active_view)
      (on_instances backspace_rename) (λ c. on_instances (type_rename c)) (λ t. none) ev

abbrev pub group_submitted : ActiveView → Option Action
group_submitted (group_inline slug buffer original) = some (on_instances submit_group)
group_submitted _ = none

abbrev pub map_group_inline_event : Event → AppState → Option Action
map_group_inline_event ev s =
    text_keys (on_instances cancel_group_input) (group_submitted s.active_view)
      (on_instances backspace_group) (λ c. on_instances (type_group c)) (λ t. none) ev

abbrev pub map_modpack_import_path_event : Event → Option Action
map_modpack_import_path_event ev =
    text_keys (on_modpacks import_path_cancel) (some (on_modpacks import_path_submit))
      (on_modpacks import_path_backspace_search) (λ c. on_modpacks (import_path_type_search c))
      (λ t. some (on_modpacks (import_path_paste_search t))) ev

abbrev pub map_pack_drop_path_event : Event → Option Action
map_pack_drop_path_event ev =
    text_keys (on_packs pack_drop_path_cancel) (some (on_packs pack_drop_path_submit))
      (on_packs pack_drop_path_backspace) (λ c. on_packs (pack_drop_path_type c))
      (λ t. some (on_packs (pack_drop_path_paste t))) ev
