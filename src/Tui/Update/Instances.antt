-- ===== src/Tui/Update/Instances.antt =====
-- The arms of `update` in src/tui/app.rs that create, rename, copy, delete and group instances.
use ichr.Base.{
  ℕ, Option, none, some, List, [], ◌∷◌, ◌++◌, length, find, Text, codes, text_eq, ltb,
  if◌then◌else◌, ℤ, shift, rem_euclid, pop, is_empty, trim, get_elem?,
}
use ichr.Domain.Instance.{InstanceManifest}
use ichr.Mojang.Types.{VersionEntry}
use ichr.Tui.View.{
  VersionFilter, ActiveView, create_modal, delete_confirm, rename_inline, group_inline,
  instance_list, accounts_list, name_input, version_picker, default_view,
}
use ichr.Tui.Effect.{
  Effect, fetch_manifest, rename_instance, clone_instance, create_instance, delete_instance,
  set_group,
}
use ichr.Tui.State.{AppState, Step, ViewStep}

-- `if len > 0 { selected = (selected as isize + delta).rem_euclid(len) }`
abbrev pub wrapped : ℕ → ℕ → ℤ → ℕ
wrapped len selected delta = if ltb 0 len then rem_euclid (shift selected delta) len else selected

-- An arm that goes back to the default view and starts nothing.
abbrev pub to_default : ViewStep
to_default = (default_view, [])

abbrev pub open_create_modal_arm : ViewStep
open_create_modal_arm = (create_modal (name_input [] none), fetch_manifest ∷ [])

abbrev pub open_delete_confirm_arm : Text → Text → ViewStep
open_delete_confirm_arm slug display_name = (delete_confirm slug display_name, [])

abbrev pub open_rename_inline_arm : Text → Text → ViewStep
open_rename_inline_arm slug current = (rename_inline slug current current, [])

abbrev pub move_selection_arm : AppState → ℤ → ActiveView → ViewStep
move_selection_arm s delta (instance_list selected) =
    (instance_list (wrapped (length s.instances) selected delta), [])
move_selection_arm s delta (accounts_list selected) =
    (accounts_list (wrapped (length s.accounts) selected delta), [])
move_selection_arm s delta view = (view, [])

-- A character typed and a text pasted are both appended.
abbrev pub type_name_arm : Text → ActiveView → ViewStep
type_name_arm typed (create_modal (name_input current error)) =
    (create_modal (name_input (current ++ typed) none), [])
type_name_arm typed view = (view, [])

abbrev pub backspace_name_arm : ActiveView → ViewStep
backspace_name_arm (create_modal (name_input current error)) =
    (create_modal (name_input (pop current) error), [])
backspace_name_arm view = (view, [])

abbrev pub name_refused : ActiveView → ViewStep
name_refused (create_modal (name_input current error)) =
    (create_modal (name_input current (some (codes "name cannot be empty"))), [])
name_refused view = (view, [])

abbrev pub submit_instance_name_arm : AppState → Text → ActiveView → ViewStep
submit_instance_name_arm s name view =
    if is_empty (trim name)
    then name_refused view
    else (create_modal (version_picker (trim name) s.versions_filter [] none), [])

abbrev pub filter_shown : VersionFilter → ActiveView → ActiveView
filter_shown f (create_modal (version_picker name filter search error)) =
    create_modal (version_picker name f search error)
filter_shown f view = view

abbrev pub set_version_filter_arm : AppState → VersionFilter → Step
set_version_filter_arm s f =
    (record s { versions_filter = f; active_view = filter_shown f s.active_view }, [])

-- The three edits of the search: a character typed, one removed, all removed.
abbrev pub edit_search_arm : (Text → Text) → ActiveView → ViewStep
edit_search_arm edit (create_modal (version_picker name filter search error)) =
    (create_modal (version_picker name filter (edit search) error), [])
edit_search_arm edit view = (view, [])

abbrev pub create_with : Option VersionEntry → ActiveView → ViewStep
create_with (some v) (create_modal (version_picker name filter search error)) =
    (default_view, create_instance name v.id v.url v.sha1 ∷ [])
create_with entry view = (view, [])

abbrev pub select_version_arm : AppState → Text → ActiveView → ViewStep
select_version_arm s id view = create_with (find (λ v. text_eq v.id id) s.versions) view

abbrev pub edit_rename_arm : (Text → Text) → ActiveView → ViewStep
edit_rename_arm edit (rename_inline slug current original) =
    (rename_inline slug (edit current) original, [])
edit_rename_arm edit view = (view, [])

abbrev pub submit_rename_arm : Text → ActiveView → ViewStep
submit_rename_arm new_name (rename_inline slug current original) = (
  default_view,
  if is_empty (trim new_name) then [] else rename_instance slug (trim new_name) ∷ [],
)
submit_rename_arm new_name view = (view, [])

abbrev pub clone_of : Option InstanceManifest → List Effect
clone_of (some m) = clone_instance m.slug (m.display_name ++ codes " (Copy)") ∷ []
clone_of none = []

abbrev pub clone_selected_arm : AppState → ActiveView → ViewStep
clone_selected_arm s (instance_list selected) =
    (instance_list selected, clone_of (get_elem? s.instances selected))
clone_selected_arm s view = (view, [])

abbrev pub confirm_delete_arm : ActiveView → ViewStep
confirm_delete_arm (delete_confirm slug display_name) = (default_view, delete_instance slug ∷ [])
confirm_delete_arm view = (view, [])

-- A text, or nothing where it is empty.
abbrev pub non_empty : Text → Option Text
non_empty t = if is_empty t then none else some t

abbrev pub open_group_input_arm : Text → Text → ViewStep
open_group_input_arm slug current = (group_inline slug current (non_empty current), [])

abbrev pub edit_group_arm : (Text → Text) → ActiveView → ViewStep
edit_group_arm edit (group_inline slug buffer original) =
    (group_inline slug (edit buffer) original, [])
edit_group_arm edit view = (view, [])

abbrev pub submit_group_arm : ActiveView → ViewStep
submit_group_arm (group_inline slug buffer original) =
    (default_view, set_group slug (non_empty (trim buffer)) ∷ [])
submit_group_arm view = (view, [])
