-- ===== src/Tui/Keys/Instances.antt =====
-- The keys of the list of instances, of accounts and of the version picker, in src/tui/run.rs.
use ichr.Base.{
  ℕ, Bool, not, ◌&&◌, ◌||◌, Option, none, some, List, [], ◌∷◌, Text, codes, text_eq, has_text,
  is_empty, filter, ◌==◌, if◌then◌else◌, pos, negsuc, get_elem?, is_some, lookup,
}
use ichr.Domain.Account.{Account}
use ichr.Domain.Instance.{InstanceManifest}
use ichr.Mojang.Types.{VersionEntry}
use ichr.Mods.Filter.{to_ascii_lowercase}
use ichr.Packs.{PackKind, resource, shader}
use ichr.Tui.View.{
  VersionFilter, releases, all_versions, create_modal, version_picker, instance_list, accounts_list,
}
use ichr.Tui.State.{AppState, or_empty}
use ichr.Tui.Keys.{
  KeyCode, backspace, enter, esc, up, down, char, KeyEvent, Event, key, typed, Keybinds,
  key_matches, key_quit, key_create_instance, key_modpack_import, key_launch, key_loader_picker,
  key_mod_browser, key_installed_mods, key_resource_browser, key_shader_browser, key_accounts_list,
  key_java_picker, key_cf_browser,
}
use ichr.Tui.PackAction.{open_cf_browser, open_modpack_import, open_pack_browser}
use ichr.Tui.Action.{
  Action, quit, on_instances, on_accounts, on_java, on_loaders, on_launches, on_mods, on_cf,
  on_modpacks, on_packs, open_create_modal, close_modal, move_selection, open_delete_confirm,
  open_rename_inline, open_group_input, clone_selected, set_version_filter, type_search,
  backspace_search, select_version, open_accounts, close_accounts, add_account, remove_account,
  activate_account, open_java_picker, open_loader_picker, launch_instance, stop_instance,
  open_mod_browser, open_installed_mods,
}
use ichr.Tui.Update.Launches.{is_running}
use ichr.Tui.Update.Mods.{is_installing}
use ichr.Tui.Update.Packs.{lookup_pack}

abbrev pub unless : Bool → Action → Option Action
unless blocked action = if blocked then none else some action

-- The instance that the list highlights.
abbrev pub highlighted : AppState → Option InstanceManifest
highlighted s = elim s.active_view [
  | instance_list selected ↦ get_elem? s.instances selected
  | _ ↦ none
]

abbrev pub pack_key : AppState → Text → PackKind → Option Action
pack_key s slug kind =
    unless (is_some (lookup_pack slug kind s.running_pack_jobs))
      (on_packs (open_pack_browser slug kind))

-- Keys that the configuration binds to an action on the highlighted instance; the outer option is
-- whether the key is bound.
abbrev pub bound_on : Keybinds → AppState → KeyEvent → InstanceManifest → Option (Option Action)
bound_on kb s e m =
    if key_matches kb key_launch e
    then some (unless (is_running s m.slug) (on_launches (launch_instance m.slug)))
    else if key_matches kb key_java_picker e
    then some (unless (is_running s m.slug) (on_java (open_java_picker m.slug)))
    else if key_matches kb key_loader_picker e
    then some (
        unless (is_running s m.slug || is_some (lookup m.slug s.running_loader_installs))
          (on_loaders (open_loader_picker m.slug)))
    else if key_matches kb key_mod_browser e
    then some (unless (is_installing s m.slug) (on_mods (open_mod_browser m.slug)))
    else if key_matches kb key_installed_mods e
    then some (some (on_mods (open_installed_mods m.slug)))
    else if key_matches kb key_cf_browser e
    then some (
        if s.cf_api_key_present && not (is_installing s m.slug)
        then some (on_cf (open_cf_browser m.slug))
        else none)
    else if key_matches kb key_resource_browser e
    then some (pack_key s m.slug resource)
    else if key_matches kb key_shader_browser e
    then some (pack_key s m.slug shader)
    else none

abbrev pub bound_on_some :
    Keybinds → AppState → KeyEvent → Option InstanceManifest → Option (Option Action)
bound_on_some kb s e none = none
bound_on_some kb s e (some m) = bound_on kb s e m

abbrev pub bound : Keybinds → AppState → KeyEvent → Option (Option Action)
bound kb s e =
    if key_matches kb key_quit e
    then some (some quit)
    else if key_matches kb key_create_instance e
    then some (some (on_instances open_create_modal))
    else if key_matches kb key_modpack_import e
    then some (some (on_modpacks open_modpack_import))
    else if key_matches kb key_accounts_list e
    then some (some (on_accounts open_accounts))
    else bound_on_some kb s e (highlighted s)

abbrev pub fixed_char : AppState → ℕ → InstanceManifest → Option Action
fixed_char s c m =
    if c == b's'
    then (if is_running s m.slug then some (on_launches (stop_instance m.slug)) else none)
    else if c == b'r'
    then some (on_instances (open_rename_inline m.slug m.display_name))
    else if c == b'd'
    then unless (is_running s m.slug) (on_instances (open_delete_confirm m.slug m.display_name))
    else if c == b'g'
    then some (on_instances (open_group_input m.slug (or_empty m.group)))
    else none

abbrev pub fixed_on : AppState → ℕ → Option InstanceManifest → Option Action
fixed_on s c none = none
fixed_on s c (some m) = fixed_char s c m

-- The keys that have no configuration.
abbrev pub fixed_key : AppState → KeyCode → Option Action
fixed_key s esc = some quit
fixed_key s down = some (on_instances (move_selection (pos 1)))
fixed_key s up = some (on_instances (move_selection (negsuc 0)))
fixed_key s (char c) =
    if c == b'x'
    then some (on_instances clone_selected)
    else if c == b'k'
    then some (on_instances (move_selection (negsuc 0)))
    else fixed_on s c (highlighted s)
fixed_key s _ = none

abbrev pub bound_or : Option (Option Action) → Option Action → Option Action
bound_or none other = other
bound_or (some action) other = action

abbrev pub map_instance_list_event : Keybinds → Event → AppState → Option Action
map_instance_list_event kb (key e) s = bound_or (bound kb s e) (fixed_key s e.code)
map_instance_list_event kb _ s = none

abbrev pub on_account : (Text → Action) → Option Account → Option Action
on_account act none = none
on_account act (some a) = some (act a.id)

abbrev pub highlighted_account : AppState → Option Account
highlighted_account s = elim s.active_view [
  | accounts_list selected ↦ get_elem? s.accounts selected
  | _ ↦ none
]

abbrev pub map_accounts_list_event : Event → AppState → Option Action
map_accounts_list_event (key e) s = elim e.code [
  | esc ↦ some (on_accounts close_accounts)
  | enter ↦ on_account (λ id. on_accounts (activate_account id)) (highlighted_account s)
  | down ↦ some (on_instances (move_selection (pos 1)))
  | up ↦ some (on_instances (move_selection (negsuc 0)))
  | char c ↦
      if c == b'a'
      then some (on_accounts add_account)
      else if c == b'x'
      then on_account (λ id. on_accounts (remove_account id)) (highlighted_account s)
      else if c == b'j'
      then some (on_instances (move_selection (pos 1)))
      else if c == b'k'
      then some (on_instances (move_selection (negsuc 0)))
      else none
  | _ ↦ none
]
map_accounts_list_event _ s = none

abbrev pub of_filter : VersionFilter → VersionEntry → Bool
of_filter releases v = text_eq v.version_type (codes "release")
of_filter all_versions v =
    text_eq v.version_type (codes "release") || text_eq v.version_type (codes "snapshot")

abbrev pub of_search : Text → VersionEntry → Bool
of_search search_lc v = is_empty search_lc || has_text (to_ascii_lowercase v.id) search_lc

abbrev pub filter_version_list : List VersionEntry → VersionFilter → Text → List VersionEntry
filter_version_list versions f search =
    filter (λ v. of_filter f v && of_search (to_ascii_lowercase search) v) versions

abbrev pub other_filter : VersionFilter → VersionFilter
other_filter releases = all_versions
other_filter all_versions = releases

abbrev pub first_version : List VersionEntry → Option Action
first_version [] = none
first_version (v ∷ rest) = some (on_instances (select_version v.id))

abbrev pub first_visible : AppState → Option Action
first_visible s = elim s.active_view [
  | create_modal step ↦ elim step [
    | version_picker name f search error ↦ first_version (filter_version_list s.versions f search)
    | _ ↦ none
  ]
  | _ ↦ none
]

abbrev pub map_version_picker_event : Event → AppState → Option Action
map_version_picker_event (key e) s = elim e.code [
  | esc ↦ some (on_instances close_modal)
  | backspace ↦ some (on_instances backspace_search)
  | enter ↦ first_visible s
  | char c ↦
      if c == b't'
      then some (on_instances (set_version_filter (other_filter s.versions_filter)))
      else typed (λ x. on_instances (type_search x)) c e.modifiers
  | _ ↦ none
]
map_version_picker_event _ s = none
