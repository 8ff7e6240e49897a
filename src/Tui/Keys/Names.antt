-- ===== src/Tui/Keys/Names.antt =====
-- The names of actions in a configuration, and the bindings that it gives, in
-- src/config/keybinds.rs.
use ichr.Base.{
  Bool, Option, none, some, List, [], ◌∷◌, Text, codes, text_eq, lookup, if◌then◌else◌, Result, err,
  ok,
}
use ichr.Tui.Keys.{
  KeySpec, ActionKey, key_quit, key_create_instance, key_modpack_import, key_launch,
  key_loader_picker, key_mod_browser, key_installed_mods, key_resource_browser, key_shader_browser,
  key_accounts_list, key_java_picker, key_cf_browser, key_begin_search, key_toggle_mc_filter,
  key_toggle_loader_filter, Keybinds, default_keybinds,
}

unfoldable pub action_to_snake : ActionKey → Text
action_to_snake key_quit = codes "quit"
action_to_snake key_create_instance = codes "open_create_instance"
action_to_snake key_modpack_import = codes "open_modpack_import"
action_to_snake key_launch = codes "launch_instance"
action_to_snake key_loader_picker = codes "open_loader_picker"
action_to_snake key_mod_browser = codes "open_mod_browser"
action_to_snake key_installed_mods = codes "open_installed_mods"
action_to_snake key_resource_browser = codes "open_pack_resource_browser"
action_to_snake key_shader_browser = codes "open_pack_shader_browser"
action_to_snake key_accounts_list = codes "open_accounts_list"
action_to_snake key_java_picker = codes "open_java_picker"
action_to_snake key_cf_browser = codes "open_cf_browser"
action_to_snake key_begin_search = codes "browser_begin_search"
action_to_snake key_toggle_mc_filter = codes "browser_toggle_mc_filter"
action_to_snake key_toggle_loader_filter = codes "browser_toggle_loader_filter"

-- The arms of `snake_to_action`, in order.
unfoldable pub named_actions : List (Text × ActionKey)
named_actions =
    (codes "quit", key_quit)
    ∷ (codes "open_create_instance", key_create_instance)
    ∷ (codes "open_modpack_import", key_modpack_import)
    ∷ (codes "launch_instance", key_launch)
    ∷ (codes "open_loader_picker", key_loader_picker)
    ∷ (codes "open_mod_browser", key_mod_browser)
    ∷ (codes "open_installed_mods", key_installed_mods)
    ∷ (codes "open_pack_resource_browser", key_resource_browser)
    ∷ (codes "open_pack_shader_browser", key_shader_browser)
    ∷ (codes "open_accounts_list", key_accounts_list)
    ∷ (codes "open_java_picker", key_java_picker)
    ∷ (codes "open_cf_browser", key_cf_browser)
    ∷ (codes "browser_begin_search", key_begin_search)
    ∷ (codes "browser_toggle_mc_filter", key_toggle_mc_filter)
    ∷ (codes "browser_toggle_loader_filter", key_toggle_loader_filter)
    ∷ []

unfoldable pub snake_to_action : Text → Option ActionKey
unfolding named_actions lookup text_eq
snake_to_action s = lookup s named_actions

-- `==` of actions, each of which has its own name.
unfoldable pub action_eq : ActionKey → ActionKey → Bool
unfolding action_to_snake text_eq
action_eq a b = text_eq (action_to_snake a) (action_to_snake b)

-- `HashMap::insert`
unfoldable pub bound : Keybinds → ActionKey → KeySpec → Keybinds
unfolding action_eq
bound binds action spec a = if action_eq action a then some spec else binds a

abbrev pub known_or :
    Text → Option ActionKey → (ActionKey → Result Text Keybinds) → Result Text Keybinds
known_or name none next = err name
known_or name (some action) next = next action

-- The loop over the entries of a table; of the error for an unknown name the name is kept.
unfoldable pub merged : Keybinds → List (Text × KeySpec) → Result Text Keybinds
unfolding snake_to_action bound
merged binds [] = ok binds
merged binds ((name, spec) ∷ raw) =
    known_or name (snake_to_action name) (λ action. merged (bound binds action spec) raw)

-- `Keybinds::deserialize`, behind the table of names and keys.
unfoldable pub deserialize : List (Text × KeySpec) → Result Text Keybinds
unfolding merged
deserialize raw = merged default_keybinds raw
