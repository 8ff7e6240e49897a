-- ===== src/Tui/KeyTests.antt =====
-- Keys pressed in small states of the interface, and instances of the theorems on them.
use ichr.Base.{
  Text, List, [], ◌∷◌, err, ok, or_else, ℕ, true, false, none, some, codes, ◌≡◌, refl, text_eq,
  lookup,
}
use ichr.Tui.View.{accounts_list}
use ichr.Tui.State.{AppState}
use ichr.Tui.Keys.{
  KeySpec, ActionKey, key_quit, key_launch, Keybinds, Event, key, char, enter, plain,
  default_keybinds, key_matches,
}
use ichr.Tui.Keys.Names.{action_to_snake, snake_to_action, deserialize}
use ichr.Tui.KeyNames.{deserialize-lookup}
use ichr.Tui.Keys.Maps.{handle, map_event}
use ichr.Tui.Action.{on_launches, launch_instance}
use ichr.Tui.Update.Step.{update}
use ichr.Tui.Update.Launches.{is_running}
use ichr.Tui.Escape.{in_list, press_esc, press_esc_three}
use ichr.Tui.KeyGuards.{handle-changes}
use ichr.Tui.Tests.{start, in_browser}

abbrev pressed : ℕ → Event
pressed c = key (record { code = char c; modifiers = plain })

abbrev enter_pressed : Event
enter_pressed = key (record { code = enter; modifiers = plain })

abbrev in_accounts : AppState
in_accounts = record start { active_view = accounts_list 0 }

-- Enter launches the highlighted instance.
enter_launches :
    map_event default_keybinds enter_pressed start
    ≡ some (on_launches (launch_instance (codes "pack")))
unfolding text_eq lookup key_matches
enter_launches = refl

press_esc_three_example : in_list (press_esc none default_keybinds 3 in_browser).active_view ≡ true
press_esc_three_example = press_esc_three none default_keybinds in_browser

handle-changes_example : is_running start (codes "pack") ≡ false
unfolding handle update key_matches lookup text_eq
handle-changes_example =
    handle-changes none default_keybinds start (pressed b'd') 0 (codes "pack") refl refl

abbrev table : List (Text × KeySpec)
table =
    (codes "quit", record { code = char b'x'; modifiers = plain })
    ∷ (codes "launch_instance", record { code = char b'l'; modifiers = plain })
    ∷ []

unknown_action :
    deserialize ((codes "stop", record { code = enter; modifiers = plain }) ∷ [])
    ≡ err (codes "stop")
unfolding deserialize
unknown_action = refl

deserialize-lookup_example :
    (out : Keybinds) × (deserialize table ≡ ok out)
    × ((a : ActionKey) → out a ≡ or_else (lookup (action_to_snake a) table) (default_keybinds a))
unfolding lookup text_eq snake_to_action
deserialize-lookup_example =
    deserialize-lookup table (refl, (refl, tt)) ((key_quit, refl), ((key_launch, refl), tt))
