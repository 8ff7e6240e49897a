-- ===== src/Tui/Keys.antt =====
-- Key events, and src/config/keybinds.rs: the configured key of an action. Of the codes of the crate
-- crossterm those that the code tells apart have a name, and of its modifiers SHIFT and CONTROL.
pub mod Pickers
pub mod Modals
pub mod Browsers
pub mod Instances
pub mod Maps
pub mod Names
use ichr.Base.{
  ℕ, ◌+◌, Bool, true, false, not, ◌&&◌, Option, none, some, List, [], ◌∷◌, Text, is_upper, ◌==◌,
  if◌then◌else◌,
}
use ichr.Tui.Action.{Action}

pub data KeyCode : Type 0 where
  backspace enter esc up down tab : KeyCode
  char : (c : ℕ) → KeyCode
  other_code : (code : ℕ) → KeyCode

pub record KeyModifiers : Type 0 where
  pub shift : Bool
  pub control : Bool
  pub others : ℕ

pub record KeyEvent : Type 0 where
  pub code : KeyCode
  pub modifiers : KeyModifiers

pub data Event : Type 0 where
  key : (event : KeyEvent) → Event
  paste : (s : Text) → Event
  other_event : Event

pub record KeySpec : Type 0 where
  pub code : KeyCode
  pub modifiers : KeyModifiers

pub data ActionKey : Type 0 where
  key_quit key_create_instance key_modpack_import key_launch key_loader_picker : ActionKey
  key_mod_browser key_installed_mods key_resource_browser key_shader_browser : ActionKey
  key_accounts_list key_java_picker key_cf_browser : ActionKey
  key_begin_search key_toggle_mc_filter key_toggle_loader_filter : ActionKey

abbrev pub bool_eq : Bool → Bool → Bool
bool_eq true b = b
bool_eq false b = not b

abbrev pub modifiers_eq : KeyModifiers → KeyModifiers → Bool
modifiers_eq a b = bool_eq a.shift b.shift && (bool_eq a.control b.control && a.others == b.others)

-- An upper-case letter implies SHIFT.
abbrev pub implied : KeyCode → KeyModifiers → KeyModifiers
implied (char c) m = if is_upper c then record m { shift = false } else m
implied code m = m

abbrev pub lower : ℕ → ℕ
lower c = if is_upper c then c + 32 else c

abbrev pub code_eq : Bool → KeyCode → KeyCode → Bool
code_eq control (char a) (char b) = if control then lower a == lower b else a == b
code_eq control backspace backspace = true
code_eq control enter enter = true
code_eq control esc esc = true
code_eq control up up = true
code_eq control down down = true
code_eq control tab tab = true
code_eq control (other_code a) (other_code b) = a == b
code_eq control _ _ = false

-- `KeySpec::matches`
abbrev pub spec_matches : KeySpec → KeyEvent → Bool
spec_matches k ev =
    modifiers_eq (implied k.code k.modifiers) (implied ev.code ev.modifiers)
    && code_eq k.modifiers.control k.code ev.code

-- `Keybinds`: the key of each action, if it has one.
abbrev pub Keybinds : Type 0
Keybinds = ActionKey → Option KeySpec

abbrev pub matched : Option KeySpec → KeyEvent → Bool
matched none ev = false
matched (some k) ev = spec_matches k ev

-- `Keybinds::matches`
unfoldable pub key_matches : Keybinds → ActionKey → KeyEvent → Bool
key_matches kb action ev = matched (kb action) ev

-- A character without CONTROL, typed into a text.
abbrev pub typed : (ℕ → Action) → ℕ → KeyModifiers → Option Action
typed act c m = if m.control then none else some (act c)

abbrev pub plain : KeyModifiers
plain = record { shift = false; control = false; others = 0 }

abbrev pub on_char : ℕ → Bool → Option KeySpec
on_char c shift = some (record { code = char c; modifiers = record plain { shift = shift } })

-- `Keybinds::default`
abbrev pub default_keybinds : Keybinds
default_keybinds key_quit = on_char b'q' false
default_keybinds key_create_instance = on_char b'c' false
default_keybinds key_modpack_import = on_char b'i' false
default_keybinds key_launch = some (record { code = enter; modifiers = plain })
default_keybinds key_loader_picker = on_char b'L' true
default_keybinds key_mod_browser = on_char b'M' true
default_keybinds key_installed_mods = on_char b'm' false
default_keybinds key_resource_browser = on_char b'R' true
default_keybinds key_shader_browser = on_char b'S' true
default_keybinds key_accounts_list = on_char b'A' true
default_keybinds key_java_picker = on_char b'j' false
default_keybinds key_cf_browser = on_char b'F' true
default_keybinds key_begin_search = on_char b'/' false
default_keybinds key_toggle_mc_filter = on_char b'v' false
default_keybinds key_toggle_loader_filter = on_char b'l' false
