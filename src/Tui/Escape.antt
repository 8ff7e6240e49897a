-- ===== src/Tui/Escape.antt =====
-- The key Esc in the views of src/tui: no view keeps the user from the list of instances.
use ichr.Base.{
  ℕ, zero, suc, Bool-cases, inl, inr, ◌<◌, ◌≤◌, Bool, true, false, Option, ◌≡◌, arith,
  if◌then◌else◌, Text,
}
use ichr.Tui.View.{
  ActiveView, instance_list, mod_browser, mod_version_picker_modal, dep_confirm_modal,
  loader_version_picker_modal, add_account_device_code, uninstall_mod_confirm,
  mod_install_failed_modal, pack_browser, pack_drop_path_input, uninstall_pack_confirm,
  pack_install_failed_modal,
}
use ichr.Tui.State.{AppState}
use ichr.Tui.Keys.{Event, key, esc, Keybinds}
use ichr.Tui.Keys.Maps.{handle}
use ichr.Tui.Update.Step.{update}

-- How many times Esc is pressed from a view before the list of instances is shown.
abbrev pub depth : ActiveView → ℕ
depth (instance_list selected) = 0
depth (dep_confirm_modal c) = 3
depth (mod_browser b) = if b.is_searching then 2 else 1
depth (pack_browser b) = if b.is_searching then 2 else 1
depth (mod_version_picker_modal p) = 2
depth (loader_version_picker_modal p) = 2
depth (add_account_device_code c) = 2
depth (uninstall_mod_confirm slug mod_id display_name) = 2
depth (mod_install_failed_modal f) = 2
depth (pack_drop_path_input d) = 2
depth (uninstall_pack_confirm slug kind mod_id file_name) = 2
depth (pack_install_failed_modal f) = 2
depth _ = 1

abbrev pub esc_pressed : Event
esc_pressed =
    key (record { code = esc; modifiers = record { shift = false; control = false; others = 0 } })

depth-handle :
    (home : Option Text) (kb : Keybinds) (s : AppState)
    → 0 < depth s.active_view
    → depth (handle home kb s esc_pressed).0.active_view < depth s.active_view
unfolding handle update
depth-handle home kb s h = grind arith

abbrev pub in_list : ActiveView → Bool
in_list (instance_list selected) = true
in_list _ = false

-- Esc pressed as often as that, but not once the list of instances is shown, where it quits.
unfoldable pub press_esc : Option Text → Keybinds → ℕ → AppState → AppState
press_esc home kb zero s = s
press_esc home kb (suc n) s =
    let later = press_esc home kb n (handle home kb s esc_pressed).0 in
    if in_list s.active_view then s else later

depth-in_list : (view : ActiveView) → depth view ≡ 0 → in_list view ≡ true
depth-in_list view h = ground arith

list-depth : (view : ActiveView) → in_list view ≡ false → 0 < depth view
list-depth view h = ground arith

depth_le : (view : ActiveView) → depth view ≤ 3
depth_le view = ground arith

in_list-press_esc :
    (home : Option Text) (kb : Keybinds) (n : ℕ) (s : AppState)
    → depth s.active_view ≤ n
    → in_list (press_esc home kb n s).active_view ≡ true
unfolding press_esc
in_list-press_esc home kb zero s h = depth-in_list s.active_view (omega (arith, h))
in_list-press_esc home kb (suc n) s h = elim (Bool-cases (in_list s.active_view)) [
  | inl e ↦ rw e e
  | inr e ↦ rw e (
      in_list-press_esc home kb n (handle home kb s esc_pressed).0
        (omega (arith, h, depth-handle home kb s (list-depth s.active_view e))))
]

-- From every state, whatever keys are configured, the list of instances is shown after Esc has been
-- pressed at most three times.
pub press_esc_three :
    (home : Option Text) (kb : Keybinds) (s : AppState)
    → in_list (press_esc home kb 3 s).active_view ≡ true
press_esc_three home kb s = in_list-press_esc home kb 3 s (depth_le s.active_view)
