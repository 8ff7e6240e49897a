-- ===== src/Tui/KeyGuards.antt =====
-- What the keys of src/tui/run.rs ask for, in the states that they are pressed in.
use ichr.Base.{
  ap, sym, subst, ◌∙◌, if◌then◌else◌, ℕ, zero, suc, true, false, Option, none, some, Option-cases,
  Bool-cases, inl, inr, List, [], ◌∷◌, Text, text_eq_refl, get_elem?, ◌≡◌, arith,
}
use ichr.Domain.Account.{Account}
use ichr.Tui.View.{
  ActiveView, accounts_list, instance_list, delete_confirm, java_picker_modal, loader_picker_modal,
}
use ichr.Tui.State.{AppState}
use ichr.Tui.Action.{
  Action, quit, on_instances, on_java, on_loaders, open_delete_confirm, open_java_picker,
  open_loader_picker, on_accounts, activate_account,
}
use ichr.Tui.Keys.{Event, key, KeyCode, KeyEvent, Keybinds}
use ichr.Domain.Instance.{InstanceManifest}
use ichr.Tui.Keys.Instances.{
  map_accounts_list_event, map_instance_list_event, fixed_key, bound, bound_on, highlighted,
}
use ichr.Tui.Keys.Maps.{handle, map_event, map_view, taken, is_ctrl_c}
use ichr.Tui.Update.Launches.{is_running}
use ichr.Tui.Update.Step.{update}
use ichr.Tui.ActiveAccount.{is_listed, FromList, ActiveIsListed, update-ActiveIsListed}

listed-get_elem :
    (accounts : List Account) (n : ℕ) (a : Account)
    → get_elem? accounts n ≡ some a
    → is_listed accounts a.id ≡ true
listed-get_elem [] n a h = cc
listed-get_elem (x ∷ rest) zero a h = grind (arith, text_eq_refl)
listed-get_elem (x ∷ rest) (suc n) a h = grind (arith, listed-get_elem rest n a h)

accounts-FromList :
    (ev : Event) (s : AppState) (a : Action) → map_accounts_list_event ev s ≡ some a → FromList s a
accounts-FromList ev s (on_accounts (activate_account id)) h = grind (arith, listed-get_elem)
accounts-FromList ev s _ h = tt

bound-FromList :
    (kb : Keybinds) (s : AppState) (e : KeyEvent) (a : Action)
    → bound kb s e ≡ some (some a)
    → FromList s a
bound-FromList kb s e (on_accounts (activate_account id)) h = grind arith
bound-FromList kb s e _ h = tt

fixed-FromList :
    (s : AppState) (code : KeyCode) (a : Action) → fixed_key s code ≡ some a → FromList s a
fixed-FromList s code (on_accounts (activate_account id)) h = grind arith
fixed-FromList s code _ h = tt

instances-FromList :
    (kb : Keybinds) (ev : Event) (s : AppState) (a : Action)
    → map_instance_list_event kb ev s ≡ some a
    → FromList s a
instances-FromList kb (key e) s a h = elim (Option-cases (bound kb s e)) [
  | inl none_bound ↦ fixed-FromList s e.code a (ground (arith, none_bound, h))
  | inr (o, found) ↦ bound-FromList kb s e a (grind (arith, found, h))
]
instances-FromList kb ev s a h = cc

map_view-FromList :
    (kb : Keybinds) (ev : Event) (s : AppState) (view : ActiveView) (a : Action)
    → map_view kb ev s view ≡ some a
    → FromList s a
map_view-FromList kb ev s (accounts_list selected) a h = accounts-FromList ev s a h
map_view-FromList kb ev s (instance_list selected) a h = instances-FromList kb ev s a h
map_view-FromList kb ev s view a h = ground arith

key-FromList :
    (kb : Keybinds) (ev : Event) (s : AppState) (a : Action)
    → map_event kb ev s ≡ some a
    → FromList s a
key-FromList kb ev s a h = elim (Bool-cases (is_ctrl_c ev)) [
  | inl e ↦ ground (arith, e)
  | inr e ↦ map_view-FromList kb ev s s.active_view a (ground (arith, e, h))
]

-- Whatever event arrives, in whatever view, the active account stays one of those listed.
pub handle-ActiveIsListed :
    (home : Option Text) (kb : Keybinds) (s : AppState) (ev : Event)
    → ActiveIsListed s
    → ActiveIsListed (handle home kb s ev).0
unfolding handle
handle-ActiveIsListed home kb s ev h = elim (Option-cases (map_event kb ev s)) [
  | inl e ↦ rw e h
  | inr (a, e) ↦ rw e (update-ActiveIsListed home s a (key-FromList kb ev s a e) h)
]

-- The instance that a view opened from the list is about to delete or to change.
abbrev pub changes : ActiveView → Option Text
changes (delete_confirm slug display_name) = some slug
changes (java_picker_modal p) = some p.slug
changes (loader_picker_modal slug selected) = some slug
changes _ = none

abbrev opens : Action → Option Text
opens (on_instances (open_delete_confirm slug display_name)) = some slug
opens (on_java (open_java_picker slug)) = some slug
opens (on_loaders (open_loader_picker slug)) = some slug
opens _ = none

opens-update :
    (home : Option Text) (s : AppState) (a : Action) (selected : ℕ) (slug : Text)
    → s.active_view ≡ instance_list selected
    → changes (update home s a).0.active_view ≡ some slug
    → opens a ≡ some slug
unfolding update
opens-update home s a selected slug e h = grind arith

fixed-opens :
    (s : AppState) (code : KeyCode) (a : Action) (slug : Text)
    → fixed_key s code ≡ some a
    → opens a ≡ some slug
    → is_running s slug ≡ false
fixed-opens s code a slug h k = grind arith

bound_on-opens :
    (kb : Keybinds) (s : AppState) (e : KeyEvent) (m : InstanceManifest) (a : Action) (slug : Text)
    → bound_on kb s e m ≡ some (some a)
    → opens a ≡ some slug
    → is_running s slug ≡ false
bound_on-opens kb s e m a slug h k = grind arith

bound-opens :
    (kb : Keybinds) (s : AppState) (e : KeyEvent) (a : Action) (slug : Text)
    → bound kb s e ≡ some (some a)
    → opens a ≡ some slug
    → is_running s slug ≡ false
bound-opens kb s e a slug h k = elim (Option-cases (highlighted s)) [
  | inl unlit ↦ grind (arith, unlit, h, k)
  | inr (m, lit) ↦ grind (arith, bound_on-opens kb s e m a slug, lit, h, k)
]

key-opens :
    (kb : Keybinds) (ev : Event) (s : AppState) (a : Action) (slug : Text)
    → map_instance_list_event kb ev s ≡ some a
    → opens a ≡ some slug
    → is_running s slug ≡ false
key-opens kb (key e) s a slug h k = elim (Option-cases (bound kb s e)) [
  | inl unbound ↦ fixed-opens s e.code a slug (ground (arith, unbound, h)) k
  | inr (o, found) ↦ bound-opens kb s e a slug (grind (arith, found, h)) k
]
key-opens kb ev s a slug h k = cc

opens_quit : (a : Action) (slug : Text) → some quit ≡ some a → opens a ≡ some slug → ⊥
opens_quit a slug h k = cc

key-instance_list :
    (kb : Keybinds) (ev : Event) (s : AppState) (selected : ℕ) (a : Action) (slug : Text)
    → s.active_view ≡ instance_list selected
    → map_event kb ev s ≡ some a
    → opens a ≡ some slug
    → map_instance_list_event kb ev s ≡ some a
key-instance_list kb ev s selected a slug e h k =
    let focus : map_view kb ev s s.active_view ≡ map_instance_list_event kb ev s =
      ap (map_view kb ev s) e in
    elim (Bool-cases (is_ctrl_c ev)) [
      | inl ctrl ↦
          let quits : some quit ≡ some a =
            sym (ap (λ b. if b then some quit else map_view kb ev s s.active_view) ctrl) ∙ h in
          absurd (opens_quit a slug quits k)
      | inr plain ↦
          sym focus
          ∙ sym (ap (λ b. if b then some quit else map_view kb ev s s.active_view) plain)
          ∙ h
    ]

unchanged :
    (home : Option Text) (kb : Keybinds) (s : AppState) (ev : Event) (selected : ℕ) (slug : Text)
    → s.active_view ≡ instance_list selected
    → map_event kb ev s ≡ none
    → changes (taken home s (map_event kb ev s)).0.active_view ≡ some slug
    → ⊥
unchanged home kb s ev selected slug e idle h =
    let same : changes s.active_view ≡ some slug =
      subst (λ o. changes (taken home s o).0.active_view ≡ some slug) idle h in
    let nothing : none ≡ some slug = sym (ap changes e) ∙ same in cc

-- In the list of instances, no event opens the deletion of an instance that runs, nor the choice of its
-- Java or of its loader.
pub handle-changes :
    (home : Option Text) (kb : Keybinds) (s : AppState) (ev : Event) (selected : ℕ) (slug : Text)
    → s.active_view ≡ instance_list selected
    → changes (handle home kb s ev).0.active_view ≡ some slug
    → is_running s slug ≡ false
unfolding handle
handle-changes home kb s ev selected slug e h = elim (Option-cases (map_event kb ev s)) [
  | inl idle ↦ absurd (unchanged home kb s ev selected slug e idle h)
  | inr (a, found) ↦
      let k =
        opens-update home s a selected slug e
          (subst (λ o. changes (taken home s o).0.active_view ≡ some slug) found h) in
      key-opens kb ev s a slug (key-instance_list kb ev s selected a slug e found k) k
]
