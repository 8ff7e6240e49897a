-- ===== src/Tui/Switch.antt =====
-- Choosing another loader in src/tui/app.rs: the label that the picker puts in the confirmation is
-- read back as what was chosen.
use ichr.Base.{
  not, Bool, true, [], ◌∷◌, none, some, false, ◌&&◌, Text, text_eq, ◌≡◌, refl, ap, arith, codes,
  split_once,
}
use ichr.Domain.Instance.{LoaderInfo}
use ichr.Modpack.Parse.{LoaderType, fabric, quilt, forge, neo_forge}
use ichr.Tui.View.{ActiveView, LoaderSwitch, loader_switch_confirm}
use ichr.Tui.Effect.{install_loader}
use ichr.Tui.State.{AppState, ViewStep, instance_of, mc_of, or_empty}
use ichr.Tui.Update.Loaders.{target_kind, kind_eq, loader_label_short, kind_str}
use ichr.Tui.Update.LoaderInstalls.{
  start_install, switch_to, confirm_loader_switch_arm, parse_loader_type,
}

-- The label is split at its first colon, whatever the version holds.
label_split :
    (loader : LoaderType) (version : Text)
    → split_once b':' (loader_label_short (target_kind loader) version)
      ≡ some (kind_str (target_kind loader), version)
unfolding split_once
label_split fabric version = ground arith
label_split quilt version = ground arith
label_split forge version = ground arith
label_split neo_forge version = ground arith

label_parsed :
    (loader : LoaderType) → parse_loader_type (kind_str (target_kind loader)) ≡ some loader
unfolding text_eq
label_parsed fabric = refl
label_parsed quilt = refl
label_parsed forge = refl
label_parsed neo_forge = refl

abbrev pub is_confirmation : ActiveView → Bool
is_confirmation (loader_switch_confirm c) = true
is_confirmation view = false

label_not_none :
    (loader : LoaderType) (version : Text)
    → text_eq (loader_label_short (target_kind loader) version) (codes "none") ≡ false
unfolding text_eq
label_not_none fabric version = refl
label_not_none quilt version = refl
label_not_none forge version = refl
label_not_none neo_forge version = refl

label-installs :
    (s : AppState) (slug : Text) (loader : LoaderType) (version : Text) (c : LoaderSwitch)
    → c.slug ≡ slug
    → c.to_loader ≡ loader_label_short (target_kind loader) version
    → confirm_loader_switch_arm s (loader_switch_confirm c) ≡ start_install s slug loader version
label-installs s slug loader version c e f =
    rw (e, f)
      (rw (label_not_none loader version)
        (rw (label_split loader version) (rw (label_parsed loader) refl)))

-- For an instance that has a loader, choosing a version that is not the installed one starts
-- nothing and asks for confirmation; confirming it starts one installation, of the loader and the
-- version that were chosen for the instance's game version, and shows what would be shown for an
-- instance without a loader.
pub confirm-switch_to :
    (s : AppState) (slug : Text) (loader : LoaderType) (version : Text) (installed : LoaderInfo)
    (view : ActiveView)
    → (kind_eq installed.kind (target_kind loader) && text_eq installed.version version) ≡ false
    → let asked = switch_to s slug loader version (some installed) view in
      let confirmed = confirm_loader_switch_arm s asked.0 in
      (asked.1 ≡ [])
      × (is_confirmation asked.0 ≡ true)
      × (confirmed.1
          ≡ install_loader slug loader (or_empty (mc_of (instance_of s slug))) version ∷ [])
      × (confirmed.0 ≡ (switch_to s slug loader version none view).0)
confirm-switch_to s slug loader version installed view h =
    let c : LoaderSwitch = record {
      slug = slug;
      from_loader = some (loader_label_short installed.kind installed.version);
      to_loader = loader_label_short (target_kind loader) version;
      type_switch = not (kind_eq installed.kind (target_kind loader));
    } in
    let e = label-installs s slug loader version c refl refl in
    rw h (refl, refl, ap (λ (x : ViewStep). x.1) e, ap (λ (x : ViewStep). x.0) e)
