-- ===== src/Tui/Update/LoaderInstalls.antt =====
-- The arms of `update` in src/tui/app.rs that choose a loader's version and follow its
-- installation.
use ichr.Base.{
  ℕ, not, ◌&&◌, Option, none, some, [], ◌∷◌, Text, codes, text_eq, leb, if◌then◌else◌, get_elem?,
  split_once, lookup, erase, insert,
}
use ichr.Domain.Instance.{LoaderInfo}
use ichr.Modpack.Parse.{LoaderType, fabric, quilt, forge, neo_forge}
use ichr.Tui.View.{
  ActiveView, LoaderVersionPicker, loader_version_picker_modal, loader_install_progress_modal,
  loader_install_failed_modal, loader_switch_confirm, default_view,
}
use ichr.Tui.Effect.{install_loader, remove_loader, stop_loader_install, fetch_instances}
use ichr.Tui.State.{
  AppState, Step, ViewStep, Token, cancel, instance_of, mc_of, loader_of, or_empty,
}
use ichr.Tui.Update.Loaders.{target_kind, kind_eq, loader_label_short, visible}

-- The progress shown from the start of an installation, and the effect that starts it.
abbrev pub start_install : AppState → Text → LoaderType → Text → ViewStep
start_install s slug loader version = (
  loader_install_progress_modal (record {
    slug = slug;
    loader = loader;
    version = version;
    step_label = codes "Fetching meta";
    step_index = 1;
    step_total = 4;
    bytes_done = 0;
    bytes_total = 0;
    cancel_token_key = slug;
    log_tail = [];
  }),
  install_loader slug loader (or_empty (mc_of (instance_of s slug))) version ∷ [],
)

-- What choosing a version does, by the loader that the instance has now.
abbrev pub switch_to :
    AppState → Text → LoaderType → Text → Option LoaderInfo → ActiveView → ViewStep
switch_to s slug loader version none view = start_install s slug loader version
switch_to s slug loader version (some l) view =
    if kind_eq l.kind (target_kind loader) && text_eq l.version version then (view, []) else (
      loader_switch_confirm (record {
        slug = slug;
        from_loader = some (loader_label_short l.kind l.version);
        to_loader = loader_label_short (target_kind loader) version;
        type_switch = not (kind_eq l.kind (target_kind loader));
      }),
      [],
    )

-- `&versions[real_idx]` panics past the end, where this model keeps the view: a visible index is
-- never past the end.
abbrev pub choose : AppState → LoaderVersionPicker → Option ℕ → ViewStep
choose s p none = (loader_version_picker_modal p, [])
choose s p (some i) = elim (get_elem? p.versions i) [
  | none ↦ (loader_version_picker_modal p, [])
  | some chosen ↦
      switch_to s p.slug p.loader chosen.version (loader_of (instance_of s p.slug))
        (loader_version_picker_modal p)
]

abbrev pub loader_version_select_arm : AppState → ActiveView → ViewStep
loader_version_select_arm s (loader_version_picker_modal p) =
    choose s p (get_elem? (visible p) p.selected)
loader_version_select_arm s view = (view, [])

abbrev pub loader_install_started_arm : AppState → Text → Token → Step
loader_install_started_arm s slug token =
    (record s { running_loader_installs = insert slug token s.running_loader_installs }, [])

-- The step that a percentage stands for.
abbrev pub step_of : ℕ → ℕ
step_of pct = if leb pct 33 then 1 else if leb pct 66 then 2 else if leb pct 99 then 3 else 4

abbrev pub loader_install_progress_arm : Text → ℕ → Text → ℕ → ℕ → ActiveView → ViewStep
loader_install_progress_arm slug pct step_label bytes_done bytes_total
      (loader_install_progress_modal p) =
    (
      loader_install_progress_modal (
          if text_eq p.slug slug
          then record p {
            step_label = step_label;
            bytes_done = bytes_done;
            bytes_total = bytes_total;
            step_index = step_of pct;
          }
          else p),
      [],
    )
loader_install_progress_arm slug pct step_label bytes_done bytes_total view = (view, [])

abbrev pub loader_install_log_tail_arm : Text → Text → ActiveView → ViewStep
loader_install_log_tail_arm slug tail (loader_install_progress_modal p) = (
  loader_install_progress_modal (if text_eq p.slug slug then record p { log_tail = tail } else p),
  [],
)
loader_install_log_tail_arm slug tail view = (view, [])

abbrev pub loader_installed_arm : AppState → Text → Step
loader_installed_arm s slug = (
  record s {
    running_loader_installs = erase slug s.running_loader_installs;
    active_view = default_view;
  },
  fetch_instances ∷ [],
)

abbrev pub loader_install_failed_arm : AppState → Text → LoaderType → Text → Text → Text → Step
loader_install_failed_arm s slug loader version error log_tail = (
  record s {
    running_loader_installs = erase slug s.running_loader_installs;
    active_view = loader_install_failed_modal slug loader version error log_tail;
  },
  [],
)

abbrev pub cancel_loader_install_arm : AppState → Text → Step
cancel_loader_install_arm s slug = (
  record s {
    cancelled = cancel (lookup slug s.running_loader_installs) s.cancelled;
    running_loader_installs = erase slug s.running_loader_installs;
    active_view = default_view;
  },
  stop_loader_install slug ∷ [],
)

abbrev pub parse_loader_type : Text → Option LoaderType
parse_loader_type kind =
    if text_eq kind (codes "fabric")
    then some fabric
    else if text_eq kind (codes "quilt")
    then some quilt
    else if text_eq kind (codes "forge")
    then some forge
    else if text_eq kind (codes "neoforge")
    then some neo_forge
    else none

abbrev pub install_parsed : AppState → Text → Option LoaderType → Text → ViewStep
install_parsed s slug none version = (default_view, [])
install_parsed s slug (some loader) version = start_install s slug loader version

abbrev pub install_label : AppState → Text → Option (Text × Text) → ViewStep
install_label s slug none = (default_view, [])
install_label s slug (some (kind, version)) = install_parsed s slug (parse_loader_type kind) version

abbrev pub confirm_loader_switch_arm : AppState → ActiveView → ViewStep
confirm_loader_switch_arm s (loader_switch_confirm c) =
    if text_eq c.to_loader (codes "none")
    then (default_view, remove_loader c.slug ∷ [])
    else install_label s c.slug (split_once b':' c.to_loader)
confirm_loader_switch_arm s view = (view, [])
