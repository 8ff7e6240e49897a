-- ===== src/Tui/Update/Java.antt =====
-- The arms of `update` in src/tui/app.rs for the Java picker.
use ichr.Base.{
  Option, none, some, List, [], ◌∷◌, length, Text, text_eq, if◌then◌else◌, ℤ, get_elem?,
}
use ichr.Domain.Instance.{system}
use ichr.Tui.View.{
  ActiveView, JavaPickerRow, auto, detected, manual, java_picker_modal, default_view,
}
use ichr.Tui.Effect.{Effect, fetch_system_javas, set_java_override, fetch_instances}
use ichr.Tui.State.{AppState, Step, ViewStep}
use ichr.Tui.Update.Instances.{wrapped}
use ichr.Tui.Update.Launches.{is_running}

abbrev pub open_java_picker_arm : AppState → Text → ActiveView → ViewStep
open_java_picker_arm s slug view = if is_running s slug then (view, []) else (
  java_picker_modal (record { slug = slug; options = auto ∷ manual ∷ []; selected = 0 }),
  fetch_system_javas slug ∷ [],
)

abbrev pub java_picker_options_loaded_arm : Text → List JavaPickerRow → ActiveView → ViewStep
java_picker_options_loaded_arm slug options (java_picker_modal p) = (
  java_picker_modal
      (if text_eq p.slug slug then record p { options = options; selected = 0 } else p),
  [],
)
java_picker_options_loaded_arm slug options view = (view, [])

abbrev pub java_picker_move_arm : ℤ → ActiveView → ViewStep
java_picker_move_arm delta (java_picker_modal p) =
    (java_picker_modal (record p { selected = wrapped (length p.options) p.selected delta }), [])
java_picker_move_arm delta view = (view, [])

abbrev pub row_chosen : Text → Option JavaPickerRow → List Effect
row_chosen slug (some auto) = set_java_override slug none ∷ []
row_chosen slug (some (detected sj)) =
    set_java_override slug (some (system sj.path sj.major_version)) ∷ []
row_chosen slug (some manual) = []
row_chosen slug none = []

abbrev pub java_picker_select_arm : ActiveView → ViewStep
java_picker_select_arm (java_picker_modal p) =
    (default_view, row_chosen p.slug (get_elem? p.options p.selected))
java_picker_select_arm view = (view, [])

abbrev pub java_override_failed_arm : AppState → Text → Step
java_override_failed_arm s reason =
    (record s { last_error = some reason; active_view = default_view }, fetch_instances ∷ [])
