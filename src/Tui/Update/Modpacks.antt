-- ===== src/Tui/Update/Modpacks.antt =====
-- The arms of `update` in src/tui/app.rs for the import of a modpack. The user's home directory,
-- which the crate directories finds, is an argument.
use ichr.Base.{
  ℕ, Option, none, some, List, [], ◌∷◌, ◌++◌, Text, codes, is_empty, trim, starts_with, ends_with,
  strip_prefix, pop, leb, if◌then◌else◌, insert, erase,
}
use ichr.Tui.View.{
  ActiveView, modpack_import_path_input, modpack_import_progress_modal, modpack_import_failed_modal,
  default_view,
}
use ichr.Tui.Effect.{import_modpack, fetch_instances, cancel_modpack_import}
use ichr.Tui.State.{AppState, Step, ViewStep, Token}

abbrev pub open_modpack_import_arm : ViewStep
open_modpack_import_arm = (modpack_import_path_input [] none, [])

-- A character typed and a text pasted are both appended.
abbrev pub import_path_type_arm : Text → ActiveView → ViewStep
import_path_type_arm typed (modpack_import_path_input buffer error) =
    (modpack_import_path_input (buffer ++ typed) none, [])
import_path_type_arm typed view = (view, [])

abbrev pub import_path_backspace_search_arm : ActiveView → ViewStep
import_path_backspace_search_arm (modpack_import_path_input buffer error) =
    (modpack_import_path_input (pop buffer) error, [])
import_path_backspace_search_arm view = (view, [])

-- `PathBuf::join`: an absolute path replaces the one that it is joined to.
abbrev pub join_path : Text → Text → Text
join_path base rest =
    if starts_with rest (codes "/")
    then rest
    else if ends_with base (codes "/")
    then base ++ rest
    else base ++ codes "/" ++ rest

-- A path under `~/` stands under the home directory, where there is one.
abbrev pub under_home : Option Text → Text → Option Text → Text
under_home (some home) path (some rest) = join_path home rest
under_home home path rest = path

abbrev pub expand : Option Text → Text → Text
expand home path = under_home home path (strip_prefix path (codes "~/"))

abbrev pub import_path_submit_arm : Option Text → ActiveView → ViewStep
import_path_submit_arm home (modpack_import_path_input buffer error) =
    if is_empty (trim buffer)
    then (modpack_import_path_input buffer (some (codes "path required")), [])
    else (modpack_import_path_input buffer error, import_modpack (expand home (trim buffer)) ∷ [])
import_path_submit_arm home view = (view, [])

abbrev pub modpack_import_started_arm : AppState → Text → Text → Token → Step
modpack_import_started_arm s slug modpack_name token = (
  record s {
    running_modpack_imports = insert slug token s.running_modpack_imports;
    active_view = modpack_import_progress_modal (record {
      modpack_name = modpack_name;
      step_label = codes "Starting";
      step_index = 0;
      step_total = 7;
      bytes_done = 0;
      bytes_total = 0;
      cancel_token_key = slug;
      log_tail = [];
    });
  },
  [],
)

-- The step that a percentage stands for.
abbrev pub import_step_of : ℕ → ℕ
import_step_of pct =
    if leb pct 14
    then 0
    else if leb pct 24
    then 1
    else if leb pct 39
    then 2
    else if leb pct 59
    then 3
    else if leb pct 74
    then 4
    else if leb pct 84
    then 5
    else if leb pct 94
    then 6
    else 7

abbrev pub modpack_import_progress_arm : ℕ → Text → ℕ → ℕ → ActiveView → ViewStep
modpack_import_progress_arm pct step_label bytes_done bytes_total
      (modpack_import_progress_modal p) =
    (
      modpack_import_progress_modal (record p {
        step_label = step_label;
        bytes_done = bytes_done;
        bytes_total = bytes_total;
        step_index = import_step_of pct;
      }),
      [],
    )
modpack_import_progress_arm pct step_label bytes_done bytes_total view = (view, [])

abbrev pub modpack_imported_arm : AppState → Text → Step
modpack_imported_arm s slug = (
  record s {
    running_modpack_imports = erase slug s.running_modpack_imports;
    active_view = default_view;
  },
  fetch_instances ∷ [],
)

abbrev pub modpack_import_cancelled_arm : AppState → Step
modpack_import_cancelled_arm s =
    (record s { running_modpack_imports = []; active_view = default_view }, [])

abbrev pub modpack_import_failed_arm : AppState → Text → Text → Text → Step
modpack_import_failed_arm s modpack_name error log_tail = (
  record s {
    running_modpack_imports = [];
    active_view = modpack_import_failed_modal modpack_name error log_tail;
  },
  [],
)

-- The tokens of a map, and the flags once each of them is set.
abbrev pub cancel_all : List (Text × Token) → List Token → List Token
cancel_all [] flags = flags
cancel_all ((slug, token) ∷ m) flags = token ∷ cancel_all m flags

abbrev pub cancel_modpack_import_arm : AppState → Step
cancel_modpack_import_arm s = (
  record s {
    cancelled = cancel_all s.running_modpack_imports s.cancelled;
    running_modpack_imports = [];
    active_view = default_view;
  },
  cancel_modpack_import ∷ [],
)
