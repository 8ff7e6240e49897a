-- ===== src/Tui/Update/Launches.antt =====
-- The arms of `update` in src/tui/app.rs for running instances, background jobs, the results that
-- services report, and icons.
use ichr.Base.{
  Bool, not, Option, none, some, List, [], ◌∷◌, Text, lookup, erase, insert, is_some, is_empty,
  filter, ◌==◌, if◌then◌else◌, Result, ok, err, ℕ,
}
use ichr.Domain.Account.{AuthContext, msa, offline}
use ichr.Domain.Instance.{InstanceManifest}
use ichr.Mods.Hits.{IconSource, list_row}
use ichr.Tui.View.{launch_failed_modal}
use ichr.Tui.Effect.{Effect, launch, kill_process, fetch_instances, fetch_icon}
use ichr.Tui.State.{AppState, Step, Token, Job, cancel, instance_of}

abbrev pub is_running : AppState → Text → Bool
is_running s slug = is_some (lookup slug s.running_instances)

-- The name shown for an instance, or its slug where it is not listed.
abbrev pub name_of : Text → Option InstanceManifest → Text
name_of slug none = slug
name_of slug (some m) = m.display_name

abbrev pub auth_of : Option Text → Text → AuthContext
auth_of (some aid) display_name = msa aid
auth_of none display_name = offline display_name

abbrev pub launch_instance_arm : AppState → Text → List Effect
launch_instance_arm s slug =
    if is_running s slug
    then []
    else launch slug (auth_of s.active_account_id (name_of slug (instance_of s slug))) ∷ []

abbrev pub launch_job_started_arm : AppState → Text → Token → Step
launch_job_started_arm s slug token =
    (record s { running_instances = insert slug token s.running_instances }, [])

abbrev pub instance_exited_arm : AppState → Text → Step
instance_exited_arm s slug =
    (record s { running_instances = erase slug s.running_instances }, fetch_instances ∷ [])

abbrev pub launch_failed_arm : AppState → Text → Text → Text → Step
launch_failed_arm s slug error log_tail = (
  record s {
    running_instances = erase slug s.running_instances;
    active_view = launch_failed_modal slug error log_tail;
  },
  [],
)

abbrev pub stop_instance_arm : AppState → Text → Step
stop_instance_arm s slug = (
  record s {
    cancelled = cancel (lookup slug s.running_instances) s.cancelled;
    running_instances = erase slug s.running_instances;
  },
  kill_process slug ∷ [],
)

-- The first job with the identifier is updated, and a new one is put last.
unfoldable pub put_job : Job → List Job → List Job
put_job job [] = job ∷ []
put_job job (j ∷ rest) =
    let others = put_job job rest in if j.id == job.id then job ∷ rest else j ∷ others

abbrev pub progress_arm : AppState → ℕ → ℕ → Text → Step
progress_arm s id pct msg = (
  record s { active_jobs = put_job (record { id = id; pct = pct; msg = msg }) s.active_jobs },
  [],
)

abbrev pub error_or : Result Text Unit → Option Text → Option Text
error_or (ok _) last = last
error_or (err e) last = some e

abbrev pub completed_arm : AppState → ℕ → Result Text Unit → Step
completed_arm s id result = (
  record s {
    active_jobs = filter (λ j. not (j.id == id)) s.active_jobs;
    last_error = error_or result s.last_error;
  },
  fetch_instances ∷ [],
)

abbrev pub version_install_failed_arm : AppState → Text → Step
version_install_failed_arm s error = (record s { last_error = some error }, fetch_instances ∷ [])

abbrev pub row_icon : IconSource → Text → Option Text → List Effect → List Effect
row_icon source project_id none rest = rest
row_icon source project_id (some url) rest =
    if is_empty url then rest else fetch_icon source project_id url list_row ∷ rest

unfoldable pub row_icons : IconSource → List (Text × Option Text) → List Effect
row_icons source [] = []
row_icons source ((project_id, url) ∷ hits) = row_icon source project_id url (row_icons source hits)

abbrev pub installed_icons_resolved_arm :
    AppState → IconSource → List (Text × Option Text) → List Effect
installed_icons_resolved_arm s source hits =
    if s.icon_rendering_enabled then row_icons source hits else []
