-- ===== src/Tui/Busy.antt =====
-- What may run for an instance at a time, of src/tui/app.rs: an abstract machine of three flags, and
-- `update` as its implementation by three maps of cancellation tokens.
use ichr.Base.{
  Option, Bool, false, not, ◌&&◌, ◌||◌, Text, text_eq, [], ◌∷◌, ◌≡◌, arith, lookup, is_some,
  is_some-erase, is_some-insert,
}
use ichr.Tui.Effect.{launch}
use ichr.Tui.State.{AppState, instance_of}
use ichr.Tui.Action.{
  Action, on_launches, on_loaders, on_mods, on_cf, launch_instance, launch_job_started,
  instance_exited, launch_failed, stop_instance, loader_install_started, loader_installed,
  loader_install_failed, cancel_loader_install, mod_install_started, mod_installed,
  mod_install_failed,
}
use ichr.Tui.PackAction.{cf_mod_install_started, cf_mod_installed, cf_mod_install_failed}
use ichr.Tui.Update.Launches.{is_running, auth_of, name_of}
use ichr.Tui.Update.Mods.{is_installing}
use ichr.Tui.Update.Step.{update}

-- Whether an instance runs, has a loader being installed, and has a mod being installed.
pub record Busy : Type 0 where
  running : Bool
  loader : Bool
  mods : Bool

abbrev pub busy_of : AppState → Text → Busy
busy_of s slug = record {
  running = is_running s slug;
  loader = is_some (lookup slug s.running_loader_installs);
  mods = is_installing s slug;
}

abbrev pub starts : Text → Text → Bool → Bool
starts slug target flag = text_eq target slug || flag

abbrev pub ends : Text → Text → Bool → Bool
ends slug target flag = not (text_eq target slug) && flag

-- The abstract machine.
abbrev pub busy_after : Text → Action → Busy → Busy
busy_after slug (on_launches (launch_job_started target token)) b = record b {
  running = starts slug target b.running;
}
busy_after slug (on_launches (instance_exited target duration_ms)) b = record b {
  running = ends slug target b.running;
}
busy_after slug (on_launches (launch_failed target error log_tail)) b = record b {
  running = ends slug target b.running;
}
busy_after slug (on_launches (stop_instance target)) b = record b {
  running = ends slug target b.running;
}
busy_after slug (on_loaders (loader_install_started target token)) b = record b {
  loader = starts slug target b.loader;
}
busy_after slug (on_loaders (loader_installed target)) b = record b {
  loader = ends slug target b.loader;
}
busy_after slug (on_loaders (loader_install_failed target loader version error log_tail)) b =
    record b { loader = ends slug target b.loader }
busy_after slug (on_loaders (cancel_loader_install target)) b = record b {
  loader = ends slug target b.loader;
}
busy_after slug (on_mods (mod_install_started target project_id token)) b = record b {
  mods = starts slug target b.mods;
}
busy_after slug (on_mods (mod_installed target project_id)) b = record b {
  mods = ends slug target b.mods;
}
busy_after slug (on_mods (mod_install_failed target mod_title version_label error log_tail)) b =
    record b { mods = ends slug target b.mods }
busy_after slug (on_cf (cf_mod_install_started target mod_id file_id token)) b = record b {
  mods = starts slug target b.mods;
}
busy_after slug (on_cf (cf_mod_installed target mod_id)) b = record b {
  mods = ends slug target b.mods;
}
busy_after slug (on_cf (cf_mod_install_failed target mod_title file_label error web_url)) b =
    record b { mods = ends slug target b.mods }
busy_after slug _ b = b

-- Each action changes what runs for an instance as the abstract machine does.
pub busy_of-update :
    (home : Option Text) (s : AppState) (a : Action) (slug : Text)
    → busy_of (update home s a).0 slug ≡ busy_after slug a (busy_of s slug)
unfolding update
busy_of-update home s a slug = grind (arith, is_some-erase, is_some-insert)

abbrev pub starts_run : Text → Action → Bool
starts_run slug (on_launches (launch_job_started target token)) = text_eq target slug
starts_run slug _ = false

abbrev pub stopped : Option Text → AppState → Text → AppState
stopped home s slug = (update home s (on_launches (stop_instance slug))).0

abbrev pub LaunchesNow : Option Text → AppState → Text → Type 0
LaunchesNow home t slug =
    (update home t (on_launches (launch_instance slug))).1
    ≡ launch slug (auth_of t.active_account_id (name_of slug (instance_of t slug))) ∷ []
