-- ===== src/Tui/Action.antt =====
-- `Action` of src/tui/app.rs: the source's one enum, here the sum of its sections. An action keeps
-- the name and the arguments of its variant.
use ichr.Base.{ℕ, Bool, Option, List, Text, ℤ, Result}
use ichr.Domain.Instance.{InstanceManifest, LoaderVersionEntry}
use ichr.Domain.Account.{Account}
use ichr.Modpack.Parse.{LoaderType}
use ichr.Mojang.Types.{VersionEntry}
use ichr.Mods.DepResolve.{ResolvedDepGraph}
use ichr.Mods.Types.{InstalledModRow}
use ichr.Mods.Hits.{ModrinthSearchHit, ModrinthProjectDetail, ModrinthVersionEntry, IconSource}
use ichr.Tui.View.{VersionFilter, JavaPickerRow}
use ichr.Tui.State.{Token}
use ichr.Tui.PackAction.{CfAction, ModpackAction, PackAction}

-- src/tasks/job.rs
pub data TaskEvent : Type 0 where
  progress : (id pct : ℕ) (msg : Text) → TaskEvent
  completed : (id : ℕ) (result : Result Text Unit) → TaskEvent

-- Navigation, and the creation, renaming, copying, deletion and grouping of instances.
pub data InstanceAction : Type 0 where
  open_create_modal close_modal : InstanceAction
  open_delete_confirm : (slug display_name : Text) → InstanceAction
  open_rename_inline : (slug current : Text) → InstanceAction
  move_selection : (delta : ℤ) → InstanceAction
  type_name : (c : ℕ) → InstanceAction
  paste_name : (s : Text) → InstanceAction
  backspace_name : InstanceAction
  submit_instance_name : (name : Text) → InstanceAction
  set_version_filter : (f : VersionFilter) → InstanceAction
  type_search : (c : ℕ) → InstanceAction
  backspace_search clear_search : InstanceAction
  select_version : (id : Text) → InstanceAction
  type_rename : (c : ℕ) → InstanceAction
  backspace_rename : InstanceAction
  submit_rename : (new_name : Text) → InstanceAction
  clone_selected confirm_delete cancel_delete : InstanceAction
  open_group_input : (slug current : Text) → InstanceAction
  type_group : (c : ℕ) → InstanceAction
  backspace_group submit_group cancel_group_input : InstanceAction

-- Phase 4: accounts.
pub data AccountAction : Type 0 where
  open_accounts close_accounts add_account cancel_add_account : AccountAction
  accounts_loaded : (list : List Account) → AccountAction
  account_auth_started : (user_code verification_uri : Text) (expires_at : ℕ) → AccountAction
  account_auth_progress : (stage : Text) → AccountAction
  account_added : (account : Account) → AccountAction
  account_auth_failure : (reason : Text) → AccountAction
  remove_account : (id : Text) → AccountAction
  activate_account : (id : Text) → AccountAction
  add_account_token_created : (token : Token) → AccountAction

-- Phase 5: the Java picker.
pub data JavaAction : Type 0 where
  open_java_picker : (slug : Text) → JavaAction
  java_picker_options_loaded : (slug : Text) (options : List JavaPickerRow) → JavaAction
  java_picker_move : (delta : ℤ) → JavaAction
  java_picker_select java_picker_cancel : JavaAction
  java_override_set : (slug : Text) → JavaAction
  java_override_failed : (slug reason : Text) → JavaAction

-- Phase 6: the loader picker.
pub data LoaderAction : Type 0 where
  open_loader_picker : (slug : Text) → LoaderAction
  loader_picker_move : (delta : ℤ) → LoaderAction
  loader_picker_select loader_picker_cancel : LoaderAction
  loader_versions_loaded :
      (slug : Text) (loader : LoaderType) (versions : List LoaderVersionEntry) → LoaderAction
  loader_version_picker_move : (delta : ℤ) → LoaderAction
  toggle_stable_filter : LoaderAction
  loader_version_type_search : (c : ℕ) → LoaderAction
  loader_version_backspace_search loader_version_select loader_version_picker_cancel : LoaderAction
  loader_install_started : (slug : Text) (token : Token) → LoaderAction
  loader_install_progress :
      (slug : Text) (pct : ℕ) (step_label : Text) (bytes_done bytes_total : ℕ) → LoaderAction
  loader_install_log_tail : (slug tail : Text) → LoaderAction
  loader_installed : (slug : Text) → LoaderAction
  loader_install_failed :
      (slug : Text) (loader : LoaderType) (version error log_tail : Text) → LoaderAction
  cancel_loader_install : (slug : Text) → LoaderAction
  dismiss_loader_install_failed confirm_loader_switch cancel_loader_switch : LoaderAction

-- Phase 3: the launch lifecycle.
pub data LaunchAction : Type 0 where
  launch_instance : (slug : Text) → LaunchAction
  launch_job_started : (slug : Text) (token : Token) → LaunchAction
  instance_launched : (slug : Text) → LaunchAction
  instance_exited : (slug : Text) (duration_ms : ℕ) → LaunchAction
  launch_failed : (slug error log_tail : Text) → LaunchAction
  stop_instance : (slug : Text) → LaunchAction

-- Background completions.
pub data ServiceAction : Type 0 where
  manifest_loaded : (versions : List VersionEntry) → ServiceAction
  instances_loaded : (list : List InstanceManifest) → ServiceAction
  version_installed : (slug : Text) → ServiceAction
  version_install_failed : (slug error : Text) → ServiceAction
  instance_deleted : (slug : Text) → ServiceAction
  instance_renamed : (slug new_name : Text) → ServiceAction
  instance_cloned : (source_slug new_slug : Text) → ServiceAction
  service_errored : (e : Text) → ServiceAction

-- Phase 8: the browser of mods and their installation.
pub data ModAction : Type 0 where
  open_mod_browser : (slug : Text) → ModAction
  mod_browser_search_loaded : (slug : Text) (hits : List ModrinthSearchHit) → ModAction
  mod_browser_search_failed : (slug message : Text) → ModAction
  mod_browser_move : (delta : ℤ) → ModAction
  mod_browser_open_versions toggle_mod_mc_filter toggle_mod_loader_filter : ModAction
  mod_browser_backspace_search mod_browser_begin_search mod_browser_exit_search : ModAction
  mod_browser_cancel : ModAction
  mod_browser_type_search : (c : ℕ) → ModAction
  mod_browser_paste_search : (s : Text) → ModAction
  mod_detail_loaded : (slug : Text) (detail : ModrinthProjectDetail) → ModAction
  mod_versions_loaded : (slug : Text) (versions : List ModrinthVersionEntry) → ModAction
  mod_version_picker_move : (delta : ℤ) → ModAction
  mod_version_picker_select mod_version_picker_cancel : ModAction
  mod_deps_resolved :
      (slug project_id project_title version_id version_label : Text) (graph : ResolvedDepGraph)
      → ModAction
  confirm_mod_install cancel_mod_install : ModAction
  mod_install_started : (slug project_id : Text) (token : Token) → ModAction
  mod_installed : (slug project_id : Text) → ModAction
  mod_install_failed : (slug mod_title version_label error log_tail : Text) → ModAction
  dismiss_mod_install_failed : ModAction
  open_installed_mods : (slug : Text) → ModAction
  installed_mods_loaded : (slug : Text) (mods : List InstalledModRow) → ModAction
  installed_mods_move : (delta : ℤ) → ModAction
  toggle_mod_enabled : ModAction
  mod_toggled : (slug mod_id : Text) (enabled : Bool) → ModAction
  open_uninstall_mod_confirm confirm_uninstall_mod cancel_uninstall_mod : ModAction
  mod_uninstalled : (slug mod_id : Text) → ModAction
  close_installed_mods : ModAction

-- Icons that a background task has fetched.
pub data IconAction : Type 0 where
  icon_fetched : (source : IconSource) (project_id : Text) → IconAction
  installed_icons_resolved :
      (slug : Text) (source : IconSource) (hits : List (Text × Option Text)) → IconAction

pub data Action : Type 0 where
  quit tick : Action
  task : (event : TaskEvent) → Action
  on_instances : (action : InstanceAction) → Action
  on_accounts : (action : AccountAction) → Action
  on_java : (action : JavaAction) → Action
  on_loaders : (action : LoaderAction) → Action
  on_launches : (action : LaunchAction) → Action
  on_services : (action : ServiceAction) → Action
  on_mods : (action : ModAction) → Action
  on_cf : (action : CfAction) → Action
  on_modpacks : (action : ModpackAction) → Action
  on_packs : (action : PackAction) → Action
  on_icons : (action : IconAction) → Action
