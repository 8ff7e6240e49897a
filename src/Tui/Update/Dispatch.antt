-- ===== src/Tui/Update/Dispatch.antt =====
-- The actions of src/tui/app.rs on instances, accounts, Java, loaders and launches, each to its arm
-- of `update`.
use ichr.Base.{some, [], ◌∷◌, push, pop}
use ichr.Tui.Effect.{fetch_instances, start_device_code_auth}
use ichr.Tui.State.{AppState, Step, with_view}
use ichr.Tui.Update.Instances.{
  to_default, open_create_modal_arm, open_delete_confirm_arm, open_rename_inline_arm,
  move_selection_arm, type_name_arm, backspace_name_arm, submit_instance_name_arm,
  set_version_filter_arm, edit_search_arm, select_version_arm, edit_rename_arm, submit_rename_arm,
  clone_selected_arm, confirm_delete_arm, open_group_input_arm, edit_group_arm, submit_group_arm,
}
use ichr.Tui.Update.Accounts.{
  open_accounts_arm, close_accounts_arm, accounts_loaded_arm, account_auth_started_arm,
  account_auth_progress_arm, account_added_arm, account_auth_failed_arm, remove_account_arm,
  activate_account_arm, cancel_add_account_arm, add_account_token_created_arm,
}
use ichr.Tui.Update.Launches.{
  launch_instance_arm, launch_job_started_arm, instance_exited_arm, launch_failed_arm,
  stop_instance_arm, progress_arm, completed_arm, version_install_failed_arm,
}
use ichr.Tui.Update.Java.{
  open_java_picker_arm, java_picker_options_loaded_arm, java_picker_move_arm,
  java_picker_select_arm, java_override_failed_arm,
}
use ichr.Tui.Update.Loaders.{
  open_loader_picker_arm, loader_picker_move_arm, loader_picker_select_arm,
  loader_versions_loaded_arm, loader_version_picker_move_arm, toggle_stable_filter_arm,
  edit_loader_search_arm, loader_version_picker_cancel_arm,
}
use ichr.Tui.Update.LoaderInstalls.{
  loader_version_select_arm, loader_install_started_arm, loader_install_progress_arm,
  loader_install_log_tail_arm, loader_installed_arm, loader_install_failed_arm,
  cancel_loader_install_arm, confirm_loader_switch_arm,
}
use ichr.Tui.Action.{
  TaskEvent, progress, completed, InstanceAction, open_create_modal, close_modal,
  open_delete_confirm, open_rename_inline, move_selection, type_name, paste_name, backspace_name,
  submit_instance_name, set_version_filter, type_search, backspace_search, clear_search,
  select_version, type_rename, backspace_rename, submit_rename, clone_selected, confirm_delete,
  cancel_delete, open_group_input, type_group, backspace_group, submit_group, cancel_group_input,
  AccountAction, open_accounts, close_accounts, add_account, cancel_add_account, accounts_loaded,
  account_auth_started, account_auth_progress, account_added, account_auth_failure, remove_account,
  activate_account, add_account_token_created, JavaAction, open_java_picker,
  java_picker_options_loaded, java_picker_move, java_picker_select, java_picker_cancel,
  java_override_set, java_override_failed, LoaderAction, open_loader_picker, loader_picker_move,
  loader_picker_select, loader_picker_cancel, loader_versions_loaded, loader_version_picker_move,
  toggle_stable_filter, loader_version_type_search, loader_version_backspace_search,
  loader_version_select, loader_version_picker_cancel, loader_install_started,
  loader_install_progress, loader_install_log_tail, loader_installed, loader_install_failed,
  cancel_loader_install, dismiss_loader_install_failed, confirm_loader_switch, cancel_loader_switch,
  LaunchAction, launch_instance, launch_job_started, instance_launched, instance_exited,
  launch_failed, stop_instance, ServiceAction, manifest_loaded, instances_loaded, version_installed,
  version_install_failed, instance_deleted, instance_renamed, instance_cloned, service_errored,
}

abbrev pub task_step : AppState → TaskEvent → Step
task_step s (progress id pct msg) = progress_arm s id pct msg
task_step s (completed id result) = completed_arm s id result

abbrev pub instance_step : AppState → InstanceAction → Step
instance_step s open_create_modal = with_view s open_create_modal_arm
instance_step s close_modal = with_view s to_default
instance_step s (open_delete_confirm slug display_name) =
    with_view s (open_delete_confirm_arm slug display_name)
instance_step s (open_rename_inline slug current) =
    with_view s (open_rename_inline_arm slug current)
instance_step s (move_selection delta) = with_view s (move_selection_arm s delta s.active_view)
instance_step s (type_name c) = with_view s (type_name_arm (c ∷ []) s.active_view)
instance_step s (paste_name pasted) = with_view s (type_name_arm pasted s.active_view)
instance_step s backspace_name = with_view s (backspace_name_arm s.active_view)
instance_step s (submit_instance_name name) =
    with_view s (submit_instance_name_arm s name s.active_view)
instance_step s (set_version_filter f) = set_version_filter_arm s f
instance_step s (type_search c) = with_view s (edit_search_arm (λ t. push t c) s.active_view)
instance_step s backspace_search = with_view s (edit_search_arm pop s.active_view)
instance_step s clear_search = with_view s (edit_search_arm (λ t. []) s.active_view)
instance_step s (select_version id) = with_view s (select_version_arm s id s.active_view)
instance_step s (type_rename c) = with_view s (edit_rename_arm (λ t. push t c) s.active_view)
instance_step s backspace_rename = with_view s (edit_rename_arm pop s.active_view)
instance_step s (submit_rename new_name) = with_view s (submit_rename_arm new_name s.active_view)
instance_step s clone_selected = with_view s (clone_selected_arm s s.active_view)
instance_step s confirm_delete = with_view s (confirm_delete_arm s.active_view)
instance_step s cancel_delete = with_view s to_default
instance_step s (open_group_input slug current) = with_view s (open_group_input_arm slug current)
instance_step s (type_group c) = with_view s (edit_group_arm (λ t. push t c) s.active_view)
instance_step s backspace_group = with_view s (edit_group_arm pop s.active_view)
instance_step s submit_group = with_view s (submit_group_arm s.active_view)
instance_step s cancel_group_input = with_view s to_default

abbrev pub account_step : AppState → AccountAction → Step
account_step s open_accounts = with_view s open_accounts_arm
account_step s close_accounts = close_accounts_arm s
account_step s add_account = (s, start_device_code_auth ∷ [])
account_step s cancel_add_account = cancel_add_account_arm s
account_step s (accounts_loaded list) = accounts_loaded_arm s list
account_step s (account_auth_started user_code verification_uri expires_at) =
    with_view s (account_auth_started_arm user_code verification_uri expires_at)
account_step s (account_auth_progress stage) =
    with_view s (account_auth_progress_arm stage s.active_view)
account_step s (account_added account) = account_added_arm s account
account_step s (account_auth_failure reason) = account_auth_failed_arm s reason
account_step s (remove_account id) = remove_account_arm s id
account_step s (activate_account id) = activate_account_arm s id
account_step s (add_account_token_created token) = add_account_token_created_arm s token

abbrev pub java_step : AppState → JavaAction → Step
java_step s (open_java_picker slug) = with_view s (open_java_picker_arm s slug s.active_view)
java_step s (java_picker_options_loaded slug options) =
    with_view s (java_picker_options_loaded_arm slug options s.active_view)
java_step s (java_picker_move delta) = with_view s (java_picker_move_arm delta s.active_view)
java_step s java_picker_select = with_view s (java_picker_select_arm s.active_view)
java_step s java_picker_cancel = with_view s to_default
java_step s (java_override_set slug) = (s, fetch_instances ∷ [])
java_step s (java_override_failed slug reason) = java_override_failed_arm s reason

abbrev pub loader_step : AppState → LoaderAction → Step
loader_step s (open_loader_picker slug) = with_view s (open_loader_picker_arm s slug s.active_view)
loader_step s (loader_picker_move delta) = with_view s (loader_picker_move_arm delta s.active_view)
loader_step s loader_picker_select = with_view s (loader_picker_select_arm s s.active_view)
loader_step s loader_picker_cancel = with_view s to_default
loader_step s (loader_versions_loaded slug loader versions) =
    with_view s (loader_versions_loaded_arm slug loader versions s.active_view)
loader_step s (loader_version_picker_move delta) =
    with_view s (loader_version_picker_move_arm delta s.active_view)
loader_step s toggle_stable_filter = with_view s (toggle_stable_filter_arm s.active_view)
loader_step s (loader_version_type_search c) =
    with_view s (edit_loader_search_arm (λ t. push t c) s.active_view)
loader_step s loader_version_backspace_search =
    with_view s (edit_loader_search_arm pop s.active_view)
loader_step s loader_version_select = with_view s (loader_version_select_arm s s.active_view)
loader_step s loader_version_picker_cancel =
    with_view s (loader_version_picker_cancel_arm s.active_view)
loader_step s (loader_install_started slug token) = loader_install_started_arm s slug token
loader_step s (loader_install_progress slug pct step_label bytes_done bytes_total) =
    with_view s
      (loader_install_progress_arm slug pct step_label bytes_done bytes_total s.active_view)
loader_step s (loader_install_log_tail slug tail) =
    with_view s (loader_install_log_tail_arm slug tail s.active_view)
loader_step s (loader_installed slug) = loader_installed_arm s slug
loader_step s (loader_install_failed slug loader version error log_tail) =
    loader_install_failed_arm s slug loader version error log_tail
loader_step s (cancel_loader_install slug) = cancel_loader_install_arm s slug
loader_step s dismiss_loader_install_failed = with_view s to_default
loader_step s confirm_loader_switch = with_view s (confirm_loader_switch_arm s s.active_view)
loader_step s cancel_loader_switch = with_view s to_default

abbrev pub launch_step : AppState → LaunchAction → Step
launch_step s (launch_instance slug) = (s, launch_instance_arm s slug)
launch_step s (launch_job_started slug token) = launch_job_started_arm s slug token
launch_step s (instance_launched slug) = (s, [])
launch_step s (instance_exited slug duration_ms) = instance_exited_arm s slug
launch_step s (launch_failed slug error log_tail) = launch_failed_arm s slug error log_tail
launch_step s (stop_instance slug) = stop_instance_arm s slug

abbrev pub service_step : AppState → ServiceAction → Step
service_step s (manifest_loaded versions) = (record s { versions = versions }, [])
service_step s (instances_loaded list) = (record s { instances = list }, [])
service_step s (version_installed slug) = (s, fetch_instances ∷ [])
service_step s (version_install_failed slug error) = version_install_failed_arm s error
service_step s (instance_deleted slug) = (s, fetch_instances ∷ [])
service_step s (instance_renamed slug new_name) = (s, fetch_instances ∷ [])
service_step s (instance_cloned source_slug new_slug) = (s, fetch_instances ∷ [])
service_step s (service_errored e) = (record s { last_error = some e }, [])
