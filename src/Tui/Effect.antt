-- ===== src/Tui/Effect.antt =====
-- `Effect` of src/tui/app.rs: the work that `update` asks the run loop to start.
use ichr.Base.{ℕ, Bool, Option, Text, ℤ}
use ichr.Domain.Instance.{JavaRuntimeId, LoaderInfo}
use ichr.Domain.Account.{AuthContext}
use ichr.Modpack.Parse.{LoaderType}
use ichr.Mods.Types.{ModrinthVersion}
use ichr.Mods.DepResolve.{ResolvedDepGraph}
use ichr.Mods.Hits.{CurseForgeProjectDetail, CurseForgeFileEntry, IconSource, IconFetchPurpose}
use ichr.Packs.{PackKind}

pub data Effect : Type 0 where
  quit_app fetch_manifest fetch_instances start_device_code_auth fetch_accounts : Effect
  cancel_modpack_import : Effect
  delete_instance : (slug : Text) → Effect
  rename_instance : (slug new_name : Text) → Effect
  clone_instance : (source_slug new_name : Text) → Effect
  create_instance : (display_name mc_version_id version_url version_sha1 : Text) → Effect
  set_group : (slug : Text) (group : Option Text) → Effect
  launch : (slug : Text) (auth_ctx : AuthContext) → Effect
  kill_process : (slug : Text) → Effect
  remove_account : (id : Text) → Effect
  activate_account : (id : Text) → Effect
  fetch_system_javas : (slug : Text) → Effect
  set_java_override : (slug : Text) (override_id : Option JavaRuntimeId) → Effect
  fetch_loader_versions : (slug : Text) (loader_type : LoaderType) → Effect
  install_loader :
      (slug : Text) (loader_type : LoaderType) (mc_version loader_version : Text) → Effect
  stop_loader_install : (slug : Text) → Effect
  remove_loader : (slug : Text) → Effect
  search_modrinth : (slug query : Text) (mc : Option Text) (loader : Option LoaderInfo) → Effect
  fetch_mod_detail : (slug project_id : Text) → Effect
  list_mod_versions :
      (slug project_id project_title : Text) (mc : Option Text) (loader : Option LoaderInfo)
      → Effect
  resolve_mod_dependencies :
      (slug project_id project_title version_id version_label mc : Text)
      (loader : Option LoaderInfo)
      → Effect
  install_mod_with_deps :
      (slug project_slug project_title : Text) (root_version : ModrinthVersion)
      (graph : ResolvedDepGraph)
      → Effect
  toggle_mod_enabled_eff : (slug mod_id : Text) (want_enabled : Bool) → Effect
  uninstall_mod : (slug mod_id : Text) → Effect
  fetch_installed_mods : (slug : Text) → Effect
  search_curse_forge : (slug query : Text) (mc : Option Text) (loader : Option ℤ) → Effect
  fetch_cf_mod : (slug : Text) (mod_id : ℕ) → Effect
  list_cf_files : (slug : Text) (mod_id : ℕ) (mc : Option Text) (loader : Option ℤ) → Effect
  install_cf_mod :
      (slug : Text) (mod_detail : CurseForgeProjectDetail) (file : CurseForgeFileEntry) → Effect
  import_modpack : (mrpack_path : Text) → Effect
  search_packs : (slug : Text) (kind : PackKind) (query : Text) (mc : Option Text) → Effect
  fetch_installed_packs : (slug : Text) (kind : PackKind) → Effect
  drop_install_pack : (slug : Text) (kind : PackKind) (path : Text) → Effect
  install_pack_from_modrinth :
      (slug : Text) (kind : PackKind) (project_id project_slug project_title : Text)
      (version : ModrinthVersion)
      → Effect
  fetch_pack_versions :
      (slug : Text) (kind : PackKind) (project_id project_slug project_title : Text)
      (mc : Option Text)
      → Effect
  toggle_pack_enabled_eff : (slug : Text) (kind : PackKind) (mod_id : Text) → Effect
  uninstall_pack : (slug : Text) (kind : PackKind) (mod_id : Text) → Effect
  fetch_icon : (source : IconSource) (project_id url : Text) (purpose : IconFetchPurpose) → Effect
  resolve_installed_icons : (slug : Text) (source : IconSource) → Effect
