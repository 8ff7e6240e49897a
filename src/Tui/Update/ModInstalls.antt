-- ===== src/Tui/Update/ModInstalls.antt =====
-- The arms of `update` in src/tui/app.rs that choose a mod's version, install it, and list, switch
-- and remove the installed mods.
use ichr.Base.{
  Bool, true, false, not, Option, none, some, List, [], ◌∷◌, map, filter, any, length, Text,
  text_eq, contains, if◌then◌else◌, ℤ, get_elem?, lookup, insert, erase,
}
use ichr.Mods.Types.{required, optional, incompatible, embedded, ResolvedDep}
use ichr.Mods.DepResolve.{ResolvedDepGraph}
use ichr.Mods.Hits.{ModrinthSearchHit, ModrinthVersionEntry}
use ichr.Tui.View.{
  ActiveView, ModVersionPicker, DepConfirm, ModInstallFailedReturnTo, to_mod_browser,
  to_installed_mods, mod_browser, mod_version_picker_modal, dep_confirm_modal, installed_mods_list,
  mod_install_failed_modal, default_view,
}
use ichr.Tui.Effect.{
  Effect, resolve_mod_dependencies, install_mod_with_deps, list_mod_versions, fetch_installed_mods,
}
use ichr.Tui.State.{
  AppState, Step, ViewStep, Token, with_view, instance_of, mc_of, loader_of, or_empty,
}
use ichr.Tui.Update.Mods.{clamped, open_browser}

abbrev pub mod_versions_loaded_arm : Text → List ModrinthVersionEntry → ActiveView → ViewStep
mod_versions_loaded_arm slug versions (mod_version_picker_modal p) = (
  mod_version_picker_modal
      (if text_eq p.slug slug then record p { versions = versions; selected = 0 } else p),
  [],
)
mod_versions_loaded_arm slug versions view = (view, [])

abbrev pub mod_version_picker_move_arm : ℤ → ActiveView → ViewStep
mod_version_picker_move_arm delta (mod_version_picker_modal p) = (
  mod_version_picker_modal (record p { selected = clamped (length p.versions) p.selected delta }),
  [],
)
mod_version_picker_move_arm delta view = (view, [])

abbrev pub resolve_chosen : AppState → ModVersionPicker → Option ModrinthVersionEntry → List Effect
resolve_chosen s p none = []
resolve_chosen s p (some v) =
    resolve_mod_dependencies p.slug p.project_id p.project_title v.version_id v.version_label
      (or_empty (mc_of (instance_of s p.slug))) (loader_of (instance_of s p.slug))
    ∷ []

abbrev pub mod_version_picker_select_arm : AppState → ActiveView → ViewStep
mod_version_picker_select_arm s (mod_version_picker_modal p) =
    (mod_version_picker_modal p, resolve_chosen s p (get_elem? p.versions p.selected))
mod_version_picker_select_arm s view = (view, [])

abbrev pub mod_version_picker_cancel_arm : AppState → ActiveView → ViewStep
mod_version_picker_cancel_arm s (mod_version_picker_modal p) = open_browser s p.slug
mod_version_picker_cancel_arm s view = (default_view, [])

abbrev pub is_incompatible : ResolvedDep → Bool
is_incompatible d = elim d.kind [
  | required ↦ false
  | optional ↦ false
  | incompatible ↦ true
  | embedded ↦ false
]

abbrev pub mod_deps_resolved_arm : Text → Text → Text → Text → Text → ResolvedDepGraph → ViewStep
mod_deps_resolved_arm slug project_id project_title version_id version_label graph = (
  dep_confirm_modal (record {
    slug = slug;
    project_id = project_id;
    project_title = project_title;
    version_id = version_id;
    version_label = version_label;
    deps = graph.deps;
    total_bytes = graph.total_new_bytes;
    total_files = graph.total_new_files;
    has_conflict = any is_incompatible graph.deps;
    root_version = graph.root;
  }),
  [],
)

-- The graph put together again from the fields that the modal kept.
abbrev pub graph_of : DepConfirm → ResolvedDepGraph
graph_of c = record {
  root = c.root_version;
  deps = c.deps;
  total_new_bytes = c.total_bytes;
  total_new_files = c.total_files;
}

abbrev pub confirm_mod_install_arm : ActiveView → ViewStep
confirm_mod_install_arm (dep_confirm_modal c) = (
  dep_confirm_modal c,
  if c.has_conflict
      then []
      else install_mod_with_deps c.slug c.root_version.project_id c.project_title c.root_version
          (graph_of c)
        ∷ [],
)
confirm_mod_install_arm view = (view, [])

abbrev pub cancel_mod_install_arm : AppState → ActiveView → ViewStep
cancel_mod_install_arm s (dep_confirm_modal c) = (
  mod_version_picker_modal (record {
    slug = c.slug;
    project_id = c.project_id;
    project_title = c.project_title;
    versions = [];
    selected = 0;
  }),
  list_mod_versions c.slug c.project_id c.project_title (mc_of (instance_of s c.slug))
        (loader_of (instance_of s c.slug))
      ∷ [],
)
cancel_mod_install_arm s view = (default_view, [])

abbrev pub mod_install_started_arm : AppState → Text → Token → Step
mod_install_started_arm s slug token =
    with_view (record s { running_mod_jobs = insert slug token s.running_mod_jobs })
      (open_browser s slug)

-- `HashSet::insert` and `HashSet::remove`, on a set as the list of its elements.
abbrev pub with_id : Text → List Text → List Text
with_id id ids = if contains ids id then ids else id ∷ ids

abbrev pub without_id : Text → List Text → List Text
without_id id ids = filter (λ x. not (text_eq x id)) ids

abbrev pub ids_or_empty : Option (List Text) → List Text
ids_or_empty none = []
ids_or_empty (some ids) = ids

-- The flag of every row of the project, in a browser open on the instance.
abbrev pub flagged : Text → Bool → ModrinthSearchHit → ModrinthSearchHit
flagged id flag hit =
    if text_eq hit.project_id id then record hit { already_installed = flag } else hit

abbrev pub flag_results : Text → Text → Bool → ActiveView → ActiveView
flag_results slug id flag (mod_browser b) =
    mod_browser
      (if text_eq b.slug slug then record b { results = map (flagged id flag) b.results } else b)
flag_results slug id flag view = view

abbrev pub mod_installed_arm : AppState → Text → Text → Step
mod_installed_arm s slug project_id = (
  record s {
    running_mod_jobs = erase slug s.running_mod_jobs;
    installed_mod_project_ids =
        insert slug (with_id project_id (ids_or_empty (lookup slug s.installed_mod_project_ids)))
          s.installed_mod_project_ids;
    active_view = flag_results slug project_id true s.active_view;
  },
  [],
)

abbrev pub return_to_of : ActiveView → ModInstallFailedReturnTo
return_to_of (mod_browser b) = to_mod_browser
return_to_of view = to_installed_mods

abbrev pub mod_install_failed_arm : AppState → Text → Text → Text → Text → Text → Step
mod_install_failed_arm s slug mod_title version_label error log_tail = (
  record s {
    running_mod_jobs = erase slug s.running_mod_jobs;
    active_view = mod_install_failed_modal (record {
      slug = slug;
      mod_title = mod_title;
      version_label = version_label;
      error = error;
      log_tail = log_tail;
      return_to = return_to_of s.active_view;
    });
  },
  [],
)

-- The list of an instance's mods, empty until they are fetched.
abbrev pub fresh_list : Text → ActiveView
fresh_list slug = installed_mods_list (record { slug = slug; mods = []; selected = 0 })

abbrev pub open_installed_mods_arm : Text → ViewStep
open_installed_mods_arm slug = (fresh_list slug, fetch_installed_mods slug ∷ [])

abbrev pub dismissed : AppState → Text → ModInstallFailedReturnTo → ViewStep
dismissed s slug to_mod_browser = open_browser s slug
dismissed s slug to_installed_mods = open_installed_mods_arm slug

abbrev pub dismiss_mod_install_failed_arm : AppState → ActiveView → ViewStep
dismiss_mod_install_failed_arm s (mod_install_failed_modal f) = dismissed s f.slug f.return_to
dismiss_mod_install_failed_arm s view = (default_view, [])
