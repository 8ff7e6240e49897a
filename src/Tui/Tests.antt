-- ===== src/Tui/Tests.antt =====
-- The interface of src/tui/app.rs on small states, and instances of its theorems.
use ichr.Base.{
  ℕ, zero, suc, ◌+◌, ◌-◌, ◌≤◌, ◌<◌, none, some, true, false, codes, List, [], ◌∷◌, ◌≡◌, refl, arith,
  pos, negsuc, text_eq, lookup,
}
use ichr.Domain.Account.{Account, keyring}
use ichr.Domain.Instance.{InstanceManifest, LoaderInfo}
use ichr.Modpack.Parse.{LoaderType, fabric}
use ichr.Mods.Types.{ModrinthVersion}
use ichr.Mods.DepResolve.{ResolvedDepGraph}
use ichr.Mods.Hits.{ModrinthSearchHit, ready}
use ichr.Tui.View.{ActiveView, releases, default_view, mod_browser}
use ichr.Tui.View.Browsers.{ModBrowser}
use ichr.Tui.State.{AppState, ViewStep}
use ichr.Tui.Action.{
  Action, tick, on_launches, on_loaders, on_mods, on_accounts, launch_instance, open_loader_picker,
  loader_picker_move, mod_deps_resolved, confirm_mod_install, mod_browser_search_loaded,
  activate_account, mod_install_started, mod_uninstalled,
}
use ichr.Tui.Effect.{install_loader}
use ichr.Tui.Update.Step.{update, run}
use ichr.Tui.Update.Loaders.{target_kind}
use ichr.Tui.Update.LoaderInstalls.{switch_to, confirm_loader_switch_arm}
use ichr.Tui.Update.Launches.{is_running}
use ichr.Tui.Update.Mods.{next_scroll_offset}
use ichr.Tui.Bounds.{IsWellFormed, run-IsWellFormed}
use ichr.Tui.Guards.{asks_conflict, launch_guarded, run-no_conflict}
use ichr.Tui.Busy.{busy_of, busy_after, busy_of-update}
use ichr.Tui.Switch.{is_confirmation, confirm-switch_to}
use ichr.Tui.Scroll.{next_scroll_offset_lem}
use ichr.Tui.Quit.{run-running_pack_jobs}
use ichr.Tui.ActiveAccount.{ActiveIsListed, update-ActiveIsListed}
use ichr.Tui.Marks.{installed, marks, marks-mod_installed}

abbrev pack : InstanceManifest
pack = record {
  schema_version = 1;
  display_name = codes "Pack";
  slug = codes "pack";
  mc_version_id = codes "1.21";
  created_at = [];
  last_played_at = none;
  notes = none;
  group = none;
  java_override = none;
  loader = none;
  total_play_time_ms = 0;
}

abbrev player : Account
player = record {
  id = codes "p";
  mc_username = codes "Player";
  mc_uuid = [];
  mc_token_expires_at = pos 0;
  msa_token_expires_at = pos 0;
  added_at = pos 0;
  last_refreshed_at = negsuc 0;
  is_active = true;
  storage = keyring;
}

abbrev pub start : AppState
start = record {
  should_quit = false;
  active_view = default_view;
  instances = pack ∷ [];
  versions = [];
  versions_filter = releases;
  active_jobs = [];
  arch = none;
  os = none;
  last_error = none;
  running_instances = [];
  running_loader_installs = [];
  running_mod_jobs = [];
  accounts = player ∷ [];
  active_account_id = none;
  add_account_cancel = none;
  cf_api_key_present = true;
  running_modpack_imports = [];
  running_pack_jobs = [];
  installed_mod_project_ids = [];
  installed_pack_project_ids = [];
  icon_rendering_enabled = false;
  cancelled = [];
}

abbrev sodium : ModrinthVersion
sodium = record {
  id = codes "v1";
  project_id = codes "sodium";
  name = codes "Sodium";
  version_number = codes "1";
  version_type = codes "release";
  game_versions = [];
  loaders = [];
  downloads = 0;
  date_published = [];
  dependencies = [];
  files = [];
}

abbrev graph : ResolvedDepGraph
graph = record { root = sodium; deps = []; total_new_bytes = 0; total_new_files = 1 }

abbrev launch_pack : Action
launch_pack = on_launches (launch_instance (codes "pack"))

abbrev picking : List Action
picking =
    on_loaders (open_loader_picker (codes "pack")) ∷ on_loaders (loader_picker_move (negsuc 0)) ∷ []

abbrev installing : List Action
installing =
    on_mods (mod_deps_resolved (codes "pack") (codes "sodium") [] (codes "v1") [] graph)
    ∷ on_mods confirm_mod_install
    ∷ []

abbrev hits : ℕ → List ModrinthSearchHit
hits zero = []
hits (suc n) =
    record {
      project_id = codes "sodium";
      slug = [];
      title = [];
      description = [];
      downloads = n;
      already_installed = false;
      icon_url = none;
    }
    ∷ hits n

abbrev browsing : ModBrowser
browsing = record {
  slug = codes "pack";
  search = [];
  is_searching = true;
  mc_filter_override = none;
  loader_filter_override = none;
  results = hits 12;
  selected = 11;
  fetch_state = ready;
  selected_detail = none;
  scroll_offset = 4;
}

abbrev pub in_browser : AppState
in_browser = record start { active_view = mod_browser browsing }

abbrev selected_and_offset : ActiveView → ℕ × ℕ
selected_and_offset (mod_browser b) = (b.selected, b.scroll_offset)
selected_and_offset view = (0, 0)

-- The answer to a search keeps the twelfth row selected and shows the rows from the first, of which
-- eight are assumed to fit.
selected_below_the_window :
    selected_and_offset
      (update none in_browser
        (on_mods (mod_browser_search_loaded (codes "pack") (hits 12)))).0.active_view
    ≡ (11, 0)
unfolding update text_eq lookup
selected_below_the_window = refl

run-IsWellFormed_example : IsWellFormed (run none start picking).0.active_view
run-IsWellFormed_example = run-IsWellFormed none start picking tt

launch_guarded_example : (launch_pack ≡ launch_pack) × (is_running start (codes "pack") ≡ false)
unfolding update text_eq lookup
launch_guarded_example = launch_guarded none start launch_pack (codes "pack") refl

run-no_conflict_example : asks_conflict (run none start installing).1 ≡ false
run-no_conflict_example = run-no_conflict none start installing tt

busy_of-update_example :
    busy_of
      (update none start (on_mods (mod_install_started (codes "pack") (codes "sodium") 7))).0
      (codes "pack")
    ≡ busy_after
        (codes "pack")
        (on_mods (mod_install_started (codes "pack") (codes "sodium") 7))
        (busy_of start (codes "pack"))
busy_of-update_example =
    busy_of-update none start (on_mods (mod_install_started (codes "pack") (codes "sodium") 7))
      (codes "pack")

abbrev quilted : LoaderInfo
quilted = record { kind = target_kind LoaderType.quilt; version = codes "0.2"; version_id = [] }

abbrev asked : ViewStep
asked = switch_to start (codes "pack") fabric (codes "0.16:x") (some quilted) default_view

confirm-switch_to_example :
    (asked.1 ≡ [])
    × (is_confirmation asked.0 ≡ true)
    × ((confirm_loader_switch_arm start asked.0).1
        ≡ install_loader (codes "pack") fabric (codes "1.21") (codes "0.16:x") ∷ [])
    × ((confirm_loader_switch_arm start asked.0).0
        ≡ (switch_to start (codes "pack") fabric (codes "0.16:x") none default_view).0)
unfolding text_eq
confirm-switch_to_example =
    confirm-switch_to start (codes "pack") fabric (codes "0.16:x") quilted default_view refl

next_scroll_offset_lem_example :
    (next_scroll_offset 9 0 8 10 ≤ 9)
    × (9 < next_scroll_offset 9 0 8 10 + 8)
    × (next_scroll_offset 9 0 8 10 ≤ 10 - 8)
next_scroll_offset_lem_example = next_scroll_offset_lem 9 0 8 10 (omega arith) (omega arith)

run-running_pack_jobs_example : (run none start installing).0.running_pack_jobs ≡ []
run-running_pack_jobs_example = run-running_pack_jobs none start installing refl

update-ActiveIsListed_example :
    ActiveIsListed (update none start (on_accounts (activate_account (codes "p")))).0
unfolding text_eq
update-ActiveIsListed_example =
    update-ActiveIsListed none start (on_accounts (activate_account (codes "p"))) refl tt

-- Another mod is taken out between the installation and the search.
abbrev between : List Action
between = tick ∷ on_mods (mod_uninstalled (codes "pack") (codes "lithium")) ∷ []

marks-mod_installed_example :
    marks
      (codes "pack")
      (codes "sodium")
      (update none
        (run none (installed none in_browser (codes "pack") (codes "sodium")) between).0
        (on_mods (mod_browser_search_loaded (codes "pack") (hits 2)))).0.active_view
    ≡ true
unfolding text_eq
marks-mod_installed_example =
    marks-mod_installed none in_browser (codes "pack") (codes "sodium") between (hits 2)
      (refl, (refl, tt))
