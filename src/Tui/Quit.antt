-- ===== src/Tui/Quit.antt =====
-- When the loop of src/tui/run.rs ends, and what never enters the table of running pack jobs.
use ichr.Base.{Option, Bool, true, false, ◌||◌, Text, List, [], ◌∷◌, any, ◌≡◌, arith}
use ichr.Tui.State.{AppState}
use ichr.Tui.Action.{Action, quit}
use ichr.Tui.Update.Step.{update, run}
use ichr.Tui.Runs.{run-kept}

abbrev pub is_quit : Action → Bool
is_quit quit = true
is_quit _ = false

update-should_quit :
    (home : Option Text) (s : AppState) (a : Action)
    → (update home s a).0.should_quit ≡ (s.should_quit || is_quit a)
unfolding update
update-should_quit home s a = ground arith

-- The state ends with its flag set exactly where it was set or one of the actions is to quit.
pub run-should_quit :
    (home : Option Text) (s : AppState) (actions : List Action)
    → (run home s actions).0.should_quit ≡ (s.should_quit || any is_quit actions)
unfolding run
run-should_quit home s [] = ground arith
run-should_quit home s (a ∷ rest) =
    grind (arith, update-should_quit home s a, run-should_quit home (update home s a).0 rest)

no_jobs-update :
    (home : Option Text) (s : AppState) (a : Action)
    → s.running_pack_jobs ≡ []
    → (update home s a).0.running_pack_jobs ≡ []
unfolding update
no_jobs-update home s a h = grind arith

-- From a state without running pack jobs, no list of actions ends in a state with one.
pub run-running_pack_jobs :
    (home : Option Text) (s : AppState) (actions : List Action)
    → s.running_pack_jobs ≡ []
    → (run home s actions).0.running_pack_jobs ≡ []
run-running_pack_jobs home s actions h =
    run-kept home (λ t. t.running_pack_jobs ≡ []) (no_jobs-update home) s actions h
