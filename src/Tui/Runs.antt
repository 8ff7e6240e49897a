-- ===== src/Tui/Runs.antt =====
-- Induction over the actions that the loop of src/tui/run.rs takes.
use ichr.Base.{
  Option, Bool, true, false, ◌||◌, Text, List, [], ◌∷◌, ◌++◌, All, ◌≡◌, refl, arith, if◌then◌else◌,
}
use ichr.Tui.Effect.{Effect}
use ichr.Tui.State.{AppState, Step}
use ichr.Tui.Action.{Action}
use ichr.Tui.Update.Step.{update, run}

-- A property of states, and one of the effects started from a state that has it.
module _ (home : Option Text) (P : AppState → Type 0) (asks : List Effect → Bool)
    (asks-append : (es fs : List Effect) → asks (es ++ fs) ≡ (asks es || asks fs))
    (asks-none : asks [] ≡ false) (kept : (s : AppState) (a : Action) → P s → P (update home s a).0)
    (unasked : (s : AppState) (a : Action) → P s → asks (update home s a).1 ≡ false) where
  abbrev Sound : Step → Type 0
  Sound r = P r.0 × (asks r.1 ≡ false)

  either-Sound : (b : Bool) (r t : Step) → Sound r → Sound t → Sound (if b then r else t)
  either-Sound true r t h k = h
  either-Sound false r t h k = k

  pub run-Sound : (s : AppState) (actions : List Action) → P s → Sound (run home s actions)
  unfolding run
  run-Sound s [] h = (h, asks-none)
  run-Sound s (a ∷ rest) h =
      let next = update home s a in
      let later = run-Sound next.0 rest (kept s a h) in
      let quiet = unasked s a h in
      either-Sound next.0.should_quit next
        ((run home next.0 rest).0, next.1 ++ (run home next.0 rest).1) (kept s a h, quiet)
        (later.0, grind (arith, asks-append next.1 (run home next.0 rest).1, quiet, later.1))

module _ (home : Option Text) (P : AppState → Type 0)
    (kept : (s : AppState) (a : Action) → P s → P (update home s a).0) where
  pub run-kept : (s : AppState) (actions : List Action) → P s → P (run home s actions).0
  run-kept s actions h =
      (run-Sound home P (λ es. false) (λ es fs. refl) refl kept (λ t a k. refl) s actions h).0

-- A property that only some actions keep, over a list of such actions.
module _ (home : Option Text) (P : AppState → Type 0) (Allowed : Action → Type 0)
    (kept : (s : AppState) (a : Action) → Allowed a → P s → P (update home s a).0) where
  either : (b : Bool) (r t : Step) → P r.0 → P t.0 → P (if b then r else t).0
  either true r t h k = h
  either false r t h k = k

  pub run-kept_if :
      (s : AppState) (actions : List Action) → All Allowed actions → P s → P (run home s actions).0
  unfolding run
  run-kept_if s [] allowed h = h
  run-kept_if s (a ∷ rest) allowed h =
      let next = update home s a in
      let now = kept s a allowed.0 h in
      either next.0.should_quit next ((run home next.0 rest).0, next.1 ++ (run home next.0 rest).1)
        now (run-kept_if next.0 rest allowed.1 now)
