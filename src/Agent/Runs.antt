-- ===== src/Agent/Runs.antt =====
-- What holds of the supervisor after any run of events.
use hostit.Common.{
  ℕ, suc, ◌+◌, ◌≤◌, ◌<◌, ◌≡◌, refl, inl, inr, true, false, some, arith, if◌then◌else◌, List, [],
  ◌∷◌, ◌&&◌, Option-cases, ltb,
}
use hostit.Agent.{
  Agent, idle, sleeping, AppState, stopped_state, failed_state, healthy_run_time, new, Event, Start,
  step, run, restart_plan, waits, is_running,
}
use hostit.Agent.Invariant.{Inv, new-Inv, step-Inv}

run-cons :
    (a : Agent) (e : Event) (es : List Event) (c : Agent)
    → run a (e ∷ es) ≡ some c
    → (b : Agent) × (step a e ≡ some b) × (run b es ≡ some c)
unfolding run
run-cons a e es c h = elim (Option-cases (step a e)) [
  | inl stuck ↦ absurd (ground arith)
  | inr (b, stepped) ↦ (b, stepped, ground arith)
]

run_from-Inv : (a : Agent) (es : List Event) (b : Agent) → Inv a → run a es ≡ some b → Inv b
unfolding run
run_from-Inv a [] b h k = ground arith
run_from-Inv a (e ∷ es) b h k =
    let (c, stepped, rest) = run-cons a e es b k in
    run_from-Inv c es b (step-Inv a e c h stepped) rest

-- After any events at all the supervisor is in order: it has a child that it has not given up exactly
-- while it waits for one, and it has then set the state to running; its count of crashes is below the
-- limit; and a pause that has come too late for the check is still in the channel when the command
-- runs. A command that survives SIGKILL is given up and is no child any more. The writes of the state,
-- whose errors the code ignores, succeed.
pub run-Inv : (es : List Event) (a : Agent) → run new es ≡ some a → Inv a
run-Inv es a h = run_from-Inv new es a new-Inv h

-- How many of the events are exits before the healthy time.
abbrev pub rapid_exits : List Event → ℕ
rapid_exits [] = 0
rapid_exits (Event.child_exits n ∷ es) =
    let rest = rapid_exits es in if ltb n healthy_run_time then suc rest else rest
rapid_exits (e ∷ es) = rapid_exits es

abbrev spent : AppState → ℕ → ℕ
spent failed_state crashes = 5
spent _ crashes = crashes

spent-step :
    (a : Agent) (e : Event) (es : List Event) (b : Agent)
    → Inv a
    → step a e ≡ some b
    → spent b.app_state b.crashes + rapid_exits es
      ≤ spent a.app_state a.crashes + rapid_exits (e ∷ es)
unfolding step restart_plan
spent-step a Event.call_reload es b h k = ground arith
spent-step a e es b h k = ground arith

spent-run :
    (a : Agent) (es : List Event) (b : Agent)
    → Inv a
    → run a es ≡ some b
    → spent b.app_state b.crashes ≤ spent a.app_state a.crashes + rapid_exits es
unfolding run
spent-run a [] b h k = ground arith
spent-run a (e ∷ es) b h k =
    let (c, stepped, rest) = run-cons a e es b k in
    omega (arith, spent-step a e es c h stepped, spent-run c es b (step-Inv a e c h stepped) rest)

-- An app is recorded as failed only after at least five exits before the healthy time.
pub failed_needs_exits :
    (es : List Event) (a : Agent)
    → run new es ≡ some a
    → a.app_state ≡ failed_state
    → 5 ≤ rapid_exits es
failed_needs_exits es a h f = ground (arith, spent-run new es a new-Inv h)

-- A pause takes effect from every wait: after the call and the two moves that it asks for, the
-- supervisor has no child and has set the state to stopped.
pub pause_stops :
    (a : Agent)
    → waits a.phase ≡ true
    → (b : Agent) × (run a (Event.call_pause ∷ Event.take_wake ∷ Event.look ∷ []) ≡ some b)
      × (b.phase ≡ idle)
      × (b.child ≡ false)
      × (b.app_state ≡ stopped_state)
unfolding run step
pause_stops a h = (
  record a {
    phase = idle;
    paused = true;
    wake = false;
    child = false;
    unkillable = false;
    strays = if is_running a.phase && a.unkillable then suc a.strays else a.strays;
    crashes = if is_running a.phase then 0 else a.crashes;
    app_state = stopped_state;
  },
  ground arith,
  refl,
  refl,
  refl,
)

-- A redeploy during the wait before a restart does not forget the crashes that came before it: an app
-- that waits after its fourth rapid exit, is redeployed, and then exits rapidly once, is given up.
pub reload_keeps_crashes :
    (a : Agent) (n : ℕ)
    → a.phase ≡ sleeping
    → a.crashes ≡ 4
    → n < healthy_run_time
    → (b : Agent) × (run a (
          Event.call_reload
          ∷ Event.take_reload
          ∷ Event.look
          ∷ Event.start Start.starts
          ∷ Event.child_exits n
          ∷ [])
        ≡ some b)
      × (b.app_state ≡ failed_state)
unfolding run step restart_plan
reload_keeps_crashes a n h k lt = (
  record a {
    phase = idle;
    paused = false;
    reloads = false;
    child = false;
    unkillable = false;
    strays = a.strays;
    crashes = 0;
    app_state = failed_state;
  },
  ground arith,
  refl,
)
