-- ===== src/Agent/Invariant.antt =====
-- What holds of the supervisor between two events.
use hostit.Common.{◌<◌, ◌≡◌, ◌⊎◌, true, some, arith}
use hostit.Agent.{Agent, starting, running, running_state, crash_limit, new, Event, step}
use hostit.Agent.Backoff.{restart_plan_bounds}

pub record Inv (a : Agent) : Type 0 where
  pub child_waited : a.child ≡ true → a.phase ≡ running
  pub running_child : a.phase ≡ running → (a.child ≡ true) × (a.app_state ≡ running_state)
  pub crashes_bounded : a.crashes < crash_limit
  pub pause_is_seen : a.paused ≡ true → (a.phase ≡ starting) ⊎ (a.phase ≡ running) → a.wake ≡ true

pub new-Inv : Inv new
new-Inv = ground arith

-- Every event keeps the invariant.
pub step-Inv : (a : Agent) (e : Event) (b : Agent) → Inv a → step a e ≡ some b → Inv b
unfolding step
step-Inv a Event.call_reload b h k = ground arith
step-Inv a (Event.child_exits n) b h k = ground (arith, restart_plan_bounds a.crashes n)
step-Inv a e b h k = ground arith
