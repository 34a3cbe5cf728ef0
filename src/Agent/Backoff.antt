-- ===== src/Agent/Backoff.antt =====
-- The delays of `restartPlan`.
use hostit.Common.{ℕ, zero, suc, ◌+◌, ◌≤◌, ◌<◌, ◌≡◌, ◌↔◌, true, false, arith}
use hostit.Agent.{restart_plan, restart_backoff_base, healthy_run_time, crash_limit}

-- The supervisor gives up exactly when the command ran for less than the healthy time and this is
-- the fifth such exit in a row, or a later one.
pub restart_plan_gives_up_iff :
    (crashes ran_for : ℕ)
    → ((restart_plan crashes ran_for).give_up ≡ true)
      ↔ ((ran_for < healthy_run_time) × (crash_limit ≤ crashes + 1))
unfolding restart_plan
restart_plan_gives_up_iff crashes ran_for = ground arith

-- While it restarts, the count of crashes stays below the limit and the delay is between two and
-- sixteen seconds: the cap of a minute is never reached.
pub restart_plan_bounds :
    (crashes ran_for : ℕ)
    → (restart_plan crashes ran_for).give_up ≡ false
    → ((restart_plan crashes ran_for).new_crashes < crash_limit)
      × (restart_backoff_base ≤ (restart_plan crashes ran_for).delay)
      × ((restart_plan crashes ran_for).delay ≤ 16000000000)
unfolding restart_plan
restart_plan_bounds zero ran_for h = ground arith
restart_plan_bounds (suc zero) ran_for h = ground arith
restart_plan_bounds (suc (suc zero)) ran_for h = ground arith
restart_plan_bounds (suc (suc (suc zero))) ran_for h = ground arith
restart_plan_bounds (suc (suc (suc (suc n)))) ran_for h = ground arith
