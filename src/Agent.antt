-- ===== src/Agent.antt =====
-- agent/service.go: the supervisor that is process 1 of an app's container. `Run` is a loop over
-- blocking calls, and other goroutines call `Reload`, `Pause`, `Resume` and `Stop` at any time: the
-- model is a state machine that takes one event at a time, the calls and the loop's own moves. What
-- the loop does between two waits is one move, except that the check of the pause and the start of
-- the command are two, so that a call can come between them. `none` means that an event cannot
-- happen in a state. Processes, logs and files are left out, but for the state that is
-- recorded; the code ignores an error of that write, and here there is none.
pub mod Backoff
pub mod Invariant
pub mod Runs
mod Tests
use hostit.Common.{
  ℕ, zero, suc, ◌+◌, ◌-◌, ◌*◌, ◌^◌, Bool, true, false, List, [], ◌∷◌, Option, none, some, ◌&&◌, ltb,
  leb, if◌then◌else◌,
}

-- Durations are in nanoseconds.
abbrev pub restart_backoff_base : ℕ
restart_backoff_base = 2000000000

abbrev pub restart_backoff_max : ℕ
restart_backoff_max = 60000000000

abbrev pub healthy_run_time : ℕ
healthy_run_time = 30000000000

abbrev pub crash_limit : ℕ
crash_limit = 5

pub record Plan : Type 0 where
  pub new_crashes : ℕ
  pub delay : ℕ
  pub give_up : Bool

unfoldable pub restart_plan : ℕ → ℕ → Plan
restart_plan crashes ran_for =
    let n = crashes + 1 in
    let delay = restart_backoff_base * 2 ^ (n - 1) in
    if leb healthy_run_time ran_for
    then record { new_crashes = 0; delay = restart_backoff_base; give_up = false }
    else if leb crash_limit n
    then record { new_crashes = n; delay = 0; give_up = true }
    else record {
      new_crashes = n;
      delay = if ltb restart_backoff_max delay then restart_backoff_max else delay;
      give_up = false;
    }

-- Where `Run` is: at the top of its loop, past the check of the pause, waiting to be woken, waiting
-- for its child, sleeping before a restart, or returned.
pub data Phase : Type 0 where
  top starting idle running sleeping done : Phase

-- What the state file says (`AppState*` of app/types.go), once it is written.
pub data AppState : Type 0 where
  unset stopped_state idle_state running_state crashed_state failed_state : AppState

-- `wake`, `reloads` and `stop` are whether something is in those channels, each of which holds one
-- value; `child` is whether the command that the supervisor started last runs and is not given up,
-- `unkillable` whether it will survive SIGKILL; `strays` counts the commands that were given up so and
-- may run on.
pub record Agent : Type 0 where
  pub phase : Phase
  pub paused : Bool
  pub wake : Bool
  pub reloads : Bool
  pub stop : Bool
  pub crashes : ℕ
  pub child : Bool
  pub unkillable : Bool
  pub strays : ℕ
  pub app_state : AppState

abbrev pub new : Agent
new = record {
  phase = top;
  paused = false;
  wake = false;
  reloads = false;
  stop = false;
  crashes = 0;
  child = false;
  unkillable = false;
  strays = 0;
  app_state = unset;
}

-- How an attempt to start the command ends; whether a command that starts will survive SIGKILL is
-- settled here.
pub data Start : Type 0 where
  no_config prepare_fails start_fails starts starts_unkillable : Start

pub data Event : Type 0 where
  call_reload call_pause call_resume call_stop : Event
  look : Event
  start : Start → Event
  take_wake take_reload take_stop timer : Event
  child_exits : ℕ → Event

-- The moves of the loop.
at_top : Agent → Agent
at_top a =
    if a.paused
    then record a { phase = idle; app_state = stopped_state }
    else record a { phase = starting }

after_start : Agent → Start → Agent
after_start a no_config = record a { phase = idle; app_state = idle_state }
after_start a prepare_fails = record a { phase = sleeping }
after_start a start_fails = record a { phase = sleeping }
after_start a starts = record a {
  phase = running;
  child = true;
  unkillable = false;
  app_state = running_state;
}
after_start a starts_unkillable = record a {
  phase = running;
  child = true;
  unkillable = true;
  app_state = running_state;
}

after_exit : Agent → Plan → Agent
after_exit a p =
    if p.give_up
    then record a { phase = idle; child = false; crashes = 0; app_state = failed_state }
    else record a {
      phase = sleeping;
      child = false;
      crashes = p.new_crashes;
      app_state = crashed_state;
    }

-- Out of a wait by a channel that holds something. A running child is killed first, or given up if it
-- survives that, and its crashes are forgotten.
pub waits : Phase → Bool
waits idle = true
waits running = true
waits sleeping = true
waits _ = false

is_running : Phase → Bool
is_running running = true
is_running _ = false

-- `killAndWait`: the commands that were given up after it
strays_after : Agent → ℕ
strays_after a = if is_running a.phase && a.unkillable then suc a.strays else a.strays

abbrev forget_child : Agent → Agent
unfolding strays_after is_running
forget_child a = record a {
  phase = top;
  child = false;
  unkillable = false;
  strays = strays_after a;
  crashes = if is_running a.phase then 0 else a.crashes;
}

leave_by_wake : Agent → Option Agent
leave_by_wake a =
    let b = forget_child a in
    if waits a.phase then (if a.wake then some (record b { wake = false }) else none) else none

leave_by_reload : Agent → Option Agent
leave_by_reload a =
    let b = forget_child a in
    if waits a.phase
    then (if a.reloads then some (record b { reloads = false }) else none)
    else none

-- A closed channel stays readable.
leave_by_stop : Agent → Option Agent
leave_by_stop a =
    if waits a.phase
    then (if a.stop
        then some
            (record a { phase = done; child = false; unkillable = false; strays = strays_after a })
        else none)
    else none

look_at : Phase → Agent → Option Agent
look_at top a = some (at_top a)
look_at _ a = none

start_at : Phase → Agent → Start → Option Agent
start_at starting a s = some (after_start a s)
start_at _ a s = none

timer_at : Phase → Agent → Option Agent
timer_at sleeping a = some (record a { phase = top })
timer_at _ a = none

exit_at : Phase → Agent → ℕ → Option Agent
exit_at running a ran_for = some (after_exit a (restart_plan a.crashes ran_for))
exit_at _ a ran_for = none

unfoldable pub step : Agent → Event → Option Agent
unfolding at_top after_start after_exit waits is_running strays_after leave_by_wake leave_by_reload
    leave_by_stop look_at start_at timer_at exit_at
step a call_reload = some (record a { paused = false; reloads = true })
step a call_pause = some (record a { paused = true; wake = true })
step a call_resume = some (record a { paused = false; wake = true })
step a call_stop = some (record a { stop = true })
step a look = look_at a.phase a
step a (start s) = start_at a.phase a s
step a take_wake = leave_by_wake a
step a take_reload = leave_by_reload a
step a take_stop = leave_by_stop a
step a timer = timer_at a.phase a
step a (child_exits ran_for) = exit_at a.phase a ran_for

-- A run of events; one that cannot happen has no result.
unfoldable pub run : Agent → List Event → Option Agent
run a [] = some a
run a (e ∷ es) = elim (step a e) [ none ↦ none | some b ↦ run b es ]
