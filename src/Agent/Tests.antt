-- ===== src/Agent/Tests.antt =====
-- The supervisor on concrete runs.
use hostit.Common.{◌≡◌, refl, List, [], ◌∷◌, ◌++◌, false, some}
use hostit.Agent.{
  Agent, Event, Start, idle, sleeping, failed_state, crashed_state, restart_plan, new, run, step,
}
use hostit.Agent.Invariant.{Inv}
use hostit.Agent.Runs.{run-Inv}

third_crash : (restart_plan 2 1000000000).give_up ≡ false
unfolding restart_plan
third_crash = refl

abbrev crash_once : List Event
crash_once = Event.look ∷ Event.start Start.starts ∷ Event.child_exits 1000 ∷ []

abbrev five_crashes : List Event
five_crashes =
    crash_once
    ++ (Event.timer
        ∷ (crash_once
            ++ (Event.timer
                ∷ (crash_once ++ (Event.timer ∷ (crash_once ++ (Event.timer ∷ crash_once)))))))

abbrev given_up : Agent
given_up = record new { phase = idle; app_state = failed_state }

five_crashes_run : run new five_crashes ≡ some given_up
unfolding run step restart_plan
five_crashes_run = refl

run-Inv_example : Inv given_up
run-Inv_example = run-Inv five_crashes given_up five_crashes_run

abbrev backing_off : Agent
backing_off = record new { phase = sleeping; crashes = 4; app_state = crashed_state }
