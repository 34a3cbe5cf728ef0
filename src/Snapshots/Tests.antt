-- ===== src/Snapshots/Tests.antt =====
-- The sweep on concrete apps and times.
use hostit.Common.{
  ℕ, ◌+◌, ◌-◌, ◌*◌, ◌≡◌, inl, refl, String, [], ◌∷◌, Option, none, some, true, false, arith, str_eq,
  if◌then◌else◌,
}
use hostit.Common.Text.{trim_space}
use hostit.Common.Int.{ℤ, pos}
use mathlib.Core.List.{Memᴰ}
use hostit.App.{Config, interval_of, snapshot_interval}
use hostit.Snapshots.{
  snapshot_due, newest_auto, last_auto_snapshot, SweptApp, take_snapshot, prune_of, prune_snapshots,
  act, round, join, or_default, app_interval, sweep_app, sweep,
}
use hostit.Snapshots.Sweep.{IsDue, sweep-Takes, sweep_panics}

-- Noon of 26 November 2026, and the hour before it, in nanoseconds.
abbrev noon : ℕ
noon = (62135596800 + 1795694400) * 1000000000

abbrev hour : ℕ
hour = 3600000000000

overdue : snapshot_due "blog" (pos hour) (noon - 3 * hour) noon ≡ some true
unfolding snapshot_due
overdue = refl

-- `time.ParseDuration` where the text is half a second.
abbrev half_second : String → Option ℤ
half_second s = if str_eq s "500ms" then some (pos 500000000) else none

abbrev every_half_second : Config
every_half_second = record {
  description = "";
  prepare = "";
  mode = "app";
  run = "./server";
  env = [];
  snapshot = record { pre = ""; post = ""; interval = "500ms" };
}

abbrev fresh : SweptApp
fresh = record {
  name = "blog";
  archived = false;
  config = some every_half_second;
  snapshots = some [];
  takes_snapshot = true;
  records_to_prune = some [];
}

abbrev drifted : SweptApp
drifted = record {
  name = "shop";
  archived = false;
  config = none;
  snapshots = some (
      record { id = "s1"; app = "shop"; label = ""; created_at = noon - 7 * hour; auto = true }
      ∷ []);
  takes_snapshot = true;
  records_to_prune = none;
}

drifted_swept : sweep half_second (drifted ∷ []) noon ≡ some (take_snapshot "shop" ∷ [])
unfolding sweep sweep_app act round join snapshot_due app_interval last_auto_snapshot newest_auto
    prune_snapshots prune_of
drifted_swept = refl

sweep-Takes_example :
    (a : SweptApp) × Memᴰ a (drifted ∷ []) × (a.name ≡ "shop") × IsDue half_second noon a
sweep-Takes_example =
    sweep-Takes half_second (drifted ∷ []) noon (take_snapshot "shop" ∷ []) "shop" drifted_swept
      (inl refl)

fresh_interval : app_interval half_second fresh.config ≡ pos 500000000
unfolding app_interval or_default snapshot_interval interval_of trim_space
fresh_interval = refl

fresh_last : last_auto_snapshot fresh.snapshots ≡ 0
unfolding last_auto_snapshot newest_auto
fresh_last = refl

-- One such app takes the sweep of every other app down with it.
sweep_panics_example : sweep half_second (drifted ∷ fresh ∷ []) noon ≡ none
sweep_panics_example =
    sweep_panics half_second noon fresh 500000000 (drifted ∷ fresh ∷ [])
      (Memᴰ.tail (Memᴰ.head refl)) refl fresh_interval (omega arith) (omega arith) fresh_last
