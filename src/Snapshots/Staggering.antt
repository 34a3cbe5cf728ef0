-- ===== src/Snapshots/Staggering.antt =====
-- With the default interval of three hours every app has one slot of twelve.
use hostit.Common.{
  ℕ, ◌+◌, ◌-◌, ◌*◌, ◌/◌, ◌%◌, ◌≤◌, ◌<◌, ◌≡◌, ◌↔◌, String, true, some, arith, ◌==◌, ap,
}
use hostit.App.{default_snapshot_interval}
use hostit.Snapshots.{second, snapshot_tick, unix, snapshot_slot, current_slot, in_slot}

snapshot_slot_default : (name : String) → snapshot_slot name default_snapshot_interval < 12
unfolding snapshot_slot
snapshot_slot_default name = omega arith

current_slot_default :
    (now : ℕ) → current_slot default_snapshot_interval now ≡ some (unix now / 900 % 12)
unfolding current_slot
current_slot_default now = ground arith

-- How many ticks after `now` the slot `slot` comes next.
abbrev pub wait : ℕ → ℕ → ℕ
wait slot now = (slot + 12 - unix now / 900 % 12) % 12

in_slot_default :
    (name : String) (now : ℕ)
    → in_slot name default_snapshot_interval now
      ≡ some (snapshot_slot name default_snapshot_interval == unix now / 900 % 12)
unfolding in_slot
in_slot_default name now = rw (current_slot_default now)

slot_hit_iff :
    (slot u j : ℕ)
    → slot < 12
    → j < 12
    → (((slot == (u + j * 900) / 900 % 12) ≡ true) ↔ (j ≡ (slot + 12 - u / 900 % 12) % 12))
slot_hit_iff slot u j h k = ground arith

-- With the default interval, exactly one of any twelve consecutive ticks is an app's slot: the tick
-- that comes `wait` ticks after the first.
pub in_slot_once :
    (name : String) (now j : ℕ)
    → 62135596800 * second ≤ now
    → j < 12
    → (in_slot name default_snapshot_interval (now + j * snapshot_tick) ≡ some true)
      ↔ (j ≡ wait (snapshot_slot name default_snapshot_interval) now)
in_slot_once name now j after_1970 k =
    let ticks : unix (now + j * snapshot_tick) ≡ unix now + j * 900 = omega arith in
    let hit =
      slot_hit_iff (snapshot_slot name default_snapshot_interval) (unix now) j
        (snapshot_slot_default name) k in
    rw (in_slot_default name (now + j * snapshot_tick))
      (rw ticks (λ e. hit.0 (cc), λ e. ap some (hit.1 e)))
