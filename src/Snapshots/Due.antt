-- ===== src/Snapshots/Due.antt =====
-- When `snapshotDue` says yes, and when it panics.
use hostit.Common.{
  ℕ, zero, suc, ◌-◌, ◌*◌, ◌^◌, ◌≤◌, ◌<◌, ◌≡◌, ◌↔◌, ◌⊎◌, String, true, none, some, arith,
}
use hostit.Common.Int.{pos}
use hostit.Snapshots.{second, current_slot, in_slot, snapshot_due}

-- An app is snapshotted only if its interval is positive and has passed since the last automatic
-- snapshot, or if there was none.
pub snapshot_due_after :
    (name : String) (i last now : ℕ)
    → snapshot_due name (pos i) last now ≡ some true
    → (0 < i) × ((last ≡ 0) ⊎ (i ≤ now - last))
unfolding snapshot_due
snapshot_due_after name zero last now h = cc
snapshot_due_after name (suc n) last now h = (omega arith, ground arith)

-- An app that has drifted two intervals past its last snapshot is due on every tick, whatever its
-- slot, for intervals below 2^62 nanoseconds.
pub snapshot_due_overdue :
    (name : String) (i last now : ℕ)
    → 0 < i
    → i < 2 ^ 62
    → 0 < last
    → 2 * i ≤ now - last
    → snapshot_due name (pos i) last now ≡ some true
unfolding snapshot_due
snapshot_due_overdue name zero last now p b l h = absurd (omega arith)
snapshot_due_overdue name (suc n) last now p b l h = ground arith

in_slot_panics_iff : (name : String) (i now : ℕ) → (in_slot name i now ≡ none) ↔ (i < second)
unfolding in_slot current_slot
in_slot_panics_iff name i now = ground arith

-- The decision panics exactly for a positive interval below one second, when the app has no
-- automatic snapshot yet or the last one is between one and two intervals old.
pub snapshot_due_panics_iff :
    (name : String) (i last now : ℕ)
    → (snapshot_due name (pos i) last now ≡ none)
      ↔ ((0 < i) × (i < second) × ((last ≡ 0) ⊎ ((i ≤ now - last) × (now - last < 2 * i))))
unfolding snapshot_due
snapshot_due_panics_iff name zero last now = ground arith
snapshot_due_panics_iff name (suc n) last now = (
  λ h. (
    omega arith,
    ground (arith, in_slot_panics_iff name (suc n) now),
    ground (arith, in_slot_panics_iff name (suc n) now),
  ),
  λ h. ground (arith, in_slot_panics_iff name (suc n) now),
)
