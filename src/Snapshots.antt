-- ===== src/Snapshots.antt =====
-- control/snapshotsched.go and the sweep of control/snapshot.go: when automatic snapshots are taken.
-- A time is its nanoseconds since Go's zero time, which is 0 and means "never"; the clock shows a
-- time after 1970. A Go function that divides by zero panics: its result is then `none`.
pub mod Due
pub mod Sweep
pub mod Staggering
mod Tests
use hostit.Common.{
  ℕ, zero, suc, ◌+◌, ◌-◌, ◌*◌, ◌/◌, ◌%◌, ◌^◌, String, Bool, true, false, List, [], ◌∷◌, ◌++◌,
  Option, none, some, ltb, leb, ◌==◌, if◌then◌else◌, codes, ◌||◌, ◌&&◌,
}
use hostit.Common.Int.{ℤ, pos, negsuc}
use hostit.App.{Config, Checked, ok, err, snapshot_interval, default_snapshot_interval}
use hostit.Retention.{Snapshot, Policy, default_policy, archived_policy, apply}
use Prim.Native.Nat.{bit_xor, min}

abbrev pub second : ℕ
second = 1000000000

-- 15 minutes
abbrev pub snapshot_tick : ℕ
snapshot_tick = 900000000000

abbrev pub max_duration : ℕ
max_duration = 2 ^ 63 - 1

-- `now.Unix()`
abbrev pub unix : ℕ → ℕ
unix t = t / second - 62135596800

-- FNV-1a with 32 bits, over the bytes of an app's name, which is ASCII.
fnv1a : ℕ → List ℕ → ℕ
fnv1a h [] = h
fnv1a h (b ∷ bs) = fnv1a (bit_xor h b * 16777619 % 2 ^ 32) bs

pub slot_count : ℕ → ℕ
slot_count interval = let n = interval / snapshot_tick in if ltb n 1 then 1 else n

pub snapshot_slot : String → ℕ → ℕ
unfolding fnv1a slot_count
snapshot_slot name interval = fnv1a 2166136261 (codes name) % slot_count interval

-- `now.Unix() % int64(interval/time.Second)` divides by zero below one second.
pub current_slot : ℕ → ℕ → Option ℕ
current_slot interval now =
    if interval / second == 0
    then none
    else some (unix now % (interval / second) / (snapshot_tick / second))

slot_test : ℕ → Option ℕ → Option Bool
slot_test slot none = none
slot_test slot (some current) = some (slot == current)

pub in_slot : String → ℕ → ℕ → Option Bool
unfolding slot_test
in_slot name interval now = slot_test (snapshot_slot name interval) (current_slot interval now)

-- `now.Sub(last)` saturates. A clock that runs backwards gives a negative age in Go and 0 here: both
-- are below any positive interval.
abbrev pub age : ℕ → ℕ → ℕ
age last now = min (now - last) max_duration

-- `overdueFactor * interval` wraps: twice an interval above 2^62 nanoseconds is negative.
abbrev pub is_overdue : ℕ → ℕ → Bool
is_overdue interval a = leb (2 ^ 63) (2 * interval) || leb (2 * interval) a

unfoldable pub snapshot_due : String → ℤ → ℕ → ℕ → Option Bool
snapshot_due name (negsuc n) last now = some false
snapshot_due name (pos zero) last now = some false
snapshot_due name (pos (suc n)) last now =
    if last == 0
    then in_slot name (suc n) now
    else if ltb (age last now) (suc n)
    then some false
    else if is_overdue (suc n) (age last now)
    then some true
    else in_slot name (suc n) now

-- `lastAutoSnapshot`, on the store's answer: the newest automatic one.
newest_auto : ℕ → List Snapshot → ℕ
newest_auto newest [] = newest
newest_auto newest (s ∷ snaps) =
    newest_auto (if s.auto && ltb newest s.created_at then s.created_at else newest) snaps

unfoldable pub last_auto_snapshot : Option (List Snapshot) → ℕ
unfolding newest_auto
last_auto_snapshot none = 0
last_auto_snapshot (some snaps) = newest_auto 0 snaps

-- An app as the sweep meets it: its row, what its node and the store answer about it, whether the
-- node takes a snapshot when it is asked to, and the store's records when they are pruned, which
-- then hold the new one. A config that is absent or does not parse is `none`.
pub record SweptApp : Type 0 where
  pub name : String
  pub archived : Bool
  pub config : Option Config
  pub snapshots : Option (List Snapshot)
  pub takes_snapshot : Bool
  pub records_to_prune : Option (List Snapshot)

-- What the sweep asks of the nodes, in order.
pub data Command : Type 0 where
  take_snapshot : String → Command
  delete_snapshot : String → String → Command

pub retention_policy : Bool → Policy
retention_policy archived = if archived then archived_policy else default_policy

delete_each : String → List Snapshot → List Command
delete_each name [] = []
delete_each name (s ∷ prune) = delete_snapshot name s.id ∷ delete_each name prune

-- `PruneSnapshots`, on the store's answer: nothing if it fails.
prune_of : String → Bool → Option (List Snapshot) → List Command
prune_of name archived none = []
prune_of name archived (some snaps) = delete_each name (apply snaps (retention_policy archived)).1

pub prune_snapshots : SweptApp → List Command
unfolding retention_policy delete_each prune_of
prune_snapshots a = prune_of a.name a.archived a.records_to_prune

act : SweptApp → Bool → List Command
act a false = []
act a true = take_snapshot a.name ∷ (if a.takes_snapshot then prune_snapshots a else [])

-- One round of the loop, by whether the app is archived and whether it is due.
round : SweptApp → Bool → Option Bool → Option (List Command)
round a true due = some (prune_snapshots a)
round a false none = none
round a false (some due) = some (act a due)

join : Option (List Command) → Option (List Command) → Option (List Command)
join none rest = none
join (some cmds) none = none
join (some cmds) (some rest) = some (cmds ++ rest)

module _ (parse_duration : String → Option ℤ) where
  or_default : Checked ℤ → ℤ
  or_default (ok d) = d
  or_default (err e) = pos default_snapshot_interval

  -- `snapshotInterval`
  pub app_interval : Option Config → ℤ
  unfolding or_default
  app_interval none = pos default_snapshot_interval
  app_interval (some conf) = or_default (snapshot_interval parse_duration conf)

  unfoldable pub sweep_app : SweptApp → ℕ → Option (List Command)
  unfolding act round
  sweep_app a now =
      round a a.archived
        (snapshot_due a.name (app_interval a.config) (last_auto_snapshot a.snapshots) now)

  -- The whole sweep. A panic takes the process down, whatever came before.
  unfoldable pub sweep : List SweptApp → ℕ → Option (List Command)
  unfolding join
  sweep [] now = some []
  sweep (a ∷ apps) now = join (sweep_app a now) (sweep apps now)
