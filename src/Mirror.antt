-- ===== src/Mirror.antt =====
-- Control's registry and the mirror of it that a node keeps (control/sync.go,
-- node/machine_sync.go): what control builds for a node, the number it stamps on it, and what the
-- node keeps of the payloads that arrive. The row of a snapshot is not read, so its type is an
-- argument. A read of the database that fails is `none`.
pub mod Slices
pub mod Delivery
pub mod Races
mod Tests
use hostit.Common.{
  ℕ, zero, suc, ◌+◌, String, Bool, true, false, List, [], ◌∷◌, ◌++◌, Option, none, some, ◌&&◌, not,
  ◌==◌, leb, if◌then◌else◌, str_eq,
}
use hostit.Common.Int.{ℤ}
use hostit.Store.{App}
use hostit.Registry.{host_or_local}

module _ (Snapshot : Type 0) where
  -- What a read of control's database answers.
  pub record Registry : Type 0 where
    pub apps : Option (List App)
    pub snapshots : String → Option (List Snapshot)

  pub record SyncState : Type 0 where
    pub seq : ℕ
    pub apps : List App
    pub snapshots : List Snapshot

  -- Control: its database, and the last number it stamped.
  pub record Control : Type 0 where
    pub registry : Registry
    pub mirror_seq : ℕ

  -- A node's mirror: the rows, the number of the last payload it took, and whether one has arrived.
  pub record Mirror : Type 0 where
    pub sync_seq : ℕ
    pub apps : List App
    pub snapshots : List Snapshot
    pub synced : Bool

-- The row as a node gets it, without its owner.
abbrev pub mirrored : App → App
mirrored a = record a { owner_id = "" }

-- Whether an app is built for a node; "" is every node.
unfoldable pub is_hosted : String → App → Bool
is_hosted host a = not (not (str_eq host "") && not (str_eq (host_or_local a.host) host))

module _ {Snapshot : Type 0} where
  unfoldable pub add_rows :
      App
      → Option (List Snapshot)
      → Option (List App × List Snapshot)
      → Option (List App × List Snapshot)
  add_rows a none rest = none
  add_rows a (some snaps) none = none
  add_rows a (some snaps) (some (apps, rows)) = some (mirrored a ∷ apps, snaps ++ rows)

  -- The loop over the apps.
  unfoldable pub rows_of :
      (String → Option (List Snapshot)) → String → List App → Option (List App × List Snapshot)
  unfolding add_rows
  rows_of snapshots host [] = some ([], [])
  rows_of snapshots host (a ∷ apps) =
      let rest = rows_of snapshots host apps in
      if is_hosted host a then add_rows a (snapshots a.name) rest else rest

  unfoldable pub stamped : ℕ → Option (List App × List Snapshot) → Option (SyncState Snapshot)
  stamped n none = none
  stamped n (some (apps, rows)) = some (record { seq = n; apps = apps; snapshots = rows })

  unfoldable pub sync_read :
      Control Snapshot → String → Option (List App) → Control Snapshot × Option (SyncState Snapshot)
  unfolding stamped
  sync_read c host none = (c, none)
  sync_read c host (some apps) =
      let n = c.mirror_seq + 1 in
      (record c { mirror_seq = n }, stamped n (rows_of c.registry.snapshots host apps))

  -- `syncState`: one step under its lock, the number stamped with the read.
  unfoldable pub sync_state :
      Control Snapshot → String → Control Snapshot × Option (SyncState Snapshot)
  unfolding sync_read
  sync_state c host = sync_read c host c.registry.apps

  -- The node's first step, under its lock: whether the payload is taken, and its number kept.
  unfoldable pub is_stale : Mirror Snapshot → SyncState Snapshot → Bool
  is_stale m state = not (state.seq == 0) && leb state.seq m.sync_seq

  unfoldable pub keep_seq : SyncState Snapshot → Mirror Snapshot → Mirror Snapshot
  keep_seq state m = record m { sync_seq = state.seq }

  -- The second step, after the lock is given back: `ReplaceNodeMirror`, which the node's database
  -- may refuse.
  unfoldable pub replace : Bool → SyncState Snapshot → Mirror Snapshot → Mirror Snapshot
  replace accepts state m =
      if accepts
      then record m { apps = state.apps; snapshots = state.snapshots; synced = true }
      else m

  -- `Sync`, with nothing between its two steps.
  unfoldable pub sync : Bool → SyncState Snapshot → Mirror Snapshot → Mirror Snapshot
  unfolding is_stale keep_seq replace
  sync accepts state m = if is_stale m state then m else replace accepts state (keep_seq state m)

  -- `ResetSyncSeq`
  unfoldable pub reset_sync_seq : Mirror Snapshot → Mirror Snapshot
  reset_sync_seq m = record m { sync_seq = 0 }

-- What control asserts of one app. `SSHKeys`, limits and URL come from the policy and the configuration.
pub record AppDesired : Type 0 where
  pub host : String
  pub id : String
  pub name : String
  pub port : ℕ
  pub ssh_keys : List String
  pub url : String
  pub memory_mb : ℤ
  pub disk_mb : ℤ
  pub cpu_milli : ℤ
  pub powered_off : Bool

-- What `DesiredState` asks of others: the policy's keys and limits of an app, the relay's key
-- appended to a host's keys, an app's URL and its recorded CPU limit.
pub record Policy : Type 0 where
  pub keys : App → List String
  pub limits : App → ℤ × ℤ
  pub append_relay_key : String → List String → List String
  pub url : App → String
  pub cpu_limit : String → ℤ

unfoldable pub app_desired : Policy → App → AppDesired
app_desired p a = record {
  host = host_or_local a.host;
  id = a.id;
  name = a.name;
  port = a.port;
  ssh_keys = p.append_relay_key (host_or_local a.host) (p.keys a);
  url = p.url a;
  memory_mb = (p.limits a).0;
  disk_mb = (p.limits a).1;
  cpu_milli = p.cpu_limit a.name;
  powered_off = a.powered_off;
}

-- `DesiredState`, once the apps are read.
unfoldable pub desired_state : Policy → String → List App → List AppDesired
unfolding is_hosted app_desired
desired_state p node_id [] = []
desired_state p node_id (a ∷ apps) =
    let rest = desired_state p node_id apps in
    if is_hosted node_id a then app_desired p a ∷ rest else rest

-- `sliceDesired` of control/registry.go, on whole entries.
unfoldable pub slice_for : List AppDesired → String → List AppDesired
slice_for [] id = []
slice_for (d ∷ apps) id =
    let rest = slice_for apps id in if str_eq (host_or_local d.host) id then d ∷ rest else rest
