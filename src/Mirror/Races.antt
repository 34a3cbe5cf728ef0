-- ===== src/Mirror/Races.antt =====
-- Two syncs at once on a node. `Sync` gives its lock back between its two steps.
use hostit.Common.{ℕ, ◌<◌, Bool, true, List, [], ◌∷◌, ◌≡◌, arith, if◌then◌else◌}
use hostit.Mirror.{SyncState, Mirror, is_stale, keep_seq, replace, sync}

-- The steps of a call of `Sync` with a payload: it takes the number, or it replaces the rows.
pub data Step (Snapshot : Type 0) : Type 0 where
  take_seq replace_rows : SyncState Snapshot → Step Snapshot

module _ {Snapshot : Type 0} where
  -- A first step that the payload passes; a call whose payload is stale has no second step.
  unfoldable pub act : Step Snapshot → Mirror Snapshot → Mirror Snapshot
  act (take_seq state) m = if is_stale m state then m else keep_seq state m
  act (replace_rows state) m = replace true state m

  unfoldable pub act_all : List (Step Snapshot) → Mirror Snapshot → Mirror Snapshot
  unfolding act
  act_all [] m = m
  act_all (step ∷ steps) m = act_all steps (act step m)

  abbrev pub holding : ℕ → SyncState Snapshot → Mirror Snapshot
  holding n state = record {
    sync_seq = n;
    apps = state.apps;
    snapshots = state.snapshots;
    synced = true;
  }

  -- Two payloads that a node has not seen, the second newer. One call after the other, the mirror
  -- ends with the newer rows. If the older call takes its number first and replaces the rows last,
  -- the mirror ends with the older rows under the newer number, and the newer payload, sent again,
  -- is ignored.
  pub act_all_overlap :
      (older newer : SyncState Snapshot) (m : Mirror Snapshot) (accepts : Bool)
      → m.sync_seq < older.seq
      → older.seq < newer.seq
      → (act_all (take_seq older ∷ replace_rows older ∷ take_seq newer ∷ replace_rows newer ∷ []) m
          ≡ holding newer.seq newer)
        × (act_all
              (take_seq older ∷ take_seq newer ∷ replace_rows newer ∷ replace_rows older ∷ [])
              m
            ≡ holding newer.seq older)
        × (sync accepts newer (holding newer.seq older) ≡ holding newer.seq older)
  unfolding act_all is_stale keep_seq replace sync
  act_all_overlap older newer m accepts h k = (ground arith, ground arith, ground arith)
