-- ===== src/Mirror/Delivery.antt =====
-- A mirror converges to the registry as it was when the last payload was built, in whatever order the
-- payloads arrive.
use hostit.Common.{
  ℕ, ◌+◌, ◌≤◌, ◌<◌, String, Bool, true, false, List, [], ◌∷◌, ◌++◌, Option, none, some, ◌≡◌, refl,
  ap, sym, ◌∙◌, inl, inr, arith, Bool-cases, some_inj, map, All, All-at, str_eq, if◌then◌else◌,
}
use mathlib.Core.List.{Memᴰ}
use hostit.Store.{App}
use hostit.Mirror.{
  Registry, SyncState, Control, Mirror, mirrored, sync_state, sync_read, stamped, rows_of, is_stale,
  keep_seq, replace, sync,
}
use hostit.Mirror.Slices.{hosted, rows_of_apps}

-- What happens at control: its registry changes, or it builds the payload of a node.
pub data Event (Snapshot : Type 0) : Type 0 where
  change : Registry Snapshot → Event Snapshot
  push : String → Event Snapshot

module _ {Snapshot : Type 0} where
  unfoldable pub add_for :
      String
      → String
      → Option (SyncState Snapshot)
      → List (SyncState Snapshot)
      → List (SyncState Snapshot)
  add_for id host none sent = sent
  add_for id host (some state) sent = if str_eq host id then state ∷ sent else sent

  -- Control after a run, and what it has built for the node `id`.
  unfoldable pub run :
      String
      → List (Event Snapshot)
      → Control Snapshot
      → Control Snapshot × List (SyncState Snapshot)
  unfolding add_for
  run id [] c = (c, [])
  run id (change registry ∷ events) c = run id events (record c { registry = registry })
  run id (push host ∷ events) c =
      let rest = run id events (sync_state c host).0 in
      (rest.0, add_for id host (sync_state c host).1 rest.1)

  -- A node takes payloads one after another, each with whether its database accepts the rows.
  unfoldable pub deliver : List (Bool × SyncState Snapshot) → Mirror Snapshot → Mirror Snapshot
  deliver [] m = m
  deliver ((accepts, state) ∷ arrived) m = deliver arrived (sync accepts state m)

  -- Payloads with numbers up to a bound.
  abbrev IsNumbered : ℕ → SyncState Snapshot → Type 0
  IsNumbered n state = (1 ≤ state.seq) × (state.seq ≤ n)

  abbrev AreNumbered : ℕ → List (Bool × SyncState Snapshot) → Type 0
  AreNumbered n arrived = All (λ arrival. IsNumbered n arrival.1) arrived

  sync_seq_bound :
      (n : ℕ) (accepts : Bool) (state : SyncState Snapshot) (m : Mirror Snapshot)
      → state.seq ≤ n
      → m.sync_seq ≤ n
      → (sync accepts state m).sync_seq ≤ n
  unfolding sync replace keep_seq
  sync_seq_bound n true state m h k = elim (Bool-cases (is_stale m state)) [
    | inl stale ↦ rw stale k
    | inr fresh ↦ rw fresh h
  ]
  sync_seq_bound n false state m h k = elim (Bool-cases (is_stale m state)) [
    | inl stale ↦ rw stale k
    | inr fresh ↦ rw fresh h
  ]

  deliver_bound :
      (n : ℕ) (arrived : List (Bool × SyncState Snapshot)) (m : Mirror Snapshot)
      → AreNumbered n arrived
      → m.sync_seq ≤ n
      → (deliver arrived m).sync_seq ≤ n
  unfolding deliver
  deliver_bound n [] m h k = k
  deliver_bound n ((accepts, state) ∷ arrived) m (g, h) k =
      deliver_bound n arrived (sync accepts state m) h (sync_seq_bound n accepts state m g.1 k)

  -- Nothing that is not newer changes a mirror.
  deliver_stale :
      (n : ℕ) (arrived : List (Bool × SyncState Snapshot)) (m : Mirror Snapshot)
      → AreNumbered n arrived
      → n ≤ m.sync_seq
      → deliver arrived m ≡ m
  unfolding deliver sync is_stale
  deliver_stale n [] m h k = refl
  deliver_stale n ((accepts, state) ∷ arrived) m (g, h) k =
      ground (arith, deliver_stale n arrived m h k)

  deliver_append :
      (xs ys : List (Bool × SyncState Snapshot)) (m : Mirror Snapshot)
      → deliver (xs ++ ys) m ≡ deliver ys (deliver xs m)
  unfolding deliver
  deliver_append [] ys m = refl
  deliver_append ((accepts, x) ∷ xs) ys m = deliver_append xs ys (sync accepts x m)

  -- What a node keeps of a payload that is newer than all before: its rows, if its database accepts
  -- them; its number either way.
  abbrev pub kept_of : Bool → SyncState Snapshot → Mirror Snapshot → Mirror Snapshot
  kept_of accepts last m =
      if accepts
      then record {
        sync_seq = last.seq;
        apps = last.apps;
        snapshots = last.snapshots;
        synced = true;
      }
      else record m { sync_seq = last.seq }

  sync_newer :
      (accepts : Bool) (last : SyncState Snapshot) (m : Mirror Snapshot)
      → m.sync_seq < last.seq
      → sync accepts last m ≡ kept_of accepts last m
  unfolding sync is_stale replace keep_seq
  sync_newer true last m h = ground arith
  sync_newer false last m h = ground arith

  kept_of-seq :
      (accepts : Bool) (last : SyncState Snapshot) (m : Mirror Snapshot)
      → (kept_of accepts last m).sync_seq ≡ last.seq
  kept_of-seq true last m = refl
  kept_of-seq false last m = refl

  stamped-seq :
      (n : ℕ) (o : Option (List App × List Snapshot)) (state : SyncState Snapshot)
      → stamped n o ≡ some state
      → (state.seq ≡ n) × (o ≡ some (state.apps, state.snapshots))
  unfolding stamped
  stamped-seq n none state e = cc
  stamped-seq n (some (apps, rows)) state e =
      (sym (ap (λ s. s.seq) (some_inj e)), ap (λ s. some (s.apps, s.snapshots)) (some_inj e))

  -- A payload that is built has the next number and the rows of its host.
  sync_read-some :
      (c : Control Snapshot) (host : String) (o : Option (List App)) (state : SyncState Snapshot)
      → (sync_read c host o).1 ≡ some state
      → (apps : List App) × (o ≡ some apps)
        × (state.seq ≡ c.mirror_seq + 1)
        × (state.apps ≡ map mirrored (hosted host apps))
  unfolding sync_read
  sync_read-some c host none state e = cc
  sync_read-some c host (some apps) state e =
      let (numbered, read) =
        stamped-seq (c.mirror_seq + 1) (rows_of c.registry.snapshots host apps) state e in
      (
        apps,
        refl,
        numbered,
        rows_of_apps c.registry.snapshots host apps state.apps state.snapshots read,
      )

  sync_read-seq :
      (c : Control Snapshot) (host : String) (o : Option (List App))
      → (c.mirror_seq ≤ (sync_read c host o).0.mirror_seq)
        × ((state : SyncState Snapshot)
            → (sync_read c host o).1 ≡ some state
            → IsNumbered (sync_read c host o).0.mirror_seq state)
  unfolding sync_read
  sync_read-seq c host none = (omega arith, λ state e. cc)
  sync_read-seq c host (some apps) = (
    omega arith,
    λ state e.
        let numbered =
          (stamped-seq (c.mirror_seq + 1) (rows_of c.registry.snapshots host apps) state e).0 in
        (omega arith, omega arith),
  )

  add_for-All :
      (P : SyncState Snapshot → Type 0) (id host : String) (o : Option (SyncState Snapshot))
      (sent : List (SyncState Snapshot))
      → ((state : SyncState Snapshot) → o ≡ some state → P state)
      → All P sent
      → All P (add_for id host o sent)
  unfolding add_for
  add_for-All P id host none sent h k = k
  add_for-All P id host (some state) sent h k = elim (Bool-cases (str_eq host id)) [
    | inl own ↦ rw own (h state refl, k)
    | inr other ↦ rw other k
  ]

  run-IsNumbered :
      (id : String) (events : List (Event Snapshot)) (c : Control Snapshot)
      → (c.mirror_seq ≤ (run id events c).0.mirror_seq)
        × All (IsNumbered (run id events c).0.mirror_seq) (run id events c).1
  unfolding run sync_state
  run-IsNumbered id [] c = (omega arith, tt)
  run-IsNumbered id (change registry ∷ events) c =
      run-IsNumbered id events (record c { registry = registry })
  run-IsNumbered id (push host ∷ events) c =
      let (grows, numbered) = sync_read-seq c host c.registry.apps in
      let (later, rest) = run-IsNumbered id events (sync_state c host).0 in
      (
        omega arith,
        add_for-All (IsNumbered (run id events (sync_state c host).0).0.mirror_seq) id host
            (sync_state c host).1 (run id events (sync_state c host).0).1
            (λ state e. let bounds = numbered state e in (bounds.0, omega arith)) rest,
      )

  All-of :
      (n : ℕ) (sent : List (SyncState Snapshot)) (arrived : List (Bool × SyncState Snapshot))
      → All (IsNumbered n) sent
      → All (λ arrival. Memᴰ arrival.1 sent) arrived
      → AreNumbered n arrived
  All-of n sent [] h k = tt
  All-of n sent ((accepts, state) ∷ arrived) h (m, k) =
      (All-at (IsNumbered n) state sent h m, All-of n sent arrived h k)

  deliver_converges :
      (n : ℕ) (before after : List (Bool × SyncState Snapshot)) (accepts : Bool)
      (last : SyncState Snapshot) (m : Mirror Snapshot)
      → last.seq ≡ n + 1
      → AreNumbered n before
      → AreNumbered n after
      → m.sync_seq ≤ n
      → deliver (before ++ (accepts, last) ∷ after) m ≡ kept_of accepts last (deliver before m)
  unfolding deliver
  deliver_converges n before after accepts last m numbered earlier later known =
      let bound = deliver_bound n before m earlier known in
      let mine = kept_of-seq accepts last (deliver before m) in
      deliver_append before ((accepts, last) ∷ after) m
      ∙ ap (deliver after) (sync_newer accepts last (deliver before m) (omega arith))
      ∙ deliver_stale n after (kept_of accepts last (deliver before m)) later (omega arith)

  -- Whatever happened at control, and in whatever order and however often the payloads that it built
  -- for a node arrive there, whichever of them the node's database refuses: once the last one has
  -- arrived and its rows were accepted, the node's mirror is that payload, with the highest number,
  -- and its apps are the node's apps of the registry, without their owners. If its rows were refused,
  -- the mirror has its number with the rows of before, whatever arrives again of the others. The
  -- node's last number was not ahead of control's, and no two arrivals overlap.
  pub deliver-run :
      (id : String) (events : List (Event Snapshot)) (c : Control Snapshot)
      (before after : List (Bool × SyncState Snapshot)) (accepts : Bool) (last : SyncState Snapshot)
      (m : Mirror Snapshot)
      → (sync_state (run id events c).0 id).1 ≡ some last
      → All (λ arrival. Memᴰ arrival.1 (run id events c).1) before
      → All (λ arrival. Memᴰ arrival.1 (run id events c).1) after
      → m.sync_seq ≤ c.mirror_seq
      → (apps : List App) × ((run id events c).0.registry.apps ≡ some apps)
        × (last.seq ≡ (run id events c).0.mirror_seq + 1)
        × (last.apps ≡ map mirrored (hosted id apps))
        × (deliver (before ++ (accepts, last) ∷ after) m ≡ kept_of accepts last (deliver before m))
  unfolding sync_state
  deliver-run id events c before after accepts last m built earlier later known =
      let end = (run id events c).0 in
      let sent = (run id events c).1 in
      let (grows, numbered) = run-IsNumbered id events c in
      let (apps, read, seq, rows) = sync_read-some end id end.registry.apps last built in
      (
        apps,
        read,
        seq,
        rows,
        deliver_converges end.mirror_seq before after accepts last m seq
            (All-of end.mirror_seq sent before numbered earlier)
            (All-of end.mirror_seq sent after numbered later) (omega arith),
      )
