-- ===== src/States.antt =====
-- control/state.go, node/machine_state.go, and what control/registry.go and cmd/control/servenode.go
-- do with states: what control believes of each app's container, and how nodes measure it. A Go map
-- is a list of pairs without a second entry for a name. systemd, podman and the files that agents
-- leave are parameters.
pub mod Reports
pub mod Measures
pub mod Tests
use hostit.Common.{
  ℕ, suc, ◌+◌, ◌-◌, String, Bool, true, false, List, [], ◌∷◌, ◌++◌, Option, none, some, ◌&&◌, ◌||◌,
  not, if◌then◌else◌, ltb, str_eq, contains, lookup, map,
}
use hostit.Common.Text.{trim_space}
use hostit.Store.{App}

pub record State : Type 0 where
  pub running : Bool
  pub app_running : Bool
  pub app_state : String
  pub memory_mb : ℕ
  pub cpu_percent : ℕ
  pub started_at : ℕ
  pub app_started_at : ℕ

abbrev pub States : Type 0
States = List (String × State)

-- `State{}`
unfoldable pub no_state : State
no_state = record {
  running = false;
  app_running = false;
  app_state = "";
  memory_mb = 0;
  cpu_percent = 0;
  started_at = 0;
  app_started_at = 0;
}

-- `delete(m, name)`
unfoldable pub drop_state : String → States → States
drop_state name [] = []
drop_state name ((n, s) ∷ states) =
    let rest = drop_state name states in if str_eq n name then rest else (n, s) ∷ rest

-- `m[name] = state`
unfoldable pub put_state : String → State → States → States
unfolding drop_state
put_state name s states = (name, s) ∷ drop_state name states

-- `m[name]`, the zero state if it is missing
unfoldable pub state_or_zero : Option State → State
unfolding no_state
state_or_zero none = no_state
state_or_zero (some s) = s

-- `for name, state := range more { m[name] = state }`
unfoldable pub merge_states : States → States → States
unfolding put_state
merge_states [] states = states
merge_states ((n, s) ∷ more) states = merge_states more (put_state n s states)

-- `ctlStates`, `ctlStatesFresh` and `ctlRefreshing`; a time is its nanoseconds.
pub record ControlStates : Type 0 where
  pub states : States
  pub fresh : ℕ
  pub refreshing : Bool

unfoldable pub state_ttl : ℕ
state_ttl = 10000000000

abbrev pub is_known : Option State → Bool
is_known none = false
is_known (some s) = true

unfoldable pub all_known : States → List String → Bool
all_known states [] = true
all_known states (name ∷ names) = is_known (lookup name states) && all_known states names

unfoldable pub states_of : States → List String → States
unfolding state_or_zero put_state
states_of states [] = []
states_of states (name ∷ names) =
    put_state name (state_or_zero (lookup name states)) (states_of states names)

-- `CachedStates`: the answer, and whether it starts a refresh
unfoldable pub cached_states : ControlStates → ℕ → List String → States × Bool
unfolding states_of all_known state_ttl
cached_states c now names =
    (states_of c.states names, ltb state_ttl (now - c.fresh) || not (all_known c.states names))

-- `InvalidateState`
unfoldable pub invalidate_state : String → ControlStates → ControlStates
unfolding drop_state
invalidate_state name c = record c { states = drop_state name c.states }

unfoldable pub intended : App → State
unfolding no_state
intended a =
    if not a.powered_off
    then record no_state { running = true; app_running = true; app_state = "running" }
    else no_state

-- `SeedStates`, over the rows of the store: what is known already stays
unfoldable pub seed_each : List App → States → States
unfolding intended put_state
seed_each [] states = states
seed_each (a ∷ apps) states =
    seed_each apps
      (if is_known (lookup a.name states) then states else put_state a.name (intended a) states)

unfoldable pub seed_states : List App → ControlStates → ControlStates
unfolding seed_each
seed_states apps c = record c { states = seed_each apps c.states }

-- `refreshOnce` up to the measurement: whether this call is the one that measures
unfoldable pub begin_refresh : ControlStates → Bool × ControlStates
begin_refresh c = if c.refreshing then (false, c) else (true, record c { refreshing = true })

-- `RefreshStates` with what it has measured
unfoldable pub refresh_states : States → ℕ → ControlStates → ControlStates
refresh_states measured now c = record c { states = measured; fresh = now }

-- `refreshOnce` after the measurement
unfoldable pub end_refresh : States → ℕ → ControlStates → ControlStates
unfolding refresh_states
end_refresh measured now c = record (refresh_states measured now c) { refreshing = false }

-- `IngestStates`
unfoldable pub ingest_states : States → ℕ → ControlStates → ControlStates
unfolding merge_states
ingest_states states now c = record c { states = merge_states states c.states; fresh = now }

unfoldable pub put_known : String → Option State → States → States
unfolding put_state
put_known name none keep = keep
put_known name (some s) keep = put_state name s keep

-- `scopeStates`
unfoldable pub scope_states : States → List String → States
unfolding put_known
scope_states states [] = []
scope_states states (name ∷ allowed) =
    put_known name (lookup name states) (scope_states states allowed)

-- What a node finds out about its containers: the lines of `systemctl is-active`, one to a unit in
-- their order, the breadcrumb of an app with its time, the start of its container, and the use of
-- memory and processor of those that podman lists.
pub record Probe : Type 0 where
  pub is_active : List String → List String
  pub breadcrumb : String → String × ℕ
  pub started : String → ℕ
  pub usage : List (String × (ℕ × ℕ))

-- `runningStates`: a name beyond the last line is not running
unfoldable pub running_states : List String → List String → List (String × Bool)
unfolding trim_space
running_states [] lines = []
running_states (name ∷ names) [] = (name, false) ∷ running_states names []
running_states (name ∷ names) (line ∷ lines) =
    (name, str_eq (trim_space line) "active") ∷ running_states names lines

unfoldable pub app_state_for : Bool → String → String
app_state_for running breadcrumb = if not running then "" else breadcrumb

unfoldable pub measured_state : Probe → String → Bool → State
unfolding app_state_for
measured_state p name running =
    let (app_state, app_started_at) = p.breadcrumb name in
    record {
      running = running;
      app_running = running && str_eq app_state "running";
      app_state = app_state_for running app_state;
      memory_mb = 0;
      cpu_percent = 0;
      started_at = p.started name;
      app_started_at = app_started_at;
    }

unfoldable pub measure_each : Probe → List (String × Bool) → States → States
unfolding measured_state put_state
measure_each p [] states = states
measure_each p ((name, running) ∷ rest) states =
    measure_each p rest (put_state name (measured_state p name running) states)

unfoldable pub add_usage : List (String × (ℕ × ℕ)) → States → States
unfolding put_state state_or_zero
add_usage [] states = states
add_usage ((name, (memory_mb, cpu_percent)) ∷ usage) states = add_usage usage (
    put_state name
      (record (state_or_zero (lookup name states)) {
        memory_mb = memory_mb;
        cpu_percent = cpu_percent;
      })
      states)

abbrev pub is_empty : List String → Bool
is_empty [] = true
is_empty (n ∷ ns) = false

-- `States` of a node
unfoldable pub machine_states : Probe → List String → States
unfolding add_usage measure_each running_states
machine_states p names =
    if is_empty names
    then []
    else add_usage p.usage (measure_each p (running_states names (p.is_active names)) [])

-- `States` of the routing agent: the connected nodes in the order of their ids, each asked for all
unfoldable pub route_states : List Probe → List String → States → States
unfolding machine_states merge_states
route_states [] names merged = merged
route_states (p ∷ nodes) names merged =
    route_states nodes names (merge_states (machine_states p names) merged)
