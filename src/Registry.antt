-- ===== src/Registry.antt =====
-- control/registry.go: which nodes are connected, which node a new app is placed on, and the fan-out
-- agent that sends each call to the node that hosts the app. A connected agent is a number, its
-- identity: a node that dials in again is another agent.
pub mod Connections
pub mod Placement
pub mod Routing
pub mod Delivery
mod Tests
use hostit.Common.{
  ℕ, zero, suc, String, Bool, true, false, List, [], ◌∷◌, Option, none, some, ◌==◌, ltb,
  if◌then◌else◌, str_eq, str_ltb, lookup,
}
use hostit.Store.{App, find_app, host_local}

-- The map of the registry: at most one entry for a node.
abbrev pub Agents : Type 0
Agents = List (String × ℕ)

unfoldable pub delete : String → Agents → Agents
delete id [] = []
delete id ((i, a) ∷ agents) =
    let rest = delete id agents in if str_eq i id then rest else (i, a) ∷ rest

unfoldable pub register : Agents → String → ℕ → Agents
register agents id agent = (id, agent) ∷ delete id agents

unfoldable pub agent_of : Agents → String → Option ℕ
agent_of [] id = none
agent_of ((i, a) ∷ agents) id =
    let rest = agent_of agents id in if str_eq i id then some a else rest

abbrev pub is_agent : Option ℕ → ℕ → Bool
is_agent none b = false
is_agent (some a) b = a == b

unfoldable pub unregister : Agents → String → ℕ → Agents
unregister agents id agent =
    if is_agent (agent_of agents id) agent then delete id agents else agents

unfoldable pub insert_name : String → List String → List String
insert_name s [] = s ∷ []
insert_name s (t ∷ names) =
    let rest = t ∷ insert_name s names in if str_ltb s t then s ∷ (t ∷ names) else rest

-- `IDs`, by the standard library's sort of strings
unfoldable pub ids_of : Agents → List String
ids_of [] = []
ids_of ((i, a) ∷ agents) = insert_name i (ids_of agents)

unfoldable pub host_or_local : String → String
unfolding host_local
host_or_local host = if str_eq host "" then host_local else host

-- `counts[id]`: the apps whose row names this host
unfoldable pub count_at : List App → String → ℕ
count_at [] id = 0
count_at (a ∷ apps) id = let rest = count_at apps id in if str_eq a.host id then suc rest else rest

unfoldable pub best_of : (String → ℕ) → String → List String → String
best_of count best [] = best
best_of count best (id ∷ ids) =
    let worse = best_of count best ids in
    let better = best_of count id ids in if ltb (count id) (count best) then better else worse

place_among : (String → ℕ) → List String → String
unfolding host_local best_of
place_among count [] = host_local
place_among count (id ∷ ids) = best_of count id ids

abbrev pub counts_of : Option (List App) → String → ℕ
counts_of none id = 0
counts_of (some apps) id = count_at apps id

-- `placeNode`: `apps` is the store's answer, without one every node counts as empty.
unfoldable pub place_node : Agents → Option (List App) → String
unfolding place_among
place_node agents apps = place_among (counts_of apps) (ids_of agents)

-- What a call comes to: the agent that gets it, or the error of the lookup.
pub data Routed : Type 0 where
  reached : ℕ → Routed
  app_not_found is_archived not_connected not_routed : Routed

to_agent : Option ℕ → Routed
to_agent none = not_connected
to_agent (some a) = reached a

unfoldable pub agent_for : Agents → String → Routed
unfolding to_agent
agent_for agents host = to_agent (agent_of agents (host_or_local host))

route_app : Agents → Option App → Routed
unfolding agent_for
route_app agents none = app_not_found
route_app agents (some a) = agent_for agents a.host

unfoldable pub route : Agents → List App → String → Routed
unfolding route_app
route agents apps name = route_app agents (find_app apps name)

route_runnable_app : Agents → Option App → Routed
unfolding agent_for
route_runnable_app agents none = app_not_found
route_runnable_app agents (some a) = if a.archived then is_archived else agent_for agents a.host

unfoldable pub route_runnable : Agents → List App → String → Routed
unfolding route_runnable_app
route_runnable agents apps name = route_runnable_app agents (find_app apps name)

-- The calls that name an app, in the order of the file.
pub data Verb : Type 0 where
  ensure up down power_on restart start_app stop_app restart_app status logs : Verb
  exec screenshot run_assistant_turn answer_assistant terminal : Verb
  list_files read_file read_file_max write_file write_file_from archive_workspace : Verb
  archive_snapshot delete_file move_file make_dir stat_file file_exists extract_tar set_keys : Verb
  snapshots : Verb
  rename set_memory_limit set_cpu_limit set_disk_limit : Verb
  take_snapshot delete_snapshot rollback : Verb

-- Which lookup each call goes through. A call that fails its lookup sends nothing to any node.
unfoldable pub call : Verb → Agents → List App → String → Routed
unfolding route route_runnable
call ensure agents apps name = route_runnable agents apps name
call up agents apps name = route_runnable agents apps name
call down agents apps name = route agents apps name
call power_on agents apps name = route_runnable agents apps name
call restart agents apps name = route_runnable agents apps name
call start_app agents apps name = route_runnable agents apps name
call stop_app agents apps name = route agents apps name
call restart_app agents apps name = route_runnable agents apps name
call status agents apps name = route agents apps name
call logs agents apps name = route agents apps name
call exec agents apps name = route_runnable agents apps name
call screenshot agents apps name = route_runnable agents apps name
call run_assistant_turn agents apps name = route_runnable agents apps name
call answer_assistant agents apps name = route_runnable agents apps name
call terminal agents apps name = route_runnable agents apps name
call list_files agents apps name = route agents apps name
call read_file agents apps name = route agents apps name
call read_file_max agents apps name = route agents apps name
call write_file agents apps name = route agents apps name
call write_file_from agents apps name = route agents apps name
call archive_workspace agents apps name = route agents apps name
call archive_snapshot agents apps name = route agents apps name
call delete_file agents apps name = route agents apps name
call move_file agents apps name = route agents apps name
call make_dir agents apps name = route agents apps name
call stat_file agents apps name = route agents apps name
call file_exists agents apps name = route agents apps name
call extract_tar agents apps name = route agents apps name
call set_keys agents apps name = route agents apps name
call snapshots agents apps name = not_routed
call rename agents apps name = route agents apps name
call set_memory_limit agents apps name = route agents apps name
call set_cpu_limit agents apps name = route agents apps name
call set_disk_limit agents apps name = route agents apps name
call take_snapshot agents apps name = route_runnable agents apps name
call delete_snapshot agents apps name = route agents apps name
call rollback agents apps name = route agents apps name

-- `Provision`, `Deprovision`: the specification carries the host.
unfoldable pub provision : Agents → String → Routed
unfolding agent_for
provision agents host = agent_for agents host

-- An app of the desired state: its name and its host.
unfoldable pub slice_desired : List (String × String) → String → List (String × String)
slice_desired [] id = []
slice_desired ((name, host) ∷ apps) id =
    let rest = slice_desired apps id in
    if str_eq (host_or_local host) id then (name, host) ∷ rest else rest

abbrev pub send_to :
    Option ℕ
    → List (String × String)
    → List (ℕ × List (String × String))
    → List (ℕ × List (String × String))
send_to none slice rest = rest
send_to (some a) slice rest = (a, slice) ∷ rest

-- `Reconcile`: what each agent is sent, in the order of the ids.
unfoldable pub reconcile_ids :
    Agents → List (String × String) → List String → List (ℕ × List (String × String))
unfolding slice_desired
reconcile_ids agents desired [] = []
reconcile_ids agents desired (id ∷ ids) =
    send_to (agent_of agents id) (slice_desired desired id) (reconcile_ids agents desired ids)

unfoldable pub reconcile : Agents → List (String × String) → List (ℕ × List (String × String))
unfolding reconcile_ids
reconcile agents desired = reconcile_ids agents desired (ids_of agents)
