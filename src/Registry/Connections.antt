-- ===== src/Registry/Connections.antt =====
-- The map of connected nodes: what a node's going away removes.
use hostit.Common.{
  ℕ, String, false, List, [], ◌∷◌, none, some, ◌==◌, ◌&&◌, ◌≡◌, arith, All, if◌then◌else◌, str_eq,
  str_eq_self,
}
use text.Mathlib.TextEquality.{eq_iff}
use hostit.Registry.{Agents, delete, register, agent_of, is_agent, unregister}

agent_of-delete :
    (l : Agents) (id j : String)
    → agent_of (delete id l) j ≡ (if str_eq id j then none else agent_of l j)
unfolding agent_of delete
agent_of-delete [] id j = ground arith
agent_of-delete ((i, a) ∷ l) id j =
    ground (arith, agent_of-delete l id j, eq_iff i id, eq_iff id j, eq_iff i j)

agent_of-register :
    (l : Agents) (id : String) (a : ℕ) (j : String)
    → agent_of (register l id a) j ≡ (if str_eq id j then some a else agent_of l j)
unfolding agent_of register
agent_of-register l id a j = ground (arith, agent_of-delete l id j)

-- Unregistering an agent disconnects its node if the node's agent is still this one, and changes
-- nothing for any node otherwise.
pub agent_of-unregister :
    (l : Agents) (id : String) (a : ℕ) (j : String)
    → agent_of (unregister l id a) j
      ≡ (if str_eq id j && is_agent (agent_of l id) a then none else agent_of l j)
unfolding unregister
agent_of-unregister l id a j = ground (arith, agent_of-delete l id j)

-- What happens to the registry: a node dials in, or the connection of an agent ends.
pub data Event : Type 0 where
  dialed hung_up : String → ℕ → Event

unfoldable pub run : Agents → List Event → Agents
run l [] = l
run l (dialed id a ∷ es) = run (register l id a) es
run l (hung_up id a ∷ es) = run (unregister l id a) es

-- An event that neither supersedes the agent `b` of the node `id` nor ends its connection.
abbrev pub Spares : String → ℕ → Event → Type 0
Spares id b (dialed j a) = str_eq j id ≡ false
Spares id b (hung_up j a) = (str_eq j id && (a == b)) ≡ false

spared-run :
    (l : Agents) (id : String) (b : ℕ) (es : List Event)
    → agent_of l id ≡ some b
    → All (Spares id b) es
    → agent_of (run l es) id ≡ some b
unfolding run
spared-run l id b [] h k = h
spared-run l id b (dialed j a ∷ es) h (k, ks) =
    spared-run (register l j a) id b es (ground (arith, agent_of-register l j a id)) ks
spared-run l id b (hung_up j a ∷ es) h (k, ks) =
    spared-run (unregister l j a) id b es
      (ground (arith, agent_of-unregister l j a id, eq_iff j id)) ks

-- Once a node has dialed in it stays connected by that agent, whatever other connections do, until
-- it dials in again or that agent's own connection ends: the late end of an earlier connection of
-- the same node does not remove its successor.
pub successor_kept :
    (l : Agents) (id : String) (b : ℕ) (es : List Event)
    → All (Spares id b) es
    → agent_of (run (register l id b) es) id ≡ some b
successor_kept l id b es k =
    spared-run (register l id b) id b es
      (ground (arith, agent_of-register l id b id, str_eq_self id)) k
