-- ===== src/Registry/Tests.antt =====
-- The registry on concrete nodes.
use hostit.Common.{◌≡◌, refl, List, [], ◌∷◌, some, false, All}
use hostit.Common.Int.{pos}
use hostit.Store.{App, host_local}
use hostit.Registry.{Agents, register, agent_of, host_or_local}
use hostit.Registry.Connections.{Event, dialed, hung_up, Spares, run, successor_kept}

abbrev two_nodes : Agents
two_nodes = ("east", 1) ∷ ("local", 2) ∷ []

-- The first connection of the node ends after the second has come, and another node comes and goes.
abbrev redialed : List Event
redialed = hung_up "east" 1 ∷ dialed "west" 4 ∷ hung_up "west" 4 ∷ []

redialed-Spares : All (Spares "east" 3) redialed
redialed-Spares = (refl, (refl, (refl, tt)))

successor_kept_example : agent_of (run (register two_nodes "east" 3) redialed) "east" ≡ some 3
successor_kept_example = successor_kept two_nodes "east" 3 redialed redialed-Spares

abbrev blog : App
blog = record {
  id = "a1";
  name = "blog";
  host = "";
  owner_id = "u1";
  powered_off = false;
  archived = false;
  private = false;
  memory_limit_mb = pos 0;
  disk_limit_mb = pos 0;
  cpu_milli = pos 0;
  port = 10001;
  soft_deleted_at = 0;
}

blog_hosted : agent_of two_nodes (host_or_local "") ≡ some 2
unfolding agent_of host_or_local host_local
blog_hosted = refl
