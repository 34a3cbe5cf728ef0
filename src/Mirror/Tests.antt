-- ===== src/Mirror/Tests.antt =====
-- Mirrors of a small registry.
use hostit.Common.{
  String, true, false, false, List, [], ◌∷◌, ◌++◌, Option, some, ◌≡◌, refl, arith, map, subst, sym,
}
use hostit.Common.Int.{pos}
use mathlib.Core.List.{Memᴰ}
use hostit.Store.{App}
use hostit.Registry.{host_or_local}
use hostit.Mirror.{
  Registry, SyncState, Control, Mirror, mirrored, is_hosted, rows_of, add_rows, sync_state,
  sync_read, stamped, sync, Policy,
}
use hostit.Mirror.Slices.{hosted}
use hostit.Mirror.Delivery.{change, push, add_for, run, deliver, kept_of, deliver-run}
use hostit.Mirror.Races.{take_seq, replace_rows, act_all, holding, act_all_overlap}

abbrev blog : App
blog = record {
  id = "a1";
  name = "blog";
  host = "n1";
  owner_id = "u1";
  powered_off = false;
  archived = false;
  private = false;
  memory_limit_mb = pos 0;
  disk_limit_mb = pos 0;
  cpu_milli = pos 0;
  port = 10001;
  soft_deleted_at = 0;
}

abbrev shop : App
shop = record blog { id = "a2"; name = "shop" }

abbrev no_snapshots : String → Option (List String)
no_snapshots name = some []

abbrev one_app : Registry String
one_app = record { apps = some (blog ∷ []); snapshots = no_snapshots }

abbrev two_apps : Registry String
two_apps = record { apps = some (blog ∷ shop ∷ []); snapshots = no_snapshots }

abbrev at_start : Control String
at_start = record { registry = one_app; mirror_seq = 4 }

abbrev fresh : Mirror String
fresh = record { sync_seq = 0; apps = []; snapshots = []; synced = false }

abbrev first : SyncState String
first = record { seq = 5; apps = mirrored blog ∷ []; snapshots = [] }

abbrev second : SyncState String
second = record { seq = 6; apps = mirrored blog ∷ mirrored shop ∷ []; snapshots = [] }

sent : (run "n1" (push "n1" ∷ change two_apps ∷ []) at_start).1 ≡ first ∷ []
unfolding run add_for sync_state sync_read stamped rows_of add_rows is_hosted host_or_local
sent = refl

built : (sync_state (run "n1" (push "n1" ∷ change two_apps ∷ []) at_start).0 "n1").1 ≡ some second
unfolding run sync_state sync_read stamped rows_of add_rows is_hosted host_or_local
built = refl

-- The newer payload arrives first.
deliver-run_example :
    (apps : List App) × (some (blog ∷ shop ∷ []) ≡ some apps)
    × (second.seq ≡ 6)
    × (second.apps ≡ map mirrored (hosted "n1" apps))
    × (deliver ([] ++ (true, second) ∷ (false, first) ∷ []) fresh
        ≡ kept_of true second (deliver [] fresh))
unfolding run sync_state sync_read
deliver-run_example =
    deliver-run "n1" (push "n1" ∷ change two_apps ∷ []) at_start [] ((false, first) ∷ []) true
      second fresh built tt (subst (λ l. Memᴰ first l) (sym sent) (Memᴰ.head refl), tt)
      (omega arith)

act_all_overlap_example :
    (act_all
        (take_seq first ∷ replace_rows first ∷ take_seq second ∷ replace_rows second ∷ [])
        fresh
      ≡ holding 6 second)
    × (act_all
          (take_seq first ∷ take_seq second ∷ replace_rows second ∷ replace_rows first ∷ [])
          fresh
        ≡ holding 6 first)
    × (sync true second (holding 6 first) ≡ holding 6 first)
act_all_overlap_example = act_all_overlap first second fresh true (omega arith) (omega arith)

abbrev policy : Policy
policy = record {
  keys = λ a. a.name ∷ [];
  limits = λ a. (pos 256, pos 1024);
  append_relay_key = λ host keys. keys;
  url = λ a. a.name;
  cpu_limit = λ name. pos 500;
}
