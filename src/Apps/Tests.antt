-- ===== src/Apps/Tests.antt =====
-- Ports, a creation and a rename on a small registry.
use hostit.Common.{
  ap, ◌∙◌, String, Bool, ℕ, ◌+◌, ◌≤◌, true, false, [], ◌∷◌, none, some, ◌≡◌, ◌⊎◌, refl, arith, map,
  str_eq, str_eq-false, not,
}
use hostit.Common.Int.{pos}
use hostit.Store.{App, find_app}
use hostit.Apps.Ports.{
  port_min, port_max, has_port, Ports, allocated, no_ports_available, allocate_port,
}
use hostit.Apps.Ports.Search.{IsTaken, allocate_port-cases}
use hostit.Apps.Create.{World, CreateOptions, Checks, Outcome, create, new_app, app_port}
use hostit.Apps.Create.Laws.{IsUndone, IsMade, create-cases}
use hostit.Apps.SoftDelete.{
  set_soft_deleted, stamp_found, soft_delete_app, restore_soft_deleted, is_expired, reap_each,
  reap_soft_deleted,
}
use hostit.Apps.SoftDelete.Sweep.{reap_soft_deleted-soft_delete_app, reap_each-restore_soft_deleted}
use hostit.Apps.Rename.{Names, Flip, name_taken, IsSettled, rename_app, rename_app-IsSettled}

abbrev ports : Ports
ports = record { next_port = pos 19999; reserved = 19999 ∷ [] }

allocate_port-cases_example :
    ((p : ℕ) × (port_min ≤ p)
      × (p ≤ port_max)
      × (has_port (10000 ∷ []) p ≡ false)
      × (has_port ports.reserved p ≡ false)
      × (allocate_port (some (10000 ∷ [])) ports
          ≡ (record { next_port = pos (p + 1); reserved = p ∷ ports.reserved }, allocated p)))
    ⊎ (((p : ℕ) → IsTaken (10000 ∷ []) ports.reserved p)
        × ((allocate_port (some (10000 ∷ [])) ports).1 ≡ no_ports_available)
        × ((allocate_port (some (10000 ∷ [])) ports).0.reserved ≡ ports.reserved))
allocate_port-cases_example = allocate_port-cases (10000 ∷ []) ports

abbrev free_ports : Ports
free_ports = record { next_port = pos 10001; reserved = [] }

abbrev port : ℕ
port = 10001

abbrev offset : ℕ
offset = 7

abbrev blog : App
blog = record {
  id = "a1";
  name = "blog";
  host = "local";
  owner_id = "u1";
  powered_off = false;
  archived = false;
  private = false;
  memory_limit_mb = pos 0;
  disk_limit_mb = pos 0;
  cpu_milli = pos 0;
  port = 10000;
  soft_deleted_at = 0;
}

abbrev world : World
world = record { apps = blog ∷ []; keys = []; limits = []; ports = ports; calls = [] }

abbrev options : CreateOptions
options = record {
  owner_id = "u1";
  request_keys = [];
  memory_mb = pos 256;
  disk_mb = pos 1024;
  host = "";
  private = true;
}

abbrev checks : Checks
checks = record {
  valid_name = λ name. not (str_eq name "");
  home_of = λ name. none;
  clean = λ path. path;
  apps_dir = "/data/apps";
  valid_keys = λ keys. true;
}

abbrev works : Outcome
works = record {
  id = "a2";
  placed = "local";
  ports_read = true;
  added = true;
  keys_set = true;
  cpu_stamped = true;
  provisioned = true;
  row_removed = true;
  keys_removed = true;
}

create-cases_example :
    (IsUndone world "shop" works (create checks world "shop" options false works)
      ⊎ ((port : ℕ) × (port_min ≤ port)
          × (port ≤ port_max)
          × (has_port (map app_port world.apps) port ≡ false)
          × (has_port world.ports.reserved port ≡ false)
          × IsMade world "shop" options false works
              (new_app "shop" options works port)
              (create checks world "shop" options false works)))
    × ((create checks world "shop" options false works).0.ports.reserved ≡ world.ports.reserved)
create-cases_example = create-cases "shop" options false works checks world

abbrev names : Names
names = record { apps = blog ∷ []; logins = ("a1", "blog") ∷ [] }

-- A creation on another host takes the name, so that the way back goes to that host.
abbrev shop_elsewhere : App
shop_elsewhere = record blog { id = "a9"; name = "shop"; host = "n2" }

abbrev taken_id : Flip → String
taken_id (name_taken b) = b.id
taken_id _ = ""

rename_app-IsSettled_example :
    IsSettled
      (name_taken shop_elsewhere)
      true
      "blog"
      "shop"
      blog
      names
      (rename_app checks true (name_taken shop_elsewhere) true "blog" "shop" names)
rename_app-IsSettled_example =
    rename_app-IsSettled checks true true (name_taken shop_elsewhere) "blog" "shop" blog names
      (str_eq-false "shop" "blog" refl) (unfold find_app in refl) refl
      (λ b e same. str_eq-false "a9" "a1" refl (ap taken_id e ∙ same))

abbrev always : String → Bool
always name = true

abbrev old_blog : App
old_blog = record blog { soft_deleted_at = 5_000_000_000 }

reap_soft_deleted-soft_delete_app_example :
    find_app (reap_soft_deleted always 9_000_000_000 6_000_000_000 (old_blog ∷ [])) "blog"
    ≡ find_app (old_blog ∷ []) "blog"
reap_soft_deleted-soft_delete_app_example =
    reap_soft_deleted-soft_delete_app always 9_000_000_000 6_000_000_000 5_500_000_000 "blog"
      (blog ∷ []) (old_blog ∷ [])
      (unfold soft_delete_app stamp_found set_soft_deleted find_app in refl) (omega arith)

reap_each-restore_soft_deleted_example :
    (find_app (reap_soft_deleted always 30_000_000_000 6_000_000_000 (blog ∷ [])) "blog"
      ≡ some blog)
    × (find_app (reap_each always 30_000_000_000 6_000_000_000 (old_blog ∷ []) (blog ∷ [])) "blog"
        ≡ none)
reap_each-restore_soft_deleted_example =
    reap_each-restore_soft_deleted always 30_000_000_000 6_000_000_000 "blog" (old_blog ∷ [])
      (blog ∷ []) old_blog (unfold find_app in refl) (unfold is_expired in refl) refl
      (unfold restore_soft_deleted stamp_found set_soft_deleted find_app in refl)
