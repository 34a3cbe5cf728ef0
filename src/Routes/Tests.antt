-- ===== src/Routes/Tests.antt =====
-- A routing table with one private app on two names.
use hostit.Common.{
  List, String, true, false, [], ◌∷◌, ◌++◌, Option, none, some, ◌≡◌, ◌⊎◌, refl, arith, str_eq,
  str_eq-false, if◌then◌else◌,
}
use hostit.Common.Int.{pos}
use hostit.Common.Decimal.{itoa, show_from, digit}
use hostit.Common.Text.{str_ltb}
use hostit.Registry.{insert_name}
use mathlib.Core.List.{Memᴰ}
use hostit.Store.{App, host_local}
use hostit.Access.Proxy.{
  Table, ProxyRequest, HasProved, may_serve_privately, by_key, by_grant, grant_cookie, first_value,
  cookie_value, strip_grant_cookie, allowed,
}
use hostit.Routes.{
  Listing, app_routes, domain_routes, add_domain, route_of, or_this, sort_routes, insert_route,
  sort_strings, or_no_address, node_address, renumber, app_route, content, Content, Numbering,
  table_of, stamp, to_target, serve_http, serve_by, serve_private,
}
use hostit.Routes.Overlap.{
  compare_older, compare_newer, store_older, store_newer, steps_overlap, ends, Step,
}
use hostit.Routes.Numbers.{apply_all, build, apply_all-build}
use hostit.Routes.Serving.{serve_http-content}

abbrev diary : App
diary = record {
  id = "a1";
  name = "diary";
  host = "n1";
  owner_id = "u1";
  powered_off = false;
  archived = false;
  private = true;
  memory_limit_mb = pos 0;
  disk_limit_mb = pos 0;
  cpu_milli = pos 0;
  port = 10001;
  soft_deleted_at = 0;
}

abbrev listing : Listing
listing = record {
  apps = diary ∷ [];
  domains = ("diary", "my.org") ∷ [];
  access = λ id. "u2" ∷ [];
  admins = [];
  address = λ node. some "10.0.0.1";
}

reached : node_address listing.address "n1" ≡ "10.0.0.1"
unfolding node_address or_no_address host_local
reached = refl

abbrev old_content : Content
old_content = record { routes = []; admins = []; grant_key = "old" }

abbrev new_content : Content
new_content = record { routes = []; admins = []; grant_key = "new" }

abbrev digest : Content → String
digest c = c.grant_key

abbrev at_start : Numbering
at_start = record { routes_hash = ""; routes_seq = 3 }

abbrev held : Table
held = record { grant_public_key = ""; admins = []; seq = 3; routes = [] }

apply_all-build_example :
    apply_all ([] ++ table_of 5 new_content ∷ table_of 4 old_content ∷ []) held
    ≡ table_of 5 new_content
unfolding stamp build renumber
apply_all-build_example =
    apply_all-build digest at_start (old_content ∷ []) new_content held []
      (table_of 4 old_content ∷ []) ((λ e. absurd (str_eq-false "old" "new" refl e)), tt)
      (λ e. absurd (str_eq-false "new" "" refl e)) (omega arith) tt (Memᴰ.head refl, tt)

abbrev ends_so : List Step → Table
ends_so = ends (table_of 4 old_content) (table_of 5 new_content) held

steps_overlap_example :
    (ends_so (compare_older ∷ store_older ∷ compare_newer ∷ store_newer ∷ [])
      ≡ table_of 5 new_content)
    × (ends_so (compare_newer ∷ store_newer ∷ compare_older ∷ store_older ∷ [])
        ≡ table_of 5 new_content)
    × (ends_so (compare_older ∷ compare_newer ∷ store_older ∷ store_newer ∷ [])
        ≡ table_of 5 new_content)
    × (ends_so (compare_newer ∷ compare_older ∷ store_older ∷ store_newer ∷ [])
        ≡ table_of 5 new_content)
    × (ends_so (compare_older ∷ compare_newer ∷ store_newer ∷ store_older ∷ [])
        ≡ table_of 4 old_content)
    × (ends_so (compare_newer ∷ compare_older ∷ store_newer ∷ store_older ∷ [])
        ≡ table_of 4 old_content)
steps_overlap_example =
    steps_overlap (table_of 4 old_content) (table_of 5 new_content) held (omega arith) (omega arith)

abbrev verify : String → Option (String × String)
verify v = if str_eq v "signed" then some ("diary", "u2") else none

abbrev new_verifier : String → Option (String → Option (String × String))
new_verifier key = if str_eq key "key" then some verify else none

abbrev visit : ProxyRequest
visit = record {
  path = "/";
  authorization = "";
  tls = true;
  cookies = ("theme", "dark") ∷ ("__Host-hostit_app", "signed") ∷ [];
}

served :
    serve_http new_verifier (table_of 1 (content listing "x.com" "key")) visit "my.org"
    ≡ to_target "10.0.0.1:10001" (("theme", "dark") ∷ [])
unfolding serve_http serve_by serve_private content app_routes app_route domain_routes add_domain
    route_of or_this sort_routes insert_route sort_strings insert_name node_address or_no_address
    host_local may_serve_privately by_key by_grant grant_cookie first_value cookie_value
    strip_grant_cookie allowed itoa show_from digit str_ltb
served = refl

serve_http-content_example :
    (a : App) × Memᴰ a listing.apps
    × (("my.org" ≡ (app_route listing "x.com" a).host) ⊎ Memᴰ (a.name, "my.org") listing.domains)
    × ("10.0.0.1:10001" ≡ (app_route listing "x.com" a).target)
    × ((a.private ≡ false)
        ⊎ HasProved new_verifier visit
            (record (app_route listing "x.com" a) { host = "my.org" })
            (table_of 1 (content listing "x.com" "key")))
serve_http-content_example =
    serve_http-content new_verifier listing "x.com" "key" 1 visit "my.org" "10.0.0.1:10001"
      (("theme", "dark") ∷ []) served
