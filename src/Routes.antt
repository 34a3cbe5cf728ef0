-- ===== src/Routes.antt =====
-- The routing table: control builds it from the store and numbers it (`Routes` of control/proxies.go), and
-- a proxy keeps the newest and serves requests by it (proxy/service.go). What the store answers is
-- one record; the digest of the content is SHA-256's of its JSON and an argument.
pub mod Building
pub mod Numbers
pub mod Overlap
pub mod Serving
mod Tests
use hostit.Common.{
  ℕ, zero, suc, ◌+◌, String, Bool, true, false, List, [], ◌∷◌, ◌++◌, Option, none, some, ◌&&◌, ◌||◌,
  not, ◌==◌, ltb, if◌then◌else◌, str_eq, str_ltb, string_append, itoa,
}
use hostit.Common.Int.{pos}
use hostit.Store.{App, host_local}
use hostit.Registry.{insert_name}
use hostit.Access.Proxy.{Route, Table, ProxyRequest, strip_grant_cookie, may_serve_privately}

-- What `Routes` reads: the apps, the active custom domains with their app's name, who may open an
-- app by its id, the administrators, and the address that a node has reported.
pub record Listing : Type 0 where
  pub apps : List App
  pub domains : List (String × String)
  pub access : String → List String
  pub admins : List String
  pub address : String → Option String

unfoldable pub or_no_address : Option String → String
or_no_address none = ""
or_no_address (some address) = address

-- `nodeAddress`
unfoldable pub node_address : (String → Option String) → String → String
unfolding or_no_address
node_address address host =
    if str_eq host "" || str_eq host host_local then "127.0.0.1" else or_no_address (address host)

-- `sort.Strings`
unfoldable pub sort_strings : List String → List String
sort_strings [] = []
sort_strings (s ∷ ss) = insert_name s (sort_strings ss)

unfoldable pub app_route : Listing → String → App → Route
unfolding sort_strings
app_route l base_domain a = record {
  host = string_append a.name (string_append "." base_domain);
  target = string_append (node_address l.address a.host) (string_append ":" (itoa (pos a.port)));
  app = a.name;
  private = a.private;
  access = if a.private then sort_strings (l.access a.id) else [];
}

-- An app whose node has not reported where to reach it has no route.
unfoldable pub app_routes : Listing → String → List App → List Route
unfolding app_route
app_routes l base_domain [] = []
app_routes l base_domain (a ∷ apps) =
    let rest = app_routes l base_domain apps in
    if str_eq (node_address l.address a.host) "" then rest else app_route l base_domain a ∷ rest

-- What the maps by app name hold: the last route of the name.
unfoldable pub or_this : String → Route → Option Route → Option Route
or_this name r (some later) = some later
or_this name r none = if str_eq r.app name then some r else none

unfoldable pub route_of : List Route → String → Option Route
unfolding or_this
route_of [] name = none
route_of (r ∷ routes) name = or_this name r (route_of routes name)

unfoldable pub add_domain : String → Option Route → List Route → List Route
add_domain domain none rest = rest
add_domain domain (some r) rest = record r { host = domain } ∷ rest

unfoldable pub domain_routes : List Route → List (String × String) → List Route
unfolding add_domain
domain_routes routes [] = []
domain_routes routes ((name, domain) ∷ domains) =
    add_domain domain (route_of routes name) (domain_routes routes domains)

unfoldable pub insert_route : Route → List Route → List Route
insert_route r [] = r ∷ []
insert_route r (s ∷ routes) =
    let rest = insert_route r routes in if str_ltb s.host r.host then s ∷ rest else r ∷ s ∷ routes

unfoldable pub sort_routes : List Route → List Route
unfolding insert_route
sort_routes [] = []
sort_routes (r ∷ routes) = insert_route r (sort_routes routes)

-- What is hashed, and sent.
pub record Content : Type 0 where
  pub routes : List Route
  pub admins : List String
  pub grant_key : String

unfoldable pub content : Listing → String → String → Content
unfolding app_routes domain_routes sort_routes sort_strings
content l base_domain grant_key =
    let own = app_routes l base_domain l.apps in
    record {
      routes = sort_routes (own ++ domain_routes own l.domains);
      admins = sort_strings l.admins;
      grant_key = grant_key;
    }

pub record Numbering : Type 0 where
  pub routes_hash : String
  pub routes_seq : ℕ

abbrev pub table_of : ℕ → Content → Table
table_of n c = record {
  grant_public_key = c.grant_key;
  admins = c.admins;
  seq = n;
  routes = c.routes;
}

module _ (digest : Content → String) where
  unfoldable pub renumber : Numbering → Content → Numbering
  renumber s c =
      let sum = digest c in
      if not (str_eq sum s.routes_hash)
      then record { routes_hash = sum; routes_seq = s.routes_seq + 1 }
      else s

  -- The end of `Routes`, under its lock.
  unfoldable pub stamp : Numbering → Content → Numbering × Table
  unfolding renumber
  stamp s c = (renumber s c, table_of (renumber s c).routes_seq c)

-- `ApplyRoutes` takes no lock: whether a table is to be taken is decided by the one that is held
-- then, and it replaces whatever is held later.
unfoldable pub is_newer : Table → Table → Bool
is_newer pushed held =
    if ltb pushed.seq held.seq then false else if pushed.seq == held.seq then false else true

unfoldable pub store_table : Bool → Table → Table → Table
store_table takes pushed held = if takes then pushed else held

-- `ApplyRoutes`, on the table that a proxy holds, with nothing between the two steps
unfoldable pub apply_routes : Table → Table → Table
unfolding is_newer store_table
apply_routes pushed held = store_table (is_newer pushed held) pushed held

-- Where a request goes: to an app's target with these cookies, or to control as it came.
pub data Forwarded : Type 0 where
  to_target : String → List (String × String) → Forwarded
  to_control : Forwarded

module _ (new_verifier : String → Option (String → Option (String × String))) where
  unfoldable pub serve_private : Route → Option (List (String × String)) → Forwarded
  serve_private route none = to_control
  serve_private route (some cookies) = to_target route.target (strip_grant_cookie cookies)

  unfoldable pub serve_by : Table → ProxyRequest → String → List Route → Forwarded
  unfolding serve_private
  serve_by table r host [] = to_control
  serve_by table r host (route ∷ routes) =
      let later = serve_by table r host routes in
      if not (str_eq route.host host)
      then later
      else if route.private
      then serve_private route (may_serve_privately new_verifier r route table)
      else to_target route.target (strip_grant_cookie r.cookies)

  -- `ServeHTTP`, for a host without its port.
  unfoldable pub serve_http : Table → ProxyRequest → String → Forwarded
  unfolding serve_by
  serve_http table r host = serve_by table r host table.routes
