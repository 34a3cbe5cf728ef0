-- ===== src/Access/Tests.antt =====
-- Private apps on concrete users, grants and requests.
use hostit.Common.{
  ◌≡◌, refl, String, [], ◌∷◌, Option, none, some, true, false, str_eq, if◌then◌else◌,
}
use hostit.Common.Decimal.{atoi}
use hostit.Common.Int.{pos}
use mathlib.Core.List.{Memᴰ}
use hostit.Store.{User, App, role_user, active}
use hostit.Auth.{get, is_active, is_admin, user_id}
use hostit.Access.{Grants, holds, find_user, may_view_app, may_view_user, access_set, active_admins}
use hostit.Access.Proxy.{
  ProxyRequest, Route, Table, cookie_value, first_value, grant_cookie, strip_grant_cookie, allowed,
  by_grant, by_key, may_serve_privately,
}
use hostit.Access.Agreement.{grant_caller, allowed-eq-may_view_app}
use hostit.Access.Control.{
  PrivateRequest, Url, Names, AccessRequest, deliver, mint, access_as, access_app,
  handle_app_access, app_return_url, is_own_host, is_named, reached_limit, mint_count, cut,
  add_before, count_in, count_for,
}

abbrev cat : User
cat = record {
  id = "u2";
  email = "cat@example.com";
  name = "Cat";
  role = role_user;
  status = active;
  app_limit = none;
  memory_mb = none;
  disk_mb = none;
  memory_pool_mb = none;
  disk_pool_mb = none;
}

abbrev diary : App
diary = record {
  id = "a1";
  name = "diary";
  host = "local";
  owner_id = "u1";
  powered_off = false;
  archived = false;
  private = true;
  memory_limit_mb = pos 0;
  disk_limit_mb = pos 0;
  cpu_milli = pos 0;
  port = 10001;
  soft_deleted_at = 0;
}

abbrev shared : Grants
shared = record { users = cat ∷ []; collaborators = []; viewers = ("a1", "u2") ∷ [] }

allowed-eq-may_view_app_example :
    allowed "u2" (access_set shared (diary ∷ []) "a1") (active_admins shared.users)
    ≡ may_view_app shared (grant_caller cat) diary
allowed-eq-may_view_app_example =
    allowed-eq-may_view_app shared (diary ∷ []) diary cat (tt, tt) (tt, tt) (Memᴰ.head refl)
      (unfold find_user in refl)

abbrev verify : String → Option (String × String)
verify v = if str_eq v "signed" then some ("diary", "u2") else none

abbrev new_verifier : String → Option (String → Option (String × String))
new_verifier key = if str_eq key "key" then some verify else none

abbrev to_diary : Route
to_diary = record {
  host = "diary.example.com";
  target = "10.0.0.1:80";
  app = "diary";
  private = true;
  access = "u2" ∷ [];
}

abbrev table : Table
table = record { grant_public_key = "key"; admins = []; seq = 1; routes = to_diary ∷ [] }

abbrev with_grant : ProxyRequest
with_grant = record {
  path = "/";
  authorization = "";
  tls = true;
  cookies = ("theme", "dark") ∷ ("__Host-hostit_app", "signed") ∷ [];
}

served : may_serve_privately new_verifier with_grant to_diary table ≡ some (("theme", "dark") ∷ [])
unfolding may_serve_privately by_key by_grant grant_cookie first_value cookie_value
    strip_grant_cookie allowed
served = refl

abbrev users : String → Option User
users i = if str_eq i "u2" then some cat else none

abbrev asked : PrivateRequest
asked = record {
  method = get;
  path = "/";
  authorization = "";
  by_token = none;
  by_grant = some ("diary", "u2");
  sec_fetch_mode = "navigate";
  accept = "text/html";
}

abbrev names : Names
names = record { scheme = "https"; base_domain = "example.com"; custom_domain = λ h. none }

abbrev back : Url
back = record {
  scheme = "https";
  host = "diary.example.com";
  hostname = "diary.example.com";
  request_uri = "/";
}

abbrev to_mint : AccessRequest
to_mint = record {
  app = some diary;
  caller = some (grant_caller cat);
  web_enabled = true;
  target = some back;
  loop_cookie = "diary:2";
  signs = λ app user. true;
}

minted : handle_app_access shared names to_mint ≡ deliver back "diary" "u2"
unfolding handle_app_access access_app access_as may_view_app may_view_user holds is_active is_admin
    user_id app_return_url is_own_host is_named mint mint_count cut add_before count_in count_for
    atoi reached_limit
minted = refl
