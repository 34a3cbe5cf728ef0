-- ===== src/Auth/Tests.antt =====
-- Callers and wrappers on concrete requests.
use hostit.Common.{
  ◌≡◌, ◌≢◌, ◌↔◌, ◌⊎◌, refl, true, false, none, some, str_eq, if◌then◌else◌, string_append, arith,
}
use hostit.Common.Text.{trim_prefix}
use hostit.Store.{User, role_admin, active}
use hostit.Auth.{
  Caller, super_admin, Request, Services, get, post, is_root, is_read, is_admin, authenticate,
  by_token, by_cookie, by_session, by_user, check_same_origin, within_app_scope, passed, scoped,
  same_origin, caller_or_sign_in, authenticated, require_admin,
}
use hostit.Auth.Identity.{NoSlash, authenticate_super_admin}
use hostit.Auth.Middleware.{IsAccount, require_admin_iff}

guide_for_blog : within_app_scope "/api/info" "blog" ≡ true
unfolding within_app_scope
guide_for_blog = refl

guide_for_shop : within_app_scope "/api/info" "shop" ≡ true
unfolding within_app_scope
guide_for_shop = refl

blog-NoSlash : NoSlash "blog"
blog-NoSlash = (ground arith, (ground arith, (ground arith, (ground arith, tt))))

shop-NoSlash : NoSlash "shop"
shop-NoSlash = (ground arith, (ground arith, (ground arith, (ground arith, tt))))

abbrev ann : User
ann = record {
  id = "u1";
  email = "ann@example.com";
  name = "Ann";
  role = role_admin;
  status = active;
  app_limit = none;
  memory_mb = none;
  disk_mb = none;
  memory_pool_mb = none;
  disk_pool_mb = none;
}

abbrev site : Services
site = record {
  admin_token = "secret";
  user_and_scope_by_token = λ t. none;
  decode_session = λ s. if str_eq s "good" then some "u1" else none;
  user_by_id = λ i. if str_eq i "u1" then some ann else none;
  is_web_origin = λ o. false;
}

abbrev with_token : Request
with_token = record {
  method = get;
  path = "/api/apps";
  peer_uid = none;
  authorization = "Bearer secret";
  session = "";
  sec_fetch_site = "";
  origin = "";
}

token_is_admins : authenticate site with_token ≡ some super_admin
unfolding authenticate by_token trim_prefix
token_is_admins = refl

authenticate_super_admin_example :
    (is_root with_token.peer_uid ≡ true)
    ⊎ ((site.admin_token ≢ "")
        × (with_token.authorization ≡ string_append "Bearer " site.admin_token))
authenticate_super_admin_example =
    authenticate_super_admin site with_token super_admin token_is_admins refl

abbrev from_browser : Request
from_browser = record {
  method = post;
  path = "/api/apps";
  peer_uid = none;
  authorization = "";
  session = "good";
  sec_fetch_site = "same-origin";
  origin = "";
}

abbrev ann_by_cookie : Caller
ann_by_cookie = record { user = some ann; global_admin = false; app_scope = ""; via_cookie = true }

require_admin_iff_example :
    (require_admin site from_browser ≡ passed ann_by_cookie)
    ↔ (IsAccount site from_browser ann_by_cookie × (is_admin ann_by_cookie ≡ true))
require_admin_iff_example = require_admin_iff site from_browser ann_by_cookie

browser_passes : authenticated site from_browser ≡ passed ann_by_cookie
unfolding authenticated caller_or_sign_in same_origin scoped check_same_origin is_read authenticate
    by_cookie by_session by_user trim_prefix
browser_passes = refl
