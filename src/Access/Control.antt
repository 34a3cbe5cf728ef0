-- ===== src/Access/Control.antt =====
-- control/appaccess.go: what control answers on a private app's hostname, and when it mints a grant.
-- URLs are parsed by Go's `net/url`, whose answer is an argument. The handlers write pages and
-- redirects; their outcome is a value.
pub mod Laws
use hostit.Common.{
  ℕ, zero, suc, ◌+◌, ◌≤◌, ◌<◌, String, Bool, true, false, List, [], ◌∷◌, Option, none, some, ◌&&◌,
  ◌||◌, not, if◌then◌else◌, str_eq, leb, ◌==◌, has_prefix, string_append, atoi, codes,
}
use hostit.Common.Int.{ℤ, pos, negsuc}
use hostit.Store.{User, App}
use hostit.Auth.{Caller, Method, get, is_active, user_id}
use hostit.Access.{Grants, may_view_app}
use Prim.Native.Char.{Char, code}
use Prim.Native.String

-- `strings.Contains`
pub has_substring : String → String → Bool
has_substring String.[] p = has_prefix "" p
has_substring (String.◌∷◌ c s) p = has_prefix (String.◌∷◌ c s) p || has_substring s p

-- What `allowPrivateRequest` reads of a request: `by_token` is who the Authorization header names,
-- `by_grant` the app and the user of the grant cookie, once it is verified.
pub record PrivateRequest : Type 0 where
  pub method : Method
  pub path : String
  pub authorization : String
  pub by_token : Option Caller
  pub by_grant : Option (String × String)
  pub sec_fetch_mode : String
  pub accept : String

pub data Answer : Type 0 where
  serve to_web log_out take_grant private_page : Answer

is_get : Method → Bool
is_get get = true
is_get _ = false

pub is_navigation : PrivateRequest → Bool
unfolding is_get
is_navigation r =
    if not (is_get r.method)
    then false
    else if not (str_eq r.sec_fetch_mode "")
    then str_eq r.sec_fetch_mode "navigate"
    else has_substring r.accept "text/html"

module _ (g : Grants) (user_by_id : String → Option User) where
  may_view_found : Option Caller → App → Bool
  may_view_found none a = false
  may_view_found (some c) a = may_view_app g c a

  granted_user : Option User → Option Caller
  granted_user none = none
  granted_user (some u) =
      some (record { user = some u; global_admin = false; app_scope = ""; via_cookie = true })

  -- `callerFromGrant`
  pub caller_from_grant : Option (String × String) → App → Option Caller
  unfolding granted_user
  caller_from_grant none a = none
  caller_from_grant (some (app, id)) a =
      if str_eq app a.name then granted_user (user_by_id id) else none

  unfoldable pub allow_private_request : PrivateRequest → App → Answer
  unfolding may_view_found
  allow_private_request r a =
      if str_eq r.path "/hostit/granted"
      then take_grant
      else if str_eq r.path "/hostit/logout"
      then log_out
      else if str_eq r.path "/hostit/auth"
      then to_web
      else if not (str_eq r.authorization "")
      then (if may_view_found r.by_token a then serve else private_page)
      else if may_view_found (caller_from_grant r.by_grant a) a
      then serve
      else if is_navigation r
      then to_web
      else private_page

-- A parsed URL: `hostname` is its host without a port. A URL that is not absolute has no scheme.
pub record Url : Type 0 where
  pub scheme : String
  pub host : String
  pub hostname : String
  pub request_uri : String

-- The server's own names, and the active custom domains by host.
pub record Names : Type 0 where
  pub scheme : String
  pub base_domain : String
  pub custom_domain : String → Option String

unfoldable pub is_named : Option String → String → Bool
is_named none name = false
is_named (some n) name = str_eq n name

unfoldable pub is_own_host : Names → App → String → Bool
unfolding is_named
is_own_host names a hostname =
    if str_eq hostname (string_append a.name (string_append "." names.base_domain))
    then true
    else is_named (names.custom_domain hostname) a.name

-- `appReturnURL`
unfoldable pub app_return_url : Names → App → Option Url → Option Url
app_return_url names a none = none
app_return_url names a (some u) =
    if str_eq u.scheme "" || str_eq u.host ""
    then none
    else if not (str_eq u.scheme names.scheme)
    then none
    else if is_own_host names a u.hostname
    then some u
    else none

unfoldable pub add_before : Char → Option (String × String) → Option (String × String)
add_before c none = none
add_before c (some (before, after)) = some (String.◌∷◌ c before, after)

-- `strings.Cut` at a colon.
unfoldable pub cut : String → Option (String × String)
cut String.[] = none
cut (String.◌∷◌ c s) =
    let later = add_before c (cut s) in if code c == b':' then some ("", s) else later

unfoldable pub count_for : String → Option ℤ → String → ℤ
count_for app none name = pos 0
count_for app (some n) name = if str_eq app name then n else pos 0

unfoldable pub count_in : Option (String × String) → String → ℤ
count_in none name = pos 0
count_in (some (app, count)) name = count_for app (atoi count) name

-- `mintCount` at one app's name; a missing cookie is "".
unfoldable pub mint_count : String → String → ℤ
unfolding cut add_before count_in count_for
mint_count cookie name = count_in (cut cookie) name

abbrev pub loop_limit : ℕ
loop_limit = 3

unfoldable pub reached_limit : ℤ → Bool
reached_limit (pos n) = leb loop_limit n
reached_limit (negsuc n) = false

-- What `handleAppAccess` reads: the app that the query names, the caller, where they want to go
-- back to, and the loop cookie. `signs` is whether the signer issues a grant for the two names.
pub record AccessRequest : Type 0 where
  pub app : Option App
  pub caller : Option Caller
  pub web_enabled : Bool
  pub target : Option Url
  pub loop_cookie : String
  pub signs : String → String → Bool

-- `deliver host app user` sends the visitor to `host` with a grant for `app` and `user`.
pub data AccessAnswer : Type 0 where
  nothing_here sign_in refuse_page : AccessAnswer
  deliver : Url → String → String → AccessAnswer

module _ (g : Grants) (names : Names) where
  unfoldable pub mint : AccessRequest → App → Caller → Option Url → AccessAnswer
  mint r a c none = nothing_here
  mint r a c (some back) =
      if reached_limit (mint_count r.loop_cookie a.name)
      then refuse_page
      else if r.signs a.name (user_id c)
      then deliver back a.name (user_id c)
      else nothing_here

  unfoldable pub access_as : AccessRequest → App → Option Caller → AccessAnswer
  unfolding mint app_return_url
  access_as r a none = if r.web_enabled then sign_in else nothing_here
  access_as r a (some c) =
      if may_view_app g c a then mint r a c (app_return_url names a r.target) else refuse_page

  unfoldable pub access_app : AccessRequest → Option App → AccessAnswer
  unfolding access_as
  access_app r none = nothing_here
  access_app r (some a) = if a.private then access_as r a r.caller else nothing_here

  unfoldable pub handle_app_access : AccessRequest → AccessAnswer
  unfolding access_app
  handle_app_access r = access_app r r.app
