-- ===== src/Auth.antt =====
-- control/auth.go: who a caller is, and which endpoints they reach. The functions of other
-- components that the middleware calls (the token table, the session cookies, the user table) are
-- arguments: each answers or fails.
pub mod Identity
pub mod Middleware
mod Tests
use hostit.Common.{
  ℕ, String, Bool, true, false, List, [], ◌∷◌, Option, none, some, ◌&&◌, ◌||◌, not, ◌==◌,
  if◌then◌else◌, str_eq, string_append, has_prefix, trim_prefix,
}
use hostit.Store.{Role, role_admin, Status, active, User}

abbrev pub is_role_admin : Role → Bool
is_role_admin role_admin = true
is_role_admin _ = false

abbrev pub is_status_active : Status → Bool
is_status_active active = true
is_status_active _ = false

pub record Caller : Type 0 where
  pub user : Option User
  pub global_admin : Bool
  pub app_scope : String
  pub via_cookie : Bool

abbrev pub has_role_admin : Option User → Bool
has_role_admin none = false
has_role_admin (some u) = is_role_admin u.role

abbrev pub has_status_active : Option User → Bool
has_status_active none = false
has_status_active (some u) = is_status_active u.status

abbrev pub has_no_user : Option User → Bool
has_no_user none = true
has_no_user (some u) = false

unfoldable pub is_admin : Caller → Bool
is_admin c = c.global_admin || has_role_admin c.user

unfoldable pub is_active : Caller → Bool
is_active c =
    if c.global_admin || has_status_active c.user
    then true
    else has_no_user c.user && not (str_eq c.app_scope "")

abbrev pub id_of : Option User → String
id_of none = ""
id_of (some u) = u.id

unfoldable pub user_id : Caller → String
user_id c = id_of c.user

-- What the middleware reads of a request. `peer_uid` is the kernel's answer on the unix socket,
-- `authorization` the header ("" if absent), `session` the session cookie ("" if absent).
pub data Method : Type 0 where
  get head options post put patch delete : Method

pub record Request : Type 0 where
  pub method : Method
  pub path : String
  pub peer_uid : Option ℕ
  pub authorization : String
  pub session : String
  pub sec_fetch_site : String
  pub origin : String

-- What the server is configured with, and what it asks of other components.
pub record Services : Type 0 where
  pub admin_token : String
  pub user_and_scope_by_token : String → Option (Option User × String)
  pub decode_session : String → Option String
  pub user_by_id : String → Option User
  pub is_web_origin : String → Bool

abbrev anonymous : Caller
anonymous = record { user = none; global_admin = false; app_scope = ""; via_cookie = false }

abbrev pub super_admin : Caller
super_admin = record anonymous { global_admin = true }

abbrev pub api_prefix : String
api_prefix = "/api"

abbrev is_root : Option ℕ → Bool
is_root none = false
is_root (some uid) = uid == 0

pub is_read : Method → Bool
is_read get = true
is_read head = true
is_read options = true
is_read _ = false

by_user : Option User → Option Caller
by_user none = none
by_user (some u) = some (record anonymous { user = some u; via_cookie = true })

module _ (s : Services) where
  -- The three ways to be somebody; `none` is an error.
  by_token : String → Option Caller
  by_token token =
      if str_eq token s.admin_token
      then some super_admin
      else elim (s.user_and_scope_by_token token) [
        | none ↦ none
        | some (u, scope) ↦ some (record anonymous { user = u; app_scope = scope })
      ]

  by_session : Option String → Option Caller
  unfolding by_user
  by_session none = none
  by_session (some id) = by_user (s.user_by_id id)

  by_cookie : String → Option Caller
  unfolding by_session
  by_cookie session = if str_eq session "" then none else by_session (s.decode_session session)

  -- A bearer token is what is left when the prefix is there, and is not empty.
  unfoldable pub authenticate : Request → Option Caller
  unfolding by_token by_cookie
  authenticate r =
      let token = trim_prefix r.authorization "Bearer " in
      if is_root r.peer_uid
      then some super_admin
      else if not (str_eq token "") && not (str_eq token r.authorization)
      then by_token token
      else by_cookie r.session

  -- `checkSameOrigin`: true is no error.
  unfoldable pub check_same_origin : Request → Caller → Bool
  unfolding is_read
  check_same_origin r c =
      if not c.via_cookie || is_read r.method
      then true
      else if str_eq r.sec_fetch_site "same-origin" || str_eq r.sec_fetch_site "none"
      then true
      else str_eq r.sec_fetch_site "" && (str_eq r.origin "" || s.is_web_origin r.origin)

unfoldable pub within_app_scope : String → String → Bool
within_app_scope path app =
    let prefix = string_append (string_append api_prefix "/apps/") app in
    if str_eq path (string_append api_prefix "/info")
    then true
    else str_eq path prefix || has_prefix path (string_append prefix "/")

-- What the wrappers answer: a refusal with its status, or the handler runs as this caller.
pub data Refusal : Type 0 where
  please_sign_in cross_site limited_to_app not_active scoped_token not_a_person not_an_admin :
      Refusal

unfoldable pub status_code : Refusal → ℕ
status_code please_sign_in = 401
status_code _ = 403

pub data Outcome : Type 0 where
  refused : Refusal → Outcome
  passed : Caller → Outcome

-- A wrapper around a wrapper: the inner one runs for callers that the outer one lets pass.
abbrev pub guard : Bool → Refusal → Caller → Outcome
guard true e c = passed c
guard false e c = refused e

infixl 5 ◌>>=◌
abbrev pub ◌>>=◌ : Outcome → (Caller → Outcome) → Outcome
refused e >>= next = refused e
passed c >>= next = next c

module _ (s : Services) (r : Request) where
  -- The checks of `authenticated`, for a caller that is known.
  scoped : Caller → Outcome
  scoped c =
      if not (str_eq c.app_scope "") && not (within_app_scope r.path c.app_scope)
      then refused limited_to_app
      else passed c

  same_origin : Caller → Outcome
  same_origin c = guard (check_same_origin s r c) cross_site c

  caller_or_sign_in : Option Caller → Outcome
  caller_or_sign_in none = refused please_sign_in
  caller_or_sign_in (some c) = passed c

  unfoldable pub authenticated : Outcome
  unfolding scoped same_origin caller_or_sign_in
  authenticated = do c ← caller_or_sign_in (authenticate s r); d ← same_origin c; scoped d

  unfoldable pub require_active : Outcome
  require_active = do c ← authenticated; guard (is_active c) not_active c

  unfoldable pub require_account : Outcome
  require_account = do c ← require_active; guard (str_eq c.app_scope "") scoped_token c

  unfoldable pub require_person : Outcome
  require_person = do c ← require_account; guard (not (str_eq (user_id c) "")) not_a_person c

  unfoldable pub require_admin : Outcome
  require_admin = do c ← require_account; guard (is_admin c) not_an_admin c
