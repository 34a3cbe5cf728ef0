-- ===== src/Users.antt =====
-- People of control/user/service.go: who gets an account and with which status when they sign in,
-- and the tokens of an app. `strings.ToLower`, the two patterns and SHA-256 are arguments, and so
-- are the ids and tokens that are minted.
pub mod Login
pub mod Tokens
mod Tests
use hostit.Common.{
  ℕ, String, Bool, true, false, List, [], ◌∷◌, ◌++◌, Option, none, some, ◌&&◌, ◌||◌, not, ◌==◌, map,
  if◌then◌else◌, str_eq, contains, string_append, trim_space, trim_prefix,
}
use Prim.Native.Char.{code}
use Prim.Native.String
use hostit.Store.{Role, role_admin, role_user, role_viewer, Status, pending, active, denied, User}
use hostit.Auth.{is_status_active}
use hostit.Access.{find_user}

pub record Config : Type 0 where
  pub admin_emails : List String
  pub lower : String → String
  pub is_email : String → Bool
  pub is_domain : String → Bool
  pub is_public_provider : String → Bool

pub record Accounts : Type 0 where
  pub users : List User
  pub allowed_domains : List String

unfoldable pub normal : Config → String → String
normal c s = c.lower (trim_space s)

-- `adminEmails`
unfoldable pub admin_emails_of : Config → List String
unfolding normal
admin_emails_of c = map (normal c) c.admin_emails

unfoldable pub or_after : String → Bool → Option String → Option String
or_after s here (some later) = some later
or_after s here none = if here then some s else none

-- What follows the last `@`.
unfoldable pub after_at : String → Option String
unfolding or_after
after_at String.[] = none
after_at (String.◌∷◌ c s) = or_after s (code c == b'@') (after_at s)

unfoldable pub is_allowed : List String → Option String → Bool
is_allowed domains none = false
is_allowed domains (some domain) = contains domains domain

-- `emailDomainAllowed`
unfoldable pub email_domain_allowed : Accounts → String → Bool
unfolding after_at is_allowed
email_domain_allowed s email = is_allowed s.allowed_domains (after_at email)

unfoldable pub user_by_email : List User → String → Option User
user_by_email [] email = none
user_by_email (u ∷ users) email =
    let rest = user_by_email users email in if str_eq u.email email then some u else rest

unfoldable pub update_user : User → List User → List User
update_user u [] = []
update_user u (v ∷ users) =
    let rest = update_user u users in if str_eq v.id u.id then u ∷ rest else v ∷ rest

unfoldable pub is_pending : Status → Bool
is_pending pending = true
is_pending _ = false

unfoldable pub promoted : Bool → User → User
promoted is_admin_email u =
    if is_admin_email then record u { role = role_admin; status = active } else u

unfoldable pub blank_user : String → String → String → Role → Status → User
blank_user id email name role status = record {
  id = id;
  email = email;
  name = name;
  role = role;
  status = status;
  app_limit = none;
  memory_mb = none;
  disk_mb = none;
  memory_pool_mb = none;
  disk_pool_mb = none;
}

unfoldable pub new_user : String → String → String → Bool → Bool → User
unfolding promoted blank_user
new_user id email name allowed is_admin_email =
    promoted is_admin_email
      (blank_user id email name role_user (if allowed then active else pending))

unfoldable pub named : String → User → User
named name u = if not (str_eq name "") then record u { name = name } else u

unfoldable pub swept : Bool → User → User
unfolding is_pending
swept allowed u = if allowed && is_pending u.status then record u { status = active } else u

unfoldable pub known_user : User → String → Bool → Bool → User
unfolding promoted named swept
known_user u name allowed is_admin_email = promoted is_admin_email (swept allowed (named name u))

-- A write to the store that fails changes nothing.
unfoldable pub login_found :
    Accounts → String → String → String → Bool → Bool → Bool → Option User → Accounts × Option User
unfolding new_user known_user update_user
login_found s id email name allowed is_admin_email stored none =
    let u = new_user id email name allowed is_admin_email in
    if stored then (record s { users = u ∷ s.users }, some u) else (s, none)
login_found s id email name allowed is_admin_email stored (some v) =
    let u = known_user v name allowed is_admin_email in
    if stored then (record s { users = update_user u s.users }, some u) else (s, none)

-- `Login`, when the store can be read. `id` is minted for a new account.
unfoldable pub login : Config → Accounts → String → Bool → String → String → Accounts × Option User
unfolding login_found email_domain_allowed admin_emails_of normal
login c s id stored email name =
    let address = normal c email in
    if str_eq address ""
    then (s, none)
    else login_found s id address name (email_domain_allowed s address)
        (contains (admin_emails_of c) address) stored (user_by_email s.users address)

unfoldable pub is_viewer : Role → Bool
is_viewer role_viewer = true
is_viewer _ = false

unfoldable pub is_there : Option User → Bool
is_there none = false
is_there (some u) = true

-- `Invite`
unfoldable pub invite : Config → Accounts → String → String → Role → Accounts × Option User
unfolding normal is_viewer is_there blank_user
invite c s id email role =
    let address = normal c email in
    let u = blank_user id address "" role active in
    if not (c.is_email address)
    then (s, none)
    else if is_viewer role || is_there (user_by_email s.users address)
    then (s, none)
    else (record s { users = u ∷ s.users }, some u)

-- `normalizeDomain`
unfoldable pub normalize_domain : Config → String → Option String
unfolding normal
normalize_domain c domain =
    let bare = trim_prefix (trim_prefix (normal c domain) "*") "@" in
    if c.is_domain bare then some bare else none

unfoldable pub allow_bare : Config → Accounts → Option String → Accounts × Bool
allow_bare c s none = (s, false)
allow_bare c s (some domain) =
    if c.is_public_provider domain
    then (s, false)
    else (record s { allowed_domains = domain ∷ s.allowed_domains }, true)

-- `AllowDomain`
unfoldable pub allow_domain : Config → Accounts → String → Accounts × Bool
unfolding allow_bare normalize_domain
allow_domain c s domain = allow_bare c s (normalize_domain c domain)
