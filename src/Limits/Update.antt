-- ===== src/Limits/Update.antt =====
-- control/server_handler_limits.go: the endpoint that changes an app's limits, and the pools of its
-- owner that they come out of; control/server_handler_apps.go: who may call it.
use hostit.Common.{
  ℕ, String, Bool, true, false, List, [], ◌∷◌, Option, none, some, ◌&&◌, ◌||◌, not, ◌==◌,
  if◌then◌else◌, str_eq,
}
use hostit.Common.Int.{ℤ, pos, negsuc, ltb_ℤ, is_pos, add64}
use hostit.Store.{App, User, find_app}
use hostit.Auth.{Caller, is_admin, user_id}
use hostit.Access.{holds}
use hostit.Limits.{UserLimits, Settings, limits, effective_app_limits, app_limits}

-- What the endpoint reads and writes. `recorded` is the limits that control keeps for the desired
-- state, the newest first, which are also those that it tells the node. `writable` is whether the
-- store's update succeeds.
pub record Control : Type 0 where
  pub settings : Option Settings
  pub user_by_id : String → Option User
  pub apps : List App
  pub collaborators : List (String × String)
  pub recorded : List (String × (ℤ × ℤ × ℤ))
  pub writable : Bool

pub data LimitsError : Type 0 where
  app_token app_not_found forbidden bad_request too_small too_large cpu_is_admins : LimitsError
  no_user no_limits memory_pool_full disk_pool_full store_failed : LimitsError

pub data Result {ℓ} (A : Type ℓ) : Type ℓ where
  failed : LimitsError → Result A
  ok : A → Result A

infixl 10 ◌>>=◌
unfoldable pub ◌>>=◌ {ℓ κ} : {A : Type ℓ} {B : Type κ} → Result A → (A → Result B) → Result B
failed e >>= next = failed e
ok a >>= next = next a

unfoldable pub require : Bool → LimitsError → Result {0} Unit
require true e = ok tt
require false e = failed e

unfoldable pub found_or : {A : Type 0} → Option A → LimitsError → Result A
found_or none e = failed e
found_or (some a) e = ok a

unfoldable pub may_act : Control → Caller → App → Bool
may_act w c a =
    is_admin c || str_eq a.owner_id (user_id c) || holds w.collaborators a.id (user_id c)

-- `ownedApp`
unfoldable pub owned_app : Control → Caller → String → Result App
unfolding ◌>>=◌ require found_or may_act
owned_app w c name = found_or (find_app w.apps name) app_not_found >>= λ a.
    require (a.soft_deleted_at == 0) app_not_found >>= λ _.
    require (may_act w c a) app_not_found >>= λ _. ok a

-- `ownerApp`
unfoldable pub owner_app : Control → Caller → String → Result App
unfolding ◌>>=◌ require owned_app
owner_app w c name = owned_app w c name >>= λ a.
    require (is_admin c || str_eq a.owner_id (user_id c)) forbidden >>= λ _. ok a

pub record Patch : Type 0 where
  pub memory_mb : ℤ
  pub disk_mb : ℤ
  pub cpu_milli : ℤ

abbrev pub max_app_limit_mb : ℕ
max_app_limit_mb = 1073741824

unfoldable pub patch_pos : ℤ → ℕ → ℕ → Result ℤ
patch_pos current requested floor =
    if requested == 0
    then ok current
    else if ltb_ℤ (pos requested) (pos floor)
    then failed too_small
    else if ltb_ℤ (pos max_app_limit_mb) (pos requested)
    then failed too_large
    else ok (pos requested)

-- `patch` in `handleAppLimitsUpdate`: -1 clears the override, any other negative is too small.
unfoldable pub patch : ℤ → ℤ → ℕ → Result ℤ
unfolding patch_pos
patch current (pos n) floor = patch_pos current n floor
patch current (negsuc n) floor = if n == 0 then ok (pos 0) else failed too_small

-- The sum of a limit over the live apps of an owner, one left out.
unfoldable pub reserved_of : (App → ℤ) → String → String → List App → ℤ
reserved_of f owner_id exclude [] = pos 0
reserved_of f owner_id exclude (a ∷ apps) =
    let rest = reserved_of f owner_id exclude apps in
    if str_eq a.owner_id owner_id && not (str_eq a.name exclude) && (a.soft_deleted_at == 0)
    then add64 (f a) rest
    else rest

abbrev pub memory_of : UserLimits → App → ℤ
memory_of l a = (effective_app_limits l a).0

abbrev pub disk_of : UserLimits → App → ℤ
disk_of l a = (effective_app_limits l a).1

-- `AppsByOwner` is the filter in `reserved_of`.
unfoldable pub pool_reserved : Control → String → String → Result (ℤ × ℤ)
unfolding ◌>>=◌ found_or reserved_of
pool_reserved w owner_id exclude = found_or (w.user_by_id owner_id) no_user >>= λ owner.
    found_or (limits w.settings owner) no_limits >>= λ l. ok (
      reserved_of (memory_of l) owner_id exclude w.apps,
      reserved_of (disk_of l) owner_id exclude w.apps,
    )

-- Whether `used` and `new` together stay within a pool; a pool that is not positive has no end.
unfoldable pub within : ℤ → ℤ → ℤ → Bool
within pool used new = not (is_pos pool) || not (ltb_ℤ pool (add64 used new))

-- The app of the two new overrides that `checkPoolFits` makes up.
abbrev pub overrides : ℤ → ℤ → App
overrides m d = record {
  id = "";
  name = "";
  host = "";
  owner_id = "";
  powered_off = false;
  archived = false;
  private = false;
  memory_limit_mb = m;
  disk_limit_mb = d;
  cpu_milli = pos 0;
  port = 0;
  soft_deleted_at = 0;
}

unfoldable pub check_owner : Control → App → ℤ → ℤ → Result {0} Unit
unfolding ◌>>=◌ require found_or pool_reserved within
check_owner w a m d = found_or (w.user_by_id a.owner_id) no_user >>= λ owner.
    found_or (limits w.settings owner) no_limits >>= λ l.
    pool_reserved w a.owner_id a.name >>= λ used.
    require (within l.memory_pool_mb used.0 (memory_of l (overrides m d))) memory_pool_full >>= λ _.
    require (within l.disk_pool_mb used.1 (disk_of l (overrides m d))) disk_pool_full

-- `checkPoolFits`
unfoldable pub check_pool_fits : Control → App → ℤ → ℤ → Result {0} Unit
unfolding check_owner
check_pool_fits w a m d = if str_eq a.owner_id "" then ok tt else check_owner w a m d

-- `UpdateAppLimits`: the rows of this name.
abbrev pub with_limits : App → ℤ → ℤ → ℤ → App
with_limits a m d cpu = record {
  id = a.id;
  name = a.name;
  host = a.host;
  owner_id = a.owner_id;
  powered_off = a.powered_off;
  archived = a.archived;
  private = a.private;
  memory_limit_mb = m;
  disk_limit_mb = d;
  cpu_milli = cpu;
  port = a.port;
  soft_deleted_at = a.soft_deleted_at;
}

unfoldable pub update_app_limits : List App → String → ℤ → ℤ → ℤ → List App
update_app_limits [] name m d cpu = []
update_app_limits (a ∷ apps) name m d cpu =
    (if str_eq a.name name then with_limits a m d cpu else a) ∷ update_app_limits apps name m d cpu

-- The store's update, and the limits that are then recorded and sent to the node.
unfoldable pub updated : Control → String → ℤ → ℤ → ℤ → Control
unfolding update_app_limits
updated w name m d cpu =
    let apps = update_app_limits w.apps name m d cpu in
    record {
      settings = w.settings;
      user_by_id = w.user_by_id;
      apps = apps;
      collaborators = w.collaborators;
      recorded = (name, app_limits w.user_by_id w.settings apps name) ∷ w.recorded;
      writable = w.writable;
    }

abbrev pub is_zero : ℤ → Bool
is_zero (pos n) = n == 0
is_zero (negsuc n) = false

-- `handleAppLimitsUpdate`: `body` is the decoded request, if it decodes.
unfoldable pub handle_app_limits_update : Control → Caller → String → Option Patch → Result Control
unfolding ◌>>=◌ require found_or owner_app patch check_pool_fits updated
handle_app_limits_update w c name body = require (str_eq c.app_scope "") app_token >>= λ _.
    owner_app w c name >>= λ a. found_or body bad_request >>= λ req.
    patch a.memory_limit_mb req.memory_mb 64 >>= λ m. patch a.disk_limit_mb req.disk_mb 256 >>= λ d.
    patch a.cpu_milli req.cpu_milli 100 >>= λ cpu.
    require (is_zero req.cpu_milli || is_admin c) cpu_is_admins >>= λ _.
    check_pool_fits w a m d >>= λ _.
    require w.writable store_failed >>= λ _. ok (updated w a.name m d cpu)
