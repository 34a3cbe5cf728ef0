-- ===== src/Limits.antt =====
-- The limits of users and of their apps: control/user/service.go, node/machine_budget.go and
-- control/service.go. The settings are the key and value rows of the store, the newest first; `none`
-- in their place is a store that cannot be read.
pub mod Defaults
pub mod Update
pub mod Pool
pub mod Sums
pub mod Totals
mod Tests
use hostit.Common.{
  ℕ, zero, suc, String, Bool, true, false, List, [], ◌∷◌, Option, none, some, ◌&&◌, ◌||◌, not,
  if◌then◌else◌, str_eq, lookup, atoi, itoa,
}
use hostit.Common.Int.{ℤ, pos, negsuc, ltb_ℤ, is_pos}
use hostit.Store.{App, User, Role, role_viewer, find_app}

pub record UserLimits : Type 0 where
  pub app_limit : ℤ
  pub memory_mb : ℤ
  pub disk_mb : ℤ
  pub memory_pool_mb : ℤ
  pub disk_pool_mb : ℤ

-- `EffectiveAppLimits`: the memory, the disk and the CPU of an app.
unfoldable pub effective_app_limits : UserLimits → App → ℤ × ℤ × ℤ
effective_app_limits l a = (
  if is_pos a.memory_limit_mb then a.memory_limit_mb else l.memory_mb,
  if is_pos a.disk_limit_mb then a.disk_limit_mb else l.disk_mb,
  a.cpu_milli,
)

abbrev pub Settings : Type 0
Settings = List (String × String)

value_or : Option ℤ → ℤ → ℤ
value_or none fallback = fallback
value_or (some v) fallback = v

parsed : Option String → Option ℤ
parsed none = none
parsed (some v) = atoi v

unfoldable pub setting_int : Settings → String → ℤ → ℤ
unfolding value_or parsed
setting_int settings key fallback = value_or (parsed (lookup key settings)) fallback

unfoldable pub positive_or : ℤ → ℤ → ℤ
positive_or value fallback = if is_pos value then value else fallback

unfoldable pub read_defaults : Settings → UserLimits
unfolding setting_int positive_or
read_defaults s = record {
  app_limit = setting_int s "default_app_limit" (pos 3);
  memory_mb = setting_int s "default_memory_mb" (pos 128);
  disk_mb = setting_int s "default_disk_mb" (pos 256);
  memory_pool_mb = positive_or (setting_int s "default_memory_pool_mb" (pos 0)) (pos 1024);
  disk_pool_mb = positive_or (setting_int s "default_disk_pool_mb" (pos 0)) (pos 4096);
}

-- `Defaults`
unfoldable pub defaults : Option Settings → Option UserLimits
unfolding read_defaults
defaults none = none
defaults (some s) = some (read_defaults s)

abbrev pub is_viewer : Role → Bool
is_viewer role_viewer = true
is_viewer _ = false

abbrev pub override : Option ℤ → ℤ → ℤ
override none v = v
override (some o) v = o

unfoldable pub limits_over : UserLimits → User → UserLimits
limits_over l u = record {
  app_limit = if is_viewer u.role then pos 0 else override u.app_limit l.app_limit;
  memory_mb = override u.memory_mb l.memory_mb;
  disk_mb = override u.disk_mb l.disk_mb;
  memory_pool_mb = override u.memory_pool_mb l.memory_pool_mb;
  disk_pool_mb = override u.disk_pool_mb l.disk_pool_mb;
}

limits_from : Option UserLimits → User → Option UserLimits
unfolding limits_over
limits_from none u = none
limits_from (some l) u = some (limits_over l u)

-- `Limits`
unfoldable pub limits : Option Settings → User → Option UserLimits
unfolding defaults limits_from
limits settings u = limits_from (defaults settings) u

-- `SetSetting` for a key and a value after the other, up to the first that fails; `writable` says
-- which keys can be written. The second component is whether all were.
unfoldable pub set_each : (String → Bool) → Settings → List (String × String) → Settings × Bool
set_each writable s [] = (s, true)
set_each writable s ((k, v) ∷ rows) =
    let rest = set_each writable ((k, v) ∷ s) rows in if writable k then rest else (s, false)

unfoldable pub has_negative : UserLimits → Bool
has_negative l =
    ltb_ℤ l.app_limit (pos 0)
    || ltb_ℤ l.memory_mb (pos 0)
    || ltb_ℤ l.disk_mb (pos 0)
    || ltb_ℤ l.memory_pool_mb (pos 0)
    || ltb_ℤ l.disk_pool_mb (pos 0)

-- `SetDefaults`: the settings after it, and whether it succeeded.
unfoldable pub set_defaults : (String → Bool) → Settings → UserLimits → Settings × Bool
unfolding set_each has_negative
set_defaults writable s l =
    if has_negative l
    then (s, false)
    else set_each writable s (
        ("default_app_limit", itoa l.app_limit)
        ∷ ("default_memory_mb", itoa l.memory_mb)
        ∷ ("default_disk_mb", itoa l.disk_mb)
        ∷ ("default_memory_pool_mb", itoa l.memory_pool_mb)
        ∷ ("default_disk_pool_mb", itoa l.disk_pool_mb)
        ∷ [])

-- `EffectiveDiskCapMB`
unfoldable pub effective_disk_cap_mb : ℤ → ℤ
effective_disk_cap_mb disk_mb = if is_pos disk_mb then disk_mb else pos 2048

owner_limits : (String → Option User) → Option Settings → UserLimits → String → UserLimits
unfolding limits
owner_limits user_by_id settings l owner_id = elim (user_by_id owner_id) [
  | none ↦ l
  | some owner ↦ elim (limits settings owner) [ none ↦ l | some owned ↦ owned ]
]

limits_of_app : (String → Option User) → Option Settings → Option UserLimits → App → ℤ × ℤ × ℤ
unfolding effective_app_limits effective_disk_cap_mb owner_limits
limits_of_app user_by_id settings none a = (pos 0, pos 0, pos 0)
limits_of_app user_by_id settings (some l) a =
    let owned = if str_eq a.owner_id "" then l else owner_limits user_by_id settings l a.owner_id in
    let (memory, disk, cpu) = effective_app_limits owned a in
    (memory, effective_disk_cap_mb disk, cpu)

unfoldable pub limits_of_row : (String → Option User) → Option Settings → Option App → ℤ × ℤ × ℤ
unfolding limits_of_app
limits_of_row user_by_id settings none = (pos 0, pos 0, pos 0)
limits_of_row user_by_id settings (some a) = limits_of_app user_by_id settings (defaults settings) a

-- `appLimits`, and `Limits` of control/policy.go, which answers the first two for an app in hand.
unfoldable pub app_limits : (String → Option User) → Option Settings → List App → String → ℤ × ℤ × ℤ
unfolding limits_of_row
app_limits user_by_id settings apps name = limits_of_row user_by_id settings (find_app apps name)
