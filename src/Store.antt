-- ===== src/Store.antt =====
-- store/types.go: the rows of the registry's database that the other parts read. The SQL of store/
-- is not modelled: what a query answers is an argument of the code that asks it. A time is its
-- nanoseconds since Go's zero time, 0 for the zero time itself.
use hostit.Common.{ℕ, String, Bool, List, [], ◌∷◌, Option, none, some, str_eq, if◌then◌else◌}
use hostit.Common.Int.{ℤ}

pub data Role : Type 0 where
  role_admin role_user role_viewer : Role

pub data Status : Type 0 where
  pending active denied : Status

-- The limits are the user's own overrides, `nil` where there is none.
pub record User : Type 0 where
  pub id : String
  pub email : String
  pub name : String
  pub role : Role
  pub status : Status
  pub app_limit : Option ℤ
  pub memory_mb : Option ℤ
  pub disk_mb : Option ℤ
  pub memory_pool_mb : Option ℤ
  pub disk_pool_mb : Option ℤ

-- The columns of an app that the modelled code reads.
pub record App : Type 0 where
  pub id : String
  pub name : String
  pub host : String
  pub owner_id : String
  pub powered_off : Bool
  pub archived : Bool
  pub private : Bool
  pub memory_limit_mb : ℤ
  pub disk_limit_mb : ℤ
  pub cpu_milli : ℤ
  pub port : ℕ
  pub soft_deleted_at : ℕ

unfoldable pub host_local : String
host_local = "local"

-- The app of this name, as `App` answers.
unfoldable pub find_app : List App → String → Option App
find_app [] name = none
find_app (a ∷ apps) name =
    let rest = find_app apps name in if str_eq a.name name then some a else rest
