-- ===== src/Limits/Tests.antt =====
-- Limits on concrete users and apps.
use hostit.Common.{
  ◌≡◌, refl, String, List, [], ◌∷◌, Option, none, some, true, false, arith, str_eq, if◌then◌else◌,
}
use hostit.Common.Int.{ℤ, pos, ◌+ℤ◌, add64, wrap64}
use hostit.Store.{App, User, role_user, active, find_app}
use hostit.Auth.{Caller, is_admin, user_id}
use hostit.Limits.{
  UserLimits, limits, limits_from, limits_over, defaults, read_defaults, setting_int, value_or,
  parsed, positive_or, effective_app_limits,
}
use hostit.Limits.Update.{
  update_app_limits, Control, ok, ◌>>=◌, require, found_or, may_act, owned_app, owner_app, Patch,
  patch, patch_pos, reserved_of, pool_reserved, within, check_owner, check_pool_fits, updated,
  handle_app_limits_update,
}
use hostit.Limits.Sums.{named_once}
use hostit.Limits.Totals.{PoolsHold, AreModest, limits_update_fits}

abbrev app_named : String → ℤ → App
app_named name memory = record {
  id = name;
  name = name;
  host = "";
  owner_id = "u1";
  powered_off = false;
  archived = false;
  private = false;
  memory_limit_mb = memory;
  disk_limit_mb = pos 0;
  cpu_milli = pos 0;
  port = 10001;
  soft_deleted_at = 0;
}

abbrev two_apps : List App
two_apps = app_named "blog" (pos 0) ∷ app_named "shop" (pos 300) ∷ []

abbrev bob : User
bob = record {
  id = "u1";
  email = "bob@example.com";
  name = "Bob";
  role = role_user;
  status = active;
  app_limit = none;
  memory_mb = none;
  disk_mb = none;
  memory_pool_mb = some (pos 1000);
  disk_pool_mb = none;
}

abbrev users : String → Option User
users i = if str_eq i "u1" then some bob else none

abbrev before : Control
before = record {
  settings = some [];
  user_by_id = users;
  apps = two_apps;
  collaborators = [];
  recorded = [];
  writable = true;
}

abbrev as_bob : Caller
as_bob = record { user = some bob; global_admin = false; app_scope = ""; via_cookie = true }

abbrev to_700 : Patch
to_700 = record { memory_mb = pos 700; disk_mb = pos 0; cpu_milli = pos 0 }

abbrev after : Control
after = updated before "blog" (pos 700) (pos 0) (pos 0)

-- Bob raises one app to the 700 MB that the other leaves of the pool of 1000.
raised : handle_app_limits_update before as_bob "blog" (some to_700) ≡ ok after
unfolding handle_app_limits_update ◌>>=◌ require found_or owner_app owned_app may_act find_app
    is_admin user_id patch patch_pos check_pool_fits check_owner pool_reserved reserved_of within
    limits limits_from limits_over defaults read_defaults setting_int value_or parsed positive_or
    effective_app_limits ◌+ℤ◌ add64 wrap64
raised = refl

abbrev bobs_limits : UserLimits
bobs_limits = record {
  app_limit = pos 3;
  memory_mb = pos 128;
  disk_mb = pos 256;
  memory_pool_mb = pos 1000;
  disk_pool_mb = pos 4096;
}

bob_limited : limits (some []) bob ≡ some bobs_limits
unfolding limits limits_from limits_over defaults read_defaults setting_int value_or parsed
    positive_or
bob_limited = refl

after_modest : AreModest bobs_limits after.apps
unfolding updated update_app_limits effective_app_limits
after_modest = (
  ((refl, omega arith), ((refl, omega arith), tt)),
  ((refl, omega arith), ((refl, omega arith), tt)),
)

limits_update_fits_example : PoolsHold bobs_limits "u1" after.apps
limits_update_fits_example =
    limits_update_fits before after as_bob "blog" (some to_700) (app_named "blog" (pos 0)) bob
      bobs_limits raised (unfold find_app in refl) refl refl bob_limited (unfold named_once in refl)
      (omega arith) after_modest
