-- ===== src/Limits/Defaults.antt =====
-- The limits that a user and an app end up with: the settings' round trip, and the overrides.
use hostit.Common.{
  ℕ, zero, suc, ◌^◌, ◌<◌, String, Bool, true, false, List, Option, none, some, ◌≡◌, refl, arith,
  atoi-itoa,
}
use hostit.Common.Int.{ℤ, pos, negsuc, is_pos}
use hostit.Store.{App, User, find_app}
use hostit.Limits.{
  UserLimits, Settings, value_or, parsed, setting_int, positive_or, read_defaults, defaults,
  set_each, has_negative, set_defaults, effective_disk_cap_mb, app_limits, limits_of_app,
  limits_of_row,
}

unfoldable pub limits_of_ℕ : ℕ → ℕ → ℕ → ℕ → ℕ → UserLimits
limits_of_ℕ a m d mp dp = record {
  app_limit = pos a;
  memory_mb = pos m;
  disk_mb = pos d;
  memory_pool_mb = pos mp;
  disk_pool_mb = pos dp;
}

has_negative-limits_of_ℕ : (a m d mp dp : ℕ) → has_negative (limits_of_ℕ a m d mp dp) ≡ false
unfolding has_negative limits_of_ℕ
has_negative-limits_of_ℕ a m d mp dp = ground arith

abbrev pub limits_or_default : ℕ → ℕ → ℕ → ℕ → ℕ → UserLimits
limits_or_default a m d mp dp = record {
  app_limit = pos a;
  memory_mb = pos m;
  disk_mb = pos d;
  memory_pool_mb = positive_or (pos mp) (pos 1024);
  disk_pool_mb = positive_or (pos dp) (pos 4096);
}

-- Saving limits none of which is negative succeeds when the store can be written, and the defaults
-- read afterwards are the saved ones, in whatever state the settings were before, but for a pool that
-- was saved as 0, which is read as its built-in size; the limits are below 2 ^ 63.
pub set_defaults-defaults :
    (writable : String → Bool) (s : Settings) (a m d mp dp : ℕ)
    → ((k : String) → writable k ≡ true)
    → a < 2 ^ 63
    → m < 2 ^ 63
    → d < 2 ^ 63
    → mp < 2 ^ 63
    → dp < 2 ^ 63
    → ((set_defaults writable s (limits_of_ℕ a m d mp dp)).1 ≡ true)
      × (defaults (some (set_defaults writable s (limits_of_ℕ a m d mp dp)).0)
          ≡ some (limits_or_default a m d mp dp))
unfolding set_defaults set_each defaults read_defaults limits_of_ℕ setting_int value_or parsed
set_defaults-defaults writable s a m d mp dp w ha hm hd hmp hdp =
    rw (has_negative-limits_of_ℕ a m d mp dp) (
      rw (w "default_app_limit") (
        rw (w "default_memory_mb") (
          rw (w "default_disk_mb") (
            rw (w "default_memory_pool_mb") (
              rw (w "default_disk_pool_mb") (
                rw (atoi-itoa a ha) (
                  rw (atoi-itoa m hm) (
                    rw (atoi-itoa d hd)
                      (rw (atoi-itoa mp hmp) (rw (atoi-itoa dp hdp) (refl, refl)))))))))))

disk_cap_positive : (v : ℤ) → is_pos (effective_disk_cap_mb v) ≡ true
unfolding effective_disk_cap_mb
disk_cap_positive (pos zero) = refl
disk_cap_positive (pos (suc n)) = refl
disk_cap_positive (negsuc n) = refl

disk_cap_of_app :
    (user_by_id : String → Option User) (settings : Option Settings) (l : UserLimits) (a : App)
    → is_pos (limits_of_app user_by_id settings (some l) a).1 ≡ true
unfolding limits_of_app
disk_cap_of_app user_by_id settings l a = disk_cap_positive _

disk_cap_of_row :
    (user_by_id : String → Option User) (s : Settings) (o : Option App) (a : App)
    → o ≡ some a
    → is_pos (limits_of_row user_by_id (some s) o).1 ≡ true
unfolding limits_of_row defaults
disk_cap_of_row user_by_id s none a h = cc
disk_cap_of_row user_by_id s (some b) a h = disk_cap_of_app user_by_id (some s) (read_defaults s) b

-- No app of the store is without a disk cap, whatever its own override and its owner's limits are,
-- 0 and negative ones included, provided that the settings can be read.
pub app_limits_cap_disk :
    (user_by_id : String → Option User) (s : Settings) (apps : List App) (name : String) (a : App)
    → find_app apps name ≡ some a
    → is_pos (app_limits user_by_id (some s) apps name).1 ≡ true
unfolding app_limits
app_limits_cap_disk user_by_id s apps name a h =
    disk_cap_of_row user_by_id s (find_app apps name) a h
