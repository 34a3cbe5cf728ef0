-- ===== src/Apps/SoftDelete.antt =====
-- Soft deletion, of control/softdelete.go: an app is stamped, can be restored, and is removed for good
-- by a sweep once its grace is over, or at once by an administrator. A time is its nanoseconds
-- since Go's zero time, and 0 that time itself.
pub mod Sweep
use hostit.Common.{
  ℕ, ◌+◌, ◌-◌, ◌*◌, ◌/◌, ◌≤◌, ◌<◌, String, Bool, true, false, List, [], ◌∷◌, Option, none, some,
  ◌≡◌, ◌≢◌, refl, ap, sym, ◌∙◌, inl, inr, arith, Bool-cases, ◌&&◌, ◌||◌, not, ◌==◌, ltb, some_inj,
  if◌then◌else◌, str_eq, str_eq_self, str_eq→eq,
}
use text.Mathlib.TextEquality.{eq_iff}
use hostit.Store.{App, find_app}
use hostit.Apps.Create.{remove_app}

-- `SetAppSoftDeleted`, when the row is there.
unfoldable pub set_soft_deleted : String → ℕ → List App → List App
set_soft_deleted name at [] = []
set_soft_deleted name at (a ∷ apps) =
    let rest = set_soft_deleted name at apps in
    if str_eq a.name name then record a { soft_deleted_at = at } ∷ rest else a ∷ rest

-- The store keeps whole seconds.
abbrev pub at_second : ℕ → ℕ
at_second now = now / 1_000_000_000 * 1_000_000_000

unfoldable pub stamp_found : Option App → String → ℕ → List App → Option (List App)
unfolding set_soft_deleted
stamp_found none name at apps = none
stamp_found (some a) name at apps = some (set_soft_deleted name at apps)

-- `SoftDeleteApp`; whether the node could stop the app makes no difference.
unfoldable pub soft_delete_app : ℕ → String → List App → Option (List App)
unfolding stamp_found
soft_delete_app now name apps = stamp_found (find_app apps name) name (at_second now) apps

-- `RestoreSoftDeleted`
unfoldable pub restore_soft_deleted : String → List App → Option (List App)
unfolding stamp_found
restore_soft_deleted name apps = stamp_found (find_app apps name) name 0 apps

-- Whether the sweep takes an app, by the row that it has read.
unfoldable pub is_expired : ℕ → ℕ → App → Bool
is_expired now grace a = not (a.soft_deleted_at == 0) && not (ltb (now - grace) a.soft_deleted_at)

module _ (deletes : String → Bool) (now grace : ℕ) where
  -- `DeleteApp`, by name, which may fail.
  unfoldable pub reap_one : App → List App → List App
  reap_one a apps =
      if is_expired now grace a && deletes a.name then remove_app a.name apps else apps

  -- The loop over the rows that were read, on the rows that there are.
  unfoldable pub reap_each : List App → List App → List App
  unfolding reap_one
  reap_each [] apps = apps
  reap_each (a ∷ read) apps = reap_each read (reap_one a apps)

  -- `ReapSoftDeleted`, with nothing between the reading and the loop.
  unfoldable pub reap_soft_deleted : List App → List App
  unfolding reap_each
  reap_soft_deleted apps = reap_each apps apps

  -- Whether a row with this name was read that the sweep takes.
  unfoldable pub is_reaped : List App → String → Bool
  is_reaped [] name = false
  is_reaped (a ∷ read) name =
      (str_eq a.name name && (is_expired now grace a && deletes a.name)) || is_reaped read name

-- `handleAppsPurge`: the rows that are left, none if it is refused.
unfoldable pub purge_found : Bool → Option App → List App → Option (List App)
purge_found works none apps = none
purge_found works (some a) apps =
    if a.soft_deleted_at == 0 then none else if works then some (remove_app a.name apps) else none

unfoldable pub handle_apps_purge : Bool → String → List App → Option (List App)
unfolding purge_found
handle_apps_purge works name apps = purge_found works (find_app apps name) apps
