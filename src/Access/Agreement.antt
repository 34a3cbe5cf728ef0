-- ===== src/Access/Agreement.antt =====
-- The proxies' sets and control's live decision agree.
use hostit.Common.{
  String, Bool, true, false, List, [], ◌∷◌, ◌++◌, Option, none, some, ◌&&◌, ◌||◌, str_eq, contains,
  ◌≡◌, inl, inr, refl, ap, subst, arith, Bool-cases, str_eq→eq, All, map, str_eq_self, sym,
  str_eq_comm,
}
use mathlib.Core.List.{Memᴰ}
use hostit.Store.{User, App}
use hostit.Auth.{Caller, is_admin, is_active, is_role_admin, is_status_active}
use hostit.Access.{
  Grants, holds, find_user, may_view_app, is_active_user, active_grants, owner_row, access_set,
  active_admins,
}
use hostit.Access.Proxy.{allowed}

-- Ids are primary keys.
abbrev pub HasUniqueUsers : List User → Type 0
HasUniqueUsers [] = Unit
HasUniqueUsers (u ∷ users) = All (λ v. str_eq v.id u.id ≡ false) users × HasUniqueUsers users

abbrev pub HasUniqueApps : List App → Type 0
HasUniqueApps [] = Unit
HasUniqueApps (a ∷ apps) = All (λ b. str_eq b.id a.id ≡ false) apps × HasUniqueApps apps

contains-append :
    (xs ys : List String) (s : String) → contains (xs ++ ys) s ≡ (contains xs s || contains ys s)
contains-append [] ys s = refl
contains-append (x ∷ xs) ys s = ground (arith, contains-append xs ys s)

contains-active_grants :
    (users : List User) (rows : List (String × String)) (app_id id : String)
    → contains (active_grants users rows app_id) id
      ≡ (holds rows app_id id && is_active_user (find_user users id))
unfolding active_grants holds
contains-active_grants users [] app_id id = refl
contains-active_grants users ((a, w) ∷ rows) app_id id = elim (Bool-cases (str_eq w id)) [
  | inl same ↦ ground (
    arith,
    contains-active_grants users rows app_id id,
    ap (λ i. is_active_user (find_user users i)) (str_eq→eq w id same),
  )
  | inr other ↦ ground (arith, contains-active_grants users rows app_id id)
]

is_active_admin : Option User → Bool
is_active_admin none = false
is_active_admin (some u) = is_role_admin u.role && is_status_active u.status

active_admins_absent :
    (users : List User) (id : String)
    → All (λ v. str_eq v.id id ≡ false) users
    → contains (active_admins users) id ≡ false
unfolding active_admins
active_admins_absent [] id h = refl
active_admins_absent (u ∷ users) id (k, h) = ground (arith, active_admins_absent users id h)

contains-active_admins :
    (users : List User) (id : String)
    → HasUniqueUsers users
    → contains (active_admins users) id ≡ is_active_admin (find_user users id)
unfolding active_admins find_user is_active_admin
contains-active_admins [] id h = refl
contains-active_admins (u ∷ users) id (k, h) = elim (Bool-cases (str_eq u.id id)) [
  | inl same ↦ ground (arith, active_admins_absent users id (rw (← str_eq→eq u.id id same) k))
  | inr other ↦ ground (arith, contains-active_admins users id h)
]

holds-absent :
    (apps : List App) (app_id id : String)
    → All (λ b. str_eq b.id app_id ≡ false) apps
    → holds (map owner_row apps) app_id id ≡ false
unfolding holds
holds-absent [] app_id id h = refl
holds-absent (b ∷ apps) app_id id (k, h) = ground (arith, holds-absent apps app_id id h)

All-mem : (P : App → Type 0) (a : App) (apps : List App) → All P apps → Memᴰ a apps → P a
All-mem P a [] h m = elim m [ ]
All-mem P a (b ∷ apps) (p, h) (Memᴰ.head e) = subst P (sym e) p
All-mem P a (b ∷ apps) (p, h) (Memᴰ.tail m) = All-mem P a apps h m

-- The owner table has one row for an app.
holds-owner :
    (a : App) (id : String) (apps : List App)
    → HasUniqueApps apps
    → Memᴰ a apps
    → holds (map owner_row apps) a.id id ≡ str_eq a.owner_id id
unfolding holds
holds-owner a id [] h m = elim m [ ]
holds-owner a id (b ∷ apps) (k, h) (Memᴰ.head e) =
    let here : holds (map owner_row (b ∷ apps)) b.id id ≡ str_eq b.owner_id id =
      ground (arith, str_eq_self b.id, holds-absent apps b.id id k) in
    rw e here
holds-owner a id (b ∷ apps) (k, h) (Memᴰ.tail m) = ground (
  arith,
  holds-owner a id apps h m,
  All-mem (λ c. str_eq c.id b.id ≡ false) a apps k m,
  str_eq_comm a.id b.id,
)

-- The caller that `callerFromGrant` makes of a user.
abbrev pub grant_caller : User → Caller
grant_caller u = record { user = some u; global_admin = false; app_scope = ""; via_cookie = true }

-- A proxy and control let the same users open a private app: whether a user's id is in the set that
-- was resolved for the app, or among the administrators, is what control decides for the caller
-- that the user's grant names. The ids of users and of apps are unique in the store.
pub allowed-eq-may_view_app :
    (g : Grants) (apps : List App) (a : App) (u : User)
    → HasUniqueUsers g.users
    → HasUniqueApps apps
    → Memᴰ a apps
    → find_user g.users u.id ≡ some u
    → allowed u.id (access_set g apps a.id) (active_admins g.users)
      ≡ may_view_app g (grant_caller u) a
unfolding access_set may_view_app is_active_user is_active_admin is_admin is_active allowed
allowed-eq-may_view_app g apps a u users_once apps_once listed known = ground (
  arith,
  contains-append (active_grants g.users g.collaborators a.id)
      (active_grants g.users g.viewers a.id ++ active_grants g.users (map owner_row apps) a.id)
      u.id,
  contains-append (active_grants g.users g.viewers a.id)
      (active_grants g.users (map owner_row apps) a.id) u.id,
  contains-active_grants g.users g.collaborators a.id u.id,
  contains-active_grants g.users g.viewers a.id u.id,
  contains-active_grants g.users (map owner_row apps) a.id u.id,
  contains-active_admins g.users u.id users_once,
  holds-owner a u.id apps apps_once listed,
)
