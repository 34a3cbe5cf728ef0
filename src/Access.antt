-- ===== src/Access.antt =====
-- Who may open a private app. Control decides it from live data (control/appaccess.go); a proxy
-- decides it from the sets that control resolved and pushed (control/proxies.go, store/viewer.go,
-- proxy/grant.go). A grant is a signed cookie that names one app and one user; its check is an
-- argument, which answers the two names or fails.
pub mod Control
pub mod Proxy
pub mod Agreement
mod Tests
use hostit.Common.{
  ℕ, suc, ◌+◌, String, Bool, true, false, List, [], ◌∷◌, ◌++◌, Option, none, some, ◌&&◌, ◌||◌, not,
  ◌==◌, leb, if◌then◌else◌, str_eq, contains, map,
}
use hostit.Store.{User, App}
use hostit.Auth.{Caller, is_admin, is_active, is_role_admin, is_status_active}

-- The users and the two grant tables as the store holds them: a grant is an app's id and a user's.
pub record Grants : Type 0 where
  pub users : List User
  pub collaborators : List (String × String)
  pub viewers : List (String × String)

-- `IsAppCollaborator`, `IsAppViewer`
pub holds : List (String × String) → String → String → Bool
holds [] app_id user_id = false
holds ((a, u) ∷ rows) app_id user_id =
    (str_eq a app_id && str_eq u user_id) || holds rows app_id user_id

unfoldable pub find_user : List User → String → Option User
find_user [] id = none
find_user (u ∷ users) id = if str_eq u.id id then some u else find_user users id

may_view_user : Grants → Caller → Option User → App → Bool
may_view_user g c none a = false
may_view_user g c (some u) a =
    is_active c
    && (is_admin c
        || str_eq a.owner_id u.id
        || (holds g.collaborators a.id u.id || holds g.viewers a.id u.id))

-- `mayViewApp`, for a caller and an app that are there.
unfoldable pub may_view_app : Grants → Caller → App → Bool
unfolding may_view_user
may_view_app g c a =
    if c.global_admin
    then true
    else if not (str_eq c.app_scope "")
    then str_eq c.app_scope a.name
    else may_view_user g c c.user a

is_active_user : Option User → Bool
is_active_user none = false
is_active_user (some u) = is_status_active u.status

-- The rows of one app in a join with the active users.
active_grants : List User → List (String × String) → String → List String
active_grants users [] app_id = []
active_grants users ((a, u) ∷ rows) app_id =
    let rest = active_grants users rows app_id in
    if str_eq a app_id && is_active_user (find_user users u) then u ∷ rest else rest

abbrev pub owner_row : App → String × String
owner_row a = (a.id, a.owner_id)

-- `AccessSets`, at the id of one app: its collaborators, its viewers and its owner, as far as their
-- accounts are active. `Routes` sorts the ids, which the proxy does not see.
pub access_set : Grants → List App → String → List String
unfolding active_grants
access_set g apps app_id =
    active_grants g.users g.collaborators app_id
    ++ (active_grants g.users g.viewers app_id ++ active_grants g.users (map owner_row apps) app_id)

-- `ActiveAdmins`
pub active_admins : List User → List String
active_admins [] = []
active_admins (u ∷ users) =
    let rest = active_admins users in
    if is_role_admin u.role && is_status_active u.status then u.id ∷ rest else rest
