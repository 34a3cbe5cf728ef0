-- ===== src/Connections.antt =====
-- control/connections.go, control/connections/crypto.go and oauth.go, store/connection.go: the
-- credentials that a user attaches once and lends to apps. Here are the rows and the store's
-- operations on them. A row keeps no label and no time of creation; a read of the store does not
-- fail, a write may.
pub mod Sealing
pub mod Custody
pub mod Serving
pub mod Rotation
pub mod Lending
pub mod Freshness
pub mod Races
pub mod Tests
use hostit.Common.{
  ℕ, String, Bool, true, false, List, [], ◌∷◌, Option, none, some, ◌&&◌, ◌||◌, not, if◌then◌else◌,
  str_eq, any,
}

-- `Kind` of a row: how its credential is used
pub data Kind : Type 0 where
  oauth static mcp : Kind

-- `Status` of a row: ConnectionStatusOK or ConnectionStatusNeedsReconnect
pub data Health : Type 0 where
  status_ok status_needs_reconnect : Health

pub record Connection : Type 0 where
  pub id : String
  pub user_id : String
  pub slug : String
  pub provider : String
  pub kind : Kind
  pub secret : String
  pub scopes : String
  pub meta : String
  pub status : Health

-- A row of `app_connection`: this app may use this connection.
pub record Grant : Type 0 where
  pub app_id : String
  pub connection_id : String

-- The columns of an app that the queries read.
pub record Borrower : Type 0 where
  pub id : String
  pub owner_id : String

abbrev pub is_mcp : Kind → Bool
is_mcp mcp = true
is_mcp oauth = false
is_mcp static = false

abbrev pub is_static : Kind → Bool
is_static static = true
is_static oauth = false
is_static mcp = false

abbrev pub is_oauth : Kind → Bool
is_oauth oauth = true
is_oauth static = false
is_oauth mcp = false

-- `ConnectionBySlug`
unfoldable pub connection_by_slug : List Connection → String → String → Option Connection
connection_by_slug [] user_id slug = none
connection_by_slug (c ∷ cs) user_id slug =
    let rest = connection_by_slug cs user_id slug in
    if str_eq c.user_id user_id && str_eq c.slug slug then some c else rest

-- `Connection`
unfoldable pub connection_of : List Connection → String → Option Connection
connection_of [] id = none
connection_of (c ∷ cs) id =
    let rest = connection_of cs id in if str_eq c.id id then some c else rest

abbrev pub is_grant : String → String → Grant → Bool
is_grant app_id connection_id g = str_eq g.app_id app_id && str_eq g.connection_id connection_id

unfoldable pub has_grant : List Grant → String → String → Bool
has_grant grants app_id connection_id = any (is_grant app_id connection_id) grants

-- `AppConnections`: what the app was granted of its owner's connections
unfoldable pub app_connections : List Connection → List Grant → Borrower → List Connection
unfolding has_grant
app_connections [] grants a = []
app_connections (c ∷ cs) grants a =
    let rest = app_connections cs grants a in
    if has_grant grants a.id c.id && str_eq c.user_id a.owner_id then c ∷ rest else rest

unfoldable pub granted_to : List Connection → String → Bool
granted_to granted id = any (λ c. str_eq c.id id) granted

-- `GrantConnection`, `INSERT OR IGNORE`
unfoldable pub grant_connection : String → String → List Grant → List Grant
unfolding has_grant
grant_connection app_id connection_id grants =
    if has_grant grants app_id connection_id
    then grants
    else record { app_id = app_id; connection_id = connection_id } ∷ grants

-- `RevokeConnection`
unfoldable pub revoke_connection : String → String → List Grant → List Grant
revoke_connection app_id connection_id [] = []
revoke_connection app_id connection_id (g ∷ gs) =
    let rest = revoke_connection app_id connection_id gs in
    if is_grant app_id connection_id g then rest else g ∷ rest

unfoldable pub delete_grants : String → List Grant → List Grant
delete_grants connection_id [] = []
delete_grants connection_id (g ∷ gs) =
    let rest = delete_grants connection_id gs in
    if str_eq g.connection_id connection_id then rest else g ∷ rest

unfoldable pub delete_row : String → List Connection → List Connection
delete_row id [] = []
delete_row id (c ∷ cs) = let rest = delete_row id cs in if str_eq c.id id then rest else c ∷ rest

-- `UPDATE connection SET … WHERE id = ?`
unfoldable pub update_row : (Connection → Connection) → String → List Connection → List Connection
update_row f id [] = []
update_row f id (c ∷ cs) = (if str_eq c.id id then f c else c) ∷ update_row f id cs

unfoldable pub has_row : List Connection → String → Bool
has_row cs id = any (λ c. str_eq c.id id) cs

-- What `UpdateConnectionSecret`, `UpdateConnectionSecretOnly` and `SetConnectionStatus` set
unfoldable pub with_secret : String → String → String → Connection → Connection
with_secret secret scopes meta c = record c { secret = secret; scopes = scopes; meta = meta }

unfoldable pub with_secret_only : String → Connection → Connection
with_secret_only secret c = record c { secret = secret }

unfoldable pub with_status : Health → Connection → Connection
with_status status c = record c { status = status }
