-- ===== src/Connections/Custody.antt =====
-- control/connections.go and control/connections/oauth.go: the manager's state, opening and
-- re-sealing a credential, the cache of access tokens, and what a consent stores.
use hostit.Common.{
  ℕ, suc, ◌-◌, ◌*◌, String, Bool, true, false, List, [], ◌∷◌, Option, none, some, ◌&&◌, ◌||◌, not,
  ltb, if◌then◌else◌, str_eq, lookup,
}
use hostit.Common.Int.{ℤ}
use hostit.Connections.{
  Connection, Grant, Health, status_ok, status_needs_reconnect, oauth, update_row, has_row,
  with_secret, with_status, connection_by_slug,
}
use hostit.Connections.Sealing.{Cipher, seal, binding, open_legacy_tolerant}

-- An access token as an app gets it; `none` where the provider names no expiry.
pub record Token : Type 0 where
  pub provider : String
  pub access_token : String
  pub meta : String
  pub expires_at : Option ℕ

pub record CachedToken : Type 0 where
  pub token : Token
  pub minted_from : String
  pub expires : ℕ

-- `connectionManager` with the store's rows; `drawn` counts the nonces that were drawn.
pub record Manager : Type 0 where
  pub connections : List Connection
  pub grants : List Grant
  pub cached : List (String × CachedToken)
  pub key : String
  pub drawn : ℕ

-- What the code here reads of a provider.
pub record Provider : Type 0 where
  pub name : String
  pub long_lived : Bool
  pub hybrid : Bool
  pub user_token : Bool
  pub has_probe : Bool
  pub default_scopes : String

pub record TokenResponse : Type 0 where
  pub access_token : String
  pub user_access_token : String
  pub refresh_token : String
  pub expires_in : ℤ

-- `postToken`: the request failed, the provider refused with an error of its own, or it answered
pub data Posted : Type 0 where
  post_failed : Posted
  post_refused : Posted
  posted : TokenResponse → Posted

-- A probe of a long-lived token: no answer, 401 or 403, or any other answer.
pub data Probed : Type 0 where
  no_answer rejected accepted : Probed

-- What a call meets: the cipher, the clock in nanoseconds, the providers as they resolve for a
-- user, the answers of a provider to a user's client, and which writes of a row succeed.
pub record World : Type 0 where
  pub cipher : Cipher
  pub now : ℕ
  pub provider_for : String → String → Option Provider
  pub post_code : String → Provider → String → Posted
  pub post_refresh : String → Provider → String → Posted
  pub probe : Provider → String → Probed
  pub secret_writes : String → Bool
  pub status_writes : String → Bool

pub data Refusal : Type 0 where
  not_connected not_granted unknown_provider not_mcp_credential cannot_open : Refusal
  reauth_required provider_failed not_found slug_exists : Refusal

pub data Answer {ℓ} (A : Type ℓ) : Type ℓ where
  given : A → Answer A
  refused : Refusal → Answer A

abbrev pub second : ℕ
second = 1000000000

unfoldable pub token_cache_margin : ℕ
token_cache_margin = 2 * 60 * second

unfoldable pub meta_oauth_long_lived : String
meta_oauth_long_lived = "long-lived"

-- `oauthTokenMeta`
unfoldable pub oauth_token_meta : Provider → Bool → String
unfolding meta_oauth_long_lived
oauth_token_meta p is_refreshable =
    if p.hybrid && not is_refreshable then meta_oauth_long_lived else ""

-- `refreshable`
unfoldable pub refreshable : Connection → Provider → Bool
unfolding meta_oauth_long_lived
refreshable conn p =
    if p.long_lived
    then false
    else if p.hybrid
    then not (str_eq conn.meta meta_oauth_long_lived)
    else true

unfoldable pub aad_of : Connection → String
unfolding binding
aad_of conn = binding conn.user_id conn.id

-- `Seal`, which draws a nonce
unfoldable pub seal_for : World → Manager → Connection → String → Manager × String
seal_for w m conn plaintext = (
  record m { drawn = suc m.drawn },
  seal w.cipher (w.cipher.draws m.drawn) m.key plaintext (aad_of conn),
)

-- `UpdateConnectionSecret`: an update of no row is an error
unfoldable pub write_secret : World → Manager → String → String → String → String → Option Manager
unfolding update_row has_row with_secret
write_secret w m id secret scopes meta =
    if w.secret_writes id && has_row m.connections id
    then some
        (record m { connections = update_row (with_secret secret scopes meta) id m.connections })
    else none

unfoldable pub resealed : Connection → String → Manager → Option Manager → Connection × Manager
resealed conn sealed m none = (conn, m)
resealed conn sealed m (some m') = (record conn { secret = sealed }, m')

unfoldable pub open_found :
    World → Manager → Connection → Option (String × Bool) → Option String × Connection × Manager
unfolding resealed seal_for write_secret
open_found w m conn none = (none, conn, m)
open_found w m conn (some (secret, true)) = (some secret, conn, m)
open_found w m conn (some (secret, false)) =
    let (drew, sealed) = seal_for w m conn secret in
    let (conn', m') =
      resealed conn sealed drew (write_secret w drew conn.id sealed conn.scopes conn.meta) in
    (some secret, conn', m')

-- `open`: the credential, and the row and the manager after a credential without a binding was
-- sealed again with one
unfoldable pub open_credential : World → Manager → Connection → Option String × Connection × Manager
unfolding open_found
open_credential w m conn =
    open_found w m conn (open_legacy_tolerant w.cipher m.key conn.secret (aad_of conn))

unfoldable pub live_entry : ℕ → Connection → Option CachedToken → Option Token
live_entry now conn none = none
live_entry now conn (some e) =
    if not (str_eq e.minted_from conn.secret) || ltb e.expires now then none else some e.token

-- `cachedTokenFor`
unfoldable pub cached_token_for : World → Manager → Connection → Option Token
unfolding live_entry
cached_token_for w m conn = live_entry w.now conn (lookup conn.id m.cached)

unfoldable pub drop_cached : String → List (String × CachedToken) → List (String × CachedToken)
drop_cached id [] = []
drop_cached id ((j, e) ∷ es) =
    let rest = drop_cached id es in if str_eq j id then rest else (j, e) ∷ rest

unfoldable pub drop_dead : ℕ → List (String × CachedToken) → List (String × CachedToken)
drop_dead now [] = []
drop_dead now ((j, e) ∷ es) =
    let rest = drop_dead now es in if ltb e.expires now then rest else (j, e) ∷ rest

unfoldable pub cache_until : World → Manager → Connection → Token → Option ℕ → Manager
unfolding drop_cached drop_dead
cache_until w m conn tok none = m
cache_until w m conn tok (some expires_at) =
    if not (ltb w.now (expires_at - token_cache_margin)) then m else record m {
      cached =
          (
            conn.id,
            record {
              token = tok;
              minted_from = conn.secret;
              expires = expires_at - token_cache_margin;
            },
          )
          ∷ drop_cached conn.id (drop_dead w.now m.cached);
    }

-- `cache`
unfoldable pub cache : World → Manager → Connection → Token → Manager
unfolding cache_until
cache w m conn tok = cache_until w m conn tok tok.expires_at

-- `expireCachedFor`
unfoldable pub expire_cached_for : Manager → String → Manager
unfolding drop_cached
expire_cached_for m id = record m { cached = drop_cached id m.cached }

abbrev pub same_health : Health → Health → Bool
same_health status_ok status_ok = true
same_health status_needs_reconnect status_needs_reconnect = true
same_health status_ok status_needs_reconnect = false
same_health status_needs_reconnect status_ok = false

-- `SetConnectionStatus` of the store
unfoldable pub write_status : World → Manager → String → Health → Manager
unfolding update_row with_status
write_status w m id status =
    if w.status_writes id
    then record m { connections = update_row (with_status status) id m.connections }
    else m

-- `setStatus`: nothing is written if the row, as it was read, has the status
unfoldable pub set_status : World → Manager → Connection → Health → Manager
unfolding write_status
set_status w m conn status =
    if same_health conn.status status then m else write_status w m conn.id status

-- `keptToken`
unfoldable pub kept_token : Provider → TokenResponse → String
kept_token p res = if p.user_token then res.user_access_token else res.access_token

unfoldable pub kept_or_refused : Provider → TokenResponse → Answer (String × Bool)
unfolding kept_token
kept_or_refused p res =
    if str_eq (kept_token p res) ""
    then refused provider_failed
    else given (kept_token p res, false)

unfoldable pub exchanged : Provider → Posted → Answer (String × Bool)
unfolding kept_or_refused
exchanged p post_failed = refused provider_failed
exchanged p post_refused = refused reauth_required
exchanged p (posted res) =
    if p.long_lived
    then kept_or_refused p res
    else if not (str_eq res.refresh_token "")
    then given (res.refresh_token, true)
    else if p.hybrid
    then kept_or_refused p res
    else refused provider_failed

-- `Exchange`: the credential to store, and whether it is a refresh token
unfoldable pub exchange : World → String → Provider → String → Answer (String × Bool)
unfolding exchanged
exchange w user_id p code = exchanged p (w.post_code user_id p code)

unfoldable pub or_scopes : String → String → String
or_scopes scopes other = if str_eq scopes "" then other else scopes

unfoldable pub written : Manager → Option Manager → Answer (Unit {0}) × Manager
written m none = (refused not_found, m)
written m (some m') = (given tt, m')

unfoldable pub reconnect_with :
    World
    → Manager
    → Connection
    → Provider
    → String
    → Answer (String × Bool)
    → Answer (Unit {0}) × Manager
unfolding seal_for write_secret write_status expire_cached_for oauth_token_meta or_scopes written
reconnect_with w m c p scopes (refused r) = (refused r, m)
reconnect_with w m c p scopes (given (credential, is_refreshable)) =
    let (drew, sealed) = seal_for w m c credential in
    let m1 = write_status w (expire_cached_for drew c.id) c.id status_ok in
    written m1 (
      write_secret w m1 c.id sealed (or_scopes scopes c.scopes)
        (if p.hybrid then oauth_token_meta p is_refreshable else c.meta))

-- `reconnect`
unfoldable pub reconnect :
    World → Manager → Connection → Provider → String → String → Answer (Unit {0}) × Manager
unfolding reconnect_with
reconnect w m c p code scopes = reconnect_with w m c p scopes (exchange w c.user_id p code)

abbrev pub is_none {ℓ} : {A : Type ℓ} → Option A → Bool
is_none none = true
is_none (some a) = false

-- `AddConnection`: the pair of owner and slug is unique, and so is the id
unfoldable pub add_connection : World → Manager → Connection → Answer Connection × Manager
unfolding has_row
add_connection w m c =
    if not (is_none (connection_by_slug m.connections c.user_id c.slug))
      || has_row m.connections c.id
    then (refused slug_exists, m)
    else if w.secret_writes c.id
    then (given c, record m { connections = c ∷ m.connections })
    else (refused not_found, m)

unfoldable pub new_connection : String → String → String → Provider → String → Bool → Connection
unfolding oauth_token_meta or_scopes
new_connection id user_id slug p scopes is_refreshable = record {
  id = id;
  user_id = user_id;
  slug = slug;
  provider = p.name;
  kind = oauth;
  secret = "";
  scopes = or_scopes scopes p.default_scopes;
  meta = oauth_token_meta p is_refreshable;
  status = status_ok;
}

unfoldable pub save_with :
    World
    → Manager
    → String
    → String
    → String
    → Provider
    → String
    → Answer (String × Bool)
    → Answer Connection × Manager
unfolding seal_for add_connection new_connection
save_with w m id user_id slug p scopes (refused r) = (refused r, m)
save_with w m id user_id slug p scopes (given (credential, is_refreshable)) =
    let c = new_connection id user_id slug p scopes is_refreshable in
    let (drew, sealed) = seal_for w m c credential in
    add_connection w drew (record c { secret = sealed })

-- `saveOAuth`, with the id that is drawn for the new row
unfoldable pub save_oauth :
    World
    → Manager
    → String
    → String
    → String
    → Provider
    → String
    → String
    → Answer Connection × Manager
unfolding save_with
save_oauth w m id user_id slug p code scopes =
    save_with w m id user_id slug p scopes (exchange w user_id p code)
