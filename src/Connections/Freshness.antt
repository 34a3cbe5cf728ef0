-- ===== src/Connections/Freshness.antt =====
-- How long a token that an app gets still lives.
pub mod Calls
pub mod Served
use hostit.Common.{
  ℕ, ◌+◌, ◌-◌, ◌≤◌, String, Bool, true, false, List, [], ◌∷◌, Option, none, some, ◌≡◌, ◌⊎◌, inl,
  inr, refl, ap, sym, subst, ◌∙◌, arith, Bool-cases, Option-cases, if_elim, some_inj, ◌&&◌, ◌||◌,
  not, ltb, ◌==◌, if◌then◌else◌, str_eq, lookup, All,
}
use hostit.Connections.{
  Connection, Health, status_ok, status_needs_reconnect, Borrower, is_mcp, is_static, is_oauth,
  connection_by_slug, has_grant,
}
use hostit.Connections.Custody.{
  Token, CachedToken, Manager, Provider, Posted, post_failed, post_refused, posted, Probed,
  no_answer, rejected, accepted, World, Answer, given, refused, second, token_cache_margin,
  refreshable, seal_for, resealed, write_secret, open_found, open_credential, live_entry,
  cached_token_for, drop_cached, drop_dead, cache_until, cache, write_status, set_status, written,
  aad_of, reconnect_with, reconnect, exchange, save_with, save_oauth, or_scopes, oauth_token_meta,
  new_connection, add_connection, expire_cached_for,
}
use hostit.Connections.Serving.{
  Refreshed, minted, reauth, refresh_failed, lifetime, refreshed, refresh, or_same, keep_rotated,
  store_refreshed, refresh_and_store, cached_or_refreshed, token_opened, token_by, token_found,
  token_for, refresh_opened, health_of, probe_opened, verify_long_lived, refresh_by, refresh_one,
  refresh_each, refresh_due, health_after, verify_opened, verify_by, verify_found, verify,
  cache_fresh_for, plain_token, connection_refresh_horizon,
}
use hostit.Connections.Sealing.{open_legacy_tolerant}
use hostit.Connections.Lending.{token_for-missing, token_for-found}

-- An entry is dropped the margin before its token expires.
abbrev pub HasMargin : CachedToken → Type 0
HasMargin e = e.token.expires_at ≡ some (e.expires + token_cache_margin)

abbrev pub AllHaveMargin : List (String × CachedToken) → Type 0
AllHaveMargin [] = Unit
AllHaveMargin ((id, e) ∷ es) = HasMargin e × AllHaveMargin es

pub drop_cached-AllHaveMargin :
    (id : String) (es : List (String × CachedToken))
    → AllHaveMargin es
    → AllHaveMargin (drop_cached id es)
unfolding drop_cached
drop_cached-AllHaveMargin id [] h = h
drop_cached-AllHaveMargin id ((j, e) ∷ es) h = elim (Bool-cases (str_eq j id)) [
  | inl gone ↦ rw gone (drop_cached-AllHaveMargin id es h.1)
  | inr left ↦ rw left (h.0, drop_cached-AllHaveMargin id es h.1)
]

pub drop_dead-AllHaveMargin :
    (now : ℕ) (es : List (String × CachedToken))
    → AllHaveMargin es
    → AllHaveMargin (drop_dead now es)
unfolding drop_dead
drop_dead-AllHaveMargin now [] h = h
drop_dead-AllHaveMargin now ((j, e) ∷ es) h = elim (Bool-cases (ltb e.expires now)) [
  | inl gone ↦ rw gone (drop_dead-AllHaveMargin now es h.1)
  | inr left ↦ rw left (h.0, drop_dead-AllHaveMargin now es h.1)
]

pub lookup-HasMargin :
    (id : String) (es : List (String × CachedToken)) {e : CachedToken}
    → AllHaveMargin es
    → lookup id es ≡ some e
    → HasMargin e
lookup-HasMargin id [] h found = cc
lookup-HasMargin id ((j, d) ∷ es) {e} h found = elim (Bool-cases (str_eq j id)) [
  | inl here ↦ subst HasMargin (some_inj (rw here at found)) h.0
  | inr there ↦ lookup-HasMargin id es h.1 (rw there at found)
]

abbrev pub IsCacheFresh : Manager → Type 0
IsCacheFresh m = AllHaveMargin m.cached

abbrev pub Kept : Manager → Manager → Type 0
Kept m m' = m'.cached ≡ m.cached

pub Kept-AllHaveMargin :
    {es es' : List (String × CachedToken)} → es' ≡ es → AllHaveMargin es → AllHaveMargin es'
Kept-AllHaveMargin k h = subst AllHaveMargin (sym k) h

pub write_secret-Kept :
    (w : World) (m : Manager) (id secret scopes meta : String) {m' : Manager}
    → write_secret w m id secret scopes meta ≡ some m'
    → Kept m m'
unfolding write_secret
write_secret-Kept w m id secret scopes meta e = ground arith

pub resealed-Kept :
    (w : World) (m : Manager) (conn : Connection) (sealed id secret scopes meta : String)
    → Kept m (resealed conn sealed m (write_secret w m id secret scopes meta)).1
unfolding resealed
resealed-Kept w m conn sealed id secret scopes meta =
    elim (Option-cases (write_secret w m id secret scopes meta)) [
      | inl failed ↦ rw failed refl
      | inr (m', done) ↦ rw done (write_secret-Kept w m id secret scopes meta done)
    ]

pub open_found-Kept :
    (w : World) (m : Manager) (conn : Connection) (o : Option (String × Bool))
    → Kept m (open_found w m conn o).2
unfolding open_found
open_found-Kept w m conn none = refl
open_found-Kept w m conn (some (secret, true)) = refl
open_found-Kept w m conn (some (secret, false)) =
    let (drew, sealed) = seal_for w m conn secret in
    resealed-Kept w drew conn sealed conn.id sealed conn.scopes conn.meta

pub open_credential-Kept :
    (w : World) (m : Manager) (conn : Connection) → Kept m (open_credential w m conn).2
unfolding open_credential
open_credential-Kept w m conn =
    open_found-Kept w m conn (open_legacy_tolerant w.cipher m.key conn.secret (aad_of conn))

pub write_status-Kept :
    (w : World) (m : Manager) (id : String) (s : Health) → Kept m (write_status w m id s)
unfolding write_status
write_status-Kept w m id s = ground arith

pub set_status-Kept :
    (w : World) (m : Manager) (conn : Connection) (s : Health) → Kept m (set_status w m conn s)
unfolding set_status
set_status-Kept w m conn s = ground (arith, write_status-Kept w m conn.id s)

pub cache_until-IsCacheFresh :
    (w : World) (m : Manager) (conn : Connection) (tok : Token) (x : Option ℕ)
    → tok.expires_at ≡ x
    → IsCacheFresh m
    → IsCacheFresh (cache_until w m conn tok x)
unfolding cache_until
cache_until-IsCacheFresh w m conn tok none e h = h
cache_until-IsCacheFresh w m conn tok (some x) e h =
    elim (Bool-cases (ltb w.now (x - token_cache_margin))) [
      | inr near ↦ rw near h
      | inl far ↦ rw far (
        e ∙ ap some (ground arith),
        drop_cached-AllHaveMargin conn.id _ (drop_dead-AllHaveMargin w.now m.cached h),
      )
    ]

pub or_same-Kept :
    (w : World) (m : Manager) (id secret scopes meta : String)
    → Kept m (or_same m (write_secret w m id secret scopes meta))
unfolding or_same
or_same-Kept w m id secret scopes meta =
    elim (Option-cases (write_secret w m id secret scopes meta)) [
      | inl failed ↦ rw failed refl
      | inr (m', done) ↦ rw done (write_secret-Kept w m id secret scopes meta done)
    ]

pub keep_rotated-Kept :
    (w : World) (m : Manager) (conn : Connection) (rotated : String)
    → Kept m (keep_rotated w m conn rotated).1
unfolding keep_rotated
keep_rotated-Kept w m conn rotated =
    let (drew, sealed) = seal_for w m conn rotated in
    elim (Bool-cases (str_eq rotated "")) [
      | inl same ↦ rw same refl
      | inr new ↦ rw new (or_same-Kept w drew conn.id sealed conn.scopes conn.meta)
    ]

pub store_refreshed-IsCacheFresh :
    (w : World) (m : Manager) (conn : Connection) (r : Refreshed)
    → IsCacheFresh m
    → IsCacheFresh (store_refreshed w m conn r).1
unfolding store_refreshed cache
store_refreshed-IsCacheFresh w m conn refresh_failed h = h
store_refreshed-IsCacheFresh w m conn reauth h =
    Kept-AllHaveMargin (set_status-Kept w m conn status_needs_reconnect) h
store_refreshed-IsCacheFresh w m conn (minted tok rotated) h =
    let (conn', m') = keep_rotated w m conn rotated in
    cache_until-IsCacheFresh w (set_status w m' conn' status_ok) conn' tok tok.expires_at refl (
      Kept-AllHaveMargin (set_status-Kept w m' conn' status_ok ∙ keep_rotated-Kept w m conn rotated)
        h)

pub refresh_and_store-IsCacheFresh :
    (w : World) (m : Manager) (conn : Connection) (p : Provider) (secret : String)
    → IsCacheFresh m
    → IsCacheFresh (refresh_and_store w m conn p secret).1
unfolding refresh_and_store
refresh_and_store-IsCacheFresh w m conn p secret =
    store_refreshed-IsCacheFresh w m conn (refresh w conn.user_id p secret)
