-- ===== src/Connections/Freshness/Calls.antt =====
-- What the manager's calls keep of its cache of access tokens, one call after the other.
use hostit.Common.{
  String, Bool, List, [], ◌∷◌, Option, none, some, ◌≡◌, inl, inr, refl, sym, subst, ◌∙◌, arith,
  Bool-cases, Option-cases, if_elim, not, if◌then◌else◌,
}
use hostit.Connections.{
  Connection, Health, status_ok, status_needs_reconnect, Borrower, is_mcp, is_static, is_oauth,
  connection_by_slug, has_grant,
}
use hostit.Connections.Custody.{
  Token, Manager, Provider, Probed, no_answer, rejected, accepted, World, Answer, given, refused,
  refreshable, seal_for, write_secret, open_credential, cached_token_for, write_status, written,
  reconnect_with, reconnect, exchange, save_with, save_oauth, or_scopes, oauth_token_meta,
  new_connection, add_connection, expire_cached_for,
}
use hostit.Connections.Serving.{
  refresh_and_store, cached_or_refreshed, token_opened, token_by, token_for, refresh_opened,
  health_of, probe_opened, verify_long_lived, refresh_by, refresh_one, refresh_each, refresh_due,
  health_after, verify_opened, verify_by, verify_found, verify, cache_fresh_for,
  connection_refresh_horizon,
}
use hostit.Connections.Lending.{token_for-missing, token_for-found}
use hostit.Connections.Freshness.{
  drop_cached-AllHaveMargin, Kept-AllHaveMargin, write_secret-Kept, open_credential-Kept,
  write_status-Kept, set_status-Kept, refresh_and_store-IsCacheFresh, IsCacheFresh, Kept,
}

cached_or_refreshed-IsCacheFresh :
    (w : World) (m : Manager) (conn : Connection) (p : Provider) (secret : String)
    (o : Option Token)
    → IsCacheFresh m
    → IsCacheFresh (cached_or_refreshed w m conn p secret o).1
unfolding cached_or_refreshed
cached_or_refreshed-IsCacheFresh w m conn p secret (some tok) h = h
cached_or_refreshed-IsCacheFresh w m conn p secret none h =
    refresh_and_store-IsCacheFresh w m conn p secret h

token_opened-IsCacheFresh :
    (w : World) (p : Provider) (o : Option String) (conn : Connection) (m : Manager)
    → IsCacheFresh m
    → IsCacheFresh (token_opened w p o conn m).1
unfolding token_opened
token_opened-IsCacheFresh w p none conn m h = h
token_opened-IsCacheFresh w p (some secret) conn m h =
    let fresh_after = λ (r : Answer Token × Manager). IsCacheFresh r.1 in
    if_elim fresh_after (is_static conn.kind) h (
      if_elim fresh_after (not (refreshable conn p)) h
        (cached_or_refreshed-IsCacheFresh w m conn p secret (cached_token_for w m conn) h))

token_by-IsCacheFresh :
    (w : World) (m : Manager) (conn : Connection) (p : Option Provider)
    → IsCacheFresh m
    → IsCacheFresh (token_by w m conn p).1
unfolding token_by
token_by-IsCacheFresh w m conn none h = h
token_by-IsCacheFresh w m conn (some p) h =
    let (secret, conn', m') = open_credential w m conn in
    if_elim (λ (r : Answer Token × Manager). IsCacheFresh r.1) (is_mcp conn.kind) h
      (token_opened-IsCacheFresh w p secret conn' m'
        (Kept-AllHaveMargin (open_credential-Kept w m conn) h))

token_for-IsCacheFresh :
    (w : World) (m : Manager) (a : Borrower) (slug : String)
    → IsCacheFresh m
    → IsCacheFresh (token_for w m a slug).1
token_for-IsCacheFresh w m a slug h =
    elim (Option-cases (connection_by_slug m.connections a.owner_id slug)) [
      | inl missing ↦ rw (token_for-missing w m a slug missing) h
      | inr (c, found) ↦
          rw (token_for-found w m a slug found) (elim (Bool-cases (has_grant m.grants a.id c.id)) [
            | inl lent ↦
                rw lent (token_by-IsCacheFresh w m c (w.provider_for c.user_id c.provider) h)
            | inr withheld ↦ rw withheld h
          ])
    ]

health_of-Kept :
    (w : World) (m : Manager) (conn : Connection) (r : Probed) → Kept m (health_of w m conn r).1
unfolding health_of
health_of-Kept w m conn no_answer = refl
health_of-Kept w m conn rejected = set_status-Kept w m conn status_needs_reconnect
health_of-Kept w m conn accepted = set_status-Kept w m conn status_ok

probe_opened-Kept :
    (w : World) (p : Provider) (o : Option String) (conn : Connection) (m : Manager)
    → Kept m (probe_opened w p o conn m).1
unfolding probe_opened
probe_opened-Kept w p none conn m = refl
probe_opened-Kept w p (some secret) conn m = health_of-Kept w m conn (w.probe p secret)

verify_long_lived-Kept :
    (w : World) (m : Manager) (conn : Connection) (p : Provider)
    → Kept m (verify_long_lived w m conn p).1
unfolding verify_long_lived
verify_long_lived-Kept w m conn p =
    let (secret, conn', m') = open_credential w m conn in
    if_elim (λ (r : Answer Health × Manager). Kept m r.1) (not p.has_probe) refl
      (probe_opened-Kept w p secret conn' m' ∙ open_credential-Kept w m conn)

refresh_opened-IsCacheFresh :
    (w : World) (p : Provider) (o : Option String) (conn : Connection) (m : Manager)
    → IsCacheFresh m
    → IsCacheFresh (refresh_opened w p o conn m)
unfolding refresh_opened
refresh_opened-IsCacheFresh w p none conn m h = h
refresh_opened-IsCacheFresh w p (some secret) conn m h =
    refresh_and_store-IsCacheFresh w m conn p secret h

refresh_by-IsCacheFresh :
    (w : World) (m : Manager) (conn : Connection) (p : Option Provider)
    → IsCacheFresh m
    → IsCacheFresh (refresh_by w m conn p)
unfolding refresh_by
refresh_by-IsCacheFresh w m conn none h = h
refresh_by-IsCacheFresh w m conn (some p) h =
    let (secret, conn', m') = open_credential w m conn in
    if_elim IsCacheFresh (not (refreshable conn p))
      (if_elim IsCacheFresh p.has_probe (Kept-AllHaveMargin (verify_long_lived-Kept w m conn p) h)
        h)
      (if_elim IsCacheFresh (cache_fresh_for w m conn connection_refresh_horizon) h (
        refresh_opened-IsCacheFresh w p secret conn' m'
          (Kept-AllHaveMargin (open_credential-Kept w m conn) h)))

refresh_one-IsCacheFresh :
    (w : World) (m : Manager) (conn : Connection)
    → IsCacheFresh m
    → IsCacheFresh (refresh_one w m conn)
unfolding refresh_one
refresh_one-IsCacheFresh w m conn h =
    if_elim IsCacheFresh (not (is_oauth conn.kind)) h
      (refresh_by-IsCacheFresh w m conn (w.provider_for conn.user_id conn.provider) h)

refresh_each-IsCacheFresh :
    (w : World) (conns : List Connection) (m : Manager)
    → IsCacheFresh m
    → IsCacheFresh (refresh_each w conns m)
unfolding refresh_each
refresh_each-IsCacheFresh w [] m h = h
refresh_each-IsCacheFresh w (conn ∷ conns) m h =
    refresh_each-IsCacheFresh w conns (refresh_one w m conn) (refresh_one-IsCacheFresh w m conn h)

health_after-manager : (r : Answer Token × Manager) → (health_after r).1 ≡ r.1
unfolding health_after
health_after-manager (given tok, m) = refl
health_after-manager (refused why, m) = ground arith

verify_opened-IsCacheFresh :
    (w : World) (p : Provider) (o : Option String) (conn : Connection) (m : Manager)
    → IsCacheFresh m
    → IsCacheFresh (verify_opened w p o conn m).1
unfolding verify_opened
verify_opened-IsCacheFresh w p none conn m h = h
verify_opened-IsCacheFresh w p (some secret) conn m h =
    subst IsCacheFresh (sym (health_after-manager (refresh_and_store w m conn p secret)))
      (refresh_and_store-IsCacheFresh w m conn p secret h)

verify_by-IsCacheFresh :
    (w : World) (m : Manager) (conn : Connection) (p : Option Provider)
    → IsCacheFresh m
    → IsCacheFresh (verify_by w m conn p).1
unfolding verify_by
verify_by-IsCacheFresh w m conn none h = h
verify_by-IsCacheFresh w m conn (some p) h =
    let (secret, conn', m') = open_credential w m conn in
    let fresh_after = λ (r : Answer Health × Manager). IsCacheFresh r.1 in
    if_elim fresh_after (not (is_oauth conn.kind)) h (
      if_elim fresh_after (not (refreshable conn p))
        (Kept-AllHaveMargin (verify_long_lived-Kept w m conn p) h)
        (verify_opened-IsCacheFresh w p secret conn' m'
          (Kept-AllHaveMargin (open_credential-Kept w m conn) h)))

verify-IsCacheFresh :
    (w : World) (m : Manager) (user_id slug : String)
    → IsCacheFresh m
    → IsCacheFresh (verify w m user_id slug).1
unfolding verify verify_found
verify-IsCacheFresh w m user_id slug h =
    elim (Option-cases (connection_by_slug m.connections user_id slug)) [
      | inl missing ↦ rw missing h
      | inr (c, found) ↦
          rw found (verify_by-IsCacheFresh w m c (w.provider_for c.user_id c.provider) h)
    ]

written-Kept :
    (w : World) (m : Manager) (id secret scopes meta : String)
    → Kept m (written m (write_secret w m id secret scopes meta)).1
unfolding written
written-Kept w m id secret scopes meta =
    elim (Option-cases (write_secret w m id secret scopes meta)) [
      | inl failed ↦ rw failed refl
      | inr (m', done) ↦ rw done (write_secret-Kept w m id secret scopes meta done)
    ]

reconnect_with-IsCacheFresh :
    (w : World) (m : Manager) (c : Connection) (p : Provider) (scopes : String)
    (r : Answer (String × Bool))
    → IsCacheFresh m
    → IsCacheFresh (reconnect_with w m c p scopes r).1
unfolding reconnect_with expire_cached_for
reconnect_with-IsCacheFresh w m c p scopes (refused why) h = h
reconnect_with-IsCacheFresh w m c p scopes (given (credential, is_refreshable)) h =
    let (drew, sealed) = seal_for w m c credential in
    let m1 = write_status w (expire_cached_for drew c.id) c.id status_ok in
    Kept-AllHaveMargin
      (written-Kept w m1 c.id sealed (or_scopes scopes c.scopes)
          (if p.hybrid then oauth_token_meta p is_refreshable else c.meta)
        ∙ write_status-Kept w (expire_cached_for drew c.id) c.id status_ok)
      (drop_cached-AllHaveMargin c.id m.cached h)

reconnect-IsCacheFresh :
    (w : World) (m : Manager) (c : Connection) (p : Provider) (code scopes : String)
    → IsCacheFresh m
    → IsCacheFresh (reconnect w m c p code scopes).1
unfolding reconnect
reconnect-IsCacheFresh w m c p code scopes =
    reconnect_with-IsCacheFresh w m c p scopes (exchange w c.user_id p code)

add_connection-Kept : (w : World) (m : Manager) (c : Connection) → Kept m (add_connection w m c).1
unfolding add_connection
add_connection-Kept w m c =
    let kept = λ (r : Answer Connection × Manager). Kept m r.1 in
    if_elim kept _ refl (if_elim kept (w.secret_writes c.id) refl refl)

save_with-Kept :
    (w : World) (m : Manager) (id user_id slug : String) (p : Provider) (scopes : String)
    (r : Answer (String × Bool))
    → Kept m (save_with w m id user_id slug p scopes r).1
unfolding save_with
save_with-Kept w m id user_id slug p scopes (refused why) = refl
save_with-Kept w m id user_id slug p scopes (given (credential, is_refreshable)) =
    let c = new_connection id user_id slug p scopes is_refreshable in
    let (drew, sealed) = seal_for w m c credential in
    add_connection-Kept w drew (record c { secret = sealed })

save_oauth-Kept :
    (w : World) (m : Manager) (id user_id slug : String) (p : Provider) (code scopes : String)
    → Kept m (save_oauth w m id user_id slug p code scopes).1
unfolding save_oauth
save_oauth-Kept w m id user_id slug p code scopes =
    save_with-Kept w m id user_id slug p scopes (exchange w user_id p code)

-- The manager's calls. A consent for a row that was read before it stands for a reconnection.
pub data Call : Type 0 where
  serve : Borrower → String → Call
  sweep : Call
  check : String → String → Call
  consent_again : Connection → Provider → String → String → Call
  consent : String → String → String → Provider → String → String → Call

unfoldable pub call : World → Call → Manager → Manager
unfolding token_for refresh_due verify reconnect save_oauth
call w (serve a slug) m = (token_for w m a slug).1
call w sweep m = refresh_due w m
call w (check user_id slug) m = (verify w m user_id slug).1
call w (consent_again c p code scopes) m = (reconnect w m c p code scopes).1
call w (consent id user_id slug p code scopes) m = (save_oauth w m id user_id slug p code scopes).1

-- Calls one after the other, each in what it meets.
unfoldable pub call_all : List (World × Call) → Manager → Manager
unfolding call
call_all [] m = m
call_all ((w, c) ∷ cs) m = call_all cs (call w c m)

call-IsCacheFresh :
    (w : World) (c : Call) (m : Manager) → IsCacheFresh m → IsCacheFresh (call w c m)
unfolding call refresh_due
call-IsCacheFresh w (serve a slug) m h = token_for-IsCacheFresh w m a slug h
call-IsCacheFresh w sweep m h = refresh_each-IsCacheFresh w m.connections m h
call-IsCacheFresh w (check user_id slug) m h = verify-IsCacheFresh w m user_id slug h
call-IsCacheFresh w (consent_again c p code scopes) m h =
    reconnect-IsCacheFresh w m c p code scopes h
call-IsCacheFresh w (consent id user_id slug p code scopes) m h =
    Kept-AllHaveMargin (save_oauth-Kept w m id user_id slug p code scopes) h

pub call_all-IsCacheFresh :
    (cs : List (World × Call)) (m : Manager) → IsCacheFresh m → IsCacheFresh (call_all cs m)
unfolding call_all
call_all-IsCacheFresh [] m h = h
call_all-IsCacheFresh ((w, c) ∷ cs) m h =
    call_all-IsCacheFresh cs (call w c m) (call-IsCacheFresh w c m h)
