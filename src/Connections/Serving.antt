-- ===== src/Connections/Serving.antt =====
-- control/connections.go and control/connections/oauth.go: the token that an app gets over its
-- socket, refreshing in advance, and the check of a connection's health.
use hostit.Common.{
  ℕ, zero, suc, ◌+◌, ◌-◌, ◌*◌, String, Bool, false, List, [], ◌∷◌, Option, none, some, ◌&&◌, not,
  ltb, if◌then◌else◌, str_eq, lookup,
}
use hostit.Common.Int.{ℤ, pos, negsuc, pos_part, neg_part, wrap64}
use hostit.Connections.{
  Connection, Health, status_ok, status_needs_reconnect, Borrower, is_mcp, is_static, is_oauth,
  connection_by_slug, app_connections, granted_to,
}
use hostit.Connections.Custody.{
  Token, CachedToken, Manager, Provider, Posted, post_failed, post_refused, posted, Probed,
  no_answer, rejected, accepted, World, Answer, given, refused, not_connected, not_granted,
  unknown_provider, not_mcp_credential, cannot_open, reauth_required, provider_failed, second,
  refreshable, seal_for, write_secret, open_credential, cached_token_for, cache, set_status,
}

-- `Refresh`: the access token with the rotated refresh token, empty if there is none
pub data Refreshed : Type 0 where
  minted : Token → String → Refreshed
  reauth : Refreshed
  refresh_failed : Refreshed

-- That many seconds in nanoseconds.
abbrev pub seconds : ℤ → ℤ
seconds (pos n) = pos (n * second)
seconds (negsuc n) = negsuc ((n + 1) * second - 1)

-- `time.Duration(res.ExpiresIn) * time.Second`, which wraps around at 64 bits. An answer without a
-- lifetime is taken to live an hour.
unfoldable pub lifetime : ℤ → ℤ
unfolding wrap64
lifetime (pos zero) = pos (3600 * second)
lifetime (pos (suc n)) = wrap64 (seconds (pos (suc n)))
lifetime (negsuc n) = wrap64 (seconds (negsuc n))

-- A time that many nanoseconds later, or earlier; the clock counts from Go's zero time, further back
-- than any duration.
abbrev pub add_time : ℕ → ℤ → ℕ
add_time now d = now + pos_part d - neg_part d

unfoldable pub rotation_of : String → String → String
rotation_of answered spent =
    if not (str_eq answered "") && not (str_eq answered spent) then answered else ""

unfoldable pub refreshed : World → Provider → String → Posted → Refreshed
unfolding lifetime rotation_of
refreshed w p spent post_failed = refresh_failed
refreshed w p spent post_refused = reauth
refreshed w p spent (posted res) =
    minted
      (record {
        provider = p.name;
        access_token = res.access_token;
        meta = "";
        expires_at = some (add_time w.now (lifetime res.expires_in));
      })
      (rotation_of res.refresh_token spent)

unfoldable pub refresh : World → String → Provider → String → Refreshed
unfolding refreshed
refresh w user_id p secret =
    if p.long_lived
    then minted (record { provider = p.name; access_token = secret; meta = ""; expires_at = none })
        ""
    else refreshed w p secret (w.post_refresh user_id p secret)

unfoldable pub or_same : Manager → Option Manager → Manager
or_same m none = m
or_same m (some m') = m'

-- A rotated refresh token replaces the one that was spent; the row in memory holds it even if the
-- store could not write it.
unfoldable pub keep_rotated : World → Manager → Connection → String → Connection × Manager
unfolding or_same seal_for write_secret
keep_rotated w m conn rotated =
    let (drew, sealed) = seal_for w m conn rotated in
    if not (str_eq rotated "")
    then (
      record conn { secret = sealed },
      or_same drew (write_secret w drew conn.id sealed conn.scopes conn.meta),
    )
    else (conn, m)

-- `refreshAndStore` from the provider's answer on
unfoldable pub store_refreshed : World → Manager → Connection → Refreshed → Answer Token × Manager
unfolding keep_rotated set_status cache
store_refreshed w m conn refresh_failed = (refused provider_failed, m)
store_refreshed w m conn reauth =
    (refused reauth_required, set_status w m conn status_needs_reconnect)
store_refreshed w m conn (minted tok rotated) =
    let (conn', m') = keep_rotated w m conn rotated in
    (given tok, cache w (set_status w m' conn' status_ok) conn' tok)

-- `refreshAndStore`
unfoldable pub refresh_and_store :
    World → Manager → Connection → Provider → String → Answer Token × Manager
unfolding store_refreshed refresh
refresh_and_store w m conn p secret = store_refreshed w m conn (refresh w conn.user_id p secret)

unfoldable pub cached_or_refreshed :
    World → Manager → Connection → Provider → String → Option Token → Answer Token × Manager
unfolding refresh_and_store
cached_or_refreshed w m conn p secret (some tok) = (given tok, m)
cached_or_refreshed w m conn p secret none = refresh_and_store w m conn p secret

abbrev pub plain_token : Provider → String → String → Token
plain_token p secret meta = record {
  provider = p.name;
  access_token = secret;
  meta = meta;
  expires_at = none;
}

unfoldable pub token_opened :
    World → Provider → Option String → Connection → Manager → Answer Token × Manager
unfolding cached_or_refreshed cached_token_for refreshable
token_opened w p none conn m = (refused cannot_open, m)
token_opened w p (some secret) conn m =
    if is_static conn.kind
    then (given (plain_token p secret conn.meta), m)
    else if not (refreshable conn p)
    then (given (plain_token p secret ""), m)
    else cached_or_refreshed w m conn p secret (cached_token_for w m conn)

unfoldable pub token_by : World → Manager → Connection → Option Provider → Answer Token × Manager
unfolding token_opened open_credential
token_by w m conn none = (refused unknown_provider, m)
token_by w m conn (some p) =
    let (secret, conn', m') = open_credential w m conn in
    if is_mcp conn.kind then (refused not_mcp_credential, m) else token_opened w p secret conn' m'

unfoldable pub token_found : World → Manager → Borrower → Option Connection → Answer Token × Manager
unfolding token_by app_connections granted_to
token_found w m a none = (refused not_connected, m)
token_found w m a (some conn) =
    if not (granted_to (app_connections m.connections m.grants a) conn.id)
    then (refused not_granted, m)
    else token_by w m conn (w.provider_for conn.user_id conn.provider)

-- `tokenFor`
unfoldable pub token_for : World → Manager → Borrower → String → Answer Token × Manager
unfolding token_found connection_by_slug
token_for w m a slug = token_found w m a (connection_by_slug m.connections a.owner_id slug)

unfoldable pub entry_fresh : ℕ → Connection → ℕ → Option CachedToken → Bool
entry_fresh now conn horizon none = false
entry_fresh now conn horizon (some e) =
    str_eq e.minted_from conn.secret && ltb (now + horizon) e.expires

-- `cacheFreshFor`
unfoldable pub cache_fresh_for : World → Manager → Connection → ℕ → Bool
unfolding entry_fresh
cache_fresh_for w m conn horizon = entry_fresh w.now conn horizon (lookup conn.id m.cached)

unfoldable pub connection_refresh_horizon : ℕ
connection_refresh_horizon = 15 * 60 * second

unfoldable pub refresh_opened : World → Provider → Option String → Connection → Manager → Manager
unfolding refresh_and_store
refresh_opened w p none conn m = m
refresh_opened w p (some secret) conn m = (refresh_and_store w m conn p secret).1

unfoldable pub health_of : World → Manager → Connection → Probed → Answer Health × Manager
unfolding set_status
health_of w m conn no_answer = (given conn.status, m)
health_of w m conn rejected =
    (given status_needs_reconnect, set_status w m conn status_needs_reconnect)
health_of w m conn accepted = (given status_ok, set_status w m conn status_ok)

unfoldable pub probe_opened :
    World → Provider → Option String → Connection → Manager → Answer Health × Manager
unfolding health_of
probe_opened w p none conn m = (refused cannot_open, m)
probe_opened w p (some secret) conn m = health_of w m conn (w.probe p secret)

-- `verifyLongLived`
unfoldable pub verify_long_lived : World → Manager → Connection → Provider → Answer Health × Manager
unfolding probe_opened open_credential
verify_long_lived w m conn p =
    let (secret, conn', m') = open_credential w m conn in
    if not p.has_probe then (given conn.status, m) else probe_opened w p secret conn' m'

unfoldable pub refresh_by : World → Manager → Connection → Option Provider → Manager
unfolding refresh_opened verify_long_lived open_credential cache_fresh_for refreshable
refresh_by w m conn none = m
refresh_by w m conn (some p) =
    let (secret, conn', m') = open_credential w m conn in
    if not (refreshable conn p)
    then (if p.has_probe then (verify_long_lived w m conn p).1 else m)
    else if cache_fresh_for w m conn connection_refresh_horizon
    then m
    else refresh_opened w p secret conn' m'

unfoldable pub refresh_one : World → Manager → Connection → Manager
unfolding refresh_by
refresh_one w m conn =
    if not (is_oauth conn.kind)
    then m
    else refresh_by w m conn (w.provider_for conn.user_id conn.provider)

unfoldable pub refresh_each : World → List Connection → Manager → Manager
unfolding refresh_one
refresh_each w [] m = m
refresh_each w (conn ∷ conns) m = refresh_each w conns (refresh_one w m conn)

-- `refreshDue`, over the rows as they are read at its start
unfoldable pub refresh_due : World → Manager → Manager
unfolding refresh_each
refresh_due w m = refresh_each w m.connections m

unfoldable pub health_after : Answer Token × Manager → Answer Health × Manager
health_after (given tok, m) = (given status_ok, m)
health_after (refused reauth_required, m) = (given status_needs_reconnect, m)
health_after (refused r, m) = (refused r, m)

unfoldable pub verify_opened :
    World → Provider → Option String → Connection → Manager → Answer Health × Manager
unfolding health_after refresh_and_store
verify_opened w p none conn m = (refused cannot_open, m)
verify_opened w p (some secret) conn m = health_after (refresh_and_store w m conn p secret)

unfoldable pub verify_by : World → Manager → Connection → Option Provider → Answer Health × Manager
unfolding verify_opened verify_long_lived open_credential
verify_by w m conn none = (refused unknown_provider, m)
verify_by w m conn (some p) =
    let (secret, conn', m') = open_credential w m conn in
    if not (is_oauth conn.kind)
    then (given conn.status, m)
    else if not (refreshable conn p)
    then verify_long_lived w m conn p
    else verify_opened w p secret conn' m'

unfoldable pub verify_found : World → Manager → Option Connection → Answer Health × Manager
unfolding verify_by
verify_found w m none = (refused not_connected, m)
verify_found w m (some conn) = verify_by w m conn (w.provider_for conn.user_id conn.provider)

-- `Verify`
unfoldable pub verify : World → Manager → String → String → Answer Health × Manager
unfolding verify_found connection_by_slug
verify w m user_id slug = verify_found w m (connection_by_slug m.connections user_id slug)
