-- ===== src/Connections/Freshness/Served.antt =====
-- The token that an app gets after any calls.
use hostit.Common.{
  ℕ, zero, suc, ◌+◌, ◌-◌, ◌*◌, ◌^◌, ◌≤◌, String, List, [], Option, none, some, ◌≡◌, ◌⊎◌, inl, inr,
  refl, subst, arith, Bool-cases, Option-cases, some_inj, not, ltb, str_eq, lookup, if_elim,
}
use hostit.Common.Int.{ℤ, pos, negsuc, pos_part, neg_part, IsUpTo, wrap64_of_small}
use hostit.Connections.{Connection, Borrower, is_mcp, is_static, connection_by_slug, has_grant}
use hostit.Connections.Custody.{
  Token, CachedToken, Manager, Provider, TokenResponse, Posted, post_failed, post_refused, posted,
  World, Answer, given, refused, second, token_cache_margin, refreshable, open_credential,
  live_entry, cached_token_for,
}
use hostit.Connections.Serving.{
  Refreshed, minted, add_time, lifetime, refreshed, refresh, store_refreshed, refresh_and_store,
  cached_or_refreshed, token_opened, token_by, token_for, plain_token,
}
use hostit.Connections.Lending.{token_for-missing, token_for-found}
use hostit.Connections.Freshness.{
  IsCacheFresh, HasMargin, lookup-HasMargin, Kept-AllHaveMargin, open_credential-Kept,
}
use hostit.Connections.Freshness.Calls.{Call, call_all, call_all-IsCacheFresh}

abbrev pub LivesOn : ℕ → Token → Type 0
LivesOn now tok =
    (tok.expires_at ≡ none) ⊎ ((x : ℕ) × (tok.expires_at ≡ some x) × (now + second ≤ x))

abbrev Lasting : ℕ → Answer Token → Type 0
Lasting now (given tok) = LivesOn now tok
Lasting now (refused why) = Unit

-- A lifetime in seconds as a provider should give it: not negative, and no longer in nanoseconds than
-- 64 bits hold.
abbrev pub IsLifetime : ℤ → Type 0
IsLifetime v = IsUpTo 9223372036 v

abbrev pub HasLifetimes : World → Type 0
HasLifetimes w =
    (user_id : String) (p : Provider) (secret : String) (res : TokenResponse)
    → w.post_refresh user_id p secret ≡ posted res
    → IsLifetime res.expires_in

lifetime-second :
    (v : ℤ) → IsLifetime v → (second ≤ pos_part (lifetime v)) × (neg_part (lifetime v) ≡ 0)
unfolding lifetime
lifetime-second (pos zero) h = (omega arith, omega arith)
lifetime-second (pos (suc n)) h =
    rw
      (wrap64_of_small (2 ^ 63 - 1) (pos (suc n * second)) (omega arith, omega arith) (omega arith))
      (omega arith, omega arith)
lifetime-second (negsuc n) (h, k) = absurd (omega arith)

live_entry-some :
    (now : ℕ) (conn : Connection) (d : CachedToken) {tok : Token}
    → live_entry now conn (some d) ≡ some tok
    → (d.token ≡ tok) × (now ≤ d.expires)
unfolding live_entry
live_entry-some now conn d e = elim (Bool-cases (str_eq d.minted_from conn.secret)) [
  | inr stale ↦ absurd (cc (rw stale at e))
  | inl current ↦ elim (Bool-cases (ltb d.expires now)) [
    | inl dead ↦ absurd (cc (rw (current, dead) at e))
    | inr live ↦ (some_inj (rw (current, live) at e), ground arith)
  ]
]

entry-LivesOn :
    (now : ℕ) (d : CachedToken) (tok : Token)
    → HasMargin d
    → d.token ≡ tok
    → now ≤ d.expires
    → LivesOn now tok
unfolding token_cache_margin
entry-LivesOn now d tok h same live =
    subst (LivesOn now) same (inr (d.expires + token_cache_margin, h, omega arith))

no_entry : (now : ℕ) (conn : Connection) (tok : Token) → live_entry now conn none ≡ some tok → ⊥
unfolding live_entry
no_entry now conn tok e = cc

cached_token_for-LivesOn :
    (w : World) (m : Manager) (conn : Connection) {tok : Token}
    → IsCacheFresh m
    → cached_token_for w m conn ≡ some tok
    → LivesOn w.now tok
unfolding cached_token_for
cached_token_for-LivesOn w m conn {tok} h e = elim (Option-cases (lookup conn.id m.cached)) [
  | inl missing ↦ absurd (no_entry w.now conn tok (rw missing at e))
  | inr (d, there) ↦
      let (same, live) = live_entry-some w.now conn d (rw there at e) in
      entry-LivesOn w.now d tok (lookup-HasMargin conn.id m.cached h there) same live
]

refreshed-Lasting :
    (w : World) (m : Manager) (conn : Connection) (p : Provider) (secret : String) (r : Posted)
    → ((res : TokenResponse) → r ≡ posted res → IsLifetime res.expires_in)
    → Lasting w.now (store_refreshed w m conn (refreshed w p secret r)).0
unfolding store_refreshed refreshed
refreshed-Lasting w m conn p secret post_failed good = tt
refreshed-Lasting w m conn p secret post_refused good = tt
refreshed-Lasting w m conn p secret (posted res) good =
    let (long, whole) = lifetime-second res.expires_in (good res refl) in
    inr (add_time w.now (lifetime res.expires_in), refl, omega arith)

long_lived-Lasting :
    (w : World) (m : Manager) (conn : Connection) (p : Provider) (secret : String)
    → Lasting w.now (store_refreshed w m conn (minted (plain_token p secret "") "")).0
unfolding store_refreshed
long_lived-Lasting w m conn p secret = inl refl

refresh-Lasting :
    (w : World) (m : Manager) (conn : Connection) (p : Provider) (secret : String)
    → HasLifetimes w
    → Lasting w.now (refresh_and_store w m conn p secret).0
unfolding refresh_and_store refresh
refresh-Lasting w m conn p secret good =
    if_elim (λ (r : Refreshed). Lasting w.now (store_refreshed w m conn r).0) p.long_lived
      (long_lived-Lasting w m conn p secret)
      (refreshed-Lasting w m conn p secret (w.post_refresh conn.user_id p secret)
        (good conn.user_id p secret))

cached_or_refreshed-Lasting :
    (w : World) (m : Manager) (conn : Connection) (p : Provider) (secret : String)
    → HasLifetimes w
    → IsCacheFresh m
    → (o : Option Token) → cached_token_for w m conn ≡ o
    → Lasting w.now (cached_or_refreshed w m conn p secret o).0
unfolding cached_or_refreshed
cached_or_refreshed-Lasting w m conn p secret good h (some tok) e =
    cached_token_for-LivesOn w m conn h e
cached_or_refreshed-Lasting w m conn p secret good h none e = refresh-Lasting w m conn p secret good

token_opened-Lasting :
    (w : World) (p : Provider) (o : Option String) (conn : Connection) (m : Manager)
    → HasLifetimes w
    → IsCacheFresh m
    → Lasting w.now (token_opened w p o conn m).0
unfolding token_opened
token_opened-Lasting w p none conn m good h = tt
token_opened-Lasting w p (some secret) conn m good h =
    let lasting = λ (r : Answer Token × Manager). Lasting w.now r.0 in
    if_elim lasting (is_static conn.kind) (inl refl) (
      if_elim lasting (not (refreshable conn p)) (inl refl)
        (cached_or_refreshed-Lasting w m conn p secret good h (cached_token_for w m conn) refl))

token_by-Lasting :
    (w : World) (m : Manager) (conn : Connection) (p : Option Provider)
    → HasLifetimes w
    → IsCacheFresh m
    → Lasting w.now (token_by w m conn p).0
unfolding token_by
token_by-Lasting w m conn none good h = tt
token_by-Lasting w m conn (some p) good h =
    let (secret, conn', m') = open_credential w m conn in
    if_elim (λ (r : Answer Token × Manager). Lasting w.now r.0) (is_mcp conn.kind) tt
      (token_opened-Lasting w p secret conn' m' good
        (Kept-AllHaveMargin (open_credential-Kept w m conn) h))

token_for-Lasting :
    (w : World) (m : Manager) (a : Borrower) (slug : String)
    → HasLifetimes w
    → IsCacheFresh m
    → Lasting w.now (token_for w m a slug).0
token_for-Lasting w m a slug good h =
    elim (Option-cases (connection_by_slug m.connections a.owner_id slug)) [
      | inl missing ↦ rw (token_for-missing w m a slug missing) tt
      | inr (c, found) ↦ rw (token_for-found w m a slug found) (
          if_elim (λ (r : Answer Token × Manager). Lasting w.now r.0) (has_grant m.grants a.id c.id)
            (token_by-Lasting w m c (w.provider_for c.user_id c.provider) good h) tt)
    ]

-- After any calls on a manager that starts with an empty cache, at whatever times and with
-- whatever answers of providers and store, a token that an app is handed has no expiry, or lives
-- for another second at least. An answer to this last call gives a lifetime that is not negative and
-- whose nanoseconds fit into 64 bits.
pub token_for-LivesOn :
    (w : World) (cs : List (World × Call)) (m m' : Manager) (a : Borrower) (slug : String)
    {tok : Token}
    → HasLifetimes w
    → m.cached ≡ []
    → token_for w (call_all cs m) a slug ≡ (given tok, m')
    → LivesOn w.now tok
token_for-LivesOn w cs m m' a slug good empty e =
    subst (λ (r : Answer Token × Manager). Lasting w.now r.0) e
      (token_for-Lasting w (call_all cs m) a slug good
        (call_all-IsCacheFresh cs m (Kept-AllHaveMargin {es = []} empty tt)))
