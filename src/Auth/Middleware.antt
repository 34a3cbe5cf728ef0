-- ===== src/Auth/Middleware.antt =====
-- What a handler may take for granted about its caller, by the wrapper that it stands behind.
use hostit.Common.{
  ◌≡◌, ◌≢◌, ◌↔◌, refl, ◌⊎◌, Bool, true, false, not, Option, none, some, arith, str_eq, str_eq→eq,
  str_neq,
}
use text.Mathlib.TextEquality.{eq_iff}
use hostit.Store.{User}
use hostit.Auth.{
  Caller, Request, Services, is_read, is_admin, is_active, user_id, id_of, authenticate,
  check_same_origin, within_app_scope, Outcome, Refusal, refused, passed, guard, ◌>>=◌, scoped,
  same_origin, caller_or_sign_in, authenticated, require_active, require_account, require_person,
  require_admin,
}

bind-eq-passed :
    (o : Outcome) (next : Caller → Outcome) {c : Caller}
    → (o >>= next) ≡ passed c
    → (d : Caller) × (o ≡ passed d) × (next d ≡ passed c)
bind-eq-passed (refused e) next h = cc
bind-eq-passed (passed d) next h = (d, refl, h)

guard-eq-passed :
    (b : Bool) (e : Refusal) (d c : Caller) → guard b e d ≡ passed c → (b ≡ true) × (d ≡ c)
guard-eq-passed true e d c h = (refl, ground arith)
guard-eq-passed false e d c h = cc

module _ (s : Services) (r : Request) where
  -- A caller that `authenticated` lets pass.
  pub record IsAuthenticated (c : Caller) : Type 0 where
    pub known : authenticate s r ≡ some c
    pub not_forged : check_same_origin s r c ≡ true
    pub in_scope : (c.app_scope ≡ "") ⊎ (within_app_scope r.path c.app_scope ≡ true)

  caller_or_sign_in-eq-passed :
      (o : Option Caller) (c : Caller) → caller_or_sign_in s r o ≡ passed c → o ≡ some c
  unfolding caller_or_sign_in
  caller_or_sign_in-eq-passed none c h = cc
  caller_or_sign_in-eq-passed (some d) c h = ground arith

  scoped-eq-passed :
      (d c : Caller)
      → scoped s r d ≡ passed c
      → (d ≡ c) × ((c.app_scope ≡ "") ⊎ (within_app_scope r.path c.app_scope ≡ true))
  unfolding scoped
  scoped-eq-passed d c h = ground (arith, eq_iff d.app_scope "")

  authenticated_passed : (c : Caller) → authenticated s r ≡ passed c → IsAuthenticated c
  unfolding authenticated same_origin
  authenticated_passed c h =
      let (d', named, rest) = bind-eq-passed (caller_or_sign_in s r (authenticate s r)) _ h in
      let (d, checked, later) = bind-eq-passed (same_origin s r d') _ rest in
      let (origin, same) = guard-eq-passed (check_same_origin s r d') _ d' d checked in
      let (same', in_scope) = scoped-eq-passed d c later in
      let known = caller_or_sign_in-eq-passed (authenticate s r) d' named in
      record {
        known = ground arith;
        not_forged = rw (← same') (rw (← same) origin);
        in_scope = in_scope;
      }

  authenticated_of : (c : Caller) → IsAuthenticated c → authenticated s r ≡ passed c
  unfolding authenticated same_origin caller_or_sign_in scoped
  authenticated_of c a =
      rw a.known (rw a.not_forged (ground (arith, a.in_scope, eq_iff c.app_scope "")))

  -- A caller that `requireAccount` lets pass.
  pub record IsAccount (c : Caller) : Type 0 where
    pub authenticated : IsAuthenticated c
    pub active : is_active c ≡ true
    pub unscoped : c.app_scope ≡ ""

  require_account_passed : (c : Caller) → require_account s r ≡ passed c → IsAccount c
  unfolding require_account require_active
  require_account_passed c h =
      let (d, active, plain) = bind-eq-passed (require_active s r) _ h in
      let (d', known, checked) = bind-eq-passed (authenticated s r) _ active in
      let (is_on, same) = guard-eq-passed (is_active d') _ d' d checked in
      let (unscoped, same') = guard-eq-passed (str_eq d.app_scope "") _ d c plain in
      record {
        authenticated = authenticated_passed c (rw (← same') (rw (← same) known));
        active = rw (← same') (rw (← same) is_on);
        unscoped = rw (← same') (str_eq→eq d.app_scope "" unscoped);
      }

  require_account_of : (c : Caller) → IsAccount c → require_account s r ≡ passed c
  unfolding require_account require_active
  require_account_of c a =
      rw (authenticated_of c a.authenticated)
        (rw a.active (ground (arith, a.unscoped, eq_iff c.app_scope "")))

  -- `requireAdmin` runs its handler exactly for the callers that the request authenticates, that
  -- are not the result of a forged cross-site request, whose account is active, that hold no
  -- app-scoped token, and that are administrators.
  pub require_admin_iff :
      (c : Caller) → (require_admin s r ≡ passed c) ↔ (IsAccount c × (is_admin c ≡ true))
  unfolding require_admin
  require_admin_iff c = (
    λ h.
        let (d, account, checked) = bind-eq-passed (require_account s r) _ h in
        let (admin, same) = guard-eq-passed (is_admin d) _ d c checked in
        (require_account_passed c (rw (← same) account), rw (← same) admin),
    λ (account, admin). rw (require_account_of c account) (rw admin),
  )

  -- `requirePerson` runs its handler exactly for such callers that are a user with an id: never for
  -- the admin token, which is nobody's.
  pub require_person_iff :
      (c : Caller)
      → (require_person s r ≡ passed c)
        ↔ (IsAccount c × ((u : User) × (c.user ≡ some u) × (u.id ≢ "")))
  unfolding require_person user_id
  require_person_iff c = (
    λ h.
        let (d, account, checked) = bind-eq-passed (require_account s r) _ h in
        let (person, same) = guard-eq-passed (not (str_eq (id_of d.user) "")) _ d c checked in
        (require_account_passed c (rw (← same) account), has_user c.user (rw (← same) person)),
    λ (account, (u, named, real)).
        rw (require_account_of c account) (rw named (rw (str_neq u.id "" real))),
  )
    where
      has_user :
          (o : Option User)
          → not (str_eq (id_of o) "") ≡ true
          → (u : User) × (o ≡ some u) × (u.id ≢ "")
      has_user none h = cc
      has_user (some u) h = (u, refl, λ e. absurd (ground (arith, eq_iff u.id "")))

  -- A request that changes state and that a browser authenticates by its session cookie reaches a
  -- handler only from the site itself, or from a client that sends no `Sec-Fetch-Site` and either no
  -- `Origin` or one of the site's own.
  pub authenticated_by_cookie :
      (c : Caller)
      → authenticated s r ≡ passed c
      → c.via_cookie ≡ true
      → is_read r.method ≡ false
      → (r.sec_fetch_site ≡ "same-origin")
        ⊎ (r.sec_fetch_site ≡ "none")
        ⊎ ((r.sec_fetch_site ≡ "") × ((r.origin ≡ "") ⊎ (s.is_web_origin r.origin ≡ true)))
  unfolding check_same_origin
  authenticated_by_cookie c h v m =
      let a = authenticated_passed c h in
      ground (
        arith,
        a.not_forged,
        eq_iff r.sec_fetch_site "same-origin",
        eq_iff r.sec_fetch_site "none",
        eq_iff r.sec_fetch_site "",
        eq_iff r.origin "",
      )
