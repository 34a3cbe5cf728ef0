-- ===== src/Routes/Serving.antt =====
-- What a proxy forwards to an app.
use hostit.Common.{
  ℕ, String, false, List, [], ◌∷◌, Option, none, some, ◌≡◌, ◌⊎◌, refl, ap, sym, ◌∙◌, inl, inr,
  arith, subst, Bool-cases, All-at, contains, str_eq, str_eq→eq,
}
use mathlib.Core.List.{Memᴰ}
use hostit.Store.{App}
use hostit.Access.Proxy.{
  Route, Table, ProxyRequest, grant_cookie_names, strip_grant_cookie, may_serve_privately,
  HasProved, may_serve_privately_proved,
}
use hostit.Routes.{
  Listing, app_route, content, table_of, Forwarded, to_target, to_control, serve_private, serve_by,
  serve_http,
}
use hostit.Routes.Building.{IsRouteOf, content-IsRouted}

strip_grant_cookie_twice :
    (cookies : List (String × String))
    → strip_grant_cookie (strip_grant_cookie cookies) ≡ strip_grant_cookie cookies
unfolding strip_grant_cookie
strip_grant_cookie_twice [] = refl
strip_grant_cookie_twice ((n, v) ∷ cookies) = elim (Bool-cases (contains grant_cookie_names n)) [
  | inl grant ↦ rw grant (strip_grant_cookie_twice cookies)
  | inr other ↦ rw other (rw other (ap (◌∷◌ (n, v)) (strip_grant_cookie_twice cookies)))
]

abbrev target_of : Forwarded → String
target_of (to_target target cookies) = target
target_of to_control = ""

abbrev cookies_of : Forwarded → List (String × String)
cookies_of (to_target target cookies) = cookies
cookies_of to_control = []

module _ (new_verifier : String → Option (String → Option (String × String))) where
  -- What a request has that is forwarded by a route: no proof is asked for a public app.
  pub record IsServed (table : Table) (r : ProxyRequest) (host target : String)
      (cookies : List (String × String)) (route : Route) : Type 0 where
    pub listed : Memᴰ route table.routes
    pub for_host : route.host ≡ host
    pub dialed : target ≡ route.target
    pub stripped : cookies ≡ strip_grant_cookie r.cookies
    pub proved : (route.private ≡ false) ⊎ HasProved new_verifier r route table

  serve_private_proved :
      (table : Table) (r : ProxyRequest) (route : Route) (o : Option (List (String × String)))
      (target : String) (cookies : List (String × String))
      → may_serve_privately new_verifier r route table ≡ o
      → serve_private new_verifier route o ≡ to_target target cookies
      → (target ≡ route.target)
        × (cookies ≡ strip_grant_cookie r.cookies)
        × HasProved new_verifier r route table
  unfolding serve_private
  serve_private_proved table r route none target cookies e h = cc
  serve_private_proved table r route (some kept) target cookies e h =
      let (proof, forwarded) = may_serve_privately_proved new_verifier r route table kept e in
      (
        sym (ap target_of h),
        sym (ap cookies_of h)
            ∙ ap strip_grant_cookie forwarded
            ∙ strip_grant_cookie_twice r.cookies,
        proof,
      )

  serve_by_proved :
      (table : Table) (r : ProxyRequest) (host : String) (routes : List Route) (target : String)
      (cookies : List (String × String))
      → ((route : Route) → Memᴰ route routes → Memᴰ route table.routes)
      → serve_by new_verifier table r host routes ≡ to_target target cookies
      → (route : Route) × IsServed table r host target cookies route
  unfolding serve_by
  serve_by_proved table r host [] target cookies within h = cc
  serve_by_proved table r host (route ∷ routes) target cookies within h =
      elim (Bool-cases (str_eq route.host host)) [
        | inr other ↦
            serve_by_proved table r host routes target cookies (λ s m. within s (Memᴰ.tail m))
              (ground arith)
        | inl same ↦ elim (Bool-cases route.private) [
          | inl private ↦
              let (dialed, stripped, proof) =
                serve_private_proved table r route (may_serve_privately new_verifier r route table)
                  target cookies refl (ground arith) in
              (
                route,
                record {
                  listed = within route (Memᴰ.head refl);
                  for_host = str_eq→eq route.host host same;
                  dialed = dialed;
                  stripped = stripped;
                  proved = inr proof;
                },
              )
          | inr public ↦
              let sent : to_target route.target (strip_grant_cookie r.cookies)
                  ≡ to_target target cookies =
                ground arith in
              (
                route,
                record {
                  listed = within route (Memᴰ.head refl);
                  for_host = str_eq→eq route.host host same;
                  dialed = sym (ap target_of sent);
                  stripped = sym (ap cookies_of sent);
                  proved = inl public;
                },
              )
        ]
      ]

  -- A proxy forwards a request to a target only by a route of its table for the request's host, with
  -- the cookies less the grants, and if the route is private only a request that has proved its right.
  pub serve_http_proved :
      (table : Table) (r : ProxyRequest) (host target : String) (cookies : List (String × String))
      → serve_http new_verifier table r host ≡ to_target target cookies
      → (route : Route) × IsServed table r host target cookies route
  unfolding serve_http
  serve_http_proved table r host target cookies h =
      serve_by_proved table r host table.routes target cookies (λ route m. m) h

  -- From the store to the wire: by a table that control built, a request reaches a target only if
  -- that is the target of a listed app, under one of the app's names; if the app is private the
  -- request has proved its right for the app, on a custom domain as on the app's own name.
  pub serve_http-content :
      (l : Listing) (base_domain grant_key : String) (n : ℕ) (r : ProxyRequest)
      (host target : String) (cookies : List (String × String))
      → serve_http new_verifier (table_of n (content l base_domain grant_key)) r host
        ≡ to_target target cookies
      → (a : App) × Memᴰ a l.apps
        × ((host ≡ (app_route l base_domain a).host) ⊎ Memᴰ (a.name, host) l.domains)
        × (target ≡ (app_route l base_domain a).target)
        × ((a.private ≡ false)
            ⊎ HasProved new_verifier r
                (record (app_route l base_domain a) { host = host })
                (table_of n (content l base_domain grant_key)))
  unfolding app_route
  serve_http-content l base_domain grant_key n r host target cookies h =
      let table = table_of n (content l base_domain grant_key) in
      let (route, served) = serve_http_proved table r host target cookies h in
      let (a, own) =
        All-at (λ s. (b : App) × IsRouteOf l base_domain s b) route table.routes
          (content-IsRouted l base_domain grant_key) served.listed in
      let here : route ≡ record (app_route l base_domain a) { host = host } =
        own.routed ∙ ap (λ x. record (app_route l base_domain a) { host = x }) served.for_host in
      (
        a,
        own.listed,
        subst (λ x. (x ≡ (app_route l base_domain a).host) ⊎ Memᴰ (a.name, x) l.domains)
            served.for_host own.hosted,
        served.dialed ∙ ap (λ s. s.target) here,
        elim served.proved [
          | inl public ↦ inl (sym (ap (λ s. s.private) here) ∙ public)
          | inr proof ↦ inr (subst (λ s. HasProved new_verifier r s table) here proof)
        ],
      )
