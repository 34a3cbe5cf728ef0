-- ===== src/Routes/Building.antt =====
-- What a built table says of an app.
use hostit.Common.{
  String, false, List, [], ◌∷◌, ◌++◌, Option, none, some, ◌≡◌, ◌≢◌, ◌⊎◌, refl, ap, sym, subst, ◌∙◌,
  inl, inr, arith, Bool-cases, some_inj, All, str_eq, str_ltb, str_neq, str_eq-false, str_eq→eq,
}
use mathlib.Core.List.{Memᴰ}
use hostit.Store.{App}
use hostit.Access.Proxy.{Route}
use hostit.Routes.{
  Listing, node_address, app_route, app_routes, or_this, route_of, add_domain, domain_routes,
  insert_route, sort_routes, content,
}

-- A route is an app's: the app's node can be reached, the host is the app's own name under the base
-- domain or one of its custom domains, and everything else is what the app's own name has.
pub record IsRouteOf (l : Listing) (base_domain : String) (r : Route) (a : App) : Type 0 where
  pub listed : Memᴰ a l.apps
  pub reached : node_address l.address a.host ≢ ""
  pub routed : r ≡ record (app_route l base_domain a) { host = r.host }
  pub hosted : (r.host ≡ (app_route l base_domain a).host) ⊎ Memᴰ (a.name, r.host) l.domains

abbrev pub IsRouted : Listing → String → Route → Type 0
IsRouted l base_domain r = (a : App) × IsRouteOf l base_domain r a

All-append : (P : Route → Type 0) (xs ys : List Route) → All P xs → All P ys → All P (xs ++ ys)
All-append P [] ys h k = k
All-append P (x ∷ xs) ys (p, h) k = (p, All-append P xs ys h k)

All-insert_route :
    (P : Route → Type 0) (r : Route) (routes : List Route)
    → P r
    → All P routes
    → All P (insert_route r routes)
unfolding insert_route
All-insert_route P r [] p h = (p, tt)
All-insert_route P r (s ∷ routes) p (q, h) = elim (Bool-cases (str_ltb s.host r.host)) [
  | inl before ↦ rw before (q, All-insert_route P r routes p h)
  | inr after ↦ rw after (p, (q, h))
]

All-sort_routes :
    (P : Route → Type 0) (routes : List Route) → All P routes → All P (sort_routes routes)
unfolding sort_routes
All-sort_routes P [] h = tt
All-sort_routes P (r ∷ routes) (p, h) =
    All-insert_route P r (sort_routes routes) p (All-sort_routes P routes h)

module _ (l : Listing) (base_domain : String) where
  -- The routes of apps' own names.
  abbrev IsOwn : Route → Type 0
  IsOwn r =
      (a : App) × Memᴰ a l.apps
      × (node_address l.address a.host ≢ "")
      × (r ≡ app_route l base_domain a)

  app_routes-IsOwn :
      (apps : List App)
      → ((a : App) → Memᴰ a apps → Memᴰ a l.apps)
      → All IsOwn (app_routes l base_domain apps)
  unfolding app_routes
  app_routes-IsOwn [] within = tt
  app_routes-IsOwn (a ∷ apps) within =
      let rest = app_routes-IsOwn apps (λ b m. within b (Memᴰ.tail m)) in
      elim (Bool-cases (str_eq (node_address l.address a.host) "")) [
        | inl unknown ↦ rw unknown rest
        | inr known ↦ rw known (
          (
            a,
            within a (Memᴰ.head refl),
            str_eq-false (node_address l.address a.host) "" known,
            refl,
          ),
          rest,
        )
      ]

  or_this-some :
      (name : String) (s r : Route) (o : Option Route)
      → or_this name s o ≡ some r
      → (o ≡ some r) ⊎ ((s ≡ r) × (s.app ≡ name))
  unfolding or_this
  or_this-some name s r (some later) e = inl e
  or_this-some name s r none e = elim (Bool-cases (str_eq s.app name)) [
    | inl same ↦ inr (some_inj (ground arith), str_eq→eq s.app name same)
    | inr other ↦ absurd (ground arith)
  ]

  route_of-IsOwn :
      (routes : List Route) (name : String) (r : Route)
      → All IsOwn routes
      → route_of routes name ≡ some r
      → IsOwn r × (r.app ≡ name)
  unfolding route_of
  route_of-IsOwn [] name r h e = cc
  route_of-IsOwn (s ∷ routes) name r (p, h) e =
      elim (or_this-some name s r (route_of routes name) e) [
        | inl later ↦ route_of-IsOwn routes name r h later
        | inr (same, named) ↦ (subst IsOwn same p, rw (← same) named)
      ]

  IsOwn-IsRouted : (r : Route) → IsOwn r → IsRouted l base_domain r
  unfolding app_route
  IsOwn-IsRouted r (a, listed, reached, e) = (
    a,
    record { listed = listed; reached = reached; routed = rw e refl; hosted = inl (rw e refl) },
  )

  add_domain-IsRouted :
      (name domain : String) (o : Option Route) (rest : List Route)
      → ((r : Route) → o ≡ some r → IsOwn r × (r.app ≡ name))
      → Memᴰ (name, domain) l.domains
      → All (IsRouted l base_domain) rest
      → All (IsRouted l base_domain) (add_domain domain o rest)
  unfolding add_domain app_route
  add_domain-IsRouted name domain none rest h m k = k
  add_domain-IsRouted name domain (some r) rest h m k =
      let ((a, listed, reached, e), named) = h r refl in
      (
        (
          a,
          record {
            listed = listed;
            reached = reached;
            routed = rw e refl;
            hosted =
                inr (subst (λ n. Memᴰ (n, domain) l.domains) (sym named ∙ ap (λ x. x.app) e) m);
          },
        ),
        k,
      )

  domain_routes-IsRouted :
      (own : List Route) (domains : List (String × String))
      → All IsOwn own
      → ((d : String × String) → Memᴰ d domains → Memᴰ d l.domains)
      → All (IsRouted l base_domain) (domain_routes own domains)
  unfolding domain_routes
  domain_routes-IsRouted own [] h within = tt
  domain_routes-IsRouted own ((name, domain) ∷ domains) h within =
      add_domain-IsRouted name domain (route_of own name) (domain_routes own domains)
        (λ r e. route_of-IsOwn own name r h e) (within (name, domain) (Memᴰ.head refl))
        (domain_routes-IsRouted own domains h (λ d m. within d (Memᴰ.tail m)))

  All-map : (routes : List Route) → All IsOwn routes → All (IsRouted l base_domain) routes
  All-map [] h = tt
  All-map (r ∷ routes) (p, h) = (IsOwn-IsRouted r p, All-map routes h)

  -- Every route of a built table is a listed app's, whose node can be reached, under the app's own
  -- name or one of its custom domains: it has the app's target, is private exactly if the app is,
  -- and then has the app's access set, whatever its name.
  pub content-IsRouted :
      (grant_key : String) → All (IsRouted l base_domain) (content l base_domain grant_key).routes
  unfolding content
  content-IsRouted grant_key =
      let own = app_routes l base_domain l.apps in
      let owned = app_routes-IsOwn l.apps (λ a m. m) in
      All-sort_routes (IsRouted l base_domain) (own ++ domain_routes own l.domains) (
        All-append (IsRouted l base_domain) own (domain_routes own l.domains) (All-map own owned)
          (domain_routes-IsRouted own l.domains owned (λ d m. m)))

  Memᴰ-insert_route :
      (r s : Route) (routes : List Route) → (r ≡ s) ⊎ Memᴰ r routes → Memᴰ r (insert_route s routes)
  unfolding insert_route
  Memᴰ-insert_route r s [] (inl e) = Memᴰ.head e
  Memᴰ-insert_route r s [] (inr m) = elim m [ ]
  Memᴰ-insert_route r s (t ∷ routes) (inl e) = elim (Bool-cases (str_ltb t.host s.host)) [
    | inl before ↦ rw before (Memᴰ.tail (Memᴰ-insert_route r s routes (inl e)))
    | inr after ↦ rw after (Memᴰ.head e)
  ]
  Memᴰ-insert_route r s (t ∷ routes) (inr (Memᴰ.head e)) =
      elim (Bool-cases (str_ltb t.host s.host)) [
        | inl before ↦ rw before (Memᴰ.head e)
        | inr after ↦ rw after (Memᴰ.tail (Memᴰ.head e))
      ]
  Memᴰ-insert_route r s (t ∷ routes) (inr (Memᴰ.tail m)) =
      elim (Bool-cases (str_ltb t.host s.host)) [
        | inl before ↦ rw before (Memᴰ.tail (Memᴰ-insert_route r s routes (inr m)))
        | inr after ↦ rw after (Memᴰ.tail (Memᴰ.tail m))
      ]

  Memᴰ-sort_routes : (r : Route) (routes : List Route) → Memᴰ r routes → Memᴰ r (sort_routes routes)
  unfolding sort_routes
  Memᴰ-sort_routes r [] m = elim m [ ]
  Memᴰ-sort_routes r (s ∷ routes) (Memᴰ.head e) = Memᴰ-insert_route r s (sort_routes routes) (inl e)
  Memᴰ-sort_routes r (s ∷ routes) (Memᴰ.tail m) =
      Memᴰ-insert_route r s (sort_routes routes) (inr (Memᴰ-sort_routes r routes m))

  Memᴰ-left : (r : Route) (xs ys : List Route) → Memᴰ r xs → Memᴰ r (xs ++ ys)
  Memᴰ-left r [] ys m = elim m [ ]
  Memᴰ-left r (x ∷ xs) ys (Memᴰ.head e) = Memᴰ.head e
  Memᴰ-left r (x ∷ xs) ys (Memᴰ.tail m) = Memᴰ.tail (Memᴰ-left r xs ys m)

  Memᴰ-app_routes :
      (a : App) (apps : List App)
      → Memᴰ a apps
      → str_eq (node_address l.address a.host) "" ≡ false
      → Memᴰ (app_route l base_domain a) (app_routes l base_domain apps)
  unfolding app_routes
  Memᴰ-app_routes a [] m h = elim m [ ]
  Memᴰ-app_routes a (b ∷ apps) (Memᴰ.head e) h =
      rw (ap (λ x. str_eq (node_address l.address x.host) "") (sym e) ∙ h)
        (Memᴰ.head (ap (app_route l base_domain) e))
  Memᴰ-app_routes a (b ∷ apps) (Memᴰ.tail m) h =
      elim (Bool-cases (str_eq (node_address l.address b.host) "")) [
        | inl unknown ↦ rw unknown (Memᴰ-app_routes a apps m h)
        | inr known ↦ rw known (Memᴰ.tail (Memᴰ-app_routes a apps m h))
      ]

  -- A listed app whose node can be reached has its route in the built table.
  pub Memᴰ-content :
      (grant_key : String) (a : App)
      → Memᴰ a l.apps
      → node_address l.address a.host ≢ ""
      → Memᴰ (app_route l base_domain a) (content l base_domain grant_key).routes
  unfolding content
  Memᴰ-content grant_key a listed reached =
      let own = app_routes l base_domain l.apps in
      Memᴰ-sort_routes (app_route l base_domain a) (own ++ domain_routes own l.domains) (
        Memᴰ-left (app_route l base_domain a) own (domain_routes own l.domains)
          (Memᴰ-app_routes a l.apps listed (str_neq (node_address l.address a.host) "" reached)))
