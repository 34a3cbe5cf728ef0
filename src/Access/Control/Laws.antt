-- ===== src/Access/Control/Laws.antt =====
-- Who is served a private app by control.
use hostit.Common.{
  ◌≡◌, ◌≢◌, ◌↔◌, ◌⊎◌, inl, inr, refl, String, true, false, Option, none, some, arith, Bool-cases,
  str_eq, str_eq→eq, str_eq-false, str_eq_comm, contains, List, [], ◌∷◌,
}
use text.Mathlib.TextEquality.{eq_iff}
use hostit.Store.{User, App}
use hostit.Auth.{Caller}
use hostit.Access.{Grants, may_view_app}
use hostit.Access.Control.{
  PrivateRequest, serve, may_view_found, caller_from_grant, allow_private_request,
}

abbrev pub own_paths : List String
own_paths = "/hostit/granted" ∷ "/hostit/logout" ∷ "/hostit/auth" ∷ []

module _ (g : Grants) (user_by_id : String → Option User) where
  -- Somebody who may view the app, named by the bearer token if there is an Authorization header
  -- and by the grant cookie if there is none.
  abbrev pub IsEntitled : PrivateRequest → App → Type 0
  IsEntitled r a =
      (c : Caller) × (may_view_app g c a ≡ true)
      × ((r.authorization ≢ "") × (r.by_token ≡ some c)
          ⊎ (r.authorization ≡ "") × (caller_from_grant g user_by_id r.by_grant a ≡ some c))

  may_view_found_iff :
      (o : Option Caller) (a : App)
      → may_view_found g user_by_id o a ≡ true
      → (c : Caller) × (may_view_app g c a ≡ true) × (o ≡ some c)
  unfolding may_view_found
  may_view_found_iff none a h = cc
  may_view_found_iff (some c) a h = (c, h, refl)

  may_view_found_of :
      (o : Option Caller) (a : App) (c : Caller)
      → may_view_app g c a ≡ true
      → o ≡ some c
      → may_view_found g user_by_id o a ≡ true
  unfolding may_view_found
  may_view_found_of o a c h e = rw e h

  -- Control lets a request through to a private app exactly if its path is none of hostit's own and
  -- it comes from somebody who may view the app now: a bad token is not made good by a cookie.
  pub allow_private_request_iff :
      (r : PrivateRequest) (a : App)
      → (allow_private_request g user_by_id r a ≡ serve)
        ↔ ((contains own_paths r.path ≡ false) × IsEntitled r a)
  unfolding allow_private_request
  allow_private_request_iff r a = (
    λ h. (
      ground (
        arith,
        str_eq_comm "/hostit/granted" r.path,
        str_eq_comm "/hostit/logout" r.path,
        str_eq_comm "/hostit/auth" r.path,
      ),
      elim (Bool-cases (str_eq r.authorization "")) [
        | inl absent ↦
            let (c, may, known) =
              may_view_found_iff (caller_from_grant g user_by_id r.by_grant a) a (ground arith) in
            (c, may, inr (str_eq→eq r.authorization "" absent, known))
        | inr present ↦
            let (c, may, known) = may_view_found_iff r.by_token a (ground arith) in
            (c, may, inl (str_eq-false r.authorization "" present, known))
      ],
    ),
    λ (path, (c, may, from)). ground (
      arith,
      from,
      str_eq_comm "/hostit/granted" r.path,
      str_eq_comm "/hostit/logout" r.path,
      str_eq_comm "/hostit/auth" r.path,
      eq_iff r.authorization "",
      may_view_found_of r.by_token a c may,
      may_view_found_of (caller_from_grant g user_by_id r.by_grant a) a c may,
    ),
  )
