-- ===== src/Access/Proxy.antt =====
-- proxy/grant.go: what a proxy serves on its own.
use hostit.Common.{
  ℕ, String, Bool, true, false, List, [], ◌∷◌, Option, none, some, ◌||◌, not, if◌then◌else◌, str_eq,
  contains, ◌≡◌, ◌≢◌, ◌⊎◌, inl, inr, refl, ap, arith, Bool-cases,
}
use text.Mathlib.TextEquality.{eq_iff}

pub record Route : Type 0 where
  pub host : String
  pub target : String
  pub app : String
  pub private : Bool
  pub access : List String

pub record Table : Type 0 where
  pub grant_public_key : String
  pub admins : List String
  pub seq : ℕ
  pub routes : List Route

-- `tls` is whether the request came over TLS, `cookies` are its names and values in order.
pub record ProxyRequest : Type 0 where
  pub path : String
  pub authorization : String
  pub tls : Bool
  pub cookies : List (String × String)

abbrev pub grant_cookie_host : String
grant_cookie_host = "__Host-hostit_app"

abbrev pub grant_cookie_bare : String
grant_cookie_bare = "hostit_app"

abbrev pub grant_cookie_names : List String
grant_cookie_names = grant_cookie_host ∷ grant_cookie_bare ∷ []

abbrev pub hostit_paths : List String
hostit_paths = "/hostit/auth" ∷ "/hostit/granted" ∷ "/hostit/logout" ∷ []

abbrev pub preview_principal : String
preview_principal = "__hostit_preview__"

-- `r.Cookie(name)`, "" if there is none.
unfoldable pub cookie_value : List (String × String) → String → String
cookie_value [] name = ""
cookie_value ((n, v) ∷ cookies) name = if str_eq n name then v else cookie_value cookies name

unfoldable pub first_value : List (String × String) → List String → String
first_value cookies [] = ""
first_value cookies (name ∷ names) =
    let v = cookie_value cookies name in if not (str_eq v "") then v else first_value cookies names

unfoldable pub grant_cookie : ProxyRequest → String
unfolding first_value
grant_cookie r =
    first_value r.cookies (if r.tls then grant_cookie_host ∷ [] else grant_cookie_names)

-- `stripGrantCookie`: the cookies that are left.
unfoldable pub strip_grant_cookie : List (String × String) → List (String × String)
strip_grant_cookie [] = []
strip_grant_cookie ((n, v) ∷ cookies) =
    let rest = strip_grant_cookie cookies in
    if contains grant_cookie_names n then rest else (n, v) ∷ rest

unfoldable pub allowed : String → List String → List String → Bool
allowed user_id access admins = contains access user_id || contains admins user_id

-- A public key that can be decoded gives a check of cookie values.
module _ (new_verifier : String → Option (String → Option (String × String))) where
  unfoldable pub by_grant : Route → Table → Option (String × String) → Bool
  by_grant route table none = false
  by_grant route table (some (app, user_id)) =
      if str_eq user_id "" || not (str_eq app route.app)
      then false
      else str_eq user_id preview_principal || allowed user_id route.access table.admins

  unfoldable pub by_key : Route → Table → String → Option (String → Option (String × String)) → Bool
  unfolding by_grant
  by_key route table value none = false
  by_key route table value (some verify) = by_grant route table (verify value)

  -- The cookies to forward, if the request may be served without asking control.
  unfoldable pub may_serve_privately :
      ProxyRequest → Route → Table → Option (List (String × String))
  unfolding by_key
  may_serve_privately r route table =
      let value = grant_cookie r in
      let proved = by_key route table value (new_verifier table.grant_public_key) in
      if not (str_eq r.authorization "")
      then none
      else if contains hostit_paths r.path
      then none
      else if str_eq value "" || str_eq table.grant_public_key ""
      then none
      else if proved
      then some (strip_grant_cookie r.cookies)
      else none

  -- What a served request has proved.
  pub record HasProved (r : ProxyRequest) (route : Route) (table : Table) : Type 0 where
    pub verify : String → Option (String × String)
    pub user_id : String
    pub unauthorized : r.authorization ≡ ""
    pub not_hostits : contains hostit_paths r.path ≡ false
    pub key : new_verifier table.grant_public_key ≡ some verify
    pub verified : verify (grant_cookie r) ≡ some (route.app, user_id)
    pub named : user_id ≢ ""
    pub may : (user_id ≡ preview_principal) ⊎ (allowed user_id route.access table.admins ≡ true)

  by_grant_proved :
      (route : Route) (table : Table) (o : Option (String × String))
      → by_grant route table o ≡ true
      → (user_id : String) × (o ≡ some (route.app, user_id))
        × (user_id ≢ "")
        × ((user_id ≡ preview_principal) ⊎ (allowed user_id route.access table.admins ≡ true))
  unfolding by_grant
  by_grant_proved route table none h = cc
  by_grant_proved route table (some (app, u)) h =
      elim (Bool-cases (str_eq u "" || not (str_eq app route.app))) [
        | inl bad ↦ absurd (ground arith)
        | inr good ↦ (
          u,
          ap (λ a. some (a, u)) (ground (arith, eq_iff app route.app)),
          λ e. absurd (ground (arith, eq_iff u "")),
          ground (arith, eq_iff u preview_principal),
        )
      ]

  by_key_proved :
      (route : Route) (table : Table) (value : String)
      (o : Option (String → Option (String × String)))
      → by_key route table value o ≡ true
      → (verify : String → Option (String × String)) × (o ≡ some verify)
        × (by_grant route table (verify value) ≡ true)
  unfolding by_key
  by_key_proved route table value none h = cc
  by_key_proved route table value (some verify) h = (verify, refl, h)

  -- A proxy serves a private app without asking control only a request that has proved its right:
  -- it carries no bearer token, is not for one of hostit's own paths, and has a grant that the
  -- pushed key verifies, for this route's app and for a user that is in its access set, an
  -- administrator, or control's own preview. What it forwards is the cookies without the grant.
  pub may_serve_privately_proved :
      (r : ProxyRequest) (route : Route) (table : Table) (forwarded : List (String × String))
      → may_serve_privately r route table ≡ some forwarded
      → HasProved r route table × (forwarded ≡ strip_grant_cookie r.cookies)
  unfolding may_serve_privately
  may_serve_privately_proved r route table forwarded h =
      let (verify, key, granted) =
        by_key_proved route table (grant_cookie r) (new_verifier table.grant_public_key)
          (ground arith) in
      let (user_id, verified, named, may) =
        by_grant_proved route table (verify (grant_cookie r)) granted in
      (
        record {
          verify = verify;
          user_id = user_id;
          unauthorized = ground (arith, eq_iff r.authorization "");
          not_hostits = ground arith;
          key = key;
          verified = verified;
          named = named;
          may = may;
        },
        ground arith,
      )

-- No forwarded cookie has the name of a grant, and every other cookie is forwarded.
pub strip_grant_cookie_lem :
    (cookies : List (String × String)) (name : String)
    → cookie_value (strip_grant_cookie cookies) name
      ≡ (if contains grant_cookie_names name then "" else cookie_value cookies name)
unfolding strip_grant_cookie cookie_value
strip_grant_cookie_lem [] name = ground arith
strip_grant_cookie_lem ((n, v) ∷ cookies) name = ground (
  arith,
  strip_grant_cookie_lem cookies name,
  eq_iff grant_cookie_host name,
  eq_iff grant_cookie_bare name,
  eq_iff grant_cookie_host n,
  eq_iff grant_cookie_bare n,
  eq_iff n name,
)

-- Under TLS a cookie with the bare name proves nothing: without a cookie with the `__Host-` name
-- there is no grant.
pub grant_cookie_tls :
    (r : ProxyRequest)
    → r.tls ≡ true
    → cookie_value r.cookies grant_cookie_host ≡ ""
    → grant_cookie r ≡ ""
unfolding grant_cookie
grant_cookie_tls r t none_there = rw t (rw none_there)
