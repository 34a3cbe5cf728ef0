-- ===== src/Credentials/Access.antt =====
-- The grant as the proxies meet it: control signs it (control/appaccess.go) and pushes the public key
-- with the routing table; proxy/grant.go checks it.
use hostit.Common.{
  ℕ, ◌+◌, ◌^◌, ◌≤◌, ◌<◌, String, false, List, none, some, ◌≡◌, ◌≢◌, refl, ap, sym, ◌∙◌, inl, inr,
  arith, some_inj, str_eq_self, str_neq, contains, if◌then◌else◌,
}
use mathlib.Core.List.{Memᴰ}
use hostit.Store.{App, User}
use hostit.Access.{Grants, find_user, may_view_app, access_set, active_admins}
use hostit.Access.Agreement.{HasUniqueUsers, HasUniqueApps, grant_caller, allowed-eq-may_view_app}
use hostit.Access.Proxy.{
  ProxyRequest, Route, Table, hostit_paths, preview_principal, grant_cookie, strip_grant_cookie,
  by_grant, by_key, may_serve_privately,
}
use hostit.Common.Fields.{split_bar}
use hostit.Credentials.{
  second, Signatures, IsDocumented, sign_grant, verify_grant, verify_fields, new_verifier,
  public_key, public_key_size,
}
use hostit.Credentials.Laws.{verify_grant-sign_grant, new_verifier-public_key}

-- Control's routing table and a route in it, as they are built from the store for an app.
pub record IsBuiltFor (g : Grants) (apps : List App) (a : App) (key : String) (table : Table)
    (route : Route) : Type 0 where
  pub key_pushed : table.grant_public_key ≡ key
  pub admins_resolved : table.admins ≡ active_admins g.users
  pub app_named : route.app ≡ a.name
  pub access_resolved : route.access ≡ access_set g apps a.id

-- A request that shows a cookie value and no bearer token, for the app itself.
pub record Shows (r : ProxyRequest) (value : String) : Type 0 where
  pub unauthorized : r.authorization ≡ ""
  pub for_app : contains hostit_paths r.path ≡ false
  pub shown : grant_cookie r ≡ value

-- The store's ids are unique, and the app and the user are in it.
pub record IsStored (g : Grants) (apps : List App) (a : App) (u : User) : Type 0 where
  pub users_once : HasUniqueUsers g.users
  pub apps_once : HasUniqueApps apps
  pub listed : Memᴰ a apps
  pub known : find_user g.users u.id ≡ some u
  pub named : u.id ≢ ""
  pub no_preview : u.id ≢ preview_principal

module _ (go : Signatures) (documented : IsDocumented go) where
  public_key_there : (key : go.Bytes) → public_key go key ≢ ""
  unfolding public_key
  public_key_there key e =
      let none_there : go.size (go.public_half key) ≡ 0 =
        documented.encoding_empty (go.public_half key) e in
      let full : go.size (go.public_half key) ≡ public_key_size = documented.public_size key in
      omega arith

  verify_grant_empty : (raw : go.Bytes) (now : ℕ) → verify_grant go raw now "" ≡ none
  unfolding verify_grant verify_fields split_bar
  verify_grant_empty raw now = refl

  -- What a signed grant is to a verifier.
  signed_verifies :
      (key : go.Bytes) (ttl now later : ℕ) (app user_id value : String)
      → now + ttl < 2 ^ 64
      → later + second ≤ now + ttl
      → sign_grant go key ttl now app user_id ≡ some value
      → verify_grant go (go.public_half key) later value ≡ some (app, user_id)
  signed_verifies key ttl now later app user_id value h k signed =
      elim (verify_grant-sign_grant go documented key ttl now later app user_id h k) [
        | inl (refused, _) ↦ cc
        | inr (v, given, good) ↦
            ap (verify_grant go (go.public_half key) later) (some_inj (sym signed ∙ given)) ∙ good
      ]

  value_there :
      (raw : go.Bytes) (now : ℕ) (value app user_id : String)
      → verify_grant go raw now value ≡ some (app, user_id)
      → value ≢ ""
  value_there raw now value app user_id h e =
      let refused : verify_grant go raw now value ≡ none =
        ap (verify_grant go raw now) e ∙ verify_grant_empty raw now in
      cc

  -- A grant that control signed for a user and an app opens the app on a proxy, until the last second of
  -- its life, exactly if control itself would let the user in now: the proxy then serves the
  -- request without control and forwards the cookies without the grant, and otherwise asks
  -- control. The proxy has the public key, the administrators and the app's access set that control
  -- resolved; the user is not the name that control's preview uses.
  pub grant_opens :
      (g : Grants) (apps : List App) (a : App) (u : User) (key : go.Bytes) (ttl now later : ℕ)
      (value : String) (r : ProxyRequest) (table : Table) (route : Route)
      → IsStored g apps a u
      → sign_grant go key ttl now a.name u.id ≡ some value
      → now + ttl < 2 ^ 64
      → later + second ≤ now + ttl
      → IsBuiltFor g apps a (public_key go key) table route
      → Shows r value
      → may_serve_privately (new_verifier go later) r route table
        ≡ (if may_view_app g (grant_caller u) a then some (strip_grant_cookie r.cookies) else none)
  unfolding may_serve_privately by_key by_grant
  grant_opens g apps a u key ttl now later value r table route stored signed h k built shows =
      let good = signed_verifies key ttl now later a.name u.id value h k signed in
      let some_value =
        str_neq value "" (value_there (go.public_half key) later value a.name u.id good) in
      let some_key = str_neq (public_key go key) "" (public_key_there key) in
      rw shows.shown (
        rw shows.unauthorized (
          rw shows.for_app (
            rw some_value (
              rw built.key_pushed (
                rw some_key (
                  rw (new_verifier-public_key go documented key later) (
                    rw good (
                      rw built.app_named (
                        rw built.access_resolved (
                          rw built.admins_resolved (
                            rw
                              (allowed-eq-may_view_app g apps a u stored.users_once stored.apps_once
                                stored.listed stored.known)
                              (rw (str_neq u.id "" stored.named) (
                                rw (str_neq u.id preview_principal stored.no_preview)
                                  (rw (str_eq_self a.name) refl))))))))))))))
