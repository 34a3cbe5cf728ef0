-- ===== src/Connections/Lending.antt =====
-- Which connections an app gets a credential of.
use hostit.Common.{
  String, true, false, List, [], ◌∷◌, none, some, ◌≡◌, inl, inr, refl, ap, sym, ◌∙◌, arith,
  Bool-cases, some_inj, ◌&&◌, if◌then◌else◌, str_eq, str_eq_self, str_eq→eq,
}
use hostit.Connections.{
  Connection, Grant, Borrower, has_grant, connection_by_slug, app_connections, granted_to,
  revoke_connection,
}
use hostit.Connections.Custody.{Token, Manager, World, Answer, refused, not_connected, not_granted}
use hostit.Connections.Serving.{token_for, token_found, token_by}

has_grant_of :
    (grants : List Grant) (app_id a b : String)
    → str_eq a b ≡ true
    → has_grant grants app_id a ≡ has_grant grants app_id b
has_grant_of grants app_id a b e = ap (has_grant grants app_id) (str_eq→eq a b e)

granted_to_sound :
    (cs : List Connection) (grants : List Grant) (a : Borrower) (id : String)
    → granted_to (app_connections cs grants a) id ≡ true
    → has_grant grants a.id id ≡ true
unfolding granted_to app_connections
granted_to_sound [] grants a id h = cc
granted_to_sound (c ∷ cs) grants a id h =
    ground (arith, granted_to_sound cs grants a id, has_grant_of grants a.id c.id id)

granted_to_complete :
    (cs : List Connection) (grants : List Grant) (a : Borrower) (slug : String) {c : Connection}
    → connection_by_slug cs a.owner_id slug ≡ some c
    → has_grant grants a.id c.id ≡ true
    → granted_to (app_connections cs grants a) c.id ≡ true
unfolding granted_to app_connections connection_by_slug
granted_to_complete [] grants a slug e h = cc
granted_to_complete (d ∷ cs) grants a slug {c} e h =
    elim (Bool-cases (str_eq d.user_id a.owner_id && str_eq d.slug slug)) [
      | inl here ↦
          let same : d ≡ c = some_inj (rw here at e) in
          let granted : has_grant grants a.id d.id ≡ true =
            ap (λ (x : Connection). has_grant grants a.id x.id) same ∙ h in
          let self : str_eq d.id c.id ≡ true =
            ap (λ (x : Connection). str_eq d.id x.id) (sym same) ∙ str_eq_self d.id in
          ground arith
      | inr there ↦
          let rest = granted_to_complete cs grants a slug {c = c} (rw there at e) h in ground arith
    ]

-- Whether the app was granted the row that it named decides the answer.
pub token_for-found :
    (w : World) (m : Manager) (a : Borrower) (slug : String) {c : Connection}
    → connection_by_slug m.connections a.owner_id slug ≡ some c
    → token_for w m a slug ≡ (
        if has_grant m.grants a.id c.id
        then token_by w m c (w.provider_for c.user_id c.provider)
        else (refused not_granted, m))
unfolding token_for token_found
token_for-found w m a slug {c} e = rw e (elim (Bool-cases (has_grant m.grants a.id c.id)) [
  | inl lent ↦ rw lent (rw (granted_to_complete m.connections m.grants a slug e lent) refl)
  | inr withheld ↦
      rw withheld (elim (Bool-cases (granted_to (app_connections m.connections m.grants a) c.id)) [
        | inl listed ↦ let clash = granted_to_sound m.connections m.grants a c.id listed in cc
        | inr unlisted ↦ rw unlisted refl
      ])
])

pub token_for-missing :
    (w : World) (m : Manager) (a : Borrower) (slug : String)
    → connection_by_slug m.connections a.owner_id slug ≡ none
    → token_for w m a slug ≡ (refused not_connected, m)
unfolding token_for token_found
token_for-missing w m a slug h = rw h refl

has_grant-revoke_connection :
    (grants : List Grant) (app_id id : String)
    → has_grant (revoke_connection app_id id grants) app_id id ≡ false
unfolding has_grant revoke_connection
has_grant-revoke_connection [] app_id id = refl
has_grant-revoke_connection (g ∷ gs) app_id id =
    ground (arith, has_grant-revoke_connection gs app_id id)

-- A grant that is taken back is gone at once: whatever access token is cached, the app's next
-- request for the connection is refused as one that was not granted.
pub token_for-revoke_connection :
    (w : World) (m : Manager) (a : Borrower) (slug : String) {c : Connection}
    → connection_by_slug m.connections a.owner_id slug ≡ some c
    → (token_for w (record m { grants = revoke_connection a.id c.id m.grants }) a slug).0
      ≡ refused not_granted
token_for-revoke_connection w m a slug {c} e =
    let m' = record m { grants = revoke_connection a.id c.id m.grants } in
    ap (λ (r : Answer Token × Manager). r.0) (token_for-found w m' a slug e)
    ∙ rw (has_grant-revoke_connection m.grants a.id c.id) refl
