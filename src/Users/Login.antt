-- ===== src/Users/Login.antt =====
-- What signing in does to an account.
use hostit.Common.{
  String, Bool, true, false, List, [], ◌∷◌, Option, none, some, ◌≡◌, ◌⊎◌, refl, ap, sym, subst, ◌∙◌,
  inl, inr, arith, Bool-cases, some_inj, ◌&&◌, if◌then◌else◌, str_eq, str_eq_self, str_eq-false,
  contains,
}
use text.Mathlib.TextEquality.{eq_iff}
use hostit.Store.{role_admin, role_user, Status, pending, active, denied, User}
use hostit.Users.{
  Config, Accounts, normal, admin_emails_of, email_domain_allowed, user_by_email, update_user,
  is_pending, promoted, new_user, blank_user, named, swept, known_user, login_found, login,
}

-- What signing in may make of an account that is there.
abbrev pub IsKept : User → User → Bool → Type 0
IsKept v u allowed =
    (u.role ≡ v.role)
    × ((u.status ≡ v.status) ⊎ ((v.status ≡ pending) × (u.status ≡ active) × (allowed ≡ true)))

user_by_email-some :
    (users : List User) (email : String) {v : User}
    → user_by_email users email ≡ some v
    → v.email ≡ email
unfolding user_by_email
user_by_email-some [] email h = cc
user_by_email-some (u ∷ users) email {v} h =
    ground (arith, user_by_email-some users email {v = v}, eq_iff u.email email)

is_pending-true : (s : Status) → is_pending s ≡ true → s ≡ pending
unfolding is_pending
is_pending-true pending h = refl
is_pending-true active h = cc
is_pending-true denied h = cc

swept-IsKept : (v : User) (allowed : Bool) → IsKept v (swept allowed v) allowed
unfolding swept
swept-IsKept v allowed = elim (Bool-cases (allowed && is_pending v.status)) [
  | inl both ↦ rw both (refl, inr (is_pending-true v.status (ground arith), refl, ground arith))
  | inr not_both ↦ rw not_both (refl, inl refl)
]

-- A name changes neither the role nor the status.
named-same :
    (name : String) (v : User)
    → ((named name v).role ≡ v.role)
      × ((named name v).status ≡ v.status)
      × ((named name v).id ≡ v.id)
      × ((named name v).email ≡ v.email)
unfolding named
named-same name v = ground arith

known_user-IsKept :
    (v : User) (name : String) (allowed : Bool) → IsKept v (known_user v name allowed false) allowed
unfolding known_user promoted
known_user-IsKept v name allowed =
    let (role, status, _, _) = named-same name v in
    let (kept, swept) = swept-IsKept (named name v) allowed in
    (
      kept ∙ role,
      elim swept [
        | inl same ↦ inl (same ∙ status)
        | inr (waiting, now, ok) ↦ inr (sym status ∙ waiting, now, ok)
      ],
    )

swept-same :
    (allowed : Bool) (v : User)
    → ((swept allowed v).id ≡ v.id) × ((swept allowed v).email ≡ v.email)
unfolding swept
swept-same allowed v = ground arith

promoted-same :
    (b : Bool) (v : User) → ((promoted b v).id ≡ v.id) × ((promoted b v).email ≡ v.email)
unfolding promoted
promoted-same b v = ground arith

-- An account keeps its id and its address.
known_user-same :
    (v : User) (name : String) (allowed admin : Bool)
    → ((known_user v name allowed admin).id ≡ v.id)
      × ((known_user v name allowed admin).email ≡ v.email)
unfolding known_user
known_user-same v name allowed admin =
    let (_, _, id, email) = named-same name v in
    let (id2, email2) = swept-same allowed (named name v) in
    let (id3, email3) = promoted-same admin (swept allowed (named name v)) in
    (id3 ∙ id2 ∙ id, email3 ∙ email2 ∙ email)

user_by_email-update_user :
    (u : User) (users : List User) (email : String) {v : User}
    → u.email ≡ email
    → user_by_email users email ≡ some v
    → v.id ≡ u.id
    → user_by_email (update_user u users) email ≡ some u
unfolding user_by_email update_user
user_by_email-update_user u [] email e h i = cc
user_by_email-update_user u (w ∷ users) email {v} e h i = elim (Bool-cases (str_eq w.id u.id)) [
  | inl same ↦ rw same (rw e (rw (str_eq_self email) refl))
  | inr other ↦ elim (Bool-cases (str_eq w.email email)) [
    | inl first ↦
        let found : w ≡ v = some_inj (ground arith) in
        absurd (str_eq-false w.id u.id other (ap (λ x. x.id) found ∙ i))
    | inr later ↦
        rw other (rw later (user_by_email-update_user u users email {v = v} e (ground arith) i))
  ]
]

-- What signing in makes of the account of an address: of an administrator's address, of a new one,
-- and of one that is there.
abbrev pub IsSignedIn : Bool → Bool → Option User → User → Type 0
IsSignedIn true allowed o u = (u.role ≡ role_admin) × (u.status ≡ active)
IsSignedIn false allowed none u =
    (u.role ≡ role_user) × (u.status ≡ (if allowed then active else pending))
IsSignedIn false allowed (some v) u = IsKept v u allowed

promoted-admin :
    (u : User) → ((promoted true u).role ≡ role_admin) × ((promoted true u).status ≡ active)
unfolding promoted
promoted-admin u = (refl, refl)

new_user-IsSignedIn :
    (id address name : String) (allowed admin : Bool)
    → IsSignedIn admin allowed none (new_user id address name allowed admin)
unfolding new_user promoted blank_user
new_user-IsSignedIn id address name allowed true = (refl, refl)
new_user-IsSignedIn id address name allowed false = (refl, refl)

new_user-email :
    (id address name : String) (allowed admin : Bool)
    → (new_user id address name allowed admin).email ≡ address
unfolding new_user blank_user
new_user-email id address name allowed admin =
    (promoted-same admin
      (blank_user id address name role_user (if allowed then active else pending))).1

known_user-IsSignedIn :
    (v : User) (name : String) (allowed admin : Bool)
    → IsSignedIn admin allowed (some v) (known_user v name allowed admin)
unfolding known_user
known_user-IsSignedIn v name allowed true = promoted-admin (swept allowed (named name v))
known_user-IsSignedIn v name allowed false = known_user-IsKept v name allowed

login_found-cases :
    (s : Accounts) (id address name : String) (allowed admin : Bool) (o : Option User)
    (s2 : Accounts) (u : User)
    → user_by_email s.users address ≡ o
    → login_found s id address name allowed admin true o ≡ (s2, some u)
    → (user_by_email s2.users address ≡ some u)
      × (s2.allowed_domains ≡ s.allowed_domains)
      × IsSignedIn admin allowed o u
unfolding login_found user_by_email
login_found-cases s id address name allowed admin none s2 u e h =
    let same : new_user id address name allowed admin ≡ u = some_inj (ap (λ r. r.1) h) in
    let after = ap (λ r. r.0) h in
    (
      ap (λ x. user_by_email x.users address) (sym after)
          ∙ rw (new_user-email id address name allowed admin)
              (rw (str_eq_self address) (ap some same)),
      ap (λ x. x.allowed_domains) (sym after),
      subst (IsSignedIn admin allowed none) same
          (new_user-IsSignedIn id address name allowed admin),
    )
login_found-cases s id address name allowed admin (some v) s2 u e h =
    let same : known_user v name allowed admin ≡ u = some_inj (ap (λ r. r.1) h) in
    let after = ap (λ r. r.0) h in
    let (id_same, email_same) = known_user-same v name allowed admin in
    (
      ap (λ x. user_by_email x.users address) (sym after)
          ∙ user_by_email-update_user (known_user v name allowed admin) s.users address
              (email_same ∙ user_by_email-some s.users address e) e (sym id_same)
          ∙ ap some same,
      ap (λ x. x.allowed_domains) (sym after),
      subst (IsSignedIn admin allowed (some v)) same (known_user-IsSignedIn v name allowed admin),
    )

module _ (c : Config) (s : Accounts) (id email name : String) (stored : Bool) where
  login-empty : str_eq (normal c email) "" ≡ true → login c s id stored email name ≡ (s, none)
  unfolding login
  login-empty h = rw h refl

  login-given :
      str_eq (normal c email) "" ≡ false
      → login c s id stored email name
        ≡ login_found s id
            (normal c email)
            name
            (email_domain_allowed s (normal c email))
            (contains (admin_emails_of c) (normal c email))
            stored
            (user_by_email s.users (normal c email))
  unfolding login
  login-given h = rw h refl

-- Signing in with a verified address leaves its account in the directory, and no right that the address
-- does not have: a configured administrator's is an active administrator's; a new account is an
-- ordinary user's, active only under an allowed domain; an account that was there keeps its role, and
-- its status unless it was pending under an allowed domain. So who was denied stays denied, unless
-- the address is a configured administrator's.
pub login-cases :
    (c : Config) (s : Accounts) (id email name : String) (s2 : Accounts) (u : User)
    → login c s id true email name ≡ (s2, some u)
    → (user_by_email s2.users (normal c email) ≡ some u)
      × (s2.allowed_domains ≡ s.allowed_domains)
      × IsSignedIn
          (contains (admin_emails_of c) (normal c email))
          (email_domain_allowed s (normal c email))
          (user_by_email s.users (normal c email))
          u
login-cases c s id email name s2 u h = elim (Bool-cases (str_eq (normal c email) "")) [
  | inl empty ↦
      let clash : none ≡ some u =
        ap (λ r. r.1) (sym (login-empty c s id email name true empty) ∙ h) in
      cc
  | inr given ↦
      login_found-cases s id (normal c email) name (email_domain_allowed s (normal c email))
        (contains (admin_emails_of c) (normal c email)) (user_by_email s.users (normal c email)) s2
        u refl (sym (login-given c s id email name true given) ∙ h)
]
