-- ===== src/Auth/Identity.antt =====
-- Who `authenticate` says a caller is, and what an app-scoped token reaches.
use Prim.Native.Char.{Char, code}
use hostit.Common.{
  ◌≡◌, ◌≢◌, refl, sym, ap, ◌∙◌, ◌⊎◌, inl, inr, String, true, false, not, ◌&&◌, Option, none, some,
  arith, Bool-cases, str_eq, str_eq→eq, string_append, trim_prefix, trim_prefix-cases,
}
use text.Mathlib.TextEquality.{eq_iff, starts_with_iff}
use text.Mathlib.TextLemmas.{nil-append, cons-append, append-nil, append_assoc, append_cancel_left}
use hostit.Store.{User}
use hostit.Auth.{
  Caller, Request, Services, authenticate, by_token, by_cookie, by_session, by_user, is_root,
  api_prefix, within_app_scope,
}

-- A text with no slash: an app's name.
abbrev pub NoSlash : String → Type 0
NoSlash String.[] = Unit
NoSlash (String.◌∷◌ c s) = (code c ≢ b'/') × NoSlash s

-- What may follow an app's name in a path of its own: nothing, or a slash and more.
abbrev IsTail : String → Type 0
IsTail String.[] = Unit
IsTail (String.◌∷◌ c s) = code c ≡ b'/'

tail_head : (r : String) (d : Char) (x : String) → IsTail r → r ≡ String.◌∷◌ d x → code d ≡ b'/'
tail_head String.[] d x i e = cc
tail_head (String.◌∷◌ c r) d x i e = ground arith

-- Names without slashes that begin one path, each followed by a slash or by nothing, are the same.
names-eq :
    (a b r t : String)
    → NoSlash a
    → NoSlash b
    → IsTail r
    → IsTail t
    → string_append a r ≡ string_append b t
    → a ≡ b
names-eq String.[] String.[] r t h k i j e = refl
names-eq String.[] (String.◌∷◌ d b) r t h k i j e =
    absurd (k.0 (tail_head r d (string_append b t) i (sym (nil-append r) ∙ e ∙ cons-append d b t)))
names-eq (String.◌∷◌ c a) String.[] r t h k i j e =
    absurd
      (h.0 (tail_head t c (string_append a r) j (sym (nil-append t) ∙ sym e ∙ cons-append c a r)))
names-eq (String.◌∷◌ c a) (String.◌∷◌ d b) r t h k i j e =
    let e' : String.◌∷◌ c (string_append a r) ≡ String.◌∷◌ d (string_append b t) =
      sym (cons-append c a r) ∙ e ∙ cons-append d b t in
    ground (arith, names-eq a b r t h.1 k.1 i j)

abbrev app_prefix : String
app_prefix = string_append api_prefix "/apps/"

info_path : String
info_path = string_append api_prefix "/info"

-- A path within an app's scope is the guide, or the app's name and a tail behind the prefix.
within_app_scope-cases :
    (path app : String)
    → within_app_scope path app ≡ true
    → (path ≡ "/api/info")
      ⊎ ((r : String) × IsTail r × (path ≡ string_append "/api/apps/" (string_append app r)))
unfolding within_app_scope
within_app_scope-cases path app h =
    let prefix = string_append "/api/apps/" app in
    elim (Bool-cases (str_eq path "/api/info")) [
      | inl info ↦ inl (str_eq→eq path "/api/info" info)
      | inr other ↦ elim (Bool-cases (str_eq path prefix)) [
        | inl whole ↦ inr (
          "",
          tt,
          str_eq→eq path prefix whole ∙ ap (string_append "/api/apps/") (sym (append-nil app)),
        )
        | inr longer ↦
            let (u, e) = (starts_with_iff path (string_append prefix "/")).0 (ground arith) in
            inr (
              string_append "/" u,
              rw cons-append refl,
              sym e
                  ∙ append_assoc prefix "/" u
                  ∙ append_assoc "/api/apps/" app (string_append "/" u),
            )
      ]
    ]

-- The scopes of two apps share nothing but the platform guide: a path within both is the guide's,
-- or the two names are one. App names hold no slash.
pub within_app_scope_apart :
    (path a b : String)
    → NoSlash a
    → NoSlash b
    → within_app_scope path a ≡ true
    → within_app_scope path b ≡ true
    → (path ≡ "/api/info") ⊎ (a ≡ b)
within_app_scope_apart path a b h k wa wb = elim (within_app_scope-cases path a wa) [
  | inl info ↦ inl info
  | inr (r, i, e) ↦ elim (within_app_scope-cases path b wb) [
    | inl info ↦ inl info
    | inr (t, j, f) ↦ inr (
        names-eq a b r t h k i j
          (append_cancel_left "/api/apps/" (string_append a r) (string_append b t) (sym e ∙ f)))
  ]
]

-- Somebody with a session: a user, and no more than that.
abbrev pub IsPerson : Caller → Type 0
IsPerson c =
    (c.global_admin ≡ false)
    × (c.app_scope ≡ "")
    × (c.via_cookie ≡ true)
    × ((u : User) × (c.user ≡ some u))

by_user-IsPerson : (o : Option User) (c : Caller) → by_user o ≡ some c → IsPerson c
unfolding by_user
by_user-IsPerson none c e = cc
by_user-IsPerson (some u) c e = (ground arith, ground arith, ground arith, (u, ground arith))

module _ (s : Services) where
  by_token_admin :
      (token : String) (c : Caller)
      → by_token s token ≡ some c
      → c.global_admin ≡ true
      → token ≡ s.admin_token
  unfolding by_token
  by_token_admin token c e g = elim (Bool-cases (str_eq token s.admin_token)) [
    | inl same ↦ str_eq→eq token s.admin_token same
    | inr other ↦ ground arith
  ]

  by_session-IsPerson : (o : Option String) (c : Caller) → by_session s o ≡ some c → IsPerson c
  unfolding by_session
  by_session-IsPerson none c e = cc
  by_session-IsPerson (some id) c e = by_user-IsPerson (s.user_by_id id) c e

  by_cookie-IsPerson : (session : String) (c : Caller) → by_cookie s session ≡ some c → IsPerson c
  unfolding by_cookie
  by_cookie-IsPerson session c e = elim (Bool-cases (str_eq session "")) [
    | inl absent ↦ absurd (ground arith)
    | inr given ↦ by_session-IsPerson (s.decode_session session) c (ground arith)
  ]

  -- Super-admin rights come from root on the unix socket, or from a bearer token that is the
  -- configured admin token, which is then not empty: with no admin token configured, no request over
  -- the network has them.
  pub authenticate_super_admin :
      (r : Request) (c : Caller)
      → authenticate s r ≡ some c
      → c.global_admin ≡ true
      → (is_root r.peer_uid ≡ true)
        ⊎ ((s.admin_token ≢ "") × (r.authorization ≡ string_append "Bearer " s.admin_token))
  unfolding authenticate
  authenticate_super_admin r c e g =
      let token = trim_prefix r.authorization "Bearer " in
      elim (Bool-cases (is_root r.peer_uid)) [
        | inl root ↦ inl root
        | inr remote ↦
            elim (Bool-cases (not (str_eq token "") && not (str_eq token r.authorization))) [
              | inl bearer ↦
                  let same : token ≡ s.admin_token = by_token_admin token c (ground arith) g in
                  inr (
                    λ empty. absurd (ground (arith, eq_iff token "", same ∙ empty)),
                    elim (trim_prefix-cases r.authorization "Bearer ") [
                      | inl whole ↦ absurd (ground (arith, eq_iff token r.authorization))
                      | inr behind ↦ behind ∙ ap (string_append "Bearer ") same
                    ],
                  )
              | inr none_given ↦ ground (arith, by_cookie-IsPerson r.session c)
            ]
      ]
