-- ===== src/Credentials/Laws.antt =====
-- Round trips and soundness of the session cookie and of the grant.
use hostit.Common.{
  ℕ, ◌+◌, ◌*◌, ◌/◌, ◌^◌, ◌≤◌, ◌<◌, String, true, false, List, [], ◌∷◌, Option, none, some, ◌≡◌,
  refl, sym, ap, ◌∙◌, ◌⊎◌, inl, inr, arith, Bool-cases, ◌||◌, str_eq, str_eq_self, str_eq→eq,
  string_append, has_bar, split_bar, bar, split_bar-bar, split_bar_one, join_bar-split_bar,
  has_bar-itoa, atoi, itoa, atoi-itoa,
}
use hostit.Common.Fields.{join_bar}
use hostit.Common.Int.{ℤ, pos, negsuc}
use hostit.Credentials.{
  second, session_ttl, expiry_at, is_expired, unless_expired, encode, decode_fields, decode,
  Signatures, IsDocumented, sign_grant, signature_holds, verify_fields, verify_grant, verifier_of,
  new_verifier, public_key,
}
use text.Mathlib.TextLemmas.{append_assoc}

pub bar_assoc : (a b c : String) → bar (bar a b) c ≡ bar a (bar b c)
bar_assoc a b c =
    append_assoc a (string_append "|" b) (string_append "|" c)
    ∙ ap (string_append a) (append_assoc "|" b (string_append "|" c))

expiry_at-atoi :
    (now ttl : ℕ)
    → now + ttl < 2 ^ 64
    → atoi (itoa (pos (expiry_at now ttl))) ≡ some (pos (expiry_at now ttl))
unfolding expiry_at
expiry_at-atoi now ttl h = atoi-itoa ((now + ttl) / second) (omega arith)

expiry_at-is_expired :
    (now ttl later : ℕ)
    → now + ttl < 2 ^ 64
    → later + second ≤ now + ttl
    → is_expired later (pos (expiry_at now ttl)) ≡ false
unfolding expiry_at is_expired
expiry_at-is_expired now ttl later h k = ground arith

unless_expired_fresh {ℓ} :
    {A : Type ℓ} (now ttl later : ℕ) (a : A)
    → now + ttl < 2 ^ 64
    → later + second ≤ now + ttl
    → unless_expired later (atoi (itoa (pos (expiry_at now ttl)))) a ≡ some a
unfolding unless_expired
unless_expired_fresh now ttl later a h k =
    rw (expiry_at-atoi now ttl h) (rw (expiry_at-is_expired now ttl later h k) refl)

-- What is not expired has an expiry, which the clock has not passed.
unless_expired-some {ℓ} :
    {A : Type ℓ} (now : ℕ) (o : Option ℤ) (a b : A)
    → unless_expired now o a ≡ some b
    → (e : ℕ) × (o ≡ some (pos e)) × (now ≤ e * second) × (a ≡ b)
unfolding unless_expired is_expired
unless_expired-some now none a b h = cc
unless_expired-some now (some (negsuc e)) a b h = cc
unless_expired-some now (some (pos e)) a b h = (e, refl, ground arith, ground arith)

three_fields :
    (a b c : String)
    → has_bar a ≡ false
    → has_bar b ≡ false
    → has_bar c ≡ false
    → split_bar (bar (bar a b) c) ≡ a ∷ b ∷ c ∷ []
three_fields a b c ha hb hc = rw (bar_assoc a b c) (
    split_bar-bar a (bar b c) ha
    ∙ ap (◌∷◌ a) (split_bar-bar b c hb ∙ ap (◌∷◌ b) (split_bar_one c hc)))

module _ (sign : String → String) where
  decode_fields-some :
      (now : ℕ) (ps : List String) (user_id : String)
      → decode_fields sign now ps ≡ some user_id
      → (text : String) × (e : ℕ) × (atoi text ≡ some (pos e))
        × (now ≤ e * second)
        × (join_bar ps ≡ bar (bar user_id text) (sign (bar user_id text)))
  unfolding decode_fields join_bar
  decode_fields-some now [] u h = cc
  decode_fields-some now (a ∷ []) u h = cc
  decode_fields-some now (a ∷ (b ∷ [])) u h = cc
  decode_fields-some now (a ∷ (b ∷ (c ∷ (d ∷ ps)))) u h = cc
  decode_fields-some now (a ∷ (b ∷ (c ∷ []))) u h = elim (Bool-cases (str_eq c (sign (bar a b)))) [
    | inl same ↦
        let (e, read, fresh, named) = unless_expired-some now (atoi b) a u (ground arith) in
        (
          b,
          e,
          read,
          fresh,
          sym (bar_assoc a b c)
              ∙ ap (bar (bar a b)) (str_eq→eq c (sign (bar a b)) same)
              ∙ ap (λ x. bar (bar x b) (sign (bar x b))) named,
        )
    | inr differs ↦ absurd (ground arith)
  ]

  -- A session cookie names a user only if it is that user's name, an expiry that the clock has not
  -- passed, and the MAC of the two: no other text is accepted.
  pub decode_sound :
      (now : ℕ) (value user_id : String)
      → decode sign now value ≡ some user_id
      → (text : String) × (e : ℕ) × (atoi text ≡ some (pos e))
        × (now ≤ e * second)
        × (value ≡ bar (bar user_id text) (sign (bar user_id text)))
  unfolding decode
  decode_sound now value user_id h =
      let (text, e, read, fresh, same) = decode_fields-some now (split_bar value) user_id h in
      (text, e, read, fresh, sym (join_bar-split_bar value) ∙ same)

  -- The MAC's text encoding has no bar. Then a session cookie names its user until the last second
  -- of its thirty days, and a user's name with a bar gets no cookie.
  pub decode-encode :
      (now later : ℕ) (user_id : String)
      → ((payload : String) → has_bar (sign payload) ≡ false)
      → now + session_ttl < 2 ^ 64
      → later + second ≤ now + session_ttl
      → (has_bar user_id ≡ true) × (encode sign now user_id ≡ none)
        ⊎ ((value : String) × (encode sign now user_id ≡ some value)
            × (decode sign later value ≡ some user_id))
  unfolding encode decode decode_fields
  decode-encode now later user_id bare h k =
      let expiry = itoa (pos (expiry_at now session_ttl)) in
      elim (Bool-cases (has_bar user_id)) [
        | inl barred ↦ inl (barred, rw barred refl)
        | inr fine ↦ inr (
          bar (bar user_id expiry) (sign (bar user_id expiry)),
          rw fine refl,
          rw
              (three_fields user_id expiry (sign (bar user_id expiry)) fine
                (has_bar-itoa (pos (expiry_at now session_ttl))) (bare (bar user_id expiry)))
              (rw (str_eq_self (sign (bar user_id expiry)))
                (unless_expired_fresh now session_ttl later user_id h k)),
        )
      ]

module _ (go : Signatures) (documented : IsDocumented go) where
  four_fields :
      (a b c : String) (raw : go.Bytes)
      → has_bar a ≡ false
      → has_bar b ≡ false
      → has_bar c ≡ false
      → split_bar (bar (bar a (bar b c)) (go.encode_text raw)) ≡ a ∷ b ∷ c ∷ go.encode_text raw ∷ []
  four_fields a b c raw ha hb hc = rw (bar_assoc a (bar b c) (go.encode_text raw)) (
      split_bar-bar a (bar (bar b c) (go.encode_text raw)) ha
      ∙ ap (◌∷◌ a) (three_fields b c (go.encode_text raw) hb hc (documented.encoding_bare raw)))

  verify_fields_signed :
      (key : go.Bytes) (now ttl later : ℕ) (app user_id : String)
      → now + ttl < 2 ^ 64
      → later + second ≤ now + ttl
      → let expiry = itoa (pos (expiry_at now ttl)) in
        verify_fields go (go.public_half key) later (
          app
          ∷ user_id
          ∷ expiry
          ∷ go.encode_text (go.sign_with key (bar app (bar user_id expiry)))
          ∷ [])
        ≡ some (app, user_id)
  unfolding verify_fields signature_holds
  verify_fields_signed key now ttl later app user_id h k =
      let expiry = itoa (pos (expiry_at now ttl)) in
      rw (documented.encoding_back (go.sign_with key (bar app (bar user_id expiry)))) (
        rw (documented.signed_verifies key (bar app (bar user_id expiry)))
          (unless_expired_fresh now ttl later (app, user_id) h k))

  -- With the libraries as documented: a grant names its app and its user to whoever holds the
  -- public key, until the last second of its life; names with a bar get no grant.
  pub verify_grant-sign_grant :
      (key : go.Bytes) (ttl now later : ℕ) (app user_id : String)
      → now + ttl < 2 ^ 64
      → later + second ≤ now + ttl
      → (sign_grant go key ttl now app user_id ≡ none)
          × ((has_bar app ≡ true) ⊎ (has_bar user_id ≡ true))
        ⊎ ((value : String) × (sign_grant go key ttl now app user_id ≡ some value)
            × (verify_grant go (go.public_half key) later value ≡ some (app, user_id)))
  unfolding sign_grant verify_grant
  verify_grant-sign_grant key ttl now later app user_id h k =
      let expiry = itoa (pos (expiry_at now ttl)) in
      let payload = bar app (bar user_id expiry) in
      elim (Bool-cases (has_bar app || has_bar user_id)) [
        | inl barred ↦ inl (rw barred refl, ground arith)
        | inr fair ↦ inr (
          bar payload (go.encode_text (go.sign_with key payload)),
          rw fair refl,
          ap (verify_fields go (go.public_half key) later) (
                four_fields app user_id expiry (go.sign_with key payload) (ground arith)
                  (ground arith) (has_bar-itoa (pos (expiry_at now ttl))))
              ∙ verify_fields_signed key now ttl later app user_id h k,
        )
      ]

  -- The public key that control publishes gives the check of its own signer.
  pub new_verifier-public_key :
      (key : go.Bytes) (now : ℕ)
      → new_verifier go now (public_key go key) ≡ some (verify_grant go (go.public_half key) now)
  unfolding new_verifier public_key verifier_of
  new_verifier-public_key key now =
      rw (documented.encoding_back (go.public_half key)) (rw (documented.public_size key) refl)
