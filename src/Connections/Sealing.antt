-- ===== src/Connections/Sealing.antt =====
-- control/connections/crypto.go: how a credential is sealed for its row. Base64 and AES-GCM are
-- parameters; a key has 32 bytes, for which the cipher can always be made, and the random source
-- does not fail.
use hostit.Common.{
  ℕ, zero, suc, String, Bool, true, false, Option, none, some, ◌≡◌, refl, ap, arith, if◌then◌else◌,
  ltb, string_append, ◌≤◌, ◌∙◌,
}
use text.Mathlib.TextLemmas.{nil-append, cons-append}

-- `gcm.Seal` without the nonce in front of it takes the key, the nonce, the plaintext and the data
-- that it authenticates. `draws` are the nonces in the order in which they are drawn.
pub record Cipher : Type 0 where
  pub encode64 : String → String
  pub decode64 : String → Option String
  pub gcm_seal : String → String → String → String → String
  pub gcm_open : String → String → String → String → Option String
  pub draws : ℕ → String

abbrev pub nonce_size : ℕ
nonce_size = 12

abbrev pub string_length : String → ℕ
string_length String.[] = 0
string_length (String.◌∷◌ c s) = suc (string_length s)

abbrev pub take_string : ℕ → String → String
take_string zero s = ""
take_string (suc n) String.[] = ""
take_string (suc n) (String.◌∷◌ c s) = String.◌∷◌ c (take_string n s)

abbrev pub drop_string : ℕ → String → String
drop_string zero s = s
drop_string (suc n) String.[] = ""
drop_string (suc n) (String.◌∷◌ c s) = drop_string n s

-- `Binding`
unfoldable pub binding : String → String → String
binding user_id connection_id =
    string_append "hostit-connection:" (string_append user_id (string_append ":" connection_id))

module _ (c : Cipher) where
  -- `Seal`, with the nonce that it draws
  unfoldable pub seal : String → String → String → String → String
  seal nonce key plaintext aad =
      c.encode64 (string_append nonce (c.gcm_seal key nonce plaintext aad))

  unfoldable pub open_raw : String → String → Option String → Option String
  open_raw key aad none = none
  open_raw key aad (some raw) =
      if ltb (string_length raw) nonce_size
      then none
      else c.gcm_open key (take_string nonce_size raw) (drop_string nonce_size raw) aad

  -- `Open`
  unfoldable pub open_sealed : String → String → String → Option String
  unfolding open_raw
  open_sealed key sealed aad = open_raw key aad (c.decode64 sealed)

  unfoldable pub or_unbound : Option String → Option String → Option (String × Bool)
  or_unbound (some out) legacy = some (out, true)
  or_unbound none (some out) = some (out, false)
  or_unbound none none = none

  -- `OpenLegacyTolerant`: the plaintext, and whether it was bound to its row
  unfoldable pub open_legacy_tolerant : String → String → String → Option (String × Bool)
  unfolding or_unbound open_sealed
  open_legacy_tolerant key sealed aad =
      or_unbound (open_sealed key sealed aad) (open_sealed key sealed "")

-- What the library documents: what is encoded is decoded, what is sealed opens under the same key,
-- nonce and data, and a nonce has its size.
pub record IsCipher (c : Cipher) : Type 0 where
  pub decode64-encode64 : (s : String) → c.decode64 (c.encode64 s) ≡ some s
  pub gcm_open-gcm_seal :
      (key nonce plaintext aad : String)
      → c.gcm_open key nonce (c.gcm_seal key nonce plaintext aad) aad ≡ some plaintext
  pub draws_size : (i : ℕ) → string_length (c.draws i) ≡ nonce_size

take_string-append :
    (n : ℕ) (a b : String) → string_length a ≡ n → take_string n (string_append a b) ≡ a
take_string-append zero String.[] b h = refl
take_string-append zero (String.◌∷◌ c a) b h = absurd (omega (arith, h))
take_string-append (suc n) String.[] b h = absurd (omega (arith, h))
take_string-append (suc n) (String.◌∷◌ c a) b h =
    rw cons-append (ap (String.◌∷◌ c) (take_string-append n a b (omega (arith, h))))

drop_string-append :
    (n : ℕ) (a b : String) → string_length a ≡ n → drop_string n (string_append a b) ≡ b
drop_string-append zero String.[] b h = nil-append b
drop_string-append zero (String.◌∷◌ c a) b h = absurd (omega (arith, h))
drop_string-append (suc n) String.[] b h = absurd (omega (arith, h))
drop_string-append (suc n) (String.◌∷◌ c a) b h =
    rw cons-append (drop_string-append n a b (omega (arith, h)))

length-string_append : (a b : String) → string_length a ≤ string_length (string_append a b)
length-string_append String.[] b = omega arith
length-string_append (String.◌∷◌ c a) b = rw cons-append (omega (arith, length-string_append a b))

-- What follows a nonce is opened as a body of its own.
pub open_raw-append :
    (c : Cipher) (key aad nonce body : String)
    → string_length nonce ≡ nonce_size
    → open_raw c key aad (some (string_append nonce body)) ≡ c.gcm_open key nonce body aad
unfolding open_raw
open_raw-append c key aad nonce body h =
    let long : ltb (string_length (string_append nonce body)) nonce_size ≡ false =
      ground (arith, length-string_append nonce body) in
    rw long (
      rw (take_string-append nonce_size nonce body h)
        (rw (drop_string-append nonce_size nonce body h) refl))

module _ (c : Cipher) (laws : IsCipher c) where
  -- A sealed text is opened by its nonce and body, whatever the key and the data.
  pub open_sealed-seal :
      (i : ℕ) (key other plaintext aad aad' : String)
      → open_sealed c other (seal c (c.draws i) key plaintext aad) aad'
        ≡ c.gcm_open other (c.draws i) (c.gcm_seal key (c.draws i) plaintext aad) aad'
  unfolding open_sealed seal
  open_sealed-seal i key other plaintext aad aad' =
      rw (laws.decode64-encode64 _) (open_raw-append c other aad' (c.draws i) _ (laws.draws_size i))

  pub open_sealed_own :
      (i : ℕ) (key plaintext aad : String)
      → open_sealed c key (seal c (c.draws i) key plaintext aad) aad ≡ some plaintext
  open_sealed_own i key plaintext aad =
      open_sealed-seal i key key plaintext aad aad
      ∙ laws.gcm_open-gcm_seal key (c.draws i) plaintext aad

  -- A credential that was sealed for its row is read back as it was, and known as bound.
  pub open_legacy_tolerant-seal :
      (i : ℕ) (key plaintext aad : String)
      → open_legacy_tolerant c key (seal c (c.draws i) key plaintext aad) aad
        ≡ some (plaintext, true)
  unfolding open_legacy_tolerant or_unbound
  open_legacy_tolerant-seal i key plaintext aad = rw (open_sealed_own i key plaintext aad) refl
