-- ===== src/Credentials.antt =====
-- The two credentials that control hands to a browser: the session cookie of the web app
-- (control/session.go), and the grant that a visitor carries on a private app's own hostname
-- (proxy/grant/service.go). Texts between bars, an expiry in Unix seconds and a signature.
-- HMAC-SHA256, Ed25519 and base64 are Go's: they are arguments, with what they promise. The clock
-- is an argument too, in nanoseconds since 1970, which is not negative.
pub mod Laws
pub mod Access
mod Tests
use hostit.Common.{
  ℕ, zero, suc, ◌+◌, ◌*◌, ◌/◌, ◌^◌, String, Bool, true, false, List, [], ◌∷◌, Option, none, some,
  ◌||◌, not, ◌==◌, leb, ltb, if◌then◌else◌, str_eq, has_bar, split_bar, bar, atoi, itoa, ◌≡◌,
}
use hostit.Common.Int.{ℤ, pos, negsuc}

-- `time.Nanosecond` is 1.
abbrev pub second : ℕ
second = 1_000_000_000

abbrev pub session_ttl : ℕ
session_ttl = 30 * 24 * 3600 * second

-- `appGrantTTL`
abbrev pub grant_ttl : ℕ
grant_ttl = 12 * 3600 * second

-- The seconds from year 1 to 1970, which `time.Unix` adds in 64 bits.
abbrev pub unix_to_internal : ℕ
unix_to_internal = 62_135_596_800

-- `time.Now().Add(ttl).Unix()`
unfoldable pub expiry_at : ℕ → ℕ → ℕ
expiry_at now ttl = (now + ttl) / second

-- `time.Now().After(time.Unix(expiry, 0))`: an expiry that leaves 64 bits wraps into the past.
unfoldable pub is_expired : ℕ → ℤ → Bool
is_expired now (negsuc e) = true
is_expired now (pos e) = if leb (2 ^ 63) (e + unix_to_internal) then true else ltb (e * second) now

unfoldable pub unless_expired {ℓ} : {A : Type ℓ} → ℕ → Option ℤ → A → Option A
unless_expired now none a = none
unless_expired now (some e) a = if is_expired now e then none else some a

-- A session manager is its keyed MAC, `sign`.
module _ (sign : String → String) where
  unfoldable pub encode : ℕ → String → Option String
  encode now user_id =
      let payload = bar user_id (itoa (pos (expiry_at now session_ttl))) in
      if has_bar user_id then none else some (bar payload (sign payload))

  unfoldable pub decode_fields : ℕ → List String → Option String
  decode_fields now (user_id ∷ (expiry ∷ (signature ∷ []))) =
      if not (str_eq signature (sign (bar user_id expiry)))
      then none
      else unless_expired now (atoi expiry) user_id
  decode_fields now _ = none

  unfoldable pub decode : ℕ → String → Option String
  unfolding decode_fields
  decode now value = decode_fields now (split_bar value)

-- What a grant uses of Go's libraries. `seed_key` is an Ed25519 key made from a seed, `mac` the
-- HMAC of a text under a key.
pub record Signatures : Type 1 where
  pub Bytes : Type 0
  pub size : Bytes → ℕ
  pub mac : String → String → Bytes
  pub seed_key : Bytes → Bytes
  pub public_half : Bytes → Bytes
  pub sign_with : Bytes → String → Bytes
  pub verify_with : Bytes → String → Bytes → Bool
  pub encode_text : Bytes → String
  pub decode_text : String → Option Bytes

abbrev pub public_key_size : ℕ
public_key_size = 32

abbrev pub key_label : String
key_label = "hostit-app-grant-ed25519"

module _ (go : Signatures) where
  -- `NewSigner`: the signer's key.
  unfoldable pub new_signer : String → go.Bytes
  new_signer session_key = go.seed_key (go.mac session_key key_label)

  unfoldable pub public_key : go.Bytes → String
  public_key key = go.encode_text (go.public_half key)

  unfoldable pub sign_grant : go.Bytes → ℕ → ℕ → String → String → Option String
  sign_grant key ttl now app user_id =
      let payload = bar app (bar user_id (itoa (pos (expiry_at now ttl)))) in
      if has_bar app || has_bar user_id
      then none
      else some (bar payload (go.encode_text (go.sign_with key payload)))

  unfoldable pub signature_holds : go.Bytes → String → Option go.Bytes → Bool
  signature_holds key payload none = false
  signature_holds key payload (some sig) = go.verify_with key payload sig

  unfoldable pub verify_fields : go.Bytes → ℕ → List String → Option (String × String)
  unfolding signature_holds
  verify_fields key now (app ∷ (user_id ∷ (expiry ∷ (sig ∷ [])))) =
      if not (signature_holds key (bar app (bar user_id expiry)) (go.decode_text sig))
      then none
      else unless_expired now (atoi expiry) (app, user_id)
  verify_fields key now _ = none

  -- `Verify`
  unfoldable pub verify_grant : go.Bytes → ℕ → String → Option (String × String)
  unfolding verify_fields
  verify_grant key now value = verify_fields key now (split_bar value)

  unfoldable pub verifier_of : ℕ → Option go.Bytes → Option (String → Option (String × String))
  unfolding verify_grant
  verifier_of now none = none
  verifier_of now (some raw) =
      if not (go.size raw == public_key_size) then none else some (verify_grant raw now)

  -- `NewVerifier`
  unfoldable pub new_verifier : ℕ → String → Option (String → Option (String × String))
  unfolding verifier_of
  new_verifier now public_key = verifier_of now (go.decode_text public_key)

  -- What the libraries promise: a text encoding is read back, has no bar in it and is empty only
  -- for no bytes, a public key has its size, and what one half of a key signed the other half verifies.
  pub record IsDocumented : Type 0 where
    pub encoding_back : (raw : go.Bytes) → go.decode_text (go.encode_text raw) ≡ some raw
    pub encoding_bare : (raw : go.Bytes) → has_bar (go.encode_text raw) ≡ false
    pub encoding_empty : (raw : go.Bytes) → go.encode_text raw ≡ "" → go.size raw ≡ 0
    pub public_size : (key : go.Bytes) → go.size (go.public_half key) ≡ public_key_size
    pub signed_verifies :
        (key : go.Bytes) (payload : String)
        → go.verify_with (go.public_half key) payload (go.sign_with key payload) ≡ true
