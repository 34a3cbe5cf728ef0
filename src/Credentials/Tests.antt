-- ===== src/Credentials/Tests.antt =====
-- Credentials on a toy signature: a signature is its text in bits, and the text encoding writes them
-- as digits.
use hostit.Common.{
  ℕ, ◌*◌, ◌≤◌, String, Bool, true, false, List, [], ◌∷◌, Option, none, some, ◌≡◌, refl, arith,
  str_eq-false, ◌⊎◌, if◌then◌else◌, ◌==◌, leb, length, bar, atoi,
}
use Prim.Native.Char.{code}
use hostit.Common.Fields.{has_bar, split_bar, add_first}
use hostit.Common.Decimal.{itoa, atoi, show_from, digit}
use hostit.Common.Int.{pos}
use mathlib.Core.List.{Memᴰ}
use hostit.Store.{User, App, role_user, active}
use hostit.Access.{Grants, find_user, may_view_app, access_set, active_admins}
use hostit.Access.Agreement.{grant_caller}
use hostit.Access.Proxy.{
  ProxyRequest, Route, Table, grant_cookie, first_value, cookie_value, may_serve_privately,
  strip_grant_cookie, preview_principal,
}
use hostit.Credentials.{
  second, grant_ttl, encode, decode, decode_fields, unless_expired, is_expired, expiry_at,
  Signatures, IsDocumented, sign_grant, new_verifier, public_key,
}
use hostit.Credentials.Laws.{decode_sound, decode-encode}
use hostit.Credentials.Access.{grant_opens}

abbrev bits : String → List Bool
bits String.[] = []
bits (String.◌∷◌ c s) = leb 110 (code c) ∷ bits s

abbrev same_bits : List Bool → List Bool → Bool
same_bits [] [] = true
same_bits (true ∷ xs) (true ∷ ys) = same_bits xs ys
same_bits (false ∷ xs) (false ∷ ys) = same_bits xs ys
same_bits _ _ = false

abbrev show_bits : List Bool → String
show_bits [] = String.[]
show_bits (true ∷ bs) = String.◌∷◌ "1" (show_bits bs)
show_bits (false ∷ bs) = String.◌∷◌ "0" (show_bits bs)

abbrev add_bit : Bool → Option (List Bool) → Option (List Bool)
add_bit b none = none
add_bit b (some bs) = some (b ∷ bs)

abbrev read_bits : String → Option (List Bool)
read_bits String.[] = some []
read_bits (String.◌∷◌ c s) =
    let rest = read_bits s in
    if code c == b'1'
    then add_bit true rest
    else if code c == b'0'
    then add_bit false rest
    else none

abbrev key_bits : List Bool
key_bits = bits "0123456789abcdef0123456789abcdef"

abbrev toy : Signatures
toy = record {
  Bytes = List Bool;
  size = length;
  mac = λ key text. bits text;
  seed_key = λ seed. seed;
  public_half = λ key. key_bits;
  sign_with = λ key text. bits text;
  verify_with = λ key text sig. same_bits (bits text) sig;
  encode_text = show_bits;
  decode_text = read_bits;
}

read_bits-show_bits : (bs : List Bool) → read_bits (show_bits bs) ≡ some bs
read_bits-show_bits [] = refl
read_bits-show_bits (true ∷ bs) = rw (read_bits-show_bits bs) refl
read_bits-show_bits (false ∷ bs) = rw (read_bits-show_bits bs) refl

show_bits-has_bar : (bs : List Bool) → has_bar (show_bits bs) ≡ false
unfolding has_bar
show_bits-has_bar [] = refl
show_bits-has_bar (true ∷ bs) = show_bits-has_bar bs
show_bits-has_bar (false ∷ bs) = show_bits-has_bar bs

show_bits-empty : (bs : List Bool) → show_bits bs ≡ "" → length bs ≡ 0
show_bits-empty [] e = refl
show_bits-empty (true ∷ bs) e = cc
show_bits-empty (false ∷ bs) e = cc

same_bits_self : (bs : List Bool) → same_bits bs bs ≡ true
same_bits_self [] = refl
same_bits_self (true ∷ bs) = same_bits_self bs
same_bits_self (false ∷ bs) = same_bits_self bs

toy_documented : IsDocumented toy
toy_documented = record {
  encoding_back = read_bits-show_bits;
  encoding_bare = show_bits-has_bar;
  encoding_empty = show_bits-empty;
  public_size = λ key. refl;
  signed_verifies = λ key payload. same_bits_self (bits payload);
}

-- A MAC that says nothing more than the length of what it signs.
abbrev mac : String → String
mac text = show_bits (bits text)

abbrev cookie : String
cookie = "u2|2592000|1010000000"

accepted : decode mac 5 cookie ≡ some "u2"
unfolding decode decode_fields split_bar add_first unless_expired is_expired atoi
accepted = refl

decode_sound_example :
    (text : String) × (e : ℕ) × (atoi text ≡ some (pos e))
    × (5 ≤ e * second)
    × (cookie ≡ bar (bar "u2" text) (mac (bar "u2" text)))
decode_sound_example = decode_sound mac 5 cookie "u2" accepted

decode-encode_example :
    (has_bar "u2" ≡ true) × (encode mac 0 "u2" ≡ none)
    ⊎ ((value : String) × (encode mac 0 "u2" ≡ some value) × (decode mac 7 value ≡ some "u2"))
decode-encode_example =
    decode-encode mac 0 7 "u2" (λ payload. show_bits-has_bar (bits payload)) (omega arith)
      (omega arith)

abbrev key : List Bool
key = true ∷ []

abbrev cat : User
cat = record {
  id = "u2";
  email = "cat@example.com";
  name = "Cat";
  role = role_user;
  status = active;
  app_limit = none;
  memory_mb = none;
  disk_mb = none;
  memory_pool_mb = none;
  disk_pool_mb = none;
}

abbrev diary : App
diary = record {
  id = "a1";
  name = "diary";
  host = "local";
  owner_id = "u1";
  powered_off = false;
  archived = false;
  private = true;
  memory_limit_mb = pos 0;
  disk_limit_mb = pos 0;
  cpu_milli = pos 0;
  port = 10001;
  soft_deleted_at = 0;
}

abbrev shared : Grants
shared = record { users = cat ∷ []; collaborators = []; viewers = ("a1", "u2") ∷ [] }

abbrev to_diary : Route
to_diary = record {
  host = "diary.example.com";
  target = "10.0.0.1:80";
  app = "diary";
  private = true;
  access = access_set shared (diary ∷ []) "a1";
}

abbrev pushed : Table
pushed = record {
  grant_public_key = public_key toy key;
  admins = active_admins shared.users;
  seq = 1;
  routes = to_diary ∷ [];
}

abbrev granted : String
granted = "diary|u2|43200|00011110100000"

abbrev visit : ProxyRequest
visit = record {
  path = "/";
  authorization = "";
  tls = true;
  cookies = ("__Host-hostit_app", granted) ∷ ("theme", "dark") ∷ [];
}

signed : sign_grant toy key grant_ttl 0 "diary" "u2" ≡ some granted
unfolding sign_grant has_bar expiry_at itoa show_from digit
signed = refl

grant_opens_example : may_serve_privately (new_verifier toy 7) visit to_diary pushed ≡ (
    if may_view_app shared (grant_caller cat) diary
    then some (strip_grant_cookie visit.cookies)
    else none)
grant_opens_example =
    grant_opens toy toy_documented shared (diary ∷ []) diary cat key grant_ttl 0 7 granted visit
      pushed to_diary
      (record {
        users_once = (tt, tt);
        apps_once = (tt, tt);
        listed = Memᴰ.head refl;
        known = unfold find_user in refl;
        named = λ e. absurd (str_eq-false "u2" "" refl e);
        no_preview = λ e. absurd (str_eq-false "u2" preview_principal refl e);
      })
      signed (omega arith) (omega arith)
      (record {
        key_pushed = refl;
        admins_resolved = refl;
        app_named = refl;
        access_resolved = refl;
      })
      (record {
        unauthorized = refl;
        for_app = refl;
        shown = unfold grant_cookie first_value cookie_value in refl;
      })
