-- ===== src/Connections/Tests.antt =====
-- A small set of connections, a cipher that writes the key and the data in front of the text, and
-- what happens to them.
use hostit.Common.{
  String, true, false, List, [], ◌∷◌, Option, none, some, ◌≡◌, refl, ap, subst, arith, ◌∙◌, str_eq,
  string_append,
}
use hostit.Common.Int.{pos}
use hostit.Common.Text.{strip_prefix, strip_prefix-append}
use mathlib.Core.List.{Memᴰ}
use text.Mathlib.TextLemmas.{cons-append}
use hostit.Connections.{
  Connection, Borrower, oauth, static, status_ok, status_needs_reconnect, has_row,
  connection_by_slug, connection_of,
}
use hostit.Connections.Sealing.{Cipher, IsCipher, open_legacy_tolerant, seal, open_sealed}
use hostit.Connections.Custody.{
  Token, Manager, Provider, TokenResponse, posted, no_answer, World, token_cache_margin, given,
  refused, not_found, aad_of, exchange, reconnect,
}
use hostit.Connections.Serving.{token_for, store_refreshed, reauth, minted, plain_token}
use hostit.Connections.Freshness.Calls.{sweep, call_all}
use hostit.Connections.Freshness.Served.{LivesOn, IsLifetime, HasLifetimes, token_for-LivesOn}
use hostit.Connections.Rotation.{KeyFiles, replaces, prepare, rotate_key}
use hostit.Connections.Rotation.Laws.{plain_of}
use hostit.Connections.Rotation.Outcome.{
  HasDistinctIds, IsForeign, rotate_key-reads, rotate_key_partly,
}
use hostit.Connections.Races.{row_of, store_refreshed-reconnect}

abbrev stripped : Option String → String → Option String
stripped none p = none
stripped (some s) p = strip_prefix s p

abbrev prefixing : Cipher
prefixing = record {
  encode64 = λ s. s;
  decode64 = λ s. some s;
  gcm_seal = λ key nonce plain aad. string_append key (string_append aad plain);
  gcm_open = λ key nonce body aad. stripped (strip_prefix body key) aad;
  draws = λ i. "twelve-bytes";
}

prefixing-IsCipher : IsCipher prefixing
prefixing-IsCipher = record {
  decode64-encode64 = λ s. refl;
  gcm_open-gcm_seal = λ key nonce plain aad.
      ap (λ o. stripped o aad) (strip_prefix-append key (string_append aad plain))
      ∙ strip_prefix-append aad plain;
  draws_size = λ i. refl;
}

other_key : IsForeign prefixing "b" "a"
unfolding strip_prefix
other_key nonce plain aad aad' =
    ap (λ s. stripped (strip_prefix s "a") aad') (cons-append "b" "" (string_append aad plain))

abbrev mailbox : Connection
mailbox = record {
  id = "cn_1";
  user_id = "u1";
  slug = "mail";
  provider = "imap";
  kind = static;
  secret = "twelve-bytesahostit-connection:u1:cn_1pass";
  scopes = "";
  meta = "host=x";
  status = status_ok;
}

abbrev calendar : Connection
calendar = record {
  id = "cn_2";
  user_id = "u1";
  slug = "work";
  provider = "discord";
  kind = oauth;
  secret = "twelve-bytesahostit-connection:u1:cn_2refresh";
  scopes = "";
  meta = "";
  status = status_ok;
}

abbrev rotating : Provider
rotating = record {
  name = "discord";
  long_lived = false;
  hybrid = false;
  user_token = false;
  has_probe = false;
  default_scopes = "";
}

abbrev response : TokenResponse
response = record {
  access_token = "access";
  user_access_token = "";
  refresh_token = "rotated";
  expires_in = pos 3600;
}

abbrev world : World
world = record {
  cipher = prefixing;
  now = 1000;
  provider_for = λ user name. some rotating;
  post_code = λ user p code. posted response;
  post_refresh = λ user p secret. posted response;
  probe = λ p secret. no_answer;
  secret_writes = λ id. true;
  status_writes = λ id. true;
}

abbrev app : Borrower
app = record { id = "app1"; owner_id = "u1" }

abbrev manager : Manager
manager = record {
  connections = mailbox ∷ (calendar ∷ []);
  grants =
      record { app_id = "app1"; connection_id = "cn_1" }
      ∷ (record { app_id = "app1"; connection_id = "cn_2" } ∷ []);
  cached = [];
  key = "a";
  drawn = 0;
}

mailbox_there : connection_by_slug manager.connections "u1" "mail" ≡ some mailbox
unfolding connection_by_slug
mailbox_there = refl

-- The sweep spends the calendar's refresh token.
abbrev after_sweep : Manager
after_sweep = record manager {
  connections =
      mailbox ∷ (record calendar { secret = "twelve-bytesahostit-connection:u1:cn_2rotated" } ∷ []);
  cached =
      (
        "cn_2",
        record {
          token = record {
            provider = "discord";
            access_token = "access";
            meta = "";
            expires_at = some 3600000001000;
          };
          minted_from = "twelve-bytesahostit-connection:u1:cn_2rotated";
          expires = 3480000001000;
        },
      )
      ∷ [];
  drawn = 1;
}

abbrev fresh_token : Token
fresh_token = record {
  provider = "discord";
  access_token = "access";
  meta = "";
  expires_at = some 3600000001000;
}

served_after_sweep :
    token_for world (call_all ((world, sweep) ∷ []) manager) app "work"
    ≡ (given fresh_token, after_sweep)
unfolding token_for call_all strip_prefix open_legacy_tolerant aad_of token_cache_margin seal
served_after_sweep = refl

posted_inj : {r s : TokenResponse} → posted r ≡ posted s → r ≡ s
posted_inj e = cc

lifetimes : HasLifetimes world
lifetimes user_id p secret res e =
    subst (λ (r : TokenResponse). IsLifetime r.expires_in) (posted_inj e) (omega arith, omega arith)

token_for-LivesOn_example : LivesOn 1000 fresh_token
token_for-LivesOn_example =
    token_for-LivesOn world ((world, sweep) ∷ []) manager after_sweep app "work" lifetimes refl
      served_after_sweep

consents : exchange world "u1" rotating "code" ≡ given ("rotated", true)
unfolding exchange
consents = refl

calendar_there : row_of "cn_2" manager ≡ some calendar
unfolding connection_of
calendar_there = refl

store_refreshed-reconnect_example :
    ((r : Connection) × (row_of "cn_2"
          (store_refreshed world
            (reconnect world manager calendar rotating "code" "").1
            calendar
            reauth).1
        ≡ some r)
      × (r.status ≡ status_needs_reconnect)
      × (open_sealed prefixing "a" r.secret (aad_of calendar) ≡ some "rotated"))
    × ((r : Connection) × (row_of "cn_2"
            (store_refreshed world
              (reconnect world manager calendar rotating "code" "").1
              calendar
              (minted (plain_token rotating "access" "") "late")).1
          ≡ some r)
        × (open_sealed prefixing "a" r.secret (aad_of calendar) ≡ some "late"))
store_refreshed-reconnect_example =
    store_refreshed-reconnect world manager calendar rotating "code" "" "rotated" "late"
      (plain_token rotating "access" "") true (λ id. (refl, refl)) prefixing-IsCipher calendar_there
      refl consents refl

abbrev files : KeyFiles
files = record { current = "a"; previous = none }

rotates : (rotate_key world replaces files "b" manager).answer ≡ given 2
unfolding rotate_key strip_prefix open_legacy_tolerant aad_of seal
rotates = refl

distinct : HasDistinctIds manager.connections
unfolding has_row
distinct = (refl, (refl, tt))

rotate_key-reads_example :
    ((rotate_key world replaces files "b" manager).manager.key ≡ "b")
    × ((rotate_key world replaces files "b" manager).files.current ≡ "b")
    × ((c : Connection)
        → Memᴰ c manager.connections
        → (row : Connection) × (plain : String) × (connection_of
              (rotate_key world replaces files "b" manager).manager.connections
              c.id
            ≡ some row)
          × (plain_of world "a" c ≡ some plain)
          × (open_sealed prefixing "b" row.secret (aad_of c) ≡ some plain))
rotate_key-reads_example =
    rotate_key-reads world replaces files "b" manager prefixing-IsCipher distinct rotates

-- The second row cannot be written.
abbrev read_only : World
read_only = record world { secret_writes = λ id. str_eq id "cn_1" }

abbrev texts : List (String × String)
texts =
    ("cn_1", "twelve-bytesbhostit-connection:u1:cn_1pass")
    ∷ (("cn_2", "twelve-bytesbhostit-connection:u1:cn_2refresh") ∷ [])

prepared :
    prepare read_only "b" manager.connections manager ≡ (given texts, record manager { drawn = 2 })
unfolding prepare strip_prefix open_legacy_tolerant aad_of seal
prepared = refl

rotate_key_partly_example :
    ((rotate_key read_only replaces files "b" manager).answer ≡ refused not_found)
    × ((rotate_key read_only replaces files "b" manager).manager.key ≡ "a")
    × ((rotate_key read_only replaces files "b" manager).files ≡ files)
    × ((row : Connection) × (connection_of
            (rotate_key read_only replaces files "b" manager).manager.connections
            "cn_1"
          ≡ some row)
        × ((aad : String) → open_sealed prefixing "a" row.secret aad ≡ none))
rotate_key_partly_example =
    rotate_key_partly read_only replaces files "b" manager mailbox calendar [] texts
      (record manager { drawn = 2 }) prefixing-IsCipher other_key refl refl refl prepared
