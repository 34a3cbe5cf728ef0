-- ===== src/Connections/Rotation.antt =====
-- `RotateKey` of control/connections.go and `ReplaceKey` of control/connections/crypto.go: sealing
-- every connection's credential again under a fresh key; and the client secrets of the stored
-- providers of control/providers.go, which are sealed under the same key.
pub mod Laws
pub mod Writing
pub mod Outcome
use hostit.Common.{
  ℕ, suc, String, Bool, true, false, List, [], ◌∷◌, Option, none, some, ◌&&◌, ◌||◌, not,
  if◌then◌else◌, str_eq, length,
}
use hostit.Connections.{Connection, update_row, has_row, with_secret_only}
use hostit.Connections.Sealing.{Cipher, seal, binding, open_sealed}
use hostit.Connections.Custody.{
  Manager, World, Answer, given, refused, Refusal, cannot_open, not_found, provider_failed, aad_of,
  open_credential,
}

abbrev pub Pending : Type 0
Pending = List (String × String)

-- Seals under the fresh key, with the next nonce.
unfoldable pub seal_fresh : World → String → Manager → Connection → String → Manager × String
seal_fresh w fresh m c plain = (
  record m { drawn = suc m.drawn },
  seal w.cipher (w.cipher.draws m.drawn) fresh plain (aad_of c),
)

unfoldable pub with_pending : String → String → Answer Pending × Manager → Answer Pending × Manager
with_pending id sealed (given ps, m) = (given ((id, sealed) ∷ ps), m)
with_pending id sealed (refused why, m) = (refused why, m)

unfoldable pub prepare_opened :
    World
    → String
    → Connection
    → Option String
    → Manager
    → (Manager → Answer Pending × Manager)
    → Answer Pending × Manager
unfolding with_pending seal_fresh
prepare_opened w fresh c none m next = (refused cannot_open, m)
prepare_opened w fresh c (some plain) m next =
    let (drew, sealed) = seal_fresh w fresh m c plain in with_pending c.id sealed (next drew)

-- The first loop: every credential is opened and sealed again, and nothing is stored of it.
unfoldable pub prepare : World → String → List Connection → Manager → Answer Pending × Manager
unfolding prepare_opened open_credential
prepare w fresh [] m = (given [], m)
prepare w fresh (c ∷ cs) m =
    let (plain, c', m') = open_credential w m c in
    prepare_opened w fresh c plain m' (prepare w fresh cs)

-- The second loop: the rows one by one, up to the first that cannot be written
unfoldable pub write_pending : World → Pending → Manager → Bool × Manager
unfolding update_row has_row with_secret_only
write_pending w [] m = (true, m)
write_pending w ((id, sealed) ∷ ps) m =
    let rest =
      write_pending w ps
        (record m { connections = update_row (with_secret_only sealed) id m.connections }) in
    if w.secret_writes id && has_row m.connections id then rest else (false, m)

-- connections.key and connections.key.previous
pub record KeyFiles : Type 0 where
  pub current : String
  pub previous : Option String

-- Where `ReplaceKey` fails: keeping the old key, putting the new one in place, or nowhere
pub data Replacing : Type 0 where
  keeps_no_previous writes_no_new replaces : Replacing

-- `ReplaceKey`
unfoldable pub replace_key : Replacing → KeyFiles → String → String → Bool × KeyFiles
replace_key keeps_no_previous files old key = (false, files)
replace_key writes_no_new files old key =
    (false, record files { previous = if str_eq old "" then files.previous else some old })
replace_key replaces files old key =
    (true, record { current = key; previous = if str_eq old "" then files.previous else some old })

pub record Rotated : Type 0 where
  pub answer : Answer ℕ
  pub manager : Manager
  pub files : KeyFiles

unfoldable pub switch_over : String → Pending → Manager → Bool × KeyFiles → Rotated
switch_over fresh ps m (true, files) = record {
  answer = given (length ps);
  manager = record m { key = fresh; cached = [] };
  files = files;
}
switch_over fresh ps m (false, files) = record {
  answer = refused provider_failed;
  manager = m;
  files = files;
}

unfoldable pub replace_after : Replacing → KeyFiles → String → Pending → Bool × Manager → Rotated
unfolding switch_over replace_key
replace_after r files fresh ps (true, m) = switch_over fresh ps m (replace_key r files m.key fresh)
replace_after r files fresh ps (false, m) = record {
  answer = refused not_found;
  manager = m;
  files = files;
}

unfoldable pub write_prepared :
    World → Replacing → KeyFiles → String → Answer Pending × Manager → Rotated
unfolding replace_after write_pending
write_prepared w r files fresh (refused why, m) = record {
  answer = refused why;
  manager = m;
  files = files;
}
write_prepared w r files fresh (given ps, m) = replace_after r files fresh ps (write_pending w ps m)

-- `RotateKey`, with the fresh key that it draws
unfoldable pub rotate_key : World → Replacing → KeyFiles → String → Manager → Rotated
unfolding write_prepared prepare
rotate_key w r files fresh m = write_prepared w r files fresh (prepare w fresh m.connections m)

-- A provider that an operator or a user wrote, with its sealed client secret
pub record ProviderRow : Type 0 where
  pub id : String
  pub owner_id : String
  pub client_id : String
  pub client_secret : String

unfoldable pub instance_owner : String
instance_owner = "hostit-instance"

unfoldable pub provider_aad : ProviderRow → String
unfolding instance_owner binding
provider_aad row = binding (if str_eq row.owner_id "" then instance_owner else row.owner_id) row.id

-- `openProviderSecret`
unfoldable pub open_provider_secret : World → Manager → ProviderRow → Option String
unfolding provider_aad open_sealed
open_provider_secret w m row =
    if str_eq row.client_secret ""
    then some ""
    else open_sealed w.cipher m.key row.client_secret (provider_aad row)

-- `sealProviderSecret`
unfoldable pub seal_provider_secret : World → Manager → ProviderRow → String → Manager × String
unfolding provider_aad seal
seal_provider_secret w m row plain = if str_eq plain "" then (m, "") else (
  record m { drawn = suc m.drawn },
  seal w.cipher (w.cipher.draws m.drawn) m.key plain (provider_aad row),
)

unfoldable pub client_of : ProviderRow → Option String → String × String
client_of row none = ("", "")
client_of row (some plain) = (row.client_id, plain)

unfoldable pub client_of_row : World → Manager → Option ProviderRow → String × String
unfolding client_of open_provider_secret
client_of_row w m none = ("", "")
client_of_row w m (some row) = client_of row (open_provider_secret w m row)

-- `clientForUser`: the configured client, or that of the stored OAuth provider of this name
unfoldable pub client_for_user :
    World → Manager → String × String → Option ProviderRow → String × String
unfolding client_of_row
client_for_user w m configured row =
    if not (str_eq configured.0 "") then configured else client_of_row w m row
