-- ===== src/Connections/Races.antt =====
-- A refresh of a token that is under way while its owner gives consent again.
use hostit.Common.{
  String, Bool, true, false, List, [], ◌∷◌, Option, some, ◌≡◌, inl, inr, refl, ap, sym, ◌∙◌, arith,
  Bool-cases, if◌then◌else◌, str_eq, str_eq_self,
}
use mathlib.Core.Option
use text.Mathlib.TextEquality.{eq_iff}
use hostit.Connections.{
  Connection, Health, status_ok, status_needs_reconnect, update_row, has_row, connection_of,
  with_secret, with_status,
}
use hostit.Connections.Sealing.{IsCipher, open_sealed, open_sealed_own}
use hostit.Connections.Custody.{
  Token, Manager, Provider, World, given, seal_for, write_secret, write_status, set_status, cache,
  cache_until, same_health, aad_of, exchange, reconnect_with, reconnect, written, expire_cached_for,
  or_scopes, oauth_token_meta,
}
use hostit.Connections.Serving.{minted, reauth, keep_rotated, or_same, store_refreshed}

connection_of-update_row :
    (f : Connection → Connection) (id other : String) (cs : List Connection)
    → ((c : Connection) → (f c).id ≡ c.id)
    → connection_of (update_row f id cs) other
      ≡ (if str_eq id other then Option.map f (connection_of cs other) else connection_of cs other)
unfolding connection_of update_row
connection_of-update_row f id other [] same = ground arith
connection_of-update_row f id other (c ∷ cs) same = ground (
  arith,
  connection_of-update_row f id other cs same,
  same c,
  eq_iff c.id id,
  eq_iff c.id other,
  eq_iff id other,
)

abbrev pub row_of : String → Manager → Option Connection
row_of id m = connection_of m.connections id

has_row_of :
    (id : String) (cs : List Connection) {c : Connection}
    → connection_of cs id ≡ some c
    → has_row cs id ≡ true
unfolding connection_of has_row
has_row_of id [] e = cc
has_row_of id (d ∷ cs) {c} e = elim (Bool-cases (str_eq d.id id)) [
  | inl here ↦ rw here refl
  | inr there ↦ rw there (has_row_of id cs (rw there at e))
]

-- Every write of the store succeeds.
abbrev pub IsWritable : World → Type 0
IsWritable w = (id : String) → (w.secret_writes id ≡ true) × (w.status_writes id ≡ true)

module _ (w : World) (writable : IsWritable w) where
  row_of-write_status :
      (m : Manager) (id : String) (s : Health)
      → row_of id (write_status w m id s) ≡ Option.map (with_status s) (row_of id m)
  unfolding write_status with_status
  row_of-write_status m id s = rw (writable id).1 (
      connection_of-update_row (with_status s) id id m.connections (λ c. refl)
      ∙ rw (str_eq_self id) refl)

  write_status_key : (m : Manager) (id : String) (s : Health) → (write_status w m id s).key ≡ m.key
  unfolding write_status
  write_status_key m id s = rw (writable id).1 refl

  write_secret_row :
      (m : Manager) (id secret scopes meta : String) {c : Connection}
      → row_of id m ≡ some c
      → (m' : Manager) × (write_secret w m id secret scopes meta ≡ some m')
        × (row_of id m' ≡ some (with_secret secret scopes meta c))
        × (m'.key ≡ m.key)
  unfolding write_secret with_secret
  write_secret_row m id secret scopes meta found = (
    record m { connections = update_row (with_secret secret scopes meta) id m.connections },
    rw ((writable id).0, has_row_of id m.connections found) refl,
    connection_of-update_row (with_secret secret scopes meta) id id m.connections (λ c. refl)
        ∙ rw (str_eq_self id) (ap (Option.map (with_secret secret scopes meta)) found),
    refl,
  )

  module _ (laws : IsCipher w.cipher) where
    -- A consent that is given again stores its credential in the row.
    reconnect_row :
        (m : Manager) (conn : Connection) (p : Provider) (code scopes credential : String)
        (b : Bool)
        → row_of conn.id m ≡ some conn
        → exchange w conn.user_id p code ≡ given (credential, b)
        → (row : Connection) × (row_of conn.id (reconnect w m conn p code scopes).1 ≡ some row)
          × (open_sealed w.cipher m.key row.secret (aad_of conn) ≡ some credential)
          × ((reconnect w m conn p code scopes).1.key ≡ m.key)
    unfolding reconnect reconnect_with written expire_cached_for with_secret with_status
    reconnect_row m conn p code scopes credential b found consent =
        let (drew, sealed) = seal_for w m conn credential in
        let m1 = write_status w (expire_cached_for drew conn.id) conn.id status_ok in
        let (m', stored, row, key) =
          write_secret_row m1 conn.id sealed (or_scopes scopes conn.scopes)
            (if p.hybrid then oauth_token_meta p b else conn.meta)
            (row_of-write_status (expire_cached_for drew conn.id) conn.id status_ok
              ∙ ap (Option.map (with_status status_ok)) found) in
        rw consent (
          rw stored (
            with_secret sealed (or_scopes scopes conn.scopes)
                (if p.hybrid then oauth_token_meta p b else conn.meta) (with_status status_ok conn),
            row,
            open_sealed_own w.cipher laws m.drawn m.key credential (aad_of conn),
            key ∙ write_status_key (expire_cached_for drew conn.id) conn.id status_ok,
          ))

    -- A refusal that comes late flags the row, and leaves its credential.
    late_reauth :
        (m : Manager) (conn : Connection) {row : Connection}
        → conn.status ≡ status_ok
        → row_of conn.id m ≡ some row
        → row_of conn.id (store_refreshed w m conn reauth).1
          ≡ some (with_status status_needs_reconnect row)
    unfolding store_refreshed set_status
    late_reauth m conn healthy found = rw healthy (
        row_of-write_status m conn.id status_needs_reconnect
        ∙ ap (Option.map (with_status status_needs_reconnect)) found)

    row_of-cache :
        (m : Manager) (conn : Connection) (tok : Token) (id : String)
        → row_of id (cache w m conn tok) ≡ row_of id m
    unfolding cache cache_until
    row_of-cache m conn tok id = ground arith

    keep_rotated_lem :
        (m m' : Manager) (conn : Connection) (rotated : String)
        → str_eq rotated "" ≡ false
        → write_secret w
            (seal_for w m conn rotated).0
            conn.id
            (seal_for w m conn rotated).1
            conn.scopes
            conn.meta
          ≡ some m'
        → keep_rotated w m conn rotated
          ≡ (record conn { secret = (seal_for w m conn rotated).1 }, m')
    unfolding keep_rotated or_same
    keep_rotated_lem m m' conn rotated new stored = rw (new, stored) refl

    set_status_same :
        (m : Manager) (conn : Connection)
        → conn.status ≡ status_ok
        → set_status w m conn status_ok ≡ m
    unfolding set_status
    set_status_same m conn healthy =
        ap (λ h. if same_health h status_ok then m else write_status w m conn.id status_ok) healthy

    -- A rotated token that comes late replaces what the row holds.
    late_rotation :
        (m : Manager) (conn : Connection) (tok : Token) (rotated : String) {row : Connection}
        → conn.status ≡ status_ok
        → str_eq rotated "" ≡ false
        → row_of conn.id m ≡ some row
        → (r : Connection) × (row_of conn.id (store_refreshed w m conn (minted tok rotated)).1
            ≡ some r)
          × (open_sealed w.cipher m.key r.secret (aad_of conn) ≡ some rotated)
    unfolding store_refreshed with_secret
    late_rotation m conn tok rotated {row} healthy new found =
        let (drew, sealed) = seal_for w m conn rotated in
        let (m', stored, there, key) =
          write_secret_row drew conn.id sealed conn.scopes conn.meta found in
        let conn' = record conn { secret = sealed } in
        (
          with_secret sealed conn.scopes conn.meta row,
          ap
                (λ (q : Connection × Manager).
                  row_of conn.id (cache w (set_status w q.1 q.0 status_ok) q.0 tok))
                (keep_rotated_lem m m' conn rotated new stored)
              ∙ row_of-cache (set_status w m' conn' status_ok) conn' tok conn.id
              ∙ ap (row_of conn.id) (set_status_same m' conn' healthy)
              ∙ there,
          open_sealed_own w.cipher laws m.drawn m.key rotated (aad_of conn),
        )

-- A connection is healthy and a refresh of it is under way, as its owner gives consent again; every
-- write of the store succeeds. The consent stores its credential. If the provider then refuses the
-- refresh, the row still holds the consent's credential, and is flagged as one to reconnect; if it
-- answers with a rotated token, the row holds that token in place of the consent's credential.
pub store_refreshed-reconnect :
    (w : World) (m : Manager) (conn : Connection) (p : Provider)
    (code scopes credential rotated : String) (tok : Token) (b : Bool)
    → IsWritable w
    → IsCipher w.cipher
    → row_of conn.id m ≡ some conn
    → conn.status ≡ status_ok
    → exchange w conn.user_id p code ≡ given (credential, b)
    → str_eq rotated "" ≡ false
    → ((r : Connection) × (row_of conn.id
            (store_refreshed w (reconnect w m conn p code scopes).1 conn reauth).1
          ≡ some r)
        × (r.status ≡ status_needs_reconnect)
        × (open_sealed w.cipher m.key r.secret (aad_of conn) ≡ some credential))
      × ((r : Connection) × (row_of conn.id
              (store_refreshed w (reconnect w m conn p code scopes).1 conn (minted tok rotated)).1
            ≡ some r)
          × (open_sealed w.cipher m.key r.secret (aad_of conn) ≡ some rotated))
unfolding with_status
store_refreshed-reconnect w m conn p code scopes credential rotated tok b writable laws found
      healthy consent new =
    let m1 = (reconnect w m conn p code scopes).1 in
    let (row, there, holds, key) =
      reconnect_row w writable laws m conn p code scopes credential b found consent in
    let (r, last, tells) = late_rotation w writable laws m1 conn tok rotated healthy new there in
    (
      (
        with_status status_needs_reconnect row,
        late_reauth w writable laws m1 conn healthy there,
        refl,
        holds,
      ),
      (r, last, ap (λ k. open_sealed w.cipher k r.secret (aad_of conn)) (sym key) ∙ tells),
    )
