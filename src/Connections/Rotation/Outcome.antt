-- ===== src/Connections/Rotation/Outcome.antt =====
-- How a rotation of the key ends.
use hostit.Common.{
  ℕ, String, Bool, true, false, List, [], ◌∷◌, none, some, ◌≡◌, refl, ap, sym, subst, ◌∙◌, arith,
  if◌then◌else◌, str_eq, str_eq_self,
}
use mathlib.Core.List.{Memᴰ}
use hostit.Connections.{Connection, update_row, has_row, with_secret_only, connection_of}
use hostit.Connections.Sealing.{
  Cipher, IsCipher, seal, open_sealed, open_sealed-seal, open_sealed_own,
}
use hostit.Connections.Custody.{Manager, World, Answer, given, refused, not_found, aad_of}
use hostit.Connections.Rotation.{
  Pending, prepare, write_pending, KeyFiles, Replacing, keeps_no_previous, writes_no_new, replaces,
  replace_key, Rotated, switch_over, replace_after, write_prepared, rotate_key,
}
use hostit.Connections.Rotation.Laws.{
  plain_of, Reads, Aligned, prepare-Aligned, KeepsRows, prepare-KeepsRows,
}
use hostit.Connections.Rotation.Writing.{sealed_for, write_pending-row, updated_row}

-- No two rows have the same id.
abbrev pub HasDistinctIds : List Connection → Type 0
HasDistinctIds [] = Unit
HasDistinctIds (c ∷ cs) = (has_row cs c.id ≡ false) × HasDistinctIds cs

sealed_for-none :
    (w : World) (fresh key id : String) (cs : List Connection) (ps : Pending)
    → Aligned w fresh key cs ps
    → has_row cs id ≡ false
    → sealed_for id ps ≡ none
unfolding sealed_for has_row
sealed_for-none w fresh key id [] [] a h = refl
sealed_for-none w fresh key id [] (p ∷ ps) a h = absurd a
sealed_for-none w fresh key id (c ∷ cs) [] a h = absurd a
sealed_for-none w fresh key id (c ∷ cs) ((j, s) ∷ ps) (same, reads, rest) h =
    let others = sealed_for-none w fresh key id cs ps rest (ground arith) in
    rw others (ground (arith, ap (λ k. str_eq k id) same))

-- Every row has a text of its own, which reads under the fresh key as the row did.
sealed_for-Reads :
    (w : World) (fresh key : String) (cs : List Connection) (ps : Pending)
    → Aligned w fresh key cs ps
    → HasDistinctIds cs
    → (c : Connection) → Memᴰ c cs
    → (s : String) × (sealed_for c.id ps ≡ some s) × Reads w fresh key c s
unfolding sealed_for
sealed_for-Reads w fresh key [] ps a d c mem = elim mem [ ]
sealed_for-Reads w fresh key (b ∷ cs) [] a d c mem = absurd a
sealed_for-Reads w fresh key (b ∷ cs) ((j, s) ∷ ps) (same, reads, rest) (new, d) c (Memᴰ.head e) =
    let own : sealed_for b.id ((j, s) ∷ ps) ≡ some s =
      rw (sealed_for-none w fresh key b.id cs ps rest new)
        (ap (λ k. if str_eq k b.id then some s else none) same ∙ rw (str_eq_self b.id) refl) in
    subst
      (λ (x : Connection).
        (t : String) × (sealed_for x.id ((j, s) ∷ ps) ≡ some t) × Reads w fresh key x t)
      (sym e) (s, own, reads)
sealed_for-Reads w fresh key (b ∷ cs) ((j, s) ∷ ps) (same, reads, rest) (new, d) c (Memᴰ.tail mem) =
    let (t, found, tells) = sealed_for-Reads w fresh key cs ps rest d c mem in
    (t, rw found refl, tells)

-- Both loops ran to their end, and the key was replaced.
abbrev Ended : World → String → Pending → Manager → Rotated → Type 0
Ended w fresh ps m1 o =
    ((write_pending w ps m1).0 ≡ true)
    × (o.manager ≡ record (write_pending w ps m1).1 { key = fresh; cached = [] })
    × (o.files.current ≡ fresh)

switched :
    (r : Replacing) (files : KeyFiles) (fresh : String) (ps : Pending) (q : Bool × Manager) {n : ℕ}
    → (replace_after r files fresh ps q).answer ≡ given n
    → (q.0 ≡ true)
      × ((replace_after r files fresh ps q).manager ≡ record q.1 { key = fresh; cached = [] })
      × ((replace_after r files fresh ps q).files.current ≡ fresh)
unfolding replace_after switch_over replace_key
switched r files fresh ps (false, m) e = absurd (cc)
switched keeps_no_previous files fresh ps (true, m) e = absurd (cc)
switched writes_no_new files fresh ps (true, m) e = absurd (cc)
switched replaces files fresh ps (true, m) e = (refl, refl, refl)

write_prepared-given :
    (w : World) (r : Replacing) (files : KeyFiles) (fresh : String) (q : Answer Pending × Manager)
    {n : ℕ}
    → (write_prepared w r files fresh q).answer ≡ given n
    → (ps : Pending) × (m1 : Manager) × (q ≡ (given ps, m1))
      × Ended w fresh ps m1 (write_prepared w r files fresh q)
unfolding write_prepared
write_prepared-given w r files fresh (refused why, m) e = absurd (cc)
write_prepared-given w r files fresh (given ps, m) e =
    (ps, m, refl, switched r files fresh ps (write_pending w ps m) e)

-- A rotation that succeeds leaves the fresh key in the manager and in the key file, and every
-- connection readable under it: a row of the store, whose ids differ, opens under the fresh key,
-- for the same owner and id, to what it read before.
pub rotate_key-reads :
    (w : World) (r : Replacing) (files : KeyFiles) (fresh : String) (m : Manager) {n : ℕ}
    → IsCipher w.cipher
    → HasDistinctIds m.connections
    → (rotate_key w r files fresh m).answer ≡ given n
    → ((rotate_key w r files fresh m).manager.key ≡ fresh)
      × ((rotate_key w r files fresh m).files.current ≡ fresh)
      × ((c : Connection)
          → Memᴰ c m.connections
          → (row : Connection) × (plain : String) × (connection_of
                (rotate_key w r files fresh m).manager.connections
                c.id
              ≡ some row)
            × (plain_of w m.key c ≡ some plain)
            × (open_sealed w.cipher fresh row.secret (aad_of c) ≡ some plain))
unfolding rotate_key
rotate_key-reads w r files fresh m laws distinct e =
    let (ps, m1, prepared, (done, manager, current)) =
      write_prepared-given w r files fresh (prepare w fresh m.connections m) e in
    let aligned = prepare-Aligned w fresh m.connections m m1 ps m.key refl prepared in
    (
      ap (λ (x : Manager). x.key) manager,
      current,
      λ c mem.
          let (s, found, (plain, i, old, new)) =
            sealed_for-Reads w fresh m.key m.connections ps aligned distinct c mem in
          let (row, stored, holds) = write_pending-row w ps m1 c.id s done found in
          (
            row,
            plain,
            ap (λ (x : Manager). connection_of x.connections c.id) manager ∙ stored,
            old,
            ap (λ t. open_sealed w.cipher fresh t (aad_of c)) (holds ∙ new)
                ∙ open_sealed_own w.cipher laws i fresh plain (aad_of c),
          ),
    )

-- A ciphertext of one key does not open under another.
abbrev pub IsForeign : Cipher → String → String → Type 0
IsForeign c sealing opening =
    (nonce plain aad aad' : String)
    → c.gcm_open opening nonce (c.gcm_seal sealing nonce plain aad) aad' ≡ none

open_sealed_foreign :
    (c : Cipher) (laws : IsCipher c) (i : ℕ) (key other plain aad aad' : String)
    → IsForeign c key other
    → open_sealed c other (seal c (c.draws i) key plain aad) aad' ≡ none
open_sealed_foreign c laws i key other plain aad aad' foreign =
    open_sealed-seal c laws i key other plain aad aad' ∙ foreign (c.draws i) plain aad aad'

-- Two rows, of which the first can be written and the second cannot.
write_pending_partly :
    (w : World) (b c s t : String) (ps : Pending) (m : Manager)
    → w.secret_writes b ≡ true
    → has_row m.connections b ≡ true
    → w.secret_writes c ≡ false
    → write_pending w ((b, s) ∷ ((c, t) ∷ ps)) m
      ≡ (false, record m { connections = update_row (with_secret_only s) b m.connections })
unfolding write_pending
write_pending_partly w b c s t ps m first_ok there second_fails =
    rw (first_ok, there, second_fails) refl

two_texts :
    (w : World) (fresh key : String) (b c : Connection) (cs : List Connection) (ps : Pending)
    → Aligned w fresh key (b ∷ (c ∷ cs)) ps
    → (s : String) × (t : String) × (rest : Pending) × (ps ≡ (b.id, s) ∷ ((c.id, t) ∷ rest))
      × Reads w fresh key b s
two_texts w fresh key b c cs [] a = absurd a
two_texts w fresh key b c cs (p ∷ []) a = absurd a.2
two_texts w fresh key b c cs ((i, s) ∷ ((j, t) ∷ rest)) (same, reads, (same', reads', a)) =
    (s, t, rest, rw same (rw same' refl), reads)

replace_after-false :
    (r : Replacing) (files : KeyFiles) (fresh : String) (ps : Pending) (m : Manager)
    → replace_after r files fresh ps (false, m)
      ≡ record { answer = refused not_found; manager = m; files = files }
unfolding replace_after
replace_after-false r files fresh ps m = refl

has_row_first : (c : Connection) (cs : List Connection) → has_row (c ∷ cs) c.id ≡ true
unfolding has_row
has_row_first c cs = rw (str_eq_self c.id) refl

rotate_key_stops :
    (w : World) (r : Replacing) (files : KeyFiles) (fresh : String) (m : Manager) (b c s t : String)
    (ps : Pending) (m1 : Manager)
    → w.secret_writes b ≡ true
    → has_row m1.connections b ≡ true
    → w.secret_writes c ≡ false
    → prepare w fresh m.connections m ≡ (given ((b, s) ∷ ((c, t) ∷ ps)), m1)
    → rotate_key w r files fresh m ≡ record {
      answer = refused not_found;
      manager = record m1 { connections = update_row (with_secret_only s) b m1.connections };
      files = files;
    }
unfolding rotate_key write_prepared
rotate_key_stops w r files fresh m b c s t ps m1 first_ok there second_fails prepared =
    ap (write_prepared w r files fresh) prepared
    ∙ ap (replace_after r files fresh ((b, s) ∷ ((c, t) ∷ ps)))
        (write_pending_partly w b c s t ps m1 first_ok there second_fails)

-- A rotation of which the first row can be written and the second cannot is refused and keeps the
-- old key, in the manager and in the key files, so that the fresh key is kept nowhere; and the
-- credential of the first row does not open under the key that is kept, for whatever owner and id.
pub rotate_key_partly :
    (w : World) (r : Replacing) (files : KeyFiles) (fresh : String) (m : Manager) (b c : Connection)
    (cs : List Connection) (ps : Pending) (m1 : Manager)
    → IsCipher w.cipher
    → IsForeign w.cipher fresh m.key
    → m.connections ≡ b ∷ (c ∷ cs)
    → w.secret_writes b.id ≡ true
    → w.secret_writes c.id ≡ false
    → prepare w fresh m.connections m ≡ (given ps, m1)
    → ((rotate_key w r files fresh m).answer ≡ refused not_found)
      × ((rotate_key w r files fresh m).manager.key ≡ m.key)
      × ((rotate_key w r files fresh m).files ≡ files)
      × ((row : Connection) × (connection_of (rotate_key w r files fresh m).manager.connections b.id
            ≡ some row)
          × ((aad : String) → open_sealed w.cipher m.key row.secret aad ≡ none))
rotate_key_partly w r files fresh m b c cs ps m1 laws foreign rows first_ok second_fails prepared =
    let aligned =
      subst (λ l. Aligned w fresh m.key l ps) rows
        (prepare-Aligned w fresh m.connections m m1 ps m.key refl prepared) in
    let (s, t, rest, split, (plain, i, old, sealed)) = two_texts w fresh m.key b c cs ps aligned in
    let (key, ids) = subst (KeepsRows m) prepared (prepare-KeepsRows w fresh m.connections m) in
    let there : has_row m1.connections b.id ≡ true =
      ids b.id ∙ ap (λ l. has_row l b.id) rows ∙ has_row_first b (c ∷ cs) in
    let (row, stored, holds) = updated_row s b.id b.id m1.connections (str_eq_self b.id) there in
    subst
      (λ (o : Rotated).
        (o.answer ≡ refused not_found)
        × (o.manager.key ≡ m.key)
        × (o.files ≡ files)
        × ((x : Connection) × (connection_of o.manager.connections b.id ≡ some x)
            × ((aad : String) → open_sealed w.cipher m.key x.secret aad ≡ none)))
      (sym (
        rotate_key_stops w r files fresh m b.id c.id s t rest m1 first_ok there second_fails
          (prepared ∙ ap (λ (qs : Pending). (Answer.given qs, m1)) split)))
      (
        refl,
        key,
        refl,
        (
          row,
          stored,
          λ aad.
              ap (λ x. open_sealed w.cipher m.key x aad) (holds ∙ sealed)
              ∙ open_sealed_foreign w.cipher laws i fresh m.key plain (aad_of b) aad foreign,
        ),
      )
