-- ===== src/Connections/Rotation/Laws.antt =====
-- What a rotation of the key leaves of the credentials.
use hostit.Common.{
  ℕ, String, Bool, true, false, List, [], ◌∷◌, Option, none, some, ◌≡◌, inl, inr, refl, ap, sym,
  subst, ◌∙◌, arith, Bool-cases, Option-cases, if_elim, ◌&&◌, ◌||◌, str_eq,
}
use hostit.Connections.{Connection, update_row, has_row, with_secret}
use hostit.Connections.Sealing.{seal, open_legacy_tolerant}
use hostit.Connections.Custody.{
  Manager, World, Answer, given, refused, Refusal, aad_of, seal_for, resealed, write_secret,
  open_found, open_credential,
}
use hostit.Connections.Rotation.{Pending, seal_fresh, with_pending, prepare_opened, prepare}

unfoldable first : Option (String × Bool) → Option String
first none = none
first (some (plain, bound)) = some plain

-- What a row's credential reads under a key
unfoldable pub plain_of : World → String → Connection → Option String
unfolding first
plain_of w key c = first (open_legacy_tolerant w.cipher key c.secret (aad_of c))

write_secret_key :
    (w : World) (m : Manager) (id secret scopes meta : String) {m' : Manager}
    → write_secret w m id secret scopes meta ≡ some m'
    → m'.key ≡ m.key
unfolding write_secret
write_secret_key w m id secret scopes meta e = ground arith

resealed_key :
    (w : World) (m : Manager) (conn : Connection) (sealed id secret scopes meta : String)
    → (resealed conn sealed m (write_secret w m id secret scopes meta)).1.key ≡ m.key
unfolding resealed
resealed_key w m conn sealed id secret scopes meta =
    elim (Option-cases (write_secret w m id secret scopes meta)) [
      | inl failed ↦ rw failed refl
      | inr (m', done) ↦ rw done (write_secret_key w m id secret scopes meta done)
    ]

-- Opening answers what the row reads, and keeps the key.
open_found_lem :
    (w : World) (m : Manager) (conn : Connection) (o : Option (String × Bool))
    → ((open_found w m conn o).0 ≡ first o) × ((open_found w m conn o).2.key ≡ m.key)
unfolding open_found first
open_found_lem w m conn none = (refl, refl)
open_found_lem w m conn (some (secret, true)) = (refl, refl)
open_found_lem w m conn (some (secret, false)) =
    let (drew, sealed) = seal_for w m conn secret in
    (refl, resealed_key w drew conn sealed conn.id sealed conn.scopes conn.meta)

open_credential_lem :
    (w : World) (m : Manager) (conn : Connection)
    → ((open_credential w m conn).0 ≡ plain_of w m.key conn)
      × ((open_credential w m conn).2.key ≡ m.key)
unfolding open_credential plain_of
open_credential_lem w m conn =
    open_found_lem w m conn (open_legacy_tolerant w.cipher m.key conn.secret (aad_of conn))

-- What the row reads under the old key, sealed under the fresh one.
abbrev pub Reads : World → String → String → Connection → String → Type 0
Reads w fresh key c sealed =
    (plain : String) × (i : ℕ) × (plain_of w key c ≡ some plain)
    × (sealed ≡ seal w.cipher (w.cipher.draws i) fresh plain (aad_of c))

abbrev pub Aligned : World → String → String → List Connection → Pending → Type 0
Aligned w fresh key [] [] = Unit
Aligned w fresh key [] (p ∷ ps) = ⊥
Aligned w fresh key (c ∷ cs) [] = ⊥
Aligned w fresh key (c ∷ cs) ((id, sealed) ∷ ps) =
    (id ≡ c.id) × Reads w fresh key c sealed × Aligned w fresh key cs ps

with_pending-given :
    (id sealed : String) (r : Answer Pending × Manager) {ps : Pending} {m : Manager}
    → with_pending id sealed r ≡ (given ps, m)
    → (qs : Pending) × (r ≡ (given qs, m)) × (ps ≡ (id, sealed) ∷ qs)
unfolding with_pending
with_pending-given id sealed (given qs, m') e = (qs, cc, cc)
with_pending-given id sealed (refused why, m') e = absurd (cc)

given_pending :
    {ps qs : Pending} {m m' : Manager}
    → ◌≡◌ {A = Answer Pending × Manager} (given ps, m) (given qs, m')
    → ps ≡ qs
given_pending e = cc

no_pending :
    {why : Refusal} {qs : Pending} {m m' : Manager}
    → ◌≡◌ {A = Answer Pending × Manager} (refused why, m) (given qs, m')
    → ⊥
no_pending e = cc

has_row-update_row :
    (f : Connection → Connection) (id other : String) (cs : List Connection)
    → ((c : Connection) → (f c).id ≡ c.id)
    → has_row (update_row f id cs) other ≡ has_row cs other
unfolding has_row update_row
has_row-update_row f id other [] same = refl
has_row-update_row f id other (c ∷ cs) same =
    if_elim
      (λ (d : Connection).
        (str_eq d.id other || has_row (update_row f id cs) other)
        ≡ (str_eq c.id other || has_row cs other))
      (str_eq c.id id) (rw (same c) (rw (has_row-update_row f id other cs same) refl))
      (rw (has_row-update_row f id other cs same) refl)

abbrev SameRows : Manager → Manager → Type 0
SameRows m m' = (id : String) → has_row m'.connections id ≡ has_row m.connections id

resealed-SameRows :
    (w : World) (m : Manager) (conn : Connection) (sealed id secret scopes meta : String)
    → SameRows m (resealed conn sealed m (write_secret w m id secret scopes meta)).1
unfolding resealed write_secret with_secret
resealed-SameRows w m conn sealed id secret scopes meta other =
    elim (Bool-cases (w.secret_writes id && has_row m.connections id)) [
      | inl done ↦
          rw done
            (has_row-update_row (with_secret secret scopes meta) id other m.connections (λ c. refl))
      | inr failed ↦ rw failed refl
    ]

open_found-SameRows :
    (w : World) (m : Manager) (conn : Connection) (o : Option (String × Bool))
    → SameRows m (open_found w m conn o).2
unfolding open_found
open_found-SameRows w m conn none other = refl
open_found-SameRows w m conn (some (secret, true)) other = refl
open_found-SameRows w m conn (some (secret, false)) other =
    let (drew, sealed) = seal_for w m conn secret in
    resealed-SameRows w drew conn sealed conn.id sealed conn.scopes conn.meta other

-- The first loop keeps the key and the ids of the rows.
abbrev pub KeepsRows : Manager → Answer Pending × Manager → Type 0
KeepsRows m r = (r.1.key ≡ m.key) × SameRows m r.1

with_pending_manager :
    (id sealed : String) (r : Answer Pending × Manager) → (with_pending id sealed r).1 ≡ r.1
unfolding with_pending
with_pending_manager id sealed (given ps, m) = refl
with_pending_manager id sealed (refused why, m) = refl

prepare_opened-KeepsRows :
    (w : World) (fresh : String) (c : Connection) (o : Option String) (m : Manager)
    (next : Manager → Answer Pending × Manager)
    → ((m2 : Manager) → KeepsRows m2 (next m2))
    → KeepsRows m (prepare_opened w fresh c o m next)
unfolding prepare_opened seal_fresh
prepare_opened-KeepsRows w fresh c none m next later = (refl, λ id. refl)
prepare_opened-KeepsRows w fresh c (some plain) m next later =
    let (drew, sealed) = seal_fresh w fresh m c plain in
    subst (λ (x : Manager). (x.key ≡ m.key) × SameRows m x)
      (sym (with_pending_manager c.id sealed (next drew))) (later drew)

pub prepare-KeepsRows :
    (w : World) (fresh : String) (cs : List Connection) (m : Manager)
    → KeepsRows m (prepare w fresh cs m)
unfolding prepare open_credential
prepare-KeepsRows w fresh [] m = (refl, λ id. refl)
prepare-KeepsRows w fresh (c ∷ cs) m =
    let (plain, c', m1) = open_credential w m c in
    let o = open_legacy_tolerant w.cipher m.key c.secret (aad_of c) in
    let (key, rows) =
      prepare_opened-KeepsRows w fresh c plain m1 (prepare w fresh cs)
        (prepare-KeepsRows w fresh cs) in
    (key ∙ (open_found_lem w m c o).1, λ id. rows id ∙ open_found-SameRows w m c o id)

-- Every row has one pending text, which reads under the fresh key as the row did.
module _ (w : World) (fresh : String) where
  prepare_opened-Aligned :
      (c : Connection) (cs : List Connection) (o : Option String) (m : Manager)
      (next : Manager → Answer Pending × Manager) (key : String) {ps : Pending} {m' : Manager}
      → m.key ≡ key
      → plain_of w key c ≡ o
      → ((m2 m3 : Manager) (qs : Pending)
          → m2.key ≡ key
          → next m2 ≡ (given qs, m3)
          → Aligned w fresh key cs qs)
      → prepare_opened w fresh c o m next ≡ (given ps, m')
      → Aligned w fresh key (c ∷ cs) ps
  unfolding prepare_opened seal_fresh
  prepare_opened-Aligned c cs none m next key k reads later e = absurd (no_pending e)
  prepare_opened-Aligned c cs (some plain) m next key {m'} k reads later e =
      let (drew, sealed) = seal_fresh w fresh m c plain in
      let (qs, rest, split) = with_pending-given c.id sealed (next drew) e in
      subst (Aligned w fresh key (c ∷ cs)) (sym split)
        (refl, (plain, m.drawn, reads, refl), later drew m' qs k rest)

  pub prepare-Aligned :
      (cs : List Connection) (m m' : Manager) (ps : Pending) (key : String)
      → m.key ≡ key
      → prepare w fresh cs m ≡ (given ps, m')
      → Aligned w fresh key cs ps
  unfolding prepare
  prepare-Aligned [] m m' ps key k e = subst (Aligned w fresh key []) (given_pending e) tt
  prepare-Aligned (c ∷ cs) m m' ps key k e =
      let (plain, c', m1) = open_credential w m c in
      let (reads, same) = open_credential_lem w m c in
      prepare_opened-Aligned c cs plain m1 (prepare w fresh cs) key (same ∙ k)
        (ap (λ key'. plain_of w key' c) (sym k) ∙ sym reads)
        (λ m2 m3 qs. prepare-Aligned cs m2 m3 qs key) e
