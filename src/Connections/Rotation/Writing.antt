-- ===== src/Connections/Rotation/Writing.antt =====
-- The second loop of a rotation: what it leaves in the rows.
use mathlib.Core.Option
use hostit.Common.{
  String, Bool, true, false, List, [], ◌∷◌, Option, none, some, ◌≡◌, inl, inr, refl, ap, sym, ◌∙◌,
  arith, Bool-cases, Option-cases, some_inj, if_elim, ◌&&◌, if◌then◌else◌, str_eq, str_eq→eq,
}
use mathlib.Core.Option
use text.Mathlib.TextEquality.{eq_iff}
use hostit.Connections.{Connection, update_row, has_row, with_secret_only, connection_of}
use hostit.Connections.Custody.{Manager, World}
use hostit.Connections.Rotation.{Pending, write_pending}

later : Option String → Option String → Option String
later (some t) o = some t
later none o = o

-- The text that the loop leaves in a row: the last one of its id
unfoldable pub sealed_for : String → Pending → Option String
unfolding later
sealed_for id [] = none
sealed_for id ((j, s) ∷ ps) = later (sealed_for id ps) (if str_eq j id then some s else none)

connection_of-update_row :
    (s id other : String) (cs : List Connection)
    → connection_of (update_row (with_secret_only s) id cs) other ≡ (
        if str_eq id other
        then Option.map (with_secret_only s) (connection_of cs other)
        else connection_of cs other)
unfolding connection_of update_row with_secret_only
connection_of-update_row s id other [] = ground arith
connection_of-update_row s id other (c ∷ cs) = ground (
  arith,
  connection_of-update_row s id other cs,
  eq_iff c.id id,
  eq_iff c.id other,
  eq_iff id other,
)

has_row-connection_of :
    (id : String) (cs : List Connection)
    → has_row cs id ≡ true
    → (c : Connection) × (connection_of cs id ≡ some c)
unfolding has_row connection_of
has_row-connection_of id [] h = absurd (cc)
has_row-connection_of id (c ∷ cs) h = elim (Bool-cases (str_eq c.id id)) [
  | inl here ↦ (c, rw here refl)
  | inr there ↦ let (d, found) = has_row-connection_of id cs (rw there at h) in (d, rw there found)
]

abbrev pub row_of : String → Manager → Option Connection
row_of id m = connection_of m.connections id

pub updated_row :
    (t j id : String) (cs : List Connection)
    → str_eq j id ≡ true
    → has_row cs j ≡ true
    → (c : Connection) × (connection_of (update_row (with_secret_only t) j cs) id ≡ some c)
      × (c.secret ≡ t)
unfolding with_secret_only
updated_row t j id cs same h =
    let (c, found) =
      has_row-connection_of id cs (ap (has_row cs) (sym (str_eq→eq j id same)) ∙ h) in
    (
      with_secret_only t c,
      connection_of-update_row t j id cs ∙ rw same (ap (Option.map (with_secret_only t)) found),
      refl,
    )

if-some : (b : Bool) {t s : String} → (if b then some t else none) ≡ some s → (b ≡ true) × (t ≡ s)
if-some true e = (refl, some_inj e)
if-some false e = absurd (cc)

and_right : (a b : Bool) → (a && b) ≡ true → b ≡ true
and_right a b h = ground arith

later-none : (a b : Option String) → later a b ≡ none → (a ≡ none) × (b ≡ none)
unfolding later
later-none none b e = (refl, e)
later-none (some t) b e = absurd (cc)

if-none : (b : Bool) (s : String) → (if b then some s else none) ≡ none → b ≡ false
if-none true s e = absurd (cc)
if-none false s e = refl

-- A row that no text is for is left alone.
pub write_pending-other :
    (w : World) (ps : Pending) (m : Manager) (id : String)
    → sealed_for id ps ≡ none
    → row_of id (write_pending w ps m).1 ≡ row_of id m
unfolding write_pending sealed_for
write_pending-other w [] m id e = refl
write_pending-other w ((j, s) ∷ ps) m id e =
    let (rest, here) = later-none (sealed_for id ps) _ e in
    if_elim (λ (r : Bool × Manager). row_of id r.1 ≡ row_of id m)
      (w.secret_writes j && has_row m.connections j)
      (write_pending-other w ps
          (record m { connections = update_row (with_secret_only s) j m.connections }) id rest
        ∙ connection_of-update_row s j id m.connections
        ∙ rw (if-none (str_eq j id) s here) refl)
      refl

pub write_pending-row :
    (w : World) (ps : Pending) (m : Manager) (id s : String)
    → (write_pending w ps m).0 ≡ true
    → sealed_for id ps ≡ some s
    → (c : Connection) × (row_of id (write_pending w ps m).1 ≡ some c) × (c.secret ≡ s)
unfolding write_pending sealed_for
write_pending-row w [] m id s ok e = absurd (cc)
write_pending-row w ((j, t) ∷ ps) m id s ok e =
    let m1 = record m { connections = update_row (with_secret_only t) j m.connections } in
    elim (Bool-cases (w.secret_writes j && has_row m.connections j)) [
      | inr failed ↦ absurd (cc (rw failed at ok))
      | inl done ↦ rw done (elim (Option-cases (sealed_for id ps)) [
        | inr (u, rest) ↦
            write_pending-row w ps m1 id s (rw done at ok) (rest ∙ (rw (rest, later) at e))
        | inl rest ↦
            let (same, text) = if-some (str_eq j id) (rw (rest, later) at e) in
            let (c, found, holds) =
              updated_row t j id m.connections same (and_right (w.secret_writes j) _ done) in
            (c, write_pending-other w ps m1 id rest ∙ found, holds ∙ text)
      ])
    ]
