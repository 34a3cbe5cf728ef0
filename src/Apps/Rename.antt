-- ===== src/Apps/Rename.antt =====
-- `RenameApp` of control/rename.go, and the routing of its calls of a node by control/registry.go. The
-- node keeps the login of an app, by the app's id. Whether each step succeeds is an argument.
use hostit.Common.{
  ◌∙◌, String, ◌&&◌, Bool, true, false, List, [], ◌∷◌, Option, none, some, ◌≡◌, ◌≢◌, ◌⊎◌, refl, ap,
  inl, inr, arith, Bool-cases, Option-cases, if◌then◌else◌, not, str_eq, str_eq_self, str_neq,
  lookup, some_inj,
}
use text.Mathlib.TextEquality.{eq_iff}
use hostit.Store.{App, find_app}
use hostit.Registry.{host_or_local}
use hostit.Apps.Create.{Checks, CreateError, validate_name}
use hostit.Apps.Create.Laws.{validate_name-none}

-- The rows, and the logins of a node's apps by id.
pub record Names : Type 0 where
  pub apps : List App
  pub logins : List (String × String)

-- The registry's flip: it can lose to a creation, whose row has the new name then.
pub data Flip : Type 0 where
  flipped flip_failed : Flip
  name_taken : App → Flip

pub data RenameAnswer : Type 0 where
  renamed : Option App → RenameAnswer
  no_app node_refused taken not_flipped : RenameAnswer
  refused : CreateError → RenameAnswer

-- The node's `Rename`.
unfoldable pub set_login : String → String → List (String × String) → List (String × String)
set_login id name [] = []
set_login id name ((i, n) ∷ logins) =
    let rest = set_login id name logins in if str_eq i id then (i, name) ∷ rest else (i, n) ∷ rest

unfoldable pub node_rename : Bool → String → String → Names → Names
unfolding set_login
node_rename ok id name s = if ok then record s { logins = set_login id name s.logins } else s

-- The store's `RenameApp`.
unfoldable pub rename_row : String → String → List App → List App
rename_row old new [] = []
rename_row old new (a ∷ apps) =
    let rest = rename_row old new apps in
    if str_eq a.name old then record a { name = new } ∷ rest else a ∷ rest

-- Whose login has the new name on the host of the row that has it: the renamed app's on its own host.
unfoldable pub login_at : App → App → String
unfolding host_or_local
login_at a b = if str_eq (host_or_local b.host) (host_or_local a.host) then a.id else b.id

unfoldable pub renamed_at : Bool → Option App → String → App → Names → Names
unfolding node_rename login_at
renamed_at ok none old a s = s
renamed_at ok (some b) old a s = node_rename ok (login_at a b) old s

-- The way back, `Rename(newName, oldName, id)`, which is routed by the new name: with no row of that
-- name it goes nowhere, and on another host it renames the login that has the name there.
unfoldable pub rename_back : Bool → List App → String → String → App → Names → Names
unfolding renamed_at
rename_back ok apps old new a s = renamed_at ok (find_app apps new) old a s

-- The registry's flip, and the way back of the login if it fails.
unfoldable pub flip : Flip → Bool → String → String → App → Names → Names × RenameAnswer
unfolding rename_row rename_back
flip flipped back old new a s =
    let apps = rename_row old new s.apps in (record s { apps = apps }, renamed (find_app apps new))
flip (name_taken b) back old new a s =
    let apps = b ∷ s.apps in (record (rename_back back apps old new a s) { apps = apps }, taken)
flip flip_failed back old new a s = (rename_back back s.apps old new a s, not_flipped)

unfoldable pub rename_valid :
    Bool → Flip → Bool → String → String → App → Option CreateError → Names → Names × RenameAnswer
unfolding flip node_rename
rename_valid there answer back old new a (some e) s = (s, refused e)
rename_valid there answer back old new a none s =
    if not there
    then (s, node_refused)
    else flip answer back old new a (node_rename true a.id new s)

unfoldable pub rename_found :
    Checks → Bool → Flip → Bool → String → String → Option App → Names → Names × RenameAnswer
unfolding rename_valid
rename_found c there answer back old new none s = (s, no_app)
rename_found c there answer back old new (some a) s =
    rename_valid there answer back old new a (validate_name c s.apps new) s

-- `there` is whether the node renames the login, `back` whether it renames it back.
unfoldable pub rename_app :
    Checks → Bool → Flip → Bool → String → String → Names → Names × RenameAnswer
unfolding rename_found
rename_app c there answer back old new s =
    if str_eq new old
    then (s, renamed (find_app s.apps old))
    else rename_found c there answer back old new (find_app s.apps old) s

lookup-set_login :
    (id name : String) (logins : List (String × String)) {old : String}
    → lookup id logins ≡ some old
    → lookup id (set_login id name logins) ≡ some name
unfolding set_login
lookup-set_login id name [] h = cc
lookup-set_login id name ((i, n) ∷ logins) {old} h =
    ground (arith, lookup-set_login id name logins {old = old})

-- The login of another app stays.
lookup-set_login_other :
    (i id name : String) (logins : List (String × String))
    → i ≢ id
    → lookup id (set_login i name logins) ≡ lookup id logins
unfolding set_login
lookup-set_login_other i id name [] h = refl
lookup-set_login_other i id name ((j, n) ∷ logins) h =
    ground (arith, lookup-set_login_other i id name logins h, eq_iff j i, eq_iff j id)

set_login_twice :
    (id a b : String) (logins : List (String × String))
    → set_login id b (set_login id a logins) ≡ set_login id b logins
unfolding set_login
set_login_twice id a b [] = refl
set_login_twice id a b ((i, n) ∷ logins) = elim (Bool-cases (str_eq i id)) [
  | inl same ↦ rw same (rw same (ap (◌∷◌ (i, b)) (set_login_twice id a b logins)))
  | inr other ↦ rw other (rw other (ap (◌∷◌ (i, n)) (set_login_twice id a b logins)))
]

find_app-name :
    (apps : List App) (name : String) {a : App} → find_app apps name ≡ some a → a.name ≡ name
unfolding find_app
find_app-name [] name h = cc
find_app-name (b ∷ apps) name {a} h =
    ground (arith, find_app-name apps name {a = a}, eq_iff b.name name)

abbrev renamed_row : String → App → Option App
renamed_row new a = some (record a { name = new })

-- The row of a name that was free is found under it.
find_app-rename_row :
    (old new : String) (apps : List App) {a : App}
    → find_app apps old ≡ some a
    → find_app apps new ≡ none
    → find_app (rename_row old new apps) new ≡ some (record a { name = new })
unfolding find_app rename_row
find_app-rename_row old new [] h k = cc
find_app-rename_row old new (b ∷ apps) {a} h k = elim (Bool-cases (str_eq b.name old)) [
  | inl same ↦
      let found : b ≡ a = some_inj (ground arith) in
      rw same (rw (str_eq_self new) (ap (renamed_row new) found))
  | inr other ↦
      let rest = find_app-rename_row old new apps {a = a} (ground arith) (ground arith) in
      let differs : str_eq b.name new ≡ false = ground arith in rw other (rw differs rest)
]

-- The names of an app in the registry and on its node.
abbrev pub IsNamed : Names → String → String → Type 0
IsNamed s id name =
    (a : App) × (find_app s.apps name ≡ some a) × (a.id ≡ id) × (lookup id s.logins ≡ some name)

-- Whether the way back of the login comes to the app's node and is carried out: only if a creation
-- took the new name, on the same host.
unfoldable pub comes_back : Flip → Bool → String → App → Bool
unfolding host_or_local
comes_back flipped back new a = false
comes_back flip_failed back new a = false
comes_back (name_taken b) back new a =
    back && str_eq b.name new && str_eq (host_or_local b.host) (host_or_local a.host)

-- The rows after a failure: those that there were, with the one that took the name.
abbrev pub rows_after : Flip → List App → List App
rows_after flipped apps = apps
rows_after flip_failed apps = apps
rows_after (name_taken b) apps = b ∷ apps

-- The row of the app is as it was, and the login has this name.
abbrev pub IsLeft : App → List App → Names → String → Type 0
IsLeft a apps s login = (s.apps ≡ apps) × (lookup a.id s.logins ≡ some login)

-- How a rename leaves an app, whose row is `a`: under its new name in the registry and on the node; as
-- it was, before the node renamed anything; or with the registry's flip failed and the login back
-- under its old name, if the way back came to the node, and left under the new one if not.
abbrev pub IsSettled : Flip → Bool → String → String → App → Names → Names × RenameAnswer → Type 0
IsSettled answer back old new a s r =
    ((r.1 ≡ renamed (some (record a { name = new })))
      × (find_app r.0.apps new ≡ some (record a { name = new }))
      × (lookup a.id r.0.logins ≡ some new))
    ⊎ (r.0 ≡ s)
    ⊎ IsLeft a (rows_after answer s.apps) r.0 (if comes_back answer back new a then old else new)

and_false : (a : Bool) → (a && false) ≡ false
and_false a = ground arith

module _ (back : Bool) (old new : String) (a : App) (s : Names) where
  flip-cases :
      (answer : Flip)
      → find_app s.apps old ≡ some a
      → find_app s.apps new ≡ none
      → lookup a.id s.logins ≡ some old
      → ((b : App) → answer ≡ name_taken b → b.id ≢ a.id)
      → IsSettled answer back old new a s (flip answer back old new a (node_rename true a.id new s))
  unfolding flip node_rename rename_back renamed_at login_at comes_back find_app
  flip-cases flipped found free login apart =
      let there = find_app-rename_row old new s.apps found free in
      inl (ap renamed there, there, lookup-set_login a.id new s.logins login)
  flip-cases flip_failed found free login apart =
      let moved = lookup-set_login a.id new s.logins login in inr (inr (rw free (refl, moved)))
  flip-cases (name_taken b) found free login apart =
      let moved = lookup-set_login a.id new s.logins login in
      let again = lookup-set_login a.id old (set_login a.id new s.logins) moved in
      inr (
        inr (elim (Bool-cases (str_eq b.name new)) [
          | inr other ↦ rw other (rw (free, and_false back) (refl, moved))
          | inl same ↦
              rw same (elim (Bool-cases (str_eq (host_or_local b.host) (host_or_local a.host))) [
                | inr away ↦
                    rw (away, and_false (back && true))
                      (elim (Bool-cases back) [
                        | inl works ↦ rw works (
                          refl,
                          lookup-set_login_other b.id a.id old (set_login a.id new s.logins)
                                (apart b refl)
                              ∙ moved,
                        )
                        | inr broken ↦ rw broken (refl, moved)
                      ])
                | inl here ↦ rw here (elim (Bool-cases back) [
                  | inl works ↦ rw works (refl, again)
                  | inr broken ↦ rw broken (refl, moved)
                ])
              ])
        ]))

-- A rename of an app that is there, whose login on its node has its name, ends in one of three ways.
-- It succeeds, and the row and the login have the new name. Or it fails before the node has renamed
-- anything, and all is as it was. Or the registry's flip fails: then the app's row is as it was, and
-- the login has its old name again only if a creation took the new name on the same host, the way back
-- being routed by the new name, and the node carries it out; otherwise the login keeps the new name. An app
-- that takes the new name has another id.
pub rename_app-IsSettled :
    (c : Checks) (there back : Bool) (answer : Flip) (old new : String) (a : App) (s : Names)
    → new ≢ old
    → find_app s.apps old ≡ some a
    → lookup a.id s.logins ≡ some old
    → ((b : App) → answer ≡ name_taken b → b.id ≢ a.id)
    → IsSettled answer back old new a s (rename_app c there answer back old new s)
unfolding rename_app rename_found rename_valid
rename_app-IsSettled c there back answer old new a s differs found login apart =
    rw (str_neq new old differs) (
      rw found (elim (Option-cases (validate_name c s.apps new)) [
        | inr (e, bad) ↦ rw bad (inr (inl refl))
        | inl valid ↦ rw valid (elim (Bool-cases there) [
          | inr stays ↦ rw stays (inr (inl refl))
          | inl moved ↦ rw moved (
              flip-cases back old new a s answer found (validate_name-none c s.apps new valid) login
                apart)
        ])
      ]))
