-- ===== src/Apps/SoftDelete/Sweep.antt =====
-- What the sweep of soft-deleted apps removes, and when.
use hostit.Common.{
  ℕ, ◌+◌, ◌-◌, ◌≤◌, String, Bool, true, false, List, [], ◌∷◌, Option, none, some, ◌≡◌, refl, ap,
  sym, ◌∙◌, inl, inr, arith, Bool-cases, ◌&&◌, ◌||◌, ◌==◌, ltb, some_inj, if◌then◌else◌, str_eq,
  str_eq→eq,
}
use text.Mathlib.TextEquality.{eq_iff}
use hostit.Store.{App, find_app}
use hostit.Apps.Create.{remove_app}
use hostit.Apps.SoftDelete.{
  set_soft_deleted, at_second, stamp_found, soft_delete_app, restore_soft_deleted, is_expired,
  reap_one, reap_each, reap_soft_deleted, is_reaped,
}

find_app-remove_app :
    (name other : String) (apps : List App)
    → find_app (remove_app name apps) other
      ≡ (if str_eq name other then none else find_app apps other)
unfolding find_app remove_app
find_app-remove_app name other [] = ground arith
find_app-remove_app name other (a ∷ apps) = ground (
  arith,
  find_app-remove_app name other apps,
  eq_iff a.name name,
  eq_iff a.name other,
  eq_iff name other,
)

module _ (deletes : String → Bool) (now grace : ℕ) where
  find_app-reap_one :
      (a : App) (apps : List App) (name : String)
      → find_app (reap_one deletes now grace a apps) name ≡ (
          if str_eq a.name name && (is_expired now grace a && deletes a.name)
          then none
          else find_app apps name)
  unfolding reap_one
  find_app-reap_one a apps name = elim (Bool-cases (is_expired now grace a && deletes a.name)) [
    | inl taken ↦ rw taken (find_app-remove_app a.name name apps ∙ ground arith)
    | inr left ↦ rw left (ground arith)
  ]

  -- The sweep removes exactly the names of the rows that it read as expired and whose deletion
  -- worked, whatever the rows have become in the meantime.
  pub find_app-reap_each :
      (read apps : List App) (name : String)
      → find_app (reap_each deletes now grace read apps) name
        ≡ (if is_reaped deletes now grace read name then none else find_app apps name)
  unfolding reap_each is_reaped
  find_app-reap_each [] apps name = refl
  find_app-reap_each (a ∷ read) apps name =
      find_app-reap_each read (reap_one deletes now grace a apps) name
      ∙ rw (find_app-reap_one a apps name) (ground arith)

stamped_app : ℕ → App → App
stamped_app at a = record a { soft_deleted_at = at }

find_app-set_soft_deleted :
    (name : String) (at : ℕ) (apps : List App) {a : App}
    → find_app apps name ≡ some a
    → find_app (set_soft_deleted name at apps) name ≡ some (stamped_app at a)
unfolding find_app set_soft_deleted stamped_app
find_app-set_soft_deleted name at [] h = cc
find_app-set_soft_deleted name at (b ∷ apps) {a} h = elim (Bool-cases (str_eq b.name name)) [
  | inl same ↦
      let found : b ≡ a = some_inj (ground arith) in
      rw same (rw same (ap (λ x. some (stamped_app at x)) found))
  | inr other ↦ rw other (rw other (find_app-set_soft_deleted name at apps {a = a} (ground arith)))
]

module _ (deletes : String → Bool) (now grace : ℕ) where
  -- Rows that the sweep does not take.
  is_reaped-set_soft_deleted :
      (name : String) (at : ℕ) (apps : List App)
      → ((at == 0) || ltb (now - grace) at) ≡ true
      → is_reaped deletes now grace (set_soft_deleted name at apps) name ≡ false
  unfolding is_reaped set_soft_deleted is_expired
  is_reaped-set_soft_deleted name at [] h = refl
  is_reaped-set_soft_deleted name at (b ∷ apps) h = elim (Bool-cases (str_eq b.name name)) [
    | inl same ↦ rw same (ground (arith, is_reaped-set_soft_deleted name at apps))
    | inr other ↦ rw other (rw other (is_reaped-set_soft_deleted name at apps h))
  ]

  is_reaped_found :
      (name : String) (apps : List App) {a : App}
      → find_app apps name ≡ some a
      → is_expired now grace a ≡ true
      → deletes name ≡ true
      → is_reaped deletes now grace apps name ≡ true
  unfolding is_reaped find_app
  is_reaped_found name [] h e d = cc
  is_reaped_found name (b ∷ apps) {a} h e d = elim (Bool-cases (str_eq b.name name)) [
    | inl same ↦
        let found : b ≡ a = some_inj (ground arith) in
        let expired : is_expired now grace b ≡ true = ap (is_expired now grace) found ∙ e in
        let works : deletes b.name ≡ true = ap deletes (str_eq→eq b.name name same) ∙ d in
        ground arith
    | inr other ↦ ground (arith, is_reaped_found name apps {a = a})
  ]

stamp_found-some :
    (o : Option App) (name : String) (at : ℕ) (apps after : List App)
    → stamp_found o name at apps ≡ some after
    → (a : App) × (o ≡ some a) × (set_soft_deleted name at apps ≡ after)
unfolding stamp_found
stamp_found-some none name at apps after h = cc
stamp_found-some (some a) name at apps after h = (a, refl, some_inj h)

module _ (deletes : String → Bool) (now grace : ℕ) where
  -- A sweep that starts after the stamping of a row leaves it, if the stamp is none or later than
  -- the grace allows.
  reap_soft_deleted-stamped :
      (name : String) (at : ℕ) (apps : List App)
      → ((at == 0) || ltb (now - grace) at) ≡ true
      → find_app (reap_soft_deleted deletes now grace (set_soft_deleted name at apps)) name
        ≡ find_app (set_soft_deleted name at apps) name
  unfolding reap_soft_deleted
  reap_soft_deleted-stamped name at apps h =
      let rows = set_soft_deleted name at apps in
      find_app-reap_each deletes now grace rows rows name
      ∙ rw (is_reaped-set_soft_deleted deletes now grace name at apps h) refl

  -- No sweep that starts less than the grace, short of a second, after an app was deleted softly
  -- takes the app.
  pub reap_soft_deleted-soft_delete_app :
      (at : ℕ) (name : String) (apps after : List App)
      → soft_delete_app at name apps ≡ some after
      → now + 1_000_000_000 ≤ at + grace
      → find_app (reap_soft_deleted deletes now grace after) name ≡ find_app after name
  unfolding soft_delete_app
  reap_soft_deleted-soft_delete_app at name apps after h k =
      let (a, found, stamped) =
        stamp_found-some (find_app apps name) name (at_second at) apps after h in
      ap (λ rows. find_app (reap_soft_deleted deletes now grace rows) name) (sym stamped)
      ∙ reap_soft_deleted-stamped name (at_second at) apps (ground arith)
      ∙ ap (λ rows. find_app rows name) stamped

  -- An app whose grace is over is restored. A sweep that starts afterwards leaves it as a live app;
  -- a sweep that had read the rows before deletes the restored app for good.
  pub reap_each-restore_soft_deleted :
      (name : String) (apps after : List App) (a : App)
      → find_app apps name ≡ some a
      → is_expired now grace a ≡ true
      → deletes name ≡ true
      → restore_soft_deleted name apps ≡ some after
      → (find_app (reap_soft_deleted deletes now grace after) name
          ≡ some (record a { soft_deleted_at = 0 }))
        × (find_app (reap_each deletes now grace apps after) name ≡ none)
  unfolding restore_soft_deleted stamped_app
  reap_each-restore_soft_deleted name apps after a found expired works h =
      let (b, _, stamped) = stamp_found-some (find_app apps name) name 0 apps after h in
      (
        ap (λ rows. find_app (reap_soft_deleted deletes now grace rows) name) (sym stamped)
            ∙ reap_soft_deleted-stamped name 0 apps refl
            ∙ find_app-set_soft_deleted name 0 apps found,
        find_app-reap_each deletes now grace apps after name
            ∙ rw (is_reaped_found deletes now grace name apps found expired works) refl,
      )
