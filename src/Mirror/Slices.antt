-- ===== src/Mirror/Slices.antt =====
-- What a node is sent: the rows of its own apps, and its part of the desired state.
use hostit.Common.{
  String, List, [], ◌∷◌, Option, none, some, ◌≡◌, ◌≢◌, refl, ap, sym, ◌∙◌, inl, inr, arith,
  Bool-cases, str_eq, str_neq, if◌then◌else◌, map, some_inj,
}
use hostit.Store.{App, host_local}
use hostit.Registry.{host_or_local}
use hostit.Mirror.{
  mirrored, is_hosted, rows_of, add_rows, Policy, app_desired, desired_state, slice_for,
}

host_or_local_twice : (h : String) → host_or_local (host_or_local h) ≡ host_or_local h
unfolding host_or_local host_local
host_or_local_twice h = elim (Bool-cases (str_eq h "")) [
  | inl absent ↦ rw absent refl
  | inr there ↦ rw there (rw there refl)
]

-- The part of the whole fleet's desired state that the registry of nodes cuts out for a node is the
-- desired state that is built for that node alone.
pub slice_for-desired_state :
    (p : Policy) (id : String) (apps : List App)
    → id ≢ ""
    → slice_for (desired_state p "" apps) id ≡ desired_state p id apps
unfolding slice_for desired_state is_hosted app_desired
slice_for-desired_state p id [] named = refl
slice_for-desired_state p id (a ∷ apps) named = ground (
  arith,
  slice_for-desired_state p id apps named,
  str_neq id "" named,
  host_or_local_twice a.host,
)

-- The apps of a host, in the registry's order.
pub hosted : String → List App → List App
hosted host [] = []
hosted host (a ∷ apps) = let rest = hosted host apps in if is_hosted host a then a ∷ rest else rest

add_rows_apps :
    {Snapshot : Type 0} (a : App) (snaps : Option (List Snapshot))
    (rest : Option (List App × List Snapshot)) (apps : List App) (rows : List Snapshot)
    → add_rows a snaps rest ≡ some (apps, rows)
    → (rest_apps : List App) × (rest_rows : List Snapshot) × (rest ≡ some (rest_apps, rest_rows))
      × (apps ≡ mirrored a ∷ rest_apps)
unfolding add_rows
add_rows_apps a none rest apps rows e = cc
add_rows_apps a (some snaps) none apps rows e = cc
add_rows_apps a (some snaps) (some (rest_apps, rest_rows)) apps rows e =
    (rest_apps, rest_rows, refl, sym (ap (λ o. o.0) (some_inj e)))

-- What is read for a host are the rows of its apps, without their owners.
pub rows_of_apps :
    {Snapshot : Type 0} (snapshots : String → Option (List Snapshot)) (host : String)
    (apps rows_apps : List App) (rows : List Snapshot)
    → rows_of snapshots host apps ≡ some (rows_apps, rows)
    → rows_apps ≡ map mirrored (hosted host apps)
unfolding rows_of hosted
rows_of_apps snapshots host [] rows_apps rows e = sym (ap (λ o. o.0) (some_inj e))
rows_of_apps snapshots host (a ∷ apps) rows_apps rows e = elim (Bool-cases (is_hosted host a)) [
  | inl here ↦ rw here (
      let (rest_apps, rest, read, same) =
        add_rows_apps a (snapshots a.name) (rows_of snapshots host apps) rows_apps rows
          (ground arith) in
      same ∙ ap (◌∷◌ (mirrored a)) (rows_of_apps snapshots host apps rest_apps rest read))
  | inr elsewhere ↦ rw elsewhere (rows_of_apps snapshots host apps rows_apps rows (ground arith))
]
