-- ===== src/Apps/Create/Laws.antt =====
-- A creation that fails leaves the registry as it was; one that succeeds has made the app.
use hostit.Common.{
  ℕ, ◌+◌, ◌≤◌, String, Bool, false, List, [], ◌∷◌, ◌++◌, Option, none, some, ◌≡◌, ◌⊎◌, refl, ap,
  ◌∙◌, inl, inr, arith, Bool-cases, Option-cases, ◌||◌, not, map, if◌then◌else◌, str_eq_self,
  contains,
}
use hostit.Common.Int.{pos}
use mathlib.Core.List.{append_assoc}
use hostit.Store.{App, find_app}
use hostit.Apps.Ports.{
  port_min, port_max, Ports, Allocation, allocated, read_failed, no_ports_available, allocate_port,
  release_port, has_port, drop_port,
}
use hostit.Apps.Ports.Search.{allocate_port-cases}
use hostit.Apps.Create.{
  push_mirror, set_memory_limit, set_disk_limit, set_cpu_limit, provision, start, World,
  CreateOptions, CreateError, store_failed, provision_failed, no_port, invalid_keys, invalid_name,
  reserved_name, app_exists, account_collides, reserved_names, collides, Checks, Outcome, Created,
  made, failed, is_some, validate_name, remove_app, app_port, default_cpu_milli, new_app, say, push,
  drop_rows, stamp_cpu, after_provision, build_app, has_app, register_app, record_limits, released,
  with_port, used_ports, create_valid, create,
}

is_some-false : (o : Option App) → is_some o ≡ false → o ≡ none
unfolding is_some
is_some-false none h = refl
is_some-false (some a) h = cc

-- A name that no row has is removed without a change.
remove_app_absent :
    (name : String) (apps : List App) → find_app apps name ≡ none → remove_app name apps ≡ apps
unfolding remove_app find_app
remove_app_absent name [] h = refl
remove_app_absent name (a ∷ apps) h = ground (arith, remove_app_absent name apps)

drop_port_absent : (p : ℕ) (ports : List ℕ) → has_port ports p ≡ false → drop_port p ports ≡ ports
unfolding drop_port
drop_port_absent p [] h = refl
drop_port_absent p (q ∷ ports) h = ground (arith, drop_port_absent p ports)

-- The rows that there were, or one more of the name, if the rows that were made cannot be removed.
abbrev pub AreUndone : World → String → Outcome → List App → Type 0
AreUndone w name o apps =
    (apps ≡ w.apps)
    ⊎ ((o.row_removed ≡ false) × (left : App) × (left.name ≡ name) × (apps ≡ left ∷ w.apps))

abbrev pub IsUndone : World → String → Outcome → World × Created → Type 0
IsUndone w name o r = (e : CreateError) × (r.1 ≡ failed e) × AreUndone w name o r.0.apps

-- What a success leaves: one more row, which the nodes knew before the app was built.
abbrev pub IsMade : World → String → CreateOptions → Bool → Outcome → App → World × Created → Type 0
IsMade w name opts forking o a r =
    (r.1 ≡ made a)
    × (r.0.apps ≡ stamp_cpu o.cpu_stamped a ∷ w.apps)
    × (r.0.calls
        ≡ w.calls
          ++ push_mirror (stamp_cpu o.cpu_stamped a ∷ w.apps)
            ∷ set_memory_limit name opts.memory_mb
            ∷ set_cpu_limit name default_cpu_milli
            ∷ provision a
            ∷ set_disk_limit name opts.disk_mb
            ∷ start name forking
            ∷ [])

remove_app-new :
    (name : String) (w : World) (a : App)
    → a.name ≡ name
    → find_app w.apps name ≡ none
    → remove_app name (a ∷ w.apps) ≡ w.apps
unfolding remove_app
remove_app-new name w a same absent =
    rw same (rw (str_eq_self name) (remove_app_absent name w.apps absent))

allocate_port-none : {s : Ports} → allocate_port none s ≡ (s, read_failed)
unfolding allocate_port
allocate_port-none = refl

no_error :
    (valid reserved there collision : Bool)
    → (if not valid
        then some invalid_name
        else if reserved
        then some reserved_name
        else if there
        then some app_exists
        else if collision
        then some account_collides
        else none)
      ≡ none
    → there ≡ false
no_error valid reserved there collision e = ground arith

pub validate_name-none :
    (c : Checks) (apps : List App) (name : String)
    → validate_name c apps name ≡ none
    → find_app apps name ≡ none
unfolding validate_name
validate_name-none c apps name e = is_some-false (find_app apps name) (
    no_error (c.valid_name name) (contains reserved_names name) (is_some (find_app apps name))
      (collides c (c.home_of name)) e)

abbrev holding : Ports → ℕ → Ports
holding s port = record { next_port = pos (port + 1); reserved = port ∷ s.reserved }

module _ (name : String) (opts : CreateOptions) (forking : Bool) (o : Outcome) where
  stamp_cpu-name : (ok : Bool) (a : App) → (stamp_cpu ok a).name ≡ a.name
  unfolding stamp_cpu
  stamp_cpu-name ok a = ground arith

  register_app-cases :
      (w : World) (a : App)
      → a.name ≡ name
      → find_app w.apps name ≡ none
      → (IsUndone w name o (register_app w name opts forking o a)
          ⊎ IsMade w name opts forking o a (register_app w name opts forking o a))
        × ((register_app w name opts forking o a).0.ports ≡ w.ports)
  unfolding register_app build_app after_provision push say drop_rows
  register_app-cases w a same absent =
      elim (Bool-cases (has_app w.apps name a.port || not o.added)) [
        | inl refused ↦ rw refused (inl (store_failed, refl, inl refl), refl)
        | inr added ↦ rw added (elim (Bool-cases o.keys_set) [
          | inr unset ↦ rw unset (elim (Bool-cases o.row_removed) [
            | inl gone ↦
                rw gone (inl (store_failed, refl, inl (remove_app-new name w a same absent)), refl)
            | inr left ↦ rw left (inl (store_failed, refl, inr (refl, a, same, refl)), refl)
          ])
          | inl set ↦ rw set (elim (Bool-cases o.provisioned) [
            | inl built ↦ rw built (inr (refl, refl, simp append_assoc), refl)
            | inr broken ↦ rw broken (elim (Bool-cases o.row_removed) [
              | inl gone ↦ rw gone (
                inl (
                  provision_failed,
                  refl,
                  inl (
                      remove_app-new name w (stamp_cpu o.cpu_stamped a)
                        (stamp_cpu-name o.cpu_stamped a ∙ same) absent),
                ),
                refl,
              )
              | inr left ↦ rw left (
                inl (
                  provision_failed,
                  refl,
                  inr (
                    refl,
                    stamp_cpu o.cpu_stamped a,
                    stamp_cpu-name o.cpu_stamped a ∙ same,
                    refl,
                  ),
                ),
                refl,
              )
            ])
          ])
        ])
      ]

  with_port-cases :
      (w : World) (port : ℕ)
      → find_app w.apps name ≡ none
      → has_port w.ports.reserved port ≡ false
      → (IsUndone w name o (with_port w name opts forking o (holding w.ports port, allocated port))
          ⊎ IsMade w name opts forking o
              (new_app name opts o port)
              (with_port w name opts forking o (holding w.ports port, allocated port)))
        × ((with_port w name opts forking o (holding w.ports port, allocated port)).0.ports.reserved
            ≡ w.ports.reserved)
  unfolding with_port released record_limits release_port new_app drop_port
  with_port-cases w port absent unreserved =
      let begun = record_limits name opts (record w { ports = holding w.ports port }) in
      let (outcome, ports) = register_app-cases begun (new_app name opts o port) refl absent in
      (
        elim outcome [
          | inl (e, answer, apps) ↦ inl (e, answer, apps)
          | inr (answer, apps, calls) ↦ inr (answer, apps, calls)
        ],
        ap (λ x. drop_port port x.reserved) ports
            ∙ ground (arith, drop_port_absent port w.ports.reserved),
      )

  with_port-exhausted :
      (w : World) (r : Ports × Allocation)
      → r.1 ≡ no_ports_available
      → with_port w name opts forking o r ≡ (record w { ports = r.0 }, failed no_port)
  unfolding with_port
  with_port-exhausted w (ports, allocated p) e = cc
  with_port-exhausted w (ports, read_failed) e = cc
  with_port-exhausted w (ports, no_ports_available) e = refl

  -- A creation either fails, and the registry has the rows that it had, unless the rows that were
  -- made cannot be removed again, when it has one more row, of the name; or it makes the app, which has
  -- the name, the owner and the privacy asked for, no limit but the CPU cap, and a port of the range that no
  -- app had and that nothing else held. The nodes then got the registry with the app, and its caps,
  -- before the node built the app. Either way no port stays reserved for it.
  pub create-cases :
      (c : Checks) (w : World)
      → (IsUndone w name o (create c w name opts forking o)
          ⊎ ((port : ℕ) × (port_min ≤ port)
              × (port ≤ port_max)
              × (has_port (map app_port w.apps) port ≡ false)
              × (has_port w.ports.reserved port ≡ false)
              × IsMade w name opts forking o
                  (new_app name opts o port)
                  (create c w name opts forking o)))
        × ((create c w name opts forking o).0.ports.reserved ≡ w.ports.reserved)
  unfolding create create_valid with_port used_ports
  create-cases c w = elim (Option-cases (validate_name c w.apps name)) [
    | inr (e, refused) ↦ rw refused (inl (e, refl, inl refl), refl)
    | inl valid ↦ rw valid (elim (Bool-cases (c.valid_keys opts.request_keys)) [
      | inr bad ↦ rw bad (inl (invalid_keys, refl, inl refl), refl)
      | inl good ↦ rw good (elim (Bool-cases o.ports_read) [
        | inr unread ↦ rw unread (rw allocate_port-none (inl (store_failed, refl, inl refl), refl))
        | inl read ↦ rw read (elim (allocate_port-cases (map app_port w.apps) w.ports) [
          | inl (port, low, high, unused, unreserved, done) ↦
              let (outcome, reserved) =
                with_port-cases w port (validate_name-none c w.apps name valid) unreserved in
              rw done (
                elim outcome [
                  | inl undone ↦ inl undone
                  | inr done ↦ inr (port, low, high, unused, unreserved, done)
                ],
                reserved,
              )
          | inr (_, nothing, same) ↦
              rw
                (with_port-exhausted w (allocate_port (some (map app_port w.apps)) w.ports) nothing)
                (inl (no_port, refl, inl refl), same)
        ])
      ])
    ])
  ]
