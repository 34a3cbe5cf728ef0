-- ===== src/Snapshots/Sweep.antt =====
-- What the sweep asks of the nodes, and what makes it panic.
use hostit.Common.{
  ℕ, ◌<◌, ◌≡◌, refl, sym, ap, subst, ◌⊎◌, inl, inr, String, Bool, true, false, Option, none, some,
  List, [], ◌∷◌, ◌++◌, arith, some_inj, if◌then◌else◌,
}
use hostit.Common.Int.{ℤ, pos}
use mathlib.Core.List.{Memᴰ}
use hostit.Retention.{Snapshot, apply}
use hostit.Snapshots.{
  prune_of, round, join, second, snapshot_due, last_auto_snapshot, SweptApp, Command, take_snapshot,
  delete_snapshot, retention_policy, delete_each, prune_snapshots, app_interval, act, sweep_app,
  sweep,
}
use hostit.Snapshots.Due.{snapshot_due_panics_iff}

-- The commands that take a snapshot of `name`.
abbrev pub Takes : String → List Command → Type 0
Takes name [] = ⊥
Takes name (take_snapshot n ∷ cmds) = (n ≡ name) ⊎ Takes name cmds
Takes name (delete_snapshot n i ∷ cmds) = Takes name cmds

Takes-append :
    (name : String) (xs ys : List Command) → Takes name (xs ++ ys) → Takes name xs ⊎ Takes name ys
Takes-append name [] ys t = inr t
Takes-append name (take_snapshot n ∷ xs) ys (inl e) = inl (inl e)
Takes-append name (take_snapshot n ∷ xs) ys (inr t) = elim (Takes-append name xs ys t) [
  | inl a ↦ inl (inr a)
  | inr b ↦ inr b
]
Takes-append name (delete_snapshot n i ∷ xs) ys t = Takes-append name xs ys t

delete_each-Takes : (name app : String) (l : List Snapshot) → Takes name (delete_each app l) → ⊥
unfolding delete_each
delete_each-Takes name app [] t = t
delete_each-Takes name app (s ∷ l) t = delete_each-Takes name app l t

prune_of-Takes :
    (name app : String) (archived : Bool) (o : Option (List Snapshot))
    → Takes name (prune_of app archived o)
    → ⊥
unfolding prune_of
prune_of-Takes name app archived none t = t
prune_of-Takes name app archived (some snaps) t =
    delete_each-Takes name app (apply snaps (retention_policy archived)).1 t

prune_snapshots-Takes : (name : String) (a : SweptApp) → Takes name (prune_snapshots a) → ⊥
unfolding prune_snapshots
prune_snapshots-Takes name a t = prune_of-Takes name a.name a.archived a.records_to_prune t

Takes-if :
    (name : String) (b : Bool) (cmds : List Command)
    → Takes name (if b then cmds else [])
    → Takes name cmds
Takes-if name true cmds t = t
Takes-if name false cmds t = absurd t

act-Takes :
    (name : String) (a : SweptApp) (due : Bool)
    → Takes name (act a due)
    → (a.name ≡ name) × (due ≡ true)
unfolding act
act-Takes name a false t = absurd t
act-Takes name a true (inl e) = (e, refl)
act-Takes name a true (inr t) =
    absurd (prune_snapshots-Takes name a (Takes-if name a.takes_snapshot (prune_snapshots a) t))

round-Takes :
    (name : String) (a : SweptApp) (archived : Bool) (due : Option Bool) (cmds : List Command)
    → round a archived due ≡ some cmds
    → Takes name cmds
    → (a.name ≡ name) × (archived ≡ false) × (due ≡ some true)
unfolding round
round-Takes name a true due cmds e t =
    absurd (prune_snapshots-Takes name a (subst (Takes name) (sym (some_inj e)) t))
round-Takes name a false none cmds e t = cc
round-Takes name a false (some due) cmds e t =
    let (same, yes_due) = act-Takes name a due (subst (Takes name) (sym (some_inj e)) t) in
    (same, refl, ap some yes_due)

join-eq-some :
    (x y : Option (List Command)) (cmds : List Command)
    → join x y ≡ some cmds
    → (xs : List Command) × (ys : List Command) × (x ≡ some xs) × (y ≡ some ys) × (cmds ≡ xs ++ ys)
unfolding join
join-eq-some none y cmds e = cc
join-eq-some (some xs) none cmds e = cc
join-eq-some (some xs) (some ys) cmds e = (xs, ys, refl, refl, sym (some_inj e))

join-none : (x : Option (List Command)) → join x none ≡ none
unfolding join
join-none none = refl
join-none (some cmds) = refl

module _ (parse_duration : String → Option ℤ) where
  -- The app is live, and a snapshot of it is due.
  pub record IsDue (now : ℕ) (a : SweptApp) : Type 0 where
    pub live : a.archived ≡ false
    pub due :
        snapshot_due a.name
          (app_interval parse_duration a.config)
          (last_auto_snapshot a.snapshots)
          now
        ≡ some true

  sweep_app-IsDue :
      (a : SweptApp) (now : ℕ) (cmds : List Command) (name : String)
      → sweep_app parse_duration a now ≡ some cmds
      → Takes name cmds
      → (a.name ≡ name) × IsDue now a
  unfolding sweep_app
  sweep_app-IsDue a now cmds name e t =
      let (same, live, due) =
        round-Takes name a a.archived
          (snapshot_due a.name (app_interval parse_duration a.config)
            (last_auto_snapshot a.snapshots) now)
          cmds e t in
      (same, record { live = live; due = due })

  -- A sweep that ends takes a snapshot only of an app of its list that is not archived and is due.
  pub sweep-Takes :
      (apps : List SweptApp) (now : ℕ) (cmds : List Command) (name : String)
      → sweep parse_duration apps now ≡ some cmds
      → Takes name cmds
      → (a : SweptApp) × Memᴰ a apps × (a.name ≡ name) × IsDue now a
  unfolding sweep
  sweep-Takes [] now cmds name e t = absurd (subst (Takes name) (sym (some_inj e)) t)
  sweep-Takes (a ∷ apps) now cmds name e t =
      let (xs, ys, here, later, split) =
        join-eq-some (sweep_app parse_duration a now) (sweep parse_duration apps now) cmds e in
      elim (Takes-append name xs ys (subst (Takes name) split t)) [
        | inl first ↦
            let (same, due) = sweep_app-IsDue a now xs name here first in
            (a, Memᴰ.head refl, same, due)
        | inr rest ↦
            let (b, listed, same, due) = sweep-Takes apps now ys name later rest in
            (b, Memᴰ.tail listed, same, due)
      ]

  sweep_app_panics :
      (a : SweptApp) (now i : ℕ)
      → a.archived ≡ false
      → app_interval parse_duration a.config ≡ pos i
      → 0 < i
      → i < second
      → last_auto_snapshot a.snapshots ≡ 0
      → sweep_app parse_duration a now ≡ none
  unfolding sweep_app round
  sweep_app_panics a now i live wants p b never =
      rw (wants, never) (rw ((snapshot_due_panics_iff a.name i 0 now).1 (p, b, inl refl)) (rw live))

  -- One live app with a positive snapshot interval below a second, and no automatic snapshot yet,
  -- makes every sweep panic, whatever the other apps are.
  pub sweep_panics :
      (now : ℕ) (a : SweptApp) (i : ℕ) (apps : List SweptApp)
      → Memᴰ a apps
      → a.archived ≡ false
      → app_interval parse_duration a.config ≡ pos i
      → 0 < i
      → i < second
      → last_auto_snapshot a.snapshots ≡ 0
      → sweep parse_duration apps now ≡ none
  unfolding sweep
  sweep_panics now a i apps (Memᴰ.head e) live wants p b never = ground (
    arith,
    sweep_app_panics a now i live wants p b never,
    ap (λ y. sweep_app parse_duration y now) e,
  )
  sweep_panics now a i apps (Memᴰ.tail {xs = xs} m) live wants p b never =
      rw (sweep_panics now a i xs m live wants p b never) (join-none _)
