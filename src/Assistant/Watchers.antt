-- ===== src/Assistant/Watchers.antt =====
-- What holds of a session's watchers after any calls.
use hostit.Common.{
  ℕ, ◌+◌, ◌≤◌, ◌<◌, List, [], ◌∷◌, ◌≢◌, ◌≡◌, some, some_inj, subst, inl, inr, arith, Bool-cases,
  ◌==◌, ltb, leb, length, length-append, All,
}
use hostit.Assistant.{
  sub_chan_buffer, max_subs_per_app, Session, offer, publish, subscribe, drop_sub, unsubscribe,
  taken, take_from, begin_run, end_run, set_cancel, Call, do_publish, do_subscribe, do_begin,
  do_end, do_unsubscribe, do_read, do_set_cancel, act, act_all,
}

module _ {Event : Type 0} where
  -- A list of watchers with ids below a bound, each once, and buffers that are not overfull.
  abbrev pub AreWatchers : ℕ → List (ℕ × List Event) → Type 0
  AreWatchers n [] = Unit
  AreWatchers n ((id, ch) ∷ subs) =
      (id < n) × (length ch ≤ sub_chan_buffer) × All (λ w. w.0 ≢ id) subs × AreWatchers n subs

  abbrev pub IsSound : Session Event → Type 0
  IsSound s = (length s.subs ≤ max_subs_per_app) × AreWatchers s.next_sub s.subs

  All-offer :
      (ev : Event) (id : ℕ) (subs : List (ℕ × List Event))
      → All (λ w. w.0 ≢ id) subs
      → All (λ w. w.0 ≢ id) (offer ev subs)
  unfolding offer
  All-offer ev id [] h = tt
  All-offer ev id ((i, ch) ∷ subs) (p, h) = elim (Bool-cases (ltb (length ch) sub_chan_buffer)) [
    | inl room ↦ rw room (p, All-offer ev id subs h)
    | inr full ↦ rw full (All-offer ev id subs h)
  ]

  pub offer-AreWatchers :
      (ev : Event) (n : ℕ) (subs : List (ℕ × List Event))
      → AreWatchers n subs
      → AreWatchers n (offer ev subs) × (length (offer ev subs) ≤ length subs)
  unfolding offer
  offer-AreWatchers ev n [] h = (tt, omega arith)
  offer-AreWatchers ev n ((id, ch) ∷ subs) (low, fits, once, h) =
      let (kept, short) = offer-AreWatchers ev n subs h in
      elim (Bool-cases (ltb (length ch) sub_chan_buffer)) [
        | inl room ↦ rw room (
          (low, ground (arith, length-append ch (ev ∷ [])), All-offer ev id subs once, kept),
          omega arith,
        )
        | inr full ↦ rw full (kept, omega arith)
      ]

  All-drop_sub :
      (k id : ℕ) (subs : List (ℕ × List Event))
      → All (λ w. w.0 ≢ id) subs
      → All (λ w. w.0 ≢ id) (drop_sub k subs)
  unfolding drop_sub
  All-drop_sub k id [] h = tt
  All-drop_sub k id ((i, ch) ∷ subs) (p, h) = elim (Bool-cases (i == k)) [
    | inl gone ↦ rw gone (All-drop_sub k id subs h)
    | inr kept ↦ rw kept (p, All-drop_sub k id subs h)
  ]

  drop_sub-AreWatchers :
      (k n : ℕ) (subs : List (ℕ × List Event))
      → AreWatchers n subs
      → AreWatchers n (drop_sub k subs) × (length (drop_sub k subs) ≤ length subs)
  unfolding drop_sub
  drop_sub-AreWatchers k n [] h = (tt, omega arith)
  drop_sub-AreWatchers k n ((id, ch) ∷ subs) (low, fits, once, h) =
      let (kept, short) = drop_sub-AreWatchers k n subs h in
      elim (Bool-cases (id == k)) [
        | inl gone ↦ rw gone (kept, omega arith)
        | inr stays ↦ rw stays ((low, fits, All-drop_sub k id subs once, kept), omega arith)
      ]

  All-take_from :
      (k id : ℕ) (subs : List (ℕ × List Event))
      → All (λ w. w.0 ≢ id) subs
      → All (λ w. w.0 ≢ id) (take_from k subs)
  unfolding take_from
  All-take_from k id [] h = tt
  All-take_from k id ((i, ch) ∷ subs) (p, h) = elim (Bool-cases (i == k)) [
    | inl reads ↦ rw reads (p, All-take_from k id subs h)
    | inr other ↦ rw other (p, All-take_from k id subs h)
  ]

  length-taken : (ch : List Event) → length (taken ch) ≤ length ch
  unfolding taken
  length-taken [] = omega arith
  length-taken (ev ∷ ch) = omega arith

  take_from-AreWatchers :
      (k n : ℕ) (subs : List (ℕ × List Event))
      → AreWatchers n subs
      → AreWatchers n (take_from k subs) × (length (take_from k subs) ≤ length subs)
  unfolding take_from
  take_from-AreWatchers k n [] h = (tt, omega arith)
  take_from-AreWatchers k n ((id, ch) ∷ subs) (low, fits, once, h) =
      let (kept, short) = take_from-AreWatchers k n subs h in
      let less = length-taken ch in
      elim (Bool-cases (id == k)) [
        | inl reads ↦ rw reads ((low, omega arith, All-take_from k id subs once, kept), omega arith)
        | inr other ↦ rw other ((low, fits, All-take_from k id subs once, kept), omega arith)
      ]

  AreWatchers-fresh :
      (n : ℕ) (subs : List (ℕ × List Event))
      → AreWatchers n subs
      → All (λ w. w.0 ≢ n) subs × AreWatchers (n + 1) subs
  AreWatchers-fresh n [] h = (tt, tt)
  AreWatchers-fresh n ((id, ch) ∷ subs) (low, fits, once, h) =
      let (fresh, later) = AreWatchers-fresh n subs h in
      ((λ e. omega arith, fresh), (omega arith, fits, once, later))

  All-below :
      (n id : ℕ) (subs : List (ℕ × List Event))
      → AreWatchers n subs
      → n ≤ id
      → All (λ w. w.0 < id) subs
  All-below n id [] h k = tt
  All-below n id ((i, ch) ∷ subs) (low, fits, once, h) k = (omega arith, All-below n id subs h k)

  -- What later calls keep of a session: it is sound, and the next id has not gone back.
  abbrev GoesOn : Session Event → Session Event → Type 0
  GoesOn s s' = IsSound s' × (s.next_sub ≤ s'.next_sub)

  subscribe-GoesOn : (s : Session Event) → IsSound s → GoesOn s (subscribe s).0
  unfolding subscribe
  subscribe-GoesOn s (few, h) = elim (Bool-cases (leb max_subs_per_app (length s.subs))) [
    | inl full ↦ rw full ((few, h), omega arith)
    | inr room ↦
        let (fresh, later) = AreWatchers-fresh s.next_sub s.subs h in
        rw room ((ground arith, (omega arith, omega arith, fresh, later)), omega arith)
  ]

  act-GoesOn : (call : Call Event) (s : Session Event) → IsSound s → GoesOn s (act call s)
  unfolding act publish unsubscribe begin_run end_run set_cancel
  act-GoesOn (do_publish ev) s (few, h) =
      let (kept, short) = offer-AreWatchers ev s.next_sub s.subs h in
      ((omega arith, kept), omega arith)
  act-GoesOn do_subscribe s h = subscribe-GoesOn s h
  act-GoesOn do_begin s h = elim (Bool-cases s.running) [
    | inl busy ↦ rw busy (h, omega arith)
    | inr idle ↦ rw idle (h, omega arith)
  ]
  act-GoesOn do_end s h = (h, omega arith)
  act-GoesOn (do_unsubscribe id) s (few, h) =
      let (kept, short) = drop_sub-AreWatchers id s.next_sub s.subs h in
      ((omega arith, kept), omega arith)
  act-GoesOn (do_read id) s (few, h) =
      let (kept, short) = take_from-AreWatchers id s.next_sub s.subs h in
      ((omega arith, kept), omega arith)
  act-GoesOn (do_set_cancel f) s h = (h, omega arith)

  act_all-GoesOn :
      (calls : List (Call Event)) (s : Session Event) → IsSound s → GoesOn s (act_all calls s)
  unfolding act_all
  act_all-GoesOn [] s h = (h, omega arith)
  act_all-GoesOn (call ∷ calls) s h =
      let (sound, grows) = act-GoesOn call s h in
      let (after, further) = act_all-GoesOn calls (act call s) sound in (after, omega arith)

  -- A new watcher's id is the session's next one.
  subscribe-next : (s : Session Event) {id : ℕ} → (subscribe s).1 ≡ some id → s.next_sub ≡ id
  unfolding subscribe
  subscribe-next s {id} e = elim (Bool-cases (leb max_subs_per_app (length s.subs))) [
    | inl full ↦ absurd (cc (rw full at e))
    | inr room ↦ some_inj (rw room at e)
  ]

  -- After any calls of a session that keeps it, and so from a new one on: there are at most 64
  -- watchers, each with an id of its own, and no buffer holds more than 256 events; and the id that
  -- a new watcher then gets is greater than the id of every watcher that there was before the calls.
  pub act_all-IsSound :
      (calls : List (Call Event)) (s : Session Event)
      → IsSound s
      → IsSound (act_all calls s)
        × ((id : ℕ) → (subscribe (act_all calls s)).1 ≡ some id → All (λ w. w.0 < id) s.subs)
  act_all-IsSound calls s h =
      let (sound, grows) = act_all-GoesOn calls s h in
      (
        sound,
        λ id given.
            All-below s.next_sub id s.subs h.1
              (subst (λ n. s.next_sub ≤ n) (subscribe-next (act_all calls s) given) grows),
      )
