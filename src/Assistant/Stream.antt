-- ===== src/Assistant/Stream.antt =====
-- What a watcher gets of the events that are published.
use hostit.Common.{
  ℕ, ◌+◌, ◌≤◌, true, false, List, [], ◌∷◌, ◌++◌, Option, none, some, ◌≡◌, ◌≢◌, refl, ap, subst, ◌∙◌,
  inl, inr, arith, Bool-cases, ◌==◌, ltb, leb, length, length-append, All, if◌then◌else◌, some_inj,
}
use mathlib.Core.List.{append_assoc, append-nil}
use hostit.Assistant.{sub_chan_buffer, Session, offer, publish}
use hostit.Assistant.Watchers.{AreWatchers, IsSound, offer-AreWatchers}

module _ {Event : Type 0} where
  -- The channel of a watcher.
  unfoldable pub channel_of : ℕ → List (ℕ × List Event) → Option (List Event)
  channel_of id [] = none
  channel_of id ((i, ch) ∷ subs) = if i == id then some ch else channel_of id subs

  unfoldable pub publish_all : List Event → Session Event → Session Event
  publish_all [] s = s
  publish_all (ev ∷ evs) s = publish_all evs (publish ev s)

  channel_of-absent :
      (id : ℕ) (subs : List (ℕ × List Event)) → All (λ w. w.0 ≢ id) subs → channel_of id subs ≡ none
  unfolding channel_of
  channel_of-absent id [] h = refl
  channel_of-absent id ((i, ch) ∷ subs) (p, h) = ground (arith, channel_of-absent id subs h)

  offer_absent :
      (id : ℕ) (ev : Event) (subs : List (ℕ × List Event))
      → channel_of id subs ≡ none
      → channel_of id (offer ev subs) ≡ none
  unfolding channel_of offer
  offer_absent id ev [] h = refl
  offer_absent id ev ((i, ch) ∷ subs) h = elim (Bool-cases (ltb (length ch) sub_chan_buffer)) [
    | inl room ↦ rw room (ground (arith, offer_absent id ev subs))
    | inr full ↦ rw full (ground (arith, offer_absent id ev subs))
  ]

  offered_here :
      (i : ℕ) (c : List Event) (ev : Event) (rest : List (ℕ × List Event)) (id : ℕ)
      → (i == id) ≡ true
      → channel_of id rest ≡ none
      → channel_of id (if ltb (length c) sub_chan_buffer then (i, c ++ ev ∷ []) ∷ rest else rest)
        ≡ (if ltb (length c) sub_chan_buffer then some (c ++ ev ∷ []) else none)
  unfolding channel_of
  offered_here i c ev rest id here gone = elim (Bool-cases (ltb (length c) sub_chan_buffer)) [
    | inl room ↦ rw room (rw here refl)
    | inr full ↦ rw full gone
  ]

  offered_other :
      (i : ℕ) (c : List Event) (ev : Event) (rest : List (ℕ × List Event)) (id : ℕ)
      → (i == id) ≡ false
      → channel_of id (if ltb (length c) sub_chan_buffer then (i, c ++ ev ∷ []) ∷ rest else rest)
        ≡ channel_of id rest
  unfolding channel_of
  offered_other i c ev rest id other = elim (Bool-cases (ltb (length c) sub_chan_buffer)) [
    | inl room ↦ rw room (rw other refl)
    | inr full ↦ rw full refl
  ]

  channel_of-offer :
      (id n : ℕ) (ev : Event) (subs : List (ℕ × List Event)) (ch : List Event)
      → AreWatchers n subs
      → channel_of id subs ≡ some ch
      → channel_of id (offer ev subs)
        ≡ (if ltb (length ch) sub_chan_buffer then some (ch ++ ev ∷ []) else none)
  unfolding channel_of offer
  channel_of-offer id n ev [] ch h e = cc
  channel_of-offer id n ev ((i, c) ∷ subs) ch (low, fits, once, h) e = elim (Bool-cases (i == id)) [
    | inl here ↦
        let same : c ≡ ch = some_inj (ground arith) in
        let again : i ≡ id = ground arith in
        let gone =
          offer_absent id ev subs
            (channel_of-absent id subs (subst (λ k. All (λ w. w.0 ≢ k) subs) again once)) in
        offered_here i c ev (offer ev subs) id here gone
        ∙ ap (λ x. if ltb (length x) sub_chan_buffer then some (x ++ ev ∷ []) else none) same
    | inr other ↦
        offered_other i c ev (offer ev subs) id other
        ∙ channel_of-offer id n ev subs ch h (ground arith)
  ]

  channel_of_fits :
      (id n : ℕ) (subs : List (ℕ × List Event)) (ch : List Event)
      → AreWatchers n subs
      → channel_of id subs ≡ some ch
      → length ch ≤ sub_chan_buffer
  unfolding channel_of
  channel_of_fits id n [] ch h e = cc
  channel_of_fits id n ((i, c) ∷ subs) ch (low, fits, once, h) e = elim (Bool-cases (i == id)) [
    | inl here ↦
        let same : c ≡ ch = some_inj (ground arith) in
        subst (λ x. length x ≤ sub_chan_buffer) same fits
    | inr other ↦ channel_of_fits id n subs ch h (ground arith)
  ]

  publish_all_absent :
      (id : ℕ) (evs : List Event) (s : Session Event)
      → channel_of id s.subs ≡ none
      → channel_of id (publish_all evs s).subs ≡ none
  unfolding publish_all publish
  publish_all_absent id [] s h = h
  publish_all_absent id (ev ∷ evs) s h =
      publish_all_absent id evs (publish ev s) (offer_absent id ev s.subs h)

  -- The events in the channel of a watcher that reads nothing while these are published: all of them, in
  -- their order, after what was there, if the buffer has room for them; otherwise the watcher is
  -- dropped.
  pub channel_of-publish_all :
      (id : ℕ) (evs : List Event) (s : Session Event) (ch : List Event)
      → IsSound s
      → channel_of id s.subs ≡ some ch
      → channel_of id (publish_all evs s).subs
        ≡ (if leb (length ch + length evs) sub_chan_buffer then some (ch ++ evs) else none)
  unfolding publish_all publish
  channel_of-publish_all id [] s ch (few, h) e =
      let fits = channel_of_fits id s.next_sub s.subs ch h e in
      e ∙ rw (append-nil ch) (ground arith)
  channel_of-publish_all id (ev ∷ evs) s ch (few, h) e =
      let (kept, short) = offer-AreWatchers ev s.next_sub s.subs h in
      let step = channel_of-offer id s.next_sub ev s.subs ch h e in
      elim (Bool-cases (ltb (length ch) sub_chan_buffer)) [
        | inl room ↦
            channel_of-publish_all id evs (publish ev s) (ch ++ ev ∷ []) (omega arith, kept)
              (step ∙ rw room refl)
            ∙ rw (length-append ch (ev ∷ [])) (rw (append_assoc ch (ev ∷ []) evs) (ground arith))
        | inr full ↦ publish_all_absent id evs (publish ev s) (step ∙ rw full refl) ∙ ground arith
      ]
