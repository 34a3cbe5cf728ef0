-- ===== src/Assistant.antt =====
-- One app's live conversation, of assistant/session.go: whether a run is in progress, and who
-- watches. A watcher's channel is the events in its buffer. The type of events is an argument; a
-- cancel function is a number.
pub mod Watchers
pub mod Stream
mod Tests
use hostit.Common.{
  ℕ, suc, ◌+◌, Bool, true, false, List, [], ◌∷◌, ◌++◌, Option, none, some, ◌==◌, ltb, leb, length,
  if◌then◌else◌,
}

abbrev pub sub_chan_buffer : ℕ
sub_chan_buffer = 256

abbrev pub max_subs_per_app : ℕ
max_subs_per_app = 64

-- The channels are a list with at most one entry for an id.
pub record Session (Event : Type 0) : Type 0 where
  pub running : Bool
  pub cancel : Option ℕ
  pub subs : List (ℕ × List Event)
  pub next_sub : ℕ

unfoldable pub called : Bool → Option ℕ → Option ℕ
called running none = none
called running (some f) = if running then some f else none

module _ {Event : Type 0} where
  abbrev pub new_session : Session Event
  new_session = record { running = false; cancel = none; subs = []; next_sub = 0 }

  -- A watcher whose buffer is full is dropped.
  unfoldable pub offer : Event → List (ℕ × List Event) → List (ℕ × List Event)
  offer ev [] = []
  offer ev ((id, ch) ∷ subs) =
      let rest = offer ev subs in
      if ltb (length ch) sub_chan_buffer then (id, ch ++ ev ∷ []) ∷ rest else rest

  unfoldable pub publish : Event → Session Event → Session Event
  unfolding offer
  publish ev s = record s { subs = offer ev s.subs }

  -- The new watcher's id, or none if there are as many watchers as may be.
  unfoldable pub subscribe : Session Event → Session Event × Option ℕ
  subscribe s = if leb max_subs_per_app (length s.subs) then (s, none) else (
    record s { subs = (s.next_sub, []) ∷ s.subs; next_sub = s.next_sub + 1 },
    some s.next_sub,
  )

  unfoldable pub drop_sub : ℕ → List (ℕ × List Event) → List (ℕ × List Event)
  drop_sub id [] = []
  drop_sub id ((i, ch) ∷ subs) =
      let rest = drop_sub id subs in if i == id then rest else (i, ch) ∷ rest

  unfoldable pub unsubscribe : ℕ → Session Event → Session Event
  unfolding drop_sub
  unsubscribe id s = record s { subs = drop_sub id s.subs }

  -- A watcher takes the first event of its channel.
  unfoldable pub taken : List Event → List Event
  taken [] = []
  taken (ev ∷ ch) = ch

  unfoldable pub take_from : ℕ → List (ℕ × List Event) → List (ℕ × List Event)
  unfolding taken
  take_from id [] = []
  take_from id ((i, ch) ∷ subs) =
      let rest = take_from id subs in if i == id then (i, taken ch) ∷ rest else (i, ch) ∷ rest

  unfoldable pub begin_run : Session Event → Session Event × Bool
  begin_run s = if s.running then (s, false) else (record s { running = true }, true)

  unfoldable pub end_run : Session Event → Session Event
  end_run s = record s { running = false; cancel = none }

  unfoldable pub set_cancel : ℕ → Session Event → Session Event
  set_cancel f s = record s { cancel = some f }

  -- `stop`: the cancel function that it calls, if there is a run to stop.
  unfoldable pub stop : Session Event → Option ℕ
  unfolding called
  stop s = called s.running s.cancel

-- The calls of a session, and a watcher that reads.
pub data Call (Event : Type 0) : Type 0 where
  do_publish : Event → Call Event
  do_subscribe do_begin do_end : Call Event
  do_unsubscribe do_read do_set_cancel : ℕ → Call Event

module _ {Event : Type 0} where
  unfoldable pub act : Call Event → Session Event → Session Event
  unfolding publish subscribe unsubscribe take_from begin_run end_run set_cancel
  act (do_publish ev) s = publish ev s
  act do_subscribe s = (subscribe s).0
  act do_begin s = (begin_run s).0
  act do_end s = end_run s
  act (do_unsubscribe id) s = unsubscribe id s
  act (do_read id) s = record s { subs = take_from id s.subs }
  act (do_set_cancel f) s = set_cancel f s

  unfoldable pub act_all : List (Call Event) → Session Event → Session Event
  unfolding act
  act_all [] s = s
  act_all (call ∷ calls) s = act_all calls (act call s)
