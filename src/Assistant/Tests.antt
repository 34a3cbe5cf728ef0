-- ===== src/Assistant/Tests.antt =====
-- A session with one watcher.
use hostit.Common.{
  ℕ, ◌+◌, ◌<◌, All, true, List, [], ◌∷◌, ◌++◌, none, some, ◌≡◌, refl, arith, leb, length,
  if◌then◌else◌,
}
use hostit.Assistant.{
  sub_chan_buffer, Session, subscribe, do_publish, do_end, do_unsubscribe, act_all,
}
use hostit.Assistant.Watchers.{IsSound, act_all-IsSound}
use hostit.Assistant.Stream.{channel_of, publish_all, channel_of-publish_all}

abbrev watched : Session ℕ
watched = record { running = true; cancel = none; subs = (4, 1 ∷ []) ∷ []; next_sub = 5 }

act_all-IsSound_example :
    IsSound (act_all (do_unsubscribe 4 ∷ do_publish 7 ∷ do_end ∷ []) watched)
    × ((id : ℕ)
        → (subscribe (act_all (do_unsubscribe 4 ∷ do_publish 7 ∷ do_end ∷ []) watched)).1 ≡ some id
        → All (λ w. w.0 < id) watched.subs)
act_all-IsSound_example =
    act_all-IsSound (do_unsubscribe 4 ∷ do_publish 7 ∷ do_end ∷ []) watched
      (omega arith, (omega arith, omega arith, tt, tt))

abbrev two_more : List ℕ
two_more = 2 ∷ 3 ∷ []

abbrev one : List ℕ
one = 1 ∷ []

channel_of-publish_all_example :
    channel_of 4 (publish_all two_more watched).subs
    ≡ (if leb (length one + length two_more) sub_chan_buffer then some (one ++ two_more) else none)
channel_of-publish_all_example =
    channel_of-publish_all 4 two_more watched one (omega arith, (omega arith, omega arith, tt, tt))
      (unfold channel_of in refl)
