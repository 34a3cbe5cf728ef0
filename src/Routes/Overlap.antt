-- ===== src/Routes/Overlap.antt =====
-- Two calls of `ApplyRoutes` at a proxy that overlap.
use hostit.Common.{◌<◌, Bool, false, List, [], ◌∷◌, ◌≡◌, arith}
use hostit.Access.Proxy.{Table}
use hostit.Routes.{is_newer, store_table}

-- What a call does: it compares its table with the one that is held, or stores what it decided on.
pub data Step : Type 0 where
  compare_older compare_newer store_older store_newer : Step

-- The table that is held, and what the two calls have decided.
pub record Calls : Type 0 where
  pub held : Table
  pub takes_older : Bool
  pub takes_newer : Bool

abbrev pub holding : Table → Calls
holding t = record { held = t; takes_older = false; takes_newer = false }

module _ (older newer : Table) where
  unfoldable pub step : Step → Calls → Calls
  unfolding is_newer store_table
  step compare_older c = record c { takes_older = is_newer older c.held }
  step compare_newer c = record c { takes_newer = is_newer newer c.held }
  step store_older c = record c { held = store_table c.takes_older older c.held }
  step store_newer c = record c { held = store_table c.takes_newer newer c.held }

  unfoldable pub steps : List Step → Calls → Calls
  unfolding step
  steps [] c = c
  steps (s ∷ ss) c = steps ss (step s c)

  -- What a proxy that held a table holds after these steps.
  abbrev pub ends : Table → List Step → Table
  ends held ss = (steps ss (holding held)).held

  -- Two tables that a proxy has not seen, the second newer, in all six orders of the steps of their
  -- calls. One call after the other, in either order, the proxy ends with the newer table, and so it
  -- does if both compare before either stores and the newer table is stored last. If both compare,
  -- in either order, before either stores, and the older table is stored last, the proxy ends with
  -- the older table.
  pub steps_overlap :
      (held : Table)
      → held.seq < older.seq
      → older.seq < newer.seq
      → (ends held (compare_older ∷ store_older ∷ compare_newer ∷ store_newer ∷ []) ≡ newer)
        × (ends held (compare_newer ∷ store_newer ∷ compare_older ∷ store_older ∷ []) ≡ newer)
        × (ends held (compare_older ∷ compare_newer ∷ store_older ∷ store_newer ∷ []) ≡ newer)
        × (ends held (compare_newer ∷ compare_older ∷ store_older ∷ store_newer ∷ []) ≡ newer)
        × (ends held (compare_older ∷ compare_newer ∷ store_newer ∷ store_older ∷ []) ≡ older)
        × (ends held (compare_newer ∷ compare_older ∷ store_newer ∷ store_older ∷ []) ≡ older)
  unfolding steps
  steps_overlap held h k =
      (ground arith, ground arith, ground arith, ground arith, ground arith, ground arith)
