-- ===== src/Retention/Tests.antt =====
-- Retention on concrete snapshots.
use hostit.Common.{
  ℕ, ◌≤◌, ◌≡◌, refl, String, List, [], ◌∷◌, true, false, ltb, if◌then◌else◌, arith, str_eq,
  Bool-cases, inl, inr,
}
use text.Mathlib.TextEquality.{eq_iff}
use hostit.Retention.{Snapshot, Policy}

abbrev snap : String → ℕ → Snapshot
snap id t = record { id = id; app = "blog"; label = ""; created_at = t; auto = true }

abbrev older : Snapshot
older = snap "a" 86400000000000

abbrev newest : Snapshot
newest = snap "b" 864000000000000

abbrev two : List Snapshot
two = older ∷ newest ∷ []

abbrev small : Policy
small = record { last = 1; daily = 1; weekly = 0; monthly = 0 }

abbrev half : ℕ → String
half t = if ltb t 100000000000000 then "early" else "late"

half_stretch : (u v w : ℕ) → v ≤ u → w ≤ v → half w ≡ half u → half v ≡ half u
half_stretch u v w h k e = ground (arith, eq_iff (half w) (half u))

half_named : (t : ℕ) → str_eq (half t) "" ≡ false
half_named t = elim (Bool-cases (ltb t 100000000000000)) [
  | inl early ↦ rw early refl
  | inr late ↦ rw late refl
]
