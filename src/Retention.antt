-- ===== src/Retention.antt =====
-- control/retention/retention.go: which of an app's snapshots survive a grandfather-father-son
-- policy. A `time.Time` is its distance in nanoseconds from Go's zero time. `sort.Slice` is modelled by an insertion sort over the same `less`.
pub mod Calendar
pub mod Sorting
pub mod Partition
pub mod Bounds
pub mod Buckets
pub mod Order
mod Tests
use hostit.Common.{
  ℕ, zero, suc, ◌+◌, String, Bool, true, false, List, [], ◌∷◌, ltb, leb, ◌==◌, if◌then◌else◌,
  str_eq, contains, str_ltb,
}
use hostit.Retention.Calendar.{day_bucket, week_bucket, month_bucket}

pub record Snapshot : Type 0 where
  pub id : String
  pub app : String
  pub label : String
  pub created_at : ℕ
  pub auto : Bool

pub record Policy : Type 0 where
  pub last : ℕ
  pub daily : ℕ
  pub weekly : ℕ
  pub monthly : ℕ

-- `Default` and `Archived`
abbrev pub default_policy : Policy
default_policy = record { last = 50; daily = 7; weekly = 4; monthly = 3 }

abbrev pub archived_policy : Policy
archived_policy = record { last = 1; daily = 0; weekly = 0; monthly = 12 }

-- The `less` of the sort: newest first, the larger id first on a tie.
pub newer : Snapshot → Snapshot → Bool
newer s t =
    if s.created_at == t.created_at then str_ltb t.id s.id else ltb t.created_at s.created_at

pub insert : Snapshot → List Snapshot → List Snapshot
insert s [] = s ∷ []
insert s (t ∷ l) = if newer s t then s ∷ t ∷ l else t ∷ insert s l

pub sort : List Snapshot → List Snapshot
sort [] = []
sort (s ∷ l) = insert s (sort l)

-- `kept` is the list of the ids that the map holds.
pub mark_last : ℕ → List Snapshot → List String → List String
mark_last zero all kept = kept
mark_last (suc n) [] kept = kept
mark_last (suc n) (s ∷ all) kept = mark_last n all (s.id ∷ kept)

module _ (bucket : ℕ → String) where
  -- The loop of `markBuckets`, with its variables `prev` and `seen`.
  pub mark_from : ℕ → String → ℕ → List Snapshot → List String → List String
  mark_from n prev seen [] kept = kept
  mark_from n prev seen (s ∷ rest) kept =
      let skipped = mark_from n prev seen rest kept in
      let marked = mark_from n (bucket s.created_at) (seen + 1) rest (s.id ∷ kept) in
      if str_eq (bucket s.created_at) prev then skipped else if leb n seen then kept else marked

  pub mark_buckets : List Snapshot → ℕ → List String → List String
  unfolding mark_from
  mark_buckets sorted n kept = if n == 0 then kept else mark_from n "" 0 sorted kept

-- The last loop of `Apply`: the kept snapshots and the pruned ones.
pub partition : List String → List Snapshot → List Snapshot × List Snapshot
partition kept [] = ([], [])
partition kept (s ∷ all) =
    let (keep, prune) = partition kept all in
    if contains kept s.id then (s ∷ keep, prune) else (keep, s ∷ prune)

-- The ids marked in a sorted list, after the four tiers.
pub marked_ids : List Snapshot → Policy → List String
unfolding mark_last mark_buckets
marked_ids all p =
    let by_count = mark_last p.last all [] in
    let by_day = mark_buckets day_bucket all p.daily by_count in
    let by_week = mark_buckets week_bucket all p.weekly by_day in
    mark_buckets month_bucket all p.monthly by_week

unfoldable pub apply : List Snapshot → Policy → List Snapshot × List Snapshot
unfolding sort insert newer marked_ids partition
apply snaps p = let all = sort snaps in partition (marked_ids all p) all
