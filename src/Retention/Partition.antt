-- ===== src/Retention/Partition.antt =====
-- What `Apply` keeps and what it prunes.
use hostit.Common.{
  ℕ, zero, suc, ◌≡◌, refl, inl, inr, String, true, List, [], ◌∷◌, ◌++◌, arith, All, Bool-cases, leb,
  take, contains, str_eq, str_eq_self, or_left, or_right,
}
use mathlib.Core.List.{Perm, perm_middle}
use mathlib.Core.List.Perm
use hostit.Retention.{
  Snapshot, Policy, sort, mark_last, mark_from, mark_buckets, partition, marked_ids, apply,
}
use hostit.Retention.Calendar.{day_bucket, week_bucket, month_bucket}
use hostit.Retention.Sorting.{sort-perm}

partition-perm :
    (kept : List String) (l : List Snapshot) → Perm ((partition kept l).0 ++ (partition kept l).1) l
unfolding partition
partition-perm kept [] = Perm.refl _
partition-perm kept (s ∷ l) = elim (Bool-cases (contains kept s.id)) [
  | inl kept_it ↦ rw kept_it (Perm.cons s (partition-perm kept l))
  | inr pruned ↦ rw pruned (
      Perm.trans (perm_middle (partition kept l).0 (partition kept l).1)
        (Perm.cons s (partition-perm kept l)))
]

-- Every snapshot is either kept or pruned, none is lost, invented or put on both lists: what is kept
-- and what is pruned are together a permutation of the input.
pub apply-perm :
    (snaps : List Snapshot) (p : Policy) → Perm ((apply snaps p).0 ++ (apply snaps p).1) snaps
unfolding apply
apply-perm snaps p =
    Perm.trans (partition-perm (marked_ids (sort snaps) p) (sort snaps)) (sort-perm snaps)

-- Marking only adds ids.
mark_last_keeps :
    (n : ℕ) (l : List Snapshot) (kept : List String) (i : String)
    → contains kept i ≡ true
    → contains (mark_last n l kept) i ≡ true
unfolding mark_last
mark_last_keeps zero l kept i h = h
mark_last_keeps (suc n) [] kept i h = h
mark_last_keeps (suc n) (s ∷ l) kept i h =
    mark_last_keeps n l (s.id ∷ kept) i (or_right (str_eq s.id i) _ h)

module _ (bucket : ℕ → String) where
  mark_from_keeps :
      (n : ℕ) (prev : String) (seen : ℕ) (l : List Snapshot) (kept : List String) (i : String)
      → contains kept i ≡ true
      → contains (mark_from bucket n prev seen l kept) i ≡ true
  unfolding mark_from
  mark_from_keeps n prev seen [] kept i h = h
  mark_from_keeps n prev seen (s ∷ l) kept i h =
      elim (Bool-cases (str_eq (bucket s.created_at) prev)) [
        | inl same ↦ rw same (mark_from_keeps n prev seen l kept i h)
        | inr other ↦ elim (Bool-cases (leb n seen)) [
          | inl enough ↦ rw (other, enough) h
          | inr more ↦
              rw (other, more)
                (mark_from_keeps n (bucket s.created_at) _ l (s.id ∷ kept) i
                  (or_right (str_eq s.id i) _ h))
        ]
      ]

  mark_buckets_keeps :
      (l : List Snapshot) (n : ℕ) (kept : List String) (i : String)
      → contains kept i ≡ true
      → contains (mark_buckets bucket l n kept) i ≡ true
  unfolding mark_buckets
  mark_buckets_keeps l n kept i h = ground (arith, mark_from_keeps n "" 0 l kept i h)

mark_last_marks :
    (n : ℕ) (l : List Snapshot) (kept : List String)
    → All (λ s. contains (mark_last n l kept) s.id ≡ true) (take n l)
unfolding mark_last
mark_last_marks zero l kept = tt
mark_last_marks (suc n) [] kept = tt
mark_last_marks (suc n) (s ∷ l) kept = (
  mark_last_keeps n l (s.id ∷ kept) s.id (or_left _ _ (str_eq_self s.id)),
  mark_last_marks n l (s.id ∷ kept),
)

marked_ids_last :
    (l : List Snapshot) (p : Policy) (i : String)
    → contains (mark_last p.last l []) i ≡ true
    → contains (marked_ids l p) i ≡ true
unfolding marked_ids
marked_ids_last l p i h =
    mark_buckets_keeps month_bucket l p.monthly _ i (
      mark_buckets_keeps week_bucket l p.weekly _ i (mark_buckets_keeps day_bucket l p.daily _ i h))

partition_kept :
    (kept : List String) (l : List Snapshot) (n : ℕ)
    → All (λ s. contains kept s.id ≡ true) (take n l)
    → take n (partition kept l).0 ≡ take n l
unfolding partition
partition_kept kept l zero h = refl
partition_kept kept [] (suc n) h = refl
partition_kept kept (s ∷ l) (suc n) (k, h) = rw k (rw (partition_kept kept l n h))

All-marked :
    (l : List Snapshot) (p : Policy) (xs : List Snapshot)
    → All (λ s. contains (mark_last p.last l []) s.id ≡ true) xs
    → All (λ s. contains (marked_ids l p) s.id ≡ true) xs
All-marked l p [] h = tt
All-marked l p (s ∷ xs) (k, h) = (marked_ids_last l p s.id k, All-marked l p xs h)

-- The newest `last` snapshots survive: what is kept begins with the first `last` elements of the
-- input sorted newest first (all of them, if there are fewer).
pub apply-take_last :
    (snaps : List Snapshot) (p : Policy) → take p.last (apply snaps p).0 ≡ take p.last (sort snaps)
unfolding apply
apply-take_last snaps p =
    partition_kept _ (sort snaps) p.last
      (All-marked (sort snaps) p _ (mark_last_marks p.last (sort snaps) []))
