-- ===== src/Retention/Buckets.antt =====
-- `markBuckets` remembers one bucket name, the last. On a sorted list that is as good as
-- remembering them all.
use hostit.Common.{
  ℕ, suc, ◌+◌, ◌≤◌, ◌≡◌, refl, sym, String, false, ◌||◌, List, [], ◌∷◌, arith, All, length,
  contains, str_eq, str_eq→eq, str_eq-false, str_eq_comm, if◌then◌else◌, leb, ◌==◌, Bool-cases, inl,
  inr,
}
use hostit.Retention.{Snapshot, newer, mark_from, mark_buckets}
use hostit.Retention.Sorting.{IsSorted}

module _ (bucket : ℕ → String) where
  -- The reference: keep a snapshot if its bucket is none of those seen, and fewer than `n` were.
  pub newest_per_bucket : ℕ → List String → List Snapshot → List String → List String
  newest_per_bucket n seen [] kept = kept
  newest_per_bucket n seen (s ∷ l) kept =
      let skipped = newest_per_bucket n seen l kept in
      let marked = newest_per_bucket n (bucket s.created_at ∷ seen) l (s.id ∷ kept) in
      if contains seen (bucket s.created_at) || leb n (length seen) then skipped else marked

  -- A bucket is an unbroken stretch of time.
  abbrev pub IsStretch : Type 0
  IsStretch = (u v w : ℕ) → v ≤ u → w ≤ v → bucket w ≡ bucket u → bucket v ≡ bucket u

  newer-le : (s t : Snapshot) → newer t s ≡ false → t.created_at ≤ s.created_at
  unfolding newer
  newer-le s t h = ground arith

  -- A full reference list adds nothing more.
  reference_full :
      (n : ℕ) (seen : List String) (l : List Snapshot) (kept : List String)
      → n ≤ length seen
      → newest_per_bucket n seen l kept ≡ kept
  unfolding newest_per_bucket
  reference_full n seen [] kept h = refl
  reference_full n seen (s ∷ l) kept h = ground (arith, reference_full n seen l kept h)

  -- Snapshots whose buckets are none of `older`.
  abbrev Avoids : List String → List Snapshot → Type 0
  Avoids older l = All (λ t. contains older (bucket t.created_at) ≡ false) l

  Avoids-none : (l : List Snapshot) → Avoids [] l
  Avoids-none [] = tt
  Avoids-none (s ∷ l) = (refl, Avoids-none l)

  -- When the walk leaves the bucket `prev` it does not come back to it.
  Avoids-prev :
      (p s : Snapshot) (older : List String) (l : List Snapshot)
      → IsStretch
      → newer s p ≡ false
      → str_eq (bucket s.created_at) (bucket p.created_at) ≡ false
      → All (λ t. newer t s ≡ false) l
      → Avoids older l
      → Avoids (bucket p.created_at ∷ older) l
  Avoids-prev p s older [] st h d k a = tt
  Avoids-prev p s older (t ∷ l) st h d (k, ks) (a, as') = (
    elim (Bool-cases (str_eq (bucket p.created_at) (bucket t.created_at))) [
      | inl same ↦ absurd (
          str_eq-false _ _ d (
            st p.created_at s.created_at t.created_at (newer-le p s h) (newer-le s t k)
              (sym (str_eq→eq _ _ same))))
      | inr other ↦ rw (other, a)
    ],
    Avoids-prev p s older l st h d ks as',
  )

  -- The loop, once it has a previous snapshot `p`, does what the reference does.
  mark_from-eq :
      (n k : ℕ) (p : Snapshot) (older : List String) (l : List Snapshot) (kept : List String)
      → k ≡ suc (length older)
      → IsStretch
      → All (λ t. newer t p ≡ false) l
      → IsSorted l
      → Avoids older l
      → mark_from bucket n (bucket p.created_at) k l kept
        ≡ newest_per_bucket n (bucket p.created_at ∷ older) l kept
  unfolding mark_from newest_per_bucket
  mark_from-eq n k p older [] kept e st h o a = refl
  mark_from-eq n k p older (s ∷ l) kept e st (h, hs) (o, os) (a, as') =
      elim (Bool-cases (str_eq (bucket s.created_at) (bucket p.created_at))) [
        | inl same ↦ ground (
          arith,
          str_eq_comm (bucket s.created_at) (bucket p.created_at),
          mark_from-eq n k p older l kept e st hs os as',
        )
        | inr other ↦ elim (Bool-cases (leb n k)) [
          | inl enough ↦ ground (
            arith,
            str_eq_comm (bucket s.created_at) (bucket p.created_at),
            reference_full n (bucket p.created_at ∷ older) l kept,
          )
          | inr more ↦ ground (
            arith,
            str_eq_comm (bucket s.created_at) (bucket p.created_at),
            mark_from-eq n (k + 1) s (bucket p.created_at ∷ older) l (s.id ∷ kept) (omega arith) st
                o os (Avoids-prev p s older l st h other o as'),
          )
        ]
      ]

  -- On snapshots sorted newest first, `markBuckets` keeps exactly the newest snapshot of each of the
  -- first `n` distinct buckets, as the reference does that remembers every bucket it has seen, if
  -- a bucket is an unbroken stretch of time and no bucket is named by the empty string.
  pub mark_buckets-eq :
      (l : List Snapshot) (n : ℕ) (kept : List String)
      → IsStretch
      → ((t : ℕ) → str_eq (bucket t) "" ≡ false)
      → IsSorted l
      → mark_buckets bucket l n kept ≡ newest_per_bucket n [] l kept
  unfolding mark_buckets mark_from newest_per_bucket
  mark_buckets-eq [] n kept st named o = ground arith
  mark_buckets-eq (s ∷ l) n kept st named (o, os) = elim (Bool-cases (n == 0)) [
    | inl none_wanted ↦ ground (arith, reference_full n [] l kept)
    | inr wanted ↦ ground (
      arith,
      named s.created_at,
      mark_from-eq n 1 s [] l (s.id ∷ kept) refl st o os (Avoids-none l),
    )
  ]
