-- ===== src/Retention/Bounds.antt =====
-- How many snapshots `Apply` keeps.
use hostit.Common.{
  suc, ◌≤◌, ◌≡◌, refl, String, true, false, List, [], ◌∷◌, arith, All, length, str_eq, Bool-cases,
  inl, inr, str_eq→eq, str_eq-false, str_eq_comm,
}
use hostit.Retention.{Snapshot, newer, insert, sort, partition}
use hostit.Retention.Sorting.{All-insert}

-- No two snapshots share an id: ids name the subvolume's directory.
abbrev pub HasDistinctIds : List Snapshot → Type 0
HasDistinctIds [] = Unit
HasDistinctIds (s ∷ l) = All (λ t. str_eq t.id s.id ≡ false) l × HasDistinctIds l

-- An id that no snapshot of the list has keeps nothing.
keep_unused :
    (i : String) (kept : List String) (l : List Snapshot)
    → All (λ t. str_eq i t.id ≡ false) l
    → (partition (i ∷ kept) l).0 ≡ (partition kept l).0
unfolding partition
keep_unused i kept [] h = refl
keep_unused i kept (s ∷ l) (k, h) = ground (arith, keep_unused i kept l h)

unused_of_eq :
    (i : String) (s : Snapshot) (l : List Snapshot)
    → str_eq i s.id ≡ true
    → All (λ t. str_eq t.id s.id ≡ false) l
    → All (λ t. str_eq i t.id ≡ false) l
unused_of_eq i s [] h k = tt
unused_of_eq i s (t ∷ l) h (k, ks) = (
  elim (Bool-cases (str_eq i t.id)) [
    | inl same ↦
        absurd (str_eq-false t.id s.id k (ground (arith, str_eq→eq i t.id, str_eq→eq i s.id)))
    | inr other ↦ other
  ],
  unused_of_eq i s l h ks,
)

-- One more id keeps at most one more snapshot.
keep_one_more :
    (i : String) (kept : List String) (l : List Snapshot)
    → HasDistinctIds l
    → length (partition (i ∷ kept) l).0 ≤ suc (length (partition kept l).0)
unfolding partition
keep_one_more i kept [] d = omega arith
keep_one_more i kept (s ∷ l) (k, d) = elim (Bool-cases (str_eq i s.id)) [
  | inl same ↦
      ground (arith, keep_unused i kept l (unused_of_eq i s l same k), keep_one_more i kept l d)
  | inr other ↦ ground (arith, keep_one_more i kept l d)
]

keep_none : (l : List Snapshot) → (partition [] l).0 ≡ []
unfolding partition
keep_none [] = refl
keep_none (s ∷ l) = keep_none l

pub length-partition :
    (kept : List String) (l : List Snapshot)
    → HasDistinctIds l
    → length (partition kept l).0 ≤ length kept
length-partition [] l d = rw (keep_none l) (omega arith)
length-partition (i ∷ kept) l d = omega (arith, keep_one_more i kept l d, length-partition kept l d)

insert-HasDistinctIds :
    (s : Snapshot) (l : List Snapshot)
    → All (λ t. str_eq t.id s.id ≡ false) l
    → HasDistinctIds l
    → HasDistinctIds (insert s l)
unfolding insert
insert-HasDistinctIds s [] k d = (tt, tt)
insert-HasDistinctIds s (t ∷ l) (k, ks) (e, d) = elim (Bool-cases (newer s t)) [
  | inl before ↦ rw before ((k, ks), (e, d))
  | inr after ↦ rw after (
    All-insert (λ u. str_eq u.id t.id ≡ false) s l (rw (str_eq_comm s.id t.id) k) e,
    insert-HasDistinctIds s l ks d,
  )
]

All-sort {ℓ} : (P : Snapshot → Type ℓ) (l : List Snapshot) → All P l → All P (sort l)
unfolding sort
All-sort P [] h = tt
All-sort P (s ∷ l) (p, h) = All-insert P s (sort l) p (All-sort P l h)

pub sort-HasDistinctIds : (l : List Snapshot) → HasDistinctIds l → HasDistinctIds (sort l)
unfolding sort
sort-HasDistinctIds [] d = tt
sort-HasDistinctIds (s ∷ l) (k, d) =
    insert-HasDistinctIds s (sort l) (All-sort (λ t. str_eq t.id s.id ≡ false) l k)
      (sort-HasDistinctIds l d)
