-- ===== src/Retention/Sorting.antt =====
-- The sort of `Apply`: a permutation of its input, newest first.
use hostit.Common.{
  ◌≡◌, inl, inr, true, false, List, [], ◌∷◌, arith, All, Bool-cases, str_ltb_irrefl, str_ltb_trans,
}
use mathlib.Core.List.{Perm}
use mathlib.Core.List.Perm
use hostit.Retention.{Snapshot, newer, insert, sort}

pub insert-perm : (s : Snapshot) (l : List Snapshot) → Perm (insert s l) (s ∷ l)
unfolding insert
insert-perm s [] = Perm.refl _
insert-perm s (t ∷ l) = elim (Bool-cases (newer s t)) [
  | inl before ↦ rw before (Perm.refl _)
  | inr after ↦ rw after (Perm.trans (Perm.cons t (insert-perm s l)) (Perm.swap s t l))
]

pub sort-perm : (l : List Snapshot) → Perm (sort l) l
unfolding sort
sort-perm [] = Perm.refl _
sort-perm (s ∷ l) = Perm.trans (insert-perm s (sort l)) (Perm.cons s (sort-perm l))

-- No later element is newer than an earlier one.
abbrev pub IsSorted : List Snapshot → Type 0
IsSorted [] = Unit
IsSorted (s ∷ l) = All (λ t. newer t s ≡ false) l × IsSorted l

pub newer-asymm : (s t : Snapshot) → newer s t ≡ true → newer t s ≡ false
unfolding newer
newer-asymm s t h = ground (arith, str_ltb_trans t.id s.id t.id, str_ltb_irrefl t.id)

-- If `s` is before `t` and `u` is not before `t`, then `u` is not before `s`.
not_newer_trans : (s t u : Snapshot) → newer s t ≡ true → newer u t ≡ false → newer u s ≡ false
unfolding newer
not_newer_trans s t u h k = ground (arith, str_ltb_trans t.id s.id u.id)

All-not_newer :
    (s t : Snapshot) (l : List Snapshot)
    → newer s t ≡ true
    → All (λ u. newer u t ≡ false) l
    → All (λ u. newer u s ≡ false) l
All-not_newer s t [] h k = tt
All-not_newer s t (u ∷ l) h (k, ks) = (not_newer_trans s t u h k, All-not_newer s t l h ks)

pub All-insert {ℓ} :
    (P : Snapshot → Type ℓ) (s : Snapshot) (l : List Snapshot) → P s → All P l → All P (insert s l)
unfolding insert
All-insert P s [] p h = (p, tt)
All-insert P s (t ∷ l) p (q, h) = elim (Bool-cases (newer s t)) [
  | inl before ↦ rw before (p, (q, h))
  | inr after ↦ rw after (q, All-insert P s l p h)
]

insert-IsSorted : (s : Snapshot) (l : List Snapshot) → IsSorted l → IsSorted (insert s l)
unfolding insert
insert-IsSorted s [] h = (tt, tt)
insert-IsSorted s (t ∷ l) (k, h) = elim (Bool-cases (newer s t)) [
  | inl before ↦ rw before ((newer-asymm s t before, All-not_newer s t l before k), (k, h))
  | inr after ↦ rw after (All-insert (λ u. newer u t ≡ false) s l after k, insert-IsSorted s l h)
]

pub sort-IsSorted : (l : List Snapshot) → IsSorted (sort l)
unfolding sort
sort-IsSorted [] = tt
sort-IsSorted (s ∷ l) = insert-IsSorted s (sort l) (sort-IsSorted l)
