-- ===== src/Retention/Order.antt =====
-- The result of `Apply` does not depend on the order of its input.
use hostit.Common.{
  ◌≡◌, refl, sym, ap, ◌∙◌, inl, inr, true, false, List, [], ◌∷◌, arith, Bool-cases, str_ltb_trans,
  str_ltb_total, subst, str_eq, str_eq-false, All,
}
use mathlib.Core.Path.{ap₂}
use mathlib.Core.Logic.{∥∥₁_elim}
use mathlib.Core.List.{Perm, Permᴰ, Mem, Memᴰ, mem-cons, mem-cons_self}
use mathlib.Core.List.Permᴰ as PermD
use mathlib.Core.Logic.Or
use text.Mathlib.TextEquality.{IsScalar-prop}
use hostit.Retention.{Snapshot, Policy, newer, insert, sort, apply}
use hostit.Retention.Bounds.{HasDistinctIds}
use hostit.Retention.Sorting.{newer-asymm}

-- In the list, an id belongs to one snapshot.
abbrev pub IdsAreUnique : List Snapshot → Type 0
IdsAreUnique l = (s t : Snapshot) → Mem s l → Mem t l → s.id ≡ t.id → s ≡ t

apart_of_mem : (P : Snapshot → Type 0) {s : Snapshot} (l : List Snapshot) → All P l → Memᴰ s l → P s
apart_of_mem P [] k m = elim m [ ]
apart_of_mem P (x ∷ l) (k, ks) (Memᴰ.head e) = subst P (sym e) k
apart_of_mem P (x ∷ l) (k, ks) (Memᴰ.tail m) = apart_of_mem P l ks m

unique_of_distinct :
    {s t : Snapshot} (l : List Snapshot)
    → HasDistinctIds l
    → Memᴰ s l
    → Memᴰ t l
    → s.id ≡ t.id
    → s ≡ t
unique_of_distinct [] h m n e = elim m [ ]
unique_of_distinct (x ∷ l) h (Memᴰ.head a) (Memᴰ.head b) e = a ∙ sym b
unique_of_distinct {s} {t} (x ∷ l) (k, h) (Memᴰ.head a) (Memᴰ.tail n) e = absurd (
    str_eq-false t.id x.id (apart_of_mem (λ u. str_eq u.id x.id ≡ false) l k n)
      (sym e ∙ ap (λ (u : Snapshot). u.id) a))
unique_of_distinct {s} {t} (x ∷ l) (k, h) (Memᴰ.tail m) (Memᴰ.head b) e = absurd (
    str_eq-false s.id x.id (apart_of_mem (λ u. str_eq u.id x.id ≡ false) l k m)
      (e ∙ ap (λ (u : Snapshot). u.id) b))
unique_of_distinct (x ∷ l) (k, h) (Memᴰ.tail m) (Memᴰ.tail n) e = unique_of_distinct l h m n e

Snapshot-set : IsSet Snapshot
Snapshot-set = hlevel IsScalar-prop

pub HasDistinctIds-IdsAreUnique : (l : List Snapshot) → HasDistinctIds l → IdsAreUnique l
HasDistinctIds-IdsAreUnique l h s t m n e =
    ∥∥₁_elim m (Snapshot-set s t)
      (λ a. ∥∥₁_elim n (Snapshot-set s t) (λ b. unique_of_distinct l h a b e))

newer_trans : (s t u : Snapshot) → newer s t ≡ true → newer t u ≡ true → newer s u ≡ true
unfolding newer
newer_trans s t u h k = ground (arith, str_ltb_trans u.id t.id s.id)

mem_later : {s : Snapshot} {l : List Snapshot} (t : Snapshot) → Mem s l → Mem s (t ∷ l)
mem_later t m = mem-cons.1 (Or.inr m)

-- Two snapshots of which neither is before the other have one id.
same_id : (s t : Snapshot) → newer s t ≡ false → newer t s ≡ false → s.id ≡ t.id
unfolding newer
same_id s t h k = ground (arith, str_ltb_total s.id t.id)

insert_comm_of_newer :
    (s t : Snapshot) (l : List Snapshot)
    → newer s t ≡ true
    → insert s (insert t l) ≡ insert t (insert s l)
unfolding insert
insert_comm_of_newer s t [] h = ground (arith, newer-asymm s t h)
insert_comm_of_newer s t (u ∷ l) h =
    ground (arith, newer-asymm s t h, newer_trans s t u h, insert_comm_of_newer s t l h)

insert_comm :
    (s t : Snapshot) (l : List Snapshot)
    → (s.id ≡ t.id → s ≡ t)
    → insert s (insert t l) ≡ insert t (insert s l)
insert_comm s t l same = elim (Bool-cases (newer s t)) [
  | inl before ↦ insert_comm_of_newer s t l before
  | inr not_before ↦ elim (Bool-cases (newer t s)) [
    | inl after ↦ sym (insert_comm_of_newer t s l after)
    | inr not_after ↦ rw (same (same_id s t not_before not_after))
  ]
]

sort-Permᴰ : {l l' : List Snapshot} → Permᴰ l l' → IdsAreUnique l → sort l ≡ sort l'
unfolding sort
sort-Permᴰ Permᴰ.nil h = refl
sort-Permᴰ (Permᴰ.cons {a = a} e p) h =
    ap₂ insert e (sort-Permᴰ p (λ s t m n. h s t (mem_later a m) (mem_later a n)))
sort-Permᴰ (Permᴰ.swap {a = a} {b = b} {l = l} e f) h =
    insert_comm a b (sort l) (h a b mem-cons_self (mem_later a mem-cons_self))
    ∙ ap₂ insert f (ap (λ s. insert s (sort l)) e)
sort-Permᴰ (Permᴰ.trans p q) h =
    sort-Permᴰ p h
    ∙ sort-Permᴰ q (λ s t m n. h s t (PermD.mem (PermD.symm p) m) (PermD.mem (PermD.symm p) n))

Snapshot_list-set : IsSet (List Snapshot)
Snapshot_list-set = hlevel IsScalar-prop

-- The decision does not depend on the order in which the snapshots are listed, if in the list an id
-- belongs to one snapshot: the kept and the pruned list are the same for every permutation.
pub apply_order :
    (snaps snaps' : List Snapshot) (p : Policy)
    → Perm snaps snaps'
    → IdsAreUnique snaps
    → apply snaps p ≡ apply snaps' p
unfolding apply
apply_order snaps snaps' p perm h =
    let same : sort snaps ≡ sort snaps' =
      ∥∥₁_elim perm (Snapshot_list-set (sort snaps) (sort snaps')) (λ d. sort-Permᴰ d h) in
    rw same
