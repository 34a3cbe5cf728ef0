-- ===== src/Registry/Placement.antt =====
-- The node that a new app is placed on.
use hostit.Common.{
  ℕ, ◌≤◌, ◌<◌, ◌⊎◌, String, true, false, List, [], ◌∷◌, Option, ◌≡◌, refl, sym, subst, inl, inr,
  arith, All, Bool-cases, ltb, str_ltb, str_ltb_irrefl, str_ltb_trans, str_ltb_total,
}
use hostit.Store.{App}
use hostit.Registry.{Agents, insert_name, ids_of, best_of, place_among, counts_of, place_node}

-- No later name is before an earlier one.
abbrev IsOrdered : List String → Type 0
IsOrdered [] = Unit
IsOrdered (s ∷ l) = All (λ t. str_ltb t s ≡ false) l × IsOrdered l

not_before_trans : (s t u : String) → str_ltb s t ≡ true → str_ltb u t ≡ false → str_ltb u s ≡ false
not_before_trans s t u h k = ground (arith, str_ltb_trans u s t)

not_before-chain :
    (s t u : String) → str_ltb s t ≡ false → str_ltb t u ≡ false → str_ltb s u ≡ false
not_before-chain s t u h k = elim (Bool-cases (str_ltb u t)) [
  | inl before ↦ ground (arith, str_ltb_trans s u t)
  | inr same ↦ subst (λ x. str_ltb s x ≡ false) (str_ltb_total t u k same) h
]

All-not_before :
    (s t : String) (l : List String)
    → str_ltb s t ≡ true
    → All (λ u. str_ltb u t ≡ false) l
    → All (λ u. str_ltb u s ≡ false) l
All-not_before s t [] h k = tt
All-not_before s t (u ∷ l) h (k, ks) = (not_before_trans s t u h k, All-not_before s t l h ks)

All-insert_name {ℓ} :
    (P : String → Type ℓ) (s : String) (l : List String) → P s → All P l → All P (insert_name s l)
unfolding insert_name
All-insert_name P s [] p h = (p, tt)
All-insert_name P s (t ∷ l) p (q, h) = elim (Bool-cases (str_ltb s t)) [
  | inl before ↦ rw before (p, (q, h))
  | inr after ↦ rw after (q, All-insert_name P s l p h)
]

insert_name-IsOrdered : (s : String) (l : List String) → IsOrdered l → IsOrdered (insert_name s l)
unfolding insert_name
insert_name-IsOrdered s [] h = (tt, tt)
insert_name-IsOrdered s (t ∷ l) (k, h) = elim (Bool-cases (str_ltb s t)) [
  | inl before ↦ rw before (
    (ground (arith, str_ltb_trans s t s, str_ltb_irrefl s), All-not_before s t l before k),
    (k, h),
  )
  | inr after ↦
      rw after (All-insert_name (λ u. str_ltb u t ≡ false) s l after k, insert_name-IsOrdered s l h)
]

ids_of-IsOrdered : (agents : Agents) → IsOrdered (ids_of agents)
unfolding ids_of
ids_of-IsOrdered [] = tt
ids_of-IsOrdered ((i, a) ∷ agents) =
    insert_name-IsOrdered i (ids_of agents) (ids_of-IsOrdered agents)

-- `r` is a choice over `y`: it hosts no more apps, and where they host as many, `y` is not before it.
module _ (count : String → ℕ) where
  abbrev Beats : String → String → Type 0
  Beats r y = (count r ≤ count y) × (count y ≡ count r → str_ltb y r ≡ false)

  best_of-count : (best : String) (ids : List String) → count (best_of count best ids) ≤ count best
  unfolding best_of
  best_of-count best [] = omega arith
  best_of-count best (id ∷ ids) = ground (arith, best_of-count id ids, best_of-count best ids)

  best_of-better :
      (best id : String) (ids : List String)
      → ltb (count id) (count best) ≡ true
      → best_of count best (id ∷ ids) ≡ best_of count id ids
  unfolding best_of
  best_of-better best id ids h = rw h refl

  best_of-worse :
      (best id : String) (ids : List String)
      → ltb (count id) (count best) ≡ false
      → best_of count best (id ∷ ids) ≡ best_of count best ids
  unfolding best_of
  best_of-worse best id ids h = rw h refl

  -- The last argument is what the loop has compared `r` with.
  abbrev Wins : String → List String → String → Type 0
  Wins best ids r = Beats r best × All (Beats r) ids

  Wins-worse :
      (best id r : String) (ids : List String)
      → ltb (count id) (count best) ≡ false
      → str_ltb id best ≡ false
      → Wins best ids r
      → Wins best (id ∷ ids) r
  Wins-worse best id r ids more apart ((few, first), rest) = (
    (few, first),
    ((ground arith, λ e. not_before-chain id best r apart (first (ground arith))), rest),
  )

  Wins-better :
      (best id r : String) (ids : List String)
      → ltb (count id) (count best) ≡ true
      → Wins id ids r
      → Wins best (id ∷ ids) r
  Wins-better best id r ids less ((few, first), rest) =
      ((ground arith, λ e. absurd (ground arith)), ((few, first), rest))

  best_of-Wins :
      (best : String) (ids : List String)
      → All (λ y. str_ltb y best ≡ false) ids
      → IsOrdered ids
      → Wins best ids (best_of count best ids)
  unfolding best_of
  best_of-Wins best [] h k = ((omega arith, λ e. str_ltb_irrefl best), tt)
  best_of-Wins best (id ∷ ids) (h, hs) (k, ks) = elim (Bool-cases (ltb (count id) (count best))) [
    | inl better ↦
        subst (Wins best (id ∷ ids)) (sym (best_of-better best id ids better))
          (Wins-better best id (best_of count id ids) ids better (best_of-Wins id ids k ks))
    | inr worse ↦
        subst (Wins best (id ∷ ids)) (sym (best_of-worse best id ids worse))
          (Wins-worse best id (best_of count best ids) ids worse h (best_of-Wins best ids hs ks))
  ]

  place_among-Beats : (ids : List String) → IsOrdered ids → All (Beats (place_among count ids)) ids
  unfolding place_among
  place_among-Beats [] h = tt
  place_among-Beats (id ∷ ids) (h, hs) = best_of-Wins id ids h hs

-- `r` hosts fewer apps than `y`, or as many and `y` does not come before it.
abbrev pub Precedes : (String → ℕ) → String → String → Type 0
Precedes count r y = (count r < count y) ⊎ ((count r ≡ count y) × (str_ltb y r ≡ false))

Beats-Precedes : (count : String → ℕ) (r y : String) → Beats count r y → Precedes count r y
Beats-Precedes count r y (few, first) = elim (Bool-cases (ltb (count r) (count y))) [
  | inl less ↦ inl (ground arith)
  | inr more ↦ inr (ground arith, first (ground arith))
]

All-Precedes :
    (count : String → ℕ) (r : String) (l : List String)
    → All (Beats count r) l
    → All (Precedes count r) l
All-Precedes count r [] h = tt
All-Precedes count r (y ∷ l) (h, hs) = (Beats-Precedes count r y h, All-Precedes count r l hs)

-- A new app is placed so that no connected node hosts fewer apps than its node, and of the connected
-- nodes that host as many none comes before it by name; the counts are those of the store's apps, or
-- all 0 if they cannot be read.
pub place_node_least :
    (agents : Agents) (apps : Option (List App))
    → All (Precedes (counts_of apps) (place_node agents apps)) (ids_of agents)
unfolding place_node
place_node_least agents apps =
    All-Precedes (counts_of apps) (place_node agents apps) (ids_of agents)
      (place_among-Beats (counts_of apps) (ids_of agents) (ids_of-IsOrdered agents))
