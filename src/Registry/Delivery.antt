-- ===== src/Registry/Delivery.antt =====
-- What reconciling does not leave out.
use hostit.Common.{
  ℕ, String, true, List, [], ◌∷◌, Option, none, some, ◌≡◌, refl, sym, ap, subst, ◌∙◌, inl, inr,
  arith, Bool-cases, str_eq, str_eq→eq, str_eq_self, str_ltb,
}
use mathlib.Core.List.{Memᴰ}
use hostit.Registry.{
  Agents, agent_of, host_or_local, insert_name, ids_of, slice_desired, send_to, reconcile_ids,
  reconcile,
}

insert_name-head : (s : String) (l : List String) → Memᴰ s (insert_name s l)
unfolding insert_name
insert_name-head s [] = Memᴰ.head refl
insert_name-head s (t ∷ l) = elim (Bool-cases (str_ltb s t)) [
  | inl before ↦ rw before (Memᴰ.head refl)
  | inr after ↦ rw after (Memᴰ.tail (insert_name-head s l))
]

insert_name-later : (x s : String) (l : List String) → Memᴰ x l → Memᴰ x (insert_name s l)
unfolding insert_name
insert_name-later x s [] m = elim m [ ]
insert_name-later x s (t ∷ l) (Memᴰ.head e) = elim (Bool-cases (str_ltb s t)) [
  | inl before ↦ rw before (Memᴰ.tail (Memᴰ.head e))
  | inr after ↦ rw after (Memᴰ.head e)
]
insert_name-later x s (t ∷ l) (Memᴰ.tail m) = elim (Bool-cases (str_ltb s t)) [
  | inl before ↦ rw before (Memᴰ.tail (Memᴰ.tail m))
  | inr after ↦ rw after (Memᴰ.tail (insert_name-later x s l m))
]

ids_of-connected :
    (agents : Agents) (id : String) (n : ℕ) → agent_of agents id ≡ some n → Memᴰ id (ids_of agents)
unfolding agent_of ids_of
ids_of-connected [] id n h = cc
ids_of-connected ((i, a) ∷ agents) id n h = elim (Bool-cases (str_eq i id)) [
  | inl this ↦
      subst (λ x. Memᴰ x (insert_name i (ids_of agents))) (str_eq→eq i id this)
        (insert_name-head i (ids_of agents))
  | inr other ↦ insert_name-later id i (ids_of agents) (ids_of-connected agents id n (ground arith))
]

slice_desired-listed :
    (desired : List (String × String)) (id name host : String)
    → str_eq (host_or_local host) id ≡ true
    → Memᴰ (name, host) desired
    → Memᴰ (name, host) (slice_desired desired id)
unfolding slice_desired
slice_desired-listed [] id name host h m = elim m [ ]
slice_desired-listed ((n, o) ∷ desired) id name host h (Memᴰ.head e) =
    rw (ap (λ (p : String × String). str_eq (host_or_local p.1) id) (sym e) ∙ h) (Memᴰ.head e)
slice_desired-listed ((n, o) ∷ desired) id name host h (Memᴰ.tail m) =
    elim (Bool-cases (str_eq (host_or_local o) id)) [
      | inl here ↦ rw here (Memᴰ.tail (slice_desired-listed desired id name host h m))
      | inr apart ↦ rw apart (slice_desired-listed desired id name host h m)
    ]

send_to-later :
    {p : ℕ × List (String × String)} (o : Option ℕ) (slice : List (String × String))
    (rest : List (ℕ × List (String × String)))
    → Memᴰ p rest
    → Memᴰ p (send_to o slice rest)
send_to-later none slice rest m = m
send_to-later (some a) slice rest m = Memᴰ.tail m

reconcile_ids-sent :
    (agents : Agents) (desired : List (String × String)) (ids : List String) (id : String) (n : ℕ)
    → Memᴰ id ids
    → agent_of agents id ≡ some n
    → Memᴰ (n, slice_desired desired id) (reconcile_ids agents desired ids)
unfolding reconcile_ids
reconcile_ids-sent agents desired [] id n m h = elim m [ ]
reconcile_ids-sent agents desired (x ∷ ids) id n (Memᴰ.head e) h =
    subst
      (λ y.
        Memᴰ (n, slice_desired desired id)
          (send_to (agent_of agents y) (slice_desired desired y)
            (reconcile_ids agents desired ids)))
      e
      (subst
        (λ o.
          Memᴰ (n, slice_desired desired id)
            (send_to o (slice_desired desired id) (reconcile_ids agents desired ids)))
        (sym h) (Memᴰ.head refl))
reconcile_ids-sent agents desired (x ∷ ids) id n (Memᴰ.tail m) h =
    send_to-later (agent_of agents x) (slice_desired desired x) (reconcile_ids agents desired ids)
      (reconcile_ids-sent agents desired ids id n m h)

-- An app of the desired state whose host is connected is handed to that host's agent, in what is
-- sent to it when control reconciles.
pub reconcile-delivers :
    (agents : Agents) (desired : List (String × String)) (name host : String) (n : ℕ)
    → Memᴰ (name, host) desired
    → agent_of agents (host_or_local host) ≡ some n
    → (sent : List (String × String)) × Memᴰ (n, sent) (reconcile agents desired)
      × Memᴰ (name, host) sent
unfolding reconcile
reconcile-delivers agents desired name host n m h =
    let id = host_or_local host in
    (
      slice_desired desired id,
      reconcile_ids-sent agents desired (ids_of agents) id n (ids_of-connected agents id n h) h,
      slice_desired-listed desired id name host (str_eq_self id) m,
    )
