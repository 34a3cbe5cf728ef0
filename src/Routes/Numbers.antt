-- ===== src/Routes/Numbers.antt =====
-- The numbers of the tables that control builds one after another, and the table that a proxy ends
-- with.
use hostit.Common.{
  ◌≤◌, ◌<◌, String, List, [], ◌∷◌, ◌++◌, ◌≡◌, ◌≢◌, ◌⊎◌, refl, ap, sym, ◌∙◌, inl, inr, arith,
  Bool-cases, All, All-at, str_eq, str_eq→eq, ltb, ◌==◌,
}
use mathlib.Core.List.{Memᴰ}
use hostit.Access.Proxy.{Table}
use hostit.Routes.{Content, Numbering, table_of, renumber, stamp, apply_routes}

-- A proxy takes tables one after another.
unfoldable pub apply_all : List Table → Table → Table
apply_all [] held = held
apply_all (t ∷ ts) held = apply_all ts (apply_routes t held)

module _ (digest : Content → String) where
  -- Control after it has built tables of these contents, one after another.
  unfoldable pub build : Numbering → List Content → Numbering × List Table
  build s [] = (s, [])
  build s (c ∷ cs) =
      let rest = build (stamp digest s c).0 cs in (rest.0, (stamp digest s c).1 ∷ rest.1)

  -- The number moves exactly when the digest does.
  renumber_lem :
      (s : Numbering) (c : Content)
      → ((renumber digest s c).routes_hash ≡ digest c)
        × (s.routes_seq ≤ (renumber digest s c).routes_seq)
        × ((s.routes_seq < (renumber digest s c).routes_seq) ⊎ (renumber digest s c ≡ s))
  unfolding renumber
  renumber_lem s c = elim (Bool-cases (str_eq (digest c) s.routes_hash)) [
    | inl same ↦ rw same (sym (str_eq→eq (digest c) s.routes_hash same), omega arith, inr refl)
    | inr other ↦ rw other (refl, omega arith, inl (omega arith))
  ]

  -- A number stands for one digest, from a state on.
  abbrev IsUpTo : Numbering → Numbering → Type 0
  IsUpTo s t =
      (s.routes_seq ≤ t.routes_seq)
      × ((s.routes_seq < t.routes_seq) ⊎ (s.routes_hash ≡ t.routes_hash))

  IsUpTo-trans : (s t u : Numbering) → IsUpTo s t → IsUpTo t u → IsUpTo s u
  IsUpTo-trans s t u (h, inl strict) (k, _) = (omega arith, inl (omega arith))
  IsUpTo-trans s t u (h, inr same) (k, inl strict) = (omega arith, inl (omega arith))
  IsUpTo-trans s t u (h, inr same) (k, inr again) = (omega arith, inr (same ∙ again))

  renumber-IsUpTo : (s : Numbering) (c : Content) → IsUpTo s (renumber digest s c)
  renumber-IsUpTo s c =
      let (hashed, grows, moved) = renumber_lem s c in
      (
        grows,
        elim moved [
          | inl strict ↦ inl strict
          | inr same ↦ inr (ap (λ x. x.routes_hash) (sym same))
        ],
      )

  -- What a built table and a state have in common.
  record IsBuilt (P : Content → Type 0) (t : Table) (s : Numbering) : Type 0 where
    c : Content
    holds : P c
    built : t ≡ table_of t.seq c
    upto : IsUpTo (record { routes_hash = digest c; routes_seq = t.seq }) s

  build-IsUpTo : (s : Numbering) (cs : List Content) → IsUpTo s (build s cs).0
  unfolding build stamp
  build-IsUpTo s [] = (omega arith, inr refl)
  build-IsUpTo s (c ∷ cs) =
      IsUpTo-trans s (renumber digest s c) (build (renumber digest s c) cs).0 (renumber-IsUpTo s c)
        (build-IsUpTo (renumber digest s c) cs)

  build-IsBuilt :
      (P : Content → Type 0) (s : Numbering) (cs : List Content)
      → All P cs
      → All (λ t. IsBuilt P t (build s cs).0) (build s cs).1
  unfolding build stamp
  build-IsBuilt P s [] h = tt
  build-IsBuilt P s (c ∷ cs) (p, h) =
      let (hashed, grows, moved) = renumber_lem s c in
      let (later, ends) = build-IsUpTo (renumber digest s c) cs in
      (
        record {
          c = c;
          holds = p;
          built = refl;
          upto =
              (later, elim ends [ inl strict ↦ inl strict | inr same ↦ inr (sym hashed ∙ same) ]);
        },
        build-IsBuilt P (renumber digest s c) cs h,
      )

  -- A content whose digest another has is the other.
  abbrev pub IsToldFrom : Content → Content → Type 0
  IsToldFrom c d = digest d ≡ digest c → d ≡ c

  -- Next to a table that is built now, an earlier one is this table or has a lower number.
  IsBuilt-cases :
      (s : Numbering) (c : Content) (t : Table)
      → IsBuilt (IsToldFrom c) t s
      → (t ≡ (stamp digest s c).1) ⊎ (t.seq < (stamp digest s c).1.seq)
  unfolding stamp
  IsBuilt-cases s c t b =
      let (hashed, grows, moved) = renumber_lem s c in
      elim b.upto.1 [
        | inl strict ↦ inr (omega arith)
        | inr same ↦ elim moved [
          | inl strict ↦ inr (omega arith)
          | inr still ↦ elim (Bool-cases (ltb t.seq s.routes_seq)) [
            | inl lower ↦ inr (ground arith)
            | inr equal ↦
                let seq_same : t.seq ≡ (renumber digest s c).routes_seq = ground arith in
                inl (
                  b.built
                  ∙ ap (λ n. table_of n b.c) seq_same
                  ∙ ap (table_of (renumber digest s c).routes_seq)
                      (b.holds (same ∙ ap (λ x. x.routes_hash) (sym still) ∙ hashed)))
          ]
        ]
      ]

  -- A held table that is this table or older.
  abbrev IsBehind : Table → Table → Type 0
  IsBehind last held = (held ≡ last) ⊎ (held.seq < last.seq)

  apply_routes-IsBehind :
      (last t held : Table)
      → IsBehind last t
      → IsBehind last held
      → IsBehind last (apply_routes t held)
  unfolding apply_routes
  apply_routes-IsBehind last t held h k = elim (Bool-cases (ltb t.seq held.seq)) [
    | inl older ↦ rw older k
    | inr newer ↦
        rw newer
          (elim (Bool-cases (t.seq == held.seq)) [ inl same ↦ rw same k | inr other ↦ rw other h ])
  ]

  apply_routes_self : (t : Table) → apply_routes t t ≡ t
  unfolding apply_routes
  apply_routes_self t = ground arith

  apply_routes_older : (t held : Table) → t.seq < held.seq → apply_routes t held ≡ held
  unfolding apply_routes
  apply_routes_older t held h = ground arith

  apply_routes_last : (last held : Table) → IsBehind last held → apply_routes last held ≡ last
  unfolding apply_routes
  apply_routes_last last held (inl same) = ap (apply_routes last) same ∙ apply_routes_self last
  apply_routes_last last held (inr older) = ground arith

  apply_all-IsBehind :
      (last : Table) (ts : List Table) (held : Table)
      → All (IsBehind last) ts
      → IsBehind last held
      → IsBehind last (apply_all ts held)
  unfolding apply_all
  apply_all-IsBehind last [] held h k = k
  apply_all-IsBehind last (t ∷ ts) held (g, h) k =
      apply_all-IsBehind last ts (apply_routes t held) h (apply_routes-IsBehind last t held g k)

  -- The last table stays.
  apply_all_stays :
      (last : Table) (ts : List Table) → All (IsBehind last) ts → apply_all ts last ≡ last
  unfolding apply_all
  apply_all_stays last [] h = refl
  apply_all_stays last (t ∷ ts) (g, h) =
      ap (apply_all ts) (elim g [
        | inl same ↦ ap (λ x. apply_routes x last) same ∙ apply_routes_self last
        | inr older ↦ apply_routes_older t last older
      ])
      ∙ apply_all_stays last ts h

  apply_all_append :
      (ts us : List Table) (held : Table)
      → apply_all (ts ++ us) held ≡ apply_all us (apply_all ts held)
  unfolding apply_all
  apply_all_append [] us held = refl
  apply_all_append (t ∷ ts) us held = apply_all_append ts us (apply_routes t held)

  apply_all_converges :
      (last held : Table) (before after : List Table)
      → All (IsBehind last) before
      → All (IsBehind last) after
      → IsBehind last held
      → apply_all (before ++ last ∷ after) held ≡ last
  unfolding apply_all
  apply_all_converges last held before after h k b =
      apply_all_append before (last ∷ after) held
      ∙ ap (apply_all after)
          (apply_routes_last last (apply_all before held) (apply_all-IsBehind last before held h b))
      ∙ apply_all_stays last after k

  IsBuilt-IsBehind :
      (s : Numbering) (c : Content) (sent arrived : List Table)
      → All (λ t. IsBuilt (IsToldFrom c) t s) sent
      → All (λ t. Memᴰ t sent) arrived
      → All (IsBehind (stamp digest s c).1) arrived
  IsBuilt-IsBehind s c sent [] h k = tt
  IsBuilt-IsBehind s c sent (t ∷ arrived) h (m, k) = (
    IsBuilt-cases s c t (All-at (λ u. IsBuilt (IsToldFrom c) u s) t sent h m),
    IsBuilt-IsBehind s c sent arrived h k,
  )

  stamp_ahead :
      (s : Numbering) (cs : List Content) (c : Content) (held : Table)
      → digest c ≢ s.routes_hash
      → held.seq ≤ s.routes_seq
      → held.seq < (stamp digest (build s cs).0 c).1.seq
  unfolding stamp
  stamp_ahead s cs c held started known =
      let (hashed, grows, moved) = renumber_lem (build s cs).0 c in
      let (later, ends) =
        IsUpTo-trans s (build s cs).0 (renumber digest (build s cs).0 c) (build-IsUpTo s cs)
          (renumber-IsUpTo (build s cs).0 c) in
      elim ends [ inl strict ↦ omega arith | inr same ↦ absurd (started (sym hashed ∙ sym same)) ]

  -- Control builds any tables, one after another, and then a last one, whose content's digest no
  -- other of the contents shares.
  -- In whatever order and however often the tables arrive at a proxy: once the last one has arrived, the
  -- proxy holds it, with the current content. No two of them are applied at the same time, the proxy's
  -- number was not ahead of control's, and control did not start with that digest.
  pub apply_all-build :
      (s : Numbering) (cs : List Content) (c : Content) (held : Table) (before after : List Table)
      → All (IsToldFrom c) cs
      → digest c ≢ s.routes_hash
      → held.seq ≤ s.routes_seq
      → All (λ t. Memᴰ t (build s cs).1) before
      → All (λ t. Memᴰ t (build s cs).1) after
      → apply_all (before ++ (stamp digest (build s cs).0 c).1 ∷ after) held
        ≡ (stamp digest (build s cs).0 c).1
  apply_all-build s cs c held before after free started known earlier later =
      let end = (build s cs).0 in
      let built = build-IsBuilt (IsToldFrom c) s cs free in
      apply_all_converges (stamp digest end c).1 held before after
        (IsBuilt-IsBehind end c (build s cs).1 before built earlier)
        (IsBuilt-IsBehind end c (build s cs).1 after built later)
        (inr (stamp_ahead s cs c held started known))
