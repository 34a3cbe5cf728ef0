-- ===== src/Apps/Ports/Search.antt =====
-- The search for a free port: it comes by the whole range.
use hostit.Common.{
  ℕ, zero, suc, ◌+◌, ◌-◌, ◌^◌, ◌≤◌, ◌<◌, true, false, List, [], ◌∷◌, none, some, ◌≡◌, ◌≢◌, ◌⊎◌,
  refl, ap, sym, ◌∙◌, inl, inr, arith, Bool-cases, Option-cases, some_inj, ◌&&◌, ◌||◌, not, ◌==◌,
  ltb,
}
use hostit.Common.Int.{ℤ, pos, negsuc}
use hostit.Apps.Ports.{
  port_min, port_max, span, has_port, Ports, allocated, no_ports_available, scan_start, port_at,
  is_free, scan, grant, allocate_port, drop_port, uid_block_size, uid_for, uid_top,
}

scan_start_bounds : (next : ℤ) → (port_min ≤ scan_start next) × (scan_start next ≤ port_max)
unfolding scan_start
scan_start_bounds (negsuc n) = (omega arith, omega arith)
scan_start_bounds (pos n) = ground arith

module _ (used reserved : List ℕ) (start : ℕ) where
  scan_hit :
      (left i : ℕ)
      → is_free used reserved (port_at start i) ≡ true
      → scan used reserved start (suc left) i ≡ some (port_at start i)
  unfolding scan
  scan_hit left i free = rw (free, scan) refl

  scan_miss :
      (left i : ℕ)
      → is_free used reserved (port_at start i) ≡ false
      → scan used reserved start (suc left) i ≡ scan used reserved start left (i + 1)
  unfolding scan
  scan_miss left i taken = rw (taken, scan) refl

  -- What the loop finds is free, and a port of the range.
  scan-some :
      (left i p : ℕ)
      → scan used reserved start left i ≡ some p
      → (is_free used reserved p ≡ true) × (port_min ≤ p) × (p ≤ port_max)
  unfolding scan
  scan-some zero i p e = cc
  scan-some (suc left) i p e = elim (Bool-cases (is_free used reserved (port_at start i))) [
    | inl free ↦
        let same : port_at start i ≡ p = some_inj (sym (scan_hit left i free) ∙ e) in
        (ap (is_free used reserved) (sym same) ∙ free, omega arith, omega arith)
    | inr taken ↦ scan-some left (i + 1) p (sym (scan_miss left i taken) ∙ e)
  ]

  -- If the loop finds nothing, none of the ports it looks at is free.
  scan-none :
      (left i : ℕ)
      → scan used reserved start left i ≡ none
      → (j : ℕ) → i ≤ j
      → j < i + left
      → is_free used reserved (port_at start j) ≡ false
  unfolding scan
  scan-none zero i e j h k = absurd (omega arith)
  scan-none (suc left) i e j h k = elim (Bool-cases (is_free used reserved (port_at start i))) [
    | inl free ↦ let found : some (port_at start i) ≡ none = sym (scan_hit left i free) ∙ e in cc
    | inr taken ↦ elim (Bool-cases (i == j)) [
      | inl here ↦
          let same : i ≡ j = ground arith in
          ap (λ n. is_free used reserved (port_at start n)) (sym same) ∙ taken
      | inr later ↦
          scan-none left (i + 1) (sym (scan_miss left i taken) ∙ e) j (ground arith) (omega arith)
    ]
  ]

-- The loop comes by every port of the range.
port_at_reaches :
    (start p : ℕ)
    → port_min ≤ start
    → start ≤ port_max
    → port_min ≤ p
    → p ≤ port_max
    → (j : ℕ) × (j < span) × (port_at start j ≡ p)
port_at_reaches start p h k a b = elim (Bool-cases (ltb p start)) [
  | inl below ↦ (p + span - start, ground arith, ground arith)
  | inr above ↦ (p - start, ground arith, ground arith)
]

abbrev pub IsTaken : List ℕ → List ℕ → ℕ → Type 0
IsTaken used reserved p =
    (p < port_min) ⊎ (port_max < p) ⊎ (has_port used p ≡ true) ⊎ (has_port reserved p ≡ true)

scan-none-IsTaken :
    (used reserved : List ℕ) (start : ℕ)
    → port_min ≤ start
    → start ≤ port_max
    → scan used reserved start span 0 ≡ none
    → (p : ℕ) → IsTaken used reserved p
unfolding is_free
scan-none-IsTaken used reserved start h k e p =
    elim (Bool-cases (ltb p port_min || ltb port_max p)) [
      | inl outside ↦ ground arith
      | inr inside ↦
          let (j, near, same) = port_at_reaches start p h k (ground arith) (ground arith) in
          let taken : is_free used reserved p ≡ false =
            ap (is_free used reserved) (sym same)
            ∙ scan-none used reserved start span 0 e j (omega arith) (omega arith) in
          ground arith
    ]

-- The search comes by the whole range. Either a port is granted: it is of the range, no app of the
-- store has it and no other creation or deletion holds it; it is reserved now, and the next search starts
-- behind it. Or every port of the range is taken, nothing is reserved, and the search fails.
pub allocate_port-cases :
    (used : List ℕ) (s : Ports)
    → ((p : ℕ) × (port_min ≤ p)
        × (p ≤ port_max)
        × (has_port used p ≡ false)
        × (has_port s.reserved p ≡ false)
        × (allocate_port (some used) s
            ≡ (record { next_port = pos (p + 1); reserved = p ∷ s.reserved }, allocated p)))
      ⊎ (((p : ℕ) → IsTaken used s.reserved p)
          × ((allocate_port (some used) s).1 ≡ no_ports_available)
          × ((allocate_port (some used) s).0.reserved ≡ s.reserved))
unfolding allocate_port grant is_free
allocate_port-cases used s =
    let start = scan_start s.next_port in
    let (h, k) = scan_start_bounds s.next_port in
    elim (Option-cases (scan used s.reserved start span 0)) [
      | inl nothing ↦
          inr
            (scan-none-IsTaken used s.reserved start h k nothing, rw nothing refl, rw nothing refl)
      | inr (p, found) ↦
          let (free, low, high) = scan-some used s.reserved start span 0 p found in
          inl (p, low, high, ground arith, ground arith, rw found refl)
    ]

has_port-drop_port :
    (p q : ℕ) (ports : List ℕ) → has_port (drop_port p ports) q ≡ (has_port ports q && not (p == q))
unfolding drop_port
has_port-drop_port p q [] = refl
has_port-drop_port p q (r ∷ ports) = ground (arith, has_port-drop_port p q ports)

scan_first :
    (used reserved : List ℕ) (port : ℕ)
    → port_min ≤ port
    → port ≤ port_max
    → is_free used reserved port ≡ true
    → scan used reserved port span 0 ≡ some port
scan_first used reserved port low high free =
    let here : port_at port 0 ≡ port = omega arith in
    scan_hit used reserved port 9999 0 (ap (is_free used reserved) here ∙ free) ∙ ap some here

-- `DeleteApp` removes the row of the app, and reserves its port only afterwards. A search that comes between
-- the two, and starts at that port, is granted the port of the app that is still being torn
-- down; once the port is reserved, no search is granted it.
pub allocate_port-between :
    (used : List ℕ) (s : Ports) (port : ℕ)
    → port_min ≤ port
    → port ≤ port_max
    → s.next_port ≡ pos port
    → has_port used port ≡ false
    → has_port s.reserved port ≡ false
    → ((allocate_port (some used) s).1 ≡ allocated port)
      × ((allocate_port (some used) (record s { reserved = port ∷ s.reserved })).1 ≢ allocated port)
unfolding allocate_port grant scan_start is_free
allocate_port-between used s port low high next unused unreserved =
    let start : scan_start s.next_port ≡ port = ap scan_start next ∙ ground arith in
    let found : scan used s.reserved (scan_start s.next_port) span 0 ≡ some port =
      ap (λ n. scan used s.reserved n span 0) start
      ∙ scan_first used s.reserved port low high (ground arith) in
    (
      rw found refl,
      λ e. elim (allocate_port-cases used (record s { reserved = port ∷ s.reserved })) [
        | inl (p, _, _, _, fresh, done) ↦
            let same : allocated p ≡ allocated port = sym (ap (λ r. r.1) done) ∙ e in
            ground (arith, same)
        | inr (_, failed, _) ↦
            let clash : no_ports_available ≡ allocated port = sym failed ∙ e in cc
      ],
    )

-- A user id in the blocks of two ports of the range means one port, and no id of a block is
-- above `UIDTop`, which fits 32 bits.
pub uid_for-disjoint :
    (p q a b : ℕ)
    → port_min ≤ p
    → p ≤ port_max
    → port_min ≤ q
    → q ≤ port_max
    → a < uid_block_size
    → b < uid_block_size
    → uid_for p + a ≡ uid_for q + b
    → (p ≡ q) × (a ≡ b) × (uid_for p + a ≤ uid_top) × (uid_top < 2 ^ 32)
unfolding uid_for
uid_for-disjoint p q a b h h2 k k2 i j e = (omega arith, omega arith, omega arith, omega arith)
