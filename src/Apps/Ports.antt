-- ===== src/Apps/Ports.antt =====
-- `allocatePort` and `releasePort` of control/manager.go, and the user ids that a port stands for
-- (workspace/spec.go). The ports in use are the store's answer.
pub mod Search
use hostit.Common.{
  ℕ, zero, suc, ◌+◌, ◌-◌, ◌*◌, ◌%◌, ◌^◌, ◌≤◌, ◌<◌, Bool, true, false, List, [], ◌∷◌, Option, none,
  some, ◌≡◌, ◌≢◌, ◌⊎◌, refl, ap, sym, ◌∙◌, inl, inr, arith, Bool-cases, Option-cases, some_inj,
  ◌&&◌, ◌||◌, not, ◌==◌, ltb, if◌then◌else◌,
}
use hostit.Common.Int.{ℤ, pos, negsuc}

abbrev pub port_min : ℕ
port_min = 10000

abbrev pub port_max : ℕ
port_max = 19999

abbrev pub span : ℕ
span = port_max - port_min + 1

-- `slices.Contains`, and a map from ports to `true`
abbrev pub has_port : List ℕ → ℕ → Bool
has_port [] p = false
has_port (q ∷ ports) p = (q == p) || has_port ports p

-- `nextPort` comes from a setting; a `reserved` port is handed out and not yet in the store.
pub record Ports : Type 0 where
  pub next_port : ℤ
  pub reserved : List ℕ

pub data Allocation : Type 0 where
  allocated : ℕ → Allocation
  read_failed no_ports_available : Allocation

unfoldable pub scan_start : ℤ → ℕ
scan_start (negsuc n) = port_min
scan_start (pos n) = if ltb n port_min || ltb port_max n then port_min else n

abbrev pub port_at : ℕ → ℕ → ℕ
port_at start i = port_min + (start - port_min + i) % span

unfoldable pub is_free : List ℕ → List ℕ → ℕ → Bool
is_free used reserved p = not (has_port used p) && not (has_port reserved p)

-- The loop, from `i` on; `left` is how many turns it has left.
unfoldable pub scan : List ℕ → List ℕ → ℕ → ℕ → ℕ → Option ℕ
scan used reserved start zero i = none
scan used reserved start (suc left) i = elim (is_free used reserved (port_at start i)) [
  | true ↦ some (port_at start i)
  | false ↦ scan used reserved start left (i + 1)
]

unfoldable pub grant : Ports → ℕ → Option ℕ → Ports × Allocation
grant s start none = (record s { next_port = pos start }, no_ports_available)
grant s start (some p) =
    (record { next_port = pos (p + 1); reserved = p ∷ s.reserved }, allocated p)

unfoldable pub allocate_port : Option (List ℕ) → Ports → Ports × Allocation
unfolding grant
allocate_port none s = (s, read_failed)
allocate_port (some used) s =
    grant s (scan_start s.next_port) (scan used s.reserved (scan_start s.next_port) span 0)

unfoldable pub drop_port : ℕ → List ℕ → List ℕ
drop_port p [] = []
drop_port p (q ∷ ports) = let rest = drop_port p ports in if q == p then rest else q ∷ rest

unfoldable pub release_port : ℕ → Ports → Ports
unfolding drop_port
release_port p s = record s { reserved = drop_port p s.reserved }

abbrev pub uid_block_size : ℕ
uid_block_size = 65536

-- `UIDFor`
unfoldable pub uid_for : ℕ → ℕ
uid_for port = 1000000 + (port - port_min) * uid_block_size

abbrev pub uid_top : ℕ
uid_top = 1000000 + (port_max - port_min) * uid_block_size + uid_block_size - 1
