-- ===== src/Common/Int.antt =====
-- Integers over the native numbers, and the addition of Go's 64-bit `int`, which wraps around.
use Prim.Native.Nat.{ℕ, zero, suc, ◌+◌, ◌-◌, ◌%◌, ◌^◌, ◌≤◌, ◌<◌}
use mathlib.Core.Path.{◌≡◌}
use mathlib.Core.Bool.{Bool, true, false}
use native.Mathlib.Omega.{arith}
use hostit.Common.Tests.{leb, ltb, if◌then◌else◌}

-- `negsuc n` is -(n + 1).
pub data ℤ : Type 0 where
  pos : ℕ → ℤ
  negsuc : ℕ → ℤ

abbrev pub pos_part : ℤ → ℕ
pos_part (pos n) = n
pos_part (negsuc n) = 0

abbrev pub neg_part : ℤ → ℕ
neg_part (pos n) = 0
neg_part (negsuc n) = suc n

abbrev pub sub_ℕ : ℕ → ℕ → ℤ
sub_ℕ a b = if leb b a then pos (a - b) else negsuc (b - a - 1)

infixl 65 ◌+ℤ◌
infix 50 ◌≤ℤ◌
unfoldable pub ◌+ℤ◌ : ℤ → ℤ → ℤ
a +ℤ b = sub_ℕ (pos_part a + pos_part b) (neg_part a + neg_part b)

abbrev pub ◌≤ℤ◌ : ℤ → ℤ → Type 0
a ≤ℤ b = pos_part a + neg_part b ≤ pos_part b + neg_part a

abbrev pub ltb_ℤ : ℤ → ℤ → Bool
ltb_ℤ a b = ltb (pos_part a + neg_part b) (pos_part b + neg_part a)

-- `v > 0`
abbrev pub is_pos : ℤ → Bool
is_pos (pos zero) = false
is_pos (pos (suc n)) = true
is_pos (negsuc n) = false

pub +ℤ_parts :
    (a b : ℤ)
    → pos_part (a +ℤ b) + neg_part a + neg_part b ≡ neg_part (a +ℤ b) + pos_part a + pos_part b
unfolding ◌+ℤ◌
+ℤ_parts a b = ground arith

-- The number of 64 bits in two's complement that an integer leaves.
unfoldable pub wrap64 : ℤ → ℤ
wrap64 (pos n) = let m = n % 2 ^ 64 in if ltb m (2 ^ 63) then pos m else negsuc (2 ^ 64 - m - 1)
wrap64 (negsuc n) = let m = n % 2 ^ 64 in if ltb m (2 ^ 63) then negsuc m else pos (2 ^ 64 - m - 1)

unfoldable pub add64 : ℤ → ℤ → ℤ
add64 a b = wrap64 (a +ℤ b)

-- Not negative, and at most `n`.
abbrev pub IsUpTo : ℕ → ℤ → Type 0
IsUpTo n v = (neg_part v ≡ 0) × (pos_part v ≤ n)

pub +ℤ-IsUpTo : (n m : ℕ) (a b : ℤ) → IsUpTo n a → IsUpTo m b → IsUpTo (n + m) (a +ℤ b)
unfolding ◌+ℤ◌
+ℤ-IsUpTo n m (pos x) (pos y) (p, h) (q, k) = ground arith
+ℤ-IsUpTo n m (negsuc x) b (p, h) (q, k) = absurd (omega arith)
+ℤ-IsUpTo n m (pos x) (negsuc y) (p, h) (q, k) = absurd (omega arith)

pub wrap64_of_small : (n : ℕ) (v : ℤ) → IsUpTo n v → n < 2 ^ 63 → wrap64 v ≡ v
unfolding wrap64
wrap64_of_small n (pos x) (p, h) k = ground arith
wrap64_of_small n (negsuc x) (p, h) k = absurd (omega arith)

-- The sum of two such numbers does not wrap around while it fits.
pub add64_of_small :
    (n m : ℕ) (a b : ℤ) → IsUpTo n a → IsUpTo m b → n + m < 2 ^ 63 → add64 a b ≡ a +ℤ b
unfolding add64
add64_of_small n m a b h k small = wrap64_of_small (n + m) (a +ℤ b) (+ℤ-IsUpTo n m a b h k) small
