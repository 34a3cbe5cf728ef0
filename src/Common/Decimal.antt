-- ===== src/Common/Decimal.antt =====
-- `strconv.Atoi`, a sign and decimal digits within 64 bits, and `strconv.Itoa`, with their round trip.
use Prim.Native.Nat.{ℕ, zero, suc, ◌+◌, ◌-◌, ◌*◌, ◌/◌, ◌%◌, ◌^◌, ◌<◌}
use mathlib.Core.Path.{◌≡◌, refl, ap, ◌∙◌}
use mathlib.Core.Logic.{inl, inr}
use native.Mathlib.Omega.{arith}
use text.Mathlib.TextLemmas.{nil-append, cons-append}
use Prim.Native.Char.{code}
use Prim.Native.String.{String}
use mathlib.Core.Bool.{Bool, true, false, true≢false, ◌&&◌}
use mathlib.Core.Option.{Option, none, some}
use hostit.Common.Tests.{if◌then◌else◌, leb, ltb, ◌==◌, Bool-cases, some_inj, ltb→lt}
use hostit.Common.Text.{string_append}
use hostit.Common.Int.{ℤ, pos, negsuc}

digits_from : ℕ → String → Option ℕ
digits_from acc String.[] = some acc
digits_from acc (String.◌∷◌ c s) =
    let rest = digits_from (acc * 10 + (code c - 48)) s in
    if leb 48 (code c) && leb (code c) 57 then rest else none

digits : String → Option ℕ
digits String.[] = none
digits (String.◌∷◌ c s) = digits_from 0 (String.◌∷◌ c s)

positive : Option ℕ → Option ℤ
positive none = none
positive (some n) = if ltb n (2 ^ 63) then some (pos n) else none

negative : Option ℕ → Option ℤ
negative none = none
negative (some zero) = some (pos zero)
negative (some (suc n)) = if ltb n (2 ^ 63) then some (negsuc n) else none

unfoldable pub atoi : String → Option ℤ
unfolding digits_from digits positive negative
atoi String.[] = none
atoi (String.◌∷◌ c s) =
    if code c == b'-'
    then negative (digits s)
    else if code c == b'+'
    then positive (digits s)
    else positive (digits (String.◌∷◌ c s))

unfoldable pub digit : ℕ → String
digit zero = "0"
digit (suc zero) = "1"
digit (suc (suc zero)) = "2"
digit (suc (suc (suc zero))) = "3"
digit (suc (suc (suc (suc zero)))) = "4"
digit (suc (suc (suc (suc (suc zero))))) = "5"
digit (suc (suc (suc (suc (suc (suc zero)))))) = "6"
digit (suc (suc (suc (suc (suc (suc (suc zero))))))) = "7"
digit (suc (suc (suc (suc (suc (suc (suc (suc zero)))))))) = "8"
digit (suc (suc (suc (suc (suc (suc (suc (suc (suc n))))))))) = "9"

-- The fuel is the number itself: it has no more digits than that.
unfoldable pub show_from : ℕ → ℕ → String
show_from zero n = ""
show_from (suc f) n =
    let longer = string_append (show_from f (n / 10)) (digit (n % 10)) in
    if ltb n 10 then digit n else longer

-- `strconv.Itoa`
unfoldable pub itoa : ℤ → String
unfolding show_from digit
itoa (pos n) = show_from (suc n) n
itoa (negsuc n) = string_append "-" (show_from (suc (suc n)) (suc n))

digits_from-digit : (a n : ℕ) → n < 10 → digits_from a (digit n) ≡ some (a * 10 + n)
unfolding digits_from digit
digits_from-digit a zero h = ground arith
digits_from-digit a (suc zero) h = ground arith
digits_from-digit a (suc (suc zero)) h = ground arith
digits_from-digit a (suc (suc (suc zero))) h = ground arith
digits_from-digit a (suc (suc (suc (suc zero)))) h = ground arith
digits_from-digit a (suc (suc (suc (suc (suc zero))))) h = ground arith
digits_from-digit a (suc (suc (suc (suc (suc (suc zero)))))) h = ground arith
digits_from-digit a (suc (suc (suc (suc (suc (suc (suc zero))))))) h = ground arith
digits_from-digit a (suc (suc (suc (suc (suc (suc (suc (suc zero)))))))) h = ground arith
digits_from-digit a (suc (suc (suc (suc (suc (suc (suc (suc (suc zero))))))))) h = ground arith
digits_from-digit a (suc (suc (suc (suc (suc (suc (suc (suc (suc (suc n)))))))))) h =
    absurd (omega arith)

digits_from-append :
    (a b : ℕ) (s t : String)
    → digits_from a s ≡ some b
    → digits_from a (string_append s t) ≡ digits_from b t
unfolding digits_from
digits_from-append a b String.[] t h = rw nil-append (ap (λ x. digits_from x t) (some_inj h))
digits_from-append a b (String.◌∷◌ c s) t h =
    rw cons-append (ground (arith, digits_from-append (a * 10 + (code c - 48)) b s t))

digits_from-show_from : (f n : ℕ) → n < f → digits_from 0 (show_from f n) ≡ some n
unfolding show_from
digits_from-show_from zero n h = absurd (omega arith)
digits_from-show_from (suc f) n h = elim (Bool-cases (ltb n 10)) [
  | inl short ↦ rw short (digits_from-digit 0 n (ltb→lt n 10 short) ∙ ap some (omega arith))
  | inr long ↦ rw long (
      digits_from-append 0 (n / 10) (show_from f (n / 10)) (digit (n % 10))
        (digits_from-show_from f (n / 10) (ground arith))
      ∙ digits_from-digit (n / 10) (n % 10) (omega arith)
      ∙ ap some (omega arith))
]

is_empty : String → Bool
is_empty String.[] = true
is_empty (String.◌∷◌ c s) = false

digit-nonempty : (n : ℕ) → is_empty (digit n) ≡ false
unfolding is_empty digit
digit-nonempty zero = refl
digit-nonempty (suc zero) = refl
digit-nonempty (suc (suc zero)) = refl
digit-nonempty (suc (suc (suc zero))) = refl
digit-nonempty (suc (suc (suc (suc zero)))) = refl
digit-nonempty (suc (suc (suc (suc (suc zero))))) = refl
digit-nonempty (suc (suc (suc (suc (suc (suc zero)))))) = refl
digit-nonempty (suc (suc (suc (suc (suc (suc (suc zero))))))) = refl
digit-nonempty (suc (suc (suc (suc (suc (suc (suc (suc zero)))))))) = refl
digit-nonempty (suc (suc (suc (suc (suc (suc (suc (suc (suc n))))))))) = refl

append-nonempty : (s t : String) → is_empty t ≡ false → is_empty (string_append s t) ≡ false
unfolding is_empty
append-nonempty String.[] t h = rw nil-append h
append-nonempty (String.◌∷◌ c s) t h = rw cons-append refl

show-nonempty : (f n : ℕ) → is_empty (show_from (suc f) n) ≡ false
unfolding show_from
show-nonempty f n = elim (Bool-cases (ltb n 10)) [
  | inl short ↦ rw short (digit-nonempty n)
  | inr long ↦
      rw long (append-nonempty (show_from f (n / 10)) (digit (n % 10)) (digit-nonempty (n % 10)))
]

atoi_of_digits :
    (s : String) (n : ℕ)
    → digits_from 0 s ≡ some n
    → n < 2 ^ 63
    → is_empty s ≡ false
    → atoi s ≡ some (pos n)
unfolding atoi digits digits_from positive is_empty
atoi_of_digits String.[] n h b e = absurd (true≢false e)
atoi_of_digits (String.◌∷◌ c s) n h b e = ground arith

pub atoi-itoa : (n : ℕ) → n < 2 ^ 63 → atoi (itoa (pos n)) ≡ some (pos n)
unfolding itoa
atoi-itoa n h =
    atoi_of_digits (show_from (suc n) n) n (digits_from-show_from (suc n) n (omega arith)) h
      (show-nonempty n n)
