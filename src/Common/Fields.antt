-- ===== src/Common/Fields.antt =====
-- Texts with fields between bars: what `strings.Split(s, "|")` and `strings.Join(parts, "|")` do.
use Prim.Native.Nat.{ℕ, zero, suc, ◌/◌, ◌%◌}
use Prim.Native.Char.{Char, code}
use Prim.Native.String.{String}
use mathlib.Core.Path.{◌≡◌, refl, ap, sym, ◌∙◌}
use mathlib.Core.Logic.{inl, inr}
use mathlib.Core.Bool.{Bool, false, ◌||◌}
use mathlib.Core.List.{List, [], ◌∷◌}
use native.Mathlib.Omega.{arith}
use text.Mathlib.TextLemmas.{nil-append, cons-append}
use hostit.Common.Tests.{if◌then◌else◌, ltb, ◌==◌, Bool-cases}
use text.Mathlib.TextEquality.{Char-path}
use hostit.Common.Text.{string_append}
use hostit.Common.Int.{ℤ, pos, negsuc}
use hostit.Common.Decimal.{digit, itoa, show_from}

-- `strings.Contains(s, "|")`
unfoldable pub has_bar : String → Bool
has_bar String.[] = false
has_bar (String.◌∷◌ c s) = (code c == b'|') || has_bar s

-- The character goes to the first field; there is always one.
unfoldable pub add_first : Char → List String → List String
add_first c [] = []
add_first c (p ∷ ps) = String.◌∷◌ c p ∷ ps

unfoldable pub split_bar : String → List String
unfolding add_first
split_bar String.[] = "" ∷ []
split_bar (String.◌∷◌ c s) =
    let rest = split_bar s in if code c == b'|' then "" ∷ rest else add_first c rest

abbrev pub bar : String → String → String
bar a b = string_append a (string_append "|" b)

unfoldable pub join_bar : List String → String
join_bar [] = ""
join_bar (p ∷ []) = p
join_bar (p ∷ (q ∷ ps)) = bar p (join_bar (q ∷ ps))

-- The bar is one character.
pub has_bar-append : (a b : String) → has_bar (string_append a b) ≡ has_bar a || has_bar b
unfolding has_bar
has_bar-append String.[] b = rw nil-append refl
has_bar-append (String.◌∷◌ c a) b = rw cons-append (rw (has_bar-append a b) (ground arith))

-- A field without a bar ends where the bar is.
pub split_bar-bar : (a s : String) → has_bar a ≡ false → split_bar (bar a s) ≡ a ∷ split_bar s
unfolding split_bar add_first has_bar
split_bar-bar String.[] s h = rw nil-append (rw cons-append (rw nil-append refl))
split_bar-bar (String.◌∷◌ c a) s h = rw cons-append (ground (arith, split_bar-bar a s))

pub split_bar_one : (a : String) → has_bar a ≡ false → split_bar a ≡ a ∷ []
unfolding split_bar add_first has_bar
split_bar_one String.[] h = refl
split_bar_one (String.◌∷◌ c a) h = ground (arith, split_bar_one a)

split_bar-nonempty : (s : String) → (p : String) × (ps : List String) × (split_bar s ≡ p ∷ ps)
unfolding split_bar add_first
split_bar-nonempty String.[] = ("", [], refl)
split_bar-nonempty (String.◌∷◌ c s) =
    let (p, ps, e) = split_bar-nonempty s in
    elim (Bool-cases (code c == b'|')) [
      | inl bar_here ↦ ("", split_bar s, rw bar_here refl)
      | inr none_here ↦ (String.◌∷◌ c p, ps, rw none_here (rw e refl))
    ]

join_first :
    (c : Char) (p : String) (ps : List String)
    → join_bar (add_first c (p ∷ ps)) ≡ String.◌∷◌ c (join_bar (p ∷ ps))
unfolding join_bar add_first
join_first c p [] = refl
join_first c p (q ∷ ps) = cons-append c p (string_append "|" (join_bar (q ∷ ps)))

join_next : (p q : String) (ps : List String) → join_bar (p ∷ (q ∷ ps)) ≡ bar p (join_bar (q ∷ ps))
unfolding join_bar
join_next p q ps = refl

bar_first : (c : Char) (s : String) → code c ≡ b'|' → bar "" s ≡ String.◌∷◌ c s
bar_first c s h =
    rw nil-append
      (rw cons-append (rw nil-append (ap (λ d. String.◌∷◌ d s) (Char-path "|" c (sym h)))))

-- A text is its fields, joined.
pub join_bar-split_bar : (s : String) → join_bar (split_bar s) ≡ s
unfolding split_bar join_bar
join_bar-split_bar String.[] = refl
join_bar-split_bar (String.◌∷◌ c s) =
    let (p, ps, e) = split_bar-nonempty s in
    elim (Bool-cases (code c == b'|')) [
      | inl bar_here ↦ rw bar_here (
          ap (λ l. join_bar ("" ∷ l)) e
          ∙ join_next "" p ps
          ∙ ap (bar "") (ap join_bar (sym e) ∙ join_bar-split_bar s)
          ∙ bar_first c s (ground arith))
      | inr none_here ↦ rw none_here (
          ap (λ l. join_bar (add_first c l)) e
          ∙ join_first c p ps
          ∙ ap (String.◌∷◌ c) (ap join_bar (sym e) ∙ join_bar-split_bar s))
    ]

digit-has_bar : (n : ℕ) → has_bar (digit n) ≡ false
unfolding digit has_bar
digit-has_bar zero = refl
digit-has_bar (suc zero) = refl
digit-has_bar (suc (suc zero)) = refl
digit-has_bar (suc (suc (suc zero))) = refl
digit-has_bar (suc (suc (suc (suc zero)))) = refl
digit-has_bar (suc (suc (suc (suc (suc zero))))) = refl
digit-has_bar (suc (suc (suc (suc (suc (suc zero)))))) = refl
digit-has_bar (suc (suc (suc (suc (suc (suc (suc zero))))))) = refl
digit-has_bar (suc (suc (suc (suc (suc (suc (suc (suc zero)))))))) = refl
digit-has_bar (suc (suc (suc (suc (suc (suc (suc (suc (suc n))))))))) = refl

show_from-has_bar : (f n : ℕ) → has_bar (show_from f n) ≡ false
unfolding show_from has_bar
show_from-has_bar zero n = refl
show_from-has_bar (suc f) n = elim (Bool-cases (ltb n 10)) [
  | inl short ↦ rw short (digit-has_bar n)
  | inr long ↦ rw long (
      has_bar-append (show_from f (n / 10)) (digit (n % 10))
      ∙ ground (arith, show_from-has_bar f (n / 10), digit-has_bar (n % 10)))
]

-- A number in decimal has no bar.
pub has_bar-itoa : (n : ℤ) → has_bar (itoa n) ≡ false
unfolding itoa has_bar
has_bar-itoa (pos n) = show_from-has_bar (suc n) n
has_bar-itoa (negsuc n) =
    has_bar-append "-" (show_from (suc (suc n)) (suc n)) ∙ show_from-has_bar (suc (suc n)) (suc n)
