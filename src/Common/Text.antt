-- ===== src/Common/Text.antt =====
-- Texts: equality, and lists of texts that Go searches with `slices.Contains` or uses as map keys.
use Prim.Native.Nat.{ℕ}
use Prim.Native.Char.{code}
use Prim.Native.String
use Prim.Native.String.{String}
use mathlib.Core.Path.{◌≡◌, refl}
use mathlib.Core.Bool.{Bool, true, false, ◌||◌, ◌&&◌}
use mathlib.Core.List.{List, [], ◌∷◌}
use mathlib.Core.Option.{Option, none, some}
use native.Mathlib.Omega.{arith}
use mathlib.Core.Logic.{◌⊎◌, inl, inr}
use text.Mathlib.Text.{◌==◌ as string_beq, starts_with}
use text.Mathlib.TextLemmas.{nil-append, cons-append}
use text.Mathlib.TextEquality.{eq_iff, Char-path}
use hostit.Common.Tests.{if◌then◌else◌, ltb, leb, ◌==◌, some_inj, Option-cases}

abbrev pub str_eq : String → String → Bool
str_eq a b = string_beq a b

pub str_eq→eq : (a b : String) → str_eq a b ≡ true → a ≡ b
str_eq→eq a b = (eq_iff a b).0

pub str_eq_self : (a : String) → str_eq a a ≡ true
str_eq_self a = (eq_iff a a).1 refl

pub str_eq-false : (a b : String) → str_eq a b ≡ false → a ≡ b → ⊥
str_eq-false a b h e = ground (arith, eq_iff a b)

-- `slices.Contains`, and `m[k]` on a `map[string]bool` given as the list of its true keys
abbrev pub contains : List String → String → Bool
contains [] s = false
contains (x ∷ xs) s = str_eq x s || contains xs s

module _ {ℓ} {V : Type ℓ} where
  abbrev pub lookup : String → List (String × V) → Option V
  lookup k [] = none
  lookup k ((j, v) ∷ m) = if str_eq j k then some v else lookup k m

abbrev pub codes : String → List ℕ
codes String.[] = []
codes (String.◌∷◌ c s) = code c ∷ codes s

abbrev lex_ltb : List ℕ → List ℕ → Bool
lex_ltb [] [] = false
lex_ltb [] (y ∷ ys) = true
lex_ltb (x ∷ xs) [] = false
lex_ltb (x ∷ xs) (y ∷ ys) = if x == y then lex_ltb xs ys else ltb x y

-- `a < b` on Go strings: code points in order, which is the order of their bytes in UTF-8
unfoldable pub str_ltb : String → String → Bool
str_ltb a b = lex_ltb (codes a) (codes b)

lex_irrefl : (xs : List ℕ) → lex_ltb xs xs ≡ false
lex_irrefl [] = refl
lex_irrefl (x ∷ xs) = ground (arith, lex_irrefl xs)

lex_trans : (xs ys zs : List ℕ) → lex_ltb xs ys ≡ true → lex_ltb ys zs ≡ true → lex_ltb xs zs ≡ true
lex_trans [] [] zs h k = cc
lex_trans [] (y ∷ ys) [] h k = cc
lex_trans [] (y ∷ ys) (z ∷ zs) h k = refl
lex_trans (x ∷ xs) [] zs h k = cc
lex_trans (x ∷ xs) (y ∷ ys) [] h k = cc
lex_trans (x ∷ xs) (y ∷ ys) (z ∷ zs) h k = ground (arith, lex_trans xs ys zs)

pub str_ltb_irrefl : (a : String) → str_ltb a a ≡ false
unfolding str_ltb
str_ltb_irrefl a = lex_irrefl (codes a)

pub str_ltb_trans : (a b c : String) → str_ltb a b ≡ true → str_ltb b c ≡ true → str_ltb a c ≡ true
unfolding str_ltb
str_ltb_trans a b c = lex_trans (codes a) (codes b) (codes c)

pub str_eq_comm : (a b : String) → str_eq a b ≡ str_eq b a
str_eq_comm a b = ground (arith, eq_iff a b, eq_iff b a)

pub str_neq : (a b : String) → (a ≡ b → ⊥) → str_eq a b ≡ false
str_neq a b h = ground (arith, eq_iff a b)

-- Two texts of which neither is before the other are the same.
pub str_ltb_total : (a b : String) → str_ltb a b ≡ false → str_ltb b a ≡ false → a ≡ b
unfolding str_ltb
str_ltb_total String.[] String.[] h k = refl
str_ltb_total String.[] (String.◌∷◌ d b) h k = cc
str_ltb_total (String.◌∷◌ c a) String.[] h k = cc
str_ltb_total (String.◌∷◌ c a) (String.◌∷◌ d b) h k =
    ground (arith, str_ltb_total a b, Char-path c d)

abbrev pub string_append : String → String → String
string_append a b = String.◌++◌ a b

-- Unicode white space, which `strings.TrimSpace` drops from both ends.
is_space : ℕ → Bool
is_space c =
    (leb 9 c && leb c 13)
    || (c == 32)
    || (c == 0x85)
    || (c == 0xa0)
    || (c == 0x1680)
    || (leb 0x2000 c && leb c 0x200a)
    || (c == 0x2028)
    || (c == 0x2029)
    || (c == 0x202f)
    || (c == 0x205f)
    || (c == 0x3000)

trim_left : String → String
trim_left String.[] = String.[]
trim_left (String.◌∷◌ c s) = if is_space (code c) then trim_left s else String.◌∷◌ c s

-- White space at the end: a character stays if it is not one, or if something is left behind it.
trim_right : String → String
trim_right String.[] = String.[]
trim_right (String.◌∷◌ c s) =
    let rest = trim_right s in
    if is_space (code c) && string_beq rest "" then String.[] else String.◌∷◌ c rest

unfoldable pub trim_space : String → String
unfolding is_space trim_left trim_right
trim_space s = trim_right (trim_left s)

abbrev pub has_prefix : String → String → Bool
has_prefix s p = starts_with s p

-- What follows a prefix, if it is there.
unfoldable pub strip_prefix : String → String → Option String
strip_prefix s String.[] = some s
strip_prefix String.[] (String.◌∷◌ d p) = none
strip_prefix (String.◌∷◌ c s) (String.◌∷◌ d p) =
    let rest = strip_prefix s p in if code c == code d then rest else none

or_whole : String → Option String → String
or_whole s none = s
or_whole s (some rest) = rest

-- `strings.TrimPrefix`
unfoldable pub trim_prefix : String → String → String
unfolding strip_prefix or_whole
trim_prefix s p = or_whole s (strip_prefix s p)

-- Either the prefix is there, and what is left follows it, or nothing is taken away.
pub strip_prefix-eq-some :
    (s p : String) {rest : String} → strip_prefix s p ≡ some rest → s ≡ string_append p rest
unfolding strip_prefix
strip_prefix-eq-some s String.[] e = rw nil-append (some_inj e)
strip_prefix-eq-some String.[] (String.◌∷◌ d p) e = cc
strip_prefix-eq-some (String.◌∷◌ c s) (String.◌∷◌ d p) {rest} e =
    rw cons-append (ground (arith, strip_prefix-eq-some s p {rest = rest}, Char-path c d))

pub trim_prefix-cases :
    (s p : String) → (trim_prefix s p ≡ s) ⊎ (s ≡ string_append p (trim_prefix s p))
unfolding trim_prefix
trim_prefix-cases s p = elim (Option-cases (strip_prefix s p)) [
  | inl absent ↦ inl (rw absent)
  | inr (rest, there) ↦ inr (rw there (strip_prefix-eq-some s p there))
]

pub strip_prefix-append : (p s : String) → strip_prefix (string_append p s) p ≡ some s
unfolding strip_prefix
strip_prefix-append String.[] s = rw nil-append refl
strip_prefix-append (String.◌∷◌ c p) s = rw cons-append (ground (arith, strip_prefix-append p s))

pub trim_prefix-append : (p s : String) → trim_prefix (string_append p s) p ≡ s
unfolding trim_prefix
trim_prefix-append p s = rw (strip_prefix-append p s) refl
