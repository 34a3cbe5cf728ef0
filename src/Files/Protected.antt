-- ===== src/Files/Protected.antt =====
-- That a path which a caller may use stands apart from the directories that hostit manages.
use Prim.Native.Char.{Char, code}
use hostit.Common.{
  String, true, false, List, [], ◌∷◌, ◌++◌, str_neq, ◌≡◌, inl, inr, refl, ap, sym, ◌∙◌, Bool-cases,
  ◌==◌, str_eq, str_eq_self, str_eq→eq, or_left, or_right, contains, string_append, has_prefix, any,
  All,
}
use text.Mathlib.TextEquality.{starts_with_iff}
use text.Mathlib.TextLemmas.{nil-append, cons-append, append_assoc}
use hostit.Files.{
  temp_prefix, join_slash, accepted, safe_rel, split_slash, add_first, is_below, is_protected,
  protected_dirs,
}
use hostit.Files.Paths.{
  has_slash, NoSlash, IsInside, split_slash-NoSlash, split_slash-join_slash, safe_rel-IsInside,
}
use text.Mathlib.TextPositions.{starts_with-append}
use hostit.Files.Writing.{all_but_last, scratch_of}
use hostit.Files.Atomic.{has_slash-append, All-all_but_last, prefix-NoSlash}

abbrev first_of : List String → String
first_of [] = ""
first_of (p ∷ ps) = p

add_first-cons :
    (c : Char) (ps : List String)
    → (q : String) × (qs : List String) × (ps ≡ q ∷ qs)
    → first_of (add_first c ps) ≡ String.◌∷◌ c (first_of ps)
unfolding add_first
add_first-cons c [] (q, qs, e) = cc
add_first-cons c (p ∷ ps) h = refl

split_slash-cons : (s : String) → (q : String) × (qs : List String) × (split_slash s ≡ q ∷ qs)
unfolding split_slash add_first
split_slash-cons String.[] = ("", [], refl)
split_slash-cons (String.◌∷◌ c s) = elim (Bool-cases (code c == b'/')) [
  | inl slash ↦ ("", split_slash s, rw slash refl)
  | inr other ↦
      let (q, qs, e) = split_slash-cons s in (String.◌∷◌ c q, qs, rw other (ap (add_first c) e))
]

-- The first name of a path is that of what it is below.
first-slash :
    (x t : String)
    → first_of (split_slash (string_append x (string_append "/" t))) ≡ first_of (split_slash x)
unfolding split_slash
first-slash String.[] t = rw nil-append (rw cons-append refl)
first-slash (String.◌∷◌ c x) t = rw cons-append (elim (Bool-cases (code c == b'/')) [
  | inl slash ↦ rw slash refl
  | inr other ↦ rw other (
      add_first-cons c (split_slash (string_append x (string_append "/" t)))
        (split_slash-cons (string_append x (string_append "/" t)))
      ∙ ap (String.◌∷◌ c) (first-slash x t)
      ∙ sym (add_first-cons c (split_slash x) (split_slash-cons x)))
])

first-is_below :
    (path rel : String)
    → is_below path rel ≡ true
    → first_of (split_slash path) ≡ first_of (split_slash rel)
unfolding is_below
first-is_below path rel h = elim (Bool-cases (has_prefix path (string_append rel "/"))) [
  | inl below ↦
      let (t, e) = (starts_with_iff path (string_append rel "/")).0 below in
      ap (λ p. first_of (split_slash p)) (sym e ∙ append_assoc rel "/" t) ∙ first-slash rel t
  | inr same ↦ ap (λ p. first_of (split_slash p)) (str_eq→eq path rel (rw same at h))
]

any_below-contains :
    (path : String) (dirs : List String)
    → All (λ d. first_of (split_slash d) ≡ d) dirs
    → any (is_below path) dirs ≡ true
    → contains dirs (first_of (split_slash path)) ≡ true
any_below-contains path [] all h = cc
any_below-contains path (d ∷ dirs) (top, all) h = elim (Bool-cases (is_below path d)) [
  | inl here ↦
      or_left (str_eq d (first_of (split_slash path))) _
        (ap (str_eq d) (first-is_below path d here ∙ top) ∙ str_eq_self d)
  | inr there ↦
      or_right (str_eq d (first_of (split_slash path))) _
        (any_below-contains path dirs all (rw there at h))
]

-- A path below a protected directory has its name first.
is_protected-contains :
    (path : String)
    → is_protected path ≡ true
    → contains protected_dirs (first_of (split_slash path)) ≡ true
unfolding is_protected protected_dirs split_slash
is_protected-contains path h =
    any_below-contains path protected_dirs (refl, (refl, (refl, (refl, (refl, tt))))) h

first-IsInside : (ps : List String) → IsInside ps → contains protected_dirs (first_of ps) ≡ false
first-IsInside [] h = absurd h
first-IsInside (p ∷ ps) h = h.1

-- Nothing protected is below a path that a caller may use.
pub safe_rel-apart :
    (rel_path : String) {rel : String}
    → safe_rel rel_path ≡ accepted rel
    → (path : String) → is_protected path ≡ true
    → is_below path rel ≡ false
safe_rel-apart rel_path {rel} ok path managed = elim (Bool-cases (is_below path rel)) [
  | inr other ↦ other
  | inl below ↦
      let (ps, splits, inside) = safe_rel-IsInside rel_path ok in
      let own : contains protected_dirs (first_of ps) ≡ true =
        ap (λ l. contains protected_dirs (first_of l)) (sym splits)
        ∙ ap (contains protected_dirs) (sym (first-is_below path rel below))
        ∙ is_protected-contains path managed in
      cc (sym own ∙ first-IsInside ps inside)
]

split_slash-whole :
    (ps : List String) (t : String)
    → All NoSlash (ps ++ t ∷ [])
    → split_slash (join_slash (ps ++ t ∷ [])) ≡ ps ++ t ∷ []
split_slash-whole [] t h = split_slash-join_slash t [] h
split_slash-whole (p ∷ ps) t h = split_slash-join_slash p (ps ++ t ∷ []) h

contains-false :
    (dirs : List String) (name : String)
    → All (λ d. has_prefix d temp_prefix ≡ false) dirs
    → has_prefix name temp_prefix ≡ true
    → contains dirs name ≡ false
contains-false [] name all h = refl
contains-false (d ∷ dirs) name (other, all) h = elim (Bool-cases (str_eq d name)) [
  | inl same ↦ cc (sym other ∙ ap (λ n. has_prefix n temp_prefix) (str_eq→eq d name same) ∙ h)
  | inr differs ↦ rw differs (contains-false dirs name all h)
]

-- The directories that hostit manages are none of an upload's scratch files.
scratch_name-free :
    (suffix : String) → contains protected_dirs (string_append temp_prefix suffix) ≡ false
unfolding protected_dirs temp_prefix
scratch_name-free suffix =
    contains-false protected_dirs (string_append temp_prefix suffix)
      (refl, (refl, (refl, (refl, (refl, tt))))) (starts_with-append temp_prefix suffix)

first-scratch :
    (ps : List String) (suffix : String)
    → IsInside ps
    → contains protected_dirs (first_of (all_but_last ps ++ string_append temp_prefix suffix ∷ []))
      ≡ false
unfolding all_but_last
first-scratch [] suffix h = absurd h
first-scratch (p ∷ []) suffix h = scratch_name-free suffix
first-scratch (p ∷ (q ∷ ps)) suffix h = h.1

-- An upload's scratch file stands apart from the directories that hostit manages.
pub scratch_of-free :
    (rel_path suffix : String)
    → has_slash suffix ≡ false
    → (path : String) → is_protected path ≡ true
    → (rel : String) → safe_rel rel_path ≡ accepted rel
    → str_eq (scratch_of rel suffix) path ≡ false
unfolding scratch_of
scratch_of-free rel_path suffix h path managed rel ok = str_neq (scratch_of rel suffix) path (λ e.
    let name = string_append temp_prefix suffix in
    let (ps, splits, inside) = safe_rel-IsInside rel_path ok in
    let plain : has_slash name ≡ false =
      has_slash-append temp_prefix suffix ∙ rw h prefix-NoSlash in
    let whole : split_slash (scratch_of rel suffix) ≡ all_but_last (split_slash rel) ++ name ∷ [] =
      split_slash-whole (all_but_last (split_slash rel)) name
        (All-all_but_last (split_slash rel) name (split_slash-NoSlash rel) plain) in
    let free : contains protected_dirs (first_of (split_slash (scratch_of rel suffix))) ≡ false =
      ap (λ l. contains protected_dirs (first_of l)) whole
      ∙ ap (λ l. contains protected_dirs (first_of (all_but_last l ++ name ∷ []))) splits
      ∙ first-scratch ps suffix inside in
    cc (
      sym free
      ∙ ap (λ q. contains protected_dirs (first_of (split_slash q))) e
      ∙ is_protected-contains path managed))
