-- ===== src/Files/Paths.antt =====
-- What a path that is accepted looks like.
use Prim.Native.Char.{Char, code}
use hostit.Common.{
  String, Bool, true, false, List, [], ◌∷◌, ◌++◌, ◌≡◌, inl, inr, refl, ap, sym, subst, ◌∙◌, arith,
  Bool-cases, ◌||◌, ◌==◌, or_left, or_right, if◌then◌else◌, str_eq, str_eq_self, str_eq→eq,
  contains, string_append, has_prefix, any, All,
}
use text.Mathlib.TextLemmas.{nil-append, cons-append, append_assoc}
use text.Mathlib.TextPositions.{starts_with-append}
use hostit.Common.Text.{trim_space, trim_prefix-append}
use hostit.Files.{
  Checked, accepted, rejected, PathError, not_relative, leaves_directory, invalid_path,
  managed_path, reserved_path, temp_prefix, protected_dirs, to_slashes, add_first, split_slash,
  join_slash, pop, clean_step, clean_from, clean_rooted, is_below, is_protected, last_of, base,
  safe_cleaned, safe_raw, safe_rel,
}

unfoldable pub has_slash : String → Bool
has_slash String.[] = false
has_slash (String.◌∷◌ c s) = (code c == b'/') || has_slash s

abbrev pub NoSlash : String → Type 0
NoSlash s = has_slash s ≡ false

-- A segment that names something in its directory.
abbrev pub IsName : String → Type 0
IsName s = NoSlash s × (str_eq s "" ≡ false) × (str_eq s "." ≡ false) × (str_eq s ".." ≡ false)

add_first-NoSlash :
    (c : Char) (ps : List String)
    → (code c == b'/') ≡ false
    → All NoSlash ps
    → All NoSlash (add_first c ps)
unfolding add_first has_slash
add_first-NoSlash c [] h all = tt
add_first-NoSlash c (p ∷ ps) h (q, all) = (rw h q, all)

pub split_slash-NoSlash : (s : String) → All NoSlash (split_slash s)
unfolding split_slash has_slash
split_slash-NoSlash String.[] = (refl, tt)
split_slash-NoSlash (String.◌∷◌ c s) = elim (Bool-cases (code c == b'/')) [
  | inl slash ↦ rw slash (refl, split_slash-NoSlash s)
  | inr other ↦ rw other (add_first-NoSlash c (split_slash s) other (split_slash-NoSlash s))
]

All-append :
    (out : List String) (s : String) → All IsName out → IsName s → All IsName (out ++ s ∷ [])
All-append [] s h k = (k, tt)
All-append (p ∷ out) s (q, h) k = (q, All-append out s h k)

pop-All : (out : List String) → All IsName out → All IsName (pop out)
unfolding pop
pop-All [] h = tt
pop-All (p ∷ out) h = h.1

clean_step-All :
    (out : List String) (s : String) → NoSlash s → All IsName out → All IsName (clean_step out s)
unfolding clean_step
clean_step-All out s n h = elim (Bool-cases (str_eq s "")) [
  | inl empty ↦ rw empty h
  | inr full ↦ elim (Bool-cases (str_eq s ".")) [
    | inl dot ↦ rw (full, dot) h
    | inr other ↦ elim (Bool-cases (str_eq s "..")) [
      | inl dots ↦ rw (full, other, dots) (pop-All out h)
      | inr name ↦ rw (full, other, name) (All-append out s h (n, full, other, name))
    ]
  ]
]

clean_from-All :
    (out ss : List String) → All NoSlash ss → All IsName out → All IsName (clean_from out ss)
unfolding clean_from
clean_from-All out [] n h = h
clean_from-All out (s ∷ ss) (m, n) h =
    clean_from-All (clean_step out s) ss n (clean_step-All out s m h)

split_slash-one : (a : String) → NoSlash a → split_slash a ≡ a ∷ []
unfolding split_slash add_first has_slash
split_slash-one String.[] h = refl
split_slash-one (String.◌∷◌ c a) h = ground (arith, split_slash-one a)

split_slash-append :
    (a s : String)
    → NoSlash a
    → split_slash (string_append a (string_append "/" s)) ≡ a ∷ split_slash s
unfolding split_slash add_first has_slash
split_slash-append String.[] s h = rw nil-append (rw cons-append (rw nil-append refl))
split_slash-append (String.◌∷◌ c a) s h = rw cons-append (ground (arith, split_slash-append a s))

-- Names joined by slashes are split into the same names.
pub split_slash-join_slash :
    (p : String) (ps : List String)
    → All NoSlash (p ∷ ps)
    → split_slash (join_slash (p ∷ ps)) ≡ p ∷ ps
unfolding join_slash
split_slash-join_slash p [] (h, all) = split_slash-one p h
split_slash-join_slash p (q ∷ ps) (h, all) =
    split_slash-append p (join_slash (q ∷ ps)) h ∙ ap (λ l. p ∷ l) (split_slash-join_slash q ps all)

names-NoSlash : (ps : List String) → All IsName ps → All NoSlash ps
names-NoSlash [] h = tt
names-NoSlash (p ∷ ps) (q, h) = (q.0, names-NoSlash ps h)

is_below-join_slash :
    (p : String) (ps : List String) (d : String)
    → str_eq d p ≡ true
    → is_below (join_slash (p ∷ ps)) d ≡ true
unfolding is_below join_slash
is_below-join_slash p [] d same =
    subst (λ e. (has_prefix p (string_append e "/") || str_eq p e) ≡ true)
      (sym (str_eq→eq d p same))
      (or_right (has_prefix p (string_append p "/")) (str_eq p p) (str_eq_self p))
is_below-join_slash p (q ∷ ps) d same =
    let rest = join_slash (q ∷ ps) in
    let whole = string_append p (string_append "/" rest) in
    subst (λ e. (has_prefix whole (string_append e "/") || str_eq whole e) ≡ true)
      (sym (str_eq→eq d p same))
      (or_left (has_prefix whole (string_append p "/")) (str_eq whole p) (
        ap (λ t. has_prefix t (string_append p "/")) (sym (append_assoc p "/" rest))
        ∙ starts_with-append (string_append p "/") rest))

any_below :
    (dirs : List String) (p : String) (ps : List String)
    → contains dirs p ≡ true
    → any (is_below (join_slash (p ∷ ps))) dirs ≡ true
any_below [] p ps h = cc
any_below (d ∷ dirs) p ps h = elim (Bool-cases (str_eq d p)) [
  | inl here ↦ or_left (is_below (join_slash (p ∷ ps)) d) _ (is_below-join_slash p ps d here)
  | inr there ↦ or_right (is_below (join_slash (p ∷ ps)) d) _ (any_below dirs p ps (rw there at h))
]

-- A path that begins with a protected directory is protected.
is_protected-join_slash :
    (p : String) (ps : List String)
    → contains protected_dirs p ≡ true
    → is_protected (join_slash (p ∷ ps)) ≡ true
unfolding is_protected
is_protected-join_slash p ps h = any_below protected_dirs p ps h

-- Names from the app's directory down: at least one, the first none of the protected directories,
-- the last none that uploads use for themselves.
abbrev pub IsInside : List String → Type 0
IsInside [] = ⊥
IsInside (p ∷ ps) =
    All IsName (p ∷ ps)
    × (contains protected_dirs p ≡ false)
    × (has_prefix (last_of (p ∷ ps)) temp_prefix ≡ false)

guard-accepted :
    (b : Bool) (why : PathError) (rest : Checked) {path : String}
    → (if b then rejected why else rest) ≡ accepted path
    → (b ≡ false) × (rest ≡ accepted path)
guard-accepted true why rest e = cc
guard-accepted false why rest e = (refl, e)

accepted_inj : {p q : String} → accepted p ≡ accepted q → p ≡ q
accepted_inj e = cc

or_false : (a b : Bool) → (a || b) ≡ false → a ≡ false
or_false a b h = ground arith

safe_cleaned-accepted :
    (cleaned : String) {path : String}
    → safe_cleaned cleaned ≡ accepted path
    → (cleaned ≡ path)
      × (str_eq cleaned "" ≡ false)
      × (is_protected cleaned ≡ false)
      × (has_prefix (base cleaned) temp_prefix ≡ false)
unfolding safe_cleaned
safe_cleaned-accepted cleaned e =
    let (named, e1) = guard-accepted (str_eq cleaned "" || str_eq cleaned ".") invalid_path _ e in
    let (free, e2) = guard-accepted (is_protected cleaned) managed_path _ e1 in
    let (own, e3) = guard-accepted (has_prefix (base cleaned) temp_prefix) reserved_path _ e2 in
    (accepted_inj e3, or_false (str_eq cleaned "") (str_eq cleaned ".") named, free, own)

no_name : str_eq (join_slash []) "" ≡ false → ⊥
unfolding join_slash
no_name h = cc

cleaned-IsInside :
    (ps : List String)
    → All IsName ps
    → str_eq (join_slash ps) "" ≡ false
    → is_protected (join_slash ps) ≡ false
    → has_prefix (base (join_slash ps)) temp_prefix ≡ false
    → IsInside ps × (split_slash (join_slash ps) ≡ ps)
unfolding base
cleaned-IsInside [] all full free own = absurd (no_name full)
cleaned-IsInside (p ∷ ps) all full free own =
    let splits = split_slash-join_slash p ps (names-NoSlash (p ∷ ps) all) in
    (
      (
        all,
        (elim (Bool-cases (contains protected_dirs p)) [
          | inl managed ↦ cc (is_protected-join_slash p ps managed)
          | inr other ↦ other
        ]),
        ap (λ l. has_prefix (last_of l) temp_prefix) (sym splits) ∙ own,
      ),
      splits,
    )

-- A path that a caller may use is made of names from the app's directory down: no empty one, no
-- dot and no two dots among them, the first not one of the directories that hostit manages and the
-- last not one of an upload's scratch files.
pub safe_rel-IsInside :
    (rel_path : String) {path : String}
    → safe_rel rel_path ≡ accepted path
    → (ps : List String) × (split_slash path ≡ ps) × IsInside ps
unfolding safe_rel safe_raw clean_rooted
safe_rel-IsInside rel_path e =
    let raw = trim_space (to_slashes rel_path) in
    let ps = clean_from [] (split_slash (string_append "/" raw)) in
    let (relative, e1) = guard-accepted (str_eq raw "" || has_prefix raw "/") not_relative _ e in
    let (inner, e2) = guard-accepted (contains (split_slash raw) "..") leaves_directory _ e1 in
    let cleaned = trim_prefix-append "/" (join_slash ps) in
    let (same, full, free, own) =
      safe_cleaned-accepted (join_slash ps) (ap safe_cleaned (sym cleaned) ∙ e2) in
    let all =
      clean_from-All [] (split_slash (string_append "/" raw))
        (split_slash-NoSlash (string_append "/" raw)) tt in
    let (inside, splits) = cleaned-IsInside ps all full free own in
    (ps, ap split_slash (sym same) ∙ splits, inside)
