-- ===== src/Files/Keeping.antt =====
-- What the calls of homefs/service.go leave alone.
use hostit.Common.{
  ℕ, String, Bool, true, false, List, [], ◌∷◌, none, some, ◌≡◌, ◌⊎◌, inl, inr, refl, ap, sym, ◌∙◌,
  arith, Bool-cases, Option-cases, if_elim, ◌||◌, not, str_eq, str_eq_self, str_eq→eq, or_left,
  or_right, lookup, contains, string_append, has_prefix,
}
use text.Mathlib.TextLemmas.{append_assoc}
use text.Mathlib.TextPositions.{starts_with-append}
use hostit.Common.Text.{strip_prefix, strip_prefix-eq-some}
use hostit.Files.{Checked, accepted, rejected, safe_rel, is_below}
use hostit.Files.Writing.{Files, Outcome}
use hostit.Files.Atomic.{IsNoScratch, Landed}
use hostit.Files.Changing.{
  Change, Deletion, Move, exists_at, remove_below, delete_checked, place, place_below, rename_all,
  move_checked,
}
use hostit.Files.Extracting.{TypeFlag, directory, regular_file, other_type, TarEntry, Extracted}
use hostit.Files.Unpacking.{path_of, add_some, names, file_at, last_entry, Unpacked}

-- The files at a path are as they were.
abbrev pub Keeps : String → Files → Files → Type 0
Keeps path files files' = lookup path files' ≡ lookup path files

is_below_self : (path : String) → is_below path path ≡ true
unfolding is_below
is_below_self path =
    or_right (has_prefix path (string_append path "/")) (str_eq path path) (str_eq_self path)

-- What stands below `rel` stands elsewhere than what does not.
pub below-ne :
    (p path rel : String)
    → is_below p rel ≡ true
    → is_below path rel ≡ false
    → str_eq p path ≡ false
below-ne p path rel below apart = elim (Bool-cases (str_eq p path)) [
  | inr other ↦ other
  | inl same ↦ cc (sym apart ∙ ap (λ q. is_below q rel) (sym (str_eq→eq p path same)) ∙ below)
]

remove_below-Keeps :
    (takes : String → Bool) (rel path : String) (files : Files)
    → is_below path rel ≡ false
    → Keeps path files (remove_below takes rel files)
unfolding remove_below
remove_below-Keeps takes rel path [] apart = refl
remove_below-Keeps takes rel path ((p, f) ∷ files) apart = elim (Bool-cases (is_below p rel)) [
  | inl below ↦
      let other = below-ne p path rel below apart in
      rw below (ground (arith, other, remove_below-Keeps takes rel path files apart))
  | inr above ↦ rw above (ground (arith, remove_below-Keeps takes rel path files apart))
]

is_below-slash : (x t : String) → is_below (string_append x (string_append "/" t)) x ≡ true
unfolding is_below
is_below-slash x t =
    let whole = string_append x (string_append "/" t) in
    or_left (has_prefix whole (string_append x "/")) (str_eq whole x) (
      ap (λ p. has_prefix p (string_append x "/")) (sym (append_assoc x "/" t))
      ∙ starts_with-append (string_append x "/") t)

is_below-strip_prefix :
    (p from : String) {rest : String}
    → strip_prefix p (string_append from "/") ≡ some rest
    → is_below p from ≡ true
is_below-strip_prefix p from {rest} there =
    ap (λ q. is_below q from)
      (strip_prefix-eq-some p (string_append from "/") there ∙ append_assoc from "/" rest)
    ∙ is_below-slash from rest

place-cases :
    (from to p : String)
    → (place from to p ≡ p) ⊎ ((is_below p from ≡ true) × (is_below (place from to p) to ≡ true))
unfolding place place_below
place-cases from to p = elim (Bool-cases (str_eq p from)) [
  | inl same ↦ inr (
    ap (λ q. is_below q from) (str_eq→eq p from same) ∙ is_below_self from,
    rw same (is_below_self to),
  )
  | inr other ↦ elim (Option-cases (strip_prefix p (string_append from "/"))) [
    | inl absent ↦ inl (rw (other, absent) refl)
    | inr (rest, there) ↦
        inr (is_below-strip_prefix p from there, rw (other, there) (is_below-slash to rest))
  ]
]

rename_all-Keeps :
    (from to path : String) (files : Files)
    → is_below path from ≡ false
    → is_below path to ≡ false
    → Keeps path files (rename_all from to files)
unfolding rename_all
rename_all-Keeps from to path [] old new = refl
rename_all-Keeps from to path ((p, f) ∷ files) old new =
    let rest = rename_all-Keeps from to path files old new in
    elim (place-cases from to p) [
      | inl stays ↦ rw stays (ground (arith, rest))
      | inr (left, came) ↦
          let gone = below-ne p path from left old in
          let away = below-ne (place from to p) path to came new in ground (arith, rest, gone, away)
    ]

-- A path that is not below what a call may name.
abbrev pub IsApart : String → Checked → Type 0
IsApart path c = (rel : String) → c ≡ accepted rel → is_below path rel ≡ false

pub delete_checked-Keeps :
    (d : Deletion) (c : Checked) (path : String) (files : Files)
    → IsApart path c
    → Keeps path files (delete_checked d c files).1
unfolding delete_checked
delete_checked-Keeps d (rejected why) path files apart = refl
delete_checked-Keeps d (accepted rel) path files apart =
    let keeps = λ (r : Change × Files). Keeps path files r.1 in
    if_elim keeps (not d.opens_root) refl (
      if_elim keeps d.removes (remove_below-Keeps (λ p. true) rel path files (apart rel refl))
        (remove_below-Keeps d.half_way rel path files (apart rel refl)))

pub move_checked-Keeps :
    (m : Move) (from to : Checked) (path : String) (files : Files)
    → IsApart path from
    → IsApart path to
    → Keeps path files (move_checked m from to files).1
unfolding move_checked
move_checked-Keeps m (rejected why) to path files old new = refl
move_checked-Keeps m (accepted from) (rejected why) path files old new = refl
move_checked-Keeps m (accepted from) (accepted to) path files old new =
    let keeps = λ (r : Change × Files). Keeps path files r.1 in
    if_elim keeps (not m.opens_root) refl (
      if_elim keeps (m.empty_directory_there || exists_at to files) refl (
        if_elim keeps
          (not m.makes_parents
            || not m.renames
            || not (m.moves_empty_directory || exists_at from files)
            || is_below to from)
          refl (rename_all-Keeps from to path files (old from refl) (new to refl))))

apart-ne : (path rel : String) → is_below path rel ≡ false → str_eq rel path ≡ false
apart-ne path rel apart = below-ne rel path rel (is_below_self rel) apart

pub Landed-Keeps :
    (removes : Bool) (c : Checked) (suffix : String) (body : List ℕ) (mode : ℕ) (path : String)
    (files : Files) (r : Outcome × Files)
    → IsApart path c
    → IsNoScratch c suffix path
    → Landed removes c suffix body mode files r
    → Keeps path files r.1
Landed-Keeps removes c suffix body mode path files r apart other (inl (rel, ok, done, stored)) =
    stored.2 path (apart-ne path rel (apart rel ok))
Landed-Keeps removes c suffix body mode path files r apart other (inr (failed, same)) =
    same path (inr other)

absent_here :
    (flag : TypeFlag) (c : Checked) (paths : List String) (path : String)
    → IsApart path c
    → contains paths path ≡ false
    → contains (add_some (path_of flag c) paths) path ≡ false
absent_here directory c paths path apart h = h
absent_here other_type c paths path apart h = h
absent_here regular_file (rejected why) paths path apart h = h
absent_here regular_file (accepted rel) paths path apart h =
    rw (apart-ne path rel (apart rel refl)) h

names-absent :
    (path : String)
    → ((rel_path : String) → IsApart path (safe_rel rel_path))
    → (es : List TarEntry) → contains (names es) path ≡ false
names-absent path apart [] = refl
names-absent path apart (e ∷ es) =
    absent_here e.type_flag (safe_rel e.name) (names es) path (apart e.name)
      (names-absent path apart es)

file_at-none :
    (flag : TypeFlag) (c : Checked) (e : TarEntry) (path : String)
    → IsApart path c
    → file_at path (path_of flag c) e ≡ none
file_at-none directory c e path apart = refl
file_at-none other_type c e path apart = refl
file_at-none regular_file (rejected why) e path apart = refl
file_at-none regular_file (accepted rel) e path apart = rw (apart-ne path rel (apart rel refl)) refl

last_entry-none :
    (path : String)
    → ((rel_path : String) → IsApart path (safe_rel rel_path))
    → (es : List TarEntry) → last_entry path es ≡ none
last_entry-none path apart [] = refl
last_entry-none path apart (e ∷ es) =
    rw (last_entry-none path apart es)
      (file_at-none e.type_flag (safe_rel e.name) e path (apart e.name))

pub Unpacked-Keeps :
    (P : Type 0) (es : List TarEntry) (path : String) (files : Files) (r : Extracted × Files)
    → ((rel_path : String) → IsApart path (safe_rel rel_path))
    → Unpacked P (names es) (λ p. last_entry p es) [] files r
    → Keeps path files r.1
Unpacked-Keeps P es path files r apart (inl (done, all, look)) =
    look path ∙ rw (last_entry-none path apart es) refl
Unpacked-Keeps P es path files r apart (inr (why, never, keep)) =
    keep path (names-absent path apart es)
