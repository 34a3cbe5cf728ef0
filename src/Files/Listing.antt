-- ===== src/Files/Listing.antt =====
-- `ListFiles` of homefs/service.go: one directory as a caller sees it.
use Prim.Native.Char.{code}
use hostit.Common.{
  ℕ, zero, suc, ◌+◌, ◌-◌, ◌≤◌, ◌<◌, inl, inr, String, Bool, true, false, List, [], ◌∷◌, ◌++◌, ◌≡◌,
  refl, ap, sym, ◌∙◌, arith, Bool-cases, ◌&&◌, ◌||◌, not, ◌==◌, ltb, leb, if◌then◌else◌, str_eq,
  length, take, length-append, string_append, All,
}
use mathlib.Core.List.{append_assoc, append-nil}
use hostit.Common.Text.{trim_space}
use hostit.Files.{Checked, accepted, max_list_entries, safe_rel, is_hidden_from_listing}

-- An entry of a directory; its size can be read or not.
pub record Entry : Type 0 where
  pub name : String
  pub is_dir : Bool
  pub size : ℕ
  pub readable : Bool

pub record FileInfo : Type 0 where
  pub path : String
  pub is_dir : Bool
  pub size : ℕ

-- `strings.Trim(dir, "./") == ""`
unfoldable pub only_dots : String → Bool
only_dots String.[] = true
only_dots (String.◌∷◌ c s) = ((code c == b'.') || (code c == b'/')) && only_dots s

-- The directory that is listed, the app's own for a path of dots and slashes
unfoldable pub listed_dir : String → Checked
unfolding only_dots safe_rel trim_space
listed_dir dir =
    if not (str_eq (trim_space dir) "") && not (only_dots dir) then safe_rel dir else accepted ""

unfoldable pub child_of : String → String → String
child_of rel name = if not (str_eq rel "") then string_append rel (string_append "/" name) else name

unfoldable pub is_skipped : String → Entry → Bool
unfolding child_of is_hidden_from_listing
is_skipped rel e =
    is_hidden_from_listing (child_of rel e.name)
    || (e.is_dir && is_hidden_from_listing (string_append (child_of rel e.name) "/"))

unfoldable pub info_of : String → Entry → FileInfo
unfolding child_of
info_of rel e = record {
  path = child_of rel e.name;
  is_dir = e.is_dir;
  size = if e.is_dir then 0 else e.size;
}

-- The loop over the entries: the files so far, and whether the listing was cut
unfoldable pub list_entries : String → List Entry → List FileInfo → List FileInfo × Bool
unfolding is_skipped info_of max_list_entries
list_entries rel [] files = (files, false)
list_entries rel (e ∷ es) files =
    let skip = list_entries rel es files in
    let keep = list_entries rel es (files ++ info_of rel e ∷ []) in
    if is_skipped rel e
    then skip
    else if leb max_list_entries (length files)
    then (files, true)
    else if not e.readable
    then skip
    else keep

-- What a reader may see of a directory, without a limit.
abbrev pub visible : String → List Entry → List FileInfo
visible rel [] = []
visible rel (e ∷ es) = if is_skipped rel e then visible rel es else info_of rel e ∷ visible rel es

take-nil : (n : ℕ) → take {A = FileInfo} n [] ≡ []
take-nil zero = refl
take-nil (suc n) = refl

take_none : (n : ℕ) (xs : List FileInfo) → n ≡ 0 → take n xs ≡ []
take_none n xs h = ap (λ k. take k xs) h

take_step :
    (n : ℕ) (x : FileInfo) (xs : List FileInfo) → 0 < n → take n (x ∷ xs) ≡ x ∷ take (n - 1) xs
take_step zero x xs h = absurd (omega (arith, h))
take_step (suc n) x xs h = ap (λ k. x ∷ take k xs) (omega arith)

both :
    {fs gs : List FileInfo} {b c : Bool}
    → fs ≡ gs
    → b ≡ c
    → ◌≡◌ {A = List FileInfo × Bool} (fs, b) (gs, c)
both p q = λ i. (p i, q i)

abbrev IsReadable : Entry → Type 0
IsReadable e = e.readable ≡ true

-- The limit is reached.
full_files :
    (max : ℕ) (files : List FileInfo) (x : FileInfo) (v : List FileInfo)
    → length files ≤ max
    → leb max (length files) ≡ true
    → ◌≡◌ {A = List FileInfo × Bool}
        (files, true)
        (files ++ take (max - length files) (x ∷ v), ltb max (length files + suc (length v)))
full_files max files x v h full =
    both
      (sym (append-nil files)
        ∙ ap (λ l. files ++ l) (sym (take_none (max - length files) (x ∷ v) (ground arith))))
      (ground arith)

more_files :
    (max : ℕ) (files : List FileInfo) (x : FileInfo) (v : List FileInfo)
    → leb max (length files) ≡ false
    → ◌≡◌ {A = List FileInfo × Bool}
        (
          (files ++ x ∷ []) ++ take (max - length (files ++ x ∷ [])) v,
          ltb max (length (files ++ x ∷ []) + length v),
        )
        (files ++ take (max - length files) (x ∷ v), ltb max (length files + suc (length v)))
more_files max files x v room =
    let size : length (files ++ x ∷ []) ≡ length files + 1 = length-append files (x ∷ []) in
    both
      (append_assoc files (x ∷ []) (take (max - length (files ++ x ∷ [])) v)
        ∙ ap (λ l. files ++ l)
            (ap (λ k. x ∷ take k v) (omega (arith, size))
              ∙ sym (take_step (max - length files) x v (ground arith))))
      (ap (ltb max) (omega (arith, size)))

list_entries_from :
    (rel : String) (es : List Entry) (files : List FileInfo)
    → All IsReadable es
    → length files ≤ max_list_entries
    → list_entries rel es files ≡ (
      files ++ take (max_list_entries - length files) (visible rel es),
      ltb max_list_entries (length files + length (visible rel es)),
    )
unfolding list_entries
list_entries_from rel [] files all h =
    both
      (sym (append-nil files)
        ∙ ap (λ l. files ++ l) (sym (take-nil (max_list_entries - length files))))
      (ground arith)
list_entries_from rel (e ∷ es) files (readable, all) h = elim (Bool-cases (is_skipped rel e)) [
  | inl skipped ↦ rw skipped (list_entries_from rel es files all h)
  | inr shown ↦ rw shown (elim (Bool-cases (leb max_list_entries (length files))) [
    | inl full ↦ rw full (full_files max_list_entries files (info_of rel e) (visible rel es) h full)
    | inr room ↦
        rw (room, readable)
          (list_entries_from rel es (files ++ info_of rel e ∷ []) all
              (ground (arith, length-append files (info_of rel e ∷ [])))
            ∙ more_files max_list_entries files (info_of rel e) (visible rel es) room)
  ])
]

-- If every entry can be read, a listing gives the first 500 of the entries that a reader may see,
-- in their order, and says that it was cut exactly if there are more.
pub list_entries_lem :
    (rel : String) (es : List Entry)
    → All IsReadable es
    → list_entries rel es []
      ≡ (take max_list_entries (visible rel es), ltb max_list_entries (length (visible rel es)))
list_entries_lem rel es all =
    list_entries_from rel es [] all (omega arith)
    ∙ both (ap (λ k. take k (visible rel es)) (omega arith))
        (ap (ltb max_list_entries) (omega arith))
