-- ===== src/Files/Atomic.antt =====
-- That an upload is done or leaves no trace.
use hostit.Common.{
  ℕ, zero, suc, ◌+◌, ◌≤◌, ◌<◌, String, Bool, true, false, List, [], ◌∷◌, ◌++◌, none, some, ◌≡◌, ◌≢◌,
  ◌⊎◌, inl, inr, refl, ap, sym, subst, ◌∙◌, arith, Bool-cases, Option-cases, if_elim, ◌||◌, not,
  ltb, if◌then◌else◌, str_eq, str_eq_self, str_eq→eq, str_neq, lookup, length, string_append, take,
  has_prefix, All,
}
use text.Mathlib.TextEquality.{eq_iff}
use text.Mathlib.TextLemmas.{nil-append, cons-append}
use text.Mathlib.TextPositions.{starts_with-append}
use hostit.Files.{
  Checked, accepted, rejected, PathError, max_upload_size, temp_prefix, safe_rel, split_slash,
  join_slash, last_of, base,
}
use hostit.Files.Paths.{
  has_slash, NoSlash, IsInside, split_slash-join_slash, split_slash-NoSlash, safe_rel-IsInside,
}
use hostit.Files.Writing.{
  File, Files, remove_file, put_file, rename_found, rename_file, Steps, Outcome, wrote, bad_path,
  too_big, io_failed, renamed, finish_upload, without_scratch, upload_opened, upload_checked,
  all_but_last, scratch_of, write_file_from, file_mode,
}

lookup-remove_file :
    (path other : String) (files : Files)
    → lookup other (remove_file path files)
      ≡ (if str_eq path other then none else lookup other files)
unfolding remove_file
lookup-remove_file path other [] = ground arith
lookup-remove_file path other ((p, f) ∷ files) =
    ground
      (arith, lookup-remove_file path other files, eq_iff p path, eq_iff p other, eq_iff path other)

pub lookup-put_file :
    (path other : String) (f : File) (files : Files)
    → lookup other (put_file path f files)
      ≡ (if str_eq path other then some f else lookup other files)
unfolding put_file
lookup-put_file path other f files = ground (arith, lookup-remove_file path other files)

-- Nothing is there that was not there before, and nothing is missing.
abbrev pub SameFiles : Files → Files → Type 0
SameFiles files files' = (path : String) → lookup path files' ≡ lookup path files

-- A scratch file that was not there before leaves no trace.
scratch_gone :
    (tmp : String) (f : File) (files : Files)
    → lookup tmp files ≡ none
    → SameFiles files (remove_file tmp (put_file tmp f files))
scratch_gone tmp f files new path =
    lookup-remove_file tmp path (put_file tmp f files)
    ∙ ap (λ o. if str_eq tmp path then none else o) (lookup-put_file tmp path f files)
    ∙ elim (Bool-cases (str_eq tmp path)) [
      | inl here ↦ rw here (sym new ∙ ap (λ p. lookup p files) (str_eq→eq tmp path here))
      | inr other ↦ rw other refl
    ]

take_all : (k : ℕ) (xs : List ℕ) → length (take k xs) < k → (take k xs ≡ xs) × (length xs < k)
take_all zero xs h = absurd (omega (arith, h))
take_all (suc k) [] h = (refl, omega arith)
take_all (suc k) (x ∷ xs) h =
    let (same, short) = take_all k xs (omega (arith, h)) in (ap (λ l. x ∷ l) same, omega arith)

-- The file is there, whole and with its mode, and every other one as it was.
abbrev pub Stored : String → List ℕ → ℕ → Files → Files → Type 0
Stored rel body mode files files' =
    (length body ≤ max_upload_size)
    × (lookup rel files' ≡ some (record { content = body; mode = file_mode mode }))
    × ((path : String) → str_eq rel path ≡ false → lookup path files' ≡ lookup path files)

-- A failure leaves everything as it was, unless the scratch file's removal fails too: then that file
-- may be left.
abbrev pub IsAtomic : Bool → String → String → List ℕ → ℕ → Files → Outcome × Files → Type 0
IsAtomic removes tmp rel body mode files r =
    ((r.0 ≡ wrote) × Stored rel body mode files r.1)
    ⊎ ((r.0 ≢ wrote)
        × ((path : String)
            → (removes ≡ true) ⊎ (str_eq tmp path ≡ false)
            → lookup path r.1 ≡ lookup path files))

failed-ne-wrote : io_failed ≢ wrote
failed-ne-wrote e = cc

big-ne-wrote : too_big ≢ wrote
big-ne-wrote e = cc

module _ (tmp : String) (files : Files) (new : lookup tmp files ≡ none) where
  absent : (path : String) → str_eq tmp path ≡ true → lookup path files ≡ none
  absent path e = ap (λ p. lookup p files) (sym (str_eq→eq tmp path e)) ∙ new

  module _ (rel : String) (f : File) (apart : str_eq tmp rel ≡ false) where
    lookup_renamed :
        (path : String)
        → lookup path (put_file rel f (remove_file tmp (put_file tmp f (put_file tmp f files))))
          ≡ (if str_eq rel path then some f else lookup path files)
    lookup_renamed path =
        let scratch = put_file tmp f (put_file tmp f files) in
        ground (
          arith,
          lookup-put_file rel path f (remove_file tmp scratch),
          lookup-remove_file tmp path scratch,
          lookup-put_file tmp path f (put_file tmp f files),
          lookup-put_file tmp path f files,
          absent path,
          eq_iff tmp path,
          eq_iff rel path,
          eq_iff tmp rel,
        )

    -- The deferred removal changes nothing then, whether it succeeds or not.
    lookup_cleaned :
        (removes : Bool) (path : String)
        → lookup path (
            if removes
            then remove_file tmp
                (put_file rel f (remove_file tmp (put_file tmp f (put_file tmp f files))))
            else put_file rel f (remove_file tmp (put_file tmp f (put_file tmp f files))))
          ≡ (if str_eq rel path then some f else lookup path files)
    lookup_cleaned false path = lookup_renamed path
    lookup_cleaned true path = ground (
      arith,
      lookup-remove_file tmp path
          (put_file rel f (remove_file tmp (put_file tmp f (put_file tmp f files)))),
      lookup_renamed path,
      absent path,
      eq_iff tmp path,
      eq_iff rel path,
      eq_iff tmp rel,
    )

    rename_scratch :
        rename_file tmp rel (put_file tmp f (put_file tmp f files))
        ≡ some (put_file rel f (remove_file tmp (put_file tmp f (put_file tmp f files))))
    unfolding rename_file rename_found
    rename_scratch =
        let there : lookup tmp (put_file tmp f (put_file tmp f files)) ≡ some f =
          lookup-put_file tmp tmp f (put_file tmp f files) ∙ rw (str_eq_self tmp) refl in
        rw there refl

module _ (steps : Steps) (rel tmp : String) (body : List ℕ) (mode : ℕ) (files : Files)
    (new : lookup tmp files ≡ none) (apart : str_eq tmp rel ≡ false) where
  scratch : File
  scratch = record { content = body; mode = file_mode mode }

  stored_by_rename :
      length body ≤ max_upload_size
      → IsAtomic steps.removes_scratch tmp rel body mode files (
          without_scratch steps.removes_scratch tmp (
            renamed tmp
              (put_file tmp scratch files)
              (rename_file tmp rel (put_file tmp scratch (put_file tmp scratch files)))))
  unfolding without_scratch renamed scratch
  stored_by_rename short = rw (rename_scratch tmp files new rel scratch apart) (
      inl (
        refl,
        (
          short,
          lookup_cleaned tmp files new rel scratch apart steps.removes_scratch rel
              ∙ rw (str_eq_self rel) refl,
          λ path other.
              lookup_cleaned tmp files new rel scratch apart steps.removes_scratch path
              ∙ rw other refl,
        ),
      ))

  cleaned :
      (removes : Bool) (path : String) (f : File)
      → (removes ≡ true) ⊎ (str_eq tmp path ≡ false)
      → lookup path
          (if removes then remove_file tmp (put_file tmp f files) else put_file tmp f files)
        ≡ lookup path files
  cleaned true path f h = scratch_gone tmp f files new path
  cleaned false path f (inl removed) = cc removed
  cleaned false path f (inr other) = lookup-put_file tmp path f files ∙ rw other refl

  undone :
      (o : Outcome) (f : File)
      → o ≢ wrote
      → IsAtomic steps.removes_scratch tmp rel body mode files
          (without_scratch steps.removes_scratch tmp (o, put_file tmp f files))
  unfolding without_scratch
  undone o f other = inr (other, λ path h. cleaned steps.removes_scratch path f h)

  finish_upload-IsAtomic :
      (copied : List ℕ)
      → copied ≡ take (max_upload_size + 1) body
      → IsAtomic steps.removes_scratch tmp rel body mode files (
          without_scratch steps.removes_scratch tmp (
            finish_upload steps rel tmp copied
              (length copied)
              mode
              (put_file tmp (record { content = copied; mode = file_mode mode }) files)))
  unfolding finish_upload scratch
  finish_upload-IsAtomic copied e =
      let f : File = record { content = copied; mode = file_mode mode } in
      let atomic = λ (r : Outcome × Files).
        IsAtomic steps.removes_scratch tmp rel body mode files
          (without_scratch steps.removes_scratch tmp r) in
      let failed = undone io_failed f failed-ne-wrote in
      if_elim atomic (not steps.copies || not steps.closes) failed
        (elim (Bool-cases (ltb max_upload_size (length copied))) [
          | inl long ↦ rw long (undone too_big f big-ne-wrote)
          | inr fits ↦
              let (whole, short) =
                take_all (max_upload_size + 1) body
                  (subst (λ l. length l < max_upload_size + 1) e (ground arith)) in
              rw fits (
                if_elim atomic (not steps.changes_mode || not steps.renames) failed (
                  subst
                    (λ l. atomic (
                      renamed tmp
                        (put_file tmp (record { content = l; mode = file_mode mode }) files)
                        (rename_file tmp rel (
                          put_file tmp (record { content = l; mode = file_mode mode })
                            (put_file tmp (record { content = l; mode = file_mode mode }) files)))))
                    (sym (e ∙ whole)) (stored_by_rename (ground arith))))
        ])

  upload_opened-IsAtomic :
      IsAtomic steps.removes_scratch tmp rel body mode files
        (upload_opened steps rel tmp body mode files)
  unfolding upload_opened
  upload_opened-IsAtomic = finish_upload-IsAtomic (take (max_upload_size + 1) body) refl

pub has_slash-append : (a b : String) → has_slash (string_append a b) ≡ has_slash a || has_slash b
unfolding has_slash
has_slash-append String.[] b = rw nil-append refl
has_slash-append (String.◌∷◌ c a) b = rw cons-append (rw (has_slash-append a b) (ground arith))

pub All-all_but_last :
    (ps : List String) (t : String)
    → All NoSlash ps
    → NoSlash t
    → All NoSlash (all_but_last ps ++ t ∷ [])
unfolding all_but_last
All-all_but_last [] t h k = (k, tt)
All-all_but_last (p ∷ []) t h k = (k, tt)
All-all_but_last (p ∷ (q ∷ ps)) t (g, h) k = (g, All-all_but_last (q ∷ ps) t h k)

last_of-append : (ps : List String) (t : String) → last_of (ps ++ t ∷ []) ≡ t
unfolding last_of
last_of-append [] t = refl
last_of-append (p ∷ []) t = refl
last_of-append (p ∷ (q ∷ ps)) t = last_of-append (q ∷ ps) t

base-join_slash :
    (ps : List String) (t : String)
    → All NoSlash (ps ++ t ∷ [])
    → base (join_slash (ps ++ t ∷ [])) ≡ t
unfolding base
base-join_slash [] t h = ap last_of (split_slash-join_slash t [] h)
base-join_slash (p ∷ ps) t h =
    ap last_of (split_slash-join_slash p (ps ++ t ∷ []) h) ∙ last_of-append (p ∷ ps) t

pub prefix-NoSlash : (has_slash temp_prefix || false) ≡ false
unfolding has_slash temp_prefix
prefix-NoSlash = refl

-- The scratch file's name begins as no other file's name may.
base-scratch_of :
    (rel suffix : String)
    → has_slash suffix ≡ false
    → has_prefix (base (scratch_of rel suffix)) temp_prefix ≡ true
unfolding scratch_of temp_prefix
base-scratch_of rel suffix h =
    let name = string_append temp_prefix suffix in
    let plain : has_slash name ≡ false =
      has_slash-append temp_prefix suffix ∙ rw h prefix-NoSlash in
    ap (λ b. has_prefix b temp_prefix)
      (base-join_slash (all_but_last (split_slash rel)) name
        (All-all_but_last (split_slash rel) name (split_slash-NoSlash rel) plain))
    ∙ starts_with-append temp_prefix suffix

safe-base : (ps : List String) → IsInside ps → has_prefix (last_of ps) temp_prefix ≡ false
safe-base [] h = absurd h
safe-base (p ∷ ps) h = h.2

scratch_of-apart :
    (rel_path rel suffix : String)
    → safe_rel rel_path ≡ accepted rel
    → has_slash suffix ≡ false
    → str_eq (scratch_of rel suffix) rel ≡ false
unfolding base
scratch_of-apart rel_path rel suffix ok h = str_neq (scratch_of rel suffix) rel (λ e.
    let (ps, splits, inside) = safe_rel-IsInside rel_path ok in
    let own : has_prefix (base rel) temp_prefix ≡ false =
      ap (λ l. has_prefix (last_of l) temp_prefix) splits ∙ safe-base ps inside in
    let taken : has_prefix (base rel) temp_prefix ≡ true =
      ap (λ p. has_prefix (base p) temp_prefix) (sym e) ∙ base-scratch_of rel suffix h in
    cc (sym own ∙ taken))

bad-ne-wrote : (why : PathError) → bad_path why ≢ wrote
bad-ne-wrote why e = cc

-- A path that the scratch file of an upload does not have.
abbrev pub IsNoScratch : Checked → String → String → Type 0
IsNoScratch c suffix path =
    (rel : String) → c ≡ accepted rel → str_eq (scratch_of rel suffix) path ≡ false

abbrev pub Landed : Bool → Checked → String → List ℕ → ℕ → Files → Outcome × Files → Type 0
Landed removes c suffix body mode files r =
    ((rel : String) × (c ≡ accepted rel) × (r.0 ≡ wrote) × Stored rel body mode files r.1)
    ⊎ ((r.0 ≢ wrote)
        × ((path : String)
            → (removes ≡ true) ⊎ IsNoScratch c suffix path
            → lookup path r.1 ≡ lookup path files))

IsAtomic-Landed :
    (removes : Bool) (rel suffix : String) (body : List ℕ) (mode : ℕ) (files : Files)
    (r : Outcome × Files)
    → IsAtomic removes (scratch_of rel suffix) rel body mode files r
    → Landed removes (accepted rel) suffix body mode files r
IsAtomic-Landed removes rel suffix body mode files r (inl (done, stored)) =
    inl (rel, refl, done, stored)
IsAtomic-Landed removes rel suffix body mode files r (inr (failed, same)) = inr (
  failed,
  λ path h. same path (elim h [ inl removed ↦ inl removed | inr other ↦ inr (other rel refl) ]),
)

or_true : (b : Bool) → (b || true) ≡ true
or_true b = ground arith

upload_checked-Landed :
    (steps : Steps) (c : Checked) (suffix : String) (body : List ℕ) (mode : ℕ) (files : Files)
    → ((rel : String) → c ≡ accepted rel → str_eq (scratch_of rel suffix) rel ≡ false)
    → Landed steps.removes_scratch c suffix body mode files
        (upload_checked steps c suffix body mode files)
unfolding upload_checked
upload_checked-Landed steps (rejected why) suffix body mode files apart =
    inr (bad-ne-wrote why, λ path h. refl)
upload_checked-Landed steps (accepted rel) suffix body mode files apart =
    let tmp = scratch_of rel suffix in
    let landed = Landed steps.removes_scratch (accepted rel) suffix body mode files in
    let failed : landed (io_failed, files) = inr (failed-ne-wrote, λ path h. refl) in
    if_elim landed (not steps.opens_root || not steps.makes_parents) failed
      (elim (Option-cases (lookup tmp files)) [
        | inr (f, taken) ↦ rw taken (rw (or_true (not steps.opens_file)) failed)
        | inl new ↦ rw new (
            if_elim landed (not steps.opens_file || false) failed (
              IsAtomic-Landed steps.removes_scratch rel suffix body mode files
                (upload_opened steps rel tmp body mode files)
                (upload_opened-IsAtomic steps rel tmp body mode files new (apart rel refl))))
      ])

-- An upload is done or leaves no trace but its scratch file, whichever steps of the file system
-- fail: either the path is one that a caller may use, the body has the largest size at most, and
-- the file holds the whole body with its mode, every other file being as it was; or the upload is
-- refused, and every file is as it was, except that the scratch file may be left if its removal
-- fails as well. The random end of the scratch file's name has no slash.
pub write_file_from-Landed :
    (steps : Steps) (rel_path suffix : String) (body : List ℕ) (mode : ℕ) (files : Files)
    → has_slash suffix ≡ false
    → Landed steps.removes_scratch
        (safe_rel rel_path)
        suffix
        body
        mode
        files
        (write_file_from steps rel_path suffix body mode files)
unfolding write_file_from
write_file_from-Landed steps rel_path suffix body mode files h =
    upload_checked-Landed steps (safe_rel rel_path) suffix body mode files
      (λ rel ok. scratch_of-apart rel_path rel suffix ok h)
