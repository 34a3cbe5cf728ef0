-- ===== src/Files/Unpacking.antt =====
-- What is left of an archive in an app's files.
use hostit.Common.{
  ℕ, zero, suc, ◌≤◌, String, Bool, true, false, List, [], ◌∷◌, ◌++◌, Option, none, some, ◌≡◌, ◌⊎◌,
  inl, inr, refl, ap, sym, ◌∙◌, arith, Bool-cases, ◌||◌, not, ltb, if◌then◌else◌, str_eq, lookup,
  contains, length, take, All,
}
use mathlib.Core.List.{append_assoc, append-nil}
use hostit.Files.{Checked, accepted, rejected, max_upload_size, safe_rel}
use hostit.Files.Writing.{File, Files, put_file}
use hostit.Files.Atomic.{lookup-put_file}
use hostit.Files.Extracting.{
  TypeFlag, directory, regular_file, other_type, TarEntry, TarError, broken_archive, entry_too_big,
  unsupported_type, tar_io_failed, bad_name, Extracted, extracted, tar_failed, entry_mode,
  unpacked_file, half_unpacked, Rest, extract_file, extract_directory, extract_entry, extract_from,
  extract_tar,
}

abbrev pub IsAccepted : Checked → Type 0
IsAccepted (accepted rel) = Unit {0}
IsAccepted (rejected why) = ⊥

abbrev pub IsWritten : TarEntry → Type 0
IsWritten e =
    (e.size ≤ max_upload_size)
    × (e.makes_parents ≡ true)
    × (e.opens_file ≡ true)
    × (e.copies ≡ true)
    × (e.closes ≡ true)
    × (e.changes_mode ≡ true)

-- A directory under a name that a caller may use; or such a file, of the largest size at most, of
-- which every step is carried out.
abbrev pub CanUnpack : TypeFlag → Checked → TarEntry → Type 0
CanUnpack directory c e = IsAccepted c
CanUnpack regular_file c e = IsAccepted c × IsWritten e
CanUnpack other_type c e = ⊥

-- The archive is whole, and so is each of its entries.
abbrev pub IsUnpackable : Bool → List TarEntry → Type 0
IsUnpackable ends [] = ends ≡ true
IsUnpackable ends (e ∷ es) = CanUnpack e.type_flag (safe_rel e.name) e × IsUnpackable ends es

abbrev pub path_of : TypeFlag → Checked → Option String
path_of regular_file (accepted rel) = some rel
path_of regular_file (rejected why) = none
path_of directory c = none
path_of other_type c = none

abbrev pub add_some : Option String → List String → List String
add_some none names = names
add_some (some p) names = p ∷ names

-- The paths of an archive's files.
abbrev pub names : List TarEntry → List String
names [] = []
names (e ∷ es) = add_some (path_of e.type_flag (safe_rel e.name)) (names es)

abbrev pub file_at : String → Option String → TarEntry → Option File
file_at path none e = none
file_at path (some rel) e =
    if str_eq rel path then some (record { content = e.body; mode = entry_mode e }) else none

abbrev pub or_else : Option File → Option File → Option File
or_else none o = o
or_else (some f) o = some f

-- The last file that the archive has for a path.
abbrev pub last_entry : String → List TarEntry → Option File
last_entry path [] = none
last_entry path (e ∷ es) =
    or_else (last_entry path es) (file_at path (path_of e.type_flag (safe_rel e.name)) e)

-- The reader of an archive gives as many bytes of a file as its header says, or fails.
abbrev pub IsExact : TarEntry → Type 0
IsExact e = e.copies ≡ true → length e.body ≡ e.size

module _ (P : Type 0) (paths : List String) (last : String → Option File) where
  abbrev pub Unpacked : List String → Files → Extracted × Files → Type 0
  Unpacked written files r =
      ((r.0 ≡ extracted (written ++ paths))
        × P
        × ((path : String) → lookup path r.1 ≡ or_else (last path) (lookup path files)))
      ⊎ (((why : TarError) × (r.0 ≡ tar_failed why))
          × (¬ P)
          × ((path : String) → contains paths path ≡ false → lookup path r.1 ≡ lookup path files))

take_all : (k : ℕ) (xs : List ℕ) → length xs ≤ k → take k xs ≡ xs
take_all zero [] h = refl
take_all zero (x ∷ xs) h = absurd (omega (arith, h))
take_all (suc k) [] h = refl
take_all (suc k) (x ∷ xs) h = ap (λ l. x ∷ l) (take_all k xs (omega (arith, h)))

unpacked_file-whole :
    (e : TarEntry)
    → length e.body ≤ max_upload_size
    → unpacked_file e ≡ record { content = e.body; mode = entry_mode e }
unfolding unpacked_file
unpacked_file-whole e h = rw (take_all max_upload_size e.body h) refl

or_else-if :
    (o p : Option File) (b : Bool) (f : File)
    → or_else o (if b then some f else p) ≡ or_else (or_else o (if b then some f else none)) p
or_else-if none p true f = refl
or_else-if none p false f = refl
or_else-if (some g) p b f = refl

or_else-none : (o p : Option File) → or_else o p ≡ or_else (or_else o none) p
or_else-none none p = refl
or_else-none (some f) p = refl

or_eq_false : (a b : Bool) → (a || b) ≡ false → (a ≡ false) × (b ≡ false)
or_eq_false a b h = ground arith

module _ (rest : Rest) (e : TarEntry) {P : Type 0} (paths : List String)
    (last : String → Option File)
    (later : (written : List String) (files : Files)
      → Unpacked P paths last written files (rest written files)) where
  -- The archive from an entry on: what it wants, its paths and its last files.
  abbrev From : TypeFlag → Checked → List String → Files → Extracted × Files → Type 0
  From flag c =
      Unpacked (CanUnpack flag c e × P) (add_some (path_of flag c) paths)
        (λ path. or_else (last path) (file_at path (path_of flag c) e))

  module _ (rel : String) (written : List String) (files : Files) where
    abbrev FromFile : Extracted × Files → Type 0
    FromFile = From regular_file (accepted rel) written files

    refused : (why : TarError) → ¬ IsWritten e → FromFile (tar_failed why, files)
    refused why h = inr ((why, refl), λ k. h k.0.1, λ path other. refl)

    left_half :
        (why : TarError) → ¬ IsWritten e → FromFile (tar_failed why, half_unpacked e rel files)
    unfolding half_unpacked
    left_half why h = inr (
      (why, refl),
      λ k. h k.0.1,
      λ path other.
          lookup-put_file rel path _ files
          ∙ rw (or_eq_false (str_eq rel path) (contains paths path) other).0 refl,
    )

    after_file :
        (r : Extracted × Files)
        → IsWritten e
        → unpacked_file e ≡ record { content = e.body; mode = entry_mode e }
        → Unpacked P paths last (written ++ rel ∷ []) (put_file rel (unpacked_file e) files) r
        → FromFile r
    after_file r steps whole (inl (done, all, look)) = inl (
      done ∙ ap extracted (append_assoc written (rel ∷ []) paths),
      ((tt, steps), all),
      λ path.
          look path
          ∙ ap (or_else (last path)) (
              lookup-put_file rel path (unpacked_file e) files
              ∙ ap (λ f. if str_eq rel path then some f else lookup path files) whole)
          ∙ or_else-if (last path) (lookup path files) (str_eq rel path) _,
    )
    after_file r steps whole (inr (why, never, keep)) = inr (
      why,
      λ k. never k.1,
      λ path other.
          let (apart, others) = or_eq_false (str_eq rel path) (contains paths path) other in
          keep path others ∙ lookup-put_file rel path (unpacked_file e) files ∙ rw apart refl,
    )

    extract_accepted : IsExact e → FromFile (extract_file rest e (accepted rel) written files)
    unfolding extract_file
    extract_accepted exact = elim (Bool-cases (ltb max_upload_size e.size)) [
      | inl long ↦ rw long (refused entry_too_big (λ h. absurd (ground (arith, h.0))))
      | inr fits ↦ rw fits (elim (Bool-cases (not e.makes_parents || not e.opens_file)) [
        | inl shut ↦ rw shut (refused tar_io_failed (λ h. absurd (ground arith)))
        | inr opened ↦
            rw opened (elim (Bool-cases (not e.copies || not e.closes || not e.changes_mode)) [
              | inl failed ↦ rw failed (left_half tar_io_failed (λ h. absurd (ground arith)))
              | inr closed ↦
                  let steps : IsWritten e = ground arith in
                  rw closed (
                    after_file _ steps
                      (unpacked_file-whole e (omega (arith, exact steps.3, steps.0)))
                      (later (written ++ rel ∷ []) (put_file rel (unpacked_file e) files)))
            ])
      ])
    ]

  extract_file-Unpacked :
      IsExact e
      → (c : Checked) (written : List String) (files : Files)
      → From regular_file c written files (extract_file rest e c written files)
  unfolding extract_file
  extract_file-Unpacked exact (rejected why) written files =
      inr ((bad_name why, refl), λ k. k.0.0, λ path other. refl)
  extract_file-Unpacked exact (accepted rel) written files =
      extract_accepted rel written files exact

  after_directory :
      (written : List String) (files : Files) (r : Extracted × Files) (rel : String)
      → Unpacked P paths last written files r
      → From directory (accepted rel) written files r
  after_directory written files r rel (inl (done, all, look)) =
      inl (done, (tt, all), λ path. look path ∙ or_else-none (last path) (lookup path files))
  after_directory written files r rel (inr (why, never, keep)) = inr (why, λ k. never k.1, keep)

  extract_directory-Unpacked :
      (c : Checked) (written : List String) (files : Files)
      → From directory c written files (extract_directory rest c written files)
  unfolding extract_directory
  extract_directory-Unpacked (rejected why) written files =
      inr ((bad_name why, refl), λ k. k.0, λ path other. refl)
  extract_directory-Unpacked (accepted rel) written files =
      after_directory written files _ rel (later written files)

  extract_entry-Unpacked :
      IsExact e
      → (flag : TypeFlag) (written : List String) (files : Files)
      → From flag (safe_rel e.name) written files (extract_entry rest e flag written files)
  unfolding extract_entry
  extract_entry-Unpacked exact directory written files =
      extract_directory-Unpacked (safe_rel e.name) written files
  extract_entry-Unpacked exact regular_file written files =
      extract_file-Unpacked exact (safe_rel e.name) written files
  extract_entry-Unpacked exact other_type written files =
      inr ((unsupported_type, refl), λ k. k.0, λ path other. refl)

extract_from-Unpacked :
    (ends : Bool) (es : List TarEntry)
    → All IsExact es
    → (written : List String) (files : Files)
    → Unpacked
        (IsUnpackable ends es)
        (names es)
        (λ path. last_entry path es)
        written
        files
        (extract_from ends es written files)
unfolding extract_from
extract_from-Unpacked true [] exact written files =
    inl (ap extracted (sym (append-nil written)), refl, λ path. refl)
extract_from-Unpacked false [] exact written files =
    inr ((broken_archive, refl), λ k. cc, λ path other. refl)
extract_from-Unpacked ends (e ∷ es) (exact, all) written files =
    extract_entry-Unpacked (extract_from ends es) e (names es) (λ path. last_entry path es)
      (extract_from-Unpacked ends es all) exact e.type_flag written files

opened :
    {P : Type 0} (paths : List String) (last : String → Option File) (files : Files)
    (r : Extracted × Files)
    → Unpacked P paths last [] files r
    → Unpacked ((◌≡◌ {A = Bool} true true) × P) paths last [] files r
opened paths last files r (inl (done, all, look)) = inl (done, (refl, all), look)
opened paths last files r (inr (why, never, keep)) = inr (why, λ k. never k.1, keep)

-- If an archive is whole, every entry is a directory or a file of the largest size at most under a
-- name that a caller may use, and the file system carries out every step, then unpacking it gives
-- the paths of its files in their order, and every path has the last file that the archive holds
-- for it, its whole body with its mode, or what it had before. Otherwise it fails, and every path
-- that is none of the archive's is as it was. A reader gives as many bytes of a file as its header
-- says, or fails.
pub extract_tar-Unpacked :
    (opens_root ends : Bool) (es : List TarEntry) (files : Files)
    → All IsExact es
    → Unpacked
        ((opens_root ≡ true) × IsUnpackable ends es)
        (names es)
        (λ path. last_entry path es)
        []
        files
        (extract_tar opens_root ends es files)
unfolding extract_tar
extract_tar-Unpacked false ends es files exact =
    inr ((tar_io_failed, refl), λ k. cc k.0, λ path other. refl)
extract_tar-Unpacked true ends es files exact =
    opened (names es) (λ path. last_entry path es) files (extract_from ends es [] files)
      (extract_from-Unpacked ends es exact [] files)
