-- ===== src/Files/Writing.antt =====
-- `WriteFileFrom` of homefs/service.go. The files are a map from cleaned paths;
-- directories are not kept, so that making them changes nothing. What a step of the file system
-- answers is an argument: it may fail for reasons that are not modelled.
use Prim.Native.Nat.{bit_and, bit_or}
use hostit.Common.{
  ℕ, ◌+◌, ◌%◌, String, Bool, true, false, List, [], ◌∷◌, ◌++◌, Option, none, some, ◌||◌, not, ◌==◌,
  ltb, if◌then◌else◌, str_eq, lookup, length, string_append, take,
}
use hostit.Files.{
  Checked, accepted, rejected, PathError, max_upload_size, temp_prefix, safe_rel, split_slash,
  join_slash,
}

-- `mode.Perm() | 0o600` without the bits 0o022
unfoldable pub file_mode : ℕ → ℕ
file_mode mode = if mode == 0 then 420 else bit_and (bit_or (mode % 512) 384) 493

pub record File : Type 0 where
  pub content : List ℕ
  pub mode : ℕ

abbrev pub Files : Type 0
Files = List (String × File)

unfoldable pub remove_file : String → Files → Files
remove_file path [] = []
remove_file path ((p, f) ∷ files) =
    let rest = remove_file path files in if str_eq p path then rest else (p, f) ∷ rest

unfoldable pub put_file : String → File → Files → Files
unfolding remove_file
put_file path f files = (path, f) ∷ remove_file path files

unfoldable pub rename_found : String → String → Option File → Files → Option Files
unfolding put_file remove_file
rename_found from to none files = none
rename_found from to (some f) files = some (put_file to f (remove_file from files))

-- `Rename`, which replaces a file at the new path
unfoldable pub rename_file : String → String → Files → Option Files
unfolding rename_found
rename_file from to files = rename_found from to (lookup from files) files

-- Which steps of an upload the file system carries out.
pub record Steps : Type 0 where
  pub opens_root : Bool
  pub makes_parents : Bool
  pub opens_file : Bool
  pub copies : Bool
  pub closes : Bool
  pub changes_mode : Bool
  pub renames : Bool
  pub removes_scratch : Bool

pub data Outcome : Type 0 where
  wrote : Outcome
  bad_path : PathError → Outcome
  too_big : Outcome
  io_failed : Outcome

abbrev pub is_free : Option File → Bool
is_free none = true
is_free (some f) = false

unfoldable pub renamed : String → Files → Option Files → Outcome × Files
renamed tmp files none = (io_failed, files)
renamed tmp files (some files') = (wrote, files')

-- From the scratch file on: what was read of the body is in it.
unfoldable pub finish_upload : Steps → String → String → List ℕ → ℕ → ℕ → Files → Outcome × Files
unfolding renamed rename_file put_file file_mode
finish_upload steps rel tmp body written mode files =
    if not steps.copies || not steps.closes
    then (io_failed, files)
    else if ltb max_upload_size written
    then (too_big, files)
    else if not steps.changes_mode || not steps.renames
    then (io_failed, files)
    else renamed tmp files (
        rename_file tmp rel (put_file tmp (record { content = body; mode = file_mode mode }) files))

-- The deferred removal of the scratch file, which does nothing once it is renamed; its failure
-- changes no answer.
unfoldable pub without_scratch : Bool → String → Outcome × Files → Outcome × Files
unfolding remove_file
without_scratch removes tmp (o, files) = (o, if removes then remove_file tmp files else files)

-- The copy stops one byte past the largest size.
unfoldable pub upload_opened : Steps → String → String → List ℕ → ℕ → Files → Outcome × Files
unfolding without_scratch finish_upload put_file file_mode max_upload_size
upload_opened steps rel tmp body mode files =
    let copied = take (max_upload_size + 1) body in
    without_scratch steps.removes_scratch tmp (
      finish_upload steps rel tmp copied (length copied) mode
        (put_file tmp (record { content = copied; mode = file_mode mode }) files))

unfoldable pub all_but_last : List String → List String
all_but_last [] = []
all_but_last (p ∷ []) = []
all_but_last (p ∷ (q ∷ ps)) = p ∷ all_but_last (q ∷ ps)

-- `path.Join(path.Dir(rel), tempPrefix+randomSuffix())`, of a cleaned path
unfoldable pub scratch_of : String → String → String
unfolding all_but_last split_slash join_slash temp_prefix
scratch_of rel suffix =
    join_slash (all_but_last (split_slash rel) ++ string_append temp_prefix suffix ∷ [])

unfoldable pub upload_checked : Steps → Checked → String → List ℕ → ℕ → Files → Outcome × Files
unfolding upload_opened scratch_of
upload_checked steps (rejected why) suffix body mode files = (bad_path why, files)
upload_checked steps (accepted rel) suffix body mode files =
    if not steps.opens_root || not steps.makes_parents
    then (io_failed, files)
    else if not steps.opens_file || not (is_free (lookup (scratch_of rel suffix) files))
    then (io_failed, files)
    else upload_opened steps rel (scratch_of rel suffix) body mode files

-- `WriteFileFrom`, with the random end of the scratch file's name and the whole body of the
-- request
unfoldable pub write_file_from : Steps → String → String → List ℕ → ℕ → Files → Outcome × Files
unfolding upload_checked safe_rel
write_file_from steps rel_path suffix body mode files =
    upload_checked steps (safe_rel rel_path) suffix body mode files
