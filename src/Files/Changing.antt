-- ===== src/Files/Changing.antt =====
-- `FileExists`, `DeleteFile` and `MoveFile` of homefs/service.go, on the files of Files/Writing.antt.
-- A directory is there if something is in it; whether an empty one is, the caller says.
use hostit.Common.{
  String, Bool, true, false, [], ◌∷◌, Option, none, some, ◌||◌, not, if◌then◌else◌, str_eq,
  string_append,
}
use hostit.Common.Text.{strip_prefix}
use hostit.Files.{Checked, accepted, rejected, PathError, safe_rel, is_below}
use hostit.Files.Writing.{Files}

pub data Change : Type 0 where
  changed : Change
  refused_path : PathError → Change
  file_exists_there : Change
  change_failed : Change

-- A file or a directory
unfoldable pub exists_at : String → Files → Bool
exists_at rel [] = false
exists_at rel ((p, f) ∷ files) = is_below p rel || exists_at rel files

unfoldable pub file_exists_checked : Bool → Bool → Checked → Files → Bool
unfolding exists_at
file_exists_checked opens_root empty_there (rejected why) files = false
file_exists_checked opens_root empty_there (accepted rel) files =
    if not opens_root then false else empty_there || exists_at rel files

-- `FileExists`, where an empty directory may be there
unfoldable pub file_exists : Bool → Bool → String → Files → Bool
unfolding file_exists_checked safe_rel
file_exists opens_root empty_there rel_path files =
    file_exists_checked opens_root empty_there (safe_rel rel_path) files

-- `RemoveAll`, which takes away of a directory what the test says
unfoldable pub remove_below : (String → Bool) → String → Files → Files
remove_below takes rel [] = []
remove_below takes rel ((p, f) ∷ files) =
    let rest = remove_below takes rel files in
    if is_below p rel then (if takes p then rest else (p, f) ∷ rest) else (p, f) ∷ rest

-- Which steps of a deletion the file system carries out; one that fails half-way has taken away
-- some files.
pub record Deletion : Type 0 where
  pub opens_root : Bool
  pub removes : Bool
  pub half_way : String → Bool

unfoldable pub delete_checked : Deletion → Checked → Files → Change × Files
unfolding remove_below
delete_checked d (rejected why) files = (refused_path why, files)
delete_checked d (accepted rel) files =
    if not d.opens_root
    then (change_failed, files)
    else if d.removes
    then (changed, remove_below (λ p. true) rel files)
    else (change_failed, remove_below d.half_way rel files)

-- `DeleteFile`
unfoldable pub delete_file : Deletion → String → Files → Change × Files
unfolding delete_checked safe_rel
delete_file d rel_path files = delete_checked d (safe_rel rel_path) files

unfoldable pub place_below : String → String → Option String → String
place_below to p none = p
place_below to p (some rest) = string_append to (string_append "/" rest)

-- Where a file is after its directory, or itself, is renamed
unfoldable pub place : String → String → String → String
unfolding place_below strip_prefix
place from to p =
    if str_eq p from then to else place_below to p (strip_prefix p (string_append from "/"))

unfoldable pub rename_all : String → String → Files → Files
unfolding place
rename_all from to [] = []
rename_all from to ((p, f) ∷ files) = (place from to p, f) ∷ rename_all from to files

pub record Move : Type 0 where
  pub opens_root : Bool
  pub empty_directory_there : Bool
  pub moves_empty_directory : Bool
  pub makes_parents : Bool
  pub renames : Bool

-- A rename of something that is not there fails, and one into itself.
unfoldable pub move_checked : Move → Checked → Checked → Files → Change × Files
unfolding exists_at rename_all
move_checked m (rejected why) to files = (refused_path why, files)
move_checked m (accepted from) (rejected why) files = (refused_path why, files)
move_checked m (accepted from) (accepted to) files =
    if not m.opens_root
    then (change_failed, files)
    else if m.empty_directory_there || exists_at to files
    then (file_exists_there, files)
    else if not m.makes_parents
        || not m.renames
        || not (m.moves_empty_directory || exists_at from files)
        || is_below to from
    then (change_failed, files)
    else (changed, rename_all from to files)

-- `MoveFile`
unfoldable pub move_file : Move → String → String → Files → Change × Files
unfolding move_checked safe_rel
move_file m from_rel to_rel files = move_checked m (safe_rel from_rel) (safe_rel to_rel) files
