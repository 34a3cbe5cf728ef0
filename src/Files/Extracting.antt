-- ===== src/Files/Extracting.antt =====
-- `ExtractTar` of homefs/service.go, on the files of Files/Writing.antt. The tar format is a
-- library's: an archive is the entries that its reader gives, and whether it ends as it should.
use hostit.Common.{
  ℕ, ◌%◌, ◌^◌, String, Bool, List, [], ◌∷◌, ◌++◌, Option, none, some, ◌||◌, not, ltb, if◌then◌else◌,
  lookup, take,
}
use hostit.Files.{Checked, accepted, rejected, PathError, max_upload_size, safe_rel}
use hostit.Files.Writing.{File, Files, file_mode, put_file}

pub data TypeFlag : Type 0 where
  directory regular_file other_type : TypeFlag

-- An entry's header, the bytes that can be read of it, and which steps of the file system are
-- carried out for it. A new file gets its mode less what the process masks, `created_mode`.
pub record TarEntry : Type 0 where
  pub type_flag : TypeFlag
  pub name : String
  pub size : ℕ
  pub mode : ℕ
  pub body : List ℕ
  pub makes_parents : Bool
  pub opens_file : Bool
  pub copies : Bool
  pub closes : Bool
  pub changes_mode : Bool
  pub created_mode : ℕ

pub data TarError : Type 0 where
  broken_archive entry_too_big unsupported_type tar_io_failed : TarError
  bad_name : PathError → TarError

pub data Extracted : Type 0 where
  extracted : List String → Extracted
  tar_failed : TarError → Extracted

-- `fileMode(os.FileMode(header.Mode))`, with a file mode's 32 bits
unfoldable pub entry_mode : TarEntry → ℕ
unfolding file_mode
entry_mode e = file_mode (e.mode % 2 ^ 32)

-- Opening a file that is there leaves its mode.
unfoldable pub opened_mode : TarEntry → Option File → ℕ
opened_mode e none = e.created_mode
opened_mode e (some f) = f.mode

unfoldable pub unpacked_file : TarEntry → File
unfolding entry_mode max_upload_size
unpacked_file e = record { content = take max_upload_size e.body; mode = entry_mode e }

unfoldable pub half_unpacked : TarEntry → String → Files → Files
unfolding opened_mode put_file max_upload_size
half_unpacked e rel files =
    put_file rel
      (record { content = take max_upload_size e.body; mode = opened_mode e (lookup rel files) })
      files

abbrev pub Rest : Type 0
Rest = List String → Files → Extracted × Files

-- One regular file, and what comes after it
unfoldable pub extract_file : Rest → TarEntry → Checked → List String → Files → Extracted × Files
unfolding half_unpacked unpacked_file put_file max_upload_size
extract_file rest e (rejected why) written files = (tar_failed (bad_name why), files)
extract_file rest e (accepted rel) written files =
    if ltb max_upload_size e.size
    then (tar_failed entry_too_big, files)
    else if not e.makes_parents || not e.opens_file
    then (tar_failed tar_io_failed, files)
    else if not e.copies || not e.closes || not e.changes_mode
    then (tar_failed tar_io_failed, half_unpacked e rel files)
    else rest (written ++ rel ∷ []) (put_file rel (unpacked_file e) files)

unfoldable pub extract_directory : Rest → Checked → List String → Files → Extracted × Files
extract_directory rest (rejected why) written files = (tar_failed (bad_name why), files)
extract_directory rest (accepted rel) written files = rest written files

unfoldable pub extract_entry : Rest → TarEntry → TypeFlag → List String → Files → Extracted × Files
unfolding extract_file extract_directory safe_rel
extract_entry rest e directory written files =
    extract_directory rest (safe_rel e.name) written files
extract_entry rest e regular_file written files =
    extract_file rest e (safe_rel e.name) written files
extract_entry rest e other_type written files = (tar_failed unsupported_type, files)

-- The loop over the entries, and whether the archive ends after them
unfoldable pub extract_from : Bool → List TarEntry → List String → Files → Extracted × Files
unfolding extract_entry
extract_from ends [] written files =
    (if ends then extracted written else tar_failed broken_archive, files)
extract_from ends (e ∷ es) written files =
    extract_entry (extract_from ends es) e e.type_flag written files

-- `ExtractTar`
unfoldable pub extract_tar : Bool → Bool → List TarEntry → Files → Extracted × Files
unfolding extract_from
extract_tar opens_root ends es files =
    if not opens_root then (tar_failed tar_io_failed, files) else extract_from ends es [] files
