-- ===== src/Files/Calls.antt =====
-- That no call of homefs/service.go changes a file of a directory that hostit manages.
use hostit.Common.{ℕ, String, Bool, true, false, List, [], ◌∷◌, ◌≡◌, refl, ◌∙◌, lookup, All}
use hostit.Files.{safe_rel, is_protected}
use hostit.Files.Paths.{has_slash}
use hostit.Files.Writing.{Files, Steps, write_file_from}
use hostit.Files.Atomic.{write_file_from-Landed}
use hostit.Files.Changing.{Deletion, Move, delete_file, move_file}
use hostit.Files.Extracting.{TarEntry, extract_tar}
use hostit.Files.Unpacking.{IsExact, extract_tar-Unpacked}
use hostit.Files.Protected.{safe_rel-apart, scratch_of-free}
use hostit.Files.Keeping.{
  Keeps, IsApart, delete_checked-Keeps, move_checked-Keeps, Landed-Keeps, Unpacked-Keeps,
}

-- The calls that change an app's files, with what the file system makes of each.
pub data Call : Type 0 where
  upload : Steps → String → String → List ℕ → ℕ → Call
  deletion : Deletion → String → Call
  move : Move → String → String → Call
  archive : Bool → Bool → List TarEntry → Call

unfoldable pub act : Call → Files → Files
unfolding write_file_from delete_file move_file extract_tar
act (upload steps rel_path suffix body mode) files =
    (write_file_from steps rel_path suffix body mode files).1
act (deletion d rel_path) files = (delete_file d rel_path files).1
act (move m from_rel to_rel) files = (move_file m from_rel to_rel files).1
act (archive opens_root ends es) files = (extract_tar opens_root ends es files).1

unfoldable pub act_all : List Call → Files → Files
unfolding act
act_all [] files = files
act_all (c ∷ cs) files = act_all cs (act c files)

-- The random end of a scratch file's name has no slash, and an archive's reader gives as many bytes
-- of a file as its header says, or fails.
abbrev pub IsDocumented : Call → Type 0
IsDocumented (upload steps rel_path suffix body mode) = has_slash suffix ≡ false
IsDocumented (deletion d rel_path) = Unit {0}
IsDocumented (move m from_rel to_rel) = Unit {0}
IsDocumented (archive opens_root ends es) = All IsExact es

module _ (path : String) (managed : is_protected path ≡ true) where
  IsApart-safe_rel : (rel_path : String) → IsApart path (safe_rel rel_path)
  IsApart-safe_rel rel_path rel ok = safe_rel-apart rel_path ok path managed

  act-Keeps : (c : Call) (files : Files) → IsDocumented c → Keeps path files (act c files)
  unfolding act delete_file move_file
  act-Keeps (upload steps rel_path suffix body mode) files h =
      Landed-Keeps steps.removes_scratch (safe_rel rel_path) suffix body mode path files _
        (IsApart-safe_rel rel_path) (scratch_of-free rel_path suffix h path managed)
        (write_file_from-Landed steps rel_path suffix body mode files h)
  act-Keeps (deletion d rel_path) files h =
      delete_checked-Keeps d (safe_rel rel_path) path files (IsApart-safe_rel rel_path)
  act-Keeps (move m from_rel to_rel) files h =
      move_checked-Keeps m (safe_rel from_rel) (safe_rel to_rel) path files
        (IsApart-safe_rel from_rel) (IsApart-safe_rel to_rel)
  act-Keeps (archive opens_root ends es) files h =
      Unpacked-Keeps _ es path files _ IsApart-safe_rel
        (extract_tar-Unpacked opens_root ends es files h)

-- After any uploads, deletions, moves and archives, whichever steps of them fail and half-way, a
-- file of a directory that hostit manages is there as it was, and none has come. The random end of
-- a scratch file's name has no slash, and an archive's reader gives as many bytes of a file as its
-- header says, or fails.
pub act_all-Keeps :
    (path : String)
    → is_protected path ≡ true
    → (cs : List Call) (files : Files) → All IsDocumented cs
    → lookup path (act_all cs files) ≡ lookup path files
unfolding act_all
act_all-Keeps path managed [] files all = refl
act_all-Keeps path managed (c ∷ cs) files (h, all) =
    act_all-Keeps path managed cs (act c files) all ∙ act-Keeps path managed c files h
