-- ===== src/Files/Tests.antt =====
-- Uploads into a small app, and other changes of it.
use hostit.Common.{
  ℕ, Bool, All, lookup, String, true, false, List, [], ◌∷◌, ◌≡◌, refl, length, take, ltb,
}
use hostit.Files.{accepted, invalid_path, is_protected, safe_rel, split_slash, max_list_entries}
use hostit.Files.Paths.{has_slash, IsInside, safe_rel-IsInside}
use hostit.Files.Writing.{Files, Steps, write_file_from}
use hostit.Files.Atomic.{Landed, write_file_from-Landed}
use hostit.Files.Changing.{changed, Move, move_file}
use hostit.Files.Extracting.{
  TypeFlag, directory, regular_file, TarEntry, bad_name, extracted, tar_failed, extract_tar,
}
use hostit.Files.Unpacking.{
  IsUnpackable, names, last_entry, IsExact, Unpacked, extract_tar-Unpacked,
}
use hostit.Files.Calls.{Call, upload, deletion, move, archive, act_all, act_all-Keeps}
use hostit.Files.Listing.{Entry, list_entries, visible, list_entries_lem}

accepts : safe_rel "a/./b.txt" ≡ accepted "a/b.txt"
unfolding safe_rel
accepts = refl

safe_rel-IsInside_example : (ps : List String) × (split_slash "a/b.txt" ≡ ps) × IsInside ps
safe_rel-IsInside_example = safe_rel-IsInside "a/./b.txt" accepts

-- The mode cannot be changed, nor the scratch file removed.
abbrev steps : Steps
steps = record {
  opens_root = true;
  makes_parents = true;
  opens_file = true;
  copies = true;
  closes = true;
  changes_mode = false;
  renames = true;
  removes_scratch = false;
}

abbrev present : Files
present = ("a/b.txt", record { content = 1 ∷ []; mode = 420 }) ∷ []

hexadecimal : has_slash "0f" ≡ false
unfolding has_slash
hexadecimal = refl

write_file_from-Landed_example :
    Landed false
      (safe_rel "a/b.txt")
      "0f"
      (2 ∷ [])
      0
      present
      (write_file_from steps "a/b.txt" "0f" (2 ∷ []) 0 present)
write_file_from-Landed_example =
    write_file_from-Landed steps "a/b.txt" "0f" (2 ∷ []) 0 present hexadecimal

abbrev entries : List Entry
entries =
    record { name = "x"; is_dir = false; size = 3; readable = true }
    ∷ (record { name = ".git"; is_dir = true; size = 0; readable = true } ∷ [])

list_entries_lem_example : list_entries "a" entries [] ≡ (
  take max_list_entries (visible "a" entries),
  ltb max_list_entries (length (visible "a" entries)),
)
list_entries_lem_example = list_entries_lem "a" entries (refl, (refl, tt))

-- An archive of a directory and two files, of which one replaces a file that is there.
abbrev entry : TypeFlag → String → List ℕ → TarEntry
entry flag name body = record {
  type_flag = flag;
  name = name;
  size = length body;
  mode = 420;
  body = body;
  makes_parents = true;
  opens_file = true;
  copies = true;
  closes = true;
  changes_mode = true;
  created_mode = 420;
}

abbrev archived : List TarEntry
archived =
    entry directory "a" []
    ∷ (entry regular_file "a/b.txt" (7 ∷ (8 ∷ [])) ∷ (entry regular_file "./c" [] ∷ []))

archived-IsExact : All IsExact archived
archived-IsExact = (λ h. refl, (λ h. refl, (λ h. refl, tt)))

unpacks : (extract_tar true true archived present).0 ≡ extracted ("a/b.txt" ∷ ("c" ∷ []))
unfolding extract_tar
unpacks = refl

-- The entry for the directory itself, with which many archives begin, is no name that a caller may
-- use.
refuses_dot :
    (extract_tar true true (entry directory "./" [] ∷ archived) present).0
    ≡ tar_failed (bad_name invalid_path)
unfolding extract_tar
refuses_dot = refl

extract_tar-Unpacked_example :
    Unpacked
      ((◌≡◌ {A = Bool} true true) × IsUnpackable true archived)
      (names archived)
      (λ path. last_entry path archived)
      []
      present
      (extract_tar true true archived present)
extract_tar-Unpacked_example = extract_tar-Unpacked true true archived present archived-IsExact

abbrev cautious : Files
cautious = (".ssh/id", record { content = 9 ∷ []; mode = 384 }) ∷ present

abbrev moved : Move
moved = record {
  opens_root = true;
  empty_directory_there = false;
  moves_empty_directory = false;
  makes_parents = true;
  renames = true;
}

abbrev calls : List Call
calls =
    deletion (record { opens_root = true; removes = true; half_way = λ p. false }) ".ssh"
    ∷ (move moved "a" "c" ∷ (archive true true archived ∷ (upload steps ".ssh/id" "0f" [] 0 ∷ [])))

managed_key : is_protected ".ssh/id" ≡ true
unfolding is_protected
managed_key = refl

moves :
    (move_file moved "a" "c" present)
    ≡ (changed, ("c/b.txt", record { content = 1 ∷ []; mode = 420 }) ∷ [])
unfolding move_file
moves = refl

act_all-Keeps_example : lookup ".ssh/id" (act_all calls cautious) ≡ lookup ".ssh/id" cautious
act_all-Keeps_example =
    act_all-Keeps ".ssh/id" managed_key calls cautious
      (tt, (tt, (archived-IsExact, (hexadecimal, tt))))
