-- ===== src/Files.antt =====
-- homefs/service.go: the paths that a caller may name inside an app's files. A path is cleaned as
-- Go's path.Clean does it for a path with a slash in front. That the kernel follows no symbolic
-- link out of the directory is not part of this model: the directory is a map of paths.
pub mod Paths
pub mod Writing
pub mod Atomic
pub mod Listing
pub mod Changing
pub mod Extracting
pub mod Unpacking
pub mod Protected
pub mod Keeping
pub mod Calls
pub mod Tests
use Prim.Native.Char.{Char, code}
use Prim.Native.String
use hostit.Common.{
  ℕ, ◌*◌, String, Bool, true, false, List, [], ◌∷◌, ◌++◌, ◌&&◌, ◌||◌, not, ◌==◌, if◌then◌else◌,
  str_eq, contains, string_append, has_prefix, any,
}
use hostit.Common.Text.{trim_space, trim_prefix}

unfoldable pub max_upload_size : ℕ
max_upload_size = 64 * 1024 * 1024

unfoldable pub temp_prefix : String
temp_prefix = ".hostit-upload-"

unfoldable pub max_list_entries : ℕ
max_list_entries = 500

-- `protectedDirs` without the slash at their end
unfoldable pub protected_dirs : List String
protected_dirs = ".hostit" ∷ (".ssh" ∷ (".config" ∷ (".local" ∷ (".cache" ∷ []))))

unfoldable pub skipped_dirs : List String
skipped_dirs =
    "node_modules"
    ∷ ("vendor" ∷ ("__pycache__" ∷ (".git" ∷ (".venv" ∷ ("venv" ∷ ("target" ∷ []))))))

pub data PathError : Type 0 where
  not_relative leaves_directory invalid_path managed_path reserved_path : PathError

pub data Checked : Type 0 where
  accepted : String → Checked
  rejected : PathError → Checked

-- `strings.ReplaceAll(s, "\\", "/")`
unfoldable pub to_slashes : String → String
to_slashes String.[] = String.[]
to_slashes (String.◌∷◌ c s) =
    string_append (if code c == 0x5c then "/" else String.◌∷◌ c String.[]) (to_slashes s)

unfoldable pub add_first : Char → List String → List String
add_first c [] = []
add_first c (p ∷ ps) = String.◌∷◌ c p ∷ ps

-- `strings.Split(s, "/")`
unfoldable pub split_slash : String → List String
unfolding add_first
split_slash String.[] = "" ∷ []
split_slash (String.◌∷◌ c s) =
    let rest = split_slash s in if code c == b'/' then "" ∷ rest else add_first c rest

unfoldable pub join_slash : List String → String
join_slash [] = ""
join_slash (p ∷ []) = p
join_slash (p ∷ (q ∷ ps)) = string_append p (string_append "/" (join_slash (q ∷ ps)))

unfoldable pub pop : List String → List String
pop [] = []
pop (p ∷ ps) = ps

-- One segment of a path with a slash in front: an empty one and a dot count for nothing, two dots
-- take the last one back.
unfoldable pub clean_step : List String → String → List String
unfolding pop
clean_step out s =
    if str_eq s "" || str_eq s "." then out else if str_eq s ".." then pop out else out ++ s ∷ []

unfoldable pub clean_from : List String → List String → List String
unfolding clean_step
clean_from out [] = out
clean_from out (s ∷ ss) = clean_from (clean_step out s) ss

-- `path.Clean` of a path that begins with a slash
unfoldable pub clean_rooted : String → String
unfolding clean_from split_slash join_slash
clean_rooted s = string_append "/" (join_slash (clean_from [] (split_slash s)))

-- `strings.HasPrefix(rel, prefix) || rel == strings.TrimSuffix(prefix, "/")`
unfoldable pub is_below : String → String → Bool
is_below rel dir = has_prefix rel (string_append dir "/") || str_eq rel dir

unfoldable pub is_protected : String → Bool
unfolding is_below protected_dirs
is_protected rel = any (is_below rel) protected_dirs

unfoldable pub last_of : List String → String
last_of [] = ""
last_of (p ∷ []) = p
last_of (p ∷ (q ∷ ps)) = last_of (q ∷ ps)

-- `path.Base` of a cleaned path
unfoldable pub base : String → String
unfolding last_of split_slash
base s = last_of (split_slash s)

unfoldable pub safe_cleaned : String → Checked
unfolding is_protected base temp_prefix
safe_cleaned cleaned =
    if str_eq cleaned "" || str_eq cleaned "."
    then rejected invalid_path
    else if is_protected cleaned
    then rejected managed_path
    else if has_prefix (base cleaned) temp_prefix
    then rejected reserved_path
    else accepted cleaned

unfoldable pub safe_raw : String → Checked
unfolding safe_cleaned split_slash clean_rooted trim_prefix
safe_raw raw =
    if str_eq raw "" || has_prefix raw "/"
    then rejected not_relative
    else if contains (split_slash raw) ".."
    then rejected leaves_directory
    else safe_cleaned (trim_prefix (clean_rooted (string_append "/" raw)) "/")

-- `safeRel`
unfoldable pub safe_rel : String → Checked
unfolding safe_raw to_slashes trim_space
safe_rel rel_path = safe_raw (trim_space (to_slashes rel_path))

unfoldable pub without_last_slash : List String → List String
without_last_slash [] = []
without_last_slash (p ∷ []) = if str_eq p "" then [] else p ∷ []
without_last_slash (p ∷ (q ∷ ps)) = p ∷ without_last_slash (q ∷ ps)

-- `isHiddenFromListing`, of a path with or without a slash at its end
unfoldable pub is_hidden_from_listing : String → Bool
unfolding is_protected skipped_dirs split_slash without_last_slash
is_hidden_from_listing rel =
    is_protected rel
    || any (λ s. has_prefix s "." || contains skipped_dirs s) (without_last_slash (split_slash rel))
