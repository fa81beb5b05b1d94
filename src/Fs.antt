-- ===== src/Fs.antt =====
-- be/fs/fs_util.h: the helpers for files and directories, over a file system that maps each path to
-- what stands there. Paths are plain byte strings, so two spellings of one path are two paths.
pub mod Suffix
pub mod Laws
pub mod Listing
pub mod Trees
mod Tests
use sr_scanner_demo.Base.{
  ℕ, ◌+◌, Bool, true, false, Option, none, some, List, [], ◌∷◌, ◌++◌, Bytes, codes, Outcome, done,
  throws, fault, no_return, ◌>>=◌, length, take, if◌then◌else◌, ◌==◌, ◌||◌, bytes_eq, ◌%◌, ◌^◌,
}
use sr_scanner_demo.Base.Dict
use sr_scanner_demo.Base.Dict.{Dict}
use sr_scanner_demo.Base.Find.{find_last_of}

pub data Node : Type 0 where
  file : Bytes → Node
  directory : Node

abbrev pub Fs : Type 0
Fs = Dict Node

abbrev pub filesystem_error : Bytes
filesystem_error = codes "filesystem error"

-- `std::filesystem::exists`
unfoldable pub file_exists : Bytes → Fs → Bool
file_exists path fs = elim (Dict.lookup path fs) [ none ↦ false | some n ↦ true ]

unfoldable pub directory_exists : Bytes → Fs → Bool
directory_exists path fs = elim (Dict.lookup path fs) [
  | none ↦ false
  | some n ↦ elim n [ file c ↦ false | directory ↦ true ]
]

-- What stands behind a prefix, if the text begins with it.
unfoldable pub strip_prefix : Bytes → Bytes → Option Bytes
strip_prefix [] s = some s
strip_prefix (c ∷ p) [] = none
strip_prefix (c ∷ p) (d ∷ s) = if c == d then strip_prefix p s else none

-- The name of an entry that stands directly in a directory: not empty, and without a slash.
unfoldable pub is_entry_name : Bytes → Bool
is_entry_name [] = false
is_entry_name (c ∷ s) = elim (find_last_of b'/' (c ∷ s)) [ none ↦ true | some i ↦ false ]

unfoldable pub entry_name : Bytes → Bytes → Option Bytes
unfolding strip_prefix is_entry_name
entry_name dir path = elim (strip_prefix (dir ++ b'/' ∷ []) path) [
  | none ↦ none
  | some name ↦ if is_entry_name name then some name else none
]

-- The names in a directory, in the order in which the file system keeps them.
unfoldable pub entries : Bytes → Fs → List Bytes
unfolding entry_name
entries dir [] = []
entries dir ((path, n) ∷ fs) = elim (entry_name dir path) [
  | none ↦ entries dir fs
  | some name ↦ name ∷ entries dir fs
]

unfoldable pub has_entries : Bytes → Fs → Bool
unfolding entries
has_entries dir fs = elim (entries dir fs) [ [] ↦ false | _ ∷ _ ↦ true ]

-- The size that a node adds: directories are not regular files.
abbrev pub node_size : Node → ℕ
node_size (file content) = length content
node_size directory = 0

-- Whether a path is the directory or stands in it, at any depth.
unfoldable pub is_under : Bytes → Bytes → Bool
unfolding strip_prefix
is_under dir path = elim (strip_prefix (dir ++ b'/' ∷ []) path) [
  | none ↦ bytes_eq path dir
  | some rest ↦ true
]

-- `std::filesystem::remove_all`
unfoldable pub remove_all : Bytes → Fs → Fs
unfolding is_under
remove_all dir [] = []
remove_all dir ((path, n) ∷ fs) =
    let rest = remove_all dir fs in if is_under dir path then rest else (path, n) ∷ rest

-- `deleteDirectory`. It throws a pointer, where the others throw a value.
unfoldable pub delete_directory : Bytes → Fs → Outcome Fs
unfolding remove_all file_exists
delete_directory path fs =
    if file_exists path fs
    then done (remove_all path fs)
    else throws (codes "Could not delete directory: " ++ path)

-- The sizes of the regular files in a directory, at any depth, added to `size` as uintmax_t.
unfoldable pub add_sizes : Bytes → ℕ → Fs → ℕ
unfolding strip_prefix
add_sizes dir size [] = size
add_sizes dir size ((path, n) ∷ fs) =
    add_sizes dir
      (elim (strip_prefix (dir ++ b'/' ∷ []) path) [
        | none ↦ size
        | some name ↦ (size + node_size n) % 2 ^ 64
      ])
      fs

-- `getDirectorySize`
unfoldable pub get_directory_size : Bytes → Fs → Outcome ℕ
unfolding add_sizes directory_exists
get_directory_size path fs =
    if directory_exists path fs
    then done (add_sizes path 0 fs)
    else throws (codes "Directory does not exist: " ++ path)

-- `deleteFile`. `std::filesystem::remove` is false of a missing path, and throws at a directory
-- that is not empty. Behind a removal the function flows off its end, without the bool that it
-- promises.
unfoldable pub delete_file : Bytes → Fs → Outcome Fs
unfolding has_entries
delete_file path fs = elim (Dict.lookup path fs) [
  | none ↦ throws (codes "Could not delete files: " ++ path)
  | some n ↦ elim n [
    | file c ↦ fault no_return
    | directory ↦ if has_entries path fs then throws filesystem_error else fault no_return
  ]
]

-- The paths that `create_directories` visits: each prefix in front of a slash, then the whole path.
prefixes : Bytes → Bytes → List Bytes
prefixes seen [] = seen ∷ []
prefixes [] (c ∷ s) = prefixes (c ∷ []) s
prefixes (d ∷ seen) (c ∷ s) =
    if c == b'/'
    then (d ∷ seen) ∷ prefixes (d ∷ seen ++ c ∷ []) s
    else prefixes (d ∷ seen ++ c ∷ []) s

-- Makes what is missing. The result is whether the last path was made.
make_directories : List Bytes → Bool → Fs → Outcome (Bool × Fs)
make_directories [] made fs = done (made, fs)
make_directories (path ∷ paths) made fs = elim (Dict.lookup path fs) [
  | none ↦ make_directories paths true (Dict.insert path directory fs)
  | some n ↦ elim n [
    | file c ↦ throws filesystem_error
    | directory ↦ make_directories paths false fs
  ]
]

-- `getFileSize`. `std::filesystem::file_size` throws at a directory.
unfoldable pub get_file_size : Bytes → Fs → Outcome ℕ
get_file_size path fs = elim (Dict.lookup path fs) [
  | none ↦ throws (codes "File does not exist: " ++ path)
  | some n ↦ elim n [ file c ↦ done (length c) | directory ↦ throws filesystem_error ]
]

-- `createDirectory`
unfoldable pub create_directory : Bytes → Fs → Outcome Fs
unfolding prefixes make_directories
create_directory path fs = do
  (made, fs') ← make_directories (prefixes [] path) false fs
  if made then done fs' else throws (codes "Could not create directory: " ++ path)

-- `listDirectory`
unfoldable pub list_directory : Bytes → Fs → Outcome (List Bytes)
unfolding directory_exists entries
list_directory path fs =
    if directory_exists path fs
    then done (entries path fs)
    else throws (codes "Directory does not exist: " ++ path)

-- Whether a file can be opened for writing, made if it is missing: what stands there is no
-- directory, and the directory above it is there. The root and the working directory always are.
unfoldable pub can_write : Bytes → Fs → Bool
unfolding directory_exists
can_write path fs = elim (Dict.lookup path fs) [
  | none ↦ elim (find_last_of b'/' path) [
    | none ↦ true
    | some i ↦ (i == 0) || directory_exists (take i path) fs
  ]
  | some n ↦ elim n [ file c ↦ true | directory ↦ false ]
]

-- `readFile`, of what is no directory
unfoldable pub read_file : Bytes → Fs → Outcome Bytes
read_file path fs = elim (Dict.lookup path fs) [
  | none ↦ throws (codes "Could not open file: " ++ path)
  | some n ↦ elim n [ file c ↦ done c | directory ↦ throws filesystem_error ]
]

-- `writeFile`
unfoldable pub write_file : Bytes → Bytes → Fs → Outcome Fs
unfolding can_write
write_file path content fs =
    if can_write path fs
    then done (Dict.insert path (file content) fs)
    else throws (codes "Could not open file: " ++ path)

abbrev pub content_of : Option Node → Bytes
content_of none = []
content_of (some (file c)) = c
content_of (some directory) = []

-- `appendToFile`
unfoldable pub append_to_file : Bytes → Bytes → Fs → Outcome Fs
unfolding can_write
append_to_file path content fs =
    if can_write path fs
    then done (Dict.insert path (file (content_of (Dict.lookup path fs) ++ content)) fs)
    else throws (codes "Could not open file: " ++ path)

-- `fwrite(data, length, 1, fp)`: no item where there is no byte or the disk refuses them.
abbrev pub fwrite : (Bytes → Bytes → Bool) → Bytes → Bytes → ℕ
fwrite accepts content d = if length d == 0 then 0 else if accepts content d then 1 else 0
