-- ===== src/Driver/Manager.antt =====
-- be/runtime/jdbc_driver_manager.{h,cpp}: the manager's state, `init`, `get_driver_location` and
-- `_download_driver`. Entries live in `heap`, so that the manager and the calls that wait for a
-- download share them; the numbers in `entry_map` are their shared pointers. `_lock` and
-- `download_lock` make each of `init`, `reserve` and `download_driver` one step.
pub mod Invariant
pub mod Location
pub mod Answer
pub mod Loading
pub mod Startup
pub mod Restart
pub mod Served
pub mod Entries
pub mod Interleaving
pub mod Registry
pub mod Every
pub mod Kept
pub mod Locks
use sr_scanner_demo.Base.{
  ℕ, Bool, true, false, none, some, List, [], ◌∷◌, ◌++◌, Bytes, Outcome, done, throws, fault,
  unfinished, null_pointer, dangling, ◌>>=◌, length, get_elem?, set, bytes_eq, ◌&&◌, if◌then◌else◌,
}
use sr_scanner_demo.Base.Int.{ℤ, ltb_ℤ, int64_max}
use sr_scanner_demo.Base.Dict
use sr_scanner_demo.Base.Dict.{Dict}
use sr_scanner_demo.Status.{Status, ok_status}
use sr_scanner_demo.Fs.{Fs, directory_exists, create_directory, list_directory, delete_file}
use sr_scanner_demo.Fs.Suffix.{ends_with}
use sr_scanner_demo.Driver.FileName.{
  parse_from_file_name, generate_driver_location, jar_file_suffix, tmp_file_suffix,
}

-- JDBCDriverEntry
pub record Entry : Type 0 where
  pub name : Bytes
  pub checksum : Bytes
  pub first_access_ts : ℤ
  pub location : Bytes
  pub is_available : Bool
  pub should_delete : Bool
  pub is_downloaded : Bool

abbrev pub new_entry : Bytes → Bytes → Entry
new_entry name checksum = record {
  name = name;
  checksum = checksum;
  first_access_ts = int64_max;
  location = [];
  is_available = false;
  should_delete = false;
  is_downloaded = false;
}

unfoldable pub is_expected : Entry → Bytes → Bytes → Bool
unfolding bytes_eq
is_expected e name checksum = bytes_eq e.name name && bytes_eq e.checksum checksum

-- JDBCDriverManager
pub record Manager : Type 0 where
  pub driver_dir : Bytes
  pub entry_map : Dict ℕ
  pub heap : List Entry

abbrev pub entry_at : ℕ → Manager → Outcome Entry
entry_at id m = elim (get_elem? m.heap id) [ none ↦ fault dangling | some e ↦ done e ]

abbrev pub set_entry : ℕ → Entry → Manager → Manager
set_entry id e m = record m { heap = set m.heap id e }

-- `entry = std::make_shared<JDBCDriverEntry>(…); …; _entry_map[name] = entry;`
abbrev pub add_entry : Bytes → Entry → Manager → Manager
add_entry name e m = record m {
  heap = m.heap ++ e ∷ [];
  entry_map = Dict.insert name (length m.heap) m.entry_map;
}

-- An entry of a jar file that `init` found.
abbrev pub loaded_entry : Bytes → Bytes → ℤ → Bytes → Entry
loaded_entry name checksum ts target_file = record (new_entry name checksum) {
  first_access_ts = ts;
  location = target_file;
  is_downloaded = true;
  is_available = true;
}

abbrev pub mark_for_deletion : Entry → Entry
mark_for_deletion e = record e { should_delete = true }

abbrev pub remove_target : Bytes → Manager → Fs → Outcome (Manager × Fs)
remove_target target_file m fs = do fs' ← delete_file target_file fs; done (m, fs')

-- `init` on a jar file that is parsed. Where the name is not found, `entry` is a null pointer: the
-- line `entry == std::make_shared<…>(…);` compares and does not assign.
unfoldable pub load_driver : Bytes → Bytes → Bytes → ℤ → Manager → Fs → Outcome (Manager × Fs)
load_driver target_file name checksum ts m fs = elim (Dict.lookup name m.entry_map) [
  | none ↦ fault null_pointer
  | some id ↦ do
    entry ← entry_at id m
    if ltb_ℤ entry.first_access_ts ts
        then (let m' = set_entry id (mark_for_deletion entry) m in
            done (add_entry name (loaded_entry name checksum ts target_file) m', fs))
        else remove_target target_file m fs
]

-- The body of the loop in `init`.
unfoldable pub load_file : Bytes → Manager → Fs → Outcome (Manager × Fs)
unfolding load_driver
load_file file m fs =
    let target_file = m.driver_dir ++ b'/' ∷ file in
    if ends_with file tmp_file_suffix
    then remove_target target_file m fs
    else if ends_with file jar_file_suffix
    then elim (parse_from_file_name file) [
      | none ↦ remove_target target_file m fs
      | some (name, checksum, ts) ↦ load_driver target_file name checksum ts m fs
    ]
    else done (m, fs)

unfoldable pub load_files : List Bytes → Manager → Fs → Outcome (Manager × Fs)
load_files [] m fs = done (m, fs)
load_files (file ∷ files) m fs = elim (load_file file m fs) [
  | done (m', fs') ↦ load_files files m' fs'
  | throws e ↦ throws e
  | fault e ↦ fault e
  | unfinished ↦ unfinished
]

-- `init`
unfoldable pub init : Bytes → Manager → Fs → Outcome (Manager × Fs)
unfolding load_files
init driver_dir m fs = do
  fs' ← if directory_exists driver_dir fs then done fs else create_directory driver_dir fs
  driver_files ← list_directory driver_dir fs'
  load_files driver_files (record m { driver_dir = driver_dir }) fs'

-- An entry that `get_driver_location` makes at the time `now`.
abbrev pub fresh_entry : Bytes → Bytes → Bytes → ℤ → Entry
fresh_entry driver_dir name checksum now = record (new_entry name checksum) {
  first_access_ts = now;
  location = generate_driver_location driver_dir name checksum now;
}

-- The entry of a name, made if it is missing, with its pointer.
unfoldable pub find_or_create : Bytes → Bytes → ℤ → Manager → Manager × ℕ
find_or_create name checksum now m = elim (Dict.lookup name m.entry_map) [
  | none ↦ (add_entry name (fresh_entry m.driver_dir name checksum now) m, length m.heap)
  | some id ↦ (m, id)
]

-- How `get_driver_location` leaves the block under `_lock`.
pub data Reserved : Type 0 where
  -- `return Status::OK()` with the location
  ready : Bytes → Reserved
  -- go on to the download of this entry
  pending : ℕ → Reserved

-- The rest of the block under `_lock`, at the entry that the map leads to.
unfoldable pub check_expected : Bytes → Bytes → ℤ → ℕ → Manager → Outcome (Manager × Reserved)
unfolding is_expected
check_expected name checksum now id m = do
  entry ← entry_at id m
  if is_expected entry name checksum
      then (if entry.is_available then done (m, ready entry.location) else done (m, pending id))
      else (let old = set_entry id (mark_for_deletion entry) m in
          done (
            add_entry name (fresh_entry m.driver_dir name checksum now) old,
            pending (length old.heap),
          ))

-- The block under `_lock`. The clock is read at most once in it: `now`.
unfoldable pub reserve : Bytes → Bytes → ℤ → Manager → Outcome (Manager × Reserved)
reserve name checksum now m =
    let (m', id) = find_or_create name checksum now m in check_expected name checksum now id m'

abbrev pub tmp_file_of : Manager → Entry → Bytes
tmp_file_of m e = m.driver_dir ++ b'/' ∷ (e.name ++ b'_' ∷ (e.checksum ++ tmp_file_suffix))

abbrev pub mark_downloaded : Entry → Entry
mark_downloaded e = record e { is_downloaded = true; is_available = true }

-- `DownloadUtil::download(url, tmp_file, target_file, expected_checksum)` over a world of any type.
module _ {W : Type 0} (download : Bytes → Bytes → Bytes → Bytes → W → Status × W) where
  -- `_download_driver`. The status of the download is not read.
  unfoldable pub download_driver : Bytes → ℕ → Manager → W → Outcome (Manager × W)
  download_driver url id m w = do
    entry ← entry_at id m
    if entry.is_downloaded
        then done (m, w)
        else (let (status, w') =
              download url (tmp_file_of m entry) entry.location entry.checksum w in
            done (set_entry id (mark_downloaded entry) m, w'))

  -- Behind the block under `_lock`.
  unfoldable pub finish : Bytes → Reserved → Manager → W → Outcome (Status × Bytes × Manager × W)
  unfolding download_driver
  finish url (ready location) m w = done (ok_status, location, m, w)
  finish url (pending id) m w = do
    (m', w') ← download_driver url id m w
    entry ← entry_at id m'
    done (ok_status, entry.location, m', w')

  -- `get_driver_location`: the status, `*location`, and what is left.
  unfoldable pub get_driver_location :
      Bytes → Bytes → Bytes → ℤ → Manager → W → Outcome (Status × Bytes × Manager × W)
  unfolding finish
  get_driver_location name url checksum now m w = do
    (m', r) ← reserve name checksum now m
    finish url r m' w
