-- ===== src/Driver/SweptTests.antt =====
-- The first start of the driver manager on a directory without drivers, a start with a newer file of a known
-- driver, and one behind a call for a driver.
use sr_scanner_demo.Base.{
  fault, no_return, List, All, arith, ◌++◌, true, none, [], ◌∷◌, ◌≡◌, ◌≢◌, ◌↔◌, refl, Bytes, codes,
  done,
}
use sr_scanner_demo.Base.Dict
use sr_scanner_demo.Base.Find.{find_last_of, remove_suffix}
use sr_scanner_demo.Fs.{
  Fs, file, directory, is_entry_name, directory_exists, list_directory, entries, entry_name,
  strip_prefix, delete_file,
}
use sr_scanner_demo.Fs.Listing.{path_in}
use sr_scanner_demo.Fs.Suffix.{ends_with}
use sr_scanner_demo.Driver.FileName.{parse_from_file_name, split_last_field}
use sr_scanner_demo.Driver.Manager.{
  add_entry, set_entry, loaded_entry, mark_for_deletion, load_driver, Manager, init, load_files,
  load_file, mark_downloaded, fresh_entry, get_driver_location, reserve, find_or_create,
  check_expected, finish, download_driver, is_expected,
}
use sr_scanner_demo.Driver.Manager.Registry.{Call}
use sr_scanner_demo.Driver.Manager.Registry.Refinement.{get_all}
use sr_scanner_demo.Driver.Lost.{get_all_stops}
use sr_scanner_demo.Base.Int.{pos}
use sr_scanner_demo.Base.Decimal.{to_string, stol}
use sr_scanner_demo.Status.{Status, ok_status}
use sr_scanner_demo.Driver.Manager.Startup.{IsKnown}
use sr_scanner_demo.Driver.Manager.Loading.{IsDriverFile}
use sr_scanner_demo.Driver.Manager.Restart.{init-IsKnown}
use sr_scanner_demo.Driver.Started.{new_manager}
use sr_scanner_demo.Driver.Swept.{init_new_iff}

abbrev dir : Bytes
dir = codes "lib"

abbrev clean : Fs
clean = (codes "notes", file (codes "n")) ∷ (dir, directory) ∷ []

abbrev working : Manager
working = record { driver_dir = dir; entry_map = []; heap = [] }

clean_run : init dir new_manager clean ≡ done (working, clean)
unfolding init load_files list_directory entries entry_name strip_prefix directory_exists
    Dict.lookup
clean_run = refl

-- A leftover of a download that failed.
abbrev full : Fs
full = clean ++ (codes "lib/x.tmp", file (codes "abc")) ∷ []

full_run : init dir new_manager full ≡ fault no_return
unfolding init load_files load_file ends_with delete_file Dict.lookup list_directory entries
    entry_name strip_prefix directory_exists find_last_of
full_run = refl

init_new_iff_example :
    ((m : Manager) × (fs' : Fs) × (init dir new_manager full ≡ done (m, fs'))) ↔ (
      (name : Bytes)
      → is_entry_name name ≡ true
      → IsDriverFile name
      → Dict.lookup (path_in dir name) full ≡ none)
unfolding directory_exists Dict.lookup
init_new_iff_example = init_new_iff dir full refl

-- A manager that knows a driver, and a newer file of it.
abbrev knowing : Manager
knowing = record {
  driver_dir = dir;
  entry_map = (codes "my_db", 0) ∷ [];
  heap = fresh_entry dir (codes "my_db") (codes "77") (pos 4) ∷ [];
}

abbrev newer : Fs
newer = clean ++ (codes "lib/my_db_77_5.jar", file (codes "jar")) ∷ []

abbrev renewed : Manager
renewed =
    add_entry (codes "my_db")
      (loaded_entry (codes "my_db") (codes "77") (pos 5) (codes "lib/my_db_77_5.jar"))
      (set_entry 0 (mark_for_deletion (fresh_entry dir (codes "my_db") (codes "77") (pos 4)))
        knowing)

newer_run : init dir knowing newer ≡ done (renewed, newer)
unfolding init load_files load_file load_driver ends_with Dict.lookup Dict.insert
    parse_from_file_name find_last_of list_directory entries entry_name strip_prefix
    directory_exists remove_suffix split_last_field stol
newer_run = refl

init-IsKnown_example :
    (newer ≡ newer)
    × ((name : Bytes)
        → is_entry_name name ≡ true
        → Dict.lookup (path_in dir name) newer ≢ none
        → IsDriverFile name
        → IsKnown knowing name)
unfolding directory_exists Dict.lookup
init-IsKnown_example = init-IsKnown dir knowing renewed newer newer refl newer_run

-- A run that is asked for one driver, over a download that stores a text at the target.
abbrev storing : Bytes → Bytes → Bytes → Bytes → Fs → Status × Fs
storing url tmp_file target_file checksum fs = (ok_status, Dict.insert target_file (file url) fs)

abbrev one : List Call
one = record { name = codes "db"; url = codes "u"; checksum = codes "26"; now = pos 5 } ∷ []

abbrev stored : Fs
stored = clean ++ (codes "lib/db_26_5.jar", file (codes "u")) ∷ []

abbrev done_one : Manager
done_one = record {
  driver_dir = dir;
  entry_map = (codes "db", 0) ∷ [];
  heap = mark_downloaded (fresh_entry dir (codes "db") (codes "26") (pos 5)) ∷ [];
}

one_run : get_all storing one working clean ≡ done (codes "lib/db_26_5.jar" ∷ [], done_one, stored)
unfolding get_driver_location reserve find_or_create check_expected finish download_driver
    Dict.lookup Dict.insert to_string is_expected
one_run = refl

get_all_stops_example :
    All
      (λ location.
        Dict.lookup location stored ≢ none
        → ¬ (init dir new_manager stored ≡ done (working, clean)))
      (codes "lib/db_26_5.jar" ∷ [])
unfolding directory_exists Dict.lookup
get_all_stops_example =
    get_all_stops storing dir one (codes "lib/db_26_5.jar" ∷ []) working done_one working clean
      clean stored clean ((omega arith, omega arith), tt) clean_run one_run refl
