-- ===== src/Driver/Tests.antt =====
-- Runs of the driver manager, and its theorems at concrete data.
use sr_scanner_demo.Base.{
  no_return, bytes_eq, ◌⊎◌, false, ℕ, suc, true, Option, none, some, [], ◌∷◌, ◌++◌, ◌≡◌, refl,
  arith, Bytes, codes, Lacks, done, fault, null_pointer, Outcome,
}
use sr_scanner_demo.Base.Int.{ℤ, pos, negsuc}
use sr_scanner_demo.Base.Decimal.{to_string, stol}
use sr_scanner_demo.Base.Dict
use sr_scanner_demo.Base.Find.{find_last_of, remove_suffix}
use sr_scanner_demo.Status.{Status, ok_status, internal_error, is_ok}
use sr_scanner_demo.Fs.{
  Fs, file, directory, is_entry_name, directory_exists, list_directory, delete_file,
}
use sr_scanner_demo.Fs.Suffix.{ends_with}
use sr_scanner_demo.Driver.FileName.{
  parse_from_file_name, driver_file_name, split_last_field, jar_file_suffix,
}
use sr_scanner_demo.Driver.FileName.RoundTrip.{
  parse-driver_file_name, parse-driver_file_name_plain, parse_sound,
}
use sr_scanner_demo.Driver.Manager.{
  Manager, fresh_entry, find_or_create, check_expected, reserve, init, get_driver_location,
  load_file,
}
use sr_scanner_demo.Driver.Manager.Invariant.{IsValid}
use sr_scanner_demo.Driver.Manager.Answer.{
  Answers, get_driver_location_total, get_driver_location_twice,
}
use sr_scanner_demo.Driver.Manager.Served.{get_driver_location_served}
use sr_scanner_demo.Http.Curl.Sample.{two_pieces, two_pieces-IsLawful}
use sr_scanner_demo.Util.Md5.{hex}
use sr_scanner_demo.Util.Md5.Sample.{small, small-IsMd5}
use sr_scanner_demo.Util.Download
use sr_scanner_demo.Util.Download.{Progress}
use sr_scanner_demo.Driver.Manager.Restart.{init_stops_at_driver}

abbrev dir : Bytes
dir = codes "lib"

abbrev start : Manager
start = record { driver_dir = dir; entry_map = []; heap = [] }

start-IsValid : IsValid start
unfolding Dict.lookup
start-IsValid = record { bound = λ name id h. cc; downloaded = λ id e h. cc }

-- The two parsers, for the runs below: opened with all that they call.
parse : Bytes → Option (Bytes × Bytes × ℤ)
unfolding parse_from_file_name split_last_field stol find_last_of remove_suffix
parse = parse_from_file_name

start_up : Bytes → Manager → Fs → Outcome (Manager × Fs)
unfolding parse init list_directory directory_exists load_file ends_with delete_file Dict.lookup
start_up = init

-- The jar file that stands in be/lib/jdbc_drivers.
abbrev shipped : Bytes
shipped = codes "mssql-jdbc_6c10ef9c332098b2c51f20f03eb6c294_1719538670629.jar"

shipped_name :
    driver_file_name
      (codes "mssql-jdbc")
      (codes "6c10ef9c332098b2c51f20f03eb6c294")
      (pos 1719538670629)
    ≡ shipped
unfolding to_string
shipped_name = refl

shipped_refused : parse_from_file_name shipped ≡ none
unfolding parse
shipped_refused = refl

abbrev disk : Fs
disk =
    (dir, directory)
    ∷ (dir ++ b'/' ∷ shipped, file (codes "jar"))
    ∷ (codes "lib/x.tmp", file (codes "part"))
    ∷ (codes "lib/notes", file (codes "n"))
    ∷ []

init_run : init dir start disk ≡ fault no_return
unfolding start_up
init_run = refl

abbrev other_disk : Fs
other_disk = (dir, directory) ∷ (codes "lib/my_db_77_5.jar", file (codes "jar")) ∷ []

init_fault : init dir start other_disk ≡ fault null_pointer
unfolding start_up
init_fault = refl

parse-driver_file_name_example :
    parse_from_file_name (driver_file_name (codes "my_db") (codes "77") (pos 5))
    ≡ some (codes "my_db", codes "77", pos 5)
parse-driver_file_name_example =
    parse-driver_file_name (codes "my_db") (codes "77") (pos 5) (λ h. h.1.1.0 refl) (omega arith)
      (omega arith)

parse-driver_file_name_plain_example :
    parse_from_file_name (driver_file_name (codes "mssql-jdbc") (codes "6c") (pos 17)) ≡ none
parse-driver_file_name_plain_example =
    parse-driver_file_name_plain (codes "mssql-jdbc") (codes "6c") (pos 17) (omega arith)
      (omega arith) (omega arith)

parsed_spaces :
    parse_from_file_name (codes "a_b_c_ -7x" ++ jar_file_suffix)
    ≡ some (codes "a_b", codes "c", negsuc 6)
unfolding parse
parsed_spaces = refl

parse_sound_example :
    (str : Bytes) × (codes "a_b_c_ -7x" ≡ (codes "a_b" ++ b'_' ∷ codes "c") ++ b'_' ∷ str)
    × (stol str ≡ some (negsuc 6))
    × Lacks b'_' (codes "c")
    × ¬ (Lacks b'_' (codes "a_b"))
parse_sound_example =
    parse_sound (codes "a_b_c_ -7x") (codes "a_b") (codes "c") (negsuc 6) parsed_spaces

init_stops_at_driver_example : ¬ (init dir start other_disk ≡ done (start, other_disk))
unfolding is_entry_name find_last_of to_string directory_exists Dict.lookup
init_stops_at_driver_example =
    init_stops_at_driver dir (codes "my_db") (codes "77") (pos 5) start start other_disk other_disk
      (λ h. h.1.1.0 refl) (omega arith) (omega arith) refl refl (λ e. cc e) refl

-- A download that fails: the status is not read.
abbrev failing : Bytes → Bytes → Bytes → Bytes → ℕ → Status × ℕ
failing url tmp target checksum w = (internal_error (codes "no network"), suc w)

abbrev served : Manager
served = record {
  driver_dir = dir;
  entry_map = (codes "db", 0) ∷ [];
  heap =
      record (fresh_entry dir (codes "db") (codes "77") (pos 5)) {
        is_available = true;
        is_downloaded = true;
      }
      ∷ [];
}

failing_run :
    get_driver_location failing (codes "db") (codes "u") (codes "77") (pos 5) start 0
    ≡ done (ok_status, codes "lib/db_77_5.jar", served, 1)
unfolding get_driver_location reserve find_or_create check_expected Dict.lookup Dict.insert
    to_string
failing_run = refl

get_driver_location_total_example :
    (location : Bytes) × (m' : Manager) × (w' : ℕ) × (get_driver_location failing
        (codes "db")
        (codes "u")
        (codes "77")
        (pos 5)
        start
        0
      ≡ done (ok_status, location, m', w'))
    × IsValid m'
    × Answers (codes "db") (codes "77") location m'
get_driver_location_total_example =
    get_driver_location_total failing (codes "db") (codes "u") (codes "77") (pos 5) start 0
      start-IsValid

get_driver_location_twice_example :
    get_driver_location failing (codes "db") (codes "v") (codes "77") (pos 9) served 1
    ≡ done (ok_status, codes "lib/db_77_5.jar", served, 1)
get_driver_location_twice_example =
    get_driver_location_twice failing (codes "db") (codes "u") (codes "v") (codes "77") (pos 5)
      (pos 9) start 0 start-IsValid failing_run

abbrev get : Bytes → Bytes → Bytes → Bytes → Fs → Status × Fs
get =
    Download.download small (two_pieces (Progress small)) (λ content d. true) bytes_eq
      (λ content. content)

get_driver_location_served_example :
    (m' : Manager) × (fs' : Fs) × (get_driver_location get
        (codes "db")
        (codes "u")
        (codes "26")
        (pos 5)
        start
        disk
      ≡ done (ok_status, codes "lib/db_26_5.jar", m', fs'))
    × (((is_ok
              (get
                (codes "u")
                (codes "lib/db_26.tmp")
                (codes "lib/db_26_5.jar")
                (codes "26")
                disk).0
            ≡ true)
          × ((content : Bytes) × (Dict.lookup (codes "lib/db_26_5.jar") fs' ≡ some (file content))
              × (bytes_eq (hex (small-IsMd5.md5 content)) (codes "26") ≡ true)))
        ⊎ ((is_ok
                (get
                  (codes "u")
                  (codes "lib/db_26.tmp")
                  (codes "lib/db_26_5.jar")
                  (codes "26")
                  disk).0
              ≡ false)
            × (Dict.lookup (codes "lib/db_26_5.jar") fs'
                ≡ Dict.lookup (codes "lib/db_26_5.jar") disk)))
unfolding to_string Dict.lookup
get_driver_location_served_example =
    get_driver_location_served small (two_pieces (Progress small)) (λ content d. true) bytes_eq
      (λ content. content) (two_pieces-IsLawful (Progress small)) small-IsMd5 (codes "db")
      (codes "u") (codes "26") (pos 5) start disk refl
