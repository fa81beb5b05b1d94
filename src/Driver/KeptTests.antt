-- ===== src/Driver/KeptTests.antt =====
-- A driver file on the disk, and a later call whose download has the wrong digest.
use sr_scanner_demo.Base.{
  ℕ, zero, suc, true, [], ◌∷◌, ◌++◌, ◌≡◌, refl, arith, Bytes, codes, bytes_eq, done, Bool,
}
use sr_scanner_demo.Base.Int.{pos}
use sr_scanner_demo.Base.Decimal.{to_string}
use sr_scanner_demo.Base.Dict
use sr_scanner_demo.Base.Find.{find_last_of}
use sr_scanner_demo.Status.{Status, is_ok}
use sr_scanner_demo.Fs.{file, directory, Fs, can_write}
use sr_scanner_demo.Http.Curl.{Curl, IsLawful}
use sr_scanner_demo.Http.Client.{init, execute, on_response_data}
use sr_scanner_demo.Http.Curl.Sample.{two_pieces, two_pieces-IsLawful, perform_sent}
use sr_scanner_demo.Util.Md5.{hex}
use sr_scanner_demo.Util.Md5.Sample.{small, small-IsMd5}
use sr_scanner_demo.Util.Download.{Progress, download, transfer, install, rename, download_cb}
use sr_scanner_demo.Driver.Manager.{
  Entry, Manager, fresh_entry, set_entry, add_entry, mark_downloaded, find_or_create,
  check_expected, reserve, download_driver, finish, get_driver_location,
}
use sr_scanner_demo.Driver.Manager.Invariant.{IsValid}
use sr_scanner_demo.Driver.Manager.Registry.{Call}
use sr_scanner_demo.Driver.Manager.Registry.Refinement.{get_all}
use sr_scanner_demo.Driver.Manager.Interleaving.Files.{IsPlaced}
use sr_scanner_demo.Driver.Manager.Kept.{downloads, IsStored, get_all-IsStored}

abbrev dir : Bytes
dir = codes "lib"

abbrev start : Manager
start = record { driver_dir = dir; entry_map = []; heap = [] }

start-IsValid : IsValid start
unfolding Dict.lookup
start-IsValid = record { bound = λ name id h. cc; downloaded = λ id e h. cc }

abbrev accepts : Bytes → Bytes → Bool
accepts content d = true

abbrev db : Entry
db = fresh_entry dir (codes "db") (codes "26") (pos 5)

db-IsPlaced : IsPlaced dir db
db-IsPlaced = record { located = refl; plain = omega arith; timed = omega arith }

abbrev disk : Fs
disk = (dir, directory) ∷ (codes "lib/db_26_5.jar", file (codes "abc")) ∷ []

abbrev other : Call
other = record { name = codes "db"; url = codes "u"; checksum = codes "27"; now = pos 9 }

abbrev failed : Entry
failed = fresh_entry dir (codes "db") (codes "27") (pos 9)

abbrev left : Manager
left = set_entry 0 (mark_downloaded failed) (add_entry (codes "db") failed start)

abbrev left_disk : Fs
left_disk = disk ++ (codes "lib/db_27.tmp", file []) ∷ []

abbrev nets : ℕ → Curl (Progress small)
nets n = two_pieces (Progress small)

abbrev rooms : ℕ → Bytes → Bytes → Bool
rooms n = accepts

-- The first `fclose` writes out all; no later one writes anything.
abbrev closes : ℕ → Bytes → Bytes
closes zero content = content
closes (suc n) content = []

nets-IsLawful : (n : ℕ) → IsLawful (nets n)
nets-IsLawful n = two_pieces-IsLawful (Progress small)

abbrev calls : Bytes → Bytes → Bytes → Bytes → Fs × ℕ → Status × (Fs × ℕ)
calls = downloads small nets rooms bytes_eq closes nets-IsLawful small-IsMd5 dir

one_call :
    get_all calls (other ∷ []) start (disk, 1)
    ≡ done (codes "lib/db_27_9.jar" ∷ [], left, (left_disk, 2))
unfolding get_driver_location reserve find_or_create check_expected finish download_driver download
    transfer install rename init execute on_response_data perform_sent can_write Dict.lookup
    Dict.insert Dict.erase find_last_of download_cb is_ok hex to_string bytes_eq
one_call = refl

db-IsStored : IsStored small nets rooms bytes_eq closes nets-IsLawful small-IsMd5 dir db (disk, 1)
unfolding Dict.lookup bytes_eq hex to_string
db-IsStored = (0, codes "abc", refl, refl)

get_all-IsStored_example :
    IsStored small nets rooms bytes_eq closes nets-IsLawful small-IsMd5 dir db (left_disk, 2)
get_all-IsStored_example =
    get_all-IsStored small nets rooms bytes_eq closes nets-IsLawful small-IsMd5 dir (other ∷ []) db
      start left (disk, 1) (left_disk, 2) (codes "lib/db_27_9.jar" ∷ [])
      ((omega arith, omega arith), tt) start-IsValid (λ id e h. cc, refl) db-IsPlaced one_call
      db-IsStored
