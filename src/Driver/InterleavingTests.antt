-- ===== src/Driver/InterleavingTests.antt =====
-- Two calls for one driver that interleave, calls in sequence, and the theorems on them.
use sr_scanner_demo.Base.{bytes_eq, ℕ, Bytes, List, All, [], ◌∷◌, ◌≡◌, refl, codes, done}
use sr_scanner_demo.Base.Int.{pos}
use sr_scanner_demo.Base.Dict
use sr_scanner_demo.Base.Decimal.{to_string}
use sr_scanner_demo.Status.{ok_status}
use sr_scanner_demo.Driver.Manager.{
  Manager, Entry, fresh_entry, add_entry, find_or_create, check_expected, reserve, pending,
  mark_downloaded, set_entry, download_driver, finish,
}
use sr_scanner_demo.Driver.Manager.Invariant.{IsValid}
use sr_scanner_demo.Driver.Manager.Registry.{Call, locate_all, view}
use sr_scanner_demo.Driver.Manager.Registry.Refinement.{get_all, get_all_refines}
use sr_scanner_demo.Driver.Manager.Interleaving.{
  asking, holding, answered, Running, note, reserves, finishes, Steps, stay, step, IsSound,
}
use sr_scanner_demo.Driver.Manager.Interleaving.Soundness.{Steps-IsSound}
use sr_scanner_demo.Driver.Manager.Interleaving.Serial.{asks, got, Atomics, Steps-Atomics}
use sr_scanner_demo.Fs.{Fs, directory, directory_exists, list_directory}
use sr_scanner_demo.Driver.Manager.{init}
use sr_scanner_demo.Driver.Started.{new_manager, no_drivers, init_then_calls}
use sr_scanner_demo.Driver.Manager.Interleaving.Files.{AreApart, IsPlainCall}
use sr_scanner_demo.Driver.Manager.Interleaving.Races.{call, ShareTmpFile, reserves-ShareTmpFile}
use sr_scanner_demo.Driver.Manager.Interleaving.Serial.{served}
use sr_scanner_demo.Base.{◌≢◌, false, bytes_eq_iff}

abbrev start : Manager
start = record { driver_dir = codes "lib"; entry_map = []; heap = [] }

abbrev db : Entry
db = fresh_entry (codes "lib") (codes "db") (codes "77") (pos 5)

abbrev known : Manager
known = add_entry (codes "db") db start

abbrev fetched : Manager
fetched = set_entry 0 (mark_downloaded db) known

abbrev at_5 : Call
at_5 = record { name = codes "db"; url = codes "u"; checksum = codes "77"; now = pos 5 }

abbrev at_6 : Call
at_6 = record { name = codes "db"; url = codes "u"; checksum = codes "77"; now = pos 6 }

abbrev both_ask : Running
both_ask = record { manager = start; threads = asking at_5 ∷ asking at_6 ∷ []; log = [] }

both_ask-IsSound : IsSound both_ask
unfolding Dict.lookup
both_ask-IsSound = record {
  valid = record { bound = λ name id h. cc; downloaded = λ id e h. cc };
  held = (tt, (tt, tt));
  logged = tt;
  once = tt;
}

first_reserves : reserve (codes "db") (codes "77") (pos 5) start ≡ done (known, pending 0)
unfolding reserve find_or_create check_expected Dict.lookup Dict.insert to_string
first_reserves = refl

second_reserves : reserve (codes "db") (codes "77") (pos 6) known ≡ done (known, pending 0)
unfolding reserve find_or_create check_expected Dict.lookup Dict.insert to_string
second_reserves = refl

abbrev jar : Bytes
jar = codes "lib/db_77_5.jar"

second_finishes :
    finish (note 0) (codes "u") (pending 0) known [] ≡ done (ok_status, jar, fetched, 0 ∷ [])
unfolding finish download_driver to_string
second_finishes = refl

first_finishes :
    finish (note 0) (codes "u") (pending 0) fetched (0 ∷ [])
    ≡ done (ok_status, jar, fetched, 0 ∷ [])
unfolding finish download_driver to_string
first_finishes = refl

abbrev both_hold : Running
both_hold = record {
  manager = known;
  threads = holding (codes "u") 0 ∷ holding (codes "u") 0 ∷ [];
  log = [];
}

abbrev both_answered : Running
both_answered = record {
  manager = fetched;
  threads = answered jar ∷ answered jar ∷ [];
  log = 0 ∷ [];
}

-- Both calls go through the block under `_lock`; then the second one downloads the driver.
both_reserve : Steps both_ask both_hold
both_reserve =
    step _ _ _
      (reserves 0 at_5 (pending 0) start known (asking at_5 ∷ asking at_6 ∷ []) [] refl
        first_reserves)
      (step _ _ _
        (reserves 1 at_6 (pending 0) known known (holding (codes "u") 0 ∷ asking at_6 ∷ []) [] refl
          second_reserves)
        (stay both_hold))

two_calls : Steps both_hold both_answered
two_calls =
    step _ _ _
      (finishes 1 0 (codes "u") jar known fetched
        (holding (codes "u") 0 ∷ holding (codes "u") 0 ∷ []) [] (0 ∷ []) refl second_finishes)
      (step _ _ _
        (finishes 0 0 (codes "u") jar fetched fetched (holding (codes "u") 0 ∷ answered jar ∷ [])
          (0 ∷ []) (0 ∷ []) refl first_finishes)
        (stay both_answered))

both_hold-IsSound : IsSound both_hold
both_hold-IsSound = Steps-IsSound both_ask both_hold both_reserve both_ask-IsSound

Steps-IsSound_example : IsSound both_answered
Steps-IsSound_example = Steps-IsSound both_hold both_answered two_calls both_hold-IsSound

-- The second call is answered first, with the location of the first one's time.
Steps-Atomics_example :
    Atomics
      (codes "lib")
      (record { registry = view start; clients = asks at_5 ∷ asks at_6 ∷ [] })
      (record { registry = view known; clients = got jar ∷ got jar ∷ [] })
unfolding to_string
Steps-Atomics_example = Steps-Atomics both_ask both_hold both_reserve both_ask-IsSound

abbrev disk : Fs
disk = (codes "lib", directory) ∷ []

started : init (codes "lib") new_manager disk ≡ done (start, disk)
unfolding init list_directory directory_exists Dict.lookup
started = refl

init_then_calls_example :
    IsSound both_hold
    × Atomics
        (codes "lib")
        (record { registry = no_drivers; clients = asks at_5 ∷ asks at_6 ∷ [] })
        (served both_hold)
    × (All IsPlainCall (at_5 ∷ at_6 ∷ []) → AreApart known)
init_then_calls_example =
    init_then_calls (codes "lib") start disk disk (at_5 ∷ at_6 ∷ []) both_hold started both_reserve

not_same : bytes_eq (codes "77") (codes "78") ≡ false
unfolding bytes_eq
not_same = refl

other_checksum : codes "77" ≢ codes "78"
other_checksum e = let q = (bytes_eq_iff (codes "77") (codes "78")).1 e in cc (q, not_same)

reserves-ShareTmpFile_example :
    (m : Manager) × (i : ℕ) × (k : ℕ) × (j : ℕ) × Steps
      (record {
        manager = start;
        threads =
            asking (call (codes "db") (codes "u") (codes "77") (pos 5))
            ∷ asking (call (codes "db") (codes "u") (codes "78") (pos 6))
            ∷ asking (call (codes "db") (codes "u") (codes "77") (pos 7))
            ∷ [];
        log = [];
      })
      (record {
        manager = m;
        threads = holding (codes "u") i ∷ holding (codes "u") k ∷ holding (codes "u") j ∷ [];
        log = [];
      })
    × ShareTmpFile m i j
unfolding Dict.lookup
reserves-ShareTmpFile_example =
    reserves-ShareTmpFile (codes "db") (codes "u") (codes "77") (codes "78") (pos 5) (pos 6) (pos 7)
      start refl other_checksum

-- Three calls for one name, the last with another checksum.
abbrev three : List Call
three =
    record { name = codes "db"; url = codes "u"; checksum = codes "77"; now = pos 5 }
    ∷ record { name = codes "db"; url = codes "u"; checksum = codes "77"; now = pos 6 }
    ∷ record { name = codes "db"; url = codes "u"; checksum = codes "78"; now = pos 7 }
    ∷ []

three_located :
    (locate_all (codes "lib") three (view start)).0
    ≡ codes "lib/db_77_5.jar" ∷ codes "lib/db_77_5.jar" ∷ codes "lib/db_78_7.jar" ∷ []
unfolding Dict.lookup bytes_eq to_string
three_located = refl

get_all_refines_example :
    (n : Manager) × (log : List ℕ) × (get_all (note 0) three start []
      ≡ done ((locate_all (codes "lib") three (view start)).0, n, log))
    × IsValid n
    × (view n ≡ (locate_all (codes "lib") three (view start)).1)
get_all_refines_example = get_all_refines (note 0) three start [] both_ask-IsSound.valid
