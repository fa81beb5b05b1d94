-- ===== src/Driver/LocksTests.antt =====
-- Two calls for one driver with their locks, and the theorems on them.
use sr_scanner_demo.Base.{
  ℕ, zero, suc, none, some, [], ◌∷◌, All, ◌≡◌, ◌⊎◌, refl, Bytes, codes, get_elem?,
}
use sr_scanner_demo.Base.Int.{pos}
use sr_scanner_demo.Base.Dict
use sr_scanner_demo.Driver.Manager.{Manager, fresh_entry, add_entry}
use sr_scanner_demo.Driver.Manager.Registry.{Call}
use sr_scanner_demo.Driver.Manager.Locks.{
  waiting, in_lock, behind_lock, in_download, Locked, LockStep, takes_lock, LockSteps, stay, step,
  IsOwned,
}
use sr_scanner_demo.Driver.Manager.Locks.Ownership.{LockSteps-exclusive}
use sr_scanner_demo.Driver.Manager.Locks.Progress.{IsBack, LockSteps-or_IsBack}

abbrev start : Manager
start = record { driver_dir = codes "lib"; entry_map = []; heap = [] }

abbrev known : Manager
known = add_entry (codes "db") (fresh_entry (codes "lib") (codes "db") (codes "77") (pos 5)) start

abbrev at_5 : Call
at_5 = record { name = codes "db"; url = codes "u"; checksum = codes "77"; now = pos 5 }

abbrev at_6 : Call
at_6 = record { name = codes "db"; url = codes "u"; checksum = codes "77"; now = pos 6 }

abbrev both_wait : Locked
both_wait = record {
  manager = start;
  workers = waiting at_5 ∷ waiting at_6 ∷ [];
  log = [];
  lock = none;
  download_locks = λ id. none;
}

none_in_lock : (i : ℕ) (c : Call) → get_elem? both_wait.workers i ≡ some (in_lock c) → ⊥
none_in_lock zero c h = cc
none_in_lock (suc zero) c h = cc
none_in_lock (suc (suc i)) c h = cc

none_in_download :
    (i id : ℕ) (url : Bytes) → get_elem? both_wait.workers i ≡ some (in_download url id) → ⊥
none_in_download zero id url h = cc
none_in_download (suc zero) id url h = cc
none_in_download (suc (suc i)) id url h = cc

both_wait-IsOwned : IsOwned both_wait
unfolding Dict.lookup
both_wait-IsOwned = record {
  sound = record {
    valid = record { bound = λ name id h. cc; downloaded = λ id e h. cc };
    held = (tt, (tt, tt));
    logged = tt;
    once = tt;
  };
  in_lock_has = λ i c h. absurd (none_in_lock i c h);
  has_in_lock = λ i h. cc;
  in_download_has = λ i id url h. absurd (none_in_download i id url h);
  has_in_download = λ i id h. cc;
}

-- The second call waits for the first.
abbrev one_in_lock : Locked
one_in_lock = record both_wait { workers = in_lock at_5 ∷ waiting at_6 ∷ []; lock = some 0 }

one_enters : LockSteps both_wait one_in_lock
one_enters =
    step both_wait one_in_lock one_in_lock (takes_lock 0 at_5 both_wait refl refl)
      (stay one_in_lock)

abbrev one_behind : Locked
one_behind = record both_wait {
  manager = known;
  workers = behind_lock (codes "u") 0 ∷ waiting at_6 ∷ [];
}

LockSteps-exclusive_example :
    ((c d : Call)
      → get_elem? one_in_lock.workers 0 ≡ some (in_lock c)
      → get_elem? one_in_lock.workers 1 ≡ some (in_lock d)
      → ◌≡◌ {A = ℕ} 0 1)
    × ((id : ℕ) (url other : Bytes)
        → get_elem? one_in_lock.workers 0 ≡ some (in_download url id)
        → get_elem? one_in_lock.workers 1 ≡ some (in_download other id)
        → ◌≡◌ {A = ℕ} 0 1)
LockSteps-exclusive_example =
    LockSteps-exclusive both_wait one_in_lock 0 1 both_wait-IsOwned one_enters

LockSteps-or_IsBack_example :
    All IsBack one_in_lock.workers ⊎ ((u : Locked) × LockStep one_in_lock u)
LockSteps-or_IsBack_example = LockSteps-or_IsBack both_wait one_in_lock both_wait-IsOwned one_enters
