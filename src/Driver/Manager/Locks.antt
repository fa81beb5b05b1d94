-- ===== src/Driver/Manager/Locks.antt =====
-- Calls of `get_driver_location` of be/runtime/jdbc_driver_manager.cpp that run at the same time, with the
-- mutexes `_lock` and `download_lock` and who has them: taking a lock, and leaving the block behind it, are
-- steps of their own.
pub mod Places
pub mod Downloads
pub mod Ownership
pub mod Refinement
pub mod Progress
use sr_scanner_demo.Base.{
  ℕ, Option, none, some, List, ◌≡◌, Bytes, get_elem?, set, done, ◌==◌, if◌then◌else◌, ◌∷◌, [],
}
use sr_scanner_demo.Status.{ok_status}
use sr_scanner_demo.Driver.Manager.{Manager, reserve, Reserved, ready, pending, finish}
use sr_scanner_demo.Driver.Manager.Registry.{Call}
use sr_scanner_demo.Driver.Manager.Interleaving.{
  Thread, asking, holding, answered, Running, note, IsSound,
}

-- Where a call stands: in front of the block under `_lock`, in it, in front of the block under the
-- entry's `download_lock`, in it, or back with `*location`.
pub data Worker : Type 0 where
  waiting in_lock : Call → Worker
  behind_lock in_download : Bytes → ℕ → Worker
  back : Bytes → Worker

-- A lock has the number of the call that has it.
pub record Locked : Type 0 where
  pub manager : Manager
  pub workers : List Worker
  pub log : List ℕ
  pub lock : Option ℕ
  pub download_locks : ℕ → Option ℕ

abbrev pub update_lock : (ℕ → Option ℕ) → ℕ → Option ℕ → ℕ → Option ℕ
update_lock locks id v j = if id == j then v else locks j

-- Where a call stands behind the block under `_lock`.
abbrev pub behind_reserved : Bytes → Reserved → Worker
behind_reserved url (ready location) = back location
behind_reserved url (pending id) = behind_lock url id

-- What may happen next. A lock is taken only where no call has it, and given back by the one that has it.
pub data LockStep : Locked → Locked → Type 0 where
  -- `std::lock_guard<std::mutex> l(_lock)`
  takes_lock :
      (i : ℕ) (c : Call) (s : Locked)
      → get_elem? s.workers i ≡ some (waiting c)
      → s.lock ≡ none
      → LockStep s (record s { workers = set s.workers i (in_lock c); lock = some i })
  -- the block, and its end
  leaves_lock :
      (i : ℕ) (c : Call) (r : Reserved) (m' : Manager) (s : Locked)
      → get_elem? s.workers i ≡ some (in_lock c)
      → s.lock ≡ some i
      → reserve c.name c.checksum c.now s.manager ≡ done (m', r)
      → LockStep s (record s {
        manager = m';
        workers = set s.workers i (behind_reserved c.url r);
        lock = none;
      })
  -- `std::unique_lock<std::mutex> l(entry->download_lock)`
  takes_download_lock :
      (i id : ℕ) (url : Bytes) (s : Locked)
      → get_elem? s.workers i ≡ some (behind_lock url id)
      → s.download_locks id ≡ none
      → LockStep s (record s {
        workers = set s.workers i (in_download url id);
        download_locks = update_lock s.download_locks id (some i);
      })
  -- the rest of `_download_driver`, its end, and the return
  leaves_download_lock :
      (i id : ℕ) (url location : Bytes) (m' : Manager) (log' : List ℕ) (s : Locked)
      → get_elem? s.workers i ≡ some (in_download url id)
      → s.download_locks id ≡ some i
      → finish (note id) url (pending id) s.manager s.log ≡ done (ok_status, location, m', log')
      → LockStep s (record {
        manager = m';
        workers = set s.workers i (back location);
        log = log';
        lock = s.lock;
        download_locks = update_lock s.download_locks id none;
      })

pub data LockSteps : Locked → Locked → Type 0 where
  stay : (s : Locked) → LockSteps s s
  step : (s t u : Locked) → LockStep s t → LockSteps t u → LockSteps s u

-- A call without regard to the locks that it has.
abbrev pub thread_of : Worker → Thread
thread_of (waiting c) = asking c
thread_of (in_lock c) = asking c
thread_of (behind_lock url id) = holding url id
thread_of (in_download url id) = holding url id
thread_of (back location) = answered location

abbrev pub threads_of : List Worker → List Thread
threads_of [] = []
threads_of (w ∷ ws) = thread_of w ∷ threads_of ws

abbrev pub unlocked : Locked → Running
unlocked s = record { manager = s.manager; threads = threads_of s.workers; log = s.log }

-- A call has a lock exactly while it is in the block behind it, and the state is sound.
pub record IsOwned (s : Locked) : Type 0 where
  pub sound : IsSound (unlocked s)
  pub in_lock_has : (i : ℕ) (c : Call) → get_elem? s.workers i ≡ some (in_lock c) → s.lock ≡ some i
  pub has_in_lock :
      (i : ℕ) → s.lock ≡ some i → (c : Call) × (get_elem? s.workers i ≡ some (in_lock c))
  pub in_download_has :
      (i id : ℕ) (url : Bytes)
      → get_elem? s.workers i ≡ some (in_download url id)
      → s.download_locks id ≡ some i
  pub has_in_download :
      (i id : ℕ)
      → s.download_locks id ≡ some i
      → (url : Bytes) × (get_elem? s.workers i ≡ some (in_download url id))
