-- ===== src/Driver/Manager/Interleaving.antt =====
-- Calls of `get_driver_location` of be/runtime/jdbc_driver_manager.cpp that run at the same time, one in
-- each thread: a step under `_lock`, then a step under the entry's `download_lock`.
pub mod Soundness
pub mod Serial
pub mod Races
pub mod Files
use sr_scanner_demo.Base.{
  ℕ, true, false, some, List, [], ◌∷◌, All, ◌≡◌, Bytes, get_elem?, set, done, ◌==◌,
}
use sr_scanner_demo.Status.{Status, ok_status}
use sr_scanner_demo.Driver.Manager.{Entry, Manager, reserve, Reserved, ready, pending, finish}
use sr_scanner_demo.Driver.Manager.Invariant.{IsValid}
use sr_scanner_demo.Driver.Manager.Registry.{Call}

-- Where a call stands: before the block under `_lock`, behind it with the url and the entry, or back
-- with `*location`.
pub data Thread : Type 0 where
  asking : Call → Thread
  holding : Bytes → ℕ → Thread
  answered : Bytes → Thread

-- The manager, the calls, and the entries whose download was run, the last one first.
pub record Running : Type 0 where
  pub manager : Manager
  pub threads : List Thread
  pub log : List ℕ

-- A download that is only noted.
abbrev pub note : ℕ → Bytes → Bytes → Bytes → Bytes → List ℕ → Status × List ℕ
note id url tmp_file target_file checksum log = (ok_status, id ∷ log)

-- Where a call stands behind the block under `_lock`.
abbrev pub behind : Bytes → Reserved → Thread
behind url (ready location) = answered location
behind url (pending id) = holding url id

-- What may happen next. The time of a call is what the clock shows in its block under `_lock`.
pub data Step : Running → Running → Type 0 where
  -- a call goes through the block under `_lock`
  reserves :
      (i : ℕ) (c : Call) (r : Reserved) (m m' : Manager) (threads : List Thread) (log : List ℕ)
      → get_elem? threads i ≡ some (asking c)
      → reserve c.name c.checksum c.now m ≡ done (m', r)
      → Step
          (record { manager = m; threads = threads; log = log })
          (record { manager = m'; threads = set threads i (behind c.url r); log = log })
  -- a call gets the entry's lock, runs `_download_driver` and returns
  finishes :
      (i id : ℕ) (url location : Bytes) (m m' : Manager) (threads : List Thread) (log log' : List ℕ)
      → get_elem? threads i ≡ some (holding url id)
      → finish (note id) url (pending id) m log ≡ done (ok_status, location, m', log')
      → Step
          (record { manager = m; threads = threads; log = log })
          (record { manager = m'; threads = set threads i (answered location); log = log' })

pub data Steps : Running → Running → Type 0 where
  stay : (s : Running) → Steps s s
  step : (s t u : Running) → Step s t → Steps t u → Steps s u

-- The log has an entry at most once.
abbrev pub IsOnce : List ℕ → Type 0
IsOnce [] = Unit
IsOnce (id ∷ log) = All (λ j. (j == id) ≡ false) log × IsOnce log

abbrev pub IsThere : Manager → ℕ → Type 0
IsThere m id = (e : Entry) × (get_elem? m.heap id ≡ some e)

-- A call that is behind the block under `_lock` has its entry.
abbrev pub Holds : Manager → Thread → Type 0
Holds m (asking c) = Unit
Holds m (holding url id) = IsThere m id
Holds m (answered location) = Unit

abbrev pub IsLogged : Manager → ℕ → Type 0
IsLogged m id = (e : Entry) × (get_elem? m.heap id ≡ some e) × (e.is_downloaded ≡ true)

pub record IsSound (s : Running) : Type 0 where
  pub valid : IsValid s.manager
  pub held : All (Holds s.manager) s.threads
  pub logged : All (IsLogged s.manager) s.log
  pub once : IsOnce s.log
