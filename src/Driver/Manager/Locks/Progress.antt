-- ===== src/Driver/Manager/Locks/Progress.antt =====
-- No deadlock in be/runtime/jdbc_driver_manager.cpp: where a call waits for a lock, the call that has it can
-- go on.
use sr_scanner_demo.Base.{
  ℕ, suc, some, List, [], ◌∷◌, All, All-get_elem?, ◌≡◌, ◌⊎◌, inl, inr, refl, ◌∙◌, Option-cases,
  Bytes, get_elem?, done, Bool-cases, ==_iff,
}
use sr_scanner_demo.Status.{ok_status}
use sr_scanner_demo.Driver.Manager.{
  Entry, Manager, set_entry, pending, mark_downloaded, download_driver, finish,
}
use sr_scanner_demo.Driver.Manager.Invariant.{get_elem?-set}
use sr_scanner_demo.Driver.Manager.Location.{reserve_lem, entry_at_here}
use sr_scanner_demo.Driver.Manager.Registry.{Call}
use sr_scanner_demo.Driver.Manager.Interleaving.{holding, note, Holds}
use sr_scanner_demo.Driver.Manager.Locks.{
  Worker, waiting, in_lock, behind_lock, in_download, back, Locked, LockStep, takes_lock,
  leaves_lock, takes_download_lock, leaves_download_lock, LockSteps, threads_of, IsOwned,
}
use sr_scanner_demo.Driver.Manager.Locks.Refinement.{threads_of-get}
use sr_scanner_demo.Driver.Manager.Locks.Ownership.{LockSteps-IsOwned}

-- A call that has its entry comes through the download step.
finish_total :
    (id : ℕ) (url : Bytes) (e : Entry) (m : Manager) (log : List ℕ)
    → get_elem? m.heap id ≡ some e
    → (m' : Manager) × (log' : List ℕ) × (finish (note id) url (pending id) m log
        ≡ done (ok_status, e.location, m', log'))
unfolding finish download_driver
finish_total id url e m log here =
    let at_entry = entry_at_here id e m here in
    elim (Bool-cases e.is_downloaded) [
      | inl d ↦ (m, log, rw (at_entry, finish, download_driver) (rw d (rw at_entry refl)))
      | inr d ↦
          let n = set_entry id (mark_downloaded e) m in
          let there =
            get_elem?-set m.heap id id (mark_downloaded e) e here
            ∙ rw ((==_iff id id).1 refl) refl in
          (
            n,
            id ∷ log,
            rw (at_entry, finish, download_driver)
                (rw d (rw (entry_at_here id (mark_downloaded e) n there) refl)),
          )
    ]

abbrev CanStep : Locked → Type 0
CanStep s = (t : Locked) × LockStep s t

in_lock-CanStep :
    (i : ℕ) (c : Call) (s : Locked)
    → get_elem? s.workers i ≡ some (in_lock c)
    → IsOwned s
    → CanStep s
in_lock-CanStep i c s at_i o =
    let (m', r, reserved, _) = reserve_lem c.name c.checksum c.now s.manager o.sound.valid in
    (_, leaves_lock i c r m' s at_i (o.in_lock_has i c at_i) reserved)

in_download-CanStep :
    (i id : ℕ) (url : Bytes) (s : Locked)
    → get_elem? s.workers i ≡ some (in_download url id)
    → IsOwned s
    → CanStep s
in_download-CanStep i id url s at_i o =
    let (e, here) =
      All-get_elem? (Holds s.manager) (threads_of s.workers) i (holding url id) o.sound.held
        (threads_of-get s.workers i (in_download url id) at_i) in
    let (m', log', finished) = finish_total id url e s.manager s.log here in
    (
      _,
      leaves_download_lock i id url e.location m' log' s at_i (o.in_download_has i id url at_i)
          finished,
    )

-- A call that has not returned can take a step, or the one that has its lock can.
open-CanStep :
    (i : ℕ) (w : Worker) (s : Locked)
    → get_elem? s.workers i ≡ some w
    → IsOwned s
    → ((location : Bytes) × (w ≡ back location)) ⊎ CanStep s
open-CanStep i (waiting c) s at_i o = inr (elim (Option-cases s.lock) [
  | inl free ↦ (_, takes_lock i c s at_i free)
  | inr (j, has) ↦ let (c', at_j) = o.has_in_lock j has in in_lock-CanStep j c' s at_j o
])
open-CanStep i (in_lock c) s at_i o = inr (in_lock-CanStep i c s at_i o)
open-CanStep i (behind_lock url id) s at_i o = inr (elim (Option-cases (s.download_locks id)) [
  | inl free ↦ (_, takes_download_lock i id url s at_i free)
  | inr (j, has) ↦
      let (url', at_j) = o.has_in_download j id has in in_download-CanStep j id url' s at_j o
])
open-CanStep i (in_download url id) s at_i o = inr (in_download-CanStep i id url s at_i o)
open-CanStep i (back location) s at_i o = inl (location, refl)

-- A call that has returned.
abbrev pub IsBack : Worker → Type 0
IsBack w = (location : Bytes) × (w ≡ back location)

each-IsBack :
    {C : Type 0} (ws : List Worker)
    → ((i : ℕ) (w : Worker) → get_elem? ws i ≡ some w → IsBack w ⊎ C)
    → All IsBack ws ⊎ C
each-IsBack [] f = inl tt
each-IsBack (w ∷ ws) f = elim (f 0 w refl) [
  | inr can ↦ inr can
  | inl returned ↦ elim (each-IsBack ws (λ i v at_i. f (suc i) v at_i)) [
    | inr can ↦ inr can
    | inl all ↦ inl (returned, all)
  ]
]

-- No deadlock: from a state in which each lock has the call that is in its block, however calls take and give
-- back their locks, some call can take a step in every state that is reached, until all have returned.
pub LockSteps-or_IsBack :
    (s t : Locked)
    → IsOwned s
    → LockSteps s t
    → All IsBack t.workers ⊎ ((u : Locked) × LockStep t u)
LockSteps-or_IsBack s t o run =
    each-IsBack t.workers (λ i w at_i. open-CanStep i w t at_i (LockSteps-IsOwned s t run o))
