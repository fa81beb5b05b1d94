-- ===== src/Driver/Manager/Locks/Refinement.antt =====
-- The calls of be/runtime/jdbc_driver_manager.cpp with their locks, as steps of the calls without: a block
-- behind a lock is one step.
use mathlib.Core.Path.{subst}
use sr_scanner_demo.Base.{
  ℕ, zero, suc, some, List, [], ◌∷◌, ◌≡◌, refl, sym, ap, ◌∙◌, get_elem?, set, Bytes,
}
use sr_scanner_demo.Driver.Manager.{Reserved, ready, pending}
use sr_scanner_demo.Driver.Manager.Interleaving.{
  Thread, asking, holding, answered, behind, Step, reserves, finishes, Steps,
}
use sr_scanner_demo.Driver.Manager.Interleaving
use sr_scanner_demo.Driver.Manager.Locks.{
  Worker, waiting, in_lock, behind_lock, in_download, back, Locked, behind_reserved, LockStep,
  takes_lock, leaves_lock, takes_download_lock, leaves_download_lock, stay, step, thread_of,
  threads_of, unlocked,
}

pub threads_of-get :
    (ws : List Worker) (i : ℕ) (w : Worker)
    → get_elem? ws i ≡ some w
    → get_elem? (threads_of ws) i ≡ some (thread_of w)
threads_of-get [] i w h = cc
threads_of-get (v ∷ ws) zero w h = let q : v ≡ w = cc h in ap (λ x. some (thread_of x)) q
threads_of-get (v ∷ ws) (suc i) w h = threads_of-get ws i w h

threads_of-set :
    (ws : List Worker) (i : ℕ) (w : Worker)
    → threads_of (set ws i w) ≡ set (threads_of ws) i (thread_of w)
threads_of-set [] i w = refl
threads_of-set (v ∷ ws) zero w = refl
threads_of-set (v ∷ ws) (suc i) w = ap (λ ts. thread_of v ∷ ts) (threads_of-set ws i w)

-- A worker that takes a lock stands where it stood.
threads_of-same :
    (ws : List Worker) (i : ℕ) (v w : Worker)
    → get_elem? ws i ≡ some v
    → thread_of w ≡ thread_of v
    → threads_of (set ws i w) ≡ threads_of ws
threads_of-same [] i v w h e = refl
threads_of-same (u ∷ ws) zero v w h e =
    let q : u ≡ v = cc h in ap (λ t. t ∷ threads_of ws) (e ∙ ap thread_of (sym q))
threads_of-same (u ∷ ws) (suc i) v w h e =
    ap (λ ts. thread_of u ∷ ts) (threads_of-same ws i v w h e)

behind_reserved-thread :
    (url : Bytes) (r : Reserved) → thread_of (behind_reserved url r) ≡ behind url r
behind_reserved-thread url (ready location) = refl
behind_reserved-thread url (pending id) = refl

pub LockStep-Steps : (s t : Locked) → LockStep s t → Steps (unlocked s) (unlocked t)
LockStep-Steps _ _ (takes_lock i c s at_i free) =
    subst (λ ts. Steps (unlocked s) (record { manager = s.manager; threads = ts; log = s.log }))
      (sym (threads_of-same s.workers i (waiting c) (in_lock c) at_i refl))
      (Interleaving.stay (unlocked s))
LockStep-Steps _ _ (leaves_lock i c r m' s at_i has h) =
    subst (λ ts. Steps (unlocked s) (record { manager = m'; threads = ts; log = s.log }))
      (sym (
        threads_of-set s.workers i (behind_reserved c.url r)
        ∙ ap (set (threads_of s.workers) i) (behind_reserved-thread c.url r)))
      (Interleaving.step _ _ _
        (reserves i c r s.manager m' (threads_of s.workers) s.log
          (threads_of-get s.workers i (in_lock c) at_i) h)
        (Interleaving.stay _))
LockStep-Steps _ _ (takes_download_lock i id url s at_i free) =
    subst (λ ts. Steps (unlocked s) (record { manager = s.manager; threads = ts; log = s.log }))
      (sym (threads_of-same s.workers i (behind_lock url id) (in_download url id) at_i refl))
      (Interleaving.stay (unlocked s))
LockStep-Steps _ _ (leaves_download_lock i id url location m' log' s at_i has h) =
    subst (λ ts. Steps (unlocked s) (record { manager = m'; threads = ts; log = log' }))
      (sym (threads_of-set s.workers i (back location)))
      (Interleaving.step _ _ _
        (finishes i id url location s.manager m' (threads_of s.workers) s.log log'
          (threads_of-get s.workers i (in_download url id) at_i) h)
        (Interleaving.stay _))
