-- ===== src/Driver/Manager/Locks/Ownership.antt =====
-- Who has which lock in be/runtime/jdbc_driver_manager.cpp, however calls interleave.
use mathlib.Core.Option.{some-injective}
use sr_scanner_demo.Base.{ℕ, none, some, ◌≡◌, inl, inr, refl, sym, ap, ◌∙◌, get_elem?, set, Bytes}
use sr_scanner_demo.Driver.Manager.{Reserved}
use sr_scanner_demo.Driver.Manager.Registry.{Call}
use sr_scanner_demo.Driver.Manager.Interleaving.{IsSound}
use sr_scanner_demo.Driver.Manager.Interleaving.Soundness.{Steps-IsSound}
use sr_scanner_demo.Driver.Manager.Locks.{
  waiting, in_lock, in_download, Locked, behind_reserved, LockStep, takes_lock, leaves_lock,
  takes_download_lock, leaves_download_lock, LockSteps, stay, step, unlocked, IsOwned,
}
use sr_scanner_demo.Driver.Manager.Locks.Places.{
  moved, was, still, there, elsewhere, behind_not_in_lock, behind_not_in_download,
}
use sr_scanner_demo.Driver.Manager.Locks.Downloads.{
  takes_download_lock-IsOwned, leaves_download_lock-IsOwned,
}
use sr_scanner_demo.Driver.Manager.Locks.Refinement.{LockStep-Steps}

takes_lock-IsOwned :
    (i : ℕ) (c : Call) (s : Locked) (at_i : get_elem? s.workers i ≡ some (waiting c))
    → s.lock ≡ none
    → IsSound (unlocked (record s { workers = set s.workers i (in_lock c); lock = some i }))
    → IsOwned s
    → IsOwned (record s { workers = set s.workers i (in_lock c); lock = some i })
takes_lock-IsOwned i c s at_i free sound o = record {
  sound = sound;
  in_lock_has = λ j c' at_j. elim (moved s.workers i j (in_lock c) (waiting c) at_i) [
    | inl (same, here) ↦ ap some same
    | inr (other, here) ↦ let q = o.in_lock_has j c' (sym here ∙ at_j) in cc (q, free)
  ];
  has_in_lock = λ j has.
      let same : i ≡ j = some-injective i j has in
      (
        c,
        ap (get_elem? (set s.workers i (in_lock c))) (sym same)
            ∙ there s.workers i (in_lock c) (waiting c) at_i,
      );
  in_download_has = λ j id url at_j.
      o.in_download_has j id url
        (was s.workers i (in_lock c) (waiting c) at_i j (in_download url id) (λ e. cc) at_j);
  has_in_download = λ j id has.
      let (url, at_j) = o.has_in_download j id has in
      (url, still s.workers i (in_lock c) (waiting c) at_i j (in_download url id) (λ e. cc) at_j);
}

leaves_lock-IsOwned :
    (i : ℕ) (c : Call) (r : Reserved) (s t : Locked)
    (at_i : get_elem? s.workers i ≡ some (in_lock c))
    → s.lock ≡ some i
    → t.workers ≡ set s.workers i (behind_reserved c.url r)
    → t.lock ≡ none
    → t.download_locks ≡ s.download_locks
    → IsSound (unlocked t)
    → IsOwned s
    → IsOwned t
leaves_lock-IsOwned i c r s t at_i had ws lock downs sound o =
    let v = behind_reserved c.url r in
    let w = in_lock c in
    record {
      sound = sound;
      in_lock_has = λ j c' at_j.
          let at' = ap (λ l. get_elem? l j) (sym ws) ∙ at_j in
          let no = behind_not_in_lock c.url r c' in
          let q = o.in_lock_has j c' (was s.workers i v w at_i j (in_lock c') no at') in
          absurd (
            elsewhere s.workers i v w at_i j (in_lock c') no at'
              (some-injective i j (sym had ∙ q)));
      has_in_lock = λ j has. absurd (let q = sym lock ∙ has in cc q);
      in_download_has = λ j id url at_j.
          ap (λ f. f id) downs
          ∙ o.in_download_has j id url (
              was s.workers i v w at_i j (in_download url id)
                (behind_not_in_download c.url r url id) (ap (λ l. get_elem? l j) (sym ws) ∙ at_j));
      has_in_download = λ j id has.
          let (url, at_j) = o.has_in_download j id (ap (λ f. f id) (sym downs) ∙ has) in
          (
            url,
            ap (λ l. get_elem? l j) ws
                ∙ still s.workers i v w at_i j (in_download url id) (λ e. cc) at_j,
          );
    }

LockStep-IsOwned : (s t : Locked) → LockStep s t → IsOwned s → IsOwned t
LockStep-IsOwned s t one o =
    preserved s t one (Steps-IsSound (unlocked s) (unlocked t) (LockStep-Steps s t one) o.sound) o
  where
    preserved : (s t : Locked) → LockStep s t → IsSound (unlocked t) → IsOwned s → IsOwned t
    preserved _ _ (takes_lock i c s at_i free) sound o = takes_lock-IsOwned i c s at_i free sound o
    preserved _ _ (leaves_lock i c r m' s at_i had h) sound o =
        leaves_lock-IsOwned i c r s _ at_i had refl refl refl sound o
    preserved _ _ (takes_download_lock i id url s at_i free) sound o =
        takes_download_lock-IsOwned i id url s _ at_i free refl refl refl sound o
    preserved _ _ (leaves_download_lock i id url location m' log' s at_i had h) sound o =
        leaves_download_lock-IsOwned i id url location s _ at_i had refl refl refl sound o

-- A call keeps having a lock exactly while it is in the block behind it.
pub LockSteps-IsOwned : (s t : Locked) → LockSteps s t → IsOwned s → IsOwned t
LockSteps-IsOwned _ _ (stay s) o = o
LockSteps-IsOwned _ _ (step s t u one more) o =
    LockSteps-IsOwned t u more (LockStep-IsOwned s t one o)

-- From a state in which each lock has the call that is in its block, however calls take and give back their
-- locks: no two calls are in the block under `_lock` at once, and no two in the block under the
-- `download_lock` of one entry.
pub LockSteps-exclusive :
    (s t : Locked) (i j : ℕ)
    → IsOwned s
    → LockSteps s t
    → ((c d : Call)
        → get_elem? t.workers i ≡ some (in_lock c)
        → get_elem? t.workers j ≡ some (in_lock d)
        → i ≡ j)
      × ((id : ℕ) (url other : Bytes)
          → get_elem? t.workers i ≡ some (in_download url id)
          → get_elem? t.workers j ≡ some (in_download other id)
          → i ≡ j)
LockSteps-exclusive s t i j o run =
    let p = LockSteps-IsOwned s t run o in
    (
      λ c d at_i at_j. some-injective i j (sym (p.in_lock_has i c at_i) ∙ p.in_lock_has j d at_j),
      λ id url other at_i at_j.
          some-injective i j
            (sym (p.in_download_has i id url at_i) ∙ p.in_download_has j id other at_j),
    )
