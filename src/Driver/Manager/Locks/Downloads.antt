-- ===== src/Driver/Manager/Locks/Downloads.antt =====
-- The `download_lock`s of be/runtime/jdbc_driver_manager.cpp: taking and giving back one keeps who has which lock.
use mathlib.Core.Option.{some-injective}
use sr_scanner_demo.Base.{
  ℕ, none, some, ◌≡◌, inl, inr, sym, ap, ◌∙◌, get_elem?, set, ◌==◌, ==_iff, Bool-cases, Bytes,
}
use sr_scanner_demo.Driver.Manager.Interleaving.{IsSound}
use sr_scanner_demo.Driver.Manager.Locks.{
  in_lock, behind_lock, in_download, back, Locked, update_lock, unlocked, IsOwned,
}
use sr_scanner_demo.Driver.Manager.Locks.Places.{
  moved, was, still, there, elsewhere, update_lock-other,
}

pub takes_download_lock-IsOwned :
    (i id : ℕ) (url : Bytes) (s t : Locked)
    (at_i : get_elem? s.workers i ≡ some (behind_lock url id))
    → s.download_locks id ≡ none
    → t.workers ≡ set s.workers i (in_download url id)
    → t.lock ≡ s.lock
    → t.download_locks ≡ update_lock s.download_locks id (some i)
    → IsSound (unlocked t)
    → IsOwned s
    → IsOwned t
takes_download_lock-IsOwned i id url s t at_i free ws lock downs sound o =
    let v = in_download url id in
    let w = behind_lock url id in
    record {
      sound = sound;
      in_lock_has = λ j c at_j.
          lock
          ∙ o.in_lock_has j c (
              was s.workers i v w at_i j (in_lock c) (λ e. cc)
                (ap (λ l. get_elem? l j) (sym ws) ∙ at_j));
      has_in_lock = λ j has.
          let (c, at_j) = o.has_in_lock j (sym lock ∙ has) in
          (c, ap (λ l. get_elem? l j) ws ∙ still s.workers i v w at_i j (in_lock c) (λ e. cc) at_j);
      in_download_has = λ j k u at_j.
          let at' = ap (λ l. get_elem? l j) (sym ws) ∙ at_j in
          ap (λ f. f k) downs ∙ elim (moved s.workers i j v w at_i) [
            | inl (same, here) ↦
                let q = some-injective v (in_download u k) (sym here ∙ at') in
                let ids : id ≡ k = cc q in rw ((==_iff id k).1 ids) (ap some same)
            | inr (other, here) ↦
                let q = o.in_download_has j k u (sym here ∙ at') in
                elim (Bool-cases (id == k)) [
                  | inl e ↦
                      let ids = (==_iff id k).0 e in absurd (cc (q, free, ap s.download_locks ids))
                  | inr e ↦ update_lock-other s.download_locks id k (some i) e ∙ q
                ]
          ];
      has_in_download = λ j k has.
          let has' = ap (λ f. f k) (sym downs) ∙ has in
          elim (Bool-cases (id == k)) [
            | inl e ↦
                let same : i ≡ j = some-injective i j (rw e at has') in
                (
                  url,
                  ap (λ l. get_elem? l j) ws
                      ∙ ap (get_elem? (set s.workers i v)) (sym same)
                      ∙ there s.workers i v w at_i
                      ∙ ap (λ n. some (in_download url n)) ((==_iff id k).0 e),
                )
            | inr e ↦
                let (u, at_j) = o.has_in_download j k (rw e at has') in
                (
                  u,
                  ap (λ l. get_elem? l j) ws
                      ∙ still s.workers i v w at_i j (in_download u k) (λ e. cc) at_j,
                )
          ];
    }

pub leaves_download_lock-IsOwned :
    (i id : ℕ) (url location : Bytes) (s t : Locked)
    (at_i : get_elem? s.workers i ≡ some (in_download url id))
    → s.download_locks id ≡ some i
    → t.workers ≡ set s.workers i (back location)
    → t.lock ≡ s.lock
    → t.download_locks ≡ update_lock s.download_locks id none
    → IsSound (unlocked t)
    → IsOwned s
    → IsOwned t
leaves_download_lock-IsOwned i id url location s t at_i had ws lock downs sound o =
    let v = back location in
    let w = in_download url id in
    record {
      sound = sound;
      in_lock_has = λ j c at_j.
          lock
          ∙ o.in_lock_has j c (
              was s.workers i v w at_i j (in_lock c) (λ e. cc)
                (ap (λ l. get_elem? l j) (sym ws) ∙ at_j));
      has_in_lock = λ j has.
          let (c, at_j) = o.has_in_lock j (sym lock ∙ has) in
          (c, ap (λ l. get_elem? l j) ws ∙ still s.workers i v w at_i j (in_lock c) (λ e. cc) at_j);
      in_download_has = λ j k u at_j.
          let at' = ap (λ l. get_elem? l j) (sym ws) ∙ at_j in
          let no : v ≡ in_download u k → ⊥ = λ e. cc in
          let q = o.in_download_has j k u (was s.workers i v w at_i j (in_download u k) no at') in
          ap (λ f. f k) downs ∙ elim (Bool-cases (id == k)) [
            | inl e ↦
                let had' = ap s.download_locks (sym ((==_iff id k).0 e)) ∙ had in
                absurd (
                  elsewhere s.workers i v w at_i j (in_download u k) no at'
                    (some-injective i j (sym had' ∙ q)))
            | inr e ↦ update_lock-other s.download_locks id k none e ∙ q
          ];
      has_in_download = λ j k has.
          let has' = ap (λ f. f k) (sym downs) ∙ has in
          elim (Bool-cases (id == k)) [
            | inl e ↦ absurd (let q = rw e at has' in cc q)
            | inr e ↦
                let (u, at_j) = o.has_in_download j k (rw e at has') in
                let no : w ≡ in_download u k → ⊥ =
                  λ q. let ids : id ≡ k = cc q in let p = (==_iff id k).1 ids in cc (p, e) in
                (
                  u,
                  ap (λ l. get_elem? l j) ws
                      ∙ still s.workers i v w at_i j (in_download u k) no at_j,
                )
          ];
    }
