-- ===== src/Driver/Manager/Locks/Places.antt =====
-- The calls of be/runtime/jdbc_driver_manager.cpp, of which one moves on: where each stands then.
use mathlib.Core.Option.{some-injective}
use sr_scanner_demo.Base.{
  ℕ, Option, some, List, ◌≡◌, ◌⊎◌, inl, inr, refl, sym, ap, ◌∙◌, get_elem?, set, ◌==◌, ==_iff,
  Bool-cases, false, Bytes,
}
use sr_scanner_demo.Driver.Manager.{Reserved, ready, pending}
use sr_scanner_demo.Driver.Manager.Registry.{Call}
use sr_scanner_demo.Driver.Manager.Invariant.{get_elem?-set}
use sr_scanner_demo.Driver.Manager.Locks.{
  Worker, in_lock, in_download, update_lock, behind_reserved,
}

-- Behind a write a place is the one that was written, or is as it was.
pub moved :
    (ws : List Worker) (i j : ℕ) (v w : Worker)
    → get_elem? ws i ≡ some w
    → ((i ≡ j) × (get_elem? (set ws i v) j ≡ some v))
      ⊎ (((i == j) ≡ false) × (get_elem? (set ws i v) j ≡ get_elem? ws j))
moved ws i j v w h = elim (Bool-cases (i == j)) [
  | inl e ↦ inl ((==_iff i j).0 e, get_elem?-set ws i j v w h ∙ rw e refl)
  | inr e ↦ inr (e, get_elem?-set ws i j v w h ∙ rw e refl)
]

-- The workers that a lock is about, where the worker `i` goes from `w` to `v` and neither has it.
module _ (ws : List Worker) (i : ℕ) (v w : Worker) (h : get_elem? ws i ≡ some w) where
  -- A worker that stands where `v` does not stood there before.
  pub was :
      (j : ℕ) (x : Worker)
      → (v ≡ x → ⊥)
      → get_elem? (set ws i v) j ≡ some x
      → get_elem? ws j ≡ some x
  was j x apart at_j = elim (moved ws i j v w h) [
    | inl (same, here) ↦ absurd (apart (some-injective v x (sym here ∙ at_j)))
    | inr (other, here) ↦ sym here ∙ at_j
  ]

  -- A worker that stands where `w` did not still does.
  pub still :
      (j : ℕ) (x : Worker)
      → (w ≡ x → ⊥)
      → get_elem? ws j ≡ some x
      → get_elem? (set ws i v) j ≡ some x
  still j x apart at_j = elim (moved ws i j v w h) [
    | inl (same, here) ↦ absurd (apart (some-injective w x (sym h ∙ ap (get_elem? ws) same ∙ at_j)))
    | inr (other, here) ↦ here ∙ at_j
  ]

  pub there : get_elem? (set ws i v) i ≡ some v
  there = get_elem?-set ws i i v w h ∙ rw ((==_iff i i).1 refl) refl

  -- Who stands where neither did, stands elsewhere.
  pub elsewhere :
      (j : ℕ) (x : Worker) → (v ≡ x → ⊥) → get_elem? (set ws i v) j ≡ some x → (i ≡ j → ⊥)
  elsewhere j x apart at_j same =
      apart (some-injective v x (sym there ∙ ap (get_elem? (set ws i v)) same ∙ at_j))

pub update_lock-other :
    (locks : ℕ → Option ℕ) (id j : ℕ) (v : Option ℕ)
    → (id == j) ≡ false
    → update_lock locks id v j ≡ locks j
update_lock-other locks id j v e = rw e refl

pub behind_not_in_lock :
    (url : Bytes) (r : Reserved) (c : Call) → behind_reserved url r ≡ in_lock c → ⊥
behind_not_in_lock url (ready l) c e = cc
behind_not_in_lock url (pending id) c e = cc

pub behind_not_in_download :
    (url : Bytes) (r : Reserved) (u : Bytes) (id : ℕ) → behind_reserved url r ≡ in_download u id → ⊥
behind_not_in_download url (ready l) u id e = cc
behind_not_in_download url (pending j) u id e = cc
