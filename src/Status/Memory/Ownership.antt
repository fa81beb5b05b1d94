-- ===== src/Status/Memory/Ownership.antt =====
-- Which uses of Status are safe: every array has one owner, unless a Status that is an error is
-- copied.
use mathlib.Core.Path.{fun_ext, subst}
use sr_scanner_demo.Base.{
  ℕ, ◌+◌, ◌≤◌, Option, none, some, ◌≡◌, ◌≢◌, refl, arith, Bytes, done, fault, double_free, dangling,
  ◌>>=◌, false, ◌==◌, Option-cases, Bool-cases, inl, inr,
}
use sr_scanner_demo.Status.{c_str}
use sr_scanner_demo.Status.Memory.{
  Memory, update, delete_array, Op, construct_ok, construct_error, copy_construct, copy_assign,
  move_construct, move_assign, destroy, run, message_at,
}

-- Every pointer that a variable holds is allocated, and no other variable holds it.
pub record IsOwned (m : Memory) : Type 0 where
  pub live : (x p : ℕ) → m.slot x ≡ some p → m.block p ≢ none
  pub unique : (x y p : ℕ) → m.slot x ≡ some p → m.slot y ≡ some p → x ≡ y
  pub fresh : (p : ℕ) → m.next ≤ p → m.block p ≡ none

-- The operation copies no pointer but null.
abbrev pub CopiesOk : Op → Memory → Type 0
CopiesOk (copy_construct x y) m = m.slot y ≡ none
CopiesOk (copy_assign x y) m = m.slot y ≡ none
CopiesOk _ m = Unit

clear-IsOwned :
    (x : ℕ) (m : Memory) → IsOwned m → IsOwned (record m { slot = update m.slot x none })
clear-IsOwned x m own = record {
  live = λ y p e. grind (arith, own.live y p);
  unique = λ y z p e e'. grind (arith, own.unique y z p);
  fresh = own.fresh;
}

move-IsOwned :
    (x y : ℕ) (m : Memory)
    → IsOwned m
    → IsOwned (record m { slot = update (update m.slot x (m.slot y)) y none })
move-IsOwned x y m own = record {
  live = λ z p e. grind (arith, own.live z p, own.live y p);
  unique = λ z w p e e'. grind (arith, own.unique z w p, own.unique z y p, own.unique y w p);
  fresh = own.fresh;
}

allocate-IsOwned :
    (x : ℕ) (text : Bytes) (m : Memory)
    → IsOwned m
    → IsOwned (record {
      next = m.next + 1;
      block = update m.block m.next (some text);
      slot = update m.slot x (some m.next);
    })
allocate-IsOwned x text m own = record {
  live = λ y p e. grind (arith, own.live y p);
  unique =
      λ y z p e e'. grind (arith, own.unique y z p, own.live y p, own.live z p, own.fresh m.next);
  fresh = λ p h. grind (arith, own.fresh p);
}

-- The owner of an array gives it up and deletes it.
delete-IsOwned :
    (x p : ℕ) (m : Memory)
    → IsOwned m
    → m.slot x ≡ some p
    → IsOwned (record m { block = update m.block p none; slot = update m.slot x none })
delete-IsOwned x p m own e = record {
  live = λ y q e'. grind (arith, own.live y q, own.unique x y p);
  unique = λ y z q e' e''. grind (arith, own.unique y z q);
  fresh = λ q h. grind (arith, own.fresh q);
}

-- `delete[]` of what a variable holds succeeds, and leaves the other variables their arrays.
delete_array-IsOwned :
    (x : ℕ) (m : Memory)
    → IsOwned m
    → (m' : Memory) × (delete_array (m.slot x) m ≡ done m')
      × (m'.slot ≡ m.slot)
      × IsOwned (record m' { slot = update m'.slot x none })
unfolding delete_array
delete_array-IsOwned x m own = elim (Option-cases (m.slot x)) [
  | inl e ↦ (m, rw (e, delete_array), refl, clear-IsOwned x m own)
  | inr (p, e) ↦ elim (Option-cases (m.block p)) [
    | inl dead ↦ absurd (own.live x p e dead)
    | inr (text, here) ↦ (
      record m { block = update m.block p none },
      rw (e, delete_array) (rw here),
      refl,
      delete-IsOwned x p m own e,
    )
  ]
]

overwritten :
    (x y : ℕ) (f : ℕ → Option ℕ)
    → (x == y) ≡ false
    → update (update (update f x none) x (update f x none y)) y none
      ≡ update (update f x (f y)) y none
overwritten x y f h = fun_ext λ j. ground arith

-- Where every array that is pointed to is allocated and has one owner, every operation that copies
-- no error runs without a fault and keeps it so.
pub run-IsOwned :
    (op : Op) (m : Memory)
    → IsOwned m
    → CopiesOk op m
    → (m' : Memory) × (run op m ≡ done m') × IsOwned m'
unfolding run
run-IsOwned (construct_ok x) m own c = (_, refl, clear-IsOwned x m own)
run-IsOwned (construct_error x msg) m own c = (_, refl, allocate-IsOwned x (c_str msg) m own)
run-IsOwned (copy_construct x y) m own c = rw c (_, refl, clear-IsOwned x m own)
run-IsOwned (copy_assign x y) m own c = rw c (_, refl, clear-IsOwned x m own)
run-IsOwned (move_construct x y) m own c = (_, refl, move-IsOwned x y m own)
run-IsOwned (move_assign x y) m own c = elim (Bool-cases (x == y)) [
  | inl same ↦ (m, rw same, own)
  | inr other ↦
      let (m', e, kept, owned) = delete_array-IsOwned x m own in
      (
        record m' { slot = update (update m'.slot x (m'.slot y)) y none },
        rw (other, e, run),
        subst (λ f. IsOwned (record m' { slot = f })) (overwritten x y m'.slot other)
            (move-IsOwned x y (record m' { slot = update m'.slot x none }) owned),
      )
]
run-IsOwned (destroy x) m own c =
    let (m', e, kept, owned) = delete_array-IsOwned x m own in
    (record m' { slot = update m'.slot x none }, rw (e, run), owned)

-- A copy of an error shares its array: once one of the two is destroyed, the other's destructor
-- deletes the array a second time, and its message is read from freed memory.
pub copy-destroy_twice :
    (x y p : ℕ) (text : Bytes) (m : Memory)
    → x ≢ y
    → m.slot y ≡ some p
    → m.block p ≡ some text
    → (m' : Memory) × ((run (copy_construct x y) m >>= run (destroy y)) ≡ done m')
      × (message_at x m' ≡ fault dangling)
      × (run (destroy x) m' ≡ fault double_free)
unfolding run delete_array message_at
copy-destroy_twice x y p text m differ held here = (
  record m { block = update m.block p none; slot = update (update m.slot x (m.slot y)) y none },
  ground arith,
  ground arith,
  ground arith,
)
