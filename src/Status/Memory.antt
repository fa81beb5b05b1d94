-- ===== src/Status/Memory.antt =====
-- be/common/status.h: the char arrays that Status objects point to. A program has Status variables,
-- numbered; each holds a pointer, `none` for null. A destroyed or not yet constructed variable is
-- one that holds null.
pub mod Ownership
pub mod Copies
use sr_scanner_demo.Base.{
  ℕ, ◌+◌, Option, none, some, Bytes, [], Outcome, done, throws, fault, unfinished, double_free,
  dangling, ◌==◌, if◌then◌else◌,
}
use sr_scanner_demo.Status.{c_str}

pub record Memory : Type 0 where
  -- the next address that `new` gives out
  pub next : ℕ
  -- the arrays that are allocated
  pub block : ℕ → Option Bytes
  -- `_state` of each variable
  pub slot : ℕ → Option ℕ

abbrev pub update {ℓ} : {A : Type ℓ} → (ℕ → A) → ℕ → A → ℕ → A
update f i v j = if i == j then v else f j

-- `delete[] p`
unfoldable pub delete_array : Option ℕ → Memory → Outcome Memory
delete_array none m = done m
delete_array (some p) m = elim (m.block p) [
  | none ↦ fault double_free
  | some text ↦ done (record m { block = update m.block p none })
]

-- The operations of the class, on variables.
pub data Op : Type 0 where
  -- `Status x;`, `Status x = Status::OK();`
  construct_ok : ℕ → Op
  -- `Status x = Status::InternalError(msg);`
  construct_error : ℕ → Bytes → Op
  -- `Status x(y);`, the defaulted copy constructor
  copy_construct : ℕ → ℕ → Op
  -- `x = y;`, the defaulted copy assignment
  copy_assign : ℕ → ℕ → Op
  -- `Status x(std::move(y));`
  move_construct : ℕ → ℕ → Op
  -- `x = std::move(y);`
  move_assign : ℕ → ℕ → Op
  -- `~Status()` of x
  destroy : ℕ → Op

unfoldable pub run : Op → Memory → Outcome Memory
unfolding delete_array
run (construct_ok x) m = done (record m { slot = update m.slot x none })
run (construct_error x msg) m = done (record {
  next = m.next + 1;
  block = update m.block m.next (some (c_str msg));
  slot = update m.slot x (some m.next);
})
run (copy_construct x y) m = done (record m { slot = update m.slot x (m.slot y) })
run (copy_assign x y) m = done (record m { slot = update m.slot x (m.slot y) })
run (move_construct x y) m = done (record m { slot = update (update m.slot x (m.slot y)) y none })
run (move_assign x y) m = if x == y then done m else elim (delete_array (m.slot x) m) [
  | done m' ↦ done (record m' { slot = update (update m'.slot x (m'.slot y)) y none })
  | throws e ↦ throws e
  | fault e ↦ fault e
  | unfinished ↦ unfinished
]
run (destroy x) m = elim (delete_array (m.slot x) m) [
  | done m' ↦ done (record m' { slot = update m'.slot x none })
  | throws e ↦ throws e
  | fault e ↦ fault e
  | unfinished ↦ unfinished
]

-- `message()`
unfoldable pub message_at : ℕ → Memory → Outcome Bytes
message_at x m = elim (m.slot x) [
  | none ↦ done []
  | some p ↦ elim (m.block p) [ none ↦ fault dangling | some text ↦ done text ]
]
