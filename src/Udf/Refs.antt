-- ===== src/Udf/Refs.antt =====
-- be/udf/java_udf.{h,cpp}: the special member functions of JavaGlobalRef and JVMClass. The destructor of
-- JavaGlobalRef and its `clear` do nothing.
use sr_scanner_demo.Base.{ℕ, ◌+◌, none, some, List, [], ◌∷◌, ◌++◌, get_elem?, set}
use sr_scanner_demo.Udf.Jni.{Ref, null}

-- The variables of type JavaGlobalRef, by number, with their handles, the handles that a variable had
-- when its destructor ran, and those that were given to `DeleteGlobalRef`.
pub record Refs : Type 0 where
  pub handles : List Ref
  pub dropped : List Ref
  pub deleted : List Ref

pub data RefOp : Type 0 where
  -- JavaGlobalRef(jobject)
  construct : Ref → RefOp
  -- JavaGlobalRef(const JavaGlobalRef&), of a variable
  copy_construct : ℕ → RefOp
  -- JavaGlobalRef(JavaGlobalRef&&), of a variable
  move_construct : ℕ → RefOp
  -- operator=(JavaGlobalRef&&), of two variables that may be the same
  move_assign : ℕ → ℕ → RefOp
  clear : ℕ → RefOp
  -- the destructor of a variable, which is null from there on
  destroy : ℕ → RefOp

abbrev add : Ref → Refs → Refs
add r s = record s { handles = s.handles ++ r ∷ [] }

-- `JavaGlobalRef tmp(std::move(other)); std::swap(this->_handle, tmp._handle);` and the end of `tmp`,
-- where `handle` is what `tmp` got and `s` has `other` null.
unfoldable pub swap_in : ℕ → Ref → Refs → Refs
swap_in i handle s = elim (get_elem? s.handles i) [
  | none ↦ record s { dropped = handle ∷ s.dropped }
  | some this ↦ record s { handles = set s.handles i handle; dropped = this ∷ s.dropped }
]

-- An operation on a variable that is not there changes nothing.
unfoldable pub run_ref_op : RefOp → Refs → Refs
unfolding swap_in
run_ref_op (construct r) s = add r s
run_ref_op (copy_construct j) s = elim (get_elem? s.handles j) [
  | none ↦ s
  | some handle ↦ add handle s
]
run_ref_op (move_construct j) s = elim (get_elem? s.handles j) [
  | none ↦ s
  | some handle ↦ add handle (record s { handles = set s.handles j null })
]
run_ref_op (move_assign i j) s = elim (get_elem? s.handles j) [
  | none ↦ s
  | some handle ↦ swap_in i handle (record s { handles = set s.handles j null })
]
run_ref_op (clear i) s = s
run_ref_op (destroy i) s = elim (get_elem? s.handles i) [
  | none ↦ s
  | some handle ↦ record s { handles = set s.handles i null; dropped = handle ∷ s.dropped }
]

unfoldable pub run_all : List RefOp → Refs → Refs
unfolding run_ref_op
run_all [] s = s
run_all (op ∷ ops) s = run_all ops (run_ref_op op s)

-- JVMClass(JVMClass&&), of the variable `j`; `n` variables are there, and the new one is `n`.
abbrev pub class_move_construct : ℕ → ℕ → List RefOp
class_move_construct j n = construct null ∷ move_assign n j ∷ []

-- `std::swap` of the variables `i` and `j`; its own variable is `n`.
abbrev pub swap_refs : ℕ → ℕ → ℕ → List RefOp
swap_refs i j n = move_construct i ∷ move_assign i j ∷ move_assign j n ∷ destroy n ∷ []

-- operator=(JVMClass&&), whose `tmp` is the variable `n`.
abbrev pub class_move_assign : ℕ → ℕ → ℕ → List RefOp
class_move_assign i j n = class_move_construct j n ++ (swap_refs i n (n + 1) ++ destroy n ∷ [])
