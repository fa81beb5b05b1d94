-- ===== src/Udf/Ownership.antt =====
-- Who holds the global references of be/udf/java_udf.{h,cpp}.
use sr_scanner_demo.Base.{
  ℕ, zero, suc, ◌+◌, false, some, List, [], ◌∷◌, ◌++◌, All, ◌≡◌, refl, ap, ◌∙◌, arith, get_elem?,
  set, Option-cases, inl, inr, ◌==◌, if◌then◌else◌,
}
use sr_scanner_demo.Udf.Jni.{Ref, null}
use sr_scanner_demo.Udf.Refs.{
  Refs, RefOp, construct, copy_construct, move_construct, move_assign, clear, destroy, swap_in,
  run_ref_op, run_all,
}

abbrev is_it : Ref → Ref → ℕ
is_it r x = if x == r then 1 else 0

abbrev count : Ref → List Ref → ℕ
count r [] = 0
count r (x ∷ xs) = is_it r x + count r xs

-- How often a reference is held by a variable, or was when the variable's destructor ran.
abbrev pub owners : Ref → Refs → ℕ
owners r s = count r s.handles + count r s.dropped

-- How many variables were made of a reference.
abbrev pub constructed : Ref → List RefOp → ℕ
constructed r [] = 0
constructed r (construct x ∷ ops) = is_it r x + constructed r ops
constructed r (copy_construct j ∷ ops) = constructed r ops
constructed r (move_construct j ∷ ops) = constructed r ops
constructed r (move_assign i j ∷ ops) = constructed r ops
constructed r (clear i ∷ ops) = constructed r ops
constructed r (destroy i ∷ ops) = constructed r ops

abbrev pub IsNoCopy : RefOp → Type 0
IsNoCopy (construct r) = Unit
IsNoCopy (copy_construct j) = ⊥
IsNoCopy (move_construct j) = Unit
IsNoCopy (move_assign i j) = Unit
IsNoCopy (clear i) = Unit
IsNoCopy (destroy i) = Unit

count-append : (r : Ref) (xs : List Ref) (x : Ref) → count r (xs ++ x ∷ []) ≡ count r xs + is_it r x
count-append r [] x = omega arith
count-append r (y ∷ xs) x = omega (arith, count-append r xs x)

count-set :
    (r : Ref) (xs : List Ref) (i : ℕ) (x y : Ref)
    → get_elem? xs i ≡ some x
    → count r (set xs i y) + is_it r x ≡ count r xs + is_it r y
count-set r [] i x y h = cc
count-set r (z ∷ xs) zero x y h = ground arith
count-set r (z ∷ xs) (suc i) x y h = omega (arith, count-set r xs i x y h)

module _ (r : Ref) (h : (null == r) ≡ false) where
  move_construct-owners :
      (j : ℕ) (s : Refs) → owners r (run_ref_op (move_construct j) s) ≡ owners r s
  unfolding run_ref_op
  move_construct-owners j s = elim (Option-cases (get_elem? s.handles j)) [
    | inl e ↦ rw (e, run_ref_op) refl
    | inr (x, e) ↦
        rw (e, run_ref_op)
          (ground
            (arith, count-append r (set s.handles j null) x, count-set r s.handles j x null e))
  ]

  swap_in-owners : (i : ℕ) (x : Ref) (s : Refs) → owners r (swap_in i x s) ≡ owners r s + is_it r x
  unfolding swap_in
  swap_in-owners i x s = elim (Option-cases (get_elem? s.handles i)) [
    | inl e ↦ rw (e, swap_in) (omega arith)
    | inr (y, e) ↦ rw (e, swap_in) (omega (arith, count-set r s.handles i y x e))
  ]

  move_assign-owners : (i j : ℕ) (s : Refs) → owners r (run_ref_op (move_assign i j) s) ≡ owners r s
  unfolding run_ref_op
  move_assign-owners i j s = elim (Option-cases (get_elem? s.handles j)) [
    | inl e ↦ rw (e, run_ref_op) refl
    | inr (x, e) ↦
        rw (e, run_ref_op)
          (ground (
            arith,
            swap_in-owners i x (record s { handles = set s.handles j null }),
            count-set r s.handles j x null e,
          ))
  ]

  destroy-owners : (i : ℕ) (s : Refs) → owners r (run_ref_op (destroy i) s) ≡ owners r s
  unfolding run_ref_op
  destroy-owners i s = elim (Option-cases (get_elem? s.handles i)) [
    | inl e ↦ rw (e, run_ref_op) refl
    | inr (x, e) ↦ rw (e, run_ref_op) (ground (arith, count-set r s.handles i x null e))
  ]

  swap_in-deleted : (i : ℕ) (x : Ref) (s : Refs) → (swap_in i x s).deleted ≡ s.deleted
  unfolding swap_in
  swap_in-deleted i x s = elim (Option-cases (get_elem? s.handles i)) [
    | inl e ↦ rw (e, swap_in) refl
    | inr (y, e) ↦ rw (e, swap_in) refl
  ]

  run_ref_op-deleted : (op : RefOp) (s : Refs) → (run_ref_op op s).deleted ≡ s.deleted
  unfolding run_ref_op
  run_ref_op-deleted (construct x) s = refl
  run_ref_op-deleted (copy_construct j) s = elim (Option-cases (get_elem? s.handles j)) [
    | inl e ↦ rw (e, run_ref_op) refl
    | inr (x, e) ↦ rw (e, run_ref_op) refl
  ]
  run_ref_op-deleted (move_construct j) s = elim (Option-cases (get_elem? s.handles j)) [
    | inl e ↦ rw (e, run_ref_op) refl
    | inr (x, e) ↦ rw (e, run_ref_op) refl
  ]
  run_ref_op-deleted (move_assign i j) s = elim (Option-cases (get_elem? s.handles j)) [
    | inl e ↦ rw (e, run_ref_op) refl
    | inr (x, e) ↦
        rw (e, run_ref_op) (swap_in-deleted i x (record s { handles = set s.handles j null }))
  ]
  run_ref_op-deleted (clear i) s = refl
  run_ref_op-deleted (destroy i) s = elim (Option-cases (get_elem? s.handles i)) [
    | inl e ↦ rw (e, run_ref_op) refl
    | inr (x, e) ↦ rw (e, run_ref_op) refl
  ]

  run_all-deleted : (ops : List RefOp) (s : Refs) → (run_all ops s).deleted ≡ s.deleted
  unfolding run_all
  run_all-deleted [] s = refl
  run_all-deleted (op ∷ ops) s = run_all-deleted ops (run_ref_op op s) ∙ run_ref_op-deleted op s

  owned :
      (ops : List RefOp) (s : Refs)
      → All IsNoCopy ops
      → owners r (run_all ops s) ≡ owners r s + constructed r ops
  unfolding run_all run_ref_op
  owned [] s k = omega arith
  owned (construct x ∷ ops) s (k, ks) =
      omega (arith, owned ops (run_ref_op (construct x) s) ks, count-append r s.handles x)
  owned (copy_construct j ∷ ops) s (k, ks) = elim k [ ]
  owned (move_construct j ∷ ops) s (k, ks) =
      owned ops (run_ref_op (move_construct j) s) ks
      ∙ ap (λ n. n + constructed r ops) (move_construct-owners j s)
  owned (move_assign i j ∷ ops) s (k, ks) =
      owned ops (run_ref_op (move_assign i j) s) ks
      ∙ ap (λ n. n + constructed r ops) (move_assign-owners i j s)
  owned (clear i ∷ ops) s (k, ks) = owned ops s ks
  owned (destroy i ∷ ops) s (k, ks) =
      owned ops (run_ref_op (destroy i) s) ks ∙ ap (λ n. n + constructed r ops) (destroy-owners i s)

  -- After any operations without a copy, a reference that is not null is held, or was when a destructor ran,
  -- as often as before and as variables were made of it, and no further one has been given to
  -- `DeleteGlobalRef`.
  pub run_all-owners :
      (ops : List RefOp) (s : Refs)
      → All IsNoCopy ops
      → (owners r (run_all ops s) ≡ owners r s + constructed r ops)
        × ((run_all ops s).deleted ≡ s.deleted)
  run_all-owners ops s k = (owned ops s k, run_all-deleted ops s)
