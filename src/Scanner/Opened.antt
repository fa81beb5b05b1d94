-- ===== src/Scanner/Opened.antt =====
-- What `open` of JDBCScanner in be/scanner/jdbc_scanner.cpp leaves as it was.
use sr_scanner_demo.Base.{
  bad_index, sym, ap, done, done-injective, List, [], ◌∷◌, ◌++◌, ◌⊎◌, inl, inr, Option, some, ◌≡◌,
  refl, Bytes, codes,
}
use sr_scanner_demo.Base.Int.{ℤ, pos, ltb_ℤ}
use sr_scanner_demo.Base.Actions.{
  Ensures, Ensures-give, Ensures-bind, Ensures-skip, Ensures-mono, Ensures-lift, Ensures-if,
  Ensures-fails,
}
use sr_scanner_demo.Status.{
  Status, ok_status, internal_error, value_or_die, status_or_is_ok, status_or_of_value,
}
use sr_scanner_demo.Runtime.Types.{PrimitiveType, type_varchar}
use sr_scanner_demo.Table.Descriptors.{SlotDescriptor}
use sr_scanner_demo.Udf.Jni.{Ref, Jni}
use sr_scanner_demo.Udf.Start.{JvmFunctionHelper, Jvm}
use sr_scanner_demo.Chunk.{new_chunk}
use sr_scanner_demo.Scanner.{JdbcScanner}
use sr_scanner_demo.Scanner.Laws.{checked_error-Ensures}
use sr_scanner_demo.Scanner.Returns.{
  init_jdbc_bridge-Ensures, init_jdbc_scan_context-Ensures, init_jdbc_scanner-Ensures,
  init_column_class_name-Leaves, init_jdbc_util-Ensures, open_scanner-Ensures,
}
use sr_scanner_demo.Scanner.Columns.{
  precheck_data_type, first_slot, init_column_class_name, first_column, open_scanner,
}

-- The context and the slots of a scanner are those of another.
abbrev pub IsLike : JdbcScanner → JdbcScanner → Type 0
IsLike s s' = (s'.scan_ctx ≡ s.scan_ctx) × (s'.slot_descs ≡ s.slot_descs)

-- The error of the check for an exception in `_init_column_class_name`.
abbrev pub columns_error : Status
columns_error = internal_error (codes "get JDBC result column class name failed")

-- One name is recorded, of a scanner that has a slot.
abbrev pub IsNamed : JdbcScanner → JdbcScanner → Type 0
IsNamed s s' =
    (name : Bytes) × (slot : SlotDescriptor) × (slots : List SlotDescriptor) × (s.slot_descs
      ≡ slot ∷ slots)
    × (s'.column_class_names ≡ s.column_class_names ++ name ∷ [])
    × (s'.result_column_types ≡ s.result_column_types ++ type_varchar ∷ [])

module _ {J : Type 0} (jni : Jni J) where
  -- An `open` that returns is OK, and leaves the context and the slots of the scanner as they are.
  pub open_scanner-IsLike :
      (java_home : Option Bytes) (s : JdbcScanner) (w : Jvm J) (r : (Status × JdbcScanner) × Jvm J)
      → open_scanner jni java_home s w ≡ done r
      → (r.0.0 ≡ ok_status) × IsLike s r.0.1
  open_scanner-IsLike java_home s w r h =
      let like = IsLike s in
      (open_scanner-Ensures jni like like like like like java_home s
          (init_jdbc_bridge-Ensures jni like s (λ _ _. (refl, refl)))
          (λ s₁ k. init_jdbc_scan_context-Ensures jni like s₁ (λ _. k))
          (λ s₂ k. init_jdbc_scanner-Ensures jni like s₂ (λ _. k) (λ _ _ _ _ _ _. k))
          (λ s₃ k. init_column_class_name-Leaves jni like s₃ (λ _ _. k) (λ _ _ _ _. k))
          (λ s₄ k. init_jdbc_util-Ensures jni like s₄ (λ _ _ _. k))).at
        w r tt h

  first_slot-Ensures :
      (slots : List SlotDescriptor)
      → Ensures
          (λ w. Unit)
          (first_slot jni slots)
          (λ slot w. (rest : List SlotDescriptor) × (slots ≡ slot ∷ rest))
  first_slot-Ensures [] = Ensures-fails bad_index
  first_slot-Ensures (slot ∷ slots) = Ensures-give slot (λ w _. (slots, refl))

  precheck_varchar :
      (name : Bytes) (slot : SlotDescriptor) (type : PrimitiveType)
      → value_or_die (precheck_data_type name slot) ≡ done type
      → type ≡ type_varchar
  unfolding precheck_data_type value_or_die status_or_is_ok status_or_of_value
  precheck_varchar name slot type h = sym (done-injective type_varchar type h)

  first_column-IsNamed :
      (h : JvmFunctionHelper) (names : Ref) (len : ℤ) (s : JdbcScanner)
      → Ensures
          (λ w. Unit)
          (first_column jni h names len s)
          (λ r w. (r.0 ≡ ok_status) × IsNamed s r.1)
  unfolding first_column
  first_column-IsNamed h names len s =
      Ensures-if (ltb_ℤ (pos 0) len) _ _
        (λ _. Ensures-skip _ _ λ _. Ensures-skip _ _ λ name.
          Ensures-bind _ _ (first_slot-Ensures s.slot_descs) λ slot.
            Ensures-bind _ _
              (Ensures-lift
                {Q = λ type w.
                  (type ≡ type_varchar)
                  × ((rest : List SlotDescriptor) × (s.slot_descs ≡ slot ∷ rest))}
                (value_or_die (precheck_data_type name slot))
                (λ type w e there. (precheck_varchar name slot type e, there)))
              λ type. Ensures-give _ λ w (varchar, (rest, there)). (
                refl,
                (name, slot, rest, there, refl, ap (λ t. s.result_column_types ++ t ∷ []) varchar),
              ))
        (λ _. Ensures-fails _)

  -- What `_init_column_class_name` comes to.
  abbrev Names : JdbcScanner → Status × JdbcScanner → Type 0
  Names s r = ((r.0 ≡ columns_error) × (r.1 ≡ s)) ⊎ ((r.0 ≡ ok_status) × IsNamed s r.1)

  init_column_class_name-Ensures :
      (s : JdbcScanner) → Ensures (λ w. Unit) (init_column_class_name jni s) (λ r w. Names s r)
  unfolding init_column_class_name
  init_column_class_name-Ensures s = Ensures-skip _ _ λ h. Ensures-skip _ _ λ _.
      Ensures-skip _ _ λ _. Ensures-skip _ _ λ names.
        checked_error-Ensures jni _ s _ (Ensures-give (columns_error, s) (λ w _. inl (refl, refl)))
          (Ensures-skip _ _ λ len.
            Ensures-mono {Q = λ r w. Names s r} {Q' = λ r w. (r.0 ≡ ok_status) × IsNamed s r.1}
              (λ r w named. inr named)
              (first_column-IsNamed h names len (record s { result_chunk = some new_chunk })))

  -- However many columns the result has, a call that returns is OK, has recorded the class name of one, with
  -- the type VARCHAR, and has a slot for it; or its status is the error of the check for an exception, and
  -- it has changed nothing.
  pub init_column_class_name-IsNamed :
      (s : JdbcScanner) (w : Jvm J) (r : (Status × JdbcScanner) × Jvm J)
      → init_column_class_name jni s w ≡ done r
      → ((r.0.0 ≡ columns_error) × (r.0.1 ≡ s)) ⊎ ((r.0.0 ≡ ok_status) × IsNamed s r.0.1)
  init_column_class_name-IsNamed s w r h = (init_column_class_name-Ensures s).at w r tt h
