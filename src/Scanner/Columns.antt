-- ===== src/Scanner/Columns.antt =====
-- be/scanner/jdbc_scanner.cpp: `_init_column_class_name`, and `open` as a whole.
use sr_scanner_demo.Base.{
  true, Option, some, List, [], ◌∷◌, ◌++◌, Bytes, codes, bad_index, no_return, if◌then◌else◌,
}
use sr_scanner_demo.Base.Int.{ℤ, pos, ltb_ℤ}
use sr_scanner_demo.Base.Actions.{Action, give, fails, lift, ◌>>=◌}
use sr_scanner_demo.Status.{Status, ok_status, StatusOr, status_or_of_value, value_or_die}
use sr_scanner_demo.Runtime.Types.{PrimitiveType, type_varchar}
use sr_scanner_demo.Runtime.Types
use sr_scanner_demo.Table.Descriptors.{SlotDescriptor}
use sr_scanner_demo.Udf.Jni.{Ref, Jni}
use sr_scanner_demo.Udf.Start.{JvmFunctionHelper, Jvm, in_java, get_instance}
use sr_scanner_demo.Udf.Helper.{to_string, list_get, list_size, detect_java_runtime}
use sr_scanner_demo.Chunk.{new_chunk, create_column}
use sr_scanner_demo.Scanner.{JdbcScanner, clazz, checked}
use sr_scanner_demo.Scanner.Setup.{
  init_jdbc_bridge, init_jdbc_scan_context, init_jdbc_scanner, init_jdbc_util,
}

-- `_precheck_data_type`
unfoldable pub precheck_data_type : Bytes → SlotDescriptor → StatusOr PrimitiveType
precheck_data_type java_class slot_desc = status_or_of_value type_varchar

module _ {J : Type 0} (jni : Jni J) where
  -- `_slot_descs[i]` at the `i` of the first round.
  abbrev pub first_slot : List SlotDescriptor → Action (Jvm J) SlotDescriptor
  first_slot [] = fails bad_index
  first_slot (slot ∷ slots) = give slot

  -- The loop of `_init_column_class_name` over `len` names: its first round returns, and behind it the
  -- function ends without a return.
  unfoldable pub first_column :
      JvmFunctionHelper → Ref → ℤ → JdbcScanner → Action (Jvm J) (Status × JdbcScanner)
  unfolding list_get to_string precheck_data_type
  first_column h column_class_names len s =
      if ltb_ℤ (pos 0) len
      then (do
        jelement ← in_java (list_get jni h column_class_names (pos 0))
        class_name ← in_java (to_string jni h jelement)
        slot ← first_slot s.slot_descs
        ret_type ← lift (value_or_die (precheck_data_type class_name slot))
        let result_column = create_column (Types.of_type ret_type) true
        give (
          ok_status,
          record s {
            column_class_names = s.column_class_names ++ class_name ∷ [];
            result_column_types = s.result_column_types ++ ret_type ∷ [];
          },
        ))
      else fails no_return

  -- `_init_column_class_name`
  unfoldable pub init_column_class_name : JdbcScanner → Action (Jvm J) (Status × JdbcScanner)
  unfolding get_instance list_size first_column
  init_column_class_name s = do
    h ← get_instance jni
    cls ← clazz s.jdbc_scanner_cls
    method ←
        in_java
          (jni.get_method_id cls (codes "getResultColumnClassNames") (codes "()Ljava/util/List;"))
    names ← in_java (jni.call_object_method s.jdbc_scanner method [])
    checked jni (codes "get JDBC result column class name failed") s (do
      len ← in_java (list_size jni h names)
      first_column h names len (record s { result_chunk = some new_chunk }))

  -- `open`. No status of the calls in it is read.
  unfoldable pub open_scanner : Option Bytes → JdbcScanner → Action (Jvm J) (Status × JdbcScanner)
  unfolding init_column_class_name init_jdbc_bridge init_jdbc_scan_context init_jdbc_scanner
      init_jdbc_util detect_java_runtime
  open_scanner java_home s = do
    let detected = detect_java_runtime java_home
    (status₁, s₁) ← init_jdbc_bridge jni s
    (status₂, s₂) ← init_jdbc_scan_context jni s₁
    (status₃, s₃) ← init_jdbc_scanner jni s₂
    (status₄, s₄) ← init_column_class_name s₃
    (status₅, s₅) ← init_jdbc_util jni s₄
    give (ok_status, s₅)
