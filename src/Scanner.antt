-- ===== src/Scanner.antt =====
-- be/scanner/jdbc_scanner.{h,cpp}: the state of JDBCScanner, and the check for a Java exception.
pub mod Setup
pub mod Columns
pub mod Reading
pub mod Laws
pub mod Returns
pub mod Ready
pub mod Opened
pub mod Sample
mod Tests
use sr_scanner_demo.Base.{
  Option, none, some, List, [], ◌∷◌, Bytes, codes, uninitialized, null_pointer, ◌==◌, if◌then◌else◌,
}
use sr_scanner_demo.Base.Actions.{Action, give, fails, ◌>>=◌}
use sr_scanner_demo.Base.Dict.{Dict}
use sr_scanner_demo.Status.{Status, internal_error}
use sr_scanner_demo.Runtime.Types.{PrimitiveType}
use sr_scanner_demo.Table.Descriptors.{SlotDescriptor, TupleDescriptor}
use sr_scanner_demo.Udf.Jni.{Ref, null, Jni}
use sr_scanner_demo.Udf.Start.{Jvm, in_java, get_instance}
use sr_scanner_demo.Udf.Helper.{dump_exception_string}
use sr_scanner_demo.Chunk.{Chunk}

-- JDBCScanContext
pub record JdbcScanContext : Type 0 where
  pub driver_path : Bytes
  pub driver_class_name : Bytes
  pub jdbc_url : Bytes
  pub user : Bytes
  pub passwd : Bytes
  pub sql : Bytes
  pub properties : Dict Bytes

-- JDBCScanner. A method that was not looked up yet is `none`, as its member has no value; a
-- unique_ptr<JVMClass> is `none` where it is null.
pub record JdbcScanner : Type 0 where
  pub scan_ctx : JdbcScanContext
  pub slot_descs : List SlotDescriptor
  pub column_class_names : List Bytes
  pub result_column_types : List PrimitiveType
  pub result_chunk : Option Chunk
  pub jdbc_bridge_cls : Option Ref
  pub jdbc_scanner_cls : Option Ref
  pub jdbc_util_cls : Option Ref
  pub scanner_has_next : Option Ref
  pub scanner_get_next_chunk : Option Ref
  pub scanner_result_rows : Option Ref
  pub scanner_close : Option Ref
  pub util_format_date : Option Ref
  pub util_format_localdatetime : Option Ref
  pub jdbc_bridge : Ref
  pub jdbc_scan_context : Ref
  pub jdbc_scanner : Ref

-- `JDBCScanner(const JDBCScanContext&, const TupleDescriptor*)`, of a tuple that is not null.
unfoldable pub new_scanner : JdbcScanContext → TupleDescriptor → JdbcScanner
new_scanner context tuple_desc = record {
  scan_ctx = context;
  slot_descs = tuple_desc.slots;
  column_class_names = [];
  result_column_types = [];
  result_chunk = none;
  jdbc_bridge_cls = none;
  jdbc_scanner_cls = none;
  jdbc_util_cls = none;
  scanner_has_next = none;
  scanner_get_next_chunk = none;
  scanner_result_rows = none;
  scanner_close = none;
  util_format_date = none;
  util_format_localdatetime = none;
  jdbc_bridge = null;
  jdbc_scan_context = null;
  jdbc_scanner = null;
}

-- The names of the Java classes.
abbrev pub jdbc_bridge_class_name : Bytes
jdbc_bridge_class_name = codes "com/starrocks/jdbcbridge/JDBCBridge"

abbrev pub jdbc_scan_context_class_name : Bytes
jdbc_scan_context_class_name = codes "com/starrocks/jdbcbridge/JDBCScanContext"

abbrev pub jdbc_scanner_class_name : Bytes
jdbc_scanner_class_name = codes "com/starrocks/jdbcbridge/JDBCScanner"

abbrev pub jdbc_util_class_name : Bytes
jdbc_util_class_name = codes "com/starrocks/jdbcbridge/JDBCUtil"

module _ {J : Type 0} where
  -- The class in a unique_ptr<JVMClass>.
  abbrev pub clazz : Option Ref → Action (Jvm J) Ref
  clazz none = fails null_pointer
  clazz (some c) = give c

  abbrev pub initialized : Option Ref → Action (Jvm J) Ref
  initialized none = fails uninitialized
  initialized (some id) = give id

module _ {J : Type 0} (jni : Jni J) where
  -- What the macro does with an exception: it is written out, cleared and dropped.
  unfoldable pub drop_exception : Ref → Action (Jvm J) Bytes
  unfolding get_instance dump_exception_string
  drop_exception thr = do
    h ← get_instance jni
    err ← in_java (dump_exception_string jni h thr)
    u ← in_java (jni.exception_clear)
    v ← in_java (jni.delete_local_ref thr)
    give err

  -- The macro CHECK_JAVA_EXCEPTION: the status with which it returns, if there is an exception.
  unfoldable pub check_java_exception : Bytes → Action (Jvm J) (Option Status)
  unfolding drop_exception
  check_java_exception error_message = do
    thr ← in_java (jni.exception_occurred)
    if thr == null
        then give none
        else (do err ← drop_exception thr; give (some (internal_error error_message)))

  -- The code behind a check: `A` is what the function around it has set.
  abbrev pub or_return :
      {A : Type 0} → A → Action (Jvm J) (Status × A) → Option Status → Action (Jvm J) (Status × A)
  or_return a rest none = rest
  or_return a rest (some status) = give (status, a)

  abbrev pub checked :
      {A : Type 0} → Bytes → A → Action (Jvm J) (Status × A) → Action (Jvm J) (Status × A)
  checked error_message a rest = do r ← check_java_exception error_message; or_return a rest r
