-- ===== src/Scanner/Setup.antt =====
-- be/scanner/jdbc_scanner.cpp: how JDBCScanner sets up the bridge, the scan context and the Java scanner.
use sr_scanner_demo.Base.{
  Outcome, fault, dangling, if◌then◌else◌, some, [], ◌∷◌, ◌++◌, Bytes, codes,
}
use sr_scanner_demo.Base.Int.{pos}
use sr_scanner_demo.Base.Actions.{Action, give, lift, ◌>>=◌}
use sr_scanner_demo.Status.{Status, ok_status, StatusOr, status_or_is_ok, value_or_die}
use sr_scanner_demo.Udf.Jni.{Ref, object, int, Jni}
use sr_scanner_demo.Udf.Start.{Jvm, in_java, get_instance}
use sr_scanner_demo.Udf.Helper.{new_instance}
use sr_scanner_demo.Scanner.{
  JdbcScanner, jdbc_bridge_class_name, jdbc_scan_context_class_name, jdbc_scanner_class_name,
  jdbc_util_class_name, clazz, checked,
}

module _ {J : Type 0} (jni : Jni J) where
  -- A class as a global reference.
  abbrev pub global_class : Bytes → Action (Jvm J) Ref
  global_class name = do cls ← in_java (jni.find_class name); in_java (jni.new_global_ref cls)

  -- `ValueOrDie()` of what a function has returned: a StatusOr that was made of an error has the message
  -- of a Status that is gone (Status.Memory.Copies), which the text of the exception is made of.
  abbrev value_of_returned : {A : Type 0} → StatusOr A → Outcome A
  value_of_returned r = if status_or_is_ok r then value_or_die r else fault dangling

  -- `_init_jdbc_bridge`
  unfoldable pub init_jdbc_bridge : JdbcScanner → Action (Jvm J) (Status × JdbcScanner)
  unfolding get_instance new_instance
  init_jdbc_bridge s = do
    h ← get_instance jni
    cls ← global_class jdbc_bridge_class_name
    instance ← new_instance jni cls
    bridge ← lift (value_of_returned instance)
    set_class_loader ←
        in_java (jni.get_method_id cls (codes "setClassLoader") (codes "(Ljava/lang/String;)V"))
    driver_location ← in_java (jni.new_string_utf s.scan_ctx.driver_path)
    u ← in_java (jni.call_void_method bridge set_class_loader (object driver_location ∷ []))
    let s' = record s { jdbc_bridge_cls = some cls; jdbc_bridge = bridge }
    checked jni (codes "set class loader failed") s' (give (ok_status, s'))

  -- `_init_jdbc_scan_context`
  unfoldable pub init_jdbc_scan_context : JdbcScanner → Action (Jvm J) (Status × JdbcScanner)
  unfolding get_instance
  init_jdbc_scan_context s = do
    h ← get_instance jni
    cls ← in_java (jni.find_class jdbc_scan_context_class_name)
    constructor ← in_java (
        jni.get_method_id cls (codes "<init>") (
          codes "(Ljava/lang/String;Ljava/lang/String;Ljava/lang/String;Ljava/lang/String;"
          ++ codes "Ljava/lang/String;IIII)V"))
    driver_class_name ← in_java (jni.new_string_utf s.scan_ctx.driver_class_name)
    jdbc_url ← in_java (jni.new_string_utf s.scan_ctx.jdbc_url)
    user ← in_java (jni.new_string_utf s.scan_ctx.user)
    passwd ← in_java (jni.new_string_utf s.scan_ctx.passwd)
    sql ← in_java (jni.new_string_utf s.scan_ctx.sql)
    scan_ctx ← in_java (
        jni.new_object cls constructor (
          object driver_class_name
          ∷ object jdbc_url
          ∷ object user
          ∷ object passwd
          ∷ object sql
          ∷ int (pos 128)
          ∷ int (pos 8)
          ∷ int (pos 1)
          ∷ int (pos 60000)
          ∷ []))
    context ← in_java (jni.new_global_ref scan_ctx)
    let s' = record s { jdbc_scan_context = context }
    checked jni (codes "construct JDBScanContext failed") s' (give (ok_status, s'))

  -- `_init_jdbc_scanner`, behind the first check: the methods, and the call of `open`.
  unfoldable pub open_java_scanner : JdbcScanner → Action (Jvm J) (Status × JdbcScanner)
  open_java_scanner s = do
    cls ← global_class jdbc_scanner_class_name
    has_next ← in_java (jni.get_method_id cls (codes "hasNext") (codes "()Z"))
    get_next_chunk ←
        in_java (jni.get_method_id cls (codes "getNextChunk") (codes "()Ljava/util/List;"))
    result_rows ← in_java (jni.get_method_id cls (codes "getResultNumRows") (codes "()I"))
    close ← in_java (jni.get_method_id cls (codes "close") (codes "()V"))
    scanner_open ← in_java (jni.get_method_id cls (codes "open") (codes "()V"))
    u ← in_java (jni.call_void_method s.jdbc_scanner scanner_open [])
    let s' = record s {
      jdbc_scanner_cls = some cls;
      scanner_has_next = some has_next;
      scanner_get_next_chunk = some get_next_chunk;
      scanner_result_rows = some result_rows;
      scanner_close = some close;
    }
    checked jni (codes "open JDBCScanner failed") s' (give (ok_status, s'))

  -- `_init_jdbc_scanner`
  unfoldable pub init_jdbc_scanner : JdbcScanner → Action (Jvm J) (Status × JdbcScanner)
  unfolding get_instance open_java_scanner
  init_jdbc_scanner s = do
    h ← get_instance jni
    bridge_cls ← clazz s.jdbc_bridge_cls
    get_scanner ← in_java (
        jni.get_method_id bridge_cls (codes "getScanner") (
          codes
            "(Lcom/starrocks/jdbcbridge/JDBCScanContext;)Lcom/starrocks/jdbcbridge/JDBCScanner;"))
    jdbc_scanner ←
        in_java (jni.call_object_method s.jdbc_bridge get_scanner (object s.jdbc_scan_context ∷ []))
    scanner ← in_java (jni.new_global_ref jdbc_scanner)
    let s' = record s { jdbc_scanner = scanner }
    checked jni (codes "get JDBCScanner failed") s' (open_java_scanner s')

  -- `_init_jdbc_util`
  unfoldable pub init_jdbc_util : JdbcScanner → Action (Jvm J) (Status × JdbcScanner)
  unfolding get_instance
  init_jdbc_util s = do
    h ← get_instance jni
    cls ← global_class jdbc_util_class_name
    format_date ← in_java (
        jni.get_static_method_id cls (codes "formatDate")
          (codes "(Ljava/sql/Date;)Ljava/lang/String;"))
    format_localdatetime ← in_java (
        jni.get_static_method_id cls (codes "formatLocalDatetime")
          (codes "(Ljava/time/LocalDateTime;)Ljava/lang/String;"))
    give (
      ok_status,
      record s {
        jdbc_util_cls = some cls;
        util_format_date = some format_date;
        util_format_localdatetime = some format_localdatetime;
      },
    )
