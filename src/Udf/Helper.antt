-- ===== src/Udf/Helper.antt =====
-- be/udf/java_udf.cpp: the calls of JVMFunctionHelper and `JVMClass::newInstance`. A JavaGlobalRef stands for
-- the reference in it.
use sr_scanner_demo.Base.{
  Option, none, some, [], ◌∷◌, ◌++◌, Bytes, codes, done, throws, null_pointer, ◌==◌, if◌then◌else◌,
  unfinished, fault,
}
use sr_scanner_demo.Base.Int.{ℤ}
use sr_scanner_demo.Base.Actions.{Action, give, fails, ◌>>=◌}
use sr_scanner_demo.Status.{
  Status, ok_status, internal_error, StatusOr, status_or_of_status, status_or_of_value,
}
use sr_scanner_demo.Udf.Jni.{Ref, null, object, int, Jni}
use sr_scanner_demo.Udf.Start.{JvmFunctionHelper, Jvm, in_java, get_jni_env}

module _ {J : Type 0} (jni : Jni J) where
  -- JVMFunctionHelper::getToStringMethod
  abbrev pub get_to_string_method : Ref → Action J Ref
  get_to_string_method clazz =
      jni.get_method_id clazz (codes "toString") (codes "()Ljava/lang/String;")

  abbrev copied : Option Bytes → Action J Bytes
  copied none = fails null_pointer
  copied (some charflow) = give charflow

  -- JVMFunctionHelper::to_cxx_string. `res = charflow` reads a null pointer where there are no chars.
  unfoldable pub to_cxx_string : Ref → Action J Bytes
  to_cxx_string str = do
    charflow ← jni.get_string_utf_chars str
    res ← copied charflow
    u ← jni.release_string_utf_chars str
    give res

  -- JVMFunctionHelper::to_string
  unfoldable pub to_string : JvmFunctionHelper → Ref → Action J Bytes
  unfolding to_cxx_string
  to_string h obj = do
    u ← jni.exception_clear
    method ← get_to_string_method h.object_class
    res ← jni.call_object_method obj method []
    to_cxx_string res

  -- JVMFunctionHelper::array_to_string
  unfoldable pub array_to_string : JvmFunctionHelper → Ref → Action J Bytes
  unfolding to_cxx_string
  array_to_string h obj = do
    u ← jni.exception_clear
    method ←
        jni.get_static_method_id h.jarrays_class (codes "toString")
          (codes "([Ljava/lang/Object;)Ljava/lang/String;")
    jstr ← jni.call_static_object_method h.jarrays_class method (object obj ∷ [])
    to_cxx_string jstr

  -- JVMFunctionHelper::dumpExceptionString
  unfoldable pub dump_exception_string : JvmFunctionHelper → Ref → Action J Bytes
  unfolding to_string array_to_string
  dump_exception_string h throwable = do
    method ← get_to_string_method h.throwable_class
    text ← to_string h throwable
    get_stack_trace ←
        jni.get_method_id h.throwable_class (codes "getStackTrace")
          (codes "()[Ljava/lang/StackTraceElement;")
    stack_traces ← jni.call_object_method throwable get_stack_trace []
    trace ← array_to_string h stack_traces
    give (text ++ trace)

  -- JVMFunctionHelper::list_size and list_get
  unfoldable pub list_size : JvmFunctionHelper → Ref → Action J ℤ
  list_size h obj = jni.call_int_method obj h.list_size_id []

  unfoldable pub list_get : JvmFunctionHelper → Ref → ℤ → Action J Ref
  list_get h obj idx = jni.call_object_method obj h.list_get_id (int idx ∷ [])

  abbrev no_constructor : Action J (StatusOr Ref)
  no_constructor w = elim (status_or_of_status {A = Ref} (internal_error [])) [
    | done r ↦ done (r, w)
    | throws e ↦ throws e
    | fault e ↦ fault e
    | unfinished ↦ unfinished
  ]

  abbrev instance_of : Ref → Ref → Action J (StatusOr Ref)
  instance_of clazz constructor = if constructor == null then no_constructor else (do
    local_ref ← jni.new_object clazz constructor []
    ref ← jni.new_global_ref local_ref
    give (status_or_of_value ref))

  -- JVMClass::newInstance, which asks for the environment itself.
  unfoldable pub new_instance : Ref → Action (Jvm J) (StatusOr Ref)
  unfolding get_jni_env
  new_instance clazz = do
    u ← get_jni_env jni
    constructor ← in_java (jni.get_method_id clazz (codes "<init>") (codes "()V"))
    in_java (instance_of clazz constructor)

-- `detect_java_runtime`, with what `getenv("JAVA_HOME")` gives.
unfoldable pub detect_java_runtime : Option Bytes → Status
detect_java_runtime none = internal_error (codes "env 'JAVA_HOME' is not set")
detect_java_runtime (some p) = ok_status
