-- ===== src/Udf/Jni.antt =====
-- The Java Native Interface as be/udf/java_udf.cpp and be/scanner/jdbc_scanner.cpp use it: a parameter,
-- with its documented behaviour as laws. `J` is the state of the virtual machine.
use sr_scanner_demo.Base.{ℕ, Bool, not, Option, List, ◌≡◌, Bytes, ◌==◌, done}
use sr_scanner_demo.Base.Int.{ℤ}
use sr_scanner_demo.Base.Actions.{Action, Effect}

-- jobject, jclass, jstring, jthrowable and jmethodID; 0 is a null pointer.
abbrev pub Ref : Type 0
Ref = ℕ

abbrev pub null : Ref
null = 0

-- An argument of a call.
pub data Value : Type 0 where
  object : Ref → Value
  int : ℤ → Value

pub record Jni (J : Type 0) : Type 0 where
  -- JNI_CreateJavaVM, with the class path; the code it returns
  pub create_java_vm : Bytes → Action J ℤ
  pub find_class : Bytes → Action J Ref
  pub new_global_ref : Ref → Action J Ref
  pub delete_local_ref : Ref → Effect J
  -- the class, the name and the signature
  pub get_method_id : Ref → Bytes → Bytes → Action J Ref
  pub get_static_method_id : Ref → Bytes → Bytes → Action J Ref
  pub new_object : Ref → Ref → List Value → Action J Ref
  pub call_object_method : Ref → Ref → List Value → Action J Ref
  pub call_static_object_method : Ref → Ref → List Value → Action J Ref
  pub call_void_method : Ref → Ref → List Value → Effect J
  pub call_boolean_method : Ref → Ref → List Value → Action J Bool
  pub call_int_method : Ref → Ref → List Value → Action J ℤ
  pub exception_occurred : Action J Ref
  pub exception_clear : Effect J
  pub new_string_utf : Bytes → Action J Ref
  -- `none` is a null pointer
  pub get_string_utf_chars : Ref → Action J (Option Bytes)
  pub release_string_utf_chars : Ref → Effect J

-- Whether an exception is pending is part of the state: ExceptionOccurred gives null exactly if none is,
-- ExceptionClear leaves none, and DeleteLocalRef raises none.
pub record IsLawful {J : Type 0} (jni : Jni J) : Type 0 where
  pub pending : J → Bool
  pub occurred :
      (j : J) (r : Ref × J)
      → jni.exception_occurred j ≡ done r
      → (pending r.1 ≡ pending j) × ((r.0 == null) ≡ not (pending j))
  pub cleared : (j : J) (r : Unit × J) → jni.exception_clear j ≡ done r → pending r.1 ≡ Bool.false
  pub deleted :
      (ref : Ref) (j : J) (r : Unit × J)
      → jni.delete_local_ref ref j ≡ done r
      → pending r.1 ≡ pending j
