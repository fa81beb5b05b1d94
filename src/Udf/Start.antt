-- ===== src/Udf/Start.antt =====
-- be/udf/java_udf.{h,cpp}: the start of the virtual machine and of JVMFunctionHelper, over any Java
-- Native Interface. There is one thread.
use sr_scanner_demo.Base.{
  Bool, true, Option, none, some, ◌++◌, Bytes, codes, done, throws, if◌then◌else◌,
}
use sr_scanner_demo.Base.Int.{ℤ, pos, ltb_ℤ}
use sr_scanner_demo.Base.Actions.{Action, Effect, on, give, ◌>>=◌}
use sr_scanner_demo.Udf.Jni.{Ref, Jni}

-- What ADD_NUMBERIC_CLASS sets for one of the seven classes.
pub record NumericClass : Type 0 where
  pub class : Ref
  pub value_of : Ref
  pub val : Ref

-- JVMFunctionHelper: the members that `_init` sets.
pub record JvmFunctionHelper : Type 0 where
  pub object_class : Ref
  pub object_array_class : Ref
  pub string_class : Ref
  pub throwable_class : Ref
  pub jarrays_class : Ref
  pub list_class : Ref
  pub boolean : NumericClass
  pub byte : NumericClass
  pub short : NumericClass
  pub int_class : NumericClass
  pub long : NumericClass
  pub float : NumericClass
  pub double : NumericClass
  pub list_get_id : Ref
  pub list_size_id : Ref

-- The virtual machine, with the statics of `getJNIEnv` and `getInstance`.
pub record Jvm (J : Type 0) : Type 0 where
  pub java : J
  -- `jniInit` is constructed
  pub created : Bool
  -- `_env` is not null
  pub has_env : Bool
  pub helper : Option JvmFunctionHelper

-- The macro JNI_FIND_CLASS: a class as a global reference.
module _ {J : Type 0} (jni : Jni J) where
  abbrev pub jni_find_class : Bytes → Action J Ref
  jni_find_class name = do
    clazz ← jni.find_class name
    g_clazz ← jni.new_global_ref clazz
    u ← jni.delete_local_ref clazz
    give g_clazz

  -- The macro ADD_NUMBERIC_CLASS, with the class's name, the primitive type's and its signature.
  abbrev pub add_numeric_class : Bytes → Bytes → Bytes → Action J NumericClass
  add_numeric_class clazz prim_clazz sign = do
    class ← jni_find_class (codes "java/lang/" ++ clazz)
    value_of ←
        jni.get_static_method_id class (codes "valueOf")
          (codes "(" ++ sign ++ codes ")Ljava/lang/" ++ clazz ++ codes ";")
    val ← jni.get_method_id class (prim_clazz ++ codes "Value") (codes "()" ++ sign)
    give (record { class = class; value_of = value_of; val = val })

  -- JVMFunctionHelper::_init
  unfoldable pub init_helper : Action J JvmFunctionHelper
  init_helper = do
    object_class ← jni_find_class (codes "java/lang/Object")
    object_array_class ← jni_find_class (codes "[Ljava/lang/Object;")
    string_class ← jni_find_class (codes "java/lang/String")
    throwable_class ← jni_find_class (codes "java/lang/Throwable")
    jarrays_class ← jni_find_class (codes "java/util/Arrays")
    list_class ← jni_find_class (codes "java/util/List")
    boolean ← add_numeric_class (codes "Boolean") (codes "boolean") (codes "Z")
    byte ← add_numeric_class (codes "Byte") (codes "byte") (codes "B")
    short ← add_numeric_class (codes "Short") (codes "short") (codes "S")
    int_class ← add_numeric_class (codes "Integer") (codes "int") (codes "I")
    long ← add_numeric_class (codes "Long") (codes "long") (codes "J")
    float ← add_numeric_class (codes "Float") (codes "float") (codes "F")
    double ← add_numeric_class (codes "Double") (codes "double") (codes "D")
    list_get_id ← jni.get_method_id list_class (codes "get") (codes "(I)Ljava/lang/Object;")
    list_size_id ← jni.get_method_id list_class (codes "size") (codes "()I")
    give (record {
      object_class = object_class;
      object_array_class = object_array_class;
      string_class = string_class;
      throwable_class = throwable_class;
      jarrays_class = jarrays_class;
      list_class = list_class;
      boolean = boolean;
      byte = byte;
      short = short;
      int_class = int_class;
      long = long;
      float = float;
      double = double;
      list_get_id = list_get_id;
      list_size_id = list_size_id;
    })

-- A call of the interface, between the statics.
abbrev pub in_java : {J A : Type 0} → Action J A → Action (Jvm J) A
in_java = on (λ w. w.java) (λ w j. record w { java = j })

module _ {J : Type 0} (jni : Jni J) where
  -- `options[0].optionString`
  abbrev pub class_path : Bytes
  class_path =
      codes "-Djava.class.path=/Users/lixinzhuang1/IdeaProjects/sr-scanner-demo/fe/target/"
      ++ codes "starrocks-jdbc-bridge-jar-with-dependencies.jar:"
      ++ codes "/Users/lixinzhuang1/IdeaProjects/sr-scanner-demo/be/lib/jdbc_drivers/*"

  unfoldable pub launched : ℤ → Effect (Jvm J)
  launched ret w =
      if ltb_ℤ ret (pos 0)
      then throws (codes "Unable to launch JVM")
      else done (tt, record w { created = true })

  -- `getJNIEnv`. The constructor of `jniInit` runs again if it has thrown.
  unfoldable pub get_jni_env : Effect (Jvm J)
  unfolding launched
  get_jni_env w =
      if w.created
      then done (tt, w)
      else (do ret ← in_java (jni.create_java_vm class_path); launched ret) w

  -- `if (_env == nullptr) { _env = getJNIEnv(); }`
  unfoldable pub attach : Effect (Jvm J)
  unfolding get_jni_env
  attach w =
      if w.has_env
      then done (tt, w)
      else (do u ← get_jni_env; λ v. done (tt, record v { has_env = true })) w

  -- `static JVMFunctionHelper helper;`
  unfoldable pub the_helper : Option JvmFunctionHelper → Action (Jvm J) JvmFunctionHelper
  unfolding init_helper
  the_helper none = do h ← in_java (init_helper jni); λ w. done (h, record w { helper = some h })
  the_helper (some h) = give h

  -- `JVMFunctionHelper::getInstance`; `getEnv` of it is the environment of this thread.
  unfoldable pub get_instance : Action (Jvm J) JvmFunctionHelper
  unfolding attach the_helper
  get_instance w = (do u ← attach; λ v. the_helper v.helper v) w
