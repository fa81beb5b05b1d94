-- ===== src/Udf/Sample.antt =====
-- A virtual machine for tests: its state is whether an exception is pending, every reference is 1, and
-- each result set has ended.
use sr_scanner_demo.Base.{
  Bool, true, false, not, some, none, ◌≡◌, refl, sym, ap, ◌∙◌, codes, done, done-injective,
  if◌then◌else◌, ◌==◌,
}
use sr_scanner_demo.Base.Int.{pos}
use sr_scanner_demo.Base.Actions.{give}
use sr_scanner_demo.Udf.Jni.{null, Jni, IsLawful}
use sr_scanner_demo.Udf.Start.{NumericClass, JvmFunctionHelper, Jvm}

-- `raises`: `hasNext` throws.
abbrev pub sample_java : Bool → Jni Bool
sample_java raises = record {
  create_java_vm = λ path. give (pos 0);
  find_class = λ name. give 1;
  new_global_ref = λ ref. give ref;
  delete_local_ref = λ ref. give tt;
  get_method_id = λ class name sig. give 1;
  get_static_method_id = λ class name sig. give 1;
  new_object = λ class method args. give 1;
  call_object_method = λ obj method args. give 1;
  call_static_object_method = λ class method args. give 1;
  call_void_method = λ obj method args. give tt;
  call_boolean_method = λ obj method args j. done (false, raises);
  call_int_method = λ obj method args. give (pos 1);
  exception_occurred = λ j. done (if j then 1 else null, j);
  exception_clear = λ j. done (tt, false);
  new_string_utf = λ s. give 1;
  get_string_utf_chars = λ ref. give (some (codes "text"));
  release_string_utf_chars = λ ref. give tt;
}

pub thrown : (j : Bool) → ((if j then 1 else null) == null) ≡ not j
thrown true = refl
thrown false = refl

abbrev pub sample_java-IsLawful : (raises : Bool) → IsLawful (sample_java raises)
sample_java-IsLawful raises = record {
  pending = λ j. j;
  occurred = λ j r e.
      let q = done-injective _ r e in
      (sym (ap (λ x. x.1) q), ap (λ x. x.0 == null) (sym q) ∙ thrown j);
  cleared = λ j r e. sym (ap (λ x. x.1) (done-injective _ r e));
  deleted = λ ref j r e. sym (ap (λ x. x.1) (done-injective _ r e));
}

abbrev pub sample_class : NumericClass
sample_class = record { class = 1; value_of = 1; val = 1 }

abbrev pub sample_helper : JvmFunctionHelper
sample_helper = record {
  object_class = 1;
  object_array_class = 1;
  string_class = 1;
  throwable_class = 1;
  jarrays_class = 1;
  list_class = 1;
  boolean = sample_class;
  byte = sample_class;
  short = sample_class;
  int_class = sample_class;
  long = sample_class;
  float = sample_class;
  double = sample_class;
  list_get_id = 1;
  list_size_id = 1;
}

-- Before and after the first `getInstance`.
abbrev pub unstarted : Jvm Bool
unstarted = record { java = false; created = false; has_env = false; helper = none }

abbrev pub started : Jvm Bool
started = record { java = false; created = true; has_env = true; helper = some sample_helper }
