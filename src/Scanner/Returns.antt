-- ===== src/Scanner/Returns.antt =====
-- be/scanner/jdbc_scanner.cpp: the scanners that the parts of `open` can return with, each as a rule for what
-- such a part ensures.
use sr_scanner_demo.Base.{Option, none, some, ◌≡◌, refl, Bytes, null_pointer, ◌++◌, ◌∷◌, []}
use sr_scanner_demo.Base.Int.{ℤ, pos, ltb_ℤ}
use sr_scanner_demo.Base.Actions.{
  Action, Ensures, Ensures-give, Ensures-bind, Ensures-skip, Ensures-if, Ensures-fails,
  Ensures-assume,
}
use sr_scanner_demo.Status.{Status, ok_status}
use sr_scanner_demo.Runtime.Types.{PrimitiveType}
use sr_scanner_demo.Udf.Jni.{Ref, Jni}
use sr_scanner_demo.Udf.Start.{JvmFunctionHelper, Jvm}
use sr_scanner_demo.Chunk.{new_chunk}
use sr_scanner_demo.Scanner.{JdbcScanner, clazz}
use sr_scanner_demo.Scanner.Laws.{checked-Ensures}
use sr_scanner_demo.Scanner.Setup.{
  init_jdbc_bridge, init_jdbc_scan_context, init_jdbc_scanner, open_java_scanner, init_jdbc_util,
}
use sr_scanner_demo.Scanner.Columns.{init_column_class_name, first_column, open_scanner}

module _ {J : Type 0} (jni : Jni J) (Q : JdbcScanner → Type 0) where
  -- Where the part returns, the scanner that it leaves is in `Q`.
  abbrev pub Leaves : Action (Jvm J) (Status × JdbcScanner) → Type 0
  Leaves m = Ensures (λ w. Unit) m (λ r w. Q r.1)

  pub init_jdbc_bridge-Ensures :
      (s : JdbcScanner)
      → ((cls bridge : Ref) → Q (record s { jdbc_bridge_cls = some cls; jdbc_bridge = bridge }))
      → Leaves (init_jdbc_bridge jni s)
  unfolding init_jdbc_bridge
  init_jdbc_bridge-Ensures s q = Ensures-skip _ _ λ _. Ensures-skip _ _ λ cls. Ensures-skip _ _ λ _.
      Ensures-skip _ _ λ bridge. Ensures-skip _ _ λ _. Ensures-skip _ _ λ _. Ensures-skip _ _ λ _.
        checked-Ensures jni _ _ _ (λ status. Ensures-give _ (λ w _. q cls bridge))
          (Ensures-give _ (λ w _. q cls bridge))

  pub init_jdbc_scan_context-Ensures :
      (s : JdbcScanner)
      → ((context : Ref) → Q (record s { jdbc_scan_context = context }))
      → Leaves (init_jdbc_scan_context jni s)
  unfolding init_jdbc_scan_context
  init_jdbc_scan_context-Ensures s q = Ensures-skip _ _ λ _. Ensures-skip _ _ λ _.
      Ensures-skip _ _ λ _. Ensures-skip _ _ λ _. Ensures-skip _ _ λ _. Ensures-skip _ _ λ _.
        Ensures-skip _ _ λ _. Ensures-skip _ _ λ _. Ensures-skip _ _ λ _.
          Ensures-skip _ _ λ context.
            checked-Ensures jni _ _ _ (λ status. Ensures-give _ (λ w _. q context))
              (Ensures-give _ (λ w _. q context))

  -- The scanner behind the first check of `_init_jdbc_scanner`.
  abbrev pub with_methods : Ref → Ref → Ref → Ref → Ref → JdbcScanner → JdbcScanner
  with_methods cls has_next get_next_chunk result_rows close s = record s {
    jdbc_scanner_cls = some cls;
    scanner_has_next = some has_next;
    scanner_get_next_chunk = some get_next_chunk;
    scanner_result_rows = some result_rows;
    scanner_close = some close;
  }

  open_java_scanner-Ensures :
      (s : JdbcScanner)
      → ((cls has_next get_next_chunk result_rows close : Ref)
          → Q (with_methods cls has_next get_next_chunk result_rows close s))
      → Leaves (open_java_scanner jni s)
  unfolding open_java_scanner
  open_java_scanner-Ensures s q = Ensures-skip _ _ λ cls. Ensures-skip _ _ λ has_next.
      Ensures-skip _ _ λ get_next_chunk. Ensures-skip _ _ λ result_rows. Ensures-skip _ _ λ close.
        Ensures-skip _ _ λ _. Ensures-skip _ _ λ _.
          let found = q cls has_next get_next_chunk result_rows close in
          checked-Ensures jni _ _ _ (λ status. Ensures-give _ (λ w _. found))
            (Ensures-give _ (λ w _. found))

  pub init_jdbc_scanner-Ensures :
      (s : JdbcScanner)
      → ((scanner : Ref) → Q (record s { jdbc_scanner = scanner }))
      → ((scanner cls has_next get_next_chunk result_rows close : Ref)
          → Q (
              with_methods cls has_next get_next_chunk result_rows close
                (record s { jdbc_scanner = scanner })))
      → Leaves (init_jdbc_scanner jni s)
  unfolding init_jdbc_scanner
  init_jdbc_scanner-Ensures s q found = Ensures-skip _ _ λ _. Ensures-skip _ _ λ _.
      Ensures-skip _ _ λ _. Ensures-skip _ _ λ _. Ensures-skip _ _ λ scanner.
        checked-Ensures jni _ _ _ (λ status. Ensures-give _ (λ w _. q scanner))
          (open_java_scanner-Ensures (record s { jdbc_scanner = scanner }) (found scanner))

  pub init_jdbc_util-Ensures :
      (s : JdbcScanner)
      → ((cls format_date format_localdatetime : Ref)
          → Q (record s {
            jdbc_util_cls = some cls;
            util_format_date = some format_date;
            util_format_localdatetime = some format_localdatetime;
          }))
      → Leaves (init_jdbc_util jni s)
  unfolding init_jdbc_util
  init_jdbc_util-Ensures s q = Ensures-skip _ _ λ _. Ensures-skip _ _ λ cls.
      Ensures-skip _ _ λ format_date.
        Ensures-skip _ _
          λ format_localdatetime. Ensures-give _ (λ w _. q cls format_date format_localdatetime)

  clazz-Ensures :
      (cls : Option Ref) → Ensures {W = Jvm J} (λ w. Unit) (clazz cls) (λ c w. cls ≡ some c)
  clazz-Ensures none = Ensures-fails null_pointer
  clazz-Ensures (some c) = Ensures-give c (λ w _. refl)

  first_column-Leaves :
      (h : JvmFunctionHelper) (names : Ref) (len : ℤ) (s : JdbcScanner)
      → ((name : Bytes) (type : PrimitiveType)
          → Q (record s {
            column_class_names = s.column_class_names ++ name ∷ [];
            result_column_types = s.result_column_types ++ type ∷ [];
          }))
      → Leaves (first_column jni h names len s)
  unfolding first_column
  first_column-Leaves h names len s q =
      Ensures-if (ltb_ℤ (pos 0) len) _ _
        (λ _. Ensures-skip _ _ λ _. Ensures-skip _ _ λ name.
          Ensures-skip _ _ λ _. Ensures-skip _ _ λ type. Ensures-give _ (λ w _. q name type))
        (λ _. Ensures-fails _)

  -- A scanner without its Java class does not come to an end of `_init_column_class_name`.
  pub init_column_class_name-Leaves :
      (s : JdbcScanner)
      → ((cls : Ref) → s.jdbc_scanner_cls ≡ some cls → Q s)
      → ((cls : Ref) (name : Bytes) (type : PrimitiveType)
          → s.jdbc_scanner_cls ≡ some cls
          → Q (record s {
            result_chunk = some new_chunk;
            column_class_names = s.column_class_names ++ name ∷ [];
            result_column_types = s.result_column_types ++ type ∷ [];
          }))
      → Leaves (init_column_class_name jni s)
  unfolding init_column_class_name
  init_column_class_name-Leaves s q named = Ensures-skip _ _ λ h.
      Ensures-bind _ _ (clazz-Ensures s.jdbc_scanner_cls) λ cls. Ensures-assume λ has.
        Ensures-skip _ _ λ _. Ensures-skip _ _ λ names.
          checked-Ensures jni _ s _ (λ status. Ensures-give _ (λ w _. q cls has))
            (Ensures-skip _ _ λ len.
              first_column-Leaves h names len (record s { result_chunk = some new_chunk })
                (λ name type. named cls name type has))

module _ {J : Type 0} (jni : Jni J) where
  -- `open`, in parts, each from what the one before it leaves.
  pub open_scanner-Ensures :
      (P₁ P₂ P₃ P₄ P₅ : JdbcScanner → Type 0) (java_home : Option Bytes) (s : JdbcScanner)
      → Leaves jni P₁ (init_jdbc_bridge jni s)
      → ((s₁ : JdbcScanner) → P₁ s₁ → Leaves jni P₂ (init_jdbc_scan_context jni s₁))
      → ((s₂ : JdbcScanner) → P₂ s₂ → Leaves jni P₃ (init_jdbc_scanner jni s₂))
      → ((s₃ : JdbcScanner) → P₃ s₃ → Leaves jni P₄ (init_column_class_name jni s₃))
      → ((s₄ : JdbcScanner) → P₄ s₄ → Leaves jni P₅ (init_jdbc_util jni s₄))
      → Ensures (λ w. Unit) (open_scanner jni java_home s) (λ r w. (r.0 ≡ ok_status) × P₅ r.1)
  unfolding open_scanner
  open_scanner-Ensures P₁ P₂ P₃ P₄ P₅ java_home s k₁ k₂ k₃ k₄ k₅ = Ensures-bind _ _ k₁ λ (_, s₁).
      Ensures-assume λ p₁. Ensures-bind _ _ (k₂ s₁ p₁) λ (_, s₂). Ensures-assume λ p₂.
        Ensures-bind _ _ (k₃ s₂ p₂) λ (_, s₃). Ensures-assume λ p₃.
          Ensures-bind _ _ (k₄ s₃ p₃) λ (_, s₄).
            Ensures-assume
              λ p₄. Ensures-bind _ _ (k₅ s₄ p₄) λ (_, s₅). Ensures-give _ (λ w p₅. (refl, p₅))
