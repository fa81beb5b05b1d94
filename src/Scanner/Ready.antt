-- ===== src/Scanner/Ready.antt =====
-- What `open` of JDBCScanner in be/scanner/jdbc_scanner.cpp has set where it returns.
use sr_scanner_demo.Base.{Option, none, some, ◌≡◌, ◌⊎◌}
use sr_scanner_demo.Status.{Status}
use sr_scanner_demo.Udf.Jni.{Ref, Jni}
use sr_scanner_demo.Scanner.{JdbcScanner}

-- The field is set: of a class, the pointer is not null; of a method, the id is not uninitialised. What
-- Java has found may itself be null, which nothing tests.
abbrev Holds : Option Ref → Type 0
Holds x = (r : Ref) × (x ≡ some r)

-- The fields of the Java scanner's class and methods are set.
abbrev HasMethods : JdbcScanner → Type 0
HasMethods s =
    Holds s.jdbc_scanner_cls
    × Holds s.scanner_has_next
    × Holds s.scanner_get_next_chunk
    × Holds s.scanner_result_rows
    × Holds s.scanner_close

-- Every field of a class or a method that the scanner's other functions use is set.
abbrev pub IsReady : JdbcScanner → Type 0
IsReady s =
    HasMethods s
    × Holds s.jdbc_bridge_cls
    × Holds s.jdbc_util_cls
    × Holds s.util_format_date
    × Holds s.util_format_localdatetime

module _ {J : Type 0} (jni : Jni J) where
  abbrev IsBridged : JdbcScanner → Type 0
  IsBridged s = Holds s.jdbc_bridge_cls × (s.jdbc_scanner_cls ≡ none)

  -- Without its class no method is there, from the lookup of the scanner on.
  abbrev IsLooked : JdbcScanner → Type 0
  IsLooked s = Holds s.jdbc_bridge_cls × ((s.jdbc_scanner_cls ≡ none) ⊎ HasMethods s)

  abbrev IsOpened : JdbcScanner → Type 0
  IsOpened s = HasMethods s × Holds s.jdbc_bridge_cls
