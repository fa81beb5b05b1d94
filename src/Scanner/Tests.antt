-- ===== src/Scanner/Tests.antt =====
-- Runs of JDBCScanner over the sample of a virtual machine, and its theorems at concrete data.
use sr_scanner_demo.Base.{
  true, false, none, [], ◌∷◌, ◌≡◌, ◌↔◌, ◌⊎◌, refl, codes, done, Option, Bool,
}
use sr_scanner_demo.Base.Actions.{◌>>=◌}
use sr_scanner_demo.Status.{Status, ok_status, value_or_die, status_or_of_value}
use sr_scanner_demo.Chunk.{Chunk}
use sr_scanner_demo.Udf.Sample.{sample_java, sample_java-IsLawful, unstarted, started}
use sr_scanner_demo.Udf.Start.{get_instance}
use sr_scanner_demo.Udf.Helper.{new_instance, to_string}
use sr_scanner_demo.Scanner.{JdbcScanner, new_scanner, check_java_exception, drop_exception}
use sr_scanner_demo.Scanner.Setup.{
  init_jdbc_bridge, init_jdbc_scan_context, init_jdbc_scanner, init_jdbc_util,
}
use sr_scanner_demo.Scanner.Columns.{init_column_class_name, first_column, open_scanner}
use sr_scanner_demo.Scanner.Reading.{has_next, get_next}
use sr_scanner_demo.Scanner.Laws.{get_next_iff, get_next-IsClear}
use sr_scanner_demo.Scanner.Opened.{
  IsLike, IsNamed, open_scanner-IsLike, columns_error, init_column_class_name-IsNamed,
}
use sr_scanner_demo.Scanner.Sample.{sample_tuple, sample_context, opened_scanner}

abbrev ready : JdbcScanner
ready = opened_scanner sample_context

-- An exception of `hasNext` is the end of the stream.
exception_run :
    get_next (sample_java true) none false ready started ≡ done ((ok_status, (none, true)), started)
unfolding get_next has_next get_instance check_java_exception drop_exception ◌>>=◌
exception_run = refl

get_next_iff_example :
    (get_next (sample_java true) none false ready started
      ≡ done ((ok_status, (none, true)), started))
    ↔ ((status : Status) × (has_next (sample_java true) false ready started
          ≡ done ((status, false), started))
        × (◌≡◌ {A = Status × (Option Chunk × Bool)}
            (ok_status, (none, true))
            (ok_status, (none, true))))
get_next_iff_example =
    get_next_iff (sample_java true) none false ready started ((ok_status, (none, true)), started)

get_next-IsClear_example : (started.java ≡ false) × (◌≡◌ {A = Status} ok_status ok_status)
get_next-IsClear_example =
    get_next-IsClear (sample_java true) (sample_java-IsLawful true) none false ready started
      ((ok_status, (none, true)), started) exception_run

abbrev fresh : JdbcScanner
fresh = new_scanner sample_context sample_tuple

open_run :
    open_scanner (sample_java false) none fresh unstarted ≡ done ((ok_status, ready), started)
unfolding open_scanner new_scanner init_jdbc_bridge init_jdbc_scan_context init_jdbc_scanner
    init_jdbc_util init_column_class_name check_java_exception get_instance new_instance
    value_or_die first_column to_string ◌>>=◌ status_or_of_value
open_run = refl

open_scanner-IsLike_example : (◌≡◌ {A = Status} ok_status ok_status) × IsLike fresh ready
open_scanner-IsLike_example =
    open_scanner-IsLike (sample_java false) none fresh unstarted ((ok_status, ready), started)
      open_run

-- The scanner after its methods were looked up, before the names of the columns are asked for.
abbrev looked_up : JdbcScanner
looked_up = record ready { column_class_names = []; result_column_types = []; result_chunk = none }

abbrev named : JdbcScanner
named = record ready { column_class_names = codes "text" ∷ [] }

columns_run :
    init_column_class_name (sample_java false) looked_up started
    ≡ done ((ok_status, named), started)
unfolding init_column_class_name check_java_exception get_instance value_or_die first_column
    to_string ◌>>=◌ status_or_of_value
columns_run = refl

init_column_class_name-IsNamed_example :
    ((◌≡◌ {A = Status} ok_status columns_error) × (named ≡ looked_up))
    ⊎ ((◌≡◌ {A = Status} ok_status ok_status) × IsNamed looked_up named)
init_column_class_name-IsNamed_example =
    init_column_class_name-IsNamed (sample_java false) looked_up started
      ((ok_status, named), started) columns_run
