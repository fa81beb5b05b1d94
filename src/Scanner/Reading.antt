-- ===== src/Scanner/Reading.antt =====
-- be/scanner/jdbc_scanner.cpp: `get_next` of JDBCScanner and what it calls, `close` and
-- `_close_jdbc_scanner`.
use sr_scanner_demo.Base.{
  ℕ, suc, ◌-◌, ◌^◌, Bool, true, false, Option, none, List, [], ◌∷◌, codes, no_return, ◌==◌,
  if◌then◌else◌,
}
use sr_scanner_demo.Base.Int.{ℤ, pos, negsuc}
use sr_scanner_demo.Base.Actions.{Action, Effect, give, fails, ◌>>=◌}
use sr_scanner_demo.Status.{Status, ok_status}
use sr_scanner_demo.Table.Descriptors.{SlotDescriptor}
use sr_scanner_demo.Udf.Jni.{Ref, null, Jni}
use sr_scanner_demo.Udf.Start.{JvmFunctionHelper, Jvm, in_java, get_instance}
use sr_scanner_demo.Udf.Helper.{list_get}
use sr_scanner_demo.Chunk.{Chunk}
use sr_scanner_demo.Scanner.{JdbcScanner, initialized, checked}

-- A jint as a size_t.
abbrev pub to_size_t : ℤ → ℕ
to_size_t (pos n) = n
to_size_t (negsuc n) = 2 ^ 64 - suc n

module _ {J : Type 0} (jni : Jni J) where
  -- `_has_next`, with `*result` before and after.
  unfoldable pub has_next : Bool → JdbcScanner → Action (Jvm J) (Status × Bool)
  unfolding get_instance
  has_next result s = do
    h ← get_instance jni
    method ← initialized s.scanner_has_next
    ret ← in_java (jni.call_boolean_method s.jdbc_scanner method [])
    checked jni (codes "call JDBCScanner hasNext failed") result (give (ok_status, ret))

  -- `_get_next_chunk`, with `*chunk` and `*num_rows` after it; `*num_rows` is given before.
  unfoldable pub get_next_chunk : ℕ → JdbcScanner → Action (Jvm J) (Status × (Ref × ℕ))
  unfolding get_instance
  get_next_chunk num_rows s = do
    h ← get_instance jni
    method ← initialized s.scanner_get_next_chunk
    chunk ← in_java (jni.call_object_method s.jdbc_scanner method [])
    checked jni {A = Ref × ℕ} (codes "getNextChunk failed") (chunk, num_rows)
        (do
          rows_method ← initialized s.scanner_result_rows
          rows ← in_java (jni.call_int_method s.jdbc_scanner rows_method [])
          checked jni {A = Ref × ℕ} (codes "getResultNumRows failed") (chunk, to_size_t rows)
              (give (ok_status, (chunk, to_size_t rows))))

  -- The loop of `_file_chunk`, from column `i` on.
  unfoldable pub file_columns : JvmFunctionHelper → Ref → ℕ → List SlotDescriptor → Effect (Jvm J)
  unfolding list_get
  file_columns h jchunk i [] = give tt
  file_columns h jchunk i (slot ∷ slots) = do
    jcolumn ← in_java (list_get jni h jchunk (pos i))
    file_columns h jchunk (suc i) slots

  -- `_file_chunk`: the chunk is reset, and there is no return.
  unfoldable pub file_chunk :
      Ref → ℕ → Option Chunk → JdbcScanner → Action (Jvm J) (Status × Option Chunk)
  unfolding get_instance file_columns
  file_chunk jchunk nums_rows chunk s = do
    h ← get_instance jni
    u ← file_columns h jchunk 0 s.slot_descs
    fails no_return

  -- What `get_next` does where there is a next chunk.
  unfoldable pub read_next_chunk :
      Option Chunk → Bool → JdbcScanner → Action (Jvm J) (Status × (Option Chunk × Bool))
  unfolding get_next_chunk file_chunk
  read_next_chunk chunk eos s = do
    (status, (jchunk, jchunk_rows)) ← get_next_chunk 0 s
    (status', chunk') ← file_chunk jchunk jchunk_rows chunk s
    give (ok_status, (chunk', eos))

  -- `get_next`, with `*chunk` and `*eos` before and after. No status of the calls in it is read.
  unfoldable pub get_next :
      Option Chunk → Bool → JdbcScanner → Action (Jvm J) (Status × (Option Chunk × Bool))
  unfolding has_next read_next_chunk
  get_next chunk eos s = do
    (status, there) ← has_next false s
    if there then read_next_chunk chunk eos s else give (ok_status, (chunk, true))

  -- `close` has no return.
  abbrev pub close : JdbcScanner → Action (Jvm J) Status
  close s = fails no_return

  -- `_close_jdbc_scanner`. `clear` of a JavaGlobalRef does nothing.
  unfoldable pub close_jdbc_scanner : JdbcScanner → Action (Jvm J) (Status × JdbcScanner)
  unfolding get_instance
  close_jdbc_scanner s = do
    h ← get_instance jni
    if s.jdbc_scanner == null then give (ok_status, s) else (do
      method ← initialized s.scanner_close
      u ← in_java (jni.call_void_method s.jdbc_scanner method [])
      checked jni (codes "close JDBCScanner failed") s (
          give (
            ok_status,
            record s { jdbc_util_cls = none; jdbc_scanner_cls = none; jdbc_bridge_cls = none },
          )))
