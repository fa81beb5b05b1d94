-- ===== src/Scan/Operators.antt =====
-- be/operator/source_operator.h, be/operator/scan_operator.{h,cpp}, the rest of
-- be/operator/connector_scan_operator.cpp, be/mock_pipeline_driver.{h,cpp} and be/main.cpp. A scan
-- operator is a ConnectorScanOperator, the only class that makes chunk sources.
use sr_scanner_demo.Base.{
  done, ℕ, Bool, true, false, Option, none, some, List, [], ◌∷◌, ◌++◌, Bytes, codes, no_return,
  null_pointer, if◌then◌else◌,
}
use sr_scanner_demo.Base.Int.{ℤ, pos}
use sr_scanner_demo.Base.Decimal.{to_string}
use sr_scanner_demo.Base.Actions.{Action, Effect, give, fails, lift, ◌>>=◌}
use sr_scanner_demo.Status.{Status, ok_status, internal_error, is_ok, StatusOr}
use sr_scanner_demo.Runtime.State.{RuntimeState, new_state}
use sr_scanner_demo.Fs.{Fs}
use sr_scanner_demo.Driver.Manager
use sr_scanner_demo.Udf.Jni.{Jni}
use sr_scanner_demo.Chunk.{Chunk}
use sr_scanner_demo.Scan.ChunkSource.{ConnectorChunkSource, new_source, read_chunk}
use sr_scanner_demo.Scan.Batch.{has_next_chunk, buffer_next_batch_chunks_blocking}
use sr_scanner_demo.Scan.DataSource.{
  Program, Environment, JdbcDataSource, new_data_source, get_next, open_source,
}

-- A ConnectorChunkSource, with the status of the ChunkSource that it is. Its buffer is not used.
pub record Source : Type 0 where
  pub chunk_status : Status
  pub connector : ConnectorChunkSource JdbcDataSource

-- A ScanOperator, with the fields of Operator; `none` is a null pointer.
pub record ScanOperator : Type 0 where
  pub id : ℤ
  pub name : Bytes
  pub scan_status : Status
  pub chunk_source : Option Source

-- `SourceOperator(id, name)` on `Operator(id, name)`, of a ScanOperator
abbrev pub source_operator : ℤ → Bytes → ScanOperator
source_operator id name = record {
  id = id;
  name = name;
  scan_status = ok_status;
  chunk_source = none;
}

-- `ScanOperator()`
abbrev pub new_operator : ScanOperator
new_operator = source_operator (pos 1) (codes "default")

-- Operator::get_id
abbrev pub get_id : ScanOperator → ℤ
get_id op = op.id

-- Operator::get_name
unfoldable pub get_name : ScanOperator → Bytes
get_name op = to_string op.id ++ codes "_" ++ op.name

-- Operator::set_finished and Operator::reset_state
abbrev pub set_finished : ScanOperator → Status
set_finished op = ok_status

abbrev pub reset_state : List (Option Chunk) → ScanOperator → Status
reset_state refill_chunks op = ok_status

-- SourceOperator::push_chunk and SourceOperator::need_input
unfoldable pub push_chunk : Option Chunk → ScanOperator → Status
push_chunk chunk op = internal_error (codes "Shouldn't push chunk to source operator")

abbrev pub need_input : ScanOperator → Bool
need_input op = false

-- ScanOperator::has_output and ScanOperator::is_finished
abbrev pub has_output : ScanOperator → Bool
has_output op = false

abbrev pub is_finished : ScanOperator → Bool
is_finished op = true

-- `_set_scan_status`: only a status that is OK is kept.
unfoldable pub set_scan_status : Status → ScanOperator → ScanOperator
set_scan_status status op = if is_ok status then record op { scan_status = status } else op

-- `_get_scan_status`
abbrev pub get_scan_status : ScanOperator → Status
get_scan_status op = op.scan_status

abbrev pub io_task_batch_size : ℕ
io_task_batch_size = 64

-- ConnectorScanOperator::create_chunk_source
abbrev pub create_chunk_source : ScanOperator → Option Source
create_chunk_source op =
    some (record { chunk_status = ok_status; connector = new_source new_data_source })

-- DriverState
pub data DriverState : Type 0 where
  not_ready ready running input_empty output_full precondition_block finish canceled : DriverState
  internal_error_state pending_finish : DriverState

-- MockPipelineDriver::prepare and MockPipelineDriver::finalize
abbrev pub prepare_driver : List ScanOperator → Status
prepare_driver operators = ok_status

abbrev pub finalize : DriverState → List ScanOperator → List ScanOperator
finalize state operators = operators

-- MockPipelineDriver::source_scan_operator
unfoldable pub source_scan_operator : List ScanOperator → Option ScanOperator
source_scan_operator [] = none
source_scan_operator (op ∷ ops) = some op

module _ {J W : Type 0} (jni : Jni J) (download : Bytes → Bytes → Bytes → Bytes → W → Status × W)
    (env : Environment) (fuel : ℕ) (state : RuntimeState) where
  -- `_read_chunk` of the chunk source over its JDBCDataSource; the chunk is a null pointer.
  unfoldable pub read :
      ConnectorChunkSource JdbcDataSource
      → Action (Program J W) (Status × ConnectorChunkSource JdbcDataSource)
  read =
      read_chunk (open_source jni download env state)
        (λ d. do (status, chunk) ← get_next jni fuel none d; give (status, d)) fuel

  -- `_trigger_next_scan`. `_finish_chunk_source_task` does nothing.
  unfoldable pub trigger_next_scan : ScanOperator → Action (Program J W) (Status × ScanOperator)
  unfolding read
  trigger_next_scan op = elim (op.chunk_source) [
    | none ↦ fails null_pointer
    | some s ↦ do
      (status, (chunk_status, connector)) ←
          buffer_next_batch_chunks_blocking read io_task_batch_size s.chunk_status s.connector
      give (
        status,
        record op {
          chunk_source = some (record { chunk_status = chunk_status; connector = connector });
        },
      )
  ]

  -- `_pickup_morsel`, at the chunk source that was created. `prepare` is always OK.
  unfoldable pub pickup_morsel : ScanOperator → Action (Program J W) (Status × ScanOperator)
  unfolding trigger_next_scan
  pickup_morsel op = do
    (status, op') ← trigger_next_scan (record op { chunk_source = create_chunk_source op })
    give (ok_status, op')

  -- `_try_to_trigger_next_scan`, behind its first test. The status of `_pickup_morsel` is not read.
  pick_up : ScanOperator → Action (Program J W) (Status × ScanOperator)
  unfolding pickup_morsel
  pick_up op = do (status, op') ← pickup_morsel op; give (ok_status, op')

  unfoldable pub has_next : Option Source → Bool
  unfolding has_next_chunk
  has_next none = false
  has_next (some s) = has_next_chunk s.chunk_status

  -- `_try_to_trigger_next_scan`
  unfoldable pub try_to_trigger_next_scan :
      ScanOperator → Action (Program J W) (Status × ScanOperator)
  unfolding pick_up has_next trigger_next_scan
  try_to_trigger_next_scan op =
      if has_next op.chunk_source
      then (do
        (status, op') ← trigger_next_scan op
        if is_ok status
            then pick_up op'
            else give (internal_error (codes "trigger next scan error"), op'))
      else pick_up op

  -- `pull_chunk` has no return.
  unfoldable pub pull_chunk :
      ScanOperator → Action (Program J W) (StatusOr (Option Chunk) × ScanOperator)
  unfolding try_to_trigger_next_scan
  pull_chunk op = do (status, op') ← try_to_trigger_next_scan op; fails no_return

  -- MockPipelineDriver::process, on its first operator, has no return.
  unfoldable pub process : List ScanOperator → Action (Program J W) (StatusOr DriverState)
  unfolding pull_chunk source_scan_operator
  process operators = elim (source_scan_operator operators) [
    | none ↦ fails null_pointer
    | some op ↦ do (maybe_chunk, op') ← pull_chunk op; fails no_return
  ]

abbrev pub jdbc_drivers_dir : Bytes
jdbc_drivers_dir = codes "/Users/lixinzhuang1/IdeaProjects/sr-scanner-demo/be/lib/jdbc_drivers"

-- `JDBCDriverManager::getInstance()->init(…)`
unfoldable pub init_manager : {J : Type 0} → Effect (Program J Fs)
init_manager p =
    (do
      (m, fs) ← lift (Manager.init jdbc_drivers_dir p.manager p.world)
      λ q. done (tt, record q { manager = m; world = fs }))
      p

-- `main`, over the file system. The statuses of `prepare` and `process` are not read.
unfoldable pub main :
    {J : Type 0}
    → Jni J
    → (Bytes → Bytes → Bytes → Bytes → Fs → Status × Fs)
    → Environment
    → ℕ
    → Effect (Program J Fs)
unfolding init_manager process
main jni download env fuel = do
  u ← init_manager
  let ops = new_operator ∷ []
  let prepared = prepare_driver ops
  r ← process jni download env fuel new_state ops
  give tt
