-- ===== src/Scan/DataSource.antt =====
-- be/datasource/connector.h and be/datasource/jdbc_connector.{h,cpp}: JDBCDataSource, over the Java Native
-- Interface and the download of a driver.
use sr_scanner_demo.Base.{
  ℕ, zero, suc, Bool, false, Option, none, some, ◌++◌, Bytes, codes, null_pointer, unfinished, ◌==◌,
  if◌then◌else◌, done, [],
}
use sr_scanner_demo.Base.Int.{ℤ, pos}
use sr_scanner_demo.Base.Actions.{Action, give, fails, lift, on, ◌>>=◌}
use sr_scanner_demo.Status.{Status, ok_status, is_ok}
use sr_scanner_demo.Runtime.State.{RuntimeState}
use sr_scanner_demo.Table.Descriptors.{TupleDescriptor, DescriptorTbl, get_tuple_descriptor}
use sr_scanner_demo.Driver.Manager.{Manager, get_driver_location}
use sr_scanner_demo.Udf.Jni.{Jni}
use sr_scanner_demo.Udf.Start.{Jvm}
use sr_scanner_demo.Chunk.{Chunk, num_rows}
use sr_scanner_demo.Scanner.{JdbcScanContext, JdbcScanner, new_scanner}
use sr_scanner_demo.Scanner.Columns.{open_scanner}
use sr_scanner_demo.Scanner.Reading

-- The state that a scan changes: the virtual machine, the driver manager, and what a download changes.
pub record Program (J W : Type 0) : Type 0 where
  pub jvm : Jvm J
  pub manager : Manager
  pub world : W

-- What the program reads of its environment: JAVA_HOME, and the clock of the driver manager.
pub record Environment : Type 0 where
  pub java_home : Option Bytes
  pub now : ℤ

-- JDBCDataSource; `none` is a null pointer.
pub record JdbcDataSource : Type 0 where
  pub tuple_desc : Option TupleDescriptor
  pub scanner : Option JdbcScanner

abbrev pub new_data_source : JdbcDataSource
new_data_source = record { tuple_desc = none; scanner = none }

abbrev pub driver_name : Bytes
driver_name = codes "mssql-jdbc"

abbrev pub driver_url : Bytes
driver_url =
    codes "https://repo1.maven.org/maven2/com/microsoft/sqlserver/mssql-jdbc/12.4.2.jre8/"
    ++ codes "mssql-jdbc-12.4.2.jre8.jar"

abbrev pub driver_checksum : Bytes
driver_checksum = codes "6c10ef9c332098b2c51f20f03eb6c294"

-- The context that `_create_scanner` makes.
abbrev pub scan_context : Bytes → JdbcScanContext
scan_context driver_location = record {
  driver_path = driver_location;
  driver_class_name = codes "com.microsoft.sqlserver.jdbc.SQLServerDriver";
  jdbc_url =
      codes "jdbc:sqlserver://127.0.0.1:1433;databaseName=MyDatabase;"
      ++ codes "trustServerCertificate=true";
  user = codes "sa";
  passwd = codes "Lxz74321.!";
  sql = codes "select SampleID,SampleBigInt from dbo.SampleTypeTable";
  properties = [];
}

-- DataSource::skip_predicate, which JDBCDataSource keeps
abbrev pub skip_predicate : JdbcDataSource → Bool
skip_predicate d = false

-- DataSource::_init_chunk, which has no statement
abbrev pub init_chunk : Option Chunk → Option Chunk
init_chunk chunk = chunk

-- JDBCDataSource::close
abbrev pub close : JdbcDataSource → JdbcDataSource
close d = d

-- `state->desc_tbl()`, of a pointer that may be null.
unfoldable pub desc_tbl : {W : Type 0} → RuntimeState → Action W DescriptorTbl
desc_tbl state = elim (state.desc_tbl) [ none ↦ fails null_pointer | some tbl ↦ give tbl ]

-- `*pointer`
abbrev pub pointed : {A V : Type 0} → Option A → Action V A
pointed none = fails null_pointer
pointed (some a) = give a

module _ {J W : Type 0} (jni : Jni J) where
  abbrev pub in_jvm : {A : Type 0} → Action (Jvm J) A → Action (Program J W) A
  in_jvm = on (λ p. p.jvm) (λ p jvm. record p { jvm = jvm })

  -- The loop of `get_next`: the scanner is asked again while its chunk has no rows.
  unfoldable pub read_rows :
      ℕ → Option Chunk → Bool → JdbcScanner → Action (Program J W) (Option Chunk × Bool)
  read_rows zero chunk eos s = lift unfinished
  read_rows (suc n) chunk eos s = do
    (status, (chunk', eos')) ← in_jvm (Reading.get_next jni chunk eos s)
    if eos' then give (chunk', eos') else (do
      c ← pointed chunk'
      rows ← lift (num_rows c)
      if rows == 0 then read_rows n chunk' eos' s else give (chunk', eos'))

  -- `get_next`
  unfoldable pub get_next :
      ℕ → Option Chunk → JdbcDataSource → Action (Program J W) (Status × Option Chunk)
  unfolding read_rows
  get_next fuel chunk d = do
    s ← pointed d.scanner
    (chunk', eos) ← read_rows fuel (init_chunk chunk) false s
    if eos then give (ok_status, chunk') else give (ok_status, chunk')

  module _ (download : Bytes → Bytes → Bytes → Bytes → W → Status × W) (env : Environment) where
    -- `get_driver_location` with the constants of `_create_scanner`.
    unfoldable pub locate : Action (Program J W) (Status × Bytes)
    locate p =
        (do
          (status, location, m, w) ← lift (
              get_driver_location download driver_name driver_url driver_checksum env.now p.manager
                p.world)
          λ q. done ((status, location), record q { manager = m; world = w }))
          p

    -- `_create_scanner`, behind the location. The status of the scanner's `open` is not read.
    unfoldable pub start_scanner :
        Bytes → JdbcDataSource → Action (Program J W) (Status × JdbcDataSource)
    start_scanner location d = do
      tuple ← pointed d.tuple_desc
      (status, s) ←
          in_jvm (open_scanner jni env.java_home (new_scanner (scan_context location) tuple))
      give (ok_status, record d { scanner = some s })

    -- `_create_scanner`
    unfoldable pub create_scanner : JdbcDataSource → Action (Program J W) (Status × JdbcDataSource)
    unfolding locate start_scanner
    create_scanner d = do
      (status, location) ← locate
      if is_ok status then start_scanner location d else give (status, d)

    -- `open`. The status of `_create_scanner` is not read.
    unfoldable pub open_source :
        RuntimeState → JdbcDataSource → Action (Program J W) (Status × JdbcDataSource)
    unfolding desc_tbl create_scanner
    open_source state d = do
      tbl ← desc_tbl state
      (status, d') ← create_scanner (record d { tuple_desc = get_tuple_descriptor (pos 123) tbl })
      give (ok_status, d')
