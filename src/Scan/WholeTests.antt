-- ===== src/Scan/WholeTests.antt =====
-- Runs of a scan and of the whole program, and the theorems on them at concrete data.
use sr_scanner_demo.Base.{
  Bool, true, false, Option, none, some, [], ◌∷◌, ◌≡◌, refl, Bytes, codes, done, fault,
  null_pointer,
}
use sr_scanner_demo.Base.Int.{pos}
use sr_scanner_demo.Base.Dict
use sr_scanner_demo.Base.Actions.{◌>>=◌}
use sr_scanner_demo.Status.{
  Status, ok_status, internal_error, is_ok, value_or_die, status_or_of_value,
}
use sr_scanner_demo.Runtime.State.{RuntimeState, new_state, set_desc_tbl}
use sr_scanner_demo.Fs.{Fs, directory, directory_exists, list_directory}
use sr_scanner_demo.Table.Descriptors.{DescriptorTbl, get_tuple_descriptor, TupleDescriptor}
use sr_scanner_demo.Driver.Manager
use sr_scanner_demo.Driver.Manager.{
  Manager, fresh_entry, reserve, check_expected, find_or_create, get_driver_location,
}
use sr_scanner_demo.Driver.Manager.Invariant.{IsValid}
use sr_scanner_demo.Chunk.{Chunk}
use sr_scanner_demo.Udf.Sample.{sample_java, unstarted, started}
use sr_scanner_demo.Base.Decimal.{to_string}
use sr_scanner_demo.Scanner.{check_java_exception, new_scanner}
use sr_scanner_demo.Scanner.Columns.{open_scanner}
use sr_scanner_demo.Scanner.Sample.{sample_tuple, opened_scanner}
use sr_scanner_demo.Scan.ChunkSource.{new_source}
use sr_scanner_demo.Scan.DataSource.{
  Program, Environment, JdbcDataSource, new_data_source, driver_name, driver_checksum, scan_context,
  get_next, open_source,
}
use sr_scanner_demo.Scan.Scanned.{get_next_once}
use sr_scanner_demo.Scan.Operators.{read, main, jdbc_drivers_dir}
use sr_scanner_demo.Scan.Whole.{read_never_returns, main_faults}
use sr_scanner_demo.Scan.Located.{HasScanner, open_source_lem}

abbrev empty_manager : Manager
empty_manager = record { driver_dir = codes "lib"; entry_map = []; heap = [] }

empty_manager-IsValid : IsValid empty_manager
unfolding Dict.lookup
empty_manager-IsValid = record { bound = λ name id h. cc; downloaded = λ id e h. cc }

abbrev failing : Bytes → Bytes → Bytes → Bytes → Fs → Status × Fs
failing url tmp target checksum w = (internal_error (codes "no network"), w)

abbrev env : Environment
env = record { java_home = none; now = pos 5 }

abbrev disk : Fs
disk = (jdbc_drivers_dir, directory) ∷ []

abbrev program : Program Bool Fs
program = record { jvm = unstarted; manager = empty_manager; world = disk }

abbrev tbl : DescriptorTbl
tbl = record {
  tbl_desc_map = [];
  tuple_desc_map = (pos 123, sample_tuple) ∷ [];
  slot_desc_map = [];
}

abbrev state : RuntimeState
state = set_desc_tbl tbl new_state

init_run :
    Manager.init jdbc_drivers_dir empty_manager disk
    ≡ done (record empty_manager { driver_dir = jdbc_drivers_dir }, disk)
unfolding Manager.init Manager.load_files list_directory directory_exists Dict.lookup
init_run = refl

main_faults_example : main (sample_java false) failing env 9 program ≡ fault null_pointer
main_faults_example =
    main_faults (sample_java false) failing env 9 program
      (record empty_manager { driver_dir = jdbc_drivers_dir }, disk) init_run

read_never_returns_example : ¬ (
    read (sample_java false) failing env 9 state (new_source new_data_source) program
    ≡ done ((ok_status, new_source new_data_source), program))
unfolding is_ok
read_never_returns_example =
    read_never_returns (sample_java false) failing env state 9 (new_source new_data_source) program
      ((ok_status, new_source new_data_source), program) refl

abbrev located : Manager
located = record empty_manager {
  entry_map = (driver_name, 0) ∷ [];
  heap =
      record (fresh_entry (codes "lib") driver_name driver_checksum (pos 5)) {
        is_available = true;
        is_downloaded = true;
      }
      ∷ [];
}

abbrev source : JdbcDataSource
source = record {
  tuple_desc = some sample_tuple;
  scanner = some (
      opened_scanner
        (scan_context (codes "lib/mssql-jdbc_6c10ef9c332098b2c51f20f03eb6c294_5.jar")));
}

abbrev scanning : Program Bool Fs
scanning = record { jvm = started; manager = located; world = disk }

source_run :
    open_source (sample_java false) failing env state new_data_source program
    ≡ done ((ok_status, source), scanning)
unfolding open_source get_driver_location get_tuple_descriptor ◌>>=◌ reserve check_expected
    find_or_create Dict.lookup is_ok open_scanner value_or_die status_or_of_value
    check_java_exception new_scanner to_string Dict.insert
source_run = refl

open_source_lem_example :
    (tbl' : DescriptorTbl) × (t : TupleDescriptor) × (state.desc_tbl ≡ some tbl')
    × (get_tuple_descriptor (pos 123) tbl' ≡ some t)
    × (◌≡◌ {A = Status} ok_status ok_status)
    × IsValid located
    × HasScanner t source located
open_source_lem_example =
    open_source_lem (sample_java false) failing env state new_data_source program
      ((ok_status, source), scanning) empty_manager-IsValid source_run

get_next_once_example :
    (get_next (sample_java true) 7 none source scanning
      ≡ get_next (sample_java true) 1 none source scanning)
    × ((r : (Status × Option Chunk) × Program Bool Fs)
        → get_next (sample_java true) 7 none source scanning ≡ done r
        → r.0 ≡ (ok_status, none))
get_next_once_example = get_next_once (sample_java true) 6 none source scanning
