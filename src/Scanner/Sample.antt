-- ===== src/Scanner/Sample.antt =====
-- Scanners for tests, over the sample of a virtual machine.
use sr_scanner_demo.Base.{none, some, [], ◌∷◌, codes, true}
use sr_scanner_demo.Base.Int.{pos}
use sr_scanner_demo.Runtime.Types.{type_int, type_varchar}
use sr_scanner_demo.Runtime.Types
use sr_scanner_demo.Table.Descriptors.{SlotDescriptor, slot_descriptor, TupleDescriptor}
use sr_scanner_demo.Chunk.{new_chunk}
use sr_scanner_demo.Scanner.{JdbcScanContext, JdbcScanner}

abbrev pub sample_slot : SlotDescriptor
sample_slot =
    slot_descriptor (pos 1) (Types.of_type type_int) (pos 123) (codes "SampleID") (pos 0) (pos 4)
      true

abbrev pub sample_tuple : TupleDescriptor
sample_tuple = record {
  id = pos 123;
  table_desc = none;
  byte_size = pos 4;
  slots = sample_slot ∷ [];
  decoded_slots = sample_slot ∷ [];
}

abbrev pub opened_scanner : JdbcScanContext → JdbcScanner
opened_scanner context = record {
  scan_ctx = context;
  slot_descs = sample_slot ∷ [];
  column_class_names = codes "text" ∷ [];
  result_column_types = type_varchar ∷ [];
  result_chunk = some new_chunk;
  jdbc_bridge_cls = some 1;
  jdbc_scanner_cls = some 1;
  jdbc_util_cls = some 1;
  scanner_has_next = some 1;
  scanner_get_next_chunk = some 1;
  scanner_result_rows = some 1;
  scanner_close = some 1;
  util_format_date = some 1;
  util_format_localdatetime = some 1;
  jdbc_bridge = 1;
  jdbc_scan_context = 1;
  jdbc_scanner = 1;
}

abbrev pub sample_context : JdbcScanContext
sample_context = record {
  driver_path = codes "d.jar";
  driver_class_name = codes "Driver";
  jdbc_url = codes "jdbc:x";
  user = codes "u";
  passwd = codes "p";
  sql = codes "select 1";
  properties = [];
}
