-- ===== src/Table/Descriptors.antt =====
-- be/table/descriptors.{h,cpp} and be/common/mock_t_table_descriptor.h. Descriptors do not change once
-- they are in the table, so a pointer to one is the descriptor itself, and `none` is a null pointer.
use sr_scanner_demo.Base.{
  Bool, Option, none, some, List, [], ◌∷◌, ◌++◌, Bytes, codes, Outcome, done, fault, no_return,
  ◌>>=◌, if◌then◌else◌,
}
use sr_scanner_demo.Base.Int.{ℤ, eq_ℤ}
use sr_scanner_demo.Base.Decimal.{to_string}
use sr_scanner_demo.Runtime.Types.{TypeDescriptor, debug_string}
use sr_scanner_demo.Runtime.Types

-- mock_t_table_descriptor.h
pub record MockJdbcTable : Type 0 where
  pub jdbc_driver_name : Bytes
  pub jdbc_driver_url : Bytes
  pub jdbc_driver_checksum : Bytes
  pub jdbc_driver_class : Bytes
  pub jdbc_url : Bytes
  pub jdbc_table : Bytes
  pub jdbc_user : Bytes
  pub jdbc_passwd : Bytes

pub record MockTTableDescriptor : Type 0 where
  pub name : Bytes
  pub database : Bytes
  pub id : ℤ
  pub jdbc_table : MockJdbcTable

pub record SlotDescriptor : Type 0 where
  pub id : ℤ
  pub type : TypeDescriptor
  pub parent : ℤ
  pub col_name : Bytes
  pub slot_idx : ℤ
  pub slot_size : ℤ
  pub is_materialized : Bool

-- SlotDescriptor::SlotDescriptor, which moves the type and the name out of its arguments.
abbrev pub slot_descriptor : ℤ → TypeDescriptor → ℤ → Bytes → ℤ → ℤ → Bool → SlotDescriptor
slot_descriptor id type parent col_name slot_idx slot_size is_materialized = record {
  id = id;
  type = type;
  parent = parent;
  col_name = col_name;
  slot_idx = slot_idx;
  slot_size = slot_size;
  is_materialized = is_materialized;
}

-- SlotDescriptor::debug_string
unfoldable pub slot_debug_string : SlotDescriptor → Outcome Bytes
slot_debug_string s = do
  type ← Types.debug_string s.type
  done (
      codes "Slot(id="
      ++ to_string s.id
      ++ codes " type="
      ++ type
      ++ codes " name="
      ++ s.col_name
      ++ codes ")")

-- JDBCTableDescriptor, with the fields of TableDescriptor.
pub record JdbcTableDescriptor : Type 0 where
  pub name : Bytes
  pub database : Bytes
  pub id : ℤ
  pub jdbc_driver_name : Bytes
  pub jdbc_driver_url : Bytes
  pub jdbc_driver_checksum : Bytes
  pub jdbc_driver_class : Bytes
  pub jdbc_url : Bytes
  pub jdbc_table : Bytes
  pub jdbc_user : Bytes
  pub jdbc_passwd : Bytes

-- `JDBCTableDescriptor(const MockTTableDescriptor&)`: the driver's name is the table's.
unfoldable pub jdbc_table_descriptor : MockTTableDescriptor → JdbcTableDescriptor
jdbc_table_descriptor mt_tbl = record {
  name = mt_tbl.name;
  database = mt_tbl.database;
  id = mt_tbl.id;
  jdbc_driver_name = mt_tbl.name;
  jdbc_driver_url = mt_tbl.jdbc_table.jdbc_driver_url;
  jdbc_driver_checksum = mt_tbl.jdbc_table.jdbc_driver_checksum;
  jdbc_driver_class = mt_tbl.jdbc_table.jdbc_driver_class;
  jdbc_url = mt_tbl.jdbc_table.jdbc_url;
  jdbc_table = mt_tbl.jdbc_table.jdbc_table;
  jdbc_user = mt_tbl.jdbc_table.jdbc_user;
  jdbc_passwd = mt_tbl.jdbc_table.jdbc_passwd;
}

-- TableDescriptor::debug_string
abbrev pub table_debug_string : JdbcTableDescriptor → Bytes
table_debug_string t = codes "#name=" ++ t.name

-- JDBCTableDescriptor::debug_string
unfoldable pub jdbc_table_debug_string : JdbcTableDescriptor → Bytes
jdbc_table_debug_string t =
    codes "JDBCTable("
    ++ table_debug_string t
    ++ codes " jdbc_driver_name="
    ++ t.jdbc_driver_name
    ++ codes " jdbc_driver_url="
    ++ t.jdbc_driver_url
    ++ codes " jdbc_driver_checksum="
    ++ t.jdbc_driver_checksum
    ++ codes " jdbc_driver_class="
    ++ t.jdbc_driver_class
    ++ codes " jdbc_url="
    ++ t.jdbc_url
    ++ codes " jdbc_table="
    ++ t.jdbc_table
    ++ codes " jdbc_user="
    ++ t.jdbc_user
    ++ codes " jdbc_passwd="
    ++ t.jdbc_passwd
    ++ codes "}"

pub record TupleDescriptor : Type 0 where
  pub id : ℤ
  pub table_desc : Option JdbcTableDescriptor
  pub byte_size : ℤ
  pub slots : List SlotDescriptor
  pub decoded_slots : List SlotDescriptor

-- `TupleDescriptor(id, table_descriptor, byte_size)`
abbrev pub tuple_descriptor : ℤ → Option JdbcTableDescriptor → ℤ → TupleDescriptor
tuple_descriptor id table_descriptor byte_size = record {
  id = id;
  table_desc = table_descriptor;
  byte_size = byte_size;
  slots = [];
  decoded_slots = [];
}

-- TupleDescriptor::add_slot
unfoldable pub add_slot : SlotDescriptor → TupleDescriptor → TupleDescriptor
add_slot slot t = record t {
  slots = t.slots ++ slot ∷ [];
  decoded_slots = t.decoded_slots ++ slot ∷ [];
}

-- The loop of TupleDescriptor::debug_string, behind the first slot.
unfoldable pub slots_debug_string : List SlotDescriptor → Outcome Bytes
unfolding slot_debug_string
slots_debug_string [] = done []
slots_debug_string (s ∷ slots) = do
  this ← slot_debug_string s
  rest ← slots_debug_string slots
  done (codes ", " ++ this ++ rest)

abbrev pub first_slots_debug_string : List SlotDescriptor → Outcome Bytes
first_slots_debug_string [] = done []
first_slots_debug_string (s ∷ slots) = do
  this ← slot_debug_string s
  rest ← slots_debug_string slots
  done (this ++ rest)

-- TupleDescriptor::debug_string
unfoldable pub tuple_debug_string : TupleDescriptor → Outcome Bytes
unfolding slots_debug_string
tuple_debug_string t = do
  slots ← first_slots_debug_string t.slots
  done (
      codes "Tuple(id="
      ++ to_string t.id
      ++ codes " size="
      ++ to_string t.byte_size
      ++ codes " slots=["
      ++ slots
      ++ codes "])")

-- `std::unordered_map` from ids, in the order in which it is walked.
abbrev pub IdMap {ℓ} : Type ℓ → Type ℓ
IdMap V = List (ℤ × V)

unfoldable pub find {ℓ} : {V : Type ℓ} → ℤ → IdMap V → Option V
find id [] = none
find id ((i, v) ∷ m) = if eq_ℤ i id then some v else find id m

pub record DescriptorTbl : Type 0 where
  pub tbl_desc_map : IdMap JdbcTableDescriptor
  pub tuple_desc_map : IdMap TupleDescriptor
  pub slot_desc_map : IdMap SlotDescriptor

unfoldable pub get_table_descriptor : ℤ → DescriptorTbl → Option JdbcTableDescriptor
unfolding find
get_table_descriptor id tbl = find id tbl.tbl_desc_map

unfoldable pub get_tuple_descriptor : ℤ → DescriptorTbl → Option TupleDescriptor
unfolding find
get_tuple_descriptor id tbl = find id tbl.tuple_desc_map

unfoldable pub get_slot_descriptor : ℤ → DescriptorTbl → Option SlotDescriptor
unfolding find
get_slot_descriptor id tbl = find id tbl.slot_desc_map

-- The loop of `get_tuple_descs`.
unfoldable pub push_tuples : IdMap TupleDescriptor → List TupleDescriptor → List TupleDescriptor
push_tuples [] descs = descs
push_tuples ((id, tuple) ∷ m) descs = push_tuples m (descs ++ tuple ∷ [])

-- `get_tuple_descs`, with `*descs` before and behind it: `clear` empties it.
unfoldable pub get_tuple_descs : DescriptorTbl → List TupleDescriptor → List TupleDescriptor
unfolding push_tuples
get_tuple_descs tbl descs =
    let cleared : List TupleDescriptor = [] in push_tuples tbl.tuple_desc_map cleared

unfoldable pub tuples_debug_string : IdMap TupleDescriptor → Outcome Bytes
unfolding tuple_debug_string
tuples_debug_string [] = done []
tuples_debug_string ((id, t) ∷ m) = do
  this ← tuple_debug_string t
  rest ← tuples_debug_string m
  done (this ++ codes "\n" ++ rest)

-- DescriptorTbl::debug_string
unfoldable pub tbl_debug_string : DescriptorTbl → Outcome Bytes
unfolding tuples_debug_string
tbl_debug_string tbl = do
  tuples ← tuples_debug_string tbl.tuple_desc_map
  done (codes "tuples:\n" ++ tuples)

-- `DescriptorTbl::create` makes a descriptor that it drops, and ends without a return.
unfoldable pub create : MockTTableDescriptor → Outcome DescriptorTbl
create mt_tbl = fault no_return
