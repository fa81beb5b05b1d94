-- ===== src/Table/Tests.antt =====
-- The theorems on tables of descriptors at concrete data.
use sr_scanner_demo.Base.{true, none, [], ◌∷◌, ◌≡◌, ◌↔◌, All, refl, Bytes, codes, done}
use sr_scanner_demo.Base.Int.{pos}
use sr_scanner_demo.Runtime.Types.{of_type, type_int}
use sr_scanner_demo.Table.Descriptors.{
  SlotDescriptor, TupleDescriptor, tuple_descriptor, add_slot, DescriptorTbl, get_tuple_descs,
  tbl_debug_string,
}
use sr_scanner_demo.Table.Lookup.{tbl_debug_string_iff}

abbrev slot : SlotDescriptor
slot = record {
  id = pos 7;
  type = of_type type_int;
  parent = pos 1;
  col_name = codes "k";
  slot_idx = pos 0;
  slot_size = pos 4;
  is_materialized = true;
}

abbrev tuple_one : TupleDescriptor
tuple_one = add_slot slot (tuple_descriptor (pos 1) none (pos 4))

abbrev tuple_two : TupleDescriptor
tuple_two = tuple_descriptor (pos 2) none (pos 0)

abbrev tbl : DescriptorTbl
tbl = record {
  tbl_desc_map = [];
  tuple_desc_map = (pos 1, tuple_one) ∷ (pos 2, tuple_two) ∷ [];
  slot_desc_map = (pos 7, slot) ∷ [];
}

-- What the vector held is gone.
tuples_run : get_tuple_descs tbl (tuple_two ∷ []) ≡ tuple_one ∷ tuple_two ∷ []
unfolding get_tuple_descs
tuples_run = refl

tbl_debug_string_iff_example :
    ((s : Bytes) × (tbl_debug_string tbl ≡ done s))
    ↔ All (λ entry. entry.1.slots ≡ []) tbl.tuple_desc_map
tbl_debug_string_iff_example = tbl_debug_string_iff tbl
