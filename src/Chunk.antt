-- ===== src/Chunk.antt =====
-- be/common/chunk.h, be/common/buffer.{h,cpp}, be/column/column.h and be/column/column_helper.cpp.
use sr_scanner_demo.Base.{
  ℕ, Bool, Option, none, some, List, [], ◌∷◌, ◌++◌, Bytes, Outcome, done, fault, null_pointer,
  length, take,
}
use sr_scanner_demo.Runtime.Types.{TypeDescriptor}

-- Column: an abstract class, of which only `size()` can be asked.
pub record Column : Type 0 where
  pub size : ℕ

-- Chunk. A ColumnPtr is a column, or `none` where it is null.
pub record Chunk : Type 0 where
  pub columns : List (Option Column)

abbrev pub new_chunk : Chunk
new_chunk = record { columns = [] }

-- Chunk::num_rows
unfoldable pub num_rows : Chunk → Outcome ℕ
num_rows c = elim (c.columns) [
  | [] ↦ done 0
  | column ∷ columns ↦ elim column [ none ↦ fault null_pointer | some col ↦ done col.size ]
]

-- ColumnHelper::create_column
abbrev pub create_column : TypeDescriptor → Bool → Option Column
create_column type_desc nullable = none

-- Buffer
pub record Buffer : Type 0 where
  pub data_bytes : Bytes

abbrev pub new_buffer : Buffer
new_buffer = record { data_bytes = [] }

-- Buffer::append: `size` bytes from `ptr`, of which there must be as many.
unfoldable pub append : Bytes → ℕ → Buffer → Buffer
append ptr size b = record { data_bytes = b.data_bytes ++ take size ptr }

-- Buffer::read, as all bytes from the pointer on
abbrev pub read : Buffer → Bytes
read b = b.data_bytes

-- Buffer::size
abbrev pub size : Buffer → ℕ
size b = length b.data_bytes

-- Buffer::clear
abbrev pub clear : Buffer → Buffer
clear b = record { data_bytes = [] }
