-- ===== src/Runtime/Types.antt =====
-- be/runtime/primitive_type.h, be/runtime/types.{h,cpp} and the constants of be/common/constexpr.h that
-- they use.
pub mod Checks
use sr_scanner_demo.Base.{
  ◌+◌, ◌*◌, Bool, true, false, List, [], ◌∷◌, Bytes, ◌&&◌, not, Outcome, done, fault, failed_check,
  no_return, ◌>>=◌, if◌then◌else◌,
}
use sr_scanner_demo.Base.Int.{ℤ, pos, negsuc, leb_ℤ}

pub data PrimitiveType : Type 0 where
  invalid_type type_null type_boolean type_tinyint type_smallint type_int type_bigint :
      PrimitiveType
  type_largeint type_float type_double type_varchar type_date type_datetime : PrimitiveType
  type_binary type_decimal type_char type_struct type_array type_map type_hll : PrimitiveType
  type_decimalv2 type_time type_object type_percentile type_decimal32 type_decimal64 : PrimitiveType
  type_decimal128 type_json type_function : PrimitiveType

-- The static members of TypeDescriptor.
abbrev pub max_varchar_length : ℤ
max_varchar_length = pos 1048576

abbrev pub max_char_length : ℤ
max_char_length = pos 255

abbrev pub default_bitmap_length : ℤ
default_bitmap_length = pos 128

abbrev pub max_precision : ℤ
max_precision = pos 38

abbrev pub max_scale : ℤ
max_scale = max_precision

-- constexpr.h
abbrev pub hll_column_default_len : ℤ
hll_column_default_len = pos (16 * 1024 + 1)

abbrev pub json_default_size : ℤ
json_default_size = pos 128

-- TypeDescriptor: `type`, `len`, `precision`, `scale`, `children`, `field_names`.
mutual
  pub data TypeDescriptor : Type 0 where
    type_descriptor : PrimitiveType → ℤ → ℤ → ℤ → TypeDescriptors → List Bytes → TypeDescriptor

  pub data TypeDescriptors : Type 0 where
    no_types : TypeDescriptors
    type_then : TypeDescriptor → TypeDescriptors → TypeDescriptors

abbrev pub type_of : TypeDescriptor → PrimitiveType
type_of (type_descriptor type len precision scale children field_names) = type

abbrev minus_one : ℤ
minus_one = negsuc 0

-- A descriptor without children, as every function here makes it.
abbrev pub scalar : PrimitiveType → ℤ → ℤ → ℤ → TypeDescriptor
scalar type len precision scale = type_descriptor type len precision scale no_types []

-- `TypeDescriptor(PrimitiveType)`
abbrev pub of_type : PrimitiveType → TypeDescriptor
of_type type = scalar type minus_one minus_one minus_one

abbrev pub create_char_type : ℤ → TypeDescriptor
create_char_type len = scalar type_char len minus_one minus_one

abbrev pub create_varchar_type : ℤ → TypeDescriptor
create_varchar_type len = scalar type_varchar len minus_one minus_one

abbrev pub create_json_type : TypeDescriptor
create_json_type = scalar type_json json_default_size minus_one minus_one

abbrev pub create_hll_type : TypeDescriptor
create_hll_type = scalar type_hll hll_column_default_len minus_one minus_one

abbrev pub create_bitmap_type : TypeDescriptor
create_bitmap_type = scalar type_object default_bitmap_length minus_one minus_one

-- A DCHECK: it aborts in a debug build, and is not compiled in a release build.
abbrev pub dcheck {ℓ} : {A : Type ℓ} → Bool → Bool → Outcome A → Outcome A
dcheck debug b next = if debug && not b then fault failed_check else next

-- The four checks that the decimal types share.
unfoldable pub check_decimal {ℓ} : {A : Type ℓ} → Bool → ℤ → ℤ → Outcome A → Outcome A
check_decimal debug precision scale next = dcheck debug (leb_ℤ precision max_precision) (
    dcheck debug (leb_ℤ scale max_scale)
      (dcheck debug (leb_ℤ (pos 0) precision) (dcheck debug (leb_ℤ scale precision) next)))

unfoldable pub create_decimal_type : Bool → ℤ → ℤ → Outcome TypeDescriptor
unfolding check_decimal
create_decimal_type debug precision scale =
    check_decimal debug precision scale (done (scalar type_decimal minus_one precision scale))

unfoldable pub create_decimalv2_type : Bool → ℤ → ℤ → Outcome TypeDescriptor
unfolding check_decimal
create_decimalv2_type debug precision scale =
    check_decimal debug precision scale (done (scalar type_decimalv2 minus_one precision scale))

-- `type == TYPE_DECIMAL32 || type == TYPE_DECIMAL64 || type == TYPE_DECIMAL128`
abbrev pub is_decimalv3 : PrimitiveType → Bool
is_decimalv3 type_decimal32 = true
is_decimalv3 type_decimal64 = true
is_decimalv3 type_decimal128 = true
is_decimalv3 _ = false

unfoldable pub create_decimalv3_type : Bool → PrimitiveType → ℤ → ℤ → Outcome TypeDescriptor
unfolding check_decimal
create_decimalv3_type debug type precision scale =
    dcheck debug (is_decimalv3 type)
      (check_decimal debug precision scale (done (scalar type minus_one precision scale)))

-- `from_primitive_type`. Its `len` is not read.
unfoldable pub from_primitive_type : Bool → PrimitiveType → ℤ → ℤ → ℤ → Outcome TypeDescriptor
unfolding create_decimal_type create_decimalv2_type create_decimalv3_type
from_primitive_type debug type_char len precision scale = done (create_char_type max_char_length)
from_primitive_type debug type_varchar len precision scale =
    done (create_varchar_type max_varchar_length)
from_primitive_type debug type_hll len precision scale = done create_hll_type
from_primitive_type debug type_decimal len precision scale =
    create_decimal_type debug precision scale
from_primitive_type debug type_decimalv2 len precision scale =
    create_decimalv2_type debug precision scale
from_primitive_type debug type_decimal32 len precision scale =
    create_decimalv3_type debug type_decimal32 precision scale
from_primitive_type debug type_decimal64 len precision scale =
    create_decimalv3_type debug type_decimal64 precision scale
from_primitive_type debug type_decimal128 len precision scale =
    create_decimalv3_type debug type_decimal128 precision scale
from_primitive_type debug type_json len precision scale = done create_json_type
from_primitive_type debug type_object len precision scale = done create_bitmap_type
from_primitive_type debug type len precision scale = done (of_type type)

-- `debug_string`: its whole body is commented out.
unfoldable pub debug_string : TypeDescriptor → Outcome Bytes
debug_string type = fault no_return
