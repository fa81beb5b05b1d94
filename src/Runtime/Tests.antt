-- ===== src/Runtime/Tests.antt =====
-- The theorems on types and on the runtime state at concrete data.
use sr_scanner_demo.Base.{true, ◌≡◌, refl, fault, failed_check}
use sr_scanner_demo.Base.Int.{pos}
use sr_scanner_demo.Runtime.Types.{
  type_decimal64, check_decimal, create_decimalv3_type, from_primitive_type,
}

scale_too_large :
    from_primitive_type true type_decimal64 (pos 1) (pos 3) (pos 4) ≡ fault failed_check
unfolding from_primitive_type create_decimalv3_type check_decimal
scale_too_large = refl
