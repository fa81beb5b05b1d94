-- ===== src/Runtime/Types/Checks.antt =====
-- When `TypeDescriptor::from_primitive_type` of be/runtime/types.h passes its checks, and what it makes.
use sr_scanner_demo.Base.{
  Bool, true, false, ◌≡◌, ◌⊎◌, ◌↔◌, sym, ◌∙◌, inl, inr, refl, arith, Outcome, done, fault,
  failed_check,
}
use sr_scanner_demo.Base.Int.{ℤ, pos, negsuc, ◌≤ℤ◌}
use sr_scanner_demo.Runtime.Types.{
  PrimitiveType, type_decimal, type_decimalv2, type_decimal32, type_decimal64, type_decimal128,
  TypeDescriptor, type_of, check_decimal, create_decimal_type, create_decimalv2_type,
  create_decimalv3_type, from_primitive_type,
}

-- The precision has at most 38 digits, and the scale is not above it.
abbrev pub Fits : ℤ → ℤ → Type 0
Fits precision scale = (pos 0 ≤ℤ precision) × (precision ≤ℤ pos 38) × (scale ≤ℤ precision)

abbrev pub is_decimal : PrimitiveType → Bool
is_decimal type_decimal = true
is_decimal type_decimalv2 = true
is_decimal type_decimal32 = true
is_decimal type_decimal64 = true
is_decimal type_decimal128 = true
is_decimal _ = false

check_decimal_cases :
    {A : Type 0} (precision scale : ℤ) (next : Outcome A)
    → (Fits precision scale × (check_decimal true precision scale next ≡ next))
      ⊎ ((¬ (Fits precision scale))
          × (check_decimal true precision scale next ≡ fault failed_check))
unfolding check_decimal
check_decimal_cases (pos p) (pos s) next = ground arith
check_decimal_cases (pos p) (negsuc s) next = ground arith
check_decimal_cases (negsuc p) (pos s) next = ground arith
check_decimal_cases (negsuc p) (negsuc s) next = ground arith

check_decimal_iff :
    {A : Type 0} (precision scale : ℤ) (a : A)
    → ((b : A) × (check_decimal true precision scale (done a) ≡ done b)) ↔ Fits precision scale
check_decimal_iff precision scale a = elim (check_decimal_cases precision scale (done a)) [
  | inl (fits, e) ↦ (λ _. fits, λ _. (a, e))
  | inr (not_fits, e) ↦ (λ (b, q). let r = sym e ∙ q in cc r, λ fits. absurd (not_fits fits))
]

decimal_iff :
    (precision scale : ℤ) (a : TypeDescriptor)
    → ((t : TypeDescriptor) × (check_decimal true precision scale (done a) ≡ done t))
      ↔ (true ≡ true → Fits precision scale)
decimal_iff precision scale a =
    let (forth, back) = check_decimal_iff precision scale a in (λ h e. forth h, λ h. back (h refl))

-- In a release build `from_primitive_type` returns a descriptor of the given type, whatever the length,
-- precision and scale.
pub from_primitive_type-type_of :
    (type : PrimitiveType) (len precision scale : ℤ)
    → (t : TypeDescriptor) × (from_primitive_type false type len precision scale ≡ done t)
      × (type_of t ≡ type)
unfolding from_primitive_type check_decimal create_decimal_type create_decimalv2_type
    create_decimalv3_type
from_primitive_type-type_of type_decimal len precision scale = (_, refl, refl)
from_primitive_type-type_of _ len precision scale = (_, refl, refl)

-- In a debug build it returns exactly if the type is not a decimal one, or the precision is between 0
-- and 38 and the scale not above it.
pub from_primitive_type_iff :
    (type : PrimitiveType) (len precision scale : ℤ)
    → ((t : TypeDescriptor) × (from_primitive_type true type len precision scale ≡ done t))
      ↔ (is_decimal type ≡ true → Fits precision scale)
unfolding from_primitive_type create_decimal_type create_decimalv2_type create_decimalv3_type
from_primitive_type_iff type_decimal len precision scale = decimal_iff precision scale _
from_primitive_type_iff type_decimalv2 len precision scale = decimal_iff precision scale _
from_primitive_type_iff type_decimal32 len precision scale = decimal_iff precision scale _
from_primitive_type_iff type_decimal64 len precision scale = decimal_iff precision scale _
from_primitive_type_iff type_decimal128 len precision scale = decimal_iff precision scale _
from_primitive_type_iff _ len precision scale = (λ h e. cc e, λ h. (_, refl))
