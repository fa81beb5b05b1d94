-- ===== src/Base/Outcomes.antt =====
-- What a call of C++ code comes to: a value, an exception, or behaviour that C++ leaves undefined; and
-- `unfinished` where the fuel of a loop in it ends first.
use mathlib.Core.Path.{◌≡◌, refl, ap}
use package.sr_scanner_demo.Base.Text.{Bytes}

-- `no_return` is the end of a function that should have returned a value; `failed_check` is the abort
-- of a DCHECK; `uninitialized` is the use of a variable without a value.
pub data Fault : Type 0 where
  null_pointer double_free dangling bad_index no_return failed_check uninitialized : Fault

-- `throws` carries the text of `what()`.
pub data Outcome {ℓ} (A : Type ℓ) : Type ℓ where
  done : A → Outcome A
  throws : Bytes → Outcome A
  fault : Fault → Outcome A
  unfinished : Outcome A

infixl 5 ◌>>=◌
abbrev pub ◌>>=◌ {ℓ κ} : {A : Type ℓ} {B : Type κ} → Outcome A → (A → Outcome B) → Outcome B
done a >>= f = f a
throws e >>= f = throws e
fault e >>= f = fault e
unfinished >>= f = unfinished

-- Inversion of a chain that comes to a value.
pub >>=-eq-done {ℓ κ} :
    {A : Type ℓ} {B : Type κ} (m : Outcome A) (f : A → Outcome B) {b : B}
    → (m >>= f) ≡ done b
    → (a : A) × (m ≡ done a) × (f a ≡ done b)
>>=-eq-done (done a) f h = (a, refl, h)
>>=-eq-done (throws e) f h = cc
>>=-eq-done (fault e) f h = cc
>>=-eq-done unfinished f h = cc

-- Two chains that go on alike wherever the first part returns come to the same.
pub >>=-ext {ℓ κ} :
    {A : Type ℓ} {B : Type κ} (m : Outcome A) (f g : A → Outcome B)
    → ((a : A) → m ≡ done a → f a ≡ g a)
    → (m >>= f) ≡ (m >>= g)
>>=-ext (done a) f g h = h a refl
>>=-ext (throws e) f g h = refl
>>=-ext (fault e) f g h = refl
>>=-ext unfinished f g h = refl

module _ {ℓ} {A : Type ℓ} where
  or_default : A → Outcome A → A
  or_default d (done a) = a
  or_default d (throws e) = d
  or_default d (fault e) = d
  or_default d unfinished = d

  pub done-injective : (a b : A) → done a ≡ done b → a ≡ b
  unfolding or_default
  done-injective a b p = ap (or_default a) p
