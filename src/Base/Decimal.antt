-- ===== src/Base/Decimal.antt =====
-- Decimal text of the standard library: std::to_string of an integer, and std::stol.
use Prim.Native.Nat.{ℕ, zero, suc, ◌+◌, ◌-◌, ◌*◌, ◌/◌, ◌%◌, ◌^◌, ◌<◌}
use mathlib.Core.Path.{subst, ◌≡◌, refl, ap, ◌∙◌}
use mathlib.Core.Logic.{inl, inr, ◌≢◌}
use mathlib.Core.Bool.{Bool, true, false, ◌&&◌, ◌||◌}
use mathlib.Core.Option.{some-injective, Option, none, some}
use mathlib.Core.List.{[], ◌∷◌}
use native.Mathlib.Omega.{arith}
use package.sr_scanner_demo.Base.Tests.{ltb, leb, ◌==◌, if◌then◌else◌, Bool-cases}
use package.sr_scanner_demo.Base.Text.{Bytes, codes, Lacks}
use package.sr_scanner_demo.Base.Int.{ℤ, pos, negsuc, InInt64}

-- The digits of `n` in front of `out`. `suc n` rounds are enough.
digits : ℕ → ℕ → Bytes → Bytes
digits zero n out = out
digits (suc f) n out =
    let rest = digits f (n / 10) ((b'0' + n % 10) ∷ out) in
    if ltb n 10 then (b'0' + n) ∷ out else rest

unfoldable pub to_string : ℤ → Bytes
unfolding digits
to_string (pos n) = digits (suc n) n []
to_string (negsuc n) = b'-' ∷ digits (suc (suc n)) (suc n) []

unfoldable pub is_digit : ℕ → Bool
is_digit c = leb b'0' c && leb c b'9'

-- isspace in the "C" locale
is_space : ℕ → Bool
is_space c = (c == 32) || (leb 9 c && leb c 13)

skip_spaces : Bytes → Bytes
unfolding is_space
skip_spaces [] = []
skip_spaces (c ∷ s) = if is_space c then skip_spaces s else c ∷ s

-- The number that the digits at the front spell, behind `n`.
read_digits : ℕ → Bytes → ℕ
unfolding is_digit
read_digits n [] = n
read_digits n (c ∷ s) =
    let rest = read_digits (n * 10 + (c - b'0')) s in if is_digit c then rest else n

starts_with_digit : Bytes → Bool
unfolding is_digit
starts_with_digit [] = false
starts_with_digit (c ∷ s) = is_digit c

-- `none` is an exception: no digits (invalid_argument), or a value that is no long (out_of_range).
positive : Bytes → Option ℤ
unfolding read_digits starts_with_digit
positive s =
    if starts_with_digit s
    then (let n = read_digits 0 s in if ltb n (2 ^ 63) then some (pos n) else none)
    else none

negative : Bytes → Option ℤ
unfolding read_digits starts_with_digit
negative s =
    if starts_with_digit s
    then (let n = read_digits 0 s in
        if n == 0 then some (pos 0) else if leb n (2 ^ 63) then some (negsuc (n - 1)) else none)
    else none

signed : Bytes → Option ℤ
unfolding positive negative
signed [] = none
signed (c ∷ s) =
    if c == b'-' then negative s else if c == b'+' then positive s else positive (c ∷ s)

unfoldable pub stol : Bytes → Option ℤ
unfolding signed skip_spaces
stol s = signed (skip_spaces s)

-- Reading back what `digits` wrote gives `n`, and goes on behind it.
read_digits-digits :
    (f n : ℕ) (out : Bytes) → n < f → read_digits 0 (digits f n out) ≡ read_digits n out
unfolding digits read_digits
read_digits-digits zero n out h = elim h [ ]
read_digits-digits (suc f) n out h =
    ground (arith, read_digits-digits f (n / 10) ((b'0' + n % 10) ∷ out))

-- The print of a number begins with a digit.
digits_head :
    (f n : ℕ) (out : Bytes)
    → n < f
    → (c : ℕ) × (s : Bytes) × (digits f n out ≡ c ∷ s) × (is_digit c ≡ true)
unfolding digits is_digit
digits_head zero n out h = elim h [ ]
digits_head (suc f) n out h = elim (Bool-cases (ltb n 10)) [
  | inl last ↦ (b'0' + n, out, rw last, ground arith)
  | inr more ↦
      let (c, s, e, d) = digits_head f (n / 10) ((b'0' + n % 10) ∷ out) (ground arith) in
      (c, s, rw more e, d)
]

-- `positive` and `negative` on a printed number, and the steps in front of them.
positive-digits : (n : ℕ) → n < 2 ^ 63 → positive (digits (suc n) n []) ≡ some (pos n)
unfolding positive
positive-digits n h =
    let (c, s, e, d) = digits_head (suc n) n [] (omega arith) in
    let r : read_digits 0 (digits (suc n) n []) ≡ n =
      read_digits-digits (suc n) n [] (omega arith) in
    ground (arith, e, d, r, ap starts_with_digit e)

negative-digits :
    (n : ℕ) → n < 2 ^ 63 → negative (digits (suc (suc n)) (suc n) []) ≡ some (negsuc n)
unfolding negative
negative-digits n h =
    let (c, s, e, d) = digits_head (suc (suc n)) (suc n) [] (omega arith) in
    let r : read_digits 0 (digits (suc (suc n)) (suc n) []) ≡ suc n =
      read_digits-digits (suc (suc n)) (suc n) [] (omega arith) in
    ground (arith, e, d, r, ap starts_with_digit e)

stol-digit : (c : ℕ) (s : Bytes) → is_digit c ≡ true → stol (c ∷ s) ≡ positive (c ∷ s)
unfolding stol is_digit
stol-digit c s d = ground arith

-- Every int64_t is read back from its decimal text.
pub stol-to_string : (t : ℤ) → InInt64 t → stol (to_string t) ≡ some t
unfolding to_string
stol-to_string (pos n) h =
    let (c, s, e, d) = digits_head (suc n) n [] (omega arith) in
    let p : positive (digits (suc n) n []) ≡ some (pos n) = positive-digits n h in
    rw e (stol-digit c s d ∙ (rw (← e) p))
stol-to_string (negsuc n) h = unfold stol in negative-digits n h

-- Decimal text has no byte but digits and the sign.
module _ (b : ℕ) (no_digit : (d : ℕ) → d < 10 → b'0' + d ≢ b) (no_sign : b'-' ≢ b) where
  digits-Lacks : (f n : ℕ) (out : Bytes) → Lacks b out → Lacks b (digits f n out)
  unfolding digits
  digits-Lacks zero n out h = h
  digits-Lacks (suc f) n out h = elim (Bool-cases (ltb n 10)) [
    | inl last ↦ rw last (no_digit n (ground arith), h)
    | inr more ↦
        rw more
          (digits-Lacks f (n / 10) ((b'0' + n % 10) ∷ out) (no_digit (n % 10) (omega arith), h))
  ]

  pub to_string-Lacks_byte : (t : ℤ) → Lacks b (to_string t)
  unfolding to_string
  to_string-Lacks_byte (pos n) = digits-Lacks (suc n) n [] tt
  to_string-Lacks_byte (negsuc n) = (no_sign, digits-Lacks (suc (suc n)) (suc n) [] tt)

pub to_string-Lacks : (t : ℤ) → Lacks b'_' (to_string t)
to_string-Lacks = to_string-Lacks_byte b'_' (λ d h. omega arith) (omega arith)

-- In particular none that parts a path.
pub to_string-Lacks_slash : (t : ℤ) → Lacks b'/' (to_string t)
to_string-Lacks_slash = to_string-Lacks_byte b'/' (λ d h. omega arith) (omega arith)

positive-InInt64 : (s : Bytes) (t : ℤ) → positive s ≡ some t → InInt64 t
unfolding positive
positive-InInt64 s t h = elim (Bool-cases (starts_with_digit s)) [
  | inl d ↦ elim (Bool-cases (ltb (read_digits 0 s) (2 ^ 63))) [
    | inl lt ↦ subst InInt64 (some-injective _ t (rw (d, lt) at h)) (ground (arith, lt))
    | inr ge ↦ absurd (let q = rw (d, ge) at h in cc q)
  ]
  | inr d ↦ absurd (let q = rw d at h in cc q)
]

negative-InInt64 : (s : Bytes) (t : ℤ) → negative s ≡ some t → InInt64 t
unfolding negative
negative-InInt64 s t h = elim (Bool-cases (starts_with_digit s)) [
  | inl d ↦ elim (Bool-cases (read_digits 0 s == 0)) [
    | inl z ↦ subst InInt64 (some-injective (pos 0) t (rw (d, z) at h)) (omega arith)
    | inr n ↦ elim (Bool-cases (leb (read_digits 0 s) (2 ^ 63))) [
      | inl le ↦ subst InInt64 (some-injective _ t (rw (d, n, le) at h)) (ground (arith, le, n))
      | inr gt ↦ absurd (let q = rw (d, n, gt) at h in cc q)
    ]
  ]
  | inr d ↦ absurd (let q = rw d at h in cc q)
]

signed-InInt64 : (s : Bytes) (t : ℤ) → signed s ≡ some t → InInt64 t
unfolding signed
signed-InInt64 [] t h = absurd (cc h)
signed-InInt64 (c ∷ s) t h = elim (Bool-cases (c == b'-')) [
  | inl m ↦ negative-InInt64 s t (rw m at h)
  | inr m ↦ elim (Bool-cases (c == b'+')) [
    | inl p ↦ positive-InInt64 s t (rw (m, p) at h)
    | inr p ↦ positive-InInt64 (c ∷ s) t (rw (m, p) at h)
  ]
]

-- What is read is an int64_t.
pub stol-InInt64 : (s : Bytes) (t : ℤ) → stol s ≡ some t → InInt64 t
unfolding stol
stol-InInt64 s t h = signed-InInt64 (skip_spaces s) t h

trailing_text : stol (codes " \t-42x7") ≡ some (negsuc 41)
unfolding stol
trailing_text = refl
