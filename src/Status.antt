-- ===== src/Status.antt =====
-- be/common/status.h and be/common/statusor.h: what the rest of the program reads from a Status and
-- a StatusOr. `state` is the text at `_state`, `none` the null pointer. Status.Memory has the
-- pointers themselves.
pub mod Laws
pub mod Memory
mod Tests
use sr_scanner_demo.Base.{
  Bool, true, false, Option, none, some, [], ◌∷◌, ◌++◌, Bytes, codes, Outcome, done, throws, fault,
  null_pointer, ◌==◌, if◌then◌else◌,
}

pub record Status : Type 0 where
  pub state : Option Bytes

-- `Status()` and `Status::OK()`
abbrev pub ok_status : Status
ok_status = record { state = none }

-- What `strcpy` copies: the text up to its first NUL.
unfoldable pub c_str : Bytes → Bytes
c_str [] = []
c_str (c ∷ s) = let rest = c ∷ c_str s in if c == 0 then [] else rest

-- `Status::InternalError`
unfoldable pub internal_error : Bytes → Status
unfolding c_str
internal_error msg = record { state = some (c_str msg) }

-- `ok()`
unfoldable pub is_ok : Status → Bool
is_ok s = elim (s.state) [ none ↦ true | some m ↦ false ]

-- `message()`
unfoldable pub message : Status → Bytes
message s = elim (s.state) [ none ↦ [] | some m ↦ m ]

-- A StatusOr<T>. No constructor of it leaves an OK status without a value.
pub record StatusOr {ℓ} (A : Type ℓ) : Type ℓ where
  pub value : Option A
  pub status : Status

-- `StatusOr(const Status&)`
unfoldable pub status_or_of_status {ℓ} : {A : Type ℓ} → Status → Outcome (StatusOr A)
unfolding is_ok
status_or_of_status status =
    if is_ok status
    then throws (codes "Cannot create a StatusOr with a OK status without a value.")
    else done (record { value = none; status = status })

-- `StatusOr(const T&)` and `StatusOr(T&&)`
unfoldable pub status_or_of_value {ℓ} : {A : Type ℓ} → A → StatusOr A
status_or_of_value value = record { value = some value; status = ok_status }

-- `OK()`
unfoldable pub status_or_is_ok {ℓ} : {A : Type ℓ} → StatusOr A → Bool
unfolding is_ok
status_or_is_ok r = is_ok r.status

-- `*value_` of an empty optional is undefined.
abbrev dereference {ℓ} : {A : Type ℓ} → Option A → Outcome A
dereference none = fault null_pointer
dereference (some a) = done a

abbrev pub value_or_die_error : Status → Bytes
value_or_die_error s =
    codes "Attempted to access the value of a StatusOr object that is not OK. Error: " ++ message s

-- `ValueOrDie()`
unfoldable pub value_or_die {ℓ} : {A : Type ℓ} → StatusOr A → Outcome A
unfolding status_or_is_ok message
value_or_die r =
    if status_or_is_ok r then dereference r.value else throws (value_or_die_error r.status)
