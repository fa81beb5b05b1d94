-- ===== src/Status/Laws.antt =====
-- What a Status and a StatusOr keep of what they were made from.
use sr_scanner_demo.Base.{
  true, false, none, some, [], ◌∷◌, ◌≡◌, ◌⊎◌, inl, inr, ◌↔◌, refl, arith, Bytes, done, throws,
  Lacks, ◌==◌, Bool-cases,
}
use sr_scanner_demo.Status.{
  Status, c_str, internal_error, is_ok, message, StatusOr, status_or_of_status, status_or_is_ok,
  value_or_die, value_or_die_error,
}

pub c_str-Lacks : (m : Bytes) → Lacks 0 (c_str m)
unfolding c_str
c_str-Lacks [] = tt
c_str-Lacks (c ∷ m) = elim (Bool-cases (c == 0)) [
  | inl e ↦ rw e tt
  | inr e ↦ rw e (ground (arith, e), c_str-Lacks m)
]

c_str_whole : (m : Bytes) → Lacks 0 m → c_str m ≡ m
unfolding c_str
c_str_whole [] h = refl
c_str_whole (c ∷ m) (hc, hm) = ground (arith, c_str_whole m hm)

-- An error is never OK, and its message is read back exactly if it has no NUL.
pub message-internal_error :
    (m : Bytes)
    → (is_ok (internal_error m) ≡ false) × ((message (internal_error m) ≡ m) ↔ Lacks 0 m)
unfolding is_ok message internal_error
message-internal_error m = (refl, (λ e. rw e at (c_str-Lacks m), λ h. c_str_whole m h))

-- What every StatusOr is, whichever constructor made it: an error, or a value with the status OK.
abbrev pub IsFull {ℓ} : {A : Type ℓ} → StatusOr A → Type ℓ
IsFull {A} r =
    ((a : A) × (r.value ≡ some a) × (is_ok r.status ≡ true))
    ⊎ ((r.value ≡ none) × (is_ok r.status ≡ false))

-- The constructor from a status, where it returns, makes a full StatusOr, and was given an error.
pub status_or_of_status-IsFull {ℓ} :
    {A : Type ℓ} (s : Status) {r : StatusOr A}
    → status_or_of_status s ≡ done r
    → IsFull r × (is_ok s ≡ false)
unfolding status_or_of_status is_ok
status_or_of_status-IsFull s h = elim (Bool-cases (is_ok s)) [
  | inl e ↦ absurd (ground (arith, e))
  | inr e ↦ (inr (ground (arith, e), ground (arith, e)), e)
]

-- ValueOrDie of a full StatusOr returns its value, or throws the text for its status if that is an
-- error; it never reads an empty optional.
pub value_or_die_full {ℓ} :
    {A : Type ℓ} (r : StatusOr A)
    → IsFull r
    → ((a : A) × (r.value ≡ some a) × (value_or_die r ≡ done a))
      ⊎ ((is_ok r.status ≡ false) × (value_or_die r ≡ throws (value_or_die_error r.status)))
unfolding value_or_die status_or_is_ok
value_or_die_full r (inl (a, v, o)) = inl (a, v, rw (o, v))
value_or_die_full r (inr (v, o)) = inr (o, rw o)
