-- ===== src/Http/Status/Reasons.antt =====
-- The reasons that be/http/http_status.cpp gives, against its table.
use mathlib.Core.List.{Memᴰ}
use mathlib.Core.List.Memᴰ.{head, tail}
use sr_scanner_demo.Base.{
  Bool, true, List, [], ◌∷◌, ◌≡◌, ◌⊎◌, arith, refl, ap, ◌∙◌, Bytes, codes, bytes_eq, bytes_eq_iff,
  ◌==◌, ◌||◌, ◌&&◌,
}
use sr_scanner_demo.Http.Status.{HttpStatus, partial_content, reasons, default_reason}

unfoldable is_named : HttpStatus × Bytes → Bool
is_named (status, reason) = (status == partial_content) || bytes_eq (default_reason status) reason

unfoldable all_named : List (HttpStatus × Bytes) → Bool
all_named [] = true
all_named (entry ∷ entries) = is_named entry && all_named entries

all_named-reasons : all_named reasons ≡ true
unfolding all_named is_named default_reason bytes_eq
all_named-reasons = refl

all_named-Memᴰ :
    (entries : List (HttpStatus × Bytes)) (entry : HttpStatus × Bytes)
    → all_named entries ≡ true
    → Memᴰ entry entries
    → is_named entry ≡ true
unfolding all_named
all_named-Memᴰ [] entry h m = elim m [ ]
all_named-Memᴰ (e ∷ entries) entry h (head here) = ap is_named here ∙ ground arith
all_named-Memᴰ (e ∷ entries) entry h (tail m) = all_named-Memᴰ entries entry (ground arith) m

-- Every reason of the table is that of its status, but for the number that PARTIAL_CONTENT shares with
-- RESET_CONTENT.
pub default_reason-Memᴰ :
    (status : HttpStatus) (reason : Bytes)
    → Memᴰ (status, reason) reasons
    → (status ≡ partial_content) ⊎ (default_reason status ≡ reason)
unfolding is_named
default_reason-Memᴰ status reason m =
    let named = all_named-Memᴰ reasons (status, reason) all_named-reasons m in
    grind (arith, bytes_eq_iff (default_reason status) reason)

-- The table holds a reason for PARTIAL_CONTENT that is never given.
partial_content_reason : default_reason partial_content ≡ codes "Reset Content"
unfolding default_reason
partial_content_reason = refl
