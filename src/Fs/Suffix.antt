-- ===== src/Fs/Suffix.antt =====
-- `fs::ends_with` of be/fs/fs_util.h.
use mathlib.Core.List.{reverse, reverse-append, reverse-reverse}
use sr_scanner_demo.Base.{
  Bool, true, false, [], ◌∷◌, ◌++◌, ◌≡◌, ◌↔◌, refl, sym, ap, ◌∙◌, arith, Bytes, codes, length, ltb,
  ◌==◌, ◌&&◌, if◌then◌else◌, length-append,
}

-- `std::equal(first, last, first2)`: the second range is read as far as the first one goes.
unfoldable pub equal_range : Bytes → Bytes → Bool
equal_range [] t = true
equal_range (c ∷ s) [] = false
equal_range (c ∷ s) (d ∷ t) = (c == d) && equal_range s t

unfoldable pub ends_with : Bytes → Bytes → Bool
unfolding equal_range
ends_with value ending =
    if ltb (length value) (length ending)
    then false
    else equal_range (reverse ending) (reverse value)

equal_range_append : (s t : Bytes) → equal_range s (s ++ t) ≡ true
unfolding equal_range
equal_range_append [] t = refl
equal_range_append (c ∷ s) t = ground (arith, equal_range_append s t)

equal_range_sound : (s t : Bytes) → equal_range s t ≡ true → (r : Bytes) × (t ≡ s ++ r)
unfolding equal_range
equal_range_sound [] t h = (t, refl)
equal_range_sound (c ∷ s) [] h = cc
equal_range_sound (c ∷ s) (d ∷ t) h =
    let (r, e) = equal_range_sound s t (ground arith) in (r, ground (arith, e))

length_prefix : (p e : Bytes) → ltb (length (p ++ e)) (length e) ≡ false
length_prefix p e = ground (arith, length-append p e)

-- The test is true exactly of the texts that have the ending at their end.
pub ends_with_iff :
    (value ending : Bytes) → (ends_with value ending ≡ true) ↔ ((p : Bytes) × (value ≡ p ++ ending))
unfolding ends_with
ends_with_iff value ending = (
  λ h.
      let (r, e) = equal_range_sound (reverse ending) (reverse value) (ground arith) in
      (
        reverse r,
        sym (reverse-reverse value)
            ∙ ap reverse e
            ∙ reverse-append (reverse ending) r
            ∙ ap (λ t. reverse r ++ t) (reverse-reverse ending),
      ),
  λ (p, e).
      rw (e, length_prefix p ending, reverse-append p ending)
        (equal_range_append (reverse ending) (reverse p)),
)

-- A jar file is no temporary file.
pub ends_with_other : (p : Bytes) → ends_with (p ++ codes ".jar") (codes ".tmp") ≡ false
unfolding ends_with
ends_with_other p = rw (reverse-append p (codes ".jar")) (ground arith)

checks :
    (ends_with (codes "a.jar") (codes ".jar") ≡ true)
    × (ends_with (codes "jar") (codes ".jar") ≡ false)
unfolding ends_with
checks = (refl, refl)
