-- ===== src/Util/Md5/Sample.antt =====
-- A digest for runs: one byte, the sum of the text.
use sr_scanner_demo.Base.{join_all, ℕ, ◌+◌, ◌%◌, [], ◌∷◌, ◌++◌, ◌≡◌, arith, Bytes, List}
use sr_scanner_demo.Util.Md5.{Md5, IsMd5, feed_all}

abbrev pub sum : Bytes → ℕ
sum [] = 0
sum (b ∷ s) = b + sum s

abbrev pub small : Md5
small = record {
  Context = ℕ;
  md5_init = 0;
  md5_update = λ c s. c + sum s;
  md5_final = λ c. (c % 256) ∷ [];
}

sum-append : (s t : Bytes) → sum (s ++ t) ≡ sum s + sum t
sum-append [] t = omega arith
sum-append (b ∷ s) t = omega (arith, sum-append s t)

pub sum_fed :
    (c : ℕ) (fed : List Bytes) → feed_all (λ d s. d + sum s) c fed ≡ c + sum (join_all fed)
sum_fed c [] = omega arith
sum_fed c (s ∷ fed) = omega (arith, sum_fed (c + sum s) fed, sum-append s (join_all fed))

abbrev pub small-IsMd5 : IsMd5 small
small-IsMd5 = record {
  md5 = λ s. (sum s % 256) ∷ [];
  final_fed = λ fed. rw (sum_fed 0 fed) (ground arith);
  bytes = λ s. (omega arith, tt);
}
