-- ===== src/Http/Client/Retry.antt =====
-- `HttpClient::execute_with_retry` of be/http/http_client.cpp.
use sr_scanner_demo.Base.{
  ℕ, zero, suc, ◌<◌, true, false, ◌≡◌, ◌⊎◌, ◌↔◌, ap, ◌∙◌, inl, inr, arith, if◌then◌else◌,
  Bool-cases,
}
use sr_scanner_demo.Base.Int.{ℤ, pos, pos_part}
use sr_scanner_demo.Status.{Status, ok_status, is_ok}

-- `callback` runs on a client of its own; `sleep` waits for the time that was given.
module _ {W : Type 0} (callback : W → Status × W) (sleep : W → W) where
  -- The rounds that are left, and the status of the last one.
  unfoldable pub retry : ℕ → Status → W → Status × W
  retry zero status w = (status, w)
  retry (suc n) status w =
      let (status', w') = callback w in
      let again = retry n status' (sleep w') in if is_ok status' then (status', w') else again

  -- `execute_with_retry`. A negative `retry_times` makes no round.
  unfoldable pub execute_with_retry : ℤ → W → Status × W
  unfolding retry
  execute_with_retry retry_times w = retry (pos_part retry_times) ok_status w

  -- The world in front of attempt `k`, if none before it succeeds.
  abbrev pub world_at : ℕ → W → W
  world_at zero w = w
  world_at (suc k) w = world_at k (sleep (callback w).1)

  abbrev pub attempt : ℕ → W → Status × W
  attempt k w = callback (world_at k w)

  -- No attempt in front of attempt `k` succeeds.
  abbrev pub AllFail : ℕ → W → Type 0
  AllFail zero w = Unit
  AllFail (suc k) w = (is_ok (callback w).0 ≡ false) × AllFail k (sleep (callback w).1)

  retry_first :
      (n k : ℕ) (status : Status) (w : W)
      → k < n
      → AllFail k w
      → is_ok (attempt k w).0 ≡ true
      → retry n status w ≡ attempt k w
  unfolding retry
  retry_first zero k status w h fail good = elim h [ ]
  retry_first (suc n) zero status w h fail good = rw good
  retry_first (suc n) (suc k) status w h (f, fail) good =
      rw f (retry_first n k (callback w).0 (sleep (callback w).1) (omega arith) fail good)

  retry_last :
      (n : ℕ) (status : Status) (w : W)
      → AllFail (suc n) w
      → retry (suc n) status w ≡ ((attempt n w).0, world_at (suc n) w)
  unfolding retry
  retry_last zero status w (f, fail) = rw f
  retry_last (suc n) status w (f, fail) =
      rw f (retry_last n (callback w).0 (sleep (callback w).1) fail)

  -- If an attempt below `retry_times` succeeds and those before it fail, its status is returned, in
  -- the world it left: there is no later attempt, and no wait behind it.
  pub execute_with_retry_first :
      (n k : ℕ) (w : W)
      → k < n
      → AllFail k w
      → is_ok (attempt k w).0 ≡ true
      → execute_with_retry (pos n) w ≡ attempt k w
  unfolding execute_with_retry
  execute_with_retry_first n k w = retry_first n k ok_status w

  -- If all of one or more attempts fail, the status of the last one is returned, after a wait behind
  -- every attempt.
  pub execute_with_retry_last :
      (n : ℕ) (w : W)
      → AllFail (suc n) w
      → execute_with_retry (pos (suc n)) w ≡ ((attempt n w).0, world_at (suc n) w)
  unfolding execute_with_retry
  execute_with_retry_last n w = retry_last n ok_status w

  -- With no round to make, the result is OK although the callback was never called.
  pub execute_with_retry_none :
      (t : ℤ) (w : W) → pos_part t ≡ 0 → execute_with_retry t w ≡ (ok_status, w)
  unfolding execute_with_retry
  execute_with_retry_none t w h = rw h

  retry_search :
      (n : ℕ) (status : Status) (w : W)
      → (is_ok status ≡ false) ⊎ (0 < n)
      → is_ok (retry n status w).0 ≡ true
      → (k : ℕ) × (k < n) × AllFail k w × (is_ok (attempt k w).0 ≡ true)
  unfolding retry
  retry_search zero status w (inl bad) h = cc
  retry_search zero status w (inr lt) h = absurd (omega arith)
  retry_search (suc n) status w _ h = elim (Bool-cases (is_ok (callback w).0)) [
    | inl good ↦ (0, omega arith, tt, good)
    | inr f ↦
        let (k, lt, fail, good) =
          retry_search n (callback w).0 (sleep (callback w).1) (inl f) (rw f at h) in
        (suc k, omega arith, (f, fail), good)
  ]

  -- With at least one round, the result is OK exactly if some attempt below `retry_times` succeeds
  -- after those before it have failed.
  pub execute_with_retry_iff :
      (n : ℕ) (w : W)
      → (is_ok (execute_with_retry (pos (suc n)) w).0 ≡ true)
        ↔ ((k : ℕ) × (k < suc n) × AllFail k w × (is_ok (attempt k w).0 ≡ true))
  unfolding execute_with_retry
  execute_with_retry_iff n w = (
    λ h. retry_search (suc n) ok_status w (inr (omega arith)) h,
    λ (k, lt, fail, good).
        ap (λ r. is_ok r.0) (retry_first (suc n) k ok_status w lt fail good) ∙ good,
  )
