-- ===== src/Retry/Delays.antt =====
-- internal/core/retry.go: the delays of a policy, and the schedule that it shows.
use sampmail.Prelude.{
  ℕ, zero, suc, ◌+◌, ◌^◌, ◌≤◌, ◌<◌, ◌≡◌, refl, false, some, arith, get_elem?, Bool-cases, inl, inr,
}
use sampmail.Prelude.Floats.{Floats}
use sampmail.Retry.{
  RetryPolicy, calculate_delay, capped, with_jitter, repeat_times, schedule_from,
  get_retry_schedule,
}

module _ (floats : Floats) (p : RetryPolicy floats) where
  open floats use {Float, float, truncate, less, truncate-float, truncate_mono, less_irreflexive}

  capped-le : (x : Float) → less (float p.max_delay) (capped floats p x) ≡ false
  unfolding capped
  capped-le x = elim (Bool-cases (less (float p.max_delay) x)) [
    | inl above ↦ rw above (less_irreflexive (float p.max_delay))
    | inr below ↦ rw below below
  ]

  calculate_delay-le :
      (attempt : ℕ)
      → p.jitter ≡ false
      → p.max_delay < 2 ^ 53
      → calculate_delay floats p attempt ≤ p.max_delay
  unfolding calculate_delay with_jitter
  calculate_delay-le attempt h small =
      let x = capped floats p (repeat_times floats attempt p.multiplier (float p.initial_delay)) in
      let k : truncate x ≤ truncate (float p.max_delay) =
        truncate_mono x (float p.max_delay)
          (capped-le (repeat_times floats attempt p.multiplier (float p.initial_delay))) in
      rw h (omega (arith, k, truncate-float p.max_delay small))

  schedule_from_elem :
      (i n k : ℕ)
      → k < n
      → get_elem? (schedule_from floats p i n) k ≡ some (calculate_delay floats p (i + k))
  unfolding schedule_from
  schedule_from_elem i zero k h = elim h [ ]
  schedule_from_elem i (suc n) zero h = let e : i + 0 ≡ i = omega arith in rw e refl
  schedule_from_elem i (suc n) (suc k) h =
      let e : i + suc k ≡ i + 1 + k = omega arith in
      rw e (schedule_from_elem (i + 1) n k (omega arith))

  -- The schedule shows, at each retry that `ShouldRetry` can grant, the delay that it computes then;
  -- and without jitter no delay exceeds the policy's longest, if that is below 2^53 nanoseconds.
  pub get_retry_schedule_delays :
      (attempt : ℕ)
      → attempt < p.max_retries
      → p.jitter ≡ false
      → p.max_delay < 2 ^ 53
      → (get_elem? (get_retry_schedule floats p) attempt ≡ some (calculate_delay floats p attempt))
        × (calculate_delay floats p attempt ≤ p.max_delay)
  unfolding get_retry_schedule
  get_retry_schedule_delays attempt h plain small =
      let e : 0 + attempt ≡ attempt = omega arith in
      let k = schedule_from_elem 0 p.max_retries attempt h in
      (rw e at k, calculate_delay-le attempt plain small)
