-- ===== src/Retry/Attempts.antt =====
-- internal/core/retry.go, `ExecuteWithRetry`: the function that is retried and the context are
-- answers by the number of the attempt. Whether the context was done is asked before each attempt,
-- and again while the loop waits for the next.
use sampmail.Prelude.{
  ℕ, zero, suc, ◌+◌, ◌-◌, ◌≤◌, ◌<◌, ◌≡◌, refl, Bool, true, not, ◌||◌, Option, none, some, arith,
  if◌then◌else◌, Bool-cases, inl, inr, ◌⊎◌,
}
use sampmail.Prelude.Floats.{Floats}
use sampmail.Retry.{RetryPolicy, should_retry}
use sampmail.Retry.Patterns.{Error}
use sampmail.Retry.Classes.{should_retry-IsCoherent}

pub data Result : Type 0 where
  succeeded : Result
  failed : Error → Result
  context_error : Result
  -- "max retries exceeded", with the last error
  exhausted : Option Error → Result

pub record Execution : Type 0 where
  pub result : Result
  pub runs : ℕ

module _ (floats : Floats) (p : RetryPolicy floats) (outcome : ℕ → Option Error)
    (done_before done_waiting : ℕ → Bool) where
  abbrev pub ended : Result → ℕ → Execution
  ended result runs = record { result = result; runs = runs }

  -- After a run of the function, with what the rest of the loop would do.
  after_run : ℕ → Option Error → Execution → Execution
  after_run attempt none rest = ended succeeded (attempt + 1)
  after_run attempt (some e) rest =
      let r = should_retry floats p (some e) attempt in
      if r.is_permanent || not r.should_retry
      then ended (failed e) (attempt + 1)
      else if done_waiting attempt
      then ended context_error (attempt + 1)
      else rest

  attempts_from : ℕ → ℕ → Option Error → Execution
  unfolding after_run
  attempts_from zero attempt last = ended (exhausted last) attempt
  attempts_from (suc n) attempt last =
      let rest = attempts_from n (attempt + 1) (outcome attempt) in
      if done_before attempt
      then ended context_error attempt
      else after_run attempt (outcome attempt) rest

  unfoldable pub execute_with_retry : Execution
  unfolding attempts_from
  execute_with_retry = attempts_from (suc p.max_retries) 0 none

  abbrev pub Explained : Execution → Result → Type 0
  Explained x succeeded = (1 ≤ x.runs) × (outcome (x.runs - 1) ≡ none)
  Explained x (failed e) = (1 ≤ x.runs) × (outcome (x.runs - 1) ≡ some e)
  Explained x context_error =
      (done_before x.runs ≡ true)
      ⊎ ((1 ≤ x.runs)
          × (done_waiting (x.runs - 1) ≡ true)
          × ((e : Error) × (outcome (x.runs - 1) ≡ some e)))
  Explained x (exhausted e) = ⊥

  pub record IsExplained (x : Execution) : Type 0 where
    pub explained : Explained x x.result
    pub bounded : x.runs ≤ p.max_retries + 1

  after_run-IsExplained :
      (attempt : ℕ) (o : Option Error) (rest : Execution)
      → outcome attempt ≡ o
      → attempt ≤ p.max_retries
      → (attempt < p.max_retries → IsExplained rest)
      → IsExplained (after_run attempt o rest)
  unfolding after_run
  after_run-IsExplained attempt none rest k b h =
      let last : attempt + 1 - 1 ≡ attempt = omega arith in
      record { explained = (omega arith, rw last k); bounded = omega arith }
  after_run-IsExplained attempt (some e) rest k b h =
      let last : attempt + 1 - 1 ≡ attempt = omega arith in
      let r = should_retry floats p (some e) attempt in
      elim (Bool-cases (r.is_permanent || not r.should_retry)) [
        | inl stops ↦
            rw stops record { explained = (omega arith, rw last k); bounded = omega arith }
        | inr goes ↦ elim (Bool-cases (done_waiting attempt)) [
          | inl over ↦
              rw (goes, over)
                record {
                  explained = inr (omega arith, rw last over, (e, rw last k));
                  bounded = omega arith;
                }
          | inr on ↦
              let again : r.should_retry ≡ true = ground (arith, goes) in
              rw (goes, on) (h ((should_retry-IsCoherent floats p (some e) attempt).1 again))
        ]
      ]

  attempts_from-IsExplained :
      (n attempt : ℕ) (last : Option Error)
      → attempt + n ≡ p.max_retries + 1
      → attempt < p.max_retries + 1
      → IsExplained (attempts_from n attempt last)
  unfolding attempts_from
  attempts_from-IsExplained zero attempt last e h = absurd (omega arith)
  attempts_from-IsExplained (suc n) attempt last e h = elim (Bool-cases (done_before attempt)) [
    | inl over ↦ rw over record { explained = inl over; bounded = omega arith }
    | inr on ↦ rw on (
        after_run-IsExplained attempt (outcome attempt)
          (attempts_from n (attempt + 1) (outcome attempt)) refl (omega arith)
          (λ more.
            attempts_from-IsExplained n (attempt + 1) (outcome attempt) (omega arith)
              (omega arith)))
  ]

  -- The loop runs the function at most once more than the policy has retries. A success is that of
  -- the last run; an error that it returns is that of the last run; else the context was done, before
  -- the run that would have been next or in the wait after the last run, which failed. It never
  -- reaches its last statement, the error "max retries exceeded", since `ShouldRetry` refuses the
  -- last attempt first.
  pub execute_with_retry-IsExplained : IsExplained execute_with_retry
  unfolding execute_with_retry
  execute_with_retry-IsExplained =
      attempts_from-IsExplained (suc p.max_retries) 0 none (omega arith) (omega arith)
