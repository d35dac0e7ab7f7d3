-- ===== src/Retry/Classes.antt =====
-- internal/core/retry.go: `ShouldRetry` over every error.
use sampmail.Prelude.{
  ℕ, ◌<◌, ◌≡◌, ◌≢◌, refl, ap, Bool, true, false, ◌&&◌, ◌||◌, Option, none, some, List, [], ◌∷◌,
  Text, codes, arith, leb, Bool-cases, inl, inr, text_eq, ◌==◌, ==_iff,
}
use sampmail.Prelude.Strings.{to_lower, contains}
use sampmail.Prelude.Floats.{Floats}
use sampmail.Retry.{
  RetryResult, RetryPolicy, should_retry, should_retry_error, by_pattern, by_retryable_code,
  by_permanent_code,
}
use sampmail.Retry.Patterns.{Error}
use sampmail.Prelude.Strings.{any_pattern}
use sampmail.Retry.Patterns.{
  find_code, is_digit, is_blank, is_rate_limit_error, extract_smtp_code, extract_enhanced_code,
  rate_limit_patterns,
}
use sampmail.Retry.Codes.{extract_smtp_code-reply}

-- What the caller may rely on: no retry of a permanent failure, and a time for each retry.
abbrev pub is_set : Option ℕ → Bool
is_set none = false
is_set (some _) = true

pub record IsCoherent (r : RetryResult) : Type 0 where
  pub exclusive : r.should_retry && r.is_permanent ≡ false
  pub timed : is_set r.next_retry_at ≡ r.should_retry

abbrev pub listed : Text → List Text → Bool
listed c [] = false
listed c (d ∷ ds) = c == d || listed c ds

abbrev first_code : Text → ℕ
first_code [] = 0
first_code (c ∷ s) = c

late-ne : codes "max_retries_exceeded" ≢ codes "greylisting"
late-ne k = absurd (omega (arith, ap first_code k))

module _ (floats : Floats) (p : RetryPolicy floats) where
  by_pattern-IsCoherent : (e : Error) (attempt : ℕ) → IsCoherent (by_pattern floats p e attempt)
  unfolding by_pattern
  by_pattern-IsCoherent e attempt = ground arith

  codes-IsCoherent :
      (e : Error) (attempt : ℕ) (c d : Option Text)
      → IsCoherent (by_retryable_code floats p e attempt c)
  unfolding by_retryable_code
  codes-IsCoherent e attempt none d = by_pattern-IsCoherent e attempt
  codes-IsCoherent e attempt (some c) d = record { exclusive = refl; timed = refl }

  permanent-IsCoherent :
      (e : Error) (attempt : ℕ) (c : Option Text)
      → IsCoherent (by_permanent_code floats p e attempt c)
  unfolding by_permanent_code
  permanent-IsCoherent e attempt none =
      codes-IsCoherent e attempt
        (find_code (extract_smtp_code e.text) (extract_enhanced_code e.text) p.retryable_codes) none
  permanent-IsCoherent e attempt (some c) = record { exclusive = refl; timed = refl }

  should_retry_error-IsCoherent :
      (e : Error) (attempt : ℕ) → IsCoherent (should_retry_error floats p e attempt)
  unfolding should_retry_error
  should_retry_error-IsCoherent e attempt = elim (Bool-cases (leb p.max_retries attempt)) [
    | inl late ↦ rw late record { exclusive = refl; timed = refl }
    | inr early ↦ rw early (permanent-IsCoherent e attempt _)
  ]

  late_refused :
      (e : Error) (attempt : ℕ)
      → (should_retry_error floats p e attempt).should_retry ≡ true
      → attempt < p.max_retries
  unfolding should_retry_error
  late_refused e attempt h = elim (Bool-cases (leb p.max_retries attempt)) [
    | inl late ↦ let k : false ≡ true = rw late at h in cc k
    | inr early ↦ ground (arith, early)
  ]

  -- For every error and attempt, the answer is never both to retry and that the failure is permanent;
  -- a time of the next try is set exactly when the answer is to retry; and that answer is given only
  -- while the attempt is below the policy's number of retries.
  pub should_retry-IsCoherent :
      (e : Option Error) (attempt : ℕ)
      → IsCoherent (should_retry floats p e attempt)
        × ((should_retry floats p e attempt).should_retry ≡ true → attempt < p.max_retries)
  unfolding should_retry
  should_retry-IsCoherent none attempt = (record { exclusive = refl; timed = refl }, λ h. cc h)
  should_retry-IsCoherent (some e) attempt =
      (should_retry_error-IsCoherent e attempt, late_refused e attempt)

  find_code-listed :
      (smtp enhanced : Text) (cs : List Text)
      → listed smtp cs ≡ true
      → (c : Text) × (find_code smtp enhanced cs ≡ some c)
  find_code-listed smtp enhanced [] h = cc h
  find_code-listed smtp enhanced (d ∷ ds) h = elim (Bool-cases (smtp == d)) [
    | inl same ↦ (d, rw same refl)
    | inr other ↦ elim (Bool-cases (enhanced == d)) [
      | inl also ↦ (d, rw (other, also) refl)
      | inr neither ↦
          let (c, found) = find_code-listed smtp enhanced ds (rw other at h) in
          (c, rw (other, neither) found)
    ]
  ]

  -- A reply that begins with a code of the policy's permanent list and a blank is a permanent failure,
  -- and is not retried, whatever else its text says, also where that holds a phrase or an enhanced
  -- code of a transient failure.
  pub should_retry-permanent :
      (a b c d : ℕ) (rest : Text) (deadline : Bool) (net : Option Bool) (attempt : ℕ)
      → is_digit a ≡ true
      → is_digit b ≡ true
      → is_digit c ≡ true
      → is_blank d ≡ true
      → listed (a ∷ b ∷ c ∷ []) p.permanent_codes ≡ true
      → let r =
          should_retry floats p
            (some (record {
              text = a ∷ b ∷ c ∷ d ∷ rest;
              deadline_exceeded = deadline;
              net_error = net;
            }))
            attempt in
        (r.should_retry ≡ false) × (r.is_permanent ≡ true)
  unfolding should_retry by_permanent_code
  should_retry-permanent a b c d rest deadline net attempt ha hb hc hd known =
      let code = extract_smtp_code-reply a b c d rest ha hb hc hd in
      let (found, e) =
        find_code-listed (a ∷ b ∷ c ∷ []) (extract_enhanced_code (a ∷ b ∷ c ∷ d ∷ rest))
          p.permanent_codes known in
      elim (Bool-cases (leb p.max_retries attempt)) [
        | inl late ↦ rw (late, should_retry_error) (refl, refl)
        | inr early ↦ rw (early, should_retry_error) (rw code (rw e (refl, refl)))
      ]

  any_pattern-listed :
      (s q : Text) (ps : List Text)
      → listed q ps ≡ true
      → contains s q ≡ true
      → any_pattern s ps ≡ true
  any_pattern-listed s q [] h k = cc h
  any_pattern-listed s q (r ∷ ps) h k = elim (Bool-cases (q == r)) [
    | inl same ↦ let e = (==_iff q r).0 same in rw (← e, k) refl
    | inr other ↦ let later = any_pattern-listed s q ps (rw other at h) k in ground (arith, later)
  ]

  later_rate_limit :
      (s : Text)
      → contains (to_lower s) (codes "try again later") ≡ true
      → is_rate_limit_error s ≡ true
  unfolding is_rate_limit_error
  later_rate_limit s h =
      any_pattern-listed (to_lower s) (codes "try again later") rate_limit_patterns refl h

  by_code-ne :
      (e : Error) (attempt : ℕ) (c : Option Text)
      → is_rate_limit_error e.text ≡ true
      → (by_retryable_code floats p e attempt c).reason ≢ codes "greylisting"
  unfolding by_retryable_code by_pattern
  by_code-ne e attempt none h = rw h (λ k. cc k)
  by_code-ne e attempt (some c) h = λ k. cc k

  by_permanent-ne :
      (e : Error) (attempt : ℕ) (c : Option Text)
      → is_rate_limit_error e.text ≡ true
      → (by_permanent_code floats p e attempt c).reason ≢ codes "greylisting"
  unfolding by_permanent_code
  by_permanent-ne e attempt none h = by_code-ne e attempt _ h
  by_permanent-ne e attempt (some c) h = λ k. cc k

  -- An error that says "try again later", one of the phrases of the greylisting patterns, never gets
  -- the answer of a greylisting and its wait of fifteen minutes: the rate limit's patterns hold the
  -- phrase too, and are tried before.
  pub should_retry-ne-greylisting :
      (e : Error) (attempt : ℕ)
      → contains (to_lower e.text) (codes "try again later") ≡ true
      → (should_retry floats p (some e) attempt).reason ≢ codes "greylisting"
  unfolding should_retry should_retry_error
  should_retry-ne-greylisting e attempt h = elim (Bool-cases (leb p.max_retries attempt)) [
    | inl late ↦ rw late late-ne
    | inr early ↦ rw early (by_permanent-ne e attempt _ (later_rate_limit e.text h))
  ]
