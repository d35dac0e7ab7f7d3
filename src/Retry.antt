-- ===== src/Retry.antt =====
-- internal/core/retry.go: which errors of a mail server are retried, when, and how often. An error is
-- its text with what the code asks of its type. Durations are nanoseconds, and the time of the next
-- try is a delay from now (`none`: the zero time). Delays are computed in float64, a parameter.
-- The texts of the patterns are ASCII, and a policy's number of retries is not negative.
pub mod Patterns
pub mod Codes
pub mod Classes
pub mod Attempts
pub mod Delays
mod Tests
use sampmail.Prelude.{
  ℕ, zero, suc, ◌+◌, ◌-◌, ◌*◌, ◌%◌, ◌≡◌, Bool, true, false, ◌&&◌, ◌||◌, Option, none, some, List,
  [], ◌∷◌, ◌++◌, Text, codes, text_eq, nat_eq, ◌==◌, ltb, leb, if◌then◌else◌,
}
use sampmail.Prelude.Strings.{to_lower, contains, has_prefix}
use sampmail.Prelude.Floats.{Floats}
use sampmail.Retry.Patterns.{
  Error, is_digit, is_blank, smtp_code_here, enhanced_code_here, or_later, extract_smtp_code,
  extract_enhanced_code, rate_limit_patterns, connection_patterns, auth_patterns, greylist_patterns,
  dns_patterns, is_rate_limit_error, is_some, is_connection_error, is_auth_error, is_greylisting,
  is_dns_failure, timed_out, is_timeout, find_code,
}
use sampmail.Prelude.Strings.{any_pattern}

pub data Category : Type 0 where
  transient permanent rate_limit connection auth unknown : Category

pub record RetryResult : Type 0 where
  pub should_retry : Bool
  pub is_permanent : Bool
  pub next_retry_at : Option ℕ
  pub reason : Text
  pub category : Category

abbrev pub minute : ℕ
minute = 60000000000

module _ (floats : Floats) where
  open floats use {Float, float, times, truncate, less, plus, minus, over}

  pub record RetryPolicy : Type 0 where
    pub max_retries : ℕ
    pub initial_delay : ℕ
    pub max_delay : ℕ
    pub multiplier : Float
    pub jitter : Bool
    pub jitter_percent : Float
    pub retryable_codes : List Text
    pub permanent_codes : List Text

  abbrev pub default_retry_policy : RetryPolicy
  default_retry_policy = record {
    max_retries = 5;
    initial_delay = 1 * minute;
    max_delay = 1440 * minute;
    multiplier = float 2;
    jitter = true;
    jitter_percent = over (float 20) (float 100);
    retryable_codes =
        codes "421"
        ∷ codes "450"
        ∷ codes "451"
        ∷ codes "452"
        ∷ codes "454"
        ∷ codes "423"
        ∷ codes "422"
        ∷ [];
    permanent_codes =
        codes "550"
        ∷ codes "551"
        ∷ codes "552"
        ∷ codes "553"
        ∷ codes "554"
        ∷ codes "511"
        ∷ codes "512"
        ∷ codes "513"
        ∷ codes "5.1.1"
        ∷ codes "5.1.2"
        ∷ codes "5.1.3"
        ∷ codes "5.1.4"
        ∷ codes "5.1.6"
        ∷ codes "5.2.1"
        ∷ codes "5.2.2"
        ∷ codes "5.2.3"
        ∷ codes "5.4.1"
        ∷ codes "5.4.4"
        ∷ codes "5.5.2"
        ∷ codes "5.7.1"
        ∷ codes "5.7.26"
        ∷ [];
  }

  abbrev pub repeat_times : ℕ → Float → Float → Float
  repeat_times zero m delay = delay
  repeat_times (suc n) m delay = repeat_times n m (times delay m)

  -- The jitter moves the delay by up to the percentage, downwards first.
  unfoldable pub with_jitter : RetryPolicy → ℕ → Float → Float
  with_jitter p attempt delay =
      let jitter_range = times delay p.jitter_percent in
      let jitter =
        times (times (over (float (attempt % 100)) (float 100)) jitter_range) (float 2) in
      if p.jitter then plus (minus delay jitter_range) jitter else delay

  unfoldable pub capped : RetryPolicy → Float → Float
  capped p delay = if less (float p.max_delay) delay then float p.max_delay else delay

  unfoldable pub calculate_delay : RetryPolicy → ℕ → ℕ
  unfolding with_jitter capped
  calculate_delay p attempt =
      truncate (
        with_jitter p attempt
          (capped p (repeat_times attempt p.multiplier (float p.initial_delay))))

  schedule_from : RetryPolicy → ℕ → ℕ → List ℕ
  schedule_from p i zero = []
  schedule_from p i (suc n) = calculate_delay p i ∷ schedule_from p (i + 1) n

  unfoldable pub get_retry_schedule : RetryPolicy → List ℕ
  unfolding schedule_from
  get_retry_schedule p = schedule_from p 0 p.max_retries

  abbrev pub retried : Category → Text → ℕ → RetryResult
  retried category reason delay = record {
    should_retry = true;
    is_permanent = false;
    next_retry_at = some delay;
    reason = reason;
    category = category;
  }

  abbrev pub refused : Bool → Category → Text → RetryResult
  refused is_permanent category reason = record {
    should_retry = false;
    is_permanent = is_permanent;
    next_retry_at = none;
    reason = reason;
    category = category;
  }

  -- The tests on the text and the type of the error, in their order, once no code of the policy fits.
  unfoldable pub by_pattern : RetryPolicy → Error → ℕ → RetryResult
  by_pattern p e attempt =
      if is_rate_limit_error e.text
      then retried rate_limit (codes "rate_limit_exceeded") (calculate_delay p attempt * 2)
      else if is_connection_error e
      then retried connection (codes "connection_failed") (calculate_delay p attempt)
      else if is_auth_error e.text
      then refused true auth (codes "authentication_failed")
      else if is_greylisting e.text
      then retried transient (codes "greylisting") (15 * minute)
      else if is_dns_failure e.text
      then retried transient (codes "dns_failure") (calculate_delay p attempt)
      else if is_timeout e
      then retried connection (codes "timeout") (calculate_delay p attempt)
      else if has_prefix (extract_smtp_code e.text) (codes "4")
      then retried transient (codes "smtp_4xx_code_" ++ extract_smtp_code e.text)
          (calculate_delay p attempt)
      else if has_prefix (extract_smtp_code e.text) (codes "5")
      then refused true permanent (codes "smtp_5xx_code_" ++ extract_smtp_code e.text)
      else refused false unknown (codes "unknown_error")

  unfoldable pub by_retryable_code : RetryPolicy → Error → ℕ → Option Text → RetryResult
  by_retryable_code p e attempt none = by_pattern p e attempt
  by_retryable_code p e attempt (some c) =
      retried transient (codes "transient_failure_code_" ++ c) (calculate_delay p attempt)

  unfoldable pub by_permanent_code : RetryPolicy → Error → ℕ → Option Text → RetryResult
  by_permanent_code p e attempt (some c) =
      refused true permanent (codes "permanent_failure_code_" ++ c)
  by_permanent_code p e attempt none =
      by_retryable_code p e attempt
        (find_code (extract_smtp_code e.text) (extract_enhanced_code e.text) p.retryable_codes)

  unfoldable pub should_retry_error : RetryPolicy → Error → ℕ → RetryResult
  should_retry_error p e attempt =
      if leb p.max_retries attempt
      then refused true unknown (codes "max_retries_exceeded")
      else by_permanent_code p e attempt
          (find_code (extract_smtp_code e.text) (extract_enhanced_code e.text) p.permanent_codes)

  -- ShouldRetry; `none` is the nil error.
  unfoldable pub should_retry : RetryPolicy → Option Error → ℕ → RetryResult
  unfolding should_retry_error
  should_retry p none attempt = refused false unknown []
  should_retry p (some e) attempt = should_retry_error p e attempt
