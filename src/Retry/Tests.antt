-- ===== src/Retry/Tests.antt =====
-- Runs of internal/core/retry.go with the default policy, in hundredths for float64.
use sampmail.Prelude.{
  ℕ, ◌≡◌, refl, Bool, true, false, Option, none, some, Text, codes, nat_eq, text_eq,
}
use sampmail.Prelude.Floats.{percents}
use sampmail.Retry.{
  RetryPolicy, default_retry_policy, RetryResult, should_retry, by_permanent_code,
  by_retryable_code, calculate_delay, refused, permanent,
}
use sampmail.Retry.Patterns.{Error}
use sampmail.Retry.Patterns.{extract_smtp_code, extract_enhanced_code}
use sampmail.Retry.Attempts.{
  IsExplained, execute_with_retry, execute_with_retry-IsExplained, failed,
}

abbrev default_policy : RetryPolicy percents
default_policy = default_retry_policy percents

abbrev plain_policy : RetryPolicy percents
plain_policy = record default_policy { jitter = false }

abbrev mail_error : Text → Error
mail_error text = record { text = text; deadline_exceeded = false; net_error = none }

-- The third delay of the default policy: 4 minutes, less 20%, and 2/100 of twice that again.
third_delay : calculate_delay percents default_policy 2 ≡ 193920000000
unfolding calculate_delay
third_delay = refl

user_unknown :
    should_retry percents default_policy (some (mail_error (codes "x 5.1.1 no user"))) 0
    ≡ refused percents true permanent (codes "permanent_failure_code_5.1.1")
unfolding should_retry by_permanent_code extract_smtp_code extract_enhanced_code
user_unknown = refl

abbrev no_such_user : RetryResult
no_such_user =
    should_retry percents default_policy (some (mail_error (codes "550 try again later"))) 1

abbrev always_busy : ℕ → Option Error
always_busy attempt = some (mail_error (codes "450 busy"))

abbrev never : ℕ → Bool
never attempt = false

-- Six runs, and the last error comes back as it is.
busy_execution :
    execute_with_retry percents plain_policy always_busy never never
    ≡ record { result = failed (mail_error (codes "450 busy")); runs = 6 }
unfolding execute_with_retry should_retry by_permanent_code by_retryable_code extract_smtp_code
    extract_enhanced_code
busy_execution = refl

execute_with_retry-IsExplained_example :
    IsExplained percents plain_policy always_busy never never
      (execute_with_retry percents plain_policy always_busy never never)
execute_with_retry-IsExplained_example =
    execute_with_retry-IsExplained percents plain_policy always_busy never never
