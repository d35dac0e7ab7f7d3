-- ===== src/Bounce/Classes.antt =====
-- internal/core/bounce_processor.go: `classifyBounce`.
use sampmail.Prelude.{
  ℕ, ◌+◌, Bool, true, false, ◌&&◌, none, some, List, [], ◌∷◌, Text, codes, text_eq, ◌==◌, leb,
  if◌then◌else◌,
}
use sampmail.Prelude.Map
use sampmail.Prelude.Strings.{to_lower, contains, has_prefix, any_pattern}
use sampmail.Bounce.{
  BounceType, hard, soft, complaint, suppress, retry, suppress_threshold, handle_complaint, Info,
  Class, Event, Tables, Calls,
}

abbrev pub hard_reasons : List (Text × Text)
hard_reasons =
    (codes "5.1.1", codes "mailbox_does_not_exist")
    ∷ (codes "5.1.2", codes "domain_does_not_exist")
    ∷ (codes "5.1.3", codes "invalid_mailbox_syntax")
    ∷ (codes "5.1.4", codes "mailbox_ambiguous")
    ∷ (codes "5.1.6", codes "mailbox_moved")
    ∷ (codes "5.2.1", codes "mailbox_disabled")
    ∷ (codes "5.2.2", codes "mailbox_full_permanent")
    ∷ (codes "5.2.3", codes "message_too_long")
    ∷ (codes "5.4.1", codes "no_answer_from_host")
    ∷ (codes "5.4.4", codes "unable_to_route")
    ∷ (codes "5.7.1", codes "delivery_not_authorized")
    ∷ (codes "5.7.26", codes "dkim_spf_failure")
    ∷ []

abbrev pub hard_patterns : List Text
hard_patterns =
    codes "user unknown"
    ∷ codes "mailbox not found"
    ∷ codes "no such user"
    ∷ codes "recipient rejected"
    ∷ codes "address rejected"
    ∷ codes "does not exist"
    ∷ codes "invalid recipient"
    ∷ codes "permanent failure"
    ∷ codes "mailbox unavailable"
    ∷ []

abbrev pub soft_patterns : List Text
soft_patterns =
    codes "try again later"
    ∷ codes "temporarily unavailable"
    ∷ codes "greylist"
    ∷ codes "graylist"
    ∷ codes "rate limit"
    ∷ codes "throttl"
    ∷ codes "try again"
    ∷ codes "come back later"
    ∷ []

abbrev is_digit : ℕ → Bool
is_digit c = leb b'0' c && leb c b'9'

-- extractSMTPCodeFromBounce: the leftmost three digits, or the empty text.
unfoldable pub three_digits : Text → Text
three_digits (a ∷ b ∷ c ∷ s) =
    let rest = three_digits (b ∷ c ∷ s) in
    if is_digit a && is_digit b && is_digit c then a ∷ b ∷ c ∷ [] else rest
three_digits [] = []
three_digits (_ ∷ []) = []
three_digits (_ ∷ _ ∷ []) = []

abbrev pub as_hard : Text → Class
as_hard reason = record {
  bounce_type = hard;
  action = suppress;
  reason = reason;
  retryable = false;
}

abbrev pub as_soft : Text → Class
as_soft reason = record { bounce_type = soft; action = retry; reason = reason; retryable = true }

-- Before any rule has applied.
abbrev pub undecided : BounceType → Class
undecided t = record { bounce_type = t; action = retry; reason = []; retryable = false }

-- The `switch` on the code in the message.
unfoldable pub by_smtp_code : Text → Text → Class → Class
by_smtp_code code message class =
    if has_prefix code (codes "550")
    then as_hard (codes "mailbox_unavailable")
    else if has_prefix code (codes "551")
    then as_hard (codes "user_not_local")
    else if has_prefix code (codes "552") && contains (to_lower message) (codes "full")
    then as_soft (codes "mailbox_full")
    else if has_prefix code (codes "553")
    then as_hard (codes "invalid_mailbox_name")
    else if has_prefix code (codes "554")
    then as_hard (codes "transaction_failed")
    else if has_prefix code (codes "421")
    then as_soft (codes "service_unavailable")
    else if has_prefix code (codes "450")
    then as_soft (codes "mailbox_busy")
    else if has_prefix code (codes "451")
    then as_soft (codes "local_error")
    else if has_prefix code (codes "452")
    then as_soft (codes "insufficient_storage")
    else if has_prefix code (codes "4")
    then as_soft (codes "temporary_failure")
    else class

abbrev pub is_soft : BounceType → Bool
is_soft soft = true
is_soft hard = false
is_soft complaint = false

-- GetBouncesByEmail and the count of its soft bounces.
unfoldable pub soft_count : Text → List Event → ℕ
soft_count email [] = 0
soft_count email (e ∷ es) =
    (if e.email == email && is_soft e.bounce_type then 1 else 0) + soft_count email es

abbrev pub read_count : Calls → Text → Tables → ℕ
read_count calls recipient db = if calls.reads then soft_count (to_lower recipient) db.events else 0

-- The rules that look at the type the parser found.
unfoldable pub by_type : BounceType → ℕ → Class → Class
by_type complaint count class = record class {
  bounce_type = complaint;
  action = handle_complaint;
  reason = codes "spam_complaint";
}
by_type soft count class =
    if leb 3 count
    then record class {
      action = suppress_threshold;
      reason = codes "soft_bounce_threshold_exceeded";
    }
    else class
by_type hard count class = class

-- What follows the table of enhanced codes.
unfoldable pub by_message : BounceType → Text → ℕ → Class
unfolding by_smtp_code by_type
by_message t message count =
    if any_pattern (to_lower message) hard_patterns
    then record (by_smtp_code (three_digits message) message (undecided t)) {
      bounce_type = hard;
      action = suppress;
      reason = codes "permanent_failure";
      retryable = false;
    }
    else if any_pattern (to_lower message) soft_patterns
    then record (by_smtp_code (three_digits message) message (undecided t)) {
      bounce_type = soft;
      action = retry;
      reason = codes "temporary_failure";
      retryable = true;
    }
    else by_type t count (by_smtp_code (three_digits message) message (undecided t))

unfoldable pub classify_bounce : Calls → Info → Tables → Class
unfolding by_message
classify_bounce calls info db = elim (Map.lookup info.code hard_reasons) [
  | some reason ↦ as_hard reason
  | none ↦ by_message info.bounce_type info.diagnostic (read_count calls info.recipient db)
]
