-- ===== src/Bounce/Soft.antt =====
-- internal/core/bounce_processor.go: classifications that do not suppress, and the count of soft
-- bounces.
use sampmail.Prelude.{
  ℕ, ◌≤◌, ◌≡◌, refl, false, Text, codes, text_eq, leb, leb→le, arith, Bool-cases, Option-cases, inl,
  inr,
}
use sampmail.Prelude.Map
use sampmail.Prelude.Strings.{to_lower, any_pattern}
use sampmail.Bounce.{
  BounceType, hard, soft, complaint, suppress, suppress_threshold, handle_complaint, Info, Class,
  Tables, Calls,
}
use sampmail.Bounce.Classes.{
  hard_reasons, hard_patterns, soft_patterns, three_digits, as_hard, as_soft, undecided,
  by_smtp_code, read_count, by_type, by_message, classify_bounce,
}

-- What holds of every classification: suppression at once is for hard bounces alone, a bounce that may
-- be retried is not suppressed at once, and the threshold needs three soft bounces before.
pub record IsCoherent (count : ℕ) (t : BounceType) (class : Class) : Type 0 where
  pub for_hard : class.action ≡ suppress → (class.bounce_type ≡ hard) × (class.retryable ≡ false)
  pub for_threshold : class.action ≡ suppress_threshold → (3 ≤ count) × (t ≡ soft)
  pub for_complaint : class.action ≡ handle_complaint → t ≡ complaint

by_smtp_code-IsCoherent :
    (count : ℕ) (t : BounceType) (code message : Text)
    → IsCoherent count t (by_smtp_code code message (undecided t))
unfolding by_smtp_code
by_smtp_code-IsCoherent count t code message = ground arith

by_type-IsCoherent :
    (t : BounceType) (count : ℕ) (class : Class)
    → IsCoherent count t class
    → IsCoherent count t (by_type t count class)
unfolding by_type
by_type-IsCoherent complaint count class c = record {
  for_hard = λ e. cc;
  for_threshold = λ e. cc;
  for_complaint = λ e. refl;
}
by_type-IsCoherent soft count class c = elim (Bool-cases (leb 3 count)) [
  | inl many ↦
      rw (many, by_type)
        (record {
          for_hard = λ e. cc;
          for_threshold = λ e. (leb→le 3 count many, refl);
          for_complaint = λ e. cc;
        })
  | inr few ↦ rw (few, by_type) c
]
by_type-IsCoherent hard count class c = c

as_hard-IsCoherent :
    (count : ℕ) (t : BounceType) (reason : Text) → IsCoherent count t (as_hard reason)
as_hard-IsCoherent count t reason = record {
  for_hard = λ e. (refl, refl);
  for_threshold = λ e. cc;
  for_complaint = λ e. cc;
}

as_soft-IsCoherent :
    (count : ℕ) (t : BounceType) (reason : Text) → IsCoherent count t (as_soft reason)
as_soft-IsCoherent count t reason = record {
  for_hard = λ e. cc;
  for_threshold = λ e. cc;
  for_complaint = λ e. cc;
}

by_message-IsCoherent :
    (t : BounceType) (message : Text) (count : ℕ) → IsCoherent count t (by_message t message count)
unfolding by_message
by_message-IsCoherent t message count =
    elim (Bool-cases (any_pattern (to_lower message) hard_patterns)) [
      | inl h ↦ rw (h, by_message) (as_hard-IsCoherent count t (codes "permanent_failure"))
      | inr h ↦ elim (Bool-cases (any_pattern (to_lower message) soft_patterns)) [
        | inl s ↦
            rw (h, by_message)
              (rw (s, by_message) (as_soft-IsCoherent count t (codes "temporary_failure")))
        | inr s ↦
            rw (h, by_message)
              (rw (s, by_message)
                (by_type-IsCoherent t count
                  (by_smtp_code (three_digits message) message (undecided t))
                  (by_smtp_code-IsCoherent count t (three_digits message) message)))
      ]
    ]

-- Whatever the bounce and the tables are, classifyBounce suppresses at once only as a hard bounce that
-- is not to be retried; by the threshold only where the parser found a soft bounce and three soft
-- bounces of the address were read; and as a complaint only where the parser found one.
pub classify_bounce-IsCoherent :
    (calls : Calls) (info : Info) (db : Tables)
    → IsCoherent
        (read_count calls info.recipient db)
        info.bounce_type
        (classify_bounce calls info db)
unfolding classify_bounce
classify_bounce-IsCoherent calls info db = elim (Option-cases (Map.lookup info.code hard_reasons)) [
  | inl e ↦
      rw (e, classify_bounce)
        (by_message-IsCoherent info.bounce_type info.diagnostic
          (read_count calls info.recipient db))
  | inr (reason, e) ↦
      rw (e, classify_bounce)
        (as_hard-IsCoherent (read_count calls info.recipient db) info.bounce_type reason)
]
