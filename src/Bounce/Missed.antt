-- ===== src/Bounce/Missed.antt =====
-- internal/core/bounce_processor.go: hard bounces that are not suppressed.
use sampmail.Prelude.{
  ◌≡◌, refl, true, false, not, ◌||◌, none, [], ◌∷◌, Text, codes, text_eq, ◌==◌, arith,
}
use sampmail.Prelude.Map
use sampmail.Prelude.Strings.{to_lower, contains, has_prefix, any_pattern}
use sampmail.Suppression.{normalize}
use sampmail.Bounce.{hard, Info, Tables, Calls}
use sampmail.Bounce.Classes.{
  hard_reasons, hard_patterns, soft_patterns, three_digits, undecided, by_smtp_code, by_type,
  by_message, classify_bounce,
}
use sampmail.Bounce.Record.{
  event_of, act, after_event, store_event, record_bounce, update_campaign_bounce_stats,
}
use sampmail.Bounce.Hard.{all_fine}

-- No rule of classifyBounce applies: the code is not an enhanced one of its table, and the message has
-- no three digits and none of the phrases.
pub record IsSilent (info : Info) : Type 0 where
  pub no_reason : Map.lookup info.code hard_reasons ≡ none
  pub no_digits : three_digits info.diagnostic ≡ []
  pub no_hard : any_pattern (to_lower info.diagnostic) hard_patterns ≡ false
  pub no_soft : any_pattern (to_lower info.diagnostic) soft_patterns ≡ false

classify_bounce-undecided :
    (calls : Calls) (info : Info) (db : Tables)
    → IsSilent info
    → info.bounce_type ≡ hard
    → classify_bounce calls info db ≡ undecided hard
unfolding classify_bounce by_message by_type by_smtp_code has_prefix
classify_bounce-undecided calls info db q e =
    rw (q.no_reason, classify_bounce)
      (rw (q.no_hard, by_message) (rw (q.no_soft, by_message) (rw e (rw q.no_digits refl))))

undecided_kept :
    (email : Text) (info : Info) (db : Tables)
    → ((after_event all_fine (undecided hard) email info db).events
        ≡ event_of email hard info ∷ db.events)
      × ((after_event all_fine (undecided hard) email info db).suppressions ≡ db.suppressions)
unfolding after_event act update_campaign_bounce_stats
undecided_kept email info db = (ground arith, ground arith)

-- A bounce that the parser found to be hard, as by the reply code 550 of a log line, and on which no
-- rule of classifyBounce says anything, is stored as a hard bounce of a good address, with no error,
-- and suppresses nobody.
pub hard_bounce_missed :
    (info : Info) (db : Tables)
    → (normalize info.recipient == [] || not (contains (normalize info.recipient) (codes "@")))
      ≡ false
    → IsSilent info
    → info.bounce_type ≡ hard
    → ((record_bounce all_fine info db).1 ≡ true)
      × ((record_bounce all_fine info db).0.events
          ≡ event_of (normalize info.recipient) hard info ∷ db.events)
      × ((record_bounce all_fine info db).0.suppressions ≡ db.suppressions)
unfolding record_bounce store_event after_event act
hard_bounce_missed info db valid q e =
    let k = classify_bounce-undecided all_fine info db q e in
    let kept = undecided_kept (normalize info.recipient) info db in
    (
      rw (valid, record_bounce) refl,
      rw (valid, record_bounce) (rw k kept.0),
      rw (valid, record_bounce) (rw k kept.1),
    )
