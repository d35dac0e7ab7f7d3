-- ===== src/Bounce/Tests.antt =====
-- The claims on bounces at concrete bounces and logs.
use sampmail.Prelude.{
  ◌≡◌, refl, true, not, ◌&&◌, List, [], ◌∷◌, ◌++◌, Text, All, codes, text_eq, nat_eq, arith,
}
use sampmail.Prelude.Map
use sampmail.Prelude.Strings.{to_lower, trim_space, contains, digits_value}
use sampmail.Suppression.{normalize, is_suppressed, bulk_check_suppressed}
use sampmail.Bounce.{hard, soft, Info, Tables}
use sampmail.Bounce.Classes.{classify_bounce, read_count, three_digits}
use sampmail.Bounce.Record.{record_bounce, event_of}
use sampmail.Bounce.Lines.{
  parse_log_line, find_recipient, find_response_code, find_bounce_class, find_campaign,
}
use sampmail.Bounce.Logs.{process_log_file, scan, unread}
use sampmail.Bounce.Accounts.{valid_username, valid_account}
use sampmail.Bounce.Scope.{bounces_unseen}
use sampmail.Bounce.Hard.{all_fine, IsRecorded, suppress_bounce_lem}
use sampmail.Bounce.Soft.{IsCoherent, classify_bounce-IsCoherent}
use sampmail.Bounce.Passes.{follow, concat, works, HasShortLines, follow-once}
use sampmail.Bounce.Missed.{IsSilent}

abbrev tables : Tables
tables = record {
  events = [];
  suppressions = [];
  contacts = record { email = codes "ann@example.org"; status = codes "subscribed" } ∷ [];
  campaigns = (3, record { sender = 2; total_bounced = 0; total_soft_bounced = 0 }) ∷ [];
  reputations = (2, 90) ∷ [];
}

abbrev gone : Info
gone = record {
  recipient = codes "Ann@Example.org ";
  bounce_type = soft;
  code = codes "5.1.1";
  diagnostic = codes "user unknown";
  campaign = 3;
}

-- A log line of a mail server that was answered 550.
abbrev line : Text
line =
    codes
      "{\"type\":\"Bounce\",\"recipient\":\"ann@example.org\",\"response\": \"550 no\",\"campaign\":\"3\",\"bounce_classification\":\"InvalidRecipient\"}"

abbrev logged : Info
logged = record {
  recipient = codes "ann@example.org";
  bounce_type = hard;
  code = codes "550";
  diagnostic = codes "InvalidRecipient";
  campaign = 3;
}

line_parsed : parse_log_line line ≡ logged
unfolding parse_log_line to_lower contains digits_value find_recipient find_response_code
    find_bounce_class find_campaign
line_parsed = refl

suppress_bounce_lem_example :
    ((record_bounce all_fine gone tables).1 ≡ true)
    × IsRecorded
        (normalize gone.recipient)
        gone.recipient
        (event_of
          (normalize gone.recipient)
          (classify_bounce all_fine gone tables).bounce_type
          gone)
        []
        (record_bounce all_fine gone tables).0
unfolding normalize to_lower trim_space contains classify_bounce Map.lookup
suppress_bounce_lem_example = suppress_bounce_lem gone tables refl refl

bounces_unseen_example :
    ((email : Text)
      → is_suppressed 7 email (record_bounce all_fine gone tables).0.suppressions
        ≡ is_suppressed 7 email [])
    × ((emails : List Text)
        → bulk_check_suppressed 7 emails (record_bounce all_fine gone tables).0.suppressions
          ≡ bulk_check_suppressed 7 emails [])
bounces_unseen_example = bounces_unseen all_fine gone tables 7 refl

silent : IsSilent logged
unfolding Map.lookup three_digits to_lower contains
silent = record { no_reason = refl; no_digits = refl; no_hard = refl; no_soft = refl }

classify_bounce-IsCoherent_example :
    IsCoherent
      (read_count all_fine gone.recipient tables)
      soft
      (classify_bounce all_fine gone tables)
classify_bounce-IsCoherent_example = classify_bounce-IsCoherent all_fine gone tables

abbrev newline : Text
newline = 10 ∷ []

abbrev pieces : List Text
pieces = (line ++ newline) ∷ codes "" ∷ (codes "started" ++ newline) ∷ []

short_pieces : All HasShortLines pieces
unfolding scan
short_pieces = ((refl, tt), (tt, ((refl, tt), tt)))

follow-once_example :
    follow all_fine pieces [] unread (tables, 0)
    ≡ process_log_file all_fine works (concat pieces) unread (tables, 0)
follow-once_example = follow-once all_fine pieces (tables, 0) (omega arith) short_pieces

-- A name that the creation of accounts accepts and whose maildir is never read.
never_read : valid_account (codes "Bounce.1") && not (valid_username (codes "Bounce.1")) ≡ true
unfolding valid_account valid_username
never_read = refl
