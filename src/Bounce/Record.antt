-- ===== src/Bounce/Record.antt =====
-- internal/core/bounce_processor.go: `recordBounce` with what it does to the tables, and
-- `ProcessComplaint`.
use sampmail.Prelude.{
  ℕ, ◌+◌, ◌-◌, Bool, true, false, not, ◌||◌, ◌&&◌, none, some, List, [], ◌∷◌, ◌++◌, Text, codes,
  text_eq, nat_eq, ◌==◌, ltb, if◌then◌else◌,
}
use sampmail.Prelude.Map
use sampmail.Prelude.Strings.{contains, decimal}
use sampmail.Suppression.{normalize, add_suppression}
use sampmail.Bounce.{
  BounceType, hard, soft, complaint, Action, suppress, retry, suppress_threshold, handle_complaint,
  Info, Class, Event, ContactRow, CampaignRow, Tables, Calls,
}
use sampmail.Bounce.Classes.{classify_bounce}

abbrev pub event_of : Text → BounceType → Info → Event
event_of email t info = record {
  email = email;
  bounce_type = t;
  code = info.code;
  diagnostic = info.diagnostic;
  campaign = info.campaign;
}

-- UPDATE contacts SET status WHERE email
unfoldable pub set_status : Text → Text → List ContactRow → List ContactRow
set_status email status [] = []
set_status email status (c ∷ cs) =
    (if c.email == email then record c { status = status } else c) ∷ set_status email status cs

-- AddSuppression for organization 0; its error is not looked at.
abbrev pub suppressed : Calls → Text → Text → Text → Tables → Tables
suppressed calls email reason source db =
    if calls.adds
    then record db { suppressions = add_suppression 0 email reason source db.suppressions }
    else db

abbrev pub marked : Calls → Text → Text → Tables → Tables
marked calls email status db =
    if calls.updates then record db { contacts = set_status email status db.contacts } else db

abbrev pub counted_bounce : BounceType → CampaignRow → CampaignRow
counted_bounce soft c = record c { total_soft_bounced = c.total_soft_bounced + 1 }
counted_bounce hard c = record c { total_bounced = c.total_bounced + 1 }
counted_bounce complaint c = record c { total_bounced = c.total_bounced + 1 }

-- updateCampaignBounceStats
unfoldable pub update_campaign_bounce_stats : ℕ → BounceType → Tables → Tables
update_campaign_bounce_stats id t db = elim (Map.lookup id db.campaigns) [
  | none ↦ db
  | some c ↦ record db { campaigns = Map.insert id (counted_bounce t c) db.campaigns }
]

-- decrementSenderReputation; the score stops at 0.
unfoldable pub decrement_sender_reputation : ℕ → ℕ → Tables → Tables
decrement_sender_reputation id points db = elim (Map.lookup id db.campaigns) [
  | none ↦ db
  | some c ↦ elim (Map.lookup c.sender db.reputations) [
    | none ↦ db
    | some score ↦ record db { reputations = Map.insert c.sender (score - points) db.reputations }
  ]
]

abbrev pub source_of : ℕ → Text → Text
source_of campaign reason =
    if ltb 0 campaign
    then codes "campaign:" ++ (decimal campaign ++ b':' ∷ reason)
    else codes "bounce:" ++ reason

-- The `switch` on the action.
unfoldable pub act : Calls → Action → Text → Text → ℕ → Tables → Tables
unfolding decrement_sender_reputation
act calls suppress email reason campaign db =
    marked calls email (codes "bounced")
      (suppressed calls email reason (source_of campaign reason) db)
act calls retry email reason campaign db = db
act calls suppress_threshold email reason campaign db =
    suppressed calls email (codes "soft_bounce_threshold") (codes "auto") db
act calls handle_complaint email reason campaign db =
    let db' =
      marked calls email (codes "complained")
        (suppressed calls email (codes "complaint") (codes "fbl") db) in
    if ltb 0 campaign && calls.updates then decrement_sender_reputation campaign 15 db' else db'

abbrev pub with_event : Text → BounceType → Info → Tables → Tables
with_event email t info db = record db { events = event_of email t info ∷ db.events }

-- What follows once the event is stored.
unfoldable pub after_event : Calls → Class → Text → Info → Tables → Tables
unfolding act update_campaign_bounce_stats
after_event calls class email info db =
    let db' =
      act calls class.action email class.reason info.campaign
        (with_event email class.bounce_type info db) in
    if ltb 0 info.campaign && calls.updates
    then update_campaign_bounce_stats info.campaign class.bounce_type db'
    else db'

-- CreateBounceEvent, whose success is the first argument, and what follows.
unfoldable pub store_event : Bool → Calls → Class → Text → Info → Tables → Tables × Bool
unfolding after_event
store_event true calls class email info db = (after_event calls class email info db, true)
store_event false calls class email info db = (db, false)

-- recordBounce; `true` is a nil error.
unfoldable pub record_bounce : Calls → Info → Tables → Tables × Bool
unfolding store_event
record_bounce calls info db =
    let email = normalize info.recipient in
    if email == [] || not (contains email (codes "@"))
    then (db, false)
    else store_event calls.creates calls (classify_bounce calls info db) email info db

abbrev pub complaint_source : ℕ → Text
complaint_source campaign =
    if ltb 0 campaign then codes "fbl:campaign:" ++ decimal campaign else codes "fbl"

abbrev complaint_info : Text → ℕ → Info
complaint_info email campaign = record {
  recipient = email;
  bounce_type = complaint;
  code = [];
  diagnostic = [];
  campaign = campaign;
}

-- ProcessComplaint
unfoldable pub process_complaint : Calls → Text → ℕ → Tables → Tables × Bool
process_complaint calls address campaign db =
    let email = normalize address in
    let db' =
      if calls.creates then with_event email complaint (complaint_info email campaign) db else db in
    if email == []
    then (db, false)
    else (suppressed calls email (codes "complaint") (complaint_source campaign) db', calls.adds)
