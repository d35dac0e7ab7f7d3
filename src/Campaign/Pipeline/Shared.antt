-- ===== src/Campaign/Pipeline/Shared.antt =====
-- internal/core/campaign.go: the state that the goroutines of a campaign share, the table of recipients,
-- and what the collector does with one result.
use sampmail.Prelude.{
  ℕ, ◌+◌, ◌*◌, Bool, true, false, not, ◌&&◌, ◌||◌, List, [], ◌∷◌, Text, codes, text_eq, nat_eq,
  ◌==◌, ltb, leb, if◌then◌else◌,
}
use sampmail.Prelude.Strings.{to_lower, contains}
use sampmail.Campaign.Control.{Control, new_control}

pub data Status : Type 0 where
  pending sent failed skipped : Status

pub record Recipient : Type 0 where
  pub id : ℕ
  pub email : Text
  pub status : Status

pub record SendResult : Type 0 where
  pub recipient_id : ℕ
  pub status : Status
  pub error : Text

-- How the feeder's loop goes: it runs, or it ended, because nothing was pending, because the campaign
-- was cancelled, or because the fetch failed.
pub data Feeder : Type 0 where
  runs drained cancelled fetch_failed : Feeder

-- `suppressed_map` is the feeder's map for its batch. Three fields record what happened outside: the
-- batches that were fetched, the latest first, each with the map that its check of the suppression list
-- gave; the mails that the server took; and those among them whose answer did not arrive.
pub record State : Type 0 where
  pub table : List Recipient
  pub control : Control
  pub feeder : Feeder
  pub batch : List Recipient
  pub jobs : List Recipient
  pub starting : ℕ
  pub workers : ℕ
  pub working : List Recipient
  pub outbox : List SendResult
  pub results : List SendResult
  pub suppressed_map : List (Text × Bool)
  pub queries : List (List Recipient × List (Text × Bool))
  pub mailed : List Recipient
  pub unanswered : List Recipient
  pub context_done : Bool
  pub bounce_paused : Bool
  pub total_sent : ℕ
  pub total_failed : ℕ
  pub total_bounced : ℕ

-- At the start every worker has yet to connect to the mail server.
unfoldable pub start : ℕ → List Recipient → State
start worker_count table = record {
  table = table;
  control = new_control;
  feeder = runs;
  batch = [];
  jobs = [];
  starting = worker_count;
  workers = 0;
  working = [];
  outbox = [];
  results = [];
  suppressed_map = [];
  queries = [];
  mailed = [];
  unanswered = [];
  context_done = false;
  bounce_paused = false;
  total_sent = 0;
  total_failed = 0;
  total_bounced = 0;
}

abbrev pub is_pending : Status → Bool
is_pending pending = true
is_pending sent = false
is_pending failed = false
is_pending skipped = false

unfoldable pub pending_of : List Recipient → List Recipient
pending_of [] = []
pending_of (r ∷ rs) = let rest = pending_of rs in if is_pending r.status then r ∷ rest else rest

abbrev pub batch_size : ℕ
batch_size = 500

unfoldable pub update_status : ℕ → Status → List Recipient → List Recipient
update_status id status [] = []
update_status id status (r ∷ rs) =
    (if r.id == id then record r { status = status } else r) ∷ update_status id status rs

-- The errors that count as bounces.
unfoldable pub is_bounce : Text → Bool
is_bounce error =
    contains (to_lower error) (codes "bounce")
    || contains error (codes "550")
    || contains error (codes "551")
    || contains error (codes "552")
    || contains error (codes "553")
    || contains error (codes "554")

-- float64(bounced) / float64(sent) * 100 > 5.0. Below 2^40 the float test decides the same: at the
-- ratio 1/20 both sides are 5.0, and any other ratio is further off than the rounding.
unfoldable pub over_bounce_limit : ℕ → ℕ → Bool
over_bounce_limit bounced mails = ltb (mails * 5) (bounced * 100)

-- The brake: 100 sent at least, not yet paused, and the rate over the limit.
unfoldable pub brake : State → State
unfolding over_bounce_limit
brake s =
    if leb 100 s.total_sent
      && (not s.bounce_paused && over_bounce_limit s.total_bounced s.total_sent)
    then record s { bounce_paused = true; context_done = true }
    else s

abbrev pub is_sent : Status → Bool
is_sent sent = true
is_sent pending = false
is_sent failed = false
is_sent skipped = false

-- One result, as the collector takes it off the channel.
unfoldable pub count_result : SendResult → State → State
unfolding is_bounce update_status
count_result r s =
    let s' = if is_sent r.status then record s { total_sent = s.total_sent + 1 } else record s {
      total_failed = s.total_failed + 1;
      total_bounced = if is_bounce r.error then s.total_bounced + 1 else s.total_bounced;
    } in
    record s' { table = update_status r.recipient_id r.status s.table }

abbrev pub skip_result : Recipient → SendResult
skip_result r = record { recipient_id = r.id; status = skipped; error = codes "suppressed" }

abbrev pub sent_result : Recipient → SendResult
sent_result r = record { recipient_id = r.id; status = sent; error = [] }

abbrev pub failed_result : Recipient → Text → SendResult
failed_result r error = record { recipient_id = r.id; status = failed; error = error }
