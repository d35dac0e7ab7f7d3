-- ===== src/Campaign/Pipeline.antt =====
-- internal/core/campaign.go: `processCampaignWithPool` and `sendWorker`, as a step function on the
-- state that the goroutines share. An event is one step of one goroutine: the feeder, a worker, the
-- collector of results, or a user's command. `none`: the step is not possible in that state.
-- The database table is a list of recipients and the two channels are lists with a capacity. Mail goes
-- out in the step `delivers`, whose outcome the mail server chooses; `outbox` holds the results of
-- workers that wait for room in the channel of results; the waits for the warmup ticker
-- and for the domain limiter are time alone and are left out, and so is the periodic copy of the
-- counters to the campaign's row. The counters are `atomic.Int64`, and are bounded by the results.
pub mod Shared
pub mod Safety
pub mod Totals
pub mod Duplicates
pub mod Blocked
pub mod Drained
mod Tests
use sampmail.Prelude.{
  ℕ, zero, suc, ◌+◌, ◌-◌, ◌*◌, ◌≡◌, Bool, true, false, not, ◌&&◌, ◌||◌, Option, none, some, List,
  [], ◌∷◌, ◌++◌, String, Text, codes, text_eq, nat_eq, ◌==◌, ltb, leb, if◌then◌else◌, length, take,
}
use sampmail.Prelude.Strings.{to_lower, contains}
use sampmail.Suppression.{flagged}
use sampmail.Campaign.Control.{
  Control, new_control, Gate, stop, wait, go, gate, pause, resume, cancel,
}
use sampmail.Campaign.Control.Commands.{Command, command}
use sampmail.Campaign.Pipeline.Shared.{
  Status, Recipient, SendResult, Feeder, State, start, is_pending, pending_of, batch_size,
  update_status, is_bounce, over_bounce_limit, brake, is_sent, count_result, skip_result,
  sent_result, failed_result, pending, sent, failed, skipped, runs, drained, cancelled,
  fetch_failed,
}

-- The fetch of a batch fails, or it succeeds and `BulkCheckSuppressed` answers; `none` is an error of
-- that query, which the code drops.
pub data Fetch : Type 0 where
  fetch_error : Fetch
  answers : Option (List (Text × Bool)) → Fetch

-- What becomes of a mail: the server takes it and says so; it is not taken; or the server takes it and
-- the answer is lost, so that closing the data is an error.
pub data Delivery : Type 0 where
  answered : Delivery
  refused lost : Text → Delivery

-- The map of a query; an error leaves nil, which holds no address.
abbrev pub or_nil : Option (List (Text × Bool)) → List (Text × Bool)
or_nil none = []
or_nil (some m) = m

pub data Event : Type 0 where
  -- the feeder: the top of its loop, with what the database answers, and one recipient of its batch
  turns : Fetch → Event
  feeds : Event
  -- a worker: its connection, the next job off the channel, the outcome of the job at a place among those at work, and its result put into the channel
  connects : Bool → Event
  takes : Event
  delivers : ℕ → Delivery → Event
  hands : ℕ → Event
  collects : Event
  commanded : Command → Event

abbrev pub keep {ℓ} : {A : Type ℓ} → A → Option (A × List A) → Option (A × List A)
keep x none = none
keep x (some (y, ys)) = some (y, x ∷ ys)

-- The element at a place, and the others.
unfoldable pub pick {ℓ} : {A : Type ℓ} → ℕ → List A → Option (A × List A)
pick i [] = none
pick zero (x ∷ xs) = some (x, xs)
pick (suc i) (x ∷ xs) = keep x (pick i xs)

-- `pool` is the number of workers, and each channel holds twice as many.
module _ (pool : ℕ) where
  abbrev pub has_room {ℓ} : {A : Type ℓ} → List A → Bool
  has_room channel = ltb (length channel) (pool * 2)

  begin_batch : List (Text × Bool) → List Recipient → State → State
  begin_batch m [] s = record s { feeder = drained }
  begin_batch m (r ∷ rs) s = record s {
    batch = r ∷ rs;
    suppressed_map = m;
    queries = (r ∷ rs, m) ∷ s.queries;
  }

  fetch : Fetch → State → State
  unfolding pending_of begin_batch
  fetch fetch_error s = record s { feeder = fetch_failed }
  fetch (answers m) s = begin_batch (or_nil m) (take batch_size (pending_of s.table)) s

  turn_at : Gate → Fetch → State → State
  unfolding fetch
  turn_at stop up s = record s { feeder = cancelled; context_done = true }
  turn_at wait up s = s
  turn_at go up s = fetch up s

  -- The top of the feeder's loop, once its batch is used up.
  turn : Feeder → List Recipient → Fetch → State → Option State
  unfolding turn_at gate
  turn runs [] up s = some (turn_at (gate s.control) up s)
  turn runs (_ ∷ _) up s = none
  turn drained batch up s = none
  turn cancelled batch up s = none
  turn fetch_failed batch up s = none

  -- One recipient of the batch: past the channel of jobs if it is suppressed.
  feed : List Recipient → State → Option State
  feed [] s = none
  feed (r ∷ rest) s =
      if flagged (to_lower r.email) s.suppressed_map
      then if has_room s.results
        then some (record s { batch = rest; results = s.results ++ skip_result r ∷ [] })
        else none
      else if has_room s.jobs
      then some (record s { batch = rest; jobs = s.jobs ++ r ∷ [] })
      else none

  connect : ℕ → Bool → State → Option State
  connect zero up s = none
  connect (suc n) true s = some (record s { starting = n; workers = s.workers + 1 })
  connect (suc n) false s = some (record s { starting = n })

  -- A free worker takes a job. If the context is done it drops the job and ends.
  take_job : List Recipient → State → Option State
  take_job [] s = none
  take_job (r ∷ rest) s =
      if ltb (length s.working + length s.outbox) s.workers
      then if s.context_done
        then some (record s { jobs = rest; workers = s.workers - 1 })
        else some (record s { jobs = rest; working = r ∷ s.working })
      else none

  deliver : Option (Recipient × List Recipient) → Delivery → State → Option State
  deliver none outcome s = none
  deliver (some (r, rest)) answered s =
      some (record s { working = rest; mailed = r ∷ s.mailed; outbox = sent_result r ∷ s.outbox })
  deliver (some (r, rest)) (refused error) s =
      some (record s { working = rest; outbox = failed_result r error ∷ s.outbox })
  deliver (some (r, rest)) (lost error) s = some (record s {
    working = rest;
    mailed = r ∷ s.mailed;
    unanswered = r ∷ s.unanswered;
    outbox = failed_result r error ∷ s.outbox;
  })

  hand : Option (SendResult × List SendResult) → State → Option State
  hand none s = none
  hand (some (r, rest)) s =
      if has_room s.results
      then some (record s { outbox = rest; results = s.results ++ r ∷ [] })
      else none

  collect : List SendResult → State → Option State
  unfolding brake count_result
  collect [] s = none
  collect (r ∷ rest) s = some (brake (count_result r (record s { results = rest })))

  unfoldable pub step : Event → State → Option State
  unfolding turn feed connect take_job deliver hand collect command pick
  step (turns up) s = turn s.feeder s.batch up s
  step feeds s = feed s.batch s
  step (connects up) s = connect s.starting up s
  step takes s = take_job s.jobs s
  step (delivers i outcome) s = deliver (pick i s.working) outcome s
  step (hands i) s = hand (pick i s.outbox) s
  step collects s = collect s.results s
  step (commanded c) s = some (record s { control = (command c s.control).0 })

  pub data Reach (s : State) : State → Type 0 where
    here : Reach s s
    next : {t u : State} → Reach s t → (e : Event) → step e t ≡ some u → Reach s u

-- After the loop: the jobs are closed, the workers end, the results are closed, the collector ends. It
-- gets there once no worker is at work, none is left to take a job that stands in the channel, and
-- every result was collected.
pub data CampaignStatus : Type 0 where
  draft scheduled sending paused completed campaign_cancelled campaign_failed : CampaignStatus

abbrev pub is_empty {ℓ} : {A : Type ℓ} → List A → Bool
is_empty [] = true
is_empty (_ ∷ _) = false

abbrev pub has_ended : Feeder → Bool
has_ended runs = false
has_ended drained = true
has_ended cancelled = true
has_ended fetch_failed = true

unfoldable pub can_finish : State → Bool
can_finish s =
    has_ended s.feeder
    && (is_empty s.working
        && is_empty s.outbox
        && ((is_empty s.jobs || s.workers + s.starting == 0) && is_empty s.results))

-- The final status, from the flags at the end; a pause by the user leaves the status as it was.
unfoldable pub final_status : CampaignStatus → State → CampaignStatus
final_status before s =
    if s.control.is_cancelled
    then campaign_cancelled
    else if s.bounce_paused
    then paused
    else if s.control.is_paused
    then before
    else completed

-- StartCampaign: what it checks, in order, before it registers the control and starts the pool.
pub data StartError : Type 0 where
  already_running dkim_not_configured no_pending_recipients : StartError

unfoldable pub start_campaign : CampaignStatus → Bool → Bool → List Recipient → Option StartError
unfolding pending_of
start_campaign sending has_domain has_dkim table = some already_running
start_campaign completed has_domain has_dkim table = some already_running
start_campaign status has_domain has_dkim table =
    if has_domain && not has_dkim
    then some dkim_not_configured
    else if is_empty (pending_of table)
    then some no_pending_recipients
    else none
