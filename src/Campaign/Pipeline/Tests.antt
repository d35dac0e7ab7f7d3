-- ===== src/Campaign/Pipeline/Tests.antt =====
-- Runs of the pipeline of internal/core/campaign.go on small tables.
use sampmail.Prelude.{
  ℕ, ◌+◌, ◌≤◌, ◌≡◌, ◌≢◌, refl, Bool, true, false, Option, none, some, List, [], ◌∷◌, Text, arith,
  codes, length, All, text_eq,
}
use sampmail.Prelude.Strings.{to_lower}
use sampmail.Prelude.Map
use sampmail.Campaign.Control.{gate}
use sampmail.Campaign.Pipeline.{
  answers, answered, Event, turns, feeds, connects, takes, delivers, hands, collects, step, Reach,
  here, next, turn, turn_at, fetch, begin_batch, feed, connect, take_job, deliver, hand, pick,
  collect, can_finish, start_campaign, dkim_not_configured, draft,
}
use sampmail.Campaign.Pipeline.Shared.{Recipient, pending, State, start, pending_of}
use sampmail.Campaign.Pipeline.Safety.{no_suppressed_mailed, IsCleared}
use sampmail.Campaign.Pipeline.Totals.{finished_totals}
use sampmail.Campaign.Pipeline.Drained.{completed_settled}
use sampmail.Campaign.Pipeline.{final_status, sending, completed}
use sampmail.Campaign.Pipeline.Shared.{fetch_failed}
use sampmail.Campaign.Pipeline.Blocked.{blocked_forever, IsBlocked}
use sampmail.Campaign.Pipeline.Duplicates.{mailed_twice_lem, begun, mailed_twice}

-- What a check of the suppression list answers.
abbrev flagging : Option (List (Text × Bool))
flagging = some ((codes "b@y", true) ∷ [])

abbrev run : List Event → State → Option State
run [] s = some s
run (e ∷ es) s = elim (step 1 e s) [ none ↦ none | some t ↦ run es t ]

taken_some :
    (e : Event) (es : List Event) (t u : State) (o : Option State)
    → step 1 e t ≡ o
    → (elim o [ none ↦ none | some t ↦ run es t ]) ≡ some u
    → (v : State) × (step 1 e t ≡ some v) × (run es v ≡ some u)
taken_some e es t u none k h = cc
taken_some e es t u (some v) k h = (v, k, h)

same_some : (t u : State) → some t ≡ some u → t ≡ u
same_some t u h = cc

run-Reach : (es : List Event) (s t u : State) → Reach 1 s t → run es t ≡ some u → Reach 1 s u
run-Reach [] s t u r h = rw (← same_some t u h) r
run-Reach (e ∷ es) s t u r h =
    let (v, taken, rest) = taken_some e es t u (step 1 e t) refl h in
    run-Reach es s v u (next r e taken) rest

abbrev or_else : State → Option State → State
or_else s none = s
or_else s (some t) = t

abbrev person : ℕ → Text → Recipient
person id email = record { id = id; email = email; status = pending }

-- Two recipients, the second suppressed; the mail server bounces the first.
abbrev table : List Recipient
table = person 1 (codes "a@x") ∷ person 2 (codes "B@y") ∷ []

abbrev first_half : List Event
first_half =
    connects true ∷ turns (answers flagging) ∷ feeds ∷ feeds ∷ takes ∷ delivers 0 answered ∷ []

abbrev second_half : List Event
second_half = hands 0 ∷ collects ∷ collects ∷ turns (answers flagging) ∷ []

abbrev half : State
unfolding step start turn turn_at fetch begin_batch pending_of feed connect take_job deliver hand
    pick gate collect
half = or_else (start 1 table) (run first_half (start 1 table))

abbrev whole : State
unfolding step start turn turn_at fetch begin_batch pending_of feed connect take_job deliver hand
    pick gate collect
whole = or_else (start 1 table) (run second_half half)

half-Reach : Reach 1 (start 1 table) half
unfolding half to_lower Map.lookup
half-Reach = run-Reach first_half (start 1 table) (start 1 table) half here refl

whole-Reach : Reach 1 (start 1 table) whole
unfolding half whole to_lower Map.lookup
whole-Reach = run-Reach second_half (start 1 table) half whole half-Reach refl

whole_mailed : length whole.mailed ≡ 1
unfolding half whole to_lower Map.lookup
whole_mailed = refl

whole_finished : can_finish whole ≡ true
unfolding half whole can_finish to_lower Map.lookup
whole_finished = refl

no_suppressed_mailed_example : All (IsCleared half.queries) half.mailed
no_suppressed_mailed_example = no_suppressed_mailed 1 1 table half half-Reach

finished_totals_example :
    (whole.total_sent + length whole.unanswered ≡ length whole.mailed)
    × (whole.total_bounced ≤ whole.total_failed)
    × (whole.bounce_paused ≡ true → whole.context_done ≡ true)
finished_totals_example = finished_totals 1 1 table whole whole-Reach whole_finished

-- The one worker could not connect, and the channel of jobs is full.
abbrev three : List Recipient
three = person 1 (codes "a") ∷ person 2 (codes "c") ∷ person 3 (codes "d") ∷ []

abbrev no_worker : List Event
no_worker = connects false ∷ turns (answers flagging) ∷ feeds ∷ feeds ∷ []

abbrev stopped : State
unfolding step start turn turn_at fetch begin_batch pending_of feed connect take_job deliver hand
    pick gate collect
stopped = or_else (start 1 three) (run no_worker (start 1 three))

stopped-Reach : Reach 1 (start 1 three) stopped
unfolding stopped to_lower Map.lookup
stopped-Reach = run-Reach no_worker (start 1 three) (start 1 three) stopped here refl

stopped-IsBlocked : IsBlocked 1 stopped
unfolding stopped to_lower Map.lookup
stopped-IsBlocked = record {
  next_recipient = person 3 (codes "d");
  others = [];
  feeder_runs = refl;
  inside = refl;
  wanted = refl;
  full = refl;
  workers_gone = refl;
  none_starting = refl;
}

blocked_forever_example : can_finish stopped ≡ false
blocked_forever_example = blocked_forever 1 stopped stopped stopped-IsBlocked here

mailed_twice_lem_example : Reach 1 (begun [] 1 7 (codes "a@x")) (mailed_twice [] 1 7 (codes "a@x"))
unfolding to_lower Map.lookup
mailed_twice_lem_example = mailed_twice_lem [] 1 7 (codes "a@x") (omega arith) refl

refused_without_dkim : start_campaign draft true false table ≡ some dkim_not_configured
unfolding start_campaign
refused_without_dkim = refl

whole_completed : final_status sending whole ≡ completed
unfolding half whole final_status to_lower Map.lookup
whole_completed = refl

whole_fetched : whole.feeder ≢ fetch_failed
unfolding half whole to_lower Map.lookup
whole_fetched e = cc e

completed_settled_example : pending_of whole.table ≡ []
completed_settled_example =
    completed_settled 1 1 table whole whole-Reach whole_finished whole_completed whole_fetched
