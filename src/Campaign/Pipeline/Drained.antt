-- ===== src/Campaign/Pipeline/Drained.antt =====
-- internal/core/campaign.go: what the status "completed" says about the recipients.
use sampmail.Prelude.{
  ℕ, zero, suc, ◌+◌, ◌≡◌, ◌≢◌, refl, sym, ap, ◌∙◌, Bool, true, false, Option, none, some, List, [],
  ◌∷◌, ◌++◌, Text, arith, All, take, Bool-cases, inl, inr, ltb, length, ◌==◌, nat_eq,
}
use sampmail.Prelude.Split.{All-append}
use sampmail.Prelude.Strings.{to_lower}
use sampmail.Campaign.Control.{Control, Gate, stop, wait, go, gate, pause, resume, cancel}
use sampmail.Campaign.Control.Commands.{Command, command, pauses, resumes, cancels}
use sampmail.Suppression.{flagged}
use sampmail.Campaign.Pipeline.{
  Fetch, fetch_error, answers, Delivery, answered, refused, lost, or_nil, Event, turns, feeds,
  connects, takes, delivers, hands, collects, commanded, step, Reach, has_room, begin_batch, pick,
  turn, turn_at, feed, connect, take_job, deliver, hand, collect, can_finish, has_ended,
  final_status, sending, completed,
}
use sampmail.Campaign.Pipeline.Shared.{
  Recipient, Status, SendResult, State, start, Feeder, runs, drained, cancelled, fetch_failed,
  pending_of, is_pending, update_status, batch_size, brake, count_result, skip_result,
}
use sampmail.Campaign.Pipeline.Safety.{After, Reach_induction, Picked, All-pick}

-- A result that is not the status of a recipient yet to be mailed.
abbrev pub Final : SendResult → Type 0
Final r = is_pending r.status ≡ false

pub record IsSettled (s : State) : Type 0 where
  pub none_left : s.feeder ≡ drained → pending_of s.table ≡ []
  pub by_user : s.feeder ≡ cancelled → s.control.is_cancelled ≡ true
  pub outbox_final : All Final s.outbox
  pub results_final : All Final s.results

same-IsSettled :
    (s t : State)
    → IsSettled s
    → t.feeder ≡ s.feeder
    → t.table ≡ s.table
    → t.control ≡ s.control
    → t.outbox ≡ s.outbox
    → t.results ≡ s.results
    → IsSettled t
same-IsSettled s t h f b c o r = record {
  none_left = λ e. ap pending_of b ∙ h.none_left (sym f ∙ e);
  by_user = λ e. ap (λ (k : Control). k.is_cancelled) c ∙ h.by_user (sym f ∙ e);
  outbox_final = rw o h.outbox_final;
  results_final = rw r h.results_final;
}

take-nil : (n : ℕ) (rs : List Recipient) → take (suc n) rs ≡ [] → rs ≡ []
take-nil n [] h = refl
take-nil n (r ∷ rs) h = cc h

-- A row that gets a final status is not pending, and the others stay as they are.
update_status-settled :
    (id : ℕ) (status : Status) (table : List Recipient)
    → is_pending status ≡ false
    → pending_of table ≡ []
    → pending_of (update_status id status table) ≡ []
unfolding pending_of update_status
update_status-settled id status [] final h = refl
update_status-settled id status (r ∷ rs) final h = elim (Bool-cases (is_pending r.status)) [
  | inl yet ↦ absurd (ground (arith, yet, h))
  | inr past ↦
      let rest : pending_of rs ≡ [] = rw past at h in
      let ih = update_status-settled id status rs final rest in
      elim (Bool-cases (r.id == id)) [
        | inl here ↦ rw (here, final) ih
        | inr elsewhere ↦ rw (elsewhere, past) ih
      ]
]

gate_stop : (c : Control) → gate c ≡ stop → c.is_cancelled ≡ true
unfolding gate
gate_stop c h = ground arith

command_keeps :
    (k : Command) (c : Control) → c.is_cancelled ≡ true → (command k c).0.is_cancelled ≡ true
unfolding command pause resume cancel
command_keeps pauses c h = h
command_keeps resumes c h = h
command_keeps cancels c h = refl

module _ (pool : ℕ) where
  begin_batch-IsSettled :
      (m : List (Text × Bool)) (batch : List Recipient) (s : State)
      → take batch_size (pending_of s.table) ≡ batch
      → s.feeder ≡ runs
      → IsSettled s
      → IsSettled (begin_batch pool m batch s)
  unfolding begin_batch
  begin_batch-IsSettled m [] s e f h = record {
    none_left = λ k. take-nil 499 (pending_of s.table) e;
    by_user = λ k. cc k;
    outbox_final = h.outbox_final;
    results_final = h.results_final;
  }
  begin_batch-IsSettled m (r ∷ rs) s e f h = same-IsSettled s _ h refl refl refl refl refl

  turn_at-IsSettled :
      (g : Gate) (up : Fetch) (s : State)
      → gate s.control ≡ g
      → s.feeder ≡ runs
      → IsSettled s
      → IsSettled (turn_at pool g up s)
  unfolding turn_at
  turn_at-IsSettled stop up s e f h = record {
    none_left = λ k. cc k;
    by_user = λ k. gate_stop s.control e;
    outbox_final = h.outbox_final;
    results_final = h.results_final;
  }
  turn_at-IsSettled wait up s e f h = h
  turn_at-IsSettled go fetch_error s e f h = record {
    none_left = λ k. cc k;
    by_user = λ k. cc k;
    outbox_final = h.outbox_final;
    results_final = h.results_final;
  }
  turn_at-IsSettled go (answers m) s e f h =
      begin_batch-IsSettled (or_nil m) (take batch_size (pending_of s.table)) s refl f h

  turn-IsSettled :
      (f : Feeder) (batch : List Recipient) (up : Fetch) (s : State)
      → s.feeder ≡ f
      → IsSettled s
      → After IsSettled (turn pool f batch up s)
  unfolding turn
  turn-IsSettled runs [] up s e h = turn_at-IsSettled (gate s.control) up s refl e h
  turn-IsSettled runs (r ∷ rs) up s e h = tt
  turn-IsSettled drained batch up s e h = tt
  turn-IsSettled cancelled batch up s e h = tt
  turn-IsSettled fetch_failed batch up s e h = tt

  -- The results grow by a final one.
  more-IsSettled :
      (s : State) (rest : List Recipient) (r : SendResult) (outbox : List SendResult)
      → Final r
      → All Final outbox
      → IsSettled s
      → IsSettled (record s { batch = rest; outbox = outbox; results = s.results ++ r ∷ [] })
  more-IsSettled s rest r outbox final o h = record {
    none_left = h.none_left;
    by_user = h.by_user;
    outbox_final = o;
    results_final = All-append Final s.results (r ∷ []) h.results_final (final, tt);
  }

  feed-IsSettled :
      (batch : List Recipient) (s : State) → IsSettled s → After IsSettled (feed pool batch s)
  unfolding feed
  feed-IsSettled [] s h = tt
  feed-IsSettled (r ∷ rest) s h = elim (Bool-cases (flagged (to_lower r.email) s.suppressed_map)) [
    | inl listed ↦ elim (Bool-cases (has_room pool s.results)) [
      | inl room ↦
          rw (listed, room) (more-IsSettled s rest (skip_result r) s.outbox refl h.outbox_final h)
      | inr full ↦ rw (listed, full) tt
    ]
    | inr unlisted ↦ elim (Bool-cases (has_room pool s.jobs)) [
      | inl room ↦ rw (unlisted, room) (same-IsSettled s _ h refl refl refl refl refl)
      | inr full ↦ rw (unlisted, full) tt
    ]
  ]

  connect-IsSettled :
      (n : ℕ) (up : Bool) (s : State) → IsSettled s → After IsSettled (connect pool n up s)
  unfolding connect
  connect-IsSettled zero up s h = tt
  connect-IsSettled (suc n) true s h = same-IsSettled s _ h refl refl refl refl refl
  connect-IsSettled (suc n) false s h = same-IsSettled s _ h refl refl refl refl refl

  take_job-IsSettled :
      (jobs : List Recipient) (s : State) → IsSettled s → After IsSettled (take_job pool jobs s)
  unfolding take_job
  take_job-IsSettled [] s h = tt
  take_job-IsSettled (r ∷ rest) s h =
      elim (Bool-cases (ltb (length s.working + length s.outbox) s.workers)) [
        | inl free ↦ elim (Bool-cases s.context_done) [
          | inl over ↦ rw (free, over) (same-IsSettled s _ h refl refl refl refl refl)
          | inr on ↦ rw (free, on) (same-IsSettled s _ h refl refl refl refl refl)
        ]
        | inr busy ↦ rw busy tt
      ]

  deliver-IsSettled :
      (o : Option (Recipient × List Recipient)) (outcome : Delivery) (s : State)
      → IsSettled s
      → After IsSettled (deliver pool o outcome s)
  unfolding deliver
  deliver-IsSettled none outcome s h = tt
  deliver-IsSettled (some (r, rest)) answered s h = record {
    none_left = h.none_left;
    by_user = h.by_user;
    outbox_final = (refl, h.outbox_final);
    results_final = h.results_final;
  }
  deliver-IsSettled (some (r, rest)) (refused error) s h = record {
    none_left = h.none_left;
    by_user = h.by_user;
    outbox_final = (refl, h.outbox_final);
    results_final = h.results_final;
  }
  deliver-IsSettled (some (r, rest)) (lost error) s h = record {
    none_left = h.none_left;
    by_user = h.by_user;
    outbox_final = (refl, h.outbox_final);
    results_final = h.results_final;
  }

  hand-IsSettled :
      (o : Option (SendResult × List SendResult)) (s : State)
      → Picked Final o
      → IsSettled s
      → After IsSettled (hand pool o s)
  unfolding hand
  hand-IsSettled none s k h = tt
  hand-IsSettled (some (r, rest)) s k h = elim (Bool-cases (has_room pool s.results)) [
    | inl room ↦ rw room (more-IsSettled s s.batch r rest k.0 k.1 h)
    | inr full ↦ rw full tt
  ]

  counted_parts :
      (r : SendResult) (s : State)
      → ((brake (count_result r s)).table ≡ update_status r.recipient_id r.status s.table)
        × ((brake (count_result r s)).feeder ≡ s.feeder)
        × ((brake (count_result r s)).control ≡ s.control)
        × ((brake (count_result r s)).outbox ≡ s.outbox)
        × ((brake (count_result r s)).results ≡ s.results)
  unfolding brake count_result
  counted_parts r s = ground arith

  collect-IsSettled :
      (results : List SendResult) (s : State)
      → All Final results
      → IsSettled s
      → After IsSettled (collect pool results s)
  unfolding collect
  collect-IsSettled [] s final h = tt
  collect-IsSettled (r ∷ rest) s final h =
      let (table, feeder, control, outbox, results) =
        counted_parts r (record s { results = rest }) in
      record {
        none_left = λ e.
            ap pending_of table
            ∙ update_status-settled r.recipient_id r.status s.table final.0
                (h.none_left (sym feeder ∙ e));
        by_user = λ e. ap (λ (k : Control). k.is_cancelled) control ∙ h.by_user (sym feeder ∙ e);
        outbox_final = rw outbox h.outbox_final;
        results_final = rw results final.1;
      }

  step-IsSettled : (e : Event) (s : State) → IsSettled s → After IsSettled (step pool e s)
  unfolding step
  step-IsSettled (turns up) s h = turn-IsSettled s.feeder s.batch up s refl h
  step-IsSettled feeds s h = feed-IsSettled s.batch s h
  step-IsSettled (connects up) s h = connect-IsSettled s.starting up s h
  step-IsSettled takes s h = take_job-IsSettled s.jobs s h
  step-IsSettled (delivers i outcome) s h = deliver-IsSettled (pick i s.working) outcome s h
  step-IsSettled (hands i) s h =
      hand-IsSettled (pick i s.outbox) s (All-pick Final i s.outbox h.outbox_final) h
  step-IsSettled collects s h = collect-IsSettled s.results s h.results_final h
  step-IsSettled (commanded c) s h = record {
    none_left = h.none_left;
    by_user = λ e. command_keeps c s.control (h.by_user e);
    outbox_final = h.outbox_final;
    results_final = h.results_final;
  }

  start-IsSettled : (count : ℕ) (table : List Recipient) → IsSettled (start count table)
  unfolding start
  start-IsSettled count table = record {
    none_left = λ e. cc e;
    by_user = λ e. cc e;
    outbox_final = tt;
    results_final = tt;
  }

  finished_feeder : (s : State) → can_finish s ≡ true → has_ended s.feeder ≡ true
  unfolding can_finish
  finished_feeder s h = ground arith

  completed_flags :
      (s : State) → final_status sending s ≡ completed → s.control.is_cancelled ≡ false
  unfolding final_status
  completed_flags s h = ground arith

  by_feeder :
      (f : Feeder) (s : State)
      → s.feeder ≡ f
      → has_ended f ≡ true
      → f ≢ fetch_failed
      → s.control.is_cancelled ≡ false
      → IsSettled s
      → pending_of s.table ≡ []
  by_feeder runs s e ended fetched on h = cc ended
  by_feeder drained s e ended fetched on h = h.none_left e
  by_feeder cancelled s e ended fetched on h = let k = h.by_user e in cc (k, on)
  by_feeder fetch_failed s e ended fetched on h = absurd (fetched refl)

  -- When a campaign has finished and its final status is "completed", with no fetch of recipients
  -- having failed, no recipient of its table is pending: each was sent, failed or skipped.
  pub completed_settled :
      (count : ℕ) (table : List Recipient) (s : State)
      → Reach pool (start count table) s
      → can_finish s ≡ true
      → final_status sending s ≡ completed
      → s.feeder ≢ fetch_failed
      → pending_of s.table ≡ []
  completed_settled count table s r finished status fetched =
      by_feeder s.feeder s refl (finished_feeder s finished) fetched (completed_flags s status)
        (Reach_induction pool IsSettled step-IsSettled (start-IsSettled count table) r)
