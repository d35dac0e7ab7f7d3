-- ===== src/Campaign/Pipeline/Totals.antt =====
-- internal/core/campaign.go: the counters of a campaign against the mails that went out.
use sampmail.Prelude.{
  ℕ, zero, suc, ◌+◌, ◌≤◌, ◌≡◌, refl, ap, Bool, true, false, not, ◌&&◌, Option, none, some, List, [],
  ◌∷◌, ◌++◌, Text, arith, take, Bool-cases, inl, inr, if◌then◌else◌, ltb, leb, length, nat_eq,
}
use sampmail.Prelude.Strings.{to_lower}
use sampmail.Campaign.Control.{Gate, stop, wait, go, gate}
use sampmail.Suppression.{flagged}
use sampmail.Campaign.Pipeline.{
  Fetch, fetch_error, answers, Delivery, answered, refused, lost, or_nil, Event, turns, feeds,
  connects, takes, delivers, hands, collects, commanded, step, Reach, has_room, begin_batch, pick,
  keep, turn, turn_at, feed, connect, take_job, deliver, hand, collect, can_finish, is_empty,
}
use sampmail.Campaign.Pipeline.Shared.{
  Recipient, SendResult, State, start, Feeder, runs, drained, cancelled, fetch_failed, pending_of,
  batch_size, brake, count_result, is_sent, skip_result, over_bounce_limit, is_bounce,
}
use sampmail.Campaign.Pipeline.Safety.{After, Reach_induction}

-- How many results say that a mail went out.
abbrev pub count_sent : List SendResult → ℕ
count_sent [] = 0
count_sent (r ∷ rs) = (if is_sent r.status then 1 else 0) + count_sent rs

count_sent-append :
    (xs ys : List SendResult) → count_sent (xs ++ ys) ≡ count_sent xs + count_sent ys
count_sent-append [] ys = omega arith
count_sent-append (x ∷ xs) ys = ground (arith, count_sent-append xs ys)

abbrev pub in_pick : Option (SendResult × List SendResult) → ℕ
in_pick none = 0
in_pick (some (r, rest)) = (if is_sent r.status then 1 else 0) + count_sent rest

abbrev pub Same : Option (SendResult × List SendResult) → ℕ → Type 0
Same none n = Unit
Same (some (r, rest)) n = n ≡ (if is_sent r.status then 1 else 0) + count_sent rest

Same-keep :
    (x : SendResult) (o : Option (SendResult × List SendResult)) (n : ℕ)
    → Same o n
    → Same (keep x o) ((if is_sent x.status then 1 else 0) + n)
Same-keep x none n h = tt
Same-keep x (some (y, ys)) n h = ground arith

Same-pick : (i : ℕ) (xs : List SendResult) → Same (pick i xs) (count_sent xs)
unfolding pick
Same-pick i [] = tt
Same-pick zero (x ∷ xs) = refl
Same-pick (suc i) (x ∷ xs) = Same-keep x (pick i xs) (count_sent xs) (Same-pick i xs)

-- Each mail is counted, or its result is still on the way; the bounces are among the failures; and
-- the brake stops the workers.
pub record IsCounted (s : State) : Type 0 where
  pub counted :
      length s.mailed
      ≡ length s.unanswered + (s.total_sent + (count_sent s.outbox + count_sent s.results))
  pub bounces : s.total_bounced ≤ s.total_failed
  pub braked : s.bounce_paused ≡ true → s.context_done ≡ true

module _ (pool : ℕ) where
  begin_batch-IsCounted :
      (m : List (Text × Bool)) (batch : List Recipient) (s : State)
      → IsCounted s
      → IsCounted (begin_batch pool m batch s)
  unfolding begin_batch
  begin_batch-IsCounted m [] s h = record {
    counted = h.counted;
    bounces = h.bounces;
    braked = h.braked;
  }
  begin_batch-IsCounted m (r ∷ rs) s h = record {
    counted = h.counted;
    bounces = h.bounces;
    braked = h.braked;
  }

  turn_at-IsCounted :
      (g : Gate) (up : Fetch) (s : State) → IsCounted s → IsCounted (turn_at pool g up s)
  unfolding turn_at
  turn_at-IsCounted stop up s h = record {
    counted = h.counted;
    bounces = h.bounces;
    braked = λ e. refl;
  }
  turn_at-IsCounted wait up s h = h
  turn_at-IsCounted go fetch_error s h = record {
    counted = h.counted;
    bounces = h.bounces;
    braked = h.braked;
  }
  turn_at-IsCounted go (answers m) s h =
      begin_batch-IsCounted (or_nil m) (take batch_size (pending_of s.table)) s h

  turn-IsCounted :
      (f : Feeder) (batch : List Recipient) (up : Fetch) (s : State)
      → IsCounted s
      → After IsCounted (turn pool f batch up s)
  unfolding turn
  turn-IsCounted runs [] up s h = turn_at-IsCounted (gate s.control) up s h
  turn-IsCounted runs (r ∷ rs) up s h = tt
  turn-IsCounted drained batch up s h = tt
  turn-IsCounted cancelled batch up s h = tt
  turn-IsCounted fetch_failed batch up s h = tt

  feed-IsCounted :
      (batch : List Recipient) (s : State) → IsCounted s → After IsCounted (feed pool batch s)
  unfolding feed
  feed-IsCounted [] s h = tt
  feed-IsCounted (r ∷ rest) s h = elim (Bool-cases (flagged (to_lower r.email) s.suppressed_map)) [
    | inl listed ↦ elim (Bool-cases (has_room pool s.results)) [
      | inl room ↦
          rw (listed, room)
            record {
              counted = omega (arith, h.counted, count_sent-append s.results (skip_result r ∷ []));
              bounces = h.bounces;
              braked = h.braked;
            }
      | inr full ↦ rw (listed, full) tt
    ]
    | inr unlisted ↦ elim (Bool-cases (has_room pool s.jobs)) [
      | inl room ↦
          rw (unlisted, room) record { counted = h.counted; bounces = h.bounces; braked = h.braked }
      | inr full ↦ rw (unlisted, full) tt
    ]
  ]

  connect-IsCounted :
      (n : ℕ) (up : Bool) (s : State) → IsCounted s → After IsCounted (connect pool n up s)
  unfolding connect
  connect-IsCounted zero up s h = tt
  connect-IsCounted (suc n) true s h = record {
    counted = h.counted;
    bounces = h.bounces;
    braked = h.braked;
  }
  connect-IsCounted (suc n) false s h = record {
    counted = h.counted;
    bounces = h.bounces;
    braked = h.braked;
  }

  take_job-IsCounted :
      (jobs : List Recipient) (s : State) → IsCounted s → After IsCounted (take_job pool jobs s)
  unfolding take_job
  take_job-IsCounted [] s h = tt
  take_job-IsCounted (r ∷ rest) s h =
      elim (Bool-cases (ltb (length s.working + length s.outbox) s.workers)) [
        | inl free ↦ elim (Bool-cases s.context_done) [
          | inl over ↦
              rw (free, over)
                record { counted = h.counted; bounces = h.bounces; braked = λ e. refl }
          | inr on ↦
              rw (free, on)
                record { counted = h.counted; bounces = h.bounces; braked = λ e. cc (h.braked e) }
        ]
        | inr busy ↦ rw busy tt
      ]

  deliver-IsCounted :
      (o : Option (Recipient × List Recipient)) (outcome : Delivery) (s : State)
      → IsCounted s
      → After IsCounted (deliver pool o outcome s)
  unfolding deliver
  deliver-IsCounted none outcome s h = tt
  deliver-IsCounted (some (r, rest)) answered s h = record {
    counted = omega (arith, h.counted);
    bounces = h.bounces;
    braked = h.braked;
  }
  deliver-IsCounted (some (r, rest)) (refused error) s h = record {
    counted = omega (arith, h.counted);
    bounces = h.bounces;
    braked = h.braked;
  }
  deliver-IsCounted (some (r, rest)) (lost error) s h = record {
    counted = omega (arith, h.counted);
    bounces = h.bounces;
    braked = h.braked;
  }

  hand-IsCounted :
      (o : Option (SendResult × List SendResult)) (s : State)
      → Same o (count_sent s.outbox)
      → IsCounted s
      → After IsCounted (hand pool o s)
  unfolding hand
  hand-IsCounted none s k h = tt
  hand-IsCounted (some (r, rest)) s k h = elim (Bool-cases (has_room pool s.results)) [
    | inl room ↦ rw room record {
      counted = omega (arith, k, h.counted, count_sent-append s.results (r ∷ []));
      bounces = h.bounces;
      braked = h.braked;
    }
    | inr full ↦ rw full tt
  ]

  -- One result off the channel, with what it adds to the counters.
  count_result_counters :
      (r : SendResult) (s : State)
      → ((count_result r s).total_sent ≡ s.total_sent + (if is_sent r.status then 1 else 0))
        × (s.total_bounced ≤ s.total_failed
            → (count_result r s).total_bounced ≤ (count_result r s).total_failed)
        × ((count_result r s).mailed ≡ s.mailed)
        × ((count_result r s).unanswered ≡ s.unanswered)
        × ((count_result r s).outbox ≡ s.outbox)
        × ((count_result r s).results ≡ s.results)
        × ((count_result r s).bounce_paused ≡ s.bounce_paused)
        × ((count_result r s).context_done ≡ s.context_done)
  unfolding count_result
  count_result_counters r s = elim (Bool-cases (is_sent r.status)) [
    | inl went ↦ rw went (omega arith, λ h. h, refl, refl, refl, refl, refl, refl)
    | inr not_sent ↦ elim (Bool-cases (is_bounce r.error)) [
      | inl bounced ↦
          rw (not_sent, bounced) (omega arith, λ h. omega arith, refl, refl, refl, refl, refl, refl)
      | inr other ↦
          rw (not_sent, other) (omega arith, λ h. omega arith, refl, refl, refl, refl, refl, refl)
    ]
  ]

  brake-IsCounted : (s : State) → IsCounted s → IsCounted (brake s)
  unfolding brake
  brake-IsCounted s h =
      elim (Bool-cases (
        leb 100 s.total_sent
        && (not s.bounce_paused && over_bounce_limit s.total_bounced s.total_sent))) [
          | inl stops ↦
              rw stops record { counted = h.counted; bounces = h.bounces; braked = λ e. refl }
          | inr goes ↦ rw goes h
        ]

  collect-IsCounted :
      (results : List SendResult) (s : State)
      → results ≡ s.results
      → IsCounted s
      → After IsCounted (collect pool results s)
  unfolding collect
  collect-IsCounted [] s e h = tt
  collect-IsCounted (r ∷ rest) s e h =
      let (sent, bounced, mailed, unanswered, outbox, results, paused, done) =
        count_result_counters r (record s { results = rest }) in
      let heads : count_sent (r ∷ rest) ≡ count_sent s.results = ap count_sent e in
      brake-IsCounted (count_result r (record s { results = rest })) (record {
        counted = rw (mailed, unanswered, outbox, results, sent) (omega (arith, heads, h.counted));
        bounces = bounced h.bounces;
        braked = rw (paused, done) h.braked;
      })

  step-IsCounted : (e : Event) (s : State) → IsCounted s → After IsCounted (step pool e s)
  unfolding step
  step-IsCounted (turns up) s h = turn-IsCounted s.feeder s.batch up s h
  step-IsCounted feeds s h = feed-IsCounted s.batch s h
  step-IsCounted (connects up) s h = connect-IsCounted s.starting up s h
  step-IsCounted takes s h = take_job-IsCounted s.jobs s h
  step-IsCounted (delivers i outcome) s h = deliver-IsCounted (pick i s.working) outcome s h
  step-IsCounted (hands i) s h = hand-IsCounted (pick i s.outbox) s (Same-pick i s.outbox) h
  step-IsCounted collects s h = collect-IsCounted s.results s refl h
  step-IsCounted (commanded c) s h = record {
    counted = h.counted;
    bounces = h.bounces;
    braked = h.braked;
  }

  start-IsCounted : (count : ℕ) (table : List Recipient) → IsCounted (start count table)
  unfolding start
  start-IsCounted count table = record { counted = refl; bounces = omega arith; braked = λ e. cc }

  finished_empty :
      (outbox results : List SendResult)
      → is_empty outbox ≡ true
      → is_empty results ≡ true
      → count_sent outbox + count_sent results ≡ 0
  finished_empty [] [] h k = refl
  finished_empty [] (r ∷ rs) h k = cc
  finished_empty (r ∷ rs) results h k = cc

  -- The parts of the test that a run has finished.
  can_finish_parts :
      (s : State) → can_finish s ≡ true → (is_empty s.outbox ≡ true) × (is_empty s.results ≡ true)
  unfolding can_finish
  can_finish_parts s h = ground arith

  -- When a campaign has finished, by whatever order of its goroutines' steps, its counter of sent
  -- mails, with the mails that the server took without its answer arriving, makes the number of mails
  -- that the server took, a mail that was sent twice counted twice;
  -- its bounces are at most its failures; and if the bounce brake set the flag of the pause, the
  -- context of the workers was cancelled.
  pub finished_totals :
      (count : ℕ) (table : List Recipient) (s : State)
      → Reach pool (start count table) s
      → can_finish s ≡ true
      → (s.total_sent + length s.unanswered ≡ length s.mailed)
        × (s.total_bounced ≤ s.total_failed)
        × (s.bounce_paused ≡ true → s.context_done ≡ true)
  finished_totals count table s r h =
      let k = Reach_induction pool IsCounted step-IsCounted (start-IsCounted count table) r in
      let (o, e) = can_finish_parts s h in
      (omega (arith, k.counted, finished_empty s.outbox s.results o e), k.bounces, k.braked)
