-- ===== src/Campaign/Pipeline/Blocked.antt =====
-- internal/core/campaign.go: the feeder sends on the channel of jobs with no look at the context, and
-- no worker need be left to receive.
use sampmail.Prelude.{
  ℕ, zero, suc, ◌+◌, ◌≡◌, refl, ◌∙◌, Bool, false, Option, none, some, List, [], ◌∷◌, arith,
  Bool-cases, inl, inr, ltb, length, nat_eq,
}
use sampmail.Prelude.Strings.{to_lower}
use sampmail.Suppression.{flagged}
use sampmail.Campaign.Pipeline.{
  Fetch, Delivery, answered, refused, lost, Event, turns, feeds, connects, takes, delivers, hands,
  collects, commanded, step, Reach, has_room, pick, turn, feed, connect, take_job, deliver, hand,
  collect, can_finish,
}
use sampmail.Campaign.Pipeline.Shared.{
  Recipient, SendResult, State, Feeder, runs, drained, cancelled, fetch_failed, brake, count_result,
}
use sampmail.Campaign.Pipeline.Safety.{After, Reach_induction}

module _ (pool : ℕ) where
  -- Inside a batch, at an address that has to be mailed, with the channel full and no worker left.
  pub record IsBlocked (s : State) : Type 0 where
    pub next_recipient : Recipient
    pub others : List Recipient
    pub feeder_runs : s.feeder ≡ runs
    pub inside : s.batch ≡ next_recipient ∷ others
    pub wanted : flagged (to_lower next_recipient.email) s.suppressed_map ≡ false
    pub full : has_room pool s.jobs ≡ false
    pub workers_gone : s.workers ≡ 0
    pub none_starting : s.starting ≡ 0

  same-IsBlocked :
      (s t : State)
      → IsBlocked s
      → t.feeder ≡ s.feeder
      → t.batch ≡ s.batch
      → t.jobs ≡ s.jobs
      → t.workers ≡ s.workers
      → t.starting ≡ s.starting
      → t.suppressed_map ≡ s.suppressed_map
      → IsBlocked t
  same-IsBlocked s t h f b j w n m = record {
    next_recipient = h.next_recipient;
    others = h.others;
    feeder_runs = f ∙ h.feeder_runs;
    inside = b ∙ h.inside;
    wanted = rw m h.wanted;
    full = rw j h.full;
    workers_gone = w ∙ h.workers_gone;
    none_starting = n ∙ h.none_starting;
  }

  feed-IsBlocked :
      (batch : List Recipient) (s : State)
      → s.batch ≡ batch
      → IsBlocked s
      → After IsBlocked (feed pool batch s)
  unfolding feed
  feed-IsBlocked [] s e h = tt
  feed-IsBlocked (r ∷ rest) s e h =
      let same : r ≡ h.next_recipient = cc (h.inside) in
      let unlisted : flagged (to_lower r.email) s.suppressed_map ≡ false = rw same h.wanted in
      rw (unlisted, h.full) tt

  take_job-IsBlocked :
      (jobs : List Recipient) (s : State) → IsBlocked s → After IsBlocked (take_job pool jobs s)
  unfolding take_job
  take_job-IsBlocked [] s h = tt
  take_job-IsBlocked (r ∷ rest) s h =
      let busy : ltb (length s.working + length s.outbox) s.workers ≡ false =
        ground (arith, h.workers_gone) in
      rw busy tt

  deliver-IsBlocked :
      (o : Option (Recipient × List Recipient)) (outcome : Delivery) (s : State)
      → IsBlocked s
      → After IsBlocked (deliver pool o outcome s)
  unfolding deliver
  deliver-IsBlocked none outcome s h = tt
  deliver-IsBlocked (some (r, rest)) answered s h =
      same-IsBlocked s _ h refl refl refl refl refl refl
  deliver-IsBlocked (some (r, rest)) (refused error) s h =
      same-IsBlocked s _ h refl refl refl refl refl refl
  deliver-IsBlocked (some (r, rest)) (lost error) s h =
      same-IsBlocked s _ h refl refl refl refl refl refl

  hand-IsBlocked :
      (o : Option (SendResult × List SendResult)) (s : State)
      → IsBlocked s
      → After IsBlocked (hand pool o s)
  unfolding hand
  hand-IsBlocked none s h = tt
  hand-IsBlocked (some (r, rest)) s h = elim (Bool-cases (has_room pool s.results)) [
    | inl room ↦ rw room (same-IsBlocked s _ h refl refl refl refl refl refl)
    | inr full ↦ rw full tt
  ]

  collected_same :
      (r : SendResult) (s : State)
      → ((brake (count_result r s)).feeder ≡ s.feeder)
        × ((brake (count_result r s)).batch ≡ s.batch)
        × ((brake (count_result r s)).jobs ≡ s.jobs)
        × ((brake (count_result r s)).workers ≡ s.workers)
        × ((brake (count_result r s)).starting ≡ s.starting)
        × ((brake (count_result r s)).suppressed_map ≡ s.suppressed_map)
  unfolding brake count_result
  collected_same r s = ground arith

  collect-IsBlocked :
      (results : List SendResult) (s : State)
      → IsBlocked s
      → After IsBlocked (collect pool results s)
  unfolding collect
  collect-IsBlocked [] s h = tt
  collect-IsBlocked (r ∷ rest) s h =
      let (f, b, j, w, n, m) = collected_same r (record s { results = rest }) in
      same-IsBlocked s _ h f b j w n m

  turn-IsBlocked :
      (f : Feeder) (batch : List Recipient) (up : Fetch) (s : State)
      → s.batch ≡ batch
      → IsBlocked s
      → After IsBlocked (turn pool f batch up s)
  unfolding turn
  turn-IsBlocked runs [] up s e h = cc (h.inside)
  turn-IsBlocked runs (r ∷ rs) up s e h = tt
  turn-IsBlocked drained batch up s e h = tt
  turn-IsBlocked cancelled batch up s e h = tt
  turn-IsBlocked fetch_failed batch up s e h = tt

  connect-IsBlocked :
      (n : ℕ) (up : Bool) (s : State)
      → s.starting ≡ n
      → IsBlocked s
      → After IsBlocked (connect pool n up s)
  unfolding connect
  connect-IsBlocked zero up s e h = tt
  connect-IsBlocked (suc n) up s e h = absurd (omega (arith, h.none_starting))

  step-IsBlocked : (e : Event) (s : State) → IsBlocked s → After IsBlocked (step pool e s)
  unfolding step
  step-IsBlocked (turns up) s h = turn-IsBlocked s.feeder s.batch up s refl h
  step-IsBlocked feeds s h = feed-IsBlocked s.batch s refl h
  step-IsBlocked (connects up) s h = connect-IsBlocked s.starting up s refl h
  step-IsBlocked takes s h = take_job-IsBlocked s.jobs s h
  step-IsBlocked (delivers i outcome) s h = deliver-IsBlocked (pick i s.working) outcome s h
  step-IsBlocked (hands i) s h = hand-IsBlocked (pick i s.outbox) s h
  step-IsBlocked collects s h = collect-IsBlocked s.results s h
  step-IsBlocked (commanded c) s h = same-IsBlocked s _ h refl refl refl refl refl refl

  runs-can_finish : (s : State) → s.feeder ≡ runs → can_finish s ≡ false
  unfolding can_finish
  runs-can_finish s e = rw e refl

  -- Once every worker is gone (none could connect, or the bounce brake cancelled their context) and the
  -- channel of jobs is full while the feeder stands at a recipient who has to be mailed, the campaign
  -- never finishes: no further steps, the user's cancel and pause included, lead to its end.
  pub blocked_forever : (s t : State) → IsBlocked s → Reach pool s t → can_finish t ≡ false
  blocked_forever s t h r =
      runs-can_finish t (Reach_induction pool IsBlocked step-IsBlocked h r).feeder_runs
