-- ===== src/Campaign/Pipeline/Safety.antt =====
-- internal/core/campaign.go: what is mailed was cleared by the check of a batch.
use sampmail.Prelude.{
  ℕ, zero, suc, ◌+◌, ◌≡◌, refl, Bool, true, false, Option, none, some, List, [], ◌∷◌, Text, arith,
  All, take, Bool-cases, inl, inr, ◌⊎◌, ltb, length,
}
use mathlib.Core.Path.{subst}
use sampmail.Prelude.Split.{All-append}
use sampmail.Prelude.Strings.{to_lower}
use sampmail.Campaign.Control.{Gate, stop, wait, go, gate}
use sampmail.Suppression.{flagged}
use sampmail.Campaign.Pipeline.{
  Fetch, fetch_error, answers, Delivery, answered, refused, lost, or_nil, Event, turns, feeds,
  connects, takes, delivers, hands, collects, commanded, step, Reach, here, next, has_room,
  begin_batch, pick, keep, turn, turn_at, feed, connect, take_job, deliver, hand, collect,
}
use sampmail.Campaign.Pipeline.Shared.{
  Recipient, SendResult, State, start, Feeder, runs, drained, cancelled, fetch_failed, pending_of,
  batch_size, brake, count_result,
}

-- What holds of the state after a step, if the step is possible.
abbrev pub After {ℓ} : (State → Type ℓ) → Option State → Type ℓ
After P none = Unit
After P (some s) = P s

module _ {A : Type 0} (P : A → Type 0) where
  abbrev pub Picked : Option (A × List A) → Type 0
  Picked none = Unit
  Picked (some (x, rest)) = P x × All P rest

  Picked-keep : (x : A) (o : Option (A × List A)) → P x → Picked o → Picked (keep x o)
  Picked-keep x none h k = tt
  Picked-keep x (some (y, ys)) h k = (k.0, (h, k.1))

  pub All-pick : (i : ℕ) (xs : List A) → All P xs → Picked (pick i xs)
  unfolding pick
  All-pick i [] h = tt
  All-pick zero (x ∷ xs) h = h
  All-pick (suc i) (x ∷ xs) h = Picked-keep x (pick i xs) h.0 (All-pick i xs h.1)

-- An induction over what is reached, by a property that each step keeps.
module _ (pool : ℕ) (P : State → Type 0) where
  after_some : (o : Option State) (u : State) → o ≡ some u → After P o → P u
  after_some none u e h = absurd (cc)
  after_some (some t) u e h = let k : t ≡ u = cc in subst P k h

  pub Reach_induction :
      ((e : Event) (s : State) → P s → After P (step pool e s))
      → {s t : State} → P s
      → Reach pool s t
      → P t
  Reach_induction keeps h here = h
  Reach_induction keeps h (next {t = t} {u = u} r e taken) =
      after_some (step pool e t) u taken (keeps e t (Reach_induction keeps h r))

abbrev pub Among : Recipient → List Recipient → Type 0
Among r [] = ⊥
Among r (x ∷ xs) = (r ≡ x) ⊎ Among r xs

-- A batch in which the recipient was fetched, and whose own check did not flag the address.
abbrev pub IsCleared : List (List Recipient × List (Text × Bool)) → Recipient → Type 0
IsCleared [] r = ⊥
IsCleared ((batch, m) ∷ queries) r =
    (Among r batch × (flagged (to_lower r.email) m ≡ false)) ⊎ IsCleared queries r

-- The same for a recipient of the batch that the feeder is at, if its map does not flag it.
abbrev pub IsCheckable :
    List (Text × Bool) → List (List Recipient × List (Text × Bool)) → Recipient → Type 0
IsCheckable m queries r = flagged (to_lower r.email) m ≡ false → IsCleared queries r

All_map :
    {P Q : Recipient → Type 0} (f : (r : Recipient) → P r → Q r) (rs : List Recipient)
    → All P rs
    → All Q rs
All_map f [] h = tt
All_map f (r ∷ rs) h = (f r h.0, All_map f rs h.1)

All_among :
    {Q : Recipient → Type 0} (rs : List Recipient) → ((r : Recipient) → Among r rs → Q r) → All Q rs
All_among [] f = tt
All_among (r ∷ rs) f = (f r (inl refl), All_among rs (λ x a. f x (inr a)))

module _ (pool : ℕ) where
  -- On the way to the mail server, or past it, each recipient was cleared by a check of its batch.
  pub record IsSafe (s : State) : Type 0 where
    pub batch_checkable : All (IsCheckable s.suppressed_map s.queries) s.batch
    pub jobs_wanted : All (IsCleared s.queries) s.jobs
    pub working_wanted : All (IsCleared s.queries) s.working
    pub mailed_wanted : All (IsCleared s.queries) s.mailed

  -- Steps that leave the batch, the jobs, the work and the mail as they were.
  same-IsSafe :
      (s t : State)
      → IsSafe s
      → t.suppressed_map ≡ s.suppressed_map
      → t.queries ≡ s.queries
      → t.batch ≡ s.batch
      → t.jobs ≡ s.jobs
      → t.working ≡ s.working
      → t.mailed ≡ s.mailed
      → IsSafe t
  same-IsSafe s t h x q b j w m = record {
    batch_checkable = rw (x, q, b) h.batch_checkable;
    jobs_wanted = rw (q, j) h.jobs_wanted;
    working_wanted = rw (q, w) h.working_wanted;
    mailed_wanted = rw (q, m) h.mailed_wanted;
  }

  begin_batch-IsSafe :
      (m : List (Text × Bool)) (batch : List Recipient) (s : State)
      → IsSafe s
      → IsSafe (begin_batch pool m batch s)
  unfolding begin_batch
  begin_batch-IsSafe m [] s h = same-IsSafe s _ h refl refl refl refl refl refl
  begin_batch-IsSafe m (r ∷ rs) s h = record {
    batch_checkable = All_among (r ∷ rs) (λ x a clear. inl (a, clear));
    jobs_wanted = All_map (λ x k. inr k) s.jobs h.jobs_wanted;
    working_wanted = All_map (λ x k. inr k) s.working h.working_wanted;
    mailed_wanted = All_map (λ x k. inr k) s.mailed h.mailed_wanted;
  }

  turn_at-IsSafe : (g : Gate) (up : Fetch) (s : State) → IsSafe s → IsSafe (turn_at pool g up s)
  unfolding turn_at
  turn_at-IsSafe stop up s h = same-IsSafe s _ h refl refl refl refl refl refl
  turn_at-IsSafe wait up s h = h
  turn_at-IsSafe go fetch_error s h = same-IsSafe s _ h refl refl refl refl refl refl
  turn_at-IsSafe go (answers m) s h =
      begin_batch-IsSafe (or_nil m) (take batch_size (pending_of s.table)) s h

  turn-IsSafe :
      (f : Feeder) (batch : List Recipient) (up : Fetch) (s : State)
      → IsSafe s
      → After IsSafe (turn pool f batch up s)
  unfolding turn
  turn-IsSafe runs [] up s h = turn_at-IsSafe (gate s.control) up s h
  turn-IsSafe runs (r ∷ rs) up s h = tt
  turn-IsSafe drained batch up s h = tt
  turn-IsSafe cancelled batch up s h = tt
  turn-IsSafe fetch_failed batch up s h = tt

  feed-IsSafe :
      (batch : List Recipient) (s : State)
      → All (IsCheckable s.suppressed_map s.queries) batch
      → IsSafe s
      → After IsSafe (feed pool batch s)
  unfolding feed
  feed-IsSafe [] s b h = tt
  feed-IsSafe (r ∷ rest) s b h = elim (Bool-cases (flagged (to_lower r.email) s.suppressed_map)) [
    | inl listed ↦ elim (Bool-cases (has_room pool s.results)) [
      | inl room ↦
          rw (listed, room)
            record {
              batch_checkable = b.1;
              jobs_wanted = h.jobs_wanted;
              working_wanted = h.working_wanted;
              mailed_wanted = h.mailed_wanted;
            }
      | inr full ↦ rw (listed, full) tt
    ]
    | inr unlisted ↦ elim (Bool-cases (has_room pool s.jobs)) [
      | inl room ↦
          rw (unlisted, room)
            record {
              batch_checkable = b.1;
              jobs_wanted =
                  All-append (IsCleared s.queries) s.jobs (r ∷ []) h.jobs_wanted (b.0 unlisted, tt);
              working_wanted = h.working_wanted;
              mailed_wanted = h.mailed_wanted;
            }
      | inr full ↦ rw (unlisted, full) tt
    ]
  ]

  connect-IsSafe : (n : ℕ) (up : Bool) (s : State) → IsSafe s → After IsSafe (connect pool n up s)
  unfolding connect
  connect-IsSafe zero up s h = tt
  connect-IsSafe (suc n) true s h = same-IsSafe s _ h refl refl refl refl refl refl
  connect-IsSafe (suc n) false s h = same-IsSafe s _ h refl refl refl refl refl refl

  take_job-IsSafe :
      (jobs : List Recipient) (s : State)
      → All (IsCleared s.queries) jobs
      → IsSafe s
      → After IsSafe (take_job pool jobs s)
  unfolding take_job
  take_job-IsSafe [] s j h = tt
  take_job-IsSafe (r ∷ rest) s j h =
      elim (Bool-cases (ltb (length s.working + length s.outbox) s.workers)) [
        | inl free ↦ elim (Bool-cases s.context_done) [
          | inl over ↦
              rw (free, over)
                record {
                  batch_checkable = h.batch_checkable;
                  jobs_wanted = j.1;
                  working_wanted = h.working_wanted;
                  mailed_wanted = h.mailed_wanted;
                }
          | inr on ↦
              rw (free, on)
                record {
                  batch_checkable = h.batch_checkable;
                  jobs_wanted = j.1;
                  working_wanted = (j.0, h.working_wanted);
                  mailed_wanted = h.mailed_wanted;
                }
        ]
        | inr busy ↦ rw busy tt
      ]

  deliver-IsSafe :
      (o : Option (Recipient × List Recipient)) (outcome : Delivery) (s : State)
      → Picked (IsCleared s.queries) o
      → IsSafe s
      → After IsSafe (deliver pool o outcome s)
  unfolding deliver
  deliver-IsSafe none outcome s k h = tt
  deliver-IsSafe (some (r, rest)) answered s k h = record {
    batch_checkable = h.batch_checkable;
    jobs_wanted = h.jobs_wanted;
    working_wanted = k.1;
    mailed_wanted = (k.0, h.mailed_wanted);
  }
  deliver-IsSafe (some (r, rest)) (refused error) s k h = record {
    batch_checkable = h.batch_checkable;
    jobs_wanted = h.jobs_wanted;
    working_wanted = k.1;
    mailed_wanted = h.mailed_wanted;
  }
  deliver-IsSafe (some (r, rest)) (lost error) s k h = record {
    batch_checkable = h.batch_checkable;
    jobs_wanted = h.jobs_wanted;
    working_wanted = k.1;
    mailed_wanted = (k.0, h.mailed_wanted);
  }

  hand-IsSafe :
      (o : Option (SendResult × List SendResult)) (s : State)
      → IsSafe s
      → After IsSafe (hand pool o s)
  unfolding hand
  hand-IsSafe none s h = tt
  hand-IsSafe (some (r, rest)) s h = elim (Bool-cases (has_room pool s.results)) [
    | inl room ↦ rw room (same-IsSafe s _ h refl refl refl refl refl refl)
    | inr full ↦ rw full tt
  ]

  collected_same :
      (r : SendResult) (s : State)
      → ((brake (count_result r s)).suppressed_map ≡ s.suppressed_map)
        × ((brake (count_result r s)).queries ≡ s.queries)
        × ((brake (count_result r s)).batch ≡ s.batch)
        × ((brake (count_result r s)).jobs ≡ s.jobs)
        × ((brake (count_result r s)).working ≡ s.working)
        × ((brake (count_result r s)).mailed ≡ s.mailed)
  unfolding brake count_result
  collected_same r s = ground arith

  collect-IsSafe :
      (results : List SendResult) (s : State) → IsSafe s → After IsSafe (collect pool results s)
  unfolding collect
  collect-IsSafe [] s h = tt
  collect-IsSafe (r ∷ rest) s h =
      let (x, q, b, j, w, m) = collected_same r (record s { results = rest }) in
      same-IsSafe s _ h x q b j w m

  step-IsSafe : (e : Event) (s : State) → IsSafe s → After IsSafe (step pool e s)
  unfolding step
  step-IsSafe (turns up) s h = turn-IsSafe s.feeder s.batch up s h
  step-IsSafe feeds s h = feed-IsSafe s.batch s h.batch_checkable h
  step-IsSafe (connects up) s h = connect-IsSafe s.starting up s h
  step-IsSafe takes s h = take_job-IsSafe s.jobs s h.jobs_wanted h
  step-IsSafe (delivers i outcome) s h =
      deliver-IsSafe (pick i s.working) outcome s
        (All-pick (IsCleared s.queries) i s.working h.working_wanted) h
  step-IsSafe (hands i) s h = hand-IsSafe (pick i s.outbox) s h
  step-IsSafe collects s h = collect-IsSafe s.results s h
  step-IsSafe (commanded c) s h = same-IsSafe s _ h refl refl refl refl refl refl

  start-IsSafe : (count : ℕ) (table : List Recipient) → IsSafe (start count table)
  unfolding start
  start-IsSafe count table = record {
    batch_checkable = tt;
    jobs_wanted = tt;
    working_wanted = tt;
    mailed_wanted = tt;
  }

  -- In every run of a campaign, whatever its workers, the mail server, the database and the users do,
  -- each mailed recipient was fetched in a batch whose own check of the suppression list did not flag
  -- the address in lower case; a check that fails flags no address.
  pub no_suppressed_mailed :
      (count : ℕ) (table : List Recipient) (s : State)
      → Reach pool (start count table) s
      → All (IsCleared s.queries) s.mailed
  no_suppressed_mailed count table s r =
      (Reach_induction pool IsSafe step-IsSafe (start-IsSafe count table) r).mailed_wanted
