-- ===== src/Campaign/Pipeline/Duplicates.antt =====
-- internal/core/campaign.go: a recipient whose result is still on the way is still pending in the
-- table, and the feeder's next fetch returns it again.
use sampmail.Prelude.{ℕ, ◌<◌, ◌≡◌, refl, Bool, true, false, some, List, [], ◌∷◌, Text, arith}
use sampmail.Prelude.Strings.{to_lower}
use sampmail.Campaign.Control.{gate}
use sampmail.Suppression.{flagged}
use sampmail.Campaign.Pipeline.{
  answers, answered, turns, feeds, connects, takes, delivers, hands, step, Reach, here, next, pick,
  turn, turn_at, fetch, begin_batch, feed, connect, take_job, deliver, hand,
}
use sampmail.Campaign.Pipeline.Shared.{Recipient, pending, State, start, pending_of, sent_result}

module _ (m : List (Text × Bool)) (pool : ℕ) (id : ℕ) (email : Text) where
  abbrev pub one : Recipient
  one = record { id = id; email = email; status = pending }

  abbrev pub begun : State
  begun = start 1 (one ∷ [])

  abbrev pub connected : State
  connected = record begun { starting = 0; workers = 1 }

  abbrev pub fetched : State
  fetched = record connected { batch = one ∷ []; suppressed_map = m; queries = (one ∷ [], m) ∷ [] }

  abbrev pub fed : State
  fed = record fetched { batch = []; jobs = one ∷ [] }

  abbrev pub fetched_again : State
  fetched_again = record fed { batch = one ∷ []; queries = (one ∷ [], m) ∷ (one ∷ [], m) ∷ [] }

  abbrev pub fed_again : State
  fed_again = record fetched_again { batch = []; jobs = one ∷ one ∷ [] }

  abbrev pub works : State
  works = record fed_again { jobs = one ∷ []; working = one ∷ [] }

  abbrev pub mailed_once : State
  mailed_once = record works {
    working = [];
    jobs = one ∷ [];
    mailed = one ∷ [];
    outbox = sent_result one ∷ [];
  }

  abbrev pub handed : State
  handed = record mailed_once { outbox = []; results = sent_result one ∷ [] }

  abbrev pub works_again : State
  works_again = record handed { jobs = []; working = one ∷ [] }

  abbrev pub mailed_twice : State
  mailed_twice = record handed { jobs = []; mailed = one ∷ one ∷ []; outbox = sent_result one ∷ [] }

  -- For every recipient who is not suppressed, a campaign with that one recipient and one worker has
  -- a run of its goroutines, with no failure of the database or the mail server and no command of the
  -- user, that mails the recipient twice.
  pub mailed_twice_lem :
      0 < pool → flagged (to_lower email) m ≡ false → Reach pool begun mailed_twice
  unfolding step start turn turn_at fetch begin_batch pending_of feed connect take_job deliver hand
      pick gate
  mailed_twice_lem h wanted =
      let r1 : Reach pool begun connected = next here (connects true) refl in
      let r2 : Reach pool begun fetched = next r1 (turns (answers (some m))) refl in
      let r3 : Reach pool begun fed = next r2 feeds (ground arith) in
      let r4 : Reach pool begun fetched_again = next r3 (turns (answers (some m))) refl in
      let r5 : Reach pool begun fed_again = next r4 feeds (ground arith) in
      let r6 : Reach pool begun works = next r5 takes refl in
      let r7 : Reach pool begun mailed_once = next r6 (delivers 0 answered) refl in
      let r8 : Reach pool begun handed = next r7 (hands 0) (ground arith) in
      let r9 : Reach pool begun works_again = next r8 takes refl in
      next r9 (delivers 0 answered) refl
