-- ===== src/Campaign/Worker/Crash.antt =====
-- internal/core/campaign.go: when `sendWorker` answers every job, and when it ends the program.
use sampmail.Prelude.{
  ℕ, ◌≡◌, refl, ap, Bool, true, false, not, ◌&&◌, Option, none, some, List, [], ◌∷◌, map, All,
  arith,
}
use sampmail.Campaign.Worker.{
  Closing, taken, turned_down, lost, Answers, failed, connection_failed, Worker, reconnect,
  close_data, after_mail, send_single_recipient, Job, all_done, crashed, is_panic, send_jobs,
  send_worker, idle,
}

-- A dial that succeeds is greeted.
abbrev pub IsGreeted : Job → Type 0
IsGreeted j = (j.answers.dial && not j.answers.greet) ≡ false

abbrev pub IsRunning : Job → Type 0
IsRunning j = j.cancelled ≡ false

abbrev has_client : Option ℕ → Bool
has_client none = false
has_client (some c) = true

close_data-alive :
    (id : ℕ) (a : Closing) (w : Worker)
    → ((close_data id a w).1.client ≡ w.client) × (is_panic (close_data id a w).0 ≡ false)
close_data-alive id taken w = (refl, refl)
close_data-alive id turned_down w = (refl, refl)
close_data-alive id lost w = (refl, refl)

after_mail-alive :
    (id c : ℕ) (a : Answers) (w : Worker)
    → ((after_mail id c a w).1.client ≡ w.client) × (is_panic (after_mail id c a w).0 ≡ false)
unfolding after_mail
after_mail-alive id c a w =
    let end = close_data-alive id a.close w in (ground (arith, end.0), ground (arith, end.1))

reconnect-has_client :
    (dial greet : Bool) (w : Worker)
    → (dial && not greet) ≡ false
    → has_client w.client ≡ true
    → has_client (reconnect dial greet w).1.client ≡ true
unfolding reconnect
reconnect-has_client true true w g h = refl
reconnect-has_client true false w g h = absurd (ground arith)
reconnect-has_client false greet w g h = h

send-alive :
    (id : ℕ) (client : Option ℕ) (a : Answers) (w : Worker)
    → (a.dial && not a.greet) ≡ false
    → has_client w.client ≡ true
    → client ≡ w.client
    → (has_client (send_single_recipient id client a w).1.client ≡ true)
      × (is_panic (send_single_recipient id client a w).0 ≡ false)
unfolding send_single_recipient
send-alive id none a w g h e = absurd (ground (arith, h, e))
send-alive id (some c) a w g h e =
    let renewed = reconnect a.dial a.greet w in
    let old = after_mail-alive id c a w in
    let new = after_mail-alive id c a renewed.1 in
    let kept = reconnect-has_client a.dial a.greet w g h in
    (ground (arith, old.0, new.0, kept, h), ground (arith, old.1, new.1))

send_jobs-all_done :
    (js : List Job) (w : Worker)
    → All IsRunning js
    → All IsGreeted js
    → has_client w.client ≡ true
    → ((send_jobs js w).ended ≡ all_done)
      × (map (λ r. r.0) (send_jobs js w).results ≡ map (λ j. j.id) js)
unfolding send_jobs
send_jobs-all_done [] w r g h = (refl, refl)
send_jobs-all_done (j ∷ js) w r g h =
    let answer = send_single_recipient j.id w.client j.answers w in
    let alive = send-alive j.id w.client j.answers w g.0 h refl in
    let rest = send_jobs-all_done js answer.1 r.1 g.1 alive.0 in
    rw (r.0, alive.1) (rest.0, ap (λ ids. j.id ∷ ids) rest.1)

-- A worker that connects, of a campaign that is not cancelled, hands on one result for each job, in
-- order, whatever the mail server answers, where no dial of a reconnection succeeds without a greeting.
pub send_worker-all_done :
    (jobs : List Job)
    → All IsRunning jobs
    → All IsGreeted jobs
    → ((send_worker true true jobs).ended ≡ all_done)
      × (map (λ r. r.0) (send_worker true true jobs).results ≡ map (λ j. j.id) jobs)
unfolding send_worker reconnect
send_worker-all_done jobs r g = send_jobs-all_done jobs (reconnect true true idle).1 r g refl

-- A worker whose first MAIL fails, and whose reconnection is accepted but not greeted, ends the program
-- at its next job, whatever the answers to that one and whatever jobs follow.
pub send_worker-crashes :
    (first second : Job) (jobs : List Job)
    → IsRunning first
    → IsRunning second
    → first.answers.mail ≡ false
    → first.answers.dial ≡ true
    → first.answers.greet ≡ false
    → ((send_worker true true (first ∷ second ∷ jobs)).ended ≡ crashed)
      × ((send_worker true true (first ∷ second ∷ jobs)).results
          ≡ (first.id, failed connection_failed) ∷ [])
unfolding send_worker send_jobs send_single_recipient reconnect
send_worker-crashes first second jobs r₁ r₂ m d g = rw (r₁, r₂, m, d, g) (refl, refl)
