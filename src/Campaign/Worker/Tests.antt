-- ===== src/Campaign/Worker/Tests.antt =====
-- The claims on the worker at concrete jobs.
use sampmail.Prelude.{ℕ, ◌≡◌, refl, true, false, ◌&&◌, some, List, [], ◌∷◌, map, arith}
use sampmail.Campaign.Worker.{
  Answers, taken, failed, connection_failed, Worker, is_open, send_single_recipient, Job, all_done,
  crashed, send_worker,
}
use sampmail.Campaign.Worker.Mailing.{is_sent, all_accepted, send_single_recipient-is_sent}
use sampmail.Campaign.Worker.Results.{sent_ids, send_worker-accepted}
use sampmail.Campaign.Worker.Crash.{send_worker-all_done, send_worker-crashes}

abbrev fine : Answers
fine = record {
  mail = true;
  dial = true;
  greet = true;
  mail_again = true;
  rcpt = true;
  data_cmd = true;
  write = true;
  close = taken;
}

-- The server has hung up, and answers a new connection.
abbrev hung_up : Answers
hung_up = record fine { mail = false }

abbrev no_greeting : Answers
no_greeting = record fine { mail = false; greet = false }

abbrev job : ℕ → Answers → Job
job id a = record { id = id; cancelled = false; answers = a }

abbrev connected : Worker
connected = record { clients = true ∷ []; client = some 0; accepted = [] }

-- The job after the hang-up fails on the closed client, and the next one is mailed.
abbrev jobs : List Job
jobs = job 1 fine ∷ job 2 hung_up ∷ job 3 fine ∷ []

send_single_recipient-is_sent_example :
    is_sent (send_single_recipient 2 (some 0) hung_up connected).0
    ≡ (is_open 0 connected && all_accepted hung_up)
send_single_recipient-is_sent_example =
    send_single_recipient-is_sent 2 0 hung_up connected refl (omega arith)

send_worker-accepted_example :
    (send_worker true true jobs).worker.accepted ≡ sent_ids (send_worker true true jobs).results
send_worker-accepted_example = send_worker-accepted true true jobs (refl, (refl, (refl, tt)))

jobs_sent : sent_ids (send_worker true true jobs).results ≡ 1 ∷ 3 ∷ []
unfolding sent_ids send_worker
jobs_sent = refl

send_worker-all_done_example :
    ((send_worker true true jobs).ended ≡ all_done)
    × (map (λ r. r.0) (send_worker true true jobs).results ≡ map (λ j. j.id) jobs)
send_worker-all_done_example =
    send_worker-all_done jobs (refl, (refl, (refl, tt))) (refl, (refl, (refl, tt)))

send_worker-crashes_example :
    ((send_worker true true (job 1 no_greeting ∷ job 2 fine ∷ [])).ended ≡ crashed)
    × ((send_worker true true (job 1 no_greeting ∷ job 2 fine ∷ [])).results
        ≡ (1, failed connection_failed) ∷ [])
send_worker-crashes_example =
    send_worker-crashes (job 1 no_greeting) (job 2 fine) [] refl refl refl refl refl
