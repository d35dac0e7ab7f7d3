-- ===== src/Campaign/Worker.antt =====
-- internal/core/campaign.go: `sendWorker` on its path over SMTP, and `sendSingleRecipient` with the
-- calls of net/smtp. What the network and the mail server answer is given with each job; a call on a
-- client that was closed fails by itself, and a call on none ends the program. The text of the message
-- is not part of the model. A connection is closed together with its client.
pub mod Mailing
pub mod Results
pub mod Crash
mod Tests
use sampmail.Prelude.{
  ℕ, ◌+◌, Bool, true, false, ◌&&◌, Option, none, some, List, [], ◌∷◌, ◌++◌, length, get_elem?, set,
  if◌then◌else◌,
}

-- The end of DATA: the server takes the mail or turns it down, or takes it and the answer is lost.
pub data Closing : Type 0 where
  taken turned_down lost : Closing

-- The answers to the calls for one job, in the order of the code.
pub record Answers : Type 0 where
  pub mail : Bool
  pub dial : Bool
  pub greet : Bool
  pub mail_again : Bool
  pub rcpt : Bool
  pub data_cmd : Bool
  pub write : Bool
  pub close : Closing

pub data SendError : Type 0 where
  connection_failed mail_cmd_failed rcpt_rejected data_failed write_failed close_failed : SendError

pub data Reply : Type 0 where
  sent panicked : Reply
  failed : SendError → Reply

-- The clients that the worker has made, by their number, with true for an open one; the variable
-- `client`; and the recipients whose mail the server has taken.
pub record Worker : Type 0 where
  pub clients : List Bool
  pub client : Option ℕ
  pub accepted : List ℕ

abbrev pub or_closed : Option Bool → Bool
or_closed none = false
or_closed (some b) = b

abbrev pub is_open : ℕ → Worker → Bool
is_open c w = or_closed (get_elem? w.clients c)

abbrev pub close_client : Option ℕ → List Bool → List Bool
close_client none clients = clients
close_client (some c) clients = set clients c false

-- The closure `reconnect`, on the variables of the worker.
unfoldable pub reconnect : Bool → Bool → Worker → Bool × Worker
reconnect dial greet w =
    let clients = close_client w.client w.clients in
    if dial
    then if greet
      then (true, record w { clients = clients ++ true ∷ []; client = some (length clients) })
      else (false, record w { clients = clients; client = none })
    else (false, record w { clients = clients })

abbrev pub accept : ℕ → Worker → Worker
accept id w = record w { accepted = w.accepted ++ id ∷ [] }

abbrev pub close_data : ℕ → Closing → Worker → Reply × Worker
close_data id taken w = (sent, accept id w)
close_data id turned_down w = (failed close_failed, w)
close_data id lost w = (failed close_failed, accept id w)

-- After MAIL. The client is the argument, not the variable.
unfoldable pub after_mail : ℕ → ℕ → Answers → Worker → Reply × Worker
after_mail id c a w =
    if is_open c w && a.rcpt
    then if is_open c w && a.data_cmd
      then if a.write then close_data id a.close w else (failed write_failed, w)
      else (failed data_failed, w)
    else (failed rcpt_rejected, w)

-- sendSingleRecipient
unfoldable pub send_single_recipient : ℕ → Option ℕ → Answers → Worker → Reply × Worker
unfolding reconnect after_mail
send_single_recipient id none a w = (panicked, w)
send_single_recipient id (some c) a w =
    let renewed = reconnect a.dial a.greet w in
    if is_open c w && a.mail
    then after_mail id c a w
    else if renewed.0
    then if is_open c renewed.1 && a.mail_again
      then after_mail id c a renewed.1
      else (failed mail_cmd_failed, renewed.1)
    else (failed connection_failed, renewed.1)

-- A job: the recipient, whether the campaign is cancelled when it is taken, and the answers.
pub record Job : Type 0 where
  pub id : ℕ
  pub cancelled : Bool
  pub answers : Answers

pub data Ended : Type 0 where
  all_done stopped crashed not_connected : Ended

-- The results that the worker hands on, its variables, and how it ended.
pub record Outcome : Type 0 where
  pub results : List (ℕ × Reply)
  pub worker : Worker
  pub ended : Ended

abbrev pub with_result : ℕ → Reply → Outcome → Outcome
with_result id r o = record o { results = (id, r) ∷ o.results }

abbrev pub is_panic : Reply → Bool
is_panic panicked = true
is_panic sent = false
is_panic (failed e) = false

-- The loop over the jobs.
unfoldable pub send_jobs : List Job → Worker → Outcome
unfolding send_single_recipient
send_jobs [] w = record { results = []; worker = w; ended = all_done }
send_jobs (j ∷ js) w =
    let answer = send_single_recipient j.id w.client j.answers w in
    let rest = send_jobs js answer.1 in
    if j.cancelled
    then record { results = []; worker = w; ended = stopped }
    else if is_panic answer.0
    then record { results = []; worker = answer.1; ended = crashed }
    else with_result j.id answer.0 rest

abbrev pub idle : Worker
idle = record { clients = []; client = none; accepted = [] }

-- sendWorker
unfoldable pub send_worker : Bool → Bool → List Job → Outcome
unfolding send_jobs reconnect
send_worker dial greet jobs =
    let connected = reconnect dial greet idle in
    if connected.0
    then send_jobs jobs connected.1
    else record { results = []; worker = connected.1; ended = not_connected }
