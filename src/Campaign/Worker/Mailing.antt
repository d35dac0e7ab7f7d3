-- ===== src/Campaign/Worker/Mailing.antt =====
-- internal/core/campaign.go: what `sendSingleRecipient` answers, and what it leaves behind.
use sampmail.Prelude.{
  ℕ, ◌<◌, ◌≡◌, refl, ap, Bool, true, false, ◌&&◌, none, some, List, [], ◌∷◌, ◌++◌, length,
  get_elem?, get_elem?-set_self, get_elem?-append, set, arith,
}
use sampmail.Campaign.Worker.{
  Closing, taken, turned_down, lost, Answers, Reply, sent, failed, panicked, Worker, is_open,
  or_closed, reconnect, close_data, after_mail, send_single_recipient,
}

abbrev pub is_sent : Reply → Bool
is_sent sent = true
is_sent panicked = false
is_sent (failed e) = false

abbrev pub is_taken : Closing → Bool
is_taken taken = true
is_taken turned_down = false
is_taken lost = false

-- The server said yes to every step.
abbrev pub all_accepted : Answers → Bool
all_accepted a = a.mail && (a.rcpt && (a.data_cmd && (a.write && is_taken a.close)))

-- The client of the worker is one that it made.
abbrev pub IsMade : Worker → Type 0
IsMade w = elim w.client [ none ↦ Unit {0} | some c ↦ c < length w.clients ]

closed_stays :
    (c : ℕ) (clients more : List Bool)
    → c < length clients
    → or_closed (get_elem? (set clients c false ++ more) c) ≡ false
closed_stays c clients more h =
    ap or_closed
      (get_elem?-append (set clients c false) more c (get_elem?-set_self clients c false h))

pub reconnect-closes :
    (c : ℕ) (dial greet : Bool) (w : Worker)
    → w.client ≡ some c
    → c < length w.clients
    → is_open c (reconnect dial greet w).1 ≡ false
unfolding reconnect
reconnect-closes c true true w e h = rw e (closed_stays c w.clients (true ∷ []) h)
reconnect-closes c true false w e h = rw e (ap or_closed (get_elem?-set_self w.clients c false h))
reconnect-closes c false greet w e h = rw e (ap or_closed (get_elem?-set_self w.clients c false h))

close_data-is_sent :
    (id : ℕ) (a : Closing) (w : Worker) → is_sent (close_data id a w).0 ≡ is_taken a
close_data-is_sent id taken w = refl
close_data-is_sent id turned_down w = refl
close_data-is_sent id lost w = refl

after_mail-is_sent :
    (id c : ℕ) (a : Answers) (w : Worker)
    → is_sent (after_mail id c a w).0
      ≡ (is_open c w && (a.rcpt && (a.data_cmd && (a.write && is_taken a.close))))
unfolding after_mail
after_mail-is_sent id c a w = ground (arith, close_data-is_sent id a.close w)

-- A worker's client, as the worker has it, mails a recipient exactly when it is open and the server
-- accepts the MAIL, the recipient, the DATA command and the text. The reconnection that follows a MAIL
-- without success changes nothing about it: the call goes on with the client that was closed.
pub send_single_recipient-is_sent :
    (id c : ℕ) (a : Answers) (w : Worker)
    → w.client ≡ some c
    → c < length w.clients
    → is_sent (send_single_recipient id (some c) a w).0 ≡ (is_open c w && all_accepted a)
unfolding send_single_recipient
send_single_recipient-is_sent id c a w e h =
    ground (arith, after_mail-is_sent id c a w, reconnect-closes c a.dial a.greet w e h)
