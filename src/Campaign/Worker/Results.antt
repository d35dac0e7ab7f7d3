-- ===== src/Campaign/Worker/Results.antt =====
-- internal/core/campaign.go: the results that `sendWorker` hands on, against what the server took.
use sampmail.Prelude.{
  ℕ, ◌≡◌, refl, sym, ap, ◌∙◌, Bool, true, false, Option, none, some, List, [], ◌∷◌, ◌++◌, All,
  if◌then◌else◌, arith, Bool-cases, inl, inr,
}
use mathlib.Core.List.{append_assoc, append-nil}
use sampmail.Campaign.Worker.{
  Closing, taken, turned_down, lost, Answers, Reply, sent, failed, panicked, Worker, reconnect,
  close_data, after_mail, send_single_recipient, Job, is_panic, send_jobs, send_worker, idle,
}
use sampmail.Campaign.Worker.Mailing.{is_sent}

abbrev pub is_lost : Closing → Bool
is_lost taken = false
is_lost turned_down = false
is_lost lost = true

-- The server's answer to the text arrives.
abbrev pub IsAnswered : Job → Type 0
IsAnswered j = is_lost j.answers.close ≡ false

-- The recipients whose result says sent.
unfoldable pub sent_ids : List (ℕ × Reply) → List ℕ
sent_ids [] = []
sent_ids (r ∷ rs) = let rest = sent_ids rs in if is_sent r.1 then r.0 ∷ rest else rest

-- What a call adds to the mails that the server has.
abbrev added : ℕ → Reply → List ℕ
added id r = if is_sent r then id ∷ [] else []

added_panic : (id : ℕ) (r : Reply) → is_panic r ≡ true → added id r ≡ []
added_panic id panicked h = refl
added_panic id sent h = absurd (ground arith)
added_panic id (failed e) h = absurd (ground arith)

close_data-accepted :
    (id : ℕ) (a : Closing) (w : Worker)
    → is_lost a ≡ false
    → (close_data id a w).1.accepted ≡ w.accepted ++ added id (close_data id a w).0
close_data-accepted id taken w h = refl
close_data-accepted id turned_down w h = sym (append-nil w.accepted)
close_data-accepted id lost w h = absurd (ground arith)

after_mail-accepted :
    (id c : ℕ) (a : Answers) (w : Worker)
    → is_lost a.close ≡ false
    → (after_mail id c a w).1.accepted ≡ w.accepted ++ added id (after_mail id c a w).0
unfolding after_mail
after_mail-accepted id c a w h =
    ground (arith, close_data-accepted id a.close w h, append-nil w.accepted)

reconnect-accepted :
    (dial greet : Bool) (w : Worker) → (reconnect dial greet w).1.accepted ≡ w.accepted
unfolding reconnect
reconnect-accepted true true w = refl
reconnect-accepted true false w = refl
reconnect-accepted false greet w = refl

send-accepted :
    (id : ℕ) (client : Option ℕ) (a : Answers) (w : Worker)
    → is_lost a.close ≡ false
    → (send_single_recipient id client a w).1.accepted
      ≡ w.accepted ++ added id (send_single_recipient id client a w).0
unfolding send_single_recipient
send-accepted id none a w h = sym (append-nil w.accepted)
send-accepted id (some c) a w h = ground (
  arith,
  after_mail-accepted id c a w h,
  after_mail-accepted id c a (reconnect a.dial a.greet w).1 h,
  reconnect-accepted a.dial a.greet w,
  append-nil w.accepted,
)

sent_ids_cons :
    (id : ℕ) (r : Reply) (rs : List (ℕ × Reply))
    → added id r ++ sent_ids rs ≡ sent_ids ((id, r) ∷ rs)
unfolding sent_ids
sent_ids_cons id r rs = ground arith

send_jobs-accepted :
    (js : List Job) (w : Worker)
    → All IsAnswered js
    → (send_jobs js w).worker.accepted ≡ w.accepted ++ sent_ids (send_jobs js w).results
unfolding send_jobs sent_ids
send_jobs-accepted [] w h = sym (append-nil w.accepted)
send_jobs-accepted (j ∷ js) w h =
    let answer = send_single_recipient j.id w.client j.answers w in
    let once = send-accepted j.id w.client j.answers w h.0 in
    elim (Bool-cases j.cancelled) [
      | inl stop ↦ rw stop (sym (append-nil w.accepted))
      | inr go ↦ elim (Bool-cases (is_panic answer.0)) [
        | inl panic ↦
            rw (go, panic) (once ∙ ap (λ u. w.accepted ++ u) (added_panic j.id answer.0 panic))
        | inr alive ↦
            rw (go, alive)
              (send_jobs-accepted js answer.1 h.1
                ∙ ap (λ u. u ++ sent_ids (send_jobs js answer.1).results) once
                ∙ append_assoc w.accepted (added j.id answer.0)
                    (sent_ids (send_jobs js answer.1).results)
                ∙ ap (λ u. w.accepted ++ u)
                    (sent_ids_cons j.id answer.0 (send_jobs js answer.1).results))
      ]
    ]

-- Where the answer to each text arrives, the recipients whose result says sent are, in order, those
-- whose mail the server has taken, however the worker's run ends.
pub send_worker-accepted :
    (dial greet : Bool) (jobs : List Job)
    → All IsAnswered jobs
    → (send_worker dial greet jobs).worker.accepted ≡ sent_ids (send_worker dial greet jobs).results
unfolding send_worker sent_ids
send_worker-accepted dial greet jobs h = ground (
  arith,
  send_jobs-accepted jobs (reconnect dial greet idle).1 h,
  reconnect-accepted dial greet idle,
)
