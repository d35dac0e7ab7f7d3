-- ===== src/Campaign/Control/Commands.antt =====
-- internal/core/campaign.go: sequences of commands to one running campaign.
use sampmail.Prelude.{
  ℕ, suc, ◌≤◌, ◌≡◌, refl, Bool, true, false, ◌||◌, none, some, List, [], ◌∷◌, nat_eq, ◌==◌, arith,
  Option-cases, inl, inr, if◌then◌else◌,
}
use sampmail.Prelude.Map
use sampmail.Prelude.Map.{lookup-insert}
use sampmail.Campaign.Control.{
  Control, new_control, Running, Reply, fine, not_running, panics, pause, resume, cancel,
  on_running, pause_campaign, resume_campaign, cancel_campaign, get_campaign_status, status_of,
  stop, wait, go, gate,
}

pub data Command : Type 0 where
  pauses resumes cancels : Command

unfoldable pub command : Command → Control → Control × Reply
command pauses ctrl = pause ctrl
command resumes ctrl = resume ctrl
command cancels ctrl = cancel ctrl

pub command_campaign : Command → ℕ → Running → Running × Reply
command_campaign pauses = pause_campaign
command_campaign resumes = resume_campaign
command_campaign cancels = cancel_campaign

-- Commands in order, each answered, also after one that panicked.
unfoldable pub commands : List Command → Control → Control × List Reply
unfolding command
commands [] ctrl = (ctrl, [])
commands (c ∷ cs) ctrl =
    let (ctrl', reply) = command c ctrl in
    let (ctrl'', replies) = commands cs ctrl' in (ctrl'', reply ∷ replies)

-- Independent readings of a list of commands: was one of them a cancel, a resume, and is a pause or a
-- resume the last of the two.
abbrev pub is_resume : Command → Bool
is_resume resumes = true
is_resume pauses = false
is_resume cancels = false

abbrev pub is_cancel : Command → Bool
is_cancel cancels = true
is_cancel pauses = false
is_cancel resumes = false

unfoldable pub any : (Command → Bool) → List Command → Bool
any p [] = false
any p (c ∷ cs) = p c || any p cs

abbrev pub last_word : Bool → Command → Bool
last_word paused pauses = true
last_word paused resumes = false
last_word paused cancels = paused

unfoldable pub paused_by : Bool → List Command → Bool
paused_by paused [] = paused
paused_by paused (c ∷ cs) = paused_by (last_word paused c) cs

commands_flags :
    (cs : List Command) (ctrl : Control)
    → ((commands cs ctrl).0.is_paused ≡ paused_by ctrl.is_paused cs)
      × ((commands cs ctrl).0.is_cancelled ≡ (ctrl.is_cancelled || any is_cancel cs))
      × ((commands cs ctrl).0.resumed_chan ≡ (ctrl.resumed_chan || any is_resume cs))
unfolding commands command pause resume cancel any paused_by
commands_flags [] ctrl = ground arith
commands_flags (pauses ∷ cs) ctrl = ground (arith, commands_flags cs (pause ctrl).0)
commands_flags (resumes ∷ cs) ctrl = ground (arith, commands_flags cs (resume ctrl).0)
commands_flags (cancels ∷ cs) ctrl = ground (arith, commands_flags cs (cancel ctrl).0)

-- After any commands to a new control, panics included, the status that is shown is "cancelled" if one
-- of them was a cancel, else "paused" if the last pause or resume was a pause, else "sending".
pub commands_status :
    (cs : List Command)
    → status_of (commands cs new_control).0 ≡ (
        if any is_cancel cs
        then "cancelled"
        else if paused_by false cs
        then "paused"
        else "sending")
commands_status cs = ground (arith, commands_flags cs new_control)

abbrev pub count_fine_resumes : List Command → List Reply → ℕ
count_fine_resumes [] replies = 0
count_fine_resumes (c ∷ cs) [] = 0
count_fine_resumes (resumes ∷ cs) (fine ∷ replies) = suc (count_fine_resumes cs replies)
count_fine_resumes (resumes ∷ cs) (not_running ∷ replies) = count_fine_resumes cs replies
count_fine_resumes (resumes ∷ cs) (panics ∷ replies) = count_fine_resumes cs replies
count_fine_resumes (pauses ∷ cs) (r ∷ replies) = count_fine_resumes cs replies
count_fine_resumes (cancels ∷ cs) (r ∷ replies) = count_fine_resumes cs replies

fine_resumes_left :
    (cs : List Command) (ctrl : Control)
    → count_fine_resumes cs (commands cs ctrl).1 ≤ (if ctrl.resumed_chan then 0 else 1)
unfolding commands command pause resume cancel
fine_resumes_left [] ctrl = ground arith
fine_resumes_left (pauses ∷ cs) ctrl = ground (arith, fine_resumes_left cs (pause ctrl).0)
fine_resumes_left (resumes ∷ cs) ctrl = ground (arith, fine_resumes_left cs (resume ctrl).0)
fine_resumes_left (cancels ∷ cs) ctrl = ground (arith, fine_resumes_left cs (cancel ctrl).0)

-- Of any commands to one control at most one resume is answered without a panic: a campaign can be
-- resumed once.
pub resume_once : (cs : List Command) → count_fine_resumes cs (commands cs new_control).1 ≤ 1
resume_once cs = fine_resumes_left cs new_control

-- The feeder waits after any commands to a new control exactly when there is no cancel, no resume was
-- ever given, and a pause was: after the first resume a pause holds nothing back.
pub gate-commands :
    (cs : List Command)
    → gate (commands cs new_control).0 ≡ (
        if any is_cancel cs
        then stop
        else if paused_by false cs
        then (if any is_resume cs then go else wait)
        else go)
unfolding gate
gate-commands cs = ground (arith, commands_flags cs new_control)

-- A command to a running campaign is the command to its control, and touches no other campaign; to
-- one that is not running it is an error that changes nothing.
pub command_campaign_lem :
    (c : Command) (id : ℕ) (running : Running)
    → ((ctrl : Control)
        → Map.lookup id running ≡ some ctrl
        → command_campaign c id running
          ≡ (Map.insert id (command c ctrl).0 running, (command c ctrl).1))
      × (Map.lookup id running ≡ none → command_campaign c id running ≡ (running, not_running))
unfolding command_campaign command pause_campaign resume_campaign cancel_campaign
command_campaign_lem pauses id running =
    (λ ctrl e. rw (e, on_running) refl, λ e. rw (e, on_running) refl)
command_campaign_lem resumes id running =
    (λ ctrl e. rw (e, on_running) refl, λ e. rw (e, on_running) refl)
command_campaign_lem cancels id running =
    (λ ctrl e. rw (e, on_running) refl, λ e. rw (e, on_running) refl)

on_running_other :
    (f : Control → Control × Reply) (id other : ℕ) (running : Running)
    → (id == other) ≡ false
    → Map.lookup other (on_running f id running).0 ≡ Map.lookup other running
unfolding on_running
on_running_other f id other running h = elim (Option-cases (Map.lookup id running)) [
  | inl e ↦ rw (e, on_running) refl
  | inr (ctrl, e) ↦ rw (e, on_running) (rw (lookup-insert id other (f ctrl).0 running, h) refl)
]

command_campaign-lookup :
    (c : Command) (id other : ℕ) (running : Running)
    → (id == other) ≡ false
    → Map.lookup other (command_campaign c id running).0 ≡ Map.lookup other running
unfolding command_campaign pause_campaign resume_campaign cancel_campaign
command_campaign-lookup pauses id other running h = on_running_other pause id other running h
command_campaign-lookup resumes id other running h = on_running_other resume id other running h
command_campaign-lookup cancels id other running h = on_running_other cancel id other running h

-- A command changes the status that is shown for its own campaign alone.
pub command_campaign_other :
    (c : Command) (id other : ℕ) (running : Running)
    → (id == other) ≡ false
    → get_campaign_status other (command_campaign c id running).0
      ≡ get_campaign_status other running
unfolding get_campaign_status
command_campaign_other c id other running h =
    rw (command_campaign-lookup c id other running h, get_campaign_status) refl
