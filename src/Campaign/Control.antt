-- ===== src/Campaign/Control.antt =====
-- internal/core/campaign.go: `CampaignControl` and the map of running campaigns. A channel that is
-- only closed is a Boolean, true once closed. Closing it again is a panic, which the deferred unlocks
-- outlive: what was written before it stays. The map's values are its only pointers besides the one
-- that the campaign's own goroutine holds, so the map holds the controls themselves.
pub mod Commands
mod Tests
use sampmail.Prelude.{
  ℕ, Bool, true, false, Option, none, some, List, [], ◌∷◌, String, nat_eq, if◌then◌else◌,
}
use sampmail.Prelude.Map

pub record Control : Type 0 where
  pub is_paused : Bool
  pub is_cancelled : Bool
  pub paused_chan : Bool
  pub resumed_chan : Bool
  pub cancelled_chan : Bool

abbrev pub new_control : Control
new_control = record {
  is_paused = false;
  is_cancelled = false;
  paused_chan = false;
  resumed_chan = false;
  cancelled_chan = false;
}

abbrev pub Running : Type 0
Running = List (ℕ × Control)

-- What a command comes to: no error, the error that the campaign is not there, or a panic.
pub data Reply : Type 0 where
  fine not_running panics : Reply

-- GetCampaignControl
unfoldable pub get_campaign_control : ℕ → Running → Running × Control
get_campaign_control id running = elim (Map.lookup id running) [
  | some ctrl ↦ (running, ctrl)
  | none ↦ (Map.insert id new_control running, new_control)
]

-- RemoveCampaignControl
unfoldable pub remove_campaign_control : ℕ → Running → Running
remove_campaign_control id running = Map.remove id running

-- IsCampaignPaused
unfoldable pub is_campaign_paused : ℕ → Running → Bool
is_campaign_paused id running = elim (Map.lookup id running) [
  | some ctrl ↦ ctrl.is_paused
  | none ↦ false
]

-- close(ch): a panic if the channel is closed already
abbrev pub close_reply : Bool → Reply
close_reply true = panics
close_reply false = fine

-- PauseCampaign, on a control that is there
unfoldable pub pause : Control → Control × Reply
pause ctrl = (record ctrl { is_paused = true; paused_chan = true }, close_reply ctrl.paused_chan)

-- ResumeCampaign: the channel for pauses is made anew, the one for resumes is not.
unfoldable pub resume : Control → Control × Reply
resume ctrl = (
  record ctrl { is_paused = false; paused_chan = false; resumed_chan = true },
  close_reply ctrl.resumed_chan,
)

-- CancelCampaign
unfoldable pub cancel : Control → Control × Reply
cancel ctrl =
    (record ctrl { is_cancelled = true; cancelled_chan = true }, close_reply ctrl.cancelled_chan)

-- The three functions on the map of running campaigns share the lookup and the error.
unfoldable pub on_running : (Control → Control × Reply) → ℕ → Running → Running × Reply
on_running f id running = elim (Map.lookup id running) [
  | some ctrl ↦ let (ctrl', reply) = f ctrl in (Map.insert id ctrl' running, reply)
  | none ↦ (running, not_running)
]

unfoldable pub pause_campaign : ℕ → Running → Running × Reply
unfolding on_running pause
pause_campaign = on_running pause

unfoldable pub resume_campaign : ℕ → Running → Running × Reply
unfolding on_running resume
resume_campaign = on_running resume

unfoldable pub cancel_campaign : ℕ → Running → Running × Reply
unfolding on_running cancel
cancel_campaign = on_running cancel

abbrev pub status_of : Control → String
status_of ctrl =
    if ctrl.is_cancelled then "cancelled" else if ctrl.is_paused then "paused" else "sending"

-- GetCampaignStatus
unfoldable pub get_campaign_status : ℕ → Running → String × Bool
get_campaign_status id running = elim (Map.lookup id running) [
  | some ctrl ↦ (status_of ctrl, true)
  | none ↦ ("", false)
]

-- What the feeder does at the top of its loop, by the flags and by whether the channel that it waits
-- on is closed: a wait ends after five seconds, and the flags are read again.
pub data Gate : Type 0 where
  stop wait go : Gate

unfoldable pub gate : Control → Gate
gate ctrl =
    if ctrl.is_cancelled
    then stop
    else if ctrl.is_paused
    then (if ctrl.resumed_chan then go else wait)
    else go
