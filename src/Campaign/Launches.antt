-- ===== src/Campaign/Launches.antt =====
-- internal/core/campaign.go: how a campaign comes to run: `StartScheduledCampaigns` and
-- `ResumeInterruptedCampaigns` over the table of campaigns, and the two ends of `StartCampaign`. A step
-- is one access to the database with what follows it; schedulers and requests may interleave in any
-- way. The checks of `StartCampaign` after its first one are given with the step.
pub mod Once
mod Tests
use sampmail.Prelude.{
  ℕ, ◌+◌, Bool, true, false, not, ◌&&◌, ◌||◌, Option, none, some, List, [], ◌∷◌, ◌++◌, nat_eq, ◌==◌,
  if◌then◌else◌,
}
use sampmail.Prelude.Map
use sampmail.Campaign.Pipeline.{
  CampaignStatus, draft, scheduled, sending, paused, completed, campaign_cancelled, campaign_failed,
}

-- The table of campaigns, the requests to start one that passed the checks and did not save yet, and
-- the campaigns whose processing was started, one entry for each `go processCampaignWithPool`.
pub record Server : Type 0 where
  pub table : List (ℕ × CampaignStatus)
  pub starters : List ℕ
  pub launched : List ℕ

abbrev pub status_of : ℕ → Server → Option CampaignStatus
status_of id s = Map.lookup id s.table

abbrev pub is_scheduled : Option CampaignStatus → Bool
is_scheduled (some scheduled) = true
is_scheduled _ = false

abbrev pub is_sending : CampaignStatus → Bool
is_sending sending = true
is_sending _ = false

-- The check at the head of StartCampaign.
abbrev pub may_start : Option CampaignStatus → Bool
may_start none = false
may_start (some sending) = false
may_start (some completed) = false
may_start (some _) = true

abbrev pub set_sending : ℕ → Server → Server
set_sending id s = record s { table = Map.insert id sending s.table }

abbrev pub launch : ℕ → Server → Server
launch id s = record s { launched = s.launched ++ id ∷ [] }

-- One round of the loop of StartScheduledCampaigns, for a campaign that its query found at some time
-- before: the update with its condition, and the load.
unfoldable pub claim : ℕ → Bool → Bool → Server → Server
claim id updates loads s =
    if updates && is_scheduled (status_of id s)
    then if loads then launch id (set_sending id s) else set_sending id s
    else s

-- ResumeInterruptedCampaigns, with the loads that succeed, and whether the query for the campaigns does.
unfoldable pub resume_all : (ℕ → Bool) → List (ℕ × CampaignStatus) → List ℕ
resume_all loads [] = []
resume_all loads ((id, status) ∷ rows) =
    let rest = resume_all loads rows in if is_sending status && loads id then id ∷ rest else rest

unfoldable pub resume_interrupted_campaigns : Bool → (ℕ → Bool) → Server → Server
unfolding resume_all
resume_interrupted_campaigns up loads s =
    if up then record s { launched = s.launched ++ resume_all loads s.table } else s

-- The two ends of StartCampaign: it reads the campaign and checks it; it saves the status and goes.
unfoldable pub start_reads : ℕ → Bool → Server → Server
start_reads id passes s =
    if may_start (status_of id s) && passes
    then record s { starters = s.starters ++ id ∷ [] }
    else s

abbrev pub without_first : ℕ → List ℕ → Option (List ℕ)
without_first id [] = none
without_first id (x ∷ xs) =
    let rest = without_first id xs in
    if x == id then some xs else elim rest [ none ↦ none | some ys ↦ some (x ∷ ys) ]

unfoldable pub start_saves : ℕ → Server → Server
start_saves id s = elim (without_first id s.starters) [
  | none ↦ s
  | some rest ↦ launch id (set_sending id (record s { starters = rest }))
]

-- A step of a scheduler: the campaign, and whether the update and the load succeed.
pub record Claim : Type 0 where
  pub id : ℕ
  pub updates : Bool
  pub loads : Bool

unfoldable pub claims : List Claim → Server → Server
unfolding claim
claims [] s = s
claims (c ∷ cs) s = claims cs (claim c.id c.updates c.loads s)

unfoldable pub count_launches : ℕ → List ℕ → ℕ
count_launches id [] = 0
count_launches id (x ∷ xs) = (if x == id then 1 else 0) + count_launches id xs
