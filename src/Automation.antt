-- ===== src/Automation.antt =====
-- internal/core/automation_engine.go and the automation types of internal/models/models_v2.go: the
-- workflows that contacts walk through. The database, the mail sender, the webhooks and the clock are
-- not the program's: `Services` gives their answers as functions of the effects that came before, the
-- latest first. The JSON of a workflow is taken as parsed. Left out: the texts of errors (each error
-- is a constructor), the fields of a log entry that only repeat the result, and `time.Time`, which is
-- a number of seconds here, with `none` for its zero value.
pub mod Values
pub mod Nodes
pub mod Walk
pub mod Engine
pub mod Invariant
pub mod Branches
pub mod Reachable
pub mod Termination
pub mod Cycles
pub mod Delays
pub mod Failures
pub mod Reentry
mod Tests
use sampmail.Prelude.{
  ℕ, ◌+◌, ◌*◌, Bool, true, false, not, Option, none, some, List, [], ◌∷◌, ◌++◌, Text, codes, ◌==◌,
  ◌||◌, ◌&&◌, text_eq, if◌then◌else◌,
}
use sampmail.Prelude.Int.{ℤ}
use sampmail.Prelude.Strings.{has_prefix, to_lower}

-- What a JSON value, or the field of a contact, is as an `interface{}`; `F` is float64.
pub data Value (F : Type 0) : Type 0 where
  nil : Value F
  text : Text → Value F
  float : F → Value F
  int : ℤ → Value F
  bool : Bool → Value F

-- models.JSONMap
abbrev pub JsonMap : Type 0 → Type 0
JsonMap F = List (Text × Value F)

pub record Node (F : Type 0) : Type 0 where
  pub id : Text
  pub node_type : Text
  pub config : JsonMap F

pub record Edge : Type 0 where
  pub source : Text
  pub target : Text
  pub source_handle : Text

pub data Status : Type 0 where
  active waiting completed failed : Status

pub data Failure : Type 0 where
  unknown_node_type contact_not_found send_error create_error delete_error update_error
        request_error :
      Failure

-- AutomationRunV2
pub record Run : Type 0 where
  pub id : ℕ
  pub automation : ℕ
  pub contact : ℕ
  pub current_node : Text
  pub status : Status
  pub nodes_visited : List Text
  pub completed_at : Option ℕ
  pub next_action_at : Option (Option ℕ)
  pub error_count : ℕ
  pub last_error : Option Failure

pub record Contact (F : Type 0) : Type 0 where
  pub organization : ℕ
  pub email : Text
  pub first_name : Text
  pub lead_score : ℤ
  pub total_opens : ℤ
  pub custom_fields : JsonMap F

-- What the engine does to the world outside it, with the arguments of the call.
pub data Effect (F : Type 0) : Type 0 where
  create_run : Run → Effect F
  save_run : Run → Effect F
  log_completed : ℕ → Text → Text → Effect F
  log_failed : ℕ → Text → Text → Failure → Effect F
  count_entered : ℕ → Effect F
  count_completed : ℕ → Effect F
  send_email : Text → Text → Text → Effect F
  create_tag : ℕ → ℤ → Effect F
  delete_tag : ℕ → ℤ → Effect F
  trigger_tag_added : ℕ → ℤ → Text → Effect F
  set_field : ℕ → Text → Value F → Effect F
  set_score : ℕ → Text → Effect F
  post : Text → Text → Run → Effect F
  schedule : ℕ → Option ℕ → Effect F
  set_conversion_rate : ℕ → Effect F
  remove_scheduled : List ℕ → Effect F

abbrev pub History : Type 0 → Type 0
History F = List (Effect F)

-- An answer may depend on everything that was asked before.
pub record Services (F : Type 0) : Type 0 where
  pub succeeds : Effect F → History F → Bool
  pub find_contact : ℕ → History F → Option (Contact F)
  pub find_template : ℤ → ℕ → History F → Option (Text × Text)
  pub count_runs : ℕ → ℕ → List Status → History F → ℕ
  pub new_id : History F → ℕ
  pub render : Text → Contact F → History F → Option Text
  pub now : History F → ℕ
  pub parse_date : Text → Option ℕ
  pub has_redis : Bool
  pub due_in_redis : ℕ → History F → Option (List ℕ)
  pub runs_by_id : List ℕ → History F → Option (List Run)
  pub waiting_runs : ℕ → History F → Option (List Run)

-- WorkflowRunner, with the fields of its automation that are read.
pub record Workflow (F : Type 0) : Type 0 where
  pub id : ℕ
  pub organization : ℕ
  pub trigger_type : Text
  pub allow_reentry : Bool
  pub nodes : List (Text × Node F)
  pub edges : List Edge

pub data Kind : Type 0 where
  trigger send add_tag remove_tag update_field webhook score delay condition ab_split goal exit
        unknown :
      Kind

abbrev pub is_one_of : Text → List Text → Bool
is_one_of s [] = false
is_one_of s (t ∷ ts) = s == t || is_one_of s ts

-- The kinds of trigger that `executeNode` passes through. `trigger_segment_entered` and
-- `trigger_date_field` are not among them.
abbrev pub passed_triggers : List Text
passed_triggers =
    codes "trigger_contact_added"
    ∷ codes "trigger_tag_added"
    ∷ codes "trigger_email_opened"
    ∷ codes "trigger_link_clicked"
    ∷ codes "trigger_form_submitted"
    ∷ codes "trigger_webhook"
    ∷ codes "trigger_schedule"
    ∷ []

-- The cases of the `switch` of `executeNode`.
unfoldable pub kind_of : Text → Kind
kind_of t =
    if is_one_of t passed_triggers
    then trigger
    else if t == codes "action_send_email"
    then send
    else if t == codes "action_add_tag"
    then add_tag
    else if t == codes "action_remove_tag"
    then remove_tag
    else if t == codes "action_update_field"
    then update_field
    else if t == codes "action_webhook"
    then webhook
    else if t == codes "action_update_score"
    then score
    else if t == codes "delay"
    then delay
    else if t == codes "condition"
    then condition
    else if t == codes "ab_split"
    then ab_split
    else if t == codes "goal"
    then goal
    else if t == codes "exit"
    then exit
    else unknown

-- The test of `findNextNodes` on one edge out of the node.
abbrev pub follows : Text → Text → Bool
follows branch handle =
    if not (branch == []) && not (handle == [])
    then handle == branch || handle == to_lower branch
    else handle == []

-- findNextNodes; an empty text is a result without a branch.
unfoldable pub find_next_nodes : List Edge → Text → Text → List Text
find_next_nodes [] node branch = []
find_next_nodes (e ∷ es) node branch =
    let rest = find_next_nodes es node branch in
    if e.source == node && follows branch e.source_handle then e.target ∷ rest else rest
