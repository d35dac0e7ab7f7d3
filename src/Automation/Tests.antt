-- ===== src/Automation/Tests.antt =====
-- The claims on workflows at a small flow: a trigger, a delay of a day, and a mail.
use sampmail.Prelude.{
  ℕ, ◌+◌, ◌≤◌, ◌≡◌, refl, ◌≢◌, true, false, Option, none, some, List, [], ◌∷◌, Text, codes, ◌==◌,
  text_eq, arith, if◌then◌else◌,
}
use sampmail.Prelude.Map
use sampmail.Prelude.Int.{ℤ, pos}
use sampmail.Automation.{
  Node, Edge, Run, completed, failed, Contact, History, Services, Workflow, unknown, kind_of,
  find_next_nodes,
}
use sampmail.Automation.Values.{Floats, get_string, get_int, evaluate_condition, sprint}
use sampmail.Automation.Nodes.{execute_node, execute_delay, execute_send_email}
use sampmail.Automation.Walk.{execute_from}
use sampmail.Automation.Engine.{new_run, enter_contact}
use sampmail.Automation.Reachable.{Since, Explains, walk_reaches}
use sampmail.Automation.Termination.{Ends, acyclic_walk-Ends}
use sampmail.Automation.Failures.{logged_failures, walk_errors}
use sampmail.Automation.Delays.{NeverFail, Completes, walk-Completes}

-- The float64 of the tests are whole numbers.
abbrev whole : Floats ℤ
whole = record {
  print = λ z. [];
  scan = λ s. pos 0;
  of_int = λ z. z;
  truncate = λ z. z;
  zero_float = pos 0;
  less = λ a b. false;
  less_equal = λ a b. true;
}

abbrev ann : Contact ℤ
ann = record {
  organization = 1;
  email = codes "ann@example.org";
  first_name = codes "Ann";
  lead_score = pos 0;
  total_opens = pos 0;
  custom_fields = [];
}

abbrev trigger_id : Text
trigger_id = codes "t"

abbrev delay_id : Text
delay_id = codes "d"

abbrev mail_id : Text
mail_id = codes "m"

abbrev begun : Run
begun = new_run 7 1 5 trigger_id

abbrev at_mail : Run
at_mail = record begun { status = completed; current_node = mail_id }

abbrev services : Services ℤ
services = record {
  succeeds = λ e h. true;
  find_contact = λ c h. some ann;
  find_template = λ t o h. none;
  count_runs = λ a c ss h. 0;
  new_id = λ h. 7;
  render = λ s c h. none;
  now = λ h. 1000;
  parse_date = λ s. none;
  has_redis = true;
  due_in_redis = λ n h. some (7 ∷ []);
  runs_by_id = λ ids h. some (at_mail ∷ []);
  waiting_runs = λ n h. none;
}

abbrev node_of : Text → Text → Node ℤ
node_of id kind = record { id = id; node_type = kind; config = [] }

abbrev join : Text → Text → Edge
join a b = record { source = a; target = b; source_handle = [] }

abbrev nodes : List (Text × Node ℤ)
nodes =
    (trigger_id, node_of trigger_id (codes "trigger_contact_added"))
    ∷ (delay_id, node_of delay_id (codes "delay"))
    ∷ (mail_id, node_of mail_id (codes "action_send_email"))
    ∷ []

abbrev flow : Workflow ℤ
flow = record {
  id = 1;
  organization = 1;
  trigger_type = codes "trigger_contact_added";
  allow_reentry = false;
  nodes = nodes;
  edges = join trigger_id delay_id ∷ join delay_id mail_id ∷ [];
}

-- The delay leads back to itself.
abbrev round_flow : Workflow ℤ
round_flow = record flow { edges = join trigger_id delay_id ∷ join delay_id delay_id ∷ [] }

abbrev or_begun : Option (Run × History ℤ) → Run × History ℤ
or_begun none = (begun, [])
or_begun (some r) = r

abbrev walked : Run × History ℤ
walked = or_begun (execute_from whole services flow 3 begun trigger_id [])

walks : execute_from whole services flow 3 begun trigger_id [] ≡ some walked
unfolding execute_from Map.lookup find_next_nodes execute_delay execute_send_email get_string
    get_int evaluate_condition sprint execute_node
walks = refl

walk_reaches_example : Since (Explains flow trigger_id) [] walked.1
walk_reaches_example = walk_reaches whole services flow 3 begun trigger_id [] walked walks

walk_errors_example :
    (logged_failures walked.1 + begun.error_count
      ≡ logged_failures {F = ℤ} [] + walked.0.error_count)
    × (begun.status ≢ failed → walked.0.status ≡ failed → 3 ≤ walked.0.error_count)
walk_errors_example = walk_errors whole services flow 3 begun trigger_id [] walked walks

-- A mail has rank 0, a delay 1, the trigger 2.
abbrev rank : Text → ℕ
rank s = if s == trigger_id then 2 else if s == delay_id then 1 else 0

acyclic_walk-Ends_example : Ends (execute_from whole services flow 3 begun trigger_id [])
acyclic_walk-Ends_example =
    acyclic_walk-Ends whole services flow rank 3 begun trigger_id [] (omega arith) (omega arith)

never_fail : NeverFail services
never_fail = record { calls = λ e h. refl; contacts = λ c h. (ann, refl) }

is_delay : kind_of (codes "delay") ≢ unknown
unfolding kind_of
is_delay e = cc

is_mail : kind_of (codes "action_send_email") ≢ unknown
unfolding kind_of
is_mail e = cc

is_trigger : kind_of (codes "trigger_contact_added") ≢ unknown
unfolding kind_of
is_trigger e = cc

walk-Completes_example : Completes (execute_from whole services flow 3 begun trigger_id [])
unfolding Map.lookup
walk-Completes_example =
    walk-Completes whole services never_fail flow rank 3 begun trigger_id []
      ((omega arith, (_, refl, is_delay)), ((omega arith, (_, refl, is_mail)), tt))
      (_, refl, is_trigger) (omega arith)

abbrev or_nothing : Option (History ℤ) → History ℤ
or_nothing none = []
or_nothing (some h) = h

abbrev entered : History ℤ
entered = or_nothing (enter_contact whole services 3 flow 5 [])
