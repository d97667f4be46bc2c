-- ===== src/Workflow/Policy.antt =====
-- packages/server/src/services/workflow-policy.ts: the pure policy of review rounds.
pub mod Routing
pub mod Rounds
use infinite_kanban.Prelude.{
  ℕ, suc, ◌+◌, ◌≡◌, String, Bool, not, ◌&&◌, Option, none, some, List, [], ◌∷◌, arith, Eq, ◌==◌,
  string_eq, nat_eq, leb, filter, find, head?, contains, if◌then◌else◌, ◌↔◌, true,
}
use mathlib.Core.List.{reverse}

abbrev pub default_max_review_rounds : ℕ
default_max_review_rounds = 3

pub data WorkflowRole : Type 0 where
  implementation review : WorkflowRole

abbrev pub role_rank : WorkflowRole → ℕ
role_rank implementation = 0
role_rank review = 1

pub role_iff : (a b : WorkflowRole) → ((role_rank a == role_rank b) ≡ true) ↔ (a ≡ b)
role_iff a b = ground arith

instance abbrev pub role_eq : Eq WorkflowRole
role_eq = record { same = λ a b. role_rank a == role_rank b; same_iff = role_iff }

pub data WorkflowPhase : Type 0 where
  backlog implementing awaiting_review reviewing rework_requested done : WorkflowPhase
  needs_human_decision : WorkflowPhase

pub record WorkflowRun : Type 0 where
  pub id : String
  pub role : WorkflowRole
  pub agent_id : String

pub record WorkflowTicket : Type 0 where
  pub id : String
  pub project_id : String
  pub phase : WorkflowPhase
  pub review_round : ℕ
  pub runs : List WorkflowRun
  pub review_feedback : Option String

pub data ReviewVerdict : Type 0 where
  changes_requested : String → ReviewVerdict
  approved : ReviewVerdict

pub record WorkflowAgent : Type 0 where
  pub id : String
  pub enabled : Bool
  pub allowed_project_ids : List String
  pub roles : List WorkflowRole

pub data WorkflowAction : Type 0 where
  dispatch : WorkflowRole → String → ℕ → Option String → WorkflowAction
  wait : WorkflowAction
  escalate : String → WorkflowAction

abbrev pub is_eligible : WorkflowTicket → WorkflowRole → WorkflowAgent → Bool
is_eligible ticket role agent =
    agent.enabled
    && (contains agent.roles role && contains agent.allowed_project_ids ticket.project_id)

unfoldable pub eligible_agents :
    WorkflowTicket → List WorkflowAgent → WorkflowRole → List WorkflowAgent
eligible_agents ticket agents role = filter (is_eligible ticket role) agents

unfoldable pub apply_review_verdict : WorkflowTicket → ReviewVerdict → WorkflowTicket
apply_review_verdict ticket approved = record ticket { phase = done }
apply_review_verdict ticket (changes_requested feedback) =
    if leb default_max_review_rounds ticket.review_round
    then record ticket { phase = needs_human_decision; review_feedback = some feedback }
    else record ticket {
      phase = rework_requested;
      review_round = ticket.review_round + 1;
      review_feedback = some feedback;
    }

dispatch_implementation : WorkflowTicket → Option WorkflowAgent → WorkflowAction
dispatch_implementation ticket none = escalate "no eligible implementation agent"
dispatch_implementation ticket (some agent) =
    dispatch implementation agent.id ticket.review_round ticket.review_feedback

dispatch_review : WorkflowTicket → Option WorkflowAgent → WorkflowAction
dispatch_review ticket none = escalate "no distinct eligible review agent"
dispatch_review ticket (some reviewer) = dispatch review reviewer.id ticket.review_round none

abbrev pub last_implementation_run : WorkflowTicket → Option WorkflowRun
last_implementation_run ticket = find (λ run. run.role == implementation) (reverse ticket.runs)

review_of : WorkflowTicket → List WorkflowAgent → Option WorkflowRun → WorkflowAction
unfolding dispatch_review eligible_agents
review_of ticket agents none = escalate "no implementation run available for review"
review_of ticket agents (some run) =
    dispatch_review ticket
      (find (λ agent. not (agent.id == run.agent_id)) (eligible_agents ticket agents review))

by_phase : WorkflowPhase → WorkflowTicket → List WorkflowAgent → WorkflowAction
unfolding dispatch_implementation eligible_agents review_of
by_phase backlog ticket agents =
    dispatch_implementation ticket (head? (eligible_agents ticket agents implementation))
by_phase rework_requested ticket agents =
    dispatch_implementation ticket (head? (eligible_agents ticket agents implementation))
by_phase awaiting_review ticket agents = review_of ticket agents (last_implementation_run ticket)
by_phase _ ticket agents = wait

unfoldable pub decide_next_workflow_action : WorkflowTicket → List WorkflowAgent → WorkflowAction
unfolding by_phase
decide_next_workflow_action ticket agents = by_phase ticket.phase ticket agents
