-- ===== src/Workflow/Coordinator/Session.antt =====
-- A coordinator's operation on one run (services/board-workflow.ts): the run that it holds, what
-- it has done to the outside so far, and the outside's answers. A `save` that the store refuses
-- ends the operation: every clause that catches the error saves the same stale version again.
use infinite_kanban.Prelude.{
  ℕ, ◌+◌, String, Bool, not, Option, none, some, List, [], ◌∷◌, ◌++◌, ◌==◌, nat_eq,
}
use infinite_kanban.Board.{ColumnId, AgentStatus}
use infinite_kanban.Contract.Json.{Json}
use infinite_kanban.Contract.Check.{ExecutionRole}
use infinite_kanban.Contract.Assignment.{Url}
use infinite_kanban.Contract.Result.{ExecutionResult, ExecutionFinding}
use infinite_kanban.Workflow.RunStore.{
  BoardWorkflowRun, WorkflowDispatch, DiagnosticCategory, escalated, versioned,
}

-- The fields of a registered agent that routing reads.
pub record Agent : Type 0 where
  pub id : String
  pub endpoint : String
  pub protocol_version : String
  pub skills : List (List String)
  pub enabled : Bool
  pub unreachable_since : Option ℕ
  pub project_access : List (String × List ExecutionRole)

-- The truth of an optional number: 0 is false.
abbrev pub is_truthy : Option ℕ → Bool
is_truthy none = Bool.false
is_truthy (some n) = not (n == 0)

pub data RemoteState : Type 0 where
  remote_pending remote_running input_required remote_completed : RemoteState
  remote_failed remote_canceled rejected : RemoteState

pub record RemoteProgress : Type 0 where
  pub message_id : String
  pub text : String
  pub kind : Option String

-- An artifact is the list of its parts: the data of each, where it has some.
pub record RemoteUpdate : Type 0 where
  pub state : RemoteState
  pub artifacts : List (List (Option Json))
  pub history : List RemoteProgress

-- The fields of a task that an operation reads.
pub record TaskFacts : Type 0 where
  pub project_id : String
  pub title : String
  pub description : String
  pub in_group : Bool
  pub assigned : Bool
  pub run_requested : Bool
  pub column : ColumnId
  pub agent_status : AgentStatus
  pub archived : Bool

pub record Projection : Type 0 where
  pub column : ColumnId
  pub agent_status : AgentStatus
  pub summary : String
  pub completed_at : Option ℕ

-- What one operation gets from outside: the clock, the registered agents, a fresh assignment id,
-- the remote calls (`none` where one throws), the verification of evidence (an error or nothing),
-- the task's update (whether there is such a task), and the platform's and the routes' functions
-- on texts. `negotiate` is `none` for a protocol version that is not supported.
pub record Surroundings : Type 0 where
  pub now : ℕ
  pub agents : List Agent
  pub assignment_id : String
  pub has_sink : Bool
  pub send : WorkflowDispatch → Option String
  pub get_update : WorkflowDispatch → String → Option RemoteUpdate
  pub cancel_remote : WorkflowDispatch → String → Bool
  pub verify_evidence : ExecutionResult → String → Option String
  pub update_task : Projection → Bool
  pub negotiate : String → Option String
  pub normalize_repo_url : String → String
  pub parse_url : String → Option Url
  pub decimal : ℕ → String
  pub show_findings : Option (List ExecutionFinding) → String
  pub same_json : ExecutionResult → Json → Bool

pub data Effect : Type 0 where
  saved : BoardWorkflowRun → Effect
  sent : WorkflowDispatch → Effect
  cancel_sent : String → Effect
  projected : Projection → Effect
  relayed_progress : RemoteProgress → Effect

-- The newest effect stands first.
pub record Session : Type 0 where
  pub run : BoardWorkflowRun
  pub trace : List Effect

-- An operation returns, throws after it has begun, or is refused at once: nothing is changed then.
pub data Flow : Type 0 where
  returned : Session → Flow
  failed_with : String → Session → Flow
  refused : String → Flow

abbrev pub begin : BoardWorkflowRun → Session
begin run = record { run = run; trace = [] }

-- What follows a call that has returned.
abbrev pub and_then : Flow → (Session → Session) → Flow
and_then (returned s) f = returned (f s)
and_then (failed_with e s) f = failed_with e s
and_then (refused e) f = refused e

abbrev pub with_run : BoardWorkflowRun → Session → Session
with_run run s = record s { run = run }

abbrev pub did : Effect → Session → Session
did e s = record s { trace = e ∷ s.trace }

unfoldable pub save_run : Session → Session
save_run s =
    let run = versioned s.run (s.run.version + 1) in
    record { run = run; trace = saved run ∷ s.trace }

abbrev pub diagnosed : ℕ → DiagnosticCategory → String → BoardWorkflowRun → BoardWorkflowRun
diagnosed now category reason run = record run {
  diagnostics = run.diagnostics ++ record { at = now; category = category; reason = reason } ∷ [];
}

unfoldable pub escalate : ℕ → DiagnosticCategory → String → Session → Session
unfolding save_run
escalate now category reason s =
    save_run (with_run (diagnosed now category reason (record s.run { phase = escalated })) s)

-- A change of `run.assignments.at(-1)`, which the list shares.
abbrev pub update_last : {A : Type 0} → (A → A) → List A → List A
update_last f [] = []
update_last f (x ∷ []) = f x ∷ []
update_last f (x ∷ y ∷ xs) = x ∷ update_last f (y ∷ xs)

abbrev pub with_last : (WorkflowDispatch → WorkflowDispatch) → BoardWorkflowRun → BoardWorkflowRun
with_last f run = record run { assignments = update_last f run.assignments }
