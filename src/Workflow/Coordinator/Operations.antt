-- ===== src/Workflow/Coordinator/Operations.antt =====
-- `start`, `approve`, `cancel`, `retry`, `ownsTask` and `reconcileFailedProjections` of
-- services/board-workflow.ts. An input of `start` is a decoded one: fields that it must not have
-- are left out, and its numbers are natural ones.
use infinite_kanban.Prelude.{
  ℕ, ◌+◌, String, Bool, false, not, ◌&&◌, ◌||◌, Option, none, some, List, [], ◌∷◌, ◌==◌, string_eq,
  nat_eq, leb, any, contains, get_last?, is_some, is_none, value_or, if◌then◌else◌,
}
use Prim.Native.String.{◌++◌ as ◌<>◌}
use infinite_kanban.Board.{ColumnId, planning, executing, status_eq, column_eq}
use infinite_kanban.Contract.Json.{object}
use infinite_kanban.Contract.Text.{is_immutable_revision}
use infinite_kanban.Contract.Check.{
  ExecutionRole, implementation, review, Validated, accepted, thrown,
}
use infinite_kanban.Contract.Assignment.{ExecutionAssignment, validate_assignment}
use infinite_kanban.Workflow.RunStore.{
  BoardWorkflowRun, WorkflowDispatch, fenced, implementing, awaiting_approval, done, escalated,
  dispatch_uncertain, canceled, DiagnosticCategory, Diagnostic, RunPolicy,
}
use infinite_kanban.Workflow.Coordinator.Session.{
  Surroundings, Session, TaskFacts, Flow, returned, refused, begin, and_then, with_run, cancel_sent,
  did, save_run, diagnosed, with_last,
}
use infinite_kanban.Workflow.Coordinator.Messages.{message, names_limit}
use infinite_kanban.Workflow.Coordinator.Dispatching.{assignment_fields, dispatch_role}
use infinite_kanban.Workflow.Coordinator.Projecting.{phase_eq, project}
use infinite_kanban.Workflow.Coordinator.Settling.{without_approval}

pub record PolicyInput : Type 0 where
  pub auto_finish : Option Bool
  pub max_rounds : Option ℕ
  pub max_dispatches : Option ℕ
  pub deadline : Option ℕ
  pub required_checks : Option (List String)

pub record StartWorkflow : Type 0 where
  pub repository : String
  pub base_revision : String
  pub required_capabilities : Option (List String)
  pub policy : PolicyInput

abbrev pub policy_of : ℕ → PolicyInput → RunPolicy
policy_of now input = record {
  auto_finish = value_or input.auto_finish false;
  max_rounds = value_or input.max_rounds 3;
  max_dispatches = value_or input.max_dispatches 6;
  deadline = value_or input.deadline (now + 3600000);
  required_checks = value_or input.required_checks [];
}

abbrev pub max_safe_integer : ℕ
max_safe_integer = 9007199254740991

abbrev pub is_valid_policy : ℕ → RunPolicy → Bool
is_valid_policy now p =
    leb 1 p.max_rounds
    && (leb p.max_rounds 20
        && (leb 2 p.max_dispatches
            && (leb p.max_dispatches 40
                && (leb p.deadline max_safe_integer
                    && (not (leb p.deadline now) && not (any (λ c. c == "") p.required_checks))))))

abbrev pub is_unavailable : TaskFacts → Bool
is_unavailable task =
    task.in_group
    || (task.assigned
        || (task.run_requested
            || (contains (planning ∷ executing ∷ []) task.agent_status
                || (task.column == ColumnId.done || task.archived))))

abbrev pub new_run : String → String → TaskFacts → StartWorkflow → RunPolicy → BoardWorkflowRun
new_run run_id id task input policy = record {
  id = run_id;
  task_id = id;
  project_id = task.project_id;
  version = 0;
  phase = implementing;
  projected_key = none;
  repository = input.repository;
  base_revision = input.base_revision;
  requirements = task.title <> ("\n\n" <> task.description);
  required_capabilities = value_or input.required_capabilities [];
  policy = policy;
  assignments = [];
  diagnostics = [];
  accepted_revision = none;
  approved_revision = none;
  approved_by = none;
  approved_at = none;
  projected_phase = none;
}

abbrev pub start_validated : Surroundings → BoardWorkflowRun → Validated ExecutionAssignment → Flow
start_validated env run (thrown e) = refused (message e)
start_validated env run (accepted a) =
    and_then (dispatch_role env implementation (save_run (begin run))) (project env)

abbrev pub start_run : Surroundings → BoardWorkflowRun → Flow
start_run env run = start_validated env run (
    validate_assignment env.parse_url (
      some (
        object (
          assignment_fields run implementation "validation" "validation" run.base_revision 1
            none))))

abbrev pub start_task : Surroundings → String → String → Option TaskFacts → StartWorkflow → Flow
start_task env run_id id none input = refused "task not found"
start_task env run_id id (some task) input =
    let policy = policy_of env.now input.policy in
    if is_unavailable task
    then refused "task is not eligible for workflow"
    else if is_valid_policy env.now policy
    then start_run env (new_run run_id id task input policy)
    else refused "invalid workflow policy"

unfoldable pub start :
    Surroundings
    → (run_id id : String) → Option BoardWorkflowRun
    → Option TaskFacts
    → StartWorkflow
    → Flow
unfolding save_run dispatch_role project message validate_assignment assignment_fields
start env run_id id existing task input =
    if is_immutable_revision input.base_revision
    then if is_some existing
      then refused "workflow already exists; cancel/reconcile the existing run"
      else start_task env run_id id task input
    else refused "immutable revision required"

abbrev pub approved_run : Surroundings → String → String → BoardWorkflowRun → BoardWorkflowRun
approved_run env revision actor run = record run {
  approved_revision = some revision;
  approved_by = some actor;
  approved_at = some env.now;
  phase = done;
}

abbrev pub awaits : BoardWorkflowRun → String → Bool
awaits run revision =
    run.phase == awaiting_approval
    && elim run.accepted_revision [ none ↦ false | some r ↦ r == revision ]

unfoldable pub approve : Surroundings → Option BoardWorkflowRun → String → String → Flow
unfolding save_run project
approve env none revision actor = refused "approval must match awaiting revision"
approve env (some run) revision actor =
    if awaits run revision
    then returned (project env (save_run (begin (approved_run env revision actor run))))
    else refused "approval must match awaiting revision"

abbrev pub fence_open : WorkflowDispatch → WorkflowDispatch
fence_open d = if is_none d.result then record d { state = fenced } else d

-- The remote task that is still open at the last assignment; an empty id counts as none.
abbrev pub open_remote : Option WorkflowDispatch → Option (WorkflowDispatch × String)
open_remote none = none
open_remote (some d) =
    if is_none d.result
    then elim d.remote_task_id [ none ↦ none | some id ↦ if id == "" then none else some (d, id) ]
    else none

abbrev pub cancel_at : Surroundings → Session → Option (WorkflowDispatch × String) → Session
cancel_at env s none = s
cancel_at env s (some (d, id)) =
    let s' = did (cancel_sent id) s in
    if env.cancel_remote d id
    then s'
    else save_run (
        with_run
          (diagnosed env.now DiagnosticCategory.dispatch
            "cancel fenced locally; remote cancellation unconfirmed" s'.run)
          s')

abbrev pub cancel_fenced : Surroundings → Session → Session
cancel_fenced env s = cancel_at env s (open_remote (get_last? s.run.assignments))

unfoldable pub cancel : Surroundings → Option BoardWorkflowRun → Flow
unfolding save_run project
cancel env none = refused "workflow not found"
cancel env (some run) =
    if run.phase == done
    then refused "completed workflow cannot be canceled"
    else returned (
        cancel_fenced env
          (project env (save_run (begin (with_last fence_open (record run { phase = canceled }))))))

abbrev pub role_after : ExecutionRole → ExecutionRole
role_after implementation = review
role_after review = implementation

abbrev pub retried_role : Option WorkflowDispatch → ExecutionRole
retried_role none = implementation
retried_role (some d) = elim d.result [
  | none ↦ d.assignment.named.role
  | some r ↦ role_after r.named.role
]

abbrev pub is_busy : BoardWorkflowRun → TaskFacts → Bool
is_busy run task =
    task.assigned
    || (task.run_requested
        || (task.archived
            || (run.phase == canceled && contains (planning ∷ executing ∷ []) task.agent_status)))

abbrev pub retry_run : Surroundings → BoardWorkflowRun → Flow
retry_run env run =
    and_then
      (dispatch_role env (retried_role (get_last? run.assignments))
        (save_run (begin (without_approval (with_last fence_open run)))))
      (project env)

abbrev pub retry_task : Surroundings → BoardWorkflowRun → Option TaskFacts → Flow
retry_task env run none = refused "task is not eligible for retry"
retry_task env run (some task) =
    if is_busy run task then refused "task is not eligible for retry" else retry_run env run

unfoldable pub retry : Surroundings → Option BoardWorkflowRun → Option TaskFacts → Flow
unfolding save_run project dispatch_role names_limit
retry env none task = refused "cancel or resolve the existing dispatch before retry"
retry env (some run) task =
    if contains (canceled ∷ escalated ∷ []) run.phase
    then if any (λ (d : Diagnostic). names_limit d.reason) run.diagnostics
      then refused "workflow limits exhausted"
      else retry_task env run task
    else refused "cancel or resolve the existing dispatch before retry"

abbrev pub was_projected_canceled : BoardWorkflowRun → Bool
was_projected_canceled run = elim run.projected_phase [ none ↦ false | some p ↦ p == canceled ]

unfoldable pub owns_task : Option BoardWorkflowRun → Bool
owns_task none = false
owns_task (some run) = not (run.phase == canceled) || not (was_projected_canceled run)

-- Whether the sweep at startup puts the task back: its columns `backlog` and `failed` then.
unfoldable pub needs_reconciling : Option BoardWorkflowRun → Option TaskFacts → Bool
needs_reconciling none task = false
needs_reconciling (some run) none = false
needs_reconciling (some run) (some task) =
    contains (escalated ∷ dispatch_uncertain ∷ []) run.phase && task.column == ColumnId.in_progress
