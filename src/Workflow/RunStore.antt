-- ===== src/Workflow/RunStore.antt =====
-- packages/server/src/repositories/workflow-store.ts: workflow runs as documents with a version.
pub mod Versions
use infinite_kanban.Prelude.{
  ℕ, ◌+◌, String, Bool, true, false, Option, none, some, List, [], ◌∷◌, ◌++◌, ◌==◌, nat_eq,
  string_eq, is_some, if◌then◌else◌, map,
}
use infinite_kanban.Contract.Assignment.{ExecutionAssignment}
use infinite_kanban.Contract.Result.{ExecutionResult}
use infinite_kanban.Store.Table

pub data DispatchState : Type 0 where
  prepared sending running accepted fenced : DispatchState

pub record WorkflowDispatch : Type 0 where
  pub assignment : ExecutionAssignment
  pub endpoint : String
  pub protocol_version : String
  pub state : DispatchState
  pub remote_task_id : Option String
  pub result : Option ExecutionResult
  pub relayed : Option (List String)

pub data RunPhase : Type 0 where
  implementing reviewing awaiting_approval done escalated dispatch_uncertain canceled : RunPhase

pub record RunPolicy : Type 0 where
  pub auto_finish : Bool
  pub max_rounds : ℕ
  pub max_dispatches : ℕ
  pub deadline : ℕ
  pub required_checks : List String

pub data DiagnosticCategory : Type 0 where
  dispatch execution acceptance : DiagnosticCategory

-- The response that a diagnostic may quote is left out.
pub record Diagnostic : Type 0 where
  pub at : ℕ
  pub category : DiagnosticCategory
  pub reason : String

pub record BoardWorkflowRun : Type 0 where
  pub id : String
  pub task_id : String
  pub project_id : String
  pub version : ℕ
  pub phase : RunPhase
  pub projected_key : Option String
  pub repository : String
  pub base_revision : String
  pub requirements : String
  pub required_capabilities : List String
  pub policy : RunPolicy
  pub assignments : List WorkflowDispatch
  pub diagnostics : List Diagnostic
  pub accepted_revision : Option String
  pub approved_revision : Option String
  pub approved_by : Option String
  pub approved_at : Option ℕ
  pub projected_phase : Option RunPhase

-- `board_workflow_runs`: a document holds its decoded run.
pub record RunRow : Type 0 where
  pub task_id : String
  pub version : ℕ
  pub document : BoardWorkflowRun

abbrev pub run_key : RunRow → String
run_key r = r.task_id

unfoldable pub get_run : String → List RunRow → Option BoardWorkflowRun
get_run id rows = elim (Table.get run_key id rows) [ none ↦ none | some r ↦ some r.document ]

unfoldable pub list_runs : List RunRow → List BoardWorkflowRun
list_runs rows = map (λ r. r.document) rows

abbrev pub versioned : BoardWorkflowRun → ℕ → BoardWorkflowRun
versioned run v = record run { version = v }

-- `INSERT OR IGNORE`: the table, and whether a row came in.
abbrev pub insert_run : RunRow → List RunRow → List RunRow × Bool
insert_run row rows =
    if is_some (Table.get run_key row.task_id rows) then (rows, false) else (rows ++ row ∷ [], true)

abbrev pub write_run : BoardWorkflowRun → ℕ → List RunRow → List RunRow × Bool
write_run run expected rows =
    let document = versioned run (expected + 1) in
    if expected == 0
    then insert_run (record { task_id = run.task_id; version = 1; document = document }) rows
    else Table.update_where run_key run.task_id (λ r. r.version == expected)
        (λ r. record r { version = expected + 1; document = document }) rows

-- `none` where it throws: the workflow changed concurrently. The statement changed no row then.
-- Otherwise the caller's run has the new version.
unfoldable pub save : BoardWorkflowRun → ℕ → List RunRow → Option (List RunRow × BoardWorkflowRun)
save run expected rows =
    let (rows', changed) = write_run run expected rows in
    if changed then some (rows', versioned run (expected + 1)) else none
