-- ===== src/Workflow/Coordinator/Runs.antt =====
-- The coordinator's operations on a task's run, and the documents that they save
-- (services/board-workflow.ts). An operation starts from what the store holds; it may end at any
-- of its saves.
use infinite_kanban.Prelude.{String, Option, none, some, List, [], In}
use infinite_kanban.Contract.Json.{Json}
use infinite_kanban.Workflow.RunStore.{BoardWorkflowRun}
use infinite_kanban.Workflow.Coordinator.Session.{
  Surroundings, TaskFacts, Effect, saved, Flow, returned, failed_with, refused,
}
use infinite_kanban.Workflow.Coordinator.Settling.{accept}
use infinite_kanban.Workflow.Coordinator.Operations.{StartWorkflow, start, approve, cancel, retry}
use infinite_kanban.Workflow.Coordinator.Ticking.{tick}

pub data Operation : Type 0 where
  start_workflow : (run_id task_id : String) → Option TaskFacts → StartWorkflow → Operation
  accept_result : Json → String → Operation
  approve_revision : (revision actor : String) → Operation
  cancel_workflow : Operation
  retry_workflow : Option TaskFacts → Operation
  tick_workflow : Operation

abbrev pub tick_stored : Surroundings → Option BoardWorkflowRun → Flow
tick_stored env none = refused "no stored run"
tick_stored env (some run) = tick env run

abbrev pub perform : Surroundings → Operation → Option BoardWorkflowRun → Flow
perform env (start_workflow run_id task_id task input) stored =
    start env run_id task_id stored task input
perform env (accept_result response endpoint_id) stored = accept env stored response endpoint_id
perform env (approve_revision revision actor) stored = approve env stored revision actor
perform env cancel_workflow stored = cancel env stored
perform env (retry_workflow task) stored = retry env stored task
perform env tick_workflow stored = tick_stored env stored

abbrev pub trace_of : Flow → List Effect
trace_of (returned s) = s.trace
trace_of (failed_with e s) = s.trace
trace_of (refused e) = []

-- The documents that the store of a task may hold.
pub data IsReachable : BoardWorkflowRun → Type 0 where
  first :
      (env : Surroundings) (op : Operation) (run : BoardWorkflowRun)
      → In (saved run) (trace_of (perform env op none))
      → IsReachable run
  next :
      (env : Surroundings) (op : Operation) (before run : BoardWorkflowRun)
      → IsReachable before
      → In (saved run) (trace_of (perform env op (some before)))
      → IsReachable run
