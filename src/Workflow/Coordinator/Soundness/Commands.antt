-- ===== src/Workflow/Coordinator/Soundness/Commands.antt =====
-- The operations that a caller starts keep every saved document sound: `start`, `accept`,
-- `approve`, `cancel` and `retry` of services/board-workflow.ts.
use infinite_kanban.Prelude.{
  ◌≡◌, refl, sym, ap, subst, String, true, false, Option, none, some, [], arith, ◌==◌, ==_iff,
  string_eq, is_some, inr, &&-left, &&-right,
}
use mathlib.Core.Option.{none-ne-some}
use infinite_kanban.Contract.Json.{Json}
use infinite_kanban.Contract.Text.{is_immutable_revision}
use infinite_kanban.Contract.Check.{implementation, Validated, accepted, thrown}
use infinite_kanban.Contract.Assignment.{ExecutionAssignment}
use infinite_kanban.Workflow.RunStore.{BoardWorkflowRun, awaiting_approval}
use infinite_kanban.Workflow.Coordinator.Session.{Surroundings, TaskFacts, begin}
use infinite_kanban.Workflow.Coordinator.Projecting.{phase_eq, project}
use infinite_kanban.Workflow.Coordinator.Settling.{accept}
use infinite_kanban.Workflow.Coordinator.Operations.{
  StartWorkflow, policy_of, is_valid_policy, is_unavailable, start_validated, start_task, start,
  approved_run, awaits, approve,
}
use infinite_kanban.Workflow.Coordinator.Soundness.{IsApproved, IsSound, IsSafe, safe, IsSafeFlow}
use infinite_kanban.Workflow.Coordinator.Soundness.History.{EndsClosed}
use infinite_kanban.Workflow.Coordinator.Soundness.Saves.{
  save_run-IsSafe, project-IsSafe, and_then-IsSafeFlow,
}
use infinite_kanban.Workflow.Coordinator.Soundness.Sends.{dispatch_role-IsSafe, if-IsSafeFlow}
use infinite_kanban.Workflow.Coordinator.Soundness.Settles.{settle-IsSafe, ends_saved}

pub begin-IsSafe : (run : BoardWorkflowRun) → IsSound run → IsSafe (begin run)
begin-IsSafe run (history, decided) = safe (begin run) history decided tt

abbrev pub IsSoundIf : Option BoardWorkflowRun → Type 0
IsSoundIf none = Unit
IsSoundIf (some run) = IsSound run

no_last : EndsClosed []
no_last d h = absurd (none-ne-some d h)

start_run-IsSafe :
    (env : Surroundings) (run : BoardWorkflowRun) (v : Validated ExecutionAssignment)
    → run.assignments ≡ []
    → IsSound run
    → IsSafeFlow (start_validated env run v)
start_run-IsSafe env run (thrown e) empty sound = tt
start_run-IsSafe env run (accepted a) empty sound =
    let saved_first = save_run-IsSafe _ (begin-IsSafe run sound) in
    and_then-IsSafeFlow _ (project env) (project-IsSafe env) (
      dispatch_role-IsSafe env implementation _ saved_first
        (ends_saved (begin run) (subst EndsClosed (sym empty) no_last)))

start_task-IsSafe :
    (env : Surroundings) (run_id id : String) (task : Option TaskFacts) (input : StartWorkflow)
    → IsSafeFlow (start_task env run_id id task input)
start_task-IsSafe env run_id id none input = tt
start_task-IsSafe env run_id id (some task) input =
    if-IsSafeFlow (is_unavailable task) _ _ (λ _. tt)
      (λ _.
        if-IsSafeFlow (is_valid_policy env.now (policy_of env.now input.policy)) _ _
          (λ _. start_run-IsSafe env _ _ refl ((omega arith, tt, tt, refl), tt)) (λ _. tt))

pub start-IsSafe :
    (env : Surroundings) (run_id id : String) (existing : Option BoardWorkflowRun)
    (task : Option TaskFacts) (input : StartWorkflow)
    → IsSafeFlow (start env run_id id existing task input)
unfolding start
start-IsSafe env run_id id existing task input =
    if-IsSafeFlow (is_immutable_revision input.base_revision) _ _
      (λ _.
        if-IsSafeFlow (is_some existing) _ _ (λ _. tt)
          (λ _. start_task-IsSafe env run_id id task input))
      (λ _. tt)

pub accept-IsSafe :
    (env : Surroundings) (stored : Option BoardWorkflowRun) (response : Json) (endpoint_id : String)
    → IsSoundIf stored
    → IsSafeFlow (accept env stored response endpoint_id)
unfolding accept
accept-IsSafe env none response endpoint_id sound = tt
accept-IsSafe env (some run) response endpoint_id sound =
    project-IsSafe env _ (settle-IsSafe env response endpoint_id _ (begin-IsSafe run sound))

awaited-IsApproved :
    (run : BoardWorkflowRun)
    → run.phase ≡ awaiting_approval
    → IsSound run
    → IsApproved run.assignments
awaited-IsApproved run e (history, decided) = rw e at decided

awaits-confirmed :
    (o : Option String) (revision : String)
    → elim o [ none ↦ false | some r ↦ r == revision ] ≡ true
    → o ≡ some revision
awaits-confirmed none revision h = cc
awaits-confirmed (some r) revision h = ap some ((==_iff r revision).0 h)

pub approve-IsSafe :
    (env : Surroundings) (stored : Option BoardWorkflowRun) (revision actor : String)
    → IsSoundIf stored
    → IsSafeFlow (approve env stored revision actor)
unfolding approve
approve-IsSafe env none revision actor sound = tt
approve-IsSafe env (some run) revision actor sound =
    if-IsSafeFlow (awaits run revision) _ _
      (λ awaited.
        let waits = (==_iff run.phase awaiting_approval).0 (&&-left _ _ awaited) in
        let agreed = awaits-confirmed run.accepted_revision revision (&&-right _ _ awaited) in
        project-IsSafe env _ (
          save_run-IsSafe _ (
            begin-IsSafe (approved_run env revision actor run)
              (sound.0, (awaited-IsApproved run waits sound, inr (revision, agreed, refl))))))
      (λ _. tt)
