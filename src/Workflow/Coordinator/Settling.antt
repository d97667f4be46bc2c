-- ===== src/Workflow/Coordinator/Settling.antt =====
-- `settle` and `accept` of services/board-workflow.ts: what becomes of a result.
use infinite_kanban.Prelude.{
  ℕ, String, Bool, true, false, not, ◌&&◌, ◌||◌, Option, none, some, [], ◌∷◌, ◌==◌, string_eq, leb,
  filter, find, any, contains, get_last?, length, if◌then◌else◌,
}
use Prim.Native.String.{◌++◌ as ◌<>◌}
use infinite_kanban.Contract.Json.{Json}
use infinite_kanban.Contract.Check.{
  ExecutionRole, implementation, review, execution_role_eq, Validated, accepted, thrown,
}
use infinite_kanban.Contract.Result.{
  ExecutionResult, ExecutionEvidence, EvidenceOutcome, Verdict, approved, validate_result,
}
use infinite_kanban.Workflow.RunStore.{
  BoardWorkflowRun, WorkflowDispatch, DispatchState, fenced, awaiting_approval, done, escalated,
  canceled, DiagnosticCategory,
}
use infinite_kanban.Workflow.Coordinator.Session.{
  Surroundings, Session, Flow, returned, failed_with, refused, begin, with_run, save_run, diagnosed,
  escalate, with_last,
}
use infinite_kanban.Workflow.Coordinator.Messages.{message, is_late}
use infinite_kanban.Workflow.Coordinator.Dispatching.{dispatch_role}
use infinite_kanban.Workflow.Coordinator.Projecting.{phase_eq, project}

-- An accepted result that comes again.
abbrev pub is_repeated : Surroundings → Json → String → WorkflowDispatch → Bool
is_repeated env response endpoint_id d = elim d.result [
  | none ↦ false
  | some r ↦ d.assignment.named.endpoint_id == endpoint_id && env.same_json r response
]

abbrev pub is_closed_phase : BoardWorkflowRun → Bool
is_closed_phase run = contains (canceled ∷ done ∷ awaiting_approval ∷ escalated ∷ []) run.phase

abbrev pub is_settled_state : DispatchState → Bool
is_settled_state DispatchState.accepted = true
is_settled_state fenced = true
is_settled_state _ = false

abbrev pub has_passed : ExecutionResult → String → Bool
has_passed r check =
    any
      (λ (e : ExecutionEvidence).
        e.check == check
        && elim e.outcome [ EvidenceOutcome.passed ↦ true | EvidenceOutcome.failed ↦ false ])
      r.evidence

-- A result that may be taken, or the message of the error.
pub data Judged : Type 0 where
  taken : ExecutionResult → Judged
  not_taken : String → Judged

abbrev pub judge_evidence : Option String → ExecutionResult → Judged
judge_evidence none r = taken r
judge_evidence (some e) r = not_taken e

abbrev pub judge_checks : Surroundings → WorkflowDispatch → ExecutionResult → Option String → Judged
judge_checks env d r (some check) = not_taken ("missing passing required check: " <> check)
judge_checks env d r none = judge_evidence (env.verify_evidence r d.endpoint) r

abbrev pub judge_result :
    Surroundings → BoardWorkflowRun → WorkflowDispatch → Validated ExecutionResult → Judged
judge_result env run d (thrown e) = not_taken (message e)
judge_result env run d (accepted r) =
    judge_checks env d r (find (λ check. not (has_passed r check)) run.policy.required_checks)

abbrev pub judge_last :
    Surroundings → BoardWorkflowRun → Json → String → Option WorkflowDispatch → Judged
judge_last env run response endpoint_id none = not_taken "late/fenced result"
judge_last env run response endpoint_id (some d) =
    if is_closed_phase run || is_settled_state d.state
    then not_taken "late/fenced result"
    else if endpoint_id == d.assignment.named.endpoint_id
    then judge_result env run d (validate_result (some response) d.assignment)
    else not_taken "wrong producing endpoint"

unfoldable pub judge : Surroundings → BoardWorkflowRun → Json → String → Judged
unfolding validate_result message
judge env run response endpoint_id =
    judge_last env run response endpoint_id (get_last? run.assignments)

-- The `catch` of `settle`.
unfoldable pub refuse_result : Surroundings → String → Session → Session
unfolding is_late save_run
refuse_result env reason s =
    let run = diagnosed env.now DiagnosticCategory.acceptance reason s.run in
    save_run (with_run (if is_late reason then run else record run { phase = escalated }) s)

abbrev pub caught : Surroundings → Flow → Session → Session
caught env (returned s) before = s
caught env (failed_with e s) before = refuse_result env e s
caught env (refused e) before = refuse_result env e before

abbrev pub took : ExecutionResult → WorkflowDispatch → WorkflowDispatch
took r d = record d { result = some r; state = DispatchState.accepted }

abbrev pub without_approval : BoardWorkflowRun → BoardWorkflowRun
without_approval run = record run {
  approved_revision = none;
  approved_by = none;
  approved_at = none;
}

abbrev pub review_rounds : BoardWorkflowRun → ℕ
review_rounds run =
    length (filter (λ (d : WorkflowDispatch). d.assignment.named.role == review) run.assignments)

abbrev pub with_findings : Surroundings → ExecutionResult → BoardWorkflowRun → BoardWorkflowRun
with_findings env r run = record run {
  requirements =
      run.requirements
      <> ("\n\nReview findings for " <> (r.revision <> (":\n" <> env.show_findings r.findings)));
}

abbrev pub take_implementation : Surroundings → ExecutionResult → Session → Session
take_implementation env r s =
    let s' =
      save_run
        (with_run (record (without_approval s.run) { accepted_revision = some r.revision }) s) in
    caught env (dispatch_role env review s') s'

abbrev pub take_approval : Session → Session
take_approval s = save_run (
    with_run (record s.run { phase = if s.run.policy.auto_finish then done else awaiting_approval })
      s)

abbrev pub take_changes : Surroundings → ExecutionResult → Session → Session
take_changes env r s =
    if leb s.run.policy.max_rounds (review_rounds s.run)
    then escalate env.now DiagnosticCategory.acceptance "review round limit exhausted" s
    else let s' = save_run (with_run (with_findings env r s.run) s) in
      caught env (dispatch_role env implementation s') s'

abbrev pub take_review : Surroundings → ExecutionResult → Option Verdict → Session → Session
take_review env r (some approved) s = take_approval s
take_review env r _ s = take_changes env r s

abbrev pub take : Surroundings → ExecutionResult → ExecutionRole → Session → Session
take env r implementation s = take_implementation env r s
take env r review s = take_review env r r.verdict s

abbrev pub apply_judgement : Surroundings → Judged → Session → Session
apply_judgement env (not_taken reason) s = refuse_result env reason s
apply_judgement env (taken r) s = take env r r.named.role (with_run (with_last (took r) s.run) s)

unfoldable pub settle : Surroundings → Json → String → Session → Session
unfolding judge refuse_result save_run escalate dispatch_role
settle env response endpoint_id s =
    if any (is_repeated env response endpoint_id) s.run.assignments
    then s
    else apply_judgement env (judge env s.run response endpoint_id) s

unfoldable pub accept : Surroundings → Option BoardWorkflowRun → Json → String → Flow
unfolding settle project
accept env none response endpoint_id = refused "workflow not found"
accept env (some run) response endpoint_id =
    returned (project env (settle env response endpoint_id (begin run)))
