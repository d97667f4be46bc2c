-- ===== src/Scenarios/Coordinator.antt =====
-- A board workflow from its start to the end (services/board-workflow.ts).
use infinite_kanban.Prelude.{
  ◌≡◌, refl, ℕ, ◌≤◌, ◌⊎◌, String, true, false, none, some, List, [], ◌∷◌, ◌++◌, arith, inl, inr, In,
  get_last?, length, contains, string_eq,
}
use mathlib.Core.List.{flat_map}
use infinite_kanban.Board.{idle, executing, ColumnId}
use infinite_kanban.Contract.Json.{
  Json, lookup, natural, text, array, object, no_items, item, no_fields, field,
}
use infinite_kanban.Contract.Text.{
  is_text, is_immutable_revision, is_assignment_id, is_retrievable_artifact, is_portable_repository,
  has_scheme,
}
use infinite_kanban.Contract.Check.{
  ExecutionRole, implementation, review, Identity, strict_record, identity, text_field, ◌>>=◌,
}
use infinite_kanban.Contract.Assignment.{validate_assignment, capabilities}
use infinite_kanban.Contract.Result.{
  ExecutionEvidence, ExecutionResult, EvidenceOutcome, approved, validate_result, check_identity,
  check_reviewed, evidence_value, evidence_values, settlement, finding_values,
}
use infinite_kanban.Workflow.RunStore.{
  BoardWorkflowRun, WorkflowDispatch, DispatchState, sending, running, implementing, reviewing,
  done,
}
use infinite_kanban.Workflow.Coordinator.Session.{
  Session, relayed_progress, save_run, Agent, TaskFacts, Surroundings, begin, Effect, saved, sent,
  projected, RemoteProgress,
}
use infinite_kanban.Workflow.Coordinator.Operations.{StartWorkflow, start}
use infinite_kanban.Workflow.Coordinator.Dispatching.{
  dispatch_role, assign, send_dispatch, last_implementation, is_candidate, required_tags,
  assignment_fields, texts,
}
use infinite_kanban.Workflow.Coordinator.Projecting.{project, projection, projection_key}
use infinite_kanban.Workflow.Coordinator.Settling.{accept, settle, judge}
use infinite_kanban.Workflow.Coordinator.Runs.{
  Operation, start_workflow, accept_result, perform, trace_of, IsReachable, first, next,
}
use infinite_kanban.Workflow.Coordinator.Soundness.{Settled, IsConfirmed, IsIntended}
use infinite_kanban.Workflow.Coordinator.Ticking.{max_relayed, fresh_progress, relay_progress}
use infinite_kanban.Workflow.Coordinator.Soundness.Judged.{IsTaken}
use infinite_kanban.Workflow.Coordinator.Soundness.Outcomes.{IsUntaken, settle-outcome}
use infinite_kanban.Workflow.Coordinator.Soundness.Relays.{all_ids, IsKept, relayed_once}
use infinite_kanban.Workflow.Coordinator.Soundness.Reached.{
  done-IsReviewed, IsReviewed, dispatches_bounded, sent-IsIntended,
}

abbrev first_revision : String
first_revision = "aaaaaaaaaaaaaaaaaaaaaaaaaaaaaaaaaaaaaaaa"

abbrev second_revision : String
second_revision = "bbbbbbbbbbbbbbbbbbbbbbbbbbbbbbbbbbbbbbbb"

abbrev tags : List (List String)
tags = ("execution:v1" ∷ "repository:git@example.org:x" ∷ "consent:p" ∷ "review:snapshot" ∷ []) ∷ []

abbrev agent_at : String → String → Agent
agent_at id endpoint = record {
  id = id;
  endpoint = endpoint;
  protocol_version = "1.0";
  skills = tags;
  enabled = true;
  unreachable_since = none;
  project_access = ("p", implementation ∷ review ∷ []) ∷ [];
}

-- Both endpoints may do either role; the reviewer is whichever did not implement.
abbrev around : String → Surroundings
around id = record {
  now = 10;
  agents = agent_at "e1" "https://one.example" ∷ agent_at "e2" "https://two.example" ∷ [];
  assignment_id = id;
  has_sink = false;
  send = λ d. some "remote";
  get_update = λ d id. none;
  cancel_remote = λ d id. true;
  verify_evidence = λ r endpoint. none;
  update_task = λ p. true;
  negotiate = λ v. some v;
  normalize_repo_url = λ u. u;
  parse_url = λ u. none;
  decimal = λ n. "0";
  show_findings = λ f. "[]";
  same_json = λ r v. false;
}

abbrev task : TaskFacts
task = record {
  project_id = "p";
  title = "Fix";
  description = "it";
  in_group = false;
  assigned = false;
  run_requested = false;
  column = ColumnId.backlog;
  agent_status = idle;
  archived = false;
}

abbrev asked : StartWorkflow
asked = record {
  repository = "git@example.org:x";
  base_revision = first_revision;
  required_capabilities = none;
  policy = record {
    auto_finish = some true;
    max_rounds = none;
    max_dispatches = none;
    deadline = some 100;
    required_checks = none;
  };
}

abbrev tests_passed : Json
tests_passed = object (
    field "check" (text "tests") (
      field "revision" (text second_revision) (
        field "outcome" (text "passed")
          (field "artifact" (text "https://example.org/log") no_fields))))

abbrev brought : Json
brought = object (
    field "schemaVersion" (natural 1) (
      field "taskId" (text "t1") (
        field "workflowRunId" (text "r1") (
          field "assignmentId" (text "a1") (
            field "attempt" (natural 1) (
              field "role" (text "implementation") (
                field "endpointId" (text "e1") (
                  field "revision" (text second_revision) (
                    field "summary" (text "ok")
                      (field "evidence" (array (item tests_passed no_items)) no_fields))))))))))

abbrev judged : Json
judged = object (
    field "schemaVersion" (natural 1) (
      field "taskId" (text "t1") (
        field "workflowRunId" (text "r1") (
          field "assignmentId" (text "a2") (
            field "attempt" (natural 2) (
              field "role" (text "review") (
                field "endpointId" (text "e2") (
                  field "revision" (text second_revision) (
                    field "summary" (text "ok") (
                      field "evidence" (array (item tests_passed no_items)) (
                        field "verdict" (text "approved")
                          (field "findings" (array no_items) no_fields))))))))))))

abbrev begin_operation : Operation
begin_operation = start_workflow "r1" "t1" (some task) asked

abbrev named_as : String → String → ℕ → ExecutionRole → Identity
named_as assignment endpoint attempt role = record {
  task_id = "t1";
  workflow_run_id = "r1";
  assignment_id = assignment;
  endpoint_id = endpoint;
  attempt = attempt;
  role = role;
}

abbrev tests_evidence : ExecutionEvidence
tests_evidence = record {
  check = "tests";
  revision = second_revision;
  outcome = EvidenceOutcome.passed;
  artifact = "https://example.org/log";
}

abbrev first_dispatch : WorkflowDispatch
first_dispatch = record {
  assignment = record {
    project_id = "p";
    named = named_as "a1" "e1" 1 implementation;
    repository = "git@example.org:x";
    base_revision = first_revision;
    target_revision = none;
    requirements = "Fix\n\nit";
    required_capabilities = [];
    deadline = 100;
    read_only = none;
    parent_implementation_assignment_id = none;
  };
  endpoint = "https://one.example";
  protocol_version = "1.0";
  state = running;
  remote_task_id = some "remote";
  result = none;
  relayed = none;
}

abbrev implemented : WorkflowDispatch
implemented = record first_dispatch {
  state = DispatchState.accepted;
  result = some (record {
    named = named_as "a1" "e1" 1 implementation;
    revision = second_revision;
    summary = "ok";
    evidence = tests_evidence ∷ [];
    verdict = none;
    findings = none;
  });
}

abbrev second_dispatch : WorkflowDispatch
second_dispatch = record {
  assignment = record {
    project_id = "p";
    named = named_as "a2" "e2" 2 review;
    repository = "git@example.org:x";
    base_revision = second_revision;
    target_revision = some second_revision;
    requirements = "Fix\n\nit";
    required_capabilities = [];
    deadline = 100;
    read_only = some true;
    parent_implementation_assignment_id = some "a1";
  };
  endpoint = "https://two.example";
  protocol_version = "1.0";
  state = running;
  remote_task_id = some "remote";
  result = none;
  relayed = none;
}

abbrev reviewed : WorkflowDispatch
reviewed = record second_dispatch {
  state = DispatchState.accepted;
  result = some (record {
    named = named_as "a2" "e2" 2 review;
    revision = second_revision;
    summary = "ok";
    evidence = tests_evidence ∷ [];
    verdict = some approved;
    findings = some [];
  });
}

abbrev started_run : BoardWorkflowRun
started_run = record {
  id = "r1";
  task_id = "t1";
  project_id = "p";
  version = 4;
  phase = implementing;
  projected_key = some "implementing|0|||";
  repository = "git@example.org:x";
  base_revision = first_revision;
  requirements = "Fix\n\nit";
  required_capabilities = [];
  policy = record {
    auto_finish = true;
    max_rounds = 3;
    max_dispatches = 6;
    deadline = 100;
    required_checks = [];
  };
  assignments = first_dispatch ∷ [];
  diagnostics = [];
  accepted_revision = none;
  approved_revision = none;
  approved_by = none;
  approved_at = none;
  projected_phase = some implementing;
}

abbrev reviewing_run : BoardWorkflowRun
reviewing_run = record started_run {
  version = 8;
  phase = reviewing;
  projected_key = some "reviewing|0||bbbbbbbbbbbbbbbbbbbbbbbbbbbbbbbbbbbbbbbb|";
  projected_phase = some reviewing;
  assignments = implemented ∷ second_dispatch ∷ [];
  accepted_revision = some second_revision;
}

abbrev finished : BoardWorkflowRun
finished = record reviewing_run {
  version = 10;
  phase = done;
  projected_key = some "done|0||bbbbbbbbbbbbbbbbbbbbbbbbbbbbbbbbbbbbbbbb|";
  projected_phase = some done;
  assignments = implemented ∷ reviewed ∷ [];
}

saves_started : In (saved started_run) (trace_of (perform (around "a1") begin_operation none))
unfolding start accept dispatch_role assign send_dispatch save_run project projection projection_key
    settle judge last_implementation is_candidate required_tags assignment_fields texts
    validate_assignment validate_result ◌>>=◌ strict_record identity text_field lookup is_text
    is_assignment_id is_immutable_revision is_portable_repository has_scheme capabilities
    check_identity check_reviewed evidence_values evidence_value is_retrievable_artifact settlement
    finding_values flat_map
saves_started = inl refl

saves_reviewing :
    In
      (saved reviewing_run)
      (trace_of (perform (around "a2") (accept_result brought "e1") (some started_run)))
unfolding start accept dispatch_role assign send_dispatch save_run project projection projection_key
    settle judge last_implementation is_candidate required_tags assignment_fields texts
    validate_assignment validate_result ◌>>=◌ strict_record identity text_field lookup is_text
    is_assignment_id is_immutable_revision is_portable_repository has_scheme capabilities
    check_identity check_reviewed evidence_values evidence_value is_retrievable_artifact settlement
    finding_values flat_map
saves_reviewing = inl refl

saves_finished :
    In
      (saved finished)
      (trace_of (perform (around "a3") (accept_result judged "e2") (some reviewing_run)))
unfolding start accept dispatch_role assign send_dispatch save_run project projection projection_key
    settle judge last_implementation is_candidate required_tags assignment_fields texts
    validate_assignment validate_result ◌>>=◌ strict_record identity text_field lookup is_text
    is_assignment_id is_immutable_revision is_portable_repository has_scheme capabilities
    check_identity check_reviewed evidence_values evidence_value is_retrievable_artifact settlement
    finding_values flat_map
saves_finished = inl refl

reviewing_reached : IsReachable reviewing_run
reviewing_reached =
    next (around "a2") (accept_result brought "e1") started_run reviewing_run
      (first (around "a1") begin_operation started_run saves_started) saves_reviewing

finished_reached : IsReachable finished
finished_reached =
    next (around "a3") (accept_result judged "e2") reviewing_run finished reviewing_reached
      saves_finished

done-IsReviewed_example :
    IsReviewed finished × ((true ≡ true) ⊎ IsConfirmed (some second_revision) none)
done-IsReviewed_example = done-IsReviewed finished finished_reached refl

dispatches_bounded_example : (2 ≤ 6) × Settled (implemented ∷ reviewed ∷ [])
dispatches_bounded_example = dispatches_bounded finished finished_reached

abbrev sending_second : WorkflowDispatch
sending_second = record second_dispatch { state = sending; remote_task_id = none }

abbrev accepted_run : BoardWorkflowRun
accepted_run = record started_run {
  version = 5;
  assignments = implemented ∷ [];
  accepted_revision = some second_revision;
}

abbrev intended_run : BoardWorkflowRun
intended_run = record accepted_run {
  version = 6;
  phase = reviewing;
  assignments = implemented ∷ sending_second ∷ [];
}

abbrev sent_run : BoardWorkflowRun
sent_run = record intended_run { version = 7; assignments = implemented ∷ second_dispatch ∷ [] }

abbrev after_sending : List Effect
after_sending =
    saved reviewing_run
    ∷ projected (record {
      column = ColumnId.review;
      agent_status = executing;
      summary = "Workflow reviewing";
      completed_at = none;
    })
    ∷ saved sent_run
    ∷ []

sends_second :
    trace_of (perform (around "a2") (accept_result brought "e1") (some started_run))
    ≡ after_sending ++ sent sending_second ∷ saved intended_run ∷ saved accepted_run ∷ []
unfolding start accept dispatch_role assign send_dispatch save_run project projection projection_key
    settle judge last_implementation is_candidate required_tags assignment_fields texts
    validate_assignment validate_result ◌>>=◌ strict_record identity text_field lookup is_text
    is_assignment_id is_immutable_revision is_portable_repository has_scheme capabilities
    check_identity check_reviewed evidence_values evidence_value is_retrievable_artifact settlement
    finding_values flat_map
sends_second = refl

sent-IsIntended_example : IsIntended sending_second (saved intended_run ∷ saved accepted_run ∷ [])
sent-IsIntended_example =
    sent-IsIntended (around "a2") (accept_result brought "e1") started_run after_sending
      (saved intended_run ∷ saved accepted_run ∷ []) sending_second
      (first (around "a1") begin_operation started_run saves_started) sends_second

settle-outcome_example :
    IsUntaken
      (around "a3")
      (begin reviewing_run)
      (settle (around "a3") judged "e2" (begin reviewing_run))
    ⊎ ((d : WorkflowDispatch) × (r : ExecutionResult) × (get_last?
            (implemented ∷ second_dispatch ∷ [])
          ≡ some d)
        × IsTaken (around "a3") reviewing_run judged "e2" d r)
settle-outcome_example = settle-outcome (around "a3") (begin reviewing_run) judged "e2"

abbrev progress_line : String → RemoteProgress
progress_line id = record { message_id = id; text = "Working"; kind = none }

abbrev told_first : WorkflowDispatch
told_first = record second_dispatch { relayed = some ("m1" ∷ []) }

abbrev lines : List RemoteProgress
lines = progress_line "m1" ∷ progress_line "m2" ∷ []

part_of_lines : (e : RemoteProgress) → In e (progress_line "m2" ∷ []) → In e lines
part_of_lines e m = inr m

few_ids : length (all_ids told_first lines) ≤ max_relayed
unfolding fresh_progress
few_ids = omega arith

abbrev told_run : BoardWorkflowRun
told_run = record reviewing_run { assignments = implemented ∷ told_first ∷ [] }

abbrev later_lines : List RemoteProgress
later_lines = progress_line "m2" ∷ []

abbrev recording : String → Surroundings
recording id = record (around id) { has_sink = true }

abbrev relays_once : Session
relays_once = relay_progress (recording "a3") told_first lines (begin told_run)

relays_one : relays_once.trace ≡ saved relays_once.run ∷ relayed_progress (progress_line "m2") ∷ []
unfolding relay_progress fresh_progress save_run
relays_one = refl

relayed_once_example :
    ((e : RemoteProgress)
      → In e lines
      → contains ("m1" ∷ []) e.message_id ≡ false
      → In (relayed_progress e) relays_once.trace)
    × IsKept (begin told_run) relays_once
    × ((d' : WorkflowDispatch) × (get_last? relays_once.run.assignments ≡ some d')
        × (relay_progress (recording "a4") d' later_lines relays_once ≡ relays_once))
relayed_once_example =
    relayed_once (recording "a3") (recording "a4") told_first lines later_lines (begin told_run)
      refl refl few_ids part_of_lines
