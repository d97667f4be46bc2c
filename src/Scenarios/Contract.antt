-- ===== src/Scenarios/Contract.antt =====
-- An assignment for a review and the result that is sent for it (shared/execution.ts).
use infinite_kanban.Prelude.{false, ◌≡◌, refl, String, none, some, [], ◌∷◌, In}
use infinite_kanban.Contract.Json.{
  Json, natural, text, array, object, no_items, item, no_fields, field,
}
use infinite_kanban.Contract.Text.{
  is_text, is_immutable_revision, is_assignment_id, is_retrievable_artifact,
}
use infinite_kanban.Contract.Check.{review, accepted, Identity, strict_record, identity, ◌>>=◌}
use infinite_kanban.Contract.Assignment.{ExecutionAssignment}
use infinite_kanban.Contract.Result.{
  ExecutionEvidence, ExecutionResult, passed, approved, error, validate_result, check_identity,
  check_reviewed, evidence_value, evidence_values, settlement, finding_value,
}
use infinite_kanban.Contract.Binding.{validate_result-binds, IsJudged}

abbrev revision : String
revision = "aaaaaaaaaaaaaaaaaaaaaaaaaaaaaaaaaaaaaaaa"

abbrev dispatched : Identity
dispatched = record {
  task_id = "t1";
  workflow_run_id = "r1";
  assignment_id = "a1";
  endpoint_id = "e1";
  attempt = 2;
  role = review;
}

abbrev to_review : ExecutionAssignment
to_review = record {
  project_id = "p";
  named = dispatched;
  repository = "https://example.org/x";
  base_revision = revision;
  target_revision = some revision;
  requirements = "Fix it";
  required_capabilities = [];
  deadline = 100;
  read_only = none;
  parent_implementation_assignment_id = none;
}

abbrev tests_passed : Json
tests_passed = object (
    field "check" (text "tests") (
      field "revision" (text revision) (
        field "outcome" (text "passed")
          (field "artifact" (text "https://example.org/log") no_fields))))

-- A severity in an array of its own.
abbrev hidden_error : Json
hidden_error = object (
    field "severity" (array (item (text "error") no_items))
      (field "explanation" (text "It loses data") no_fields))

abbrev sent : Json
sent = object (
    field "schemaVersion" (natural 1) (
      field "taskId" (text "t1") (
        field "workflowRunId" (text "r1") (
          field "assignmentId" (text "a1") (
            field "attempt" (natural 2) (
              field "role" (text "review") (
                field "endpointId" (text "e1") (
                  field "revision" (text revision) (
                    field "summary" (text "ok") (
                      field "evidence" (array (item tests_passed no_items)) (
                        field "verdict" (text "approved") (
                          field "findings" (array (item hidden_error no_items))
                            no_fields))))))))))))

abbrev received : ExecutionResult
received = record {
  named = dispatched;
  revision = revision;
  summary = "ok";
  evidence =
      record {
        check = "tests";
        revision = revision;
        outcome = passed;
        artifact = "https://example.org/log";
      }
      ∷ [];
  verdict = some approved;
  findings = some (
      record { severity = error; plain = false; explanation = "It loses data"; location = none }
      ∷ []);
}

-- The approval is accepted, though its finding is an error.
accepts_hidden_error : validate_result (some sent) to_review ≡ accepted received
unfolding validate_result ◌>>=◌ strict_record identity is_text is_assignment_id check_identity
    is_immutable_revision check_reviewed evidence_values evidence_value is_retrievable_artifact
    settlement finding_value
accepts_hidden_error = refl

validate_result-binds_example :
    (dispatched ≡ dispatched)
    × ((e : ExecutionEvidence) × In e received.evidence)
    × ((e : ExecutionEvidence) → In e received.evidence → e.revision ≡ revision)
    × (review ≡ review → some revision ≡ some revision)
    × IsJudged review received.evidence (some approved) received.findings
validate_result-binds_example =
    validate_result-binds (some sent) to_review received accepts_hidden_error
