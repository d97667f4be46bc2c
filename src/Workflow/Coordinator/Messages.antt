-- ===== src/Workflow/Coordinator/Messages.antt =====
-- The texts of errors, and the coordinator's tests on them (services/board-workflow.ts,
-- shared/execution.ts).
use infinite_kanban.Prelude.{String, Bool, ◌||◌, ◌==◌, string_eq, is_some, ℕ, List, [], ◌∷◌}
use Prim.Native.String.{◌++◌ as ◌<>◌}
use infinite_kanban.Contract.Check.{
  ContractError, expected_structured_object, unsupported_schema_version,
  immutable_revision_required, portable_repository_required, invalid_repository,
  implementation_cannot_set_target_revision, wrong_reviewed_revision, missing_evidence,
  evidence_revision_mismatch, invalid_evidence_outcome, retrievable_artifact_required,
  structured_review_verdict_required, findings_required, invalid_severity,
  changes_require_actionable_findings, approval_conflicts, implementation_cannot_settle_review,
  invalid_url, unexpected_field, invalid, does_not_match,
}
use infinite_kanban.Contract.Text.{codes, after}

unfoldable pub message : ContractError → String
message expected_structured_object = "expected structured object"
message unsupported_schema_version = "unsupported schemaVersion"
message immutable_revision_required = "immutable revision required"
message portable_repository_required = "portable repository required"
message invalid_repository = "invalid repository"
message implementation_cannot_set_target_revision = "implementation cannot set targetRevision"
message wrong_reviewed_revision = "wrong reviewed revision"
message missing_evidence = "missing evidence"
message evidence_revision_mismatch = "evidence revision mismatch"
message invalid_evidence_outcome = "invalid evidence outcome"
message retrievable_artifact_required = "retrievable content-addressed artifact required"
message structured_review_verdict_required = "structured review verdict required"
message findings_required = "findings required"
message invalid_severity = "invalid severity"
message changes_require_actionable_findings = "changes require actionable findings"
message approval_conflicts = "approval conflicts with evidence/findings"
message implementation_cannot_settle_review = "implementation cannot settle review"
message invalid_url = "Invalid URL"
message (unexpected_field key) = "unexpected field: " <> key
message (invalid name) = "invalid " <> name
message (does_not_match key) = "result " <> (key <> " does not match active dispatch")

-- Whether the text of the codes stands in another one.
unfoldable pub stands_in : List ℕ → List ℕ → Bool
unfolding after
stands_in needle [] = is_some (after needle [])
stands_in needle (c ∷ cs) = is_some (after needle (c ∷ cs)) || stands_in needle cs

abbrev pub includes : String → String → Bool
includes reason part = stands_in (codes part) (codes reason)

-- Whether a refusal leaves the run's phase alone.
unfoldable pub is_late : String → Bool
unfolding stands_in
is_late reason =
    reason == "late/fenced result"
    || (reason == "wrong producing endpoint" || includes reason "does not match active dispatch")

-- `/round limit|dispatch\/deadline limit/`
unfoldable pub names_limit : String → Bool
unfolding stands_in
names_limit reason = includes reason "round limit" || includes reason "dispatch/deadline limit"
