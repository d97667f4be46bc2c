-- ===== src/Contract/Result.antt =====
-- `validateResult` of shared/execution.ts.
use infinite_kanban.Prelude.{
  String, Bool, true, false, not, ◌&&◌, ◌||◌, Option, none, some, List, [], ◌∷◌, ◌==◌, nat_eq,
  string_eq, any, is_none, if◌then◌else◌,
}
use infinite_kanban.Contract.Json.{Json, text, array, items, no_items, item, lookup}
use infinite_kanban.Contract.Text.{is_retrievable_artifact}
use infinite_kanban.Contract.Check.{
  ExecutionRole, implementation, review, Validated, accepted, thrown, ◌>>=◌, require, strict_record,
  text_field, Identity, identity, optional_text_value, revision_value, execution_role_eq,
  does_not_match, wrong_reviewed_revision, missing_evidence, evidence_revision_mismatch,
  invalid_evidence_outcome, retrievable_artifact_required, structured_review_verdict_required,
  findings_required, invalid_severity, changes_require_actionable_findings, approval_conflicts,
  implementation_cannot_settle_review,
}
use infinite_kanban.Contract.Assignment.{ExecutionAssignment}

-- `outcome: 'passed' | 'failed'`
pub data EvidenceOutcome : Type 0 where
  passed failed : EvidenceOutcome

pub record ExecutionEvidence : Type 0 where
  pub check : String
  pub revision : String
  pub outcome : EvidenceOutcome
  pub artifact : String

pub data Severity : Type 0 where
  info warning error : Severity

pub record ExecutionFinding : Type 0 where
  pub severity : Severity
  pub plain : Bool
  pub explanation : String
  pub location : Option String

pub data Verdict : Type 0 where
  approved changes_requested : Verdict

pub record ExecutionResult : Type 0 where
  pub named : Identity
  pub revision : String
  pub summary : String
  pub evidence : List ExecutionEvidence
  pub verdict : Option Verdict
  pub findings : Option (List ExecutionFinding)

abbrev pub result_keys : List String
result_keys =
    "schemaVersion" ∷ "taskId" ∷ "workflowRunId" ∷ "assignmentId" ∷ "attempt" ∷ "role"
    ∷ "endpointId" ∷ "revision" ∷ "summary" ∷ "evidence" ∷ "verdict" ∷ "findings" ∷ []

-- The loop over the keys that must match the active dispatch.
unfoldable pub check_identity : Identity → Identity → Validated Unit
check_identity r a = require (r.task_id == a.task_id) (does_not_match "taskId") >>= λ _.
    require (r.workflow_run_id == a.workflow_run_id) (does_not_match "workflowRunId") >>= λ _.
    require (r.assignment_id == a.assignment_id) (does_not_match "assignmentId") >>= λ _.
    require (r.attempt == a.attempt) (does_not_match "attempt") >>= λ _.
    require (r.role == a.role) (does_not_match "role") >>= λ _.
    require (r.endpoint_id == a.endpoint_id) (does_not_match "endpointId")

-- The revision that the evidence gives, where it is the one expected.
abbrev pub revision_matches : String → Option Json → Validated String
revision_matches revision (some (text s)) =
    require (s == revision) evidence_revision_mismatch >>= λ _. accepted s
revision_matches revision _ = thrown evidence_revision_mismatch

abbrev pub outcome_value : Option Json → Validated EvidenceOutcome
outcome_value (some (text s)) =
    if s == "passed"
    then accepted passed
    else if s == "failed"
    then accepted failed
    else thrown invalid_evidence_outcome
outcome_value _ = thrown invalid_evidence_outcome

unfoldable pub evidence_value : String → Json → Validated ExecutionEvidence
unfolding lookup text_field strict_record
evidence_value revision value =
    strict_record (some value) ("check" ∷ "revision" ∷ "outcome" ∷ "artifact" ∷ []) >>= λ e.
    text_field e "check" >>= λ check. revision_matches revision (lookup "revision" e) >>= λ given.
    outcome_value (lookup "outcome" e) >>= λ outcome. text_field e "artifact" >>= λ artifact.
    require (is_retrievable_artifact artifact) retrievable_artifact_required >>= λ _.
    accepted (record { check = check; revision = given; outcome = outcome; artifact = artifact })

unfoldable pub evidence_values : String → List Json → Validated (List ExecutionEvidence)
evidence_values revision [] = accepted []
evidence_values revision (v ∷ rest) =
    evidence_value revision v >>= λ e. evidence_values revision rest >>= λ es. accepted (e ∷ es)

-- `!Array.isArray(record.evidence) || !record.evidence.length`
abbrev pub not_empty : List Json → Validated (List Json)
not_empty [] = thrown missing_evidence
not_empty (v ∷ rest) = accepted (v ∷ rest)

abbrev pub evidence_array : Option Json → Validated (List Json)
evidence_array (some (array vs)) = not_empty (items vs)
evidence_array _ = thrown missing_evidence

abbrev pub severity_named : String → Validated Severity
severity_named s =
    if s == "info"
    then accepted info
    else if s == "warning"
    then accepted warning
    else if s == "error"
    then accepted error
    else thrown invalid_severity

-- `String(f.severity)`: an array of one item has the text of this item, and every other value has a
-- text that names no severity.
unfoldable pub severity_value : Json → Validated Severity
severity_value (text s) = severity_named s
severity_value (array no_items) = thrown invalid_severity
severity_value (array (item v no_items)) = severity_value v
severity_value (array (item v (item w rest))) = thrown invalid_severity
severity_value _ = thrown invalid_severity

-- Whether the severity is a text itself, which `===` asks for.
abbrev pub is_plain : Option Json → Bool
is_plain (some (text s)) = true
is_plain _ = false

abbrev pub given_severity : Option Json → Validated Severity
given_severity none = thrown invalid_severity
given_severity (some v) = severity_value v

unfoldable pub finding_value : Json → Validated ExecutionFinding
unfolding lookup text_field strict_record severity_value
finding_value value =
    strict_record (some value) ("severity" ∷ "explanation" ∷ "location" ∷ []) >>= λ f.
    given_severity (lookup "severity" f) >>= λ severity.
    text_field f "explanation" >>= λ explanation.
    optional_text_value (lookup "location" f) "location" >>= λ location. accepted (record {
      severity = severity;
      plain = is_plain (lookup "severity" f);
      explanation = explanation;
      location = location;
    })

unfoldable pub finding_values : List Json → Validated (List ExecutionFinding)
finding_values [] = accepted []
finding_values (v ∷ rest) = finding_value v >>= λ f. finding_values rest >>= λ fs. accepted (f ∷ fs)

abbrev pub verdict_value : Option Json → Validated Verdict
verdict_value (some (text s)) =
    if s == "approved"
    then accepted approved
    else if s == "changes_requested"
    then accepted changes_requested
    else thrown structured_review_verdict_required
verdict_value _ = thrown structured_review_verdict_required

abbrev pub findings_value : Option Json → Validated (List ExecutionFinding)
findings_value (some (array vs)) = finding_values (items vs)
findings_value _ = thrown findings_required

-- `f.severity === 'error'`
abbrev pub is_error : ExecutionFinding → Bool
is_error f = f.plain && elim f.severity [ info ↦ false | warning ↦ false | error ↦ true ]

abbrev pub has_failed : ExecutionEvidence → Bool
has_failed e = elim e.outcome [ passed ↦ false | failed ↦ true ]

abbrev pub check_verdict : List ExecutionEvidence → Verdict → List ExecutionFinding → Validated Unit
check_verdict es changes_requested [] = thrown changes_require_actionable_findings
check_verdict es changes_requested (f ∷ fs) = accepted tt
check_verdict es approved fs =
    require (not (any is_error fs || any has_failed es)) approval_conflicts

pub record Settlement : Type 0 where
  pub verdict : Option Verdict
  pub findings : Option (List ExecutionFinding)

unfoldable pub settlement :
    ExecutionRole → List ExecutionEvidence → Option Json → Option Json → Validated Settlement
unfolding finding_values
settlement review es verdict findings = verdict_value verdict >>= λ v.
    findings_value findings >>= λ fs.
    check_verdict es v fs >>= λ _. accepted (record { verdict = some v; findings = some fs })
settlement implementation es verdict findings =
    require (is_none verdict && is_none findings) implementation_cannot_settle_review >>= λ _.
    accepted (record { verdict = none; findings = none })

-- The revision that a review must name.
unfoldable pub check_reviewed : ExecutionAssignment → String → Validated Unit
check_reviewed a revision = elim a.named.role [
  | implementation ↦ accepted tt
  | review ↦ elim a.target_revision [
    | none ↦ thrown wrong_reviewed_revision
    | some target ↦ require (revision == target) wrong_reviewed_revision
  ]
]

unfoldable pub validate_result : Option Json → ExecutionAssignment → Validated ExecutionResult
unfolding lookup
validate_result value a = strict_record value result_keys >>= λ r. identity r >>= λ named.
    check_identity named a.named >>= λ _. revision_value (lookup "revision" r) >>= λ revision.
    text_field r "summary" >>= λ summary. check_reviewed a revision >>= λ _.
    evidence_array (lookup "evidence" r) >>= λ vs. evidence_values revision vs >>= λ es.
    settlement a.named.role es (lookup "verdict" r) (lookup "findings" r) >>= λ s.
    accepted (record {
      named = named;
      revision = revision;
      summary = summary;
      evidence = es;
      verdict = s.verdict;
      findings = s.findings;
    })
