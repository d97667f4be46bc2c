-- ===== src/Contract/Check.antt =====
-- The checks of shared/execution.ts that assignments and results share. Each returns the value
-- that it has checked, or the error that it throws.
use infinite_kanban.Prelude.{
  ℕ, ◌≡◌, ◌↔◌, String, Bool, true, false, not, Option, none, some, List, ◌==◌, nat_eq, string_eq,
  leb, find, contains, if◌then◌else◌, Eq, arith,
}
use infinite_kanban.Contract.Json.{Json, Fields, natural, text, object, lookup, keys_of}
use infinite_kanban.Contract.Text.{is_text, is_immutable_revision, is_assignment_id}

pub data ExecutionRole : Type 0 where
  implementation review : ExecutionRole

abbrev pub execution_role_rank : ExecutionRole → ℕ
execution_role_rank implementation = 0
execution_role_rank review = 1

pub execution_role_iff :
    (a b : ExecutionRole) → ((execution_role_rank a == execution_role_rank b) ≡ true) ↔ (a ≡ b)
execution_role_iff a b = ground arith

instance abbrev pub execution_role_eq : Eq ExecutionRole
execution_role_eq = record {
  same = λ a b. execution_role_rank a == execution_role_rank b;
  same_iff = execution_role_iff;
}

-- The messages of the errors.
pub data ContractError : Type 0 where
  expected_structured_object unsupported_schema_version : ContractError
  immutable_revision_required portable_repository_required invalid_repository : ContractError
  implementation_cannot_set_target_revision wrong_reviewed_revision missing_evidence : ContractError
  evidence_revision_mismatch invalid_evidence_outcome : ContractError
  retrievable_artifact_required structured_review_verdict_required : ContractError
  findings_required invalid_severity changes_require_actionable_findings : ContractError
  approval_conflicts implementation_cannot_settle_review : ContractError
  invalid_url : ContractError
  unexpected_field invalid does_not_match : String → ContractError

pub data Validated (A : Type 0) : Type 0 where
  accepted : A → Validated A
  thrown : ContractError → Validated A

infixl 5 ◌>>=◌
unfoldable pub ◌>>=◌ : {A B : Type 0} → Validated A → (A → Validated B) → Validated B
accepted a >>= f = f a
thrown e >>= f = thrown e

-- `if (!condition) throw error`
abbrev pub require : Bool → ContractError → Validated Unit
require true e = accepted tt
require false e = thrown e

abbrev pub known_fields : Fields → Option String → Validated Fields
known_fields r none = accepted r
known_fields r (some key) = thrown (unexpected_field key)

unfoldable pub strict_record : Option Json → List String → Validated Fields
strict_record (some (object fields)) keys =
    known_fields fields (find (λ key. not (contains keys key)) (keys_of fields))
strict_record _ keys = thrown expected_structured_object

-- `text(record[key], key)`
abbrev pub text_value : Option Json → String → Validated String
text_value (some (text s)) name = require (is_text s) (invalid name) >>= λ _. accepted s
text_value _ name = thrown (invalid name)

unfoldable pub text_field : Fields → String → Validated String
unfolding lookup
text_field r key = text_value (lookup key r) key

abbrev pub optional_text_value : Option Json → String → Validated (Option String)
optional_text_value none name = accepted none
optional_text_value (some v) name = text_value (some v) name >>= λ s. accepted (some s)

abbrev pub revision_value : Option Json → Validated String
revision_value (some (text s)) =
    require (is_immutable_revision s) immutable_revision_required >>= λ _. accepted s
revision_value _ = thrown immutable_revision_required

abbrev pub attempt_value : Option Json → Validated ℕ
attempt_value (some (natural n)) = require (leb 1 n) (invalid "attempt") >>= λ _. accepted n
attempt_value _ = thrown (invalid "attempt")

abbrev pub role_value : Option Json → Validated ExecutionRole
role_value (some (text s)) =
    if s == "implementation"
    then accepted implementation
    else if s == "review"
    then accepted review
    else thrown (invalid "role")
role_value _ = thrown (invalid "role")

abbrev pub version_value : Option Json → Validated Unit
version_value (some (natural n)) = require (n == 1) unsupported_schema_version
version_value _ = thrown unsupported_schema_version

pub record Identity : Type 0 where
  pub task_id : String
  pub workflow_run_id : String
  pub assignment_id : String
  pub endpoint_id : String
  pub attempt : ℕ
  pub role : ExecutionRole

unfoldable pub identity : Fields → Validated Identity
unfolding lookup text_field
identity r = version_value (lookup "schemaVersion" r) >>= λ _. text_field r "taskId" >>= λ task.
    text_field r "workflowRunId" >>= λ run. text_field r "assignmentId" >>= λ assignment.
    text_field r "endpointId" >>= λ endpoint.
    require (is_assignment_id assignment) (invalid "assignmentId") >>= λ _.
    attempt_value (lookup "attempt" r) >>= λ attempt. role_value (lookup "role" r) >>= λ role.
    accepted (record {
      task_id = task;
      workflow_run_id = run;
      assignment_id = assignment;
      endpoint_id = endpoint;
      attempt = attempt;
      role = role;
    })
