-- ===== src/Contract/Assignment.antt =====
-- `validateAssignment` of shared/execution.ts. The platform's URL parser is the parameter
-- `parse_url`, which is `none` where `new URL` throws.
use infinite_kanban.Prelude.{
  ℕ, String, Bool, not, ◌&&◌, ◌||◌, Option, none, some, List, [], ◌∷◌, ◌==◌, nat_eq, string_eq, leb,
  any, if◌then◌else◌,
}
use infinite_kanban.Contract.Json.{Json, bool, natural, text, array, items, lookup}
use infinite_kanban.Contract.Text.{codes, is_portable_repository, has_scheme}
use infinite_kanban.Contract.Check.{
  ExecutionRole, implementation, review, Validated, accepted, thrown, ◌>>=◌, require, strict_record,
  text_field, Identity, identity, invalid, optional_text_value, revision_value, execution_role_eq,
  portable_repository_required, invalid_repository, invalid_url,
  implementation_cannot_set_target_revision,
}

pub record ExecutionAssignment : Type 0 where
  pub project_id : String
  pub named : Identity
  pub repository : String
  pub base_revision : String
  pub target_revision : Option String
  pub requirements : String
  pub required_capabilities : List String
  pub deadline : ℕ
  pub read_only : Option Bool
  pub parent_implementation_assignment_id : Option String

abbrev pub execution_assignment_keys : List String
execution_assignment_keys =
    "schemaVersion" ∷ "taskId" ∷ "projectId" ∷ "workflowRunId" ∷ "assignmentId" ∷ "attempt" ∷ "role"
    ∷ "endpointId" ∷ "repository" ∷ "baseRevision" ∷ "targetRevision" ∷ "requirements"
    ∷ "requiredCapabilities" ∷ "constraints" ∷ "parentImplementationAssignmentId" ∷ []

pub record Url : Type 0 where
  pub protocol : String
  pub username : String
  pub password : String
  pub hostname : String
  pub pathname : String
  pub query : String
  pub hash : String

abbrev pub is_bad_url : Url → Bool
is_bad_url url =
    not (url.password == "")
    || (not (url.query == "")
        || (not (url.hash == "")
            || ((url.protocol == "https:" && not (url.username == ""))
                || (url.hostname == "" || not (any (λ c. not (c == b'/')) (codes url.pathname))))))

abbrev pub capability : Json → Validated String
capability (text s) = require (not (s == "")) (invalid "requiredCapabilities") >>= λ _. accepted s
capability _ = thrown (invalid "requiredCapabilities")

unfoldable pub capabilities : List Json → Validated (List String)
capabilities [] = accepted []
capabilities (v ∷ rest) = capability v >>= λ c. capabilities rest >>= λ cs. accepted (c ∷ cs)

abbrev pub capabilities_value : Option Json → Validated (List String)
capabilities_value (some (array vs)) = capabilities (items vs)
capabilities_value _ = thrown (invalid "requiredCapabilities")

abbrev pub deadline_value : Option Json → Validated ℕ
deadline_value (some (natural n)) = require (leb 1 n) (invalid "constraints") >>= λ _. accepted n
deadline_value _ = thrown (invalid "constraints")

abbrev pub read_only_value : Option Json → Validated (Option Bool)
read_only_value none = accepted none
read_only_value (some (bool b)) = accepted (some b)
read_only_value (some _) = thrown (invalid "constraints")

abbrev pub target_value : ExecutionRole → Option Json → Validated (Option String)
target_value review v = revision_value v >>= λ s. accepted (some s)
target_value implementation none = accepted none
target_value implementation (some _) = thrown implementation_cannot_set_target_revision

module _ (parse_url : String → Option Url) where
  abbrev pub check_url : Option Url → Validated Unit
  check_url none = thrown invalid_url
  check_url (some url) = require (not (is_bad_url url)) invalid_repository

  abbrev pub check_repository : String → Validated Unit
  check_repository s = require (is_portable_repository s) portable_repository_required >>= λ _.
      if has_scheme (codes s) then check_url (parse_url s) else accepted tt

  unfoldable pub validate_assignment : Option Json → Validated ExecutionAssignment
  unfolding lookup
  validate_assignment value = strict_record value execution_assignment_keys >>= λ r.
      identity r >>= λ named. text_field r "projectId" >>= λ project.
      text_field r "repository" >>= λ repository. check_repository repository >>= λ _.
      revision_value (lookup "baseRevision" r) >>= λ base.
      text_field r "requirements" >>= λ requirements.
      capabilities_value (lookup "requiredCapabilities" r) >>= λ required.
      strict_record (lookup "constraints" r) ("deadline" ∷ "readOnly" ∷ []) >>= λ constraints.
      deadline_value (lookup "deadline" constraints) >>= λ deadline.
      read_only_value (lookup "readOnly" constraints) >>= λ read_only.
      target_value named.role (lookup "targetRevision" r) >>= λ target.
      optional_text_value (lookup "parentImplementationAssignmentId" r)
        "parentImplementationAssignmentId"
      >>= λ parent. accepted (record {
        project_id = project;
        named = named;
        repository = repository;
        base_revision = base;
        target_revision = target;
        requirements = requirements;
        required_capabilities = required;
        deadline = deadline;
        read_only = read_only;
        parent_implementation_assignment_id = parent;
      })
