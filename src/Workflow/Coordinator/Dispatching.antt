-- ===== src/Workflow/Coordinator/Dispatching.antt =====
-- The choice of an endpoint and the sending of an assignment: `dispatch` of
-- services/board-workflow.ts. The texts for the task's log of events are left out.
use infinite_kanban.Prelude.{
  ℕ, zero, ◌+◌, String, Bool, true, not, ◌&&◌, ◌||◌, Option, none, some, List, [], ◌∷◌, ◌++◌, ◌==◌,
  string_eq, nat_eq, leb, filter, find, any, all, head?, contains, length, is_some, value_or,
  if◌then◌else◌,
}
use mathlib.Core.List.{reverse, flat_map}
use Prim.Native.String.{◌++◌ as ◌<>◌}
use infinite_kanban.Contract.Json.{
  Items, Fields, natural, text, array, object, bool, field, no_fields, item, no_items,
}
use infinite_kanban.Contract.Check.{
  ExecutionRole, implementation, review, execution_role_eq, Validated, accepted, thrown,
}
use infinite_kanban.Contract.Assignment.{ExecutionAssignment, validate_assignment}
use infinite_kanban.Workflow.RunStore.{
  BoardWorkflowRun, WorkflowDispatch, sending, running, implementing, reviewing, dispatch_uncertain,
  RunPhase, DiagnosticCategory,
}
use infinite_kanban.Workflow.Coordinator.Session.{
  Agent, is_truthy, Surroundings, sent, Session, Flow, returned, failed_with, with_run, did,
  save_run, diagnosed, escalate, with_last,
}
use infinite_kanban.Workflow.Coordinator.Messages.{message}

abbrev pub is_implementation_result : WorkflowDispatch → Bool
is_implementation_result d = d.assignment.named.role == implementation && is_some d.result

-- `[...run.assignments].reverse().find(…)`
unfoldable pub last_implementation : List WorkflowDispatch → Option WorkflowDispatch
last_implementation ds = find is_implementation_result (reverse ds)

unfoldable pub required_tags : Surroundings → BoardWorkflowRun → ExecutionRole → List String
required_tags env run role =
    "execution:v1"
    ∷ ("repository:" <> env.normalize_repo_url run.repository)
    ∷ ("consent:" <> run.project_id)
    ∷ (run.required_capabilities ++ (if role == review then "review:snapshot" ∷ [] else []))

-- `role!=='review'||(agent.id!==implementation?.assignment.endpointId && …)`
abbrev pub is_distinct : ExecutionRole → Option WorkflowDispatch → Agent → Bool
is_distinct implementation d agent = true
is_distinct review none agent = true
is_distinct review (some d) agent =
    not (agent.id == d.assignment.named.endpoint_id) && not (agent.endpoint == d.endpoint)

unfoldable pub is_candidate :
    Surroundings → BoardWorkflowRun → ExecutionRole → Option WorkflowDispatch → Agent → Bool
unfolding required_tags
is_candidate env run role before agent =
    let tags = flat_map (λ (s : List String). s) agent.skills in
    agent.enabled
    && (not (is_truthy agent.unreachable_since)
        && (any (λ p. p.0 == run.project_id && contains p.1 role) agent.project_access
            && (all (λ t. contains tags t) (required_tags env run role)
                && is_distinct role before agent)))

abbrev pub unreachable_text : Surroundings → ℕ → String
unreachable_text env zero = ""
unreachable_text env n =
    " ("
    <> (env.decimal n
        <> (" registered endpoint" <> ((if leb 2 n then "s are" else " is") <> " unreachable)")))

abbrev pub no_endpoint_text : Surroundings → ExecutionRole → String
no_endpoint_text env role =
    "no eligible "
    <> ((if role == review then "distinct review" else "implementation")
        <> (" endpoint with repository access and consent"
            <> unreachable_text env (
                length
                  (filter (λ (a : Agent). a.enabled && is_truthy a.unreachable_since) env.agents))))

unfoldable pub texts : List String → Items
texts [] = no_items
texts (s ∷ rest) = item (text s) (texts rest)

-- A key whose value is undefined reads as an absent one.
abbrev pub optional_field : String → Option String → Fields → Fields
optional_field key none rest = rest
optional_field key (some s) rest = field key (text s) rest

abbrev pub role_name : ExecutionRole → String
role_name implementation = "implementation"
role_name review = "review"

-- The fields of a review alone.
abbrev pub review_fields : ExecutionRole → Option String → Option WorkflowDispatch → Fields → Fields
review_fields implementation target before rest = rest
review_fields review target none rest = optional_field "targetRevision" target rest
review_fields review target (some d) rest =
    optional_field "targetRevision" target
      (field "parentImplementationAssignmentId" (text d.assignment.named.assignment_id) rest)

abbrev pub read_only_field : ExecutionRole → Fields
read_only_field implementation = no_fields
read_only_field review = field "readOnly" (bool true) no_fields

-- The object that `dispatch` and `start` give to `validateAssignment`.
unfoldable pub assignment_fields :
    BoardWorkflowRun
    → ExecutionRole
    → (id endpoint_id base : String) → ℕ
    → Option WorkflowDispatch
    → Fields
unfolding texts
assignment_fields run role id endpoint_id base attempt before = field "schemaVersion" (natural 1) (
    field "taskId" (text run.task_id) (
      field "projectId" (text run.project_id) (
        field "workflowRunId" (text run.id) (
          field "assignmentId" (text id) (
            field "attempt" (natural attempt) (
              field "role" (text (role_name role)) (
                field "endpointId" (text endpoint_id) (
                  field "repository" (text run.repository) (
                    field "baseRevision" (text base) (
                      field "requirements" (text run.requirements) (
                        field "requiredCapabilities" (array (texts run.required_capabilities)) (
                          field "constraints"
                            (object (
                              field "deadline" (natural run.policy.deadline)
                                (read_only_field role)))
                            (review_fields role run.accepted_revision before no_fields)))))))))))))

abbrev pub dispatched_phase : ExecutionRole → RunPhase
dispatched_phase implementation = implementing
dispatched_phase review = reviewing

abbrev pub sending_dispatch : ExecutionAssignment → String → String → WorkflowDispatch
sending_dispatch a endpoint version = record {
  assignment = a;
  endpoint = endpoint;
  protocol_version = version;
  state = sending;
  remote_task_id = none;
  result = none;
  relayed = none;
}

-- The run with the intent to send, which is saved before the request.
abbrev pub intended : ExecutionRole → WorkflowDispatch → BoardWorkflowRun → BoardWorkflowRun
intended role d run = record run {
  assignments = run.assignments ++ d ∷ [];
  phase = dispatched_phase role;
}

-- After the request: its receipt, or an uncertain outcome.
abbrev pub received : Surroundings → Option String → Session → Session
received env (some receipt) s = save_run (
    with_run (with_last (λ d. record d { remote_task_id = some receipt; state = running }) s.run) s)
received env none s = save_run (
    with_run
      (diagnosed env.now DiagnosticCategory.dispatch
        "uncertain dispatch; reconcile existing assignment, never blindly resend"
        (record s.run { phase = dispatch_uncertain }))
      s)

unfoldable pub send_dispatch : Surroundings → ExecutionRole → WorkflowDispatch → Session → Session
unfolding save_run
send_dispatch env role d s =
    received env (env.send d) (did (sent d) (save_run (with_run (intended role d s.run) s)))

abbrev pub with_version :
    Surroundings → ExecutionRole → Agent → Session → ExecutionAssignment → Option String → Flow
with_version env role agent s a none =
    failed_with ("A2A protocol version is not supported: " <> (agent.protocol_version <> ".")) s
with_version env role agent s a (some version) =
    returned (send_dispatch env role (sending_dispatch a agent.endpoint version) s)

abbrev pub with_assignment :
    Surroundings → ExecutionRole → Agent → Session → Validated ExecutionAssignment → Flow
with_assignment env role agent s (thrown e) = failed_with (message e) s
with_assignment env role agent s (accepted a) =
    with_version env role agent s a (env.negotiate agent.protocol_version)

unfoldable pub assign : Surroundings → ExecutionRole → Agent → Session → Flow
unfolding message send_dispatch last_implementation validate_assignment assignment_fields
assign env role agent s = with_assignment env role agent s (
    validate_assignment env.parse_url (
      some (
        object (
          assignment_fields s.run role env.assignment_id agent.id
            (value_or s.run.accepted_revision s.run.base_revision) (length s.run.assignments + 1)
            (last_implementation s.run.assignments)))))

abbrev pub to_endpoint : Surroundings → ExecutionRole → Session → Option Agent → Flow
to_endpoint env role s none =
    returned (escalate env.now DiagnosticCategory.dispatch (no_endpoint_text env role) s)
to_endpoint env role s (some agent) = assign env role agent s

abbrev pub candidates : Surroundings → ExecutionRole → BoardWorkflowRun → List Agent
candidates env role run =
    filter (is_candidate env run role (last_implementation run.assignments)) env.agents

unfoldable pub dispatch_role : Surroundings → ExecutionRole → Session → Flow
unfolding escalate assign is_candidate last_implementation
dispatch_role env role s =
    if leb s.run.policy.max_dispatches (length s.run.assignments)
      || leb s.run.policy.deadline env.now
    then returned (
        escalate env.now DiagnosticCategory.dispatch "workflow dispatch/deadline limit exhausted" s)
    else to_endpoint env role s (head? (candidates env role s.run))
