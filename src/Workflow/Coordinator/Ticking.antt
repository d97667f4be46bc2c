-- ===== src/Workflow/Coordinator/Ticking.antt =====
-- `tick` and `relayProgress` of services/board-workflow.ts, for one run.
use infinite_kanban.Prelude.{
  ℕ, ◌-◌, String, Bool, true, false, not, Option, none, some, List, [], ◌∷◌, ◌++◌, ◌==◌, string_eq,
  leb, filter, contains, get_last?, length, value_or, map, if◌then◌else◌,
}
use Prim.Native.String.{◌++◌ as ◌<>◌}
use infinite_kanban.Contract.Json.{Json}
use infinite_kanban.Contract.Check.{implementation}
use infinite_kanban.Workflow.RunStore.{
  BoardWorkflowRun, WorkflowDispatch, DispatchState, running, fenced, DiagnosticCategory,
}
use infinite_kanban.Workflow.Coordinator.Session.{
  Surroundings, Session, Flow, returned, begin, and_then, with_run, relayed_progress, did, save_run,
  escalate, with_last, RemoteState, RemoteProgress, RemoteUpdate, remote_pending, remote_running,
  remote_completed, remote_failed, remote_canceled, input_required, rejected,
}
use infinite_kanban.Workflow.Coordinator.Dispatching.{dispatch_role, dispatched_phase}
use infinite_kanban.Workflow.Coordinator.Projecting.{project}
use infinite_kanban.Workflow.Coordinator.Settling.{is_closed_phase, settle}
use infinite_kanban.Workflow.Coordinator.Operations.{role_after}

abbrev pub max_relayed : ℕ
max_relayed = 200

abbrev pub drop : {A : Type 0} → ℕ → List A → List A
drop n [] = []
drop n (x ∷ xs) = elim n [ ℕ.zero ↦ x ∷ xs | ℕ.suc k ↦ drop k xs ]

-- `xs.slice(-n)`
abbrev pub keep_last : {A : Type 0} → ℕ → List A → List A
keep_last n xs = drop (length xs - n) xs

unfoldable pub fresh_progress : WorkflowDispatch → List RemoteProgress → List RemoteProgress
fresh_progress d history =
    filter (λ (e : RemoteProgress). not (contains (value_or d.relayed []) e.message_id)) history

abbrev pub relay_each : List RemoteProgress → Session → Session
relay_each [] s = s
relay_each (e ∷ rest) s = relay_each rest (did (relayed_progress e) s)

-- `[...new Set(xs)]`: each text once, where it stands first.
abbrev pub distinct : List String → List String
distinct [] = []
distinct (x ∷ xs) = x ∷ filter (λ y. not (x == y)) (distinct xs)

abbrev pub with_relayed : List RemoteProgress → WorkflowDispatch → WorkflowDispatch
with_relayed fresh d = record d {
  relayed = some (
      keep_last max_relayed
        (distinct (value_or d.relayed []) ++ map (λ (e : RemoteProgress). e.message_id) fresh));
}

abbrev pub relay_fresh : List RemoteProgress → Session → Session
relay_fresh [] s = s
relay_fresh (e ∷ rest) s =
    let s' = relay_each (e ∷ rest) s in
    save_run (with_run (with_last (with_relayed (e ∷ rest)) s'.run) s')

-- An entry whose text is empty is relayed too, though `record` then writes nothing.
unfoldable pub relay_progress :
    Surroundings → WorkflowDispatch → List RemoteProgress → Session → Session
unfolding save_run fresh_progress
relay_progress env d history s =
    if env.has_sink then relay_fresh (fresh_progress d history) s else s

abbrev pub data_of : List (Option Json) → List Json
data_of [] = []
data_of (none ∷ parts) = data_of parts
data_of (some v ∷ parts) = v ∷ data_of parts

abbrev pub all_data : List (List (Option Json)) → List Json
all_data [] = []
all_data (parts ∷ rest) = data_of parts ++ all_data rest

abbrev pub only : List Json → Option Json
only (v ∷ []) = some v
only _ = none

-- `resultFromArtifacts` of packages/a2a/src/execution.ts: `none` where it throws.
unfoldable pub result_from_artifacts : List (List (Option Json)) → Option Json
result_from_artifacts artifacts = only (all_data artifacts)

abbrev pub settle_completed : Surroundings → String → Session → Option Json → Session
settle_completed env endpoint_id s none =
    escalate env.now DiagnosticCategory.acceptance
      "completed task must contain exactly one structured result" s
settle_completed env endpoint_id s (some result) = project env (settle env result endpoint_id s)

abbrev pub still_running : WorkflowDispatch → WorkflowDispatch
still_running d = record d {
  state = running;
  remote_task_id = some (value_or d.remote_task_id d.assignment.named.assignment_id);
}

abbrev pub keep_running : WorkflowDispatch → Session → Session
keep_running d s = save_run (
    with_run
      (record (with_last still_running s.run) { phase = dispatched_phase d.assignment.named.role })
      s)

abbrev pub failed_remotely : Surroundings → String → Session → Session
failed_remotely env name s =
    project env (escalate env.now DiagnosticCategory.execution ("endpoint execution " <> name) s)

abbrev pub on_state :
    Surroundings → WorkflowDispatch → List (List (Option Json)) → RemoteState → Session → Session
on_state env d artifacts remote_completed s =
    settle_completed env d.assignment.named.endpoint_id s (result_from_artifacts artifacts)
on_state env d artifacts rejected s =
    project env
      (escalate env.now DiagnosticCategory.dispatch "endpoint refused assignment admission" s)
on_state env d artifacts remote_failed s = failed_remotely env "failed" s
on_state env d artifacts remote_canceled s = failed_remotely env "canceled" s
on_state env d artifacts input_required s = failed_remotely env "input_required" s
on_state env d artifacts remote_pending s = project env (keep_running d s)
on_state env d artifacts remote_running s = project env (keep_running d s)

abbrev pub on_update : Surroundings → WorkflowDispatch → Session → Option RemoteUpdate → Session
on_update env d s none = s
on_update env d s (some u) = on_state env d u.artifacts u.state (relay_progress env d u.history s)

abbrev pub poll : Surroundings → WorkflowDispatch → Session → Session
poll env d s =
    on_update env d s
      (env.get_update d (value_or d.remote_task_id d.assignment.named.assignment_id))

abbrev pub expire : Surroundings → Session → Session
expire env s = project env (
    escalate env.now DiagnosticCategory.execution "workflow deadline expired"
      (with_run (with_last (λ d. record d { state = fenced }) s.run) s))

abbrev pub tick_open : Surroundings → WorkflowDispatch → Session → Session
tick_open env d s = if leb s.run.policy.deadline env.now then expire env s else poll env d s

abbrev pub is_accepted_state : DispatchState → Bool
is_accepted_state DispatchState.accepted = true
is_accepted_state _ = false

abbrev pub tick_last : Surroundings → Session → Option WorkflowDispatch → Flow
tick_last env s none = and_then (dispatch_role env implementation s) (project env)
tick_last env s (some d) =
    if is_accepted_state d.state
    then dispatch_role env (role_after d.assignment.named.role) s
    else returned (tick_open env d s)

unfoldable pub tick : Surroundings → BoardWorkflowRun → Flow
unfolding save_run escalate dispatch_role project settle relay_progress result_from_artifacts
tick env run =
    let s = project env (begin run) in
    if is_closed_phase s.run then returned s else tick_last env s (get_last? s.run.assignments)
