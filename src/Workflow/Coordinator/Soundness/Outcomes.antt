-- ===== src/Workflow/Coordinator/Soundness/Outcomes.antt =====
-- Both outcomes of a result (`settle` of services/board-workflow.ts).
use infinite_kanban.Prelude.{
  ◌+◌, ◌≡◌, ◌⊎◌, refl, String, some, [], ◌∷◌, ◌++◌, any, get_last?, Bool-cases, inl, inr,
  if◌then◌else◌,
}
use infinite_kanban.Contract.Json.{Json}
use infinite_kanban.Contract.Result.{ExecutionResult}
use infinite_kanban.Workflow.RunStore.{
  BoardWorkflowRun, WorkflowDispatch, escalated, DiagnosticCategory,
}
use infinite_kanban.Workflow.Coordinator.Session.{Surroundings, Session, saved, save_run}
use infinite_kanban.Workflow.Coordinator.Messages.{is_late}
use infinite_kanban.Workflow.Coordinator.Settling.{
  Judged, taken, not_taken, judge, refuse_result, apply_judgement, settle, is_repeated,
}
use infinite_kanban.Workflow.Coordinator.Soundness.Judged.{IsTaken, judge_lem}

-- The run keeps its version, its dispatches and its revisions, and has one more diagnostic; its
-- phase is the old one where the refusal is a late one, and else `escalated`.
abbrev pub refused_run : Surroundings → String → BoardWorkflowRun → BoardWorkflowRun
refused_run env reason run = record run {
  version = run.version + 1;
  phase = if is_late reason then run.phase else escalated;
  diagnostics =
      run.diagnostics
      ++ record { at = env.now; category = DiagnosticCategory.acceptance; reason = reason } ∷ [];
}

-- A result that is not taken: its one effect is a save.
abbrev pub IsUntaken : Surroundings → Session → Session → Type 0
IsUntaken env s s' =
    (s' ≡ s)
    ⊎ ((reason : String) × (s' ≡ record {
      run = refused_run env reason s.run;
      trace = saved (refused_run env reason s.run) ∷ s.trace;
    }))

refuse_result_lem :
    (env : Surroundings) (reason : String) (s : Session)
    → refuse_result env reason s ≡ record {
      run = refused_run env reason s.run;
      trace = saved (refused_run env reason s.run) ∷ s.trace;
    }
unfolding refuse_result save_run
refuse_result_lem env reason s = elim (Bool-cases (is_late reason)) [
  | inl late ↦ rw late refl
  | inr other ↦ rw other refl
]

judged-outcome :
    (env : Surroundings) (s : Session) (response : Json) (endpoint_id : String) (j : Judged)
    → judge env s.run response endpoint_id ≡ j
    → IsUntaken env s (apply_judgement env j s)
      ⊎ ((d : WorkflowDispatch) × (r : ExecutionResult) × (get_last? s.run.assignments ≡ some d)
          × IsTaken env s.run response endpoint_id d r)
judged-outcome env s response endpoint_id (not_taken reason) e =
    inl (inr (reason, refuse_result_lem env reason s))
judged-outcome env s response endpoint_id (taken r) e =
    let (d, last, takes) = judge_lem env s.run response endpoint_id r e in inr (d, r, last, takes)

-- Whatever response comes from whatever endpoint: either nothing changes, or the only effect is a
-- save of the run with one more diagnostic, whose dispatches and revisions are the old ones and
-- whose phase is the old one for a late refusal and `escalated` for another; or the run is open,
-- its last dispatch is neither accepted nor fenced and is this endpoint's, the contract accepts
-- the response for it, every required check has passed in it and its evidence is verified.
pub settle-outcome :
    (env : Surroundings) (s : Session) (response : Json) (endpoint_id : String)
    → IsUntaken env s (settle env response endpoint_id s)
      ⊎ ((d : WorkflowDispatch) × (r : ExecutionResult) × (get_last? s.run.assignments ≡ some d)
          × IsTaken env s.run response endpoint_id d r)
unfolding settle
settle-outcome env s response endpoint_id =
    elim (Bool-cases (any (is_repeated env response endpoint_id) s.run.assignments)) [
      | inl again ↦ inl (inl (rw again refl))
      | inr anew ↦ rw anew (judged-outcome env s response endpoint_id _ refl)
    ]
