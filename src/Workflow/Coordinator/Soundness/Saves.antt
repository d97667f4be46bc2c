-- ===== src/Workflow/Coordinator/Soundness/Saves.antt =====
-- Saves, escalations and projections keep a session safe (services/board-workflow.ts).
use infinite_kanban.Prelude.{
  ℕ, String, Bool, true, false, not, ◌&&◌, ◌||◌, Option, List, if◌then◌else◌,
}
use infinite_kanban.Contract.Check.{ExecutionRole, implementation, review}
use infinite_kanban.Workflow.RunStore.{WorkflowDispatch, DiagnosticCategory}
use infinite_kanban.Workflow.Coordinator.Session.{
  Surroundings, Session, Flow, returned, failed_with, refused, and_then, did, projected, Projection,
  with_run, save_run, escalate,
}
use infinite_kanban.Workflow.Coordinator.Dispatching.{dispatched_phase}
use infinite_kanban.Workflow.Coordinator.Projecting.{
  is_text_of, is_phase, has_settled, projection_key, projection, project, checkpointed,
}
use infinite_kanban.Workflow.Coordinator.Soundness.{
  HasHistory, IsDecided, Traced, IsSafe, safe, safe-IsSound, safe-Traced, IsSafeFlow,
}

pub save_run-IsSafe : (s : Session) → IsSafe s → IsSafe (save_run s)
unfolding save_run
save_run-IsSafe s h =
    let (history, decided) = safe-IsSound s h in
    safe (save_run s) history decided ((history, decided), safe-Traced s h)

pub escalate-IsSafe :
    (now : ℕ) (category : DiagnosticCategory) (reason : String) (s : Session)
    → HasHistory s.run
    → Traced s.trace
    → IsSafe (escalate now category reason s)
unfolding escalate
escalate-IsSafe now category reason s history traced = save_run-IsSafe _ (safe _ history tt traced)

pub dispatched-IsDecided :
    (role : ExecutionRole) (ds : List WorkflowDispatch) (auto : Bool)
    (accepted confirmed : Option String)
    → IsDecided (dispatched_phase role) ds auto accepted confirmed
dispatched-IsDecided implementation ds auto accepted confirmed = tt
dispatched-IsDecided review ds auto accepted confirmed = tt

-- An effect that is neither a save nor a request, and a checkpoint of the projection.
projected-IsSafe : (p : Projection) (s : Session) → IsSafe s → IsSafe (did (projected p) s)
projected-IsSafe p s h =
    let (history, decided) = safe-IsSound s h in
    safe (did (projected p) s) history decided (safe-Traced s h)

checkpointed-IsSafe :
    (key : String) (s : Session) → IsSafe s → IsSafe (with_run (checkpointed key s.run) s)
checkpointed-IsSafe key s h =
    let (history, decided) = safe-IsSound s h in
    safe (with_run (checkpointed key s.run) s) history decided (safe-Traced s h)

-- A conditional is safe where both of its branches are.
pub if-IsSafe : (b : Bool) (s t : Session) → IsSafe s → IsSafe t → IsSafe (if b then s else t)
if-IsSafe true s t h k = h
if-IsSafe false s t h k = k

pub project-IsSafe : (env : Surroundings) (s : Session) → IsSafe s → IsSafe (project env s)
unfolding project
project-IsSafe env s h =
    let key = projection_key env s.run in
    let shown = projected-IsSafe (projection env s.run) s h in
    if-IsSafe (is_text_of s.run.projected_key key) _ _ h (
      if-IsSafe (has_settled s.run) _ _ h (
        if-IsSafe
          (env.update_task (projection env s.run)
            && (not (is_phase s.run.projected_phase s.run.phase)
                || not (is_text_of s.run.projected_key key)))
          _ _ (save_run-IsSafe _ (checkpointed-IsSafe key _ shown)) shown))

pub and_then-IsSafeFlow :
    (flow : Flow) (f : Session → Session)
    → ((s : Session) → IsSafe s → IsSafe (f s))
    → IsSafeFlow flow
    → IsSafeFlow (and_then flow f)
and_then-IsSafeFlow (returned s) f keeps h = keeps s h
and_then-IsSafeFlow (failed_with e s) f keeps h = h
and_then-IsSafeFlow (refused e) f keeps h = tt
