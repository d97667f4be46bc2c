-- ===== src/Workflow/Coordinator/Soundness/Fences.antt =====
-- A fenced dispatch is closed: `cancel` and `retry` of services/board-workflow.ts.
use infinite_kanban.Prelude.{
  ℕ, ◌≡◌, refl, sym, ap, ◌∙◌, ◌⊎◌, subst, String, Bool, true, Option, none, some, List, [], ◌∷◌,
  ◌==◌, string_eq, any, contains, get_last?, Option-cases, inl, inr,
}
use infinite_kanban.Workflow.RunStore.{
  BoardWorkflowRun, WorkflowDispatch, fenced, RunPhase, implementing, reviewing, awaiting_approval,
  done, escalated, dispatch_uncertain, canceled, Diagnostic,
}
use infinite_kanban.Workflow.Coordinator.Session.{
  Surroundings, Session, TaskFacts, begin, with_last, cancel_sent, did, update_last,
}
use infinite_kanban.Workflow.Coordinator.Messages.{names_limit}
use infinite_kanban.Workflow.Coordinator.Projecting.{phase_eq, project}
use infinite_kanban.Workflow.Coordinator.Settling.{is_settled_state, without_approval}
use infinite_kanban.Workflow.Coordinator.Operations.{
  fence_open, cancel_at, cancel, retried_role, is_busy, retry_run, retry_task, retry,
}
use infinite_kanban.Workflow.Coordinator.Soundness.{
  maker_of, IsPaired, IsBound, IsHistory, IsDecided, IsSound, IsSafe, safe, safe-IsSound,
  safe-Traced, IsSafeFlow,
}
use infinite_kanban.Workflow.Coordinator.Soundness.History.{
  EndsClosed, IsHistory-adjust, IsHistory-last, last_adjusted,
}
use infinite_kanban.Workflow.Coordinator.Soundness.Saves.{
  save_run-IsSafe, project-IsSafe, if-IsSafe, and_then-IsSafeFlow,
}
use infinite_kanban.Workflow.Coordinator.Soundness.Sends.{
  dispatch_role-IsSafe, if-IsSafeFlow, IsBound-unfinished, maker-unfinished,
}
use infinite_kanban.Workflow.Coordinator.Soundness.Settles.{ends_saved}
use infinite_kanban.Workflow.Coordinator.Soundness.Commands.{begin-IsSafe, IsSoundIf}

-- A fence changes a dispatch without a result, and no other.
fenced_cases :
    (d : WorkflowDispatch)
    → ((d.result ≡ none) × (fence_open d ≡ record d { state = fenced })) ⊎ (fence_open d ≡ d)
fenced_cases d = elim (Option-cases d.result) [
  | inl gone ↦ inl (gone, rw gone refl)
  | inr (r, found) ↦ inr (rw found refl)
]

pub fence-IsHistory :
    (ds : List WorkflowDispatch) (limit : ℕ) (known : Option String)
    → IsHistory ds limit known
    → IsHistory (update_last fence_open ds) limit known
fence-IsHistory ds limit known history =
    IsHistory-adjust ds limit known fence_open
      (λ m d p. elim (fenced_cases d) [
        | inl (gone, e) ↦ subst (IsPaired m) (sym e) p
        | inr e ↦ subst (IsPaired m) (sym e) p
      ])
      (λ d last b. elim (fenced_cases d) [
        | inl (gone, e) ↦
            subst IsBound (sym e) (IsBound-unfinished (record d { state = fenced }) gone refl)
        | inr e ↦ subst IsBound (sym e) b
      ])
      (λ d. elim (fenced_cases d) [
        | inl (gone, e) ↦
            ap maker_of e
            ∙ maker-unfinished (record d { state = fenced }) gone
            ∙ sym (maker-unfinished d gone)
        | inr e ↦ ap maker_of e
      ])
      history

fence-IsClosed : (d : WorkflowDispatch) → IsBound d → is_settled_state (fence_open d).state ≡ true
fence-IsClosed d (bound, _) = elim (Option-cases d.result) [
  | inl gone ↦ rw gone refl
  | inr (r, found) ↦ rw found (ap is_settled_state (bound r found).0)
]

fence-EndsClosed :
    (ds : List WorkflowDispatch) (limit : ℕ) (known : Option String)
    → IsHistory ds limit known
    → EndsClosed (update_last fence_open ds)
fence-EndsClosed ds limit known history e found =
    let (d, last, same) = last_adjusted fence_open ds e found in
    let (m, (paired, bound), made, _) = IsHistory-last ds limit known d last history in
    ap (λ (x : WorkflowDispatch). is_settled_state x.state) same ∙ fence-IsClosed d bound

cancel_at-IsSafe :
    (env : Surroundings) (s : Session) (o : Option (WorkflowDispatch × String))
    → IsSafe s
    → IsSafe (cancel_at env s o)
cancel_at-IsSafe env s none h = h
cancel_at-IsSafe env s (some (d, id)) h =
    let (history, decided) = safe-IsSound s h in
    if-IsSafe (env.cancel_remote d id) _ _
      (safe (did (cancel_sent id) s) history decided (safe-Traced s h))
      (save_run-IsSafe _ (safe _ history decided (safe-Traced s h)))

pub cancel-IsSafe :
    (env : Surroundings) (stored : Option BoardWorkflowRun)
    → IsSoundIf stored
    → IsSafeFlow (cancel env stored)
unfolding cancel
cancel-IsSafe env none sound = tt
cancel-IsSafe env (some run) sound =
    if-IsSafeFlow (run.phase == done) _ _ (λ _. tt)
      (λ _. cancel_at-IsSafe env _ _ (
        project-IsSafe env _ (
          save_run-IsSafe _ (
            begin-IsSafe (with_last fence_open (record run { phase = canceled }))
              (fence-IsHistory run.assignments _ _ sound.0, tt)))))

-- A phase from which a retry starts has nothing to decide.
IsDecided-retried :
    (phase : RunPhase) (ds : List WorkflowDispatch) (auto : Bool) (known confirmed : Option String)
    → contains (canceled ∷ escalated ∷ []) phase ≡ true
    → IsDecided phase ds auto known confirmed
IsDecided-retried canceled ds auto a c h = tt
IsDecided-retried escalated ds auto a c h = tt
IsDecided-retried implementing ds auto a c h = tt
IsDecided-retried reviewing ds auto a c h = tt
IsDecided-retried dispatch_uncertain ds auto a c h = tt
IsDecided-retried awaiting_approval ds auto a c h = cc
IsDecided-retried done ds auto a c h = cc

retry_run-IsSafe :
    (env : Surroundings) (run : BoardWorkflowRun)
    → contains (canceled ∷ escalated ∷ []) run.phase ≡ true
    → IsSound run
    → IsSafeFlow (retry_run env run)
retry_run-IsSafe env run stopped sound =
    let begun =
      begin-IsSafe (without_approval (with_last fence_open run)) (
        fence-IsHistory run.assignments _ _ sound.0,
        IsDecided-retried run.phase _ _ _ _ stopped,
      ) in
    and_then-IsSafeFlow _ (project env) (project-IsSafe env) (
      dispatch_role-IsSafe env (retried_role (get_last? run.assignments)) _
        (save_run-IsSafe _ begun)
        (ends_saved (begin (without_approval (with_last fence_open run)))
          (fence-EndsClosed run.assignments _ _ sound.0)))

retry_task-IsSafe :
    (env : Surroundings) (run : BoardWorkflowRun) (task : Option TaskFacts)
    → contains (canceled ∷ escalated ∷ []) run.phase ≡ true
    → IsSound run
    → IsSafeFlow (retry_task env run task)
retry_task-IsSafe env run none stopped sound = tt
retry_task-IsSafe env run (some task) stopped sound =
    if-IsSafeFlow (is_busy run task) _ _ (λ _. tt) (λ _. retry_run-IsSafe env run stopped sound)

pub retry-IsSafe :
    (env : Surroundings) (stored : Option BoardWorkflowRun) (task : Option TaskFacts)
    → IsSoundIf stored
    → IsSafeFlow (retry env stored task)
unfolding retry
retry-IsSafe env none task sound = tt
retry-IsSafe env (some run) task sound =
    if-IsSafeFlow (contains (canceled ∷ escalated ∷ []) run.phase) _ _
      (λ stopped.
        if-IsSafeFlow (any (λ (d : Diagnostic). names_limit d.reason) run.diagnostics) _ _ (λ _. tt)
          (λ _. retry_task-IsSafe env run task stopped sound))
      (λ _. tt)
