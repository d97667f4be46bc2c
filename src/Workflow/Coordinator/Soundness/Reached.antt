-- ===== src/Workflow/Coordinator/Soundness/Reached.antt =====
-- What holds of every run that a task's store may hold (services/board-workflow.ts).
use infinite_kanban.Prelude.{
  ◌≡◌, ◌≢◌, ◌≤◌, ◌⊎◌, refl, sym, ap, ◌∙◌, subst, true, Option, none, some, List, [], ◌∷◌, ◌++◌,
  length, get_last?, In, inl, inr, or_else,
}
use mathlib.Core.Option.{some-injective, none-ne-some}
use infinite_kanban.Contract.Check.{ExecutionRole, implementation, review}
use infinite_kanban.Contract.Result.{ExecutionResult, approved}
use infinite_kanban.Workflow.RunStore.{BoardWorkflowRun, WorkflowDispatch, done}
use infinite_kanban.Workflow.Coordinator.Session.{
  Surroundings, Effect, saved, sent, cancel_sent, projected, relayed_progress, Flow, returned,
  failed_with, refused,
}
use infinite_kanban.Workflow.Coordinator.Runs.{
  Operation, start_workflow, accept_result, approve_revision, cancel_workflow, retry_workflow,
  tick_workflow, perform, trace_of, IsReachable, first, next,
}
use infinite_kanban.Workflow.Coordinator.Soundness.{
  Maker, maker_as, maker_of, IsSound, Settled, IsIntended, Traced, safe-Traced, IsSafeFlow,
  IsApproved, IsConfirmed, DecidedRun, revision_made,
}
use infinite_kanban.Workflow.Coordinator.Soundness.History.{IsHistory-last, latest-In}
use infinite_kanban.Workflow.Coordinator.Soundness.Commands.{
  IsSoundIf, start-IsSafe, accept-IsSafe, approve-IsSafe,
}
use infinite_kanban.Workflow.Coordinator.Soundness.Fences.{cancel-IsSafe, retry-IsSafe}
use infinite_kanban.Workflow.Coordinator.Soundness.Ticks.{tick-IsSafe}

perform-IsSafe :
    (env : Surroundings) (op : Operation) (stored : Option BoardWorkflowRun)
    → IsSoundIf stored
    → IsSafeFlow (perform env op stored)
perform-IsSafe env (start_workflow run_id task_id task input) stored h =
    start-IsSafe env run_id task_id stored task input
perform-IsSafe env (accept_result response endpoint_id) stored h =
    accept-IsSafe env stored response endpoint_id h
perform-IsSafe env (approve_revision revision actor) stored h =
    approve-IsSafe env stored revision actor h
perform-IsSafe env cancel_workflow stored h = cancel-IsSafe env stored h
perform-IsSafe env (retry_workflow task) stored h = retry-IsSafe env stored task h
perform-IsSafe env tick_workflow none h = tt
perform-IsSafe env tick_workflow (some run) h = tick-IsSafe env run h

flow-Traced : (flow : Flow) → IsSafeFlow flow → Traced (trace_of flow)
flow-Traced (returned s) h = safe-Traced s h
flow-Traced (failed_with e s) h = safe-Traced s h
flow-Traced (refused e) h = tt

abbrev saved_run : BoardWorkflowRun → Effect → BoardWorkflowRun
saved_run other (saved run) = run
saved_run other _ = other

Traced-IsSound :
    (trace : List Effect) (run : BoardWorkflowRun)
    → Traced trace
    → In (saved run) trace
    → IsSound run
Traced-IsSound [] run t m = elim m [ ]
Traced-IsSound (saved r ∷ trace) run (sound, t) m = elim m [
  | inl e ↦ subst IsSound (sym (ap (saved_run run) e)) sound
  | inr k ↦ Traced-IsSound trace run t k
]
Traced-IsSound (sent d ∷ trace) run (intended, t) m = elim m [
  | inl e ↦ cc
  | inr k ↦ Traced-IsSound trace run t k
]
Traced-IsSound (cancel_sent id ∷ trace) run t m = elim m [
  | inl e ↦ cc
  | inr k ↦ Traced-IsSound trace run t k
]
Traced-IsSound (projected p ∷ trace) run t m = elim m [
  | inl e ↦ cc
  | inr k ↦ Traced-IsSound trace run t k
]
Traced-IsSound (relayed_progress p ∷ trace) run t m = elim m [
  | inl e ↦ cc
  | inr k ↦ Traced-IsSound trace run t k
]

pub reachable-IsSound : (run : BoardWorkflowRun) → IsReachable run → IsSound run
reachable-IsSound _ (first env op run m) =
    Traced-IsSound _ run (flow-Traced _ (perform-IsSafe env op none tt)) m
reachable-IsSound _ (next env op before run reached m) =
    Traced-IsSound _ run
      (flow-Traced _ (perform-IsSafe env op (some before) (reachable-IsSound before reached))) m

maker-parts :
    (role : ExecutionRole) (o : Option ExecutionResult) (i : WorkflowDispatch) (k : Maker)
    → maker_as role (record i { result = o }) ≡ some k
    → (role ≡ implementation)
      × ((p : ExecutionResult) × (o ≡ some p)
          × (p.revision ≡ k.2)
          × (i.assignment.named.endpoint_id ≡ k.0)
          × (i.endpoint ≡ k.1))
maker-parts implementation none i k h = absurd (none-ne-some k h)
maker-parts implementation (some p) i k h =
    let e = some-injective _ k h in
    (refl, (p, refl, ap (λ x. x.2) e, ap (λ x. x.0) e, ap (λ x. x.1) e))
maker-parts review o i k h = absurd (none-ne-some k h)

-- The last dispatch is an accepted review of the accepted revision with an approval, and a
-- dispatch to another endpoint at another address has brought this revision.
abbrev pub IsReviewed : BoardWorkflowRun → Type 0
IsReviewed run =
    (d i : WorkflowDispatch) × (r p : ExecutionResult) × (get_last? run.assignments ≡ some d)
    × ((d.assignment.named.role ≡ review)
        × (d.result ≡ some r)
        × (r.named ≡ d.assignment.named)
        × (r.verdict ≡ some approved)
        × (run.accepted_revision ≡ some r.revision))
    × (In i run.assignments
        × (i.assignment.named.role ≡ implementation)
        × (i.result ≡ some p)
        × (p.revision ≡ r.revision))
    × (i.assignment.named.endpoint_id ≢ d.assignment.named.endpoint_id)
    × (i.endpoint ≢ d.endpoint)

approved-IsReviewed :
    (run : BoardWorkflowRun) → IsSound run → IsApproved run.assignments → IsReviewed run
approved-IsReviewed run sound (d, r, last, brought, as_role, verdict) =
    let (m, (paired, (bound, _)), known, whole) =
      IsHistory-last run.assignments _ _ d last sound.0 in
    let (k, made, target, other_id, other_endpoint) = paired as_role in
    let (_, named, reviewed) = bound r brought in
    let same : k.2 ≡ r.revision = some-injective _ _ (sym target ∙ reviewed as_role) in
    let unmade : maker_of d ≡ none = ap (λ x. maker_as x d) as_role in
    let produced : run.accepted_revision ≡ some r.revision =
      known ∙ ap (λ x. revision_made (or_else x m)) unmade ∙ ap revision_made made ∙ ap some same in
    elim (latest-In none run.assignments k (whole ∙ ap (λ x. or_else x m) unmade ∙ made)) [
      | inl e ↦ absurd (none-ne-some k e)
      | inr (i, found, by) ↦
          let (implements, (p, has, revision, at_id, at_endpoint)) =
            maker-parts i.assignment.named.role i.result i k by in
          (
            d,
            i,
            r,
            p,
            last,
            (as_role, brought, named, verdict, produced),
            (found, implements, has, revision ∙ same),
            λ e. other_id (sym at_id ∙ e),
            λ e. other_endpoint (sym at_endpoint ∙ e),
          )
    ]

done_decided :
    (run : BoardWorkflowRun)
    → run.phase ≡ done
    → DecidedRun run
    → IsApproved run.assignments
      × ((run.policy.auto_finish ≡ true) ⊎ IsConfirmed run.accepted_revision run.approved_revision)
done_decided run e decided = rw e at decided

-- A stored run that is done was reviewed: its last dispatch is a review whose accepted result
-- approves exactly the accepted revision, and an earlier accepted implementation at another
-- endpoint and another address brought this revision. Besides, its policy finishes runs without
-- the operator, or the approved revision is the accepted one. This holds of every document that
-- the operations save, wherever an operation ends.
pub done-IsReviewed :
    (run : BoardWorkflowRun)
    → IsReachable run
    → run.phase ≡ done
    → IsReviewed run
      × ((run.policy.auto_finish ≡ true) ⊎ IsConfirmed run.accepted_revision run.approved_revision)
done-IsReviewed run reached finished =
    let sound = reachable-IsSound run reached in
    let (won, confirmed) = done_decided run finished sound.1 in
    (approved-IsReviewed run sound won, confirmed)

-- A stored run has at most as many dispatches as its policy allows, and every dispatch but the
-- last is accepted or fenced: at most one is open.
pub dispatches_bounded :
    (run : BoardWorkflowRun)
    → IsReachable run
    → (length run.assignments ≤ run.policy.max_dispatches) × Settled run.assignments
dispatches_bounded run reached =
    let ((bound, paired, settled, produced), decided) = reachable-IsSound run reached in
    (bound, settled)

intent_first :
    (newer older : List Effect) (d : WorkflowDispatch)
    → Traced (newer ++ sent d ∷ older)
    → IsIntended d older
intent_first [] older d (intended, t) = intended
intent_first (saved r ∷ newer) older d (sound, t) = intent_first newer older d t
intent_first (sent e ∷ newer) older d (intended, t) = intent_first newer older d t
intent_first (cancel_sent id ∷ newer) older d t = intent_first newer older d t
intent_first (projected p ∷ newer) older d t = intent_first newer older d t
intent_first (relayed_progress p ∷ newer) older d t = intent_first newer older d t

-- Where an operation on a stored run sends a request, the effect just before it is the save of a
-- document whose last dispatch is the one that is sent, in the state `sending`, and whose attempt
-- is the number of the document's dispatches.
pub sent-IsIntended :
    (env : Surroundings) (op : Operation) (run : BoardWorkflowRun) (newer older : List Effect)
    (d : WorkflowDispatch)
    → IsReachable run
    → trace_of (perform env op (some run)) ≡ newer ++ sent d ∷ older
    → IsIntended d older
sent-IsIntended env op run newer older d reached e = intent_first newer older d (
    subst Traced e
      (flow-Traced _ (perform-IsSafe env op (some run) (reachable-IsSound run reached))))
