-- ===== src/Workflow/Coordinator/Soundness.antt =====
-- What holds of every document that the coordinator saves (services/board-workflow.ts).
pub mod History
pub mod Assigned
pub mod Saves
pub mod Sends
pub mod Judged
pub mod Settles
pub mod Commands
pub mod Fences
pub mod Ticks
pub mod Reached
pub mod Outcomes
pub mod Relays
use infinite_kanban.Prelude.{
  ℕ, ◌≡◌, ◌≢◌, ◌≤◌, ◌⊎◌, String, Bool, true, Option, none, some, List, [], ◌∷◌, length, get_last?,
  is_some, or_else,
}
use infinite_kanban.Contract.Check.{ExecutionRole, implementation, review}
use infinite_kanban.Contract.Result.{ExecutionResult, approved}
use infinite_kanban.Workflow.RunStore.{
  BoardWorkflowRun, WorkflowDispatch, DispatchState, sending, RunPhase, awaiting_approval, done,
}
use infinite_kanban.Workflow.Coordinator.Session.{
  Effect, saved, sent, cancel_sent, projected, relayed_progress, Session, Flow, returned,
  failed_with, refused,
}
use infinite_kanban.Workflow.Coordinator.Settling.{is_settled_state}

-- Who produced a revision: the endpoint's id and address, and the revision.
abbrev pub Maker : Type 0
Maker = String × String × String

abbrev pub made : WorkflowDispatch → Option ExecutionResult → Option Maker
made d none = none
made d (some r) = some (d.assignment.named.endpoint_id, d.endpoint, r.revision)

abbrev pub maker_as : ExecutionRole → WorkflowDispatch → Option Maker
maker_as implementation d = made d d.result
maker_as review d = none

abbrev pub maker_of : WorkflowDispatch → Option Maker
maker_of d = maker_as d.assignment.named.role d

-- The maker of the newest accepted implementation.
abbrev pub latest : Option Maker → List WorkflowDispatch → Option Maker
latest m [] = m
latest m (d ∷ ds) = latest (or_else (maker_of d) m) ds

abbrev pub revision_made : Option Maker → Option String
revision_made none = none
revision_made (some m) = some m.2

-- A review is of the newest accepted revision, by another endpoint at another address.
abbrev pub IsPaired : Option Maker → WorkflowDispatch → Type 0
IsPaired m d =
    d.assignment.named.role ≡ review
    → (k : Maker) × (m ≡ some k)
      × (d.assignment.target_revision ≡ some k.2)
      × (k.0 ≢ d.assignment.named.endpoint_id)
      × (k.1 ≢ d.endpoint)

-- A result is one that was accepted for this very assignment.
abbrev pub IsBound : WorkflowDispatch → Type 0
IsBound d =
    ((r : ExecutionResult)
      → d.result ≡ some r
      → (d.state ≡ DispatchState.accepted)
        × (r.named ≡ d.assignment.named)
        × (d.assignment.named.role ≡ review → d.assignment.target_revision ≡ some r.revision))
    × (d.state ≡ DispatchState.accepted → is_some d.result ≡ true)

abbrev pub Paired : Option Maker → List WorkflowDispatch → Type 0
Paired m [] = Unit
Paired m (d ∷ ds) = (IsPaired m d × IsBound d) × Paired (or_else (maker_of d) m) ds

abbrev pub IsClosed : WorkflowDispatch → Type 0
IsClosed d = is_settled_state d.state ≡ true

-- Every dispatch but the last one is accepted or fenced.
abbrev pub Settled : List WorkflowDispatch → Type 0
Settled [] = Unit
Settled (d ∷ []) = Unit
Settled (d ∷ e ∷ ds) = IsClosed d × Settled (e ∷ ds)

abbrev pub IsHistory : List WorkflowDispatch → ℕ → Option String → Type 0
IsHistory ds limit accepted =
    (length ds ≤ limit) × Paired none ds × Settled ds × (accepted ≡ revision_made (latest none ds))

-- The last dispatch is an accepted review, and its verdict an approval.
abbrev pub IsApproved : List WorkflowDispatch → Type 0
IsApproved ds =
    (d : WorkflowDispatch) × (r : ExecutionResult) × (get_last? ds ≡ some d)
    × (d.result ≡ some r)
    × (d.assignment.named.role ≡ review)
    × (r.verdict ≡ some approved)

abbrev pub IsConfirmed : Option String → Option String → Type 0
IsConfirmed accepted confirmed = (v : String) × (accepted ≡ some v) × (confirmed ≡ some v)

abbrev pub IsDecided :
    RunPhase → List WorkflowDispatch → Bool → (accepted confirmed : Option String) → Type 0
IsDecided awaiting_approval ds auto accepted confirmed = IsApproved ds
IsDecided done ds auto accepted confirmed =
    IsApproved ds × ((auto ≡ true) ⊎ IsConfirmed accepted confirmed)
IsDecided _ ds auto accepted confirmed = Unit

abbrev pub HasHistory : BoardWorkflowRun → Type 0
HasHistory run = IsHistory run.assignments run.policy.max_dispatches run.accepted_revision

abbrev pub IsSound : BoardWorkflowRun → Type 0
IsSound run =
    HasHistory run
    × IsDecided run.phase run.assignments run.policy.auto_finish run.accepted_revision
        run.approved_revision

-- The newest effect is the save of the intent to send this dispatch.
abbrev pub IsIntended : WorkflowDispatch → List Effect → Type 0
IsIntended d (saved run ∷ trace) =
    (get_last? run.assignments ≡ some d)
    × (d.state ≡ sending)
    × (d.assignment.named.attempt ≡ length run.assignments)
IsIntended d _ = ⊥

-- Every saved document is sound, and every request follows the save of its intent.
abbrev pub Traced : List Effect → Type 0
Traced [] = Unit
Traced (saved run ∷ trace) = IsSound run × Traced trace
Traced (sent d ∷ trace) = IsIntended d trace × Traced trace
Traced (cancel_sent id ∷ trace) = Traced trace
Traced (projected p ∷ trace) = Traced trace
Traced (relayed_progress e ∷ trace) = Traced trace

unfoldable pub IsSafe : Session → Type 0
IsSafe s = IsSound s.run × Traced s.trace

abbrev pub DecidedRun : BoardWorkflowRun → Type 0
DecidedRun run =
    IsDecided run.phase run.assignments run.policy.auto_finish run.accepted_revision
      run.approved_revision

pub safe : (s : Session) → HasHistory s.run → DecidedRun s.run → Traced s.trace → IsSafe s
unfolding IsSafe
safe s history decided traced = ((history, decided), traced)

pub safe-IsSound : (s : Session) → IsSafe s → IsSound s.run
unfolding IsSafe
safe-IsSound s h = h.0

pub safe-Traced : (s : Session) → IsSafe s → Traced s.trace
unfolding IsSafe
safe-Traced s h = h.1

pub safe_history : (s : Session) → IsSafe s → HasHistory s.run
safe_history s h = (safe-IsSound s h).0

abbrev pub IsSafeFlow : Flow → Type 0
IsSafeFlow (returned s) = IsSafe s
IsSafeFlow (failed_with e s) = IsSafe s
IsSafeFlow (refused e) = Unit
