-- ===== src/Workflow/Coordinator/Soundness/Sends.antt =====
-- A dispatch keeps a session safe: its intent is saved before the request, and a reviewer is not
-- the producer (services/board-workflow.ts).
use infinite_kanban.Prelude.{
  ℕ, suc, ◌+◌, ◌≡◌, ◌≢◌, ◌≤◌, refl, sym, ap, ◌∙◌, String, Bool, true, false, ◌||◌, Option, none,
  some, arith, ==_iff, string_eq, leb, length, get_last?, head?, head?-In, filter_sound,
  Option-cases, inl, inr, if◌then◌else◌,
}
use mathlib.Core.Option.{some-injective, none-ne-some}
use infinite_kanban.Contract.Check.{
  ExecutionRole, implementation, review, Validated, accepted, thrown,
}
use infinite_kanban.Contract.Assignment.{ExecutionAssignment}
use infinite_kanban.Contract.Result.{ExecutionResult}
use infinite_kanban.Workflow.RunStore.{BoardWorkflowRun, WorkflowDispatch, sending, running}
use infinite_kanban.Workflow.Coordinator.Session.{
  Agent, Surroundings, Session, Flow, save_run, with_run, with_last,
}
use infinite_kanban.Workflow.Coordinator.Dispatching.{
  last_implementation, is_distinct, is_candidate, candidates, sending_dispatch, intended, received,
  send_dispatch, with_version, with_assignment, assign, to_endpoint, dispatch_role,
  dispatched_phase,
}
use infinite_kanban.Workflow.Coordinator.Soundness.{
  Maker, maker_as, maker_of, latest, revision_made, IsPaired, IsBound, HasHistory, Traced, IsSafe,
  safe, safe_history, safe-Traced, IsSafeFlow,
}
use infinite_kanban.Workflow.Coordinator.Soundness.History.{
  length-append, last-append, EndsClosed, IsHistory-append, IsHistory-update, maker_found,
  maker-last_implementation,
}
use mathlib.Core.Bool.{true≢false}
use infinite_kanban.Workflow.Coordinator.Ticking.{is_accepted_state}
use infinite_kanban.Workflow.Coordinator.Soundness.Assigned.{assigned_IsFor}
use infinite_kanban.Workflow.Coordinator.Soundness.Saves.{
  save_run-IsSafe, escalate-IsSafe, dispatched-IsDecided,
}

-- A dispatch without a result has no maker.
maker_as-unfinished :
    (role : ExecutionRole) (d : WorkflowDispatch) → d.result ≡ none → maker_as role d ≡ none
maker_as-unfinished implementation d h = rw h refl
maker_as-unfinished review d h = refl

pub maker-unfinished : (d : WorkflowDispatch) → d.result ≡ none → maker_of d ≡ none
maker-unfinished d h = maker_as-unfinished d.assignment.named.role d h

pub IsBound-unfinished :
    (d : WorkflowDispatch) → d.result ≡ none → is_accepted_state d.state ≡ false → IsBound d
IsBound-unfinished d h open_state = (
  λ r e. absurd (none-ne-some r (sym h ∙ e)),
  λ e. absurd (true≢false (sym (ap is_accepted_state e) ∙ open_state)),
)

abbrev running_at : String → WorkflowDispatch → WorkflowDispatch
running_at receipt d = record d { remote_task_id = some receipt; state = running }

-- The answer to a request that is just sent.
received-IsSafe :
    (env : Surroundings) (role : ExecutionRole) (d : WorkflowDispatch) (o : Option String)
    (s : Session)
    → get_last? s.run.assignments ≡ some d
    → d.result ≡ none
    → s.run.phase ≡ dispatched_phase role
    → HasHistory s.run
    → Traced s.trace
    → IsSafe (received env o s)
received-IsSafe env role d none s last unfinished during history traced =
    save_run-IsSafe _ (safe _ history tt traced)
received-IsSafe env role d (some receipt) s last unfinished during history traced =
    let makes =
      maker-unfinished d unfinished ∙ sym (maker-unfinished (running_at receipt d) unfinished) in
    save_run-IsSafe _ (
      safe (with_run (with_last (running_at receipt) s.run) s)
        (IsHistory-update s.run.assignments s.run.policy.max_dispatches s.run.accepted_revision
          s.run.accepted_revision d (running_at receipt) last (λ m p. p)
          (λ _. IsBound-unfinished (running_at receipt d) unfinished refl) (λ m e. rw (sym makes) e)
          history)
        (rw during (dispatched-IsDecided role _ _ _ _)) traced)

send_dispatch-IsSafe :
    (env : Surroundings) (role : ExecutionRole) (d : WorkflowDispatch) (s : Session)
    → d.result ≡ none
    → d.state ≡ sending
    → d.assignment.named.attempt ≡ length s.run.assignments + 1
    → IsPaired (latest none s.run.assignments) d
    → suc (length s.run.assignments) ≤ s.run.policy.max_dispatches
    → EndsClosed s.run.assignments
    → IsSafe s
    → IsSafe (send_dispatch env role d s)
unfolding send_dispatch save_run
send_dispatch-IsSafe env role d s unfinished starts attempt pairs room ends h =
    let last = last-append s.run.assignments d in
    let bound = IsBound-unfinished d unfinished (ap is_accepted_state starts) in
    let history =
      IsHistory-append s.run.assignments _ _ d (safe_history s h) ends room (pairs, bound)
        (maker-unfinished d unfinished) in
    let begun =
      safe (with_run (intended role d s.run) s) history (dispatched-IsDecided role _ _ _ _)
        (safe-Traced s h) in
    let saved_first = save_run-IsSafe _ begun in
    received-IsSafe env role d (env.send d) _ last unfinished refl history
      ((last, starts, attempt ∙ sym (length-append s.run.assignments d)), safe-Traced _ saved_first)

maker_as-made :
    (role : ExecutionRole) (o : Option ExecutionResult) (i : WorkflowDispatch) (k : Maker)
    → maker_as role (record i { result = o }) ≡ some k
    → (k.0 ≡ i.assignment.named.endpoint_id) × (k.1 ≡ i.endpoint)
maker_as-made implementation none i k h = absurd (none-ne-some k h)
maker_as-made implementation (some r) i k h =
    let e = some-injective _ k h in (ap (λ x. x.0) (sym e), ap (λ x. x.1) (sym e))
maker_as-made review o i k h = absurd (none-ne-some k h)

found-made :
    (o : Option WorkflowDispatch) (k : Maker)
    → maker_found o ≡ some k
    → (i : WorkflowDispatch) × (o ≡ some i)
      × (k.0 ≡ i.assignment.named.endpoint_id)
      × (k.1 ≡ i.endpoint)
found-made none k h = absurd (none-ne-some k h)
found-made (some i) k h =
    let (at_id, at_endpoint) = maker_as-made i.assignment.named.role i.result i k h in
    (i, refl, at_id, at_endpoint)

-- An endpoint that passes for a review is not the producer's.
distinct_made :
    (i : WorkflowDispatch) (agent : Agent)
    → is_distinct review (some i) agent ≡ true
    → (i.assignment.named.endpoint_id ≢ agent.id) × (i.endpoint ≢ agent.endpoint)
distinct_made i agent h = (
  λ e. ground (arith, h, ==_iff agent.id i.assignment.named.endpoint_id, e),
  λ e. ground (arith, h, ==_iff agent.endpoint i.endpoint, e),
)

candidate-distinct :
    (env : Surroundings) (run : BoardWorkflowRun) (role : ExecutionRole)
    (before : Option WorkflowDispatch) (agent : Agent)
    → is_candidate env run role before agent ≡ true
    → is_distinct role before agent ≡ true
unfolding is_candidate
candidate-distinct env run role before agent h = ground arith

IsPaired-assigned :
    (run : BoardWorkflowRun) (role : ExecutionRole) (agent : Agent) (a : ExecutionAssignment)
    (version : String)
    → run.accepted_revision ≡ revision_made (latest none run.assignments)
    → is_distinct role (last_implementation run.assignments) agent ≡ true
    → (a.named.role ≡ role)
    → (a.named.endpoint_id ≡ agent.id)
    → (role ≡ review
        → (v : String) × (run.accepted_revision ≡ some v) × (a.target_revision ≡ some v))
    → IsPaired (latest none run.assignments) (sending_dispatch a agent.endpoint version)
IsPaired-assigned run role agent a version produced distinct as_role as_endpoint targets is_review =
    let to_review = sym as_role ∙ is_review in
    let (v, accepted_v, target_v) = targets to_review in
    elim (Option-cases (latest none run.assignments)) [
      | inl gone ↦ absurd (none-ne-some v (sym (produced ∙ ap revision_made gone) ∙ accepted_v))
      | inr (k, made) ↦
          let (i, found, at_id, at_endpoint) =
            found-made (last_implementation run.assignments) k
              (maker-last_implementation run.assignments ∙ made) in
          let (other_id, other_endpoint) =
            distinct_made i agent (rw (to_review, found) at distinct) in
          let same = some-injective _ v (sym (produced ∙ ap revision_made made) ∙ accepted_v) in
          (
            k,
            made,
            target_v ∙ ap some (sym same),
            λ e. other_id (sym at_id ∙ e ∙ as_endpoint),
            λ e. other_endpoint (sym at_endpoint ∙ e),
          )
    ]

module _ (env : Surroundings) (role : ExecutionRole) (s : Session) (agent : Agent) (h : IsSafe s)
    (ends : EndsClosed s.run.assignments)
    (room : suc (length s.run.assignments) ≤ s.run.policy.max_dispatches)
    (distinct : is_distinct role (last_implementation s.run.assignments) agent ≡ true) where
  with_version-IsSafe :
      (a : ExecutionAssignment) (o : Option String)
      → (a.named.role ≡ role)
        × (a.named.endpoint_id ≡ agent.id)
        × (a.named.attempt ≡ length s.run.assignments + 1)
        × (role ≡ review
            → (v : String) × (s.run.accepted_revision ≡ some v) × (a.target_revision ≡ some v))
      → IsSafeFlow (with_version env role agent s a o)
  with_version-IsSafe a none fits = h
  with_version-IsSafe a (some version) (as_role, as_endpoint, attempt, targets) =
      let (bound, paired, settled, produced) = safe_history s h in
      send_dispatch-IsSafe env role (sending_dispatch a agent.endpoint version) s refl refl attempt
        (IsPaired-assigned s.run role agent a version produced distinct as_role as_endpoint targets)
        room ends h

  with_assignment-IsSafe :
      (v : Validated ExecutionAssignment)
      → ((a : ExecutionAssignment)
          → v ≡ accepted a
          → (a.named.role ≡ role)
            × (a.named.endpoint_id ≡ agent.id)
            × (a.named.attempt ≡ length s.run.assignments + 1)
            × (role ≡ review
                → (t : String) × (s.run.accepted_revision ≡ some t) × (a.target_revision ≡ some t)))
      → IsSafeFlow (with_assignment env role agent s v)
  with_assignment-IsSafe (thrown e) fits = h
  with_assignment-IsSafe (accepted a) fits =
      with_version-IsSafe a (env.negotiate agent.protocol_version) (fits a refl)

  assign-IsSafe : IsSafeFlow (assign env role agent s)
  unfolding assign
  assign-IsSafe =
      with_assignment-IsSafe _
        (λ a e. assigned_IsFor s.run env.assignment_id agent.id _ _ _ a env.parse_url role e)

to_endpoint-IsSafe :
    (env : Surroundings) (role : ExecutionRole) (s : Session) (o : Option Agent)
    → IsSafe s
    → EndsClosed s.run.assignments
    → suc (length s.run.assignments) ≤ s.run.policy.max_dispatches
    → ((agent : Agent)
        → o ≡ some agent
        → is_distinct role (last_implementation s.run.assignments) agent ≡ true)
    → IsSafeFlow (to_endpoint env role s o)
to_endpoint-IsSafe env role s none h ends room distinct =
    escalate-IsSafe env.now _ _ s (safe_history s h) (safe-Traced s h)
to_endpoint-IsSafe env role s (some agent) h ends room distinct =
    assign-IsSafe env role s agent h ends room (distinct agent refl)

abbrev is_exhausted : Surroundings → Session → Bool
is_exhausted env s =
    leb s.run.policy.max_dispatches (length s.run.assignments) || leb s.run.policy.deadline env.now

has_room :
    (limit size deadline now : ℕ) → (leb limit size || leb deadline now) ≡ false → suc size ≤ limit
has_room limit size deadline now h = ground arith

pub if-IsSafeFlow :
    (b : Bool) (f g : Flow)
    → (b ≡ true → IsSafeFlow f)
    → (b ≡ false → IsSafeFlow g)
    → IsSafeFlow (if b then f else g)
if-IsSafeFlow true f g h k = h refl
if-IsSafeFlow false f g h k = k refl

-- A dispatch behind a closed one keeps a session safe, also where it throws.
pub dispatch_role-IsSafe :
    (env : Surroundings) (role : ExecutionRole) (s : Session)
    → IsSafe s
    → EndsClosed s.run.assignments
    → IsSafeFlow (dispatch_role env role s)
unfolding dispatch_role
dispatch_role-IsSafe env role s h ends =
    if-IsSafeFlow (is_exhausted env s) _ _
      (λ _. escalate-IsSafe env.now _ _ s (safe_history s h) (safe-Traced s h))
      (λ left.
        to_endpoint-IsSafe env role s (head? (candidates env role s.run)) h ends
          (has_room _ _ s.run.policy.deadline env.now left)
          (λ agent found.
            candidate-distinct env s.run role _ agent
              (filter_sound _ env.agents (head?-In _ found)).0))
