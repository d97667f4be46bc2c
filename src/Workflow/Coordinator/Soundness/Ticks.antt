-- ===== src/Workflow/Coordinator/Soundness/Ticks.antt =====
-- A tick keeps every saved document sound (`tick` of services/board-workflow.ts).
use infinite_kanban.Prelude.{
  ◌≡◌, refl, sym, ap, ◌∙◌, subst, String, true, false, Option, none, some, List, [], ◌∷◌, arith,
  string_eq, leb, or_else, get_last?, Bool-cases, Option-cases, inl, inr,
}
use mathlib.Core.Option.{some-injective, none-ne-some}
use mathlib.Core.Bool.{true≢false}
use infinite_kanban.Contract.Json.{Json}
use infinite_kanban.Contract.Check.{implementation}
use infinite_kanban.Workflow.RunStore.{
  BoardWorkflowRun, WorkflowDispatch, DispatchState, fenced, DiagnosticCategory,
}
use infinite_kanban.Workflow.Coordinator.Session.{
  Surroundings, Session, begin, with_run, with_last, did, save_run, update_last, escalate,
}
use infinite_kanban.Workflow.Coordinator.Dispatching.{dispatched_phase}
use infinite_kanban.Workflow.Coordinator.Projecting.{phase_eq, project}
use infinite_kanban.Workflow.Coordinator.Settling.{is_settled_state, is_closed_phase}
use infinite_kanban.Workflow.Coordinator.Soundness.{
  revision_made, IsBound, IsHistory, HasHistory, IsSound, IsSafe, safe, safe-IsSound, safe_history,
  safe-Traced, IsSafeFlow,
}
use infinite_kanban.Workflow.Coordinator.Soundness.History.{
  IsHistory-last, IsHistory-update, update_last-none, last_adjusted,
}
use infinite_kanban.Workflow.Coordinator.Soundness.Saves.{
  save_run-IsSafe, project-IsSafe, if-IsSafe, and_then-IsSafeFlow, escalate-IsSafe,
  dispatched-IsDecided,
}
use infinite_kanban.Workflow.Coordinator.Soundness.Sends.{
  dispatch_role-IsSafe, if-IsSafeFlow, IsBound-unfinished, maker-unfinished,
}
use infinite_kanban.Workflow.Coordinator.Soundness.Settles.{settle-IsSafe}
use infinite_kanban.Workflow.Coordinator.Soundness.Commands.{begin-IsSafe}
use infinite_kanban.Workflow.Coordinator.Soundness.Judged.{IsDecided-open}
use infinite_kanban.Workflow.Coordinator.Session.{
  relayed_progress, RemoteProgress, RemoteUpdate, RemoteState, remote_pending, remote_running,
  remote_completed, remote_failed, remote_canceled, input_required, rejected,
}
use infinite_kanban.Workflow.Coordinator.Ticking.{
  fresh_progress, relay_each, with_relayed, relay_fresh, relay_progress, result_from_artifacts,
  settle_completed, still_running, keep_running, on_state, on_update, expire, is_accepted_state,
  tick_last, tick,
}

-- The last dispatch, if there is one, is not accepted.
abbrev EndsOpen : List WorkflowDispatch → Type 0
EndsOpen ds = (d : WorkflowDispatch) → get_last? ds ≡ some d → is_accepted_state d.state ≡ false

not_accepted :
    (d : WorkflowDispatch) → IsBound d → is_accepted_state d.state ≡ false → d.result ≡ none
not_accepted d (bound, _) left = elim (Option-cases d.result) [
  | inl gone ↦ gone
  | inr (r, found) ↦ absurd (true≢false (sym (ap is_accepted_state (bound r found).0) ∙ left))
]

abbrev expired : WorkflowDispatch → WorkflowDispatch
expired d = record d { state = fenced }

-- A change of an open last dispatch that leaves its assignment, its endpoint and its lack of a
-- result alone.
abbrev IsMild : (WorkflowDispatch → WorkflowDispatch) → Type 0
IsMild f =
    (d : WorkflowDispatch)
    → is_accepted_state d.state ≡ false
    → ((f d).assignment ≡ d.assignment)
      × ((f d).endpoint ≡ d.endpoint)
      × ((f d).result ≡ d.result)
      × (is_accepted_state (f d).state ≡ false)

mild-IsHistory :
    (f : WorkflowDispatch → WorkflowDispatch) (s : Session)
    → IsMild f
    → EndsOpen s.run.assignments
    → IsSafe s
    → HasHistory (with_last f s.run)
mild-IsHistory f s mild opens h = elim (Option-cases (get_last? s.run.assignments)) [
  | inl gone ↦
      subst (λ xs. IsHistory xs s.run.policy.max_dispatches s.run.accepted_revision)
        (sym (update_last-none f s.run.assignments gone)) (safe_history s h)
  | inr (d, last) ↦
      let (m, (paired, bound), made, _) =
        IsHistory-last s.run.assignments _ _ d last (safe_history s h) in
      let (as_assignment, as_endpoint, as_result, left) = mild d (opens d last) in
      let gone = not_accepted d bound (opens d last) in
      IsHistory-update s.run.assignments _ _ s.run.accepted_revision d f last
        (λ k p. rw (as_assignment, as_endpoint) p)
        (λ b. IsBound-unfinished (f d) (as_result ∙ gone) left)
        (λ k e.
          subst (λ x. s.run.accepted_revision ≡ revision_made (or_else x k))
            (maker-unfinished d gone ∙ sym (maker-unfinished (f d) (as_result ∙ gone))) e)
        (safe_history s h)
]

mild-EndsOpen :
    (f : WorkflowDispatch → WorkflowDispatch) (ds : List WorkflowDispatch)
    → IsMild f
    → EndsOpen ds
    → EndsOpen (update_last f ds)
mild-EndsOpen f ds mild opens e found =
    let (d, last, same) = last_adjusted f ds e found in
    ap (λ (x : WorkflowDispatch). is_accepted_state x.state) same ∙ (mild d (opens d last)).3

expire-IsSafe :
    (env : Surroundings) (s : Session)
    → EndsOpen s.run.assignments
    → IsSafe s
    → IsSafe (expire env s)
expire-IsSafe env s opens h = project-IsSafe env _ (
    escalate-IsSafe env.now _ _ (with_run (with_last expired s.run) s)
      (mild-IsHistory expired s (λ d left. (refl, refl, refl, refl)) opens h) (safe-Traced s h))

relay_each-IsSafe :
    (fresh : List RemoteProgress) (s : Session)
    → IsSafe s
    → IsSafe (relay_each fresh s) × ((relay_each fresh s).run ≡ s.run)
relay_each-IsSafe [] s h = (h, refl)
relay_each-IsSafe (e ∷ rest) s h =
    let (history, decided) = safe-IsSound s h in
    relay_each-IsSafe rest (did (relayed_progress e) s)
      (safe (did (relayed_progress e) s) history decided (safe-Traced s h))

-- What a poll of an open run goes by.
abbrev IsPolled : Session → Type 0
IsPolled s = IsSafe s × EndsOpen s.run.assignments

saved_opens : (s : Session) → EndsOpen s.run.assignments → EndsOpen (save_run s).run.assignments
unfolding save_run
saved_opens s opens = opens

relay_fresh-IsPolled :
    (fresh : List RemoteProgress) (s : Session)
    → is_closed_phase s.run ≡ false
    → IsPolled s
    → IsPolled (relay_fresh fresh s)
relay_fresh-IsPolled [] s unclosed polled = polled
relay_fresh-IsPolled (e ∷ rest) s unclosed (h, opens) =
    let (kept, same) = relay_each-IsSafe (e ∷ rest) s h in
    let opens' = subst (λ (r : BoardWorkflowRun). EndsOpen r.assignments) (sym same) opens in
    let unclosed' = ap is_closed_phase same ∙ unclosed in
    let mild : IsMild (with_relayed (e ∷ rest)) = λ d left. (refl, refl, refl, left) in
    (
      save_run-IsSafe _ (
          safe
            (with_run (with_last (with_relayed (e ∷ rest)) (relay_each (e ∷ rest) s).run)
              (relay_each (e ∷ rest) s))
            (mild-IsHistory (with_relayed (e ∷ rest)) (relay_each (e ∷ rest) s) mild opens' kept)
            (IsDecided-open (relay_each (e ∷ rest) s).run.phase _ _ _ _ unclosed')
            (safe-Traced _ kept)),
      saved_opens _ (
          mild-EndsOpen (with_relayed (e ∷ rest)) (relay_each (e ∷ rest) s).run.assignments mild
            opens'),
    )

relay_progress-IsPolled :
    (env : Surroundings) (d : WorkflowDispatch) (history : List RemoteProgress) (s : Session)
    → is_closed_phase s.run ≡ false
    → IsPolled s
    → IsPolled (relay_progress env d history s)
unfolding relay_progress
relay_progress-IsPolled env d history s unclosed polled = elim (Bool-cases env.has_sink) [
  | inl sink ↦ rw sink (relay_fresh-IsPolled (fresh_progress d history) s unclosed polled)
  | inr silent ↦ rw silent polled
]

settle_completed-IsSafe :
    (env : Surroundings) (endpoint_id : String) (s : Session) (o : Option Json)
    → IsSafe s
    → IsSafe (settle_completed env endpoint_id s o)
settle_completed-IsSafe env endpoint_id s none h =
    escalate-IsSafe env.now _ _ s (safe_history s h) (safe-Traced s h)
settle_completed-IsSafe env endpoint_id s (some result) h =
    project-IsSafe env _ (settle-IsSafe env result endpoint_id s h)

keep_running-IsSafe :
    (env : Surroundings) (d : WorkflowDispatch) (s : Session)
    → IsPolled s
    → IsSafe (project env (keep_running d s))
keep_running-IsSafe env d s (h, opens) = project-IsSafe env _ (
    save_run-IsSafe _ (
      safe
        (with_run
          (record (with_last still_running s.run) {
            phase = dispatched_phase d.assignment.named.role;
          })
          s)
        (mild-IsHistory still_running s (λ e left. (refl, refl, refl, refl)) opens h)
        (dispatched-IsDecided d.assignment.named.role _ _ _ _) (safe-Traced s h)))

stopped-IsSafe :
    (env : Surroundings) (category : DiagnosticCategory) (reason : String) (s : Session)
    → IsSafe s
    → IsSafe (project env (escalate env.now category reason s))
stopped-IsSafe env category reason s h =
    project-IsSafe env _
      (escalate-IsSafe env.now category reason s (safe_history s h) (safe-Traced s h))

on_state-IsSafe :
    (env : Surroundings) (d : WorkflowDispatch) (artifacts : List (List (Option Json)))
    (state : RemoteState) (s : Session)
    → IsPolled s
    → IsSafe (on_state env d artifacts state s)
on_state-IsSafe env d artifacts remote_completed s p =
    settle_completed-IsSafe env d.assignment.named.endpoint_id s (result_from_artifacts artifacts)
      p.0
on_state-IsSafe env d artifacts rejected s p = stopped-IsSafe env _ _ s p.0
on_state-IsSafe env d artifacts remote_failed s p = stopped-IsSafe env _ _ s p.0
on_state-IsSafe env d artifacts remote_canceled s p = stopped-IsSafe env _ _ s p.0
on_state-IsSafe env d artifacts input_required s p = stopped-IsSafe env _ _ s p.0
on_state-IsSafe env d artifacts remote_pending s p = keep_running-IsSafe env d s p
on_state-IsSafe env d artifacts remote_running s p = keep_running-IsSafe env d s p

on_update-IsSafe :
    (env : Surroundings) (d : WorkflowDispatch) (s : Session) (o : Option RemoteUpdate)
    → is_closed_phase s.run ≡ false
    → IsPolled s
    → IsSafe (on_update env d s o)
on_update-IsSafe env d s none unclosed p = p.0
on_update-IsSafe env d s (some u) unclosed p =
    on_state-IsSafe env d u.artifacts u.state _
      (relay_progress-IsPolled env d u.history s unclosed p)

accepted_settled :
    (state : DispatchState) → is_accepted_state state ≡ true → is_settled_state state ≡ true
accepted_settled state h = ground arith

tick_last-IsSafe :
    (env : Surroundings) (s : Session) (o : Option WorkflowDispatch)
    → get_last? s.run.assignments ≡ o
    → is_closed_phase s.run ≡ false
    → IsSafe s
    → IsSafeFlow (tick_last env s o)
tick_last-IsSafe env s none last unclosed h =
    and_then-IsSafeFlow _ (project env) (project-IsSafe env) (
      dispatch_role-IsSafe env implementation s h
        (λ d found. absurd (none-ne-some d (sym last ∙ found))))
tick_last-IsSafe env s (some d) last unclosed h =
    if-IsSafeFlow (is_accepted_state d.state) _ _
      (λ brought. dispatch_role-IsSafe env _ s h (λ e found. accepted_settled e.state (
        ap (λ (x : WorkflowDispatch). is_accepted_state x.state)
          (sym (some-injective d e (sym last ∙ found)))
        ∙ brought)))
      (λ left.
        let opens : EndsOpen s.run.assignments = λ e found.
          ap (λ (x : WorkflowDispatch). is_accepted_state x.state)
            (sym (some-injective d e (sym last ∙ found)))
          ∙ left in
        if-IsSafe (leb s.run.policy.deadline env.now) _ _ (expire-IsSafe env s opens h)
          (on_update-IsSafe env d s _ unclosed (h, opens)))

pub tick-IsSafe :
    (env : Surroundings) (run : BoardWorkflowRun) → IsSound run → IsSafeFlow (tick env run)
unfolding tick
tick-IsSafe env run sound =
    let shown = project-IsSafe env _ (begin-IsSafe run sound) in
    if-IsSafeFlow (is_closed_phase (project env (begin run)).run) _ _ (λ _. shown)
      (λ unclosed. tick_last-IsSafe env _ _ refl unclosed shown)
