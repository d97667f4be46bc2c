-- ===== src/Workflow/Coordinator/Soundness/Judged.antt =====
-- When `settle` takes a result (services/board-workflow.ts).
use infinite_kanban.Prelude.{
  ◌≡◌, ◌≢◌, refl, ap, subst, String, Bool, true, false, not, ◌||◌, Option, none, some, List, ◌∷◌,
  [], arith, ◌==◌, string_eq, ==_iff, get_last?, find, find-none, In, Bool-cases, inl, inr,
  contains,
}
use infinite_kanban.Contract.Json.{Json}
use infinite_kanban.Contract.Check.{Validated, accepted, thrown}
use infinite_kanban.Contract.Result.{ExecutionResult, validate_result}
use infinite_kanban.Workflow.RunStore.{
  BoardWorkflowRun, WorkflowDispatch, RunPhase, implementing, reviewing, awaiting_approval, done,
  escalated, dispatch_uncertain, canceled,
}
use infinite_kanban.Workflow.Coordinator.Session.{Surroundings}
use infinite_kanban.Workflow.Coordinator.Projecting.{phase_eq}
use infinite_kanban.Workflow.Coordinator.Settling.{
  Judged, taken, not_taken, judge, judge_last, judge_result, judge_checks, judge_evidence,
  is_closed_phase, is_settled_state, has_passed,
}
use infinite_kanban.Workflow.Coordinator.Soundness.{IsDecided}

-- A phase that is not closed has nothing to decide.
pub IsDecided-open :
    (phase : RunPhase) (ds : List WorkflowDispatch) (auto : Bool)
    (confirmed_of confirmed : Option String)
    → contains (canceled ∷ done ∷ awaiting_approval ∷ escalated ∷ []) phase ≡ false
    → IsDecided phase ds auto confirmed_of confirmed
IsDecided-open implementing ds auto a c h = tt
IsDecided-open reviewing ds auto a c h = tt
IsDecided-open dispatch_uncertain ds auto a c h = tt
IsDecided-open escalated ds auto a c h = tt
IsDecided-open canceled ds auto a c h = tt
IsDecided-open awaiting_approval ds auto a c h = cc
IsDecided-open done ds auto a c h = cc

abbrev taken_or : ExecutionResult → Judged → ExecutionResult
taken_or r (taken r') = r'
taken_or r (not_taken e) = r

taken-injective : (r r' : ExecutionResult) → taken r ≡ taken r' → r ≡ r'
taken-injective r r' h = ap (taken_or r) h

not_taken-ne-taken : (e : String) (r : ExecutionResult) → not_taken e ≢ taken r
not_taken-ne-taken e r h = cc

-- What a taken result has met: its dispatch is the last one and open, its endpoint is the
-- dispatch's, the contract accepts it, the required checks have passed, the evidence is verified.
abbrev pub IsTaken :
    Surroundings → BoardWorkflowRun → Json → String → WorkflowDispatch → ExecutionResult → Type 0
IsTaken env run response endpoint_id d r =
    (is_closed_phase run ≡ false)
    × (is_settled_state d.state ≡ false)
    × (endpoint_id ≡ d.assignment.named.endpoint_id)
    × (validate_result (some response) d.assignment ≡ accepted r)
    × ((check : String) → In check run.policy.required_checks → has_passed r check ≡ true)
    × (env.verify_evidence r d.endpoint ≡ none)

module _ (env : Surroundings) (run : BoardWorkflowRun) (d : WorkflowDispatch)
    (r : ExecutionResult) where
  judge_evidence_lem :
      (r' : ExecutionResult) (o : Option String)
      → judge_evidence o r' ≡ taken r
      → (o ≡ none) × (r' ≡ r)
  judge_evidence_lem r' none h = (refl, taken-injective r' r h)
  judge_evidence_lem r' (some e) h = absurd (not_taken-ne-taken e r h)

  judge_checks_lem :
      (r' : ExecutionResult) (o : Option String)
      → judge_checks env d r' o ≡ taken r
      → (o ≡ none) × (env.verify_evidence r' d.endpoint ≡ none) × (r' ≡ r)
  judge_checks_lem r' none h =
      let (verified, same) = judge_evidence_lem r' _ h in (refl, verified, same)
  judge_checks_lem r' (some check) h = absurd (not_taken-ne-taken _ r h)

  judge_result_lem :
      (v : Validated ExecutionResult)
      → judge_result env run d v ≡ taken r
      → (v ≡ accepted r)
        × ((check : String) → In check run.policy.required_checks → has_passed r check ≡ true)
        × (env.verify_evidence r d.endpoint ≡ none)
  judge_result_lem (thrown e) h = absurd (not_taken-ne-taken _ r h)
  judge_result_lem (accepted r') h =
      let (complete, verified, same) =
        judge_checks_lem r' (find (λ c. not (has_passed r' c)) run.policy.required_checks) h in
      (
        ap accepted same,
        λ check m.
            subst (λ x. has_passed x check ≡ true) same
              (ground (
                arith,
                find-none (λ c. not (has_passed r' c)) run.policy.required_checks complete m,
              )),
        subst (λ x. env.verify_evidence x d.endpoint ≡ none) same verified,
      )

module _ (env : Surroundings) (run : BoardWorkflowRun) (response : Json) (endpoint_id : String)
    (r : ExecutionResult) where
  judge_open :
      (d : WorkflowDispatch)
      → (is_closed_phase run || is_settled_state d.state) ≡ false
      → judge_last env run response endpoint_id (some d) ≡ taken r
      → IsTaken env run response endpoint_id d r
  judge_open d left h = elim (Bool-cases (endpoint_id == d.assignment.named.endpoint_id)) [
    | inl same ↦
        let (valid, passed, verified) = judge_result_lem env run d r _ (rw (left, same) at h) in
        (
          ground (arith, left),
          ground (arith, left),
          (==_iff endpoint_id d.assignment.named.endpoint_id).0 same,
          valid,
          passed,
          verified,
        )
    | inr other ↦ absurd (not_taken-ne-taken _ r (rw (left, other) at h))
  ]

  judge_last_lem :
      (o : Option WorkflowDispatch)
      → judge_last env run response endpoint_id o ≡ taken r
      → (d : WorkflowDispatch) × (o ≡ some d) × IsTaken env run response endpoint_id d r
  judge_last_lem none h = absurd (not_taken-ne-taken _ r h)
  judge_last_lem (some d) h = elim (Bool-cases (is_closed_phase run || is_settled_state d.state)) [
    | inl shut ↦ absurd (not_taken-ne-taken _ r (rw shut at h))
    | inr left ↦ (d, refl, judge_open d left h)
  ]

  pub judge_lem :
      judge env run response endpoint_id ≡ taken r
      → (d : WorkflowDispatch) × (get_last? run.assignments ≡ some d)
        × IsTaken env run response endpoint_id d r
  unfolding judge
  judge_lem h = judge_last_lem (get_last? run.assignments) h
