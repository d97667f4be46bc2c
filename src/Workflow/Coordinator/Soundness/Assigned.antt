-- ===== src/Workflow/Coordinator/Soundness/Assigned.antt =====
-- The assignment that `dispatch` builds is, where it passes `validateAssignment`, for the role,
-- the endpoint and the attempt asked for, and a review is of the accepted revision
-- (services/board-workflow.ts).
use infinite_kanban.Prelude.{
  ℕ, ◌≡◌, ◌≢◌, refl, sym, ap, ◌∙◌, subst, String, Option, none, some, List,
}
use infinite_kanban.Contract.Json.{Json, Fields, no_fields, natural, text, object, lookup}
use infinite_kanban.Contract.Check.{
  ExecutionRole, implementation, review, accepted, ◌>>=◌, text_field, text_value, attempt_value,
  role_value, Identity, identity, immutable_revision_required, known_fields, strict_record,
}
use infinite_kanban.Contract.Assignment.{
  ExecutionAssignment, Url, validate_assignment, target_value, execution_assignment_keys,
}
use infinite_kanban.Contract.Binding.{accepted-injective, thrown-ne-accepted, bind-eq-accepted}
use infinite_kanban.Workflow.RunStore.{BoardWorkflowRun, WorkflowDispatch}
use infinite_kanban.Workflow.Coordinator.Dispatching.{role_name, review_fields, assignment_fields}

identity_lem :
    (r : Fields) (n : Identity)
    → identity r ≡ accepted n
    → (text_field r "endpointId" ≡ accepted n.endpoint_id)
      × (attempt_value (lookup "attempt" r) ≡ accepted n.attempt)
      × (role_value (lookup "role" r) ≡ accepted n.role)
unfolding identity
identity_lem r n h =
    let (_, _, h₁) = bind-eq-accepted _ _ n h in
    let (_, _, h₂) = bind-eq-accepted _ _ n h₁ in
    let (_, _, h₃) = bind-eq-accepted _ _ n h₂ in
    let (_, _, h₄) = bind-eq-accepted _ _ n h₃ in
    let (_, at_endpoint, h₅) = bind-eq-accepted _ _ n h₄ in
    let (_, _, h₆) = bind-eq-accepted _ _ n h₅ in
    let (_, at_attempt, h₇) = bind-eq-accepted _ _ n h₆ in
    let (_, at_role, h₈) = bind-eq-accepted _ _ n h₇ in
    rw (sym (accepted-injective _ n h₈)) (at_endpoint, at_attempt, at_role)

known_fields_lem : (r r' : Fields) (o : Option String) → known_fields r o ≡ accepted r' → r ≡ r'
known_fields_lem r r' none h = accepted-injective r r' h
known_fields_lem r r' (some key) h = absurd (thrown-ne-accepted _ r' h)

strict_record_lem :
    (r r' : Fields) (keys : List String)
    → strict_record (some (object r)) keys ≡ accepted r'
    → r ≡ r'
unfolding strict_record
strict_record_lem r r' keys h = known_fields_lem r r' _ h

-- What an accepted assignment takes from the fields.
abbrev IsOf : Fields → ExecutionAssignment → Type 0
IsOf r a =
    (text_field r "endpointId" ≡ accepted a.named.endpoint_id)
    × (attempt_value (lookup "attempt" r) ≡ accepted a.named.attempt)
    × (role_value (lookup "role" r) ≡ accepted a.named.role)
    × (target_value a.named.role (lookup "targetRevision" r) ≡ accepted a.target_revision)

validate_assignment_lem :
    (parse_url : String → Option Url) (r : Fields) (a : ExecutionAssignment)
    → validate_assignment parse_url (some (object r)) ≡ accepted a
    → IsOf r a
unfolding validate_assignment
validate_assignment_lem parse_url r a h =
    let (r', known, h₁) = bind-eq-accepted _ _ a h in
    let (n, named, h₂) = bind-eq-accepted _ _ a h₁ in
    let (_, _, h₃) = bind-eq-accepted _ _ a h₂ in
    let (_, _, h₄) = bind-eq-accepted _ _ a h₃ in
    let (_, _, h₅) = bind-eq-accepted _ _ a h₄ in
    let (_, _, h₆) = bind-eq-accepted _ _ a h₅ in
    let (_, _, h₇) = bind-eq-accepted _ _ a h₆ in
    let (_, _, h₈) = bind-eq-accepted _ _ a h₇ in
    let (_, _, h₉) = bind-eq-accepted _ _ a h₈ in
    let (_, _, h₁₀) = bind-eq-accepted _ _ a h₉ in
    let (_, _, h₁₁) = bind-eq-accepted _ _ a h₁₀ in
    let (_, targeted, h₁₂) = bind-eq-accepted _ _ a h₁₁ in
    let (_, _, h₁₃) = bind-eq-accepted _ _ a h₁₂ in
    let (at_endpoint, at_attempt, at_role) = identity_lem r' n named in
    let taken : IsOf r' a =
      rw (sym (accepted-injective _ a h₁₃)) (at_endpoint, at_attempt, at_role, targeted) in
    subst (λ x. IsOf x a) (sym (strict_record_lem r r' execution_assignment_keys known)) taken

text_value_lem : (s e name : String) → text_value (some (text s)) name ≡ accepted e → e ≡ s
text_value_lem s e name h =
    let (_, _, h') = bind-eq-accepted _ _ e h in sym (accepted-injective s e h')

attempt_value_lem : (n m : ℕ) → attempt_value (some (natural n)) ≡ accepted m → m ≡ n
attempt_value_lem n m h =
    let (_, _, h') = bind-eq-accepted _ _ m h in sym (accepted-injective n m h')

role_value_lem : (a b : ExecutionRole) → role_value (some (text (role_name a))) ≡ accepted b → b ≡ a
role_value_lem implementation b h = sym (accepted-injective implementation b h)
role_value_lem review b h = sym (accepted-injective review b h)

abbrev text_of : Option String → Option Json
text_of none = none
text_of (some s) = some (text s)

no_target : (result : Option String) → target_value review none ≢ accepted result
unfolding ◌>>=◌
no_target result h = thrown-ne-accepted immutable_revision_required result h

-- A review's target is there, and it is taken over.
target_value_lem :
    (target result : Option String)
    → target_value review (text_of target) ≡ accepted result
    → (v : String) × (target ≡ some v) × (result ≡ some v)
target_value_lem none result h = absurd (no_target result h)
target_value_lem (some s) result h =
    let (v, revised, h₁) = bind-eq-accepted _ _ result h in
    let (_, _, h₂) = bind-eq-accepted _ _ v revised in
    (s, refl, sym (accepted-injective _ result h₁) ∙ ap some (sym (accepted-injective s v h₂)))

lookup-review_fields :
    (target : Option String) (before : Option WorkflowDispatch)
    → lookup "targetRevision" (review_fields review target before no_fields) ≡ text_of target
unfolding lookup
lookup-review_fields none none = refl
lookup-review_fields none (some d) = refl
lookup-review_fields (some s) none = refl
lookup-review_fields (some s) (some d) = refl

module _ (run : BoardWorkflowRun) (id endpoint_id base : String) (attempt : ℕ)
    (before : Option WorkflowDispatch) (a : ExecutionAssignment) where
  abbrev pub IsFor : ExecutionRole → Type 0
  IsFor role =
      (a.named.role ≡ role)
      × (a.named.endpoint_id ≡ endpoint_id)
      × (a.named.attempt ≡ attempt)
      × (role ≡ review
          → (v : String) × (run.accepted_revision ≡ some v) × (a.target_revision ≡ some v))

  is_for :
      (role : ExecutionRole)
      → IsOf (assignment_fields run role id endpoint_id base attempt before) a
      → IsFor role
  unfolding assignment_fields lookup text_field
  is_for implementation (at_endpoint, at_attempt, at_role, targeted) = (
    role_value_lem implementation a.named.role at_role,
    text_value_lem endpoint_id a.named.endpoint_id "endpointId" at_endpoint,
    attempt_value_lem attempt a.named.attempt at_attempt,
    λ e. cc,
  )
  is_for review (at_endpoint, at_attempt, at_role, targeted) =
      let e = role_value_lem review a.named.role at_role in
      (
        e,
        text_value_lem endpoint_id a.named.endpoint_id "endpointId" at_endpoint,
        attempt_value_lem attempt a.named.attempt at_attempt,
        λ _.
            target_value_lem run.accepted_revision a.target_revision
              (rw (e, lookup-review_fields run.accepted_revision before) at targeted),
      )

  pub assigned_IsFor :
      (parse_url : String → Option Url) (role : ExecutionRole)
      → validate_assignment parse_url
          (some (object (assignment_fields run role id endpoint_id base attempt before)))
        ≡ accepted a
      → IsFor role
  assigned_IsFor parse_url role h = is_for role (validate_assignment_lem parse_url _ a h)
