-- ===== src/Workflow/Policy/Routing.antt =====
-- Whom the policy of services/workflow-policy.ts dispatches to.
use infinite_kanban.Prelude.{
  ℕ, ◌≡◌, ◌≢◌, refl, ◌∙◌, String, true, not, Option, none, some, List, arith, In, inl, inr, ==_iff,
  string_eq, find, head?, ◌⊎◌, ◌==◌, find_sound, find-none, filter_sound, filter-complete, head?-In,
  head?-none,
}
use infinite_kanban.Workflow.Policy.{
  WorkflowRole, implementation, review, WorkflowTicket, WorkflowAgent, WorkflowRun, WorkflowAction,
  WorkflowPhase, dispatch, backlog, implementing, rework_requested, awaiting_review, is_eligible,
  eligible_agents, last_implementation_run, dispatch_implementation, dispatch_review, review_of,
  by_phase, decide_next_workflow_action,
}

-- The phases in which the policy looks for an agent of each role.
abbrev pub PhaseFor : WorkflowRole → WorkflowPhase → Type 0
PhaseFor implementation phase = (phase ≡ backlog) ⊎ (phase ≡ rework_requested)
PhaseFor review phase = phase ≡ awaiting_review

-- Nobody reviews what he implemented last.
abbrev pub MayServe : WorkflowTicket → WorkflowRole → String → Type 0
MayServe ticket implementation id = Unit
MayServe ticket review id =
    (run : WorkflowRun) × (last_implementation_run ticket ≡ some run) × (id ≢ run.agent_id)

-- What a dispatch claims of the agent and the round that it names.
pub record IsSound (ticket : WorkflowTicket) (agents : List WorkflowAgent) (role : WorkflowRole)
    (id : String) (round : ℕ) : Type 0 where
  pub agent : WorkflowAgent
  pub registered : In agent agents
  pub named : agent.id ≡ id
  pub eligible : is_eligible ticket role agent ≡ true
  pub allowed : MayServe ticket role id
  pub phase : PhaseFor role ticket.phase
  pub same_round : round ≡ ticket.review_round

module _ (ticket : WorkflowTicket) (agents : List WorkflowAgent) where
  abbrev Sound : WorkflowRole → String → ℕ → Type 0
  Sound role id round = IsSound ticket agents role id round

  implementation-Sound :
      (o : Option WorkflowAgent) {role : WorkflowRole} {id : String} {round : ℕ}
      {fb : Option String}
      → head? (eligible_agents ticket agents implementation) ≡ o
      → PhaseFor implementation ticket.phase
      → dispatch_implementation ticket o ≡ dispatch role id round fb
      → Sound role id round
  unfolding dispatch_implementation eligible_agents
  implementation-Sound none found ph h = cc
  implementation-Sound (some a) {role = implementation} found ph h =
      let (ok, m) = filter_sound (is_eligible ticket implementation) agents (head?-In _ found) in
      record {
        agent = a;
        registered = m;
        named = ground arith;
        eligible = ok;
        allowed = tt;
        phase = ph;
        same_round = ground arith;
      }
  implementation-Sound (some a) {role = review} found ph h = cc

  review-Sound :
      (run : WorkflowRun) (o : Option WorkflowAgent) {role : WorkflowRole} {id : String} {round : ℕ}
      {fb : Option String}
      → last_implementation_run ticket ≡ some run
      → find (λ agent. not (agent.id == run.agent_id)) (eligible_agents ticket agents review) ≡ o
      → ticket.phase ≡ awaiting_review
      → dispatch_review ticket o ≡ dispatch role id round fb
      → Sound role id round
  unfolding dispatch_review eligible_agents
  review-Sound run none last found ph h = cc
  review-Sound run (some a) {role = implementation} last found ph h = cc
  review-Sound run (some a) {role = review} {id} last found ph h =
      let (other, m) = find_sound _ _ found in
      let (ok, m') = filter_sound (is_eligible ticket review) agents m in
      let same : a.id ≡ id = ground arith in
      record {
        agent = a;
        registered = m';
        named = same;
        eligible = ok;
        allowed = (run, last, λ e. ground (arith, other, (==_iff a.id run.agent_id).1 (same ∙ e)));
        phase = ph;
        same_round = ground arith;
      }

  review_of-Sound :
      (r : Option WorkflowRun) {role : WorkflowRole} {id : String} {round : ℕ} {fb : Option String}
      → last_implementation_run ticket ≡ r
      → ticket.phase ≡ awaiting_review
      → review_of ticket agents r ≡ dispatch role id round fb
      → Sound role id round
  unfolding review_of
  review_of-Sound none last ph h = cc
  review_of-Sound (some run) last ph h = review-Sound run _ last refl ph h

  by_phase-Sound :
      (p : WorkflowPhase) {role : WorkflowRole} {id : String} {round : ℕ} {fb : Option String}
      → ticket.phase ≡ p
      → by_phase p ticket agents ≡ dispatch role id round fb
      → Sound role id round
  unfolding by_phase
  by_phase-Sound backlog ph h = implementation-Sound _ refl (inl ph) h
  by_phase-Sound rework_requested ph h = implementation-Sound _ refl (inr ph) h
  by_phase-Sound awaiting_review ph h = review_of-Sound _ refl ph h
  by_phase-Sound _ ph h = cc

  -- A dispatch names a registered agent that is enabled, has the role and may work on the ticket's
  -- project; the ticket is in a phase that wants this role, the round is the ticket's, and a
  -- reviewer is not the agent of the ticket's last implementation run.
  pub dispatch-IsSound :
      {role : WorkflowRole} {id : String} {round : ℕ} {fb : Option String}
      → decide_next_workflow_action ticket agents ≡ dispatch role id round fb
      → IsSound ticket agents role id round
  unfolding decide_next_workflow_action
  dispatch-IsSound h = by_phase-Sound ticket.phase refl h

  -- An action is a dispatch.
  abbrev pub IsDispatch : WorkflowAction → WorkflowRole → Type 0
  IsDispatch a role =
      (id : String) × (fb : Option String) × (a ≡ dispatch role id ticket.review_round fb)

  head_dispatches :
      (o : Option WorkflowAgent) (a : WorkflowAgent)
      → head? (eligible_agents ticket agents implementation) ≡ o
      → In a (eligible_agents ticket agents implementation)
      → IsDispatch (dispatch_implementation ticket o) implementation
  unfolding dispatch_implementation
  head_dispatches none a found m = absurd (head?-none _ a found m)
  head_dispatches (some b) a found m = (b.id, ticket.review_feedback, refl)

  find_dispatches :
      (run : WorkflowRun) (o : Option WorkflowAgent) (a : WorkflowAgent)
      → find (λ agent. not (agent.id == run.agent_id)) (eligible_agents ticket agents review) ≡ o
      → In a (eligible_agents ticket agents review)
      → a.id ≢ run.agent_id
      → IsDispatch (dispatch_review ticket o) review
  unfolding dispatch_review
  find_dispatches run none a found m other =
      absurd (other ((==_iff a.id run.agent_id).0 (ground (arith, find-none _ _ found m))))
  find_dispatches run (some b) a found m other = (b.id, none, refl)

  review_dispatches :
      (r : Option WorkflowRun) (run : WorkflowRun) (a : WorkflowAgent)
      → r ≡ some run
      → In a (eligible_agents ticket agents review)
      → a.id ≢ run.agent_id
      → IsDispatch (review_of ticket agents r) review
  unfolding review_of
  review_dispatches none run a e m other = cc
  review_dispatches (some r) run a e m other =
      find_dispatches r _ a refl m (λ same. other (same ∙ ground arith))

  by_phase_dispatches :
      (p : WorkflowPhase) (role : WorkflowRole) (a : WorkflowAgent)
      → PhaseFor role p
      → In a (eligible_agents ticket agents role)
      → MayServe ticket role a.id
      → IsDispatch (by_phase p ticket agents) role
  unfolding by_phase
  by_phase_dispatches backlog implementation a ph m ok = head_dispatches _ a refl m
  by_phase_dispatches rework_requested implementation a ph m ok = head_dispatches _ a refl m
  by_phase_dispatches awaiting_review review a ph m (run, last, other) =
      review_dispatches _ run a last m other
  by_phase_dispatches implementing implementation a ph m ok = absurd (ground arith)
  by_phase_dispatches _ implementation a ph m ok = absurd (ground arith)
  by_phase_dispatches _ review a ph m ok = absurd (ground arith)

  -- In a phase that wants a role, if a registered agent is eligible for it (and, for a review, is
  -- not the agent of the last implementation run) then the policy dispatches that role, in the
  -- ticket's round.
  pub IsDispatch-complete :
      (role : WorkflowRole) (a : WorkflowAgent)
      → PhaseFor role ticket.phase
      → In a agents
      → is_eligible ticket role a ≡ true
      → MayServe ticket role a.id
      → IsDispatch (decide_next_workflow_action ticket agents) role
  unfolding decide_next_workflow_action eligible_agents
  IsDispatch-complete role a ph m ok may =
      by_phase_dispatches ticket.phase role a ph
        (filter-complete (is_eligible ticket role) agents ok m) may
