-- ===== src/Scenarios/Policy.antt =====
-- A ticket with two agents (services/workflow-policy.ts).
use infinite_kanban.Prelude.{
  ◌≡◌, ◌≢◌, ◌≤◌, ◌<◌, ◌+◌, ◌⊎◌, refl, inl, inr, true, String, none, some, [], ◌∷◌, arith, ==_iff,
  string_eq,
}
use mathlib.Core.Bool.{false≢true}
use infinite_kanban.Workflow.Policy.{
  WorkflowTicket, WorkflowAgent, WorkflowRun, implementation, review, awaiting_review, dispatch,
  rework_requested, needs_human_decision, decide_next_workflow_action, default_max_review_rounds,
}
use infinite_kanban.Workflow.Policy.Routing.{
  IsSound, IsDispatch, dispatch-IsSound, IsDispatch-complete,
}
use infinite_kanban.Workflow.Policy.Rounds.{request_changes, rounds_bounded}

abbrev alice : WorkflowAgent
alice = record {
  id = "alice";
  enabled = true;
  allowed_project_ids = "p" ∷ [];
  roles = implementation ∷ review ∷ [];
}

abbrev bob : WorkflowAgent
bob = record {
  id = "bob";
  enabled = true;
  allowed_project_ids = "q" ∷ "p" ∷ [];
  roles = review ∷ [];
}

abbrev first_run : WorkflowRun
first_run = record { id = "r1"; role = implementation; agent_id = "alice" }

abbrev ticket : WorkflowTicket
ticket = record {
  id = "t";
  project_id = "p";
  phase = awaiting_review;
  review_round = 2;
  runs = first_run ∷ [];
  review_feedback = some "again";
}

bob_reviews : decide_next_workflow_action ticket (alice ∷ bob ∷ []) ≡ dispatch review "bob" 2 none
unfolding decide_next_workflow_action
bob_reviews = refl

dispatch-IsSound_example : IsSound ticket (alice ∷ bob ∷ []) review "bob" 2
dispatch-IsSound_example = dispatch-IsSound ticket (alice ∷ bob ∷ []) bob_reviews

bob_is_not_alice : ◌≢◌ {A = String} "bob" "alice"
bob_is_not_alice e = false≢true ((==_iff {T = String} "bob" "alice").1 e)

IsDispatch-complete_example :
    IsDispatch ticket
      (alice ∷ bob ∷ [])
      (decide_next_workflow_action ticket (alice ∷ bob ∷ []))
      review
IsDispatch-complete_example =
    IsDispatch-complete ticket (alice ∷ bob ∷ []) review bob refl (inr (inl refl)) refl
      (first_run, refl, bob_is_not_alice)

rounds_bounded_example :
    let t' = request_changes ticket ("a" ∷ "b" ∷ []) in
    ((2 + 2 ≤ default_max_review_rounds)
      × (t'.phase ≡ rework_requested)
      × (t'.review_round ≡ 2 + 2))
    ⊎ ((default_max_review_rounds < 2 + 2)
        × (t'.phase ≡ needs_human_decision)
        × (t'.review_round ≡ default_max_review_rounds))
rounds_bounded_example = rounds_bounded ticket "a" ("b" ∷ []) (omega arith)
