-- ===== src/Workflow/Policy/Rounds.antt =====
-- How many rounds of review a ticket can see (`applyReviewVerdict`).
use infinite_kanban.Prelude.{
  ◌+◌, ◌≤◌, ◌<◌, ◌≡◌, String, List, [], ◌∷◌, arith, leb, length, ◌⊎◌, inl, inr, Bool-cases,
}
use infinite_kanban.Workflow.Policy.{
  WorkflowTicket, changes_requested, rework_requested, needs_human_decision, apply_review_verdict,
  default_max_review_rounds,
}

-- The ticket after reviews that all request changes, with the given feedback.
pub request_changes : WorkflowTicket → List String → WorkflowTicket
request_changes ticket [] = ticket
request_changes ticket (feedback ∷ rest) =
    request_changes (apply_review_verdict ticket (changes_requested feedback)) rest

one_round :
    (t : WorkflowTicket) (fb : String)
    → t.review_round < default_max_review_rounds
    → ((apply_review_verdict t (changes_requested fb)).phase ≡ rework_requested)
      × ((apply_review_verdict t (changes_requested fb)).review_round ≡ t.review_round + 1)
unfolding apply_review_verdict
one_round t fb h = ground arith

last_round :
    (t : WorkflowTicket) (fb : String)
    → t.review_round ≡ default_max_review_rounds
    → ((apply_review_verdict t (changes_requested fb)).phase ≡ needs_human_decision)
      × ((apply_review_verdict t (changes_requested fb)).review_round ≡ default_max_review_rounds)
unfolding apply_review_verdict
last_round t fb h = ground arith

-- At the last round, more requests change nothing of it.
exhausted :
    (t : WorkflowTicket) (fb : String) (rest : List String)
    → t.review_round ≡ default_max_review_rounds
    → ((request_changes t (fb ∷ rest)).phase ≡ needs_human_decision)
      × ((request_changes t (fb ∷ rest)).review_round ≡ default_max_review_rounds)
unfolding request_changes
exhausted t fb [] h = last_round t fb h
exhausted t fb (fb' ∷ rest) h =
    exhausted (apply_review_verdict t (changes_requested fb)) fb' rest (last_round t fb h).1

-- From a ticket whose round is at most three, a non-empty series of reviews that request changes
-- sends it back to rework, one round up for each, while the rounds last; one more hands it to a
-- human, and the round stays at three.
pub rounds_bounded :
    (t : WorkflowTicket) (fb : String) (rest : List String)
    → t.review_round ≤ default_max_review_rounds
    → let t' = request_changes t (fb ∷ rest) in
      ((t.review_round + length (fb ∷ rest) ≤ default_max_review_rounds)
        × (t'.phase ≡ rework_requested)
        × (t'.review_round ≡ t.review_round + length (fb ∷ rest)))
      ⊎ ((default_max_review_rounds < t.review_round + length (fb ∷ rest))
          × (t'.phase ≡ needs_human_decision)
          × (t'.review_round ≡ default_max_review_rounds))
unfolding request_changes
rounds_bounded t fb [] h = ground (arith, one_round t fb, last_round t fb)
rounds_bounded t fb (fb' ∷ rest) h =
    elim (Bool-cases (leb default_max_review_rounds t.review_round)) [
      | inl full ↦
          let e : t.review_round ≡ default_max_review_rounds = ground arith in
          inr (omega arith, (exhausted t fb (fb' ∷ rest) e).0, (exhausted t fb (fb' ∷ rest) e).1)
      | inr room ↦
          let lt : t.review_round < default_max_review_rounds = ground arith in
          let next = apply_review_verdict t (changes_requested fb) in
          let (ph, up) = one_round t fb lt in
          elim (rounds_bounded next fb' rest (omega arith)) [
            | inl (a, b, c) ↦ inl (omega arith, b, omega arith)
            | inr (a, b, c) ↦ inr (omega arith, b, c)
          ]
    ]
