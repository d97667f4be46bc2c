-- ===== src/Workflow/Coordinator/Soundness/Settles.antt =====
-- A result keeps a session safe, taken or refused (`settle` of services/board-workflow.ts).
use infinite_kanban.Prelude.{
  ◌≡◌, refl, sym, ap, ◌∙◌, String, Bool, true, false, Option, none, some, any, leb, get_last?,
  Option-cases, inl, inr, if◌then◌else◌, or_else,
}
use mathlib.Core.Option.{some-injective}
use mathlib.Core.Bool.{true≢false}
use infinite_kanban.Contract.Json.{Json}
use infinite_kanban.Contract.Check.{ExecutionRole, implementation, review, Identity}
use infinite_kanban.Contract.Result.{ExecutionResult, Verdict, approved, changes_requested}
use infinite_kanban.Contract.Binding.{validate_result-binds}
use infinite_kanban.Workflow.RunStore.{
  BoardWorkflowRun, WorkflowDispatch, awaiting_approval, done, escalated,
}
use infinite_kanban.Workflow.Coordinator.Session.{
  Surroundings, Session, Flow, returned, failed_with, refused, with_run, with_last, save_run,
  update_last,
}
use infinite_kanban.Workflow.Coordinator.Messages.{is_late}
use infinite_kanban.Workflow.Coordinator.Settling.{
  Judged, taken, not_taken, judge, refuse_result, caught, took, without_approval, with_findings,
  take_implementation, take_approval, take_changes, take_review, take, apply_judgement, settle,
  is_repeated, is_settled_state, review_rounds,
}
use infinite_kanban.Workflow.Coordinator.Soundness.{
  Maker, maker_as, revision_made, IsBound, IsHistory, HasHistory, IsApproved, Traced, IsSafe, safe,
  safe-IsSound, safe-Traced, safe_history, IsSafeFlow,
}
use infinite_kanban.Workflow.Coordinator.Soundness.History.{
  EndsClosed, IsHistory-update, IsHistory-last, last-update_last,
}
use infinite_kanban.Workflow.Coordinator.Soundness.Saves.{
  save_run-IsSafe, escalate-IsSafe, if-IsSafe,
}
use infinite_kanban.Workflow.Coordinator.Soundness.Sends.{dispatch_role-IsSafe}
use infinite_kanban.Workflow.Coordinator.Soundness.Judged.{IsDecided-open, IsTaken, judge_lem}

refused-IsSafe :
    (late : Bool) (run : BoardWorkflowRun) (s : Session)
    → IsSafe (with_run run s)
    → IsSafe (with_run (if late then run else record run { phase = escalated }) s)
refused-IsSafe true run s h = h
refused-IsSafe false run s h =
    safe (with_run (record run { phase = escalated }) s) (safe_history _ h) tt (safe-Traced _ h)

pub refuse_result-IsSafe :
    (env : Surroundings) (reason : String) (s : Session)
    → IsSafe s
    → IsSafe (refuse_result env reason s)
unfolding refuse_result
refuse_result-IsSafe env reason s h =
    let (history, decided) = safe-IsSound s h in
    save_run-IsSafe _
      (refused-IsSafe (is_late reason) _ s (safe _ history decided (safe-Traced s h)))

caught-IsSafe :
    (env : Surroundings) (flow : Flow) (before : Session)
    → IsSafe before
    → IsSafeFlow flow
    → IsSafe (caught env flow before)
caught-IsSafe env (returned s) before b h = h
caught-IsSafe env (failed_with e s) before b h = refuse_result-IsSafe env e s h
caught-IsSafe env (refused e) before b h = refuse_result-IsSafe env e before b

-- The revision that counts as accepted once a result is taken.
abbrev accepted_after : ExecutionRole → ExecutionResult → Option String → Option String
accepted_after implementation r before = some r.revision
accepted_after review r before = before

took_makes :
    (role : ExecutionRole) (r : ExecutionResult) (d : WorkflowDispatch) (before : Option String)
    (m : Option Maker)
    → d.result ≡ none
    → before ≡ revision_made (or_else (maker_as role d) m)
    → accepted_after role r before ≡ revision_made (or_else (maker_as role (took r d)) m)
took_makes implementation r d before m unfinished h = refl
took_makes review r d before m unfinished h = h

-- An open dispatch has no result yet.
unfinished_open :
    (d : WorkflowDispatch) → IsBound d → is_settled_state d.state ≡ false → d.result ≡ none
unfinished_open d (bound, _) left = elim (Option-cases d.result) [
  | inl gone ↦ gone
  | inr (r, found) ↦ absurd (true≢false (sym (ap is_settled_state (bound r found).0) ∙ left))
]

pub ends_saved :
    (s : Session) → EndsClosed s.run.assignments → EndsClosed (save_run s).run.assignments
unfolding save_run
ends_saved s ends = ends

approved-IsSafe :
    (auto : Bool) (s : Session)
    → s.run.policy.auto_finish ≡ auto
    → HasHistory s.run
    → IsApproved s.run.assignments
    → Traced s.trace
    → IsSafe (with_run (record s.run { phase = if auto then done else awaiting_approval }) s)
approved-IsSafe true s as_policy history won traced =
    safe (with_run (record s.run { phase = done }) s) history (won, inl as_policy) traced
approved-IsSafe false s as_policy history won traced =
    safe (with_run (record s.run { phase = awaiting_approval }) s) history won traced

module _ (env : Surroundings) (s : Session) (response : Json) (endpoint_id : String)
    (d : WorkflowDispatch) (r : ExecutionResult) (h : IsSafe s)
    (last : get_last? s.run.assignments ≡ some d)
    (takes : IsTaken env s.run response endpoint_id d r) where
  took_ends : EndsClosed (update_last (took r) s.run.assignments)
  took_ends e found =
      let same =
        some-injective _ e (sym (last-update_last (took r) s.run.assignments d last) ∙ found) in
      ap (λ x. is_settled_state x.state) (sym same)

  took-IsBound : IsBound (took r d)
  took-IsBound =
      let (named, _, _, target, _) = validate_result-binds (some response) d.assignment r takes.3 in
      (
        λ r' e.
            let same = some-injective r r' e in
            (refl, rw (sym same) named, λ is_review. rw (sym same) (target is_review)),
        λ e. refl,
      )

  took-IsHistory :
      IsHistory
        (update_last (took r) s.run.assignments)
        s.run.policy.max_dispatches
        (accepted_after d.assignment.named.role r s.run.accepted_revision)
  took-IsHistory =
      IsHistory-update s.run.assignments s.run.policy.max_dispatches s.run.accepted_revision
        (accepted_after d.assignment.named.role r s.run.accepted_revision) d (took r) last
        (λ m p. p) (λ b. took-IsBound)
        (λ m e.
          took_makes d.assignment.named.role r d s.run.accepted_revision m
            (unfinished_open d (IsHistory-last s.run.assignments _ _ d last (safe_history s h)).1.1
              takes.1)
            e)
        (safe_history s h)

  -- The session after the result is entered, at some accepted revision.
  abbrev pub entered : Session
  entered = with_run (with_last (took r) s.run) s

  take_implementation-IsSafe :
      d.assignment.named.role ≡ implementation → IsSafe (take_implementation env r entered)
  take_implementation-IsSafe as_role =
      let begun =
        safe
          (with_run (record (without_approval entered.run) { accepted_revision = some r.revision })
            entered)
          (rw as_role at took-IsHistory) (IsDecided-open s.run.phase _ _ _ _ takes.0)
          (safe-Traced s h) in
      let kept = save_run-IsSafe _ begun in
      caught-IsSafe env _ _ kept (dispatch_role-IsSafe env review _ kept (ends_saved _ took_ends))

  entered-IsSafe : d.assignment.named.role ≡ review → IsSafe entered
  entered-IsSafe as_role =
      safe entered (rw as_role at took-IsHistory) (IsDecided-open s.run.phase _ _ _ _ takes.0)
        (safe-Traced s h)

  take_approval-IsSafe :
      d.assignment.named.role ≡ review → r.verdict ≡ some approved → IsSafe (take_approval entered)
  take_approval-IsSafe as_role verdict =
      let history = safe_history entered (entered-IsSafe as_role) in
      let won : IsApproved entered.run.assignments =
        (took r d, r, last-update_last (took r) s.run.assignments d last, refl, as_role, verdict) in
      save_run-IsSafe _
        (approved-IsSafe s.run.policy.auto_finish entered refl history won (safe-Traced s h))

  take_changes-IsSafe : d.assignment.named.role ≡ review → IsSafe (take_changes env r entered)
  take_changes-IsSafe as_role =
      let ready = entered-IsSafe as_role in
      let (history, decided) = safe-IsSound entered ready in
      let kept = save_run-IsSafe _ (
        safe (with_run (with_findings env r entered.run) entered) history decided
          (safe-Traced s h)) in
      if-IsSafe (leb s.run.policy.max_rounds (review_rounds entered.run)) _ _
        (escalate-IsSafe env.now _ _ entered history (safe-Traced s h))
        (caught-IsSafe env _ _ kept
          (dispatch_role-IsSafe env implementation _ kept (ends_saved _ took_ends)))

  take_review-IsSafe :
      d.assignment.named.role ≡ review
      → (v : Option Verdict) → r.verdict ≡ v
      → IsSafe (take_review env r v entered)
  take_review-IsSafe as_role none verdict = take_changes-IsSafe as_role
  take_review-IsSafe as_role (some approved) verdict = take_approval-IsSafe as_role verdict
  take_review-IsSafe as_role (some changes_requested) verdict = take_changes-IsSafe as_role

  take-IsSafe :
      (role : ExecutionRole) → d.assignment.named.role ≡ role → IsSafe (take env r role entered)
  take-IsSafe implementation as_role = take_implementation-IsSafe as_role
  take-IsSafe review as_role = take_review-IsSafe as_role r.verdict refl

  taken-IsSafe : IsSafe (take env r r.named.role entered)
  taken-IsSafe =
      let (named, _, _, _, _) = validate_result-binds (some response) d.assignment r takes.3 in
      take-IsSafe r.named.role (ap (λ (x : Identity). x.role) (sym named))

judged-IsSafe :
    (env : Surroundings) (s : Session) (response : Json) (endpoint_id : String) (j : Judged)
    → judge env s.run response endpoint_id ≡ j
    → IsSafe s
    → IsSafe (apply_judgement env j s)
judged-IsSafe env s response endpoint_id (not_taken reason) e h =
    refuse_result-IsSafe env reason s h
judged-IsSafe env s response endpoint_id (taken r) e h =
    let (d, last, takes) = judge_lem env s.run response endpoint_id r e in
    taken-IsSafe env s response endpoint_id d r h last takes

pub settle-IsSafe :
    (env : Surroundings) (response : Json) (endpoint_id : String) (s : Session)
    → IsSafe s
    → IsSafe (settle env response endpoint_id s)
unfolding settle
settle-IsSafe env response endpoint_id s h =
    if-IsSafe (any (is_repeated env response endpoint_id) s.run.assignments) _ _ h
      (judged-IsSafe env s response endpoint_id _ refl h)
