-- ===== src/Store/Claims/Rerun.antt =====
-- A task that a worker gave back does not run again by itself.
use infinite_kanban.Prelude.{
  ℕ, ◌≡◌, refl, ap, String, Bool, true, false, not, ◌&&◌, Option, none, some, List, [], ◌∷◌, arith,
  ◌==◌, string_eq, ◌∙◌, all, is_some,
}
use mathlib.Core.Option
use infinite_kanban.Store.Table
use infinite_kanban.Store.Rows.{Db, TaskRow, ClarificationRequest}
use infinite_kanban.Store.Tasks.{get_by_id, apply_patch, claim_run, is_startable, task_key}
use infinite_kanban.Store.Claims.{
  holds_claim, claim_worker_task, is_claimable, claimed, success, failure, Outcome,
  complete_worker_task, park_worker_task_for_clarification, completed, parked, outcome_text,
}
use infinite_kanban.Store.Claims.Guard.{refused, update-eq-some}
use infinite_kanban.Store.Claims.Row.{
  Op, patch, request, claim_start, clear, assign, claim, renew, complete, park, revoke, exec, run,
  row_op, get-exec, completed_id,
}

abbrev pub gives_request : Option (Option ℕ) → Bool
gives_request none = false
gives_request (some o) = is_some o

-- An operation that asks for a run of a task: `requestRun`, or an update that writes the column.
abbrev pub asks : String → Op → Bool
asks task (request id at) = id == task
asks task (patch id p) = id == task && gives_request p.run_requested_at
asks task (claim_start id at) = false
asks task (clear id) = false
asks task (assign id w) = false
asks task (claim id w t now ms) = false
asks task (renew id w t now ms) = false
asks task (complete id w t o at s e) = false
asks task (park id w t now q) = false
asks task (revoke w at) = false

module _ (lower : String → String) where
  stays_unasked :
      (db : Db) (op : Op) (r : TaskRow)
      → r.run_requested_at ≡ none
      → asks r.id op ≡ false
      → (row_op lower db op r).run_requested_at ≡ none
  unfolding row_op apply_patch
  stays_unasked db (complete id w t' success at s e) r h ok = ground arith
  stays_unasked db (complete id w t' failure at s e) r h ok = ground arith
  stays_unasked db (patch id p) r h ok = ground arith
  stays_unasked db (request id at) r h ok = ground arith
  stays_unasked db (claim_start id at) r h ok = ground arith
  stays_unasked db (clear id) r h ok = ground arith
  stays_unasked db (assign id w) r h ok = ground arith
  stays_unasked db (claim id w t' now ms) r h ok = ground arith
  stays_unasked db (renew id w t' now ms) r h ok = ground arith
  stays_unasked db (park id w t' now q) r h ok = ground arith
  stays_unasked db (revoke w at) r h ok = ground arith

  unasked_later :
      (id : String) (ops : List Op) (db : Db) (r : TaskRow)
      → get_by_id db id ≡ some r
      → r.run_requested_at ≡ none
      → all (λ op. not (asks id op)) ops ≡ true
      → (r' : TaskRow) × (get_by_id (run lower ops db) id ≡ some r') × (r'.run_requested_at ≡ none)
  unfolding run
  unasked_later id [] db r found h quiet = (r, found, h)
  unasked_later id (op ∷ ops) db r found h quiet =
      let same : r.id ≡ id = unfold get_by_id in Table.get-key task_key id db.tasks r found in
      let silent : asks id op ≡ false = ground arith in
      unasked_later id ops (exec lower op db) (row_op lower db op r)
        (get-exec lower db op id ∙ ap (Option.map (row_op lower db op)) found)
        (stays_unasked db op r h (ap (λ x. asks x op) same ∙ silent)) (ground arith)

  -- Neither a worker nor the server can start the task.
  abbrev pub CannotStart : String → Db → Type 0
  CannotStart id db =
      ((w t : String) (now ms : ℕ) → (claim_worker_task lower id w t now ms db).1 ≡ none)
      × ((at : ℕ) → (claim_run id at db).1 ≡ none)

  unasked-CannotStart :
      (id : String) (ops : List Op) (db : Db) (r : TaskRow)
      → get_by_id db id ≡ some r
      → r.run_requested_at ≡ none
      → all (λ op. not (asks id op)) ops ≡ true
      → CannotStart id (run lower ops db)
  unfolding claim_worker_task claim_run
  unasked-CannotStart id ops db r found h quiet =
      let (x, at_end, still) = unasked_later id ops db r found h quiet in
      (
        λ w t now ms.
            refused id (is_claimable lower (run lower ops db) w now) (claimed w t now ms)
              (run lower ops db) x at_end (ground arith),
        λ at. refused id (is_startable at) _ (run lower ops db) x at_end (ground arith),
      )

  -- After a worker has completed a task or failed it, whatever operations follow, neither a worker
  -- nor the server can start it, as long as none of them asks for a run of it.
  pub no_rerun_after_completion :
      (id w t : String) (o : Outcome) (at : ℕ) (s e : Option String) (ops : List Op) (db : Db)
      (r' : TaskRow)
      → (complete_worker_task id w t o at s e db).1 ≡ some r'
      → all (λ op. not (asks id op)) ops ≡ true
      → CannotStart id (run lower ops (complete_worker_task id w t o at s e db).0)
  unfolding complete_worker_task
  no_rerun_after_completion id w t o at s e ops db r' h quiet =
      let (r, found, go, eq, read) =
        update-eq-some id (holds_claim w t at) (completed o at (outcome_text s e)) db r'
          (completed_id o at (outcome_text s e)) h in
      unasked-CannotStart id ops _ _ read refl quiet

  -- The same after it was parked for a clarification: only an answer that asks for a run, or
  -- another such request, starts it again.
  pub no_rerun_after_park :
      (id w t : String) (now : ℕ) (q : ClarificationRequest) (ops : List Op) (db : Db)
      (r' : TaskRow)
      → (park_worker_task_for_clarification id w t now q db).1 ≡ some r'
      → all (λ op. not (asks id op)) ops ≡ true
      → CannotStart id (run lower ops (park_worker_task_for_clarification id w t now q db).0)
  unfolding park_worker_task_for_clarification
  no_rerun_after_park id w t now q ops db r' h quiet =
      let (r, found, go, eq, read) =
        update-eq-some id (holds_claim w t now) (parked q) db r' (λ x. refl) h in
      unasked-CannotStart id ops _ _ read refl quiet
