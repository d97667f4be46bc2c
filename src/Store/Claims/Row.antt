-- ===== src/Store/Claims/Row.antt =====
-- The statements on `tasks` as one language of operations, and what each does to one row.
use infinite_kanban.Prelude.{
  ℕ, ◌+◌, ◌≡◌, refl, String, Bool, true, Option, none, some, List, [], ◌∷◌, arith, ◌==◌, string_eq,
  if◌then◌else◌, ◌∙◌,
}
use mathlib.Core.Option
use infinite_kanban.Board.{status_eq}
use infinite_kanban.Store.Table
use infinite_kanban.Store.Table.{apply_if}
use infinite_kanban.Store.Rows.{Db, TaskRow, ClarificationRequest}
use infinite_kanban.Store.Tasks.{
  TaskPatch, task_key, get_by_id, update_task, set_task, is_startable, update, apply_patch,
  request_run, claim_run, clear_run,
}
use infinite_kanban.Store.Claims.{
  is_assignable, assigned, renewed, assign_to_worker, claim_worker_task, renew_worker_lease,
  Outcome, success, failure, complete_worker_task, park_worker_task_for_clarification,
  revoke_worker_assignments, is_claimable, claimed, holds_claim, completed, outcome_text, parked,
  revoked_if,
}

pub data Op : Type 0 where
  patch : String → TaskPatch → Op
  request claim_start : String → ℕ → Op
  clear : String → Op
  assign : String → Option String → Op
  claim renew : String → String → String → ℕ → ℕ → Op
  complete : String → String → String → Outcome → ℕ → Option String → Option String → Op
  park : String → String → String → ℕ → ClarificationRequest → Op
  revoke : String → ℕ → Op

module _ (lower : String → String) where
  abbrev pub exec : Op → Db → Db
  exec (patch id p) db = (update id p db).0
  exec (request id at) db = (request_run id at db).0
  exec (claim_start id at) db = (claim_run id at db).0
  exec (clear id) db = (clear_run id db).0
  exec (assign id w) db = (assign_to_worker id w db).0
  exec (claim id w t now ms) db = (claim_worker_task lower id w t now ms db).0
  exec (renew id w t now ms) db = (renew_worker_lease id w t now ms db).0
  exec (complete id w t o at s e) db = (complete_worker_task id w t o at s e db).0
  exec (park id w t now q) db = (park_worker_task_for_clarification id w t now q db).0
  exec (revoke w at) db = (revoke_worker_assignments w at db).0

  unfoldable pub run : List Op → Db → Db
  run [] db = db
  run (op ∷ ops) db = run ops (exec op db)

pub completed_id :
    (o : Outcome) (at : ℕ) (text : Option String) (r : TaskRow) → (completed o at text r).id ≡ r.id
completed_id success at text r = refl
completed_id failure at text r = ground arith

abbrev pub on : String → (TaskRow → TaskRow) → TaskRow → TaskRow
on id f r = if id == r.id then f r else r

-- What an operation does to one row, of a store whose workers and projects it only reads.
module _ (lower : String → String) (db : Db) where
  unfoldable pub row_op : Op → TaskRow → TaskRow
  row_op (patch id p) = on id (apply_patch p)
  row_op (request id at) =
      on id (λ r. record r { run_requested_at = some at; run_claimed_at = none })
  row_op (claim_start id at) =
      on id (apply_if (is_startable at) (λ r. record r { run_claimed_at = some at }))
  row_op (clear id) = on id (λ r. record r { run_requested_at = none; run_claimed_at = none })
  row_op (assign id w) = on id (apply_if (is_assignable db w) (assigned w))
  row_op (claim id w t now ms) = on id (apply_if (is_claimable lower db w now) (claimed w t now ms))
  row_op (renew id w t now ms) = on id (apply_if (holds_claim w t now) (renewed (now + ms)))
  row_op (complete id w t o at s e) =
      on id (apply_if (holds_claim w t at) (completed o at (outcome_text s e)))
  row_op (park id w t now q) = on id (apply_if (holds_claim w t now) (parked q))
  row_op (revoke w at) = revoked_if w at

  pub named :
      (id j : String) (c : TaskRow → Bool) (f : TaskRow → TaskRow)
      → ((r : TaskRow) → (f r).id ≡ r.id)
      → get_by_id (update_task id c f db).0 j ≡ Option.map (on id (apply_if c f)) (get_by_id db j)
  unfolding update_task get_by_id
  named id j c f keep =
      Table.get-update_where task_key id j c f db.tasks keep
      ∙ Table.map_named task_key id j (apply_if c f) db.tasks

  pub set_named :
      (id j : String) (f : TaskRow → TaskRow)
      → ((r : TaskRow) → (f r).id ≡ r.id)
      → get_by_id (set_task id f db).0 j ≡ Option.map (on id f) (get_by_id db j)
  unfolding set_task get_by_id
  set_named id j f keep =
      Table.get-update_where task_key id j (λ _. true) f db.tasks keep
      ∙ Table.map_named task_key id j f db.tasks

  -- A read of any row after an operation.
  pub get-exec :
      (op : Op) (j : String)
      → get_by_id (exec lower op db) j ≡ Option.map (row_op op) (get_by_id db j)
  unfolding row_op
  get-exec (patch id p) j = unfold update in set_named id j _ (λ r. unfold apply_patch in refl)
  get-exec (request id at) j = unfold request_run in set_named id j _ (λ r. refl)
  get-exec (claim_start id at) j = unfold claim_run in named id j _ _ (λ r. refl)
  get-exec (clear id) j = unfold clear_run in set_named id j _ (λ r. refl)
  get-exec (assign id w) j = unfold assign_to_worker in named id j _ _ (λ r. refl)
  get-exec (claim id w t now ms) j = unfold claim_worker_task in named id j _ _ (λ r. refl)
  get-exec (renew id w t now ms) j =
      unfold renew_worker_lease update_task in
      named id j (holds_claim w t now) (renewed (now + ms)) (λ r. refl)
  get-exec (complete id w t o at s e) j =
      unfold complete_worker_task in named id j _ _ (completed_id o at (outcome_text s e))
  get-exec (park id w t now q) j =
      unfold park_worker_task_for_clarification in named id j _ _ (λ r. refl)
  get-exec (revoke w at) j =
      unfold revoke_worker_assignments get_by_id in
      Table.get-map task_key j (revoked_if w at) db.tasks (λ r. ground arith)
