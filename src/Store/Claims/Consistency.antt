-- ===== src/Store/Claims/Consistency.antt =====
-- What holds of every row of `tasks`, whatever is done.
use infinite_kanban.Prelude.{◌≤◌, ◌≡◌, refl, true, string_eq, is_some}
use mathlib.Core.Option
use infinite_kanban.Store.Rows.{TaskRow}
use infinite_kanban.Store.Tasks.{fresh}

-- A task has a claim token just when it has a lease; a claimed one has the time of its claim, and was
-- attempted. It need not have a worker: an update of a task that is neither planning nor executing
-- may write the assigned worker (routes/tasks.ts), and keeps a token that was left behind.
pub record IsConsistent (r : TaskRow) : Type 0 where
  pub leased : is_some r.worker_claim_token_hash ≡ is_some r.worker_lease_expires_at
  pub timed : is_some r.worker_claim_token_hash ≡ true → is_some r.worker_claimed_at ≡ true
  pub attempted : is_some r.worker_claim_token_hash ≡ true → 1 ≤ r.worker_attempt

-- A created row is consistent.
pub fresh-IsConsistent : (r : TaskRow) → IsConsistent (fresh r)
fresh-IsConsistent r = record { leased = refl; timed = λ h. cc; attempted = λ h. cc }
