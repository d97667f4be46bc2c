-- ===== src/Store/Claims.antt =====
-- packages/server/src/repositories/sqlite.ts: the statements by which remote workers are assigned
-- tasks, claim them under a lease, renew it, and give them back.
pub mod Row
pub mod Guard
pub mod Release
pub mod Grant
pub mod Rerun
pub mod Consistency
pub mod Revoked
use infinite_kanban.Prelude.{
  ℕ, ◌+◌, String, Bool, true, not, ◌&&◌, ◌||◌, Option, none, some, List, [], ◌∷◌, ◌==◌, string_eq,
  is_some, is_none, or_else, filter, any, all, contains, map, if◌then◌else◌,
}
use infinite_kanban.Board.{
  AgentStatus, idle, queued, planning, executing, awaiting_clarification, complete, failed,
  in_progress, pending, review, opencode, online, disabled, status_eq, column_eq, worker_status_eq,
  agent_type_eq,
}
use infinite_kanban.Store.Table
use infinite_kanban.Store.Rows.{
  Db, TaskRow, WorkerRow, ProjectRow, TaskSession, TaskCommand, ClarificationRequest,
}
use infinite_kanban.Store.Tasks.{
  is_equal, is_less, is_at_least, update_task, get_by_id, task_key, worker_key,
}

-- `EXISTS (SELECT 1 FROM workers WHERE id = ? AND status <> 'disabled')`
abbrev pub is_usable_worker : Db → String → Bool
is_usable_worker db id = any (λ w. w.id == id && not (w.status == disabled)) db.workers

abbrev pub is_assignable : Db → Option String → TaskRow → Bool
is_assignable db worker r =
    is_none r.worker_claim_token_hash
    && (contains (idle ∷ planning ∷ []) r.agent_status
        && elim worker [ none ↦ true | some w ↦ is_usable_worker db w ])

abbrev pub assigned : Option String → TaskRow → TaskRow
assigned worker r = record r {
  assigned_worker_id = worker;
  worker_claim_token_hash = none;
  worker_claimed_at = none;
  worker_lease_expires_at = none;
}

-- `assignToWorker`: only an unclaimed task that is idle or planning is (re)assigned; no worker
-- unassigns it.
unfoldable pub assign_to_worker : String → Option String → Db → Db × Option TaskRow
assign_to_worker id worker db = update_task id (is_assignable db worker) (assigned worker) db

abbrev pub is_pooled : Db → TaskRow → Bool
is_pooled db r = any (λ p. p.id == r.project_id && p.worker_pool_enabled) db.projects

abbrev pub is_offerable : TaskRow → Bool
is_offerable r =
    is_some r.run_requested_at && contains (idle ∷ planning ∷ queued ∷ []) r.agent_status

abbrev pub claimed : String → String → ℕ → ℕ → TaskRow → TaskRow
claimed worker token now lease_ms r = record r {
  assigned_worker_id = or_else r.assigned_worker_id (some worker);
  worker_claim_token_hash = some token;
  worker_claimed_at = some now;
  worker_lease_expires_at = some (now + lease_ms);
  worker_attempt = r.worker_attempt + 1;
  agent_status = planning;
  started_at = or_else r.started_at (some now);
}

-- SQLite's `lower` is not part of the program: a parameter.
module _ (lower : String → String) where
  -- A worker that takes part in the pool: online, capable, and with consent for the project and
  -- for every label.
  abbrev pub consents : String → TaskRow → WorkerRow → Bool
  consents worker r w =
      w.id == worker
      && (w.status == online
          && (contains w.agent_types r.agent_type
              && (contains w.accepted_project_ids r.project_id
                  && all (λ label. any (λ consent. lower consent == lower label) w.accepted_labels)
                      r.labels)))

  -- The task is this worker's, or nobody's and open to it through the pool.
  abbrev pub is_open_to : Db → String → TaskRow → Bool
  is_open_to db worker r =
      is_equal r.assigned_worker_id worker
      || (is_none r.assigned_worker_id && (is_pooled db r && any (consents worker r) db.workers))

  -- The selection of `getWorkerAssignments`, whose order is not modelled.
  unfoldable pub get_worker_assignments : String → ℕ → Db → List TaskRow
  get_worker_assignments worker now db =
      filter
        (λ r.
          is_offerable r
          && ((is_none r.worker_claim_token_hash || is_less r.worker_lease_expires_at now)
              && is_open_to db worker r))
        db.tasks

  abbrev pub is_claimable : Db → String → ℕ → TaskRow → Bool
  is_claimable db worker now r =
      is_some r.run_requested_at
      && (is_none r.worker_claim_token_hash
          && ((is_none r.worker_lease_expires_at || is_less r.worker_lease_expires_at now)
              && (contains (idle ∷ planning ∷ queued ∷ []) r.agent_status
                  && is_open_to db worker r)))

  unfoldable pub claim_worker_task : String → String → String → ℕ → ℕ → Db → Db × Option TaskRow
  claim_worker_task id worker token now lease_ms db =
      update_task id (is_claimable db worker now) (claimed worker token now lease_ms) db

-- The guard that the four statements below share.
unfoldable pub holds_claim : String → String → ℕ → TaskRow → Bool
holds_claim worker token now r =
    is_equal r.assigned_worker_id worker
    && (is_equal r.worker_claim_token_hash token && is_at_least r.worker_lease_expires_at now)

abbrev pub renewed : ℕ → TaskRow → TaskRow
renewed expires r = record r { worker_lease_expires_at = some expires }

unfoldable pub renew_worker_lease : String → String → String → ℕ → ℕ → Db → Db × Bool
renew_worker_lease id worker token now lease_ms db =
    let (rows, changed) =
      Table.update_where task_key id (holds_claim worker token now) (renewed (now + lease_ms))
        db.tasks in
    (record db { tasks = rows }, changed)

unfoldable pub is_worker_claim_valid : String → String → String → ℕ → Db → Bool
is_worker_claim_valid id worker token now db =
    Table.holds task_key (holds_claim worker token now) (get_by_id db id)

pub data Outcome : Type 0 where
  success failure : Outcome

abbrev pub status_of : Outcome → AgentStatus
status_of success = complete
status_of failure = failed

abbrev pub settled_column : Outcome → TaskRow → TaskRow
settled_column success r = record r { column_id = review }
settled_column failure r =
    if r.column_id == pending then record r { column_id = in_progress } else r

-- `summary ?? (error ? error : null)`
abbrev pub outcome_text : Option String → Option String → Option String
outcome_text (some s) error = some s
outcome_text none none = none
outcome_text none (some e) = if e == "" then none else some e

abbrev pub completed : Outcome → ℕ → Option String → TaskRow → TaskRow
completed outcome at text r = record (settled_column outcome r) {
  agent_status = status_of outcome;
  completed_at = some at;
  summary = text;
  clarification_request = none;
  clarification_answer = none;
  run_requested_at = none;
  run_claimed_at = none;
  worker_claim_token_hash = none;
  worker_lease_expires_at = none;
}

unfoldable pub complete_worker_task :
    String
    → String
    → String
    → Outcome
    → ℕ
    → Option String
    → Option String
    → Db
    → Db × Option TaskRow
complete_worker_task id worker token outcome at summary error db =
    update_task id (holds_claim worker token at) (completed outcome at (outcome_text summary error))
      db

abbrev pub parked : ClarificationRequest → TaskRow → TaskRow
parked request r = record r {
  agent_status = awaiting_clarification;
  column_id = pending;
  completed_at = none;
  clarification_request = some request;
  clarification_answer = none;
  run_requested_at = none;
  run_claimed_at = none;
  worker_claim_token_hash = none;
  worker_lease_expires_at = none;
}

unfoldable pub park_worker_task_for_clarification :
    String → String → String → ℕ → ClarificationRequest → Db → Db × Option TaskRow
park_worker_task_for_clarification id worker token now request db =
    update_task id (holds_claim worker token now) (parked request) db

-- A park that stopped half-way: it waits for an answer to no question.
abbrev pub is_half_parked : TaskRow → Bool
is_half_parked r = r.agent_status == awaiting_clarification && is_none r.clarification_request

abbrev pub is_expired : ℕ → TaskRow → Bool
is_expired now r =
    is_some r.assigned_worker_id
    && ((is_less r.worker_lease_expires_at now
          && contains (planning ∷ executing ∷ []) r.agent_status)
        || is_half_parked r)

unfoldable pub get_expired_worker_tasks : ℕ → Db → List TaskRow
get_expired_worker_tasks now db = filter (is_expired now) db.tasks

abbrev pub is_abandoned : List String → TaskRow → Bool
is_abandoned workers r =
    any (λ w. is_equal r.assigned_worker_id w) workers
    && ((is_some r.worker_claim_token_hash && contains (planning ∷ executing ∷ []) r.agent_status)
        || is_half_parked r)

unfoldable pub get_assigned_worker_tasks : List String → Db → List TaskRow
get_assigned_worker_tasks workers db = filter (is_abandoned workers) db.tasks

abbrev pub was_active : TaskRow → Bool
was_active r = contains (queued ∷ planning ∷ executing ∷ awaiting_clarification ∷ []) r.agent_status

-- The assignments of the UPDATE read the row as it was.
abbrev pub revoked : ℕ → TaskRow → TaskRow
revoked at r =
    let asked = r.agent_status == awaiting_clarification in
    record r {
      assigned_worker_id = none;
      run_requested_at = none;
      run_claimed_at = none;
      worker_claim_token_hash = none;
      worker_claimed_at = none;
      worker_lease_expires_at = none;
      agent_status = if was_active r then failed else r.agent_status;
      completed_at = if was_active r then some at else r.completed_at;
      summary = if was_active r then some "worker_revoked" else r.summary;
      clarification_request = if asked then none else r.clarification_request;
      clarification_answer = if asked then none else r.clarification_answer;
      column_id = if asked && r.column_id == pending then in_progress else r.column_id;
    }

abbrev pub revoked_if : String → ℕ → TaskRow → TaskRow
revoked_if worker at r = if is_equal r.assigned_worker_id worker then revoked at r else r

-- `RETURNING *` gives the rows as they are after the update; their sessions and commands go too.
unfoldable pub revoke_worker_assignments : String → ℕ → Db → Db × List TaskRow
revoke_worker_assignments worker at db =
    let mine = filter (λ r. is_equal r.assigned_worker_id worker) db.tasks in
    let kept : String → Bool = λ task. not (any (λ r. r.id == task) mine) in
    (
      record db {
        tasks = map (revoked_if worker at) db.tasks;
        sessions = filter (λ s. kept s.task_id) db.sessions;
        commands = filter (λ c. kept c.task_id) db.commands;
      },
      map (revoked at) mine,
    )
