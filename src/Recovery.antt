-- ===== src/Recovery.antt =====
-- What the server does about runs that were lost: packages/server/src/worker-sweep-recovery.ts,
-- startup-recovery.ts, run-dispatcher.ts, and the sweep that index.ts starts at an interval.
-- Broadcasts to clients are left out: they change no row.
pub mod Settled
use infinite_kanban.Prelude.{
  ℕ, ◌-◌, String, Bool, true, false, not, ◌&&◌, Option, none, some, List, [], ◌∷◌, ◌==◌, string_eq,
  contains, is_some, is_none, filter, if◌then◌else◌, map,
}
use infinite_kanban.Board.{
  AgentStatus, planning, executing, awaiting_clarification, failed, pending, in_progress, column_eq,
  worker_stale_after_ms,
}
use infinite_kanban.Store.Rows.{Db, TaskRow, WorkerRow}
use infinite_kanban.Store.Tasks.{TaskPatch, no_patch, update, clear_run, get_pending_runs}
use infinite_kanban.Store.Claims.{get_expired_worker_tasks, get_assigned_worker_tasks}
use infinite_kanban.Store.Workers.{mark_offline, clear_task_sessions, clear_task_commands}

abbrev pub stranded_patch : TaskRow → ℕ → TaskPatch
stranded_patch task now = record no_patch {
  agent_status = some failed;
  completed_at = some (some now);
  summary = some (some "worker_offline");
  run_requested_at = some none;
  run_claimed_at = some none;
  clarification_request = some none;
  clarification_answer = some none;
  column_id = if task.column_id == pending then some in_progress else none;
}

-- `failStrandedWorkerTask`
unfoldable pub fail_stranded_worker_task : ℕ → TaskRow → Db → Db
fail_stranded_worker_task now task db =
    let (db', found) = update task.id (stranded_patch task now) db in
    if is_some found then clear_task_commands task.id (clear_task_sessions task.id db') else db'

unfoldable pub fail_all : ℕ → List TaskRow → Db → Db
fail_all now [] db = db
fail_all now (task ∷ tasks) db = fail_all now tasks (fail_stranded_worker_task now task db)

unfoldable pub fail_tasks_of : ℕ → List WorkerRow → Db → Db
fail_tasks_of now [] db = db
fail_tasks_of now (w ∷ ws) db =
    fail_tasks_of now ws (fail_all now (get_assigned_worker_tasks (w.id ∷ []) db) db)

-- The worker sweep of index.ts. `now` is a clock's reading, far above the 45 seconds taken off.
unfoldable pub worker_sweep : ℕ → Db → Db
worker_sweep now db =
    let (db₁, gone) = mark_offline (now - worker_stale_after_ms) now db in
    let db₂ = fail_tasks_of now gone db₁ in fail_all now (get_expired_worker_tasks now db₂) db₂

unfoldable pub should_recover_group_child_as_failed : AgentStatus → Bool
should_recover_group_child_as_failed executing = true
should_recover_group_child_as_failed _ = false

unfoldable pub should_recover_group_child_to_idle : AgentStatus → Bool
should_recover_group_child_to_idle planning = true
should_recover_group_child_to_idle _ = false

unfoldable pub should_recover_standalone_task_as_failed : AgentStatus → Bool → Bool
should_recover_standalone_task_as_failed planning asked = true
should_recover_standalone_task_as_failed executing asked = true
should_recover_standalone_task_as_failed awaiting_clarification asked = not asked
should_recover_standalone_task_as_failed _ asked = false

abbrev pub orphaned_patch : ℕ → TaskPatch
orphaned_patch now = record no_patch {
  agent_status = some failed;
  completed_at = some (some now);
  clarification_request = some none;
  clarification_answer = some none;
}

abbrev pub is_orphaned : List String → TaskRow → Bool
is_orphaned exclude t =
    should_recover_standalone_task_as_failed t.agent_status (is_some t.clarification_request)
    && not (contains exclude t.id)

abbrev pub recover_one : ℕ → TaskRow → Db → Db
recover_one now task db =
    clear_task_sessions task.id (clear_run task.id (update task.id (orphaned_patch now) db).0).0

unfoldable pub recover_each : ℕ → List TaskRow → Db → Db
recover_each now [] db = db
recover_each now (task ∷ tasks) db = recover_each now tasks (recover_one now task db)

-- `recoverOrphanedStandaloneTasks`, over the tasks that the caller has read.
unfoldable pub recover_orphaned_standalone_tasks :
    ℕ → List TaskRow → List String → Db → Db × List TaskRow
unfolding recover_each
recover_orphaned_standalone_tasks now tasks exclude db =
    let orphaned = filter (is_orphaned exclude) tasks in (recover_each now orphaned db, orphaned)

-- `dispatchPendingRuns`: the tasks that it hands to `dispatchTask`, in order. `is_running` is the
-- agent manager's answer.
unfoldable pub dispatched_pending_runs : (String → Bool) → ℕ → Db → List TaskRow
dispatched_pending_runs is_running stale_before db =
    filter (λ t. is_none t.assigned_worker_id && not (is_running t.id))
      (get_pending_runs stale_before db)
