-- ===== src/Scenarios/Sweep.antt =====
-- A sweep that finds the lease of a task run out (index.ts, worker-sweep-recovery.ts).
use infinite_kanban.Prelude.{◌≡◌, ◌-◌, refl, some, none, In}
use infinite_kanban.Board.{failed, worker_stale_after_ms}
use infinite_kanban.Store.Table
use infinite_kanban.Store.Rows.{TaskRow, WorkerRow}
use infinite_kanban.Store.Tasks.{get_by_id, update, apply_patch, set_task}
use infinite_kanban.Store.Claims.{get_expired_worker_tasks}
use infinite_kanban.Store.Workers.{mark_offline, clear_task_sessions, clear_task_commands}
use infinite_kanban.Recovery.{worker_sweep, fail_all, fail_tasks_of, fail_stranded_worker_task}
use infinite_kanban.Recovery.Settled.{IsStranded, IsLeft, worker_sweep_settles}
use infinite_kanban.Scenarios.Claims.{held, db_of}

abbrev swept : TaskRow
swept = record held {
  agent_status = failed;
  completed_at = some 100000;
  summary = some "worker_offline";
  run_requested_at = none;
}

finds_swept : get_by_id (worker_sweep 100000 (db_of held)) "t1" ≡ some swept
unfolding get_by_id worker_sweep fail_all fail_tasks_of fail_stranded_worker_task mark_offline
    clear_task_sessions clear_task_commands update apply_patch set_task get_expired_worker_tasks
    Table.update_where Table.get
finds_swept = refl

worker_sweep_settles_example :
    (IsStranded 100000 swept → ⊥)
    × ((w : WorkerRow)
        → In w (mark_offline (100000 - worker_stale_after_ms) 100000 (db_of held)).1
        → IsLeft w.id swept
        → ⊥)
worker_sweep_settles_example = worker_sweep_settles 100000 "t1" (db_of held) swept finds_swept
