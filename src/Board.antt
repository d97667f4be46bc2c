-- ===== src/Board.antt =====
-- The board's vocabulary: the enumerations of shared/types.ts, and the tables and validators of
-- shared/constants.ts. Equality of an enumeration compares positions in its declaration.
mod Defs
pub mod Lifecycle
pub use Defs.{
  AgentStatus, idle, queued, planning, executing, awaiting_clarification, complete, failed,
  ColumnId, backlog, in_progress, pending, review, done, Priority, low, medium, high, critical,
  AgentType, opencode, codex, WorkerStatus, online, offline, disabled, status_eq, column_eq,
  priority_eq, agent_type_eq, worker_status_eq, status_rank, column_rank, priority_rank,
  agent_type_rank, worker_status_rank, max_group_children, min_group_children, max_title_length,
  max_description_length, max_pending_work_requests, worker_task_lease_ms, worker_stale_after_ms,
}
unfoldable pub use Defs.{
  valid_agent_status_transitions, can_transition_agent_status, valid_transitions,
  claimable_agent_statuses, is_valid_max_concurrency, is_valid_agent_timeout_minutes,
}
