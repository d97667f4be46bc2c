-- ===== src/Store/Rows.antt =====
-- The rows of packages/server/src/db.ts that the repositories read and write. A column that is
-- NULL is `none`; JSON columns hold their decoded values.
use infinite_kanban.Prelude.{ℕ, String, Bool, Option, List}
use infinite_kanban.Board.{AgentStatus, ColumnId, Priority, AgentType, WorkerStatus}

-- `TaskClarificationRequest` and `TaskClarificationAnswer` of shared/types.ts.
pub record ClarificationRequest : Type 0 where
  pub request_id : String
  pub prompt : String
  pub choices : Option (List String)
  pub timestamp : ℕ
  pub session_id : String

pub record ClarificationAnswer : Type 0 where
  pub request_id : String
  pub answer : String
  pub timestamp : ℕ
  pub session_id : String

-- The columns that the scheduling of a task neither reads nor writes.
pub record TaskDetails : Type 0 where
  pub title : String
  pub description : String
  pub priority : Priority
  pub repo_path : Option String
  pub branch_name : Option String
  pub base_branch : Option String
  pub use_worktree : Option Bool
  pub worktree_path : Option String
  pub timeout_minutes : Option ℕ
  pub agent_preference : Option String

pub record TaskRow : Type 0 where
  pub id : String
  pub project_id : String
  pub details : TaskDetails
  pub column_id : ColumnId
  pub agent_status : AgentStatus
  pub agent_type : AgentType
  pub created_at : ℕ
  pub started_at : Option ℕ
  pub completed_at : Option ℕ
  pub archived : Bool
  pub group_id : Option String
  pub group_order : Option ℕ
  pub summary : Option String
  pub external_source : Option String
  pub external_key : Option String
  pub run_requested_at : Option ℕ
  pub run_claimed_at : Option ℕ
  pub clarification_request : Option ClarificationRequest
  pub clarification_answer : Option ClarificationAnswer
  pub assigned_worker_id : Option String
  pub worker_claim_token_hash : Option String
  pub worker_claimed_at : Option ℕ
  pub worker_lease_expires_at : Option ℕ
  pub worker_attempt : ℕ
  pub labels : List String

pub record WorkerRow : Type 0 where
  pub id : String
  pub name : String
  pub token_hash : String
  pub status : WorkerStatus
  pub hostname : Option String
  pub version : Option String
  pub agent_types : List AgentType
  pub max_concurrent_tasks : ℕ
  pub registered_at : ℕ
  pub last_heartbeat_at : ℕ
  pub updated_at : ℕ
  pub disabled_at : Option ℕ
  pub token_issued_at : Option ℕ
  pub owner_id : Option String
  pub accepted_project_ids : List String
  pub accepted_labels : List String

pub record ProjectRow : Type 0 where
  pub id : String
  pub worker_pool_enabled : Bool

-- `worker_task_sessions`, keyed by task and session.
pub record TaskSession : Type 0 where
  pub task_id : String
  pub session_id : String
  pub base_url : String
  pub updated_at : ℕ

pub data CommandType : Type 0 where
  message clarification cancel : CommandType

-- `worker_task_commands`
pub record TaskCommand : Type 0 where
  pub id : String
  pub task_id : String
  pub type : CommandType
  pub created_at : ℕ
  pub text : Option String
  pub attachment_ids : Option (List String)
  pub request_id : Option String
  pub session_id : Option String
  pub answer : Option String

-- A follow-up task that an agent proposes.
pub record WorkRequest : Type 0 where
  pub title : String
  pub description : String
  pub agent_type : AgentType

-- The members of `AgentEvent.metadata` that the store reads.
pub record EventMetadata : Type 0 where
  pub work_request : Option WorkRequest
  pub dismissed_work_request_event_id : Option String

-- `AgentEvent` of shared/types.ts.
pub record AgentEvent : Type 0 where
  pub id : String
  pub task_id : String
  pub type : String
  pub content : String
  pub timestamp : ℕ
  pub importance : Option String
  pub metadata : Option EventMetadata

pub record Db : Type 0 where
  pub tasks : List TaskRow
  pub workers : List WorkerRow
  pub projects : List ProjectRow
  pub sessions : List TaskSession
  pub commands : List TaskCommand
  pub events : List AgentEvent
