-- ===== src/Board/Defs.antt =====
-- Enumerations of shared/types.ts and the constants, tables and range tests of
-- shared/constants.ts. A tested number is a native one: the source also refuses what is no
-- integer, and negative ones.
use infinite_kanban.Prelude.{
  ℕ, ◌≡◌, ◌↔◌, Bool, true, ◌&&◌, List, [], ◌∷◌, arith, Eq, ◌==◌, nat_eq, leb, contains,
}

pub data AgentStatus : Type 0 where
  idle queued planning executing awaiting_clarification complete failed : AgentStatus

pub data ColumnId : Type 0 where
  backlog in_progress pending review done : ColumnId

pub data Priority : Type 0 where
  low medium high critical : Priority

pub data AgentType : Type 0 where
  opencode codex : AgentType

pub data WorkerStatus : Type 0 where
  online offline disabled : WorkerStatus

abbrev pub status_rank : AgentStatus → ℕ
status_rank idle = 0
status_rank queued = 1
status_rank planning = 2
status_rank executing = 3
status_rank awaiting_clarification = 4
status_rank complete = 5
status_rank failed = 6

abbrev pub column_rank : ColumnId → ℕ
column_rank backlog = 0
column_rank in_progress = 1
column_rank pending = 2
column_rank review = 3
column_rank done = 4

abbrev pub priority_rank : Priority → ℕ
priority_rank low = 0
priority_rank medium = 1
priority_rank high = 2
priority_rank critical = 3

abbrev pub agent_type_rank : AgentType → ℕ
agent_type_rank opencode = 0
agent_type_rank codex = 1

abbrev pub worker_status_rank : WorkerStatus → ℕ
worker_status_rank online = 0
worker_status_rank offline = 1
worker_status_rank disabled = 2

pub status_iff : (a b : AgentStatus) → ((status_rank a == status_rank b) ≡ true) ↔ (a ≡ b)
status_iff a b = ground arith

pub column_iff : (a b : ColumnId) → ((column_rank a == column_rank b) ≡ true) ↔ (a ≡ b)
column_iff a b = ground arith

pub priority_iff : (a b : Priority) → ((priority_rank a == priority_rank b) ≡ true) ↔ (a ≡ b)
priority_iff a b = ground arith

pub agent_type_iff : (a b : AgentType) → ((agent_type_rank a == agent_type_rank b) ≡ true) ↔ (a ≡ b)
agent_type_iff a b = ground arith

pub worker_status_iff :
    (a b : WorkerStatus) → ((worker_status_rank a == worker_status_rank b) ≡ true) ↔ (a ≡ b)
worker_status_iff a b = ground arith

instance abbrev pub status_eq : Eq AgentStatus
status_eq = record { same = λ a b. status_rank a == status_rank b; same_iff = status_iff }

instance abbrev pub column_eq : Eq ColumnId
column_eq = record { same = λ a b. column_rank a == column_rank b; same_iff = column_iff }

instance abbrev pub priority_eq : Eq Priority
priority_eq = record { same = λ a b. priority_rank a == priority_rank b; same_iff = priority_iff }

instance abbrev pub agent_type_eq : Eq AgentType
agent_type_eq = record {
  same = λ a b. agent_type_rank a == agent_type_rank b;
  same_iff = agent_type_iff;
}

instance abbrev pub worker_status_eq : Eq WorkerStatus
worker_status_eq = record {
  same = λ a b. worker_status_rank a == worker_status_rank b;
  same_iff = worker_status_iff;
}

unfoldable pub valid_agent_status_transitions : AgentStatus → List AgentStatus
valid_agent_status_transitions idle = planning ∷ queued ∷ []
valid_agent_status_transitions queued = planning ∷ failed ∷ []
valid_agent_status_transitions planning = executing ∷ failed ∷ []
valid_agent_status_transitions executing = awaiting_clarification ∷ complete ∷ failed ∷ []
valid_agent_status_transitions awaiting_clarification = executing ∷ failed ∷ queued ∷ []
valid_agent_status_transitions complete = idle ∷ queued ∷ []
valid_agent_status_transitions failed = idle ∷ queued ∷ []

unfoldable pub can_transition_agent_status : AgentStatus → AgentStatus → Bool
unfolding valid_agent_status_transitions
can_transition_agent_status from to = contains (valid_agent_status_transitions from) to

unfoldable pub valid_transitions : ColumnId → List ColumnId
valid_transitions backlog = in_progress ∷ []
valid_transitions in_progress = backlog ∷ review ∷ []
valid_transitions pending = in_progress ∷ []
valid_transitions review = done ∷ in_progress ∷ []
valid_transitions done = in_progress ∷ []

-- The list from which the SQL of `claimRun` is built.
unfoldable pub claimable_agent_statuses : List AgentStatus
claimable_agent_statuses = idle ∷ planning ∷ complete ∷ failed ∷ []

abbrev pub max_title_length : ℕ
max_title_length = 200

abbrev pub max_description_length : ℕ
max_description_length = 5000

abbrev pub max_group_children : ℕ
max_group_children = 20

abbrev pub min_group_children : ℕ
min_group_children = 2

abbrev pub max_pending_work_requests : ℕ
max_pending_work_requests = 5

abbrev pub worker_task_lease_ms : ℕ
worker_task_lease_ms = 60000

abbrev pub worker_stale_after_ms : ℕ
worker_stale_after_ms = 45000

unfoldable pub is_valid_agent_timeout_minutes : ℕ → Bool
is_valid_agent_timeout_minutes value = leb 1 value && leb value 240

unfoldable pub is_valid_max_concurrency : ℕ → ℕ → Bool
is_valid_max_concurrency value child_count = leb 1 value && leb value child_count
