-- ===== src/A2a/State.antt =====
-- packages/a2a/src/state.ts: the board's lifecycle and the task states of the protocol.
pub mod Laws
use infinite_kanban.Prelude.{Bool, true, false, ◌||◌, Option, none, some, if◌then◌else◌}
use infinite_kanban.Board.{
  AgentStatus, idle, queued, planning, executing, awaiting_clarification, complete, failed,
  ColumnId, in_progress, pending, review,
}

-- The states of the SDK's enumeration `TaskState` that the module names.
pub data TaskState : Type 0 where
  submitted working input_required auth_required completed : TaskState
  failed_state canceled rejected unspecified unrecognized : TaskState

pub record BoardLifecycle : Type 0 where
  pub agent_status : AgentStatus
  pub column_id : ColumnId

-- `canceled` and `rejected` are absent or true in the source; absent is `false` here.
pub record TaskStateOverrides : Type 0 where
  pub canceled : Bool
  pub rejected : Bool

of_status : AgentStatus → TaskState
of_status idle = submitted
of_status queued = submitted
of_status planning = working
of_status executing = working
of_status awaiting_clarification = input_required
of_status complete = completed
of_status failed = failed_state

unfoldable pub to_task_state : BoardLifecycle → TaskStateOverrides → TaskState
unfolding of_status
to_task_state lifecycle overrides =
    if overrides.rejected
    then rejected
    else if overrides.canceled
    then canceled
    else of_status lifecycle.agent_status

unfoldable pub is_terminal_task_state : TaskState → Bool
is_terminal_task_state completed = true
is_terminal_task_state failed_state = true
is_terminal_task_state canceled = true
is_terminal_task_state rejected = true
is_terminal_task_state _ = false

unfoldable pub is_interrupted_task_state : TaskState → Bool
is_interrupted_task_state input_required = true
is_interrupted_task_state auth_required = true
is_interrupted_task_state _ = false

pub record FromTaskState : Type 0 where
  pub agent_status : AgentStatus
  pub column_id : Option ColumnId

unfoldable pub from_task_state : TaskState → FromTaskState
from_task_state submitted = record { agent_status = idle; column_id = none }
from_task_state working = record { agent_status = executing; column_id = some in_progress }
from_task_state input_required = record {
  agent_status = awaiting_clarification;
  column_id = some pending;
}
from_task_state completed = record { agent_status = complete; column_id = some review }
from_task_state failed_state = record { agent_status = failed; column_id = none }
from_task_state canceled = record { agent_status = failed; column_id = none }
from_task_state rejected = record { agent_status = failed; column_id = none }
from_task_state auth_required = record {
  agent_status = awaiting_clarification;
  column_id = some pending;
}
from_task_state unspecified = record { agent_status = failed; column_id = none }
from_task_state unrecognized = record { agent_status = failed; column_id = none }
