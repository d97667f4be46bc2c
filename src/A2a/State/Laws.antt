-- ===== src/A2a/State/Laws.antt =====
-- A remote state that the board takes over, and what it projects again.
use infinite_kanban.Prelude.{true, false, ◌≡◌, ◌||◌, ◌↔◌, ◌⊎◌, arith, value_or, refl}
use infinite_kanban.Board.{ColumnId, complete, failed}
use infinite_kanban.A2a.State.{
  TaskState, submitted, working, input_required, auth_required, completed, failed_state, canceled,
  rejected, unspecified, unrecognized, TaskStateOverrides, BoardLifecycle, to_task_state,
  from_task_state, is_terminal_task_state, is_interrupted_task_state,
}

-- The card after the board took over a remote state: it keeps its column where none is forced.
abbrev pub taken_over : ColumnId → TaskState → BoardLifecycle
taken_over column state = record {
  agent_status = (from_task_state state).agent_status;
  column_id = value_or (from_task_state state).column_id column;
}

abbrev pub no_overrides : TaskStateOverrides
no_overrides = record { canceled = false; rejected = false }

-- The state that a peer sees once the board has taken a state over: its own, but the board has no
-- canceled, rejected or unknown status, and no authentication pause.
abbrev pub seen_as : TaskState → TaskState
seen_as canceled = failed_state
seen_as rejected = failed_state
seen_as unspecified = failed_state
seen_as unrecognized = failed_state
seen_as auth_required = input_required
seen_as submitted = submitted
seen_as working = working
seen_as input_required = input_required
seen_as completed = completed
seen_as failed_state = failed_state

-- A state that the board takes over, and projects again without overrides, is the state that was
-- reported, but canceled, rejected, unspecified and unrecognized come back as failed, and
-- auth-required as input-required. So a terminal state stays terminal, an interrupted one stays
-- interrupted, and beyond the terminal states only an unknown one becomes terminal.
pub from-to_task_state :
    (column : ColumnId) (state : TaskState)
    → let again = to_task_state (taken_over column state) no_overrides in
      (again ≡ seen_as state)
      × (is_interrupted_task_state again ≡ is_interrupted_task_state state)
      × ((is_terminal_task_state again ≡ true) ↔ (
          (is_terminal_task_state state ≡ true) ⊎ ((state ≡ unspecified) ⊎ (state ≡ unrecognized))))
unfolding to_task_state from_task_state is_terminal_task_state is_interrupted_task_state
from-to_task_state column submitted = (refl, refl, ground arith)
from-to_task_state column state = ground arith

-- A projected task is terminal exactly when its run ended on the board, or the request was
-- canceled or rejected: the column never matters.
terminal_iff :
    (l : BoardLifecycle) (o : TaskStateOverrides)
    → (is_terminal_task_state (to_task_state l o) ≡ true) ↔ (
        (o.rejected || o.canceled ≡ true)
        ⊎ ((l.agent_status ≡ complete) ⊎ (l.agent_status ≡ failed)))
unfolding to_task_state is_terminal_task_state
terminal_iff l o = ground arith
