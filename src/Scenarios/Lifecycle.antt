-- ===== src/Scenarios/Lifecycle.antt =====
-- Runs of the board's lifecycle (shared/constants.ts, packages/a2a/src/state.ts).
use infinite_kanban.Prelude.{◌≡◌, true, false, ◌↔◌, ◌⊎◌}
use infinite_kanban.Board.{complete, pending, review}
use infinite_kanban.A2a.State.{
  canceled, failed_state, is_terminal_task_state, is_interrupted_task_state, to_task_state,
  unspecified, unrecognized, BoardLifecycle, TaskStateOverrides,
}
use infinite_kanban.A2a.State.Laws.{taken_over, no_overrides, from-to_task_state}

from-to_task_state_example :
    let again = to_task_state (taken_over pending canceled) no_overrides in
    (again ≡ failed_state)
    × (is_interrupted_task_state again ≡ is_interrupted_task_state canceled)
    × ((is_terminal_task_state again ≡ true) ↔ (
        (is_terminal_task_state canceled ≡ true)
        ⊎ ((canceled ≡ unspecified) ⊎ (canceled ≡ unrecognized))))
from-to_task_state_example = from-to_task_state pending canceled

abbrev reviewed : BoardLifecycle
reviewed = record { agent_status = complete; column_id = review }

abbrev stopped : TaskStateOverrides
stopped = record { canceled = true; rejected = false }
