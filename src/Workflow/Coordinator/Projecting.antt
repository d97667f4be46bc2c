-- ===== src/Workflow/Coordinator/Projecting.antt =====
-- `project` of services/board-workflow.ts: what the board shows of a run.
use infinite_kanban.Prelude.{
  ℕ, ◌≡◌, ◌↔◌, String, Bool, true, false, not, ◌&&◌, ◌||◌, Option, none, some, [], ◌∷◌, ◌==◌,
  string_eq, nat_eq, Eq, arith, contains, get_last?, length, value_or, if◌then◌else◌,
}
use Prim.Native.String.{◌++◌ as ◌<>◌}
use infinite_kanban.Board.{ColumnId, AgentStatus}
use infinite_kanban.Workflow.RunStore.{
  BoardWorkflowRun, RunPhase, implementing, reviewing, awaiting_approval, done, escalated,
  dispatch_uncertain, canceled, Diagnostic,
}
use infinite_kanban.Workflow.Coordinator.Session.{
  Surroundings, Session, Projection, projected, did, with_run, save_run,
}

abbrev pub phase_rank : RunPhase → ℕ
phase_rank implementing = 0
phase_rank reviewing = 1
phase_rank awaiting_approval = 2
phase_rank done = 3
phase_rank escalated = 4
phase_rank dispatch_uncertain = 5
phase_rank canceled = 6

pub phase_iff : (a b : RunPhase) → ((phase_rank a == phase_rank b) ≡ true) ↔ (a ≡ b)
phase_iff a b = ground arith

instance abbrev pub phase_eq : Eq RunPhase
phase_eq = record { same = λ a b. phase_rank a == phase_rank b; same_iff = phase_iff }

abbrev pub phase_name : RunPhase → String
phase_name implementing = "implementing"
phase_name reviewing = "reviewing"
phase_name awaiting_approval = "awaiting_approval"
phase_name done = "done"
phase_name escalated = "escalated"
phase_name dispatch_uncertain = "dispatch_uncertain"
phase_name canceled = "canceled"

abbrev pub projected_column : RunPhase → ColumnId
projected_column done = ColumnId.done
projected_column reviewing = ColumnId.review
projected_column awaiting_approval = ColumnId.review
projected_column escalated = ColumnId.backlog
projected_column dispatch_uncertain = ColumnId.backlog
projected_column canceled = ColumnId.backlog
projected_column implementing = ColumnId.in_progress

abbrev pub projected_status : RunPhase → AgentStatus
projected_status done = AgentStatus.complete
projected_status awaiting_approval = AgentStatus.complete
projected_status escalated = AgentStatus.failed
projected_status dispatch_uncertain = AgentStatus.failed
projected_status canceled = AgentStatus.idle
projected_status implementing = AgentStatus.executing
projected_status reviewing = AgentStatus.executing

abbrev pub reason_of : Option Diagnostic → String
reason_of none = ""
reason_of (some d) = d.reason

abbrev pub summary_end : Option Diagnostic → String
summary_end none = ""
summary_end (some d) = ": " <> d.reason

unfoldable pub projection : Surroundings → BoardWorkflowRun → Projection
projection env run = record {
  column = projected_column run.phase;
  agent_status = projected_status run.phase;
  summary = "Workflow " <> (phase_name run.phase <> summary_end (get_last? run.diagnostics));
  completed_at = if run.phase == done then some env.now else none;
}

unfoldable pub projection_key : Surroundings → BoardWorkflowRun → String
projection_key env run =
    phase_name run.phase
    <> ("|"
        <> (env.decimal (length run.diagnostics)
            <> ("|"
                <> (reason_of (get_last? run.diagnostics)
                    <> ("|"
                        <> (value_or run.accepted_revision ""
                            <> ("|" <> value_or run.approved_revision "")))))))

abbrev pub is_text_of : Option String → String → Bool
is_text_of none key = false
is_text_of (some k) key = k == key

abbrev pub is_phase : Option RunPhase → RunPhase → Bool
is_phase none phase = false
is_phase (some p) phase = p == phase

abbrev pub has_settled : BoardWorkflowRun → Bool
has_settled run =
    contains (canceled ∷ done ∷ []) run.phase && is_phase run.projected_phase run.phase

abbrev pub checkpointed : String → BoardWorkflowRun → BoardWorkflowRun
checkpointed key run = record run { projected_phase = some run.phase; projected_key = some key }

-- The task's update, and the checkpoint if there is such a task.
abbrev pub write_projection : Surroundings → Session → Session
write_projection env s =
    let shown = projection env s.run in
    let key = projection_key env s.run in
    let s' = did (projected shown) s in
    if env.update_task shown
      && (not (is_phase s.run.projected_phase s.run.phase)
          || not (is_text_of s.run.projected_key key))
    then save_run (with_run (checkpointed key s.run) s')
    else s'

unfoldable pub project : Surroundings → Session → Session
unfolding projection projection_key save_run
project env s =
    if is_text_of s.run.projected_key (projection_key env s.run)
    then s
    else if has_settled s.run
    then s
    else write_projection env s
