-- ===== src/Scenarios/Queue.antt =====
-- Two commands that wait for a task, a worker that is disabled, and one whose tasks are revoked
-- (repositories/sqlite-workers.ts, repositories/sqlite.ts).
use infinite_kanban.Prelude.{
  ◌≡◌, ◌≢◌, ◌≤◌, ◌⊎◌, refl, String, Bool, false, none, some, List, [], ◌∷◌, In, length,
}
use infinite_kanban.Board.{disabled}
use infinite_kanban.Store.Table
use infinite_kanban.Store.Rows.{Db, TaskRow, WorkerRow, TaskSession, TaskCommand, message, cancel}
use infinite_kanban.Store.Tasks.{get_by_id}
use infinite_kanban.Store.Claims.{revoke_worker_assignments, was_active}
use infinite_kanban.Store.Claims.Revoked.{nothing_left}
use infinite_kanban.Store.Workers.{claim_task_commands, bounded_limit, get_worker, precedes}
use infinite_kanban.Store.Workers.Queue.{delivers_once, delivers_oldest, IsOrder, IsOldestFirst}
use infinite_kanban.Store.Workers.Disabled.{
  WorkerOp, beats, rotates, sweeps, run_worker, disabled_stays_disabled,
}
use infinite_kanban.Scenarios.Claims.{held, db_of}

abbrev first_command : TaskCommand
first_command = record {
  id = "c1";
  task_id = "t1";
  type = message;
  created_at = 10;
  text = some "hello";
  attachment_ids = none;
  request_id = none;
  session_id = none;
  answer = none;
}

abbrev second_command : TaskCommand
second_command = record first_command { id = "c2"; type = cancel; created_at = 20; text = none }

abbrev waiting_commands : Db
waiting_commands = record (db_of held) { commands = second_command ∷ first_command ∷ [] }

-- An order in which no text comes before another.
abbrev flat : String → String → Bool
flat a b = false

flat-IsOrder : IsOrder flat
flat-IsOrder = (λ x y h. refl, λ x y z h k. refl)

hands_out_first : (claim_task_commands flat "t1" 1 waiting_commands).1 ≡ first_command ∷ []
unfolding claim_task_commands
hands_out_first = refl

delivers_once_example :
    let (db', taken) = claim_task_commands flat "t1" 1 waiting_commands in
    (length taken ≤ bounded_limit flat 1)
    × ((t : TaskCommand) → In t taken → (t.task_id ≡ "t1") × In t waiting_commands.commands)
    × ((t c : TaskCommand) → In t taken → In c db'.commands → t.id ≢ c.id)
    × ((c : TaskCommand) → In c db'.commands → In c waiting_commands.commands)
    × ((c : TaskCommand)
        → In c waiting_commands.commands
        → In c db'.commands ⊎ ((t : TaskCommand) × In t taken × (t.id ≡ c.id)))
delivers_once_example = delivers_once flat "t1" 1 waiting_commands

delivers_oldest_example :
    let (db', taken) = claim_task_commands flat "t1" 1 waiting_commands in
    IsOldestFirst flat taken
    × ((c t : TaskCommand)
        → In c db'.commands
        → c.task_id ≡ "t1"
        → In t taken
        → precedes flat c t ≡ false)
delivers_oldest_example = delivers_oldest flat flat-IsOrder "t1" 1 waiting_commands

abbrev worker : WorkerRow
worker = record {
  id = "w1";
  name = "laptop";
  token_hash = "h1";
  status = disabled;
  hostname = none;
  version = none;
  agent_types = [];
  max_concurrent_tasks = 1;
  registered_at = 1;
  last_heartbeat_at = 5;
  updated_at = 9;
  disabled_at = some 9;
  token_issued_at = some 1;
  owner_id = none;
  accepted_project_ids = [];
  accepted_labels = [];
}

abbrev with_worker : Db
with_worker = record (db_of held) { workers = worker ∷ [] }

reads_worker : get_worker with_worker "w1" ≡ some worker
unfolding get_worker Table.get
reads_worker = refl

abbrev persistent : List WorkerOp
persistent = beats "w1" 100 none none ∷ rotates "w1" "h1" "h2" 110 ∷ sweeps 1000 2000 ∷ []

disabled_stays_disabled_example :
    (w' : WorkerRow) × (get_worker (run_worker persistent with_worker) "w1" ≡ some w')
    × (w'.status ≡ disabled)
    × (w'.disabled_at ≡ some 9)
disabled_stays_disabled_example =
    disabled_stays_disabled persistent with_worker "w1" worker reads_worker refl

nothing_left_example :
    let (db', rows) = revoke_worker_assignments "w1" 500 waiting_commands in
    ((r : TaskRow) → In r db'.tasks → r.assigned_worker_id ≢ some "w1")
    × ((r : TaskRow)
        → In r rows
        → (r.assigned_worker_id ≡ none)
          × (r.worker_claim_token_hash ≡ none)
          × (r.worker_lease_expires_at ≡ none)
          × (was_active r ≡ false))
    × ((r : TaskRow) (s : TaskSession) → In r rows → In s db'.sessions → r.id ≢ s.task_id)
    × ((r : TaskRow) (c : TaskCommand) → In r rows → In c db'.commands → r.id ≢ c.task_id)
    × ((j : String) (r : TaskRow)
        → get_by_id waiting_commands j ≡ some r
        → r.assigned_worker_id ≢ some "w1"
        → get_by_id db' j ≡ some r)
nothing_left_example = nothing_left "w1" 500 waiting_commands
