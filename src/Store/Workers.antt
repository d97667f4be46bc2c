-- ===== src/Store/Workers.antt =====
-- packages/server/src/repositories/sqlite-workers.ts: workers, their task sessions, and the
-- commands that wait for them. JSON columns hold their decoded values.
pub mod Queue
pub mod Disabled
use infinite_kanban.Prelude.{
  ℕ, ◌≡◌, String, Bool, true, false, not, ◌&&◌, ◌||◌, Option, none, some, List, [], ◌∷◌, ◌++◌, ◌==◌,
  string_eq, nat_eq, ltb, leb, is_some, value_or, filter, any, map, if◌then◌else◌, zero, suc,
}
use infinite_kanban.Board.{WorkerStatus, AgentType, online, offline, disabled, worker_status_eq}
use infinite_kanban.Store.Table
use infinite_kanban.Store.Rows.{Db, WorkerRow, TaskSession, TaskCommand}
use infinite_kanban.Store.Tasks.{worker_key}

pub record WorkerRegistration : Type 0 where
  pub id : String
  pub name : String
  pub token_hash : String
  pub agent_types : List AgentType
  pub max_concurrent_tasks : ℕ
  pub hostname : Option String
  pub version : Option String
  pub registered_at : ℕ
  pub owner_id : Option String
  pub accepted_project_ids : Option (List String)
  pub accepted_labels : Option (List String)

unfoldable pub get_worker : Db → String → Option WorkerRow
get_worker db id = Table.get worker_key id db.workers

abbrev pub registered : WorkerRegistration → WorkerRow
registered input = record {
  id = input.id;
  name = input.name;
  token_hash = input.token_hash;
  status = online;
  hostname = input.hostname;
  version = input.version;
  agent_types = input.agent_types;
  max_concurrent_tasks = input.max_concurrent_tasks;
  registered_at = input.registered_at;
  last_heartbeat_at = input.registered_at;
  updated_at = input.registered_at;
  disabled_at = none;
  token_issued_at = some input.registered_at;
  owner_id = input.owner_id;
  accepted_project_ids = value_or input.accepted_project_ids [];
  accepted_labels = value_or input.accepted_labels [];
}

-- The id is the primary key and the token hash is UNIQUE: `none` where the insertion throws.
unfoldable pub register : WorkerRegistration → Db → Option Db
register input db =
    if any (λ w. w.id == input.id || w.token_hash == input.token_hash) db.workers
    then none
    else some (record db { workers = db.workers ++ registered input ∷ [] })

abbrev pub update_worker : String → (WorkerRow → Bool) → (WorkerRow → WorkerRow) → Db → Db × Bool
update_worker id c f db =
    let (rows, changed) = Table.update_where worker_key id c f db.workers in
    (record db { workers = rows }, changed)

abbrev pub beat : ℕ → Option (List String) → Option (List String) → WorkerRow → WorkerRow
beat at projects labels w = record w {
  status = online;
  last_heartbeat_at = at;
  updated_at = at;
  accepted_project_ids = value_or projects w.accepted_project_ids;
  accepted_labels = value_or labels w.accepted_labels;
}

abbrev pub is_enabled : WorkerRow → Bool
is_enabled w = not (w.status == disabled)

-- A disabled worker's heartbeat changes nothing; the row is returned all the same.
unfoldable pub heartbeat :
    String → ℕ → Option (List String) → Option (List String) → Db → Db × Option WorkerRow
unfolding get_worker
heartbeat id at projects labels db =
    let (db', changed) = update_worker id is_enabled (beat at projects labels) db in
    (db', get_worker db' id)

-- The server sets a worker online or disabled.
unfoldable pub set_status : String → WorkerStatus → ℕ → Db → Db × Option WorkerRow
unfolding get_worker
set_status id status at db =
    let (db', changed) =
      update_worker id (λ _. true)
        (λ w. record w {
          status = status;
          disabled_at = if status == disabled then some at else none;
          updated_at = at;
        })
        db in
    (db', get_worker db' id)

unfoldable pub delete_worker : String → Db → Db × Bool
unfolding get_worker
delete_worker id db =
    (record db { workers = Table.delete worker_key id db.workers }, is_some (get_worker db id))

unfoldable pub rotate_token : String → String → String → ℕ → Db → Db × Option WorkerRow
unfolding get_worker
rotate_token id current next at db =
    let (db', changed) =
      update_worker id (λ w. w.token_hash == current)
        (λ w. record w { token_hash = next; token_issued_at = some at; updated_at = at }) db in
    (db', if changed then get_worker db' id else none)

abbrev pub is_stale : ℕ → WorkerRow → Bool
is_stale cutoff w = w.status == online && ltb w.last_heartbeat_at cutoff

abbrev pub gone_offline : ℕ → WorkerRow → WorkerRow
gone_offline at w = record w { status = offline; updated_at = at }

unfoldable pub mark_offline : ℕ → ℕ → Db → Db × List WorkerRow
mark_offline cutoff at db = (
  record db { workers = map (λ w. if is_stale cutoff w then gone_offline at w else w) db.workers },
  map (gone_offline at) (filter (is_stale cutoff) db.workers),
)

-- `INSERT … ON CONFLICT(task_id, session_id) DO UPDATE`
abbrev pub is_session : String → String → TaskSession → Bool
is_session task session s = s.task_id == task && s.session_id == session

upsert : TaskSession → List TaskSession → List TaskSession
upsert new [] = new ∷ []
upsert new (s ∷ rest) =
    let later = upsert new rest in
    if is_session new.task_id new.session_id s
    then record s { base_url = new.base_url; updated_at = new.updated_at } ∷ rest
    else s ∷ later

unfoldable pub register_task_session : String → String → String → ℕ → Db → Db
unfolding upsert
register_task_session task session url at db =
    let new : TaskSession = record {
      task_id = task;
      session_id = session;
      base_url = url;
      updated_at = at;
    } in
    record db { sessions = upsert new db.sessions }

unfoldable pub clear_task_sessions : String → Db → Db
clear_task_sessions task db = record db {
  sessions = filter (λ s. not (s.task_id == task)) db.sessions;
}

unfoldable pub clear_task_commands : String → Db → Db
clear_task_commands task db = record db {
  commands = filter (λ c. not (c.task_id == task)) db.commands;
}

-- The table appends; the primary key is the command's fresh id.
unfoldable pub enqueue_task_command : TaskCommand → Db → Db
enqueue_task_command command db = record db { commands = db.commands ++ command ∷ [] }

-- `ORDER BY created_at ASC, id ASC LIMIT ?`: SQLite's order of texts is the parameter `before`.
module _ (before : String → String → Bool) where
  abbrev pub precedes : TaskCommand → TaskCommand → Bool
  precedes a b = ltb a.created_at b.created_at || (a.created_at == b.created_at && before a.id b.id)

  unfoldable pub insert_command : TaskCommand → List TaskCommand → List TaskCommand
  insert_command c [] = c ∷ []
  insert_command c (d ∷ rest) =
      let later = insert_command c rest in if precedes d c then d ∷ later else c ∷ d ∷ rest

  unfoldable pub in_order : List TaskCommand → List TaskCommand
  in_order [] = []
  in_order (c ∷ rest) = insert_command c (in_order rest)

  abbrev pub take_commands : ℕ → List TaskCommand → List TaskCommand
  take_commands zero cs = []
  take_commands (suc n) [] = []
  take_commands (suc n) (c ∷ cs) = c ∷ take_commands n cs

  abbrev pub bounded_limit : ℕ → ℕ
  bounded_limit limit = if leb 1 limit then limit else 20

  -- The transaction reads the commands of a task, oldest first, and deletes them by their ids.
  unfoldable pub claim_task_commands : String → ℕ → Db → Db × List TaskCommand
  unfolding insert_command in_order
  claim_task_commands task limit db =
      let taken =
        take_commands (bounded_limit limit)
          (in_order (filter (λ c. c.task_id == task) db.commands)) in
      (
        record db { commands = filter (λ c. not (any (λ t. t.id == c.id) taken)) db.commands },
        taken,
      )
