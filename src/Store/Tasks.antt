-- ===== src/Store/Tasks.antt =====
-- packages/server/src/repositories/sqlite.ts: the statements on `tasks` that take no claim token.
-- A returned row is what `getById` reads after the statement.
pub mod Runs
pub mod Identity
pub mod Places
use mathlib.Core.Option.{some-injective}
use infinite_kanban.Prelude.{
  ◌≡◌, ap, ==_iff, not, ◌+◌, length, ℕ, ◌-◌, String, Bool, true, false, ◌&&◌, ◌||◌, Option, none,
  some, List, [], ◌∷◌, ◌++◌, ◌==◌, string_eq, ltb, leb, is_some, is_none, value_or, filter, find,
  any, contains, if◌then◌else◌, nat_eq,
}
use Prim.Native.Nat.{max}
use infinite_kanban.Board.{
  AgentStatus, idle, planning, ColumnId, AgentType, status_eq, worker_status_eq,
  claimable_agent_statuses,
}
use infinite_kanban.Store.Table
use infinite_kanban.Store.Rows.{
  Db, TaskRow, WorkerRow, TaskDetails, ClarificationRequest, ClarificationAnswer,
}

-- SQL's comparisons with a column that may be NULL: they select no row where it is.
abbrev pub is_equal : Option String → String → Bool
is_equal none b = false
is_equal (some a) b = a == b

abbrev pub is_less : Option ℕ → ℕ → Bool
is_less none b = false
is_less (some a) b = ltb a b

abbrev pub is_at_least : Option ℕ → ℕ → Bool
is_at_least none b = false
is_at_least (some a) b = leb b a

pub is_equal-eq : (o : Option String) (b : String) → is_equal o b ≡ true → o ≡ some b
is_equal-eq none b h = cc
is_equal-eq (some a) b h = ap {B = Option String} some ((==_iff a b).0 h)

pub is_equal_refl : (o : Option String) (b : String) → o ≡ some b → is_equal o b ≡ true
is_equal_refl none b h = cc
is_equal_refl (some a) b h = (==_iff a b).1 (some-injective a b h)

abbrev pub task_key : TaskRow → String
task_key r = r.id

abbrev pub worker_key : WorkerRow → String
worker_key r = r.id

-- Equality of two columns, neither of which may be NULL.
abbrev pub same_column : Option String → Option String → Bool
same_column none b = false
same_column (some a) b = is_equal b a

unfoldable pub get_by_id : Db → String → Option TaskRow
get_by_id db id = Table.get task_key id db.tasks

-- `UPDATE tasks SET … WHERE id = ? AND …`, and the row if a row changed.
unfoldable pub update_task :
    String → (TaskRow → Bool) → (TaskRow → TaskRow) → Db → Db × Option TaskRow
unfolding get_by_id
update_task id c f db =
    let (rows, changed) = Table.update_where task_key id c f db.tasks in
    let db' = record db { tasks = rows } in (db', if changed then get_by_id db' id else none)

-- The same, where the row is read whether or not it changed.
unfoldable pub set_task : String → (TaskRow → TaskRow) → Db → Db × Option TaskRow
unfolding get_by_id
set_task id f db =
    let db' = record db { tasks = (Table.update_where task_key id (λ _. true) f db.tasks).0 } in
    (db', get_by_id db' id)

unfoldable pub get_by_external_identity : Db → String → String → String → Option TaskRow
get_by_external_identity db project source key =
    find
      (λ r.
        r.project_id == project
        && (is_equal r.external_source source && is_equal r.external_key key))
      db.tasks

-- `Partial<Task>`: a field that is given replaces the column, `some none` writes NULL. These are
-- the columns that the statement of `update` writes.
pub record TaskPatch : Type 0 where
  pub details : Option TaskDetails
  pub column_id : Option ColumnId
  pub agent_status : Option AgentStatus
  pub agent_type : Option AgentType
  pub started_at : Option (Option ℕ)
  pub completed_at : Option (Option ℕ)
  pub archived : Option Bool
  pub summary : Option (Option String)
  pub run_requested_at : Option (Option ℕ)
  pub run_claimed_at : Option (Option ℕ)
  pub clarification_request : Option (Option ClarificationRequest)
  pub clarification_answer : Option (Option ClarificationAnswer)
  pub assigned_worker_id : Option (Option String)
  pub labels : Option (List String)

abbrev pub no_patch : TaskPatch
no_patch = record {
  details = none;
  column_id = none;
  agent_status = none;
  agent_type = none;
  started_at = none;
  completed_at = none;
  archived = none;
  summary = none;
  run_requested_at = none;
  run_claimed_at = none;
  clarification_request = none;
  clarification_answer = none;
  assigned_worker_id = none;
  labels = none;
}

unfoldable pub apply_patch : TaskPatch → TaskRow → TaskRow
apply_patch p r = record r {
  details = value_or p.details r.details;
  column_id = value_or p.column_id r.column_id;
  agent_status = value_or p.agent_status r.agent_status;
  agent_type = value_or p.agent_type r.agent_type;
  started_at = value_or p.started_at r.started_at;
  completed_at = value_or p.completed_at r.completed_at;
  archived = value_or p.archived r.archived;
  summary = value_or p.summary r.summary;
  run_requested_at = value_or p.run_requested_at r.run_requested_at;
  run_claimed_at = value_or p.run_claimed_at r.run_claimed_at;
  clarification_request = value_or p.clarification_request r.clarification_request;
  clarification_answer = value_or p.clarification_answer r.clarification_answer;
  assigned_worker_id = value_or p.assigned_worker_id r.assigned_worker_id;
  labels = value_or p.labels r.labels;
}

-- Returns the merged task, or nothing if there is no such row.
unfoldable pub update : String → TaskPatch → Db → Db × Option TaskRow
update id p db = set_task id (apply_patch p) db

unfoldable pub request_run : String → ℕ → Db → Db × Option TaskRow
request_run id at db =
    set_task id (λ r. record r { run_requested_at = some at; run_claimed_at = none }) db

-- A claim of a run is stale after half a minute. `at` is a clock's reading in milliseconds, far
-- above the 30 seconds that are taken off.
abbrev pub claim_stale_ms : ℕ
claim_stale_ms = 30000

abbrev pub run_is_free : ℕ → TaskRow → Bool
run_is_free stale_before r =
    is_some r.run_requested_at
    && (is_none r.run_claimed_at || is_less r.run_claimed_at stale_before)

abbrev pub is_startable : ℕ → TaskRow → Bool
is_startable at r =
    run_is_free (at - claim_stale_ms) r && contains claimable_agent_statuses r.agent_status

unfoldable pub claim_run : String → ℕ → Db → Db × Option TaskRow
claim_run id at db =
    update_task id (is_startable at) (λ r. record r { run_claimed_at = some at }) db

unfoldable pub clear_run : String → Db → Db × Option TaskRow
clear_run id db = set_task id (λ r. record r { run_requested_at = none; run_claimed_at = none }) db

-- The selection of `getPendingRuns`, whose `ORDER BY run_requested_at` is not modelled.
unfoldable pub get_pending_runs : ℕ → Db → List TaskRow
get_pending_runs stale_before db =
    filter
      (λ r.
        is_none r.assigned_worker_id
        && (run_is_free stale_before r && contains (idle ∷ planning ∷ []) r.agent_status))
      db.tasks

-- A row is inserted unless its key, or its external identity, is taken (`UNIQUE`).
abbrev pub has_identity : TaskRow → TaskRow → Bool
has_identity candidate r =
    candidate.project_id == r.project_id
    && (same_column candidate.external_source r.external_source
        && same_column candidate.external_key r.external_key)

unfoldable pub violates_unique : TaskRow → Db → Bool
violates_unique candidate db =
    is_some (Table.get task_key candidate.id db.tasks) || any (has_identity candidate) db.tasks

-- What `create` stores: a new row has no claim, and no attempt.
abbrev pub fresh : TaskRow → TaskRow
fresh task = record task {
  worker_claim_token_hash = none;
  worker_claimed_at = none;
  worker_lease_expires_at = none;
  worker_attempt = 0;
}

unfoldable pub create : TaskRow → Db → Option Db
create task db =
    if violates_unique task db
    then none
    else some (record db { tasks = db.tasks ++ fresh task ∷ [] })

-- `a && b` on optional texts: both are there, and not empty.
abbrev pub is_given : Option String → Bool
is_given none = false
is_given (some s) = not (s == "")

pub data Created : Type 0 where
  inserted : TaskRow → Created
  existing : TaskRow → Created
  group_full : Created
  refused : Created

recall : Option TaskRow → Created
recall none = refused
recall (some r) = existing r

-- `create` throws on a taken key; that is answered by the row of this identity, and is thrown on
-- (`refused`) if there is none.
unfoldable pub create_idempotent : TaskRow → Db → Db × Created
unfolding recall get_by_external_identity
create_idempotent task db = elim (create task db) [
  | some db' ↦ (db', inserted task)
  | none ↦ (
    db,
    if is_given task.external_source && is_given task.external_key
        then recall (
            get_by_external_identity db task.project_id (value_or task.external_source "")
              (value_or task.external_key ""))
        else refused,
  )
]

-- `COUNT(*)` and `COALESCE(MAX(group_order), -1) + 1` over the tasks of a group.
abbrev pub group_children : Db → String → List TaskRow
group_children db group = filter (λ r. is_equal r.group_id group) db.tasks

abbrev pub next_order : List TaskRow → ℕ
next_order [] = 0
next_order (r ∷ rs) = max (next_order rs) (elim r.group_order [ none ↦ 0 | some n ↦ n + 1 ])

abbrev pub known_row : TaskRow → Db → Option TaskRow
known_row task db = elim task.external_source [
  | none ↦ none
  | some source ↦ elim task.external_key [
    | none ↦ none
    | some key ↦ get_by_external_identity db task.project_id source key
  ]
]

abbrev pub placed : TaskRow → String → Db → TaskRow
placed task group db = record task {
  group_id = some group;
  group_order = some (next_order (group_children db group));
}

-- The transaction: an existing identity wins, a full group refuses, and otherwise the task takes
-- the next place of its group. A key that is taken makes the insertion throw.
unfoldable pub create_idempotent_in_group : TaskRow → String → ℕ → Db → Db × Created
create_idempotent_in_group task group limit db = elim (known_row task db) [
  | some r ↦ (db, existing r)
  | none ↦
      if leb limit (length (group_children db group))
      then (db, group_full)
      else elim (create (placed task group db) db) [
        | none ↦ (db, refused)
        | some db' ↦ (db', inserted (placed task group db))
      ]
]
