-- ===== src/Store/Events.antt =====
-- The table of events and the limit on pending work requests:
-- packages/server/src/repositories/sqlite.ts and packages/server/src/services/work-requests.ts.
pub mod Pending
use Prim.Native.String.{◌++◌ as append}
use infinite_kanban.Prelude.{
  ℕ, suc, String, Bool, true, false, not, ◌&&◌, ◌||◌, Option, none, some, List, [], ◌∷◌, ◌++◌, ◌==◌,
  string_eq, is_some, is_none, filter, any, length, leb, contains, if◌then◌else◌, value_or,
}
use infinite_kanban.Store.Table
use infinite_kanban.Store.Rows.{Db, TaskRow, AgentEvent, EventMetadata, WorkRequest}
use infinite_kanban.Store.Tasks.{is_equal, get_by_id, get_by_external_identity}

abbrev pub event_key : AgentEvent → String
event_key e = e.id

-- The id is the primary key and the task a foreign one: `none` where the insertion throws.
unfoldable pub insert_event : AgentEvent → Db → Option Db
unfolding get_by_id
insert_event e db =
    if is_some (Table.get event_key e.id db.events) || is_none (get_by_id db e.task_id)
    then none
    else some (record db { events = db.events ++ e ∷ [] })

-- The selection of `getEventsByTaskId`, whose order by time is not modelled.
unfoldable pub get_events_by_task_id : String → Db → List AgentEvent
get_events_by_task_id task db = filter (λ e. e.task_id == task) db.events

unfoldable pub delete_events_by_task_id : String → Db → Db
delete_events_by_task_id task db = record db {
  events = filter (λ e. not (e.task_id == task)) db.events;
}

abbrev pub work_request_of : AgentEvent → Option WorkRequest
work_request_of e = elim e.metadata [ none ↦ none | some m ↦ m.work_request ]

abbrev pub dismissed_of : AgentEvent → Option String
dismissed_of e = elim e.metadata [ none ↦ none | some m ↦ m.dismissed_work_request_event_id ]

abbrev pub work_request_external_source : String
work_request_external_source = "work-request"

unfoldable pub work_request_external_key : String → String → String
work_request_external_key task event = append task (append ":" event)

-- The statement that counts within the transaction.
abbrev pub is_dismissed_in : List AgentEvent → AgentEvent → Bool
is_dismissed_in events request =
    any (λ d. d.task_id == request.task_id && is_equal (dismissed_of d) request.id) events

abbrev pub is_approval_of : String → AgentEvent → TaskRow → Bool
is_approval_of project request t =
    t.project_id == project
    && (is_equal t.external_source work_request_external_source
        && is_equal t.external_key (work_request_external_key request.task_id request.id))

abbrev pub is_pending_in : String → String → Db → AgentEvent → Bool
is_pending_in task project db request =
    request.task_id == task
    && (request.type == "request_work"
        && (is_some (work_request_of request)
            && (not (is_dismissed_in db.events request)
                && not (any (is_approval_of project request) db.tasks))))

unfoldable pub pending_in_store : String → String → Db → ℕ
pending_in_store task project db = length (filter (is_pending_in task project db) db.events)

-- The answer, or `none` where the insertion throws.
unfoldable pub insert_work_request_if_below_pending_limit :
    AgentEvent → String → ℕ → Db → Option (Db × Bool)
unfolding pending_in_store insert_event
insert_work_request_if_below_pending_limit candidate project limit db =
    if leb limit (pending_in_store candidate.task_id project db)
    then some (db, false)
    else elim (insert_event candidate db) [ none ↦ none | some db' ↦ some (db', true) ]

-- services/work-requests.ts
unfoldable pub is_work_request_event : AgentEvent → Bool
is_work_request_event e = e.type == "request_work" && is_some (work_request_of e)

-- An id that is absent or empty is left out.
abbrev pub given_id : Option String → List String
given_id none = []
given_id (some s) = if s == "" then [] else s ∷ []

unfoldable pub dismissed_ids : List AgentEvent → List String
dismissed_ids [] = []
dismissed_ids (e ∷ rest) = given_id (dismissed_of e) ++ dismissed_ids rest

unfoldable pub count_pending : List String → String → String → Db → List AgentEvent → ℕ
unfolding is_work_request_event work_request_external_key get_by_external_identity
count_pending dismissed task project db [] = 0
count_pending dismissed task project db (e ∷ rest) =
    let later = count_pending dismissed task project db rest in
    if not (is_work_request_event e) || contains dismissed e.id
    then later
    else if is_some (
        get_by_external_identity db project work_request_external_source
          (work_request_external_key task e.id))
    then later
    else suc later

unfoldable pub count_pending_work_requests : String → String → Db → ℕ
unfolding get_events_by_task_id dismissed_ids count_pending
count_pending_work_requests task project db =
    let events = get_events_by_task_id task db in
    count_pending (dismissed_ids events) task project db events
