-- ===== src/Broadcast.antt =====
-- packages/server/src/services/agent-manager.ts: the events of the agents' sessions, as they are
-- logged, given to the repository and broadcast. The manager has a repository, and an event names
-- the task that it is emitted for. A text is a list of code points. A timer that fires is a step of
-- its own; one that is cleared finds no buffer, or that of a later event, and flushes it early.
pub mod Transcript
pub mod Relayed
use infinite_kanban.Prelude.{
  ℕ, zero, suc, ◌-◌, String, Bool, true, false, not, ◌&&◌, Option, none, some, List, [], ◌∷◌, ◌++◌,
  ◌==◌, string_eq, ltb, all, contains, filter, find, length, value_or, if◌then◌else◌,
}
use infinite_kanban.Contract.Json.{Json}
use infinite_kanban.Contract.Text.{is_space}
use infinite_kanban.A2a.Events.{classify_agent_event_importance}

pub record AgentEvent : Type 0 where
  pub id : String
  pub task_id : String
  pub type : String
  pub content : List ℕ
  pub timestamp : ℕ
  pub importance : Option String
  pub metadata : Json

pub record TaskLog : Type 0 where
  pub task_id : String
  pub events : List AgentEvent

-- The logs are in the order of their last use; a buffer is of a task. `inserted` are the events
-- that the repository was given, `sent` those that were broadcast.
pub record Feed : Type 0 where
  pub deleted : List String
  pub logs : List TaskLog
  pub buffers : String → Option AgentEvent
  pub inserted : List AgentEvent
  pub sent : List AgentEvent

abbrev pub new_feed : Feed
new_feed = record { deleted = []; logs = []; buffers = λ _. none; inserted = []; sent = [] }

abbrev pub max_events_per_task : ℕ
max_events_per_task = 2000

abbrev pub max_event_log_tasks : ℕ
max_event_log_tasks = 200

abbrev pub without_first : ℕ → List AgentEvent → List AgentEvent
without_first zero es = es
without_first (suc n) [] = []
without_first (suc n) (e ∷ es) = without_first n es

-- `log.slice(-MAX_EVENTS_PER_TASK)`, of a log that is longer.
unfoldable pub capped : List AgentEvent → List AgentEvent
capped es = without_first (length es - max_events_per_task) es

abbrev pub events_of : Option TaskLog → List AgentEvent
events_of none = []
events_of (some l) = l.events

abbrev pub without_log : String → List TaskLog → List TaskLog
without_log task logs = filter (λ l. not (l.task_id == task)) logs

abbrev pub drop_oldest : List TaskLog → List TaskLog
drop_oldest [] = []
drop_oldest (l ∷ ls) = if ltb max_event_log_tasks (length (l ∷ ls)) then ls else l ∷ ls

unfoldable pub add_event : String → AgentEvent → List TaskLog → List TaskLog
unfolding capped
add_event task e logs = drop_oldest (
    without_log task logs
    ++ record {
      task_id = task;
      events = capped (events_of (find (λ l. l.task_id == task) logs) ++ e ∷ []);
    }
      ∷ [])

abbrev pub with_buffer :
    String → Option AgentEvent → (String → Option AgentEvent) → String → Option AgentEvent
with_buffer task b buffers key = if key == task then b else buffers key

abbrev pub broadcast : AgentEvent → Feed → Feed
broadcast e s = record s { sent = s.sent ++ e ∷ [] }

abbrev pub flushed : String → Option AgentEvent → Feed → Feed
flushed task none s = s
flushed task (some e) s = record s {
  sent = s.sent ++ e ∷ [];
  buffers = with_buffer task none s.buffers;
}

unfoldable pub flush_buffer : String → Feed → Feed
flush_buffer task s = flushed task (s.buffers task) s

abbrev pub hold : AgentEvent → Feed → Feed
hold e s = record s { buffers = with_buffer e.task_id (some e) s.buffers }

-- A streamed event, after the one that waits.
abbrev pub buffer_after : AgentEvent → Option AgentEvent → Feed → Feed
buffer_after e none s = hold e s
buffer_after e (some x) s =
    if x.type == e.type
    then record s {
      buffers =
          with_buffer e.task_id (some (record x { content = x.content ++ e.content })) s.buffers;
    }
    else hold e (flushed e.task_id (some x) s)

abbrev pub streamable : List String
streamable = "output" ∷ "thinking" ∷ []

unfoldable pub stream : String → AgentEvent → Feed → Feed
unfolding flush_buffer
stream task e s =
    if contains streamable e.type
    then buffer_after e (s.buffers e.task_id) s
    else broadcast e (flush_buffer task s)

abbrev pub stamped : AgentEvent → AgentEvent
stamped e = record e {
  importance = some (value_or e.importance (classify_agent_event_importance e.type));
}

abbrev pub says_nothing : AgentEvent → Bool
says_nothing e = all is_space e.content && (not (e.type == "complete") && not (e.type == "error"))

-- The log in memory and the write to the repository.
unfoldable pub noted : String → AgentEvent → Feed → Feed
unfolding add_event
noted task e s = record s { logs = add_event task e s.logs; inserted = s.inserted ++ e ∷ [] }

unfoldable pub emit_event : String → AgentEvent → Feed → Feed
unfolding noted stream is_space classify_agent_event_importance
emit_event task e s =
    if contains s.deleted task
    then s
    else if says_nothing e
    then s
    else stream task (stamped e) (noted task (stamped e) s)

abbrev pub reset_events : String → Feed → Feed
reset_events task s = record s { logs = without_log task s.logs }

unfoldable pub clear_events : String → Feed → Feed
clear_events task s =
    reset_events task
      (record s { deleted = if contains s.deleted task then s.deleted else s.deleted ++ task ∷ [] })

abbrev pub expire_guard : String → Feed → Feed
expire_guard task s = record s { deleted = filter (λ t. not (t == task)) s.deleted }

pub data FeedStep : Type 0 where
  emitted : AgentEvent → FeedStep
  timer_fired : String → FeedStep
  events_reset : String → FeedStep
  events_cleared : String → FeedStep
  guard_expired : String → FeedStep

unfoldable pub feed_step : FeedStep → Feed → Feed
unfolding emit_event flush_buffer clear_events
feed_step (emitted e) s = emit_event e.task_id e s
feed_step (timer_fired task) s = flush_buffer task s
feed_step (events_reset task) s = reset_events task s
feed_step (events_cleared task) s = clear_events task s
feed_step (guard_expired task) s = expire_guard task s

unfoldable pub run_feed : List FeedStep → Feed → Feed
unfolding feed_step
run_feed [] s = s
run_feed (x ∷ xs) s = run_feed xs (feed_step x s)
