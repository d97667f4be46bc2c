-- ===== src/A2a/Events.antt =====
-- packages/a2a/src/events.ts: the events of the board as updates of the protocol, and back. The
-- members of an event's metadata that the module does not read are one value. A number is a JSON
-- value, a moment a natural number; the text of a moment is the parameter `iso_timestamp`.
pub mod RoundTrip
use infinite_kanban.Prelude.{
  ℕ, String, Bool, true, false, not, ◌&&◌, ◌||◌, Option, none, some, List, [], ◌∷◌, ◌++◌, ◌==◌,
  string_eq, filter, contains, value_or, map, if◌then◌else◌,
}
use Prim.Native.String.{◌++◌ as ◌<>◌}
use infinite_kanban.Contract.Json.{
  Json, Fields, natural, other_number, text, object, field, no_fields,
}
use infinite_kanban.A2a.State.{TaskState, working, failed_state, rejected}
use infinite_kanban.A2a.Assignments.{
  Part, text_part, data_part, other_part, board_extension_uri, join_lines,
}

pub record EventDetails : Type 0 where
  pub file : Option String
  pub language : Option String
  pub command : Option String
  pub diff : Option String
  pub agent_type : Option String
  pub duration : Option Json
  pub input_tokens : Option Json
  pub output_tokens : Option Json
  pub cost_usd : Option Json
  pub error : Option String
  pub others : Json

pub record BoardEvent : Type 0 where
  pub id : String
  pub task_id : String
  pub type : String
  pub content : String
  pub timestamp : ℕ
  pub importance : Option String
  pub metadata : Option EventDetails

-- `classifyAgentEventImportance` of shared/types.ts.
abbrev pub milestone_types : List String
milestone_types =
    "file_write" ∷ "file_edit" ∷ "command" ∷ "test_result" ∷ "request_work" ∷ "error" ∷ "complete"
    ∷ []

unfoldable pub classify_agent_event_importance : String → String
classify_agent_event_importance type =
    if contains milestone_types type then "milestone" else "detail"

unfoldable pub event_importance : BoardEvent → String
unfolding classify_agent_event_importance
event_importance event = value_or event.importance (classify_agent_event_importance event.type)

-- The value under the key of the board's extension, as it comes from a peer. The two members that
-- are cast without a test have their types.
pub record Envelope : Type 0 where
  pub id : Option Json
  pub task_id : Option Json
  pub type : Option Json
  pub timestamp : Option Json
  pub importance : Option String
  pub metadata : Option EventDetails

pub record StatusMessage : Type 0 where
  pub message_id : String
  pub parts : List Part
  pub extensions : List String

pub record TaskArtifact : Type 0 where
  pub artifact_id : String
  pub parts : List Part
  pub extensions : List String

pub record TaskStatus : Type 0 where
  pub state : TaskState
  pub message : Option StatusMessage
  pub timestamp : String

pub data BoardTaskUpdate : Type 0 where
  status_update :
      (task_id context_id : String) → Option Envelope → Option TaskStatus → BoardTaskUpdate
  artifact_update :
      (task_id context_id : String) → Option Envelope → Option TaskArtifact → BoardTaskUpdate

pub record EventMappingContext : Type 0 where
  pub context_id : String
  pub summary : Option String

unfoldable pub envelope : BoardEvent → Envelope
unfolding event_importance
envelope event = record {
  id = some (text event.id);
  task_id = some (text event.task_id);
  type = some (text event.type);
  timestamp = some (natural event.timestamp);
  importance = some (event_importance event);
  metadata = event.metadata;
}

-- A member that stands only where its text is not empty, or its value a number.
abbrev pub text_member : String → Option String → Fields → Fields
text_member key none rest = rest
text_member key (some s) rest = if s == "" then rest else field key (text s) rest

abbrev pub number_member : String → Option Json → Fields → Fields
number_member key (some (natural n)) rest = field key (natural n) rest
number_member key (some (other_number n)) rest = field key (other_number n) rest
number_member key _ rest = rest

abbrev pub data_unless_empty : Fields → List Part
data_unless_empty no_fields = []
data_unless_empty (field key v rest) = data_part (object (field key v rest)) ∷ []

unfoldable pub structured_details : EventDetails → Fields
structured_details m = text_member "file" m.file (
    text_member "command" m.command (
      text_member "diff" m.diff (
        text_member "language" m.language
          (number_member "duration" m.duration (text_member "error" m.error no_fields)))))

unfoldable pub usage_details : EventDetails → Fields
usage_details m = text_member "agentType" m.agent_type (
    number_member "duration" m.duration (
      number_member "inputTokens" m.input_tokens (
        number_member "outputTokens" m.output_tokens
          (number_member "costUsd" m.cost_usd no_fields))))

abbrev pub milestone_parts : Bool → Option EventDetails → List Part
milestone_parts true (some m) = data_unless_empty (structured_details m)
milestone_parts _ _ = []

unfoldable pub parts_for : BoardEvent → List Part
unfolding structured_details event_importance
parts_for event =
    (if event.content == "" then [] else text_part event.content ∷ [])
    ++ milestone_parts (event_importance event == "milestone") event.metadata

abbrev pub usage_parts : Option EventDetails → List Part
usage_parts none = []
usage_parts (some m) = data_unless_empty (usage_details m)

-- The text of the artifact at a run's end.
abbrev pub result_text : BoardEvent → EventMappingContext → String
result_text event context = value_or context.summary event.content

unfoldable pub agent_event_to_task_update :
    (iso_timestamp : ℕ → String) → BoardEvent → EventMappingContext → BoardTaskUpdate
unfolding envelope parts_for usage_details
agent_event_to_task_update iso_timestamp event context =
    if event.type == "complete"
    then artifact_update event.task_id context.context_id (some (envelope event)) (
        some (record {
          artifact_id = event.id;
          parts = text_part (result_text event context) ∷ usage_parts event.metadata;
          extensions = board_extension_uri ∷ [];
        }))
    else status_update event.task_id context.context_id (some (envelope event)) (
        some (record {
          state = if event.type == "error" then failed_state else working;
          message = some (record {
            message_id = event.id;
            parts = parts_for event;
            extensions = board_extension_uri ∷ [];
          });
          timestamp = iso_timestamp event.timestamp;
        }))

abbrev pub text_of_part : Part → String
text_of_part (text_part s) = s
text_of_part _ = ""

unfoldable pub text_of_parts : List Part → String
unfolding join_lines
text_of_parts parts = join_lines (filter (λ s. not (s == "")) (map text_of_part parts))

abbrev pub status_parts : Option TaskStatus → List Part
status_parts none = []
status_parts (some s) = elim s.message [ none ↦ [] | some m ↦ m.parts ]

abbrev pub artifact_parts : Option TaskArtifact → List Part
artifact_parts none = []
artifact_parts (some a) = a.parts

unfoldable pub collect_text : BoardTaskUpdate → String
unfolding text_of_parts
collect_text (status_update task_id context_id e status) = text_of_parts (status_parts status)
collect_text (artifact_update task_id context_id e artifact) =
    text_of_parts (artifact_parts artifact)

abbrev pub task_of : BoardTaskUpdate → String
task_of (status_update task_id context_id e status) = task_id
task_of (artifact_update task_id context_id e artifact) = task_id

abbrev pub envelope_of : BoardTaskUpdate → Option Envelope
envelope_of (status_update task_id context_id e status) = e
envelope_of (artifact_update task_id context_id e artifact) = e

abbrev pub text_or : Option Json → String → String
text_or (some (text s)) d = s
text_or _ d = d

abbrev pub moment_or : Option Json → ℕ → ℕ
moment_or (some (natural n)) d = n
moment_or _ d = d

-- An event from an envelope whose id and type are texts.
abbrev pub event_of : ℕ → BoardTaskUpdate → Envelope → Option Json → Option Json → Option BoardEvent
event_of now update e (some (text id)) (some (text type)) = some (record {
  id = id;
  task_id = text_or e.task_id (task_of update);
  type = type;
  content = collect_text update;
  timestamp = moment_or e.timestamp now;
  importance = e.importance;
  metadata = e.metadata;
})
event_of now update e _ _ = none

abbrev pub enveloped : ℕ → BoardTaskUpdate → Option Envelope → Option BoardEvent
enveloped now update none = none
enveloped now update (some e) = event_of now update e e.id e.type

abbrev pub plain_event : (id task_id type content : String) → ℕ → String → BoardEvent
plain_event id task_id type content now importance = record {
  id = id;
  task_id = task_id;
  type = type;
  content = content;
  timestamp = now;
  importance = some importance;
  metadata = none;
}

abbrev pub is_failure : TaskState → Bool
is_failure failed_state = true
is_failure rejected = true
is_failure _ = false

abbrev pub artifact_id_or : Option TaskArtifact → String → String
artifact_id_or none d = d
artifact_id_or (some a) d = a.artifact_id

abbrev pub message_id_or : Option StatusMessage → String → String
message_id_or none d = d
message_id_or (some m) d = m.message_id

-- The best effort for a peer without the extension.
abbrev pub foreign_event : (ℕ → String) → ℕ → BoardTaskUpdate → Option BoardEvent
foreign_event decimal now (artifact_update task_id context_id e artifact) = some (
    plain_event (artifact_id_or artifact (task_id <> "-complete")) task_id "complete"
      (collect_text (artifact_update task_id context_id e artifact)) now "milestone")
foreign_event decimal now (status_update task_id context_id e none) = none
foreign_event decimal now (status_update task_id context_id e (some s)) = some (
    plain_event (message_id_or s.message (task_id <> ("-" <> decimal now))) task_id
      (if is_failure s.state then "error" else "output")
      (collect_text (status_update task_id context_id e (some s))) now
      (if is_failure s.state then "milestone" else "detail"))

unfoldable pub task_update_to_agent_event :
    (decimal : ℕ → String) → (now : ℕ) → BoardTaskUpdate → Option BoardEvent
unfolding collect_text
task_update_to_agent_event decimal now update = elim (enveloped now update (envelope_of update)) [
  | none ↦ foreign_event decimal now update
  | some event ↦ some event
]
