-- ===== src/A2a/Events/RoundTrip.antt =====
-- An event survives the way to another board (packages/a2a/src/events.ts).
use infinite_kanban.Prelude.{
  ℕ, ◌≡◌, refl, sym, ap, ◌∙◌, String, Bool, true, false, not, Option, none, some, List, [], ◌∷◌,
  ◌==◌, ==_iff, string_eq, filter, map, Bool-cases, inl, inr, if◌then◌else◌,
}
use infinite_kanban.Contract.Json.{Fields, field, no_fields}
use infinite_kanban.A2a.Assignments.{Part, text_part, join_lines}
use infinite_kanban.A2a.Events.{
  BoardEvent, EventDetails, EventMappingContext, event_importance, envelope, data_unless_empty,
  structured_details, usage_details, milestone_parts, parts_for, usage_parts, result_text,
  agent_event_to_task_update, text_of_part, text_of_parts, collect_text, task_update_to_agent_event,
}

-- Parts without text.
abbrev texts_of : List Part → List String
texts_of parts = filter (λ s. not (s == "")) (map text_of_part parts)

silent_data : (fs : Fields) → texts_of (data_unless_empty fs) ≡ []
silent_data no_fields = refl
silent_data (field key v rest) = refl

silent_milestone : (b : Bool) (m : Option EventDetails) → texts_of (milestone_parts b m) ≡ []
silent_milestone true (some m) = silent_data (structured_details m)
silent_milestone true none = refl
silent_milestone false m = refl

silent_usage : (m : Option EventDetails) → texts_of (usage_parts m) ≡ []
silent_usage none = refl
silent_usage (some m) = silent_data (usage_details m)

alone : (s : String) → join_lines (if not (s == "") then s ∷ [] else []) ≡ s
unfolding join_lines
alone s = elim (Bool-cases (s == "")) [
  | inl empty ↦ rw empty (sym ((==_iff s "").0 empty))
  | inr filled ↦ rw filled refl
]

text_then_silent :
    (s : String) (parts : List Part) → texts_of parts ≡ [] → text_of_parts (text_part s ∷ parts) ≡ s
unfolding text_of_parts
text_then_silent s parts h = rw h (alone s)

only_silent : (parts : List Part) → texts_of parts ≡ [] → text_of_parts parts ≡ ""
unfolding text_of_parts join_lines
only_silent parts h = ap join_lines h

text_of_event : (event : BoardEvent) → text_of_parts (parts_for event) ≡ event.content
unfolding parts_for
text_of_event event =
    let silent = silent_milestone (event_importance event == "milestone") event.metadata in
    elim (Bool-cases (event.content == "")) [
      | inl empty ↦ rw empty (only_silent _ silent) ∙ sym ((==_iff event.content "").0 empty)
      | inr filled ↦ rw filled (text_then_silent event.content _ silent)
    ]

-- What the receiver shows as the content.
abbrev pub received_content : BoardEvent → EventMappingContext → String
received_content event context =
    if event.type == "complete" then result_text event context else event.content

-- A board that receives another board's update gets the event back: its id, task, type, time and
-- metadata, its content, which is the summary for a completion with a summary, and its importance,
-- which is filled in from the type where the event has none.
pub event_roundtrip :
    (iso_timestamp decimal : ℕ → String) (now : ℕ) (event : BoardEvent)
    (context : EventMappingContext)
    → task_update_to_agent_event decimal now
        (agent_event_to_task_update iso_timestamp event context)
      ≡ some (record event {
        content = received_content event context;
        importance = some (event_importance event);
      })
unfolding task_update_to_agent_event agent_event_to_task_update collect_text envelope
event_roundtrip iso_timestamp decimal now event context =
    elim (Bool-cases (event.type == "complete")) [
      | inl complete ↦ rw complete (
          ap (λ s. some (record event { content = s; importance = some (event_importance event) }))
            (text_then_silent (result_text event context) (usage_parts event.metadata)
              (silent_usage event.metadata)))
      | inr other ↦ rw other (
          ap (λ s. some (record event { content = s; importance = some (event_importance event) }))
            (text_of_event event))
    ]
