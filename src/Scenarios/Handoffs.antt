-- ===== src/Scenarios/Handoffs.antt =====
-- A handoff to a worker, and an event on its way to another board (packages/a2a).
use infinite_kanban.Prelude.{◌≡◌, refl, String, true, none, some, [], ◌∷◌, contains, string_eq}
use infinite_kanban.Contract.Json.{
  Fields, text, natural, array, object, no_items, field, no_fields, lookup,
}
use infinite_kanban.A2a.Assignments.{
  worker_task_assignment_keys, assignment_to_message, assignment_from_message, Message, data_part,
  decoded, find_assignment_payload, first_record,
}
use infinite_kanban.A2a.Assignments.Handoff.{
  IsComplete, IsAllowed, handoff_roundtrip, decoded-IsAllowed,
}
use infinite_kanban.A2a.Events.{
  BoardEvent, EventMappingContext, event_importance, agent_event_to_task_update,
  task_update_to_agent_event,
}
use infinite_kanban.A2a.Events.RoundTrip.{event_roundtrip, received_content}

-- A path of the board's host stands among the fields.
abbrev handed : Fields
handed = field "id" (text "t1") (
    field "title" (text "Fix") (
      field "repoPath" (text "/srv/x")
        (field "description" (text "it") (field "labels" (array no_items) no_fields))))

handed-IsComplete : IsComplete handed
unfolding lookup
handed-IsComplete = (refl, refl, refl, refl)

handoff_roundtrip_example :
    (f : Fields) × (assignment_from_message (assignment_to_message handed "m1" none (some "t1"))
      ≡ decoded f)
    × ((key : String)
        → contains worker_task_assignment_keys key ≡ true
        → lookup key f ≡ lookup key handed)
    × IsAllowed f
handoff_roundtrip_example = handoff_roundtrip handed "m1" none (some "t1") handed-IsComplete

abbrev clean : Fields
clean = field "id" (text "t1") (
    field "title" (text "Fix")
      (field "description" (text "") (field "labels" (array no_items) no_fields)))

abbrev foreign_message : Message
foreign_message = record {
  message_id = "m2";
  context_id = "";
  task_id = "";
  parts = data_part (object clean) ∷ [];
  metadata = none;
  extensions = [];
}

foreign_decoded : assignment_from_message foreign_message ≡ decoded clean
unfolding assignment_from_message find_assignment_payload first_record lookup
foreign_decoded = refl

decoded-IsAllowed_example :
    (find_assignment_payload foreign_message ≡ some clean) × IsAllowed clean × IsComplete clean
decoded-IsAllowed_example = decoded-IsAllowed foreign_message clean foreign_decoded

abbrev edited : BoardEvent
edited = record {
  id = "e1";
  task_id = "t1";
  type = "file_edit";
  content = "Edited a file";
  timestamp = 7;
  importance = none;
  metadata = some (record {
    file = some "a.ts";
    language = none;
    command = none;
    diff = some "+1";
    agent_type = none;
    duration = some (natural 3);
    input_tokens = none;
    output_tokens = none;
    cost_usd = none;
    error = none;
    others = object no_fields;
  });
}

abbrev mapping : EventMappingContext
mapping = record { context_id = "c"; summary = some "Done" }

event_roundtrip_example :
    task_update_to_agent_event
      (λ n. "0")
      9
      (agent_event_to_task_update (λ n. "then") edited mapping)
    ≡ some (record edited {
      content = received_content edited mapping;
      importance = some (event_importance edited);
    })
event_roundtrip_example = event_roundtrip (λ n. "then") (λ n. "0") 9 edited mapping
