-- ===== src/Scenarios/Broadcast.antt =====
-- The feed of two tasks (services/agent-manager.ts).
use infinite_kanban.Prelude.{ℕ, ◌≡◌, refl, String, none, List, [], ◌∷◌, ◌++◌}
use infinite_kanban.Contract.Json.{no_fields, object}
use infinite_kanban.Broadcast.{
  AgentEvent, new_feed, FeedStep, emitted, timer_fired, events_cleared, flush_buffer, run_feed,
}
use infinite_kanban.Broadcast.Transcript.{transcript, waiting}
use infinite_kanban.Broadcast.Relayed.{feed_relays}

abbrev says : String → String → ℕ → AgentEvent
says task type c = record {
  id = "e";
  task_id = task;
  type = type;
  content = c ∷ [];
  timestamp = 5;
  importance = none;
  metadata = object no_fields;
}

-- Two outputs of `a` are merged; the thought flushes them, and `b` is deleted after its output.
abbrev talk : List FeedStep
talk =
    emitted (says "a" "output" 97)
    ∷ emitted (says "b" "output" 120)
    ∷ emitted (says "a" "output" 98)
    ∷ emitted (says "a" "thinking" 99)
    ∷ emitted (says "a" "output" 32)
    ∷ events_cleared "b"
    ∷ emitted (says "b" "output" 121)
    ∷ timer_fired "b"
    ∷ []

talk_sent :
    (transcript "a" (run_feed talk new_feed).sent ≡ ("output", 97) ∷ ("output", 98) ∷ [])
    × (transcript "b" (run_feed talk new_feed).sent ≡ ("output", 120) ∷ [])
    × (waiting ((run_feed talk new_feed).buffers "a") ≡ ("thinking", 99) ∷ [])
unfolding run_feed
talk_sent = (refl, refl, refl)

feed_relays_example :
    (transcript "a" (run_feed talk new_feed).sent ++ waiting ((run_feed talk new_feed).buffers "a")
      ≡ transcript "a" (run_feed talk new_feed).inserted)
    × (transcript "a" (flush_buffer "a" (run_feed talk new_feed)).sent
        ≡ transcript "a" (run_feed talk new_feed).inserted)
feed_relays_example = feed_relays talk "a"
