-- ===== src/Scenarios/Peers.antt =====
-- A hub with one subscriber, and two cancellations (packages/server/src/a2a).
use infinite_kanban.Prelude.{
  refl, false, is_some, leb, ◌≤◌, ◌≡◌, ◌⊎◌, String, true, some, none, List, [], ◌∷◌, ◌==◌,
  string_eq, length, head?, if◌then◌else◌, arith,
}
use infinite_kanban.Store.Table
use infinite_kanban.Store.Agents.{AgentRow, agent_key}
use infinite_kanban.Store.Agents.Probes.{Probe, after_probes, failures_in_row, unreachable_iff}
use infinite_kanban.A2a.EventHub.{
  Subscribers, subscribers_key, subscribe, delivered, add_listener, max_subscribed_tasks,
}
use infinite_kanban.A2a.EventHub.Delivery.{subscribe_delivers}
use infinite_kanban.A2a.Cancellations.{log_of, is_marked, max_tracked_cancellations}
use infinite_kanban.A2a.Cancellations.Bounds.{log_remembers}

abbrev one_subscriber : List Subscribers
one_subscriber = record { task_id = "t1"; listeners = 7 ∷ [] } ∷ []

subscribe_delivers_example :
    let (hub', taken) = subscribe "t2" 8 one_subscriber in
    ((taken ≡ true)
      ⊎ ((max_subscribed_tasks ≤ length one_subscriber)
          × (Table.get subscribers_key "t2" one_subscriber ≡ none)
          × (hub' ≡ one_subscriber)))
    × (length hub' ≤ max_subscribed_tasks)
    × ((other : String)
        → delivered other hub' ≡ (
            if taken
            then (if "t2" == other
                then add_listener 8 (delivered "t2" one_subscriber)
                else delivered other one_subscriber)
            else delivered other one_subscriber))
subscribe_delivers_example = subscribe_delivers "t2" 8 one_subscriber (omega arith)

log_remembers_example :
    (length (log_of ("t2" ∷ "t1" ∷ [])) ≤ max_tracked_cancellations)
    × (is_marked "t2" (log_of ("t2" ∷ "t1" ∷ [])) ≡ true)
    × ((x : String)
        → is_marked x (log_of ("t1" ∷ [])) ≡ true
        → (is_marked x (log_of ("t2" ∷ "t1" ∷ [])) ≡ true)
          ⊎ ((length (log_of ("t1" ∷ [])) ≡ max_tracked_cancellations)
              × (head? (log_of ("t1" ∷ [])) ≡ some x)))
log_remembers_example = log_remembers "t2" ("t1" ∷ [])

abbrev agent : AgentRow
agent = record {
  id = "a";
  enabled = true;
  probe_failures = 0;
  unreachable_since = none;
  last_validated_at = 1;
  last_validation_error = none;
  updated_at = 1;
}

abbrev failed_probe : Probe
failed_probe = record { ok = false; now = 50; error = none }

abbrev three_failures : List Probe
three_failures = failed_probe ∷ failed_probe ∷ failed_probe ∷ []

reads_agent : Table.get agent_key "a" (agent ∷ []) ≡ some agent
unfolding Table.get
reads_agent = refl

unreachable_iff_example :
    (r' : AgentRow) × (Table.get agent_key "a" (after_probes "a" 3 three_failures (agent ∷ []))
      ≡ some r')
    × (r'.probe_failures ≡ failures_in_row three_failures)
    × (is_some r'.unreachable_since ≡ leb 3 (failures_in_row three_failures))
unreachable_iff_example =
    unreachable_iff "a" 3 (agent ∷ []) agent three_failures (omega arith) reads_agent refl refl
