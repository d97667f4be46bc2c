-- ===== src/Scenarios/Proposals.antt =====
-- Two proposals of a task, one of them dismissed (services/work-requests.ts).
use infinite_kanban.Prelude.{
  ◌+◌, ◌≡◌, ◌≤◌, ◌<◌, ◌⊎◌, inl, inr, refl, ap, true, false, none, some, [], ◌∷◌, ◌++◌, ◌==◌,
  string_eq, In,
}
use infinite_kanban.Board.{opencode}
use infinite_kanban.Store.Table
use infinite_kanban.Store.Rows.{Db, AgentEvent, WorkRequest}
use infinite_kanban.Store.Tasks.{get_by_id}
use infinite_kanban.Store.Events.{
  insert_work_request_if_below_pending_limit, pending_in_store, count_pending_work_requests,
  work_request_external_key,
}
use infinite_kanban.Store.Events.Pending.{pending_limit, counts_agree}
use infinite_kanban.Scenarios.Claims.{waiting, db_of}

abbrev wish : WorkRequest
wish = record { title = "More tests"; description = ""; agent_type = opencode }

abbrev proposal : AgentEvent
proposal = record {
  id = "e1";
  task_id = "t1";
  type = "request_work";
  content = "x";
  timestamp = 1;
  importance = none;
  metadata = some (record { work_request = some wish; dismissed_work_request_event_id = none });
}

abbrev dismissal : AgentEvent
dismissal = record proposal {
  id = "e2";
  type = "output";
  metadata = some (record { work_request = none; dismissed_work_request_event_id = some "e1" });
}

abbrev next_proposal : AgentEvent
next_proposal = record proposal { id = "e3" }

abbrev proposed : Db
proposed = record (db_of waiting) { events = proposal ∷ dismissal ∷ [] }

abbrev proposed_again : Db
proposed_again = record proposed { events = proposal ∷ dismissal ∷ next_proposal ∷ [] }

stores_next :
    insert_work_request_if_below_pending_limit next_proposal "p" 1 proposed
    ≡ some (proposed_again, true)
unfolding insert_work_request_if_below_pending_limit work_request_external_key get_by_id Table.get
stores_next = refl

pending_limit_example :
    ((true ≡ false) × (1 ≤ pending_in_store "t1" "p" proposed) × (proposed_again ≡ proposed))
    ⊎ ((true ≡ true)
        × (pending_in_store "t1" "p" proposed < 1)
        × (proposed_again.events ≡ proposed.events ++ next_proposal ∷ [])
        × (pending_in_store "t1" "p" proposed_again ≤ pending_in_store "t1" "p" proposed + 1)
        × (pending_in_store "t1" "p" proposed_again ≤ 1))
pending_limit_example = pending_limit next_proposal "p" 1 proposed proposed_again true stores_next

ids_given : (e : AgentEvent) → In e proposed.events → (e.id == "") ≡ false
ids_given e (inl first) = ap (λ (x : AgentEvent). x.id == "") first
ids_given e (inr (inl second)) = ap (λ (x : AgentEvent). x.id == "") second
ids_given e (inr (inr other)) = elim other [ ]

counts_agree_example :
    count_pending_work_requests "t1" "p" proposed ≡ pending_in_store "t1" "p" proposed
counts_agree_example = counts_agree "t1" "p" proposed ids_given
