-- ===== src/Groups/Queue.antt =====
-- packages/server/src/services/agent-manager.ts: the queue of a group's children. The ids of the
-- children are distinct. A drain that is queued as a microtask is a step of its own, and so is each
-- status that a started child reports; a queue that is left (`none`) takes no more steps.
pub mod Sets
pub mod Starts
pub mod Order
pub mod Accounts
pub mod Progress
use infinite_kanban.Prelude.{
  ℕ, zero, suc, String, Bool, true, false, not, ◌&&◌, Option, none, some, List, [], ◌∷◌, ◌++◌, ◌==◌,
  string_eq, leb, find, filter, all, contains, length, is_some, map, if◌then◌else◌, In, ◌⊎◌,
}

pub record QueuedTask : Type 0 where
  pub id : String
  pub depends_on : List String

pub record GroupQueue : Type 0 where
  pub max_concurrency : ℕ
  pub pending : List String
  pub running : List String
  pub awaiting : List String
  pub completed : List String
  pub failed : List String
  pub tasks : List QueuedTask

-- `Set.add` and `Set.delete`
abbrev pub add_to : String → List String → List String
add_to id ids = if contains ids id then ids else ids ++ id ∷ []

abbrev pub delete_from : String → List String → List String
delete_from id ids = filter (λ x. not (x == id)) ids

abbrev pub new_queue : (max_concurrency : ℕ) → List QueuedTask → GroupQueue
new_queue max_concurrency children = record {
  max_concurrency = max_concurrency;
  pending = map (λ (t : QueuedTask). t.id) children;
  running = [];
  awaiting = [];
  completed = [];
  failed = [];
  tasks = children;
}

abbrev pub task_named : GroupQueue → String → Option QueuedTask
task_named q id = find (λ (t : QueuedTask). t.id == id) q.tasks

abbrev pub is_done : GroupQueue → Option QueuedTask → Bool
is_done q none = false
is_done q (some t) = all (λ d. contains q.completed d) t.depends_on

-- Whether all prerequisites of a child have finished.
unfoldable pub is_ready : GroupQueue → String → Bool
is_ready q id = is_done q (task_named q id)

-- `findIndex` and `splice`: the first that passes, and the others.
abbrev pub kept_before : String → Option (String × List String) → Option (String × List String)
kept_before x none = none
kept_before x (some (y, rest)) = some (y, x ∷ rest)

unfoldable pub split_first : (String → Bool) → List String → Option (String × List String)
split_first p [] = none
split_first p (x ∷ xs) =
    let rest = kept_before x (split_first p xs) in if p x then some (x, xs) else rest

unfoldable pub next_start : GroupQueue → Option (String × List String)
unfolding split_first is_ready
next_start q =
    if leb q.max_concurrency (length q.running) then none else split_first (is_ready q) q.pending

abbrev pub started : GroupQueue → String → List String → GroupQueue
started q id rest = record q { pending = rest; running = add_to id q.running }

-- `startNext`, which calls itself as long as it starts a child.
unfoldable pub start_next : ℕ → GroupQueue → GroupQueue
unfolding next_start
start_next zero q = q
start_next (suc n) q = elim (next_start q) [
  | none ↦ q
  | some (id, rest) ↦ start_next n (started q id rest)
]

-- Each call takes a child out of the pending ones.
unfoldable pub drain_group_queue : GroupQueue → GroupQueue
unfolding start_next
drain_group_queue q = start_next (length q.pending) q

unfoldable pub start_group : Option GroupQueue → ℕ → List QueuedTask → Option GroupQueue
unfolding drain_group_queue
start_group (some q) max_concurrency children = some q
start_group none max_concurrency children =
    some (drain_group_queue (new_queue max_concurrency children))

pub data ReportedStatus : Type 0 where
  awaiting_clarification executing complete failed other : ReportedStatus

abbrev pub left_active : GroupQueue → String → GroupQueue
left_active q id = record q {
  running = delete_from id q.running;
  awaiting = delete_from id q.awaiting;
}

-- The sets after a status of a child.
unfoldable pub on_status : String → ReportedStatus → GroupQueue → GroupQueue
on_status id awaiting_clarification q = record q {
  running = delete_from id q.running;
  awaiting = add_to id q.awaiting;
}
on_status id executing q =
    if contains q.awaiting id
    then record q { awaiting = delete_from id q.awaiting; running = add_to id q.running }
    else q
on_status id complete q = record (left_active q id) { completed = add_to id q.completed }
on_status id failed q = record (left_active q id) { failed = add_to id q.failed }
on_status id other q = q

abbrev pub is_empty : List String → Bool
is_empty [] = true
is_empty (x ∷ xs) = false

abbrev pub is_drained : GroupQueue → Bool
is_drained q = is_empty q.pending && (is_empty q.running && is_empty q.awaiting)

abbrev pub is_final : ReportedStatus → Bool
is_final complete = true
is_final failed = true
is_final _ = false

-- The queue is left once a child has ended and none is pending or active.
unfoldable pub report_status : String → ReportedStatus → GroupQueue → Option GroupQueue
unfolding on_status
report_status id status q =
    let q' = on_status id status q in if is_final status && is_drained q' then none else some q'

-- The part of `stopAgent` on the queue of the child's group.
unfoldable pub stop_child : String → GroupQueue → Option GroupQueue
unfolding report_status
stop_child id q =
    if contains q.running id
    then report_status id failed q
    else if contains q.awaiting id
    then report_status id failed q
    else some q

abbrev pub is_group_running : Option GroupQueue → Bool
is_group_running q = is_some q

abbrev pub IsStarted : GroupQueue → String → Type 0
IsStarted q id = In id q.running ⊎ (In id q.awaiting ⊎ (In id q.completed ⊎ In id q.failed))

-- The queues that a group may have: only a child that was started reports a status.
pub data IsQueued (limit : ℕ) (children : List QueuedTask) : GroupQueue → Type 0 where
  begun : IsQueued limit children (new_queue limit children)
  drained :
      (q : GroupQueue) → IsQueued limit children q → IsQueued limit children (drain_group_queue q)
  reported :
      (q : GroupQueue) (id : String) (status : ReportedStatus)
      → IsQueued limit children q
      → IsStarted q id
      → IsQueued limit children (on_status id status q)
