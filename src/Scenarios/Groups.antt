-- ===== src/Scenarios/Groups.antt =====
-- Groups of children that depend on each other (services/agent-manager.ts).
use infinite_kanban.Prelude.{
  ℕ, ◌≡◌, ◌<◌, ◌≤◌, ◌⊎◌, length, refl, sym, ap, subst, ◌==◌, string_eq, if◌then◌else◌, String, some,
  List, [], ◌∷◌, arith, In, inl, inr,
}
use infinite_kanban.Groups.Queue.{
  QueuedTask, GroupQueue, new_queue, is_ready, split_first, next_start, start_next,
  drain_group_queue, on_status, report_status, awaiting_clarification, executing, complete, failed,
  IsStarted, IsQueued, begun, drained, reported,
}
use infinite_kanban.Groups.Queue.Starts.{drain_stops, IsHeldUp}
use infinite_kanban.Groups.Queue.Order.{IsOrdered, queued-IsOrdered}
use infinite_kanban.Groups.Queue.Progress.{IsRanked, drained_progress}

-- `b` waits for `a`.
abbrev pair : List QueuedTask
pair = record { id = "a"; depends_on = [] } ∷ record { id = "b"; depends_on = "a" ∷ [] } ∷ []

abbrev opened : GroupQueue
opened = new_queue 2 pair

abbrev at_work : GroupQueue
at_work = record opened { pending = "b" ∷ []; running = "a" ∷ [] }

drains : drain_group_queue opened ≡ at_work
unfolding drain_group_queue start_next next_start split_first is_ready
drains = refl

-- Once `a` has failed, `b` is never ready, and the queue is not left.
abbrev held_up : GroupQueue
held_up = record opened { pending = "b" ∷ []; failed = "a" ∷ [] }

failure_holds_up : report_status "a" failed at_work ≡ some held_up
unfolding report_status on_status
failure_holds_up = refl

stays_held_up : drain_group_queue held_up ≡ held_up
unfolding drain_group_queue start_next next_start split_first is_ready
stays_held_up = refl

-- Two children that resume exceed a limit of one by two.
abbrev three : List QueuedTask
three =
    record { id = "x"; depends_on = [] }
    ∷ record { id = "y"; depends_on = [] }
    ∷ record { id = "z"; depends_on = [] }
    ∷ []

abbrev crowded : GroupQueue
crowded = record (new_queue 1 three) { pending = []; running = "z" ∷ "x" ∷ "y" ∷ [] }

resumes_exceed :
    on_status "y" executing (
      on_status "x" executing (
        drain_group_queue (
          on_status "y" awaiting_clarification (
            drain_group_queue
              (on_status "x" awaiting_clarification (drain_group_queue (new_queue 1 three)))))))
    ≡ crowded
unfolding drain_group_queue start_next next_start split_first is_ready on_status
resumes_exceed = refl

abbrev half : GroupQueue
half = on_status "a" complete (drain_group_queue opened)

a-IsStarted : IsStarted (drain_group_queue opened) "a"
unfolding drain_group_queue start_next next_start split_first is_ready
a-IsStarted = inl (inl refl)

half-IsQueued : IsQueued 2 pair half
half-IsQueued = reported (drain_group_queue opened) "a" complete (drained opened begun) a-IsStarted

b-IsStarted : IsStarted (drain_group_queue half) "b"
unfolding drain_group_queue start_next next_start split_first is_ready on_status
b-IsStarted = inl (inl refl)

queued-IsOrdered_example : IsOrdered (drain_group_queue half)
queued-IsOrdered_example =
    queued-IsOrdered 2 pair (drain_group_queue half) (drained half half-IsQueued)

abbrev over : GroupQueue
over = on_status "b" complete (drain_group_queue half)

over-IsQueued : IsQueued 2 pair over
over-IsQueued =
    reported (drain_group_queue half) "b" complete (drained half half-IsQueued) b-IsStarted

abbrev place : String → ℕ
place x = if x == "a" then 0 else 1

pair-IsRanked : IsRanked place pair
pair-IsRanked t m d k = elim m [
  | inl e ↦ absurd (subst (λ (u : QueuedTask). In d u.depends_on) e k)
  | inr (inl e) ↦ elim (subst (λ (u : QueuedTask). In d u.depends_on) e k) [
    | inl at_a ↦
        (inl at_a, subst (λ (u : QueuedTask). place d < place u.id) (sym e) (rw at_a (omega arith)))
    | inr gone ↦ absurd gone
  ]
  | inr (inr gone) ↦ absurd gone
]

queue_at_end : drain_group_queue over ≡ record opened { pending = []; completed = "a" ∷ "b" ∷ [] }
unfolding drain_group_queue start_next next_start split_first is_ready on_status
queue_at_end = refl

drained_progress_example : (drain_group_queue over).pending ≡ []
drained_progress_example =
    drained_progress 2 pair place over over-IsQueued (omega arith) pair-IsRanked
      (ap (λ (q : GroupQueue). q.running) queue_at_end)
      (ap (λ (q : GroupQueue). q.awaiting) queue_at_end)
      (ap (λ (q : GroupQueue). q.failed) queue_at_end)

drain_stops_example :
    ((drain_group_queue opened).max_concurrency ≤ length (drain_group_queue opened).running)
    ⊎ ((a : String)
        → In a (drain_group_queue opened).pending
        → IsHeldUp (drain_group_queue opened) a)
drain_stops_example = drain_stops opened
