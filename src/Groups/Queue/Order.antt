-- ===== src/Groups/Queue/Order.antt =====
-- A child starts after its prerequisites (services/agent-manager.ts).
use infinite_kanban.Prelude.{
  ℕ, ◌≡◌, ◌⊎◌, refl, sym, subst, String, true, Option, none, some, List, [], ◌∷◌, string_eq, all,
  contains, contains-In, In-contains, In, inl, inr, Bool-cases, arith,
}
use infinite_kanban.Groups.Queue.{
  QueuedTask, GroupQueue, new_queue, task_named, is_done, is_ready, started, ReportedStatus,
  awaiting_clarification, executing, complete, failed, other, on_status, IsStarted, IsQueued, begun,
  drained, reported,
}
use infinite_kanban.Groups.Queue.Sets.{In-add_to, add_to_only, delete_from_only}
use infinite_kanban.Groups.Queue.Starts.{IsNext, drain-keeps}

all-more :
    (xs ys ds : List String)
    → ((d : String) → In d xs → In d ys)
    → all (λ d. contains xs d) ds ≡ true
    → all (λ d. contains ys d) ds ≡ true
all-more xs ys [] more h = refl
all-more xs ys (d ∷ ds) more h =
    let here = In-contains ys d (more d (contains-In xs d (ground arith))) in
    ground (arith, here, all-more xs ys ds more (ground arith))

-- A queue of the same children of which more have completed.
done-more :
    (q q' : GroupQueue) (o : Option QueuedTask)
    → ((d : String) → In d q.completed → In d q'.completed)
    → is_done q o ≡ true
    → is_done q' o ≡ true
done-more q q' none more h = h
done-more q q' (some t) more h = all-more q.completed q'.completed t.depends_on more h

ready-more :
    (q q' : GroupQueue) (id : String)
    → q'.tasks ≡ q.tasks
    → ((d : String) → In d q.completed → In d q'.completed)
    → is_ready q id ≡ true
    → is_ready q' id ≡ true
unfolding is_ready
ready-more q q' id same more h = rw same (done-more q q' (task_named q id) more h)

-- Every child that was started has all its prerequisites among the completed ones.
abbrev pub IsOrdered : GroupQueue → Type 0
IsOrdered q = (id : String) → IsStarted q id → is_ready q id ≡ true

-- A step that starts no other child, and forgets no completed one.
IsOrdered-step :
    (q q' : GroupQueue) (id : String)
    → q'.tasks ≡ q.tasks
    → ((d : String) → In d q.completed → In d q'.completed)
    → is_ready q id ≡ true
    → ((a : String) → IsStarted q' a → (a ≡ id) ⊎ IsStarted q a)
    → IsOrdered q
    → IsOrdered q'
IsOrdered-step q q' id same more ready old ordered a m = elim (old a m) [
  | inl e ↦ ready-more q q' a same more (subst (λ x. is_ready q x ≡ true) (sym e) ready)
  | inr before ↦ ready-more q q' a same more (ordered a before)
]

started-IsOrdered :
    (q : GroupQueue) (id : String) (rest : List String)
    → IsNext q id rest
    → IsOrdered q
    → IsOrdered (started q id rest)
started-IsOrdered q id rest (room, (ready, size, others, part)) ordered =
    IsOrdered-step q (started q id rest) id refl (λ d m. m) ready
      (λ a m. elim m [
        | inl r ↦ elim (add_to_only a id q.running r) [ inl e ↦ inl e | inr k ↦ inr (inl k) ]
        | inr k ↦ inr (inr k)
      ])
      ordered

status-IsStarted :
    (q : GroupQueue) (id : String) (status : ReportedStatus) (a : String)
    → IsStarted (on_status id status q) a
    → (a ≡ id) ⊎ IsStarted q a
unfolding on_status
status-IsStarted q id awaiting_clarification a m = elim m [
  | inl r ↦ inr (inl (delete_from_only a id q.running r))
  | inr (inl w) ↦ elim (add_to_only a id q.awaiting w) [ inl e ↦ inl e | inr k ↦ inr (inr (inl k)) ]
  | inr (inr k) ↦ inr (inr (inr k))
]
status-IsStarted q id executing a m = elim (Bool-cases (contains q.awaiting id)) [
  | inl waits ↦ elim (rw waits at m) [
    | inl r ↦ elim (add_to_only a id q.running r) [ inl e ↦ inl e | inr k ↦ inr (inl k) ]
    | inr (inl w) ↦ inr (inr (inl (delete_from_only a id q.awaiting w)))
    | inr (inr k) ↦ inr (inr (inr k))
  ]
  | inr runs ↦ inr (rw runs at m)
]
status-IsStarted q id complete a m = elim m [
  | inl r ↦ inr (inl (delete_from_only a id q.running r))
  | inr (inl w) ↦ inr (inr (inl (delete_from_only a id q.awaiting w)))
  | inr (inr (inl c)) ↦ elim (add_to_only a id q.completed c) [
    | inl e ↦ inl e
    | inr k ↦ inr (inr (inr (inl k)))
  ]
  | inr (inr (inr f)) ↦ inr (inr (inr (inr f)))
]
status-IsStarted q id failed a m = elim m [
  | inl r ↦ inr (inl (delete_from_only a id q.running r))
  | inr (inl w) ↦ inr (inr (inl (delete_from_only a id q.awaiting w)))
  | inr (inr (inl c)) ↦ inr (inr (inr (inl c)))
  | inr (inr (inr f)) ↦ elim (add_to_only a id q.failed f) [
    | inl e ↦ inl e
    | inr k ↦ inr (inr (inr (inr k)))
  ]
]
status-IsStarted q id other a m = inr m

status_keeps :
    (q : GroupQueue) (id : String) (status : ReportedStatus)
    → ((on_status id status q).tasks ≡ q.tasks)
      × ((d : String) → In d q.completed → In d (on_status id status q).completed)
unfolding on_status
status_keeps q id awaiting_clarification = (refl, λ d m. m)
status_keeps q id executing = elim (Bool-cases (contains q.awaiting id)) [
  | inl waits ↦ rw waits (refl, λ d m. m)
  | inr runs ↦ rw runs (refl, λ d m. m)
]
status_keeps q id complete = (refl, λ d m. In-add_to d id q.completed m)
status_keeps q id failed = (refl, λ d m. m)
status_keeps q id other = (refl, λ d m. m)

new-IsOrdered : (limit : ℕ) (children : List QueuedTask) → IsOrdered (new_queue limit children)
new-IsOrdered limit children id m = elim m [
  | inl n ↦ absurd n
  | inr (inl n) ↦ absurd n
  | inr (inr (inl n)) ↦ absurd n
  | inr (inr (inr n)) ↦ absurd n
]

-- In every queue that a group may have, whatever its children report and whenever the queue is
-- drained, each child that was started has all its declared prerequisites among the completed
-- children.
pub queued-IsOrdered :
    (limit : ℕ) (children : List QueuedTask) (q : GroupQueue)
    → IsQueued limit children q
    → IsOrdered q
queued-IsOrdered limit children _ begun = new-IsOrdered limit children
queued-IsOrdered limit children _ (drained q queued) =
    drain-keeps IsOrdered started-IsOrdered q (queued-IsOrdered limit children q queued)
queued-IsOrdered limit children _ (reported q id status queued was) =
    let ordered = queued-IsOrdered limit children q queued in
    let (same, more) = status_keeps q id status in
    IsOrdered-step q (on_status id status q) id same more (ordered id was)
      (status-IsStarted q id status) ordered
