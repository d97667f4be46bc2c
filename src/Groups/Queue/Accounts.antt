-- ===== src/Groups/Queue/Accounts.antt =====
-- Every child of a group is in one of the sets of its queue (services/agent-manager.ts).
use infinite_kanban.Prelude.{
  ℕ, ◌≡◌, ◌⊎◌, refl, sym, ap, ◌∙◌, subst, String, not, List, ◌==◌, ==_iff, string_eq,
  filter-complete, contains, In, map, inl, inr, Bool-cases,
}
use infinite_kanban.Groups.Queue.{
  QueuedTask, GroupQueue, add_to, delete_from, started, ReportedStatus, awaiting_clarification,
  executing, complete, failed, other, on_status, IsStarted, IsQueued, begun, drained, reported,
}
use infinite_kanban.Groups.Queue.Sets.{In-add_to, added-In}
use infinite_kanban.Groups.Queue.Starts.{IsNext, drain-keeps}

abbrev pub child_ids : List QueuedTask → List String
child_ids children = map (λ (t : QueuedTask). t.id) children

-- The queue knows its children and its limit, its pending ids are the children's, and each child is
-- pending or was started.
abbrev pub IsAccounted : ℕ → List QueuedTask → GroupQueue → Type 0
IsAccounted limit children q =
    (q.tasks ≡ children)
    × (q.max_concurrency ≡ limit)
    × ((a : String) → In a q.pending → In a (child_ids children))
    × ((a : String) → In a (child_ids children) → In a q.pending ⊎ IsStarted q a)

delete_from-keeps :
    (a id : String) (ids : List String) → In a ids → (a ≡ id) ⊎ In a (delete_from id ids)
delete_from-keeps a id ids m = elim (Bool-cases (a == id)) [
  | inl same ↦ inl ((==_iff a id).0 same)
  | inr differs ↦ inr (filter-complete (λ x. not (x == id)) ids (ap not differs) m)
]

started-keeps :
    (q : GroupQueue) (id : String) (rest : List String) (a : String)
    → IsStarted q a
    → IsStarted (started q id rest) a
started-keeps q id rest a m = elim m [ inl r ↦ inl (In-add_to a id q.running r) | inr k ↦ inr k ]

module _ (limit : ℕ) (children : List QueuedTask) where
  started-IsAccounted :
      (q : GroupQueue) (id : String) (rest : List String)
      → IsNext q id rest
      → IsAccounted limit children q
      → IsAccounted limit children (started q id rest)
  started-IsAccounted q id rest (room, (ready, size, others, fewer))
        (same, at_limit, known, placed) =
      (
        same,
        at_limit,
        λ a m. known a (fewer a m),
        λ a m. elim (placed a m) [
          | inl p ↦ elim (others a p) [
            | inl e ↦
                inr (inl (subst (λ x. In x (add_to id q.running)) (sym e) (added-In id q.running)))
            | inr k ↦ inl k
          ]
          | inr s ↦ inr (started-keeps q id rest a s)
        ],
      )

-- A child that was started stays so: where it leaves one set it enters another.
status-keeps :
    (q : GroupQueue) (id : String) (status : ReportedStatus) (a : String)
    → IsStarted q a
    → IsStarted (on_status id status q) a
unfolding on_status
status-keeps q id awaiting_clarification a m = elim m [
  | inl r ↦ elim (delete_from-keeps a id q.running r) [
    | inl e ↦ inr (inl (subst (λ x. In x (add_to id q.awaiting)) (sym e) (added-In id q.awaiting)))
    | inr k ↦ inl k
  ]
  | inr (inl w) ↦ inr (inl (In-add_to a id q.awaiting w))
  | inr (inr k) ↦ inr (inr k)
]
status-keeps q id executing a m = elim (Bool-cases (contains q.awaiting id)) [
  | inr runs ↦ rw runs m
  | inl waits ↦ rw waits (elim m [
    | inl r ↦ inl (In-add_to a id q.running r)
    | inr (inl w) ↦ elim (delete_from-keeps a id q.awaiting w) [
      | inl e ↦ inl (subst (λ x. In x (add_to id q.running)) (sym e) (added-In id q.running))
      | inr k ↦ inr (inl k)
    ]
    | inr (inr k) ↦ inr (inr k)
  ])
]
status-keeps q id complete a m = elim m [
  | inl r ↦ elim (delete_from-keeps a id q.running r) [
    | inl e ↦
        inr
          (inr (inl (subst (λ x. In x (add_to id q.completed)) (sym e) (added-In id q.completed))))
    | inr k ↦ inl k
  ]
  | inr (inl w) ↦ elim (delete_from-keeps a id q.awaiting w) [
    | inl e ↦
        inr
          (inr (inl (subst (λ x. In x (add_to id q.completed)) (sym e) (added-In id q.completed))))
    | inr k ↦ inr (inl k)
  ]
  | inr (inr (inl c)) ↦ inr (inr (inl (In-add_to a id q.completed c)))
  | inr (inr (inr f)) ↦ inr (inr (inr f))
]
status-keeps q id failed a m = elim m [
  | inl r ↦ elim (delete_from-keeps a id q.running r) [
    | inl e ↦
        inr (inr (inr (subst (λ x. In x (add_to id q.failed)) (sym e) (added-In id q.failed))))
    | inr k ↦ inl k
  ]
  | inr (inl w) ↦ elim (delete_from-keeps a id q.awaiting w) [
    | inl e ↦
        inr (inr (inr (subst (λ x. In x (add_to id q.failed)) (sym e) (added-In id q.failed))))
    | inr k ↦ inr (inl k)
  ]
  | inr (inr (inl c)) ↦ inr (inr (inl c))
  | inr (inr (inr f)) ↦ inr (inr (inr (In-add_to a id q.failed f)))
]
status-keeps q id other a m = m

status_same :
    (q : GroupQueue) (id : String) (status : ReportedStatus)
    → ((on_status id status q).tasks ≡ q.tasks)
      × ((on_status id status q).max_concurrency ≡ q.max_concurrency)
      × ((on_status id status q).pending ≡ q.pending)
unfolding on_status
status_same q id executing = elim (Bool-cases (contains q.awaiting id)) [
  | inl waits ↦ rw waits (refl, refl, refl)
  | inr runs ↦ rw runs (refl, refl, refl)
]
status_same q id awaiting_clarification = (refl, refl, refl)
status_same q id complete = (refl, refl, refl)
status_same q id failed = (refl, refl, refl)
status_same q id other = (refl, refl, refl)

status-IsAccounted :
    (limit : ℕ) (children : List QueuedTask) (q : GroupQueue) (id : String)
    (status : ReportedStatus)
    → IsAccounted limit children q
    → IsAccounted limit children (on_status id status q)
status-IsAccounted limit children q id status (same, at_limit, known, placed) =
    let (tasks, max, pending) = status_same q id status in
    (
      tasks ∙ same,
      max ∙ at_limit,
      λ a m. known a (subst (λ xs. In a xs) pending m),
      λ a m. elim (placed a m) [
        | inl p ↦ inl (subst (λ xs. In a xs) (sym pending) p)
        | inr s ↦ inr (status-keeps q id status a s)
      ],
    )

pub queued-IsAccounted :
    (limit : ℕ) (children : List QueuedTask) (q : GroupQueue)
    → IsQueued limit children q
    → IsAccounted limit children q
queued-IsAccounted limit children _ begun = (refl, refl, λ a m. m, λ a m. inl m)
queued-IsAccounted limit children _ (drained q queued) =
    drain-keeps (IsAccounted limit children) (started-IsAccounted limit children) q
      (queued-IsAccounted limit children q queued)
queued-IsAccounted limit children _ (reported q id status queued was) =
    status-IsAccounted limit children q id status (queued-IsAccounted limit children q queued)
