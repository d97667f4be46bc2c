-- ===== src/Groups/Queue/Progress.antt =====
-- A group's queue does not get stuck while nothing fails (services/agent-manager.ts).
use infinite_kanban.Prelude.{
  ℕ, zero, suc, ◌≡◌, ◌≤◌, ◌<◌, refl, sym, ap, ◌∙◌, subst, String, false, none, some, List, [], ◌∷◌,
  arith, ◌==◌, ==_iff, string_eq, leb, find_sound, find-none, all, contains, In-contains, In,
  length, inl, inr, Option-cases,
}
use mathlib.Core.Bool.{true≢false}
use infinite_kanban.Groups.Queue.{
  QueuedTask, GroupQueue, task_named, is_done, is_ready, next_start, drain_group_queue, IsQueued,
  drained,
}
use infinite_kanban.Groups.Queue.Starts.{drain_ends, missing, split_first-none}
use infinite_kanban.Groups.Queue.Accounts.{child_ids, IsAccounted, queued-IsAccounted}

-- Each prerequisite is a child of a lower rank: there is no cycle.
abbrev pub IsRanked : (String → ℕ) → List QueuedTask → Type 0
IsRanked rank children =
    (t : QueuedTask)
    → In t children
    → (d : String) → In d t.depends_on
    → In d (child_ids children) × (rank d < rank t.id)

child_of :
    (children : List QueuedTask) (a : String)
    → In a (child_ids children)
    → (t : QueuedTask) × In t children × (t.id ≡ a)
child_of [] a m = elim m [ ]
child_of (t ∷ children) a m = elim m [
  | inl e ↦ (t, inl refl, sym e)
  | inr k ↦ let (u, found, named) = child_of children a k in (u, inr found, named)
]

module _ (rank : String → ℕ) (children : List QueuedTask) (q : GroupQueue) (limit : ℕ)
    (ranked : IsRanked rank children) (accounted : IsAccounted limit children q)
    (idle : q.running ≡ []) (unasked : q.awaiting ≡ []) (unfailed : q.failed ≡ [])
    (held : (a : String) → In a q.pending → is_ready q a ≡ false) where
  named_child :
      (a : String)
      → In a q.pending
      → (t : QueuedTask) × (task_named q a ≡ some t) × In t children × (t.id ≡ a)
  named_child a m = elim (Option-cases (task_named q a)) [
    | inl gone ↦
        let (t, found, named) = child_of children a (accounted.2 a m) in
        absurd (
          true≢false (
            sym ((==_iff t.id a).1 named)
            ∙ find-none (λ (u : QueuedTask). u.id == a) q.tasks gone
                (subst (λ ts. In t ts) (sym accounted.0) found)))
    | inr (t, is_t) ↦
        let (named, found) = find_sound (λ (u : QueuedTask). u.id == a) q.tasks is_t in
        (t, is_t, subst (λ ts. In t ts) accounted.0 found, (==_iff t.id a).0 named)
  ]

  undone :
      (a : String)
      → In a q.pending
      → (t : QueuedTask) → task_named q a ≡ some t
      → all (λ d. contains q.completed d) t.depends_on ≡ false
  unfolding is_ready
  undone a m t is_t = ap (is_done q) (sym is_t) ∙ held a m

  -- A child that has not completed is pending, since no other set has it.
  still_pending :
      (d : String) → In d (child_ids children) → contains q.completed d ≡ false → In d q.pending
  still_pending d known gone = elim (accounted.3 d known) [
    | inl p ↦ p
    | inr (inl r) ↦ absurd (subst (λ xs. In d xs) idle r)
    | inr (inr (inl w)) ↦ absurd (subst (λ xs. In d xs) unasked w)
    | inr (inr (inr (inl c))) ↦ absurd (true≢false (sym (In-contains q.completed d c) ∙ gone))
    | inr (inr (inr (inr f))) ↦ absurd (subst (λ xs. In d xs) unfailed f)
  ]

  -- Below a pending child there is another one.
  lower_pending : (a : String) → In a q.pending → (d : String) × In d q.pending × (rank d < rank a)
  lower_pending a m =
      let (t, is_t, found, named) = named_child a m in
      let (d, needs, gone) = missing q.completed t.depends_on (undone a m t is_t) in
      let (known, below) = ranked t found d needs in
      (d, still_pending d known gone, subst (λ x. rank d < rank x) named below)

  no_descent : (n : ℕ) (a : String) → In a q.pending → rank a < n → ⊥
  no_descent zero a m low = omega arith
  no_descent (suc n) a m low =
      let (d, found, below) = lower_pending a m in no_descent n d found (omega arith)

empty_if : (xs : List String) → ((a : String) → In a xs → ⊥) → xs ≡ []
empty_if [] h = refl
empty_if (x ∷ xs) h = absurd (h x (inl refl))

-- With a place for at least one child, a stop of the drain while none runs means that no pending
-- child is ready.
idle_held :
    (q : GroupQueue)
    → 1 ≤ q.max_concurrency
    → q.running ≡ []
    → next_start q ≡ none
    → (a : String) → In a q.pending
    → is_ready q a ≡ false
unfolding next_start
idle_held q places idle stops =
    let room : leb q.max_concurrency (length q.running) ≡ false =
      rw idle (ground (arith, places)) in
    split_first-none (is_ready q) q.pending (rw room at stops)

-- Where a group has a limit of at least one, and each prerequisite of a child is a child of a lower
-- rank, a drain of any queue that the group may have leaves no child pending, unless one runs,
-- waits for an answer or has failed: the children do not block each other.
pub drained_progress :
    (limit : ℕ) (children : List QueuedTask) (rank : String → ℕ) (q : GroupQueue)
    → IsQueued limit children q
    → 1 ≤ limit
    → IsRanked rank children
    → (drain_group_queue q).running ≡ []
    → (drain_group_queue q).awaiting ≡ []
    → (drain_group_queue q).failed ≡ []
    → (drain_group_queue q).pending ≡ []
drained_progress limit children rank q queued places ranked idle unasked unfailed =
    let after = drain_group_queue q in
    let accounted = queued-IsAccounted limit children after (drained q queued) in
    let held = idle_held after (subst (λ n. 1 ≤ n) (sym accounted.1) places) idle (drain_ends q) in
    empty_if after.pending (λ a m.
      no_descent rank children after limit ranked accounted idle unasked unfailed held
        (suc (rank a)) a m (omega arith))
