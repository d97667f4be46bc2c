-- ===== src/Store/Events/Pending.antt =====
-- The limit on pending work requests (`insertWorkRequestIfBelowPendingLimit` of
-- repositories/sqlite.ts, `countPendingWorkRequests` of services/work-requests.ts).
use infinite_kanban.Prelude.{
  contains-append, ℕ, ◌+◌, ◌≤◌, ◌<◌, ◌≡◌, refl, sym, ap, ◌∙◌, subst, String, Bool, true, false, not,
  ◌&&◌, ◌||◌, none, some, Option, List, [], ◌∷◌, ◌++◌, arith, ◌==◌, ==_iff, string_eq, filter, any,
  find, length, leb, contains, is_some, is_none, Bool-cases, inl, inr, Option-cases, ◌⊎◌, In,
}
use mathlib.Core.Option.{some-injective, none-ne-some}
use infinite_kanban.Store.Rows.{Db, AgentEvent}
use infinite_kanban.Store.Table
use infinite_kanban.Store.Tasks.{get_by_id, is_equal, get_by_external_identity}
use infinite_kanban.Store.Events.{
  event_key, insert_event, insert_work_request_if_below_pending_limit, pending_in_store,
  is_pending_in, dismissed_of, dismissed_ids, given_id, count_pending, count_pending_work_requests,
  get_events_by_task_id, is_approval_of, work_request_external_key, work_request_external_source,
  is_work_request_event,
}

module _ {A : Type 0} (p q : A → Bool) where
  length-filter_le :
      (xs : List A)
      → ((x : A) → p x ≡ true → q x ≡ true)
      → length (filter p xs) ≤ length (filter q xs)
  length-filter_le [] sub = omega arith
  length-filter_le (x ∷ xs) sub =
      let h = length-filter_le xs sub in let k = sub x in ground (arith, h, k)

module _ {A : Type 0} (p : A → Bool) where
  length-filter_append :
      (xs : List A) (y : A) → length (filter p (xs ++ y ∷ [])) ≤ length (filter p xs) + 1
  length-filter_append [] y = ground arith
  length-filter_append (x ∷ xs) y = let h = length-filter_append xs y in ground (arith, h)

  any_append : (xs : List A) (y : A) → any p xs ≡ true → any p (xs ++ y ∷ []) ≡ true
  any_append [] y h = cc
  any_append (x ∷ xs) y h = ground (arith, any_append xs y)

  is_some-find : (xs : List A) → is_some (find p xs) ≡ any p xs
  is_some-find [] = refl
  is_some-find (x ∷ xs) = ground (arith, is_some-find xs)

-- More events leave fewer requests pending.
pending_shrinks :
    (task project : String) (db : Db) (c e : AgentEvent)
    → is_pending_in task project (record db { events = db.events ++ c ∷ [] }) e ≡ true
    → is_pending_in task project db e ≡ true
pending_shrinks task project db c e h =
    let more =
      any_append (λ (d : AgentEvent). d.task_id == e.task_id && is_equal (dismissed_of d) e.id)
        db.events c in
    ground (arith, h, more)

insert_event-eq-some :
    (e : AgentEvent) (db db' : Db)
    → insert_event e db ≡ some db'
    → db' ≡ record db { events = db.events ++ e ∷ [] }
unfolding insert_event
insert_event-eq-some e db db' h =
    elim (Bool-cases
      (is_some (Table.get event_key e.id db.events) || is_none (get_by_id db e.task_id))) [
        | inl refuses ↦ absurd (none-ne-some db' (rw refuses at h))
        | inr free ↦ sym (some-injective _ _ (rw free at h))
      ]

one_more :
    (task project : String) (db : Db) (c : AgentEvent)
    → pending_in_store task project (record db { events = db.events ++ c ∷ [] })
      ≤ pending_in_store task project db + 1
unfolding pending_in_store
one_more task project db c =
    let db' : Db = record db { events = db.events ++ c ∷ [] } in
    let a =
      length-filter_le (is_pending_in task project db') (is_pending_in task project db)
        (db.events ++ c ∷ []) (pending_shrinks task project db c) in
    let b = length-filter_append (is_pending_in task project db) db.events c in omega (arith, a, b)

-- Where the insertion does not throw: it answers no, at least the limit are pending on the task in
-- the project, and nothing changes; or it answers yes, fewer than the limit were pending, the
-- proposal stands at the end of the events, and then at most one more is pending, and no more than
-- the limit.
pub pending_limit :
    (candidate : AgentEvent) (project : String) (limit : ℕ) (db db' : Db) (answer : Bool)
    → insert_work_request_if_below_pending_limit candidate project limit db ≡ some (db', answer)
    → ((answer ≡ false) × (limit ≤ pending_in_store candidate.task_id project db) × (db' ≡ db))
      ⊎ ((answer ≡ true)
          × (pending_in_store candidate.task_id project db < limit)
          × (db'.events ≡ db.events ++ candidate ∷ [])
          × (pending_in_store candidate.task_id project db'
              ≤ pending_in_store candidate.task_id project db + 1)
          × (pending_in_store candidate.task_id project db' ≤ limit))
unfolding insert_work_request_if_below_pending_limit
pending_limit candidate project limit db db' answer h =
    elim (Bool-cases (leb limit (pending_in_store candidate.task_id project db))) [
      | inl full ↦
          let e = some-injective _ _ (rw full at h) in
          inl (sym (ap (λ x. x.1) e), ground (arith, full), sym (ap (λ x. x.0) e))
      | inr room ↦ elim (Option-cases (insert_event candidate db)) [
        | inl throws ↦ absurd (none-ne-some _ (rw throws at (rw room at h)))
        | inr (db₁, stored) ↦
            let e = some-injective _ _ (rw stored at (rw room at h)) in
            let grown = sym (ap (λ x. x.0) e) ∙ insert_event-eq-some candidate db db₁ stored in
            let few = one_more candidate.task_id project db candidate in
            inr (
              sym (ap (λ x. x.1) e),
              ground (arith, room),
              ap (λ (x : Db). x.events) grown,
              rw grown few,
              rw grown (ground (arith, few, room)),
            )
      ]
    ]

-- The ids that the service collects, against the dismissals that the statement looks for.
contains-given_id :
    (o : Option String) (id : String)
    → (id == "") ≡ false
    → contains (given_id o) id ≡ is_equal o id
contains-given_id none id some_id = refl
contains-given_id (some s) id some_id = ground (arith, ==_iff s "", ==_iff id "", ==_iff s id)

contains-dismissed_ids :
    (task id : String) (es : List AgentEvent)
    → (id == "") ≡ false
    → contains (dismissed_ids (filter (λ e. e.task_id == task) es)) id
      ≡ any (λ d. d.task_id == task && is_equal (dismissed_of d) id) es
unfolding dismissed_ids
contains-dismissed_ids task id [] some_id = refl
contains-dismissed_ids task id (e ∷ es) some_id = ground (
  arith,
  contains-dismissed_ids task id es some_id,
  contains-given_id (dismissed_of e) id some_id,
  contains-append (given_id (dismissed_of e)) (dismissed_ids (filter (λ e. e.task_id == task) es))
      id,
)

-- Whether the service counts an event of the task.
counted : List String → String → String → Db → AgentEvent → Bool
counted dismissed task project db e =
    not (not (is_work_request_event e) || contains dismissed e.id)
    && not (
        is_some (
          get_by_external_identity db project work_request_external_source
            (work_request_external_key task e.id)))

count_pending-length :
    (dismissed : List String) (task project : String) (db : Db) (es : List AgentEvent)
    → count_pending dismissed task project db es
      ≡ length (filter (counted dismissed task project db) es)
unfolding count_pending counted
count_pending-length dismissed task project db [] = refl
count_pending-length dismissed task project db (e ∷ es) =
    ground (arith, count_pending-length dismissed task project db es)

length-filter-filter :
    {A : Type 0} (p q r : A → Bool) (xs : List A)
    → ((x : A) → In x xs → r x ≡ (p x && q x))
    → length (filter q (filter p xs)) ≡ length (filter r xs)
length-filter-filter p q r [] same = refl
length-filter-filter p q r (x ∷ xs) same =
    let h = length-filter-filter p q r xs (λ y m. same y (inr m)) in
    let k = same x (inl refl) in ground (arith, h, k)

agrees_own :
    (project : String) (db : Db) (e : AgentEvent)
    → (e.id == "") ≡ false
    → is_pending_in e.task_id project db e ≡ (
        e.task_id == e.task_id
        && counted
            (dismissed_ids (filter (λ d. d.task_id == e.task_id) db.events))
            e.task_id
            project
            db
            e)
unfolding counted is_work_request_event get_by_external_identity
agrees_own project db e some_id = ground (
  arith,
  contains-dismissed_ids e.task_id e.id db.events some_id,
  is_some-find (is_approval_of project e) db.tasks,
)

agrees :
    (task project : String) (db : Db) (e : AgentEvent)
    → (e.id == "") ≡ false
    → is_pending_in task project db e ≡ (
        e.task_id == task
        && counted (dismissed_ids (filter (λ d. d.task_id == task) db.events)) task project db e)
agrees task project db e some_id = elim (Bool-cases (e.task_id == task)) [
  | inr other ↦ rw other refl
  | inl mine ↦
      subst
        (λ x. is_pending_in x project db e ≡ (
          e.task_id == x
          && counted (dismissed_ids (filter (λ d. d.task_id == x) db.events)) x project db e))
        ((==_iff e.task_id task).0 mine) (agrees_own project db e some_id)
]

-- Where no event of the store has an empty id, the service counts as many pending proposals of a
-- task as the statement within the transaction.
pub counts_agree :
    (task project : String) (db : Db)
    → ((e : AgentEvent) → In e db.events → (e.id == "") ≡ false)
    → count_pending_work_requests task project db ≡ pending_in_store task project db
unfolding count_pending_work_requests pending_in_store get_events_by_task_id
counts_agree task project db some_ids =
    count_pending-length _ task project db _
    ∙ length-filter-filter (λ e. e.task_id == task) _ (is_pending_in task project db) db.events
        (λ e m. agrees task project db e (some_ids e m))
