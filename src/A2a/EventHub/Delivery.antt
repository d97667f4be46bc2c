-- ===== src/A2a/EventHub/Delivery.antt =====
-- Whom an activity reaches (a2a/event-hub.ts).
use infinite_kanban.Prelude.{
  ℕ, ◌+◌, ◌≤◌, ◌≡◌, ◌⊎◌, inl, inr, refl, sym, ap, ◌∙◌, subst, String, Bool, true, false, none, some,
  Option, List, [], ◌∷◌, ◌++◌, arith, ◌==◌, ==_iff, nat_eq, string_eq, leb, length, if◌then◌else◌,
  Bool-cases, Option-cases,
}
use infinite_kanban.Store.Table
use mathlib.Core.Option
use infinite_kanban.A2a.EventHub.{
  Subscribers, subscribers_key, max_subscribed_tasks, add_listener, subscribe, unsubscribe,
  delivered, listeners_of, drop_listener, left_by,
}

get_append :
    (task : String) (hub : List Subscribers) (s : Subscribers)
    → Table.get subscribers_key task (hub ++ s ∷ []) ≡ elim (Table.get subscribers_key task hub) [
      | none ↦ if s.task_id == task then some s else none
      | some x ↦ some x
    ]
unfolding Table.get
get_append task [] s = refl
get_append task (x ∷ hub) s = ground (arith, get_append task hub s)

length-update_where :
    (task : String) (c : Subscribers → Bool) (f : Subscribers → Subscribers)
    (hub : List Subscribers)
    → length (Table.update_where subscribers_key task c f hub).0 ≡ length hub
unfolding Table.update_where
length-update_where task c f [] = refl
length-update_where task c f (s ∷ hub) =
    let h = length-update_where task c f hub in ground (arith, h)

length-append : (hub : List Subscribers) (s : Subscribers) → length (hub ++ s ∷ []) ≡ length hub + 1
length-append [] s = refl
length-append (x ∷ hub) s = let h = length-append hub s in omega (arith, h)

abbrev with_listener : ℕ → Subscribers → Subscribers
with_listener l s = record s { listeners = add_listener l s.listeners }

-- The task has subscribers: the listener joins them.
joined :
    (task : String) (l : ℕ) (hub : List Subscribers) (s : Subscribers)
    → Table.get subscribers_key task hub ≡ some s
    → (other : String)
    → delivered other (Table.update_where subscribers_key task (λ _. true) (with_listener l) hub).0
      ≡ (if task == other then add_listener l (delivered task hub) else delivered other hub)
unfolding delivered
joined task l hub s found other =
    ap listeners_of (
      Table.get-update_where subscribers_key task other (λ _. true) (with_listener l) hub
        (λ r. refl))
    ∙ elim (Bool-cases (task == other)) [
      | inl same ↦ rw same (
          rw found (
            rw
              (subst (λ x. Table.get subscribers_key x hub ≡ some s) ((==_iff task other).0 same)
                found)
              refl))
      | inr apart ↦ rw apart refl
    ]

-- It has none: the listener is its first.
opened :
    (task : String) (l : ℕ) (hub : List Subscribers)
    → Table.get subscribers_key task hub ≡ none
    → (other : String)
    → delivered other (hub ++ record { task_id = task; listeners = l ∷ [] } ∷ [])
      ≡ (if task == other then add_listener l (delivered task hub) else delivered other hub)
unfolding delivered
opened task l hub gone other =
    ap listeners_of (get_append other hub (record { task_id = task; listeners = l ∷ [] }))
    ∙ elim (Bool-cases (task == other)) [
      | inl same ↦
          let there =
            subst (λ x. Table.get subscribers_key x hub ≡ none) ((==_iff task other).0 same) gone in
          rw there (rw gone (rw same refl))
      | inr apart ↦ elim (Option-cases (Table.get subscribers_key other hub)) [
        | inl none_there ↦ rw none_there (rw apart refl)
        | inr (s, there) ↦ rw there (rw apart refl)
      ]
    ]

subscribe_joins :
    (task : String) (l : ℕ) (hub : List Subscribers) (s : Subscribers)
    → Table.get subscribers_key task hub ≡ some s
    → subscribe task l hub
      ≡ ((Table.update_where subscribers_key task (λ _. true) (with_listener l) hub).0, true)
unfolding subscribe
subscribe_joins task l hub s found = rw found refl

subscribe_refused :
    (task : String) (l : ℕ) (hub : List Subscribers)
    → Table.get subscribers_key task hub ≡ none
    → leb max_subscribed_tasks (length hub) ≡ true
    → subscribe task l hub ≡ (hub, false)
unfolding subscribe
subscribe_refused task l hub gone full = rw gone (rw full refl)

subscribe_opens :
    (task : String) (l : ℕ) (hub : List Subscribers)
    → Table.get subscribers_key task hub ≡ none
    → leb max_subscribed_tasks (length hub) ≡ false
    → subscribe task l hub ≡ (hub ++ record { task_id = task; listeners = l ∷ [] } ∷ [], true)
unfolding subscribe
subscribe_opens task l hub gone room = rw gone (rw room refl)

-- A subscription is refused just if the task has no subscriber and five hundred tasks have; then
-- nothing changes. Otherwise an activity of the task reaches the new listener too. The activities
-- of every other task reach whom they reached, and the hub stays within its bound.
pub subscribe_delivers :
    (task : String) (l : ℕ) (hub : List Subscribers)
    → length hub ≤ max_subscribed_tasks
    → let (hub', taken) = subscribe task l hub in
      ((taken ≡ true)
        ⊎ ((max_subscribed_tasks ≤ length hub)
            × (Table.get subscribers_key task hub ≡ none)
            × (hub' ≡ hub)))
      × (length hub' ≤ max_subscribed_tasks)
      × ((other : String)
          → delivered other hub' ≡ (
              if taken
              then (if task == other
                  then add_listener l (delivered task hub)
                  else delivered other hub)
              else delivered other hub))
subscribe_delivers task l hub small = elim (Option-cases (Table.get subscribers_key task hub)) [
  | inr (s, found) ↦ rw (subscribe_joins task l hub s found) (
    inl refl,
    (let h = length-update_where task (λ _. true) (with_listener l) hub in omega (arith, h, small)),
    joined task l hub s found,
  )
  | inl gone ↦ elim (Bool-cases (leb max_subscribed_tasks (length hub))) [
    | inl full ↦
        rw (subscribe_refused task l hub gone full)
          (inr (ground (arith, full), gone, refl), small, λ other. refl)
    | inr room ↦ rw (subscribe_opens task l hub gone room) (
      inl refl,
      (let h = length-append hub (record { task_id = task; listeners = l ∷ [] }) in
          ground (arith, h, room)),
      opened task l hub gone,
    )
  ]
]

abbrev without_listener : ℕ → Subscribers → Subscribers
without_listener l s = record s { listeners = drop_listener l s.listeners }

empty-length : (ls : List ℕ) → (length ls == 0) ≡ true → ls ≡ []
empty-length [] h = refl
empty-length (x ∷ ls) h = ground (arith, h)

left_by_lem :
    (l : ℕ) (o : Option Subscribers)
    → listeners_of (Option.map (without_listener l) o) ≡ drop_listener l (listeners_of o)
left_by_lem l none = refl
left_by_lem l (some s) = refl

left_by-drop_listener :
    (l : ℕ) (o : Option Subscribers) → left_by l o ≡ drop_listener l (listeners_of o)
left_by-drop_listener l none = refl
left_by-drop_listener l (some s) = refl

-- The end of a subscription takes this listener from the activities of its task, and changes the
-- reach of no other activity.
pub unsubscribe_delivers :
    (task : String) (l : ℕ) (hub : List Subscribers) (other : String)
    → delivered other (unsubscribe task l hub)
      ≡ (if task == other then drop_listener l (delivered task hub) else delivered other hub)
unfolding delivered unsubscribe Table.get
unsubscribe_delivers task l hub other =
    let o = Table.get subscribers_key task hub in
    elim (Bool-cases (length (left_by l o) == 0)) [
      | inl last ↦
          rw (last, unsubscribe)
            (ap listeners_of (Table.get-delete subscribers_key task other hub)
              ∙ elim (Bool-cases (task == other)) [
                | inl same ↦
                    rw same
                      (sym (sym (left_by-drop_listener l o) ∙ empty-length (left_by l o) last))
                | inr apart ↦ rw apart refl
              ])
      | inr more ↦
          rw (more, unsubscribe)
            (ap listeners_of (
                Table.get-update_where subscribers_key task other (λ _. true) (without_listener l)
                  hub (λ r. refl))
              ∙ elim (Bool-cases (task == other)) [
                | inl same ↦ rw same (
                    subst
                      (λ x.
                        listeners_of
                          (Option.map (without_listener l) (Table.get subscribers_key x hub))
                        ≡ drop_listener l (listeners_of o))
                      ((==_iff task other).0 same) (left_by_lem l o))
                | inr apart ↦ rw apart refl
              ])
    ]
