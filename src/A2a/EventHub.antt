-- ===== src/A2a/EventHub.antt =====
-- packages/server/src/a2a/event-hub.ts: the subscribers of each task, by the identity of a
-- listener. What a listener does when it is called is not modelled.
pub mod Delivery
use infinite_kanban.Prelude.{
  ℕ, String, Bool, true, false, not, Option, none, some, List, [], ◌∷◌, ◌++◌, ◌==◌, nat_eq,
  string_eq, leb, length, contains, filter, if◌then◌else◌, is_some,
}
use infinite_kanban.Store.Table

pub record Subscribers : Type 0 where
  pub task_id : String
  pub listeners : List ℕ

abbrev pub max_subscribed_tasks : ℕ
max_subscribed_tasks = 500

abbrev pub subscribers_key : Subscribers → String
subscribers_key s = s.task_id

abbrev pub add_listener : ℕ → List ℕ → List ℕ
add_listener l ls = if contains ls l then ls else ls ++ l ∷ []

-- The hub, and whether the subscription was taken.
unfoldable pub subscribe : String → ℕ → List Subscribers → List Subscribers × Bool
subscribe task l hub =
    if is_some (Table.get subscribers_key task hub)
    then (
      (Table.update_where subscribers_key task (λ _. true)
          (λ s. record s { listeners = add_listener l s.listeners }) hub).0,
      true,
    )
    else if leb max_subscribed_tasks (length hub)
    then (hub, false)
    else (hub ++ record { task_id = task; listeners = l ∷ [] } ∷ [], true)

abbrev pub drop_listener : ℕ → List ℕ → List ℕ
drop_listener l ls = filter (λ k. not (k == l)) ls

abbrev pub left_by : ℕ → Option Subscribers → List ℕ
left_by l none = []
left_by l (some s) = drop_listener l s.listeners

-- The function that `subscribe` returns, of a subscription that was taken.
unfoldable pub unsubscribe : String → ℕ → List Subscribers → List Subscribers
unsubscribe task l hub =
    if length (left_by l (Table.get subscribers_key task hub)) == 0
    then Table.delete subscribers_key task hub
    else (Table.update_where subscribers_key task (λ _. true)
        (λ s. record s { listeners = drop_listener l s.listeners }) hub).0

-- The listeners that `publish` calls, in order; one that throws stops none of the others.
abbrev pub listeners_of : Option Subscribers → List ℕ
listeners_of none = []
listeners_of (some s) = s.listeners

unfoldable pub delivered : String → List Subscribers → List ℕ
delivered task hub = listeners_of (Table.get subscribers_key task hub)
