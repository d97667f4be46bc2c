-- ===== src/Groups/Queue/Starts.antt =====
-- What a drain of a group's queue starts (services/agent-manager.ts).
use infinite_kanban.Prelude.{
  ℕ, zero, suc, ◌≡◌, ◌⊎◌, ◌≤◌, refl, sym, ap, subst, String, Bool, true, false, Option, none, some,
  List, [], ◌∷◌, arith, string_eq, leb, contains, In, length, inl, inr, Bool-cases, Option-cases,
  all, In-contains, ◌∙◌,
}
use mathlib.Core.Bool.{true≢false}
use mathlib.Core.Option.{some-injective, none-ne-some}
use infinite_kanban.Groups.Queue.{
  QueuedTask, task_named, is_done, GroupQueue, is_ready, kept_before, split_first, next_start,
  started, start_next, drain_group_queue,
}

-- What `splice` takes out, and what it leaves.
abbrev pub IsSplit : (String → Bool) → List String → String → List String → Type 0
IsSplit p xs y rest =
    (p y ≡ true)
    × (length xs ≡ suc (length rest))
    × ((a : String) → In a xs → (a ≡ y) ⊎ In a rest)
    × ((a : String) → In a rest → In a xs)

skip-IsSplit :
    (p : String → Bool) (x : String) (xs : List String) (y : String) (rest : List String)
    (o : Option (String × List String))
    → split_first p xs ≡ o
    → ((z : String) (zs : List String) → split_first p xs ≡ some (z, zs) → IsSplit p xs z zs)
    → kept_before x o ≡ some (y, rest)
    → IsSplit p (x ∷ xs) y rest
skip-IsSplit p x xs y rest none e splits h = absurd (none-ne-some _ h)
skip-IsSplit p x xs y rest (some (z, zs)) e splits h =
    let same = some-injective _ _ h in
    let (passes, size, others, part) = splits z zs e in
    subst (λ (w : String × List String). IsSplit p (x ∷ xs) w.0 w.1) same
      (
        passes,
        ap suc size,
        λ a m. elim m [
          | inl here ↦ inr (inl here)
          | inr k ↦ elim (others a k) [ inl at_z ↦ inl at_z | inr later ↦ inr (inr later) ]
        ],
        λ a m. elim m [ inl here ↦ inl here | inr k ↦ inr (part a k) ],
      )

pub split_first-IsSplit :
    (p : String → Bool) (xs : List String) (y : String) (rest : List String)
    → split_first p xs ≡ some (y, rest)
    → IsSplit p xs y rest
unfolding split_first
split_first-IsSplit p [] y rest h = absurd (none-ne-some _ h)
split_first-IsSplit p (x ∷ xs) y rest h = elim (Bool-cases (p x)) [
  | inl passes ↦
      let same = some-injective (x, xs) (y, rest) (rw passes at h) in
      subst (λ (w : String × List String). IsSplit p (x ∷ xs) w.0 w.1) same
        (passes, refl, λ a m. m, λ a m. inr m)
  | inr fails ↦ skip-IsSplit p x xs y rest _ refl (split_first-IsSplit p xs) (rw fails at h)
]

skip_none : (x : String) (o : Option (String × List String)) → kept_before x o ≡ none → o ≡ none
skip_none x none h = refl
skip_none x (some (y, rest)) h = absurd (none-ne-some _ (sym h))

pub split_first-none :
    (p : String → Bool) (xs : List String)
    → split_first p xs ≡ none
    → (a : String) → In a xs
    → p a ≡ false
unfolding split_first
split_first-none p [] h a m = elim m [ ]
split_first-none p (x ∷ xs) h a m = elim (Bool-cases (p x)) [
  | inl passes ↦ absurd (none-ne-some _ (sym (rw passes at h)))
  | inr fails ↦ elim m [
    | inl e ↦ rw e fails
    | inr k ↦ split_first-none p xs (skip_none x _ (rw fails at h)) a k
  ]
]

-- What a child that is started has met.
abbrev pub IsNext : GroupQueue → String → List String → Type 0
IsNext q id rest =
    (leb q.max_concurrency (length q.running) ≡ false) × IsSplit (is_ready q) q.pending id rest

pub next_start-IsNext :
    (q : GroupQueue) (id : String) (rest : List String)
    → next_start q ≡ some (id, rest)
    → IsNext q id rest
unfolding next_start
next_start-IsNext q id rest h = elim (Bool-cases (leb q.max_concurrency (length q.running))) [
  | inl full ↦ absurd (none-ne-some _ (rw full at h))
  | inr room ↦ (room, split_first-IsSplit (is_ready q) q.pending id rest (rw room at h))
]

-- What every start keeps, a drain keeps.
module _ (P : GroupQueue → Type 0)
    (keeps : (q : GroupQueue) (id : String) (rest : List String)
      → IsNext q id rest
      → P q
      → P (started q id rest)) where
  start_next-keeps : (n : ℕ) (q : GroupQueue) → P q → P (start_next n q)
  unfolding start_next
  start_next-keeps zero q h = h
  start_next-keeps (suc n) q h = elim (Option-cases (next_start q)) [
    | inl gone ↦ rw (gone, start_next) h
    | inr ((id, rest), found) ↦
        rw (found, start_next)
          (start_next-keeps n (started q id rest)
            (keeps q id rest (next_start-IsNext q id rest found) h))
  ]

  pub drain-keeps : (q : GroupQueue) → P q → P (drain_group_queue q)
  unfolding drain_group_queue
  drain-keeps q h = start_next-keeps (length q.pending) q h

empty_list : (xs : List String) → length xs ≤ 0 → xs ≡ []
empty_list [] h = refl
empty_list (x ∷ xs) h = absurd (omega arith)

none_pending : (q : GroupQueue) → q.pending ≡ [] → next_start q ≡ none
unfolding next_start split_first
none_pending q h = elim (Bool-cases (leb q.max_concurrency (length q.running))) [
  | inl full ↦ rw full refl
  | inr room ↦ rw room (ap (split_first (is_ready q)) h)
]

-- A drain goes on until nothing can be started: the fuel is enough.
start_next_stops :
    (n : ℕ) (q : GroupQueue) → length q.pending ≤ n → next_start (start_next n q) ≡ none
unfolding start_next
start_next_stops zero q h = none_pending q (empty_list q.pending h)
start_next_stops (suc n) q h = elim (Option-cases (next_start q)) [
  | inl gone ↦ rw (gone, start_next) gone
  | inr ((id, rest), found) ↦
      let (room, (passes, size, others, part)) = next_start-IsNext q id rest found in
      rw (found, start_next) (start_next_stops n (started q id rest) (ground (arith, size, h)))
]

-- The fuel of one call per pending child is enough.
pub drain_ends : (q : GroupQueue) → next_start (drain_group_queue q) ≡ none
unfolding drain_group_queue
drain_ends q = start_next_stops (length q.pending) q (omega arith)

-- A child that is not ready has a prerequisite that has not completed.
pub missing :
    (known ds : List String)
    → all (λ d. contains known d) ds ≡ false
    → (d : String) × In d ds × (contains known d ≡ false)
missing known [] h = absurd (true≢false h)
missing known (d ∷ ds) h = elim (Bool-cases (contains known d)) [
  | inr gone ↦ (d, inl refl, gone)
  | inl there ↦ let (e, m, gone) = missing known ds (ground arith) in (e, inr m, gone)
]

-- A child that waits for a prerequisite.
abbrev pub IsHeldUp : GroupQueue → String → Type 0
IsHeldUp q a =
    (t : QueuedTask)
    → task_named q a ≡ some t
    → (d : String) × In d t.depends_on × (In d q.completed → ⊥)

not_ready-IsHeldUp : (q : GroupQueue) (a : String) → is_ready q a ≡ false → IsHeldUp q a
unfolding is_ready
not_ready-IsHeldUp q a held t is_t =
    let (d, needs, gone) = missing q.completed t.depends_on (ap (is_done q) (sym is_t) ∙ held) in
    (d, needs, λ m. true≢false (sym (In-contains q.completed d m) ∙ gone))

stop-IsHeldUp :
    (q : GroupQueue)
    → next_start q ≡ none
    → (q.max_concurrency ≤ length q.running) ⊎ ((a : String) → In a q.pending → IsHeldUp q a)
unfolding next_start
stop-IsHeldUp q stops = elim (Bool-cases (leb q.max_concurrency (length q.running))) [
  | inl full ↦ inl (ground (arith, full))
  | inr room ↦ inr (λ a m.
      not_ready-IsHeldUp q a (split_first-none (is_ready q) q.pending (rw room at stops) a m))
]

-- After a drain of any queue at least as many children run as the limit says, or each child that is
-- still pending, where the queue has a task of its id, has a prerequisite that is not among the
-- completed ones.
pub drain_stops :
    (q : GroupQueue)
    → ((drain_group_queue q).max_concurrency ≤ length (drain_group_queue q).running)
      ⊎ ((a : String) → In a (drain_group_queue q).pending → IsHeldUp (drain_group_queue q) a)
drain_stops q = stop-IsHeldUp (drain_group_queue q) (drain_ends q)
