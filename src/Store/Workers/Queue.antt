-- ===== src/Store/Workers/Queue.antt =====
-- The queue of commands for a task (`claimTaskCommands` of repositories/sqlite-workers.ts).
use infinite_kanban.Prelude.{
  ℕ, zero, suc, ◌≤◌, ◌≡◌, ◌≢◌, ◌⊎◌, inl, inr, String, Bool, true, false, not, ◌==◌, ==_iff,
  string_eq, nat_eq, List, [], ◌∷◌, In, length, filter, any, any_sound, any-false, filter_sound,
  filter-complete, Bool-cases, arith,
}
use infinite_kanban.Store.Rows.{Db, TaskCommand}
use infinite_kanban.Store.Workers.{
  insert_command, in_order, take_commands, bounded_limit, claim_task_commands, precedes,
}

-- What SQLite documents of its order of texts: it is asymmetric, and so is what it does not put
-- the other way round transitive.
abbrev pub IsOrder : (String → String → Bool) → Type 0
IsOrder before =
    ((x y : String) → before x y ≡ true → before y x ≡ false)
    × ((x y z : String) → before y x ≡ false → before z y ≡ false → before z x ≡ false)

module _ (before : String → String → Bool) where
  -- Each command comes no later than those that follow it.
  abbrev pub IsOldestFirst : List TaskCommand → Type 0
  IsOldestFirst [] = Unit
  IsOldestFirst (c ∷ rest) =
      ((d : TaskCommand) → In d rest → precedes before d c ≡ false) × IsOldestFirst rest

  In-insert_command :
      (c : TaskCommand) (ds : List TaskCommand) (x : TaskCommand)
      → In x (insert_command before c ds)
      → (x ≡ c) ⊎ In x ds
  unfolding insert_command
  In-insert_command c [] x m = m
  In-insert_command c (d ∷ rest) x m = elim (Bool-cases (precedes before d c)) [
    | inl later ↦ elim (rw later at m) [
      | inl e ↦ inr (inl e)
      | inr k ↦ elim (In-insert_command c rest x k) [ inl e ↦ inl e | inr k' ↦ inr (inr k') ]
    ]
    | inr first ↦ rw first at m
  ]

  insert_command-In :
      (c : TaskCommand) (ds : List TaskCommand) (x : TaskCommand)
      → (x ≡ c) ⊎ In x ds
      → In x (insert_command before c ds)
  unfolding insert_command
  insert_command-In c [] x m = m
  insert_command-In c (d ∷ rest) x m = elim (Bool-cases (precedes before d c)) [
    | inl later ↦ rw later (elim m [
      | inl e ↦ inr (insert_command-In c rest x (inl e))
      | inr k ↦ elim k [ inl e ↦ inl e | inr k' ↦ inr (insert_command-In c rest x (inr k')) ]
    ])
    | inr first ↦ rw first m
  ]

  In-in_order : (cs : List TaskCommand) (x : TaskCommand) → In x (in_order before cs) → In x cs
  unfolding in_order
  In-in_order [] x m = m
  In-in_order (c ∷ rest) x m = elim (In-insert_command c (in_order before rest) x m) [
    | inl e ↦ inl e
    | inr k ↦ inr (In-in_order rest x k)
  ]

  in_order-In : (cs : List TaskCommand) (x : TaskCommand) → In x cs → In x (in_order before cs)
  unfolding in_order
  in_order-In [] x m = m
  in_order-In (c ∷ rest) x m =
      insert_command-In c (in_order before rest) x
        (elim m [ inl e ↦ inl e | inr k ↦ inr (in_order-In rest x k) ])

  precedes_asym :
      IsOrder before
      → (a b : TaskCommand) → precedes before a b ≡ true
      → precedes before b a ≡ false
  precedes_asym order a b h =
      ground (
        arith,
        order.0 a.id b.id,
        ==_iff a.created_at b.created_at,
        ==_iff b.created_at a.created_at,
      )

  precedes_trans :
      IsOrder before
      → (a b c : TaskCommand) → precedes before b a ≡ false
      → precedes before c b ≡ false
      → precedes before c a ≡ false
  precedes_trans order a b c h k = ground (
    arith,
    order.1 a.id b.id c.id,
    ==_iff b.created_at a.created_at,
    ==_iff c.created_at b.created_at,
    ==_iff c.created_at a.created_at,
  )

  insert_command-IsOldestFirst :
      IsOrder before
      → (c : TaskCommand) (ds : List TaskCommand) → IsOldestFirst ds
      → IsOldestFirst (insert_command before c ds)
  unfolding insert_command
  insert_command-IsOldestFirst order c [] h = (λ d m. elim m [ ], h)
  insert_command-IsOldestFirst order c (d ∷ rest) h = elim (Bool-cases (precedes before d c)) [
    | inl later ↦ rw later (
      λ x m. elim (In-insert_command c rest x m) [
        | inl e ↦ rw e (precedes_asym order d c later)
        | inr k ↦ h.0 x k
      ],
      insert_command-IsOldestFirst order c rest h.1,
    )
    | inr first ↦ rw first (
      λ x m. elim m [ inl e ↦ rw e first | inr k ↦ precedes_trans order c d x first (h.0 x k) ],
      h,
    )
  ]

  in_order-IsOldestFirst :
      IsOrder before → (cs : List TaskCommand) → IsOldestFirst (in_order before cs)
  unfolding in_order
  in_order-IsOldestFirst order [] = tt
  in_order-IsOldestFirst order (c ∷ rest) =
      insert_command-IsOldestFirst order c (in_order before rest)
        (in_order-IsOldestFirst order rest)

  In-take_commands :
      (n : ℕ) (cs : List TaskCommand) (x : TaskCommand) → In x (take_commands before n cs) → In x cs
  In-take_commands zero cs x m = elim m [ ]
  In-take_commands (suc n) [] x m = elim m [ ]
  In-take_commands (suc n) (c ∷ cs) x m = elim m [
    | inl e ↦ inl e
    | inr k ↦ inr (In-take_commands n cs x k)
  ]

  length-take_commands : (n : ℕ) (cs : List TaskCommand) → length (take_commands before n cs) ≤ n
  length-take_commands zero cs = omega arith
  length-take_commands (suc n) [] = omega arith
  length-take_commands (suc n) (c ∷ cs) = let h = length-take_commands n cs in omega arith

  -- The taken ones are in order, and nothing that is left precedes one of them.
  take_oldest :
      (n : ℕ) (cs : List TaskCommand)
      → IsOldestFirst cs
      → IsOldestFirst (take_commands before n cs)
        × ((x : TaskCommand)
            → In x cs
            → In x (take_commands before n cs)
              ⊎ ((t : TaskCommand)
                  → In t (take_commands before n cs)
                  → precedes before x t ≡ false))
  take_oldest zero cs h = (tt, λ x m. inr (λ t k. elim k [ ]))
  take_oldest (suc n) [] h = (tt, λ x m. elim m [ ])
  take_oldest (suc n) (c ∷ cs) h =
      let (sorted, oldest) = take_oldest n cs h.1 in
      (
        (λ d m. h.0 d (In-take_commands n cs d m), sorted),
        λ x m. elim m [
          | inl e ↦ inl (inl e)
          | inr k ↦ elim (oldest x k) [
            | inl taken ↦ inl (inr taken)
            | inr after ↦ inr (λ t kt. elim kt [ inl e ↦ rw e (h.0 x k) | inr kt' ↦ after t kt' ])
          ]
        ],
      )

  taken_from : (task : String) (limit : ℕ) (cs : List TaskCommand) → List TaskCommand
  taken_from task limit cs =
      take_commands before (bounded_limit before limit)
        (in_order before (filter (λ c. c.task_id == task) cs))

  taken_from_sound :
      (task : String) (limit : ℕ) (cs : List TaskCommand) (t : TaskCommand)
      → In t (taken_from task limit cs)
      → (t.task_id ≡ task) × In t cs
  unfolding taken_from
  taken_from_sound task limit cs t m =
      let (same, k) =
        filter_sound (λ c. c.task_id == task) cs
          (In-in_order (filter (λ c. c.task_id == task) cs) t (
            In-take_commands (bounded_limit before limit)
              (in_order before (filter (λ c. c.task_id == task) cs)) t m)) in
      ((==_iff t.task_id task).0 same, k)

  -- A claim of commands hands out at most the bounded number of commands, all of them this
  -- task's; it deletes those, so that none of their ids is left to be handed out again, and a
  -- command that is gone shares its id with one that was handed out; no command is made up.
  pub delivers_once :
      (task : String) (limit : ℕ) (db : Db)
      → let (db', taken) = claim_task_commands before task limit db in
        (length taken ≤ bounded_limit before limit)
        × ((t : TaskCommand) → In t taken → (t.task_id ≡ task) × In t db.commands)
        × ((t c : TaskCommand) → In t taken → In c db'.commands → t.id ≢ c.id)
        × ((c : TaskCommand) → In c db'.commands → In c db.commands)
        × ((c : TaskCommand)
            → In c db.commands
            → In c db'.commands ⊎ ((t : TaskCommand) × In t taken × (t.id ≡ c.id)))
  unfolding claim_task_commands taken_from
  delivers_once task limit db =
      let taken = taken_from task limit db.commands in
      let kept : TaskCommand → Bool = λ c. not (any (λ t. t.id == c.id) taken) in
      (
        length-take_commands (bounded_limit before limit)
            (in_order before (filter (λ c. c.task_id == task) db.commands)),
        taken_from_sound task limit db.commands,
        λ t c m left same.
            let gone = (filter_sound kept db.commands left).0 in
            let h = any-false (λ t. t.id == c.id) taken (ground arith) m in
            ground (arith, h, same, ==_iff t.id c.id),
        λ c left. (filter_sound kept db.commands left).1,
        λ c m. elim (Bool-cases (any (λ t. t.id == c.id) taken)) [
          | inl gone ↦
              let (t, k, same) = any_sound (λ t. t.id == c.id) taken gone in
              inr (t, k, (==_iff t.id c.id).0 same)
          | inr stays ↦ inl (filter-complete kept db.commands (ground arith) m)
        ],
      )

  -- Under an order of ids as SQLite documents it, the commands are handed out oldest first, and
  -- no command of the task that is left precedes one that was handed out.
  pub delivers_oldest :
      IsOrder before
      → (task : String) (limit : ℕ) (db : Db)
      → let (db', taken) = claim_task_commands before task limit db in
        IsOldestFirst taken
        × ((c t : TaskCommand)
            → In c db'.commands
            → c.task_id ≡ task
            → In t taken
            → precedes before c t ≡ false)
  unfolding claim_task_commands taken_from
  delivers_oldest order task limit db =
      let mine : TaskCommand → Bool = λ c. c.task_id == task in
      let queue = in_order before (filter mine db.commands) in
      let (sorted, oldest) =
        take_oldest (bounded_limit before limit) queue
          (in_order-IsOldestFirst order (filter mine db.commands)) in
      (
        sorted,
        λ c t left same m.
            let (kept, inside) =
              filter_sound (λ c. not (any (λ t. t.id == c.id) (taken_from task limit db.commands)))
                db.commands left in
            let queued =
              in_order-In (filter mine db.commands) c
                (filter-complete mine db.commands ((==_iff c.task_id task).1 same) inside) in
            elim (oldest c queued) [
              | inl taken ↦
                  let h =
                    any-false (λ t. t.id == c.id) (taken_from task limit db.commands) (ground arith)
                      taken in
                  ground (arith, h, ==_iff c.id c.id)
              | inr after ↦ after t m
            ],
      )
