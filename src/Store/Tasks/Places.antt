-- ===== src/Store/Tasks/Places.antt =====
-- The places of a group (`createIdempotentInGroup` of repositories/sqlite.ts).
use infinite_kanban.Prelude.{
  ℕ, ◌<◌, ◌≡◌, ◌⊎◌, inl, inr, refl, sym, ap, ◌∙◌, String, Bool, true, false, some, List, [], ◌∷◌,
  ◌++◌, arith, ==_refl, string_eq, filter, leb, length, Option-cases, Bool-cases, In,
}
use infinite_kanban.Store.Rows.{Db, TaskRow}
use infinite_kanban.Store.Tasks.{
  create, create_idempotent_in_group, Created, inserted, existing, refused, group_full, fresh,
  is_equal, group_children, next_order, known_row, placed,
}
use infinite_kanban.Store.Tasks.Identity.{create_free}

below_next :
    (rs : List TaskRow) (r : TaskRow) (n : ℕ) → In r rs → r.group_order ≡ some n → n < next_order rs
below_next [] r n m e = elim m [ ]
below_next (x ∷ rs) r n m e = elim m [
  | inl same ↦
      let h : x.group_order ≡ some n = ap (λ (r : TaskRow). r.group_order) (sym same) ∙ e in
      rw h (omega arith)
  | inr k ↦ let h = below_next rs r n k e in omega arith
]

filter_append :
    {A : Type 0} (p : A → Bool) (xs : List A) (y : A)
    → p y ≡ true
    → filter p (xs ++ y ∷ []) ≡ filter p xs ++ y ∷ []
filter_append p [] y h = rw h refl
filter_append p (x ∷ xs) y h = ground (arith, filter_append p xs y h)

unfoldable pub is_inserted : Created → Bool
is_inserted (inserted t) = true
is_inserted (existing t) = false
is_inserted group_full = false
is_inserted refused = false

-- The ways through the transaction: either it changes nothing, or it inserts the placed task.
outcomes :
    (task : TaskRow) (group : String) (limit : ℕ) (db : Db)
    → let result = create_idempotent_in_group task group limit db in
      ((result.0 ≡ db) × (is_inserted result.1 ≡ false))
      ⊎ ((length (group_children db group) < limit)
          × (create (placed task group db) db ≡ some result.0)
          × (result.1 ≡ inserted (placed task group db)))
unfolding is_inserted create_idempotent_in_group create
outcomes task group limit db = elim (Option-cases (known_row task db)) [
  | inr (r, known) ↦ rw (known, create_idempotent_in_group) (inl (refl, refl))
  | inl new ↦ elim (Bool-cases (leb limit (length (group_children db group)))) [
    | inl full ↦ rw (new, create_idempotent_in_group) (rw full (inl (refl, refl)))
    | inr room ↦ elim (Option-cases (create (placed task group db) db)) [
      | inl taken ↦ rw (new, create_idempotent_in_group) (rw room (rw taken (inl (refl, refl))))
      | inr (db', made) ↦
          rw (new, create_idempotent_in_group) (rw room (rw made (inr (ground arith, refl, refl))))
    ]
  ]
]

-- A task is inserted into a group only where the group has fewer tasks than the limit; it becomes
-- the last of the tasks of the group, the others stay as they are, and its order is above the
-- order of each of them. Where nothing is inserted the store is unchanged.
pub takes_next_place :
    (task : TaskRow) (group : String) (limit : ℕ) (db : Db)
    → let result = create_idempotent_in_group task group limit db in
      ((result.0 ≡ db) × (is_inserted result.1 ≡ false))
      ⊎ ((t : TaskRow) × (result.1 ≡ inserted t)
          × (length (group_children db group) < limit)
          × (group_children result.0 group ≡ group_children db group ++ fresh t ∷ [])
          × ((r : TaskRow) (n : ℕ)
              → In r (group_children db group)
              → r.group_order ≡ some n
              → (k : ℕ) × (t.group_order ≡ some k) × (n < k)))
takes_next_place task group limit db = elim (outcomes task group limit db) [
  | inl same ↦ inl same
  | inr (room, made, answer) ↦
      let e = (create_free (placed task group db) db _ made).1 in
      inr (
        placed task group db,
        answer,
        room,
        ap (λ x. group_children x group) e
            ∙ filter_append (λ (r : TaskRow). is_equal r.group_id group) db.tasks
                (fresh (placed task group db)) (==_refl group),
        λ r n m order. (
          next_order (group_children db group),
          refl,
          below_next (group_children db group) r n m order,
        ),
      )
]
