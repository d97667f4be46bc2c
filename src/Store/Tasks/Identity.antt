-- ===== src/Store/Tasks/Identity.antt =====
-- The external identity of tasks that the intake creates (`createIdempotent` of
-- repositories/sqlite.ts).
use mathlib.Core.Option.{none-ne-some, some-injective}
use infinite_kanban.Prelude.{
  ◌≡◌, ◌≢◌, ◌⊎◌, inl, inr, refl, sym, ◌∙◌, String, Bool, true, false, none, some, List, [], ◌∷◌,
  ◌++◌, arith, ◌==◌, ==_iff, ==_refl, string_eq, find, any, is_some, ◌&&◌, Option-cases, Bool-cases,
}
use infinite_kanban.Store.Table
use infinite_kanban.Store.Rows.{Db, TaskRow}
use infinite_kanban.Store.Tasks.{
  create, create_idempotent, inserted, existing, refused, recall, fresh, has_identity,
  violates_unique, get_by_external_identity, is_equal, task_key,
}

module _ {A : Type 0} (p : A → Bool) where
  find_append :
      (xs : List A) (y : A) → any p xs ≡ false → p y ≡ true → find p (xs ++ y ∷ []) ≡ some y
  find_append [] y h k = ground (arith, k)
  find_append (x ∷ xs) y h k = ground (arith, find_append xs y, h, k)

abbrev identified : String → String → String → TaskRow → Bool
identified project source key r =
    r.project_id == project && (is_equal r.external_source source && is_equal r.external_key key)

get_append :
    (xs : List TaskRow) (y : TaskRow) → is_some (Table.get task_key y.id (xs ++ y ∷ [])) ≡ true
unfolding Table.get
get_append [] y = ground (arith, ==_refl y.id)
get_append (x ∷ xs) y = ground (arith, get_append xs y)

pub create_free :
    (task : TaskRow) (db db' : Db)
    → create task db ≡ some db'
    → (violates_unique task db ≡ false) × (db' ≡ record db { tasks = db.tasks ++ fresh task ∷ [] })
unfolding create
create_free task db db' h = elim (Bool-cases (violates_unique task db)) [
  | inl taken ↦ absurd (none-ne-some db' (rw taken at h))
  | inr free ↦ (free, sym (some-injective _ _ (rw free at h)))
]

create_taken : (task : TaskRow) (db : Db) → violates_unique task db ≡ true → create task db ≡ none
unfolding create
create_taken task db taken = rw taken refl

-- A task that carries this identity.
module _ (task : TaskRow) (source key : String) (has_source : task.external_source ≡ some source)
    (has_key : task.external_key ≡ some key) where
  same_identity : (r : TaskRow) → has_identity task r ≡ identified task.project_id source key r
  same_identity r = ground (
    arith,
    has_source,
    has_key,
    ==_iff task.project_id r.project_id,
    ==_iff r.project_id task.project_id,
  )

  any_identity :
      (rs : List TaskRow)
      → any (has_identity task) rs ≡ any (identified task.project_id source key) rs
  any_identity [] = refl
  any_identity (r ∷ rs) = ground (arith, any_identity rs, same_identity r)

  fresh-identified : identified task.project_id source key (fresh task) ≡ true
  fresh-identified =
      ground (arith, has_source, has_key, ==_refl task.project_id, ==_refl source, ==_refl key)

  -- After a creation that succeeds, the row is the one of its identity, and its key is taken.
  create-eq-some :
      (db db' : Db)
      → create task db ≡ some db'
      → (get_by_external_identity db' task.project_id source key ≡ some (fresh task))
        × (create task db' ≡ none)
  unfolding violates_unique get_by_external_identity
  create-eq-some db db' h =
      let (free, e) = create_free task db db' h in
      rw e (
        find_append (identified task.project_id source key) db.tasks (fresh task)
            (sym (any_identity db.tasks) ∙ ground (arith, free)) fresh-identified,
        create_taken task (record db { tasks = db.tasks ++ fresh task ∷ [] })
            (ground (arith, get_append db.tasks (fresh task))),
      )

  created_free :
      (db db' : Db) → create task db ≡ some db' → create_idempotent task db ≡ (db', inserted task)
  unfolding create_idempotent
  created_free db db' made = rw (made, create_idempotent) refl

  created_taken :
      (source == "") ≡ false
      → (key == "") ≡ false
      → (db : Db) → create task db ≡ none
      → create_idempotent task db
        ≡ (db, recall (get_by_external_identity db task.project_id source key))
  unfolding create_idempotent
  created_taken some_source some_key db taken =
      rw (taken, create_idempotent) (rw has_source (rw has_key (rw some_source (rw some_key refl))))

  -- A task that carries an external identity, with both of its texts non-empty, is created once:
  -- unless the first call is refused, the store then has one row for this identity, a second call
  -- answers that row and changes nothing, and the first call either answered the same row and
  -- changed nothing or inserted the task.
  pub created_once :
      (source == "") ≡ false
      → (key == "") ≡ false
      → (db : Db) → (create_idempotent task db).1 ≢ refused
      → (r : TaskRow) × (get_by_external_identity
            (create_idempotent task db).0
            task.project_id
            source
            key
          ≡ some r)
        × (create_idempotent task (create_idempotent task db).0
            ≡ ((create_idempotent task db).0, existing r))
        × ((((create_idempotent task db).0 ≡ db) × ((create_idempotent task db).1 ≡ existing r))
            ⊎ (((create_idempotent task db).1 ≡ inserted task) × (r ≡ fresh task)))
  created_once some_source some_key db ok = elim (Option-cases (create task db)) [
    | inl taken ↦
        let first = created_taken some_source some_key db taken in
        elim (Option-cases (get_by_external_identity db task.project_id source key)) [
          | inl unknown ↦ absurd (ok (rw first (rw unknown (unfold recall in refl))))
          | inr (r, known) ↦
              let again = first ∙ rw known (unfold recall in refl) in
              rw again (r, known, again, inl (refl, refl))
        ]
    | inr (db', made) ↦
        let (known, taken) = create-eq-some db db' made in
        rw (created_free db db' made) (
          fresh task,
          known,
          created_taken some_source some_key db' taken ∙ rw known (unfold recall in refl),
          inr (refl, refl),
        )
  ]
