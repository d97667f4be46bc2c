-- ===== src/Store/Claims/Guard.antt =====
-- A guarded update returns a row exactly if its guard holds of the row that it names.
use infinite_kanban.Prelude.{
  sym, Option-cases, Bool-cases, inl, inr, ◌≡◌, String, Bool, true, false, none, some, arith,
  ==_refl, string_eq, ◌∙◌,
}
use mathlib.Core.Option.{none-ne-some, some-injective}
use infinite_kanban.Store.Table
use infinite_kanban.Store.Rows.{Db, TaskRow}
use infinite_kanban.Store.Tasks.{task_key, get_by_id, update_task}

module _ (id : String) (c : TaskRow → Bool) (f : TaskRow → TaskRow) (db : Db) where
  pub refused_none : get_by_id db id ≡ none → (update_task id c f db).1 ≡ none
  unfolding update_task get_by_id
  refused_none gone = ground (arith, Table.changed-update_where task_key id c f db.tasks)

  module _ (r : TaskRow) (found : get_by_id db id ≡ some r) where
    pub refused : c r ≡ false → (update_task id c f db).1 ≡ none
    unfolding update_task get_by_id
    refused no_go = ground (arith, Table.changed-update_where task_key id c f db.tasks)

    pub accepted :
        ((x : TaskRow) → (f x).id ≡ x.id)
        → c r ≡ true
        → ((update_task id c f db).1 ≡ some (f r))
          × (get_by_id (update_task id c f db).0 id ≡ some (f r))
    unfolding update_task get_by_id
    accepted keep go =
        let read = Table.get-update_where task_key id id c f db.tasks keep in
        ground (arith, Table.changed-update_where task_key id c f db.tasks, read, ==_refl id)

  -- Inversion of a successful update.
  pub update-eq-some :
      (r' : TaskRow)
      → ((x : TaskRow) → (f x).id ≡ x.id)
      → (update_task id c f db).1 ≡ some r'
      → (r : TaskRow) × (get_by_id db id ≡ some r)
        × (c r ≡ true)
        × (r' ≡ f r)
        × (get_by_id (update_task id c f db).0 id ≡ some (f r))
  update-eq-some r' keep h = elim (Option-cases (get_by_id db id)) [
    | inl gone ↦ absurd (none-ne-some _ (sym (refused_none gone) ∙ h))
    | inr (r, found) ↦ elim (Bool-cases (c r)) [
      | inl go ↦
          let (a, b) = accepted r found keep go in (r, found, go, some-injective _ _ (sym h ∙ a), b)
      | inr no_go ↦ absurd (none-ne-some _ (sym (refused r found no_go) ∙ h))
    ]
  ]
