-- ===== src/Store/Claims/Revoked.antt =====
-- What a revocation leaves behind (`revokeWorkerAssignments` of repositories/sqlite.ts).
use infinite_kanban.Prelude.{
  ℕ, ◌≡◌, ◌≢◌, refl, ap, sym, ◌∙◌, String, Bool, true, false, not, none, some, List, [], ◌∷◌, map,
  arith, In, inl, inr, ◌==◌, ==_iff, string_eq, filter, any, any-false, filter_sound, Bool-cases,
}
use infinite_kanban.Board.{status_eq}
use mathlib.Core.Option
use infinite_kanban.Store.Table
use infinite_kanban.Store.Rows.{Db, TaskRow, TaskSession, TaskCommand}
use infinite_kanban.Store.Tasks.{get_by_id, is_equal, is_equal_refl, is_equal-eq, task_key}
use infinite_kanban.Store.Claims.{revoke_worker_assignments, revoked, revoked_if, was_active}

-- The members of a mapped list.
In-map :
    {A : Type 0} {B : Type 0} (f : A → B) (xs : List A) (y : B)
    → In y (map f xs)
    → (x : A) × In x xs × (y ≡ f x)
In-map f [] y m = elim m [ ]
In-map f (x ∷ xs) y m = elim m [
  | inl e ↦ (x, inl refl, e)
  | inr k ↦ let (x', k', e) = In-map f xs y k in (x', inr k', e)
]

revoked_idle : (at : ℕ) (r : TaskRow) → was_active (revoked at r) ≡ false
revoked_idle at r = ground arith

revoked_freed :
    (worker : String) (at : ℕ) (r : TaskRow)
    → is_equal (revoked_if worker at r).assigned_worker_id worker ≡ false
revoked_freed worker at r = ground arith

-- A revocation leaves no task assigned to the worker. The rows that it returns are unassigned,
-- unclaimed and without a lease, none of them is under way, and neither a session nor a command
-- of theirs is left. A task that was not this worker's reads as before.
pub nothing_left :
    (worker : String) (at : ℕ) (db : Db)
    → let (db', rows) = revoke_worker_assignments worker at db in
      ((r : TaskRow) → In r db'.tasks → r.assigned_worker_id ≢ some worker)
      × ((r : TaskRow)
          → In r rows
          → (r.assigned_worker_id ≡ none)
            × (r.worker_claim_token_hash ≡ none)
            × (r.worker_lease_expires_at ≡ none)
            × (was_active r ≡ false))
      × ((r : TaskRow) (s : TaskSession) → In r rows → In s db'.sessions → r.id ≢ s.task_id)
      × ((r : TaskRow) (c : TaskCommand) → In r rows → In c db'.commands → r.id ≢ c.task_id)
      × ((j : String) (r : TaskRow)
          → get_by_id db j ≡ some r
          → r.assigned_worker_id ≢ some worker
          → get_by_id db' j ≡ some r)
unfolding revoke_worker_assignments get_by_id
nothing_left worker at db =
    let mine : TaskRow → Bool = λ r. is_equal r.assigned_worker_id worker in
    let kept : String → Bool = λ task. not (any (λ r. r.id == task) (filter mine db.tasks)) in
    let gone : (r : TaskRow) (task : String)
        → In r (map (revoked at) (filter mine db.tasks))
        → kept task ≡ true
        → r.id ≢ task =
      λ r task m stays same.
        let (x, k, e) = In-map (revoked at) (filter mine db.tasks) r m in
        let h = any-false (λ r. r.id == task) (filter mine db.tasks) (ground arith) k in
        ground (arith, h, ap (λ (x : TaskRow). x.id) e, same, ==_iff x.id task) in
    (
      λ r m owned.
          let (x, k, e) = In-map (revoked_if worker at) db.tasks r m in
          let still =
            is_equal_refl (revoked_if worker at x).assigned_worker_id worker
              (ap (λ (x : TaskRow). x.assigned_worker_id) (sym e) ∙ owned) in
          ground (arith, still, revoked_freed worker at x),
      λ r m.
          let (x, k, e) = In-map (revoked at) (filter mine db.tasks) r m in
          rw e (refl, refl, refl, revoked_idle at x),
      λ r s m k. gone r s.task_id m (filter_sound (λ s. kept s.task_id) db.sessions k).0,
      λ r c m k. gone r c.task_id m (filter_sound (λ c. kept c.task_id) db.commands k).0,
      λ j r found other.
          Table.get-map task_key j (revoked_if worker at) db.tasks (λ r. ground arith)
          ∙ ap (Option.map (revoked_if worker at)) found
          ∙ ap some (elim (Bool-cases (is_equal r.assigned_worker_id worker)) [
            | inl owned ↦ absurd (other (is_equal-eq _ _ owned))
            | inr free ↦ ground (arith, free)
          ]),
    )
