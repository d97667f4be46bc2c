-- ===== src/Recovery/Settled.antt =====
-- What the recoveries leave behind.
use infinite_kanban.Prelude.{
  ℕ, ◌≡◌, refl, ap, sym, ◌∙◌, String, Bool, false, true, some, none, List, [], ◌∷◌, arith, ◌==◌,
  ==_iff, string_eq, In, inl, inr, ◌⊎◌, Bool-cases, filter-complete, is_some, Option-cases, subst,
  ◌-◌, filter, ◌<◌, ==_refl,
}
use mathlib.Core.Option
use mathlib.Core.Option.{some-injective, none-ne-some}
use mathlib.Core.Bool.{false≢true}
use infinite_kanban.Board.{
  worker_stale_after_ms, planning, executing, awaiting_clarification, failed, column_eq,
}
use infinite_kanban.Store.Table
use infinite_kanban.Store.Rows.{Db, TaskRow, WorkerRow}
use infinite_kanban.Store.Tasks.{get_by_id, update, apply_patch, task_key}
use infinite_kanban.Store.Claims.{
  is_expired, is_abandoned, get_expired_worker_tasks, get_assigned_worker_tasks,
}
use infinite_kanban.Store.Claims.Row.{on, set_named}
use infinite_kanban.Store.Workers.{mark_offline, clear_task_sessions, clear_task_commands}
use infinite_kanban.Recovery.{
  stranded_patch, fail_stranded_worker_task, fail_all, fail_tasks_of, worker_sweep,
}

-- What a read finds after one task was failed.
get-fail :
    (now : ℕ) (task : TaskRow) (db : Db) (j : String)
    → get_by_id (fail_stranded_worker_task now task db) j
      ≡ Option.map (on task.id (apply_patch (stranded_patch task now))) (get_by_id db j)
unfolding fail_stranded_worker_task
get-fail now task db j =
    elim (Bool-cases (is_some (update task.id (stranded_patch task now) db).1)) [
      | inl was ↦ rw was (
          unfold clear_task_commands clear_task_sessions update get_by_id in
          set_named (λ s. s) db task.id j _ (λ r. unfold apply_patch in refl))
      | inr gone ↦
          rw gone
            (unfold update in set_named (λ s. s) db task.id j _ (λ r. unfold apply_patch in refl))
    ]

-- A failed task is neither expired nor abandoned.
fails :
    (now : ℕ) (task r : TaskRow) → (apply_patch (stranded_patch task now) r).agent_status ≡ failed
unfolding apply_patch
fails now task r = refl

failed-not-expired : (now : ℕ) (r : TaskRow) → r.agent_status ≡ failed → is_expired now r ≡ false
failed-not-expired now r h = ground arith

failed-not-abandoned :
    (ws : List String) (r : TaskRow) → r.agent_status ≡ failed → is_abandoned ws r ≡ false
failed-not-abandoned ws r h = ground arith

-- A test on rows that no failed row passes.
module _ (p : TaskRow → Bool) (spares : (r : TaskRow) → r.agent_status ≡ failed → p r ≡ false) where
  -- After its task was failed, or if it did not pass the test before, a row does not pass it.
  abbrev Spared : Db → String → Type 0
  Spared db id = (r : TaskRow) → get_by_id db id ≡ some r → p r ≡ false

  row_after :
      (now : ℕ) (task : TaskRow) (db : Db) (id : String) (r' : TaskRow)
      → get_by_id (fail_stranded_worker_task now task db) id ≡ some r'
      → (r : TaskRow) × (get_by_id db id ≡ some r)
        × (r' ≡ on task.id (apply_patch (stranded_patch task now)) r)
  row_after now task db id r' h = elim (Option-cases (get_by_id db id)) [
    | inl gone ↦
        absurd (none-ne-some _ (sym (get-fail now task db id ∙ ap (Option.map _) gone) ∙ h))
    | inr (r, found) ↦
        (r, found, some-injective _ _ (sym h ∙ get-fail now task db id ∙ ap (Option.map _) found))
  ]

  spared_row :
      (now : ℕ) (task r r' : TaskRow)
      → r' ≡ on task.id (apply_patch (stranded_patch task now)) r
      → (task.id ≡ r.id) ⊎ (p r ≡ false)
      → p r' ≡ false
  spared_row now task r r' e why = elim (Bool-cases (task.id == r.id)) [
    | inl same ↦
        subst (λ x. p x ≡ false) (sym (e ∙ rw same))
          (spares (apply_patch (stranded_patch task now) r) (fails now task r))
    | inr other ↦ elim why [
      | inl same ↦ absurd (false≢true (sym other ∙ (==_iff task.id r.id).1 same))
      | inr fine ↦ subst (λ x. p x ≡ false) (sym (e ∙ rw other)) fine
    ]
  ]

  Spared-step :
      (now : ℕ) (task : TaskRow) (db : Db) (id : String)
      → Spared db id
      → Spared (fail_stranded_worker_task now task db) id
  Spared-step now task db id fine r' h =
      let (r, found, e) = row_after now task db id r' h in
      spared_row now task r r' e (inr (fine r found))

  Spared-now :
      (now : ℕ) (task : TaskRow) (db : Db) (id : String)
      → task.id ≡ id
      → Spared (fail_stranded_worker_task now task db) id
  Spared-now now task db id same r' h =
      let (r, found, e) = row_after now task db id r' h in
      spared_row now task r r' e
        (inl (same ∙ sym (unfold get_by_id in Table.get-key task_key id db.tasks r found)))

  Spared-all :
      (now : ℕ) (ts : List TaskRow) (db : Db) (id : String)
      → Spared db id
      → Spared (fail_all now ts db) id
  unfolding fail_all
  Spared-all now [] db id fine = fine
  Spared-all now (t ∷ ts) db id fine =
      Spared-all now ts (fail_stranded_worker_task now t db) id (Spared-step now t db id fine)

  Spared-In :
      (now : ℕ) (ts : List TaskRow) (db : Db) (id : String) (t : TaskRow)
      → In t ts
      → t.id ≡ id
      → Spared (fail_all now ts db) id
  unfolding fail_all
  Spared-In now [] db id t m same = elim m [ ]
  Spared-In now (x ∷ ts) db id t m same = elim m [
    | inl e ↦
        Spared-all now ts (fail_stranded_worker_task now x db) id
          (Spared-now now x db id (ap (λ (y : TaskRow). y.id) (sym e) ∙ same))
    | inr k ↦ Spared-In now ts (fail_stranded_worker_task now x db) id t k same
  ]

  -- When every row that passes the test is failed, no row that a read finds passes it.
  all-Spared : (now : ℕ) (db : Db) (id : String) → Spared (fail_all now (filter p db.tasks) db) id
  all-Spared now db id = elim (Option-cases (get_by_id db id)) [
    | inl gone ↦
        Spared-all now (filter p db.tasks) db id
          (λ r found. absurd (none-ne-some _ (sym gone ∙ found)))
    | inr (r, found) ↦ elim (Bool-cases (p r)) [
      | inl hit ↦
          Spared-In now (filter p db.tasks) db id r
            (filter-complete p db.tasks hit
              (unfold get_by_id in Table.get-In task_key id db.tasks r found))
            (unfold get_by_id in Table.get-key task_key id db.tasks r found)
      | inr miss ↦
          Spared-all now (filter p db.tasks) db id
            (λ r' found'. ap p (some-injective _ _ (sym found' ∙ found)) ∙ miss)
    ]
  ]

abbrev IsAtWork : TaskRow → Type 0
IsAtWork r = (r.agent_status ≡ planning) ⊎ (r.agent_status ≡ executing)

-- A task that waits for an answer to no question.
abbrev IsUnasked : TaskRow → Type 0
IsUnasked r = (r.agent_status ≡ awaiting_clarification) × (r.clarification_request ≡ none)

-- A task of a worker that can make no progress: at work under a lease that has run out, or unasked.
abbrev pub IsStranded : ℕ → TaskRow → Type 0
IsStranded now r =
    ((w : String) × (r.assigned_worker_id ≡ some w))
    × (((lease : ℕ) × (r.worker_lease_expires_at ≡ some lease) × (lease < now) × IsAtWork r)
        ⊎ IsUnasked r)

-- A task that a worker has left: at work under a claim, or unasked.
abbrev pub IsLeft : String → TaskRow → Type 0
IsLeft w r =
    (r.assigned_worker_id ≡ some w)
    × (((token : String) × (r.worker_claim_token_hash ≡ some token) × IsAtWork r) ⊎ IsUnasked r)

stranded-expired : (now : ℕ) (r : TaskRow) → IsStranded now r → is_expired now r ≡ true
stranded-expired now r ((w, owned), inl (lease, leased, past, at_work)) =
    rw (owned, leased) (ground (arith, past, at_work))
stranded-expired now r ((w, owned), inr (asks, nothing)) = rw (owned, asks, nothing) (ground arith)

left-abandoned : (w : String) (r : TaskRow) → IsLeft w r → is_abandoned (w ∷ []) r ≡ true
left-abandoned w r (mine, inl (token, claimed, at_work)) =
    rw (mine, claimed, ==_refl w) (ground (arith, at_work))
left-abandoned w r (mine, inr (asks, nothing)) = rw (mine, asks, nothing, ==_refl w) (ground arith)

module _ (now : ℕ) (id : String) where
  Spared-of_rest :
      (ws : List WorkerRow) (w : String) (db : Db)
      → Spared (is_abandoned (w ∷ [])) (failed-not-abandoned (w ∷ [])) db id
      → Spared (is_abandoned (w ∷ [])) (failed-not-abandoned (w ∷ [])) (fail_tasks_of now ws db) id
  unfolding fail_tasks_of
  Spared-of_rest [] w db fine = fine
  Spared-of_rest (x ∷ ws) w db fine =
      Spared-of_rest ws w (fail_all now (get_assigned_worker_tasks (x.id ∷ []) db) db) (
        Spared-all (is_abandoned (w ∷ [])) (failed-not-abandoned (w ∷ [])) now
          (get_assigned_worker_tasks (x.id ∷ []) db) db id fine)

  Spared-of :
      (ws : List WorkerRow) (w : WorkerRow) (db : Db)
      → In w ws
      → Spared
          (is_abandoned (w.id ∷ []))
          (failed-not-abandoned (w.id ∷ []))
          (fail_tasks_of now ws db)
          id
  unfolding fail_tasks_of get_assigned_worker_tasks
  Spared-of [] w db m = elim m [ ]
  Spared-of (x ∷ ws) w db m = elim m [
    | inl e ↦
        Spared-of_rest ws w.id (fail_all now (get_assigned_worker_tasks (x.id ∷ []) db) db) (
          rw e (all-Spared (is_abandoned (x.id ∷ [])) (failed-not-abandoned (x.id ∷ [])) now db id))
    | inr k ↦ Spared-of ws w (fail_all now (get_assigned_worker_tasks (x.id ∷ []) db) db) k
  ]

  -- After the worker sweep no task that is assigned to a worker is left planning or executing under
  -- a lease that has run out, or waiting for a clarification without a question; and no task of a
  -- worker that this sweep found gone is left planning or executing under a claim, or waiting for a
  -- clarification without a question.
  pub worker_sweep_settles :
      (db : Db) (r : TaskRow)
      → get_by_id (worker_sweep now db) id ≡ some r
      → (IsStranded now r → ⊥)
        × ((w : WorkerRow)
            → In w (mark_offline (now - worker_stale_after_ms) now db).1
            → IsLeft w.id r
            → ⊥)
  unfolding worker_sweep get_expired_worker_tasks
  worker_sweep_settles db r h =
      let (db₁, gone) = mark_offline (now - worker_stale_after_ms) now db in
      let db₂ = fail_tasks_of now gone db₁ in
      (
        λ stranded. false≢true (
            sym (all-Spared (is_expired now) (failed-not-expired now) now db₂ id r h)
            ∙ stranded-expired now r stranded),
        λ w m left. false≢true (
            sym (
              Spared-all (is_abandoned (w.id ∷ [])) (failed-not-abandoned (w.id ∷ [])) now
                (get_expired_worker_tasks now db₂) db₂ id (Spared-of gone w db₁ m) r h)
            ∙ left-abandoned w.id r left),
      )
