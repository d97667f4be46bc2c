-- ===== src/Workflow/RunStore/Versions.antt =====
-- Saves exclude each other by their versions (`save` of repositories/workflow-store.ts).
use infinite_kanban.Prelude.{
  ℕ, ◌+◌, ◌<◌, ◌≡◌, ◌≢◌, ◌⊎◌, refl, sym, ap, ◌∙◌, subst, String, Bool, true, false, Option, none,
  some, List, [], ◌∷◌, ◌++◌, arith, ◌==◌, ==_iff, ==_refl, nat_eq, string_eq, is_some,
  if◌then◌else◌, Bool-cases, Option-cases, inl, inr,
}
use mathlib.Core.Option.{some-injective, none-ne-some}
use infinite_kanban.Store.Table
use infinite_kanban.Workflow.RunStore.{
  BoardWorkflowRun, RunRow, run_key, get_run, versioned, save, write_run,
}

-- The version of a task's row, 0 where there is none.
abbrev pub version_of : Option RunRow → ℕ
version_of none = 0
version_of (some r) = r.version

abbrev pub current_version : String → List RunRow → ℕ
current_version id rows = version_of (Table.get run_key id rows)

-- Every stored row has a version of its document, and not 0.
abbrev pub IsVersioned : List RunRow → Type 0
IsVersioned rows =
    (id : String) (r : RunRow)
    → Table.get run_key id rows ≡ some r
    → (0 < r.version) × (r.document.version ≡ r.version) × (r.document.task_id ≡ r.task_id)

get_append :
    (id : String) (rows : List RunRow) (r : RunRow)
    → Table.get run_key id (rows ++ r ∷ []) ≡ elim (Table.get run_key id rows) [
      | none ↦ if r.task_id == id then some r else none
      | some x ↦ some x
    ]
unfolding Table.get
get_append id [] r = refl
get_append id (x ∷ rows) r = ground (arith, get_append id rows r)

abbrev saved_row : BoardWorkflowRun → ℕ → RunRow
saved_row run expected = record {
  task_id = run.task_id;
  version = expected + 1;
  document = versioned run (expected + 1);
}

abbrev rewritten : BoardWorkflowRun → ℕ → RunRow → RunRow
rewritten run expected r = record r {
  version = expected + 1;
  document = versioned run (expected + 1);
}

-- The table after a save that succeeds reads as before, but for the saved row.
abbrev pub IsSavedIn : BoardWorkflowRun → ℕ → List RunRow → List RunRow → Type 0
IsSavedIn run expected rows rows' =
    (id : String)
    → Table.get run_key id rows'
      ≡ (if run.task_id == id then some (saved_row run expected) else Table.get run_key id rows)

-- Both outcomes of a save, by the version that is there.
abbrev Outcomes : BoardWorkflowRun → ℕ → List RunRow → Type 0
Outcomes run expected rows =
    ((current_version run.task_id rows ≢ expected) × (save run expected rows ≡ none))
    ⊎ ((current_version run.task_id rows ≡ expected)
        × ((rows' : List RunRow) × (save run expected rows
              ≡ some (rows', versioned run (expected + 1)))
            × IsSavedIn run expected rows rows'))

module _ (run : BoardWorkflowRun) (expected : ℕ) (rows : List RunRow) where
  save-none : (write_run run expected rows).1 ≡ false → save run expected rows ≡ none
  unfolding save
  save-none h = rw h refl

  save-some :
      (write_run run expected rows).1 ≡ true
      → save run expected rows
        ≡ some ((write_run run expected rows).0, versioned run (expected + 1))
  unfolding save
  save-some h = rw h refl

  -- No row is there: the first version is inserted.
  saves_first :
      expected ≡ 0 → Table.get run_key run.task_id rows ≡ none → Outcomes run expected rows
  saves_first e gone =
      let w : write_run run expected rows ≡ (rows ++ saved_row run expected ∷ [], true) =
        ground (arith, e, gone) in
      inr (
        rw gone (sym e),
        (
          (write_run run expected rows).0,
          save-some (ap (λ x. x.1) w),
          λ id.
              ap (λ x. Table.get run_key id x.0) w
              ∙ get_append id rows (saved_row run expected)
              ∙ ground (arith, gone, ==_iff run.task_id id),
        ),
      )

  abbrev expects : RunRow → Bool
  expects r = r.version == expected

  written :
      (expected == 0) ≡ false
      → write_run run expected rows
        ≡ Table.update_where run_key run.task_id expects (rewritten run expected) rows
  written later = rw later refl

  written_reads :
      (expected == 0) ≡ false
      → (r : RunRow) → Table.get run_key run.task_id rows ≡ some r
      → r.version ≡ expected
      → IsSavedIn run expected rows (write_run run expected rows).0
  written_reads later r read current id =
      ap (λ x. Table.get run_key id x.0) (written later)
      ∙ Table.get-update_where run_key run.task_id id expects (rewritten run expected) rows
          (λ x. refl)
      ∙ ground (
        arith,
        read,
        ==_iff run.task_id id,
        ==_iff r.version expected,
        Table.get-key run_key run.task_id rows r read,
      )

  -- A version is expected.
  saves_later :
      (expected == 0) ≡ false
      → (o : Option RunRow) → Table.get run_key run.task_id rows ≡ o
      → Outcomes run expected rows
  saves_later later none read = inl (
    λ e. ground (arith, read, e),
    save-none (
        ap (λ x. x.1) (written later)
        ∙ Table.changed-update_where run_key run.task_id expects (rewritten run expected) rows
        ∙ rw read refl),
  )
  saves_later later (some r) read =
      let changed =
        ap (λ x. x.1) (written later)
        ∙ Table.changed-update_where run_key run.task_id expects (rewritten run expected) rows in
      elim (Bool-cases (expects r)) [
        | inl current ↦
            let e = (==_iff r.version expected).0 current in
            inr (
              rw read e,
              (
                (write_run run expected rows).0,
                save-some (changed ∙ rw read current),
                written_reads later r read e,
              ),
            )
        | inr stale ↦ inl (
          λ e. ground (arith, read, e, stale, ==_iff r.version expected),
          save-none (changed ∙ rw read stale),
        )
      ]

  save-Outcomes : IsVersioned rows → Outcomes run expected rows
  save-Outcomes ok = elim (Bool-cases (expected == 0)) [
    | inr later ↦ saves_later later (Table.get run_key run.task_id rows) refl
    | inl first ↦ elim (Option-cases (Table.get run_key run.task_id rows)) [
      | inl gone ↦ saves_first ((==_iff expected 0).0 first) gone
      | inr (r, read) ↦
          let positive = (ok run.task_id r read).0 in
          inl (λ e. ground (arith, read, e, positive, first), save-none (rw first (rw read refl)))
    ]
  ]

suc-ne : (n : ℕ) → (n + 1) ≢ n
suc-ne n h = omega arith

stays-IsVersioned :
    (run : BoardWorkflowRun) (expected : ℕ) (rows rows' : List RunRow)
    → IsVersioned rows
    → IsSavedIn run expected rows rows'
    → IsVersioned rows'
stays-IsVersioned run expected rows rows' ok reads id r found =
    elim (Bool-cases (run.task_id == id)) [
      | inl here ↦
          let e : saved_row run expected ≡ r =
            some-injective _ _ (sym (rw here at (reads id)) ∙ found) in
          rw (sym e) (omega arith, refl, refl)
      | inr elsewhere ↦ ok id r (sym (rw elsewhere at (reads id)) ∙ found)
    ]

version_after :
    (run : BoardWorkflowRun) (expected : ℕ) (rows rows' : List RunRow)
    → IsSavedIn run expected rows rows'
    → current_version run.task_id rows' ≡ expected + 1
version_after run expected rows rows' reads =
    ap version_of (reads run.task_id) ∙ ground (arith, ==_refl run.task_id)

-- In a table whose rows have versions, a save that succeeds gives the run the next version; the
-- task then reads as this run and every other task as before, and the table's rows still have
-- versions. Of the saves of the same task by another holder, one that expects the old version is
-- refused and one that expects the new version succeeds: no update is lost.
pub saves_exclude :
    (run other : BoardWorkflowRun) (expected : ℕ) (rows rows' : List RunRow)
    (run' : BoardWorkflowRun)
    → IsVersioned rows
    → other.task_id ≡ run.task_id
    → save run expected rows ≡ some (rows', run')
    → (run' ≡ versioned run (expected + 1))
      × (get_run run.task_id rows' ≡ some run')
      × ((id : String) → (run.task_id == id) ≡ false → get_run id rows' ≡ get_run id rows)
      × IsVersioned rows'
      × (save other expected rows' ≡ none)
      × (is_some (save other (expected + 1) rows') ≡ true)
unfolding get_run
saves_exclude run other expected rows rows' run' ok same saved =
    elim (save-Outcomes run expected rows ok) [
      | inl (_, refused) ↦ absurd (none-ne-some _ (sym refused ∙ saved))
      | inr (_, (rows₁, done, reads₁)) ↦
          let e = some-injective _ _ (sym done ∙ saved) in
          let named = sym (ap (λ x. x.1) e) in
          let reads : IsSavedIn run expected rows rows' =
            subst (IsSavedIn run expected rows) (ap (λ x. x.0) e) reads₁ in
          let ok' = stays-IsVersioned run expected rows rows' ok reads in
          let now : current_version other.task_id rows' ≡ expected + 1 =
            rw same (version_after run expected rows rows' reads) in
          (
            named,
            rw named (ground (arith, reads run.task_id, ==_refl run.task_id)),
            λ id elsewhere.
                let kept : Table.get run_key id rows' ≡ Table.get run_key id rows =
                  rw elsewhere at (reads id) in
                rw (kept, get_run) refl,
            ok',
            elim (save-Outcomes other expected rows' ok') [
              | inl (_, refused) ↦ refused
              | inr (current, _) ↦ absurd (suc-ne expected (sym now ∙ current))
            ],
            elim (save-Outcomes other (expected + 1) rows' ok') [
              | inl (stale, _) ↦ absurd (stale now)
              | inr (_, (rows₂, again, _)) ↦ rw again refl
            ],
          )
    ]
