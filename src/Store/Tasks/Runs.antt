-- ===== src/Store/Tasks/Runs.antt =====
-- The claim of a requested run by a dispatcher (`claimRun` of repositories/sqlite.ts).
use infinite_kanban.Prelude.{
  ℕ, ◌+◌, ◌≡◌, refl, sym, ap, ◌∙◌, String, true, some, arith, Bool-cases, inl, inr, is_some, ltb,
}
use infinite_kanban.Board.{status_eq}
use infinite_kanban.Store.Rows.{Db, TaskRow}
use infinite_kanban.Store.Tasks.{claim_run, is_startable, claim_stale_ms}
use infinite_kanban.Store.Claims.Guard.{update-eq-some, accepted, refused}

abbrev started : ℕ → TaskRow → TaskRow
started at r = record r { run_claimed_at = some at }

startable_again :
    (at later : ℕ) (r : TaskRow)
    → is_startable at r ≡ true
    → is_startable later (started at r) ≡ ltb (at + claim_stale_ms) later
startable_again at later r h = ground arith

-- After a claim of a run has succeeded, another one at any reading of the clock succeeds just if
-- that is more than thirty seconds after the first one.
pub claims_exclude :
    (id : String) (at later : ℕ) (db : Db) (r : TaskRow)
    → (claim_run id at db).1 ≡ some r
    → is_some (claim_run id later (claim_run id at db).0).1 ≡ ltb (at + claim_stale_ms) later
unfolding claim_run
claims_exclude id at later db r h =
    let (r₀, found, go, e, read) =
      update-eq-some id (is_startable at) (started at) db r (λ x. refl) h in
    let db₁ = (claim_run id at db).0 in
    let again = startable_again at later r₀ go in
    elim (Bool-cases (is_startable later (started at r₀))) [
      | inl free ↦
          ap is_some
            (accepted id (is_startable later) (started later) db₁ (started at r₀) read (λ x. refl)
              free).0
          ∙ sym free
          ∙ again
      | inr held ↦
          ap is_some (refused id (is_startable later) (started later) db₁ (started at r₀) read held)
          ∙ sym held
          ∙ again
    ]
