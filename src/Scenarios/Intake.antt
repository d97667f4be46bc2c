-- ===== src/Scenarios/Intake.antt =====
-- A task that an external source sends twice, a group with one place left, and a run that two
-- dispatchers claim (repositories/sqlite.ts).
use infinite_kanban.Prelude.{
  arith, none, ℕ, ◌≡◌, ◌≢◌, ◌<◌, ◌⊎◌, refl, false, none, some, [], ◌∷◌, ◌++◌, In, length, is_some,
  ltb, ◌+◌,
}
use infinite_kanban.Board.{claimable_agent_statuses}
use infinite_kanban.Store.Table
use infinite_kanban.Store.Rows.{Db, TaskRow}
use infinite_kanban.Store.Tasks.{
  create_idempotent, create_idempotent_in_group, inserted, existing, refused, fresh, group_children,
  create, violates_unique, get_by_external_identity, claim_run, claim_stale_ms, update_task,
}
use infinite_kanban.Store.Tasks.Identity.{created_once}
use infinite_kanban.Store.Tasks.Places.{takes_next_place, is_inserted}
use infinite_kanban.Store.Tasks.Runs.{claims_exclude}
use infinite_kanban.Store.Enrollment.{EnrollmentCode, consume}
use infinite_kanban.Store.Enrollment.Once.{consumed_once}
use infinite_kanban.Scenarios.Claims.{waiting, db_of}

abbrev issue : TaskRow
issue = record waiting {
  id = "t2";
  external_source = some "github";
  external_key = some "acme/app#7";
  assigned_worker_id = none;
  run_requested_at = none;
}

inserts : (create_idempotent issue (db_of waiting)).1 ≡ inserted issue
unfolding create_idempotent create violates_unique Table.get
inserts = refl

not_refused : (create_idempotent issue (db_of waiting)).1 ≢ refused
unfolding create_idempotent create violates_unique Table.get is_inserted
not_refused h = cc

created_once_example :
    (r : TaskRow) × (get_by_external_identity
        (create_idempotent issue (db_of waiting)).0
        "p"
        "github"
        "acme/app#7"
      ≡ some r)
    × (create_idempotent issue (create_idempotent issue (db_of waiting)).0
        ≡ ((create_idempotent issue (db_of waiting)).0, existing r))
    × ((((create_idempotent issue (db_of waiting)).0 ≡ db_of waiting)
          × ((create_idempotent issue (db_of waiting)).1 ≡ existing r))
        ⊎ (((create_idempotent issue (db_of waiting)).1 ≡ inserted issue) × (r ≡ fresh issue)))
created_once_example =
    created_once issue "github" "acme/app#7" refl refl refl refl (db_of waiting) not_refused

abbrev one_child : Db
one_child = db_of (record waiting { group_id = some "g"; group_order = some 0 })

takes_next_place_example :
    let result = create_idempotent_in_group issue "g" 2 one_child in
    ((result.0 ≡ one_child) × (is_inserted result.1 ≡ false))
    ⊎ ((t : TaskRow) × (result.1 ≡ inserted t)
        × (length (group_children one_child "g") < 2)
        × (group_children result.0 "g" ≡ group_children one_child "g" ++ fresh t ∷ [])
        × ((r : TaskRow) (n : ℕ)
            → In r (group_children one_child "g")
            → r.group_order ≡ some n
            → (k : ℕ) × (t.group_order ≡ some k) × (n < k)))
takes_next_place_example = takes_next_place issue "g" 2 one_child

claims_once :
    (claim_run "t1" 50000 (db_of waiting)).1 ≡ some (record waiting { run_claimed_at = some 50000 })
unfolding claim_run update_task Table.update_where Table.get claimable_agent_statuses
claims_once = refl

claims_exclude_example :
    is_some (claim_run "t1" 60000 (claim_run "t1" 50000 (db_of waiting)).0).1
    ≡ ltb (50000 + claim_stale_ms) 60000
claims_exclude_example =
    claims_exclude "t1" 50000 60000 (db_of waiting) (record waiting { run_claimed_at = some 50000 })
      claims_once

abbrev code : EnrollmentCode
code = record {
  code_hash = "h";
  owner_id = "o";
  project_id = none;
  expires_at = 900;
  created_at = 1;
}

consumes : (consume "h" 10 (code ∷ [])).1 ≡ some (record { owner_id = "o"; project_id = none })
unfolding consume
consumes = refl

consumed_once_example :
    ((c : EnrollmentCode) × In c (code ∷ [])
      × (c.code_hash ≡ "h")
      × (10 < c.expires_at)
      × (c.owner_id ≡ "o"))
    × ((consume "h" 20 (consume "h" 10 (code ∷ [])).0).1 ≡ none)
    × ((c : EnrollmentCode)
        → In c (code ∷ [])
        → c.code_hash ≢ "h"
        → In c (consume "h" 10 (code ∷ [])).0)
consumed_once_example =
    consumed_once "h" 10 20 (code ∷ []) (record { owner_id = "o"; project_id = none }) (omega arith)
      consumes
