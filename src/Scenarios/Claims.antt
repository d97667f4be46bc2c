-- ===== src/Scenarios/Claims.antt =====
-- One task and its worker (repositories/sqlite.ts).
use infinite_kanban.Prelude.{
  ◌≡◌, ◌≤◌, ◌+◌, ◌↔◌, refl, String, true, false, Option, none, some, List, [], ◌∷◌, ◌++◌,
}
use infinite_kanban.Board.{
  idle, in_progress, low, opencode, planning, failed, queued, review, pending,
  awaiting_clarification, complete as complete_status,
}
use infinite_kanban.Store.Table
use infinite_kanban.Store.Rows.{Db, TaskRow, TaskDetails, ClarificationRequest}
use infinite_kanban.Store.Tasks.{
  get_by_id, no_patch, update_task, request_run, update, apply_patch, set_task,
}
use infinite_kanban.Store.Claims.{
  claim_worker_task, is_worker_claim_valid, holds_claim, complete_worker_task, renew_worker_lease,
  assign_to_worker, park_worker_task_for_clarification, success,
}
use infinite_kanban.Store.Claims.Row.{Op, patch, request, complete, claim, renew, run}
use infinite_kanban.Store.Claims.Release.{was_released, claim_needs_release, lapsed_stays_claimed}
use infinite_kanban.Store.Claims.Grant.{claim_grants}
use infinite_kanban.Store.Claims.Rerun.{CannotStart, no_rerun_after_completion, no_rerun_after_park}

abbrev pub details : TaskDetails
details = record {
  title = "Fix it";
  description = "";
  priority = low;
  repo_path = none;
  branch_name = none;
  base_branch = none;
  use_worktree = none;
  worktree_path = none;
  timeout_minutes = none;
  agent_preference = none;
}

abbrev pub waiting : TaskRow
waiting = record {
  id = "t1";
  project_id = "p";
  details = details;
  column_id = in_progress;
  agent_status = idle;
  agent_type = opencode;
  created_at = 1;
  started_at = none;
  completed_at = none;
  archived = false;
  group_id = none;
  group_order = none;
  summary = none;
  external_source = none;
  external_key = none;
  run_requested_at = some 5;
  run_claimed_at = none;
  clarification_request = none;
  clarification_answer = none;
  assigned_worker_id = some "w1";
  worker_claim_token_hash = none;
  worker_claimed_at = none;
  worker_lease_expires_at = none;
  worker_attempt = 0;
  labels = [];
}

abbrev pub held : TaskRow
held = record waiting {
  agent_status = planning;
  worker_claim_token_hash = some "k1";
  worker_claimed_at = some 10;
  worker_lease_expires_at = some 60010;
  worker_attempt = 1;
}

abbrev pub db_of : TaskRow → Db
db_of r = record {
  tasks = r ∷ [];
  workers = [];
  projects = [];
  sessions = [];
  commands = [];
  events = [];
}

abbrev same_text : String → String
same_text s = s

-- The task after w1 claimed it at 10, for a minute, with the token k1.
abbrev held_now : TaskRow
held_now = record held { started_at = some 10 }

abbrev claimed_db : Db
claimed_db = db_of held_now

claims_it : (claim_worker_task same_text "t1" "w1" "k1" 10 60000 (db_of waiting)).1 ≡ some held_now
unfolding claim_worker_task update_task Table.update_where Table.get
claims_it = refl

claim_grants_example :
    let db' = (claim_worker_task same_text "t1" "w1" "k1" 10 60000 (db_of waiting)).0 in
    ((is_worker_claim_valid "t1" "w1" "k1" 60010 db' ≡ true)
      ↔ (◌≡◌ {A = String} "w1" "w1" × ◌≡◌ {A = String} "k1" "k1" × (60010 ≤ 10 + 60000)))
    × (held_now.agent_status ≡ planning)
    × (held_now.assigned_worker_id ≡ some "w1")
    × ((r : TaskRow) × (get_by_id (db_of waiting) "t1" ≡ some r)
        × (held_now.worker_attempt ≡ r.worker_attempt + 1))
claim_grants_example =
    claim_grants same_text "t1" "w1" "k1" "w1" "k1" 10 60000 60010 (db_of waiting) held_now
      claims_it

-- The holder completes the task, the user asks for another run, and the worker claims it again.
abbrev again : List Op
again =
    complete "t1" "w1" "k1" success 50 (some "ok") none
    ∷ request "t1" 60
    ∷ patch "t1" (record no_patch { agent_status = some idle })
    ∷ []

abbrev held_again : TaskRow
held_again = record held_now {
  column_id = review;
  completed_at = some 50;
  summary = some "ok";
  run_requested_at = some 60;
  worker_claim_token_hash = some "k2";
  worker_claimed_at = some 70;
  worker_lease_expires_at = some 60070;
  worker_attempt = 2;
}

claims_again :
    (claim_worker_task same_text "t1" "w1" "k2" 70 60000 (run same_text again claimed_db)).1
    ≡ some held_again
unfolding claim_worker_task update_task run complete_worker_task request_run update apply_patch
    set_task holds_claim Table.update_where Table.get
claims_again = refl

reads_held : get_by_id claimed_db "t1" ≡ some held_now
unfolding get_by_id Table.get
reads_held = refl

claim_needs_release_example : was_released same_text "t1" again claimed_db ≡ true
claim_needs_release_example =
    claim_needs_release same_text "t1" "w1" "k2" 70 60000 again claimed_db held_now held_again "k1"
      reads_held refl claims_again

-- The lease runs out, the sweep fails the task, and the user runs it again: no claim succeeds.
abbrev after_sweep : List Op
after_sweep =
    patch "t1" (record no_patch {
      agent_status = some failed;
      run_requested_at = some none;
      run_claimed_at = some none;
    })
    ∷ request "t1" 100000
    ∷ patch "t1" (record no_patch { agent_status = some queued })
    ∷ renew "t1" "w1" "k1" 100001 60000
    ∷ []

lapsed_stays_claimed_example :
    (claim_worker_task same_text "t1" "w1" "k3" 200000 60000
      (run same_text after_sweep claimed_db)).1
    ≡ none
lapsed_stays_claimed_example =
    lapsed_stays_claimed same_text "t1" "w1" "k3" 200000 60000 after_sweep claimed_db held_now "k1"
      60010 reads_held refl refl refl

abbrev finished : TaskRow
finished = record held_now {
  agent_status = complete_status;
  column_id = review;
  completed_at = some 50;
  summary = some "ok";
  run_requested_at = none;
  worker_claim_token_hash = none;
  worker_lease_expires_at = none;
}

completes :
    (complete_worker_task "t1" "w1" "k1" success 50 (some "ok") none claimed_db).1 ≡ some finished
unfolding complete_worker_task update_task holds_claim Table.update_where Table.get
completes = refl

-- Dragging the card to In Progress makes the task idle.
abbrev dragged : List Op
dragged =
    patch "t1" (record no_patch { agent_status = some idle; column_id = some in_progress }) ∷ []

no_rerun_after_completion_example : CannotStart same_text "t1" (
    run same_text dragged
      (complete_worker_task "t1" "w1" "k1" success 50 (some "ok") none claimed_db).0)
no_rerun_after_completion_example =
    no_rerun_after_completion same_text "t1" "w1" "k1" success 50 (some "ok") none dragged
      claimed_db finished completes refl

abbrev question : ClarificationRequest
question = record {
  request_id = "q1";
  prompt = "Which?";
  choices = none;
  timestamp = 40;
  session_id = "s1";
}

abbrev asking : TaskRow
asking = record held_now {
  agent_status = awaiting_clarification;
  column_id = pending;
  clarification_request = some question;
  run_requested_at = none;
  worker_claim_token_hash = none;
  worker_lease_expires_at = none;
}

parks : (park_worker_task_for_clarification "t1" "w1" "k1" 50 question claimed_db).1 ≡ some asking
unfolding park_worker_task_for_clarification update_task holds_claim Table.update_where Table.get
parks = refl

no_rerun_after_park_example : CannotStart same_text "t1" (
    run same_text dragged
      (park_worker_task_for_clarification "t1" "w1" "k1" 50 question claimed_db).0)
no_rerun_after_park_example =
    no_rerun_after_park same_text "t1" "w1" "k1" 50 question dragged claimed_db asking parks refl

abbrev worker_and_claim : Option TaskRow → Option (Option String × Option String)
worker_and_claim none = none
worker_and_claim (some r) = some (r.assigned_worker_id, r.worker_claim_token_hash)

-- After the sweep has failed the task, the user takes its worker off: the claim stays, and so
-- `assignToWorker` refuses the task.
abbrev unassigned : List Op
unassigned =
    claim "t1" "w1" "k1" 10 60000 ∷ after_sweep
    ++ patch "t1" (record no_patch { agent_status = some idle; assigned_worker_id = some none })
      ∷ []

claimed_by_nobody :
    (worker_and_claim (get_by_id (run same_text unassigned (db_of waiting)) "t1")
      ≡ some (none, some "k1"))
    × ((assign_to_worker "t1" none (run same_text unassigned (db_of waiting))).1 ≡ none)
unfolding run claim_worker_task update_task update apply_patch set_task request_run holds_claim
    renew_worker_lease assign_to_worker get_by_id Table.update_where Table.get
claimed_by_nobody = (refl, refl)
