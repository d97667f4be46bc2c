-- ===== src/Store/Claims/Release.antt =====
-- Who can give a claimed task back.
use infinite_kanban.Prelude.{
  ℕ, ◌≡◌, ap, String, Bool, true, false, ◌&&◌, ◌||◌, Option, none, some, List, [], ◌∷◌, arith, ◌==◌,
  string_eq, ◌∙◌, sym, Bool-cases, inl, inr, all, ltb,
}
use mathlib.Core.Option
use mathlib.Core.Option.{none-ne-some}
use infinite_kanban.Store.Rows.{Db, TaskRow}
use infinite_kanban.Store.Tasks.{is_equal, get_by_id, apply_patch}
use infinite_kanban.Store.Claims.{
  holds_claim, claim_worker_task, is_claimable, claimed, success, failure,
}
use infinite_kanban.Store.Claims.Guard.{refused}
use infinite_kanban.Store.Claims.Row.{
  Op, patch, request, claim_start, clear, assign, claim, renew, complete, park, revoke, exec, run,
  row_op, get-exec,
}

-- An operation that ends the claim of a row: its holder settles or parks the task in time, or its
-- worker is revoked.
abbrev pub releases : Op → TaskRow → Bool
releases (complete id w t o at s e) r = id == r.id && holds_claim w t at r
releases (park id w t now q) r = id == r.id && holds_claim w t now r
releases (revoke w at) r = is_equal r.assigned_worker_id w
releases (patch id p) r = false
releases (request id at) r = false
releases (claim_start id at) r = false
releases (clear id) r = false
releases (assign id w) r = false
releases (claim id w t now ms) r = false
releases (renew id w t now ms) r = false

abbrev pub releases_at : Op → Option TaskRow → Bool
releases_at op none = false
releases_at op (some r) = releases op r

module _ (lower : String → String) where
  -- Whether one of the operations, at its turn, releases the task.
  abbrev pub was_released : String → List Op → Db → Bool
  was_released id [] db = false
  was_released id (op ∷ ops) db =
      releases_at op (get_by_id db id) || was_released id ops (exec lower op db)

  row_keeps :
      (db : Db) (op : Op) (r : TaskRow) (t : String)
      → r.worker_claim_token_hash ≡ some t
      → releases op r ≡ false
      → (row_op lower db op r).worker_claim_token_hash ≡ some t
  unfolding row_op apply_patch
  row_keeps db (complete id w t' success at s e) r t h ok = ground arith
  row_keeps db (complete id w t' failure at s e) r t h ok = ground arith
  row_keeps db (patch id p) r t h ok = ground arith
  row_keeps db (request id at) r t h ok = ground arith
  row_keeps db (claim_start id at) r t h ok = ground arith
  row_keeps db (clear id) r t h ok = ground arith
  row_keeps db (assign id w) r t h ok = ground arith
  row_keeps db (claim id w t' now ms) r t h ok = ground arith
  row_keeps db (renew id w t' now ms) r t h ok = ground arith
  row_keeps db (park id w t' now q) r t h ok = ground arith
  row_keeps db (revoke w at) r t h ok = ground arith

  -- Until a release, the task keeps its token.
  keeps_token :
      (id : String) (ops : List Op) (db : Db) (r : TaskRow) (t : String)
      → get_by_id db id ≡ some r
      → r.worker_claim_token_hash ≡ some t
      → was_released id ops db ≡ false
      → (r' : TaskRow) × (get_by_id (run lower ops db) id ≡ some r')
        × (r'.worker_claim_token_hash ≡ some t)
  unfolding run
  keeps_token id [] db r t found h free = (r, found, h)
  keeps_token id (op ∷ ops) db r t found h free =
      let free' : releases_at op (get_by_id db id) ≡ false = ground arith in
      let kept : releases op r ≡ false = ap (releases_at op) (sym found) ∙ free' in
      let read : get_by_id (exec lower op db) id ≡ some (row_op lower db op r) =
        get-exec lower db op id ∙ ap (Option.map (row_op lower db op)) found in
      keeps_token id ops (exec lower op db) (row_op lower db op r) t read
        (row_keeps db op r t h kept) (ground arith)

  -- While a task has a claim token, no worker's claim of it succeeds.
  pub claim_refused :
      (id w t : String) (now ms : ℕ) (db : Db) (r : TaskRow) (t' : String)
      → get_by_id db id ≡ some r
      → r.worker_claim_token_hash ≡ some t'
      → (claim_worker_task lower id w t now ms db).1 ≡ none
  unfolding claim_worker_task
  claim_refused id w t now ms db r t' found h =
      refused id (is_claimable lower db w now) (claimed w t now ms) db r found (ground arith)

  -- If a task has a claim token, and after any operations a worker claims it, then one of these
  -- operations released it at its turn: the holder completed or parked it while the lease ran, or
  -- the worker that it was assigned to was revoked.
  pub claim_needs_release :
      (id w t : String) (now ms : ℕ) (ops : List Op) (db : Db) (r r' : TaskRow) (held : String)
      → get_by_id db id ≡ some r
      → r.worker_claim_token_hash ≡ some held
      → (claim_worker_task lower id w t now ms (run lower ops db)).1 ≡ some r'
      → was_released id ops db ≡ true
  claim_needs_release id w t now ms ops db r r' held found h ok =
      elim (Bool-cases (was_released id ops db)) [
        | inl released ↦ released
        | inr free ↦
            let (x, at_end, token) = keeps_token id ops db r held found h free in
            absurd (
              none-ne-some _
                (sym (claim_refused id w t now ms (run lower ops db) x held at_end token) ∙ ok))
      ]

  -- Operations that neither revoke a worker nor come with a time up to the given one.
  abbrev pub is_late : ℕ → Op → Bool
  is_late expiry (renew id w t now ms) = ltb expiry now
  is_late expiry (complete id w t o at s e) = ltb expiry at
  is_late expiry (park id w t now q) = ltb expiry now
  is_late expiry (revoke w at) = false
  is_late expiry (patch id p) = true
  is_late expiry (request id at) = true
  is_late expiry (claim_start id at) = true
  is_late expiry (clear id) = true
  is_late expiry (assign id w) = true
  is_late expiry (claim id w t now ms) = true

  late_keeps :
      (db : Db) (op : Op) (r : TaskRow) (t : String) (expiry : ℕ)
      → r.worker_claim_token_hash ≡ some t
      → r.worker_lease_expires_at ≡ some expiry
      → is_late expiry op ≡ true
      → ((row_op lower db op r).worker_claim_token_hash ≡ some t)
        × ((row_op lower db op r).worker_lease_expires_at ≡ some expiry)
  unfolding row_op apply_patch holds_claim
  late_keeps db (complete id w t' success at s e) r t expiry h l ok = ground arith
  late_keeps db (complete id w t' failure at s e) r t expiry h l ok = ground arith
  late_keeps db (patch id p) r t expiry h l ok = ground arith
  late_keeps db (request id at) r t expiry h l ok = ground arith
  late_keeps db (claim_start id at) r t expiry h l ok = ground arith
  late_keeps db (clear id) r t expiry h l ok = ground arith
  late_keeps db (assign id w) r t expiry h l ok = ground arith
  late_keeps db (claim id w t' now ms) r t expiry h l ok = ground arith
  late_keeps db (renew id w t' now ms) r t expiry h l ok = ground arith
  late_keeps db (park id w t' now q) r t expiry h l ok = ground arith
  late_keeps db (revoke w at) r t expiry h l ok = cc

  -- Once the lease of a claimed task has run out, it stays claimed: whatever is done later, short
  -- of revoking a worker, updates and requested runs included, every claim of it is refused.
  pub lapsed_stays_claimed :
      (id w t : String) (now ms : ℕ) (ops : List Op) (db : Db) (r : TaskRow) (held : String)
      (expiry : ℕ)
      → get_by_id db id ≡ some r
      → r.worker_claim_token_hash ≡ some held
      → r.worker_lease_expires_at ≡ some expiry
      → all (is_late expiry) ops ≡ true
      → (claim_worker_task lower id w t now ms (run lower ops db)).1 ≡ none
  unfolding run
  lapsed_stays_claimed id w t now ms [] db r held expiry found h l late =
      claim_refused id w t now ms db r held found h
  lapsed_stays_claimed id w t now ms (op ∷ ops) db r held expiry found h l late =
      let (h', l') = late_keeps db op r held expiry h l (ground arith) in
      lapsed_stays_claimed id w t now ms ops (exec lower op db) (row_op lower db op r) held expiry
        (get-exec lower db op id ∙ ap (Option.map (row_op lower db op)) found) h' l' (ground arith)
