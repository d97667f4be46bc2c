-- ===== src/Store/Claims/Grant.antt =====
-- What a successful claim grants, and to whom.
use infinite_kanban.Prelude.{
  ℕ, ◌+◌, ◌≤◌, ◌≡◌, ◌↔◌, ◌⊎◌, refl, ap, String, true, false, none, some, arith, ==_iff, string_eq,
  ◌∙◌, or_else, Bool-cases, is_none, is_none-eq, inl, inr,
}
use infinite_kanban.Board.{planning}
use infinite_kanban.Store.Rows.{Db, TaskRow}
use infinite_kanban.Store.Tasks.{is_equal, is_equal-eq, get_by_id}
use infinite_kanban.Store.Claims.{
  holds_claim, claim_worker_task, is_worker_claim_valid, is_claimable, claimed,
}
use infinite_kanban.Store.Claims.Guard.{update-eq-some}

claimed_holds :
    (r : TaskRow) (w t w' t' : String) (now ms now' : ℕ)
    → (r.assigned_worker_id ≡ none) ⊎ (r.assigned_worker_id ≡ some w)
    → (holds_claim w' t' now' (claimed w t now ms r) ≡ true)
      ↔ ((w' ≡ w) × (t' ≡ t) × (now' ≤ now + ms))
unfolding holds_claim
claimed_holds r w t w' t' now ms now' open_to = ground (arith, ==_iff w w', ==_iff t t')

owned :
    (r : TaskRow) (w : String)
    → (r.assigned_worker_id ≡ none) ⊎ (r.assigned_worker_id ≡ some w)
    → or_else r.assigned_worker_id (some w) ≡ some w
owned r w open_to = ground arith

module _ (lower : String → String) where
  unassigned :
      (db : Db) (w : String) (now : ℕ) (r : TaskRow)
      → is_claimable lower db w now r ≡ true
      → is_equal r.assigned_worker_id w ≡ false
      → is_none r.assigned_worker_id ≡ true
  unassigned db w now r h other = ground arith

  open_to_owner :
      (db : Db) (w : String) (now : ℕ) (r : TaskRow)
      → is_claimable lower db w now r ≡ true
      → (r.assigned_worker_id ≡ none) ⊎ (r.assigned_worker_id ≡ some w)
  open_to_owner db w now r h = elim (Bool-cases (is_equal r.assigned_worker_id w)) [
    | inl mine ↦ inr (is_equal-eq r.assigned_worker_id w mine)
    | inr other ↦ inl (is_none-eq r.assigned_worker_id (unassigned db w now r h other))
  ]

  -- After a successful claim, the claims that are valid are exactly those by this worker, with
  -- this token, up to the end of the lease; the task is planning, assigned to this worker, and its
  -- attempt is one more.
  pub claim_grants :
      (id w t w' t' : String) (now ms now' : ℕ) (db : Db) (r' : TaskRow)
      → (claim_worker_task lower id w t now ms db).1 ≡ some r'
      → ((is_worker_claim_valid id w' t' now' (claim_worker_task lower id w t now ms db).0 ≡ true)
          ↔ ((w' ≡ w) × (t' ≡ t) × (now' ≤ now + ms)))
        × (r'.agent_status ≡ planning)
        × (r'.assigned_worker_id ≡ some w)
        × ((r : TaskRow) × (get_by_id db id ≡ some r) × (r'.worker_attempt ≡ r.worker_attempt + 1))
  unfolding claim_worker_task is_worker_claim_valid
  claim_grants id w t w' t' now ms now' db r' h =
      let (r, found, go, e, read) =
        update-eq-some id (is_claimable lower db w now) (claimed w t now ms) db r' (λ x. refl) h in
      let owner = open_to_owner db w now r go in
      (
        rw read (claimed_holds r w t w' t' now ms now' owner),
        ap (λ (x : TaskRow). x.agent_status) e,
        ap (λ (x : TaskRow). x.assigned_worker_id) e ∙ owned r w owner,
        (r, found, ap (λ (x : TaskRow). x.worker_attempt) e),
      )
