-- ===== src/Store/Workers/Disabled.antt =====
-- What a worker itself can do to its row (repositories/sqlite-workers.ts).
use mathlib.Core.Option
use infinite_kanban.Prelude.{
  ℕ, ◌≡◌, ◌∙◌, ap, refl, String, Bool, Option, some, List, [], ◌∷◌, arith, string_eq, if◌then◌else◌,
  ◌==◌,
}
use infinite_kanban.Board.{disabled, worker_status_eq}
use infinite_kanban.Store.Table
use infinite_kanban.Store.Rows.{Db, WorkerRow}
use infinite_kanban.Store.Tasks.{worker_key}
use infinite_kanban.Store.Workers.{
  heartbeat, rotate_token, mark_offline, get_worker, is_enabled, beat, is_stale, gone_offline,
}

-- The statements that change a worker's row other than by the server's decision to enable,
-- disable or delete it.
pub data WorkerOp : Type 0 where
  beats : String → ℕ → Option (List String) → Option (List String) → WorkerOp
  rotates : String → String → String → ℕ → WorkerOp
  sweeps : ℕ → ℕ → WorkerOp

pub exec_worker : WorkerOp → Db → Db
exec_worker (beats id at projects labels) db = (heartbeat id at projects labels db).0
exec_worker (rotates id current next at) db = (rotate_token id current next at db).0
exec_worker (sweeps cutoff at) db = (mark_offline cutoff at db).0

pub run_worker : List WorkerOp → Db → Db
run_worker [] db = db
run_worker (op ∷ ops) db = run_worker ops (exec_worker op db)

-- A function on rows that leaves the status and the time of disabling of this row alone, applied to
-- the row that an id names or to every row.
kept_by :
    (f : WorkerRow → WorkerRow) (o o' : Option WorkerRow) (w : WorkerRow)
    → o ≡ some w
    → o' ≡ Option.map f o
    → (f w).status ≡ disabled
    → (f w).disabled_at ≡ w.disabled_at
    → (w' : WorkerRow) × (o' ≡ some w') × (w'.status ≡ disabled) × (w'.disabled_at ≡ w.disabled_at)
kept_by f o o' w h e a b = (f w, e ∙ ap (Option.map f) h, a, b)

one_step :
    (op : WorkerOp) (db : Db) (id : String) (w : WorkerRow)
    → get_worker db id ≡ some w
    → w.status ≡ disabled
    → (w' : WorkerRow) × (get_worker (exec_worker op db) id ≡ some w')
      × (w'.status ≡ disabled)
      × (w'.disabled_at ≡ w.disabled_at)
unfolding exec_worker heartbeat rotate_token mark_offline get_worker
one_step (beats j at projects labels) db id w h off =
    let f = Table.apply_if is_enabled (beat at projects labels) in
    kept_by (λ r. if j == r.id then f r else r) _ _ w h
      (Table.get-update_where worker_key j id is_enabled (beat at projects labels) db.workers
          (λ r. refl)
        ∙ Table.map_named worker_key j id f db.workers)
      (ground arith) (ground arith)
one_step (rotates j current next at) db id w h off =
    let c : WorkerRow → Bool = λ r. r.token_hash == current in
    let f : WorkerRow → WorkerRow =
      λ r. record r { token_hash = next; token_issued_at = some at; updated_at = at } in
    kept_by (λ r. if j == r.id then Table.apply_if c f r else r) _ _ w h
      (Table.get-update_where worker_key j id c f db.workers (λ r. refl)
        ∙ Table.map_named worker_key j id (Table.apply_if c f) db.workers)
      (ground arith) (ground arith)
one_step (sweeps cutoff at) db id w h off =
    kept_by (λ r. if is_stale cutoff r then gone_offline at r else r) _ _ w h
      (Table.get-map worker_key id (λ r. if is_stale cutoff r then gone_offline at r else r)
        db.workers (λ r. ground arith))
      (ground arith) (ground arith)

-- A disabled worker stays disabled, since the same time, whatever heartbeats, rotations of tokens
-- and sweeps follow: only the server's decision enables it again.
pub disabled_stays_disabled :
    (ops : List WorkerOp) (db : Db) (id : String) (w : WorkerRow)
    → get_worker db id ≡ some w
    → w.status ≡ disabled
    → (w' : WorkerRow) × (get_worker (run_worker ops db) id ≡ some w')
      × (w'.status ≡ disabled)
      × (w'.disabled_at ≡ w.disabled_at)
unfolding run_worker
disabled_stays_disabled [] db id w h off = (w, h, off, refl)
disabled_stays_disabled (op ∷ ops) db id w h off =
    let (w', h', off', e) = one_step op db id w h off in
    let (w'', h'', off'', e') = disabled_stays_disabled ops (exec_worker op db) id w' h' off' in
    (w'', h'', off'', e' ∙ e)
