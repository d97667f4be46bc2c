-- ===== src/Store/Agents/Probes.antt =====
-- When an endpoint counts as unreachable (`recordProbe` of repositories/sqlite-a2a-agents.ts).

use infinite_kanban.Prelude.{
  ℕ, suc, ◌≤◌, ◌≡◌, refl, ◌∙◌, String, Bool, true, false, Option, none, some, List, [], ◌∷◌, arith,
  ==_refl, string_eq, leb, is_some, if◌then◌else◌,
}
use infinite_kanban.Store.Table
use infinite_kanban.Store.Agents.{AgentRow, agent_key, reached, missed, record_probe}

pub record Probe : Type 0 where
  pub ok : Bool
  pub now : ℕ
  pub error : Option String

-- The table after these probes of one agent, the latest first.
unfoldable pub after_probes : String → ℕ → List Probe → List AgentRow → List AgentRow
after_probes id limit [] rows = rows
after_probes id limit (p ∷ earlier) rows =
    (record_probe id p.ok p.now limit p.error (after_probes id limit earlier rows)).0

-- How many of the latest probes failed since one succeeded.
pub failures_in_row : List Probe → ℕ
failures_in_row [] = 0
failures_in_row (p ∷ earlier) = if p.ok then 0 else suc (failures_in_row earlier)

probed :
    (id : String) (ok : Bool) (now limit : ℕ) (error : Option String) (rows : List AgentRow)
    (r : AgentRow)
    → Table.get agent_key id rows ≡ some r
    → Table.get agent_key id (record_probe id ok now limit error rows).0
      ≡ some (if ok then reached now r else missed now limit error r)
unfolding record_probe
probed id true now limit error rows r found =
    Table.get-update_where agent_key id id (λ _. true) (reached now) rows (λ x. refl)
    ∙ rw (==_refl id) (rw found refl)
probed id false now limit error rows r found =
    Table.get-update_where agent_key id id (λ _. true) (missed now limit error) rows (λ x. refl)
    ∙ rw (==_refl id) (rw found refl)

-- Of a reachable agent without failures, after any probes: the count of failures is the number of
-- the latest ones that failed in a row, and the agent is unreachable just if that number reaches
-- the limit. So a single success makes it reachable again.
pub unreachable_iff :
    (id : String) (limit : ℕ) (rows : List AgentRow) (r : AgentRow) (probes : List Probe)
    → 1 ≤ limit
    → Table.get agent_key id rows ≡ some r
    → r.probe_failures ≡ 0
    → r.unreachable_since ≡ none
    → (r' : AgentRow) × (Table.get agent_key id (after_probes id limit probes rows) ≡ some r')
      × (r'.probe_failures ≡ failures_in_row probes)
      × (is_some r'.unreachable_since ≡ leb limit (failures_in_row probes))
unfolding after_probes failures_in_row
unreachable_iff id limit rows r [] positive found zero_failures reachable =
    (r, found, zero_failures, rw reachable (ground (arith, positive)))
unreachable_iff id limit rows r (p ∷ earlier) positive found zero_failures reachable =
    let (r₁, found₁, count, since) =
      unreachable_iff id limit rows r earlier positive found zero_failures reachable in
    (
      (if p.ok then reached p.now r₁ else missed p.now limit p.error r₁),
      probed id p.ok p.now limit p.error (after_probes id limit earlier rows) r₁ found₁,
      ground (arith, count),
      ground (arith, count, since, positive),
    )
