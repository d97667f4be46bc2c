-- ===== src/Store/Agents.antt =====
-- packages/server/src/repositories/sqlite-a2a-agents.ts: the record of probes of an endpoint, with
-- the columns that it writes. An answered row is the stored one.
pub mod Probes
use infinite_kanban.Prelude.{
  ℕ, ◌+◌, String, Bool, true, Option, none, some, List, [], ◌∷◌, string_eq, leb, or_else, value_or,
  if◌then◌else◌,
}
use infinite_kanban.Store.Table

pub record AgentRow : Type 0 where
  pub id : String
  pub enabled : Bool
  pub probe_failures : ℕ
  pub unreachable_since : Option ℕ
  pub last_validated_at : ℕ
  pub last_validation_error : Option String
  pub updated_at : ℕ

abbrev pub agent_key : AgentRow → String
agent_key r = r.id

-- services/agent-liveness.ts
abbrev pub unreachable_after_failures : ℕ
unreachable_after_failures = 3

abbrev pub reached : ℕ → AgentRow → AgentRow
reached now r = record r {
  last_validated_at = now;
  last_validation_error = none;
  unreachable_since = none;
  probe_failures = 0;
  updated_at = now;
}

abbrev pub missed : ℕ → ℕ → Option String → AgentRow → AgentRow
missed now unreachable_after error r =
    let failures = r.probe_failures + 1 in
    record r {
      probe_failures = failures;
      unreachable_since =
          or_else r.unreachable_since (if leb unreachable_after failures then some now else none);
      last_validation_error = some (value_or error "endpoint unreachable");
      updated_at = now;
    }

-- A missing agent is answered by nothing, and no row changes.
unfoldable pub record_probe :
    String → Bool → ℕ → ℕ → Option String → List AgentRow → List AgentRow × Option AgentRow
record_probe id ok now unreachable_after error rows =
    let rows' =
      (Table.update_where agent_key id (λ _. true)
        (if ok then reached now else missed now unreachable_after error) rows).0 in
    (rows', Table.get agent_key id rows')
