-- ===== src/Scenarios/Runs.antt =====
-- Two holders of one workflow run (repositories/workflow-store.ts).
use infinite_kanban.Prelude.{
  ◌≡◌, refl, String, true, false, none, some, List, [], ◌∷◌, ◌==◌, string_eq, is_some,
}
use mathlib.Core.Option.{none-ne-some}
use infinite_kanban.Store.Table
use infinite_kanban.Workflow.RunStore.{
  BoardWorkflowRun, RunRow, implementing, done, get_run, save, versioned,
}
use infinite_kanban.Workflow.RunStore.Versions.{IsVersioned, saves_exclude}

abbrev begun : BoardWorkflowRun
begun = record {
  id = "r1";
  task_id = "t1";
  project_id = "p";
  version = 0;
  phase = implementing;
  projected_key = none;
  repository = "https://example.org/x";
  base_revision = "b";
  requirements = "Fix it";
  required_capabilities = [];
  policy = record {
    auto_finish = false;
    max_rounds = 3;
    max_dispatches = 6;
    deadline = 1000;
    required_checks = [];
  };
  assignments = [];
  diagnostics = [];
  accepted_revision = none;
  approved_revision = none;
  approved_by = none;
  approved_at = none;
  projected_phase = none;
}

abbrev finished_run : BoardWorkflowRun
finished_run = record begun { phase = done }

abbrev stored : List RunRow
stored = record { task_id = "t1"; version = 1; document = record begun { version = 1 } } ∷ []

saves_begun : save begun 0 [] ≡ some (stored, versioned begun 1)
unfolding save Table.get
saves_begun = refl

empty-IsVersioned : IsVersioned []
unfolding Table.get
empty-IsVersioned id r found = absurd (none-ne-some r found)

saves_exclude_example :
    (versioned begun 1 ≡ versioned begun 1)
    × (get_run "t1" stored ≡ some (versioned begun 1))
    × ((id : String) → ("t1" == id) ≡ false → get_run id stored ≡ get_run id [])
    × IsVersioned stored
    × (save finished_run 0 stored ≡ none)
    × (is_some (save finished_run 1 stored) ≡ true)
saves_exclude_example =
    saves_exclude begun finished_run 0 [] stored (versioned begun 1) empty-IsVersioned refl
      saves_begun
