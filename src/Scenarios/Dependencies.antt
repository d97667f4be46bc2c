-- ===== src/Scenarios/Dependencies.antt =====
-- Groups of three children (routes/groups.ts).
use infinite_kanban.Prelude.{ℕ, ◌≡◌, ◌↔◌, refl, none, some, List, [], ◌∷◌}
use infinite_kanban.Groups.Dependencies.{
  DependsOn, absent, indexes, pos, cycle, unknown, validate_child_dependencies, negsuc,
}
use infinite_kanban.Groups.Dependencies.Search.{Cyclic}
use infinite_kanban.Groups.Dependencies.Accepted.{Describes, accepted_iff}

abbrev chain : List DependsOn
chain = absent ∷ indexes (pos 0 ∷ []) ∷ indexes (pos 1 ∷ pos 0 ∷ []) ∷ []

abbrev loop : List DependsOn
loop = indexes (pos 2 ∷ []) ∷ indexes (pos 0 ∷ []) ∷ indexes (pos 1 ∷ []) ∷ []

chain_accepted : validate_child_dependencies chain ≡ none
unfolding validate_child_dependencies
chain_accepted = refl

loop_refused : validate_child_dependencies loop ≡ some cycle
unfolding validate_child_dependencies
loop_refused = refl

below_zero : validate_child_dependencies (absent ∷ indexes (negsuc 0 ∷ []) ∷ []) ≡ some (unknown 1)
unfolding validate_child_dependencies
below_zero = refl

accepted_iff_example :
    (validate_child_dependencies chain ≡ none)
    ↔ ((deps : List (List ℕ)) × Describes chain deps × (Cyclic deps → ⊥))
accepted_iff_example = accepted_iff chain
