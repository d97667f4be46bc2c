-- ===== src/Groups/Dependencies/Accepted.antt =====
-- Which dependencies a new task group may have.
use infinite_kanban.Prelude.{
  ℕ, ◌<◌, ◌≡◌, ◌↔◌, ◌≢◌, ◌⊎◌, inl, inr, refl, sym, ap, ◌∙◌, subst, none, some, List, length,
}
use mathlib.Core.Option.{none-ne-some, some-ne-none, some-injective}
use infinite_kanban.Groups.Dependencies.{
  DependsOn, cycle, Checked, valid, invalid, check_children, verdict, report, search,
  validate_child_dependencies,
}
use infinite_kanban.Groups.Dependencies.Shape.{
  AgreeAll, children_sound, children_complete, children-ne-cycle, length-AgreeAll,
  dependencies_range,
}
use infinite_kanban.Groups.Dependencies.Search.{Cyclic, InRange, AllDone-acyclic, search_decides}

module _ (children : List DependsOn) where
  -- The dependencies that a request describes, by the children's indexes.
  abbrev pub Describes : List (List ℕ) → Type 0
  Describes deps = AgreeAll (length children) 0 children deps

  in_range : (deps : List (List ℕ)) → Describes deps → InRange deps
  in_range deps d i j e =
      subst (λ n. j < n) (sym (length-AgreeAll (length children) 0 children deps d))
        (dependencies_range (length children) 0 children deps i j d e)

  -- A report of a request that describes dependencies is the search's verdict on them.
  reported :
      (deps : List (List ℕ))
      → Describes deps
      → validate_child_dependencies children ≡ verdict (search deps)
  unfolding validate_child_dependencies
  reported deps d = ap report (children_complete (length children) 0 children deps d)

  described :
      (c : Checked (List (List ℕ)))
      → check_children (length children) 0 children ≡ c
      → ((deps : List (List ℕ)) × Describes deps)
        ⊎ ((validate_child_dependencies children ≢ none)
            × (validate_child_dependencies children ≢ some cycle))
  unfolding validate_child_dependencies
  described (valid deps) e = inl (deps, children_sound (length children) 0 children deps e)
  described (invalid err) e = inr (
    λ accepted. some-ne-none _ (sym (ap report e) ∙ accepted),
    λ cyclic.
        children-ne-cycle (length children) 0 children
          (e ∙ ap invalid (some-injective _ _ (sym (ap report e) ∙ cyclic))),
  )

  -- A group's dependencies are accepted exactly if each child names distinct other children of the
  -- group by their indexes, or nothing, and no child depends on itself along these dependencies.
  pub accepted_iff :
      (validate_child_dependencies children ≡ none)
      ↔ ((deps : List (List ℕ)) × Describes deps × (Cyclic deps → ⊥))
  accepted_iff = (
    λ ok. elim (described _ refl) [
      | inr (refused, _) ↦ absurd (refused ok)
      | inl (deps, d) ↦ elim (search_decides deps (in_range deps d)) [
        | inl (fine, done) ↦ (deps, d, AllDone-acyclic deps (in_range deps d) done)
        | inr (bad, cyc) ↦ absurd (some-ne-none _ (sym bad ∙ sym (reported deps d) ∙ ok))
      ]
    ],
    λ (deps, d, acyclic). elim (search_decides deps (in_range deps d)) [
      | inl (fine, done) ↦ reported deps d ∙ fine
      | inr (bad, cyc) ↦ absurd (acyclic cyc)
    ],
  )

  -- A cycle is reported exactly if each child names distinct other children of the group by their
  -- indexes, or nothing, and some child depends on itself along these dependencies.
  pub cycle_iff :
      (validate_child_dependencies children ≡ some cycle)
      ↔ ((deps : List (List ℕ)) × Describes deps × Cyclic deps)
  cycle_iff = (
    λ bad. elim (described _ refl) [
      | inr (_, refused) ↦ absurd (refused bad)
      | inl (deps, d) ↦ elim (search_decides deps (in_range deps d)) [
        | inl (fine, done) ↦ absurd (none-ne-some _ (sym fine ∙ sym (reported deps d) ∙ bad))
        | inr (_, cyc) ↦ (deps, d, cyc)
      ]
    ],
    λ (deps, d, cyc). elim (search_decides deps (in_range deps d)) [
      | inl (fine, done) ↦ absurd (AllDone-acyclic deps (in_range deps d) done cyc)
      | inr (bad, _) ↦ reported deps d ∙ bad
    ],
  )
