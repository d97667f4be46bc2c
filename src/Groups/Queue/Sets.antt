-- ===== src/Groups/Queue/Sets.antt =====
-- `Set.add` and `Set.delete` of a group's queue, by membership (services/agent-manager.ts).
use infinite_kanban.Prelude.{
  ◌≡◌, ◌⊎◌, refl, String, not, List, [], ◌∷◌, ◌++◌, ◌==◌, string_eq, filter_sound, contains,
  contains-In, In, inl, inr, Bool-cases,
}
use infinite_kanban.Groups.Queue.{add_to, delete_from}

In-left : (a : String) (xs ys : List String) → In a xs → In a (xs ++ ys)
In-left a [] ys m = elim m [ ]
In-left a (x ∷ xs) ys m = elim m [ inl e ↦ inl e | inr k ↦ inr (In-left a xs ys k) ]

In-right : (a : String) (xs ys : List String) → In a ys → In a (xs ++ ys)
In-right a [] ys m = m
In-right a (x ∷ xs) ys m = inr (In-right a xs ys m)

pub In-add_to : (a id : String) (ids : List String) → In a ids → In a (add_to id ids)
In-add_to a id ids m = elim (Bool-cases (contains ids id)) [
  | inl there ↦ rw there m
  | inr new ↦ rw new (In-left a ids (id ∷ []) m)
]

pub added-In : (id : String) (ids : List String) → In id (add_to id ids)
added-In id ids = elim (Bool-cases (contains ids id)) [
  | inl there ↦ rw there (contains-In ids id there)
  | inr new ↦ rw new (In-right id ids (id ∷ []) (inl refl))
]

In-parts : (a : String) (xs ys : List String) → In a (xs ++ ys) → In a xs ⊎ In a ys
In-parts a [] ys m = inr m
In-parts a (x ∷ xs) ys m = elim m [
  | inl e ↦ inl (inl e)
  | inr k ↦ elim (In-parts a xs ys k) [ inl l ↦ inl (inr l) | inr r ↦ inr r ]
]

pub add_to_only : (a id : String) (ids : List String) → In a (add_to id ids) → (a ≡ id) ⊎ In a ids
add_to_only a id ids m = elim (Bool-cases (contains ids id)) [
  | inl there ↦ inr (rw there at m)
  | inr new ↦ elim (In-parts a ids (id ∷ []) (rw new at m)) [
    | inl old ↦ inr old
    | inr k ↦ elim k [ inl e ↦ inl e | inr gone ↦ absurd gone ]
  ]
]

pub delete_from_only : (a id : String) (ids : List String) → In a (delete_from id ids) → In a ids
delete_from_only a id ids m = (filter_sound (λ x. not (x == id)) ids m).1
