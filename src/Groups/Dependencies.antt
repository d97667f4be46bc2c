-- ===== src/Groups/Dependencies.antt =====
-- `validateChildDependencies` of packages/server/src/routes/groups.ts: the shape of each child's
-- `dependsOn`, and the depth-first search for a cycle.
pub mod Shape
pub mod Bounds
pub mod Search
pub mod Accepted
use infinite_kanban.Prelude.{
  ℕ, zero, suc, ◌+◌, String, Bool, true, false, not, ◌||◌, Option, none, some, List, [], ◌∷◌, ◌==◌,
  nat_eq, leb, ltb, contains, filter, length, if◌then◌else◌,
}

-- An integer as the request's JSON may hold it: `negsuc n` is -(n + 1).
pub data ℤ : Type 0 where
  pos negsuc : ℕ → ℤ

-- `children[i].dependsOn`: absent, something that is no array of integers, or integers.
pub data DependsOn : Type 0 where
  absent malformed : DependsOn
  indexes : List ℤ → DependsOn

pub data DependencyError : Type 0 where
  not_indexes duplicate unknown itself : ℕ → DependencyError
  cycle : DependencyError

pub data Checked (A : Type 0) : Type 0 where
  valid : A → Checked A
  invalid : DependencyError → Checked A

abbrev pub integer_eq : ℤ → ℤ → Bool
integer_eq (pos a) (pos b) = a == b
integer_eq (negsuc a) (negsuc b) = a == b
integer_eq (pos a) (negsuc b) = false
integer_eq (negsuc a) (pos b) = false

abbrev pub has_integer : List ℤ → ℤ → Bool
has_integer [] z = false
has_integer (x ∷ xs) z = integer_eq x z || has_integer xs z

-- `new Set(raw).size !== raw.length`
unfoldable pub has_duplicates : List ℤ → Bool
has_duplicates [] = false
has_duplicates (x ∷ xs) = has_integer xs x || has_duplicates xs

infixl 5 ◌>>=◌
abbrev pub ◌>>=◌ : {A B : Type 0} → Checked A → (A → Checked B) → Checked B
valid a >>= f = f a
invalid e >>= f = invalid e

-- The range of each index, in order; `n` children, of which this is the one at `i`.
unfoldable pub check_indexes : ℕ → ℕ → List ℤ → Checked (List ℕ)
check_indexes n i [] = valid []
check_indexes n i (negsuc d ∷ rest) = invalid (unknown i)
check_indexes n i (pos d ∷ rest) =
    let later = check_indexes n i rest in
    if leb n d
    then invalid (unknown i)
    else if d == i
    then invalid (itself i)
    else later >>= λ ds. valid (d ∷ ds)

unfoldable pub check_child : ℕ → ℕ → DependsOn → Checked (List ℕ)
unfolding check_indexes has_duplicates
check_child n i absent = valid []
check_child n i malformed = invalid (not_indexes i)
check_child n i (indexes raw) =
    if has_duplicates raw then invalid (duplicate i) else check_indexes n i raw

-- The first loop: from the child at `i` on.
unfoldable pub check_children : ℕ → ℕ → List DependsOn → Checked (List (List ℕ))
unfolding check_child
check_children n i [] = valid []
check_children n i (raw ∷ rest) =
    check_child n i raw >>= λ ds. check_children n (i + 1) rest >>= λ later. valid (ds ∷ later)

-- The sets `visiting` and `visited`, each without repetitions.
pub record Marks : Type 0 where
  pub visiting : List ℕ
  pub visited : List ℕ

abbrev pub dependencies_of : List (List ℕ) → ℕ → List ℕ
dependencies_of [] i = []
dependencies_of (ds ∷ rest) zero = ds
dependencies_of (ds ∷ rest) (suc i) = dependencies_of rest i

abbrev pub add_mark : ℕ → List ℕ → List ℕ
add_mark i s = if contains s i then s else i ∷ s

abbrev pub drop_mark : ℕ → List ℕ → List ℕ
drop_mark i s = filter (λ j. not (j == i)) s

-- Whether a cycle was met, and the marks; `none` if the fuel ran out.
abbrev pub Visit : Type 0
Visit = Option (Bool × Marks)

-- A loop over children that stops at the first `true`.
unfoldable pub visit_each : (ℕ → Marks → Visit) → List ℕ → Marks → Visit
visit_each go [] m = some (false, m)
visit_each go (i ∷ rest) m = elim (go i m) [
  | none ↦ none
  | some (hit, m') ↦ if hit then some (true, m') else visit_each go rest m'
]

abbrev pub leave : ℕ → Visit → Visit
leave i none = none
leave i (some (true, m)) = some (true, m)
leave i (some (false, m)) =
    some (false, record m { visiting = drop_mark i m.visiting; visited = add_mark i m.visited })

unfoldable pub visit : List (List ℕ) → ℕ → ℕ → Marks → Visit
unfolding visit_each
visit deps zero i m = none
visit deps (suc fuel) i m =
    let below =
      visit_each (visit deps fuel) (dependencies_of deps i)
        (record m { visiting = add_mark i m.visiting }) in
    if contains m.visiting i
    then some (true, m)
    else if contains m.visited i
    then some (false, m)
    else leave i below

-- The children's indexes from `i` on.
abbrev pub indexes_from : ℕ → List (List ℕ) → List ℕ
indexes_from i [] = []
indexes_from i (ds ∷ rest) = i ∷ indexes_from (i + 1) rest

-- `dependencies.some((_, childIndex) => visit(childIndex))`: as deep as there are children.
unfoldable pub search : List (List ℕ) → Visit
unfolding visit
search deps =
    visit_each (visit deps (suc (length deps))) (indexes_from 0 deps)
      (record { visiting = []; visited = [] })

abbrev pub verdict : Visit → Option DependencyError
verdict none = none
verdict (some (true, m)) = some cycle
verdict (some (false, m)) = none

abbrev pub report : Checked (List (List ℕ)) → Option DependencyError
report (invalid e) = some e
report (valid deps) = verdict (search deps)

-- `none` where the source returns undefined: the dependencies are accepted.
unfoldable pub validate_child_dependencies : List DependsOn → Option DependencyError
unfolding search check_children
validate_child_dependencies children = report (check_children (length children) 0 children)
