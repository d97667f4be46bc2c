-- ===== src/Groups/Dependencies/Shape.antt =====
-- Which requests pass the first loop of `validateChildDependencies`, and what it collects.
use infinite_kanban.Prelude.{
  ℕ, zero, suc, ◌+◌, ◌<◌, ◌≡◌, ◌≢◌, ◌↔◌, refl, subst, sym, ap, ◌∙◌, Bool, true, false, ◌||◌, List,
  [], ◌∷◌, map, arith, ◌==◌, nat_eq, contains, length, leb, All, Bool-cases, inl, inr,
  if◌then◌else◌, In,
}
use infinite_kanban.Groups.Dependencies.{
  ℤ, pos, negsuc, DependsOn, absent, malformed, indexes, Checked, valid, invalid, unknown, itself,
  has_integer, has_duplicates, check_indexes, check_child, check_children, dependencies_of, ◌>>=◌,
  duplicate, not_indexes, cycle,
}
use infinite_kanban.Groups.Dependencies.Bounds.{Distinct}

-- A child's request and its dependencies: none, or distinct other children by their indexes.
abbrev pub Agrees : ℕ → ℕ → DependsOn → List ℕ → Type 0
Agrees n i absent ds = ds ≡ []
Agrees n i malformed ds = ⊥
Agrees n i (indexes raw) ds = (raw ≡ map pos ds) × Distinct ds × All (λ j. (j < n) × (j ≢ i)) ds

abbrev pub AgreeAll : ℕ → ℕ → List DependsOn → List (List ℕ) → Type 0
AgreeAll n i [] [] = Unit
AgreeAll n i [] (ds ∷ later) = ⊥
AgreeAll n i (raw ∷ rest) [] = ⊥
AgreeAll n i (raw ∷ rest) (ds ∷ later) = Agrees n i raw ds × AgreeAll n (i + 1) rest later

has-contains : (ds : List ℕ) (d : ℕ) → has_integer (map pos ds) (pos d) ≡ contains ds d
has-contains [] d = refl
has-contains (x ∷ ds) d = ap (λ b. x == d || b) (has-contains ds d)

pub Distinct-iff : (ds : List ℕ) → (has_duplicates (map pos ds) ≡ false) ↔ Distinct ds
unfolding has_duplicates
Distinct-iff [] = (λ h. tt, λ d. refl)
Distinct-iff (x ∷ ds) = (
  λ h. (ground (arith, has-contains ds x), (Distinct-iff ds).0 (ground arith)),
  λ d. ground (arith, has-contains ds x, (Distinct-iff ds).1 d.1),
)

valid-injective : {A : Type 0} (a b : A) → valid a ≡ valid b → a ≡ b
valid-injective a b h = cc

-- A request's indexes, as one child's checks pass them.
abbrev Passes : ℕ → ℕ → List ℤ → List ℕ → Type 0
Passes n i raw ds = (raw ≡ map pos ds) × All (λ j. (j < n) × (j ≢ i)) ds

range_sound :
    (n i d : ℕ) (r : Checked (List ℕ)) (ds : List ℕ)
    → (if leb n d
        then invalid (unknown i)
        else if d == i
        then invalid (itself i)
        else (r >>= λ later. valid (d ∷ later)))
      ≡ valid ds
    → (later : List ℕ) × (r ≡ valid later) × (d ∷ later ≡ ds) × (d < n) × (d ≢ i)
range_sound n i d (invalid e) ds h = absurd (ground arith)
range_sound n i d (valid later) ds h = (later, refl, ground arith, ground arith, ground arith)

indexes_sound :
    (n i : ℕ) (raw : List ℤ) (ds : List ℕ) → check_indexes n i raw ≡ valid ds → Passes n i raw ds
unfolding check_indexes
indexes_sound n i [] [] h = (refl, tt)
indexes_sound n i [] (d ∷ ds) h = cc
indexes_sound n i (negsuc d ∷ rest) ds h = cc
indexes_sound n i (pos d ∷ rest) ds h =
    let (later, e, all, lt, ne) = range_sound n i d (check_indexes n i rest) ds h in
    let (same, ok) = indexes_sound n i rest later e in
    subst (Passes n i (pos d ∷ rest)) all (ap (λ x. pos d ∷ x) same, ((lt, ne), ok))

indexes_complete :
    (n i : ℕ) (ds : List ℕ)
    → All (λ j. (j < n) × (j ≢ i)) ds
    → check_indexes n i (map pos ds) ≡ valid ds
unfolding check_indexes
indexes_complete n i [] all = refl
indexes_complete n i (d ∷ ds) ((lt, ne), all) = ground (arith, indexes_complete n i ds all)

child_sound :
    (n i : ℕ) (raw : DependsOn) (ds : List ℕ) → check_child n i raw ≡ valid ds → Agrees n i raw ds
unfolding check_child
child_sound n i absent ds h = cc
child_sound n i malformed ds h = cc
child_sound n i (indexes raw) ds h = elim (Bool-cases (has_duplicates raw)) [
  | inl twice ↦ absurd (ground arith)
  | inr once ↦
      let (same, all) = indexes_sound n i raw ds (rw once at h) in
      (same, (Distinct-iff ds).0 (ap has_duplicates (sym same) ∙ once), all)
]

child_complete :
    (n i : ℕ) (raw : DependsOn) (ds : List ℕ) → Agrees n i raw ds → check_child n i raw ≡ valid ds
unfolding check_child
child_complete n i absent ds h = cc
child_complete n i malformed ds h = absurd h
child_complete n i (indexes raw) ds (same, once, all) =
    rw (same, (Distinct-iff ds).1 once) (indexes_complete n i ds all)

bind_sound :
    (a : Checked (List ℕ)) (b : Checked (List (List ℕ))) (all : List (List ℕ))
    → (a >>= λ ds. b >>= λ later. valid (ds ∷ later)) ≡ valid all
    → (ds : List ℕ) × (later : List (List ℕ)) × (a ≡ valid ds)
      × (b ≡ valid later)
      × (ds ∷ later ≡ all)
bind_sound (invalid e) b all h = absurd (ground arith)
bind_sound (valid ds) (invalid e) all h = absurd (ground arith)
bind_sound (valid ds) (valid later) all h = (ds, later, refl, refl, ground arith)

-- The first loop collects the dependencies that agree with the request, and passes only if there
-- are such.
pub children_sound :
    (n i : ℕ) (children : List DependsOn) (deps : List (List ℕ))
    → check_children n i children ≡ valid deps
    → AgreeAll n i children deps
unfolding check_children
children_sound n i [] [] h = tt
children_sound n i [] (ds ∷ deps) h = absurd (ground arith)
children_sound n i (raw ∷ rest) deps h =
    let (ds, later, a, b, e) =
      bind_sound (check_child n i raw) (check_children n (i + 1) rest) deps h in
    subst (AgreeAll n i (raw ∷ rest)) e
      (child_sound n i raw ds a, children_sound n (i + 1) rest later b)

pub children_complete :
    (n i : ℕ) (children : List DependsOn) (deps : List (List ℕ))
    → AgreeAll n i children deps
    → check_children n i children ≡ valid deps
unfolding check_children
children_complete n i [] [] h = refl
children_complete n i [] (ds ∷ deps) h = absurd h
children_complete n i (raw ∷ rest) [] h = absurd h
children_complete n i (raw ∷ rest) (ds ∷ later) (a, b) =
    rw (child_complete n i raw ds a, children_complete n (i + 1) rest later b)

pub length-AgreeAll :
    (n i : ℕ) (children : List DependsOn) (deps : List (List ℕ))
    → AgreeAll n i children deps
    → length deps ≡ length children
length-AgreeAll n i [] [] h = refl
length-AgreeAll n i [] (ds ∷ deps) h = absurd h
length-AgreeAll n i (raw ∷ rest) [] h = absurd h
length-AgreeAll n i (raw ∷ rest) (ds ∷ later) (a, b) =
    ap suc (length-AgreeAll n (i + 1) rest later b)

All-In : (n i : ℕ) (ds : List ℕ) (j : ℕ) → All (λ d. (d < n) × (d ≢ i)) ds → In j ds → j < n
All-In n i [] j all m = elim m [ ]
All-In n i (d ∷ ds) j ((lt, ne), all) m = elim m [
  | inl e ↦ omega arith
  | inr k ↦ All-In n i ds j all k
]

child_range :
    (n i : ℕ) (raw : DependsOn) (ds : List ℕ) (j : ℕ) → Agrees n i raw ds → In j ds → j < n
child_range n i absent [] j h m = elim m [ ]
child_range n i absent (d ∷ ds) j h m = absurd (ground arith)
child_range n i malformed ds j h m = absurd h
child_range n i (indexes raw) ds j h m = All-In n i ds j h.2 m

pub dependencies_range :
    (n i : ℕ) (children : List DependsOn) (deps : List (List ℕ)) (k j : ℕ)
    → AgreeAll n i children deps
    → In j (dependencies_of deps k)
    → j < n
dependencies_range n i [] [] k j h m = elim m [ ]
dependencies_range n i [] (ds ∷ deps) k j h m = absurd h
dependencies_range n i (raw ∷ rest) [] k j h m = absurd h
dependencies_range n i (raw ∷ rest) (ds ∷ later) zero j (a, b) m = child_range n i raw ds j a m
dependencies_range n i (raw ∷ rest) (ds ∷ later) (suc k) j (a, b) m =
    dependencies_range n (i + 1) rest later k j b m

-- An error that the first loop can report.
abbrev pub IsShapeError : {A : Type 0} → Checked A → Type 0
IsShapeError (valid a) = Unit
IsShapeError (invalid cycle) = ⊥
IsShapeError (invalid (not_indexes i)) = Unit
IsShapeError (invalid (duplicate i)) = Unit
IsShapeError (invalid (unknown i)) = Unit
IsShapeError (invalid (itself i)) = Unit

bind_shape :
    {A B : Type 0} (a : Checked A) (f : A → Checked B)
    → IsShapeError a
    → ((x : A) → IsShapeError (f x))
    → IsShapeError (a >>= f)
bind_shape (valid x) f h k = k x
bind_shape (invalid (not_indexes i)) f h k = tt
bind_shape (invalid (duplicate i)) f h k = tt
bind_shape (invalid (unknown i)) f h k = tt
bind_shape (invalid (itself i)) f h k = tt
bind_shape (invalid cycle) f h k = absurd h

if_shape :
    {A : Type 0} (b : Bool) (x y : Checked A)
    → IsShapeError x
    → IsShapeError y
    → IsShapeError (if b then x else y)
if_shape true x y h k = h
if_shape false x y h k = k

indexes_shape : (n i : ℕ) (raw : List ℤ) → IsShapeError (check_indexes n i raw)
unfolding check_indexes
indexes_shape n i [] = tt
indexes_shape n i (negsuc d ∷ rest) = tt
indexes_shape n i (pos d ∷ rest) = if_shape (leb n d) _ _ tt (
    if_shape (d == i) _ _ tt
      (bind_shape (check_indexes n i rest) _ (indexes_shape n i rest) (λ x. tt)))

child_shape : (n i : ℕ) (raw : DependsOn) → IsShapeError (check_child n i raw)
unfolding check_child
child_shape n i absent = tt
child_shape n i malformed = tt
child_shape n i (indexes raw) = if_shape (has_duplicates raw) _ _ tt (indexes_shape n i raw)

pub children_shape :
    (n i : ℕ) (children : List DependsOn) → IsShapeError (check_children n i children)
unfolding check_children
children_shape n i [] = tt
children_shape n i (raw ∷ rest) =
    bind_shape (check_child n i raw) _ (child_shape n i raw)
      (λ ds. bind_shape (check_children n (i + 1) rest) _ (children_shape n (i + 1) rest) (λ x. tt))

-- The first loop never reports a cycle.
pub children-ne-cycle :
    (n i : ℕ) (children : List DependsOn) → check_children n i children ≢ invalid cycle
children-ne-cycle n i children e = subst IsShapeError e (children_shape n i children)
