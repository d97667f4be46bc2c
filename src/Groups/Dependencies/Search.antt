-- ===== src/Groups/Dependencies/Search.antt =====
-- The search of `validateChildDependencies` decides whether the dependencies have a cycle.
use infinite_kanban.Prelude.{
  ℕ, zero, suc, ◌+◌, ◌≤◌, ◌<◌, ◌≡◌, refl, sym, ◌⊎◌, subst, Bool, true, false, none, some, List, [],
  ◌∷◌, arith, ◌==◌, ==_iff, ==_refl, nat_eq, contains, length, All, Bool-cases, inl, inr,
  if◌then◌else◌, In, contains-In,
}
use infinite_kanban.Groups.Dependencies.{
  dependencies_of, Marks, Visit, visit_each, leave, visit, search, indexes_from, verdict, cycle,
}
use infinite_kanban.Groups.Dependencies.Bounds.{Distinct, drop-absent, pigeonhole}

module _ (deps : List (List ℕ)) where
  -- The child at `i` depends on the child at `j`.
  abbrev pub Edge : ℕ → ℕ → Type 0
  Edge i j = In j (dependencies_of deps i)

-- A way along one or more dependencies.
pub data Way (deps : List (List ℕ)) : ℕ → ℕ → Type 0 where
  step : {i j : ℕ} → Edge deps i j → Way deps i j
  more : {i j k : ℕ} → Edge deps i j → Way deps j k → Way deps i k

-- Everything that a child depends on, directly or not, can be done before it.
pub data IsDoable (deps : List (List ℕ)) : ℕ → Type 0 where
  doable : {i : ℕ} → ((j : ℕ) → Edge deps i j → IsDoable deps j) → IsDoable deps i

module _ (deps : List (List ℕ)) where
  abbrev pub Cyclic : Type 0
  Cyclic = (k : ℕ) × Way deps k k

  abbrev pub InRange : Type 0
  InRange = (i j : ℕ) → Edge deps i j → j < length deps

  extend : {i j k : ℕ} → Way deps i j → Edge deps j k → Way deps i k
  extend (step e) f = more e (step f)
  extend (more e w) f = more e (extend w f)

  -- A doable child is on no cycle.
  pub not-Way : (k : ℕ) → IsDoable deps k → Way deps k k → ⊥
  not-Way k (doable below) (step {j = j} e) = not-Way k (below k e) (step e)
  not-Way k (doable below) (more {j = j} e w) = not-Way j (below j e) (extend w e)

  abbrev AllDoable : List ℕ → Type 0
  AllDoable xs = (v : ℕ) → In v xs → IsDoable deps v

  abbrev Leads : List ℕ → ℕ → Type 0
  Leads vs i = (v : ℕ) → In v vs → Way deps v i

  record Ready (fuel : ℕ) (vs : List ℕ) : Type 0 where
    distinct : Distinct vs
    bounded : All (λ v. v < length deps) vs
    budget : length deps < fuel + length vs

  -- What a visit returns that found every child in its path doable (`P`), or else a cycle.
  abbrev Post : Type 0 → List ℕ → Visit → Type 0
  Post P vs none = ⊥
  Post P vs (some (true, m)) = Cyclic
  Post P vs (some (false, m)) = (m.visiting ≡ vs) × AllDoable m.visited × P

  abbrev VisitsWell : ℕ → (ℕ → Marks → Visit) → Type 0
  VisitsWell fuel go =
      (i : ℕ) (m : Marks)
      → Ready fuel m.visiting
      → AllDoable m.visited
      → Leads m.visiting i
      → i < length deps
      → Post (IsDoable deps i) m.visiting (go i m)

  AllDoable-cons : (i : ℕ) (xs : List ℕ) → IsDoable deps i → AllDoable xs → AllDoable (i ∷ xs)
  AllDoable-cons i xs d all v (inl e) = subst (IsDoable deps) (sym e) d
  AllDoable-cons i xs d all v (inr m) = all v m

  each_after :
      (fuel : ℕ) (go : ℕ → Marks → Visit) (i : ℕ) (rest : List ℕ) (vs : List ℕ) (r : Visit)
      → Post (IsDoable deps i) vs r
      → ((m' : Marks)
          → m'.visiting ≡ vs
          → AllDoable m'.visited
          → Post (AllDoable rest) vs (visit_each go rest m'))
      → Post (AllDoable (i ∷ rest)) vs (elim r [
        | none ↦ none
        | some (hit, m') ↦ if hit then some (true, m') else visit_each go rest m'
      ])
  each_after fuel go i rest vs none h later = h
  each_after fuel go i rest vs (some (true, m')) h later = h
  each_after fuel go i rest vs (some (false, m')) (e, all, d) later =
      widen (visit_each go rest m') d (later m' e all)
    where
      widen :
          (r : Visit)
          → IsDoable deps i
          → Post (AllDoable rest) vs r
          → Post (AllDoable (i ∷ rest)) vs r
      widen none d h = h
      widen (some (true, m)) d h = h
      widen (some (false, m)) d (e, all, ds) = (e, all, AllDoable-cons i rest d ds)

  visit_each_lem :
      (fuel : ℕ) (go : ℕ → Marks → Visit)
      → VisitsWell fuel go
      → (is : List ℕ) (vs : List ℕ) (m : Marks) → m.visiting ≡ vs
      → Ready fuel vs
      → AllDoable m.visited
      → ((j : ℕ) → In j is → Leads vs j × (j < length deps))
      → Post (AllDoable is) vs (visit_each go is m)
  unfolding visit_each
  visit_each_lem fuel go well [] vs m e ready all reach = (e, all, λ v k. elim k [ ])
  visit_each_lem fuel go well (i ∷ rest) vs m e ready all reach =
      each_after fuel go i rest vs (go i m)
        (subst (λ x. Post (IsDoable deps i) x (go i m)) e
          (well i m (subst (Ready fuel) (sym e) ready) all
            (subst (λ x. Leads x i) (sym e) (reach i (inl refl)).0) (reach i (inl refl)).1))
        (λ m' e' all'.
          visit_each_lem fuel go well rest vs m' e' ready all' (λ j k. reach j (inr k)))

  leave_lem :
      (i : ℕ) (vs : List ℕ) (r : Visit)
      → contains vs i ≡ false
      → Post (AllDoable (dependencies_of deps i)) (i ∷ vs) r
      → Post (IsDoable deps i) vs (leave i r)
  leave_lem i vs none new h = h
  leave_lem i vs (some (true, m)) new h = h
  leave_lem i vs (some (false, m)) new (e, all, ds) =
      (rw e (rw (==_refl i) (drop-absent i vs new)), marked (contains m.visited i), doable ds)
    where
      marked : (b : Bool) → AllDoable (if b then m.visited else i ∷ m.visited)
      marked true = all
      marked false = AllDoable-cons i m.visited (doable ds) all

  grow :
      (fuel i : ℕ) (vs : List ℕ)
      → contains vs i ≡ false
      → i < length deps
      → Ready (suc fuel) vs
      → Ready fuel (i ∷ vs)
  grow fuel i vs new lt r = record {
    distinct = (new, r.distinct);
    bounded = (lt, r.bounded);
    budget = omega (arith, r.budget);
  }

  no_fuel : (vs : List ℕ) → Ready zero vs → ⊥
  no_fuel vs r = omega (arith, r.budget, pigeonhole (length deps) vs r.distinct r.bounded)

  -- A visit of a child returns: it meets a cycle, or it leaves the path as it was and the child is
  -- doable.
  visit_lem : InRange → (fuel : ℕ) → VisitsWell fuel (visit deps fuel)
  unfolding visit
  visit_lem inside zero i m ready all leads lt = absurd (no_fuel m.visiting ready)
  visit_lem inside (suc fuel) i m ready all leads lt = elim (Bool-cases (contains m.visiting i)) [
    | inl on_path ↦ rw on_path (i, leads i (contains-In m.visiting i on_path))
    | inr new ↦ elim (Bool-cases (contains m.visited i)) [
      | inl seen ↦ rw (new, seen) (refl, all, all i (contains-In m.visited i seen))
      | inr unseen ↦
          rw (new, unseen)
            (leave_lem i m.visiting _ new (
              visit_each_lem fuel (visit deps fuel) (visit_lem inside fuel) (dependencies_of deps i)
                (i ∷ m.visiting) (record m { visiting = i ∷ m.visiting }) refl
                (grow fuel i m.visiting new lt ready) all
                (λ j e. (along i j m.visiting leads e, inside i j e))))
    ]
  ]
    where
      along : (i j : ℕ) (vs : List ℕ) → Leads vs i → Edge deps i j → Leads (i ∷ vs) j
      along i j vs leads e v (inl same) = subst (λ x. Way deps x j) (sym same) (step e)
      along i j vs leads e v (inr k) = extend (leads v k) e

  indexes_range :
      (i j : ℕ) (rest : List (List ℕ)) → In j (indexes_from i rest) → j < i + length rest
  indexes_range i j [] m = elim m [ ]
  indexes_range i j (ds ∷ rest) m = elim m [
    | inl e ↦ omega arith
    | inr k ↦ omega (arith, indexes_range (i + 1) j rest k)
  ]

  In-indexes :
      (i j : ℕ) (rest : List (List ℕ)) → i ≤ j → j < i + length rest → In j (indexes_from i rest)
  In-indexes i j [] le lt = absurd (omega arith)
  In-indexes i j (ds ∷ rest) le lt = elim (Bool-cases (j == i)) [
    | inl same ↦ inl ((==_iff j i).0 same)
    | inr other ↦ inr (In-indexes (i + 1) j rest (ground arith) (omega arith))
  ]

  -- The whole search: a cycle, or every child is doable. It never runs out of fuel.
  pub search_lem : InRange → Post ((i : ℕ) → i < length deps → IsDoable deps i) [] (search deps)
  unfolding search
  search_lem inside = strengthen _ (
      visit_each_lem (suc (length deps)) (visit deps (suc (length deps)))
        (visit_lem inside (suc (length deps))) (indexes_from 0 deps) []
        (record { visiting = []; visited = [] }) refl
        (record { distinct = tt; bounded = tt; budget = omega arith }) (λ v k. elim k [ ])
        (λ j m. (λ v k. elim k [ ], omega (arith, indexes_range 0 j deps m))))
    where
      strengthen :
          (r : Visit)
          → Post (AllDoable (indexes_from 0 deps)) [] r
          → Post ((i : ℕ) → i < length deps → IsDoable deps i) [] r
      strengthen none h = h
      strengthen (some (true, m)) h = h
      strengthen (some (false, m)) (e, all, ds) =
          (e, all, λ i lt. ds i (In-indexes 0 i deps (omega arith) (omega arith)))

  abbrev pub AllDone : Type 0
  AllDone = (i : ℕ) → i < length deps → IsDoable deps i

  judged :
      (r : Visit)
      → Post AllDone [] r
      → ((verdict r ≡ none) × AllDone) ⊎ ((verdict r ≡ some cycle) × Cyclic)
  judged none h = absurd h
  judged (some (true, m)) h = inr (refl, h)
  judged (some (false, m)) (e, all, done) = inl (refl, done)

  -- The verdict is right either way.
  pub search_decides :
      InRange
      → ((verdict (search deps) ≡ none) × AllDone) ⊎ ((verdict (search deps) ≡ some cycle) × Cyclic)
  search_decides inside = judged (search deps) (search_lem inside)

  pub Way-range : InRange → {i k : ℕ} → Way deps i k → k < length deps
  Way-range inside (step {i = i} {j = j} e) = inside i j e
  Way-range inside (more e w) = Way-range inside w

  pub AllDone-acyclic : InRange → AllDone → Cyclic → ⊥
  AllDone-acyclic inside done (k, w) = not-Way k (done k (Way-range inside w)) w
