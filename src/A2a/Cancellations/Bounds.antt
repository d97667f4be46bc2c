-- ===== src/A2a/Cancellations/Bounds.antt =====
-- What the log of cancellations remembers (a2a/cancellations.ts).
use infinite_kanban.Prelude.{
  ◌+◌, ◌≤◌, ◌≡◌, ◌⊎◌, inl, inr, refl, sym, ap, String, true, some, List, [], ◌∷◌, ◌++◌, arith,
  string_eq, leb, length, contains, In, In-contains, contains-In, head?, Bool-cases,
}
use infinite_kanban.A2a.Cancellations.{
  max_tracked_cancellations, without_oldest, add_id, mark, is_marked, log_of,
}

length-snoc : (xs : List String) (x : String) → length (xs ++ x ∷ []) ≡ length xs + 1
length-snoc [] x = refl
length-snoc (y ∷ xs) x = let h = length-snoc xs x in omega (arith, h)

In-snoc : (xs : List String) (x y : String) → (y ≡ x) ⊎ In y xs → In y (xs ++ x ∷ [])
In-snoc [] x y m = m
In-snoc (z ∷ xs) x y m = elim m [
  | inl e ↦ inr (In-snoc xs x y (inl e))
  | inr k ↦ elim k [ inl e ↦ inl e | inr k' ↦ inr (In-snoc xs x y (inr k')) ]
]

length-add_id : (id : String) (ids : List String) → length (add_id id ids) ≤ length ids + 1
length-add_id id ids = let h = length-snoc ids id in ground (arith, h)

added : (id : String) (ids : List String) → In id (add_id id ids)
added id ids = elim (Bool-cases (contains ids id)) [
  | inl there ↦ rw there (contains-In ids id there)
  | inr new ↦ rw new (In-snoc ids id id (inl refl))
]

kept : (id x : String) (ids : List String) → In x ids → In x (add_id id ids)
kept id x ids m = elim (Bool-cases (contains ids id)) [
  | inl there ↦ rw there m
  | inr new ↦ rw new (In-snoc ids id x (inr m))
]

-- A mark of a log within the bound keeps it within the bound and remembers the task; it forgets no
-- task but the oldest one, and that only if the log was full.
mark_lem :
    (id : String) (ids : List String)
    → length ids ≤ max_tracked_cancellations
    → (length (mark id ids) ≤ max_tracked_cancellations)
      × In id (mark id ids)
      × ((x : String)
          → In x ids
          → In x (mark id ids) ⊎ ((max_tracked_cancellations ≤ length ids) × (head? ids ≡ some x)))
unfolding mark
mark_lem id ids small = elim (Bool-cases (leb max_tracked_cancellations (length ids))) [
  | inl full ↦ rw full (full_mark ids small (ground (arith, full)))
  | inr room ↦ rw room (
    (let h = length-add_id id ids in ground (arith, h, room)),
    added id ids,
    λ x m. inl (kept id x ids m),
  )
]
  where
    full_mark :
        (ids : List String)
        → length ids ≤ max_tracked_cancellations
        → max_tracked_cancellations ≤ length ids
        → (length (add_id id (without_oldest ids)) ≤ max_tracked_cancellations)
          × In id (add_id id (without_oldest ids))
          × ((x : String)
              → In x ids
              → In x (add_id id (without_oldest ids))
                ⊎ ((max_tracked_cancellations ≤ length ids) × (head? ids ≡ some x)))
    full_mark [] small full = absurd (omega (arith, full))
    full_mark (y ∷ ids) small full = (
      (let h = length-add_id id ids in omega (arith, h, small)),
      added id ids,
      λ x m. elim m [ inl e ↦ inr (full, ap some (sym e)) | inr k ↦ inl (kept id x ids k) ],
    )

log_bounded : (ids : List String) → length (log_of ids) ≤ max_tracked_cancellations
unfolding log_of
log_bounded [] = omega arith
log_bounded (id ∷ earlier) = (mark_lem id (log_of earlier) (log_bounded earlier)).0

-- After any marks the log holds at most five hundred tasks, the last one marked among them, and a
-- further mark forgets no task but the oldest, and that only if the log holds five hundred.
pub log_remembers :
    (id : String) (earlier : List String)
    → (length (log_of (id ∷ earlier)) ≤ max_tracked_cancellations)
      × (is_marked id (log_of (id ∷ earlier)) ≡ true)
      × ((x : String)
          → is_marked x (log_of earlier) ≡ true
          → (is_marked x (log_of (id ∷ earlier)) ≡ true)
            ⊎ ((length (log_of earlier) ≡ max_tracked_cancellations)
                × (head? (log_of earlier) ≡ some x)))
unfolding log_of is_marked
log_remembers id earlier =
    let old = log_of earlier in
    let small = log_bounded earlier in
    let (bound, there, others) = mark_lem id old small in
    (
      bound,
      In-contains (mark id old) id there,
      λ x m. elim (others x (contains-In old x m)) [
        | inl stays ↦ inl (In-contains (mark id old) x stays)
        | inr (full, first) ↦ inr (omega (arith, small, full), first)
      ],
    )
