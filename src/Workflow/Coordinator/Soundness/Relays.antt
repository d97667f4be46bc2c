-- ===== src/Workflow/Coordinator/Soundness/Relays.antt =====
-- Progress is not relayed again (`relayProgress` of services/board-workflow.ts).
use infinite_kanban.Prelude.{
  contains-append, ℕ, ◌-◌, ◌≡◌, ◌≤◌, refl, sym, ap, ◌∙◌, String, Bool, true, false, not, List, [],
  ◌∷◌, ◌++◌, arith, ◌==◌, ==_iff, string_eq, filter, filter-complete, contains, contains-In,
  In-contains, In, length, map, value_or, Bool-cases, inl, inr, ◌⊎◌, subst, get_last?, some,
}
use infinite_kanban.Workflow.RunStore.{BoardWorkflowRun, WorkflowDispatch}
use infinite_kanban.Workflow.Coordinator.Session.{
  Surroundings, Session, Effect, saved, relayed_progress, did, save_run, RemoteProgress,
}
use infinite_kanban.Workflow.Coordinator.Ticking.{
  max_relayed, drop, keep_last, distinct, fresh_progress, relay_each, with_relayed, relay_fresh,
  relay_progress,
}
use infinite_kanban.Workflow.Coordinator.Soundness.History.{last-update_last}

distinct-In : (xs : List String) (a : String) → In a xs → In a (distinct xs)
distinct-In [] a m = m
distinct-In (x ∷ xs) a m = elim m [
  | inl e ↦ inl e
  | inr k ↦ elim (Bool-cases (x == a)) [
    | inl same ↦ inl (sym ((==_iff x a).0 same))
    | inr other ↦ inr (
        filter-complete (λ y. not (x == y)) (distinct xs) (ground (arith, other))
          (distinct-In xs a k))
  ]
]

drop_zero : (xs : List String) → drop 0 xs ≡ xs
drop_zero [] = refl
drop_zero (x ∷ xs) = refl

keep_last-all : (n : ℕ) (xs : List String) → length xs ≤ n → keep_last n xs ≡ xs
keep_last-all n xs h =
    let none_over : length xs - n ≡ 0 = omega arith in ap (λ k. drop k xs) none_over ∙ drop_zero xs

abbrev pub ids : List RemoteProgress → List String
ids history = map (λ (e : RemoteProgress). e.message_id) history

ids-In :
    (history : List RemoteProgress) (e : RemoteProgress)
    → In e history
    → In e.message_id (ids history)
ids-In [] e m = elim m [ ]
ids-In (x ∷ history) e m = elim m [
  | inl same ↦ inl (ap (λ (y : RemoteProgress). y.message_id) same)
  | inr k ↦ inr (ids-In history e k)
]

filter-none :
    (p : RemoteProgress → Bool) (xs : List RemoteProgress)
    → ((e : RemoteProgress) → In e xs → p e ≡ false)
    → filter p xs ≡ []
filter-none p [] h = refl
filter-none p (x ∷ xs) h = rw (h x (inl refl)) (filter-none p xs (λ e m. h e (inr m)))

abbrev pub all_ids : WorkflowDispatch → List RemoteProgress → List String
all_ids d history = distinct (value_or d.relayed []) ++ ids (fresh_progress d history)

relayed-known :
    (d : WorkflowDispatch) (history : List RemoteProgress) (e : RemoteProgress)
    → In e history
    → contains (all_ids d history) e.message_id ≡ true
unfolding fresh_progress
relayed-known d history e m =
    contains-append (distinct (value_or d.relayed [])) (ids (fresh_progress d history)) e.message_id
    ∙ elim (Bool-cases (contains (value_or d.relayed []) e.message_id)) [
      | inl old ↦
          let kept = In-contains _ e.message_id (
            distinct-In (value_or d.relayed []) e.message_id
              (contains-In (value_or d.relayed []) e.message_id old)) in
          ground (arith, kept)
      | inr new ↦
          let kept = In-contains (ids (fresh_progress d history)) e.message_id (
            ids-In (fresh_progress d history) e (
              filter-complete
                (λ (x : RemoteProgress). not (contains (value_or d.relayed []) x.message_id))
                history (ap not new) m)) in
          ground (arith, kept)
    ]

-- A dispatch that remembers what a poll relayed finds nothing fresh in the same history.
remembered :
    (d : WorkflowDispatch) (history later : List RemoteProgress)
    → length (all_ids d history) ≤ max_relayed
    → ((e : RemoteProgress) → In e later → In e history)
    → fresh_progress (with_relayed (fresh_progress d history) d) later ≡ []
unfolding fresh_progress
remembered d history later room part = filter-none _ later (λ e m.
    ap (λ xs. not (contains xs e.message_id)) (keep_last-all max_relayed (all_ids d history) room)
    ∙ ap not (relayed-known d history e (part e m)))

-- Where a history has nothing fresh, no part of it has.
nothing_fresh :
    (d : WorkflowDispatch) (history later : List RemoteProgress)
    → fresh_progress d history ≡ []
    → ((e : RemoteProgress) → In e later → In e history)
    → fresh_progress d later ≡ []
unfolding fresh_progress
nothing_fresh d history later none_new part =
    let is_new : RemoteProgress → Bool =
      λ (e : RemoteProgress). not (contains (value_or d.relayed []) e.message_id) in
    filter-none is_new later (λ e m. elim (Bool-cases (is_new e)) [
      | inr old ↦ old
      | inl new ↦
          absurd (subst (λ xs. In e xs) none_new (filter-complete is_new history new (part e m)))
    ])

relay_each-run : (fresh : List RemoteProgress) (s : Session) → (relay_each fresh s).run ≡ s.run
relay_each-run [] s = refl
relay_each-run (e ∷ rest) s = relay_each-run rest (did (relayed_progress e) s)

silent-relay :
    (env : Surroundings) (d : WorkflowDispatch) (later : List RemoteProgress) (s : Session)
    → fresh_progress d later ≡ []
    → relay_progress env d later s ≡ s
unfolding relay_progress
silent-relay env d later s none_new = elim (Bool-cases env.has_sink) [
  | inl sink ↦ rw (sink, none_new) refl
  | inr deaf ↦ rw deaf refl
]

-- Nothing was done, or the last thing done was to save the run that the session holds.
abbrev pub IsKept : Session → Session → Type 0
IsKept s s' = (s' ≡ s) ⊎ ((before : List Effect) × (s'.trace ≡ saved s'.run ∷ before))

-- What a poll leaves, whatever it found fresh.
abbrev IsRelayed : List RemoteProgress → WorkflowDispatch → Session → Session → Type 0
IsRelayed fresh d s s' =
    ((fresh ≡ []) × (s' ≡ s))
    ⊎ ((get_last? s'.run.assignments ≡ some (with_relayed fresh d))
        × ((before : List Effect) × (s'.trace ≡ saved s'.run ∷ before)))

relay_fresh-IsRelayed :
    (fresh : List RemoteProgress) (d : WorkflowDispatch) (s : Session)
    → get_last? s.run.assignments ≡ some d
    → IsRelayed fresh d s (relay_fresh fresh s)
unfolding save_run
relay_fresh-IsRelayed [] d s last = inl (refl, refl)
relay_fresh-IsRelayed (e ∷ rest) d s last =
    let s' = relay_each (e ∷ rest) s in
    let same : get_last? s'.run.assignments ≡ some d =
      ap (λ (r : BoardWorkflowRun). get_last? r.assignments) (relay_each-run (e ∷ rest) s) ∙ last in
    inr (last-update_last (with_relayed (e ∷ rest)) s'.run.assignments d same, (s'.trace, refl))

relay_progress-IsRelayed :
    (env : Surroundings) (d : WorkflowDispatch) (history : List RemoteProgress) (s : Session)
    → env.has_sink ≡ true
    → get_last? s.run.assignments ≡ some d
    → IsRelayed (fresh_progress d history) d s (relay_progress env d history s)
unfolding relay_progress
relay_progress-IsRelayed env d history s sink last =
    rw sink (relay_fresh-IsRelayed (fresh_progress d history) d s last)

relay_each-keeps :
    (fresh : List RemoteProgress) (s : Session) (x : Effect)
    → In x s.trace
    → In x (relay_each fresh s).trace
relay_each-keeps [] s x m = m
relay_each-keeps (e ∷ rest) s x m = relay_each-keeps rest (did (relayed_progress e) s) x (inr m)

relay_each-relays :
    (fresh : List RemoteProgress) (s : Session) (e : RemoteProgress)
    → In e fresh
    → In (relayed_progress e) (relay_each fresh s).trace
relay_each-relays [] s e m = elim m [ ]
relay_each-relays (x ∷ rest) s e m = elim m [
  | inl same ↦
      relay_each-keeps rest (did (relayed_progress x) s) (relayed_progress e)
        (inl (ap relayed_progress same))
  | inr k ↦ relay_each-relays rest (did (relayed_progress x) s) e k
]

relay_fresh-relays :
    (fresh : List RemoteProgress) (s : Session) (e : RemoteProgress)
    → In e fresh
    → In (relayed_progress e) (relay_fresh fresh s).trace
unfolding save_run
relay_fresh-relays [] s e m = elim m [ ]
relay_fresh-relays (x ∷ rest) s e m = inr (relay_each-relays (x ∷ rest) s e m)

relay_progress-relays :
    (env : Surroundings) (d : WorkflowDispatch) (history : List RemoteProgress) (s : Session)
    → env.has_sink ≡ true
    → (e : RemoteProgress) → In e history
    → contains (value_or d.relayed []) e.message_id ≡ false
    → In (relayed_progress e) (relay_progress env d history s).trace
unfolding relay_progress fresh_progress
relay_progress-relays env d history s sink e m new =
    rw sink (relay_fresh-relays _ s e (filter-complete _ history (ap not new) m))

-- Where events are recorded, a poll relays every entry of its history whose id the run's last
-- dispatch does not remember; it either changes nothing or ends with a save of the run; and after
-- it the last dispatch is one for which a later poll does nothing with the same history, or any
-- part of it: as long as the ids that the dispatch remembered, each once, and those that were
-- fresh are together no more than `max_relayed`.
pub relayed_once :
    (env env' : Surroundings) (d : WorkflowDispatch) (history later : List RemoteProgress)
    (s : Session)
    → env.has_sink ≡ true
    → get_last? s.run.assignments ≡ some d
    → length (all_ids d history) ≤ max_relayed
    → ((e : RemoteProgress) → In e later → In e history)
    → ((e : RemoteProgress)
        → In e history
        → contains (value_or d.relayed []) e.message_id ≡ false
        → In (relayed_progress e) (relay_progress env d history s).trace)
      × IsKept s (relay_progress env d history s)
      × ((d' : WorkflowDispatch) × (get_last? (relay_progress env d history s).run.assignments
            ≡ some d')
          × (relay_progress env' d' later (relay_progress env d history s)
              ≡ relay_progress env d history s))
relayed_once env env' d history later s sink last room part =
    let s' = relay_progress env d history s in
    elim (relay_progress-IsRelayed env d history s sink last) [
      | inl (none_new, same) ↦ (
        relay_progress-relays env d history s sink,
        inl same,
        (
          d,
          ap (λ (x : Session). get_last? x.run.assignments) same ∙ last,
          silent-relay env' d later s' (nothing_fresh d history later none_new part),
        ),
      )
      | inr (told, kept) ↦ (
        relay_progress-relays env d history s sink,
        inr kept,
        (
          with_relayed (fresh_progress d history) d,
          told,
          silent-relay env' (with_relayed (fresh_progress d history) d) later s'
              (remembered d history later room part),
        ),
      )
    ]
