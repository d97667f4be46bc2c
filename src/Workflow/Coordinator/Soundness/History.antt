-- ===== src/Workflow/Coordinator/Soundness/History.antt =====
-- Histories of dispatches grow at their end (services/board-workflow.ts).
use infinite_kanban.Prelude.{
  ℕ, suc, ◌+◌, ◌≡◌, ◌≤◌, refl, sym, ap, ◌∙◌, subst, String, Option, none, some, inl, inr, ◌⊎◌, In,
  Option-cases, List, [], ◌∷◌, ◌++◌, arith, length, get_last?, find, or_else, All, if◌then◌else◌,
}
use mathlib.Core.Option.{some-injective, none-ne-some}
use mathlib.Core.List.{reverse_aux}
use infinite_kanban.Workflow.RunStore.{WorkflowDispatch}
use infinite_kanban.Workflow.Coordinator.Session.{update_last}
use infinite_kanban.Workflow.Coordinator.Dispatching.{is_implementation_result, last_implementation}
use infinite_kanban.Workflow.Coordinator.Soundness.{
  Maker, maker_of, latest, revision_made, IsPaired, IsBound, Paired, IsClosed, Settled, IsHistory,
}

pub length-append :
    (ds : List WorkflowDispatch) (d : WorkflowDispatch) → length (ds ++ d ∷ []) ≡ length ds + 1
length-append [] d = refl
length-append (e ∷ ds) d = ground (arith, length-append ds d)

pub last-append :
    (ds : List WorkflowDispatch) (d : WorkflowDispatch) → get_last? (ds ++ d ∷ []) ≡ some d
last-append [] d = refl
last-append (e ∷ []) d = refl
last-append (e ∷ f ∷ ds) d = last-append (f ∷ ds) d

latest-append :
    (m : Option Maker) (ds : List WorkflowDispatch) (d : WorkflowDispatch)
    → latest m (ds ++ d ∷ []) ≡ or_else (maker_of d) (latest m ds)
latest-append m [] d = refl
latest-append m (e ∷ ds) d = latest-append (or_else (maker_of e) m) ds d

Paired-append :
    (m : Option Maker) (ds : List WorkflowDispatch) (d : WorkflowDispatch)
    → Paired m ds
    → IsPaired (latest m ds) d × IsBound d
    → Paired m (ds ++ d ∷ [])
Paired-append m [] d p q = (q, tt)
Paired-append m (e ∷ ds) d (g, p) q = (g, Paired-append (or_else (maker_of e) m) ds d p q)

Paired-parts :
    (m : Option Maker) (ds : List WorkflowDispatch) (d : WorkflowDispatch)
    → Paired m (ds ++ d ∷ [])
    → Paired m ds × (IsPaired (latest m ds) d × IsBound d)
Paired-parts m [] d (q, p) = (tt, q)
Paired-parts m (e ∷ ds) d (g, p) =
    let (p', q) = Paired-parts (or_else (maker_of e) m) ds d p in ((g, p'), q)

Settled-append :
    (ds : List WorkflowDispatch) (d : WorkflowDispatch) → All IsClosed ds → Settled (ds ++ d ∷ [])
Settled-append [] d c = tt
Settled-append (e ∷ []) d (c, cs) = (c, tt)
Settled-append (e ∷ f ∷ ds) d (c, cs) = (c, Settled-append (f ∷ ds) d cs)

Settled-parts :
    (ds : List WorkflowDispatch) (d : WorkflowDispatch) → Settled (ds ++ d ∷ []) → All IsClosed ds
Settled-parts [] d s = tt
Settled-parts (e ∷ []) d (c, s) = (c, tt)
Settled-parts (e ∷ f ∷ ds) d (c, s) = (c, Settled-parts (f ∷ ds) d s)

-- The last dispatch, if there is one, is closed.
abbrev pub EndsClosed : List WorkflowDispatch → Type 0
EndsClosed ds = (d : WorkflowDispatch) → get_last? ds ≡ some d → IsClosed d

Settled-IsClosed : (ds : List WorkflowDispatch) → Settled ds → EndsClosed ds → All IsClosed ds
Settled-IsClosed [] s e = tt
Settled-IsClosed (d ∷ []) s e = (e d refl, tt)
Settled-IsClosed (d ∷ f ∷ ds) (c, s) e = (c, Settled-IsClosed (f ∷ ds) s e)

-- A list with a last element is its front and this element.
split_last :
    (ds : List WorkflowDispatch) (d : WorkflowDispatch)
    → get_last? ds ≡ some d
    → (front : List WorkflowDispatch) × (ds ≡ front ++ d ∷ [])
      × ((f : WorkflowDispatch → WorkflowDispatch) → update_last f ds ≡ front ++ f d ∷ [])
split_last [] d h = absurd (none-ne-some d h)
split_last (e ∷ []) d h =
    let same = some-injective e d h in ([], ap (λ x. x ∷ []) same, λ f. ap (λ x. f x ∷ []) same)
split_last (e ∷ g ∷ ds) d h =
    let (front, whole, changed) = split_last (g ∷ ds) d h in
    (e ∷ front, ap (λ xs. e ∷ xs) whole, λ f. ap (λ xs. e ∷ xs) (changed f))

pub update_last-none :
    (f : WorkflowDispatch → WorkflowDispatch) (ds : List WorkflowDispatch)
    → get_last? ds ≡ none
    → update_last f ds ≡ ds
update_last-none f [] h = refl
update_last-none f (d ∷ []) h = absurd (none-ne-some d (sym h))
update_last-none f (d ∷ e ∷ ds) h = ap (λ xs. d ∷ xs) (update_last-none f (e ∷ ds) h)

pub last-update_last :
    (f : WorkflowDispatch → WorkflowDispatch) (ds : List WorkflowDispatch) (d : WorkflowDispatch)
    → get_last? ds ≡ some d
    → get_last? (update_last f ds) ≡ some (f d)
last-update_last f ds d h =
    let (front, whole, changed) = split_last ds d h in rw (changed f) (last-append front (f d))

-- A dispatch is added behind a closed one.
pub IsHistory-append :
    (ds : List WorkflowDispatch) (limit : ℕ) (accepted : Option String) (d : WorkflowDispatch)
    → IsHistory ds limit accepted
    → EndsClosed ds
    → suc (length ds) ≤ limit
    → IsPaired (latest none ds) d × IsBound d
    → maker_of d ≡ none
    → IsHistory (ds ++ d ∷ []) limit accepted
IsHistory-append ds limit accepted d (bound, paired, settled, produced) ends room good fresh = (
  rw (length-append ds d) (omega arith),
  Paired-append none ds d paired good,
  Settled-append ds d (Settled-IsClosed ds settled ends),
  produced ∙ ap revision_made (sym (latest-append none ds d ∙ rw fresh refl)),
)

-- The last dispatch is changed, and with it the revision that counts as accepted.
pub IsHistory-update :
    (ds : List WorkflowDispatch) (limit : ℕ) (accepted accepted' : Option String)
    (d : WorkflowDispatch) (f : WorkflowDispatch → WorkflowDispatch)
    → get_last? ds ≡ some d
    → ((m : Option Maker) → IsPaired m d → IsPaired m (f d))
    → (IsBound d → IsBound (f d))
    → ((m : Option Maker)
        → accepted ≡ revision_made (or_else (maker_of d) m)
        → accepted' ≡ revision_made (or_else (maker_of (f d)) m))
    → IsHistory ds limit accepted
    → IsHistory (update_last f ds) limit accepted'
IsHistory-update ds limit accepted accepted' d f last pairs binds makes history =
    let (front, whole, changed) = split_last ds d last in
    let (bound, paired, settled, produced) =
      subst (λ xs. IsHistory xs limit accepted) whole history in
    let (before, (paired', bound')) = Paired-parts none front d paired in
    let made =
      makes (latest none front) (produced ∙ ap revision_made (latest-append none front d)) in
    subst (λ xs. IsHistory xs limit accepted') (sym (changed f))
      (
        rw (length-append front (f d)) (rw (length-append front d) at bound),
        Paired-append none front (f d) before (pairs (latest none front) paired', binds bound'),
        Settled-append front (f d) (Settled-parts front d settled),
        made ∙ ap revision_made (sym (latest-append none front (f d))),
      )

-- What is known of the last dispatch.
pub IsHistory-last :
    (ds : List WorkflowDispatch) (limit : ℕ) (accepted : Option String) (d : WorkflowDispatch)
    → get_last? ds ≡ some d
    → IsHistory ds limit accepted
    → (m : Option Maker) × (IsPaired m d × IsBound d)
      × (accepted ≡ revision_made (or_else (maker_of d) m))
      × (latest none ds ≡ or_else (maker_of d) m)
IsHistory-last ds limit accepted d last history =
    let (front, whole, changed) = split_last ds d last in
    let (bound, paired, settled, produced) =
      subst (λ xs. IsHistory xs limit accepted) whole history in
    let (before, good) = Paired-parts none front d paired in
    (
      latest none front,
      good,
      produced ∙ ap revision_made (latest-append none front d),
      ap (latest none) whole ∙ latest-append none front d,
    )

maker_step : (o m : Option Maker) (k : Maker) → or_else o m ≡ some k → (o ≡ some k) ⊎ (m ≡ some k)
maker_step none m k h = inr h
maker_step (some k') m k h = inl h

-- The maker of the newest accepted implementation is a dispatch's.
pub latest-In :
    (m : Option Maker) (ds : List WorkflowDispatch) (k : Maker)
    → latest m ds ≡ some k
    → (m ≡ some k) ⊎ ((i : WorkflowDispatch) × In i ds × (maker_of i ≡ some k))
latest-In m [] k h = inl h
latest-In m (d ∷ ds) k h = elim (latest-In (or_else (maker_of d) m) ds k h) [
  | inr (i, found, made) ↦ inr (i, inr found, made)
  | inl here ↦ elim (maker_step (maker_of d) m k here) [
    | inl made ↦ inr (d, inl refl, made)
    | inr before ↦ inl before
  ]
]

-- The maker of what `find` returns.
abbrev pub maker_found : Option WorkflowDispatch → Option Maker
maker_found none = none
maker_found (some d) = maker_of d

found_step :
    (d : WorkflowDispatch) (o : Option WorkflowDispatch)
    → maker_found (if is_implementation_result d then some d else o)
      ≡ or_else (maker_of d) (maker_found o)
found_step d o = ground arith

found_latest :
    (ds acc : List WorkflowDispatch)
    → maker_found (find is_implementation_result (reverse_aux ds acc))
      ≡ latest (maker_found (find is_implementation_result acc)) ds
found_latest [] acc = refl
found_latest (d ∷ ds) acc =
    found_latest ds (d ∷ acc)
    ∙ ap (λ m. latest m ds) (found_step d (find is_implementation_result acc))

pub maker-last_implementation :
    (ds : List WorkflowDispatch) → maker_found (last_implementation ds) ≡ latest none ds
unfolding last_implementation
maker-last_implementation ds = found_latest ds []

-- The last dispatch, if there is one, is changed, but not in what it was for and has brought.
pub IsHistory-adjust :
    (ds : List WorkflowDispatch) (limit : ℕ) (accepted : Option String)
    (f : WorkflowDispatch → WorkflowDispatch)
    → ((m : Option Maker) (d : WorkflowDispatch) → IsPaired m d → IsPaired m (f d))
    → ((d : WorkflowDispatch) → get_last? ds ≡ some d → IsBound d → IsBound (f d))
    → ((d : WorkflowDispatch) → maker_of (f d) ≡ maker_of d)
    → IsHistory ds limit accepted
    → IsHistory (update_last f ds) limit accepted
IsHistory-adjust ds limit accepted f pairs binds makes history =
    elim (Option-cases (get_last? ds)) [
      | inl gone ↦
          subst (λ xs. IsHistory xs limit accepted) (sym (update_last-none f ds gone)) history
      | inr (d, last) ↦
          IsHistory-update ds limit accepted accepted d f last (λ m p. pairs m d p) (binds d last)
            (λ m e. rw (makes d) e) history
    ]

-- What is known of the last dispatch after the change.
pub last_adjusted :
    (f : WorkflowDispatch → WorkflowDispatch) (ds : List WorkflowDispatch) (e : WorkflowDispatch)
    → get_last? (update_last f ds) ≡ some e
    → (d : WorkflowDispatch) × (get_last? ds ≡ some d) × (e ≡ f d)
last_adjusted f ds e found = elim (Option-cases (get_last? ds)) [
  | inl gone ↦
      absurd (none-ne-some e (sym (ap get_last? (update_last-none f ds gone) ∙ gone) ∙ found))
  | inr (d, last) ↦ (d, last, some-injective e (f d) (sym found ∙ last-update_last f ds d last))
]
