-- ===== src/Broadcast/Transcript.antt =====
-- What the clients have of a task's events (services/agent-manager.ts).
use infinite_kanban.Prelude.{
  ℕ, ◌≡◌, refl, sym, ap, ◌∙◌, String, true, false, Option, none, some, List, [], ◌∷◌, ◌++◌, map,
  ◌==◌, string_eq, ==_iff, ==_refl, inl, inr, Bool-cases, if◌then◌else◌,
}
use mathlib.Core.Option.{some-injective, none-ne-some}
use infinite_kanban.Broadcast.{AgentEvent, Feed, broadcast, with_buffer, flushed, hold}

-- A code point, with the type of the event that shows it.
abbrev pub letters : AgentEvent → List (String × ℕ)
letters e = map (λ c. (e.type, c)) e.content

abbrev pub transcript : String → List AgentEvent → List (String × ℕ)
transcript t [] = []
transcript t (e ∷ es) =
    let rest = transcript t es in if t == e.task_id then letters e ++ rest else rest

abbrev pub waiting : Option AgentEvent → List (String × ℕ)
waiting none = []
waiting (some e) = letters e

abbrev pub shown : String → Feed → List (String × ℕ)
shown t s = transcript t s.sent ++ waiting (s.buffers t)

-- A buffer holds an event of its task.
abbrev pub IsHeld : Feed → Type 0
IsHeld s = (t : String) (e : AgentEvent) → s.buffers t ≡ some e → e.task_id ≡ t

++_assoc : {A : Type 0} (xs ys zs : List A) → (xs ++ ys) ++ zs ≡ xs ++ (ys ++ zs)
++_assoc [] ys zs = refl
++_assoc (x ∷ xs) ys zs = ap (λ r. x ∷ r) (++_assoc xs ys zs)

pub ++_nil : {A : Type 0} (xs : List A) → xs ++ [] ≡ xs
++_nil [] = refl
++_nil (x ∷ xs) = ap (λ r. x ∷ r) (++_nil xs)

map-++ : {A B : Type 0} (f : A → B) (xs ys : List A) → map f (xs ++ ys) ≡ map f xs ++ map f ys
map-++ f [] ys = refl
map-++ f (x ∷ xs) ys = ap (λ r. f x ∷ r) (map-++ f xs ys)

pub transcript-++ :
    (t : String) (es fs : List AgentEvent)
    → transcript t (es ++ fs) ≡ transcript t es ++ transcript t fs
transcript-++ t [] fs = refl
transcript-++ t (e ∷ es) fs = elim (Bool-cases (t == e.task_id)) [
  | inl own ↦
      rw (own, transcript-++ t es fs)
        (sym (++_assoc (letters e) (transcript t es) (transcript t fs)))
  | inr other ↦ rw other (transcript-++ t es fs)
]

own-transcript :
    (t : String) (e : AgentEvent) → (t == e.task_id) ≡ true → transcript t (e ∷ []) ≡ letters e
own-transcript t e own = rw own (++_nil (letters e))

other-transcript :
    (t : String) (e : AgentEvent) → (t == e.task_id) ≡ false → transcript t (e ∷ []) ≡ []
other-transcript t e other = rw other refl

-- A flush shows no more and no less.
pub flushed-shown :
    (t task : String) (s : Feed) (b : Option AgentEvent)
    → s.buffers task ≡ b
    → IsHeld s
    → shown t (flushed task b s) ≡ shown t s
flushed-shown t task s none at_task held = refl
flushed-shown t task s (some e) at_task held = elim (Bool-cases (t == task)) [
  | inl own ↦
      let here : t ≡ task = (==_iff t task).0 own in
      let is_own : (t == e.task_id) ≡ true =
        (==_iff t e.task_id).1 (here ∙ sym (held task e at_task)) in
      rw own (
        rw (transcript-++ t s.sent (e ∷ []), own-transcript t e is_own, ap s.buffers here ∙ at_task)
          (++_nil (transcript t s.sent ++ letters e)))
  | inr other ↦
      let is_other : (t == e.task_id) ≡ false = rw (held task e at_task) other in
      rw other (
        rw
          (
            transcript-++ t s.sent (e ∷ []),
            other-transcript t e is_other,
            ++_nil (transcript t s.sent),
          )
          refl)
]

pub flushed-IsHeld :
    (task : String) (b : Option AgentEvent) (s : Feed) → IsHeld s → IsHeld (flushed task b s)
flushed-IsHeld task none s held = held
flushed-IsHeld task (some e) s held = λ t x at_t. elim (Bool-cases (t == task)) [
  | inl own ↦ absurd (none-ne-some x (rw own at at_t))
  | inr other ↦ held t x (rw other at at_t)
]

pub put-IsHeld :
    (key : String) (y : AgentEvent) (s : Feed)
    → y.task_id ≡ key
    → IsHeld s
    → IsHeld (record s { buffers = with_buffer key (some y) s.buffers })
put-IsHeld key y s named held = λ t x at_t. elim (Bool-cases (t == key)) [
  | inl own ↦
      ap (λ z. z.task_id) (sym (some-injective y x (rw own at at_t)))
      ∙ (named ∙ sym ((==_iff t key).0 own))
  | inr other ↦ held t x (rw other at at_t)
]

pub flushed_free :
    (task : String) (b : Option AgentEvent) (s : Feed)
    → s.buffers task ≡ b
    → (flushed task b s).buffers task ≡ none
flushed_free task none s at_task = at_task
flushed_free task (some e) s at_task = rw (==_refl task) refl

-- A held event, where no other waits, is shown after the rest.
pub hold-shown :
    (t : String) (e : AgentEvent) (s : Feed)
    → s.buffers e.task_id ≡ none
    → shown t (hold e s) ≡ shown t s ++ transcript t (e ∷ [])
hold-shown t e s free = elim (Bool-cases (t == e.task_id)) [
  | inl own ↦ rw own (
      rw
        (
          ap s.buffers ((==_iff t e.task_id).0 own) ∙ free,
          ++_nil (transcript t s.sent),
          ++_nil (letters e),
        )
        refl)
  | inr other ↦ rw other (sym (++_nil (shown t s)))
]

-- So is an event that is broadcast.
pub broadcast-shown :
    (t : String) (e : AgentEvent) (s : Feed)
    → s.buffers e.task_id ≡ none
    → shown t (broadcast e s) ≡ shown t s ++ transcript t (e ∷ [])
broadcast-shown t e s free = elim (Bool-cases (t == e.task_id)) [
  | inl own ↦
      rw
        (
          transcript-++ t s.sent (e ∷ []),
          ap s.buffers ((==_iff t e.task_id).0 own) ∙ free,
          ++_nil (transcript t s.sent),
        )
        (++_nil (transcript t s.sent ++ transcript t (e ∷ [])))
  | inr other ↦
      rw (transcript-++ t s.sent (e ∷ []), other-transcript t e other, ++_nil (transcript t s.sent))
        (sym (++_nil (shown t s)))
]

abbrev pub merged : AgentEvent → AgentEvent → AgentEvent
merged x e = record x { content = x.content ++ e.content }

letters-merged :
    (x e : AgentEvent) → x.type ≡ e.type → letters (merged x e) ≡ letters x ++ letters e
letters-merged x e same = rw (← same) (map-++ (λ c. (x.type, c)) x.content e.content)

-- A merged event goes on where the buffer of its task ends.
pub merge-shown :
    (t : String) (x e : AgentEvent) (s : Feed)
    → s.buffers e.task_id ≡ some x
    → x.type ≡ e.type
    → shown t (record s { buffers = with_buffer e.task_id (some (merged x e)) s.buffers })
      ≡ shown t s ++ transcript t (e ∷ [])
merge-shown t x e s at_e same = elim (Bool-cases (t == e.task_id)) [
  | inl own ↦ rw own (
      rw
        (
          ap s.buffers ((==_iff t e.task_id).0 own) ∙ at_e,
          letters-merged x e same,
          ++_nil (letters e),
        )
        (sym (++_assoc (transcript t s.sent) (letters x) (letters e))))
  | inr other ↦ rw other (sym (++_nil (shown t s)))
]
