-- ===== src/Broadcast/Relayed.antt =====
-- The buffers of streamed events lose and move nothing (services/agent-manager.ts).
use infinite_kanban.Prelude.{
  ◌≡◌, refl, sym, ap, ◌∙◌, String, Option, none, some, List, [], ◌∷◌, ◌++◌, ◌==◌, string_eq, ==_iff,
  contains, inl, inr, Bool-cases,
}
use mathlib.Core.Option.{none-ne-some}
use infinite_kanban.Broadcast.{
  AgentEvent, Feed, new_feed, FeedStep, emitted, timer_fired, events_reset, events_cleared,
  guard_expired, flushed, flush_buffer, buffer_after, stream, streamable, stamped, says_nothing,
  noted, emit_event, clear_events, feed_step, run_feed,
}
use infinite_kanban.Broadcast.Transcript.{
  transcript, transcript-++, waiting, shown, IsHeld, ++_nil, flushed-shown, flushed-IsHeld,
  put-IsHeld, flushed_free, hold-shown, broadcast-shown, merge-shown,
}

-- What one event adds to a feed.
abbrev Adds : AgentEvent → Feed → Feed → Type 0
Adds e s s' =
    IsHeld s'
    × (s'.inserted ≡ s.inserted)
    × ((t : String) → shown t s' ≡ shown t s ++ transcript t (e ∷ []))

flushed-inserted :
    (task : String) (b : Option AgentEvent) (s : Feed) → (flushed task b s).inserted ≡ s.inserted
flushed-inserted task none s = refl
flushed-inserted task (some e) s = refl

buffer_after-Adds :
    (e : AgentEvent) (b : Option AgentEvent) (s : Feed)
    → s.buffers e.task_id ≡ b
    → IsHeld s
    → Adds e s (buffer_after e b s)
buffer_after-Adds e none s free held =
    (put-IsHeld e.task_id e s refl held, refl, λ t. hold-shown t e s free)
buffer_after-Adds e (some x) s at_e held = elim (Bool-cases (x.type == e.type)) [
  | inl same ↦ rw same (
    put-IsHeld e.task_id (record x { content = x.content ++ e.content }) s (held e.task_id x at_e)
        held,
    refl,
    λ t. merge-shown t x e s at_e ((==_iff x.type e.type).0 same),
  )
  | inr other ↦ rw other (
    put-IsHeld e.task_id e (flushed e.task_id (some x) s) refl
        (flushed-IsHeld e.task_id (some x) s held),
    refl,
    λ t.
        hold-shown t e (flushed e.task_id (some x) s) (flushed_free e.task_id (some x) s at_e)
        ∙ ap (λ r. r ++ transcript t (e ∷ [])) (flushed-shown t e.task_id s (some x) at_e held),
  )
]

stream-Adds : (e : AgentEvent) (s : Feed) → IsHeld s → Adds e s (stream e.task_id e s)
unfolding stream flush_buffer
stream-Adds e s held = elim (Bool-cases (contains streamable e.type)) [
  | inl streamed ↦ rw streamed (buffer_after-Adds e (s.buffers e.task_id) s refl held)
  | inr plain ↦
      let b = s.buffers e.task_id in
      let flushed_s = flushed e.task_id b s in
      rw plain (
        flushed-IsHeld e.task_id b s held,
        flushed-inserted e.task_id b s,
        λ t.
            broadcast-shown t e flushed_s (flushed_free e.task_id b s refl)
            ∙ ap (λ r. r ++ transcript t (e ∷ [])) (flushed-shown t e.task_id s b refl held),
      )
]

-- Every event that the repository was given is shown, or waits.
abbrev IsRelayed : Feed → Type 0
IsRelayed s = IsHeld s × ((t : String) → shown t s ≡ transcript t s.inserted)

added-IsRelayed :
    (e : AgentEvent) (s : Feed) → IsRelayed s → IsRelayed (stream e.task_id e (noted e.task_id e s))
unfolding noted
added-IsRelayed e s (held, same) =
    let (held', given, adds) = stream-Adds e (noted e.task_id e s) held in
    (
      held',
      λ t.
          adds t
          ∙ (ap (λ r. r ++ transcript t (e ∷ [])) (same t)
              ∙ (sym (transcript-++ t s.inserted (e ∷ [])) ∙ ap (transcript t) (sym given))),
    )

emit_event-IsRelayed :
    (e : AgentEvent) (s : Feed) → IsRelayed s → IsRelayed (emit_event e.task_id e s)
unfolding emit_event
emit_event-IsRelayed e s ok = elim (Bool-cases (contains s.deleted e.task_id)) [
  | inl gone ↦ rw gone ok
  | inr kept ↦ elim (Bool-cases (says_nothing e)) [
    | inl silent ↦ rw kept (rw silent ok)
    | inr loud ↦ rw kept (rw loud (added-IsRelayed (stamped e) s ok))
  ]
]

flush_buffer-IsRelayed : (task : String) (s : Feed) → IsRelayed s → IsRelayed (flush_buffer task s)
unfolding flush_buffer
flush_buffer-IsRelayed task s (held, same) = (
  flushed-IsHeld task (s.buffers task) s held,
  λ t.
      flushed-shown t task s (s.buffers task) refl held
      ∙ (same t ∙ ap (transcript t) (sym (flushed-inserted task (s.buffers task) s))),
)

feed_step-IsRelayed : (x : FeedStep) (s : Feed) → IsRelayed s → IsRelayed (feed_step x s)
unfolding feed_step clear_events
feed_step-IsRelayed (emitted e) s ok = emit_event-IsRelayed e s ok
feed_step-IsRelayed (timer_fired task) s ok = flush_buffer-IsRelayed task s ok
feed_step-IsRelayed (events_reset task) s ok = ok
feed_step-IsRelayed (events_cleared task) s ok = ok
feed_step-IsRelayed (guard_expired task) s ok = ok

run_feed-IsRelayed : (steps : List FeedStep) (s : Feed) → IsRelayed s → IsRelayed (run_feed steps s)
unfolding run_feed
run_feed-IsRelayed [] s ok = ok
run_feed-IsRelayed (x ∷ xs) s ok =
    run_feed-IsRelayed xs (feed_step x s) (feed_step-IsRelayed x s ok)

new_feed-IsRelayed : IsRelayed new_feed
new_feed-IsRelayed = (λ t e at_t. absurd (none-ne-some e at_t), λ t. refl)

-- After any steps from an empty feed, for each task: the texts of the task's events that the clients
-- were sent, code point by code point with the type of its event, and then those that wait in its
-- buffer, are the texts of the task's events that the repository was given, in that order; and
-- after a flush of the task's buffer the clients were sent all of them.
pub feed_relays :
    (steps : List FeedStep) (t : String)
    → (transcript t (run_feed steps new_feed).sent ++ waiting ((run_feed steps new_feed).buffers t)
        ≡ transcript t (run_feed steps new_feed).inserted)
      × (transcript t (flush_buffer t (run_feed steps new_feed)).sent
          ≡ transcript t (run_feed steps new_feed).inserted)
unfolding flush_buffer
feed_relays steps t =
    let s = run_feed steps new_feed in
    let ok = run_feed-IsRelayed steps new_feed new_feed-IsRelayed in
    (
      ok.1 t,
      sym (++_nil (transcript t (flush_buffer t s).sent))
          ∙ (ap (λ b. transcript t (flush_buffer t s).sent ++ waiting b)
                (sym (flushed_free t (s.buffers t) s refl))
              ∙ (flushed-shown t t s (s.buffers t) refl ok.0 ∙ ok.1 t)),
    )
