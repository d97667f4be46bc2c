-- ===== src/A2a/Assignments/Handoff.antt =====
-- A handoff keeps the allowed fields and no other (packages/a2a/src/assignment.ts).
use infinite_kanban.Prelude.{
  ◌≡◌, ◌≢◌, refl, sym, ap, ◌∙◌, subst, String, Bool, true, false, not, Option, none, some, List, [],
  ◌∷◌, ◌==◌, ==_iff, string_eq, filter, filter-complete, contains, contains-In, In-contains, In,
  inl, inr, Bool-cases, Option-cases, if◌then◌else◌,
}
use infinite_kanban.Contract.Json.{Fields, lookup, keys_of}
use infinite_kanban.A2a.Assignments.{
  worker_task_assignment_keys, pick_fields, pick_allowed_fields, Message, assignment_to_message,
  AssignmentDecodeResult, decoded, not_decoded, unknown_keys, is_filled_text, is_text_value,
  is_array_value, decode_known, decode_keys, decode_payload, assignment_from_message,
  find_assignment_payload,
}

keys-pick_fields :
    (keys : List String) (source : Fields) (key : String)
    → In key (keys_of (pick_fields keys source))
    → In key keys
unfolding pick_fields
keys-pick_fields [] source key m = m
keys-pick_fields (k ∷ keys) source key m = elim (Option-cases (lookup k source)) [
  | inl gone ↦ inr (keys-pick_fields keys source key (rw gone at m))
  | inr (v, found) ↦ elim (rw found at m) [
    | inl e ↦ inl e
    | inr rest ↦ inr (keys-pick_fields keys source key rest)
  ]
]

none_either : {A : Type 0} {o : Option A} (b : Bool) → o ≡ none → (if b then o else none) ≡ none
none_either true h = h
none_either false h = refl

lookup-pick_fields :
    (keys : List String) (source : Fields) (key : String)
    → lookup key (pick_fields keys source) ≡ (if contains keys key then lookup key source else none)
unfolding pick_fields lookup
lookup-pick_fields [] source key = refl
lookup-pick_fields (k ∷ keys) source key = elim (Bool-cases (k == key)) [
  | inl same ↦
      let e = (==_iff k key).0 same in
      let here = ap (λ x. lookup x source) e in
      elim (Option-cases (lookup k source)) [
        | inl gone ↦
            rw (gone, same)
              (lookup-pick_fields keys source key
                ∙ none_either (contains keys key) (sym here ∙ gone)
                ∙ sym (sym here ∙ gone))
        | inr (v, found) ↦ rw (found, same) (sym (sym here ∙ found))
      ]
  | inr other ↦ elim (Option-cases (lookup k source)) [
    | inl gone ↦ rw (gone, other) (lookup-pick_fields keys source key)
    | inr (v, found) ↦ rw (found, other) (lookup-pick_fields keys source key)
  ]
]

unknown-none :
    (keys known : List String)
    → ((key : String) → In key keys → In key known)
    → filter (λ key. not (contains known key)) keys ≡ []
unknown-none [] known h = refl
unknown-none (k ∷ keys) known h =
    rw (In-contains known k (h k (inl refl))) (unknown-none keys known (λ key m. h key (inr m)))

-- What a worker needs of an assignment.
abbrev pub IsComplete : Fields → Type 0
IsComplete f =
    (is_filled_text (lookup "id" f) ≡ true)
    × (is_filled_text (lookup "title" f) ≡ true)
    × (is_text_value (lookup "description" f) ≡ true)
    × (is_array_value (lookup "labels" f) ≡ true)

abbrev pub IsAllowed : Fields → Type 0
IsAllowed f = (key : String) → In key (keys_of f) → In key worker_task_assignment_keys

picked-IsAllowed : (a : Fields) → IsAllowed (pick_allowed_fields a)
unfolding pick_allowed_fields
picked-IsAllowed a key m = keys-pick_fields worker_task_assignment_keys a key m

lookup-pick_allowed_fields :
    (a : Fields) (key : String)
    → contains worker_task_assignment_keys key ≡ true
    → lookup key (pick_allowed_fields a) ≡ lookup key a
unfolding pick_allowed_fields
lookup-pick_allowed_fields a key known =
    lookup-pick_fields worker_task_assignment_keys a key ∙ rw known refl

decode_complete : (f : Fields) → IsComplete f → IsAllowed f → decode_payload (some f) ≡ decoded f
decode_complete f (has_id, has_title, has_description, has_labels) allowed =
    rw (unknown-none (keys_of f) worker_task_assignment_keys allowed)
      (rw (has_id, has_title, has_description, has_labels) refl)

picked-IsComplete : (a : Fields) → IsComplete a → IsComplete (pick_allowed_fields a)
picked-IsComplete a (has_id, has_title, has_description, has_labels) = (
  ap is_filled_text (lookup-pick_allowed_fields a "id" refl) ∙ has_id,
  ap is_filled_text (lookup-pick_allowed_fields a "title" refl) ∙ has_title,
  ap is_text_value (lookup-pick_allowed_fields a "description" refl) ∙ has_description,
  ap is_array_value (lookup-pick_allowed_fields a "labels" refl) ∙ has_labels,
)

payload_sent :
    (a : Fields) (message_id : String) (context_id task_id : Option String)
    → find_assignment_payload (assignment_to_message a message_id context_id task_id)
      ≡ some (pick_allowed_fields a)
unfolding find_assignment_payload assignment_to_message lookup
payload_sent a message_id context_id task_id = refl

-- An assignment with an id and a title that are not empty, a description that is a text and labels
-- that are an array, is decoded from the message that hands it over, and then has under every
-- allowed key what it had, and no other key.
pub handoff_roundtrip :
    (a : Fields) (message_id : String) (context_id task_id : Option String)
    → IsComplete a
    → (f : Fields) × (assignment_from_message
          (assignment_to_message a message_id context_id task_id)
        ≡ decoded f)
      × ((key : String)
          → contains worker_task_assignment_keys key ≡ true
          → lookup key f ≡ lookup key a)
      × IsAllowed f
unfolding assignment_from_message
handoff_roundtrip a message_id context_id task_id complete = (
  pick_allowed_fields a,
  ap decode_payload (payload_sent a message_id context_id task_id)
      ∙ decode_complete (pick_allowed_fields a) (picked-IsComplete a complete) (picked-IsAllowed a),
  lookup-pick_allowed_fields a,
  picked-IsAllowed a,
)

abbrev fields_or : Fields → AssignmentDecodeResult → Fields
fields_or f (decoded g) = g
fields_or f (not_decoded e) = f

not_decoded-ne : (e : String) (f : Fields) → not_decoded e ≢ decoded f
not_decoded-ne e f h = cc

-- A test that a decoding has passed.
passed_test :
    (b : Bool) (e : String) (rest : AssignmentDecodeResult) (f : Fields)
    → (if not b then not_decoded e else rest) ≡ decoded f
    → (b ≡ true) × (rest ≡ decoded f)
passed_test true e rest f h = (refl, h)
passed_test false e rest f h = absurd (not_decoded-ne e f h)

decode_known_lem : (c f : Fields) → decode_known c ≡ decoded f → (c ≡ f) × IsComplete c
decode_known_lem c f h =
    let (has_id, h₁) = passed_test (is_filled_text (lookup "id" c)) _ _ f h in
    let (has_title, h₂) = passed_test (is_filled_text (lookup "title" c)) _ _ f h₁ in
    let (has_description, h₃) = passed_test (is_text_value (lookup "description" c)) _ _ f h₂ in
    let (has_labels, h₄) = passed_test (is_array_value (lookup "labels" c)) _ _ f h₃ in
    (ap (fields_or c) h₄, (has_id, has_title, has_description, has_labels))

decode_keys_lem :
    (c f : Fields) (keys : List String)
    → decode_keys c keys ≡ decoded f
    → (keys ≡ []) × (c ≡ f) × IsComplete c
decode_keys_lem c f [] h = let (same, complete) = decode_known_lem c f h in (refl, same, complete)
decode_keys_lem c f (key ∷ keys) h = absurd (not_decoded-ne _ f h)

known-IsAllowed : (f : Fields) → unknown_keys f ≡ [] → IsAllowed f
known-IsAllowed f h key m = elim (Bool-cases (contains worker_task_assignment_keys key)) [
  | inl known ↦ contains-In worker_task_assignment_keys key known
  | inr unknown ↦ absurd (
      subst (λ xs. In key xs) h
        (filter-complete (λ k. not (contains worker_task_assignment_keys k)) (keys_of f)
          (ap not unknown) m))
]

decode_payload_lem :
    (o : Option Fields) (f : Fields)
    → decode_payload o ≡ decoded f
    → (o ≡ some f) × IsAllowed f × IsComplete f
decode_payload_lem none f h = absurd (not_decoded-ne _ f h)
decode_payload_lem (some c) f h =
    let (no_unknown, same, complete) = decode_keys_lem c f (unknown_keys c) h in
    (
      ap some same,
      subst IsAllowed same (known-IsAllowed c no_unknown),
      subst IsComplete same complete,
    )

-- Whatever message a worker decodes, the assignment is the message's payload; it has allowed keys
-- only, an id and a title that are not empty, a description that is a text and labels that are an
-- array.
pub decoded-IsAllowed :
    (message : Message) (f : Fields)
    → assignment_from_message message ≡ decoded f
    → (find_assignment_payload message ≡ some f) × IsAllowed f × IsComplete f
unfolding assignment_from_message
decoded-IsAllowed message f h = decode_payload_lem (find_assignment_payload message) f h
