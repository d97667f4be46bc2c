-- ===== src/A2a/Assignments.antt =====
-- packages/a2a/src/assignment.ts and extension.ts: the handoff of a task to a worker, as a message.
-- An assignment is its fields, which the source reads by their keys.
pub mod Handoff
use Prim.Native.String.{◌++◌ as ◌<>◌}
use infinite_kanban.Prelude.{
  String, Bool, true, false, not, Option, none, some, List, [], ◌∷◌, ◌++◌, ◌==◌, string_eq, filter,
  contains, value_or, if◌then◌else◌,
}
use infinite_kanban.Contract.Json.{
  Json, Fields, text, array, object, field, no_fields, lookup, keys_of,
}

abbrev pub board_extension_uri : String
board_extension_uri = "https://github.com/SaltyRucula/infinite_kanban/a2a/board/v1"

abbrev pub ext_assignment : String
ext_assignment = board_extension_uri <> "#assignment"

abbrev pub worker_task_assignment_keys : List String
worker_task_assignment_keys =
    "id" ∷ "title" ∷ "description" ∷ "priority" ∷ "repoUrl" ∷ "agentType" ∷ "branchName"
    ∷ "baseBranch" ∷ "useWorktree" ∷ "timeoutMinutes" ∷ "labels" ∷ "project" ∷ "agentPreference"
    ∷ "resume" ∷ "mode" ∷ []

abbrev pub pick_field : String → Option Json → Fields → Fields
pick_field key none rest = rest
pick_field key (some v) rest = field key v rest

unfoldable pub pick_fields : List String → Fields → Fields
pick_fields [] source = no_fields
pick_fields (key ∷ keys) source = pick_field key (lookup key source) (pick_fields keys source)

unfoldable pub pick_allowed_fields : Fields → Fields
unfolding pick_fields
pick_allowed_fields source = pick_fields worker_task_assignment_keys source

-- The content of a part, where it is a text or data.
pub data Part : Type 0 where
  text_part : String → Part
  data_part : Json → Part
  other_part : Part

pub record Message : Type 0 where
  pub message_id : String
  pub context_id : String
  pub task_id : String
  pub parts : List Part
  pub metadata : Option Fields
  pub extensions : List String

-- A text field, empty where it is absent.
abbrev pub text_or_empty : Option Json → String
text_or_empty (some (text s)) = s
text_or_empty _ = ""

abbrev pub fields_or_none : Option Json → Fields
fields_or_none (some (object fs)) = fs
fields_or_none _ = no_fields

-- Lines that stand only where a text is not empty.
abbrev pub lines_if : String → List String → List String
lines_if s lines = if s == "" then [] else lines

abbrev pub resume_lines : Option Json → List String
resume_lines (some (object r)) =
    ""
    ∷ ("Answer to your question \""
        <> (text_or_empty (lookup "question" r) <> ("\": " <> text_or_empty (lookup "answer" r))))
    ∷ []
resume_lines _ = []

unfoldable pub join_lines : List String → String
join_lines [] = ""
join_lines (line ∷ []) = line
join_lines (line ∷ next ∷ rest) = line <> ("\n" <> join_lines (next ∷ rest))

unfoldable pub assignment_prompt : Fields → String
unfolding lookup join_lines
assignment_prompt a =
    let description = text_or_empty (lookup "description" a) in
    let repo_url = text_or_empty (lookup "repoUrl" a) in
    let project = fields_or_none (lookup "project" a) in
    let goal = text_or_empty (lookup "goal" project) in
    let context = text_or_empty (lookup "context" project) in
    join_lines (
      text_or_empty (lookup "title" a)
      ∷ (lines_if description ("" ∷ description ∷ [])
          ++ (lines_if repo_url ("" ∷ ("Repository: " <> repo_url) ∷ [])
              ++ (lines_if goal ("" ∷ ("Project goal: " <> goal) ∷ [])
                  ++ (lines_if context (("Project context: " <> context) ∷ [])
                      ++ ((if text_or_empty (lookup "mode" a) == "review"
                            then ""
                              ∷ "Mode: review. Validate the existing implementation and report a verdict; do not re-implement."
                              ∷ []
                            else [])
                          ++ resume_lines (lookup "resume" a)))))))

abbrev pub assignment_to_parts : Fields → List Part
assignment_to_parts a =
    text_part (assignment_prompt a) ∷ data_part (object (pick_allowed_fields a)) ∷ []

unfoldable pub assignment_to_message :
    Fields → (message_id : String) → (context_id task_id : Option String) → Message
unfolding pick_allowed_fields assignment_prompt
assignment_to_message a message_id context_id task_id = record {
  message_id = message_id;
  context_id = value_or context_id "";
  task_id = value_or task_id "";
  parts = assignment_to_parts a;
  metadata = some (field ext_assignment (object (pick_allowed_fields a)) no_fields);
  extensions = board_extension_uri ∷ [];
}

-- `isRecord`: the fields of a value that is an object.
abbrev pub record_of : Option Json → Option Fields
record_of (some (object fs)) = some fs
record_of _ = none

abbrev pub part_record : Part → Option Fields
part_record (data_part v) = record_of (some v)
part_record _ = none

unfoldable pub first_record : List Part → Option Fields
first_record [] = none
first_record (part ∷ parts) = elim (part_record part) [
  | none ↦ first_record parts
  | some fs ↦ some fs
]

abbrev pub in_metadata : Option Fields → Option Fields
in_metadata none = none
in_metadata (some m) = record_of (lookup ext_assignment m)

unfoldable pub find_assignment_payload : Message → Option Fields
unfolding first_record lookup
find_assignment_payload message = elim (in_metadata message.metadata) [
  | none ↦ first_record message.parts
  | some fs ↦ some fs
]

pub data AssignmentDecodeResult : Type 0 where
  decoded : Fields → AssignmentDecodeResult
  not_decoded : String → AssignmentDecodeResult

unfoldable pub join_names : List String → String
join_names [] = ""
join_names (name ∷ []) = name
join_names (name ∷ next ∷ rest) = name <> (", " <> join_names (next ∷ rest))

abbrev pub unknown_keys : Fields → List String
unknown_keys candidate =
    filter (λ key. not (contains worker_task_assignment_keys key)) (keys_of candidate)

abbrev pub is_filled_text : Option Json → Bool
is_filled_text (some (text s)) = not (s == "")
is_filled_text _ = false

abbrev pub is_text_value : Option Json → Bool
is_text_value (some (text s)) = true
is_text_value _ = false

abbrev pub is_array_value : Option Json → Bool
is_array_value (some (array vs)) = true
is_array_value _ = false

abbrev pub decode_known : Fields → AssignmentDecodeResult
decode_known candidate =
    if not (is_filled_text (lookup "id" candidate))
    then not_decoded "assignment id is required"
    else if not (is_filled_text (lookup "title" candidate))
    then not_decoded "assignment title is required"
    else if not (is_text_value (lookup "description" candidate))
    then not_decoded "assignment description must be a string"
    else if not (is_array_value (lookup "labels" candidate))
    then not_decoded "assignment labels must be an array"
    else decoded candidate

abbrev pub decode_keys : Fields → List String → AssignmentDecodeResult
decode_keys candidate [] = decode_known candidate
decode_keys candidate (key ∷ keys) =
    not_decoded ("unexpected assignment fields: " <> join_names (key ∷ keys))

abbrev pub decode_payload : Option Fields → AssignmentDecodeResult
decode_payload none = not_decoded "no board assignment payload found in message"
decode_payload (some candidate) = decode_keys candidate (unknown_keys candidate)

unfoldable pub assignment_from_message : Message → AssignmentDecodeResult
unfolding find_assignment_payload join_names lookup
assignment_from_message message = decode_payload (find_assignment_payload message)
