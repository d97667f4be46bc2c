-- ===== src/Store/Enrollment.antt =====
-- packages/server/src/repositories/sqlite-enrollment-codes.ts: the codes with which workers enroll.
pub mod Once
use infinite_kanban.Prelude.{
  ℕ, String, Bool, true, false, not, ◌&&◌, Option, none, some, List, [], ◌∷◌, ◌++◌, ◌==◌, string_eq,
  ltb, find, filter, any, if◌then◌else◌,
}

pub record EnrollmentCode : Type 0 where
  pub code_hash : String
  pub owner_id : String
  pub project_id : Option String
  pub expires_at : ℕ
  pub created_at : ℕ

pub record ConsumedEnrollmentCode : Type 0 where
  pub owner_id : String
  pub project_id : Option String

-- The hash is the primary key: `none` where the insertion throws.
unfoldable pub create_code : EnrollmentCode → List EnrollmentCode → Option (List EnrollmentCode)
create_code code codes =
    if any (λ c. c.code_hash == code.code_hash) codes then none else some (codes ++ code ∷ [])

abbrev pub is_consumable : String → ℕ → EnrollmentCode → Bool
is_consumable hash at c = c.code_hash == hash && ltb at c.expires_at

-- A project id that is empty is left out.
abbrev pub project_of : Option String → Option String
project_of none = none
project_of (some p) = if p == "" then none else some p

abbrev pub consumed_of : Option EnrollmentCode → Option ConsumedEnrollmentCode
consumed_of none = none
consumed_of (some c) = some (record { owner_id = c.owner_id; project_id = project_of c.project_id })

-- `DELETE … RETURNING`: the statement's first returned row is answered.
unfoldable pub consume :
    String → ℕ → List EnrollmentCode → List EnrollmentCode × Option ConsumedEnrollmentCode
consume hash at codes = (
  filter (λ c. not (is_consumable hash at c)) codes,
  consumed_of (find (is_consumable hash at) codes),
)
