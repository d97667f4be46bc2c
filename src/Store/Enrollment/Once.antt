-- ===== src/Store/Enrollment/Once.antt =====
-- An enrollment code is good for one worker (repositories/sqlite-enrollment-codes.ts).
use infinite_kanban.Prelude.{
  ℕ, ◌≤◌, ◌<◌, ◌≡◌, ◌≢◌, refl, sym, ap, ◌∙◌, String, not, none, some, List, [], ◌∷◌, arith, ==_iff,
  string_eq, find, filter, find_sound, filter-complete, In, Option-cases, inl, inr,
}
use mathlib.Core.Option.{none-ne-some, some-injective}
use infinite_kanban.Store.Enrollment.{
  EnrollmentCode, ConsumedEnrollmentCode, is_consumable, consumed_of, consume,
}

-- After a consumption at one time, none at the same time or later succeeds.
find-filter :
    (hash : String) (at later : ℕ) (codes : List EnrollmentCode)
    → at ≤ later
    → find (is_consumable hash later) (filter (λ c. not (is_consumable hash at c)) codes) ≡ none
find-filter hash at later [] after = refl
find-filter hash at later (c ∷ codes) after =
    let h = find-filter hash at later codes after in ground (arith, h, after)

-- A code that is consumed was created with this hash and had not expired; once it was consumed,
-- no consumption of this hash at the same time or later succeeds, and the codes of every other
-- hash are left.
pub consumed_once :
    (hash : String) (at later : ℕ) (codes : List EnrollmentCode) (answer : ConsumedEnrollmentCode)
    → at ≤ later
    → (consume hash at codes).1 ≡ some answer
    → ((c : EnrollmentCode) × In c codes
        × (c.code_hash ≡ hash)
        × (at < c.expires_at)
        × (c.owner_id ≡ answer.owner_id))
      × ((consume hash later (consume hash at codes).0).1 ≡ none)
      × ((c : EnrollmentCode) → In c codes → c.code_hash ≢ hash → In c (consume hash at codes).0)
unfolding consume
consumed_once hash at later codes answer after h = (
  elim (Option-cases (find (is_consumable hash at) codes)) [
    | inl gone ↦ absurd (none-ne-some _ (sym (ap consumed_of gone) ∙ h))
    | inr (c, found) ↦
        let (fits, m) = find_sound (is_consumable hash at) codes found in
        let e = some-injective _ _ (sym (ap consumed_of found) ∙ h) in
        (
          c,
          m,
          ground (arith, fits, ==_iff c.code_hash hash),
          ground (arith, fits),
          ap (λ (x : ConsumedEnrollmentCode). x.owner_id) e,
        )
  ],
  ap consumed_of (find-filter hash at later codes after),
  λ c m other.
      filter-complete (λ c. not (is_consumable hash at c)) codes
        (ground (arith, other, ==_iff c.code_hash hash)) m,
)
