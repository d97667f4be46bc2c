-- ===== src/Contract/Binding.antt =====
-- What an accepted result is bound to (`validateResult` of shared/execution.ts).
use infinite_kanban.Prelude.{
  ◌≡◌, ◌≢◌, refl, sym, ap, ◌∙◌, subst, String, Bool, true, false, not, ◌||◌, Option, none, some,
  List, [], ◌∷◌, arith, ==_iff, nat_eq, string_eq, In, inl, inr, any, any-false, Option-cases, ◌==◌,
}
use infinite_kanban.Contract.Json.{Json, text, array, items}
use infinite_kanban.Contract.Check.{
  ExecutionRole, implementation, review, Validated, accepted, thrown, ContractError, ◌>>=◌, require,
  Identity, execution_role_eq,
}
use infinite_kanban.Contract.Assignment.{ExecutionAssignment}
use infinite_kanban.Contract.Result.{
  ExecutionEvidence, ExecutionFinding, Verdict, approved, changes_requested, ExecutionResult,
  check_identity, revision_matches, evidence_value, evidence_values, evidence_array, is_error,
  has_failed, check_verdict, Settlement, settlement, check_reviewed, validate_result, not_empty,
}

abbrev the : {A : Type 0} → A → Validated A → A
the d (accepted a) = a
the d (thrown e) = d

pub accepted-injective : {A : Type 0} (a b : A) → accepted a ≡ accepted b → a ≡ b
accepted-injective a b h = ap (the a) h

pub thrown-ne-accepted : {A : Type 0} (e : ContractError) (a : A) → thrown e ≢ accepted a
thrown-ne-accepted e a h = cc

pub bind-eq-accepted :
    {A B : Type 0} (m : Validated A) (f : A → Validated B) (b : B)
    → (m >>= f) ≡ accepted b
    → (a : A) × (m ≡ accepted a) × (f a ≡ accepted b)
unfolding ◌>>=◌
bind-eq-accepted (accepted a) f b h = (a, refl, h)
bind-eq-accepted (thrown e) f b h = absurd (thrown-ne-accepted e b h)

pub require-eq-accepted :
    (c : Bool) (e : ContractError) (u : Unit) → require c e ≡ accepted u → c ≡ true
require-eq-accepted true e u h = refl
require-eq-accepted false e u h = absurd (thrown-ne-accepted e u h)

check_identity_lem : (r a : Identity) (u : Unit) → check_identity r a ≡ accepted u → r ≡ a
unfolding check_identity ◌>>=◌
check_identity_lem r a u h = ground (
  arith,
  ==_iff r.task_id a.task_id,
  ==_iff r.workflow_run_id a.workflow_run_id,
  ==_iff r.assignment_id a.assignment_id,
  ==_iff r.attempt a.attempt,
  ==_iff r.role a.role,
  ==_iff r.endpoint_id a.endpoint_id,
)

check_reviewed_lem :
    (a : ExecutionAssignment) (revision : String) (u : Unit)
    → check_reviewed a revision ≡ accepted u
    → a.named.role ≡ review
    → a.target_revision ≡ some revision
unfolding check_reviewed
check_reviewed_lem a revision u h role = elim (Option-cases a.target_revision) [
  | inl missing ↦ absurd (thrown-ne-accepted _ u (rw (role, missing) at h))
  | inr (target, is) ↦
      is
      ∙ ap some (sym ((==_iff revision target).0 (require-eq-accepted _ _ u (rw (role, is) at h))))
]

revision_matches_lem :
    (revision : String) (field : Option Json) (given : String)
    → revision_matches revision field ≡ accepted given
    → given ≡ revision
revision_matches_lem revision none given h = absurd (thrown-ne-accepted _ given h)
revision_matches_lem revision (some (text s)) given h =
    let (u, same, h₁) = bind-eq-accepted _ _ given h in
    sym (accepted-injective s given h₁)
    ∙ (==_iff s revision).0 (require-eq-accepted (s == revision) _ u same)
revision_matches_lem revision (some _) given h = absurd (thrown-ne-accepted _ given h)

evidence_value_lem :
    (revision : String) (v : Json) (e : ExecutionEvidence)
    → evidence_value revision v ≡ accepted e
    → e.revision ≡ revision
unfolding evidence_value
evidence_value_lem revision v e h =
    let (r, _, h₁) = bind-eq-accepted _ _ e h in
    let (check, _, h₂) = bind-eq-accepted _ _ e h₁ in
    let (given, same, h₃) = bind-eq-accepted _ _ e h₂ in
    let (outcome, _, h₄) = bind-eq-accepted _ _ e h₃ in
    let (artifact, _, h₅) = bind-eq-accepted _ _ e h₄ in
    let (_, _, h₆) = bind-eq-accepted _ _ e h₅ in
    ap (λ (x : ExecutionEvidence). x.revision) (sym (accepted-injective _ e h₆))
    ∙ revision_matches_lem revision _ given same

evidence_values_lem :
    (revision : String) (vs : List Json) (es : List ExecutionEvidence)
    → evidence_values revision vs ≡ accepted es
    → (e : ExecutionEvidence) → In e es
    → e.revision ≡ revision
unfolding evidence_values
evidence_values_lem revision [] es h e m =
    elim (subst (λ x. In e x) (sym (accepted-injective [] es h)) m) [ ]
evidence_values_lem revision (v ∷ rest) es h e m =
    let (e₁, here, h₁) = bind-eq-accepted _ _ es h in
    let (es₁, later, h₂) = bind-eq-accepted _ _ es h₁ in
    elim (subst (λ x. In e x) (sym (accepted-injective (e₁ ∷ es₁) es h₂)) m) [
      | inl same ↦
          ap (λ (x : ExecutionEvidence). x.revision) same ∙ evidence_value_lem revision v e₁ here
      | inr k ↦ evidence_values_lem revision rest es₁ later e k
    ]

not_empty-ne : (vs : List Json) → not_empty vs ≢ accepted []
not_empty-ne [] h = cc
not_empty-ne (v ∷ rest) h = cc

no_evidence : (field : Option Json) → evidence_array field ≢ accepted []
no_evidence none h = cc
no_evidence (some (array vs)) h = elim (not_empty-ne (items vs) h) [ ]
no_evidence (some _) h = cc

-- Some evidence comes out of some evidence.
evidence_kept :
    (revision : String) (field : Option Json) (vs : List Json) (es : List ExecutionEvidence)
    → evidence_array field ≡ accepted vs
    → evidence_values revision vs ≡ accepted es
    → (e : ExecutionEvidence) × In e es
unfolding evidence_values
evidence_kept revision field [] es some_vs h = absurd (no_evidence field some_vs)
evidence_kept revision field (v ∷ rest) es some_vs h =
    let (e₁, here, h₁) = bind-eq-accepted _ _ es h in
    let (es₁, later, h₂) = bind-eq-accepted _ _ es h₁ in
    (e₁, subst (λ x. In e₁ x) (accepted-injective (e₁ ∷ es₁) es h₂) (inl refl))

-- What an approval asks of the evidence and the findings, and a request for changes.
abbrev pub IsSettled : List ExecutionEvidence → Verdict → List ExecutionFinding → Type 0
IsSettled es approved fs =
    ((e : ExecutionEvidence) → In e es → has_failed e ≡ false)
    × ((f : ExecutionFinding) → In f fs → is_error f ≡ false)
IsSettled es changes_requested fs = (f : ExecutionFinding) × In f fs

check_verdict_lem :
    (es : List ExecutionEvidence) (v : Verdict) (fs : List ExecutionFinding) (u : Unit)
    → check_verdict es v fs ≡ accepted u
    → IsSettled es v fs
check_verdict_lem es approved fs u h =
    let ok = require-eq-accepted (not (any is_error fs || any has_failed es)) _ u h in
    (
      λ e m. any-false has_failed es (ground (arith, ok)) m,
      λ f m. any-false is_error fs (ground (arith, ok)) m,
    )
check_verdict_lem es changes_requested [] u h = absurd (thrown-ne-accepted _ u h)
check_verdict_lem es changes_requested (f ∷ fs) u h = (f, inl refl)

-- An implementation brings no verdict; a review brings one, with findings that bear it out.
abbrev pub IsJudged :
    ExecutionRole
    → List ExecutionEvidence
    → Option Verdict
    → Option (List ExecutionFinding)
    → Type 0
IsJudged implementation es verdict findings = (verdict ≡ none) × (findings ≡ none)
IsJudged review es verdict findings =
    (v : Verdict) × (fs : List ExecutionFinding) × (verdict ≡ some v)
    × (findings ≡ some fs)
    × IsSettled es v fs

settlement_lem :
    (role : ExecutionRole) (es : List ExecutionEvidence) (verdict findings : Option Json)
    (s : Settlement)
    → settlement role es verdict findings ≡ accepted s
    → IsJudged role es s.verdict s.findings
unfolding settlement
settlement_lem implementation es verdict findings s h =
    let (_, _, h₁) = bind-eq-accepted _ _ s h in
    let e = sym (accepted-injective _ s h₁) in
    (ap (λ (x : Settlement). x.verdict) e, ap (λ (x : Settlement). x.findings) e)
settlement_lem review es verdict findings s h =
    let (v, _, h₁) = bind-eq-accepted _ _ s h in
    let (fs, _, h₂) = bind-eq-accepted _ _ s h₁ in
    let (u, borne, h₃) = bind-eq-accepted _ _ s h₂ in
    let e = sym (accepted-injective _ s h₃) in
    (
      v,
      fs,
      ap (λ (x : Settlement). x.verdict) e,
      ap (λ (x : Settlement). x.findings) e,
      check_verdict_lem es v fs u borne,
    )

-- A result that is accepted for an assignment carries the assignment's identity in full: task,
-- run, assignment, attempt, role and endpoint. It has evidence, all of it for the revision that it
-- reports; a review reports the revision that was to be reviewed. An implementation brings
-- neither a verdict nor findings. A review brings both: an approval has no failed evidence and no
-- finding whose severity is the text error, and a request for changes has a finding.
pub validate_result-binds :
    (value : Option Json) (a : ExecutionAssignment) (r : ExecutionResult)
    → validate_result value a ≡ accepted r
    → (r.named ≡ a.named)
      × ((e : ExecutionEvidence) × In e r.evidence)
      × ((e : ExecutionEvidence) → In e r.evidence → e.revision ≡ r.revision)
      × (a.named.role ≡ review → a.target_revision ≡ some r.revision)
      × IsJudged a.named.role r.evidence r.verdict r.findings
unfolding validate_result
validate_result-binds value a r h =
    let (fs, _, h₁) = bind-eq-accepted _ _ r h in
    let (named, _, h₂) = bind-eq-accepted _ _ r h₁ in
    let (u₁, same, h₃) = bind-eq-accepted _ _ r h₂ in
    let (revision, _, h₄) = bind-eq-accepted _ _ r h₃ in
    let (summary, _, h₅) = bind-eq-accepted _ _ r h₄ in
    let (u₂, reviewed, h₆) = bind-eq-accepted _ _ r h₅ in
    let (vs, some_vs, h₇) = bind-eq-accepted _ _ r h₆ in
    let (es, proven, h₈) = bind-eq-accepted _ _ r h₇ in
    let (s, settled, h₉) = bind-eq-accepted _ _ r h₈ in
    rw (sym (accepted-injective _ r h₉)) (
      check_identity_lem named a.named u₁ same,
      evidence_kept revision _ vs es some_vs proven,
      evidence_values_lem revision vs es proven,
      check_reviewed_lem a revision u₂ reviewed,
      settlement_lem a.named.role es _ _ s settled,
    )
