-- ===== src/Access/Admission.antt =====
-- Who is admitted (packages/server/src/middleware/auth.ts).
use infinite_kanban.Prelude.{
  ◌≡◌, ◌⊎◌, ◌≢◌, refl, sym, ap, ◌∙◌, String, Bool, true, false, Option, none, some, List, [], ◌∷◌,
  arith, ◌==◌, string_eq, ==_iff, find, find_sound, contains, In, Bool-cases, inl, inr, &&-right,
  if◌then◌else◌,
}
use mathlib.Core.Bool.{true≢false}
use mathlib.Core.Option.{some-injective}
use infinite_kanban.Access.{
  ServiceScope, workers_register, mapped, is_empty, scope_eq, Credential, Environment, is_nonempty,
  is_same_text, credentials, Authentication, unknown_bearer, matches, of_credential, is_api_key,
  authenticate_token, Request, starts_with, required_scope, is_enrollment, Decision, admitted,
  unauthorized, bearer, has_scope, behind_key, is_unscoped, without_key, decide, auth_middleware,
}

-- A token that is the API key.
abbrev pub IsAdmin : Environment → Option String → Type 0
IsAdmin env token = (t : String) × (token ≡ some t) × (env.api_key ≡ some t) × (t ≢ "")

-- A token that a credential with the scope is for.
abbrev pub IsService : Environment → Option String → Option ServiceScope → Type 0
IsService env token needed =
    (t : String) × (c : Credential) × (scope : ServiceScope) × (token ≡ some t)
    × In c (credentials env)
    × (matches env t c ≡ true)
    × (needed ≡ some scope)
    × (contains c.scopes scope ≡ true)

-- No API key, and the request needs no scope, or there are no service tokens and it is no
-- registration of a worker.
abbrev pub IsOpen : Environment → Option ServiceScope → Type 0
IsOpen env needed =
    ((env.api_key ≡ none) ⊎ (env.api_key ≡ some ""))
    × ((needed ≡ none) ⊎ ((credentials env ≡ []) × (needed ≢ some workers_register)))

-- A registration of a worker with a code.
abbrev pub IsEnrollment : Environment → Request → Type 0
IsEnrollment env req =
    (req.path ≡ "/workers/register")
    × (req.method ≡ "POST")
    × ((code : String) × (req.enrollment_code ≡ some code) × (env.trim code ≢ ""))

-- What a token proves.
abbrev Proves : Environment → Option String → Authentication → Type 0
Proves env token auth =
    (auth ≡ unknown_bearer)
    ⊎ (IsAdmin env token
        ⊎ ((t : String) × (c : Credential) × (token ≡ some t)
            × In c (credentials env)
            × (matches env t c ≡ true)
            × (auth ≡ of_credential (some c))))

same_text : (o : Option String) (s : String) → is_same_text o s ≡ true → o ≡ some s
same_text none s h = cc
same_text (some t) s h = ap some (sym ((==_iff s t).0 h))

found-Proves :
    (env : Environment) (t : String) (o : Option Credential)
    → find (matches env t) (credentials env) ≡ o
    → Proves env (some t) (of_credential o)
found-Proves env t none e = inl refl
found-Proves env t (some c) e =
    let (fits, m) = find_sound (matches env t) (credentials env) e in
    inr (inr (t, c, refl, m, fits, refl))

authenticated-Proves :
    (env : Environment) (token : Option String) → Proves env token (authenticate_token env token)
unfolding authenticate_token
authenticated-Proves env none = inl refl
authenticated-Proves env (some t) = elim (Bool-cases (t == "")) [
  | inl empty ↦ rw empty (inl refl)
  | inr filled ↦ elim (Bool-cases (is_api_key env t)) [
    | inl key ↦ inr (
        inl (
          t,
          refl,
          same_text env.api_key t (&&-right _ _ key),
          λ e. ground (arith, filled, ==_iff t "", e),
        ))
    | inr other ↦ rw (filled, other) (found-Proves env t _ refl)
  ]
]

admitted-ne-unauthorized : unauthorized ≢ admitted
admitted-ne-unauthorized h = cc

behind_key_lem :
    (needed : Option ServiceScope) (auth : Authentication)
    → behind_key needed auth ≡ admitted
    → (auth.authenticated ≡ true) × ((auth.legacy ≡ true) ⊎ (has_scope needed auth ≡ true))
behind_key_lem needed auth h = elim (Bool-cases auth.authenticated) [
  | inr unknown ↦ absurd (admitted-ne-unauthorized (rw unknown at h))
  | inl known ↦ elim (Bool-cases auth.legacy) [
    | inl legacy ↦ (known, inl legacy)
    | inr service ↦ elim (Bool-cases (has_scope needed auth)) [
      | inl scoped ↦ (known, inr scoped)
      | inr unscoped ↦ cc
    ]
  ]
]

without_key_lem :
    (env : Environment) (needed : Option ServiceScope) (auth : Authentication)
    → without_key env needed auth ≡ admitted
    → (is_unscoped env needed ≡ true)
      ⊎ ((auth.authenticated ≡ true) × (has_scope needed auth ≡ true))
without_key_lem env needed auth h = elim (Bool-cases (is_unscoped env needed)) [
  | inl unscoped ↦ inl unscoped
  | inr scoped ↦ elim (Bool-cases auth.authenticated) [
    | inr unknown ↦ absurd (admitted-ne-unauthorized (rw (scoped, unknown) at h))
    | inl known ↦ elim (Bool-cases (has_scope needed auth)) [
      | inl fits ↦ inr (known, fits)
      | inr other ↦ cc
    ]
  ]
]

scope_held :
    (needed : Option ServiceScope) (c : Credential)
    → has_scope needed (of_credential (some c)) ≡ true
    → (scope : ServiceScope) × (needed ≡ some scope) × (contains c.scopes scope ≡ true)
scope_held none c h = cc
scope_held (some scope) c h = (scope, refl, h)

-- An authenticated bearer is the operator, or has a credential, whose scopes are its own.
bearer_entitled :
    (env : Environment) (token : Option String) (needed : Option ServiceScope)
    (auth : Authentication)
    → Proves env token auth
    → auth.authenticated ≡ true
    → (auth.legacy ≡ true) ⊎ (has_scope needed auth ≡ true)
    → IsAdmin env token ⊎ IsService env token needed
bearer_entitled env token needed auth proof known right = elim proof [
  | inl unknown ↦
      absurd (true≢false (sym known ∙ ap (λ (x : Authentication). x.authenticated) unknown))
  | inr (inl admin) ↦ inl admin
  | inr (inr (t, c, is_t, m, fits, same)) ↦
      let held : has_scope needed (of_credential (some c)) ≡ true = elim right [
        | inl legacy ↦ absurd (true≢false (sym legacy ∙ ap (λ (x : Authentication). x.legacy) same))
        | inr scoped ↦ ap (has_scope needed) (sym same) ∙ scoped
      ] in
      let (scope, is_needed, has) = scope_held needed c held in
      inr (t, c, scope, is_t, m, fits, is_needed, has)
]

decided :
    (own enrolls keyed : Bool) (behind without : Decision)
    → (if own then admitted else if enrolls then admitted else if keyed then behind else without)
      ≡ admitted
    → (own ≡ true)
      ⊎ ((enrolls ≡ true)
          ⊎ (((keyed ≡ true) × (behind ≡ admitted)) ⊎ ((keyed ≡ false) × (without ≡ admitted))))
decided true enrolls keyed behind without h = inl refl
decided false true keyed behind without h = inr (inl refl)
decided false false true behind without h = inr (inr (inl (refl, h)))
decided false false false behind without h = inr (inr (inr (refl, h)))

no_key : (key : Option String) → is_nonempty key ≡ false → (key ≡ none) ⊎ (key ≡ some "")
no_key none h = inl refl
no_key (some k) h = inr (ap some (ground (arith, ==_iff k "")))

no_credentials : (cs : List Credential) → is_empty cs ≡ true → cs ≡ []
no_credentials [] h = refl
no_credentials (c ∷ cs) h = cc

unscoped-IsOpen :
    (env : Environment) (needed : Option ServiceScope)
    → is_nonempty env.api_key ≡ false
    → is_unscoped env needed ≡ true
    → IsOpen env needed
unscoped-IsOpen env none keyless h = (no_key env.api_key keyless, inl refl)
unscoped-IsOpen env (some scope) keyless h = (
  no_key env.api_key keyless,
  inr (
    no_credentials (credentials env) (ground (arith, h)),
    λ e. ground (arith, h, ==_iff scope workers_register, some-injective scope workers_register e),
  ),
)

given_code :
    (env : Environment) (field : Option String)
    → is_nonempty (mapped env.trim field) ≡ true
    → (code : String) × (field ≡ some code) × (env.trim code ≢ "")
given_code env none h = cc
given_code env (some code) h = (code, refl, λ e. ground (arith, h, ==_iff (env.trim code) "", e))

enrolls-IsEnrollment :
    (env : Environment) (req : Request) → is_enrollment env req ≡ true → IsEnrollment env req
unfolding is_enrollment
enrolls-IsEnrollment env req h = (
  ground (arith, h, ==_iff req.path "/workers/register"),
  ground (arith, h, ==_iff req.method "POST"),
  given_code env req.enrollment_code (ground (arith, h)),
)

abbrev pub token_of : Request → Option String
token_of req = bearer req.authorization

-- A request that the middleware admits has a path that starts with /workers/me; or it posts to /workers/register an enrollment code that is not blank;
-- or it has the API key, or a credential of the service tokens with the scope that it needs; or
-- there is no API key (or an empty one), and it needs no scope, or there are no service tokens and
-- the scope that it needs is not the registration of workers.
pub admitted_entitled :
    (env : Environment) (req : Request)
    → (auth_middleware env req).1 ≡ admitted
    → (starts_with req.path "/workers/me" ≡ true)
      ⊎ (IsEnrollment env req
          ⊎ ((IsAdmin env (token_of req) ⊎ IsService env (token_of req) (required_scope req))
              ⊎ IsOpen env (required_scope req)))
unfolding auth_middleware decide
admitted_entitled env req h =
    let auth = authenticate_token env (token_of req) in
    let proof = authenticated-Proves env (token_of req) in
    let entitled = bearer_entitled env (token_of req) (required_scope req) auth proof in
    elim (decided (starts_with req.path "/workers/me") (is_enrollment env req)
      (is_nonempty env.api_key) (behind_key (required_scope req) auth)
      (without_key env (required_scope req) auth) h) [
        | inl own ↦ inl own
        | inr (inl enrolls) ↦ inr (inl (enrolls-IsEnrollment env req enrolls))
        | inr (inr (inl (keyed, h'))) ↦
            let (known, right) = behind_key_lem (required_scope req) auth h' in
            inr (inr (inl (entitled known right)))
        | inr (inr (inr (keyless, h'))) ↦ elim (without_key_lem env (required_scope req) auth h') [
          | inl unscoped ↦
              inr (inr (inr (unscoped-IsOpen env (required_scope req) keyless unscoped)))
          | inr (known, fits) ↦ inr (inr (inl (entitled known (inr fits))))
        ]
      ]
