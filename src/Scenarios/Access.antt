-- ===== src/Scenarios/Access.antt =====
-- A worker is disabled with a service token (packages/server/src/middleware/auth.ts).
use infinite_kanban.Prelude.{◌≡◌, ◌⊎◌, refl, true, none, some, [], ◌∷◌}
use infinite_kanban.Contract.Text.{after}
use infinite_kanban.Access.{
  Environment, Request, admitted, auth_middleware, authenticate_token, decide, credentials,
  starts_with, is_enrollment, required_scope, is_worker_path,
}
use infinite_kanban.Access.Admission.{
  IsAdmin, IsService, IsOpen, IsEnrollment, token_of, admitted_entitled,
}

abbrev served : Environment
served = record {
  api_key = some "k";
  service_tokens = some (
      record {
        token = some "s";
        sha256 = none;
        id = none;
        scopes = some ("workers:manage" ∷ "unknown" ∷ []);
      }
      ∷ []);
  digest = λ t. t;
  lower = λ t. t;
  trim = λ t. t;
}

abbrev disabling : Request
disabling = record {
  path = "/workers/w1";
  method = "PATCH";
  authorization = some "Bearer s";
  enrollment_code = none;
}

admits_it : (auth_middleware served disabling).1 ≡ admitted
unfolding auth_middleware authenticate_token decide credentials starts_with is_enrollment
    required_scope is_worker_path after
admits_it = refl

admitted_entitled_example :
    (starts_with "/workers/w1" "/workers/me" ≡ true)
    ⊎ (IsEnrollment served disabling
        ⊎ ((IsAdmin served (token_of disabling)
              ⊎ IsService served (token_of disabling) (required_scope disabling))
            ⊎ IsOpen served (required_scope disabling)))
admitted_entitled_example = admitted_entitled served disabling admits_it
