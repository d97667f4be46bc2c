-- ===== src/Access.antt =====
-- packages/server/src/middleware/auth.ts: which requests are admitted, and for whom. The platform's
-- functions on texts and its digest are parameters; equal bytes are equal texts.
pub mod Admission
use infinite_kanban.Prelude.{
  ℕ, ◌≡◌, ◌↔◌, String, Bool, true, false, not, ◌&&◌, ◌||◌, Option, none, some, List, [], ◌∷◌, ◌==◌,
  Eq, nat_eq, string_eq, arith, filter, find, contains, is_some, value_or, map, if◌then◌else◌,
}
use Prim.Native.String.{◌++◌ as ◌<>◌, slice, len}
use infinite_kanban.Contract.Text.{codes, after}

pub data ServiceScope : Type 0 where
  projects_read agents_read a2a_send a2a_agents_read a2a_agents_manage : ServiceScope
  workers_register workers_manage : ServiceScope

abbrev pub scope_rank : ServiceScope → ℕ
scope_rank projects_read = 0
scope_rank agents_read = 1
scope_rank a2a_send = 2
scope_rank a2a_agents_read = 3
scope_rank a2a_agents_manage = 4
scope_rank workers_register = 5
scope_rank workers_manage = 6

pub scope_iff : (a b : ServiceScope) → ((scope_rank a == scope_rank b) ≡ true) ↔ (a ≡ b)
scope_iff a b = ground arith

instance abbrev pub scope_eq : Eq ServiceScope
scope_eq = record { same = λ a b. scope_rank a == scope_rank b; same_iff = scope_iff }

abbrev pub all_service_scopes : List ServiceScope
all_service_scopes =
    projects_read ∷ agents_read ∷ a2a_send ∷ a2a_agents_read ∷ a2a_agents_manage ∷ workers_register
    ∷ workers_manage ∷ []

abbrev pub scope_name : ServiceScope → String
scope_name projects_read = "projects:read"
scope_name agents_read = "agents:read"
scope_name a2a_send = "a2a:send"
scope_name a2a_agents_read = "a2a-agents:read"
scope_name a2a_agents_manage = "a2a-agents:manage"
scope_name workers_register = "workers:register"
scope_name workers_manage = "workers:manage"

-- An entry of SERVICE_TOKENS, and what is kept of it.
pub record RawCredential : Type 0 where
  pub token : Option String
  pub sha256 : Option String
  pub id : Option String
  pub scopes : Option (List String)

pub record Credential : Type 0 where
  pub token : Option String
  pub sha256 : Option String
  pub id : Option String
  pub scopes : List ServiceScope

-- The process's environment; SERVICE_TOKENS is `none` where it is absent or no JSON array.
pub record Environment : Type 0 where
  pub api_key : Option String
  pub service_tokens : Option (List RawCredential)
  pub digest : String → String
  pub lower : String → String
  pub trim : String → String

-- The truth of an optional text.
abbrev pub is_nonempty : Option String → Bool
is_nonempty none = false
is_nonempty (some s) = not (s == "")

abbrev pub mapped : (String → String) → Option String → Option String
mapped f none = none
mapped f (some s) = some (f s)

abbrev pub trimmed_id : (String → String) → Option String → Option String
trimmed_id trim none = none
trimmed_id trim (some s) = if trim s == "" then none else some (trim s)

abbrev pub scopes_named : List String → List ServiceScope
scopes_named [] = []
scopes_named (s ∷ names) = elim (find (λ k. scope_name k == s) all_service_scopes) [
  | none ↦ scopes_named names
  | some k ↦ k ∷ scopes_named names
]

abbrev pub kept_credential : Environment → RawCredential → Credential
kept_credential env c = record {
  token = c.token;
  sha256 = mapped env.lower c.sha256;
  id = trimmed_id env.trim c.id;
  scopes = scopes_named (value_or c.scopes []);
}

unfoldable pub credentials : Environment → List Credential
credentials env = elim env.service_tokens [
  | none ↦ []
  | some raw ↦
      map (kept_credential env)
        (filter (λ (c : RawCredential). is_nonempty c.token || is_nonempty c.sha256) raw)
]

pub record Authentication : Type 0 where
  pub authenticated : Bool
  pub legacy : Bool
  pub scopes : List ServiceScope
  pub id : Option String

abbrev pub unknown_bearer : Authentication
unknown_bearer = record { authenticated = false; legacy = false; scopes = []; id = none }

abbrev pub is_same_text : Option String → String → Bool
is_same_text none s = false
is_same_text (some t) s = s == t

-- `c.token ? safeEqual(token, c.token) : !!c.sha256 && safeEqual(digest, c.sha256)`
abbrev pub matches : Environment → String → Credential → Bool
matches env token c =
    if is_nonempty c.token
    then is_same_text c.token token
    else is_nonempty c.sha256 && is_same_text c.sha256 (env.digest token)

abbrev pub of_credential : Option Credential → Authentication
of_credential none = unknown_bearer
of_credential (some c) = record {
  authenticated = true;
  legacy = false;
  scopes = c.scopes;
  id = c.id;
}

abbrev pub is_api_key : Environment → String → Bool
is_api_key env token = is_nonempty env.api_key && is_same_text env.api_key token

unfoldable pub authenticate_token : Environment → Option String → Authentication
unfolding credentials
authenticate_token env none = unknown_bearer
authenticate_token env (some token) =
    if token == ""
    then unknown_bearer
    else if is_api_key env token
    then record { authenticated = true; legacy = true; scopes = all_service_scopes; id = none }
    else of_credential (find (matches env token) (credentials env))

-- The enrollment code is the trimmed field of the body, where it is a text.
pub record Request : Type 0 where
  pub path : String
  pub method : String
  pub authorization : Option String
  pub enrollment_code : Option String

unfoldable pub starts_with : String → String → Bool
unfolding after
starts_with s prefix = is_some (after (codes prefix) (codes s))

abbrev pub segment_ends : Bool → List ℕ → Bool
segment_ends long [] = long
segment_ends long (c ∷ cs) =
    if c == b'/'
    then long && (elim (after (codes "status") cs) [
      | none ↦ false
      | some rest ↦ elim rest [ [] ↦ true | _ ∷ _ ↦ false ]
    ])
    else segment_ends true cs

-- `/^\/workers\/[^/]+(?:\/status)?$/`
unfoldable pub is_worker_path : String → Bool
unfolding after
is_worker_path path = elim (after (codes "/workers/") (codes path)) [
  | none ↦ false
  | some rest ↦ segment_ends false rest
]

abbrev pub is_segment : Bool → List ℕ → Bool
is_segment long [] = long
is_segment long (c ∷ cs) = if c == b'/' then false else is_segment true cs

-- `/^\/a2a-agents\/[^/]+$/`
unfoldable pub is_a2a_agent_path : String → Bool
unfolding after
is_a2a_agent_path path = elim (after (codes "/a2a-agents/") (codes path)) [
  | none ↦ false
  | some rest ↦ is_segment false rest
]

unfoldable pub required_scope : Request → Option ServiceScope
unfolding starts_with is_worker_path is_a2a_agent_path
required_scope req =
    if req.path == "/health"
    then none
    else if starts_with req.path "/workers/me"
    then none
    else if req.path == "/workers/register" && req.method == "POST"
    then some workers_register
    else if req.path == "/workers/enrollment-codes" && req.method == "POST"
    then some workers_manage
    else if is_worker_path req.path && (req.method == "PATCH" || req.method == "DELETE")
    then some workers_manage
    else if req.path == "/workers"
    then none
    else if req.path == "/agents"
    then none
    else if req.path == "/agents/refresh"
    then some agents_read
    else if req.path == "/a2a-agents" && req.method == "GET"
    then some a2a_agents_read
    else if is_a2a_agent_path req.path && req.method == "GET"
    then some a2a_agents_read
    else if starts_with req.path "/a2a-agents"
    then some a2a_agents_manage
    else none

unfoldable pub is_enrollment : Environment → Request → Bool
is_enrollment env req =
    req.path == "/workers/register"
    && (req.method == "POST" && is_nonempty (mapped env.trim req.enrollment_code))

pub data PrincipalKind : Type 0 where
  legacy_admin service open_deployment : PrincipalKind

pub record Principal : Type 0 where
  pub id : String
  pub kind : PrincipalKind

pub data Decision : Type 0 where
  admitted unauthorized forbidden : Decision

-- `header.slice(7)` after `Bearer `.
abbrev pub bearer : Option String → Option String
bearer none = none
bearer (some header) =
    if starts_with header "Bearer " then some (slice header 7 (len header)) else none

abbrev pub has_scope : Option ServiceScope → Authentication → Bool
has_scope none auth = false
has_scope (some scope) auth = contains auth.scopes scope

abbrev pub is_empty : {A : Type 0} → List A → Bool
is_empty [] = true
is_empty (x ∷ xs) = false

abbrev pub behind_key : Option ServiceScope → Authentication → Decision
behind_key scope auth =
    if not auth.authenticated
    then unauthorized
    else if not auth.legacy && not (has_scope scope auth)
    then forbidden
    else admitted

abbrev pub is_unscoped : Environment → Option ServiceScope → Bool
is_unscoped env none = true
is_unscoped env (some scope) = is_empty (credentials env) && not (scope == workers_register)

abbrev pub without_key : Environment → Option ServiceScope → Authentication → Decision
without_key env scope auth =
    if is_unscoped env scope
    then admitted
    else if not auth.authenticated
    then unauthorized
    else if has_scope scope auth
    then admitted
    else forbidden

unfoldable pub decide : Environment → Request → Authentication → Decision
unfolding credentials required_scope is_enrollment starts_with
decide env req auth =
    if starts_with req.path "/workers/me"
    then admitted
    else if is_enrollment env req
    then admitted
    else if is_nonempty env.api_key
    then behind_key (required_scope req) auth
    else without_key env (required_scope req) auth

abbrev pub principal_of : Environment → Option String → Authentication → Option Principal
principal_of env token auth =
    if auth.authenticated
    then some (record {
      id =
          if auth.legacy
          then "legacy-admin"
          else value_or auth.id ("service:" <> env.digest (value_or token ""));
      kind = if auth.legacy then legacy_admin else service;
    })
    else if not (is_nonempty env.api_key) && is_empty (credentials env)
    then some (record { id = "open-deployment"; kind = open_deployment })
    else none

unfoldable pub auth_middleware : Environment → Request → Option Principal × Decision
unfolding authenticate_token decide credentials starts_with
auth_middleware env req =
    let token = bearer req.authorization in
    let auth = authenticate_token env token in (principal_of env token auth, decide env req auth)

unfoldable pub is_valid_token : Environment → Option String → Bool
unfolding authenticate_token
is_valid_token env token =
    let auth = authenticate_token env token in auth.authenticated && auth.legacy

unfoldable pub is_valid_web_socket_token : Environment → Option String → Bool
unfolding is_valid_token
is_valid_web_socket_token env token =
    if is_nonempty env.api_key then is_valid_token env token else true
