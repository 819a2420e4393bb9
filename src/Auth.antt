-- ===== src/Auth.antt =====
-- app/auth: token_manager.py, middleware.py, deps.py and permissions.py. The library that signs and
-- reads tokens is a parameter, with the secret fixed; times are seconds.
pub mod Context
mod Tests
use prd2tsd.Prelude.{
  ℕ, ◌+◌, ◌*◌, String, Option, none, some, Bool, true, false, not, List, [], ◌∷◌, ◌≡◌, ltb, ◌==◌,
  ◌=?◌, if◌then◌else◌, any,
}
use prd2tsd.Prelude.Dict.{Dict, lookup}

-- A token's payload; a refresh token has neither organization nor workspace nor permissions.
pub record Payload : Type 0 where
  pub sub : String
  pub org_id : Option String
  pub ws_id : Option String
  pub permissions : Option (List String)
  pub exp : ℕ
  pub iat : ℕ
  pub jti : String
  pub type : String

-- `jose.jwt`: it reads what it signed until the time of expiry has passed.
pub record Jwt : Type 1 where
  pub Token : Type 0
  pub encode : Payload → Token
  pub decode : ℕ → Token → Option Payload
  pub decode_encode :
      (now : ℕ) (p : Payload) → decode now (encode p) ≡ (if ltb p.exp now then none else some p)

-- The settings of `TokenManager`, in minutes and days.
pub record TokenManager : Type 0 where
  pub access_expire : ℕ
  pub refresh_expire : ℕ

abbrev pub access_payload :
    TokenManager → ℕ → String → String → String → String → List String → Payload
access_payload m now jti user_id org_id ws_id permissions = record {
  sub = user_id;
  org_id = some org_id;
  ws_id = some ws_id;
  permissions = some permissions;
  exp = now + m.access_expire * 60;
  iat = now;
  jti = jti;
  type = "access";
}

abbrev pub refresh_payload : TokenManager → ℕ → String → String → Payload
refresh_payload m now jti user_id = record {
  sub = user_id;
  org_id = none;
  ws_id = none;
  permissions = none;
  exp = now + m.refresh_expire * 86400;
  iat = now;
  jti = jti;
  type = "refresh";
}

-- What a request brings: the bearer token, if there is one, the header X-Workspace-ID and the
-- parameter `ws_id`, which are "" if they are missing.
pub record Request (Token : Type 0) : Type 0 where
  pub bearer : Option Token
  pub ws_header : String
  pub ws_query : String

-- `request.scope`
pub record Scope : Type 0 where
  pub user_id : String
  pub org_id : String
  pub ws_id : String
  pub permissions : List String

-- `_init_scope` of a new request.
abbrev pub init_scope : Scope
init_scope = record { user_id = ""; org_id = ""; ws_id = ""; permissions = [] }

abbrev pub or_default : {A : Type 0} → Option A → A → A
or_default none x = x
or_default (some y) x = y

-- `AuthMiddleware.dispatch`, up to the next handler.
abbrev pub with_payload : Option Payload → Scope → Scope
with_payload none scope = scope
with_payload (some p) scope = record {
  user_id = p.sub;
  org_id = or_default p.org_id "";
  ws_id = or_default p.ws_id "";
  permissions = or_default p.permissions [];
}

-- `WorkspaceContextMiddleware.dispatch`, up to the next handler.
unfoldable pub workspace_context : {Token : Type 0} → Request Token → Scope → Scope
workspace_context q scope =
    if scope.ws_id =? ""
    then record scope { ws_id = if q.ws_header =? "" then q.ws_query else q.ws_header }
    else scope

-- `PermissionChecker`
abbrev pub system_permissions : Dict (List String)
system_permissions =
    (
      "admin",
      "workspace:create" ∷ "workspace:read" ∷ "workspace:update" ∷ "workspace:delete"
          ∷ "workspace:manage_members" ∷ "prd:create" ∷ "prd:read" ∷ "prd:update" ∷ "prd:delete"
          ∷ "model_config:read" ∷ "model_config:update" ∷ [],
    )
    ∷ ("editor", "workspace:read" ∷ "prd:create" ∷ "prd:read" ∷ "prd:update" ∷ [])
    ∷ ("viewer", "workspace:read" ∷ "prd:read" ∷ [])
    ∷ []

abbrev pub check_permission : String → List String → Bool
check_permission required permissions = any (λ p. p =? required) permissions

abbrev pub get_role_permissions : String → List String
get_role_permissions role_name = or_default (lookup role_name system_permissions) []

abbrev pub has_any_permission : List String → List String → Bool
has_any_permission required permissions = any (λ p. check_permission p permissions) required

-- `get_current_user` and `get_current_workspace`: `none` if they raise; `require_permission`: whether
-- it lets the request through.
abbrev pub given : String → Option String
given x = if x =? "" then none else some x

abbrev pub get_current_user : Scope → Option String
get_current_user scope = given scope.user_id

abbrev pub get_current_workspace : Scope → Option String
get_current_workspace scope = given scope.ws_id

abbrev pub require_permission : String → Scope → Bool
require_permission permission scope = check_permission permission scope.permissions

module _ (jwt : Jwt) where
  unfoldable pub create_access_token :
      TokenManager → ℕ → String → String → String → String → List String → jwt.Token
  create_access_token m now jti user_id org_id ws_id permissions =
      jwt.encode (access_payload m now jti user_id org_id ws_id permissions)

  unfoldable pub create_refresh_token : TokenManager → ℕ → String → String → jwt.Token
  create_refresh_token m now jti user_id = jwt.encode (refresh_payload m now jti user_id)

  abbrev pub verify_token : ℕ → jwt.Token → Option Payload
  verify_token now token = jwt.decode now token

  abbrev pub refreshed : TokenManager → ℕ → String → Option Payload → Option jwt.Token
  refreshed m now jti none = none
  refreshed m now jti (some p) =
      if not (p.type =? "refresh")
      then none
      else if p.sub =? ""
      then none
      else some (create_access_token m now jti p.sub "" "" [])

  unfoldable pub refresh_access_token : TokenManager → ℕ → String → jwt.Token → Option jwt.Token
  refresh_access_token m now jti token = refreshed m now jti (verify_token now token)

  abbrev pub bearer_payload : ℕ → Option jwt.Token → Option Payload
  bearer_payload now none = none
  bearer_payload now (some token) = verify_token now token

  unfoldable pub authenticate : ℕ → Request jwt.Token → Scope → Scope
  authenticate now q scope = with_payload (bearer_payload now q.bearer) scope

  -- The two as app/main.py adds them: the one that was added last comes first.
  unfoldable pub context : ℕ → Request jwt.Token → Scope
  context now q = authenticate now q (workspace_context q init_scope)
