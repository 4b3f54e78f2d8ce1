-- ===== src/Routes.antt =====
-- The routes of the eight controllers (src/services/*/*.controller.ts, src/observability/metrics.controller.ts
-- and src/app.controller.ts), as their decorators declare them: the method and path, the guard, the key
-- for the dynamic permissions, and the handler. The documentation decorators are left out.
pub mod Keys
pub mod Seeded
use auth_microservice.Prelude.{
  ℕ, zero, suc, ◌+◌, ◌-◌, ◌*◌, ◌/◌, ◌≤◌, ◌<◌, String, ◌≡◌, refl, sym, ap, subst, ◌∙◌, ◌≢◌, ◌↔◌, ◌⊎◌,
  inl, inr, Bool, true, false, not, ◌&&◌, ◌||◌, Option, none, some, List, [], ◌∷◌, ◌++◌, map,
  append-nil, append_assoc, arith, ◌==◌, eq_iff, eq_refl, ltb, leb, eqb, if◌then◌else◌, Bool-cases,
  Option-cases, truthy, get_or, length, length-append, any, filter_by, In, includes,
}
use auth_microservice.Redis.{
  api_keys, codes, Session, ApiCache, Value, Key, SetKey, same_key, same_set, Expiry, ttl_after,
  Redis, found, Queued, perform, perform_all, session, api_cache, reset_payload, malformed,
  empty_text, auth_session, reset_password, api_key_fp, epr, user_sessions, epr_keys, px, keep_ttl,
  persist, q_set, q_del, q_s_add, q_s_rem, q_del_set,
}
use auth_microservice.Exec.{
  AuthUser, Delivery, World, calm, Result, Exec, connection_lost, pure, raise, lift, recover,
  attempt, on_redis, on_db, continue, ◌>>=◌, ◌>>◌, current_time, set_user, Result-cases, >>=-eq-ok,
  attempt-eq-ok, answered, refused, reply_lost, ok, err,
}
use auth_microservice.Permissions.{
  Permission, PermissionTable, permission_codes_of, permission_not_found, or_missing,
  find_permission, find_permissions, find_permissions-calm,
}
use auth_microservice.Rules.{
  permission_codes, Rule, unless_id, RuleTable, rule_exception, rule_not_defined, rule_disabled,
  unique_violation, read_codes, warm_rule, warm_commands, warm, warm_up_cache,
  invalidate_rule_cache, load_found, load_rule_to_redis, from_database,
  get_permissions_for_endpoint,
}
use auth_microservice.ApiKeys.{
  ApiKey, key_codes, unless_key, if_active, is_live, ApiKeyTable, find_by_fingerprint,
  api_key_exception, api_key_not_found, invalid_api_key, lookup_failed, cache_of, read_cache,
  cache_commands, drop_commands, warm_key_commands, load_api_key_to_redis, invalidate_api_key_cache,
  warm_keys, warm_up_keys, cached_key, backfill, cached_or_row, find_active_by_plain_key,
}
use auth_microservice.Jwt.{
  TokenType, JwtPayload, Claims, Verification, Signing, JsonWebToken, Payload, TokenConfig,
  JwtConfig, Tokens, refresh_token, config_of, jwt_exception, payload_of, minutes_left,
  renewed_payload, get_payload, generate_token, issue, auth, refresh, decoded, expired, rejected,
  failed, signed, sign_error, unsigned,
}
use auth_microservice.Http.{
  Header, Request, auth_exception, extract_api_key, get_client_ip, same_parts, same_subnet_check,
  extract_bearer, no_header, many_headers, one_header,
}
use auth_microservice.Guards.{
  auth_user, require_token, check_session, check_subnet, check_permissions, require_codes,
  load_session, check_endpoint, admit_user, auth_guard, api_key_guard, admit_token,
  validate_user_token, microservice_guard,
}

pub data Method : Type 0 where
  get post patch delete : Method

pub data Protection : Type 0 where
  unguarded by_auth by_api_key by_microservice : Protection

pub record Route : Type 0 where
  pub method : Method
  pub path : String
  pub guard : Protection
  pub endpoint_key : Option String
  pub handler : String

abbrev route :
    Method
    → (path : String) → Protection
    → (endpoint_key : Option String) → (handler : String) → Route
route m p g k h = record { method = m; path = p; guard = g; endpoint_key = k; handler = h }

-- `UsersController`.
abbrev pub users_routes : List Route
users_routes =
    route post "/users/register" by_api_key (some "users.register") "UsersController.register"
    ∷ route post "/users/first-activation" unguarded none "UsersController.firstActivation"
    ∷ route post "/users/activate/:id" by_auth (some "users.update") "UsersController.activate"
    ∷ route post "/users/deactivate/:id" by_auth (some "users.update") "UsersController.deactivate"
    ∷ route post "/users/login" unguarded none "UsersController.logIn"
    ∷ route post "/users/logout" by_auth none "UsersController.logOut"
    ∷ route get "/users/refresh-token" unguarded none "UsersController.refreshToken"
    ∷ route get "/users/can-do/:permission" by_microservice (some "users.find_api")
        "UsersController.canDo"
    ∷ route get "/users/me" by_microservice (some "users.find_api") "UsersController.me"
    ∷ route post "/users/assign-role/:id" by_auth (some "users.update") "UsersController.assignRole"
    ∷ route post "/users/forgot-password" unguarded none "UsersController.forgotPassword"
    ∷ route post "/users/reset-password" unguarded none "UsersController.resetPassword"
    ∷ route get "/users/all" by_auth (some "users.find") "UsersController.findAll"
    ∷ []

-- `ApiKeysController`.
abbrev pub api_keys_routes : List Route
api_keys_routes =
    route get "/api-keys/can-do/:permission" by_api_key none "ApiKeysController.canDo"
    ∷ route post "/api-keys/generate" by_auth (some "api-key.generate") "ApiKeysController.generate"
    ∷ route get "/api-keys/find/:id" by_auth (some "api-key.find") "ApiKeysController.findOne"
    ∷ route get "/api-keys/all" by_auth (some "api-key.find") "ApiKeysController.findAll"
    ∷ route patch "/api-keys/change-permissions/:id" by_auth (some "api-key.update")
        "ApiKeysController.changePermissions"
    ∷ route patch "/api-keys/deactivate/:id" by_auth (some "api-key.deactivate")
        "ApiKeysController.deactivate"
    ∷ route patch "/api-keys/activate/:id" by_auth (some "api-key.activate")
        "ApiKeysController.activate"
    ∷ []

-- `EndpointPermissionRulesController`.
abbrev pub rules_routes : List Route
rules_routes =
    route post "/endpoint-permission-rules/new" by_auth (some "endpoint-permission-rules.create")
      "EndpointPermissionRulesController.create"
    ∷ route patch "/endpoint-permission-rules/edit/:id" by_auth
        (some "endpoint-permission-rules.update") "EndpointPermissionRulesController.edit"
    ∷ route patch "/endpoint-permission-rules/assign-permissions/:id" by_auth
        (some "endpoint-permission-rules.update")
        "EndpointPermissionRulesController.assignPermissions"
    ∷ route patch "/endpoint-permission-rules/enable/:id" by_auth
        (some "endpoint-permission-rules.update") "EndpointPermissionRulesController.enableRule"
    ∷ route patch "/endpoint-permission-rules/disable/:id" by_auth
        (some "endpoint-permission-rules.update") "EndpointPermissionRulesController.disableRule"
    ∷ route delete "/endpoint-permission-rules/delete/:id" by_auth
        (some "endpoint-permission-rules.delete") "EndpointPermissionRulesController.delete"
    ∷ route get "/endpoint-permission-rules/all" by_auth (some "endpoint-permission-rules.find")
        "EndpointPermissionRulesController.findAll"
    ∷ route get "/endpoint-permission-rules/find/:id" by_auth
        (some "endpoint-permission-rules.find") "EndpointPermissionRulesController.findOne"
    ∷ route get "/endpoint-permission-rules/get-endpoint-permissions/:key" by_api_key
        (some "endpoint-permission-rules.find_api")
        "EndpointPermissionRulesController.getEndpointPermissions"
    ∷ []

-- `PermissionsController`.
abbrev pub permissions_routes : List Route
permissions_routes =
    route post "/permissions/new" by_auth (some "permission.create") "PermissionsController.create"
    ∷ route patch "/permissions/edit/:id" by_auth (some "permission.update")
        "PermissionsController.edit"
    ∷ route delete "/permissions/delete/:id" by_auth (some "permission.delete")
        "PermissionsController.delete"
    ∷ route get "/permissions/details" by_auth (some "permission.details")
        "PermissionsController.getDetails"
    ∷ route get "/permissions/find/:id" by_auth (some "permission.find")
        "PermissionsController.findOne"
    ∷ route get "/permissions/all" by_auth (some "permission.find") "PermissionsController.findAll"
    ∷ []

-- `RolesController`.
abbrev pub roles_routes : List Route
roles_routes =
    route post "/roles/new" by_auth (some "roles.create") "RolesController.create"
    ∷ route patch "/roles/edit/:id" by_auth (some "roles.update") "RolesController.edit"
    ∷ route patch "/roles/assign-permissions/:id" by_auth (some "roles.update")
        "RolesController.assignPermissions"
    ∷ route delete "/roles/delete/:id" by_auth (some "roles.delete") "RolesController.delete"
    ∷ route get "/roles/details/unrestricted" by_auth (some "roles.details")
        "RolesController.getUnrestrictedDetails"
    ∷ route get "/roles/details/restricted" by_auth (some "roles.details.restricted")
        "RolesController.getAllDetails"
    ∷ route get "/roles/find/:id" by_auth (some "roles.find") "RolesController.findOne"
    ∷ route get "/roles/all" by_auth (some "roles.find") "RolesController.findAll"
    ∷ []

-- `SessionsController`.
abbrev pub sessions_routes : List Route
sessions_routes =
    route get "/sessions/user/:userId" by_auth (some "sessions.find")
      "SessionsController.getUserSessions"
    ∷ route post "/sessions/deactivate/:sid" by_auth (some "sessions.deactivate")
        "SessionsController.deactivateSession"
    ∷ []

-- `MetricsController`.
abbrev pub metrics_routes : List Route
metrics_routes =
    route get "/metrics" by_api_key (some "metrics.get") "MetricsController.getMetrics" ∷ []

-- `AppController`.
abbrev pub app_routes : List Route
app_routes = route get "/" unguarded none "AppController.status" ∷ []

abbrev pub all_routes : List Route
all_routes =
    users_routes
    ++ (api_keys_routes
        ++ (rules_routes
            ++ (permissions_routes
                ++ (roles_routes ++ (sessions_routes ++ (metrics_routes ++ app_routes))))))

module _ (R : Redis) {B : Type 0} (T : RuleTable B) (K : ApiKeyTable B) (P : PermissionTable B)
    (compute_hmac : String → String) (c : JwtConfig) where
  -- The guard in front of a handler.
  unfoldable pub guard_request : Protection → Option String → Request → Exec R.Store B Bool
  unfolding auth_guard api_key_guard microservice_guard
  guard_request unguarded key request = pure true
  guard_request by_auth key request = auth_guard R T c key request
  guard_request by_api_key key request = api_key_guard R T K P compute_hmac c key request
  guard_request by_microservice key request = microservice_guard R T K P compute_hmac c key request

  unfoldable pub enter : Route → Request → Exec R.Store B Bool
  unfolding guard_request
  enter r request = guard_request r.guard r.endpoint_key request
