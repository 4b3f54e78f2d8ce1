-- ===== src/Guards.antt =====
-- src/common/guards/auth.guard.ts, api-key.guard.ts and microservice.guard.ts. A guard answers true
-- or throws; the user it finds goes into the request's context. The metadata that the decorator
-- `EndpointKey` gives a handler is the parameter `endpoint`.
pub mod Sessions
pub mod Endpoints
pub mod Granting
pub mod Services
pub mod Microservices
use auth_microservice.Prelude.{
  ℕ, zero, suc, ◌+◌, ◌-◌, ◌*◌, ◌/◌, ◌≤◌, ◌<◌, String, ◌≡◌, refl, sym, ap, subst, ◌∙◌, ◌≢◌, ◌↔◌, ◌⊎◌,
  inl, inr, Bool, true, false, not, ◌&&◌, ◌||◌, Option, none, some, List, [], ◌∷◌, ◌++◌, map, arith,
  ◌==◌, eq_iff, eq_refl, ltb, leb, eqb, if◌then◌else◌, Bool-cases, Option-cases, truthy, get_or,
  length, length-append, any, filter_by, In, includes,
}
use auth_microservice.Failure.{
  Message, Response, Link, Failure, status?, thrown, wrap, deepest_error_code, deepest_http_message,
  chain_entry, cause_chain, one, many, absent, text, object, service, http, plain,
}
use auth_microservice.Redis.{
  Session, ApiCache, Value, Key, SetKey, same_key, same_set, Expiry, ttl_after, Redis, found,
  Queued, perform, perform_all, session, api_cache, codes, reset_payload, malformed, empty_text,
  auth_session, reset_password, api_key_fp, epr, user_sessions, api_keys, epr_keys, px, keep_ttl,
  persist, q_set, q_del, q_s_add, q_s_rem, q_del_set,
}
use auth_microservice.Exec.{
  AuthUser, Delivery, World, calm, Result, Exec, connection_lost, pure, raise, lift, recover,
  attempt, on_redis, on_db, continue, ◌>>=◌, ◌>>◌, current_time, set_user, Result-cases, >>=-eq-ok,
  attempt-eq-ok, answered, refused, reply_lost, ok, err,
}
use auth_microservice.Jwt.{
  TokenType, JwtPayload, Claims, Verification, Signing, JsonWebToken, Payload, TokenConfig,
  JwtConfig, Tokens, refresh_token, config_of, jwt_exception, payload_of, minutes_left,
  renewed_payload, get_payload, generate_token, issue, auth, refresh, decoded, expired, rejected,
  failed, signed, sign_error, unsigned,
}
use auth_microservice.Http.{
  Header, Request, auth_exception, extract_api_key, get_client_ip, same_parts, same_subnet_check,
  extract_bearer, no_header, many_headers, one_header,
}
use auth_microservice.Sessions.{
  syntax_error, parse_session, read_session, SessionWithSid, UserSessions, refresh_command, m_get,
  refresh_commands, find_user_sessions, deactivate_session, refresh_session_permissions,
  refresh_users,
}
use auth_microservice.Permissions.{
  Permission, PermissionTable, permission_codes_of, permission_not_found, find_permission,
  find_permissions, find_permissions-calm,
}
use auth_microservice.Rules.{
  permission_codes, Rule, unless_id, RuleTable, rule_exception, rule_not_defined, rule_disabled,
  unique_violation, read_codes, warm_rule, warm_commands, warm, warm_up_cache,
  invalidate_rule_cache, load_found, load_rule_to_redis, from_database,
  get_permissions_for_endpoint,
}
use auth_microservice.ApiKeys.{
  ApiKey, key_codes, unless_key, if_active, is_live, ApiKeyTable, find_by_fingerprint,
  api_key_exception, api_key_not_found, invalid_api_key, lookup_failed, cache_of, read_cache,
  cache_commands, drop_commands, warm_key_commands, load_api_key_to_redis, invalidate_api_key_cache,
  warm_keys, warm_up_keys, cached_key, backfill, cached_or_row, find_active_by_plain_key,
}
use auth_microservice.ApiKeys.Editing.{
  found_key, find_key, save_key, new_key, insert_key, create_key, deactivate_found, deactivate_key,
  activate_found, activate_key, recache_key, change_permissions,
}

-- What `AuthGuard` puts into the request.
abbrev pub auth_user : Session → (session_id : String) → AuthUser
auth_user s sid = record {
  id = s.user_id;
  person_id = s.person_id;
  email = s.email;
  session_id = sid;
}

module _ {S B : Type 0} where
  -- `extractToken`, and the refusal where the cookie is missing or empty.
  unfoldable pub require_token : Option String → Exec S B String
  require_token none = raise (
      auth_exception "Authentication cookie is missing, expired, or invalid"
        "AUTH_COOKIE_EXPIRED_INVALID" 401)
  require_token (some token) = pure token

  require_session : Option Session → Exec S B Session
  require_session none = raise (auth_exception "Session expired or invalid" "SESSION_INVALID" 401)
  require_session (some s) = pure s

  -- The session is active, and it is that of the token.
  unfoldable pub check_session : Payload → Session → Exec S B (Unit {0})
  check_session payload s =
      if not s.active
      then raise (auth_exception "This session is no longer active" "SESSION_EXPIRED" 401)
      else if not (s.email == payload.email)
      then raise (auth_exception "Token/Session mismatch" "SESSION_TOKEN_MISMATCH" 401)
      else pure tt

  unfoldable pub check_subnet : Session → (ip : String) → Exec S B (Unit {0})
  unfolding same_subnet_check
  check_subnet s ip =
      if not (same_subnet_check s.ip ip)
      then raise (auth_exception "Session IP mismatch" "SESSION_IP_MISMATCH" 401)
      else pure tt

  -- The caller holds one of the endpoint's permissions, if there are any.
  unfoldable pub check_permissions :
      (message : String) (held : List String) → List String → Exec S B Bool
  check_permissions message held [] = pure true
  check_permissions message held (p ∷ ps) =
      if not (any (includes held) (p ∷ ps))
      then raise (auth_exception message "INSUFFICIENT_PERMISSIONS" 403)
      else pure true

  -- `if (!apiKeyPermissions)`.
  unfoldable pub require_codes : Option (List String) → Exec S B (List String)
  require_codes none = raise (auth_exception "Invalid API key" "API_KEY_INVALID" 401)
  require_codes (some held) = pure held

module _ (R : Redis) {B : Type 0} (T : RuleTable B) where
  -- The session in Redis.
  unfoldable pub load_session : (sid : String) → Exec R.Store B Session
  unfolding on_redis require_session
  load_session sid = do
    raw ← on_redis (λ s. (found (R.get (auth_session sid) s), s))
    s ← lift (read_session raw)
    require_session s

  -- The dynamic rules of the endpoint, where it has a key.
  unfoldable pub check_endpoint :
      (message : String) (held : List String) → Option String → Exec R.Store B Bool
  unfolding get_permissions_for_endpoint check_permissions
  check_endpoint message held none = pure true
  check_endpoint message held (some key) =
      get_permissions_for_endpoint R T key >>= check_permissions message held

module _ (R : Redis) {B : Type 0} (T : RuleTable B) (c : JwtConfig) (endpoint : Option String) where
  -- `AuthGuard.canActivate` behind the check of the token.
  unfoldable pub admit_user : Request → (token : String) → Payload → Exec R.Store B Bool
  unfolding load_session check_session check_subnet get_client_ip check_endpoint
  admit_user request token payload = do
    s ← load_session R T (get_or payload.sid token)
    check_session payload s
    check_subnet s (get_client_ip request)
    set_user (auth_user s (get_or payload.sid token))
    check_endpoint R T "Insufficient permissions" s.permissions (truthy endpoint)

  unfoldable pub auth_guard : Request → Exec R.Store B Bool
  unfolding require_token get_payload admit_user
  auth_guard request = do
    token ← require_token (truthy request.auth_token)
    payload ← get_payload c token auth
    admit_user request token payload

module _ (R : Redis) {B : Type 0} (T : RuleTable B) (K : ApiKeyTable B) (P : PermissionTable B)
    (compute_hmac : String → String) (c : JwtConfig) (endpoint : Option String) where
  unfoldable pub api_key_guard : Request → Exec R.Store B Bool
  unfolding extract_api_key find_active_by_plain_key require_codes check_endpoint
  api_key_guard request = do
    raw ← lift (extract_api_key request.api_key)
    looked ← find_active_by_plain_key R K P compute_hmac raw
    held ← require_codes looked
    check_endpoint R T "Insufficient API Key permissions" held (truthy endpoint)

  -- `validateUserToken` behind the check of the token.
  unfoldable pub admit_token : (token : String) → Payload → Exec R.Store B (Unit {0})
  unfolding load_session check_session
  admit_token token payload = do
    s ← load_session R T (get_or payload.sid token)
    check_session payload s
    set_user (auth_user s (get_or payload.sid token))

  unfoldable pub validate_user_token : Request → Exec R.Store B (Unit {0})
  unfolding extract_bearer get_payload admit_token
  validate_user_token request = do
    token ← lift (extract_bearer request.authorization)
    payload ← get_payload c token auth
    admit_token token payload

  -- `validateApiKey` makes the same checks as `ApiKeyGuard`.
  unfoldable pub microservice_guard : Request → Exec R.Store B Bool
  unfolding api_key_guard validate_user_token
  microservice_guard request = do api_key_guard request; validate_user_token request; pure true
