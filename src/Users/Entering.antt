-- ===== src/Users/Entering.antt =====
-- Logging in and out, and renewing a session's tokens.
use auth_microservice.Prelude.{
  ℕ, String, Bool, true, not, Option, none, some, if◌then◌else◌, truthy, get_or, includes,
}
use auth_microservice.Failure.{wrap}
use auth_microservice.Redis.{
  Session, Redis, found, session, auth_session, user_sessions, px, keep_ttl,
}
use auth_microservice.Exec.{
  AuthUser, Exec, pure, raise, lift, attempt, on_redis, on_db, ◌>>=◌, ◌>>◌, current_time,
}
use auth_microservice.Jwt.{Tokens, refresh_token, get_payload, generate_token, auth, refresh}
use auth_microservice.Http.{Request, get_client_ip}
use auth_microservice.Sessions.{read_session}
use auth_microservice.Users.{
  UserStatus, User, role_codes, Services, users_exception, session_invalid, wrong_credentials,
  found_user, find_user, check_password, status_active, status_inactive, status_pending,
}

module _ (R : Redis) {B : Type 0} (V : Services B) where
  -- The session of a key, if it is there and active.
  unfoldable pub require_active : Option Session → Exec R.Store B Session
  require_active none = raise session_invalid
  require_active (some s) = if not s.active then raise session_invalid else pure s

  unfoldable pub active_session : (sid : String) → Exec R.Store B Session
  unfolding on_redis require_active
  active_session sid = do
    raw ← on_redis (λ s. (found (R.get (auth_session sid) s), s))
    s ← lift (read_session raw)
    require_active s

  -- The session that `refreshToken` writes back.
  abbrev pub renewed : Session → User → (now : ℕ) → Session
  renewed s u now = record s { permissions = role_codes u.roles; last_refresh_at = now }

  -- `refreshToken` behind the check of the payload, whose `sid` is there.
  unfoldable pub renew_session : (token sid : String) → Exec R.Store B Tokens
  unfolding active_session find_user on_redis refresh_token
  renew_session token sid = do
    s ← active_session sid
    u ← find_user R V s.user_id
    now ← current_time
    on_redis (λ r. (tt, R.set keep_ttl (auth_session sid) (session (renewed s u now)) r))
    refresh_token V.jwt token

  unfoldable pub refresh_user_token : (token : String) → Exec R.Store B Tokens
  unfolding get_payload renew_session
  refresh_user_token token = do
    payload ← get_payload V.jwt token refresh
    renew_session token (get_or payload.sid "")

  unfoldable pub user_can_do : AuthUser → (permission_code : String) → Exec R.Store B Bool
  unfolding active_session
  user_can_do user code = do s ← active_session user.session_id; pure (includes s.permissions code)

  unfoldable pub check_status : UserStatus → Exec R.Store B (Unit {0})
  check_status status_pending = raise (
      users_exception "This user has to finish their activation by changing the password"
        "USER_NOT_INITIALIZED" 401)
  check_status status_inactive =
      raise (users_exception "This user is not active" "USER_INACTIVE" 401)
  check_status status_active = pure tt

  abbrev pub new_session : User → Request → (now : ℕ) → Session
  new_session u request now = record {
    user_id = u.id;
    person_id = u.person_id;
    email = u.email;
    permissions = role_codes u.roles;
    active = true;
    ip = get_client_ip request;
    user_agent = get_or (truthy request.user_agent) "unknown";
    device = V.device_of (get_or (truthy request.user_agent) "unknown");
    created_at = now;
    last_refresh_at = now;
  }

  -- The body of the `try` of `logIn`; the session's id is drawn at random.
  unfoldable pub open_session : (sid : String) → Request → User → Exec R.Store B Tokens
  unfolding generate_token on_redis get_client_ip
  open_session sid request u = do
    access ← generate_token V.jwt (record { email = u.email; sid = sid }) auth
    fresh ← generate_token V.jwt (record { email = u.email; sid = sid }) refresh
    now ← current_time
    on_redis (λ s.
        (tt, R.set (px V.session_ttl) (auth_session sid) (session (new_session u request now)) s))
    on_redis (λ s. (tt, R.s_add (user_sessions u.id) sid s))
    on_redis (λ s. (tt, R.p_expire (user_sessions u.id) V.session_ttl s))
    pure (record { access_token = access; refresh_token = fresh })

  unfoldable pub log_in : (email password sid : String) → Request → Exec R.Store B Tokens
  unfolding on_db found_user check_password check_status open_session wrap
  log_in email password sid request = do
    o ← on_db (λ b. (V.table.find_one_by_email email b, b))
    u ← found_user R V wrong_credentials o
    check_password R V password u
    check_status u.status
    attempt (open_session sid request u) (λ e.
        raise (
          wrap "UsersException" "Unable to issue authentication tokens" "TOKENS_ISSUE_ERROR" 500 e))

  unfoldable pub log_out : AuthUser → Exec R.Store B (Unit {0})
  unfolding on_redis
  log_out user = do
    on_redis (λ s. (tt, R.del (auth_session user.session_id) s))
    on_redis (λ s. (tt, R.s_rem (user_sessions user.id) user.session_id s))
