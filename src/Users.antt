-- ===== src/Users.antt =====
-- src/services/users/users.service.ts with its repository and src/entities/user.entity.ts: who logs
-- in, with which session, and how passwords and states change. The ORM's tables, bcrypt, the mail
-- client, the parser of user agents and the random ids are parameters. Log entries are left out,
-- and so are the ids and states in messages.
pub mod Entering
pub mod Changing
pub mod Described
pub mod Login
pub mod Access
pub mod Passwords
pub mod Recovery
pub mod Onboarding
pub mod Saving
pub mod Accounts
pub mod Suspension
pub mod Cookies
pub mod ActiveSessions
pub mod Renewal
pub mod Staying
pub mod Browsers
use auth_microservice.Prelude.{
  ℕ, zero, suc, ◌+◌, ◌-◌, ◌*◌, ◌/◌, ◌≤◌, ◌<◌, String, ◌≡◌, refl, sym, ap, subst, ◌∙◌, ◌≢◌, ◌↔◌, ◌⊎◌,
  inl, inr, Bool, true, false, not, ◌&&◌, ◌||◌, Option, none, some, List, [], ◌∷◌, ◌++◌, map, arith,
  ◌==◌, eq_iff, eq_refl, ltb, leb, eqb, if◌then◌else◌, Bool-cases, Option-cases, truthy, get_or,
  length, length-append, any, filter_by, In, includes,
}
use auth_microservice.Failure.{
  Message, Response, Link, Failure, status?, thrown, wrap, deepest_error_code, deepest_http_message,
  chain_entry, cause_chain, one, many, absent, text, object, service, http, plain,
}
use auth_microservice.Redis.{
  Session, ApiCache, Value, Key, SetKey, same_key, same_set, Expiry, ttl_after, Redis, found,
  Queued, perform, perform_all, session, api_cache, codes, reset_payload, malformed, empty_text,
  auth_session, reset_password, api_key_fp, epr, user_sessions, api_keys, epr_keys, px, keep_ttl,
  persist, q_set, q_del, q_s_add, q_s_rem, q_del_set,
}
use auth_microservice.Exec.{
  AuthUser, Delivery, World, calm, Result, Exec, connection_lost, pure, raise, lift, recover,
  attempt, on_redis, on_db, continue, ◌>>=◌, ◌>>◌, current_time, set_user, Result-cases, >>=-eq-ok,
  attempt-eq-ok, answered, refused, reply_lost, ok, err,
}
use auth_microservice.Jwt.{
  TokenType, JwtPayload, Claims, Verification, Signing, JsonWebToken, Payload, TokenConfig,
  JwtConfig, Tokens, refresh_token, config_of, jwt_exception, payload_of, minutes_left,
  renewed_payload, get_payload, generate_token, issue, auth, refresh, decoded, expired, rejected,
  failed, signed, sign_error, unsigned,
}
use auth_microservice.Http.{
  Header, Request, auth_exception, extract_api_key, get_client_ip, same_parts, same_subnet_check,
  extract_bearer, no_header, many_headers, one_header,
}
use auth_microservice.Sessions.{
  syntax_error, parse_session, read_session, SessionWithSid, UserSessions, refresh_command, m_get,
  refresh_commands, find_user_sessions, deactivate_session, refresh_session_permissions,
  refresh_users,
}
use auth_microservice.Permissions.{
  Permission, PermissionTable, permission_codes_of, permission_not_found, find_permission,
  find_permissions, find_permissions-calm,
}
use auth_microservice.Rules.{unique_violation}

pub data UserStatus : Type 0 where
  status_active status_inactive status_pending : UserStatus

-- src/entities/role.entity.ts
pub record Role : Type 0 where
  pub id : String
  pub name : String
  pub is_restricted : Bool
  pub permissions : List Permission

pub record User : Type 0 where
  pub id : String
  pub email : String
  pub password : String
  pub status : UserStatus
  pub person_id : String
  pub roles : List Role

-- `permissionCodes`.
abbrev pub role_codes : List Role → List String
role_codes [] = []
role_codes (r ∷ rs) = permission_codes_of r.permissions ++ role_codes rs

-- The tables, whose ids and addresses are unique. `save` replaces the row with the entity's id or
-- adds a row; it is refused (`none`) where another row has the address or the person.
pub record UserTable (B : Type 0) : Type 0 where
  pub find_role : String → B → Option Role
  pub find_one_by_id : String → B → Option User
  pub find_one_by_email : String → B → Option User
  pub new_id : B → String
  pub save : User → B → Option B
  pub by_email :
      (e : String) (u : User) (b : B)
      → find_one_by_email e b ≡ some u
      → (u.email ≡ e) × (find_one_by_id u.id b ≡ some u)
  pub by_id :
      (i : String) (u : User) (b : B)
      → find_one_by_id i b ≡ some u
      → (u.id ≡ i) × (find_one_by_email u.email b ≡ some u)
  pub id-save :
      (u : User) (i : String) (b b' : B)
      → save u b ≡ some b'
      → find_one_by_id i b' ≡ (if u.id == i then some u else find_one_by_id i b)

-- bcrypt; `hash` draws a salt.
pub record Bcrypt : Type 0 where
  pub compare : (password hash : String) → Bool
  pub hash : (salt password : String) → String
  pub compare-hash : (salt p : String) → compare p (hash salt p) ≡ true

pub data Mail : Type 0 where
  registration reset_password_mail : (to text : String) → Mail
  password_changed : (to : String) → Mail

-- The collaborators of the service: `send` is the answer of the mail client, the times to live come
-- from the environment, and `device_of` reads a user agent.
pub record Services (B : Type 0) : Type 0 where
  pub table : UserTable B
  pub bcrypt : Bcrypt
  pub jwt : JwtConfig
  pub send : Mail → Result (Unit {0})
  pub session_ttl : ℕ
  pub reset_ttl : ℕ
  pub device_of : String → String

abbrev pub users_exception : (message code : String) (status : ℕ) → Failure
users_exception = thrown "UsersException"

abbrev pub session_invalid : Failure
session_invalid = users_exception "Session expired or invalid" "SESSION_INVALID" 401

abbrev pub wrong_credentials : Failure
wrong_credentials = users_exception "Wrong email or password" "WRONG_CREDENTIALS" 401

abbrev pub user_not_found : Failure
user_not_found = users_exception "User not found" "USER_NOT_FOUND" 404

abbrev pub reset_invalid : Failure
reset_invalid =
    users_exception "Invalid or expired reset password token" "RESET_PASSWORD_INVALID" 401

-- `hasPasswordOnInsert`.
abbrev pub hashed_on_insert : Bcrypt → (salt : String) → User → User
hashed_on_insert h salt u =
    if u.password == "" then u else record u { password = h.hash salt u.password }

-- `hashPasswordOnUpdate`, where `original` is the password that was loaded.
abbrev pub hashed_on_update : Bcrypt → (salt original : String) → User → User
hashed_on_update h salt original u =
    if not (u.password == "") && not (u.password == original)
    then record u { password = h.hash salt u.password }
    else u

-- `JSON.parse(raw) as ResetPasswordRedisPayload`, where something is stored. The program stores only
-- such payloads under these keys; any other value stands for a text that does not parse.
abbrev pub read_reset : Option Value → Result (Option String)
read_reset none = ok none
read_reset (some (reset_payload id)) = ok (some id)
read_reset (some _) = err syntax_error

-- `dataSource.transaction`: an error takes the changes of the database back.
abbrev pub settle : {S B A : Type 0} → B → Result A × World S B → Result A × World S B
settle b (ok a, w) = (ok a, w)
settle b (err e, w) = (err e, record w { db = b })

abbrev pub transaction : {S B A : Type 0} → Exec S B A → Exec S B A
transaction body w = settle w.db (body w)

module _ (R : Redis) {B : Type 0} (V : Services B) where
  unfoldable pub found_user : Failure → Option User → Exec R.Store B User
  found_user e none = raise e
  found_user e (some u) = pure u

  unfoldable pub find_user : String → Exec R.Store B User
  unfolding on_db found_user
  find_user id = on_db (λ b. (V.table.find_one_by_id id b, b)) >>= found_user user_not_found

  abbrev saving_user : User → Option B → B → Result User × B
  saving_user u none b = (err unique_violation, b)
  saving_user u (some b') b = (ok u, b')

  -- `userRepository.save` of a loaded entity, its hook included.
  unfoldable pub save_user : (salt original : String) → User → Exec R.Store B User
  unfolding on_db
  save_user salt original u =
      let u' = hashed_on_update V.bcrypt salt original u in
      on_db (λ b. saving_user u' (V.table.save u' b) b) >>= lift

  unfoldable pub find_roles : List String → Exec R.Store B (List Role)
  unfolding on_db
  find_roles [] = pure []
  find_roles (id ∷ ids) =
      let later = find_roles ids in
      on_db (λ b. (V.table.find_role id b, b)) >>= λ o. elim o [
        | none ↦ raise (thrown "RolesException" "Role not found" "ROLE_NOT_FOUND" 404)
        | some r ↦ later >>= λ rs. pure (r ∷ rs)
      ]

  unfoldable pub check_password : (password : String) → User → Exec R.Store B User
  check_password password u =
      if not (V.bcrypt.compare password u.password) then raise wrong_credentials else pure u
