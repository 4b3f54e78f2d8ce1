-- ===== src/Validators.antt =====
-- src/common/validators: the checks that a value is not taken, and src/interfaces/DTO/create.dto.ts
-- and src/interfaces/DTO/patch.dto.ts for roles, behind which the controller creates and updates them.
-- A repository is asked with `exists`; its rows are their ids with the column that the check reads. Bodies have
-- the types that their decorators ask for, and the properties of their class alone, since the pipe
-- of src/main.ts forbids others.
pub mod Renaming
use auth_microservice.Prelude.{
  ℕ, zero, suc, ◌+◌, ◌-◌, ◌*◌, ◌/◌, ◌≤◌, ◌<◌, String, ◌≡◌, refl, sym, ap, subst, ◌∙◌, ◌≢◌, ◌↔◌, ◌⊎◌,
  inl, inr, Bool, true, false, not, ◌&&◌, ◌||◌, Option, none, some, List, [], ◌∷◌, ◌++◌, map,
  append-nil, append_assoc, arith, ◌==◌, eq_iff, eq_refl, ltb, leb, eqb, if◌then◌else◌, Bool-cases,
  Option-cases, truthy, get_or, length, length-append, any, filter_by, In, includes,
}
use auth_microservice.Failure.{
  Message, Response, Link, Failure, status?, thrown, wrap, deepest_error_code, deepest_http_message,
  chain_entry, cause_chain, one, many, absent, text, object, service, http, plain,
}
use auth_microservice.Redis.{
  api_keys, codes, Session, ApiCache, Value, Key, SetKey, same_key, same_set, Expiry, ttl_after,
  Redis, found, Queued, perform, perform_all, session, api_cache, reset_payload, malformed,
  empty_text, auth_session, reset_password, api_key_fp, epr, user_sessions, epr_keys, px, keep_ttl,
  persist, q_set, q_del, q_s_add, q_s_rem, q_del_set,
}
use auth_microservice.Exec.{
  AuthUser, Delivery, World, calm, Result, Exec, connection_lost, pure, raise, lift, recover,
  attempt, on_redis, on_db, continue, ◌>>=◌, ◌>>◌, current_time, set_user, Result-cases, >>=-eq-ok,
  attempt-eq-ok, answered, refused, reply_lost, ok, err,
}
use auth_microservice.Permissions.{
  Permission, PermissionTable, permission_codes_of, permission_not_found, or_missing,
  find_permission, find_permissions, find_permissions-calm,
}
use auth_microservice.Users.{
  UserStatus, Role, User, role_codes, UserTable, Bcrypt, Mail, Services, users_exception,
  session_invalid, wrong_credentials, user_not_found, reset_invalid, hashed_on_insert,
  hashed_on_update, read_reset, settle, transaction, found_user, find_user, save_user, find_roles,
  check_password, status_active, status_inactive, status_pending, registration, reset_password_mail,
  password_changed,
}
use auth_microservice.Roles.{
  RoleTable, roles_exception, role_not_found, foreign_key_violation, sessions_of, RoleChange,
  merge_role, found_role, find_role, saving_role, save_role, create_role, update_role, delete_role,
  refresh_by_role, assign_role_permissions,
}
use auth_microservice.Validation.{
  no_errors, invalid, ValidationError, ValidationErrors, to_list, children_of, size, size_all,
  total_size, first_code, context_code, first_message, constraint_message, search_queue,
  find_first_error_code, find_first_message, bad_request, exception_factory,
}

-- What a check registers: its name, its message and the code of its context.
pub record UniqueConstraint : Type 0 where
  pub name : String
  pub message : String
  pub error_code : String

abbrev is_unique_email : UniqueConstraint
is_unique_email = record {
  name = "IsUniqueEmail";
  message = "This email is already in use. Please choose another one.";
  error_code = "USER_ALREADY_REGISTERED";
}

abbrev is_unique_person : UniqueConstraint
is_unique_person = record {
  name = "IsUniquePerson";
  message = "This person already has an account registered.";
  error_code = "USER_PERSON_ALREADY_REGISTERED";
}

abbrev is_unique_permission_code : UniqueConstraint
is_unique_permission_code = record {
  name = "IsUniquePermissionCode";
  message = "This permission code is already register. Please choose another one.";
  error_code = "PERMISSION_ALREADY_EXISTS";
}

abbrev is_unique_endpoint_key_name : UniqueConstraint
is_unique_endpoint_key_name = record {
  name = "IsUniqueEndpointKeyName";
  message = "This endpoint key is already registered.";
  error_code = "ENDPOINT_PERMISSION_RULE_ALREADY_EXISTS";
}

abbrev pub is_unique_role_name : UniqueConstraint
is_unique_role_name = record {
  name = "IsUniqueRoleName";
  message = "This role name is already register. Please choose another one.";
  error_code = "ROLE_ALREADY_EXISTS";
}

-- `where`: the column's value, and the id that is ignored, if there is one.
abbrev pub matches : (value : String) (ignore_id : Option String) → String × String → Bool
matches value none (id, held) = held == value
matches value (some i) (id, held) = (held == value) && not (id == i)

module _ {S B : Type 0} (rows : B → List (String × String)) where
  abbrev pub validate_given : (ignore_id : Option String) → Option String → Exec S B Bool
  validate_given ignore_id none = pure true
  validate_given ignore_id (some value) =
      on_db (λ b. (any (matches value ignore_id) (rows b), b)) >>= λ exists. pure (not exists)

  -- `validate`, with the option `ignoreIdField` and the properties of the body.
  unfoldable pub validate :
      (ignore_id_field : Option String) (body : String → Option String) (value : Option String)
      → Exec S B Bool
  unfolding on_db
  validate ignore_id_field body value =
      validate_given (truthy (body (get_or (truthy ignore_id_field) "id"))) (truthy value)

-- The texts among the properties of `CreateRoleDTO`.
abbrev pub role_fields : RoleChange → String → Option String
role_fields dto key = if key == "name" then some dto.name else none

-- The errors of the body: the name is not empty and not taken.
abbrev pub role_errors : (name : String) (is_unique : Bool) → List ValidationError
role_errors name is_unique =
    if name == ""
    then invalid [] (("isNotEmpty", "This field is required") ∷ []) no_errors ∷ []
    else if not is_unique
    then invalid (some is_unique_role_name.error_code ∷ [])
        ((is_unique_role_name.name, is_unique_role_name.message) ∷ []) no_errors
      ∷ []
    else []

abbrev pub validation_stuck : Failure
validation_stuck = record { link = plain "Error" "out of fuel"; causes = [] }

abbrev pub refused_by : {S B A : Type 0} → Option Failure → Exec S B A
refused_by none = raise validation_stuck
refused_by (some e) = raise e

-- The pipe in front of a handler.
abbrev pub validated : {S B A : Type 0} → List ValidationError → Exec S B A → Exec S B A
validated [] handler = handler
validated (e ∷ es) handler = refused_by (exception_factory (e ∷ es))

module _ (R : Redis) {B : Type 0} (L : RoleTable B) (P : PermissionTable B)
    (names : B → List (String × String)) where
  unfoldable pub create_role_handler : RoleChange → Exec R.Store B Role
  unfolding validate exception_factory create_role
  create_role_handler dto = validate names none (role_fields dto) (some dto.name) >>= λ unique.
      validated (role_errors dto.name unique) (create_role R L P dto)

  unfoldable pub edit_role_handler : (id : String) → RoleChange → Exec R.Store B Role
  unfolding validate exception_factory update_role
  edit_role_handler id dto = validate names none (role_fields dto) (some dto.name) >>= λ unique.
      validated (role_errors dto.name unique) (update_role R L P id dto)
