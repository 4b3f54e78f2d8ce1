-- ===== src/Roles.antt =====
-- src/services/roles/roles.service.ts with its repository: the roles, and the sessions that follow a
-- change of a role's permissions. The ORM's table is the interface `RoleTable`. The listings, log
-- entries and ids in messages are left out.
pub mod Assigning
use auth_microservice.Prelude.{
  ℕ, zero, suc, ◌+◌, ◌-◌, ◌*◌, ◌/◌, ◌≤◌, ◌<◌, String, ◌≡◌, refl, sym, ap, subst, ◌∙◌, ◌≢◌, ◌↔◌, ◌⊎◌,
  inl, inr, Bool, true, false, not, ◌&&◌, ◌||◌, Option, none, some, List, [], ◌∷◌, ◌++◌, map, arith,
  ◌==◌, eq_iff, eq_refl, ltb, leb, eqb, if◌then◌else◌, Bool-cases, Option-cases, truthy, get_or,
  length, length-append, any, filter_by, In, includes,
}
use auth_microservice.Failure.{
  Message, Response, Link, Failure, status?, thrown, wrap, deepest_error_code, deepest_http_message,
  chain_entry, cause_chain, one, many, absent, text, object, service, http, plain,
}
use auth_microservice.Redis.{
  Session, ApiCache, Value, Key, SetKey, same_key, same_set, Expiry, ttl_after, Redis, found,
  Queued, perform, perform_all, session, api_cache, codes, reset_payload, malformed, empty_text,
  auth_session, reset_password, api_key_fp, epr, user_sessions, api_keys, epr_keys, px, keep_ttl,
  persist, q_set, q_del, q_s_add, q_s_rem, q_del_set,
}
use auth_microservice.Exec.{
  AuthUser, Delivery, World, calm, Result, Exec, connection_lost, pure, raise, lift, recover,
  attempt, on_redis, on_db, continue, ◌>>=◌, ◌>>◌, current_time, set_user, Result-cases, >>=-eq-ok,
  attempt-eq-ok, answered, refused, reply_lost, ok, err,
}
use auth_microservice.Permissions.{
  Permission, PermissionTable, permission_codes_of, permission_not_found, find_permission,
  find_permissions, find_permissions-calm,
}
use auth_microservice.Sessions.{
  syntax_error, parse_session, read_session, SessionWithSid, UserSessions, refresh_command, m_get,
  refresh_commands, find_user_sessions, deactivate_session, refresh_session_permissions,
  refresh_users,
}
use auth_microservice.Rules.{unique_violation}
use auth_microservice.Users.{
  UserStatus, Role, User, role_codes, UserTable, Bcrypt, Mail, Services, users_exception,
  session_invalid, wrong_credentials, user_not_found, reset_invalid, hashed_on_insert,
  hashed_on_update, read_reset, settle, transaction, found_user, find_user, save_user, find_roles,
  check_password, status_active, status_inactive, status_pending, registration, reset_password_mail,
  password_changed,
}

-- `save` replaces the row with the entity's id or adds a row, and may be refused by the database
-- (`none`); `remove` is refused while rows refer to the role. `users_of` are the users that
-- hold a role, with the roles that the query of `refreshSessionPermissionsByRole` loads.
pub record RoleTable (B : Type 0) : Type 0 where
  pub find_one_by_id : String → B → Option Role
  pub users_of : String → B → List User
  pub new_id : B → String
  pub save : Role → B → Option B
  pub remove : Role → B → Option B
  pub by_id : (i : String) (r : Role) (b : B) → find_one_by_id i b ≡ some r → r.id ≡ i
  pub id-save :
      (r : Role) (i : String) (b b' : B)
      → save r b ≡ some b'
      → find_one_by_id i b' ≡ (if r.id == i then some r else find_one_by_id i b)

abbrev pub roles_exception : (message code : String) (status : ℕ) → Failure
roles_exception = thrown "RolesException"

abbrev pub role_not_found : Failure
role_not_found = roles_exception "Role not found" "ROLE_NOT_FOUND" 404

abbrev pub foreign_key_violation : Failure
foreign_key_violation = record { link = plain "QueryFailedError" "foreign key"; causes = [] }

-- What `refreshSessionPermissionsByRole` refreshes.
abbrev pub sessions_of : List User → List (String × List String)
sessions_of us = map (λ (u : User). (u.id, role_codes u.roles)) us

-- `CreateRoleDTO`, which `PatchRoleDTO` extends without a change.
pub record RoleChange : Type 0 where
  pub name : String
  pub is_restricted : Bool

abbrev pub merge_role : Role → RoleChange → Role
merge_role r d = record r { name = d.name; is_restricted = d.is_restricted }

module _ (R : Redis) {B : Type 0} (L : RoleTable B) (P : PermissionTable B) where
  unfoldable pub found_role : Option Role → Exec R.Store B Role
  found_role none = raise role_not_found
  found_role (some r) = pure r

  unfoldable pub find_role : String → Exec R.Store B Role
  unfolding on_db found_role
  find_role id = on_db (λ b. (L.find_one_by_id id b, b)) >>= found_role

  abbrev pub saving_role : Role → Option B → B → Result Role × B
  saving_role r none b = (err unique_violation, b)
  saving_role r (some b') b = (ok r, b')

  unfoldable pub save_role : Role → Exec R.Store B Role
  unfolding on_db
  save_role r = on_db (λ b. saving_role r (L.save r b) b) >>= lift

  unfoldable pub create_role : RoleChange → Exec R.Store B Role
  unfolding on_db wrap
  create_role dto =
      attempt
        (on_db (λ b.
            let r : Role = record {
              id = L.new_id b;
              name = dto.name;
              is_restricted = dto.is_restricted;
              permissions = [];
            } in
            saving_role r (L.save r b) b)
          >>= lift)
        (λ e. raise (wrap "RolesException" "Role creation failed" "ROLE_NOT_CREATED" 500 e))

  unfoldable pub update_role : (id : String) → RoleChange → Exec R.Store B Role
  unfolding find_role save_role wrap
  update_role id dto =
      attempt (find_role id >>= λ r. save_role (merge_role r dto))
        (λ e. raise (wrap "RolesException" "Role update failed" "ROLE_NOT_UPDATED" 500 e))

  abbrev removing_role : Option B → B → Result (Unit {0}) × B
  removing_role none b = (err foreign_key_violation, b)
  removing_role (some b') b = (ok tt, b')

  unfoldable pub delete_role : (id : String) → Exec R.Store B (Unit {0})
  unfolding find_role on_db wrap
  delete_role id =
      attempt (find_role id >>= λ r. on_db (λ b. removing_role (L.remove r b) b) >>= lift)
        (λ e. raise (wrap "RolesException" "Role deletion failed" "ROLE_NOT_DELETED" 500 e))

  -- `refreshSessionPermissionsByRole`.
  unfoldable pub refresh_by_role : (id : String) → Exec R.Store B (Unit {0})
  unfolding on_db refresh_users
  refresh_by_role id = on_db (λ b. (L.users_of id b, b)) >>= λ us. refresh_users R (sessions_of us)

  unfoldable pub assign_role_permissions :
      (id : String) (permissions_ids : List String) → Exec R.Store B Role
  unfolding find_role find_permissions save_role refresh_by_role wrap
  assign_role_permissions id permissions_ids =
      attempt
        (do
          r ← find_role id
          ps ← find_permissions P permissions_ids
          saved ← save_role (record r { permissions = ps })
          attempt (refresh_by_role id) (λ e. pure tt)
          pure saved)
        (λ e. raise (
          wrap "RolesException" "Permission assignment failed" "ROLE_PERMISSION_ASSIGN_ERROR" 500
            e))
