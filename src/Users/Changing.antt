-- ===== src/Users/Changing.antt =====
-- Registering users, and changing their roles, passwords and states.
use auth_microservice.Prelude.{String, Option, none, some, List}
use auth_microservice.Failure.{Failure, wrap}
use auth_microservice.Redis.{Redis, found, reset_payload, reset_password, px}
use auth_microservice.Exec.{Exec, pure, raise, lift, attempt, on_redis, on_db, ◌>>=◌, ◌>>◌}
use auth_microservice.Sessions.{refresh_session_permissions}
use auth_microservice.Users.{
  saving_user, UserStatus, Role, User, role_codes, Services, users_exception, user_not_found,
  reset_invalid, hashed_on_insert, read_reset, transaction, found_user, find_user, save_user,
  find_roles, check_password, status_active, status_inactive, status_pending, registration,
  reset_password_mail, password_changed,
}

module _ (R : Redis) {B : Type 0} (V : Services B) where
  -- The row that `register` saves; the id and the password are drawn at random.
  abbrev pub new_user : (id email person_id password : String) → List Role → User
  new_user id email person_id password rs = record {
    id = id;
    email = email;
    password = password;
    status = status_pending;
    person_id = person_id;
    roles = rs;
  }

  unfoldable pub insert_user :
      (salt email person_id password : String) → List Role → Exec R.Store B User
  unfolding on_db
  insert_user salt email person_id password rs =
      on_db (λ b.
        let u =
          hashed_on_insert V.bcrypt salt
            (new_user (V.table.new_id b) email person_id password rs) in
        saving_user R V u (V.table.save u b) b)
      >>= lift

  unfoldable pub register :
      (email person_id : String) (roles_ids : List String) (password salt : String)
      → Exec R.Store B (Unit {0})
  unfolding find_roles insert_user wrap
  register email person_id roles_ids password salt =
      attempt
        (transaction (do
          rs ← find_roles R V roles_ids
          u ← insert_user salt email person_id password rs
          lift (V.send (registration u.email password))))
        (λ e. raise (wrap "UsersException" "User registration failed" "USER_NOT_REGISTERED" 500 e))

  unfoldable pub assign_role : (id : String) (roles_ids : List String) → Exec R.Store B User
  unfolding find_user find_roles save_user refresh_session_permissions
  assign_role id roles_ids = do
    u ← find_user R V id
    rs ← find_roles R V roles_ids
    saved ← save_user R V "" u.password (record u { roles = rs })
    attempt (refresh_session_permissions R saved.id (role_codes saved.roles)) (λ e. pure tt)
    pure saved

  -- `token` is drawn at random.
  unfoldable pub forgot_found : (email token : String) → Option User → Exec R.Store B (Unit {0})
  unfolding on_redis
  forgot_found email token none = pure tt
  forgot_found email token (some u) = do
    on_redis (λ s. (tt, R.set (px V.reset_ttl) (reset_password token) (reset_payload u.id) s))
    lift (V.send (reset_password_mail email token))

  unfoldable pub forgot_password : (email token : String) → Exec R.Store B (Unit {0})
  unfolding on_db forgot_found
  forgot_password email token =
      on_db (λ b. (V.table.find_one_by_email email b, b)) >>= forgot_found email token

  unfoldable pub require_reset : Option String → Exec R.Store B String
  require_reset none = raise reset_invalid
  require_reset (some id) = pure id

  -- The password changed for the user `id`.
  unfoldable pub set_password : (salt password id : String) → Exec R.Store B (Unit {0})
  unfolding find_user save_user
  set_password salt password id = do
    u ← find_user R V id
    saved ← save_user R V salt u.password (record u { password = password })
    lift (V.send (password_changed saved.email))

  -- `getDel` reads and removes the text in one call.
  unfoldable pub reset_user_password : (token password salt : String) → Exec R.Store B (Unit {0})
  unfolding on_redis require_reset set_password
  reset_user_password token password salt = do
    raw ← on_redis (λ s. (found (R.get (reset_password token) s), R.del (reset_password token) s))
    o ← lift (read_reset raw)
    id ← require_reset o
    set_password salt password id

  unfoldable pub require_status : UserStatus → Failure → User → Exec R.Store B User
  require_status s e u = elim s [
    | status_active ↦ elim u.status [ status_active ↦ pure u | _ ↦ raise e ]
    | status_inactive ↦ elim u.status [ status_inactive ↦ pure u | _ ↦ raise e ]
    | status_pending ↦ elim u.status [ status_pending ↦ pure u | _ ↦ raise e ]
  ]

  unfoldable pub first_activation :
      (email password new_password salt : String) → Exec R.Store B (Unit {0})
  unfolding on_db found_user require_status check_password save_user
  first_activation email password new_password salt = do
    o ← on_db (λ b. (V.table.find_one_by_email email b, b))
    u ← found_user R V user_not_found o
    require_status status_pending
        (users_exception "User has already been activated" "USER_ALREADY_ACTIVE" 400) u
    check_password R V password u
    save_user R V salt u.password (record u { password = new_password; status = status_active })
    pure tt

  unfoldable pub activate_user : (id : String) → Exec R.Store B (Unit {0})
  unfolding find_user require_status save_user
  activate_user id = do
    u ← find_user R V id
    require_status status_inactive
        (users_exception "User must be INACTIVE to be activated" "USER_ALREADY_ACTIVE" 400) u
    save_user R V "" u.password (record u { status = status_active })
    pure tt

  unfoldable pub deactivate_user : (id : String) → Exec R.Store B (Unit {0})
  unfolding find_user require_status save_user
  deactivate_user id = do
    u ← find_user R V id
    require_status status_active
        (users_exception "User must be ACTIVE to be deactivated" "USER_ALREADY_INACTIVE" 400) u
    save_user R V "" u.password (record u { status = status_inactive })
    pure tt
