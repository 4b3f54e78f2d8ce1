-- ===== src/Seed.antt =====
-- src/database/seed/seed.service.ts: how a first run fills the database. Reads
-- and writes of the entity manager are calls to the database within one transaction. Log entries are left
-- out.
pub mod Steps
pub mod Rules
pub mod Admin
pub mod Coverage
use auth_microservice.Prelude.{
  ℕ, zero, suc, ◌+◌, ◌-◌, ◌*◌, ◌/◌, ◌≤◌, ◌<◌, String, ◌≡◌, refl, sym, ap, subst, ◌∙◌, ◌≢◌, ◌↔◌, ◌⊎◌,
  inl, inr, Bool, true, false, not, ◌&&◌, ◌||◌, Option, none, some, List, [], ◌∷◌, ◌++◌, map,
  append-nil, append_assoc, arith, ◌==◌, eq_iff, eq_refl, ltb, leb, eqb, if◌then◌else◌, Bool-cases,
  Option-cases, truthy, get_or, length, length-append, any, filter_by, In, includes,
}
use auth_microservice.Failure.{
  Message, Response, Link, Failure, status?, thrown, wrap, deepest_error_code, deepest_http_message,
  chain_entry, cause_chain, one, many, absent, text, object, service, http, plain,
}
use auth_microservice.Exec.{
  AuthUser, Delivery, World, calm, Result, Exec, connection_lost, pure, raise, lift, recover,
  attempt, on_redis, on_db, continue, ◌>>=◌, ◌>>◌, current_time, set_user, Result-cases, >>=-eq-ok,
  attempt-eq-ok, answered, refused, reply_lost, ok, err,
}
use auth_microservice.Permissions.{
  Permission, PermissionTable, permission_codes_of, permission_not_found, or_missing,
  find_permission, find_permissions, find_permissions-calm,
}
use auth_microservice.Rules.{
  Rule, unless_id, RuleTable, rule_exception, rule_not_defined, rule_disabled, unique_violation,
  read_codes, warm_rule, warm_commands, warm, warm_up_cache, invalidate_rule_cache, load_found,
  load_rule_to_redis, from_database, get_permissions_for_endpoint,
}
use auth_microservice.SeedData.{
  SeedRule, seed_rule, SeedRole, seed_permissions, seed_rules, seed_roles,
}
use auth_microservice.Users.{
  UserStatus, Role, User, role_codes, UserTable, Bcrypt, Mail, Services, users_exception,
  session_invalid, wrong_credentials, user_not_found, reset_invalid, hashed_on_insert,
  hashed_on_update, read_reset, settle, transaction, found_user, find_user, save_user, find_roles,
  check_password, status_active, status_inactive, status_pending, registration, reset_password_mail,
  password_changed,
}

-- What the entity manager offers besides the services' tables. An upsert updates the row that has the unique
-- name or adds one; `none` is a refusal of the database.
pub record SeedManager {B : Type 0} (T : RuleTable B) (U : UserTable B) : Type 0 where
  pub permission_by_code : String → B → Option Permission
  pub all_permissions : B → List Permission
  pub permissions_with : List String → B → List Permission
  pub upsert_permission : (code : String) → B → Option B
  pub upsert_rule : (endpoint_key_name : String) → (enabled : Bool) → B → Option B
  pub role_by_name : String → B → Option Role
  pub roles_with : (names : List String) → B → List Role
  pub upsert_role : (name : String) → (is_restricted : Bool) → B → Option B
  pub save_role : Role → B → Option B
  pub by_code :
      (c : String) (p : Permission) (b : B)
      → permission_by_code c b ≡ some p
      → (p.code ≡ c) × In p (all_permissions b)
  pub code-upsert :
      (c k : String) (b b' : B)
      → upsert_permission c b ≡ some b'
      → (p : Permission) × (permission_by_code k b'
          ≡ (if c == k then some p else permission_by_code k b))
  pub key-upsert :
      (key : String) (enabled : Bool) (b b' : B)
      → upsert_rule key enabled b ≡ some b'
      → (r : Rule) × (r.enabled ≡ enabled)
        × ((k : String)
            → T.find_by_endpoint_key k b'
              ≡ (if key == k then some r else T.find_by_endpoint_key k b))
  pub name-upsert :
      (n : String) (x : Bool) (b b' : B)
      → upsert_role n x b ≡ some b'
      → (r : Role) × (role_by_name n b' ≡ some r) × (r.name ≡ n)
  pub name-save : (r : Role) (b b' : B) → save_role r b ≡ some b' → role_by_name r.name b' ≡ some r
  pub named :
      (n : String) (names : List String) (r : Role) (b : B)
      → role_by_name n b ≡ some r
      → In n names
      → In r (roles_with names b)
  -- What the writes of one table leave alone in the others.
  pub rules-upsert_permission :
      (c k : String) (b b' : B)
      → upsert_permission c b ≡ some b'
      → T.find_by_endpoint_key k b' ≡ T.find_by_endpoint_key k b
  pub codes-upsert_rule :
      (key : String) (x : Bool) (c : String) (b b' : B)
      → upsert_rule key x b ≡ some b'
      → permission_by_code c b' ≡ permission_by_code c b
  pub codes-save_rule :
      (r : Rule) (c : String) (b b' : B)
      → T.save r b ≡ some b'
      → permission_by_code c b' ≡ permission_by_code c b
  pub rules-upsert_role :
      (n : String) (x : Bool) (k : String) (b b' : B)
      → upsert_role n x b ≡ some b'
      → T.find_by_endpoint_key k b' ≡ T.find_by_endpoint_key k b
  pub codes-upsert_role :
      (n : String) (x : Bool) (c : String) (b b' : B)
      → upsert_role n x b ≡ some b'
      → permission_by_code c b' ≡ permission_by_code c b
  pub rules-save_role :
      (r : Role) (k : String) (b b' : B)
      → save_role r b ≡ some b'
      → T.find_by_endpoint_key k b' ≡ T.find_by_endpoint_key k b
  pub rules-save_user :
      (u : User) (k : String) (b b' : B)
      → U.save u b ≡ some b'
      → T.find_by_endpoint_key k b' ≡ T.find_by_endpoint_key k b
  pub roles-save_user :
      (u : User) (n : String) (b b' : B)
      → U.save u b ≡ some b'
      → role_by_name n b' ≡ role_by_name n b

abbrev pub query_failed : Failure
query_failed = record { link = plain "QueryFailedError" "query failed"; causes = [] }

abbrev pub wrote : {B : Type 0} → Option B → B → Result (Unit {0}) × B
wrote none b = (err query_failed, b)
wrote (some b') b = (ok tt, b')

module _ {S B : Type 0} where
  -- A call that changes the database or is refused.
  unfoldable pub write : (B → Option B) → Exec S B (Unit {0})
  unfolding on_db
  write f = on_db (λ b. wrote (f b) b) >>= lift

  unfoldable pub read : {A : Type 0} → (B → A) → Exec S B A
  unfolding on_db
  read f = on_db (λ b. (f b, b))

module _ {B : Type 0} {T : RuleTable B} {U : UserTable B} (M : SeedManager T U) where
  -- One statement for all rows.
  abbrev pub upsert_permissions : List String → B → Option B
  upsert_permissions [] b = some b
  upsert_permissions (c ∷ cs) b = elim (M.upsert_permission c b) [
    | none ↦ none
    | some b' ↦ upsert_permissions cs b'
  ]

  abbrev pub upsert_rules : List SeedRule → B → Option B
  upsert_rules [] b = some b
  upsert_rules (e ∷ es) b = elim (M.upsert_rule e.endpoint_key_name e.enabled b) [
    | none ↦ none
    | some b' ↦ upsert_rules es b'
  ]

  abbrev pub permissions_of_seed : List String → B → List Permission
  permissions_of_seed [] b = M.all_permissions b
  permissions_of_seed (c ∷ cs) b = M.permissions_with (c ∷ cs) b

module _ {S B : Type 0} {T : RuleTable B} {U : UserTable B} (M : SeedManager T U) where
  unfoldable pub seed_permission_rows : (codes : List String) → Exec S B (Unit {0})
  unfolding write
  seed_permission_rows codes = write (upsert_permissions M codes)

  -- Behind both queries of phase 2.
  unfoldable pub assign_seeded : Option Rule → Option Permission → Exec S B (Unit {0})
  unfolding write
  assign_seeded none p = pure tt
  assign_seeded (some r) none = pure tt
  assign_seeded (some r) (some p) = write (T.save (record r { permissions = p ∷ [] }))

  unfoldable pub assign_rule : SeedRule → Exec S B (Unit {0})
  unfolding read assign_seeded
  assign_rule e = read (T.find_by_endpoint_key e.endpoint_key_name) >>= λ r.
      read (M.permission_by_code e.permission_code) >>= λ p. assign_seeded r p

  unfoldable pub assign_rules : List SeedRule → Exec S B (Unit {0})
  unfolding assign_rule
  assign_rules [] = pure tt
  assign_rules (e ∷ es) = assign_rule e >> assign_rules es

  unfoldable pub seed_endpoint_permission_rules : List SeedRule → Exec S B (Unit {0})
  unfolding write assign_rules
  seed_endpoint_permission_rules es = write (upsert_rules M es) >> assign_rules es

  unfoldable pub give_permissions : List String → Option Role → Exec S B (Unit {0})
  unfolding read write
  give_permissions codes none = pure tt
  give_permissions codes (some role) = read (permissions_of_seed M codes) >>= λ ps.
      write (M.save_role (record role { permissions = ps }))

  unfoldable pub seed_role : SeedRole → Exec S B (Unit {0})
  unfolding write read give_permissions
  seed_role s =
      write (M.upsert_role s.name s.is_restricted)
      >> (read (M.role_by_name s.name) >>= give_permissions s.permission_codes)

  unfoldable pub seed_role_rows : List SeedRole → Exec S B (Unit {0})
  unfolding seed_role
  seed_role_rows [] = pure tt
  seed_role_rows (s ∷ ss) = seed_role s >> seed_role_rows ss

abbrev pub admin_email : String
admin_email = "admin@admin.com"

abbrev pub admin_roles : List String
admin_roles = "SUPER_ADMIN" ∷ []

-- The admin as `manager.create` makes it.
abbrev pub new_admin : (id : String) → User
new_admin id = record {
  id = id;
  email = admin_email;
  password = "admin";
  status = status_active;
  person_id = "00000000-0000-0000-0000-000000000001";
  roles = [];
}

module _ {S B : Type 0} {T : RuleTable B} {U : UserTable B} (M : SeedManager T U) (h : Bcrypt)
    (salt : String) where
  -- An admin that exists: the password is the one loaded, so that the entity's hook leaves it.
  unfoldable pub update_admin : User → Exec S B (Unit {0})
  unfolding read write
  update_admin existing = read (M.roles_with admin_roles) >>= λ roles. write (
      U.save (
        hashed_on_update h salt existing.password
          (record existing { roles = roles; status = status_active })))

  -- A new admin: the first save hashes the password; the second changes no column, so that the hook
  -- for updates does not run.
  unfoldable pub create_admin : Exec S B (Unit {0})
  unfolding read write
  create_admin = read U.new_id >>= λ id.
      let admin : User = hashed_on_insert h salt (new_admin id) in
      write (U.save admin)
      >> (read (M.roles_with admin_roles) >>= λ roles.
          write (U.save (record admin { roles = roles })))

  unfoldable pub admin_of : Option User → Exec S B (Unit {0})
  unfolding update_admin create_admin
  admin_of none = create_admin
  admin_of (some existing) = update_admin existing

  unfoldable pub seed_users : Exec S B (Unit {0})
  unfolding read admin_of
  seed_users = read (U.find_one_by_email admin_email) >>= admin_of

  -- A call that changes nothing by itself: `connect`, `startTransaction` and `rollbackTransaction`, of
  -- which the last takes back what was not committed.
  unfoldable pub round_trip : Exec S B (Unit {0})
  unfolding on_db
  round_trip = on_db (λ b. (tt, b))

  -- `commitTransaction`, where `before` is the database at the start of the transaction: what the
  -- transaction has written is there from the moment that the call takes effect.
  unfoldable pub commit : (before : B) → Exec S B (Unit {0})
  unfolding on_db
  commit before w = on_db (λ b. (tt, w.db)) (record w { db = before })

  abbrev pub seed_all : Exec S B (Unit {0})
  seed_all =
      seed_permission_rows M seed_permissions
      >> seed_endpoint_permission_rules M seed_rules
      >> seed_role_rows M seed_roles
      >> seed_users

  -- The body of the `try`: an error before the commit leaves nothing of the transaction.
  abbrev pub committed : Exec S B (Unit {0})
  committed w = continue (λ u. commit w.db) (settle w.db (seed_all w))

  unfoldable pub run : Exec S B (Unit {0})
  unfolding seed_permission_rows seed_endpoint_permission_rules seed_role_rows seed_users round_trip
      commit
  run = round_trip >> (round_trip >> attempt committed (λ e. round_trip >> raise e))
