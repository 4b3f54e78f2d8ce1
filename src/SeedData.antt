-- ===== src/SeedData.antt =====
-- src/database/seed/seed.data.ts: what a first run of the seeding puts into the database.
use auth_microservice.Prelude.{String, Bool, true, List, [], ◌∷◌}

pub record SeedRule : Type 0 where
  pub endpoint_key_name : String
  pub permission_code : String
  pub enabled : Bool

abbrev pub seed_rule : (endpoint_key_name permission_code : String) → SeedRule
seed_rule k c = record { endpoint_key_name = k; permission_code = c; enabled = true }

pub record SeedRole : Type 0 where
  pub name : String
  pub permission_codes : List String
  pub is_restricted : Bool

abbrev pub seed_permissions : List String
seed_permissions =
    "ENDPOINT-PERMISSION-RULES_CREATE" ∷ "ENDPOINT-PERMISSION-RULES_READ"
    ∷ "ENDPOINT-PERMISSION-RULES_UPDATE" ∷ "ENDPOINT-PERMISSION-RULES_DELETE" ∷ "API_KEYS_CREATE"
    ∷ "API_KEYS_READ" ∷ "API_KEYS_DEACTIVATE" ∷ "PERMISSIONS_CREATE" ∷ "PERMISSIONS_READ"
    ∷ "PERMISSIONS_UPDATE" ∷ "PERMISSIONS_DELETE" ∷ "ROLES_CREATE" ∷ "ROLES_READ" ∷ "ROLES_UPDATE"
    ∷ "ROLES_DELETE" ∷ "SESSIONS_READ" ∷ "SESSIONS_DEACTIVATE" ∷ "USERS_CREATE" ∷ "USERS_READ"
    ∷ "USERS_UPDATE" ∷ "METRICS_READ" ∷ "BASE_ACCESS" ∷ "API_KEY_ACCESS" ∷ "EMAIL_SEND"
    ∷ "LOGGER_READ" ∷ "GENDERS_CREATE" ∷ "GENDERS_READ" ∷ "GENDERS_UPDATE" ∷ "GENDERS_DELETE"
    ∷ "PERSONS_CREATE" ∷ "PERSONS_READ" ∷ "PERSONS_UPDATE" ∷ []

abbrev pub seed_rules : List SeedRule
seed_rules =
    seed_rule "endpoint-permission-rules.create" "ENDPOINT-PERMISSION-RULES_CREATE"
    ∷ seed_rule "endpoint-permission-rules.find" "ENDPOINT-PERMISSION-RULES_READ"
    ∷ seed_rule "endpoint-permission-rules.find_api" "API_KEY_ACCESS"
    ∷ seed_rule "endpoint-permission-rules.update" "ENDPOINT-PERMISSION-RULES_UPDATE"
    ∷ seed_rule "endpoint-permission-rules.delete" "ENDPOINT-PERMISSION-RULES_DELETE"
    ∷ seed_rule "api-key.generate" "API_KEYS_CREATE"
    ∷ seed_rule "api-key.find" "API_KEYS_READ"
    ∷ seed_rule "api-key.deactivate" "API_KEYS_DEACTIVATE"
    ∷ seed_rule "permission.create" "PERMISSIONS_CREATE"
    ∷ seed_rule "permission.update" "PERMISSIONS_UPDATE"
    ∷ seed_rule "permission.delete" "PERMISSIONS_DELETE"
    ∷ seed_rule "permission.find" "PERMISSIONS_READ"
    ∷ seed_rule "permission.details" "PERMISSIONS_READ"
    ∷ seed_rule "roles.create" "ROLES_CREATE"
    ∷ seed_rule "roles.update" "ROLES_UPDATE"
    ∷ seed_rule "roles.delete" "ROLES_DELETE"
    ∷ seed_rule "roles.find" "ROLES_READ"
    ∷ seed_rule "roles.details" "USERS_CREATE"
    ∷ seed_rule "roles.details.restricted" "ROLES_READ"
    ∷ seed_rule "sessions.find" "SESSIONS_READ"
    ∷ seed_rule "sessions.deactivate" "SESSIONS_DEACTIVATE"
    ∷ seed_rule "users.register" "USERS_CREATE"
    ∷ seed_rule "users.update" "USERS_UPDATE"
    ∷ seed_rule "users.find" "USERS_READ"
    ∷ seed_rule "users.find_api" "API_KEY_ACCESS"
    ∷ seed_rule "metrics.get" "METRICS_READ"
    ∷ seed_rule "logger.find" "LOGGER_READ"
    ∷ seed_rule "genders.create" "GENDERS_CREATE"
    ∷ seed_rule "genders.update" "GENDERS_UPDATE"
    ∷ seed_rule "genders.delete" "GENDERS_DELETE"
    ∷ seed_rule "genders.find" "GENDERS_READ"
    ∷ seed_rule "genders.details" "BASE_ACCESS"
    ∷ seed_rule "persons.create" "PERSONS_CREATE"
    ∷ seed_rule "persons.update" "PERSONS_UPDATE"
    ∷ seed_rule "persons.find" "PERSONS_READ"
    ∷ seed_rule "persons.details" "BASE_ACCESS"
    ∷ []

abbrev pub seed_roles : List SeedRole
seed_roles = record { name = "SUPER_ADMIN"; permission_codes = []; is_restricted = true } ∷ []
