-- ===== src/Rules/Editing.antt =====
-- The operations of the service that change a rule: each saves the rule and then the cache follows.
use auth_microservice.Prelude.{
  String, true, false, not, Option, none, some, List, [], ◌==◌, if◌then◌else◌, truthy,
}
use auth_microservice.Failure.{Failure, wrap}
use auth_microservice.Redis.{Redis}
use auth_microservice.Exec.{Result, Exec, pure, raise, lift, attempt, on_db, ◌>>=◌, ◌>>◌, ok, err}
use auth_microservice.Permissions.{PermissionTable, find_permissions}
use auth_microservice.Rules.{
  Rule, RuleTable, rule_exception, unique_violation, invalidate_rule_cache, load_rule_to_redis,
}

-- src/interfaces/DTO/endpoint-permission-rules.dto.ts; the validation pipe of src/main.ts lets no other
-- field through, and no empty name.
pub record PatchRule : Type 0 where
  pub endpoint_key_name : String

-- `ormRepository.merge(existing, dto)`: the given fields replace the entity's.
abbrev pub merge : Rule → PatchRule → Rule
merge r dto = record r { endpoint_key_name = dto.endpoint_key_name }

-- What `create({ ...dto, created_by })` makes, with the column's default; it has no permissions yet.
abbrev pub new_rule : (id key : String) → Rule
new_rule id key = record { id = id; endpoint_key_name = key; enabled = true; permissions = [] }

module _ (R : Redis) {B : Type 0} (T : RuleTable B) (P : PermissionTable B) where
  unfoldable pub found_rule : Option Rule → Exec R.Store B Rule
  found_rule none =
      raise (
        rule_exception "Endpoint Permission Rule not found" "ENDPOINT_PERMISSION_RULE_NOT_FOUND"
          404)
  found_rule (some r) = pure r

  unfoldable pub find_rule : String → Exec R.Store B Rule
  unfolding on_db found_rule
  find_rule id = on_db (λ b. (T.find_one_by_id id b, b)) >>= found_rule

  -- The answer of the table and its new state; a refused row leaves it as it was.
  abbrev saving : Rule → Option B → B → Result Rule × B
  saving r none b = (err unique_violation, b)
  saving r (some b') b = (ok r, b')

  unfoldable pub save_rule : Rule → Exec R.Store B Rule
  unfolding on_db
  save_rule r = on_db (λ b. saving r (T.save r b) b) >>= lift

  -- `catch (error) { throw new EndpointPRException(…) }`.
  abbrev rethrow : (message code : String) → Failure → Failure
  rethrow message code = wrap "EndpointPRException" message code 500

  -- `save(create({ ...dto, created_by }))`: a new entity, with no permissions yet.
  unfoldable pub insert_rule : (key : String) → Exec R.Store B Rule
  unfolding on_db
  insert_rule key =
      on_db (λ b. let r = new_rule (T.new_id b) key in saving r (T.save r b) b) >>= lift

  unfoldable pub create : (key : String) → Exec R.Store B Rule
  unfolding insert_rule load_rule_to_redis
  create key =
      attempt
        (do saved ← insert_rule key; load_rule_to_redis R T saved.endpoint_key_name; pure saved)
        (λ e. raise (
          rethrow "Endpoint Permission Rule creation failed" "ENDPOINT_PERMISSION_RULE_NOT_CREATED"
            e))

  -- What `update` does to the cache; the new key name counts only where it is not empty.
  unfoldable pub follow : (old_key : String) → Option String → Rule → Exec R.Store B (Unit {0})
  unfolding load_rule_to_redis invalidate_rule_cache
  follow old_key none saved = load_rule_to_redis R T saved.endpoint_key_name
  follow old_key (some key) saved =
      if not (key == old_key)
      then invalidate_rule_cache R T old_key >> load_rule_to_redis R T key
      else load_rule_to_redis R T saved.endpoint_key_name

  unfoldable pub update : (id : String) → PatchRule → Exec R.Store B Rule
  unfolding find_rule save_rule follow
  update id dto =
      attempt
        (do
          existing ← find_rule id
          saved ← save_rule (merge existing dto)
          follow existing.endpoint_key_name (truthy (some dto.endpoint_key_name)) saved
          pure saved)
        (λ e. raise (
          rethrow "Endpoint Permission Rule update failed" "ENDPOINT_PERMISSION_RULE_NOT_UPDATED"
            e))

  unfoldable pub delete : (id : String) → Exec R.Store B (Unit {0})
  unfolding on_db find_rule invalidate_rule_cache
  delete id =
      attempt
        (do
          rule ← find_rule id
          on_db (λ b. (tt, T.remove rule b))
          invalidate_rule_cache R T rule.endpoint_key_name)
        (λ e. raise (
          rethrow "Endpoint Permission Rule delete failed" "ENDPOINT_PERMISSION_RULE_NOT_DELETED"
            e))

  -- A rule saved and then loaded into the cache.
  unfoldable pub save_loaded : Rule → Exec R.Store B Rule
  unfolding save_rule load_rule_to_redis
  save_loaded rule = do
    saved ← save_rule rule
    load_rule_to_redis R T saved.endpoint_key_name
    pure saved

  unfoldable pub assign_permissions :
      (id : String) (permissions_ids : List String) → Exec R.Store B Rule
  unfolding find_rule find_permissions save_loaded
  assign_permissions id permissions_ids =
      attempt
        (do
          rule ← find_rule id
          ps ← find_permissions P permissions_ids
          save_loaded (record rule { permissions = ps }))
        (λ e. raise (
          rethrow "Endpoint Permission Rule permission assignment failed"
            "ENDPOINT_PERMISSION_RULE_ASSIGN_FAILED" e))

  unfoldable pub enable : Rule → Exec R.Store B (Unit {0})
  unfolding save_rule load_rule_to_redis
  enable rule =
      if rule.enabled
      then raise (
          rule_exception "Endpoint Permission Rule already enabled"
            "ENDPOINT_PERMISSION_RULE_ALREADY_ENABLED" 400)
      else (save_rule (record rule { enabled = true })
          >> load_rule_to_redis R T rule.endpoint_key_name)

  unfoldable pub enable_rule : (id : String) → Exec R.Store B (Unit {0})
  unfolding find_rule enable
  enable_rule id = find_rule id >>= enable

  unfoldable pub disable : Rule → Exec R.Store B (Unit {0})
  unfolding save_rule invalidate_rule_cache
  disable rule =
      if not rule.enabled
      then raise (
          rule_exception "Endpoint Permission Rule already disabled"
            "ENDPOINT_PERMISSION_RULE_ALREADY_DISABLED" 400)
      else (save_rule (record rule { enabled = false })
          >> invalidate_rule_cache R T rule.endpoint_key_name)

  unfoldable pub disable_rule : (id : String) → Exec R.Store B (Unit {0})
  unfolding find_rule disable
  disable_rule id = find_rule id >>= disable
