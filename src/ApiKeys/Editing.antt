-- ===== src/ApiKeys/Editing.antt =====
-- The operations of the service that change a key.
use auth_microservice.Prelude.{String, true, false, not, Option, none, some, List, if◌then◌else◌}
use auth_microservice.Failure.{wrap}
use auth_microservice.Redis.{Redis}
use auth_microservice.Exec.{Result, Exec, pure, raise, lift, attempt, on_db, ◌>>=◌, ◌>>◌, ok, err}
use auth_microservice.Permissions.{Permission, PermissionTable, find_permissions}
use auth_microservice.Rules.{unique_violation}
use auth_microservice.ApiKeys.{
  ApiKey, ApiKeyTable, api_key_exception, api_key_not_found, load_api_key_to_redis,
  invalidate_api_key_cache,
}

module _ (R : Redis) {B : Type 0} (T : ApiKeyTable B) (P : PermissionTable B)
    (compute_hmac : String → String) where
  unfoldable pub found_key : Option ApiKey → Exec R.Store B ApiKey
  found_key none = raise api_key_not_found
  found_key (some k) = pure k

  unfoldable pub find_key : String → Exec R.Store B ApiKey
  unfolding on_db found_key
  find_key id = on_db (λ b. (T.find_one_by_id id b, b)) >>= found_key

  abbrev pub saving_key : ApiKey → Option B → B → Result ApiKey × B
  saving_key k none b = (err unique_violation, b)
  saving_key k (some b') b = (ok k, b')

  unfoldable pub save_key : ApiKey → Exec R.Store B ApiKey
  unfolding on_db
  save_key k = on_db (λ b. saving_key k (T.save k b) b) >>= lift

  -- The entity that the transaction of `create` saves, with the column's default.
  abbrev pub new_key : (id client fingerprint : String) → List Permission → ApiKey
  new_key id client fingerprint ps = record {
    id = id;
    key_fingerprint = fingerprint;
    client = client;
    active = true;
    permissions = ps;
  }

  unfoldable pub insert_key :
      (client fingerprint : String) → List Permission → Exec R.Store B ApiKey
  unfolding on_db
  insert_key client fingerprint ps =
      on_db (λ b. let k = new_key (T.new_id b) client fingerprint ps in saving_key k (T.save k b) b)
      >>= lift

  -- `raw` is the key that `generatePlainKey` drew; the answer is that key, the id and the client.
  unfoldable pub create_key :
      (client : String) (permission_ids : List String) (raw : String)
      → Exec R.Store B (String × String × String)
  unfolding find_permissions insert_key wrap
  create_key client permission_ids raw =
      attempt
        (do
          ps ← find_permissions P permission_ids
          k ← insert_key client (compute_hmac raw) ps
          pure (raw, k.id, k.client))
        (λ e. raise (wrap "ApiKeyException" "Failed to create API key" "API_KEY_NOT_CREATED" 500 e))

  unfoldable pub deactivate_found : ApiKey → Exec R.Store B (Unit {0})
  unfolding invalidate_api_key_cache save_key
  deactivate_found k =
      if not k.active
      then raise (api_key_exception "Api Key already deactivated" "API_KEY_ALREADY_DEACTIVATE" 400)
      else (do
        invalidate_api_key_cache R T P compute_hmac (record k { active = false })
        save_key (record k { active = false })
        pure tt)

  unfoldable pub deactivate_key : (id : String) → Exec R.Store B (Unit {0})
  unfolding find_key deactivate_found
  deactivate_key id = find_key id >>= deactivate_found

  unfoldable pub activate_found : ApiKey → Exec R.Store B (Unit {0})
  unfolding load_api_key_to_redis save_key
  activate_found k =
      if k.active
      then raise (api_key_exception "Api Key already activated" "API_KEY_ALREADY_ACTIVATE" 400)
      else (save_key (record k { active = true })
          >> load_api_key_to_redis R T P compute_hmac (record k { active = true }))

  unfoldable pub activate_key : (id : String) → Exec R.Store B (Unit {0})
  unfolding find_key activate_found
  activate_key id = find_key id >>= activate_found

  -- What `changePermissions` does with the entity, its new permissions set.
  unfoldable pub recache_key : ApiKey → Exec R.Store B ApiKey
  unfolding save_key invalidate_api_key_cache load_api_key_to_redis
  recache_key k = do
    save_key k
    invalidate_api_key_cache R T P compute_hmac k
    load_api_key_to_redis R T P compute_hmac k
    pure k

  unfoldable pub change_permissions :
      (id : String) (permissions_ids : List String) → Exec R.Store B ApiKey
  unfolding find_key find_permissions recache_key wrap
  change_permissions id permissions_ids =
      attempt
        (do
          k ← find_key id
          ps ← find_permissions P permissions_ids
          recache_key (record k { permissions = ps }))
        (λ e. raise (
          wrap "ApiKeyException" "Failed to change API key permissions"
            "API_KEY_PERMISSIONS_ASSIGN_FAILED" 500 e))
