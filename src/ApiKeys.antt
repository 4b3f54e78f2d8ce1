-- ===== src/ApiKeys.antt =====
-- src/services/api-keys/api-keys.service.ts with its repository: the keys of the calling services,
-- kept in the database by fingerprint and cached in Redis under `api_key:fp:` keys, whose names the
-- set `api_keys` lists. The ORM's table is the interface `ApiKeyTable`; the keyed hash is the
-- parameter `compute_hmac`. Log entries are left out, and so are the ids in messages.
pub mod Editing
pub mod Lookup
pub mod Context
pub mod Coherence
pub mod Keeping
pub mod Histories
pub mod Deactivation
pub mod Reconciliation
use auth_microservice.Prelude.{
  ℕ, zero, suc, ◌+◌, ◌-◌, ◌*◌, ◌/◌, ◌≤◌, ◌<◌, String, ◌≡◌, refl, sym, ap, subst, ◌∙◌, ◌≢◌, ◌↔◌, ◌⊎◌,
  inl, inr, Bool, true, false, not, ◌&&◌, ◌||◌, Option, none, some, List, [], ◌∷◌, ◌++◌, map, arith,
  ◌==◌, eq_iff, eq_refl, ltb, leb, eqb, if◌then◌else◌, Bool-cases, Option-cases, truthy, get_or,
  length, length-append, any, filter_by, In, includes,
}
use auth_microservice.Failure.{
  Message, Response, Link, Failure, status?, thrown, wrap, deepest_error_code, deepest_http_message,
  chain_entry, cause_chain, one, many, absent, text, object, service, http, plain,
}
use auth_microservice.Redis.{
  Session, ApiCache, Value, Key, SetKey, same_key, same_set, Expiry, ttl_after, Redis, found,
  Queued, perform, perform_all, session, api_cache, codes, reset_payload, malformed, empty_text,
  auth_session, reset_password, api_key_fp, epr, user_sessions, api_keys, epr_keys, px, keep_ttl,
  persist, q_set, q_del, q_s_add, q_s_rem, q_del_set,
}
use auth_microservice.Exec.{
  AuthUser, Delivery, World, calm, Result, Exec, connection_lost, pure, raise, lift, recover,
  attempt, on_redis, on_db, continue, ◌>>=◌, ◌>>◌, current_time, set_user, Result-cases, >>=-eq-ok,
  attempt-eq-ok, answered, refused, reply_lost, ok, err,
}
use auth_microservice.Permissions.{
  Permission, PermissionTable, permission_codes_of, permission_not_found, find_permission,
  find_permissions, find_permissions-calm,
}
use auth_microservice.Sessions.{
  syntax_error, parse_session, read_session, SessionWithSid, UserSessions, refresh_command, m_get,
  refresh_commands, find_user_sessions, deactivate_session, refresh_session_permissions,
  refresh_users,
}

-- src/entities/api-key.entity.ts
pub record ApiKey : Type 0 where
  pub id : String
  pub key_fingerprint : String
  pub client : String
  pub active : Bool
  pub permissions : List Permission

-- `permissionCodes`.
abbrev pub key_codes : ApiKey → List String
key_codes k = permission_codes_of k.permissions

-- What a row becomes when the row `id` is replaced.
abbrev pub unless_key : String → Option ApiKey → Option ApiKey
unless_key id none = none
unless_key id (some k) = if k.id == id then none else some k

-- The condition `active: true` of a query.
abbrev pub if_active : Option ApiKey → Option ApiKey
if_active none = none
if_active (some k) = if k.active then some k else none

-- Whether a row is there and active.
abbrev pub is_live : Option ApiKey → Bool
is_live none = false
is_live (some k) = k.active

-- The table, whose ids and fingerprints are unique. `save` replaces the row with the entity's id or
-- adds a row; it is refused (`none`) where another row has the fingerprint.
pub record ApiKeyTable (B : Type 0) : Type 0 where
  pub find_one_by_id : String → B → Option ApiKey
  pub row_by_fingerprint : String → B → Option ApiKey
  pub find_all_active : B → List ApiKey
  pub active_among : List String → B → List String
  pub new_id : B → String
  pub save : ApiKey → B → Option B
  pub by_fingerprint :
      (f : String) (k : ApiKey) (b : B)
      → row_by_fingerprint f b ≡ some k
      → (k.key_fingerprint ≡ f) × (find_one_by_id k.id b ≡ some k)
  pub by_id :
      (i : String) (k : ApiKey) (b : B)
      → find_one_by_id i b ≡ some k
      → (k.id ≡ i) × (row_by_fingerprint k.key_fingerprint b ≡ some k)
  pub new_id-fresh : (b : B) → find_one_by_id (new_id b) b ≡ none
  pub all_active :
      (k : ApiKey) (b : B)
      → In k (find_all_active b)
      → (row_by_fingerprint k.key_fingerprint b ≡ some k) × (k.active ≡ true)
  pub among :
      (fs : List String) (f : String) (b : B)
      → includes (active_among fs b) f ≡ (includes fs f && is_live (row_by_fingerprint f b))
  pub save-unique :
      (k k' : ApiKey) (b b' : B)
      → save k b ≡ some b'
      → row_by_fingerprint k.key_fingerprint b ≡ some k'
      → k'.id ≡ k.id
  pub fingerprint-save :
      (k : ApiKey) (f : String) (b b' : B)
      → save k b ≡ some b'
      → row_by_fingerprint f b'
        ≡ (if k.key_fingerprint == f then some k else unless_key k.id (row_by_fingerprint f b))

-- `findByFingerprint`.
abbrev pub find_by_fingerprint : {B : Type 0} → ApiKeyTable B → String → B → Option ApiKey
find_by_fingerprint T f b = if_active (T.row_by_fingerprint f b)

abbrev pub api_key_exception : (message code : String) (status : ℕ) → Failure
api_key_exception = thrown "ApiKeyException"

abbrev pub api_key_not_found : Failure
api_key_not_found = api_key_exception "API key not found" "API_KEY_NOT_FOUND" 404

abbrev pub invalid_api_key : Failure
invalid_api_key = api_key_exception "Invalid or inactive API key" "API_KEY_NOT_FOUND" 404

-- What `findActiveByPlainKey` makes of an error of the database or of a missing row.
abbrev pub lookup_failed : Failure → Failure
lookup_failed = wrap "ApiKeyException" "Failed to find the active API key" "API_KEY_NOT_FOUND" 500

abbrev pub cache_of : ApiKey → ApiCache
cache_of k = record { client = k.client; permission_codes = key_codes k }

-- `JSON.parse(cached).permissionCodes`, where something is cached; it is undefined (`some none`) in
-- a text that has another shape.
abbrev pub read_cache : Option Value → Result (Option (Option (List String)))
read_cache none = ok none
read_cache (some (api_cache c)) = ok (some (some c.permission_codes))
read_cache (some (session s)) = ok (some none)
read_cache (some (codes c)) = ok (some none)
read_cache (some (reset_payload i)) = ok (some none)
read_cache (some _) = err syntax_error

-- The commands that put a key into the cache, and that take one out.
abbrev pub cache_commands : ApiKey → List Queued
cache_commands k =
    q_set persist (api_key_fp k.key_fingerprint) (api_cache (cache_of k))
    ∷ q_s_add api_keys k.key_fingerprint
    ∷ []

abbrev pub drop_commands : String → List Queued
drop_commands f = q_del (api_key_fp f) ∷ q_s_rem api_keys f ∷ []

abbrev pub warm_key_commands : List ApiKey → List Queued
warm_key_commands [] = []
warm_key_commands (k ∷ ks) = cache_commands k ++ warm_key_commands ks

module _ (R : Redis) {B : Type 0} (T : ApiKeyTable B) (P : PermissionTable B)
    (compute_hmac : String → String) where
  unfoldable pub load_api_key_to_redis : ApiKey → Exec R.Store B (Unit {0})
  unfolding on_redis
  load_api_key_to_redis k =
      attempt (on_redis (λ s. (tt, perform_all R (cache_commands k) s))) (λ e. pure tt)

  unfoldable pub invalidate_api_key_cache : ApiKey → Exec R.Store B (Unit {0})
  unfolding on_redis wrap
  invalidate_api_key_cache k =
      attempt (on_redis (λ s. (tt, perform_all R (drop_commands k.key_fingerprint) s))) (λ e.
        raise (
          wrap "ApiKeyException" "Failed to invalidate the API key from cache"
            "API_KEY_CACHE_INVALIDATION_FAILED" 500 e))

  -- `warmUpCache` behind the query, inside its `try`.
  pub warm_keys : List ApiKey → Exec R.Store B (Unit {0})
  unfolding on_redis
  warm_keys [] = pure tt
  warm_keys (k ∷ ks) = on_redis (λ s. (tt, perform_all R (warm_key_commands (k ∷ ks)) s))

  unfoldable pub warm_up_keys : Exec R.Store B (Unit {0})
  unfolding on_db warm_keys
  warm_up_keys = attempt (on_db (λ b. (T.find_all_active b, b)) >>= warm_keys) (λ e. pure tt)

  -- What the cache says; an error of Redis or of the parser counts as nothing cached.
  pub cached_key : (fingerprint : String) → Exec R.Store B (Option (Option (List String)))
  unfolding on_redis
  cached_key f =
      attempt (on_redis (λ s. (found (R.get (api_key_fp f) s), s)) >>= λ raw. lift (read_cache raw))
        (λ e. pure none)

  -- The row's codes, which are put back into the cache.
  pub backfill : Option ApiKey → Exec R.Store B (Option (List String))
  unfolding on_redis
  backfill none = raise invalid_api_key
  backfill (some k) =
      attempt (on_redis (λ s. (tt, perform_all R (cache_commands k) s))) (λ e. pure tt)
      >> pure (some (key_codes k))

  pub cached_or_row :
      (fingerprint : String) → Option (Option (List String)) → Exec R.Store B (Option (List String))
  unfolding on_db backfill wrap
  cached_or_row f (some cs) = pure cs
  cached_or_row f none =
      attempt (on_db (λ b. (find_by_fingerprint T f b, b)) >>= backfill)
        (λ e. raise (lookup_failed e))

  -- The permission codes of an active key; undefined (`none`) where the cached text has none.
  unfoldable pub find_active_by_plain_key : (raw : String) → Exec R.Store B (Option (List String))
  unfolding cached_key cached_or_row
  find_active_by_plain_key raw = let f = compute_hmac raw in cached_key f >>= cached_or_row f
