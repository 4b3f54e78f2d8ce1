-- ===== src/Rules.antt =====
-- src/services/endpoint-permission-rules/endpoint-permission-rules.service.ts with its repository:
-- the rules of the endpoints, kept in the database and cached in Redis under `epr:` keys, whose
-- names the set `epr_keys` lists. The table is the interface `RuleTable`. Log entries are left out,
-- and so are the ids in messages.
pub mod Editing
pub mod Reading
pub mod Context
pub mod Coherence
pub mod Following
pub mod Renaming
pub mod Histories
pub mod Outages
pub mod Reconciliation
use auth_microservice.Prelude.{
  ℕ, String, ◌≡◌, Bool, true, not, Option, none, some, List, [], ◌∷◌, ◌++◌, ◌==◌, if◌then◌else◌, In,
}
use auth_microservice.Failure.{Failure, thrown, plain}
use auth_microservice.Redis.{
  Value, Redis, found, Queued, perform_all, codes, epr, epr_keys, persist, q_set, q_s_add,
}
use auth_microservice.Exec.{
  Result, Exec, pure, raise, lift, attempt, on_redis, on_db, ◌>>=◌, ◌>>◌, ok, err,
}
use auth_microservice.Sessions.{syntax_error}
use auth_microservice.Permissions.{Permission, permission_codes_of}

-- src/entities/endpoint-permission-rules.entity.ts
pub record Rule : Type 0 where
  pub id : String
  pub endpoint_key_name : String
  pub enabled : Bool
  pub permissions : List Permission

abbrev pub permission_codes : Rule → List String
permission_codes r = permission_codes_of r.permissions

-- What a row found by its key becomes when the row `id` is replaced or removed.
abbrev pub unless_id : String → Option Rule → Option Rule
unless_id id none = none
unless_id id (some r) = if r.id == id then none else some r

-- The table, whose ids and key names are unique. `save` replaces the row with the entity's id or adds
-- a row, whose id the database generates (`new_id`); it is refused (`none`) where another row has the key name.
pub record RuleTable (B : Type 0) : Type 0 where
  pub find_one_by_id : String → B → Option Rule
  pub find_by_endpoint_key : String → B → Option Rule
  pub find_all_enabled : B → List Rule
  pub new_id : B → String
  pub save : Rule → B → Option B
  pub remove : Rule → B → B
  pub by_key :
      (k : String) (r : Rule) (b : B)
      → find_by_endpoint_key k b ≡ some r
      → (r.endpoint_key_name ≡ k) × (find_one_by_id r.id b ≡ some r)
  pub by_id :
      (i : String) (r : Rule) (b : B)
      → find_one_by_id i b ≡ some r
      → (r.id ≡ i) × (find_by_endpoint_key r.endpoint_key_name b ≡ some r)
  pub new_id-fresh : (b : B) → find_one_by_id (new_id b) b ≡ none
  pub all_enabled :
      (r : Rule) (b : B)
      → In r (find_all_enabled b)
      → (find_by_endpoint_key r.endpoint_key_name b ≡ some r) × (r.enabled ≡ true)
  pub key-save :
      (r : Rule) (k : String) (b b' : B)
      → save r b ≡ some b'
      → find_by_endpoint_key k b'
        ≡ (if r.endpoint_key_name == k then some r else unless_id r.id (find_by_endpoint_key k b))
  pub key-remove :
      (r : Rule) (k : String) (b : B)
      → find_by_endpoint_key k (remove r b) ≡ unless_id r.id (find_by_endpoint_key k b)

abbrev pub rule_exception : (message code : String) (status : ℕ) → Failure
rule_exception = thrown "EndpointPRException"

abbrev pub rule_not_defined : Failure
rule_not_defined =
    rule_exception
      "This endpoint does not have a permission rule defined and is temporally disabled."
      "ENDPOINT_PERMISSION_RULE_NOT_FOUND" 404

abbrev pub rule_disabled : Failure
rule_disabled =
    rule_exception "This endpoint is temporarily disabled. Please try again later."
      "ENDPOINT_PERMISSION_RULE_NOT_FOUND" 404

abbrev pub unique_violation : Failure
unique_violation = record { link = plain "QueryFailedError" "duplicate key"; causes = [] }

-- `JSON.parse(cached) as string[]`, where something is cached. The program stores only lists of codes
-- under these keys; any other value stands for a text that does not parse.
abbrev pub read_codes : Option Value → Result (Option (List String))
read_codes none = ok none
read_codes (some (codes c)) = ok (some c)
read_codes (some _) = err syntax_error

module _ (R : Redis) {B : Type 0} (T : RuleTable B) where
  -- The commands of `warmUpCache` for one rule.
  unfoldable pub warm_rule : Rule → List Queued
  warm_rule r =
      q_set persist (epr r.endpoint_key_name) (codes (permission_codes r))
      ∷ q_s_add epr_keys r.endpoint_key_name
      ∷ []

  abbrev pub warm_commands : List Rule → List Queued
  warm_commands [] = []
  warm_commands (r ∷ rs) = warm_rule r ++ warm_commands rs

  -- `warmUpCache` behind the query, inside its `try`.
  unfoldable pub warm : List Rule → Exec R.Store B (Unit {0})
  unfolding on_redis warm_rule
  warm [] = pure tt
  warm (r ∷ rs) = on_redis (λ s. (tt, perform_all R (warm_commands (r ∷ rs)) s))

  unfoldable pub warm_up_cache : Exec R.Store B (Unit {0})
  unfolding on_db warm
  warm_up_cache = attempt (on_db (λ b. (T.find_all_enabled b, b)) >>= warm) (λ e. pure tt)

  unfoldable pub invalidate_rule_cache : String → Exec R.Store B (Unit {0})
  unfolding on_redis
  invalidate_rule_cache key =
      attempt
        (on_redis (λ s. (tt, R.del (epr key) s)) >> on_redis (λ s. (tt, R.s_rem epr_keys key s)))
        (λ e. pure tt)

  -- The two calls that put a rule's codes into the cache.
  cache_rule : String → List String → Exec R.Store B (Unit {0})
  unfolding on_redis
  cache_rule key cs =
      on_redis (λ s. (tt, R.set persist (epr key) (codes cs) s))
      >> on_redis (λ s. (tt, R.s_add epr_keys key s))

  -- `loadRuleToRedis` behind the query: `rule?.enabled`.
  pub load_found : String → Option Rule → Exec R.Store B (Unit {0})
  unfolding cache_rule invalidate_rule_cache
  load_found key none = invalidate_rule_cache key
  load_found key (some r) =
      if r.enabled then cache_rule key (permission_codes r) else invalidate_rule_cache key

  unfoldable pub load_rule_to_redis : String → Exec R.Store B (Unit {0})
  unfolding on_db load_found
  load_rule_to_redis key =
      attempt (on_db (λ b. (T.find_by_endpoint_key key b, b)) >>= load_found key) (λ e. pure tt)

  -- The cached codes; an error of Redis or of the parser counts as nothing cached.
  cached_codes : String → Exec R.Store B (Option (List String))
  unfolding on_redis
  cached_codes key =
      attempt (on_redis (λ s. (found (R.get (epr key) s), s)) >>= λ raw. lift (read_codes raw))
        (λ e. pure none)

  -- The answer from the database, which is put into the cache.
  unfoldable pub from_database : String → Option Rule → Exec R.Store B (List String)
  unfolding cache_rule
  from_database key none = raise rule_not_defined
  from_database key (some r) =
      if not r.enabled
      then raise rule_disabled
      else attempt (cache_rule key (permission_codes r)) (λ e. pure tt) >> pure (permission_codes r)

  cached_or_database : String → Option (List String) → Exec R.Store B (List String)
  unfolding on_db from_database
  cached_or_database key (some cs) = pure cs
  cached_or_database key none = on_db (λ b. (T.find_by_endpoint_key key b, b)) >>= from_database key

  unfoldable pub get_permissions_for_endpoint : String → Exec R.Store B (List String)
  unfolding cached_codes cached_or_database
  get_permissions_for_endpoint key = cached_codes key >>= cached_or_database key
