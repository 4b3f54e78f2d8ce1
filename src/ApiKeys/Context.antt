-- ===== src/ApiKeys/Context.antt =====
-- Looking a key up leaves the database, and what else Redis holds, alone.
use auth_microservice.Prelude.{String, ◌≡◌, refl, ◌∙◌, Option, none, some, List}
use auth_microservice.Redis.{
  Redis, found, perform_all, api_cache, api_key_fp, epr, api_keys, persist,
}
use auth_microservice.Exec.{World, pure, raise, lift, attempt, on_redis, on_db, ◌>>=◌}
use auth_microservice.Exec.Context.{
  Preserves, KeepsDb, KeepsRedis, on_redis-KeepsDb, on_redis-KeepsRedis, on_db-KeepsDb,
  on_db-KeepsRedis, attempt-Preserves, >>=-Preserves,
}
use auth_microservice.Permissions.{PermissionTable}
use auth_microservice.ApiKeys.{
  ApiKey, key_codes, ApiKeyTable, find_by_fingerprint, lookup_failed, cache_of, read_cache,
  cache_commands, cached_key, backfill, cached_or_row, find_active_by_plain_key,
}

module _ (R : Redis) {B : Type 0} (T : ApiKeyTable B) (P : PermissionTable B)
    (compute_hmac : String → String) where
  get-epr_cached :
      (key : String) (k : ApiKey) (s : R.Store)
      → R.get (epr key) (perform_all R (cache_commands k) s) ≡ R.get (epr key) s
  get-epr_cached key k s =
      R.get-s_add api_keys k.key_fingerprint (epr key) _
      ∙ R.get-set persist (api_key_fp k.key_fingerprint) (epr key) (api_cache (cache_of k)) s

  module _ {X : Type 0} (f : World R.Store B → X) where
    backfill-Preserves :
        ((k : ApiKey)
          → Preserves f (on_redis {A = Unit {0}} (λ s. (tt, perform_all R (cache_commands k) s))))
        → (r : Option ApiKey) → Preserves f (backfill R T P compute_hmac r)
    unfolding backfill
    backfill-Preserves k none w = refl
    backfill-Preserves k (some r) w =
        >>=-Preserves f
          (attempt (on_redis (λ s. (tt, perform_all R (cache_commands r) s))) (λ e. pure tt))
          (λ _. pure (some (key_codes r)))
          (attempt-Preserves f (on_redis (λ s. (tt, perform_all R (cache_commands r) s)))
            (λ e. pure tt) (k r) (λ e v. refl))
          (λ _ v. refl) w

    cached_or_row-Preserves :
        ((k : ApiKey)
          → Preserves f (on_redis {A = Unit {0}} (λ s. (tt, perform_all R (cache_commands k) s))))
        → ((g : String) → Preserves f (on_db (λ b. (find_by_fingerprint T g b, b))))
        → (g : String) (o : Option (Option (List String)))
        → Preserves f (cached_or_row R T P compute_hmac g o)
    unfolding cached_or_row
    cached_or_row-Preserves writes queries g (some cs) w = refl
    cached_or_row-Preserves writes queries g none w =
        attempt-Preserves f
          (on_db (λ b. (find_by_fingerprint T g b, b)) >>= backfill R T P compute_hmac)
          (λ e. raise (lookup_failed e))
          (>>=-Preserves f (on_db (λ b. (find_by_fingerprint T g b, b)))
            (backfill R T P compute_hmac) (queries g) (backfill-Preserves writes))
          (λ e v. refl) w

    find_active_by_plain_key-Preserves :
        ((k : ApiKey)
          → Preserves f (on_redis {A = Unit {0}} (λ s. (tt, perform_all R (cache_commands k) s))))
        → ((g : String) → Preserves f (on_redis (λ s. (found (R.get (api_key_fp g) s), s))))
        → ((g : String) → Preserves f (on_db (λ b. (find_by_fingerprint T g b, b))))
        → (raw : String) → Preserves f (find_active_by_plain_key R T P compute_hmac raw)
    unfolding find_active_by_plain_key cached_key
    find_active_by_plain_key-Preserves writes reads queries raw =
        let g = compute_hmac raw in
        >>=-Preserves f (cached_key R T P compute_hmac g) (cached_or_row R T P compute_hmac g)
          (attempt-Preserves f
            (on_redis (λ s. (found (R.get (api_key_fp g) s), s)) >>= λ raw. lift (read_cache raw))
            (λ e. pure none)
            (>>=-Preserves f (on_redis (λ s. (found (R.get (api_key_fp g) s), s)))
              (λ raw. lift (read_cache raw)) (reads g) (λ raw v. refl))
            (λ e v. refl))
          (cached_or_row-Preserves writes queries g)

  pub find_active_by_plain_key-KeepsDb :
      (raw : String) → KeepsDb (find_active_by_plain_key R T P compute_hmac raw)
  find_active_by_plain_key-KeepsDb raw =
      find_active_by_plain_key-Preserves (λ w. w.db) (λ k. on_redis-KeepsDb _)
        (λ g. on_redis-KeepsDb _) (λ g. on_db-KeepsDb (find_by_fingerprint T g)) raw

  pub find_active_by_plain_key-keeps_rules :
      (raw key : String)
      → KeepsRedis (R.get (epr key)) (find_active_by_plain_key R T P compute_hmac raw)
  find_active_by_plain_key-keeps_rules raw key =
      find_active_by_plain_key-Preserves (λ w. R.get (epr key) w.redis)
        (λ k. on_redis-KeepsRedis (R.get (epr key)) _ (get-epr_cached key k))
        (λ g. on_redis-KeepsRedis (R.get (epr key)) _ (λ s. refl))
        (λ g. on_db-KeepsRedis (R.get (epr key)) _) raw
