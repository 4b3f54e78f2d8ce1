-- ===== src/Rules/Reconciliation.antt =====
-- src/cron/epr-cache-reconciliation.service.ts: the hourly job that empties the cache of the rules and
-- warms it up again.
use auth_microservice.Prelude.{
  String, ◌≡◌, refl, true, none, some, List, [], ◌∷◌, arith, if◌then◌else◌, includes,
}
use auth_microservice.Redis.{
  Redis, found, Queued, perform_all, codes, epr, epr_keys, q_del, q_del_set,
}
use auth_microservice.Exec.{
  World, calm, Result, Exec, pure, recover, attempt, on_redis, ◌>>=◌, ◌>>◌, ok, err,
}
use auth_microservice.Permissions.{PermissionTable}
use auth_microservice.Rules.{RuleTable, warm_up_cache}
use auth_microservice.Rules.Reading.{Coherent}
use auth_microservice.Rules.Following.{Keeps}
use auth_microservice.Rules.Histories.{warm_up_cache-Keeps}

-- The commands of `deleteStaleKeys`.
abbrev pub stale_commands : List String → List Queued
stale_commands [] = q_del_set epr_keys ∷ []
stale_commands (key ∷ keys) = q_del (epr key) ∷ stale_commands keys

module _ (R : Redis) {B : Type 0} (T : RuleTable B) where
  -- `deleteStaleKeys` behind `sMembers`.
  delete_listed : List String → Exec R.Store B (Unit {0})
  unfolding on_redis
  delete_listed [] = pure tt
  delete_listed (key ∷ keys) = on_redis (λ s. (tt, perform_all R (stale_commands (key ∷ keys)) s))

  unfoldable pub delete_stale_keys : Exec R.Store B (Unit {0})
  unfolding on_redis delete_listed
  delete_stale_keys = on_redis (λ s. (R.s_members epr_keys s, s)) >>= delete_listed

  unfoldable pub handle_cache_reconciliation : Exec R.Store B (Unit {0})
  unfolding delete_stale_keys warm_up_cache
  handle_cache_reconciliation =
      attempt delete_stale_keys (λ e. pure tt) >> attempt (warm_up_cache R T) (λ e. pure tt)

-- Every cached rule is named in the set `epr_keys`.
pub record IsIndexed (R : Redis) (s : R.Store) : Type 0 where
  pub listed :
      (k : String) (c : List String)
      → found (R.get (epr k) s) ≡ some (codes c)
      → includes (R.s_members epr_keys s) k ≡ true

module _ (R : Redis) where
  get-stale_commands :
      (keys : List String) (k : String) (s : R.Store)
      → R.get (epr k) (perform_all R (stale_commands keys) s)
        ≡ (if includes keys k then none else R.get (epr k) s)
  get-stale_commands [] k s = R.get-del_set epr_keys (epr k) s
  get-stale_commands (x ∷ xs) k s =
      ground (arith, get-stale_commands xs k (R.del (epr x) s), R.get-del (epr x) (epr k) s)

module _ (R : Redis) {B : Type 0} (T : RuleTable B) (P : PermissionTable B) where
  -- `catch { log }` keeps what the attempt left.
  silenced-Keeps :
      (r : Result (Unit {0}) × World R.Store B)
      → Keeps R T P r
      → Keeps R T P (recover {A = Unit {0}} (λ e. pure tt) r)
  silenced-Keeps (ok a, w) k = k
  silenced-Keeps (err e, w) k = k

  -- With every call answered, the job leaves a cache that agrees with the database, however stale the
  -- cache was before, if each cached rule was named in the set of keys.
  pub handle_cache_reconciliation-Coherent :
      (w : World R.Store B)
      → IsIndexed R w.redis
      → let after = (handle_cache_reconciliation R T (calm w)).1 in
        Coherent R T after.redis after.db
  unfolding handle_cache_reconciliation
  handle_cache_reconciliation-Coherent w ix = go (R.s_members epr_keys w.redis) refl
    where
      emptied :
          (keys : List String)
          → R.s_members epr_keys w.redis ≡ keys
          → Coherent R T (perform_all R (stale_commands keys) w.redis) w.db
      emptied keys e = record {
        serves = λ k c hit.
            absurd (ground (arith, hit, get-stale_commands R keys k w.redis, ix.listed k c, e));
      }

      go :
          (keys : List String)
          → R.s_members epr_keys w.redis ≡ keys
          → Keeps R T P (
              (attempt (delete_listed R T keys) (λ e. pure tt)
                  >> attempt (warm_up_cache R T) (λ e. pure tt))
                (calm w))
      go [] e = silenced-Keeps (warm_up_cache R T (calm w)) (
          warm_up_cache-Keeps R T P w
            (record { serves = λ k c hit. absurd (ground (arith, hit, ix.listed k c, e)) }))
      go (key ∷ keys) e =
          let s = perform_all R (stale_commands keys) (R.del (epr key) w.redis) in
          silenced-Keeps (warm_up_cache R T (calm (record w { redis = s })))
            (warm_up_cache-Keeps R T P (record w { redis = s }) (emptied (key ∷ keys) e))
