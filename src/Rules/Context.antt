-- ===== src/Rules/Context.antt =====
-- Reading an endpoint's permissions leaves the user of the request context alone.
use auth_microservice.Prelude.{String, refl, inl, inr, Option, none, some, List, Bool-cases}
use auth_microservice.Redis.{Redis, found, codes, epr, epr_keys, persist}
use auth_microservice.Exec.{pure, lift, attempt, on_redis, on_db, ◌>>=◌}
use auth_microservice.Exec.Context.{
  KeepsUser, on_redis-KeepsUser, on_db-KeepsUser, attempt-Preserves, >>=-Preserves,
}
use auth_microservice.Rules.{
  cache_rule, cached_codes, cached_or_database, permission_codes, Rule, RuleTable, read_codes,
  from_database, get_permissions_for_endpoint,
}

module _ (R : Redis) {B : Type 0} (T : RuleTable B) where
  from_database-KeepsUser : (key : String) (r : Option Rule) → KeepsUser (from_database R T key r)
  unfolding from_database cache_rule
  from_database-KeepsUser key none w = refl
  from_database-KeepsUser key (some r) w = elim (Bool-cases r.enabled) [
    | inr off ↦ rw off refl
    | inl on ↦ rw on (
        >>=-Preserves (λ w. w.user)
          (attempt (cache_rule R T key (permission_codes r)) (λ e. pure tt))
          (λ _. pure (permission_codes r))
          (attempt-Preserves (λ w. w.user) (cache_rule R T key (permission_codes r)) (λ e. pure tt)
            (>>=-Preserves (λ w. w.user)
              (on_redis (λ s. (tt, R.set persist (epr key) (codes (permission_codes r)) s)))
              (λ _. on_redis (λ s. (tt, R.s_add epr_keys key s))) (on_redis-KeepsUser _)
              (λ _. on_redis-KeepsUser _))
            (λ e v. refl))
          (λ _ v. refl) w)
  ]

  cached_or_database-KeepsUser :
      (key : String) (o : Option (List String)) → KeepsUser (cached_or_database R T key o)
  unfolding cached_or_database
  cached_or_database-KeepsUser key (some cs) w = refl
  cached_or_database-KeepsUser key none w =
      >>=-Preserves (λ w. w.user) (on_db (λ b. (T.find_by_endpoint_key key b, b)))
        (from_database R T key) (on_db-KeepsUser _) (from_database-KeepsUser key) w

  pub get_permissions_for_endpoint-KeepsUser :
      (key : String) → KeepsUser (get_permissions_for_endpoint R T key)
  unfolding get_permissions_for_endpoint cached_codes
  get_permissions_for_endpoint-KeepsUser key =
      >>=-Preserves (λ w. w.user) (cached_codes R T key) (cached_or_database R T key)
        (attempt-Preserves (λ w. w.user)
          (on_redis (λ s. (found (R.get (epr key) s), s)) >>= λ raw. lift (read_codes raw))
          (λ e. pure none)
          (>>=-Preserves (λ w. w.user) (on_redis (λ s. (found (R.get (epr key) s), s)))
            (λ raw. lift (read_codes raw)) (on_redis-KeepsUser _) (λ raw v. refl))
          (λ e v. refl))
        (cached_or_database-KeepsUser key)
