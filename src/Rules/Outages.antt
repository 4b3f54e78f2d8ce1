-- ===== src/Rules/Outages.antt =====
-- What a failing Redis does to the cache of the rules.
use auth_microservice.Prelude.{
  String, ◌≡◌, refl, true, false, none, some, List, [], ◌∷◌, arith, eq_refl,
}
use auth_microservice.Redis.{Redis, codes, epr}
use auth_microservice.Exec.{World, calm, answered, refused, ok}
use auth_microservice.Permissions.{PermissionTable}
use auth_microservice.Rules.{Rule, RuleTable, get_permissions_for_endpoint}
use auth_microservice.Rules.Reading.{required}
use auth_microservice.Rules.Editing.{found_rule, disable_rule}

module _ (R : Redis) {B : Type 0} (T : RuleTable B) (P : PermissionTable B) where
  -- If Redis refuses the deletion while a cached, enabled rule is being disabled, then the request still
  -- succeeds and the rule is disabled in the database, yet the endpoint goes on being answered
  -- with the permissions in the cache.
  pub disable_rule-stale :
      (id : String) (r : Rule) (c : List String) (w : World R.Store B) (b' : B)
      → T.find_one_by_id id w.db ≡ some r
      → r.enabled ≡ true
      → T.save (record r { enabled = false }) w.db ≡ some b'
      → R.get (epr r.endpoint_key_name) w.redis ≡ some (codes c)
      → let done =
          disable_rule R T P id (record w { schedule = answered ∷ answered ∷ refused ∷ [] }) in
        (done.0 ≡ ok tt)
        × (required (T.find_by_endpoint_key r.endpoint_key_name done.1.db) ≡ none)
        × ((get_permissions_for_endpoint R T r.endpoint_key_name (calm done.1)).0 ≡ ok c)
  unfolding disable_rule get_permissions_for_endpoint
  disable_rule-stale id r c w b' here on saved cached =
      rw (here, found_rule, on, saved)
        (
          refl,
          ground (
            arith,
            T.key-save (record r { enabled = false }) r.endpoint_key_name w.db b' saved,
            eq_refl r.endpoint_key_name,
          ),
          rw cached,
        )
