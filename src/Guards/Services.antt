-- ===== src/Guards/Services.antt =====
-- What the guards of the calling services grant.
use auth_microservice.Prelude.{
  String, ◌≡◌, sym, ap, subst, ◌∙◌, Bool, true, Option, none, some, List, arith, truthy,
}
use auth_microservice.Redis.{Redis, epr}
use auth_microservice.Exec.{World, Result, lift, ◌>>=◌, >>=-eq-ok, ok}
use auth_microservice.Jwt.{JwtConfig}
use auth_microservice.Http.{Request, extract_api_key}
use auth_microservice.Permissions.{PermissionTable}
use auth_microservice.Rules.{RuleTable}
use auth_microservice.Rules.Reading.{Coherent}
use auth_microservice.ApiKeys.{
  ApiKey, key_codes, ApiKeyTable, find_by_fingerprint, find_active_by_plain_key,
}
use auth_microservice.ApiKeys.Context.{
  find_active_by_plain_key-KeepsDb, find_active_by_plain_key-keeps_rules,
}
use auth_microservice.Redis.{epr}
use auth_microservice.ApiKeys.Lookup.{KeysCoherent, find_active_by_plain_key-active}
use auth_microservice.Guards.{require_codes, check_endpoint, api_key_guard}
use auth_microservice.Guards.Endpoints.{Permits, check_endpoint-Permits}

-- The header gives one key, whose fingerprint belongs to an active row that has what the endpoint
-- asks for.
pub record KeyAdmitted {B : Type 0} (T : RuleTable B) (K : ApiKeyTable B)
    (compute_hmac : String → String) (endpoint : Option String) (request : Request) (b : B)
    (k : ApiKey) : Type 0 where
  pub raw : String
  pub given : extract_api_key request.api_key ≡ ok raw
  pub row : find_by_fingerprint K (compute_hmac raw) b ≡ some k
  pub permitted : Permits T b (key_codes k) (truthy endpoint)

module _ {S B A : Type 0} where
  pub lift-eq-ok :
      (r : Result A) (w w' : World S B) (a : A) → lift r w ≡ (ok a, w') → (r ≡ ok a) × (w' ≡ w)
  lift-eq-ok r w w' a h = (ap (λ x. x.0) h, sym (ap (λ x. x.1) h))

module _ {S B : Type 0} where
  require_codes-eq-ok :
      (o : Option (List String)) (w w' : World S B) (held : List String)
      → require_codes o w ≡ (ok held, w')
      → (o ≡ some held) × (w' ≡ w)
  unfolding require_codes
  require_codes-eq-ok none w w' held h = absurd (ground arith)
  require_codes-eq-ok (some cs) w w' held h = ground arith

module _ (R : Redis) {B : Type 0} (T : RuleTable B) (K : ApiKeyTable B) (P : PermissionTable B)
    (compute_hmac : String → String) (c : JwtConfig) (endpoint : Option String)
    (request : Request) where
  key_lookup-Coherent :
      (raw : String) (w v : World R.Store B) (o : Option (List String))
      → Coherent R T w.redis w.db
      → find_active_by_plain_key R K P compute_hmac raw w ≡ (ok o, v)
      → (v.db ≡ w.db) × Coherent R T v.redis v.db
  key_lookup-Coherent raw w v o co e =
      let d : v.db ≡ w.db =
        subst (λ r. r.1.db ≡ w.db) e (find_active_by_plain_key-KeepsDb R K P compute_hmac raw w) in
      let same : (key : String) → R.get (epr key) v.redis ≡ R.get (epr key) w.redis = λ key.
        subst (λ r. R.get (epr key) r.1.redis ≡ R.get (epr key) w.redis) e
          (find_active_by_plain_key-keeps_rules R K P compute_hmac raw key w) in
      (d, record { serves = λ key cs hit. rw d (co.serves key cs (rw (same key) at hit)) })

  -- From a cache of the keys and a cache of the rules that are both coherent with the database
  -- (their entries are those of active keys and of enabled rules), whatever calls fail, the guard
  -- lets a caller through only with a key whose row is active and holds a permission of the
  -- endpoint's enabled rule, if the endpoint has a key and its rule permissions.
  pub api_key_guard-KeyAdmitted :
      (w w' : World R.Store B) (b : Bool)
      → KeysCoherent R K w.redis w.db
      → Coherent R T w.redis w.db
      → api_key_guard R T K P compute_hmac c endpoint request w ≡ (ok b, w')
      → (k : ApiKey) × KeyAdmitted T K compute_hmac endpoint request w.db k × (b ≡ true)
  unfolding api_key_guard
  api_key_guard-KeyAdmitted w w' b co rules h =
      let (raw, v1, e1, h1) =
        >>=-eq-ok (lift (extract_api_key request.api_key))
          (λ raw. find_active_by_plain_key R K P compute_hmac raw >>= λ looked.
            require_codes looked >>= λ held.
            check_endpoint R T "Insufficient API Key permissions" held (truthy endpoint))
          w h in
      let (given, same1) = lift-eq-ok (extract_api_key request.api_key) w v1 raw e1 in
      let (o, v2, e2, h2) =
        >>=-eq-ok (find_active_by_plain_key R K P compute_hmac raw)
          (λ looked. require_codes looked >>= λ held.
            check_endpoint R T "Insufficient API Key permissions" held (truthy endpoint))
          v1 h1 in
      let e2' : find_active_by_plain_key R K P compute_hmac raw w ≡ (ok o, v2) =
        subst (λ u. find_active_by_plain_key R K P compute_hmac raw u ≡ (ok o, v2)) same1 e2 in
      let (k, row, is) = find_active_by_plain_key-active R K P compute_hmac raw w v2 o co e2' in
      let (d2, co2) = key_lookup-Coherent raw w v2 o rules e2' in
      let (held, v3, e3, h3) =
        >>=-eq-ok (require_codes o)
          (λ held. check_endpoint R T "Insufficient API Key permissions" held (truthy endpoint)) v2
          h2 in
      let (some_held, same3) = require_codes-eq-ok o v2 v3 held e3 in
      let co3 : Coherent R T v3.redis v3.db = rw (same3) co2 in
      let (passes, permits, _) =
        check_endpoint-Permits R T "Insufficient API Key permissions" held (truthy endpoint) v3 w' b
          co3 h3 in
      let d3 : v3.db ≡ w.db = ap (λ u. u.db) same3 ∙ d2 in
      let held_is : held ≡ key_codes k = ground (arith, some_held, is) in
      (
        k,
        record {
          raw = raw;
          given = given;
          row = row;
          permitted =
              subst (λ x. Permits T w.db x (truthy endpoint)) held_is
                (subst (λ x. Permits T x held (truthy endpoint)) d3 permits);
        },
        passes,
      )
