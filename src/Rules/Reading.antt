-- ===== src/Rules/Reading.antt =====
-- Reading an endpoint's permissions through the cache against reading them from the database.
use auth_microservice.Prelude.{
  String, ◌≡◌, refl, subst, ◌⊎◌, inl, inr, Option, none, some, List, arith, if◌then◌else◌,
}
use auth_microservice.Redis.{Value, Redis, found, codes, epr}
use auth_microservice.Exec.{
  continue, World, calm, Result, pure, lift, attempt, Result-cases, ok, err,
}
use auth_microservice.Exec.Calls.{on_redis-outcome, on_db-outcome}
use auth_microservice.Rules.{
  cache_rule, cached_or_database, from_database, cached_codes, permission_codes, Rule, RuleTable,
  rule_not_defined, rule_disabled, read_codes, get_permissions_for_endpoint,
}

-- The permissions that an enabled rule asks for.
abbrev pub required : Option Rule → Option (List String)
required none = none
required (some r) = if r.enabled then some (permission_codes r) else none

-- What the service promises to answer for an endpoint whose rule in the database is the given one.
abbrev pub answer : Option Rule → Result (List String)
answer none = err rule_not_defined
answer (some r) = if r.enabled then ok (permission_codes r) else err rule_disabled

-- The codes in the cache are those of an enabled rule.
pub record Coherent (R : Redis) {B : Type 0} (T : RuleTable B) (s : R.Store) (b : B) : Type 0 where
  pub serves :
      (k : String) (c : List String)
      → found (R.get (epr k) s) ≡ some (codes c)
      → required (T.find_by_endpoint_key k b) ≡ some c

read_codes-eq-some :
    (o : Option Value) (c : List String) → read_codes o ≡ ok (some c) → o ≡ some (codes c)
read_codes-eq-some none c h = absurd (ground arith)
read_codes-eq-some (some (codes d)) c h = ground arith
read_codes-eq-some (some _) c h = absurd (ground arith)

pub required-answer : (r : Option Rule) (c : List String) → required r ≡ some c → ok c ≡ answer r
required-answer none c h = absurd (ground arith)
required-answer (some r) c h = ground arith

module _ (R : Redis) {B : Type 0} (T : RuleTable B) where
  -- What the cache said: nothing, or the codes that are stored.
  abbrev Said : String → R.Store → Option (List String) → Type 0
  Said key s o =
      (o ≡ none) ⊎ ((c : List String) × (o ≡ some c) × (found (R.get (epr key) s) ≡ some (codes c)))

  parse_outcome :
      (key : String) (s : R.Store) (r : Result (Option (List String)))
      → read_codes (found (R.get (epr key) s)) ≡ r
      → (v : World R.Store B)
      → (o : Option (List String)) × (attempt (lift r) (λ e. pure none) v ≡ (ok o, v))
        × Said key s o
  parse_outcome key s (ok none) e v = (none, refl, inl refl)
  parse_outcome key s (ok (some c)) e v = (some c, refl, inr (c, refl, read_codes-eq-some _ c e))
  parse_outcome key s (err f) e v = (none, refl, inl refl)

  -- Reading the cache never fails, and leaves Redis and the database alone.
  cached_codes-Said :
      (key : String) (w : World R.Store B)
      → (o : Option (List String)) × (v : World R.Store B) × (cached_codes R T key w ≡ (ok o, v))
        × Said key w.redis o
        × (v.db ≡ w.db)
        × (v.redis ≡ w.redis)
  unfolding cached_codes
  cached_codes-Said key w = elim (on_redis-outcome (λ s. (found (R.get (epr key) s), s)) w) [
    | inl (v, e, r, d, _) ↦
        let (o, e', said) =
          parse_outcome key w.redis (read_codes (found (R.get (epr key) w.redis))) refl v in
        (o, v, rw e e', said, d, r)
    | inr (v, e, inl r, d, _) ↦ (none, v, ground (arith, e), inl refl, d, r)
    | inr (v, e, inr r, d, _) ↦ (none, v, ground (arith, e), inl refl, d, r)
  ]

  from_database-required :
      (key : String) (r : Option Rule) (w w' : World R.Store B) (c : List String)
      → from_database R T key r w ≡ (ok c, w')
      → required r ≡ some c
  unfolding from_database
  from_database-required key none w w' c h = absurd (ground arith)
  from_database-required key (some r) w w' c h =
      ground (arith, Result-cases ((cache_rule R T key (permission_codes r) w).0))

  database-required :
      (key : String) (w w' : World R.Store B) (c : List String)
      → cached_or_database R T key none w ≡ (ok c, w')
      → required (T.find_by_endpoint_key key w.db) ≡ some c
  unfolding cached_or_database
  database-required key w w' c h = elim (on_db-outcome (λ b. (T.find_by_endpoint_key key b, b)) w) [
    | inl (v, e, _, _, _) ↦
        from_database-required key (T.find_by_endpoint_key key w.db) v w' c
          (subst (λ r. continue (from_database R T key) r ≡ (ok c, w')) e h)
    | inr (v, e, _, _, _) ↦
        absurd (ground (arith, subst (λ r. continue (from_database R T key) r ≡ (ok c, w')) e h))
  ]

  -- From a cache that is coherent with the database (every list of codes that it holds under an
  -- endpoint key is that of an enabled rule of the database for that key), whatever calls fail, an
  -- endpoint's permissions are answered only if its rule is in the database and enabled, and then
  -- they are that rule's. So from such a cache they are never answered for an endpoint with no
  -- rule or with a disabled one.
  pub get_permissions_for_endpoint-required :
      (key : String) (w w' : World R.Store B) (c : List String)
      → Coherent R T w.redis w.db
      → get_permissions_for_endpoint R T key w ≡ (ok c, w')
      → required (T.find_by_endpoint_key key w.db) ≡ some c
  unfolding get_permissions_for_endpoint
  get_permissions_for_endpoint-required key w w' c co h =
      let (o, v, e, said, d, _) = cached_codes-Said key w in
      let k : cached_or_database R T key o v ≡ (ok c, w') =
        subst (λ r. continue (cached_or_database R T key) r ≡ (ok c, w')) e h in
      elim said [
        | inl nothing ↦
            subst (λ b. required (T.find_by_endpoint_key key b) ≡ some c) d
              (database-required key v w' c (rw nothing at k))
        | inr (x, cached, stored) ↦ co.serves key c (ground (arith, k, cached, stored))
      ]

  from_database-answer :
      (key : String) (r : Option Rule) (w : World R.Store B)
      → (from_database R T key r (calm w)).0 ≡ answer r
  unfolding from_database
  from_database-answer key none w = refl
  from_database-answer key (some r) w = ground arith

  -- While Redis and the database answer, reading through the cache is reading the database: the
  -- permissions of an enabled rule, and one of two refusals with status 404 elsewhere.
  pub get_permissions_for_endpoint-answer :
      (key : String) (w : World R.Store B)
      → Coherent R T w.redis w.db
      → (get_permissions_for_endpoint R T key (calm w)).0 ≡ answer (T.find_by_endpoint_key key w.db)
  unfolding get_permissions_for_endpoint
  get_permissions_for_endpoint-answer key w co =
      elim (Result-cases (read_codes (found (R.get (epr key) w.redis)))) [
        | inl (none, e) ↦ rw e (from_database-answer key (T.find_by_endpoint_key key w.db) w)
        | inl (some c, e) ↦ rw e (
            required-answer (T.find_by_endpoint_key key w.db) c
              (co.serves key c (read_codes-eq-some _ c e)))
        | inr (f, e) ↦ rw e (from_database-answer key (T.find_by_endpoint_key key w.db) w)
      ]
