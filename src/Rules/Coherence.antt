-- ===== src/Rules/Coherence.antt =====
-- How the cache follows a change of one row: which entries may be stale after each step.
use auth_microservice.Prelude.{
  String, ◌≡◌, refl, ap, ◌∙◌, inl, inr, true, false, Option, none, some, List, [], ◌∷◌, arith, ◌==◌,
  eq_iff, if◌then◌else◌, Bool-cases, Option-cases, includes,
}
use auth_microservice.Redis.{Redis, found, codes, epr, epr_keys, persist}
use auth_microservice.Exec.{World, calm, pure, recover, ok}
use auth_microservice.Rules.{
  load_found, permission_codes, Rule, RuleTable, invalidate_rule_cache, load_rule_to_redis,
}
use auth_microservice.Rules.Reading.{required, Coherent}

-- The cache agrees with the database except perhaps at the listed keys.
pub record CoherentOutside (R : Redis) {B : Type 0} (T : RuleTable B) (keys : List String)
    (s : R.Store) (b : B) : Type 0 where
  pub serves :
      (k : String) (c : List String)
      → includes keys k ≡ false
      → found (R.get (epr k) s) ≡ some (codes c)
      → required (T.find_by_endpoint_key k b) ≡ some c

module _ (R : Redis) where
  -- The stores that the cache operations leave.
  abbrev pub cached_store : String → List String → R.Store → R.Store
  cached_store key cs s = R.s_add epr_keys key (R.set persist (epr key) (codes cs) s)

  abbrev pub dropped_store : String → R.Store → R.Store
  dropped_store key s = R.s_rem epr_keys key (R.del (epr key) s)

  abbrev pub loaded_store : String → Option Rule → R.Store → R.Store
  loaded_store key none s = dropped_store key s
  loaded_store key (some r) s =
      if r.enabled then cached_store key (permission_codes r) s else dropped_store key s

  pub get-cached_store :
      (key k : String) (cs : List String) (s : R.Store)
      → R.get (epr k) (cached_store key cs s)
        ≡ (if key == k then some (codes cs) else R.get (epr k) s)
  get-cached_store key k cs s =
      R.get-s_add epr_keys key (epr k) _ ∙ R.get-set persist (epr key) (epr k) (codes cs) s

  pub get-dropped_store :
      (key k : String) (s : R.Store)
      → R.get (epr k) (dropped_store key s) ≡ (if key == k then none else R.get (epr k) s)
  get-dropped_store key k s = R.get-s_rem epr_keys key (epr k) _ ∙ R.get-del (epr key) (epr k) s

module _ (R : Redis) {B : Type 0} (T : RuleTable B) where
  pub invalidate_rule_cache-calm :
      (key : String) (w : World R.Store B)
      → invalidate_rule_cache R T key (calm w)
        ≡ (ok tt, record (calm w) { redis = dropped_store R key w.redis })
  unfolding invalidate_rule_cache
  invalidate_rule_cache-calm key w = refl

  pub load_found-calm :
      (key : String) (r : Option Rule) (w : World R.Store B)
      → load_found R T key r (calm w)
        ≡ (ok tt, record (calm w) { redis = loaded_store R key r w.redis })
  unfolding load_found
  load_found-calm key none w = refl
  load_found-calm key (some r) w = ground arith

  pub load_rule_to_redis-calm :
      (key : String) (w : World R.Store B)
      → load_rule_to_redis R T key (calm w) ≡ (
        ok tt,
        record (calm w) { redis = loaded_store R key (T.find_by_endpoint_key key w.db) w.redis },
      )
  unfolding load_rule_to_redis
  load_rule_to_redis-calm key w =
      ap (recover (λ e. pure tt)) (load_found-calm key (T.find_by_endpoint_key key w.db) w)

  pub dropped-CoherentOutside :
      (key : String) (keys : List String) (s : R.Store) (b : B)
      → CoherentOutside R T (key ∷ keys) s b
      → CoherentOutside R T keys (dropped_store R key s) b
  dropped-CoherentOutside key keys s b co = record {
    serves = λ k c out hit. ground (arith, get-dropped_store R key k s, co.serves k c, hit, out);
  }

  pub loaded-CoherentOutside :
      (key : String) (keys : List String) (s : R.Store) (b : B)
      → CoherentOutside R T (key ∷ keys) s b
      → CoherentOutside R T keys (loaded_store R key (T.find_by_endpoint_key key b) s) b
  loaded-CoherentOutside key keys s b co = elim (Option-cases (T.find_by_endpoint_key key b)) [
    | inl e ↦ rw e (dropped-CoherentOutside key keys s b co)
    | inr (r, e) ↦ elim (Bool-cases r.enabled) [
      | inl on ↦
          rw (e, on)
            (record {
              serves = λ k c out hit. ground (
                arith,
                get-cached_store R key k (permission_codes r) s,
                co.serves k c,
                hit,
                out,
                e,
                on,
                eq_iff key k,
              );
            })
      | inr off ↦ rw (e, off) (dropped-CoherentOutside key keys s b co)
    ]
  ]

  -- What a saved row changes: its own key name, and the one under which its id stood before.
  pub save-CoherentOutside :
      (r : Rule) (keys : List String) (s : R.Store) (b b' : B)
      → T.save r b ≡ some b'
      → includes keys r.endpoint_key_name ≡ true
      → ((r' : Rule)
          → T.find_one_by_id r.id b ≡ some r'
          → includes keys r'.endpoint_key_name ≡ true)
      → Coherent R T s b
      → CoherentOutside R T keys s b'
  save-CoherentOutside r keys s b b' saved new old co = record {
    serves = λ k c out hit. elim (Option-cases (T.find_by_endpoint_key k b)) [
      | inl e ↦ absurd (ground (arith, e, co.serves k c, hit))
      | inr (r1, e) ↦ ground (
        arith,
        e,
        co.serves k c,
        hit,
        out,
        new,
        T.key-save r k b b' saved,
        T.by_key k r1 b e,
        eq_iff r.endpoint_key_name k,
        eq_iff r1.id r.id,
        old r1,
      )
    ];
  }

  pub remove-CoherentOutside :
      (r : Rule) (s : R.Store) (b : B)
      → T.find_one_by_id r.id b ≡ some r
      → Coherent R T s b
      → CoherentOutside R T (r.endpoint_key_name ∷ []) s (T.remove r b)
  remove-CoherentOutside r s b here co = record {
    serves = λ k c out hit. elim (Option-cases (T.find_by_endpoint_key k b)) [
      | inl e ↦ absurd (ground (arith, e, co.serves k c, hit))
      | inr (r1, e) ↦ ground (
        arith,
        e,
        co.serves k c,
        hit,
        out,
        here,
        T.key-remove r k b,
        T.by_key k r1 b e,
        eq_iff r.endpoint_key_name k,
        eq_iff r1.id r.id,
      )
    ];
  }

  pub Coherent-of_outside_none :
      (s : R.Store) (b : B) → CoherentOutside R T [] s b → Coherent R T s b
  Coherent-of_outside_none s b co = record { serves = λ k c hit. co.serves k c refl hit }
