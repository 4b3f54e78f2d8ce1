-- ===== src/ApiKeys/Lookup.antt =====
-- Looking a key up through the cache against looking it up in the database.
use auth_microservice.Prelude.{
  ap, String, ◌≡◌, refl, subst, ◌⊎◌, inl, inr, Option, none, some, List, arith, Option-cases,
}
use auth_microservice.Redis.{Value, Redis, found, perform_all, api_cache, api_key_fp}
use auth_microservice.Exec.{
  World, calm, Result, raise, recover, on_redis, on_db, continue, ◌>>=◌, Result-cases,
  attempt-eq-ok, ok, err,
}
use auth_microservice.Exec.Calls.{on_redis-outcome, on_db-outcome}
use auth_microservice.Permissions.{PermissionTable}
use auth_microservice.ApiKeys.{
  ApiCache, ApiKey, key_codes, ApiKeyTable, find_by_fingerprint, invalid_api_key, lookup_failed,
  cache_of, read_cache, cache_commands, cached_key, backfill, cached_or_row,
  find_active_by_plain_key,
}

-- What the service promises to answer for a fingerprint whose active row is the given one.
abbrev pub key_answer : Option ApiKey → Result (Option (List String))
key_answer none = err (lookup_failed invalid_api_key)
key_answer (some k) = ok (some (key_codes k))

-- Every text cached under a key's fingerprint is what the key's active row gives.
pub record KeysCoherent (R : Redis) {B : Type 0} (T : ApiKeyTable B) (s : R.Store) (b : B)
    : Type 0 where
  pub serves :
      (f : String) (v : Value)
      → R.get (api_key_fp f) s ≡ some v
      → (k : ApiKey) × (find_by_fingerprint T f b ≡ some k) × (v ≡ api_cache (cache_of k))

module _ (R : Redis) {B : Type 0} (T : ApiKeyTable B) (P : PermissionTable B)
    (compute_hmac : String → String) where
  -- What the cache said: nothing, or the codes of the active row.
  abbrev KeySaid : String → B → Option (Option (List String)) → Type 0
  KeySaid f b o =
      (o ≡ none)
      ⊎ ((k : ApiKey) × (find_by_fingerprint T f b ≡ some k) × (o ≡ some (some (key_codes k))))

  read_cache-KeySaid :
      (f : String) (s : R.Store) (b : B) (x : Option Value)
      → R.get (api_key_fp f) s ≡ x
      → KeysCoherent R T s b
      → (o : Option (Option (List String))) × (read_cache (found x) ≡ ok o) × KeySaid f b o
  read_cache-KeySaid f s b none e co = (none, refl, inl refl)
  read_cache-KeySaid f s b (some v) e co =
      let (k, here, is) = co.serves f v e in
      (some (some (key_codes k)), ap (λ u. read_cache (found (some u))) is, inr (k, here, refl))

  -- Reading the cache never fails, and leaves Redis and the database alone.
  cached_key-KeySaid :
      (f : String) (w : World R.Store B)
      → KeysCoherent R T w.redis w.db
      → (o : Option (Option (List String))) × (v : World R.Store B) × (cached_key R T P compute_hmac
            f w
          ≡ (ok o, v))
        × KeySaid f w.db o
        × (v.db ≡ w.db)
        × (v.redis ≡ w.redis)
  unfolding cached_key
  cached_key-KeySaid f w co = elim (on_redis-outcome (λ s. (found (R.get (api_key_fp f) s), s)) w) [
    | inl (v, e, r, d, _) ↦
        let (o, e', said) =
          read_cache-KeySaid f w.redis w.db (R.get (api_key_fp f) w.redis) refl co in
        (o, v, rw (e, e') refl, said, d, r)
    | inr (v, e, inl r, d, _) ↦ (none, v, ground (arith, e), inl refl, d, r)
    | inr (v, e, inr r, d, _) ↦ (none, v, ground (arith, e), inl refl, d, r)
  ]

  backfill-eq-ok :
      (r : Option ApiKey) (w w' : World R.Store B) (o : Option (List String))
      → backfill R T P compute_hmac r w ≡ (ok o, w')
      → (k : ApiKey) × (r ≡ some k) × (o ≡ some (key_codes k))
  unfolding backfill
  backfill-eq-ok none w w' o h = absurd (ground arith)
  backfill-eq-ok (some k) w w' o h = (
    k,
    refl,
    ground (
      arith,
      Result-cases (on_redis {A = Unit {0}} (λ s. (tt, perform_all R (cache_commands k) s)) w).0,
    ),
  )

  row-eq-ok :
      (f : String) (w w' : World R.Store B) (o : Option (List String))
      → cached_or_row R T P compute_hmac f none w ≡ (ok o, w')
      → (k : ApiKey) × (find_by_fingerprint T f w.db ≡ some k) × (o ≡ some (key_codes k))
  unfolding cached_or_row
  row-eq-ok f w w' o h =
      let k =
        attempt-eq-ok (on_db (λ b. (find_by_fingerprint T f b, b)) >>= backfill R T P compute_hmac)
          lookup_failed w h in
      elim (on_db-outcome (λ b. (find_by_fingerprint T f b, b)) w) [
        | inl (v, e, _, _, _) ↦
            backfill-eq-ok (find_by_fingerprint T f w.db) v w' o
              (subst (λ r. continue (backfill R T P compute_hmac) r ≡ (ok o, w')) e k)
        | inr (v, e, _, _, _) ↦
            absurd (
              ground
                (arith, subst (λ r. continue (backfill R T P compute_hmac) r ≡ (ok o, w')) e k))
      ]

  -- A cached text answers a lookup whatever the database says.
  pub find_active_by_plain_key-hit :
      (raw : String) (c : ApiCache) (w : World R.Store B)
      → R.get (api_key_fp (compute_hmac raw)) w.redis ≡ some (api_cache c)
      → find_active_by_plain_key R T P compute_hmac raw (calm w)
        ≡ (ok (some c.permission_codes), calm w)
  unfolding find_active_by_plain_key cached_key cached_or_row
  find_active_by_plain_key-hit raw c w hit = rw hit refl

  -- With nothing cached, an active row answers and is put back into the cache.
  pub find_active_by_plain_key-miss :
      (raw : String) (k : ApiKey) (w : World R.Store B)
      → R.get (api_key_fp (compute_hmac raw)) w.redis ≡ none
      → find_by_fingerprint T (compute_hmac raw) w.db ≡ some k
      → find_active_by_plain_key R T P compute_hmac raw (calm w) ≡ (
        ok (some (key_codes k)),
        record (calm w) { redis = perform_all R (cache_commands k) w.redis },
      )
  unfolding find_active_by_plain_key cached_key cached_or_row backfill
  find_active_by_plain_key-miss raw k w miss here = rw (miss, here) refl

  pub find_active_by_plain_key-none :
      (raw : String) (w : World R.Store B)
      → R.get (api_key_fp (compute_hmac raw)) w.redis ≡ none
      → find_by_fingerprint T (compute_hmac raw) w.db ≡ none
      → find_active_by_plain_key R T P compute_hmac raw (calm w)
        ≡ (err (lookup_failed invalid_api_key), calm w)
  unfolding find_active_by_plain_key cached_key cached_or_row backfill
  find_active_by_plain_key-none raw w miss missing = rw (miss, missing) refl

  -- From a cache of the keys that is coherent with the database (every entry that it holds under a
  -- fingerprint is that of an active row of the database with that fingerprint), whatever calls
  -- fail, a key is accepted only if its fingerprint belongs to an active row of the database, and
  -- then with that row's permission codes.
  pub find_active_by_plain_key-active :
      (raw : String) (w w' : World R.Store B) (o : Option (List String))
      → KeysCoherent R T w.redis w.db
      → find_active_by_plain_key R T P compute_hmac raw w ≡ (ok o, w')
      → (k : ApiKey) × (find_by_fingerprint T (compute_hmac raw) w.db ≡ some k)
        × (o ≡ some (key_codes k))
  unfolding find_active_by_plain_key cached_or_row
  find_active_by_plain_key-active raw w w' o co h =
      let f = compute_hmac raw in
      let (c, v, e, said, d, _) = cached_key-KeySaid f w co in
      let k : cached_or_row R T P compute_hmac f c v ≡ (ok o, w') =
        subst (λ r. continue (cached_or_row R T P compute_hmac f) r ≡ (ok o, w')) e h in
      elim said [
        | inl nothing ↦
            subst
              (λ b. (k : ApiKey) × (find_by_fingerprint T f b ≡ some k) × (o ≡ some (key_codes k)))
              d (row-eq-ok f v w' o (rw nothing at k))
        | inr (key, here, cached) ↦ (key, here, ground (arith, k, cached))
      ]

  -- While Redis and the database answer, looking a key up through the cache is looking it up in the
  -- database: the codes of an active row, and one refusal with status 404 elsewhere.
  pub find_active_by_plain_key-answer :
      (raw : String) (w : World R.Store B)
      → KeysCoherent R T w.redis w.db
      → (find_active_by_plain_key R T P compute_hmac raw (calm w)).0
        ≡ key_answer (find_by_fingerprint T (compute_hmac raw) w.db)
  unfolding find_active_by_plain_key cached_key cached_or_row backfill
  find_active_by_plain_key-answer raw w co =
      let f = compute_hmac raw in
      elim (Option-cases (R.get (api_key_fp f) w.redis)) [
        | inl e ↦ rw e (row (find_by_fingerprint T f w.db))
        | inr (v, e) ↦ let (k, here, is) = co.serves f v e in rw (e, is, here) refl
      ]
    where
      row :
          (r : Option ApiKey)
          → (recover (λ e. raise (lookup_failed e)) (backfill R T P compute_hmac r (calm w))).0
            ≡ key_answer r
      row none = refl
      row (some k) = refl
