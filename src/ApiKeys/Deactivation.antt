-- ===== src/ApiKeys/Deactivation.antt =====
-- What deactivating a key guarantees, and the two ways around it: a lookup between the two steps of
-- `deactivate`, and `changePermissions` of a deactivated key.
use auth_microservice.Prelude.{
  String, ◌≡◌, refl, ap, subst, ◌∙◌, inl, inr, true, false, none, some, List, ◌∷◌, arith, ◌==◌,
  eq_refl, if◌then◌else◌, Bool-cases, Option-cases,
}
use auth_microservice.Redis.{Redis, perform_all, api_cache, api_key_fp, api_keys, persist}
use auth_microservice.Exec.{
  World, Result, Delivery, answered, calm, pure, lift, continue, ◌>>◌, >>=-eq-ok, ok,
}
use auth_microservice.Permissions.{
  Permission, PermissionTable, permission_codes_of, find_permissions,
}
use auth_microservice.ApiKeys.{
  ApiKey, key_codes, ApiKeyTable, find_by_fingerprint, cache_of, cache_commands, drop_commands,
  invalidate_api_key_cache, cached_key, backfill, cached_or_row, find_active_by_plain_key,
}
use auth_microservice.ApiKeys.Editing.{
  saving_key, found_key, save_key, deactivate_found, deactivate_key, recache_key,
  change_permissions,
}
use auth_microservice.ApiKeys.Lookup.{find_active_by_plain_key-hit, find_active_by_plain_key-miss}
use auth_microservice.Exec.Calls.{on_redis-outcome, on_db-outcome}

module _ (R : Redis) where
  pub get-cache_commands :
      (k : ApiKey) (f : String) (s : R.Store)
      → R.get (api_key_fp f) (perform_all R (cache_commands k) s)
        ≡ (if k.key_fingerprint == f then some (api_cache (cache_of k)) else R.get (api_key_fp f) s)
  get-cache_commands k f s =
      R.get-s_add api_keys k.key_fingerprint (api_key_fp f) _
      ∙ R.get-set persist (api_key_fp k.key_fingerprint) (api_key_fp f) (api_cache (cache_of k)) s

  pub get-drop_commands :
      (g f : String) (s : R.Store)
      → R.get (api_key_fp f) (perform_all R (drop_commands g) s)
        ≡ (if g == f then none else R.get (api_key_fp f) s)
  get-drop_commands g f s =
      R.get-s_rem api_keys g (api_key_fp f) _ ∙ R.get-del (api_key_fp g) (api_key_fp f) s

module _ (R : Redis) {B : Type 0} (T : ApiKeyTable B) (P : PermissionTable B)
    (compute_hmac : String → String) where
  -- Where nothing is cached for a key and its row is inactive, a lookup turns it down.
  abbrev pub IsShut : String → World R.Store B → Type 0
  IsShut f w = (R.get (api_key_fp f) w.redis ≡ none) × (find_by_fingerprint T f w.db ≡ none)

  save_key-eq-ok :
      (k : ApiKey) (w w' : World R.Store B) (a : ApiKey)
      → save_key R T P compute_hmac k w ≡ (ok a, w')
      → (T.save k w.db ≡ some w'.db) × (w'.redis ≡ w.redis)
  unfolding save_key
  save_key-eq-ok k w w' a h =
      elim (on_db-outcome (λ b. saving_key R T P compute_hmac k (T.save k b) b) w) [
        | inl (v, e, r, d, _) ↦ ground (
          arith,
          subst (λ x. continue lift x ≡ (ok a, w')) e h,
          Option-cases (T.save k w.db),
          r,
          d,
        )
        | inr (v, e, _, _, _) ↦
            absurd (ground (arith, subst (λ x. continue lift x ≡ (ok a, w')) e h))
      ]

  invalidate-eq-ok :
      (k : ApiKey) (w w' : World R.Store B) (u : Unit {0})
      → invalidate_api_key_cache R T P compute_hmac k w ≡ (ok u, w')
      → (w'.redis ≡ perform_all R (drop_commands k.key_fingerprint) w.redis) × (w'.db ≡ w.db)
  unfolding invalidate_api_key_cache
  invalidate-eq-ok k w w' u h =
      let call : R.Store → Unit {0} × R.Store =
        λ s. (tt, perform_all R (drop_commands k.key_fingerprint) s) in
      elim (on_redis-outcome call w) [
        | inl (v, e, r, d, _) ↦ ground (arith, h, e, r, d)
        | inr (v, e, _, _, _) ↦ absurd (ground (arith, h, e))
      ]

  -- If `deactivate` of a key that is there succeeds, whatever the schedule of failing calls was, then no
  -- text is cached under the key's fingerprint and its row is not active, so that the key is shut.
  pub deactivate_found-IsShut :
      (k : ApiKey) (w w' : World R.Store B)
      → deactivate_found R T P compute_hmac k w ≡ (ok tt, w')
      → IsShut k.key_fingerprint w'
  unfolding deactivate_found invalidate_api_key_cache
  deactivate_found-IsShut k w w' h = elim (Bool-cases k.active) [
    | inr off ↦ absurd (ground (arith, off))
    | inl on ↦
        let off = record k { active = false } in
        let (u, v, e, h') =
          >>=-eq-ok (invalidate_api_key_cache R T P compute_hmac off)
            (λ _. save_key R T P compute_hmac off >> pure tt) w (rw on at h) in
        let (a, v', e', h'') = >>=-eq-ok (save_key R T P compute_hmac off) (λ _. pure tt) v h' in
        let (r, d) = invalidate-eq-ok off w v u e in
        let (saved, same) = save_key-eq-ok off v v' a e' in
        ground (
          arith,
          r,
          same,
          h'',
          get-drop_commands R k.key_fingerprint k.key_fingerprint w.redis,
          eq_refl k.key_fingerprint,
          T.fingerprint-save off k.key_fingerprint v.db v'.db saved,
        )
  ]

  -- Changing the permissions of a deactivated key puts the key back into the cache: with every call
  -- answered, a key whose row is inactive is then accepted with the new permissions.
  pub change_permissions-revives :
      (raw id : String) (k : ApiKey) (ids : List String) (ps : List Permission)
      (w : World R.Store B) (b' : B)
      → T.find_one_by_id id w.db ≡ some k
      → k.key_fingerprint ≡ compute_hmac raw
      → k.active ≡ false
      → find_permissions P ids (calm w) ≡ (ok ps, calm w)
      → T.save (record k { permissions = ps }) w.db ≡ some b'
      → let after = (change_permissions R T P compute_hmac id ids (calm w)).1 in
        (find_by_fingerprint T (compute_hmac raw) after.db ≡ none)
        × ((find_active_by_plain_key R T P compute_hmac raw (calm after)).0
            ≡ ok (some (permission_codes_of ps)))
  unfolding change_permissions find_active_by_plain_key recache_key cached_key
  change_permissions-revives raw id k ids ps w b' here is off looked saved =
      rw (here, found_key, looked, saved)
        (
          ground (
            arith,
            T.fingerprint-save (record k { permissions = ps }) (compute_hmac raw) w.db b' saved,
            is,
            eq_refl (compute_hmac raw),
          ),
          ap (λ r. r.0)
              (find_active_by_plain_key-hit R T P compute_hmac raw
                (cache_of (record k { permissions = ps }))
                (record (calm w) {
                  redis =
                      perform_all R (cache_commands (record k { permissions = ps }))
                        (perform_all R (drop_commands k.key_fingerprint) w.redis);
                  db = b';
                })
                (ground (
                  arith,
                  get-cache_commands R (record k { permissions = ps }) (compute_hmac raw)
                      (perform_all R (drop_commands k.key_fingerprint) w.redis),
                  is,
                  eq_refl (compute_hmac raw),
                ))),
        )

  -- `deactivate` of an active key finds the key and drops its cached text before it saves the row:
  -- where its first two calls are answered, what is left of it is the save. If a lookup of the key
  -- is served before the save, and Redis and the database answer, then the lookup puts the text
  -- back: `deactivate` finishes with success, the database then has no active row for the key, and
  -- yet a lookup accepts the key with its old permissions.
  pub deactivate_races_lookup :
      (raw id : String) (k : ApiKey) (w : World R.Store B) (b' : B) (rest : List Delivery)
      → T.find_one_by_id id w.db ≡ some k
      → T.row_by_fingerprint (compute_hmac raw) w.db ≡ some k
      → k.active ≡ true
      → T.save (record k { active = false }) w.db ≡ some b'
      → let dropped = record (calm w) {
        redis = perform_all R (drop_commands k.key_fingerprint) w.redis;
      } in
        let finish : World R.Store B → Result (Unit {0}) × World R.Store B =
          save_key R T P compute_hmac (record k { active = false }) >> pure tt in
        let looked_up = (find_active_by_plain_key R T P compute_hmac raw dropped).1 in
        let done = (finish looked_up).1 in
        (deactivate_key R T P compute_hmac id (record w { schedule = answered ∷ answered ∷ rest })
          ≡ finish (record dropped { schedule = rest }))
        × ((finish looked_up).0 ≡ ok tt)
        × (find_by_fingerprint T (compute_hmac raw) done.db ≡ none)
        × ((find_active_by_plain_key R T P compute_hmac raw done).0 ≡ ok (some (key_codes k)))
  unfolding deactivate_key invalidate_api_key_cache find_active_by_plain_key save_key cached_key
      cached_or_row backfill
  deactivate_races_lookup raw id k w b' rest row here on saved =
      let off = record k { active = false } in
      let f = compute_hmac raw in
      let s0 = perform_all R (drop_commands k.key_fingerprint) w.redis in
      let fp = T.by_fingerprint f k w.db here in
      let miss =
        find_active_by_plain_key-miss R T P compute_hmac raw k (record (calm w) { redis = s0 })
          (ground (arith, get-drop_commands R k.key_fingerprint f w.redis, fp, eq_refl f))
          (rw (here, on) refl) in
      (
        rw (row, found_key, on) refl,
        rw (miss, saved) refl,
        rw (miss, saved) (ground (arith, T.fingerprint-save off f w.db b' saved, fp, eq_refl f)),
        rw (miss, saved)
            (ap (λ r. r.0)
              (find_active_by_plain_key-hit R T P compute_hmac raw (cache_of k)
                (record (calm w) { redis = perform_all R (cache_commands k) s0; db = b' })
                (ground (arith, get-cache_commands R k f s0, fp, eq_refl f)))),
      )
