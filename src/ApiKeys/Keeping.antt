-- ===== src/ApiKeys/Keeping.antt =====
-- Each operation on the keys keeps the cache coherent, while Redis and the database answer.
use auth_microservice.Prelude.{
  String, ◌≡◌, refl, inl, inr, true, false, Option, none, some, List, [], ◌∷◌, arith, Bool-cases,
  Option-cases, In,
}
use auth_microservice.Redis.{Redis, perform_all, api_key_fp}
use auth_microservice.Exec.{World, calm, pure, recover, Result-cases}
use auth_microservice.Permissions.{PermissionTable, find_permissions-calm}
use auth_microservice.ApiKeys.{
  ApiKey, if_active, ApiKeyTable, find_by_fingerprint, cache_of, drop_commands, warm_key_commands,
  load_api_key_to_redis, invalidate_api_key_cache, warm_keys, warm_up_keys,
  find_active_by_plain_key,
}
use auth_microservice.ApiKeys.Editing.{
  found_key, save_key, new_key, insert_key, create_key, deactivate_found, deactivate_key,
  activate_found, activate_key, recache_key, change_permissions,
}
use auth_microservice.ApiKeys.Lookup.{
  KeysCoherent, find_active_by_plain_key-hit, find_active_by_plain_key-miss,
  find_active_by_plain_key-none,
}
use auth_microservice.ApiKeys.Deactivation.{get-drop_commands}
use auth_microservice.ApiKeys.Coherence.{
  cached-KeysCoherent, recached-KeysCoherent, dropped-KeysCoherent, shut-KeysCoherent,
  inserted-KeysCoherent,
}

module _ (R : Redis) {B : Type 0} (T : ApiKeyTable B) (P : PermissionTable B)
    (compute_hmac : String → String) where
  abbrev pub KeysKeep : {A : Type 0} → A × World R.Store B → Type 0
  KeysKeep r = KeysCoherent R T r.1.redis r.1.db

  pub create_key-KeysKeep :
      (client : String) (ids : List String) (raw : String) (w : World R.Store B)
      → KeysCoherent R T w.redis w.db
      → KeysKeep (create_key R T P compute_hmac client ids raw (calm w))
  unfolding create_key insert_key
  create_key-KeysKeep client ids raw w co =
      let (r, e) = find_permissions-calm {S = R.Store} P ids w in
      elim (Result-cases r) [
        | inr (f, e') ↦ rw (e, e') co
        | inl (ps, e') ↦
            let k = new_key R T P compute_hmac (T.new_id w.db) client (compute_hmac raw) ps in
            elim (Option-cases (T.save k w.db)) [
              | inl taken ↦ rw (e, e', taken) co
              | inr (b', saved) ↦
                  rw (e, e', saved)
                    (inserted-KeysCoherent R T k w.redis w.db b' (T.new_id-fresh w.db) saved co)
            ]
      ]

  pub deactivate_key-KeysKeep :
      (id : String) (w : World R.Store B)
      → KeysCoherent R T w.redis w.db
      → KeysKeep (deactivate_key R T P compute_hmac id (calm w))
  unfolding deactivate_key deactivate_found invalidate_api_key_cache save_key
  deactivate_key-KeysKeep id w co = elim (Option-cases (T.find_one_by_id id w.db)) [
    | inl e ↦ rw (e, found_key) co
    | inr (k, e) ↦ elim (Bool-cases k.active) [
      | inr off ↦ rw (e, found_key, off) co
      | inl on ↦
          let k' = record k { active = false } in
          elim (Option-cases (T.save k' w.db)) [
            | inl taken ↦
                rw (e, found_key, on, taken)
                  (dropped-KeysCoherent R T k.key_fingerprint w.redis w.db co)
            | inr (b', saved) ↦
                rw (e, found_key, on, saved)
                  (shut-KeysCoherent R T k' k w.redis w.db b'
                    (ground (arith, e, T.by_id id k w.db e)) refl saved co)
          ]
    ]
  ]

  pub activate_key-KeysKeep :
      (id : String) (w : World R.Store B)
      → KeysCoherent R T w.redis w.db
      → KeysKeep (activate_key R T P compute_hmac id (calm w))
  unfolding activate_key activate_found load_api_key_to_redis save_key
  activate_key-KeysKeep id w co = elim (Option-cases (T.find_one_by_id id w.db)) [
    | inl e ↦ rw (e, found_key) co
    | inr (k, e) ↦ elim (Bool-cases k.active) [
      | inl on ↦ rw (e, found_key, on) co
      | inr off ↦
          let k' = record k { active = true } in
          elim (Option-cases (T.save k' w.db)) [
            | inl taken ↦ rw (e, found_key, off, taken) co
            | inr (b', saved) ↦
                rw (e, found_key, off, saved)
                  (cached-KeysCoherent R T k' k w.redis w.redis w.db b'
                    (ground (arith, e, T.by_id id k w.db e)) refl refl saved (λ f d. refl) co)
          ]
    ]
  ]

  pub change_permissions-KeysKeep :
      (id : String) (ids : List String) (w : World R.Store B)
      → ((k : ApiKey) → T.find_one_by_id id w.db ≡ some k → k.active ≡ true)
      → KeysCoherent R T w.redis w.db
      → KeysKeep (change_permissions R T P compute_hmac id ids (calm w))
  unfolding change_permissions recache_key load_api_key_to_redis invalidate_api_key_cache save_key
  change_permissions-KeysKeep id ids w orderly co = elim (Option-cases (T.find_one_by_id id w.db)) [
    | inl e ↦ rw (e, found_key) co
    | inr (k, e) ↦
        let (r, looked) = find_permissions-calm {S = R.Store} P ids w in
        elim (Result-cases r) [
          | inr (f, e') ↦ rw (e, found_key, looked, e') co
          | inl (ps, e') ↦
              let k' = record k { permissions = ps } in
              elim (Option-cases (T.save k' w.db)) [
                | inl taken ↦ rw (e, found_key, looked, e', taken) co
                | inr (b', saved) ↦
                    rw (e, found_key, looked, e', saved)
                      (cached-KeysCoherent R T k' k w.redis
                        (perform_all R (drop_commands k.key_fingerprint) w.redis) w.db b'
                        (ground (arith, e, T.by_id id k w.db e)) refl (orderly k e) saved
                        (λ f d. ground (arith, get-drop_commands R k.key_fingerprint f w.redis, d))
                        co)
              ]
        ]
  ]

  pub find_active_by_plain_key-KeysKeep :
      (raw : String) (w : World R.Store B)
      → KeysCoherent R T w.redis w.db
      → KeysKeep (find_active_by_plain_key R T P compute_hmac raw (calm w))
  unfolding find_active_by_plain_key
  find_active_by_plain_key-KeysKeep raw w co =
      let f = compute_hmac raw in
      elim (Option-cases (R.get (api_key_fp f) w.redis)) [
        | inr (v, e) ↦
            let (k, here, is) = co.serves f v e in
            rw
              (find_active_by_plain_key-hit R T P compute_hmac raw (cache_of k) w
                (ground (arith, e, is)))
              co
        | inl e ↦ elim (Option-cases (find_by_fingerprint T f w.db)) [
          | inl none_here ↦
              rw (find_active_by_plain_key-none R T P compute_hmac raw w e none_here) co
          | inr (k, here) ↦ rw (find_active_by_plain_key-miss R T P compute_hmac raw k w e here) (
              recached-KeysCoherent R T k w.redis w.db
                (row_active f k (T.row_by_fingerprint f w.db) refl here) co)
        ]
      ]
    where
      row_active :
          (f : String) (k : ApiKey) (r : Option ApiKey)
          → T.row_by_fingerprint f w.db ≡ r
          → if_active r ≡ some k
          → find_by_fingerprint T k.key_fingerprint w.db ≡ some k
      row_active f k none e h = absurd (ground arith)
      row_active f k (some r) e h = elim (Bool-cases r.active) [
        | inl on ↦ ground (arith, e, h, on, T.by_fingerprint f r w.db e)
        | inr off ↦ absurd (ground (arith, h, off))
      ]

  warm_key_commands-KeysCoherent :
      (ks : List ApiKey) (s : R.Store) (b : B)
      → ((k : ApiKey) → In k ks → find_by_fingerprint T k.key_fingerprint b ≡ some k)
      → KeysCoherent R T s b
      → KeysCoherent R T (perform_all R (warm_key_commands ks) s) b
  warm_key_commands-KeysCoherent [] s b all co = co
  warm_key_commands-KeysCoherent (k ∷ ks) s b all co =
      warm_key_commands-KeysCoherent ks _ b (λ k' m. all k' (inr m))
        (recached-KeysCoherent R T k s b (all k (inl refl)) co)

  pub warm_up_keys-KeysKeep :
      (w : World R.Store B)
      → KeysCoherent R T w.redis w.db
      → KeysKeep (warm_up_keys R T P compute_hmac (calm w))
  unfolding warm_up_keys warm_keys
  warm_up_keys-KeysKeep w co =
      go (T.find_all_active w.db) (λ k m. ground (arith, T.all_active k w.db m))
    where
      go :
          (ks : List ApiKey)
          → ((k : ApiKey) → In k ks → find_by_fingerprint T k.key_fingerprint w.db ≡ some k)
          → KeysKeep
              (recover {A = Unit {0}} (λ e. pure tt) (warm_keys R T P compute_hmac ks (calm w)))
      go [] all = co
      go (k ∷ ks) all = warm_key_commands-KeysCoherent (k ∷ ks) w.redis w.db all co
