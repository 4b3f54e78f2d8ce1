-- ===== src/Rules/Following.antt =====
-- While Redis and the database answer, the cache follows every change of the rules.
use auth_microservice.Prelude.{
  List, String, ◌≡◌, refl, inl, inr, true, false, some, [], ◌∷◌, arith, eq_refl, Bool-cases,
  Option-cases,
}
use auth_microservice.Redis.{Redis}
use auth_microservice.Exec.{
  ◌>>◌, err, ok, raise, pure, continue, recover, on_db, Result, World, calm, Exec, ◌>>=◌,
}
use auth_microservice.Permissions.{
  find_permissions-calm, Permission, find_permissions, PermissionTable,
}
use auth_microservice.Rules.{invalidate_rule_cache, Failure, Rule, RuleTable, load_rule_to_redis}
use auth_microservice.Rules.Reading.{Coherent}
use auth_microservice.Rules.Coherence.{
  remove-CoherentOutside, loaded_store, load_rule_to_redis-calm, dropped-CoherentOutside,
  loaded-CoherentOutside, save-CoherentOutside, Coherent-of_outside_none,
}
use auth_microservice.Rules.Editing.{
  save_loaded, new_rule, assign_permissions, create, delete, found_rule, disable, enable, find_rule,
  enable_rule, disable_rule,
}

module _ (R : Redis) {B : Type 0} (T : RuleTable B) (P : PermissionTable B) where
  -- The world after a request keeps the cache coherent.
  abbrev pub Keeps : {A : Type 0} → A × World R.Store B → Type 0
  Keeps r = Coherent R T r.1.redis r.1.db

  -- A row saved in place of one with the same key name, and that name loaded again.
  resave-Coherent :
      (r r0 : Rule) (s : R.Store) (b b' : B)
      → T.find_one_by_id r.id b ≡ some r0
      → r.endpoint_key_name ≡ r0.endpoint_key_name
      → T.save r b ≡ some b'
      → Coherent R T s b
      → Coherent R T
          (loaded_store R r.endpoint_key_name (T.find_by_endpoint_key r.endpoint_key_name b') s)
          b'
  resave-Coherent r r0 s b b' here same saved co = Coherent-of_outside_none R T _ b' (
      loaded-CoherentOutside R T r.endpoint_key_name [] s b' (
        save-CoherentOutside R T r (r.endpoint_key_name ∷ []) s b b' saved
          (ground (arith, eq_refl r.endpoint_key_name))
          (λ r' e. ground (arith, here, same, e, eq_refl r.endpoint_key_name)) co))

  pub load-Keeps :
      (key : String) (w : World R.Store B)
      → Coherent R T (loaded_store R key (T.find_by_endpoint_key key w.db) w.redis) w.db
      → Keeps (load_rule_to_redis R T key (calm w))
  load-Keeps key w co = rw (load_rule_to_redis-calm R T key w) co

  enable-Keeps :
      (r : Rule) (w : World R.Store B)
      → T.find_one_by_id r.id w.db ≡ some r
      → Coherent R T w.redis w.db
      → Keeps (enable R T P r (calm w))
  unfolding enable
  enable-Keeps r w here co = elim (Bool-cases r.enabled) [
    | inl on ↦ rw on co
    | inr off ↦ elim (Option-cases (T.save (record r { enabled = true }) w.db)) [
      | inl taken ↦ rw (off, taken) co
      | inr (b', saved) ↦
          rw (off, saved)
            (load-Keeps r.endpoint_key_name (record w { db = b' })
              (resave-Coherent (record r { enabled = true }) r w.redis w.db b' here refl saved co))
    ]
  ]

  disable-Keeps :
      (r : Rule) (w : World R.Store B)
      → T.find_one_by_id r.id w.db ≡ some r
      → Coherent R T w.redis w.db
      → Keeps (disable R T P r (calm w))
  unfolding disable
  disable-Keeps r w here co = elim (Bool-cases r.enabled) [
    | inr off ↦ rw off co
    | inl on ↦ elim (Option-cases (T.save (record r { enabled = false }) w.db)) [
      | inl taken ↦ rw (on, taken) co
      | inr (b', saved) ↦
          rw (on, saved)
            (Coherent-of_outside_none R T _ b' (
              dropped-CoherentOutside R T r.endpoint_key_name [] w.redis b' (
                save-CoherentOutside R T (record r { enabled = false }) (r.endpoint_key_name ∷ [])
                  w.redis w.db b' saved (ground (arith, eq_refl r.endpoint_key_name))
                  (λ r' e. ground (arith, here, e, eq_refl r.endpoint_key_name)) co)))
    ]
  ]

  -- A step that starts by looking a rule up.
  pub find_rule-Keeps :
      {A : Type 0} (f : Rule → Exec R.Store B A) (id : String) (w : World R.Store B)
      → Coherent R T w.redis w.db
      → ((r : Rule) → T.find_one_by_id r.id w.db ≡ some r → Keeps (f r (calm w)))
      → Keeps ((find_rule R T P id >>= f) (calm w))
  unfolding find_rule
  find_rule-Keeps f id w co keep = elim (Option-cases (T.find_one_by_id id w.db)) [
    | inl e ↦ rw (e, found_rule) co
    | inr (r, e) ↦ rw (e, found_rule) (keep r (ground (arith, e, T.by_id id r w.db e)))
  ]

  pub enable_rule-Keeps :
      (id : String) (w : World R.Store B)
      → Coherent R T w.redis w.db
      → Keeps (enable_rule R T P id (calm w))
  unfolding enable_rule
  enable_rule-Keeps id w co =
      find_rule-Keeps (enable R T P) id w co (λ r here. enable-Keeps r w here co)

  pub disable_rule-Keeps :
      (id : String) (w : World R.Store B)
      → Coherent R T w.redis w.db
      → Keeps (disable_rule R T P id (calm w))
  unfolding disable_rule
  disable_rule-Keeps id w co =
      find_rule-Keeps (disable R T P) id w co (λ r here. disable-Keeps r w here co)

  pub recover-Keeps :
      {A : Type 0} (g : Failure → Failure) (r : Result A × World R.Store B)
      → Keeps r
      → Keeps (recover (λ e. raise (g e)) r)
  recover-Keeps g (ok a, w) co = co
  recover-Keeps g (err e, w) co = co

  pub continue-Keeps :
      {A C : Type 0} (c : C) (r : Result A × World R.Store B)
      → Keeps r
      → Keeps (continue (λ _. pure c) r)
  continue-Keeps c (ok a, w) co = co
  continue-Keeps c (err e, w) co = co

  pub create-Keeps :
      (key : String) (w : World R.Store B)
      → Coherent R T w.redis w.db
      → Keeps (create R T P key (calm w))
  unfolding create
  create-Keeps key w co =
      let r = new_rule (T.new_id w.db) key in
      elim (Option-cases (T.save r w.db)) [
        | inl taken ↦ rw taken co
        | inr (b', saved) ↦ rw saved (
            recover-Keeps _ _ (
              continue-Keeps r (load_rule_to_redis R T key (calm (record w { db = b' }))) (
                load-Keeps key (record w { db = b' })
                  (Coherent-of_outside_none R T _ b' (
                    loaded-CoherentOutside R T key [] w.redis b' (
                      save-CoherentOutside R T r (key ∷ []) w.redis w.db b' saved
                        (ground (arith, eq_refl key))
                        (λ r' e. absurd (ground (arith, e, T.new_id-fresh w.db))) co))))))
      ]

  pub delete-Keeps :
      (id : String) (w : World R.Store B)
      → Coherent R T w.redis w.db
      → Keeps (delete R T P id (calm w))
  unfolding delete
  delete-Keeps id w co = recover-Keeps _ _ (
      find_rule-Keeps
        (λ rule.
          on_db (λ b. (tt, T.remove rule b)) >> invalidate_rule_cache R T rule.endpoint_key_name)
        id w co
        (λ r here. Coherent-of_outside_none R T _ _ (
          dropped-CoherentOutside R T r.endpoint_key_name [] w.redis (T.remove r w.db)
            (remove-CoherentOutside R T r w.redis w.db here co))))

  save_loaded-Keeps :
      (r r0 : Rule) (w : World R.Store B)
      → T.find_one_by_id r.id w.db ≡ some r0
      → r.endpoint_key_name ≡ r0.endpoint_key_name
      → Coherent R T w.redis w.db
      → Keeps (save_loaded R T P r (calm w))
  unfolding save_loaded
  save_loaded-Keeps r r0 w here same co = elim (Option-cases (T.save r w.db)) [
    | inl taken ↦ rw taken co
    | inr (b', saved) ↦ rw saved (
        continue-Keeps r (load_rule_to_redis R T r.endpoint_key_name (calm (record w { db = b' })))
          (load-Keeps r.endpoint_key_name (record w { db = b' })
            (resave-Coherent r r0 w.redis w.db b' here same saved co)))
  ]

  assign_found-Keeps :
      (rule : Rule) (found : Result (List Permission)) (w : World R.Store B)
      → T.find_one_by_id rule.id w.db ≡ some rule
      → Coherent R T w.redis w.db
      → Keeps
          (continue (λ ps. save_loaded R T P (record rule { permissions = ps })) (found, calm w))
  assign_found-Keeps rule (ok ps) w here co =
      save_loaded-Keeps (record rule { permissions = ps }) rule w here refl co
  assign_found-Keeps rule (err e) w here co = co

  pub assign_permissions-Keeps :
      (id : String) (ids : List String) (w : World R.Store B)
      → Coherent R T w.redis w.db
      → Keeps (assign_permissions R T P id ids (calm w))
  unfolding assign_permissions
  assign_permissions-Keeps id ids w co = recover-Keeps _ _ (
      find_rule-Keeps
        (λ rule.
          find_permissions P ids >>= λ ps. save_loaded R T P (record rule { permissions = ps }))
        id w co
        (λ r here.
          let (result, e) = find_permissions-calm P ids w in
          rw e (assign_found-Keeps r result w here co)))
