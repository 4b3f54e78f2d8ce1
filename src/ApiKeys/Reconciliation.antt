-- ===== src/ApiKeys/Reconciliation.antt =====
-- src/cron/api-keys-cache-reconciliation.service.ts: the hourly job that takes the keys out of the
-- cache that are not active in the database.
use auth_microservice.Prelude.{
  String, ◌≡◌, refl, inl, inr, true, not, ◌&&◌, none, some, List, [], ◌∷◌, ◌++◌, arith, eq_iff,
  if◌then◌else◌, Option-cases, includes,
}
use auth_microservice.Redis.{Value, Redis, Queued, perform_all, api_key_fp, api_keys}
use auth_microservice.Exec.{World, calm, Exec, pure, attempt, on_redis, on_db, ◌>>=◌, ok}
use auth_microservice.ApiKeys.{is_live, ApiKeyTable, drop_commands}
use auth_microservice.ApiKeys.Deactivation.{get-drop_commands}

-- `staleFingerprints`.
abbrev pub stale_fingerprints : (active : List String) → List String → List String
stale_fingerprints active [] = []
stale_fingerprints active (f ∷ fs) =
    let rest = stale_fingerprints active fs in if not (includes active f) then f ∷ rest else rest

abbrev pub drop_all : List String → List Queued
drop_all [] = []
drop_all (f ∷ fs) = drop_commands f ++ drop_all fs

module _ (R : Redis) {B : Type 0} (T : ApiKeyTable B) where
  drop_stale : List String → Exec R.Store B (Unit {0})
  unfolding on_redis
  drop_stale [] = pure tt
  drop_stale (f ∷ fs) = on_redis (λ s. (tt, perform_all R (drop_all (f ∷ fs)) s))

  -- `deleteStaleKeys` behind `sMembers`.
  drop_inactive : List String → Exec R.Store B (Unit {0})
  unfolding on_db drop_stale
  drop_inactive [] = pure tt
  drop_inactive (f ∷ fs) = on_db (λ b. (T.active_among (f ∷ fs) b, b)) >>= λ active.
      drop_stale (stale_fingerprints active (f ∷ fs))

  unfoldable pub delete_stale_fingerprints : Exec R.Store B (Unit {0})
  unfolding on_redis drop_inactive
  delete_stale_fingerprints = on_redis (λ s. (R.s_members api_keys s, s)) >>= drop_inactive

  unfoldable pub reconcile_api_keys : Exec R.Store B (Unit {0})
  unfolding delete_stale_fingerprints
  reconcile_api_keys = attempt delete_stale_fingerprints (λ e. pure tt)

  includes-stale_fingerprints :
      (active fs : List String) (f : String)
      → includes (stale_fingerprints active fs) f ≡ (includes fs f && not (includes active f))
  includes-stale_fingerprints active [] f = refl
  includes-stale_fingerprints active (x ∷ xs) f =
      ground (arith, includes-stale_fingerprints active xs f, eq_iff x f)

  get-drop_all :
      (fs : List String) (f : String) (s : R.Store)
      → R.get (api_key_fp f) (perform_all R (drop_all fs) s)
        ≡ (if includes fs f then none else R.get (api_key_fp f) s)
  get-drop_all [] f s = refl
  get-drop_all (x ∷ xs) f s =
      ground
        (arith, get-drop_all xs f (perform_all R (drop_commands x) s), get-drop_commands R x f s)

  drop_stale-calm :
      (fs : List String) (w : World R.Store B)
      → drop_stale fs (calm w)
        ≡ (ok tt, record (calm w) { redis = perform_all R (drop_all fs) w.redis })
  unfolding drop_stale
  drop_stale-calm [] w = refl
  drop_stale-calm (f ∷ fs) w = refl

  drop_inactive-calm :
      (fs : List String) (w : World R.Store B)
      → drop_inactive fs (calm w) ≡ (
        ok tt,
        record (calm w) {
          redis = perform_all R (drop_all (stale_fingerprints (T.active_among fs w.db) fs)) w.redis;
        },
      )
  unfolding drop_inactive
  drop_inactive-calm [] w = refl
  drop_inactive-calm (f ∷ fs) w =
      drop_stale-calm (stale_fingerprints (T.active_among (f ∷ fs) w.db) (f ∷ fs)) w

  -- With every call answered, and if each cached key is listed in the
  -- set of fingerprints, no key is cached after the job whose row is missing or inactive, and
  -- those of active rows are as they were.
  pub reconcile_api_keys-live :
      (w : World R.Store B)
      → ((f : String) (v : Value)
          → R.get (api_key_fp f) w.redis ≡ some v
          → includes (R.s_members api_keys w.redis) f ≡ true)
      → let after = (reconcile_api_keys (calm w)).1 in
        (after.db ≡ w.db)
        × ((f : String)
            → R.get (api_key_fp f) after.redis ≡ (
                if is_live (T.row_by_fingerprint f w.db)
                then R.get (api_key_fp f) w.redis
                else none))
  unfolding reconcile_api_keys delete_stale_fingerprints drop_inactive drop_stale
  reconcile_api_keys-live w listed =
      let fs = R.s_members api_keys w.redis in
      rw (drop_inactive-calm fs w) (
        refl,
        λ f. elim (Option-cases (R.get (api_key_fp f) w.redis)) [
          | inl e ↦
              ground
                (arith, e, get-drop_all (stale_fingerprints (T.active_among fs w.db) fs) f w.redis)
          | inr (v, e) ↦ ground (
            arith,
            get-drop_all (stale_fingerprints (T.active_among fs w.db) fs) f w.redis,
            includes-stale_fingerprints (T.active_among fs w.db) fs f,
            T.among fs f w.db,
            listed f v e,
          )
        ],
      )
