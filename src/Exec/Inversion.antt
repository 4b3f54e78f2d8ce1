-- ===== src/Exec/Inversion.antt =====
-- Steps that returned, inverted.
use auth_microservice.Prelude.{◌≡◌, sym, ap, ◌∙◌, inl, inr, arith}
use auth_microservice.Exec.{World, Result, lift, on_redis, on_db, ok}
use auth_microservice.Exec.Calls.{SameRequest, on_redis-outcome, on_db-outcome}

module _ {S B : Type 0} where
  pub lifted-eq-ok :
      {A : Type 0} (r : Result A) (w w' : World S B) (a : A)
      → lift r w ≡ (ok a, w')
      → (r ≡ ok a) × (w' ≡ w)
  lifted-eq-ok r w w' a h = (ap (λ x. x.0) h, sym (ap (λ x. x.1) h))

  -- A call to Redis that was answered.
  pub on_redis-eq-ok :
      {A : Type 0} (f : S → A × S) (w w' : World S B) (a : A)
      → on_redis f w ≡ (ok a, w')
      → (a ≡ (f w.redis).0) × (w'.redis ≡ (f w.redis).1) × (w'.db ≡ w.db) × SameRequest w w'
  on_redis-eq-ok f w w' a h = elim (on_redis-outcome f w) [
    | inl (v, e, r, d, same) ↦
        let k : (ok (f w.redis).0, v) ≡ (ok a, w') = sym e ∙ h in
        let same_world : v ≡ w' = ap (λ x. x.1) k in
        (
          ground (arith, ap (λ x. x.0) k),
          rw (← same_world) r,
          rw (← same_world) d,
          rw (← same_world) same,
        )
    | inr (v, e, _, _, _) ↦ absurd (ground (arith, h, e))
  ]

  pub on_db-eq-ok :
      {A : Type 0} (f : B → A × B) (w w' : World S B) (a : A)
      → on_db f w ≡ (ok a, w')
      → (a ≡ (f w.db).0) × (w'.db ≡ (f w.db).1) × (w'.redis ≡ w.redis) × SameRequest w w'
  on_db-eq-ok f w w' a h = elim (on_db-outcome f w) [
    | inl (v, e, d, r, same) ↦
        let k : (ok (f w.db).0, v) ≡ (ok a, w') = sym e ∙ h in
        let same_world : v ≡ w' = ap (λ x. x.1) k in
        (
          ground (arith, ap (λ x. x.0) k),
          rw (← same_world) d,
          rw (← same_world) r,
          rw (← same_world) same,
        )
    | inr (v, e, _, _, _) ↦ absurd (ground (arith, h, e))
  ]
