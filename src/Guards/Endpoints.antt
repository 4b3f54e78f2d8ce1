-- ===== src/Guards/Endpoints.antt =====
-- What an endpoint asks of its caller, against the check that the guards make.
use auth_microservice.Prelude.{
  String, ◌≡◌, refl, sym, ap, subst, ◌∙◌, ◌⊎◌, inl, inr, Bool, true, Option, none, some, List, [],
  ◌∷◌, arith, ◌==◌, eq_iff, Bool-cases, any, In, includes,
}
use auth_microservice.Redis.{Redis}
use auth_microservice.Exec.{World, calm, Result, continue, >>=-eq-ok, ok, err}
use auth_microservice.Rules.{RuleTable, get_permissions_for_endpoint}
use auth_microservice.Rules.Context.{get_permissions_for_endpoint-KeepsUser}
use auth_microservice.Rules.Reading.{
  required-answer, required, Coherent, get_permissions_for_endpoint-required,
  get_permissions_for_endpoint-answer,
}
use auth_microservice.Guards.{check_permissions, check_endpoint}

-- The caller holds one of the permissions.
abbrev pub Shares : (held wanted : List String) → Type 0
Shares held wanted = (p : String) × In p wanted × In p held

-- An endpoint without a key asks for nothing. One with a key asks for an enabled rule in the database,
-- and for one of its permissions if it has any.
abbrev pub Permits : {B : Type 0} → RuleTable B → B → (held : List String) → Option String → Type 0
Permits T b held none = Unit
Permits T b held (some key) =
    (wanted : List String) × (required (T.find_by_endpoint_key key b) ≡ some wanted)
    × ((wanted ≡ []) ⊎ Shares held wanted)

includes-In : (xs : List String) (p : String) → includes xs p ≡ true → In p xs
includes-In [] p h = absurd (ground arith)
includes-In (x ∷ xs) p h = elim (Bool-cases (x == p)) [
  | inl e ↦ inl (ground (arith, eq_iff x p))
  | inr e ↦ inr (includes-In xs p (ground (arith, h, e)))
]

pub In-includes : (xs : List String) (p : String) → In p xs → includes xs p ≡ true
In-includes [] p h = absurd h
In-includes (x ∷ xs) p (inl e) = ground (arith, eq_iff x p, e)
In-includes (x ∷ xs) p (inr m) = ground (arith, In-includes xs p m)

any-Shares : (held wanted : List String) → any (includes held) wanted ≡ true → Shares held wanted
any-Shares held [] h = absurd (ground arith)
any-Shares held (x ∷ xs) h = elim (Bool-cases (includes held x)) [
  | inl e ↦ (x, inl refl, includes-In held x e)
  | inr e ↦ let (p, m, l) = any-Shares held xs (ground (arith, h, e)) in (p, inr m, l)
]

Shares-any : (held wanted : List String) → Shares held wanted → any (includes held) wanted ≡ true
Shares-any held [] (p, m, l) = absurd m
Shares-any held (x ∷ xs) (p, inl e, l) = ground (arith, In-includes held p l, e)
Shares-any held (x ∷ xs) (p, inr m, l) = ground (arith, Shares-any held xs (p, m, l))

module _ (R : Redis) {B : Type 0} (T : RuleTable B) where
  check_permissions-eq-ok :
      (message : String) (held wanted : List String) (w w' : World R.Store B) (b : Bool)
      → check_permissions message held wanted w ≡ (ok b, w')
      → (b ≡ true) × ((wanted ≡ []) ⊎ Shares held wanted) × (w' ≡ w)
  unfolding check_permissions
  check_permissions-eq-ok message held [] w w' b h = (ground arith, inl refl, ground arith)
  check_permissions-eq-ok message held (p ∷ ps) w w' b h =
      elim (Bool-cases (any (includes held) (p ∷ ps))) [
        | inl e ↦ (ground (arith, h, e), inr (any-Shares held (p ∷ ps) e), ground (arith, h, e))
        | inr e ↦ absurd (ground (arith, h, e))
      ]

  check_permissions-calm :
      (message : String) (held wanted : List String) (w : World R.Store B)
      → (wanted ≡ []) ⊎ Shares held wanted
      → check_permissions message held wanted w ≡ (ok true, w)
  unfolding check_permissions
  check_permissions-calm message held [] w h = refl
  check_permissions-calm message held (p ∷ ps) w (inl e) = absurd (ground arith)
  check_permissions-calm message held (p ∷ ps) w (inr m) =
      ground (arith, Shares-any held (p ∷ ps) m)

  -- A check that passes found the endpoint permitted, on any schedule.
  pub check_endpoint-Permits :
      (message : String) (held : List String) (endpoint : Option String) (w w' : World R.Store B)
      (b : Bool)
      → Coherent R T w.redis w.db
      → check_endpoint R T message held endpoint w ≡ (ok b, w')
      → (b ≡ true) × Permits T w.db held endpoint × (w'.user ≡ w.user)
  unfolding check_endpoint
  check_endpoint-Permits message held none w w' b co h = (ground arith, tt, ground arith)
  check_endpoint-Permits message held (some key) w w' b co h =
      let (wanted, v, e, k) =
        >>=-eq-ok (get_permissions_for_endpoint R T key) (check_permissions message held) w h in
      let (passes, holds, same) = check_permissions-eq-ok message held wanted v w' b k in
      (
        passes,
        (wanted, get_permissions_for_endpoint-required R T key w v wanted co e, holds),
        ap (λ u. u.user) same
            ∙ subst (λ r. r.1.user ≡ w.user) e (get_permissions_for_endpoint-KeepsUser R T key w),
      )

  -- While Redis and the database answer, a permitted endpoint passes.
  pub check_endpoint-calm :
      (message : String) (held : List String) (endpoint : Option String) (w : World R.Store B)
      → Coherent R T w.redis w.db
      → Permits T w.db held endpoint
      → (check_endpoint R T message held endpoint (calm w)).0 ≡ ok true
  unfolding check_endpoint
  check_endpoint-calm message held none w co p = refl
  check_endpoint-calm message held (some key) w co (wanted, is, holds) =
      go (get_permissions_for_endpoint R T key (calm w)) (
        get_permissions_for_endpoint-answer R T key w co
        ∙ sym (required-answer (T.find_by_endpoint_key key w.db) wanted is))
    where
      go :
          (r : Result (List String) × World R.Store B)
          → r.0 ≡ ok wanted
          → (continue (check_permissions message held) r).0 ≡ ok true
      go (ok x, v) e =
          let eq : x ≡ wanted = ground arith in
          rw eq (ap (λ r. r.0) (check_permissions-calm message held wanted v holds))
      go (err x, v) e = absurd (ground arith)
