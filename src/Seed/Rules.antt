-- ===== src/Seed/Rules.antt =====
-- The two phases of `seedEndpointPermissionRules`, and `seedPermissions`.
use auth_microservice.Prelude.{
  String, ◌≡◌, refl, sym, ap, subst, ◌∙◌, inl, inr, true, false, Option, some, List, [], ◌∷◌, arith,
  ◌==◌, eq_iff, eq_refl, if◌then◌else◌, Bool-cases, Option-cases, includes,
}
use auth_microservice.Exec.{World, >>=-eq-ok, ok}
use auth_microservice.Permissions.{Permission}
use auth_microservice.Rules.{permission_codes, Rule, RuleTable}
use auth_microservice.Users.{UserTable}
use auth_microservice.Seed.{
  SeedManager, write, read, upsert_permissions, upsert_rules, assign_seeded, assign_rule,
  assign_rules, seed_endpoint_permission_rules,
}
use auth_microservice.SeedData.{SeedRule}
use auth_microservice.Seed.Steps.{
  All, All-map, keys_of, are_distinct, write-eq-ok, read-eq-ok, save-found,
}

module _ {B : Type 0} {T : RuleTable B} {U : UserTable B} (M : SeedManager T U) where
  -- The rule of the key is there, with its switch as seeded.
  abbrev pub IsListed : B → SeedRule → Type 0
  IsListed b e =
      (r : Rule) × (T.find_by_endpoint_key e.endpoint_key_name b ≡ some r) × (r.enabled ≡ e.enabled)

  abbrev pub IsCoded : B → String → Type 0
  IsCoded b c = (p : Permission) × (M.permission_by_code c b ≡ some p)

  -- The rule asks for exactly the seeded permission.
  abbrev pub IsAssigned : B → SeedRule → Type 0
  IsAssigned b e =
      (r : Rule) × (T.find_by_endpoint_key e.endpoint_key_name b ≡ some r)
      × (r.enabled ≡ e.enabled)
      × (permission_codes r ≡ e.permission_code ∷ [])

  -- The rules of all other keys are as they were.
  abbrev pub LeavesOthers : List String → B → B → Type 0
  LeavesOthers keys b b' =
      (k : String)
      → includes keys k ≡ false
      → T.find_by_endpoint_key k b' ≡ T.find_by_endpoint_key k b

  abbrev pub KeepsCodes : B → B → Type 0
  KeepsCodes b b' = (c : String) → M.permission_by_code c b' ≡ M.permission_by_code c b

  abbrev pub KeepsRules : B → B → Type 0
  KeepsRules b b' = (k : String) → T.find_by_endpoint_key k b' ≡ T.find_by_endpoint_key k b

  upsert_permissions-keeps :
      (cs : List String) (c : String) (b b' : B)
      → upsert_permissions M cs b ≡ some b'
      → IsCoded b c
      → IsCoded b' c
  upsert_permissions-keeps [] c b b' h (p, e) = (p, ground (arith, e, h))
  upsert_permissions-keeps (d ∷ cs) c b b' h (p, e) =
      elim (Option-cases (M.upsert_permission d b)) [
        | inl failed ↦ absurd (ground (arith, h, failed))
        | inr (b1, put) ↦
            let (q, found) = M.code-upsert d c b b1 put in
            upsert_permissions-keeps cs c b1 b' (ground (arith, h, put))
              (elim (Bool-cases (d == c)) [
                | inl same ↦ (q, ground (arith, found, same))
                | inr other ↦ (p, ground (arith, found, other, e))
              ])
      ]

  pub upsert_permissions-IsCoded :
      (cs : List String) (b b' : B)
      → upsert_permissions M cs b ≡ some b'
      → All (IsCoded b') cs × KeepsRules b b'
  upsert_permissions-IsCoded [] b b' h = (tt, λ k. ground (arith, h))
  upsert_permissions-IsCoded (d ∷ cs) b b' h = elim (Option-cases (M.upsert_permission d b)) [
    | inl failed ↦ absurd (ground (arith, h, failed))
    | inr (b1, put) ↦
        let more : upsert_permissions M cs b1 ≡ some b' = ground (arith, h, put) in
        let (q, found) = M.code-upsert d d b b1 put in
        let (coded, rules) = upsert_permissions-IsCoded cs b1 b' more in
        (
          (upsert_permissions-keeps cs d b1 b' more (q, ground (arith, found, eq_refl d)), coded),
          λ k. rules k ∙ M.rules-upsert_permission d k b b1 put,
        )
  ]

  pub upsert_rules-IsListed :
      (es : List SeedRule) (b b' : B)
      → are_distinct (keys_of es) ≡ true
      → upsert_rules M es b ≡ some b'
      → All (IsListed b') es × LeavesOthers (keys_of es) b b' × KeepsCodes b b'
  upsert_rules-IsListed [] b b' d h = (tt, (λ k m. ground (arith, h)), λ c. ground (arith, h))
  upsert_rules-IsListed (e ∷ es) b b' d h =
      elim (Option-cases (M.upsert_rule e.endpoint_key_name e.enabled b)) [
        | inl failed ↦ absurd (ground (arith, h, failed))
        | inr (b1, put) ↦
            let (r, on, found) = M.key-upsert e.endpoint_key_name e.enabled b b1 put in
            let (listed, others, codes) =
              upsert_rules-IsListed es b1 b' (ground (arith, d)) (ground (arith, h, put)) in
            (
              (
                (
                  r,
                  others e.endpoint_key_name (ground (arith, d))
                      ∙ ground (arith, found e.endpoint_key_name, eq_refl e.endpoint_key_name),
                  on,
                ),
                listed,
              ),
              (λ k m. others k (ground (arith, m)) ∙ ground (arith, found k, m)),
              λ c. codes c ∙ M.codes-upsert_rule e.endpoint_key_name e.enabled c b b1 put,
            )
      ]

  assign_seeded-eq-ok :
      {S : Type 0} (r : Rule) (p : Permission) (w w' : World S B) (u : Unit {0})
      → assign_seeded M (some r) (some p) w ≡ (ok u, w')
      → T.save (record r { permissions = p ∷ [] }) w.db ≡ some w'.db
  unfolding assign_seeded
  assign_seeded-eq-ok r p w w' u h =
      write-eq-ok (T.save (record r { permissions = p ∷ [] })) w w' u h

  -- One round of phase 2.
  assign_rule-eq-ok :
      {S : Type 0} (e : SeedRule) (w w' : World S B) (u : Unit {0})
      → assign_rule M e w ≡ (ok u, w')
      → IsListed w.db e
      → IsCoded w.db e.permission_code
      → (r : Rule) × (r.enabled ≡ e.enabled)
        × (permission_codes r ≡ e.permission_code ∷ [])
        × ((k : String)
            → T.find_by_endpoint_key k w'.db
              ≡ (if e.endpoint_key_name == k then some r else T.find_by_endpoint_key k w.db))
        × KeepsCodes w.db w'.db
  unfolding assign_rule
  assign_rule-eq-ok e w w' u h (r, found, on) (p, coded) =
      let (o, v, e1, h1) = >>=-eq-ok (read (T.find_by_endpoint_key e.endpoint_key_name)) _ w h in
      let (oe, d1) = read-eq-ok (T.find_by_endpoint_key e.endpoint_key_name) w v o e1 in
      let (q, v2, e2, h2) = >>=-eq-ok (read (M.permission_by_code e.permission_code)) _ v h1 in
      let (qe, d2) = read-eq-ok (M.permission_by_code e.permission_code) v v2 q e2 in
      let oq : o ≡ some r = oe ∙ found in
      let qp : q ≡ some p = qe ∙ ap (M.permission_by_code e.permission_code) d1 ∙ coded in
      let h3 : assign_seeded M (some r) (some p) v2 ≡ (ok u, w') =
        subst (λ x. assign_seeded M (some r) x v2 ≡ (ok u, w')) qp
          (subst (λ x. assign_seeded M x q v2 ≡ (ok u, w')) oq h2) in
      let r' : Rule = record r { permissions = p ∷ [] } in
      let saved : T.save r' w.db ≡ some w'.db =
        subst (λ b. T.save r' b ≡ some w'.db) (d2 ∙ d1) (assign_seeded-eq-ok r p v2 w' u h3) in
      (
        r',
        on,
        ap (λ c. c ∷ []) (M.by_code e.permission_code p w.db coded).0,
        (λ k. save-found T e.endpoint_key_name k r r' w.db w'.db found refl refl saved),
        λ c. M.codes-save_rule r' c w.db w'.db saved,
      )

  KeepsReady :
      (key : String) (es : List SeedRule) (b b' : B) (r : Option Rule)
      → includes (keys_of es) key ≡ false
      → ((k : String)
          → T.find_by_endpoint_key k b' ≡ (if key == k then r else T.find_by_endpoint_key k b))
      → All (IsListed b) es
      → All (IsListed b') es
  KeepsReady key [] b b' r out found all = tt
  KeepsReady key (e ∷ es) b b' r out found ((q, here, on), all) = (
    (
      q,
      ground (
        arith,
        found e.endpoint_key_name,
        here,
        out,
        eq_iff key e.endpoint_key_name,
        eq_iff e.endpoint_key_name key,
      ),
      on,
    ),
    KeepsReady key es b b' r (ground (arith, out)) found all,
  )

  pub assign_rules-IsAssigned :
      {S : Type 0} (es : List SeedRule) (w w' : World S B) (u : Unit {0})
      → are_distinct (keys_of es) ≡ true
      → assign_rules M es w ≡ (ok u, w')
      → All (IsListed w.db) es
      → All (λ e. IsCoded w.db e.permission_code) es
      → All (IsAssigned w'.db) es × LeavesOthers (keys_of es) w.db w'.db × KeepsCodes w.db w'.db
  unfolding assign_rules
  assign_rules-IsAssigned [] w w' u d h listed coded =
      let same : w ≡ w' = ap (λ z. z.1) h in
      (
        tt,
        (λ k m. ap (λ v. T.find_by_endpoint_key k v.db) (sym same)),
        λ c. ap (λ v. M.permission_by_code c v.db) (sym same),
      )
  assign_rules-IsAssigned (e ∷ es) w w' u d h (here, listed) (code, coded) =
      let (x, v, e1, h1) = >>=-eq-ok (assign_rule M e) (λ _. assign_rules M es) w h in
      let (r, on, asks, found, codes) = assign_rule-eq-ok e w v x e1 here code in
      let (assigned, others, codes') =
        assign_rules-IsAssigned es v w' u (ground (arith, d)) h1
          (KeepsReady e.endpoint_key_name es w.db v.db (some r) (ground (arith, d)) found listed)
          (All-map es (λ x c. (c.0, codes x.permission_code ∙ c.1)) coded) in
      (
        (
          (
            r,
            others e.endpoint_key_name (ground (arith, d))
                ∙ ground (arith, found e.endpoint_key_name, eq_refl e.endpoint_key_name),
            on,
            asks,
          ),
          assigned,
        ),
        (λ k m. others k (ground (arith, m)) ∙ ground (arith, found k, m)),
        λ c. codes' c ∙ codes c,
      )

  pub seed_endpoint_permission_rules-IsAssigned :
      {S : Type 0} (es : List SeedRule) (w w' : World S B) (u : Unit {0})
      → are_distinct (keys_of es) ≡ true
      → seed_endpoint_permission_rules M es w ≡ (ok u, w')
      → All (λ e. IsCoded w.db e.permission_code) es
      → All (IsAssigned w'.db) es × LeavesOthers (keys_of es) w.db w'.db × KeepsCodes w.db w'.db
  unfolding seed_endpoint_permission_rules
  seed_endpoint_permission_rules-IsAssigned es w w' u d h coded =
      let (x, v, e1, h1) = >>=-eq-ok (write (upsert_rules M es)) (λ _. assign_rules M es) w h in
      let (listed, others, codes) =
        upsert_rules-IsListed es w.db v.db d (write-eq-ok (upsert_rules M es) w v x e1) in
      let (assigned, others', codes') =
        assign_rules-IsAssigned es v w' u d h1 listed
          (All-map es (λ x c. (c.0, codes x.permission_code ∙ c.1)) coded) in
      (assigned, (λ k m. others' k m ∙ others k m), λ c. codes' c ∙ codes c)
