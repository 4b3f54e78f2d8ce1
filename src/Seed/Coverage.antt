-- ===== src/Seed/Coverage.antt =====
-- What a run of the seeding leaves.
use auth_microservice.Prelude.{
  String, ◌≡◌, refl, ap, subst, ◌∙◌, ◌⊎◌, inl, inr, Bool, true, ◌&&◌, some, List, [], ◌∷◌, arith,
  ◌==◌, eq_iff, Bool-cases, In, includes,
}
use auth_microservice.Failure.{Failure}
use auth_microservice.Exec.{
  World, Result, Exec, connection_lost, pure, raise, recover, attempt, continue, ◌>>◌, >>=-eq-ok,
  ok, err,
}
use auth_microservice.Rules.{RuleTable}
use auth_microservice.Users.{Role, User, UserTable, Bcrypt, settle, status_active}
use auth_microservice.Seed.{
  SeedManager, upsert_permissions, seed_permission_rows, seed_endpoint_permission_rules, seed_role,
  seed_role_rows, admin_email, seed_users, round_trip, commit, seed_all, committed, run,
}
use auth_microservice.SeedData.{SeedRule, SeedRole, seed_permissions, seed_rules, seed_roles}
use auth_microservice.Seed.Steps.{All, All-map, All-In, keys_of, are_distinct, write-eq-ok}
use auth_microservice.Seed.Rules.{
  IsCoded, IsAssigned, LeavesOthers, KeepsRules, upsert_permissions-IsCoded,
  seed_endpoint_permission_rules-IsAssigned,
}
use auth_microservice.Seed.Admin.{HoldsCodes, seed_role-HoldsCodes, seed_users-IsAdmin}
use auth_microservice.Exec.Calls.{on_db-outcome}

abbrev pub codes_listed : (codes : List String) → List SeedRule → Bool
codes_listed cs [] = true
codes_listed cs (e ∷ es) = includes cs e.permission_code && codes_listed cs es

seed_keys_distinct : are_distinct (keys_of seed_rules) ≡ true
seed_keys_distinct = refl

pub seed_codes_listed : codes_listed seed_permissions seed_rules ≡ true
seed_codes_listed = refl

pub includes→In : (xs : List String) (a : String) → includes xs a ≡ true → In a xs
includes→In [] a h = absurd (ground arith)
includes→In (x ∷ xs) a h = elim (Bool-cases (x == a)) [
  | inl e ↦ inl (ground (arith, eq_iff x a))
  | inr e ↦ inr (includes→In xs a (ground (arith, h, e)))
]

pub rules_coded :
    (P : String → Type 0) (cs : List String) (es : List SeedRule)
    → codes_listed cs es ≡ true
    → All P cs
    → All (λ (e : SeedRule). P e.permission_code) es
rules_coded P cs [] l coded = tt
rules_coded P cs (e ∷ es) l coded = (
  All-In P cs e.permission_code (includes→In cs e.permission_code (ground (arith, l))) coded,
  rules_coded P cs es (ground (arith, l)) coded,
)

module _ {B : Type 0} {T : RuleTable B} {U : UserTable B} (M : SeedManager T U) (h : Bcrypt)
    (salt : String) where
  -- What is there after a run that succeeded from `b`.
  pub record Seeded (b b' : B) : Type 0 where
    pub assigned : All (IsAssigned M b') seed_rules
    pub others : LeavesOthers M (keys_of seed_rules) b b'
    pub role : Role
    pub role_holds : HoldsCodes seed_permissions role
    pub admin : User
    pub admin_found : U.find_one_by_email admin_email b' ≡ some admin
    pub admin_active : admin.status ≡ status_active
    pub admin_role : In role admin.roles

  one_role :
      {S : Type 0} (w w' : World S B) (u : Unit {0})
      → seed_role_rows M seed_roles w ≡ (ok u, w')
      → All (IsCoded M w.db) seed_permissions
      → ((r : Role) × (M.role_by_name "SUPER_ADMIN" w'.db ≡ some r) × HoldsCodes seed_permissions r)
        × KeepsRules M w.db w'.db
  unfolding seed_role_rows
  one_role w w' u e coded =
      let s : SeedRole = record {
        name = "SUPER_ADMIN";
        permission_codes = [];
        is_restricted = true;
      } in
      let (x, v, e1, k) = >>=-eq-ok (seed_role M s) (λ _. pure tt) w e in
      let (held, rules) =
        seed_role-HoldsCodes M "SUPER_ADMIN" true seed_permissions w v x e1 coded in
      subst
        (λ b.
          ((r : Role) × (M.role_by_name "SUPER_ADMIN" b ≡ some r) × HoldsCodes seed_permissions r)
          × KeepsRules M w.db b)
        (ap (λ z. z.1.db) k) (held, rules)

  moved :
      (es : List SeedRule) (b b' : B)
      → KeepsRules M b b'
      → All (IsAssigned M b) es
      → All (IsAssigned M b') es
  moved es b b' same = All-map es (λ e a. (a.0, same e.endpoint_key_name ∙ a.1, a.2, a.3))

  abbrev first_rows : {S : Type 0} → Exec S B (Unit {0})
  first_rows =
      seed_permission_rows M seed_permissions >> seed_endpoint_permission_rules M seed_rules

  rows-Assigned :
      {S : Type 0} (w w' : World S B) (u : Unit {0})
      → first_rows w ≡ (ok u, w')
      → All (IsAssigned M w'.db) seed_rules
        × LeavesOthers M (keys_of seed_rules) w.db w'.db
        × All (IsCoded M w'.db) seed_permissions
  unfolding seed_permission_rows
  rows-Assigned w w' u e =
      let (x, v, e1, k) =
        >>=-eq-ok (seed_permission_rows M seed_permissions)
          (λ _. seed_endpoint_permission_rules M seed_rules) w e in
      let (coded, rules) =
        upsert_permissions-IsCoded M seed_permissions w.db v.db
          (write-eq-ok (upsert_permissions M seed_permissions) w v x e1) in
      let (assigned, others, codes) =
        seed_endpoint_permission_rules-IsAssigned M seed_rules v w' u seed_keys_distinct k
          (rules_coded (IsCoded M v.db) seed_permissions seed_rules seed_codes_listed coded) in
      (
        assigned,
        (λ k' m. others k' m ∙ rules k'),
        All-map {P = IsCoded M v.db} {Q = IsCoded M w'.db} seed_permissions
            (λ c p. (p.0, codes c ∙ p.1)) coded,
      )

  body-Seeded :
      {S : Type 0} (w w' : World S B) (u : Unit {0})
      → (first_rows >> seed_role_rows M seed_roles >> seed_users M h salt) w ≡ (ok u, w')
      → Seeded w.db w'.db
  body-Seeded w w' u e =
      let (x3, v3, e3, k3) =
        >>=-eq-ok (first_rows >> seed_role_rows M seed_roles) (λ _. seed_users M h salt) w e in
      let (x2, v2, e2, k2) = >>=-eq-ok first_rows (λ _. seed_role_rows M seed_roles) w e3 in
      let (assigned, others, coded) = rows-Assigned w v2 x2 e2 in
      let ((role, named, holds), rules) = one_role v2 v3 x3 k2 coded in
      let (admin, is, rules') = seed_users-IsAdmin M h salt v3 w' u k3 in
      record {
        assigned =
            moved seed_rules v3.db w'.db rules' (moved seed_rules v2.db v3.db rules assigned);
        others = λ k m. rules' k ∙ rules k ∙ others k m;
        role = role;
        role_holds = holds;
        admin = admin;
        admin_found = is.found;
        admin_active = is.active;
        admin_role = is.roles role named;
      }

  -- What a transaction that starts from `b` ends with.
  abbrev pub Outcome : {S : Type 0} → B → Result (Unit {0}) × World S B → Type 0
  Outcome b r =
      ((r.0 ≡ ok tt) × Seeded b r.1.db)
      ⊎ ((e : Failure) × (r.0 ≡ err e) × ((r.1.db ≡ b) ⊎ Seeded b r.1.db))

  module _ {S : Type 0} where
    -- A call that changes nothing, and then a step.
    after_round_trip :
        (b : B) (m : Exec S B (Unit {0})) (w : World S B)
        → w.db ≡ b
        → ((v : World S B) → v.db ≡ b → Outcome b (m v))
        → Outcome b ((round_trip M h salt >> m) w)
    unfolding round_trip
    after_round_trip b m w same f = elim (on_db-outcome (λ b. (tt, b)) w) [
      | inl (v, e, d, _, _) ↦ rw e (f v (d ∙ same))
      | inr (v, e, inl d, _, _) ↦ rw e (inr (connection_lost, refl, inl (d ∙ same)))
      | inr (v, e, inr d, _, _) ↦ rw e (inr (connection_lost, refl, inl (d ∙ same)))
    ]

    -- The rollback keeps what is in the database, and throws an error again.
    rolled_back :
        (b : B) (e : Failure) (w : World S B)
        → (w.db ≡ b) ⊎ Seeded b w.db
        → Outcome b ((round_trip M h salt >> raise e) w)
    unfolding round_trip
    rolled_back b e w left = elim (on_db-outcome (λ b. (tt, b)) w) [
      | inl (v, is, d, _, _) ↦ rw is (inr (e, refl, rw d left))
      | inr (v, is, inl d, _, _) ↦ rw is (inr (connection_lost, refl, rw d left))
      | inr (v, is, inr d, _, _) ↦ rw is (inr (connection_lost, refl, rw d left))
    ]

    abbrev rolling : Failure → Exec S B (Unit {0})
    rolling e = round_trip M h salt >> raise e

    committed_or_not :
        (b : B) (w : World S B) → Seeded b w.db → Outcome b (recover rolling (commit M h salt b w))
    unfolding commit
    committed_or_not b w seeded = elim (on_db-outcome (λ x. (tt, w.db)) (record w { db = b })) [
      | inl (v, is, d, _, _) ↦ rw is (inl (refl, rw d seeded))
      | inr (v, is, inl d, _, _) ↦ rw is (rolled_back b connection_lost v (inl d))
      | inr (v, is, inr d, _, _) ↦ rw is (rolled_back b connection_lost v (inr (rw d seeded)))
    ]

    settled_Outcome :
        (b : B) (r : Result (Unit {0}) × World S B)
        → ((u : Unit {0}) (w' : World S B) → r ≡ (ok u, w') → Seeded b w'.db)
        → Outcome b (recover rolling (continue (λ u. commit M h salt b) (settle b r)))
    settled_Outcome b (ok u, v) f = committed_or_not b v (f u v refl)
    settled_Outcome b (err e, v) f = rolled_back b e (record v { db = b }) (inl refl)

    attempted-Outcome :
        (b : B) (w : World S B) → w.db ≡ b → Outcome b (attempt (committed M h salt) rolling w)
    attempted-Outcome b w same =
        rw (← same) (settled_Outcome w.db (seed_all M h salt w) (λ u w' e. body-Seeded w w' u e))

    -- Whatever calls fail, a run of the seeding that succeeds leaves the database seeded, and one that fails
    -- leaves it as it was or, where the commit took effect and its answer was lost, seeded, but
    -- never in between. Seeded means: each seeded endpoint key has an enabled rule that asks for
    -- exactly its seeded permission, the rules of all other keys are as they were, and the
    -- active admin holds a role with every seeded permission.
    pub run-Seeded : (w : World S B) → Outcome w.db (run M h salt w)
    unfolding run
    run-Seeded w =
        after_round_trip w.db (round_trip M h salt >> attempt (committed M h salt) rolling) w refl
          (λ v d.
            after_round_trip w.db (attempt (committed M h salt) rolling) v d
              (attempted-Outcome w.db))
