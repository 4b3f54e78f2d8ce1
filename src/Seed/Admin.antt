-- ===== src/Seed/Admin.antt =====
-- The seeded role and the admin.
use auth_microservice.Prelude.{
  String, ◌≡◌, refl, sym, ap, subst, ◌∙◌, inl, inr, Bool, true, none, some, List, [], ◌∷◌, arith,
  eq_refl, Option-cases, In,
}
use auth_microservice.Exec.{World, ◌>>=◌, >>=-eq-ok, ok}
use auth_microservice.Permissions.{Permission, permission_codes_of}
use auth_microservice.Rules.{RuleTable}
use auth_microservice.Users.{
  Role, User, UserTable, Bcrypt, hashed_on_insert, hashed_on_update, status_active,
}
use auth_microservice.Seed.{
  SeedManager, write, read, permissions_of_seed, give_permissions, seed_role, admin_email,
  admin_roles, new_admin, update_admin, create_admin, admin_of, seed_users,
}
use auth_microservice.Seed.Steps.{All, All-In, write-eq-ok, read-eq-ok}
use auth_microservice.Seed.Rules.{IsCoded, KeepsRules}

In-codes : (p : Permission) (ps : List Permission) → In p ps → In p.code (permission_codes_of ps)
In-codes p [] m = absurd m
In-codes p (q ∷ ps) (inl e) = inl (ap (λ x. x.code) e)
In-codes p (q ∷ ps) (inr m) = inr (In-codes p ps m)

-- The role holds each of the codes.
abbrev pub HoldsCodes : (codes : List String) → Role → Type 0
HoldsCodes codes r = (c : String) → In c codes → In c (permission_codes_of r.permissions)

module _ {B : Type 0} {T : RuleTable B} {U : UserTable B} (M : SeedManager T U) where
  give_permissions-all :
      {S : Type 0} (role : Role) (w w' : World S B) (u : Unit {0})
      → give_permissions M [] (some role) w ≡ (ok u, w')
      → (M.role_by_name role.name w'.db
          ≡ some (record role { permissions = M.all_permissions w.db }))
        × KeepsRules M w.db w'.db
  unfolding give_permissions
  give_permissions-all role w w' u h =
      let (ps, v, e, k) = >>=-eq-ok (read (permissions_of_seed M [])) _ w h in
      let (pe, d) = read-eq-ok (permissions_of_seed M []) w v ps e in
      let saved : M.save_role (record role { permissions = ps }) v.db ≡ some w'.db =
        write-eq-ok (M.save_role (record role { permissions = ps })) v w' u k in
      let here : M.save_role (record role { permissions = M.all_permissions w.db }) w.db
          ≡ some w'.db =
        subst (λ x. M.save_role (record role { permissions = x }) w.db ≡ some w'.db) pe
          (subst (λ b. M.save_role (record role { permissions = ps }) b ≡ some w'.db) d saved) in
      (
        M.name-save (record role { permissions = M.all_permissions w.db }) w.db w'.db here,
        λ k'.
            M.rules-save_role (record role { permissions = M.all_permissions w.db }) k' w.db w'.db
              here,
      )

  pub seed_role-HoldsCodes :
      {S : Type 0} (name : String) (restricted : Bool) (codes : List String) (w w' : World S B)
      (u : Unit {0})
      → seed_role M (record { name = name; permission_codes = []; is_restricted = restricted }) w
        ≡ (ok u, w')
      → All (IsCoded M w.db) codes
      → ((r : Role) × (M.role_by_name name w'.db ≡ some r) × HoldsCodes codes r)
        × KeepsRules M w.db w'.db
  unfolding seed_role
  seed_role-HoldsCodes name restricted codes w w' u h coded =
      let (x, v, e, k) =
        >>=-eq-ok (write (M.upsert_role name restricted))
          (λ _. read (M.role_by_name name) >>= give_permissions M []) w h in
      let put : M.upsert_role name restricted w.db ≡ some v.db =
        write-eq-ok (M.upsert_role name restricted) w v x e in
      let (role, found, called) = M.name-upsert name restricted w.db v.db put in
      let (o, v2, e2, k2) = >>=-eq-ok (read (M.role_by_name name)) (give_permissions M []) v k in
      let (oe, d2) = read-eq-ok (M.role_by_name name) v v2 o e2 in
      let given : give_permissions M [] (some role) v2 ≡ (ok u, w') =
        subst (λ x. give_permissions M [] x v2 ≡ (ok u, w')) (oe ∙ found) k2 in
      let (held, rules) = give_permissions-all role v2 w' u given in
      (
        (
          record role { permissions = M.all_permissions v2.db },
          subst
              (λ n.
                M.role_by_name n w'.db
                ≡ some (record role { permissions = M.all_permissions v2.db }))
              called held,
          λ c m.
              let (p, code) = All-In (IsCoded M w.db) codes c m coded in
              let code2 : M.permission_by_code c v2.db ≡ some p =
                ap (M.permission_by_code c) d2
                ∙ M.codes-upsert_role name restricted c w.db v.db put
                ∙ code in
              let (is, listed) = M.by_code c p v2.db code2 in
              subst (λ y. In y (permission_codes_of (M.all_permissions v2.db))) is
                (In-codes p (M.all_permissions v2.db) listed),
        ),
        λ k'.
            rules k'
            ∙ ap (T.find_by_endpoint_key k') d2
            ∙ M.rules-upsert_role name restricted k' w.db v.db put,
      )

module _ {B : Type 0} {T : RuleTable B} {U : UserTable B} (M : SeedManager T U) (h : Bcrypt)
    (salt : String) where
  -- The admin can log in with the seeded roles; a new one with the seeded password, one that was there
  -- with the password that it had.
  pub record IsAdmin (b b' : B) (u : User) : Type 0 where
    pub found : U.find_one_by_email admin_email b' ≡ some u
    pub active : u.status ≡ status_active
    pub roles : (r : Role) → M.role_by_name "SUPER_ADMIN" b ≡ some r → In r u.roles
    pub fresh : U.find_one_by_email admin_email b ≡ none → h.compare "admin" u.password ≡ true
    pub kept : (x : User) → U.find_one_by_email admin_email b ≡ some x → u.password ≡ x.password

  found_by_email :
      (u : User) (b b' : B) → U.save u b ≡ some b' → U.find_one_by_email u.email b' ≡ some u
  found_by_email u b b' saved =
      (U.by_id u.id u b' (U.id-save u u.id b b' saved ∙ ground (arith, eq_refl u.id))).1

  unchanged : (y : User) → hashed_on_update h salt y.password y ≡ y
  unchanged y = ground (arith, eq_refl y.password)

  update_admin-IsAdmin :
      {S : Type 0} (x : User) (w w' : World S B) (u : Unit {0})
      → update_admin M h salt x w ≡ (ok u, w')
      → U.find_one_by_email admin_email w.db ≡ some x
      → (a : User) × IsAdmin w.db w'.db a × KeepsRules M w.db w'.db
  unfolding update_admin
  update_admin-IsAdmin x w w' u e there =
      let (rs, v, e1, k) = >>=-eq-ok (read (M.roles_with admin_roles)) _ w e in
      let (re, d) = read-eq-ok (M.roles_with admin_roles) w v rs e1 in
      let a : User = record x { roles = rs; status = status_active } in
      let put : U.save (hashed_on_update h salt x.password a) v.db ≡ some w'.db =
        write-eq-ok (U.save (hashed_on_update h salt x.password a)) v w' u k in
      let saved : U.save a w.db ≡ some w'.db =
        subst (λ b. U.save a b ≡ some w'.db) d
          (subst (λ y. U.save y v.db ≡ some w'.db) (unchanged a) put) in
      (
        a,
        record {
          found =
              subst (λ m. U.find_one_by_email m w'.db ≡ some a)
                (U.by_email admin_email x w.db there).0 (found_by_email a w.db w'.db saved);
          active = refl;
          roles = λ r named.
              subst (λ ys. In r ys) (sym re)
                (M.named "SUPER_ADMIN" admin_roles r w.db named (inl refl));
          fresh = λ n. absurd (ground (arith, there, n));
          kept = λ y n. ground (arith, there, n);
        },
        λ k'. M.rules-save_user a k' w.db w'.db saved,
      )

  create_admin-IsAdmin :
      {S : Type 0} (w w' : World S B) (u : Unit {0})
      → create_admin M h salt w ≡ (ok u, w')
      → U.find_one_by_email admin_email w.db ≡ none
      → (a : User) × IsAdmin w.db w'.db a × KeepsRules M w.db w'.db
  unfolding create_admin
  create_admin-IsAdmin w w' u e missing =
      let (id, v, e1, k1) = >>=-eq-ok (read U.new_id) _ w e in
      let (_, d1) = read-eq-ok U.new_id w v id e1 in
      let admin : User = hashed_on_insert h salt (new_admin id) in
      let (x2, v2, e2, k2) = >>=-eq-ok (write (U.save admin)) _ v k1 in
      let put : U.save admin w.db ≡ some v2.db =
        subst (λ b. U.save admin b ≡ some v2.db) d1 (write-eq-ok (U.save admin) v v2 x2 e2) in
      let (rs, v3, e3, k3) = >>=-eq-ok (read (M.roles_with admin_roles)) _ v2 k2 in
      let (re, d3) = read-eq-ok (M.roles_with admin_roles) v2 v3 rs e3 in
      let a : User = record admin { roles = rs } in
      let saved : U.save a v2.db ≡ some w'.db =
        subst (λ b. U.save a b ≡ some w'.db) d3 (write-eq-ok (U.save a) v3 w' u k3) in
      (
        a,
        record {
          found = found_by_email a v2.db w'.db saved;
          active = refl;
          roles = λ r named.
              subst (λ ys. In r ys) (sym re)
                (M.named "SUPER_ADMIN" admin_roles r v2.db
                  (M.roles-save_user admin "SUPER_ADMIN" w.db v2.db put ∙ named) (inl refl));
          fresh = λ n. h.compare-hash salt "admin";
          kept = λ y n. absurd (ground (arith, missing, n));
        },
        λ k'. M.rules-save_user a k' v2.db w'.db saved ∙ M.rules-save_user admin k' w.db v2.db put,
      )

  pub seed_users-IsAdmin :
      {S : Type 0} (w w' : World S B) (u : Unit {0})
      → seed_users M h salt w ≡ (ok u, w')
      → (a : User) × IsAdmin w.db w'.db a × KeepsRules M w.db w'.db
  unfolding seed_users admin_of
  seed_users-IsAdmin w w' u e =
      let (o, v, e1, k) =
        >>=-eq-ok (read (U.find_one_by_email admin_email)) (admin_of M h salt) w e in
      let (oe, d) = read-eq-ok (U.find_one_by_email admin_email) w v o e1 in
      let there : U.find_one_by_email admin_email v.db ≡ o =
        ap (U.find_one_by_email admin_email) d ∙ sym oe in
      let goal : (b : B) → Type 0 = λ b. (a : User) × IsAdmin b w'.db a × KeepsRules M b w'.db in
      subst goal d (elim (Option-cases o) [
        | inl n ↦
            create_admin-IsAdmin v w' u (subst (λ y. admin_of M h salt y v ≡ (ok u, w')) n k)
              (there ∙ n)
        | inr (x, n) ↦
            update_admin-IsAdmin x v w' u (subst (λ y. admin_of M h salt y v ≡ (ok u, w')) n k)
              (there ∙ n)
      ])
