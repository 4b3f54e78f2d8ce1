-- ===== src/Roles/Assigning.antt =====
-- Assigning permissions to a role.
use auth_microservice.Prelude.{
  String, ◌≡◌, refl, sym, ap, subst, ◌∙◌, inl, inr, ◌⊎◌, Option, none, some, List, [], ◌∷◌, arith,
  eq_refl, Option-cases,
}
use auth_microservice.Failure.{Failure, wrap}
use auth_microservice.Redis.{Redis, perform_all, user_sessions}
use auth_microservice.Exec.{
  World, Result, Result-cases, pure, raise, recover, continue, err, lift, attempt, on_redis, on_db,
  ◌>>=◌, ◌>>◌, >>=-eq-ok, attempt-eq-ok, ok,
}
use auth_microservice.Exec.Context.{
  KeepsDb, on_redis-KeepsDb, on_db-KeepsDb, attempt-Preserves, >>=-Preserves,
}
use auth_microservice.Exec.Inversion.{on_db-eq-ok}
use auth_microservice.Permissions.{
  Permission, PermissionTable, find_permission, find_permissions, or_missing,
}
use auth_microservice.Sessions.{
  m_get, refresh_commands, refresh_session_permissions, refresh_users, refresh_index,
}
use auth_microservice.Users.{Role}
use auth_microservice.Roles.{
  RoleTable, sessions_of, found_role, find_role, saving_role, save_role, refresh_by_role,
  assign_role_permissions,
}

module _ {S B : Type 0} (P : PermissionTable B) where
  or_missing-KeepsDb : (o : Option Permission) → KeepsDb (or_missing {S = S} P o)
  unfolding or_missing
  or_missing-KeepsDb none w = refl
  or_missing-KeepsDb (some p) w = refl

  find_permissions-KeepsDb : (ids : List String) → KeepsDb (find_permissions {S = S} P ids)
  unfolding find_permissions find_permission
  find_permissions-KeepsDb [] w = refl
  find_permissions-KeepsDb (id ∷ ids) w =
      >>=-Preserves (λ w. w.db) (find_permission P id)
        (λ p. find_permissions P ids >>= λ ps. pure (p ∷ ps))
        (>>=-Preserves (λ w. w.db) (on_db (λ b. (P.find_one_by_id id b, b))) (or_missing P)
          (on_db-KeepsDb (λ b. P.find_one_by_id id b)) or_missing-KeepsDb)
        (λ p.
          >>=-Preserves (λ w. w.db) (find_permissions P ids) (λ ps. pure (p ∷ ps))
            (find_permissions-KeepsDb ids) (λ ps v. refl))
        w

module _ (R : Redis) {B : Type 0} where
  refresh_index-KeepsDb :
      (user_id : String) (permissions sids : List String)
      → KeepsDb {B = B} (refresh_index R user_id permissions sids)
  unfolding refresh_index
  refresh_index-KeepsDb user_id permissions [] w = refl
  refresh_index-KeepsDb user_id permissions (sid ∷ sids) w =
      >>=-Preserves (λ w. w.db) (on_redis (λ s. (m_get R (sid ∷ sids) s, s)))
        (λ raws. on_redis (λ s. (tt, perform_all R (refresh_commands user_id permissions raws) s)))
        (on_redis-KeepsDb _) (λ raws. on_redis-KeepsDb _) w

  refresh_users-KeepsDb : (us : List (String × List String)) → KeepsDb {B = B} (refresh_users R us)
  unfolding refresh_users refresh_session_permissions
  refresh_users-KeepsDb [] w = refl
  refresh_users-KeepsDb ((id, cs) ∷ us) w =
      >>=-Preserves (λ w. w.db) (refresh_session_permissions R id cs) (λ _. refresh_users R us)
        (>>=-Preserves (λ w. w.db) (on_redis (λ s. (R.s_members (user_sessions id) s, s)))
          (refresh_index R id cs) (on_redis-KeepsDb _) (λ sids. refresh_index-KeepsDb id cs sids))
        (λ _. refresh_users-KeepsDb us) w

-- What follows three steps acts on what they returned.
three_steps :
    {S B A C D E : Type 0} (m : World S B → Result A × World S B)
    (n : World S B → Result C × World S B) (f : A → C → World S B → Result D × World S B)
    (g : D → World S B → Result E × World S B) (w : World S B)
    → (m >>= λ a. n >>= λ c. f a c >>= g) w ≡ continue g ((m >>= λ a. n >>= λ c. f a c) w)
three_steps {S} {B} {A} {C} m n f g w = first (m w)
  where
    second :
        (a : A) (r : Result C × World S B)
        → continue (λ c. f a c >>= g) r ≡ continue g (continue (λ c. f a c) r)
    second a (ok c, v) = refl
    second a (err e, v) = refl

    first :
        (r : Result A × World S B)
        → continue (λ a. n >>= λ c. f a c >>= g) r ≡ continue g (continue (λ a. n >>= λ c. f a c) r)
    first (ok a, v) = second a (n v)
    first (err e, v) = refl

module _ (R : Redis) {B : Type 0} (L : RoleTable B) (P : PermissionTable B) where
  silent_refresh-KeepsDb :
      (id : String) → KeepsDb (attempt (refresh_by_role R L P id) (λ e. pure tt))
  unfolding refresh_by_role
  silent_refresh-KeepsDb id =
      attempt-Preserves (λ w. w.db) (refresh_by_role R L P id) (λ e. pure tt)
        (>>=-Preserves (λ w. w.db) (on_db (λ b. (L.users_of id b, b)))
          (λ us. refresh_users R (sessions_of us)) (on_db-KeepsDb (λ b. L.users_of id b))
          (λ us. refresh_users-KeepsDb R (sessions_of us)))
        (λ e v. refl)

  pub save_role-eq-ok :
      (r a : Role) (w w' : World R.Store B)
      → save_role R L P r w ≡ (ok a, w')
      → (a ≡ r) × (L.save r w.db ≡ some w'.db)
  unfolding save_role
  save_role-eq-ok r a w w' h =
      let (x, v, e, k) = >>=-eq-ok (on_db (λ b. saving_role R L P r (L.save r b) b)) lift w h in
      let (xe, d, _, _) = on_db-eq-ok (λ b. saving_role R L P r (L.save r b) b) w v x e in
      let same : v ≡ w' = ap (λ z. z.1) k in
      let res : x ≡ ok a = ap (λ z. z.0) k in
      elim (Option-cases (L.save r w.db)) [
        | inl refused_row ↦ absurd (ground (arith, xe, res, refused_row))
        | inr (b', saved) ↦
            (ground (arith, xe, res, saved), ground (arith, saved, d, ap (λ z. z.db) same))
      ]

  pub found_role-eq-ok :
      (o : Option Role) (w w' : World R.Store B) (r : Role)
      → found_role R L P o w ≡ (ok r, w')
      → (o ≡ some r) × (w' ≡ w)
  unfolding found_role
  found_role-eq-ok none w w' r h = absurd (ground arith)
  found_role-eq-ok (some x) w w' r h = ground arith

  -- The three steps of an assignment that its answer depends on.
  abbrev pub saving :
      (id : String) (ids : List String) → World R.Store B → Result Role × World R.Store B
  saving id ids = find_role R L P id >>= λ r.
      find_permissions P ids >>= λ ps. save_role R L P (record r { permissions = ps })

  -- The role was found, and so were the permissions for the given ids; it was saved with exactly
  -- those.
  abbrev pub IsAssigned : (id : String) (ids : List String) (w w' : World R.Store B) → Role → Type 0
  IsAssigned id ids w w' saved =
      (r : Role) × (ps : List Permission) × (v : World R.Store B) × (L.find_one_by_id id w.db
        ≡ some r)
      × (v.db ≡ w.db)
      × ((find_permissions P ids v).0 ≡ ok ps)
      × (saved ≡ record r { permissions = ps })
      × (L.find_one_by_id id w'.db ≡ some saved)

  assign_role_permissions-IsAssigned :
      (id : String) (ids : List String) (w w' : World R.Store B) (saved : Role)
      → assign_role_permissions R L P id ids w ≡ (ok saved, w')
      → IsAssigned id ids w w' saved
  unfolding assign_role_permissions find_role
  assign_role_permissions-IsAssigned id ids w w' saved h =
      let (r, v1, e1, h1) = >>=-eq-ok (find_role R L P id) _ w (
        attempt-eq-ok
          (find_role R L P id >>= λ r. find_permissions P ids >>= λ ps.
            save_role R L P (record r { permissions = ps }) >>= λ saved.
            attempt (refresh_by_role R L P id) (λ e. pure tt) >> pure saved)
          (wrap "RolesException" "Permission assignment failed" "ROLE_PERMISSION_ASSIGN_ERROR" 500)
          w h) in
      let (o, u1, f1, g1) =
        >>=-eq-ok (on_db (λ b. (L.find_one_by_id id b, b))) (found_role R L P) w e1 in
      let (oe, od, _, _) = on_db-eq-ok (λ b. (L.find_one_by_id id b, b)) w u1 o f1 in
      let (here, same1) = found_role-eq-ok o u1 v1 r g1 in
      let d1 : v1.db ≡ w.db = ap (λ z. z.db) same1 ∙ od in
      let (ps, v2, e2, h2) = >>=-eq-ok (find_permissions P ids) _ v1 h1 in
      let d2 : v2.db ≡ v1.db = subst (λ z. z.1.db ≡ v1.db) e2 (find_permissions-KeepsDb P ids v1) in
      let (a, v3, e3, h3) = >>=-eq-ok (save_role R L P (record r { permissions = ps })) _ v2 h2 in
      let (ae, stored) = save_role-eq-ok (record r { permissions = ps }) a v2 v3 e3 in
      let (x, v4, e4, h4) = >>=-eq-ok (attempt (refresh_by_role R L P id) (λ e. pure tt)) _ v3 h3 in
      let d4 : v4.db ≡ v3.db = subst (λ z. z.1.db ≡ v3.db) e4 (silent_refresh-KeepsDb id v3) in
      let answer_is : ok a ≡ ok saved = ap (λ z. z.0) h4 in
      let saved_is : saved ≡ record r { permissions = ps } = ground (arith, answer_is, ae) in
      let row : L.find_one_by_id id w.db ≡ some r = sym oe ∙ here in
      let after : w'.db ≡ v3.db = ap (λ z. z.1.db) (sym h4) ∙ d4 in
      (
        r,
        ps,
        v1,
        row,
        d1,
        ap (λ z. z.0) e2,
        saved_is,
        ap (λ b. L.find_one_by_id id b) after
            ∙ (L.id-save (record r { permissions = ps }) id v2.db v3.db stored
                ∙ (ground (arith, L.by_id id r w.db row, eq_refl id) ∙ ap some (sym saved_is))),
      )

  refreshed_quietly :
      (id : String) (saved : Role) (v : World R.Store B)
      → (attempt (refresh_by_role R L P id) (λ e. pure tt) >> pure saved) v
        ≡ (ok saved, (refresh_by_role R L P id v).1)
  refreshed_quietly id saved v = go (refresh_by_role R L P id v)
    where
      go :
          (r : Result (Unit {0}) × World R.Store B)
          → continue (λ _. pure saved) (recover (λ e. pure tt) r) ≡ (ok saved, r.1)
      go (ok a, u) = refl
      go (err e, u) = refl

  -- An assignment of permissions to a role fails exactly where finding the role, finding the permissions
  -- or saving the role fails, with that failure wrapped; else it answers the saved role, whatever
  -- happens to the refresh of the sessions: that role is the one found with the permissions
  -- found for the given ids, it is then the database's row, and the state is the one that the refresh
  -- left, which runs on the state after the save.
  pub assign_role_permissions-saving :
      (id : String) (ids : List String) (w : World R.Store B)
      → let answer = assign_role_permissions R L P id ids w in
        ((e : Failure) × ((saving id ids w).0 ≡ err e)
          × (answer.0
              ≡ err (
                  wrap "RolesException" "Permission assignment failed"
                    "ROLE_PERMISSION_ASSIGN_ERROR" 500 e)))
        ⊎ ((saved : Role) × ((saving id ids w).0 ≡ ok saved)
            × (answer.0 ≡ ok saved)
            × (answer.1 ≡ (refresh_by_role R L P id (saving id ids w).1).1)
            × IsAssigned id ids w answer.1 saved)
  unfolding assign_role_permissions
  assign_role_permissions-saving id ids w =
      let after : Role → World R.Store B → Result Role × World R.Store B =
        λ saved. attempt (refresh_by_role R L P id) (λ e. pure tt) >> pure saved in
      let handler : Failure → World R.Store B → Result Role × World R.Store B = λ e. raise (
        wrap "RolesException" "Permission assignment failed" "ROLE_PERMISSION_ASSIGN_ERROR" 500
          e) in
      let split : assign_role_permissions R L P id ids w
          ≡ recover handler (continue after (saving id ids w)) =
        ap (recover handler) (
          three_steps (find_role R L P id) (find_permissions P ids)
            (λ r ps. save_role R L P (record r { permissions = ps })) after w) in
      elim (Result-cases (saving id ids w).0) [
        | inr (e, failed) ↦
            let at : saving id ids w ≡ (err e, (saving id ids w).1) =
              ap (λ x. (x, (saving id ids w).1)) failed in
            inl
              (e, failed, ap (λ z. z.0) split ∙ ap (λ z. (recover handler (continue after z)).0) at)
        | inl (saved, done) ↦
            let v = (saving id ids w).1 in
            let at : saving id ids w ≡ (ok saved, v) = ap (λ x. (x, v)) done in
            let w' = (refresh_by_role R L P id v).1 in
            let whole : assign_role_permissions R L P id ids w ≡ (ok saved, w') =
              split
              ∙ (ap (λ z. recover handler (continue after z)) at
                  ∙ ap (recover handler) (refreshed_quietly id saved v)) in
            inr (
              saved,
              done,
              ap (λ z. z.0) whole,
              ap (λ z. z.1) whole,
              subst (λ u. IsAssigned id ids w u saved) (sym (ap (λ z. z.1) whole))
                  (assign_role_permissions-IsAssigned id ids w w' saved whole),
            )
      ]
