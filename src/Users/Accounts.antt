-- ===== src/Users/Accounts.antt =====
-- The states of an account.
use auth_microservice.Prelude.{
  String, ◌≡◌, refl, sym, ap, subst, ◌∙◌, ◌⊎◌, inl, inr, true, false, some, arith, ◌==◌, eq_iff,
  eq_refl, Bool-cases,
}
use auth_microservice.Failure.{Failure}
use auth_microservice.Redis.{Redis}
use auth_microservice.Exec.{World, Exec, pure, on_db, ◌>>=◌, ◌>>◌, >>=-eq-ok, ok}
use auth_microservice.Exec.Inversion.{on_db-eq-ok}
use auth_microservice.Users.{
  UserStatus, User, Services, users_exception, user_not_found, hashed_on_update, found_user,
  find_user, save_user, check_password, status_active, status_inactive, status_pending,
}
use auth_microservice.Users.Changing.{
  require_status, first_activation, activate_user, deactivate_user,
}
use auth_microservice.Users.Login.{check_password-eq-ok, found_user-eq-ok}
use auth_microservice.Users.Saving.{
  require_status-eq-ok, save_user-eq-ok, hashed-same, find_user-eq-ok,
}

-- A request that changes the state of an account.
pub data Change : Type 0 where
  initialises : (email password new_password salt : String) → Change
  reactivates suspends : (id : String) → Change

module _ (R : Redis) {B : Type 0} (V : Services B) where
  abbrev pub change : Change → Exec R.Store B (Unit {0})
  change (initialises email password new_password salt) =
      first_activation R V email password new_password salt
  change (reactivates id) = activate_user R V id
  change (suspends id) = deactivate_user R V id

  -- The account that a request is about, in the state that it has to have.
  abbrev pub Concerns : Change → B → User → Type 0
  Concerns (initialises email password new_password salt) b old =
      (V.table.find_one_by_email email b ≡ some old)
      × (old.status ≡ status_pending)
      × (V.bcrypt.compare password old.password ≡ true)
  Concerns (reactivates id) b old =
      (V.table.find_one_by_id id b ≡ some old) × (old.status ≡ status_inactive)
  Concerns (suspends id) b old =
      (V.table.find_one_by_id id b ≡ some old) × (old.status ≡ status_active)

  -- What becomes of its row. A new password that is empty, or the text that the row holds, is not hashed.
  abbrev pub Becomes : Change → User → User → Type 0
  Becomes (initialises email password new_password salt) old new =
      (new ≡ record old { password = new.password; status = status_active })
      × ((new_password ≡ "")
          ⊎ ((new_password ≡ old.password) ⊎ (V.bcrypt.compare new_password new.password ≡ true)))
  Becomes (reactivates id) old new = new ≡ record old { status = status_active }
  Becomes (suspends id) old new = new ≡ record old { status = status_inactive }

  -- The one row that the request is about has changed as it asks, and nothing else.
  pub record Moved (q : Change) (w w' : World R.Store B) : Type 0 where
    pub old : User
    pub new : User
    pub concerns : Concerns q w.db old
    pub becomes : Becomes q old new
    pub is : V.table.find_one_by_id old.id w'.db ≡ some new
    pub others :
        (i : String)
        → (old.id == i) ≡ false
        → V.table.find_one_by_id i w'.db ≡ V.table.find_one_by_id i w.db
    pub same_redis : w'.redis ≡ w.redis

  saved-Moved :
      (q : Change) (salt original : String) (u n a : User) (w v w' : World R.Store B)
      → v.db ≡ w.db
      → v.redis ≡ w.redis
      → Concerns q w.db u
      → Becomes q u (hashed_on_update V.bcrypt salt original n)
      → n.id ≡ u.id
      → save_user R V salt original n v ≡ (ok a, w')
      → Moved q w w'
  saved-Moved q salt original u n a w v w' d r here becomes same_id h =
      let n' = hashed_on_update V.bcrypt salt original n in
      let (_, saved, r') = save_user-eq-ok R V salt original n a v w' h in
      let (i, _, _) = hashed-same R V salt original n in
      record {
        old = u;
        new = n';
        concerns = here;
        becomes = becomes;
        is =
            V.table.id-save n' u.id v.db w'.db saved
            ∙ ground (arith, i, same_id, eq_iff n'.id u.id);
        others = λ k e.
            V.table.id-save n' k v.db w'.db saved
            ∙ ground (arith, e, i, same_id)
            ∙ ap (λ b. V.table.find_one_by_id k b) d;
        same_redis = r' ∙ r;
      }

  -- A row whose password is the one loaded is saved as it is.
  unhashed :
      (u : User) (t : UserStatus)
      → hashed_on_update V.bcrypt "" u.password (record u { status = t }) ≡ record u { status = t }
  unhashed u t = ground (arith, eq_refl u.password)

  switch-Moved :
      (q : Change) (id : String) (s t : UserStatus) (f : Failure) (w w' : World R.Store B)
      → ((u : User)
          → V.table.find_one_by_id id w.db ≡ some u
          → u.status ≡ s
          → Concerns q w.db u × Becomes q u (record u { status = t }))
      → (find_user R V id >>= λ u.
            require_status R V s f u
            >> (save_user R V "" u.password (record u { status = t }) >> pure tt))
          w
        ≡ (ok tt, w')
      → Moved q w w'
  switch-Moved q id s t f w w' asked h =
      let (u, v1, e1, h1) = >>=-eq-ok (find_user R V id) _ w h in
      let (here, d1, r1, _) = find_user-eq-ok R V id w v1 u e1 in
      let (x, v2, e2, h2) = >>=-eq-ok (require_status R V s f u) _ v1 h1 in
      let (st, same2) = require_status-eq-ok R V s f u x v1 v2 e2 in
      let (a, v3, e3, h3) =
        >>=-eq-ok (save_user R V "" u.password (record u { status = t })) _ v2 h2 in
      let last : v3 ≡ w' = ap (λ z. z.1) h3 in
      let (concerns, becomes) = asked u here st in
      saved-Moved q "" u.password u (record u { status = t }) a w v2 w' (ap (λ z. z.db) same2 ∙ d1)
        (ap (λ z. z.redis) same2 ∙ r1) concerns
        (subst (λ n. Becomes q u n) (sym (unhashed u t)) becomes) refl
        (subst (λ z. save_user R V "" u.password (record u { status = t }) v2 ≡ (ok a, z)) last e3)

  -- The row of a first activation.
  initialised :
      (email password new_password salt : String) (u : User)
      → Becomes (initialises email password new_password salt) u (
          hashed_on_update V.bcrypt salt u.password
            (record u { password = new_password; status = status_active }))
  initialised email password new_password salt u = elim (Bool-cases (new_password == "")) [
    | inl e ↦ (rw e refl, inl (ground (arith, e, eq_iff new_password "")))
    | inr e ↦ elim (Bool-cases (new_password == u.password)) [
      | inl f ↦ (rw (e, f) refl, inr (inl (ground (arith, f, eq_iff new_password u.password))))
      | inr f ↦ rw (e, f) (refl, inr (inr (V.bcrypt.compare-hash salt new_password)))
    ]
  ]

  -- Whatever calls fail, a first activation, an activation or a deactivation that succeeded was about an account
  -- that waited for its activation and whose password was given, that was inactive, or that was
  -- active; it changed the state of that account as asked, and with a first activation the
  -- password, which is accepted from then on unless it is empty or the text that the row held. The
  -- rest of the row, every other account and Redis are as they were.
  pub change-Moved : (q : Change) (w w' : World R.Store B) → change q w ≡ (ok tt, w') → Moved q w w'
  unfolding first_activation activate_user deactivate_user
  change-Moved (reactivates id) w w' h =
      switch-Moved (reactivates id) id status_inactive status_active _ w w'
        (λ u here st. ((here, st), refl)) h
  change-Moved (suspends id) w w' h =
      switch-Moved (suspends id) id status_active status_inactive _ w w'
        (λ u here st. ((here, st), refl)) h
  change-Moved (initialises email password new_password salt) w w' h =
      let (o, v1, e1, h1) = >>=-eq-ok (on_db (λ b. (V.table.find_one_by_email email b, b))) _ w h in
      let (oe, d1, r1, n1) = on_db-eq-ok (λ b. (V.table.find_one_by_email email b, b)) w v1 o e1 in
      let (u, v2, e2, h2) = >>=-eq-ok (found_user R V user_not_found o) _ v1 h1 in
      let (here, same2) = found_user-eq-ok R V user_not_found o v1 v2 u e2 in
      let (x, v3, e3, h3) =
        >>=-eq-ok
          (require_status R V status_pending
            (users_exception "User has already been activated" "USER_ALREADY_ACTIVE" 400) u)
          _ v2 h2 in
      let (st, same3) = require_status-eq-ok R V status_pending _ u x v2 v3 e3 in
      let (y, v4, e4, h4) = >>=-eq-ok (check_password R V password u) _ v3 h3 in
      let (matches, same4) = check_password-eq-ok R V password u v3 v4 y e4 in
      let n : User = record u { password = new_password; status = status_active } in
      let (a, v5, e5, h5) = >>=-eq-ok (save_user R V salt u.password n) _ v4 h4 in
      let last : v5 ≡ w' = ap (λ z. z.1) h5 in
      let same : v4 ≡ v1 = same4 ∙ same3 ∙ same2 in
      saved-Moved (initialises email password new_password salt) salt u.password u n a w v4 w'
        (ap (λ z. z.db) same ∙ d1) (ap (λ z. z.redis) same ∙ r1) (sym oe ∙ here, st, matches)
        (initialised email password new_password salt u) refl
        (subst (λ z. save_user R V salt u.password n v4 ≡ (ok a, z)) last e5)
