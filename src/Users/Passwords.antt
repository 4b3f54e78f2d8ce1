-- ===== src/Users/Passwords.antt =====
-- Resetting a password, and the transaction of a registration.
use auth_microservice.Prelude.{
  String, ◌≡◌, refl, sym, ap, subst, ◌∙◌, ◌≢◌, true, Option, none, some, List, arith, eq_iff,
  eq_refl,
}
use auth_microservice.Failure.{Failure}
use auth_microservice.Redis.{
  Value, Redis, found, session, api_cache, codes, reset_payload, malformed, empty_text,
  reset_password,
}
use auth_microservice.Exec.{
  World, calm, Result, raise, lift, recover, on_redis, ◌>>=◌, >>=-eq-ok, ok, err,
}
use auth_microservice.Exec.Inversion.{on_redis-eq-ok}
use auth_microservice.Users.{
  User, Services, reset_invalid, hashed_on_update, read_reset, settle, find_user, save_user,
  find_roles, registration,
}
use auth_microservice.Users.Changing.{
  insert_user, register, require_reset, set_password, reset_user_password,
}
use auth_microservice.Users.Saving.{save_user-eq-ok, hashed-same, find_user-eq-ok}

module _ (R : Redis) {B : Type 0} (V : Services B) where
  read_reset-eq-ok :
      (o : Option Value) (w v w' : World R.Store B) (i : Option String) (id : String)
      → lift (read_reset (found o)) w ≡ (ok i, v)
      → require_reset R V i v ≡ (ok id, w')
      → (o ≡ some (reset_payload id)) × (w' ≡ w)
  unfolding require_reset
  read_reset-eq-ok none w v w' i id h k = absurd (ground arith)
  read_reset-eq-ok (some (reset_payload x)) w v w' i id h k = ground arith
  read_reset-eq-ok (some (session x)) w v w' i id h k = absurd (ground arith)
  read_reset-eq-ok (some (api_cache x)) w v w' i id h k = absurd (ground arith)
  read_reset-eq-ok (some (codes x)) w v w' i id h k = absurd (ground arith)
  read_reset-eq-ok (some malformed) w v w' i id h k = absurd (ground arith)
  read_reset-eq-ok (some empty_text) w v w' i id h k = absurd (ground arith)

  -- A password that is new and not empty is accepted after it was saved.
  hashed-compare :
      (salt : String) (u : User) (password : String)
      → password ≢ ""
      → password ≢ u.password
      → V.bcrypt.compare password
          (hashed_on_update V.bcrypt salt u.password (record u { password = password })).password
        ≡ true
  hashed-compare salt u password full new =
      ground
        (arith, eq_iff password "", eq_iff password u.password, V.bcrypt.compare-hash salt password)

  -- The row `u` of the database has a password in `w'` that accepts the given one.
  pub record PasswordSet (password id : String) (w w' : World R.Store B) : Type 0 where
    pub old : User
    pub new : User
    pub was : V.table.find_one_by_id id w.db ≡ some old
    pub is : V.table.find_one_by_id old.id w'.db ≡ some new
    pub accepts :
        password ≢ "" → password ≢ old.password → V.bcrypt.compare password new.password ≡ true

  set_password-PasswordSet :
      (salt password id : String) (w w' : World R.Store B)
      → set_password R V salt password id w ≡ (ok tt, w')
      → PasswordSet password id w w' × (w'.redis ≡ w.redis)
  unfolding set_password
  set_password-PasswordSet salt password id w w' h =
      let (u, v1, e1, h1) = >>=-eq-ok (find_user R V id) _ w h in
      let (here, d1, r1, _) = find_user-eq-ok R V id w v1 u e1 in
      let n : User = record u { password = password } in
      let (a, v2, e2, h2) = >>=-eq-ok (save_user R V salt u.password n) _ v1 h1 in
      let (_, saved, r2) = save_user-eq-ok R V salt u.password n a v1 v2 e2 in
      let last : v2 ≡ w' = ap (λ z. z.1) h2 in
      let (i, _, _) = hashed-same R V salt u.password n in
      (
        record {
          old = u;
          new = hashed_on_update V.bcrypt salt u.password n;
          was = here;
          is =
              subst
                (λ z.
                  V.table.find_one_by_id u.id z.db
                  ≡ some (hashed_on_update V.bcrypt salt u.password n))
                last
                (V.table.id-save (hashed_on_update V.bcrypt salt u.password n) u.id v1.db v2.db
                    saved
                  ∙ ground
                      (arith, i, eq_iff (hashed_on_update V.bcrypt salt u.password n).id u.id));
          accepts = hashed-compare salt u password;
        },
        ap (λ z. z.redis) (sym last) ∙ r2 ∙ r1,
      )

  -- Whatever calls fail, a password reset that succeeded used a token that Redis held for the user, set
  -- the user's password so that it accepts the new one (unless that is empty or the stored hash
  -- itself), and used the token up: it is gone from Redis, and with every call answered a second
  -- reset with the token is refused.
  pub reset_user_password-PasswordSet :
      (token password salt other salt' : String) (w w' : World R.Store B)
      → reset_user_password R V token password salt w ≡ (ok tt, w')
      → (id : String) × (R.get (reset_password token) w.redis ≡ some (reset_payload id))
        × PasswordSet password id w w'
        × (R.get (reset_password token) w'.redis ≡ none)
        × ((reset_user_password R V token other salt' (calm w')).0 ≡ err reset_invalid)
  unfolding reset_user_password
  reset_user_password-PasswordSet token password salt other salt' w w' h =
      let key = reset_password token in
      let (raw, v1, e1, h1) =
        >>=-eq-ok (on_redis (λ s. (found (R.get key s), R.del key s))) _ w h in
      let (re, r1, d1, n1) = on_redis-eq-ok (λ s. (found (R.get key s), R.del key s)) w v1 raw e1 in
      let (i, v2, e2, h2) = >>=-eq-ok (lift (read_reset raw)) _ v1 h1 in
      let (id, v3, e3, h3) = >>=-eq-ok (require_reset R V i) _ v2 h2 in
      let (held, same) =
        read_reset-eq-ok (R.get key w.redis) v1 v2 v3 i id
          (subst (λ x. lift (read_reset x) v1 ≡ (ok i, v2)) re e2) e3 in
      let (done, r3) = set_password-PasswordSet salt password id v3 w' h3 in
      let gone : R.get key w'.redis ≡ none =
        rw (r3, same, r1) (ground (arith, R.get-del key key w.redis, eq_refl token)) in
      (
        id,
        held,
        record {
          old = done.old;
          new = done.new;
          was =
              subst (λ d. V.table.find_one_by_id id d ≡ some done.old) (ap (λ z. z.db) same ∙ d1)
                done.was;
          is = done.is;
          accepts = done.accepts;
        },
        gone,
        again gone,
      )
    where
      again :
          R.get (reset_password token) w'.redis ≡ none
          → (reset_user_password R V token other salt' (calm w')).0 ≡ err reset_invalid
      again gone = rw gone refl

  -- Whatever calls fail, a registration that fails leaves the database as it was, also where the mail
  -- with the password could not be sent after the row was saved.
  pub register-atomic :
      (email person_id : String) (roles_ids : List String) (password salt : String)
      (w w' : World R.Store B) (e : Failure)
      → register R V email person_id roles_ids password salt w ≡ (err e, w')
      → w'.db ≡ w.db
  unfolding register
  register-atomic email person_id roles_ids password salt w w' e h =
      settled _
        ((find_roles R V roles_ids >>= λ rs.
            insert_user R V salt email person_id password rs >>= λ u.
            lift (V.send (registration u.email password)))
          w)
        h
    where
      settled :
          (f : Failure → Failure) (r : Result (Unit {0}) × World R.Store B)
          → recover {A = Unit {0}} (λ e. raise (f e)) (settle w.db r) ≡ (err e, w')
          → w'.db ≡ w.db
      settled f (ok a, v) k = absurd (ground arith)
      settled f (err x, v) k = ap (λ z. z.1.db) (sym k)
