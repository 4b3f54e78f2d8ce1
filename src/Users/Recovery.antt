-- ===== src/Users/Recovery.antt =====
-- A forgotten password, from the mail to the next login.
use auth_microservice.Prelude.{
  String, ◌≡◌, refl, subst, ◌∙◌, ◌≢◌, true, some, arith, eq_iff, eq_refl,
}
use auth_microservice.Redis.{Redis, reset_payload, reset_password, px}
use auth_microservice.Exec.{World, calm, on_redis, on_db, ok}
use auth_microservice.Jwt.{generate_token, auth, refresh}
use auth_microservice.Jwt.Rotation.{generate_token-at}
use auth_microservice.Http.{Request}
use auth_microservice.Users.{
  User, Services, reset_password_mail, password_changed, hashed_on_update, status_active, find_user,
  found_user, save_user, check_password,
}
use auth_microservice.Users.Entering.{check_status, open_session, log_in}
use auth_microservice.Users.Changing.{
  forgot_found, forgot_password, require_reset, set_password, reset_user_password,
}

module _ (R : Redis) {B : Type 0} (V : Services B) where
  forgot_password-calm :
      (email token : String) (u : User) (w : World R.Store B)
      → V.table.find_one_by_email email w.db ≡ some u
      → V.send (reset_password_mail email token) ≡ ok tt
      → forgot_password R V email token (calm w) ≡ (
        ok tt,
        record (calm w) {
          redis = R.set (px V.reset_ttl) (reset_password token) (reset_payload u.id) w.redis;
        },
      )
  unfolding forgot_password forgot_found on_redis on_db
  forgot_password-calm email token u w row sent = rw (row, sent) refl

  -- The row with the password that was set.
  abbrev with_password : (salt password : String) → User → User
  with_password salt password u = record u { password = V.bcrypt.hash salt password }

  hashed_on_update-new :
      (salt password : String) (u : User)
      → password ≢ ""
      → password ≢ u.password
      → hashed_on_update V.bcrypt salt u.password (record u { password = password })
        ≡ with_password salt password u
  hashed_on_update-new salt password u full new =
      ground (arith, eq_iff password "", eq_iff password u.password)

  set_password-calm :
      (salt password id : String) (u : User) (w : World R.Store B) (b' : B)
      → V.table.find_one_by_id id w.db ≡ some u
      → password ≢ ""
      → password ≢ u.password
      → V.table.save (with_password salt password u) w.db ≡ some b'
      → V.send (password_changed u.email) ≡ ok tt
      → set_password R V salt password id (calm w) ≡ (ok tt, record (calm w) { db = b' })
  unfolding set_password find_user found_user save_user on_db
  set_password-calm salt password id u w b' row full new saved sent =
      rw (row, hashed_on_update-new salt password u full new, saved, sent) refl

  reset_user_password-calm :
      (token salt password id : String) (u : User) (w : World R.Store B) (b' : B)
      → R.get (reset_password token) w.redis ≡ some (reset_payload id)
      → V.table.find_one_by_id id w.db ≡ some u
      → password ≢ ""
      → password ≢ u.password
      → V.table.save (with_password salt password u) w.db ≡ some b'
      → V.send (password_changed u.email) ≡ ok tt
      → reset_user_password R V token password salt (calm w)
        ≡ (ok tt, record (calm w) { redis = R.del (reset_password token) w.redis; db = b' })
  unfolding reset_user_password on_redis require_reset
  reset_user_password-calm token salt password id u w b' held row full new saved sent = rw held (
      set_password-calm salt password id u
        (record w { redis = R.del (reset_password token) w.redis }) b' row full new saved sent)

  open_session-calm :
      (sid access fresh : String) (request : Request) (u : User) (w : World R.Store B)
      → generate_token V.jwt (record { email = u.email; sid = sid }) auth (calm w)
        ≡ (ok access, calm w)
      → generate_token V.jwt (record { email = u.email; sid = sid }) refresh (calm w)
        ≡ (ok fresh, calm w)
      → (w' : World R.Store B) × (open_session R V sid request u (calm w)
          ≡ (ok (record { access_token = access; refresh_token = fresh }), w'))
  unfolding open_session on_redis
  open_session-calm sid access fresh request u w a f =
      ((open_session R V sid request u (calm w)).1, rw (a, f) refl)

  pub log_in-calm :
      (email password sid access fresh : String) (request : Request) (u : User)
      (w : World R.Store B)
      → V.table.find_one_by_email email w.db ≡ some u
      → V.bcrypt.compare password u.password ≡ true
      → u.status ≡ status_active
      → generate_token V.jwt (record { email = u.email; sid = sid }) auth (calm w)
        ≡ (ok access, calm w)
      → generate_token V.jwt (record { email = u.email; sid = sid }) refresh (calm w)
        ≡ (ok fresh, calm w)
      → (log_in R V email password sid request (calm w)).0
        ≡ ok (record { access_token = access; refresh_token = fresh })
  unfolding log_in found_user check_password check_status on_db
  log_in-calm email password sid access fresh request u w row matches active a f =
      let (w', opened) = open_session-calm sid access fresh request u w a f in
      rw (row, matches, active, opened) refl

  -- A user who has forgotten the password gets back in: while Redis and the database answer, the mails are
  -- sent, the database takes the user's row with the new password and the signer signs, an active
  -- user's request for a reset succeeds, the reset with the mailed token succeeds, and then a login
  -- with the new password succeeds with both tokens. The new password is not empty and not
  -- the text that the row holds.
  pub forgot_password-log_in :
      (email token salt password sid access fresh : String) (request : Request) (u : User)
      (w : World R.Store B) (b' : B)
      → V.table.find_one_by_email email w.db ≡ some u
      → u.status ≡ status_active
      → password ≢ ""
      → password ≢ u.password
      → V.table.save (record u { password = V.bcrypt.hash salt password }) w.db ≡ some b'
      → V.send (reset_password_mail email token) ≡ ok tt
      → V.send (password_changed u.email) ≡ ok tt
      → generate_token V.jwt (record { email = u.email; sid = sid }) auth (calm w)
        ≡ (ok access, calm w)
      → generate_token V.jwt (record { email = u.email; sid = sid }) refresh (calm w)
        ≡ (ok fresh, calm w)
      → let asked = forgot_password R V email token (calm w) in
        let reset = reset_user_password R V token password salt asked.1 in
        (asked.0 ≡ ok tt)
        × (reset.0 ≡ ok tt)
        × ((log_in R V email password sid request reset.1).0
            ≡ ok (record { access_token = access; refresh_token = fresh }))
  forgot_password-log_in email token salt password sid access fresh request u w b' row active full
        new saved mailed told a f =
      let (email_is, by_id) = V.table.by_email email u w.db row in
      let key = reset_password token in
      let u' = with_password salt password u in
      let v1 : World R.Store B = record (calm w) {
        redis = R.set (px V.reset_ttl) key (reset_payload u.id) w.redis;
      } in
      let v2 : World R.Store B = record (calm w) { redis = R.del key v1.redis; db = b' } in
      let held : R.get key v1.redis ≡ some (reset_payload u.id) =
        R.get-set (px V.reset_ttl) key key (reset_payload u.id) w.redis
        ∙ ground (arith, eq_refl token) in
      let stored : V.table.find_one_by_id u.id b' ≡ some u' =
        V.table.id-save u' u.id w.db b' saved ∙ ground (arith, eq_refl u.id) in
      let row' : V.table.find_one_by_email email b' ≡ some u' =
        subst (λ x. V.table.find_one_by_email x b' ≡ some u') email_is
          (V.table.by_id u.id u' b' stored).1 in
      rw
        (
          forgot_password-calm email token u w row mailed,
          reset_user_password-calm token salt password u.id u v1 b' held by_id full new saved told,
          log_in-calm email password sid access fresh request u' v2 row'
              (V.bcrypt.compare-hash salt password) active
              (generate_token-at V.jwt _ auth (calm w) v2 access a refl)
              (generate_token-at V.jwt _ refresh (calm w) v2 fresh f refl),
        )
        (refl, refl, refl)
