-- ===== src/Users/Onboarding.antt =====
-- A new user, from the registration to the first login.
use auth_microservice.Prelude.{
  String, ◌≡◌, refl, ◌∙◌, ◌≢◌, true, some, List, arith, eq_iff, eq_refl,
}
use auth_microservice.Redis.{Redis}
use auth_microservice.Exec.{World, calm, on_db, ok}
use auth_microservice.Jwt.{generate_token, auth, refresh}
use auth_microservice.Jwt.Rotation.{generate_token-at}
use auth_microservice.Http.{Request}
use auth_microservice.Users.{
  User, Role, Services, registration, hashed_on_insert, hashed_on_update, status_active,
  status_pending, found_user, save_user, find_roles, check_password,
}
use auth_microservice.Users.Entering.{log_in}
use auth_microservice.Users.Changing.{
  new_user, insert_user, register, require_status, first_activation,
}
use auth_microservice.Users.Recovery.{log_in-calm}

module _ (R : Redis) {B : Type 0} (V : Services B) where
  -- The rows after the registration and after the activation.
  abbrev registered : (id email person_id salt password : String) → List Role → User
  registered id email person_id salt password rs =
      new_user R V id email person_id (V.bcrypt.hash salt password) rs

  abbrev activated : (salt password : String) → User → User
  activated salt password u = record u {
    password = V.bcrypt.hash salt password;
    status = status_active;
  }

  hashed_on_insert-new :
      (salt password id email person_id : String) (rs : List Role)
      → password ≢ ""
      → hashed_on_insert V.bcrypt salt (new_user R V id email person_id password rs)
        ≡ registered id email person_id salt password rs
  hashed_on_insert-new salt password id email person_id rs full = ground (arith, eq_iff password "")

  register-calm :
      (email person_id password salt : String) (ids : List String) (rs : List Role)
      (w : World R.Store B) (b : B)
      → find_roles R V ids (calm w) ≡ (ok rs, calm w)
      → password ≢ ""
      → V.table.save (registered (V.table.new_id w.db) email person_id salt password rs) w.db
        ≡ some b
      → V.send (registration email password) ≡ ok tt
      → register R V email person_id ids password salt (calm w)
        ≡ (ok tt, record (calm w) { db = b })
  unfolding register insert_user on_db
  register-calm email person_id password salt ids rs w b roles full saved sent =
      rw
        (
          roles,
          hashed_on_insert-new salt password (V.table.new_id w.db) email person_id rs full,
          saved,
          sent,
        )
        refl

  hashed_on_update-activated :
      (salt password : String) (u : User)
      → password ≢ ""
      → password ≢ u.password
      → hashed_on_update V.bcrypt salt u.password
          (record u { password = password; status = status_active })
        ≡ activated salt password u
  hashed_on_update-activated salt password u full new =
      ground (arith, eq_iff password "", eq_iff password u.password)

  first_activation-calm :
      (email password new salt : String) (u : User) (w : World R.Store B) (b : B)
      → V.table.find_one_by_email email w.db ≡ some u
      → u.status ≡ status_pending
      → V.bcrypt.compare password u.password ≡ true
      → new ≢ ""
      → new ≢ u.password
      → V.table.save (activated salt new u) w.db ≡ some b
      → first_activation R V email password new salt (calm w) ≡ (ok tt, record (calm w) { db = b })
  unfolding first_activation found_user require_status check_password save_user on_db
  first_activation-calm email password new salt u w b row pending matches full fresh saved =
      rw (row, pending, matches, hashed_on_update-activated salt new u full fresh, saved) refl

  saved_by_email :
      (u : User) (b b' : B)
      → V.table.save u b ≡ some b'
      → V.table.find_one_by_email u.email b' ≡ some u
  saved_by_email u b b' h =
      (V.table.by_id u.id u b' (V.table.id-save u u.id b b' h ∙ ground (arith, eq_refl u.id))).1

  -- A new user gets in: while Redis and the database answer, the mail is sent, the roles exist, the
  -- database takes the row at the registration and at the activation and the signer signs, the registration
  -- succeeds, the first activation with the mailed password succeeds, and then a login with the
  -- chosen password succeeds with both tokens. The passwords are not empty, and the
  -- chosen one is not the text that the row holds.
  pub register-log_in :
      (email person_id password chosen salt salt' sid access fresh : String) (ids : List String)
      (rs : List Role) (request : Request) (w : World R.Store B) (b b' : B)
      → find_roles R V ids (calm w) ≡ (ok rs, calm w)
      → password ≢ ""
      → chosen ≢ ""
      → chosen ≢ V.bcrypt.hash salt password
      → V.table.save
          (new_user R V (V.table.new_id w.db) email person_id (V.bcrypt.hash salt password) rs)
          w.db
        ≡ some b
      → V.table.save
          (record (new_user R V
            (V.table.new_id w.db)
            email
            person_id
            (V.bcrypt.hash salt' chosen)
            rs) { status = status_active })
          b
        ≡ some b'
      → V.send (registration email password) ≡ ok tt
      → generate_token V.jwt (record { email = email; sid = sid }) auth (calm w)
        ≡ (ok access, calm w)
      → generate_token V.jwt (record { email = email; sid = sid }) refresh (calm w)
        ≡ (ok fresh, calm w)
      → let done = register R V email person_id ids password salt (calm w) in
        let ready = first_activation R V email password chosen salt' done.1 in
        (done.0 ≡ ok tt)
        × (ready.0 ≡ ok tt)
        × ((log_in R V email chosen sid request ready.1).0
            ≡ ok (record { access_token = access; refresh_token = fresh }))
  register-log_in email person_id password chosen salt salt' sid access fresh ids rs request w b b'
        roles full full' new saved saved' sent a f =
      let u = registered (V.table.new_id w.db) email person_id salt password rs in
      let u' = activated salt' chosen u in
      let v1 : World R.Store B = record (calm w) { db = b } in
      let v2 : World R.Store B = record (calm w) { db = b' } in
      rw
        (
          register-calm email person_id password salt ids rs w b roles full saved sent,
          first_activation-calm email password chosen salt' u v1 b' (saved_by_email u w.db b saved)
              refl (V.bcrypt.compare-hash salt password) full' new saved',
          log_in-calm R V email chosen sid access fresh request u' v2
              (saved_by_email u' b b' saved') (V.bcrypt.compare-hash salt' chosen) refl
              (generate_token-at V.jwt _ auth (calm w) v2 access a refl)
              (generate_token-at V.jwt _ refresh (calm w) v2 fresh f refl),
        )
        (refl, refl, refl)
