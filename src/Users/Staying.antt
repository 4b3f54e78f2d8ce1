-- ===== src/Users/Staying.antt =====
-- Staying logged in: the tokens of a login can be renewed.
use auth_microservice.Prelude.{
  ℕ, ◌+◌, ◌/◌, ◌<◌, String, ◌≡◌, refl, sym, subst, ◌∙◌, ◌≢◌, ◌↔◌, true, Option, some, arith, eq_iff,
  truthy, get_or, In,
}
use auth_microservice.Redis.{Session, Redis, session, auth_session}
use auth_microservice.Exec.{World, calm, on_redis, on_db, ok}
use auth_microservice.Jwt.{
  Payload, Tokens, renewed_payload, get_payload, generate_token, auth, refresh,
}
use auth_microservice.Jwt.Rotation.{
  generate_token-at, get_payload-at, get_payload-generate_token, refresh_token-ok,
}
use auth_microservice.Users.{role_codes, Request, User, Services, find_user, found_user}
use auth_microservice.Users.Login.{log_in-IsOpened}
use auth_microservice.Users.ActiveSessions.{rewriting, get-rewritten}
use auth_microservice.Users.Renewal.{both_cookies}
use auth_microservice.Users.Entering.{
  require_active, active_session, renew_session, refresh_user_token, new_session, log_in,
}
use auth_microservice.Users.Cookies.{
  Environment, get_ttl_from_env, get_auth_cookie_options, get_refresh_cookie_options, set_cookies,
  refresh_token_handler,
}
use auth_microservice.Users.Described.{GrantsCode, role_codes-GrantsCode, described}

module _ (R : Redis) {B : Type 0} (V : Services B) where
  active_session-calm :
      (sid : String) (s : Session) (w : World R.Store B)
      → R.get (auth_session sid) w.redis ≡ some (session s)
      → s.active ≡ true
      → active_session R V sid (calm w) ≡ (ok s, calm w)
  unfolding active_session on_redis require_active
  active_session-calm sid s w h active = ground (arith, h, active)

  find_user-calm :
      (id : String) (u : User) (w : World R.Store B)
      → V.table.find_one_by_id id w.db ≡ some u
      → find_user R V id (calm w) ≡ (ok u, calm w)
  unfolding find_user found_user on_db
  find_user-calm id u w h = rw h refl

  -- While Redis and the database answer, an accepted token of an active session is renewed.
  pub refresh_user_token-calm :
      (token access next : String) (p : Payload) (s : Session) (u : User) (w : World R.Store B)
      → get_payload V.jwt token refresh w ≡ (ok p, w)
      → R.get (auth_session (get_or p.sid "")) w.redis ≡ some (session s)
      → s.active ≡ true
      → V.table.find_one_by_id s.user_id w.db ≡ some u
      → generate_token V.jwt (renewed_payload p) auth w ≡ (ok access, w)
      → generate_token V.jwt (renewed_payload p) refresh w ≡ (ok next, w)
      → (ts : Tokens) × (ts.access_token ≡ access)
        × (refresh_user_token R V token (calm w) ≡ (
          ok ts,
          record (calm w) { redis = (rewriting R V (get_or p.sid "") s u w.now w.redis).1 },
        ))
  unfolding refresh_user_token renew_session on_redis
  refresh_user_token-calm token access next p s u w h stored active row a f =
      let v : World R.Store B = record (calm w) {
        redis = (rewriting R V (get_or p.sid "") s u w.now w.redis).1;
      } in
      let (ts, is, done) =
        refresh_token-ok V.jwt token access next p v
          (get_payload-at V.jwt token refresh w v p h refl)
          (generate_token-at V.jwt (renewed_payload p) auth w v access a refl)
          (generate_token-at V.jwt (renewed_payload p) refresh w v next f refl) in
      (
        ts,
        is,
        rw
            (
              get_payload-at V.jwt token refresh w (calm w) p h refl,
              active_session-calm (get_or p.sid "") s w stored active,
              find_user-calm s.user_id u w row,
            )
            done,
      )

  truthy-full : (s : String) → s ≢ "" → truthy (some s) ≡ some s
  truthy-full s full = ground (arith, eq_iff s "")

  set_cookies-ok :
      (E : Environment) (a b : Option ℕ) (ts : Tokens)
      → get_ttl_from_env E "JWT_AUTH_EXPIRES_IN" ≡ ok a
      → get_ttl_from_env E "JWT_REFRESH_EXPIRES_IN" ≡ ok b
      → set_cookies E ts ≡ (ok tt, both_cookies R V E ts a b)
  unfolding set_cookies get_auth_cookie_options get_refresh_cookie_options
  set_cookies-ok E a b ts p q = rw (p, q) refl

  -- A user who has logged in stays logged in: until the refresh token of the login expires, and as
  -- long as the session in Redis is the one that the login stored and the user's row is there, the
  -- request that renews tokens with it succeeds while Redis and the database answer, the signer
  -- signs and the lifetimes of the cookies are configured, where the address, the id of the
  -- session and the token are not empty. It sets both cookies, with the new access token, and the
  -- session in Redis then has the codes of exactly those permissions that a role of the user's row
  -- grants by then, and the time of the renewal as its last refresh; all else in it is as the
  -- login described it.
  pub log_in-refresh_token_handler :
      (E : Environment) (a b : Option ℕ) (email password sid access next : String)
      (request : Request) (u u' : User) (w w' later : World R.Store B) (ts : Tokens)
      → get_ttl_from_env E "JWT_AUTH_EXPIRES_IN" ≡ ok a
      → get_ttl_from_env E "JWT_REFRESH_EXPIRES_IN" ≡ ok b
      → log_in R V email password sid request w ≡ (ok ts, w')
      → email ≢ ""
      → sid ≢ ""
      → ts.refresh_token ≢ ""
      → R.get (auth_session sid) later.redis ≡ R.get (auth_session sid) w'.redis
      → later.now / 1000 < w.now / 1000 + V.jwt.refresh_config.expires_in
      → V.table.find_one_by_email email w.db ≡ some u
      → V.table.find_one_by_id u.id later.db ≡ some u'
      → generate_token V.jwt (record { email = u.email; sid = sid }) auth later ≡ (ok access, later)
      → generate_token V.jwt (record { email = u.email; sid = sid }) refresh later
        ≡ (ok next, later)
      → (ts' : Tokens) × (after : World R.Store B) × (ts'.access_token ≡ access)
        × (refresh_token_handler E R V (some ts.refresh_token) (calm later)
            ≡ ((ok tt, both_cookies R V E ts' a b), after))
        × (R.get (auth_session sid) after.redis
            ≡ some (session (described V u u'.roles request w.now later.now)))
        × ((c : String) → In c (role_codes u'.roles) ↔ GrantsCode c u'.roles)
  unfolding refresh_token_handler
  log_in-refresh_token_handler E a b email password sid access next request u u' w w' later ts ca cb
        h has_email has_sid has_token same in_time row row' g f =
      let (v, here, _, _, opened) = log_in-IsOpened R V email password sid request w w' ts h in
      let is : v ≡ u = ground (arith, here, row) in
      let email_is : u.email ≡ email = (V.table.by_email email u w.db row).0 in
      let held : R.get (auth_session sid) later.redis
          ≡ some (session (new_session R V u request w.now)) =
        same
        ∙ subst
            (λ x.
              R.get (auth_session sid) w'.redis ≡ some (session (new_session R V x request w.now)))
            is opened.stored in
      let accepts =
        get_payload-generate_token V.jwt (record { email = u.email; sid = sid }) refresh w w later
          ts.refresh_token (λ e. has_email (sym email_is ∙ e)) has_sid
          (subst
            (λ x.
              generate_token V.jwt (record { email = x.email; sid = sid }) refresh w
              ≡ (ok ts.refresh_token, w))
            is opened.fresh)
          in_time in
      let (ts', acc, done) =
        refresh_user_token-calm ts.refresh_token access next _ (new_session R V u request w.now) u'
          later accepts held refl row' g f in
      (
        ts',
        record (calm later) {
          redis = (rewriting R V sid (new_session R V u request w.now) u' later.now later.redis).1;
        },
        acc,
        rw (truthy-full ts.refresh_token has_token, done, set_cookies-ok E a b ts' ca cb) refl,
        get-rewritten R V sid _ _,
        λ c. role_codes-GrantsCode c u'.roles,
      )
