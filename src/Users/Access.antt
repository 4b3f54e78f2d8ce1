-- ===== src/Users/Access.antt =====
-- The guard after a login and after a logout.
use auth_microservice.Prelude.{
  ◌+◌, ◌/◌, ◌<◌, String, ◌≡◌, refl, sym, ◌∙◌, ◌≢◌, true, Option, none, some, arith, eq_iff, eq_refl,
  truthy, get_or,
}
use auth_microservice.Redis.{Redis, auth_session, user_sessions}
use auth_microservice.Exec.{AuthUser, World, calm, on_redis, >>=-eq-ok, ok, err}
use auth_microservice.Exec.Inversion.{on_redis-eq-ok}
use auth_microservice.Jwt.{Payload, Tokens, get_payload, auth, refresh}
use auth_microservice.Jwt.Payloads.{get_payload_iff}
use auth_microservice.Jwt.Rotation.{get_payload-at, get_payload-generate_token}
use auth_microservice.Http.{Request, auth_exception, get_client_ip, same_subnet_check}
use auth_microservice.Rules.{RuleTable}
use auth_microservice.Guards.{require_token, load_session, check_endpoint, admit_user, auth_guard}
use auth_microservice.Guards.Granting.{Admitted-check_endpoint}
use auth_microservice.Users.{Services, users_exception}
use auth_microservice.Users.Entering.{
  require_active, active_session, renew_session, refresh_user_token, new_session, log_in, log_out,
}
use auth_microservice.Users.Login.{log_in-IsOpened}

module _ (R : Redis) {B : Type 0} (V : Services B) where
  -- A user who has logged in is let in: while Redis and the database answer, a request that
  -- carries the access token, that comes from the subnet of the login and that asks for an
  -- endpoint without an endpoint key passes the guard until the token expires, as long as the
  -- session in Redis is the one that the login stored, where the address, the id of the session
  -- and the token are not empty.
  pub log_in-auth_guard :
      (T : RuleTable B) (email password sid : String) (request request' : Request)
      (w w' later : World R.Store B) (ts : Tokens)
      → log_in R V email password sid request w ≡ (ok ts, w')
      → email ≢ ""
      → sid ≢ ""
      → ts.access_token ≢ ""
      → R.get (auth_session sid) later.redis ≡ R.get (auth_session sid) w'.redis
      → later.now / 1000 < w.now / 1000 + V.jwt.auth_config.expires_in
      → request'.auth_token ≡ some ts.access_token
      → same_subnet_check (get_client_ip request) (get_client_ip request') ≡ true
      → (auth_guard R T V.jwt none request' (calm later)).0 ≡ ok true
  unfolding check_endpoint
  log_in-auth_guard T email password sid request request' w w' later ts h has_email has_sid
        has_token same in_time carried near =
      let (u, here, _, _, opened) = log_in-IsOpened R V email password sid request w w' ts h in
      let email_is : u.email ≡ email = (V.table.by_email email u w.db here).0 in
      let (v, _, _, is) =
        Admitted-check_endpoint R T V.jwt none request' later sid (new_session R V u request w.now)
          (record {
            token = ts.access_token;
            given = carried;
            not_empty = has_token;
            payload = record {
              email = u.email;
              exp = w.now / 1000 + V.jwt.auth_config.expires_in;
              sid = some sid;
            };
            accepted = (get_payload_iff V.jwt ts.access_token auth later _).0 (
                get_payload-generate_token V.jwt (record { email = u.email; sid = sid }) auth w w
                  later ts.access_token (λ e. has_email (sym email_is ∙ e)) has_sid opened.access
                  in_time);
            named = refl;
            held = record { stored = same ∙ opened.stored; active = refl; email = refl };
            subnet = near;
            permitted = tt;
          }) in
      is

  -- Whatever calls fail, once `logOut` has succeeded the session is gone from Redis; then, while
  -- Redis answers, the guard answers a request whose cookie is a non-empty accepted token of that
  -- session with SESSION_INVALID, and so does the renewal for an accepted refresh token of the
  -- session.
  pub log_out-shuts :
      (T : RuleTable B) (endpoint : Option String) (user : AuthUser) (request : Request)
      (token old : String) (p q : Payload) (w w' : World R.Store B)
      → log_out R V user w ≡ (ok tt, w')
      → request.auth_token ≡ some token
      → token ≢ ""
      → get_payload V.jwt token auth w' ≡ (ok p, w')
      → get_or p.sid token ≡ user.session_id
      → get_payload V.jwt old refresh w' ≡ (ok q, w')
      → get_or q.sid "" ≡ user.session_id
      → (R.get (auth_session user.session_id) w'.redis ≡ none)
        × ((auth_guard R T V.jwt endpoint request (calm w')).0
            ≡ err (auth_exception "Session expired or invalid" "SESSION_INVALID" 401))
        × ((refresh_user_token R V old (calm w')).0
            ≡ err (users_exception "Session expired or invalid" "SESSION_INVALID" 401))
  unfolding log_out auth_guard require_token admit_user load_session refresh_user_token
      renew_session active_session require_active
  log_out-shuts T endpoint user request token old p q w w' h carried full accepts named accepts'
        named' =
      let sid = user.session_id in
      let (a, v1, e1, h1) =
        >>=-eq-ok {A = Unit {0}} (on_redis (λ s. (tt, R.del (auth_session sid) s))) _ w h in
      let (_, r1, _, _) = on_redis-eq-ok (λ s. (tt, R.del (auth_session sid) s)) w v1 a e1 in
      let (_, r2, _, _) =
        on_redis-eq-ok (λ s. (tt, R.s_rem (user_sessions user.id) sid s)) v1 w' tt h1 in
      let gone : R.get (auth_session sid) w'.redis ≡ none =
        rw (r2, r1)
          (R.get-s_rem (user_sessions user.id) sid (auth_session sid) _
            ∙ ground
                (arith, eq_refl sid, R.get-del (auth_session sid) (auth_session sid) w.redis)) in
      let given : truthy request.auth_token ≡ some token =
        rw carried (ground (arith, eq_iff token "")) in
      (
        gone,
        rw (given, get_payload-at V.jwt token auth w' (calm w') p accepts refl, named, gone) refl,
        rw (get_payload-at V.jwt old refresh w' (calm w') q accepts' refl, named', gone) refl,
      )
