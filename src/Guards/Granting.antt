-- ===== src/Guards/Granting.antt =====
-- What the guard of the users' requests grants.
use auth_microservice.Prelude.{
  String, ◌≡◌, refl, sym, ap, subst, ◌∙◌, ◌≢◌, Bool, true, Option, some, arith, eq_iff, eq_refl,
  truthy, get_or,
}
use auth_microservice.Redis.{Session, Redis, session, auth_session}
use auth_microservice.Exec.{World, calm, Exec, ◌>>=◌, ◌>>◌, set_user, >>=-eq-ok, ok}
use auth_microservice.Jwt.{Payload, JwtConfig, get_payload, auth}
use auth_microservice.Jwt.Payloads.{Accepts, get_payload_iff}
use auth_microservice.Http.{Request, get_client_ip, same_subnet_check}
use auth_microservice.Rules.{RuleTable}
use auth_microservice.Rules.Reading.{Coherent}
use auth_microservice.Guards.{
  auth_user, require_token, check_session, check_subnet, load_session, check_endpoint, admit_user,
  auth_guard,
}
use auth_microservice.Guards.Sessions.{
  require_token-eq-ok, check_session-eq-ok, check_subnet-eq-ok, load_session-eq-ok,
  load_session-calm,
}
use auth_microservice.Guards.Endpoints.{Permits, check_endpoint-Permits, check_endpoint-calm}

-- The session that a token's payload names is stored, active, and of the payload's email.
pub record IsHeld (R : Redis) (s : R.Store) (payload : Payload) (sid : String) (x : Session)
    : Type 0 where
  pub stored : R.get (auth_session sid) s ≡ some (session x)
  pub active : x.active ≡ true
  pub email : x.email ≡ payload.email

-- The request's cookie is an accepted auth token of a held session, which was opened from the
-- request's subnet and has what the endpoint asks for.
pub record Admitted (R : Redis) {B : Type 0} (T : RuleTable B) (c : JwtConfig)
    (endpoint : Option String) (request : Request) (w : World R.Store B) (sid : String)
    (x : Session) : Type 0 where
  pub token : String
  pub given : request.auth_token ≡ some token
  pub not_empty : token ≢ ""
  pub payload : Payload
  pub accepted : Accepts auth (c.library.verify token c.auth_config.secret w.now) payload
  pub named : sid ≡ get_or payload.sid token
  pub held : IsHeld R w.redis payload sid x
  pub subnet : same_subnet_check x.ip (get_client_ip request) ≡ true
  pub permitted : Permits T w.db x.permissions (truthy endpoint)

module _ {S B : Type 0} (c : JwtConfig) where
  pub get_payload-eq-ok :
      (token : String) (w w' : World S B) (p : Payload)
      → get_payload c token auth w ≡ (ok p, w')
      → Accepts auth (c.library.verify token c.auth_config.secret w.now) p × (w' ≡ w)
  unfolding get_payload
  get_payload-eq-ok token w w' p h =
      let same : w ≡ w' = ap (λ r. r.1) h in
      (
        (get_payload_iff c token auth w p).0
            (subst (λ u. get_payload c token auth w ≡ (ok p, u)) (sym same) h),
        sym same,
      )

module _ (R : Redis) {B : Type 0} (T : RuleTable B) (c : JwtConfig) (endpoint : Option String)
    (request : Request) where
  admit_user-eq-ok :
      (token : String) (p : Payload) (w w' : World R.Store B) (b : Bool)
      → Coherent R T w.redis w.db
      → admit_user R T c endpoint request token p w ≡ (ok b, w')
      → (x : Session) × IsHeld R w.redis p (get_or p.sid token) x
        × (same_subnet_check x.ip (get_client_ip request) ≡ true)
        × Permits T w.db x.permissions (truthy endpoint)
        × (b ≡ true)
        × (w'.user ≡ some (auth_user x (get_or p.sid token)))
  unfolding admit_user
  admit_user-eq-ok token p w w' b co h =
      let sid = get_or p.sid token in
      let rest : Session → Exec R.Store B Bool = λ x.
        set_user (auth_user x sid)
        >> check_endpoint R T "Insufficient permissions" x.permissions (truthy endpoint) in
      let (x, v1, e1, h1) =
        >>=-eq-ok (load_session R T sid)
          (λ x. check_session p x >> (check_subnet x (get_client_ip request) >> rest x)) w h in
      let (stored, r1, d1, _) = load_session-eq-ok R T sid w v1 x e1 in
      let (u2, v2, e2, h2) =
        >>=-eq-ok (check_session p x) (λ _. check_subnet x (get_client_ip request) >> rest x) v1
          h1 in
      let (on, email, same2) = check_session-eq-ok p x v1 v2 u2 e2 in
      let (u3, v3, e3, h3) =
        >>=-eq-ok (check_subnet x (get_client_ip request)) (λ _. rest x) v2 h2 in
      let (near, same3) = check_subnet-eq-ok x (get_client_ip request) v2 v3 u3 e3 in
      let r3 : v3.redis ≡ w.redis = ap (λ u. u.redis) same3 ∙ ap (λ u. u.redis) same2 ∙ r1 in
      let d3 : v3.db ≡ w.db = ap (λ u. u.db) same3 ∙ ap (λ u. u.db) same2 ∙ d1 in
      let co3 : Coherent R T v3.redis v3.db = rw (r3, d3) co in
      let (passes, permits, user) =
        check_endpoint-Permits R T "Insufficient permissions" x.permissions (truthy endpoint)
          (record v3 { user = some (auth_user x sid) }) w' b co3 h3 in
      (
        x,
        record { stored = stored; active = on; email = email },
        near,
        subst (λ d. Permits T d x.permissions (truthy endpoint)) d3 permits,
        passes,
        user,
      )

  -- From a cache of the rules that is coherent with the database (every list of codes that it
  -- holds under an endpoint key is that of an enabled rule of the database for that key), whatever
  -- calls fail, the guard lets a request through only with a session that is admitted: its cookie
  -- is a token that verifies, the session which the token names is in Redis, active, of the
  -- token's email and of the request's subnet, and it holds a permission of the endpoint's enabled
  -- rule if the endpoint has a key and its rule permissions. Then the request's user is the
  -- session's.
  pub auth_guard-Admitted :
      (w w' : World R.Store B) (b : Bool)
      → Coherent R T w.redis w.db
      → auth_guard R T c endpoint request w ≡ (ok b, w')
      → (sid : String) × (x : Session) × Admitted R T c endpoint request w sid x
        × (w'.user ≡ some (auth_user x sid))
        × (b ≡ true)
  unfolding auth_guard
  auth_guard-Admitted w w' b co h =
      let (token, v1, e1, h1) =
        >>=-eq-ok (require_token (truthy request.auth_token))
          (λ token. get_payload c token auth >>= admit_user R T c endpoint request token) w h in
      let (given, full, same1) = require_token-eq-ok request.auth_token w v1 token e1 in
      let (p, v2, e2, h2) =
        >>=-eq-ok (get_payload c token auth) (admit_user R T c endpoint request token) v1 h1 in
      let (accepts, same2) = get_payload-eq-ok c token v1 v2 p e2 in
      let same : v2 ≡ w = same2 ∙ same1 in
      let (x, held, near, permits, passes, user) =
        admit_user-eq-ok token p w w' b co
          (subst (λ u. admit_user R T c endpoint request token p u ≡ (ok b, w')) same h2) in
      (
        get_or p.sid token,
        x,
        record {
          token = token;
          given = given;
          not_empty = full;
          payload = p;
          accepted =
              subst (λ u. Accepts auth (c.library.verify token c.auth_config.secret u.now) p) same1
                accepts;
          named = refl;
          held = held;
          subnet = near;
          permitted = permits;
        },
        user,
        passes,
      )

  -- While Redis and the database answer, an admitted request comes to the check of the endpoint.
  pub Admitted-check_endpoint :
      (w : World R.Store B) (sid : String) (x : Session)
      → Admitted R T c endpoint request w sid x
      → (v : World R.Store B) × (v.redis ≡ w.redis)
        × (v.db ≡ w.db)
        × ((auth_guard R T c endpoint request (calm w)).0
            ≡ (check_endpoint R T "Insufficient permissions" x.permissions
                (truthy endpoint)
                (calm v)).0)
  unfolding auth_guard require_token get_payload admit_user check_session check_subnet
  Admitted-check_endpoint w sid x a =
      let token : truthy request.auth_token ≡ some a.token =
        rw (a.given) (ground (arith, eq_iff a.token "", a.not_empty)) in
      let payload : get_payload c a.token auth (calm w) ≡ (ok a.payload, calm w) =
        (get_payload_iff c a.token auth (calm w) a.payload).1 a.accepted in
      let session : load_session R T (get_or a.payload.sid a.token) (calm w) ≡ (ok x, calm w) =
        load_session-calm R T (get_or a.payload.sid a.token) w x (rw (← a.named) a.held.stored) in
      (
        record w {
          user =
              some
                (record (auth_user x (get_or a.payload.sid a.token)) { email = a.payload.email });
        },
        refl,
        refl,
        rw
            (
              token,
              ap (λ r. r.0) payload,
              session,
              a.held.active,
              a.held.email,
              eq_refl a.payload.email,
              a.subnet,
            )
            refl,
      )

  -- While Redis and the database answer, every admitted request is let through.
  pub Admitted-auth_guard :
      (w : World R.Store B) (sid : String) (x : Session)
      → Coherent R T w.redis w.db
      → Admitted R T c endpoint request w sid x
      → (auth_guard R T c endpoint request (calm w)).0 ≡ ok true
  Admitted-auth_guard w sid x co a =
      let (v, r, d, is) = Admitted-check_endpoint w sid x a in
      is
      ∙ check_endpoint-calm R T "Insufficient permissions" x.permissions (truthy endpoint) v
          (rw (r, d) co) (rw d a.permitted)
