-- ===== src/Guards/Microservices.antt =====
-- What the guard of the calling services' requests on behalf of a user grants.
use auth_microservice.Prelude.{
  String, ◌≡◌, refl, sym, ap, subst, ◌∙◌, Bool, true, Option, some, arith, get_or,
}
use auth_microservice.Redis.{Session, Redis}
use auth_microservice.Exec.{World, pure, lift, ◌>>=◌, ◌>>◌, set_user, >>=-eq-ok, ok}
use auth_microservice.Jwt.{Payload, JwtConfig, get_payload, auth}
use auth_microservice.Jwt.Payloads.{Accepts}
use auth_microservice.Http.{Request, extract_bearer}
use auth_microservice.Permissions.{PermissionTable}
use auth_microservice.Rules.{RuleTable}
use auth_microservice.Rules.Reading.{Coherent}
use auth_microservice.ApiKeys.{ApiKey, ApiKeyTable}
use auth_microservice.ApiKeys.Lookup.{KeysCoherent}
use auth_microservice.Guards.{
  auth_user, check_session, load_session, api_key_guard, admit_token, validate_user_token,
  microservice_guard,
}
use auth_microservice.Guards.Sessions.{check_session-eq-ok, load_session-eq-ok}
use auth_microservice.Guards.Granting.{IsHeld, get_payload-eq-ok}
use auth_microservice.Guards.Services.{KeyAdmitted, lift-eq-ok, api_key_guard-KeyAdmitted}

-- The bearer token is an accepted auth token of a held session; its subnet does not matter.
pub record TokenAdmitted (R : Redis) {B : Type 0} (c : JwtConfig) (request : Request)
    (w : World R.Store B) (sid : String) (x : Session) : Type 0 where
  pub token : String
  pub given : extract_bearer request.authorization ≡ ok token
  pub payload : Payload
  pub accepted : Accepts auth (c.library.verify token c.auth_config.secret w.now) payload
  pub named : sid ≡ get_or payload.sid token
  pub held : IsHeld R w.redis payload sid x

module _ (R : Redis) {B : Type 0} (T : RuleTable B) (K : ApiKeyTable B) (P : PermissionTable B)
    (compute_hmac : String → String) (c : JwtConfig) (endpoint : Option String)
    (request : Request) where
  admit_token-eq-ok :
      (token : String) (p : Payload) (w w' : World R.Store B) (u : Unit {0})
      → admit_token R T K P compute_hmac c endpoint token p w ≡ (ok u, w')
      → (x : Session) × IsHeld R w.redis p (get_or p.sid token) x
        × (w'.user ≡ some (auth_user x (get_or p.sid token)))
  unfolding admit_token
  admit_token-eq-ok token p w w' u h =
      let sid = get_or p.sid token in
      let (x, v1, e1, h1) =
        >>=-eq-ok (load_session R T sid) (λ x. check_session p x >> set_user (auth_user x sid)) w
          h in
      let (stored, _, _, _) = load_session-eq-ok R T sid w v1 x e1 in
      let (u2, v2, e2, h2) =
        >>=-eq-ok (check_session p x) (λ _. set_user (auth_user x sid)) v1 h1 in
      let (on, email, _) = check_session-eq-ok p x v1 v2 u2 e2 in
      (x, record { stored = stored; active = on; email = email }, sym (ap (λ r. r.1.user) h2))

  validate_user_token-TokenAdmitted :
      (w w' : World R.Store B) (u : Unit {0})
      → validate_user_token R T K P compute_hmac c endpoint request w ≡ (ok u, w')
      → (sid : String) × (x : Session) × TokenAdmitted R c request w sid x
        × (w'.user ≡ some (auth_user x sid))
  unfolding validate_user_token
  validate_user_token-TokenAdmitted w w' u h =
      let (token, v1, e1, h1) =
        >>=-eq-ok (lift (extract_bearer request.authorization))
          (λ token. get_payload c token auth >>= admit_token R T K P compute_hmac c endpoint token)
          w h in
      let (given, same1) = lift-eq-ok (extract_bearer request.authorization) w v1 token e1 in
      let (p, v2, e2, h2) =
        >>=-eq-ok (get_payload c token auth) (admit_token R T K P compute_hmac c endpoint token) v1
          h1 in
      let (accepts, same2) = get_payload-eq-ok c token v1 v2 p e2 in
      let (x, held, user) = admit_token-eq-ok token p w w' u (
        subst (λ u'. admit_token R T K P compute_hmac c endpoint token p u' ≡ (ok u, w'))
          (same2 ∙ same1) h2) in
      (
        get_or p.sid token,
        x,
        record {
          token = token;
          given = given;
          payload = p;
          accepted =
              subst (λ u. Accepts auth (c.library.verify token c.auth_config.secret u.now) p) same1
                accepts;
          named = refl;
          held = held;
        },
        user,
      )

  -- From a cache of the rules and a cache of the keys that are both coherent with the database
  -- (their entries are those of enabled rules and of active keys), whatever calls fail, the guard
  -- lets a request through only if the caller's key passes the checks of the guard of the keys,
  -- and then the bearer token, at the state those checks leave, names a session that is stored,
  -- active and of the token's email. Then the request's user is the session's. The address of the
  -- request plays no part.
  pub microservice_guard-TokenAdmitted :
      (w w' : World R.Store B) (b : Bool)
      → KeysCoherent R K w.redis w.db
      → Coherent R T w.redis w.db
      → microservice_guard R T K P compute_hmac c endpoint request w ≡ (ok b, w')
      → ((k : ApiKey) × KeyAdmitted T K compute_hmac endpoint request w.db k)
        × (sid : String) × (x : Session) × TokenAdmitted R c request
            (api_key_guard R T K P compute_hmac c endpoint request w).1
            sid
            x
        × (w'.user ≡ some (auth_user x sid))
        × (b ≡ true)
  unfolding microservice_guard
  microservice_guard-TokenAdmitted w w' b co rules h =
      let (b1, v1, e1, h1) =
        >>=-eq-ok (api_key_guard R T K P compute_hmac c endpoint request)
          (λ _. validate_user_token R T K P compute_hmac c endpoint request >> pure true) w h in
      let (k, key, _) =
        api_key_guard-KeyAdmitted R T K P compute_hmac c endpoint request w v1 b1 co rules e1 in
      let (u, v2, e2, h2) =
        >>=-eq-ok (validate_user_token R T K P compute_hmac c endpoint request) (λ _. pure true) v1
          h1 in
      let (sid, x, admitted, user) = validate_user_token-TokenAdmitted v1 v2 u e2 in
      (
        (k, key),
        sid,
        x,
        rw (ap (λ r. r.1) e1) admitted,
        ap (λ r. r.1.user) (sym h2) ∙ user,
        ground (arith, h2),
      )
