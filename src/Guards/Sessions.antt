-- ===== src/Guards/Sessions.antt =====
-- The checks of a session that the guards share, inverted.
use auth_microservice.Prelude.{
  String, ◌≡◌, refl, subst, ◌≢◌, inl, inr, true, Option, none, some, arith, eq_iff, truthy,
}
use auth_microservice.Redis.{
  Session, Value, Redis, found, session, api_cache, codes, reset_payload, malformed, empty_text,
  auth_session,
}
use auth_microservice.Exec.{World, calm, lift, continue, ◌>>=◌, ok}
use auth_microservice.Exec.Calls.{SameRequest, on_redis-outcome}
use auth_microservice.Jwt.{Payload}
use auth_microservice.Http.{same_subnet_check}
use auth_microservice.Sessions.{read_session}
use auth_microservice.Rules.{RuleTable}
use auth_microservice.Guards.{
  require_session, require_token, check_session, check_subnet, load_session,
}

module _ {S B : Type 0} where
  pub require_token-eq-ok :
      (o : Option String) (w w' : World S B) (token : String)
      → require_token (truthy o) w ≡ (ok token, w')
      → (o ≡ some token) × (token ≢ "") × (w' ≡ w)
  unfolding require_token
  require_token-eq-ok none w w' token h = absurd (ground arith)
  require_token-eq-ok (some t) w w' token h = ground (arith, eq_iff t "")

  parsed-eq-ok :
      (o : Option Value) (w w' : World S B) (s : Session)
      → continue require_session (read_session (found o), w) ≡ (ok s, w')
      → (o ≡ some (session s)) × (w' ≡ w)
  unfolding require_session
  parsed-eq-ok none w w' s h = absurd (ground arith)
  parsed-eq-ok (some (session x)) w w' s h = ground arith
  parsed-eq-ok (some (api_cache x)) w w' s h = absurd (ground arith)
  parsed-eq-ok (some (codes x)) w w' s h = absurd (ground arith)
  parsed-eq-ok (some (reset_payload x)) w w' s h = absurd (ground arith)
  parsed-eq-ok (some malformed) w w' s h = absurd (ground arith)
  parsed-eq-ok (some empty_text) w w' s h = absurd (ground arith)

  pub check_session-eq-ok :
      (p : Payload) (s : Session) (w w' : World S B) (u : Unit {0})
      → check_session p s w ≡ (ok u, w')
      → (s.active ≡ true) × (s.email ≡ p.email) × (w' ≡ w)
  unfolding check_session
  check_session-eq-ok p s w w' u h = ground (arith, eq_iff s.email p.email)

  pub check_subnet-eq-ok :
      (s : Session) (ip : String) (w w' : World S B) (u : Unit {0})
      → check_subnet s ip w ≡ (ok u, w')
      → (same_subnet_check s.ip ip ≡ true) × (w' ≡ w)
  unfolding check_subnet
  check_subnet-eq-ok s ip w w' u h = ground arith

module _ (R : Redis) {B : Type 0} (T : RuleTable B) where
  pub load_session-eq-ok :
      (sid : String) (w w' : World R.Store B) (s : Session)
      → load_session R T sid w ≡ (ok s, w')
      → (R.get (auth_session sid) w.redis ≡ some (session s))
        × (w'.redis ≡ w.redis)
        × (w'.db ≡ w.db)
        × SameRequest w w'
  unfolding load_session
  load_session-eq-ok sid w w' s h =
      elim (on_redis-outcome (λ r. (found (R.get (auth_session sid) r), r)) w) [
        | inl (v, e, r, d, same) ↦
            let (stored, eq) = parsed-eq-ok (R.get (auth_session sid) w.redis) v w' s (
              subst
                (λ x. continue (λ raw. lift (read_session raw) >>= require_session) x ≡ (ok s, w'))
                e h) in
            (stored, rw eq r, rw eq d, rw eq same)
        | inr (v, e, _, _, _) ↦ absurd (
            ground (
              arith,
              subst
                  (λ x.
                    continue (λ raw. lift (read_session raw) >>= require_session) x ≡ (ok s, w'))
                  e h,
            ))
      ]

  pub load_session-calm :
      (sid : String) (w : World R.Store B) (s : Session)
      → R.get (auth_session sid) w.redis ≡ some (session s)
      → load_session R T sid (calm w) ≡ (ok s, calm w)
  unfolding load_session require_session
  load_session-calm sid w s stored = rw stored refl
