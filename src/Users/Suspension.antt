-- ===== src/Users/Suspension.antt =====
-- What a deactivation of a user leaves behind.
use auth_microservice.Prelude.{String, ◌≡◌, refl, ap, subst, true, some, get_or}
use auth_microservice.Redis.{Session, Redis, session, auth_session}
use auth_microservice.Exec.{World, calm, ok}
use auth_microservice.Jwt.{Payload, Tokens, get_payload, generate_token, auth, refresh}
use auth_microservice.Users.{User, Services, status_inactive}
use auth_microservice.Users.Entering.{refresh_user_token}
use auth_microservice.Users.Accounts.{change-Moved, suspends}
use auth_microservice.Users.Changing.{deactivate_user}
use auth_microservice.Users.Staying.{refresh_user_token-calm}

module _ (R : Redis) {B : Type 0} (V : Services B) where
  -- Deactivating a user leaves the user's sessions alone: after a deactivation that succeeded, whatever
  -- calls failed in it, the user's row is inactive, and while Redis and the database answer and the
  -- signer signs, an accepted refresh token of a session of that user that was active before
  -- still renews: it is answered with a new access token.
  pub deactivate_user-keeps_session :
      (id token access next : String) (p : Payload) (x : Session) (w w' : World R.Store B)
      → deactivate_user R V id w ≡ (ok tt, w')
      → R.get (auth_session (get_or p.sid "")) w.redis ≡ some (session x)
      → x.user_id ≡ id
      → x.active ≡ true
      → get_payload V.jwt token refresh w' ≡ (ok p, w')
      → generate_token V.jwt (record { email = p.email; sid = get_or p.sid "" }) auth w'
        ≡ (ok access, w')
      → generate_token V.jwt (record { email = p.email; sid = get_or p.sid "" }) refresh w'
        ≡ (ok next, w')
      → (u : User) × (V.table.find_one_by_id id w'.db ≡ some u)
        × (u.status ≡ status_inactive)
        × (ts : Tokens) × (ts.access_token ≡ access)
        × ((refresh_user_token R V token (calm w')).0 ≡ ok ts)
  deactivate_user-keeps_session id token access next p x w w' h stored owned on accepts a f =
      let m = change-Moved R V (suspends id) w w' h in
      let same_id : m.old.id ≡ id = (V.table.by_id id m.old w.db m.concerns.0).0 in
      let row : V.table.find_one_by_id id w'.db ≡ some m.new =
        subst (λ i. V.table.find_one_by_id i w'.db ≡ some m.new) same_id m.is in
      let (ts, is, done) =
        refresh_user_token-calm R V token access next p x m.new w' accepts
          (rw (m.same_redis) stored) on (rw owned row) a f in
      (m.new, row, rw (m.becomes) refl, ts, is, ap (λ r. r.0) done)
