-- ===== src/Sessions/Races.antt =====
-- `refreshSessionPermissions` reads the sessions in one call and writes them in a later one. What
-- another request does between the two is overwritten.
use auth_microservice.Prelude.{
  String, ◌≡◌, refl, true, false, none, some, List, [], ◌∷◌, arith, eq_refl, includes,
}
use auth_microservice.Redis.{
  Session, Redis, perform_all, session, auth_session, user_sessions, keep_ttl,
}
use auth_microservice.Exec.{World, Result, Delivery, answered, on_redis, calm, ok}
use auth_microservice.Sessions.{
  m_get, refresh_commands, refresh_index, refresh_session_permissions, deactivate_session,
}
use auth_microservice.Sessions.Refresh.{get-refresh_commands, ttl-refresh_commands}

-- Deactivating a session that is there writes it back inactive and keeps its time to live.
pub deactivate_session-calm :
    (R : Redis) {B : Type 0} (sid : String) (w : World R.Store B) (x : Session)
    → R.get (auth_session sid) w.redis ≡ some (session x)
    → deactivate_session R sid (calm w) ≡ (
      ok "Session deactivated",
      record (calm w) {
        redis = R.set keep_ttl (auth_session sid) (session (record x { active = false })) w.redis;
      },
    )
unfolding deactivate_session
deactivate_session-calm R sid w x here = rw here

read_twice :
    (R : Redis) {B : Type 0} (user_id : String) (permissions sids : List String) (sid : String)
    (w : World R.Store B) (rest : List Delivery)
    → includes sids sid ≡ true
    → w.schedule ≡ answered ∷ rest
    → refresh_index R user_id permissions sids w
      ≡ on_redis
          (λ s. (tt, perform_all R (refresh_commands user_id permissions (m_get R sids w.redis)) s))
          (record w { schedule = rest })
unfolding refresh_index on_redis
read_twice R user_id permissions [] sid w rest listed next = absurd (ground arith)
read_twice R user_id permissions (s ∷ sids) sid w rest listed next = rw next refl

module _ (R : Redis) {B : Type 0} (user_id : String) (permissions : List String) where
  -- A permission refresh of a user with a session in the index reads the index and the sessions in
  -- its first two calls; where these are answered, what is left of it is one write of what it
  -- read. If the session is deleted (which is how a user logs out) before that write, and Redis
  -- answers, then the write succeeds and brings the session back, with the new permissions and
  -- whatever `active` it had, and without a time to live: it never expires.
  pub refresh_revives_deleted :
      (sid : String) (w : World R.Store B) (x : Session) (rest : List Delivery)
      → includes (R.s_members (user_sessions user_id) w.redis) sid ≡ true
      → R.get (auth_session sid) w.redis ≡ some (session x)
      → let raws = m_get R (R.s_members (user_sessions user_id) w.redis) w.redis in
        let write : World R.Store B → Result (Unit {0}) × World R.Store B =
          on_redis (λ s. (tt, perform_all R (refresh_commands user_id permissions raws) s)) in
        let after = write (record (calm w) { redis = R.del (auth_session sid) w.redis }) in
        (refresh_session_permissions R user_id permissions
            (record w { schedule = answered ∷ answered ∷ rest })
          ≡ write (record w { schedule = rest }))
        × (after.0 ≡ ok tt)
        × (R.get (auth_session sid) after.1.redis
            ≡ some (session (record x { permissions = permissions })))
        × (R.ttl (auth_session sid) after.1.redis ≡ none)
  unfolding refresh_session_permissions on_redis
  refresh_revives_deleted sid w x rest listed here =
      let sids = R.s_members (user_sessions user_id) w.redis in
      (
        read_twice R user_id permissions sids sid (record w { schedule = answered ∷ rest }) rest
            listed refl,
        refl,
        ground (
          arith,
          get-refresh_commands R user_id permissions sids sid w.redis
              (R.del (auth_session sid) w.redis),
          eq_refl sid,
        ),
        ground (
          arith,
          ttl-refresh_commands R user_id permissions sids (auth_session sid) w.redis
              (R.del (auth_session sid) w.redis),
          R.ttl-del (auth_session sid) (auth_session sid) w.redis,
          eq_refl sid,
        ),
      )

module _ (R : Redis) (user_id : String) (permissions : List String) (sids : List String) where
  -- If an active session is deactivated between the reading and the writing of a refresh, the write makes it active again.
  pub refresh_reactivates :
      {B : Type 0} (sid : String) (w : World R.Store B) (x : Session)
      → includes sids sid ≡ true
      → R.get (auth_session sid) w.redis ≡ some (session x)
      → x.active ≡ true
      → let between = (deactivate_session R sid (calm w)).1.redis in
        (R.get (auth_session sid) between ≡ some (session (record x { active = false })))
        × (R.get
              (auth_session sid)
              (perform_all R (refresh_commands user_id permissions (m_get R sids w.redis)) between)
            ≡ some (session (record x { permissions = permissions; active = true })))
  refresh_reactivates sid w x listed here on = rw (deactivate_session-calm R sid w x here) (
      ground (
        arith,
        get-refresh_commands R user_id permissions sids sid w.redis
            (R.set keep_ttl (auth_session sid) (session (record x { active = false })) w.redis),
        R.get-set keep_ttl (auth_session sid) (auth_session sid)
            (session (record x { active = false })) w.redis,
        eq_refl sid,
      ))
