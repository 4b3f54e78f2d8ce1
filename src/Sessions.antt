-- ===== src/Sessions.antt =====
-- src/services/sessions/sessions.service.ts.
pub mod Refresh
pub mod Permissions
pub mod Races
use auth_microservice.Prelude.{
  String, ℕ, Bool, false, List, [], ◌∷◌, ◌++◌, map, Option, none, some, length,
}
use auth_microservice.Failure.{Failure, plain}
use auth_microservice.Exec.{
  World, Exec, Result, ok, err, pure, lift, attempt, on_redis, ◌>>=◌, ◌>>◌,
}
use auth_microservice.Redis.{
  Redis, Session, Value, session, auth_session, user_sessions, found, keep_ttl, Queued, q_set,
  q_s_rem, perform_all,
}

abbrev pub syntax_error : Failure
syntax_error = record { link = plain "SyntaxError" "invalid JSON"; causes = [] }

-- `JSON.parse(raw) as Session`. Only sessions are stored under a session's key.
abbrev pub parse_session : Value → Result Session
parse_session (session s) = ok s
parse_session _ = err syntax_error

-- `raw ? (JSON.parse(raw) as Session) : null`.
abbrev pub read_session : Option Value → Result (Option Session)
read_session none = ok none
read_session (some v) = elim (parse_session v) [ ok s ↦ ok (some s) | err e ↦ err e ]

pub record SessionWithSid : Type 0 where
  pub sid : String
  pub session : Session
  pub open session use *

pub record UserSessions : Type 0 where
  pub sessions : List SessionWithSid
  pub total : ℕ

-- What `refreshSessionPermissions` queues for one session of the index.
unfoldable pub refresh_command : (user_id : String) → List String → String × Option Value → Queued
refresh_command user_id permissions (sid, none) = q_s_rem (user_sessions user_id) sid
refresh_command user_id permissions (sid, some v) = elim (parse_session v) [
  | ok s ↦ q_set keep_ttl (auth_session sid) (session (record s { permissions = permissions }))
  | err e ↦ q_s_rem (user_sessions user_id) sid
]

-- `mGet` of the sessions' keys, with the texts that count as missing left out.
abbrev pub m_get : (R : Redis) → List String → R.Store → List (String × Option Value)
m_get R sids s = map (λ sid. (sid, found (R.get (auth_session sid) s))) sids

-- The commands that `refreshSessionPermissions` queues for the index's sessions, from what it read.
abbrev pub refresh_commands :
    (user_id : String) → List String → List (String × Option Value) → List Queued
refresh_commands user_id permissions = map (refresh_command user_id permissions)

module _ (R : Redis) {B : Type 0} where
  -- The loop of `findUserSessions`.
  collect :
      (user_id : String)
      → List (String × Option Value)
      → List SessionWithSid
      → Exec R.Store B (List SessionWithSid)
  unfolding on_redis
  collect user_id [] sessions = pure sessions
  collect user_id ((sid, none) ∷ rest) sessions =
      let later = collect user_id rest sessions in
      on_redis (λ s. (tt, R.s_rem (user_sessions user_id) sid s)) >> later
  collect user_id ((sid, some v) ∷ rest) sessions = elim (parse_session v) [
    | ok parsed ↦ collect user_id rest (sessions ++ record { sid = sid; session = parsed } ∷ [])
    | err e ↦
        on_redis (λ s. (tt, R.s_rem (user_sessions user_id) sid s)) >> collect user_id rest sessions
  ]

  -- `findUserSessions` behind `sMembers`.
  list_sessions : (user_id : String) → List String → Exec R.Store B UserSessions
  unfolding collect on_redis
  list_sessions user_id [] = pure (record { sessions = []; total = 0 })
  list_sessions user_id (sid ∷ more) = do
    raws ← on_redis (λ s. (m_get R (sid ∷ more) s, s))
    sessions ← collect user_id raws []
    pure (record { sessions = sessions; total = length sessions })

  unfoldable pub find_user_sessions : (user_id : String) → Exec R.Store B UserSessions
  unfolding list_sessions on_redis
  find_user_sessions user_id =
      on_redis (λ s. (R.s_members (user_sessions user_id) s, s)) >>= list_sessions user_id

  deactivate : (sid : String) → Option Session → Exec R.Store B String
  unfolding on_redis
  deactivate sid none = pure "Session not found"
  deactivate sid (some s) = do
    on_redis
        (λ r. (tt, R.set keep_ttl (auth_session sid) (session (record s { active = false })) r))
    pure "Session deactivated"

  unfoldable pub deactivate_session : (sid : String) → Exec R.Store B String
  unfolding on_redis deactivate
  deactivate_session sid = do
    raw ← on_redis (λ s. (found (R.get (auth_session sid) s), s))
    s ← lift (read_session raw)
    deactivate sid s

  -- `refreshSessionPermissions` behind `sMembers`.
  unfoldable pub refresh_index :
      (user_id : String) → List String → List String → Exec R.Store B (Unit {0})
  unfolding on_redis refresh_command
  refresh_index user_id permissions [] = pure tt
  refresh_index user_id permissions (sid ∷ more) = do
    raws ← on_redis (λ s. (m_get R (sid ∷ more) s, s))
    on_redis (λ s. (tt, perform_all R (refresh_commands user_id permissions raws) s))

  unfoldable pub refresh_session_permissions :
      (user_id : String) (permissions : List String) → Exec R.Store B (Unit {0})
  unfolding on_redis refresh_index
  refresh_session_permissions user_id permissions =
      on_redis (λ s. (R.s_members (user_sessions user_id) s, s))
      >>= refresh_index user_id permissions

  -- The loop of `refreshSessionPermissionsByRole` over the users that hold the role, which the caller
  -- reads from the database, each with its permission codes.
  unfoldable pub refresh_users : List (String × List String) → Exec R.Store B (Unit {0})
  unfolding refresh_session_permissions
  refresh_users [] = pure tt
  refresh_users ((user_id, codes) ∷ users) =
      let later = refresh_users users in refresh_session_permissions user_id codes >> later
