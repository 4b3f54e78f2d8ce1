-- ===== src/Tests/Sessions.antt =====
-- The theorems on sessions at a user with one session and one expired entry in the index.
use auth_microservice.Prelude.{◌≡◌, refl, none, some, [], ◌∷◌}
use auth_microservice.Redis.{perform_all, session, auth_session, user_sessions}
use auth_microservice.Exec.{World, calm, answered, reply_lost, on_redis, Result, ok}
use auth_microservice.Sessions.{m_get, refresh_commands, refresh_session_permissions}
use auth_microservice.Sessions.Permissions.{
  PermissionsRefreshed, SameOrRefreshed, refresh_session_permissions-calm,
  refresh_session_permissions-SameOrRefreshed,
}
use auth_microservice.Sessions.Races.{refresh_revives_deleted}
use auth_microservice.Tests.Memory.{Memory, memory, a_session, with_session}
use auth_microservice.Tests.Tables.{Db}
use auth_microservice.Tests.Worlds.{a_world}

abbrev w1 : World Memory Db
w1 = a_world with_session

refresh_session_permissions-calm_example :
    (after : Memory) × (refresh_session_permissions memory "u1" ("WRITE" ∷ []) (calm w1)
      ≡ (ok tt, record (calm w1) { redis = after }))
    × PermissionsRefreshed memory "u1" ("WRITE" ∷ []) with_session after
refresh_session_permissions-calm_example =
    refresh_session_permissions-calm memory "u1" ("WRITE" ∷ []) w1

abbrev w1_failing : World Memory Db
w1_failing = record w1 { schedule = answered ∷ answered ∷ reply_lost ∷ [] }

refresh_session_permissions-SameOrRefreshed_example :
    SameOrRefreshed memory
      ("WRITE" ∷ [])
      "s1"
      with_session
      (refresh_session_permissions memory "u1" ("WRITE" ∷ []) w1_failing).1.redis
refresh_session_permissions-SameOrRefreshed_example =
    refresh_session_permissions-SameOrRefreshed memory "u1" ("WRITE" ∷ []) w1_failing "s1"

refresh_revives_deleted_example :
    let raws = m_get memory (memory.s_members (user_sessions "u1") w1.redis) w1.redis in
    let write : World Memory Db → Result (Unit {0}) × World Memory Db =
      on_redis (λ s. (tt, perform_all memory (refresh_commands "u1" ("WRITE" ∷ []) raws) s)) in
    let after = write (record (calm w1) { redis = memory.del (auth_session "s1") w1.redis }) in
    (refresh_session_permissions memory "u1"
        ("WRITE" ∷ [])
        (record w1 { schedule = answered ∷ answered ∷ reply_lost ∷ [] })
      ≡ write (record w1 { schedule = reply_lost ∷ [] }))
    × (after.0 ≡ ok tt)
    × (memory.get (auth_session "s1") after.1.redis
        ≡ some (session (record a_session { permissions = "WRITE" ∷ [] })))
    × (memory.ttl (auth_session "s1") after.1.redis ≡ none)
refresh_revives_deleted_example =
    refresh_revives_deleted memory "u1" ("WRITE" ∷ []) "s1" w1 a_session (reply_lost ∷ []) refl refl
