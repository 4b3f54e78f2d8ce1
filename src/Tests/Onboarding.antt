-- ===== src/Tests/Onboarding.antt =====
-- The theorem on a new user at a database without users.
use auth_microservice.Prelude.{◌≡◌, refl, none, some, [], ◌∷◌, arith, eq_iff}
use auth_microservice.Exec.{World, calm, ok}
use auth_microservice.Jwt.{generate_token, auth, refresh}
use auth_microservice.Users.{User, find_roles, status_active}
use auth_microservice.Users.Entering.{log_in}
use auth_microservice.Users.Changing.{new_user, register, first_activation}
use auth_microservice.Users.Onboarding.{register-log_in}
use auth_microservice.Tests.Memory.{Memory, memory}
use auth_microservice.Tests.Tables.{Db}
use auth_microservice.Tests.Worlds.{a_role}
use auth_microservice.Tests.Tokens.{a_payload, a_config, w0}
use auth_microservice.Tests.Users.{services, login_request, a_tokens}

abbrev w_empty : World Memory Db
w_empty = record (calm w0) { db = record w0.db { user = none } }

abbrev newcomer : User
newcomer = new_user memory services "u2" "a@b.c" "person2" "first!" (a_role ∷ [])

abbrev with_newcomer : Db
with_newcomer = record w0.db { user = some newcomer }

abbrev with_active : Db
with_active = record w0.db {
  user = some (record newcomer { password = "mine!"; status = status_active });
}

abbrev w_registered : World Memory Db
w_registered =
    (register memory services "a@b.c" "person2" ("role1" ∷ []) "first" "salt" (calm w_empty)).1

abbrev w_activated : World Memory Db
w_activated = (first_activation memory services "a@b.c" "first" "mine" "salt" w_registered).1

role_there :
    find_roles memory services ("role1" ∷ []) (calm w_empty) ≡ (ok (a_role ∷ []), calm w_empty)
unfolding find_roles
role_there = refl

signs_new_auth : generate_token a_config a_payload auth (calm w_empty) ≡ (ok "t1", calm w_empty)
unfolding generate_token
signs_new_auth = refl

signs_new_refresh :
    generate_token a_config a_payload refresh (calm w_empty) ≡ (ok "t1", calm w_empty)
unfolding generate_token
signs_new_refresh = refl

register-log_in_example :
    ((register memory services "a@b.c" "person2" ("role1" ∷ []) "first" "salt" (calm w_empty)).0
      ≡ ok tt)
    × ((first_activation memory services "a@b.c" "first" "mine" "salt" w_registered).0 ≡ ok tt)
    × ((log_in memory services "a@b.c" "mine" "s1" login_request w_activated).0 ≡ ok a_tokens)
register-log_in_example =
    register-log_in memory services "a@b.c" "person2" "first" "mine" "salt" "salt" "s1" "t1" "t1"
      ("role1" ∷ []) (a_role ∷ []) login_request w_empty with_newcomer with_active role_there
      (ground (arith, eq_iff "first" "")) (ground (arith, eq_iff "mine" ""))
      (ground (arith, eq_iff "mine" "first!")) refl refl refl signs_new_auth signs_new_refresh
