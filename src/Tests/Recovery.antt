-- ===== src/Tests/Recovery.antt =====
-- The theorem on a forgotten password at a database with one user.
use auth_microservice.Prelude.{◌≡◌, refl, some, arith, eq_iff}
use auth_microservice.Exec.{World, calm, ok}
use auth_microservice.Jwt.{generate_token, auth, refresh}
use auth_microservice.Users.Entering.{log_in}
use auth_microservice.Users.Changing.{forgot_password, reset_user_password}
use auth_microservice.Users.Recovery.{forgot_password-log_in}
use auth_microservice.Tests.Memory.{Memory, memory}
use auth_microservice.Tests.Tables.{Db}
use auth_microservice.Tests.Worlds.{a_user}
use auth_microservice.Tests.Tokens.{a_payload, a_config, w0}
use auth_microservice.Tests.Users.{services, login_request, a_tokens}

abbrev reset_db : Db
reset_db = record w0.db { user = some (record a_user { password = "new!" }) }

abbrev w_asked : World Memory Db
w_asked = (forgot_password memory services "a@b.c" "tok" (calm w0)).1

abbrev w_reset : World Memory Db
w_reset = (reset_user_password memory services "tok" "new" "salt" w_asked).1

signs_auth : generate_token a_config a_payload auth (calm w0) ≡ (ok "t1", calm w0)
unfolding generate_token
signs_auth = refl

signs_refresh : generate_token a_config a_payload refresh (calm w0) ≡ (ok "t1", calm w0)
unfolding generate_token
signs_refresh = refl

forgot_password-log_in_example :
    ((forgot_password memory services "a@b.c" "tok" (calm w0)).0 ≡ ok tt)
    × ((reset_user_password memory services "tok" "new" "salt" w_asked).0 ≡ ok tt)
    × ((log_in memory services "a@b.c" "new" "s1" login_request w_reset).0 ≡ ok a_tokens)
forgot_password-log_in_example =
    forgot_password-log_in memory services "a@b.c" "tok" "salt" "new" "s1" "t1" "t1" login_request
      a_user w0 reset_db refl refl (ground (arith, eq_iff "new" ""))
      (ground (arith, eq_iff "new" "pw!")) refl refl refl signs_auth signs_refresh
