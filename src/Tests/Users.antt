-- ===== src/Tests/Users.antt =====
-- The theorems on users at a database with one user.
use Prim.Native.String.{◌++◌ as ◌<>◌}
use auth_microservice.Prelude.{
  String, ◌≡◌, refl, true, none, some, [], ◌∷◌, arith, ◌==◌, eq_iff, eq_refl, if◌then◌else◌,
}
use auth_microservice.Failure.{Failure, wrap}
use auth_microservice.Redis.{same_key, reset_payload, auth_session, reset_password}
use auth_microservice.Exec.{AuthUser, World, calm, connection_lost, ok, err}
use auth_microservice.Jwt.{Payload, Tokens, get_payload, generate_token, auth, refresh}
use auth_microservice.Http.{
  Request, auth_exception, get_client_ip, same_subnet_check, no_header, one_header,
}
use auth_microservice.Guards.{auth_guard}
use auth_microservice.Users.{
  User, Bcrypt, Services, users_exception, reset_invalid, status_inactive,
}
use auth_microservice.Users.Entering.{refresh_user_token, log_in, log_out}
use auth_microservice.Users.Changing.{register, reset_user_password, deactivate_user}
use auth_microservice.Users.Access.{log_in-auth_guard, log_out-shuts}
use auth_microservice.Users.Accounts.{Moved, change-Moved, suspends}
use auth_microservice.Users.Suspension.{deactivate_user-keeps_session}
use auth_microservice.Users.Passwords.{PasswordSet, reset_user_password-PasswordSet}
use auth_microservice.Tests.Memory.{Memory, memory, empty_memory, a_session, with_session}
use auth_microservice.Tests.Tables.{rules, Db}
use auth_microservice.Tests.Worlds.{users, a_world}
use auth_microservice.Tests.Tokens.{a_config, a_payload, w0}

-- Hashing appends a mark.
abbrev pub marking : Bcrypt
marking = record {
  compare = λ p h. (p <> "!") == h;
  hash = λ salt p. p <> "!";
  compare-hash = λ salt p. eq_refl (p <> "!");
}

abbrev pub services : Services Db
services = record {
  table = users;
  bcrypt = marking;
  jwt = a_config;
  send = λ m. ok tt;
  session_ttl = 60000;
  reset_ttl = 1000;
  device_of = λ agent. agent;
}

abbrev pub login_request : Request
login_request = record {
  auth_token = none;
  api_key = no_header;
  authorization = no_header;
  forwarded_for = one_header "10.0.0.1";
  ip = none;
  remote_address = none;
  user_agent = some "agent";
}

abbrev pub a_tokens : Tokens
a_tokens = record { access_token = "t1"; refresh_token = "t1" }

abbrev pub after_login : World Memory Db
after_login = (log_in memory services "a@b.c" "pw" "s1" login_request w0).1

pub logged_in :
    log_in memory services "a@b.c" "pw" "s1" login_request w0 ≡ (ok a_tokens, after_login)
unfolding log_in
logged_in = refl

-- The request comes four seconds later from another address of the subnet.
abbrev later : World Memory Db
later = record after_login { now = 5000 }

abbrev later_request : Request
later_request = record login_request {
  auth_token = some "t1";
  forwarded_for = one_header "10.0.0.9";
}

near_login : same_subnet_check (get_client_ip login_request) (get_client_ip later_request) ≡ true
unfolding same_subnet_check get_client_ip
near_login = refl

log_in-auth_guard_example :
    (auth_guard memory rules a_config none later_request (calm later)).0 ≡ ok true
log_in-auth_guard_example =
    log_in-auth_guard memory services rules "a@b.c" "pw" "s1" login_request later_request w0
      after_login later a_tokens logged_in (ground (arith, eq_iff "a@b.c" ""))
      (ground (arith, eq_iff "s1" "")) (ground (arith, eq_iff "t1" "")) refl (omega arith) refl
      near_login

abbrev pub login_user : AuthUser
login_user = record { id = "u1"; person_id = "person1"; email = "a@b.c"; session_id = "s1" }

abbrev pub w1 : World Memory Db
w1 = a_world with_session

abbrev pub after_logout : World Memory Db
after_logout = (log_out memory services login_user w1).1

pub logged_out : log_out memory services login_user w1 ≡ (ok tt, after_logout)
unfolding log_out
logged_out = refl

abbrev t1_payload : Payload
t1_payload = record { email = "a@b.c"; exp = 901; sid = some "s1" }

logged_out_auth : get_payload a_config "t1" auth after_logout ≡ (ok t1_payload, after_logout)
unfolding get_payload log_out
logged_out_auth = refl

logged_out_refresh : get_payload a_config "t1" refresh after_logout ≡ (ok t1_payload, after_logout)
unfolding get_payload log_out
logged_out_refresh = refl

log_out-shuts_example :
    (memory.get (auth_session "s1") after_logout.redis ≡ none)
    × ((auth_guard memory rules a_config none later_request (calm after_logout)).0
        ≡ err (auth_exception "Session expired or invalid" "SESSION_INVALID" 401))
    × ((refresh_user_token memory services "t1" (calm after_logout)).0
        ≡ err (users_exception "Session expired or invalid" "SESSION_INVALID" 401))
log_out-shuts_example =
    log_out-shuts memory services rules none login_user later_request "t1" "t1" t1_payload
      t1_payload w1 after_logout logged_out refl (ground (arith, eq_iff "t1" "")) logged_out_auth
      refl logged_out_refresh refl

abbrev after_suspension : World Memory Db
after_suspension = (deactivate_user memory services "u1" w1).1

suspended_u1 : deactivate_user memory services "u1" w1 ≡ (ok tt, after_suspension)
unfolding deactivate_user
suspended_u1 = refl

change-Moved_example : Moved memory services (suspends "u1") w1 after_suspension
change-Moved_example = change-Moved memory services (suspends "u1") w1 after_suspension suspended_u1

suspended_payload :
    get_payload a_config "t1" refresh after_suspension ≡ (ok t1_payload, after_suspension)
unfolding get_payload deactivate_user
suspended_payload = refl

suspended_auth :
    generate_token a_config a_payload auth after_suspension ≡ (ok "t1", after_suspension)
unfolding generate_token deactivate_user
suspended_auth = refl

suspended_refresh :
    generate_token a_config a_payload refresh after_suspension ≡ (ok "t1", after_suspension)
unfolding generate_token deactivate_user
suspended_refresh = refl

deactivate_user-keeps_session_example :
    (u : User) × (users.find_one_by_id "u1" after_suspension.db ≡ some u)
    × (u.status ≡ status_inactive)
    × (ts : Tokens) × (ts.access_token ≡ "t1")
    × ((refresh_user_token memory services "t1" (calm after_suspension)).0 ≡ ok ts)
deactivate_user-keeps_session_example =
    deactivate_user-keeps_session memory services "u1" "t1" "t1" "t1" t1_payload a_session w1
      after_suspension suspended_u1 refl refl refl suspended_payload suspended_auth
      suspended_refresh

abbrev w2 : World Memory Db
w2 = a_world (record empty_memory {
  texts = λ k. if same_key (reset_password "tok") k then some (reset_payload "u1") else none;
})

abbrev after_reset : World Memory Db
after_reset = (reset_user_password memory services "tok" "new" "salt" w2).1

was_reset : reset_user_password memory services "tok" "new" "salt" w2 ≡ (ok tt, after_reset)
unfolding reset_user_password
was_reset = refl

reset_user_password-PasswordSet_example :
    (id : String) × (memory.get (reset_password "tok") w2.redis ≡ some (reset_payload id))
    × PasswordSet memory services "new" id w2 after_reset
    × (memory.get (reset_password "tok") after_reset.redis ≡ none)
    × ((reset_user_password memory services "tok" "other" "salt2" (calm after_reset)).0
        ≡ err reset_invalid)
reset_user_password-PasswordSet_example =
    reset_user_password-PasswordSet memory services "tok" "new" "salt" "other" "salt2" w2
      after_reset was_reset

-- The mail cannot be sent.
abbrev mute_services : Services Db
mute_services = record services { send = λ m. err connection_lost }

abbrev unsent : Failure
unsent = wrap "UsersException" "User registration failed" "USER_NOT_REGISTERED" 500 connection_lost

abbrev w3 : World Memory Db
w3 = record w0 { db = record { rule = none; key = none; user = none } }

register_failed :
    register memory mute_services "x@y.z" "person2" ("role1" ∷ []) "pw" "salt" w3 ≡ (err unsent, w3)
unfolding register
register_failed = refl
