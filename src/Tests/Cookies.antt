-- ===== src/Tests/Cookies.antt =====
-- The theorems on cookies and on renewed tokens at a browser and a service that set a domain.
use auth_microservice.Prelude.{
  ℕ, String, ◌≡◌, refl, ◌⊎◌, ◌&&◌, Option, none, some, List, [], arith, ◌==◌, eq_iff, if◌then◌else◌,
  truthy, In, ◌↔◌,
}
use auth_microservice.Failure.{Failure}
use auth_microservice.Redis.{session, auth_session}
use auth_microservice.Exec.{World, calm, Result, ok, err}
use auth_microservice.Jwt.{Tokens, generate_token, auth, refresh}
use auth_microservice.Users.Entering.{refresh_user_token, log_in}
use auth_microservice.Users.Described.{described, GrantsCode}
use auth_microservice.Users.{role_codes, users_exception}
use auth_microservice.Users.Cookies.{
  Environment, CookieCall, get_ttl_from_env, set_cookies, log_in_handler, refresh_token_handler,
  log_out_handler, same_domain, Browser, receive_all, cookie, clear_cookie,
}
use auth_microservice.Users.Browsers.{log_out_handler-left_of}
use auth_microservice.Users.Renewal.{IsRenewed, both_cookies, refresh_token_handler-IsRenewed}
use auth_microservice.Users.Staying.{log_in-refresh_token_handler}
use auth_microservice.Tests.Memory.{Memory, memory}
use auth_microservice.Tests.Tables.{Db}
use auth_microservice.Tests.Worlds.{users, a_user}
use auth_microservice.Tests.Tokens.{a_payload, a_config, w0}
use auth_microservice.Tests.Users.{
  services, login_request, a_tokens, after_login, logged_in, login_user, w1, after_logout,
  logged_out,
}

-- The jar is the function that finds a cookie.
abbrev FoundCookies : Type 0
FoundCookies = String → Option String → String → Option String

abbrev put : CookieCall → FoundCookies → FoundCookies
put (cookie name token o) j other domain path =
    if (name == other) && (same_domain o.domain domain && (o.path == path))
    then some token
    else j other domain path
put (clear_cookie name cleared_path) j other domain path =
    if (name == other) && (same_domain none domain && (cleared_path == path))
    then none
    else j other domain path

abbrev a_browser : Browser
a_browser = record {
  Jar = FoundCookies;
  held = λ name domain path j. j name domain path;
  receive = put;
  held-cookie = λ name token o n other domain path j e. refl;
  held-clear_cookie = λ name path other domain other_path j. refl;
}

abbrev empty_jar : FoundCookies
empty_jar name domain path = none

abbrev an_environment : Environment
an_environment = record {
  variables = λ key. if key == "COOKIE_DOMAIN" then some "example.org" else some "1s";
  ms = λ s. ok (some 1000);
}

auth_lifetime : get_ttl_from_env an_environment "JWT_AUTH_EXPIRES_IN" ≡ ok (some 1000)
unfolding get_ttl_from_env
auth_lifetime = refl

refresh_lifetime : get_ttl_from_env an_environment "JWT_REFRESH_EXPIRES_IN" ≡ ok (some 1000)
unfolding get_ttl_from_env
refresh_lifetime = refl

abbrev jar_after_login : FoundCookies
jar_after_login =
    receive_all a_browser
      (log_in_handler an_environment memory services "a@b.c" "pw" "s1" login_request w0).0.1
      empty_jar

abbrev jar_after_logout : FoundCookies
jar_after_logout =
    receive_all a_browser (log_out_handler an_environment memory services login_user w1).0.1
      jar_after_login

log_out_handler-left_of_example :
    ((log_in_handler an_environment memory services "a@b.c" "pw" "s1" login_request w0).0.0 ≡ ok tt)
    × (jar_after_login "auth_token" (some "example.org") "/" ≡ some "t1")
    × (jar_after_login "refresh_token" (some "example.org") "/users/refresh-token" ≡ some "t1")
    × ((log_out_handler an_environment memory services login_user w1).0.0 ≡ ok tt)
    × (jar_after_logout "auth_token" (some "example.org") "/" ≡ some "t1")
    × (jar_after_logout "refresh_token" (some "example.org") "/users/refresh-token" ≡ some "t1")
log_out_handler-left_of_example =
    log_out_handler-left_of an_environment a_browser memory services 999 999 "a@b.c" "pw" "s1"
      login_request login_user empty_jar a_tokens w0 after_login w1 after_logout auth_lifetime
      refresh_lifetime logged_in logged_out

-- Half a second after the login.
abbrev soon : World Memory Db
soon = record after_login { now = 1500 }

abbrev after_renewal : World Memory Db
after_renewal = (refresh_token_handler an_environment memory services (some "t1") (calm soon)).1

soon_renewed : refresh_token_handler an_environment memory services (some "t1") (calm soon) ≡ (
  (ok tt, both_cookies memory services an_environment a_tokens (some 1000) (some 1000)),
  after_renewal,
)
unfolding log_in refresh_token_handler refresh_user_token set_cookies get_ttl_from_env
soon_renewed = refl

soon_row : users.find_one_by_id "u1" soon.db ≡ some a_user
unfolding log_in
soon_row = refl

soon_auth : generate_token a_config a_payload auth soon ≡ (ok "t1", soon)
unfolding log_in generate_token
soon_auth = refl

soon_refresh : generate_token a_config a_payload refresh soon ≡ (ok "t1", soon)
unfolding log_in generate_token
soon_refresh = refl

log_in-refresh_token_handler_example :
    (ts : Tokens) × (after : World Memory Db) × (ts.access_token ≡ "t1")
    × (refresh_token_handler an_environment memory services (some "t1") (calm soon)
        ≡ ((ok tt, both_cookies memory services an_environment ts (some 1000) (some 1000)), after))
    × (memory.get (auth_session "s1") after.redis
        ≡ some (session (described services a_user a_user.roles login_request 1000 1500)))
    × ((c : String) → In c (role_codes a_user.roles) ↔ GrantsCode c a_user.roles)
log_in-refresh_token_handler_example =
    log_in-refresh_token_handler memory services an_environment (some 1000) (some 1000) "a@b.c" "pw"
      "s1" "t1" "t1" login_request a_user a_user w0 after_login soon a_tokens auth_lifetime
      refresh_lifetime logged_in (ground (arith, eq_iff "a@b.c" ""))
      (ground (arith, eq_iff "s1" "")) (ground (arith, eq_iff "t1" "")) refl (omega arith) refl
      soon_row soon_auth soon_refresh

-- The answer to the renewal.
abbrev done : Result (Unit {0})
done = ok tt

abbrev renewed_cookies : List CookieCall
renewed_cookies = both_cookies memory services an_environment a_tokens (some 1000) (some 1000)

refresh_token_handler-IsRenewed_example :
    ((truthy (some "t1") ≡ none)
      × (done ≡ err (users_exception "Refresh token cookie missing" "REFRESH_TOKEN_MISSING" 401))
      × (renewed_cookies ≡ [])
      × (after_renewal ≡ calm soon))
    ⊎ ((token : String) × (truthy (some "t1") ≡ some token)
        × (((e : Failure) × (done ≡ err e))
            ⊎ ((ts : Tokens) × (a : Option ℕ) × (b : Option ℕ) × IsRenewed memory services token
                  (calm soon)
                  after_renewal
                  ts
                × (get_ttl_from_env an_environment "JWT_AUTH_EXPIRES_IN" ≡ ok a)
                × (get_ttl_from_env an_environment "JWT_REFRESH_EXPIRES_IN" ≡ ok b)
                × (renewed_cookies ≡ both_cookies memory services an_environment ts a b))))
refresh_token_handler-IsRenewed_example =
    refresh_token_handler-IsRenewed memory services an_environment (some "t1") (calm soon)
      after_renewal done renewed_cookies soon_renewed
