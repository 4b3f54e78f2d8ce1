-- ===== src/Users/Cookies.antt =====
-- src/common/utils/cookie-options.util.ts, src/common/utils/get-ttl.util.ts and the handlers of
-- src/services/users/users.controller.ts that hand out or clear cookies. The variables of the
-- environment and the package `ms` are parameters. A handler answers with its result, of which the
-- message is left out, and with the calls that it made on the response, in order.
use Prim.Native.String.{◌++◌ as ◌<>◌}
use auth_microservice.Prelude.{
  ℕ, suc, String, ◌≡◌, Bool, true, false, not, ◌&&◌, Option, none, some, List, [], ◌∷◌, ◌==◌,
  if◌then◌else◌, truthy, get_or,
}
use auth_microservice.Failure.{Failure, plain}
use auth_microservice.Redis.{Redis}
use auth_microservice.Exec.{AuthUser, World, Result, ok, err}
use auth_microservice.Jwt.{Tokens}
use auth_microservice.Http.{Request}
use auth_microservice.Users.{Services, users_exception}
use auth_microservice.Users.Entering.{refresh_user_token, log_in, log_out}

-- `variables` is `process.env`. `ms` is the package with its answer rounded down, its exceptions
-- included; none is its answer for a text that it cannot read (NaN, once rounded).
pub record Environment : Type 0 where
  pub variables : String → Option String
  pub ms : String → Result (Option ℕ)

pub record CookieOptions : Type 0 where
  pub http_only : Bool
  pub secure : Bool
  pub same_site : String
  pub path : String
  pub domain : Option String
  pub max_age : Option ℕ

-- A call on the response; `clearCookie` is given a path and nothing else.
pub data CookieCall : Type 0 where
  cookie : (name token : String) → CookieOptions → CookieCall
  clear_cookie : (name path : String) → CookieCall

abbrev pub refresh_token_missing : Failure
refresh_token_missing = users_exception "Refresh token cookie missing" "REFRESH_TOKEN_MISSING" 401

module _ (E : Environment) where
  abbrev ttl_of : (key : String) → Option String → Result (Option ℕ)
  ttl_of key none =
      err (record { link = plain "Error" ("Missing environment variable " <> key); causes = [] })
  ttl_of key (some s) = E.ms s

  unfoldable pub get_ttl_from_env : (key : String) → Result (Option ℕ)
  get_ttl_from_env key = ttl_of key (truthy (E.variables key))

  -- `process.env.COOKIE_DOMAIN || undefined`.
  abbrev pub cookie_domain : Option String
  cookie_domain = truthy (E.variables "COOKIE_DOMAIN")

  abbrev pub options : (path : String) (max_age : Option ℕ) → CookieOptions
  options path max_age = record {
    http_only = true;
    secure = not (get_or (E.variables "COOKIE_SECURE") "" == "false");
    same_site = "strict";
    path = path;
    domain = cookie_domain;
    max_age = max_age;
  }

  abbrev with_ttl : (path : String) → Result (Option ℕ) → Result CookieOptions
  with_ttl path (ok n) = ok (options path n)
  with_ttl path (err e) = err e

  unfoldable pub get_auth_cookie_options : Result CookieOptions
  unfolding get_ttl_from_env
  get_auth_cookie_options = with_ttl "/" (get_ttl_from_env "JWT_AUTH_EXPIRES_IN")

  unfoldable pub get_refresh_cookie_options : Result CookieOptions
  unfolding get_ttl_from_env
  get_refresh_cookie_options =
      with_ttl "/users/refresh-token" (get_ttl_from_env "JWT_REFRESH_EXPIRES_IN")

  -- The two calls of `response.cookie`: an exception of the options comes before its call.
  abbrev cookie_calls :
      Tokens → Result CookieOptions → Result CookieOptions → Result (Unit {0}) × List CookieCall
  cookie_calls ts (err e) o = (err e, [])
  cookie_calls ts (ok a) (err e) = (err e, cookie "auth_token" ts.access_token a ∷ [])
  cookie_calls ts (ok a) (ok b) = (
    ok tt,
    cookie "auth_token" ts.access_token a ∷ cookie "refresh_token" ts.refresh_token b ∷ [],
  )

  unfoldable pub set_cookies : Tokens → Result (Unit {0}) × List CookieCall
  unfolding get_auth_cookie_options get_refresh_cookie_options
  set_cookies ts = cookie_calls ts get_auth_cookie_options get_refresh_cookie_options

  abbrev pub Answered : (S B : Type 0) → Type 0
  Answered S B = (Result (Unit {0}) × List CookieCall) × World S B

  module _ (R : Redis) {B : Type 0} (V : Services B) where
    abbrev pub hand_out : Result Tokens × World R.Store B → Answered R.Store B
    hand_out (ok ts, w) = (set_cookies ts, w)
    hand_out (err e, w) = ((err e, []), w)

    -- `logIn` of the controller.
    unfoldable pub log_in_handler :
        (email password sid : String) → Request → World R.Store B → Answered R.Store B
    unfolding log_in set_cookies
    log_in_handler email password sid request w = hand_out (log_in R V email password sid request w)

    abbrev pub from_cookie : Option String → World R.Store B → Answered R.Store B
    from_cookie none w = ((err refresh_token_missing, []), w)
    from_cookie (some token) w = hand_out (refresh_user_token R V token w)

    -- `refreshToken` of the controller, given the cookie `refresh_token` of the request.
    unfoldable pub refresh_token_handler : Option String → World R.Store B → Answered R.Store B
    unfolding refresh_user_token set_cookies
    refresh_token_handler given w = from_cookie (truthy given) w

    abbrev cleared : Result (Unit {0}) × World R.Store B → Answered R.Store B
    cleared (err e, w) = ((err e, []), w)
    cleared (ok x, w) = (
      (
        ok tt,
        clear_cookie "auth_token" "/" ∷ clear_cookie "refresh_token" "/users/refresh-token" ∷ [],
      ),
      w,
    )

    -- `logOut` of the controller, behind its guard.
    unfoldable pub log_out_handler : AuthUser → World R.Store B → Answered R.Store B
    unfolding log_out
    log_out_handler user w = cleared (log_out R V user w)

-- A browser that takes the service's cookies, by the rules for `Set-Cookie`: a cookie is identified
-- by its name, its path and the domain that it was given, where none is the host alone. A cookie
-- replaces the one with the same identity until it expires, and clearing one removes that alone.
abbrev pub same_domain : Option String → Option String → Bool
same_domain none none = true
same_domain none (some d) = false
same_domain (some d) none = false
same_domain (some c) (some d) = c == d

pub record Browser : Type 1 where
  pub Jar : Type 0
  pub held : (name : String) (domain : Option String) (path : String) → Jar → Option String
  pub receive : CookieCall → Jar → Jar
  pub held-cookie :
      (name token : String) (o : CookieOptions) (n : ℕ) (other : String) (domain : Option String)
      (path : String) (j : Jar)
      → o.max_age ≡ some (suc n)
      → held other domain path (receive (cookie name token o) j) ≡ (
          if (name == other) && (same_domain o.domain domain && (o.path == path))
          then some token
          else held other domain path j)
  pub held-clear_cookie :
      (name path other : String) (domain : Option String) (other_path : String) (j : Jar)
      → held other domain other_path (receive (clear_cookie name path) j) ≡ (
          if (name == other) && (same_domain none domain && (path == other_path))
          then none
          else held other domain other_path j)

module _ (W : Browser) where
  abbrev pub receive_all : List CookieCall → W.Jar → W.Jar
  receive_all [] j = j
  receive_all (c ∷ cs) j = receive_all cs (W.receive c j)
