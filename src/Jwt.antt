-- ===== src/Jwt.antt =====
-- src/services/jwt/jwt.service.ts. `jsonwebtoken` is the interface `JsonWebToken`; secrets, lifetimes
-- and the renewal threshold come from the configuration. Lifetimes are in seconds, the threshold in
-- whole minutes.
pub mod Payloads
pub mod Rotation
use auth_microservice.Prelude.{
  ℕ, zero, suc, String, ◌+◌, ◌-◌, ◌*◌, ◌/◌, ◌<◌, ◌≡◌, Bool, true, false, ◌||◌, List, [], Option,
  none, some, ltb, ◌==◌, if◌then◌else◌, truthy, get_or,
}
use auth_microservice.Failure.{Failure, Link, service, http, plain, thrown, wrap}
use auth_microservice.Exec.{
  Exec, Result, ok, err, pure, raise, lift, attempt, ◌>>=◌, ◌>>◌, current_time,
}

pub data TokenType : Type 0 where
  auth refresh : TokenType

pub record JwtPayload : Type 0 where
  pub email : String
  pub sid : String

-- What a token decodes to; any claim may be missing.
pub record Claims : Type 0 where
  pub email : Option String
  pub exp : Option ℕ
  pub sid : Option String

-- The answer of `verify`: the claims, or its error. `rejected` stands for `JsonWebTokenError` and
-- `NotBeforeError`, `failed` for an error of another class.
pub data Verification : Type 0 where
  decoded : Claims → Verification
  expired rejected : Verification
  failed : Failure → Verification

-- The answer of `sign`: a token, an error, or neither.
pub data Signing : Type 0 where
  signed : String → Signing
  sign_error : Failure → Signing
  unsigned : Signing

pub record JsonWebToken : Type 0 where
  pub verify : (token secret : String) (now : ℕ) → Verification
  pub sign : JwtPayload → (secret : String) (expires_in now : ℕ) → Signing
  -- A signed token verifies under the same secret until it expires, with its payload and expiry.
  pub verify-sign :
      (p : JwtPayload) (secret token : String) (expires_in now later : ℕ)
      → sign p secret expires_in now ≡ signed token
      → later / 1000 < now / 1000 + expires_in
      → verify token secret later
        ≡ decoded (record {
          email = some p.email;
          exp = some (now / 1000 + expires_in);
          sid = some p.sid;
        })

-- src/interfaces/payload.ts; an auth token may have no `sid`.
pub record Payload : Type 0 where
  pub email : String
  pub exp : ℕ
  pub sid : Option String

pub record TokenConfig : Type 0 where
  pub secret : String
  pub expires_in : ℕ

pub record JwtConfig : Type 0 where
  pub library : JsonWebToken
  pub auth_config : TokenConfig
  pub refresh_config : TokenConfig
  pub renew_threshold_minutes : ℕ

pub record Tokens : Type 0 where
  pub access_token : String
  pub refresh_token : String

-- `configByType[type]`.
abbrev pub config_of : JwtConfig → TokenType → TokenConfig
config_of c auth = c.auth_config
config_of c refresh = c.refresh_config

abbrev pub jwt_exception : (message code : String) (status : ℕ) → Failure
jwt_exception = thrown "JwtException"

invalid_payload : Failure
invalid_payload = jwt_exception "Token payload is invalid" "INVALID_PAYLOAD" 401

missing_data : Failure
missing_data = jwt_exception "Token payload is missing data" "TOKEN_PAYLOAD_MISSING_DATA" 401

-- `type === 'refresh' && !decoded.sid`, behind the check of `email` and `exp`.
check_sid : TokenType → Payload → Option String → Result Payload
unfolding missing_data
check_sid auth payload sid = ok payload
check_sid refresh payload none = err missing_data
check_sid refresh payload (some sid) = ok payload

check_exp : TokenType → (email : String) → Option ℕ → (sid : Option String) → Result Payload
unfolding invalid_payload check_sid
check_exp type email none sid = err invalid_payload
check_exp type email (some zero) sid = err invalid_payload
check_exp type email (some (suc n)) sid =
    check_sid type (record { email = email; exp = suc n; sid = sid }) (truthy sid)

check_claims : TokenType → Option String → Claims → Result Payload
unfolding invalid_payload check_exp
check_claims type none claims = err invalid_payload
check_claims type (some email) claims = check_exp type email claims.exp claims.sid

-- The body of `getPayload` behind the call of `verify`, its `catch` included.
unfoldable pub payload_of : TokenType → Verification → Result Payload
unfolding check_claims
payload_of type (decoded claims) = check_claims type (truthy claims.email) claims
payload_of type expired = err (jwt_exception "Token has expired" "TOKEN_EXPIRED" 401)
payload_of type rejected =
    err (jwt_exception "Token verification failed" "TOKEN_VERIFICATION_FAILED" 401)
payload_of type (failed e) = err e

-- `signToken`.
token_of : Signing → Result String
token_of (signed token) = ok token
token_of (sign_error e) = err e
token_of unsigned = err (jwt_exception "Token signing failed" "TOKEN_SIGNING_FAILED" 500)

-- `error instanceof …` at a class of the framework.
instance_of : String → Link → Bool
instance_of name (service type message code status) = false
instance_of name (http type message status response) = type == name
instance_of name (plain type message) = false

invalid_refresh_token : Failure → Failure
unfolding instance_of
invalid_refresh_token e =
    if instance_of "UnauthorizedException" e.link
      || instance_of "InternalServerErrorException" e.link
    then e
    else wrap "JwtException" "Invalid refresh token" "INVALID_REFRESH_TOKEN" 401 e

-- `dayjs.unix(exp).diff(dayjs(), 'minute')`, for an expiry that is not past.
unfoldable pub minutes_left : (exp now : ℕ) → ℕ
minutes_left exp now = (exp * 1000 - now) / 60000

-- The payload's claims, signed anew; a refresh payload has a `sid`, by `check_sid`.
abbrev pub renewed_payload : Payload → JwtPayload
renewed_payload payload = record { email = payload.email; sid = get_or payload.sid "" }

module _ {S B : Type 0} (c : JwtConfig) where
  unfoldable pub get_payload : String → TokenType → Exec S B Payload
  unfolding payload_of
  get_payload token type = do
    now ← current_time
    lift (payload_of type (c.library.verify token (config_of c type).secret now))

  unfoldable pub generate_token : JwtPayload → TokenType → Exec S B String
  unfolding token_of wrap
  generate_token payload type =
      attempt
        (do
          now ← current_time
          lift (
              token_of (
                c.library.sign payload (config_of c type).secret (config_of c type).expires_in
                  now)))
        (λ e.
          raise (wrap "JwtException" "Failed to generate token" "TOKEN_GENERATION_FAILED" 500 e))

  -- The refresh token that goes back: a new one near the old one's expiry.
  next_refresh : Bool → String → JwtPayload → Exec S B String
  unfolding generate_token
  next_refresh true old payload = generate_token payload refresh
  next_refresh false old payload = pure old

  -- `refreshToken` behind the call of `getPayload`.
  unfoldable pub issue : String → Payload → Exec S B Tokens
  unfolding generate_token next_refresh minutes_left
  issue old payload = do
    now ← current_time
    access ← generate_token (renewed_payload payload) auth
    next ←
        next_refresh (ltb (minutes_left payload.exp now) c.renew_threshold_minutes) old
          (renewed_payload payload)
    pure (record { access_token = access; refresh_token = next })

  unfoldable pub refresh_token : String → Exec S B Tokens
  unfolding get_payload issue invalid_refresh_token
  refresh_token old =
      attempt (get_payload old refresh >>= issue old) (λ e. raise (invalid_refresh_token e))
