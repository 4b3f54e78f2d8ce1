-- ===== src/Tests/Tokens.antt =====
-- A signer whose tokens spell out their payload, and the theorems on tokens at concrete inputs.
use auth_microservice.Prelude.{
  ◌≢◌, ℕ, ◌+◌, ◌/◌, ◌<◌, String, ◌≡◌, refl, inr, ◌&&◌, some, arith, ◌==◌, eq_iff, ltb, eqb,
  if◌then◌else◌,
}
use auth_microservice.Jwt.{
  failed, auth, refresh, refresh_token, Payload, generate_token, get_payload, TokenType, JwtPayload,
  Verification, Signing, JsonWebToken, JwtConfig, decoded, expired, rejected, signed, unsigned,
}
use auth_microservice.Jwt.Payloads.{Accepts}
use auth_microservice.Exec.{ok, err, World}
use auth_microservice.Failure.{thrown, Failure}
use auth_microservice.Tests.Memory.{empty_memory, Memory}
use auth_microservice.Jwt.Rotation.{get_payload-generate_token}
use auth_microservice.Tests.Tables.{Db}
use auth_microservice.Tests.Worlds.{a_world}

-- It signs one payload, for one lifetime, at one time.
abbrev pub a_payload : JwtPayload
a_payload = record { email = "a@b.c"; sid = "s1" }

abbrev pub sign_one : JwtPayload → (secret : String) (expires_in now : ℕ) → Signing
sign_one p secret expires_in now =
    if (p.email == "a@b.c")
      && ((p.sid == "s1") && ((secret == "k") && (eqb expires_in 900 && eqb (now / 1000) 1)))
    then signed "t1"
    else unsigned

abbrev pub verify_one : (token secret : String) (now : ℕ) → Verification
verify_one token secret now =
    if (token == "t1") && ((secret == "k") && ltb (now / 1000) 901)
    then decoded (record { email = some "a@b.c"; exp = some 901; sid = some "s1" })
    else if token == "old"
    then expired
    else rejected

pub verify_one-sign_one :
    (p : JwtPayload) (secret token : String) (expires_in now later : ℕ)
    → sign_one p secret expires_in now ≡ signed token
    → later / 1000 < now / 1000 + expires_in
    → verify_one token secret later
      ≡ decoded
          (record { email = some p.email; exp = some (now / 1000 + expires_in); sid = some p.sid })
verify_one-sign_one p secret token expires_in now later h in_time =
    ground (arith, eq_iff p.email "a@b.c", eq_iff p.sid "s1", eq_iff secret "k", eq_iff token "t1")

abbrev pub a_library : JsonWebToken
a_library = record { verify = verify_one; sign = sign_one; verify-sign = verify_one-sign_one }

abbrev pub a_config : JwtConfig
a_config = record {
  library = a_library;
  auth_config = record { secret = "k"; expires_in = 900 };
  refresh_config = record { secret = "k"; expires_in = 900 };
  renew_threshold_minutes = 30;
}

pub Accepts-t1 :
    (type : TokenType)
    → Accepts type
        (verify_one "t1" "k" 1000)
        (record { email = "a@b.c"; exp = 901; sid = some "s1" })
Accepts-t1 type = record {
  claims = record { email = some "a@b.c"; exp = some 901; sid = some "s1" };
  decodes = refl;
  email = refl;
  has_email = ground (arith, eq_iff "a@b.c" "");
  exp = refl;
  has_exp = omega arith;
  sid = refl;
  has_sid = inr ("s1", refl, ground (arith, eq_iff "s1" ""));
}

abbrev pub w0 : World Memory Db
w0 = a_world empty_memory

abbrev t1_payload : Payload
t1_payload = record { email = "a@b.c"; exp = 901; sid = some "s1" }

abbrev expired_token : Failure
expired_token = thrown "JwtException" "Token has expired" "TOKEN_EXPIRED" 401

expired_class : (f : Failure) → ◌≢◌ {A = Verification} expired (failed f)
expired_class f e = ground arith

get_payload_t1 : get_payload a_config "t1" refresh w0 ≡ (ok t1_payload, w0)
unfolding get_payload
get_payload_t1 = refl

get_payload_old : (type : TokenType) → get_payload a_config "old" type w0 ≡ (err expired_token, w0)
unfolding get_payload
get_payload_old auth = refl
get_payload_old refresh = refl

generate_token_t1 : generate_token a_config a_payload auth w0 ≡ (ok "t1", w0)
unfolding generate_token
generate_token_t1 = refl

refresh_token_t1 :
    refresh_token a_config "t1" w0 ≡ (ok (record { access_token = "t1"; refresh_token = "t1" }), w0)
unfolding refresh_token
refresh_token_t1 = refl

get_payload-generate_token_example :
    get_payload a_config "t1" auth (record w0 { now = 5000 })
    ≡ (ok t1_payload, record w0 { now = 5000 })
get_payload-generate_token_example =
    get_payload-generate_token a_config a_payload auth w0 w0 (record w0 { now = 5000 }) "t1"
      (ground (arith, eq_iff "a@b.c" "")) (ground (arith, eq_iff "s1" "")) generate_token_t1
      (omega arith)
