-- ===== src/Jwt/Payloads.antt =====
-- Which tokens `getPayload` accepts, and that it accepts what `generateToken` signed.
use auth_microservice.Prelude.{
  ℕ, suc, zero, String, ◌<◌, ◌≡◌, ◌≢◌, ◌↔◌, ◌⊎◌, inl, inr, refl, Option, none, some, arith, ◌==◌,
  eq_iff, truthy, subst, ap, Option-cases, Bool-cases,
}
use auth_microservice.Failure.{Failure}
use auth_microservice.Exec.{World, ok, err}
use auth_microservice.Jwt.{
  jwt_exception, TokenType, auth, refresh, Claims, Verification, decoded, expired, rejected, failed,
  Payload, JwtConfig, config_of, payload_of, check_claims, check_exp, check_sid, get_payload,
}

-- When a verified token is good for `type`: it names an email and an expiry, and a session if it is a
-- refresh token.
pub record Accepts (type : TokenType) (v : Verification) (p : Payload) : Type 0 where
  pub claims : Claims
  pub decodes : v ≡ decoded claims
  pub email : claims.email ≡ some p.email
  pub has_email : p.email ≢ ""
  pub exp : claims.exp ≡ some p.exp
  pub has_exp : 0 < p.exp
  pub sid : claims.sid ≡ p.sid
  pub has_sid : (type ≡ auth) ⊎ ((s : String) × (p.sid ≡ some s) × (s ≢ ""))

check_sid-eq-ok :
    (type : TokenType) (q p : Payload) (sid : Option String)
    → check_sid type q (truthy sid) ≡ ok p
    → (q ≡ p) × ((type ≡ auth) ⊎ ((s : String) × (sid ≡ some s) × (s ≢ "")))
unfolding check_sid
check_sid-eq-ok auth q p sid h = (ground arith, inl refl)
check_sid-eq-ok refresh q p none h = absurd (ground arith)
check_sid-eq-ok refresh q p (some s) h = (ground arith, inr (s, refl, ground (arith, eq_iff s "")))

check_exp-eq-ok :
    (type : TokenType) (email : String) (e : Option ℕ) (sid : Option String) (p : Payload)
    → check_exp type email e sid ≡ ok p
    → (email ≡ p.email)
      × (e ≡ some p.exp)
      × (0 < p.exp)
      × (sid ≡ p.sid)
      × ((type ≡ auth) ⊎ ((s : String) × (p.sid ≡ some s) × (s ≢ "")))
unfolding check_exp
check_exp-eq-ok type email none sid p h = absurd (ground arith)
check_exp-eq-ok type email (some zero) sid p h = absurd (ground arith)
check_exp-eq-ok type email (some (suc n)) sid p h =
    let q : Payload = record { email = email; exp = suc n; sid = sid } in
    let (same, has) = check_sid-eq-ok type q p sid h in
    subst
      (λ (r : Payload).
        (email ≡ r.email)
        × (some (suc n) ≡ some r.exp)
        × (0 < r.exp)
        × (sid ≡ r.sid)
        × ((type ≡ auth) ⊎ ((s : String) × (r.sid ≡ some s) × (s ≢ ""))))
      same (refl, refl, omega arith, refl, has)

payload_of-Accepts :
    (type : TokenType) (v : Verification) (p : Payload)
    → payload_of type v ≡ ok p
    → Accepts type v p
unfolding payload_of check_claims
payload_of-Accepts type (decoded c) p h = elim (Option-cases c.email) [
  | inl missing ↦ absurd (ground arith)
  | inr (email, given) ↦ elim (Bool-cases (email == "")) [
    | inl empty ↦ absurd (ground arith)
    | inr full ↦
        let parts =
          check_exp-eq-ok type email c.exp c.sid p (rw (given, full, check_claims) at h) in
        record {
          claims = c;
          decodes = refl;
          email = rw given (ground (arith, parts.0));
          has_email = λ e. ground (arith, eq_iff email "");
          exp = parts.1;
          has_exp = parts.2;
          sid = parts.3;
          has_sid = parts.4;
        }
  ]
]
payload_of-Accepts type expired p h = absurd (ground arith)
payload_of-Accepts type rejected p h = absurd (ground arith)
payload_of-Accepts type (failed e) p h = absurd (ground arith)

check_sid-ok :
    (type : TokenType) (p : Payload)
    → ((type ≡ auth) ⊎ ((s : String) × (p.sid ≡ some s) × (s ≢ "")))
    → check_sid type p (truthy p.sid) ≡ ok p
unfolding check_sid
check_sid-ok auth p h = refl
check_sid-ok refresh p (inl e) = cc
check_sid-ok refresh p (inr (s, given, full)) = rw given (ground (arith, eq_iff s ""))

check_exp-ok :
    (type : TokenType) (email : String) (n : ℕ) (sid : Option String)
    → 0 < n
    → ((type ≡ auth) ⊎ ((s : String) × (sid ≡ some s) × (s ≢ "")))
    → check_exp type email (some n) sid ≡ ok (record { email = email; exp = n; sid = sid })
unfolding check_exp
check_exp-ok type email zero sid pos has = absurd (omega arith)
check_exp-ok type email (suc n) sid pos has = check_sid-ok type _ has

Accepts-payload_of :
    (type : TokenType) (v : Verification) (p : Payload)
    → Accepts type v p
    → payload_of type v ≡ ok p
unfolding payload_of check_claims
Accepts-payload_of type v p a = rw (a.decodes) (
    ground (
      arith,
      eq_iff p.email "",
      check_exp-ok type p.email p.exp p.sid a.has_exp a.has_sid,
      a.email,
      a.exp,
      a.sid,
      a.has_email,
    ))

-- One of the service's own exceptions, with status 401.
abbrev pub IsUnauthorized : Failure → Type 0
IsUnauthorized e = (m : String) × (code : String) × (e ≡ jwt_exception m code 401)

check_sid_status :
    (type : TokenType) (p : Payload) (sid : Option String) (e : Failure)
    → check_sid type p sid ≡ err e
    → IsUnauthorized e
unfolding check_sid
check_sid_status auth p sid e h = absurd (ground arith)
check_sid_status refresh p none e h =
    ("Token payload is missing data", "TOKEN_PAYLOAD_MISSING_DATA", ground arith)
check_sid_status refresh p (some s) e h = absurd (ground arith)

check_exp_status :
    (type : TokenType) (email : String) (n : Option ℕ) (sid : Option String) (e : Failure)
    → check_exp type email n sid ≡ err e
    → IsUnauthorized e
unfolding check_exp
check_exp_status type email none sid e h =
    ("Token payload is invalid", "INVALID_PAYLOAD", ground arith)
check_exp_status type email (some zero) sid e h =
    ("Token payload is invalid", "INVALID_PAYLOAD", ground arith)
check_exp_status type email (some (suc n)) sid e h = check_sid_status type _ _ e h

check_claims_status :
    (type : TokenType) (email : Option String) (c : Claims) (e : Failure)
    → check_claims type email c ≡ err e
    → IsUnauthorized e
unfolding check_claims
check_claims_status type none c e h = ("Token payload is invalid", "INVALID_PAYLOAD", ground arith)
check_claims_status type (some email) c e h = check_exp_status type email c.exp c.sid e h

payload_of_status :
    (type : TokenType) (v : Verification) (e : Failure)
    → payload_of type v ≡ err e
    → ((f : Failure) → v ≢ failed f)
    → IsUnauthorized e
unfolding payload_of
payload_of_status type (decoded c) e h other = check_claims_status type (truthy c.email) c e h
payload_of_status type expired e h other = ("Token has expired", "TOKEN_EXPIRED", ground arith)
payload_of_status type rejected e h other =
    ("Token verification failed", "TOKEN_VERIFICATION_FAILED", ground arith)
payload_of_status type (failed f) e h other = absurd (other f refl)

-- `getPayload` returns a payload exactly for the tokens that verify under the secret of the expected
-- type and name an email and an expiry, and a session too where a refresh token is expected; the
-- payload is what the token says, and nothing of the world changes.
pub get_payload_iff :
    {S B : Type 0} (c : JwtConfig) (token : String) (type : TokenType) (w : World S B) (p : Payload)
    → (get_payload c token type w ≡ (ok p, w))
      ↔ Accepts type (c.library.verify token (config_of c type).secret w.now) p
unfolding get_payload
get_payload_iff c token type w p =
    (λ e. payload_of-Accepts type _ p (ap (λ r. r.0) e), λ a. rw (Accepts-payload_of type _ p a))

-- Every token that is expired, that does not verify or that lacks a claim is answered by
-- one of the service's own exceptions, with status 401.
pub get_payload-IsUnauthorized :
    {S B : Type 0} (c : JwtConfig) (token : String) (type : TokenType) (w : World S B) (e : Failure)
    → get_payload c token type w ≡ (err e, w)
    → ((f : Failure) → c.library.verify token (config_of c type).secret w.now ≢ failed f)
    → IsUnauthorized e
unfolding get_payload
get_payload-IsUnauthorized c token type w e h ok_class =
    payload_of_status type (c.library.verify token (config_of c type).secret w.now) e
      (ap (λ r. r.0) h) ok_class
