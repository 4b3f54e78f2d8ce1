-- ===== src/Jwt/Rotation.antt =====
-- What `generateToken` and `refreshToken` hand out.
use auth_microservice.Prelude.{
  ◌+◌, ◌-◌, ◌*◌, ◌/◌, ◌≤◌, ◌<◌, String, ◌≡◌, refl, sym, ap, subst, ◌≢◌, inl, inr, Bool, true, false,
  some, arith, ltb, get_or,
}
use auth_microservice.Failure.{Failure, status?, wrap}
use auth_microservice.Exec.{World, ◌>>=◌, Result-cases, >>=-eq-ok, attempt-eq-ok, ok, err}
use auth_microservice.Jwt.{
  TokenType, JwtPayload, Signing, Payload, JwtConfig, Tokens, refresh_token, config_of, payload_of,
  minutes_left, renewed_payload, get_payload, generate_token, issue, auth, refresh, failed, signed,
  sign_error, unsigned,
}
use auth_microservice.Jwt.{next_refresh, invalid_refresh_token, token_of}
use auth_microservice.Jwt.Payloads.{get_payload-IsUnauthorized, get_payload_iff}

token_of-eq-ok : (r : Signing) (t : String) → token_of r ≡ ok t → r ≡ signed t
unfolding token_of
token_of-eq-ok (signed s) t h = ground arith
token_of-eq-ok (sign_error e) t h = absurd (ground arith)
token_of-eq-ok unsigned t h = absurd (ground arith)

module _ {S B : Type 0} (c : JwtConfig) where
  pub generate_token-eq-ok :
      (p : JwtPayload) (type : TokenType) (w w' : World S B) (token : String)
      → generate_token c p type w ≡ (ok token, w')
      → (c.library.sign p (config_of c type).secret (config_of c type).expires_in w.now
          ≡ signed token)
        × (w' ≡ w)
  unfolding generate_token
  generate_token-eq-ok p type w w' token h =
      let signing =
        c.library.sign p (config_of c type).secret (config_of c type).expires_in w.now in
      elim (Result-cases (token_of signing)) [
        | inl (t, e) ↦
            let e' = token_of-eq-ok signing t e in (rw e' (ground (arith, e)), ground (arith, e))
        | inr (f, e) ↦ absurd (ground (arith, e))
      ]

  -- Signing depends on the clock alone, and so does verifying.
  pub generate_token-at :
      (p : JwtPayload) (type : TokenType) (v w : World S B) (token : String)
      → generate_token c p type v ≡ (ok token, v)
      → v.now ≡ w.now
      → generate_token c p type w ≡ (ok token, w)
  unfolding generate_token
  generate_token-at p type v w token h e =
      let (signs, _) = generate_token-eq-ok p type v v token h in
      rw
        (subst
          (λ n.
            c.library.sign p (config_of c type).secret (config_of c type).expires_in n
            ≡ signed token)
          e signs)
        refl

  pub get_payload-same :
      (token : String) (type : TokenType) (w w' : World S B) (p : Payload)
      → get_payload c token type w ≡ (ok p, w')
      → w' ≡ w
  unfolding get_payload
  get_payload-same token type w w' p h = sym (ap (λ x. x.1) h)

  pub get_payload-at :
      (token : String) (type : TokenType) (v w : World S B) (p : Payload)
      → get_payload c token type v ≡ (ok p, v)
      → v.now ≡ w.now
      → get_payload c token type w ≡ (ok p, w)
  unfolding get_payload
  get_payload-at token type v w p h e =
      rw
        (subst (λ n. payload_of type (c.library.verify token (config_of c type).secret n) ≡ ok p) e
          (ap (λ x. x.0) h))
        refl

  -- A token that `generateToken` issued for an email and a session is accepted by `getPayload` for the
  -- same type until it expires, with that email, that session and the promised expiry, whatever else
  -- has happened in the meantime.
  pub get_payload-generate_token :
      (p : JwtPayload) (type : TokenType) (w w' later : World S B) (token : String)
      → p.email ≢ ""
      → p.sid ≢ ""
      → generate_token c p type w ≡ (ok token, w')
      → later.now / 1000 < w.now / 1000 + (config_of c type).expires_in
      → get_payload c token type later ≡ (
        ok (record {
          email = p.email;
          exp = w.now / 1000 + (config_of c type).expires_in;
          sid = some p.sid;
        }),
        later,
      )
  get_payload-generate_token p type w w' later token has_email has_sid h in_time =
      (get_payload_iff c token type later _).1 (record {
        claims = _;
        decodes =
            c.library.verify-sign p _ token _ w.now later.now
              (generate_token-eq-ok p type w w' token h).0 in_time;
        email = refl;
        has_email = has_email;
        exp = refl;
        has_exp = omega arith;
        sid = refl;
        has_sid = inr (p.sid, refl, has_sid);
      })

  -- What `refreshToken` returned for an old token: its payload was accepted, the access token is signed
  -- for the same email and session, and the refresh token is renewed exactly if the old one has
  -- fewer whole minutes left than the threshold.
  pub record Refreshed (old : String) (w : World S B) (ts : Tokens) (payload : Payload)
      : Type 0 where
    pub access :
        generate_token c (record { email = payload.email; sid = get_or payload.sid "" }) auth w
        ≡ (ok ts.access_token, w)
    pub renewed :
        (payload.exp * 1000 - w.now) / 60000 < c.renew_threshold_minutes
        → generate_token c (record { email = payload.email; sid = get_or payload.sid "" }) refresh w
          ≡ (ok ts.refresh_token, w)
    pub kept :
        c.renew_threshold_minutes ≤ (payload.exp * 1000 - w.now) / 60000 → ts.refresh_token ≡ old

  pub Refreshed-at :
      (old : String) (v w : World S B) (ts : Tokens) (p : Payload)
      → Refreshed old v ts p
      → v.now ≡ w.now
      → Refreshed old w ts p
  Refreshed-at old v w ts p f e = record {
    access = generate_token-at (renewed_payload p) auth v w ts.access_token f.access e;
    renewed = λ soon.
        generate_token-at (renewed_payload p) refresh v w ts.refresh_token (f.renewed (rw e soon))
          e;
    kept = λ late. f.kept (rw e late);
  }

  module _ (old : String) (w w' : World S B) (ts : Tokens) where
    issue-Refreshed :
        (p : Payload) → issue c old p w ≡ (ok ts, w') → Refreshed old w ts p × (w' ≡ w)
    unfolding issue minutes_left
    issue-Refreshed p h =
        let s1 =
          c.library.sign (renewed_payload p) c.auth_config.secret c.auth_config.expires_in w.now in
        let s2 =
          c.library.sign (renewed_payload p) c.refresh_config.secret c.refresh_config.expires_in
            w.now in
        ground (arith, Result-cases (token_of s1), Result-cases (token_of s2))

    -- A successful `refreshToken` accepted the old token as `getPayload` does, returned what `Refreshed`
    -- says of its payload, and changed nothing of the world.
    pub refresh_token-Refreshed :
        refresh_token c old w ≡ (ok ts, w')
        → (p : Payload) × (get_payload c old refresh w ≡ (ok p, w))
          × Refreshed old w ts p
          × (w' ≡ w)
    unfolding refresh_token
    refresh_token-Refreshed h =
        let (p, v, e, k) =
          >>=-eq-ok (get_payload c old refresh) (issue c old) w
            (attempt-eq-ok (get_payload c old refresh >>= issue c old) invalid_refresh_token w h) in
        let same : w ≡ v = ap (λ r. r.1) e in
        let (refreshed, kept) =
          issue-Refreshed p (subst (λ u. issue c old p u ≡ (ok ts, w')) (sym same) k) in
        (p, subst (λ u. get_payload c old refresh w ≡ (ok p, u)) (sym same) e, refreshed, kept)

  next_refresh-eq-ok :
      (soon : Bool) (old next : String) (p : JwtPayload) (w : World S B)
      → generate_token c p refresh w ≡ (ok next, w)
      → (t : String) × (next_refresh c soon old p w ≡ (ok t, w))
  unfolding next_refresh
  next_refresh-eq-ok true old next p w h = (next, h)
  next_refresh-eq-ok false old next p w h = (old, refl)

  -- A token that is accepted is renewed if the signer signs.
  pub refresh_token-ok :
      (old access next : String) (p : Payload) (w : World S B)
      → get_payload c old refresh w ≡ (ok p, w)
      → generate_token c (renewed_payload p) auth w ≡ (ok access, w)
      → generate_token c (renewed_payload p) refresh w ≡ (ok next, w)
      → (ts : Tokens) × (ts.access_token ≡ access) × (refresh_token c old w ≡ (ok ts, w))
  unfolding refresh_token issue
  refresh_token-ok old access next p w h a f =
      let (t, e) =
        next_refresh-eq-ok (ltb (minutes_left p.exp w.now) c.renew_threshold_minutes) old next
          (renewed_payload p) w f in
      (record { access_token = access; refresh_token = t }, refl, rw (h, a, e) refl)

  -- A refresh token that `getPayload` turns down, other than for an unforeseen error of the verifier,
  -- is answered with status 401 and the code INVALID_REFRESH_TOKEN, whatever was wrong with it; the
  -- exception that `getPayload` threw is only the cause.
  pub refresh_token-turned_down :
      (old : String) (w : World S B) (e : Failure)
      → get_payload c old refresh w ≡ (err e, w)
      → ((f : Failure) → c.library.verify old c.refresh_config.secret w.now ≢ failed f)
      → (refresh_token c old w
          ≡ (err (wrap "JwtException" "Invalid refresh token" "INVALID_REFRESH_TOKEN" 401 e), w))
        × (status? (wrap "JwtException" "Invalid refresh token" "INVALID_REFRESH_TOKEN" 401 e).link
            ≡ some 401)
  unfolding refresh_token status? wrap
  refresh_token-turned_down old w e h ok_class =
      let (m, code, is) = get_payload-IsUnauthorized c old refresh w e h ok_class in
      (ground (arith, h, is), rw is)
