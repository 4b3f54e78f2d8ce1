-- ===== src/Users/Renewal.antt =====
-- Renewing the tokens of a session: what a renewal that succeeded has done.
use auth_microservice.Prelude.{
  ℕ, String, ◌≡◌, refl, sym, ap, subst, ◌∙◌, ◌↔◌, ◌⊎◌, inl, inr, true, false, not, Option, none,
  some, List, [], ◌∷◌, arith, ◌==◌, truthy, get_or, In,
}
use auth_microservice.Failure.{Failure}
use auth_microservice.Redis.{Session, Key, SetKey, same_key, Redis, session, auth_session, keep_ttl}
use auth_microservice.Exec.{World, Result, on_redis, Result-cases, >>=-eq-ok, ok, err}
use auth_microservice.Exec.Inversion.{on_redis-eq-ok}
use auth_microservice.Jwt.{Payload, Tokens, get_payload, refresh}
use auth_microservice.Jwt.Rotation.{
  get_payload-same, get_payload-at, Refreshed, Refreshed-at, refresh_token-Refreshed,
}
use auth_microservice.Users.{role_codes, User, Services, users_exception, find_user}
use auth_microservice.Users.Saving.{find_user-eq-ok}
use auth_microservice.Users.Entering.{renewed, active_session, renew_session, refresh_user_token}
use auth_microservice.Users.Cookies.{
  Environment, CookieCall, get_ttl_from_env, get_auth_cookie_options, get_refresh_cookie_options,
  set_cookies, hand_out, from_cookie, refresh_token_handler, cookie,
}
use auth_microservice.Users.ActiveSessions.{
  active_session-eq-ok, rewriting, get-rewritten, ttl-rewritten, other-rewritten,
}
use auth_microservice.Users.Described.{GrantsCode, role_codes-GrantsCode}

module _ (R : Redis) {B : Type 0} (V : Services B) where
  -- What a renewal took and what it leaves.
  pub record IsRenewed (token : String) (w w' : World R.Store B) (ts : Tokens) : Type 0 where
    pub payload : Payload
    pub held : Session
    pub user : User
    pub accepted : get_payload V.jwt token refresh w ≡ (ok payload, w)
    pub stored : R.get (auth_session (get_or payload.sid "")) w.redis ≡ some (session held)
    pub active : held.active ≡ true
    pub found : V.table.find_one_by_id held.user_id w.db ≡ some user
    pub tokens : Refreshed V.jwt token w ts payload
    pub renews :
        R.get (auth_session (get_or payload.sid "")) w'.redis
        ≡ some
            (session (record held { permissions = role_codes user.roles; last_refresh_at = w.now }))
    pub permits : (c : String) → In c (role_codes user.roles) ↔ GrantsCode c user.roles
    pub lifetimes : (k : Key) → R.ttl k w'.redis ≡ R.ttl k w.redis
    pub sets : (k : SetKey) → R.s_members k w'.redis ≡ R.s_members k w.redis
    pub others :
        (k : Key)
        → same_key (auth_session (get_or payload.sid "")) k ≡ false
        → R.get k w'.redis ≡ R.get k w.redis
    pub same_db : w'.db ≡ w.db

  renew_session-IsRenewed :
      (token : String) (p : Payload) (w w' : World R.Store B) (ts : Tokens)
      → get_payload V.jwt token refresh w ≡ (ok p, w)
      → renew_session R V token (get_or p.sid "") w ≡ (ok ts, w')
      → IsRenewed token w w' ts
  unfolding renew_session
  renew_session-IsRenewed token p w w' ts accepts h =
      let sid = get_or p.sid "" in
      let (s, v1, e1, h1) = >>=-eq-ok (active_session R V sid) _ w h in
      let (here, active, r1, d1, n1) = active_session-eq-ok R V sid w v1 s e1 in
      let (u, v2, e2, h2) = >>=-eq-ok (find_user R V s.user_id) _ v1 h1 in
      let (row, d2, r2, n2) = find_user-eq-ok R V s.user_id v1 v2 u e2 in
      let now2 : v2.now ≡ w.now = n2 ∙ n1 in
      let (x, v3, e3, h3) = >>=-eq-ok (on_redis (rewriting R V sid s u v2.now)) _ v2 h2 in
      let (_, r3, d3, q3) = on_redis-eq-ok (rewriting R V sid s u v2.now) v2 v3 x e3 in
      let (p', accepts', fresh, last) = refresh_token-Refreshed V.jwt token v3 w' ts h3 in
      let now3 : v3.now ≡ w.now = q3.now ∙ now2 in
      let again : (ok p', w) ≡ (ok p, w) =
        sym (get_payload-at V.jwt token refresh v3 w p' accepts' now3) ∙ accepts in
      let same : p' ≡ p = ground (arith, ap (λ z. z.0) again) in
      let store : w'.redis
          ≡ R.set keep_ttl (auth_session sid) (session (renewed R V s u w.now)) w.redis =
        ap (λ z. z.redis) last ∙ r3 ∙ rw (now2, r2, r1) refl in
      record {
        payload = p;
        held = s;
        user = u;
        accepted = accepts;
        stored = here;
        active = active;
        found = rw (← d1) row;
        tokens =
            Refreshed-at V.jwt token v3 w ts p
              (subst (λ q. Refreshed V.jwt token v3 ts q) same fresh) now3;
        renews = rw store (get-rewritten R V sid _ _);
        permits = λ c. role_codes-GrantsCode c u.roles;
        lifetimes = λ k. rw store (ttl-rewritten R V sid _ _ k);
        sets = λ k. rw store (R.members-set keep_ttl (auth_session sid) k _ w.redis);
        others = λ k other. rw store (other-rewritten R V sid _ _ k other);
        same_db = ap (λ z. z.db) last ∙ d3 ∙ d2 ∙ d1;
      }

  refresh_user_token-IsRenewed :
      (token : String) (w w' : World R.Store B) (ts : Tokens)
      → refresh_user_token R V token w ≡ (ok ts, w')
      → IsRenewed token w w' ts
  unfolding refresh_user_token
  refresh_user_token-IsRenewed token w w' ts h =
      let (p, v, e, k) = >>=-eq-ok (get_payload V.jwt token refresh) _ w h in
      let same : v ≡ w = get_payload-same V.jwt token refresh w v p e in
      renew_session-IsRenewed token p w w' ts
        (subst (λ z. get_payload V.jwt token refresh w ≡ (ok p, z)) same e)
        (subst (λ z. renew_session R V token (get_or p.sid "") z ≡ (ok ts, w')) same k)

  module _ (E : Environment) where
    -- The calls by which the controller hands out tokens.
    abbrev pub cookie_for : (name token path : String) (max_age : Option ℕ) → CookieCall
    cookie_for name token path max_age = cookie name token (record {
      http_only = true;
      secure = not (get_or (E.variables "COOKIE_SECURE") "" == "false");
      same_site = "strict";
      path = path;
      domain = truthy (E.variables "COOKIE_DOMAIN");
      max_age = max_age;
    })

    abbrev pub both_cookies : Tokens → (a b : Option ℕ) → List CookieCall
    both_cookies ts a b =
        cookie_for "auth_token" ts.access_token "/" a
        ∷ cookie_for "refresh_token" ts.refresh_token "/users/refresh-token" b
        ∷ []

    set_cookies-eq-ok :
        (ts : Tokens) (cs : List CookieCall)
        → set_cookies E ts ≡ (ok tt, cs)
        → (a : Option ℕ) × (b : Option ℕ) × (get_ttl_from_env E "JWT_AUTH_EXPIRES_IN" ≡ ok a)
          × (get_ttl_from_env E "JWT_REFRESH_EXPIRES_IN" ≡ ok b)
          × (cs ≡ both_cookies ts a b)
    unfolding set_cookies get_auth_cookie_options get_refresh_cookie_options
    set_cookies-eq-ok ts cs h = elim (Result-cases (get_ttl_from_env E "JWT_AUTH_EXPIRES_IN")) [
      | inl (a, e) ↦ elim (Result-cases (get_ttl_from_env E "JWT_REFRESH_EXPIRES_IN")) [
        | inl (b, f) ↦ (a, b, e, f, ground (arith, e, f, h))
        | inr (x, f) ↦ absurd (ground (arith, e, f, h))
      ]
      | inr (x, e) ↦ absurd (ground (arith, e, h))
    ]

    module _ (w w' : World R.Store B) (r : Result (Unit {0})) (cs : List CookieCall) where
      abbrev HandedOut : (token : String) → Type 0
      HandedOut token =
          ((e : Failure) × (r ≡ err e))
          ⊎ ((ts : Tokens) × (a : Option ℕ) × (b : Option ℕ) × IsRenewed token w w' ts
              × (get_ttl_from_env E "JWT_AUTH_EXPIRES_IN" ≡ ok a)
              × (get_ttl_from_env E "JWT_REFRESH_EXPIRES_IN" ≡ ok b)
              × (cs ≡ both_cookies ts a b))

      hand_out-HandedOut :
          (token : String) (x : Result Tokens × World R.Store B)
          → refresh_user_token R V token w ≡ x
          → hand_out E R V x ≡ ((r, cs), w')
          → HandedOut token
      hand_out-HandedOut token (err e, v) k h = inl (e, sym (ap (λ z. z.0.0) h))
      hand_out-HandedOut token (ok ts, v) k h = elim (Result-cases r) [
        | inl (x, e) ↦
            let (a, b, auth_is, refresh_is, is) =
              set_cookies-eq-ok ts cs (ap (λ z. z.0) h ∙ ap (λ z. (z, cs)) e) in
            inr (
              ts,
              a,
              b,
              refresh_user_token-IsRenewed token w w' ts (k ∙ ap (λ z. (ok ts, z.1)) h),
              auth_is,
              refresh_is,
              is,
            )
        | inr (e, is) ↦ inl (e, is)
      ]

      from_cookie-cases :
          (o : Option String)
          → from_cookie E R V o w ≡ ((r, cs), w')
          → ((o ≡ none)
              × (r
                  ≡ err
                      (users_exception "Refresh token cookie missing" "REFRESH_TOKEN_MISSING" 401))
              × (cs ≡ [])
              × (w' ≡ w))
            ⊎ ((token : String) × (o ≡ some token) × HandedOut token)
      from_cookie-cases none h =
          inl (refl, sym (ap (λ z. z.0.0) h), sym (ap (λ z. z.0.1) h), sym (ap (λ z. z.1) h))
      from_cookie-cases (some token) h =
          inr (token, refl, hand_out-HandedOut token (refresh_user_token R V token w) refl h)

    -- Whatever calls fail, the request that renews tokens either presents no refresh token and is turned
    -- down with REFRESH_TOKEN_MISSING, without a call of Redis, of the database or of the response, or presents one.
    -- If it is then answered with success, the token was accepted, its session was in Redis and
    -- active, and its user in the database; the answer sets one cookie for each of the two tokens,
    -- signed for the email and the session of the old one, the refresh token being replaced exactly
    -- near its expiry; and the session in Redis now carries the permissions that the user's roles
    -- give at present, while the times to live, the sets and all other texts in Redis and the
    -- database stay as they were. The cookies are for HTTP only, for the same site, and each for its path
    -- and for the configured lifetime of its token.
    pub refresh_token_handler-IsRenewed :
        (given : Option String) (w w' : World R.Store B) (r : Result (Unit {0}))
        (cs : List CookieCall)
        → refresh_token_handler E R V given w ≡ ((r, cs), w')
        → ((truthy given ≡ none)
            × (r ≡ err (users_exception "Refresh token cookie missing" "REFRESH_TOKEN_MISSING" 401))
            × (cs ≡ [])
            × (w' ≡ w))
          ⊎ ((token : String) × (truthy given ≡ some token)
              × (((e : Failure) × (r ≡ err e))
                  ⊎ ((ts : Tokens) × (a : Option ℕ) × (b : Option ℕ) × IsRenewed token w w' ts
                      × (get_ttl_from_env E "JWT_AUTH_EXPIRES_IN" ≡ ok a)
                      × (get_ttl_from_env E "JWT_REFRESH_EXPIRES_IN" ≡ ok b)
                      × (cs ≡ both_cookies ts a b))))
    unfolding refresh_token_handler
    refresh_token_handler-IsRenewed given w w' r cs h = from_cookie-cases w w' r cs (truthy given) h
