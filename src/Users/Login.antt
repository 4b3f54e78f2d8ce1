-- ===== src/Users/Login.antt =====
-- Logging in.
use auth_microservice.Prelude.{
  ℕ, String, ◌≡◌, refl, sym, ap, subst, ◌∙◌, ◌↔◌, true, Option, none, some, arith, eq_refl, In,
}
use auth_microservice.Failure.{Failure, wrap}
use auth_microservice.Redis.{Redis, session, auth_session, user_sessions, px}
use auth_microservice.Exec.{World, on_redis, on_db, >>=-eq-ok, attempt-eq-ok, ok}
use auth_microservice.Exec.Inversion.{on_redis-eq-ok, on_db-eq-ok}
use auth_microservice.Jwt.{TokenType, JwtPayload, Tokens, generate_token, auth, refresh}
use auth_microservice.Jwt.Rotation.{generate_token-eq-ok, generate_token-at}
use auth_microservice.Http.{Request}
use auth_microservice.Users.{
  role_codes, UserStatus, User, Services, wrong_credentials, found_user, check_password,
  status_active, status_inactive, status_pending,
}
use auth_microservice.Users.Entering.{check_status, new_session, open_session, log_in}
use auth_microservice.Users.Described.{GrantsCode, role_codes-GrantsCode, described}

module _ (R : Redis) {B : Type 0} (V : Services B) where
  -- What `logIn` leaves of a session that it opened.
  pub record IsOpened (request : Request) (sid : String) (u : User) (ts : Tokens)
      (w w' : World R.Store B) : Type 0 where
    pub access :
        generate_token V.jwt (record { email = u.email; sid = sid }) auth w
        ≡ (ok ts.access_token, w)
    pub fresh :
        generate_token V.jwt (record { email = u.email; sid = sid }) refresh w
        ≡ (ok ts.refresh_token, w)
    pub stored :
        R.get (auth_session sid) w'.redis
        ≡ some (session (described V u u.roles request w.now w.now))
    pub permits : (c : String) → In c (role_codes u.roles) ↔ GrantsCode c u.roles
    pub lifetime : R.ttl (auth_session sid) w'.redis ≡ some V.session_ttl
    pub same_db : w'.db ≡ w.db
    pub same_now : w'.now ≡ w.now

  generated :
      (p : JwtPayload) (type : TokenType) (w w' : World R.Store B) (token : String)
      → generate_token V.jwt p type w ≡ (ok token, w')
      → (generate_token V.jwt p type w ≡ (ok token, w)) × (w' ≡ w)
  generated p type w w' token h =
      let (_, same) = generate_token-eq-ok V.jwt p type w w' token h in
      (subst (λ u. generate_token V.jwt p type w ≡ (ok token, u)) same h, same)

  abbrev opening : (sid : String) → Request → User → ℕ → R.Store → Unit {0} × R.Store
  opening sid request u now s =
      (tt, R.set (px V.session_ttl) (auth_session sid) (session (new_session R V u request now)) s)

  abbrev opened_store : (sid : String) → Request → User → ℕ → R.Store → R.Store
  opened_store sid request u now s =
      R.p_expire (user_sessions u.id) V.session_ttl
        (R.s_add (user_sessions u.id) sid (opening sid request u now s).1)

  get-opened_store :
      (sid : String) (request : Request) (u : User) (now : ℕ) (s : R.Store)
      → R.get (auth_session sid) (opened_store sid request u now s)
        ≡ some (session (new_session R V u request now))
  get-opened_store sid request u now s =
      R.get-p_expire (user_sessions u.id) V.session_ttl (auth_session sid) _
      ∙ R.get-s_add (user_sessions u.id) sid (auth_session sid) _
      ∙ ground (
        arith,
        eq_refl sid,
        R.get-set (px V.session_ttl) (auth_session sid) (auth_session sid)
            (session (new_session R V u request now)) s,
      )

  ttl-opened_store :
      (sid : String) (request : Request) (u : User) (now : ℕ) (s : R.Store)
      → R.ttl (auth_session sid) (opened_store sid request u now s) ≡ some V.session_ttl
  ttl-opened_store sid request u now s =
      R.ttl-p_expire (user_sessions u.id) V.session_ttl (auth_session sid) _
      ∙ R.ttl-s_add (user_sessions u.id) sid (auth_session sid) _
      ∙ ground (
        arith,
        eq_refl sid,
        R.ttl-set (px V.session_ttl) (auth_session sid) (auth_session sid)
            (session (new_session R V u request now)) s,
      )

  access_of : {a b : Tokens} → ok a ≡ ok b → a.access_token ≡ b.access_token
  access_of e = ground arith

  refresh_of : {a b : Tokens} → ok a ≡ ok b → a.refresh_token ≡ b.refresh_token
  refresh_of e = ground arith

  open_session-IsOpened :
      (sid : String) (request : Request) (u : User) (w w' : World R.Store B) (ts : Tokens)
      → open_session R V sid request u w ≡ (ok ts, w')
      → IsOpened request sid u ts w w'
  unfolding open_session
  open_session-IsOpened sid request u w w' ts h =
      let p : JwtPayload = record { email = u.email; sid = sid } in
      let (access, v1, e1, h1) = >>=-eq-ok (generate_token V.jwt p auth) _ w h in
      let (a1, same1) = generated p auth w v1 access e1 in
      let (fresh, v2, e2, h2) = >>=-eq-ok (generate_token V.jwt p refresh) _ v1 h1 in
      let (a2, same2) = generated p refresh v1 v2 fresh e2 in
      let (t3, v3, e3, h3) =
        >>=-eq-ok {A = Unit {0}} (on_redis (opening sid request u v2.now)) _ v2 h2 in
      let (_, r3, d3, n3) = on_redis-eq-ok (opening sid request u v2.now) v2 v3 t3 e3 in
      let (t4, v4, e4, h4) =
        >>=-eq-ok {A = Unit {0}} (on_redis (λ s. (tt, R.s_add (user_sessions u.id) sid s))) _ v3
          h3 in
      let (_, r4, d4, n4) =
        on_redis-eq-ok (λ s. (tt, R.s_add (user_sessions u.id) sid s)) v3 v4 t4 e4 in
      let (t5, v5, e5, h5) =
        >>=-eq-ok {A = Unit {0}}
          (on_redis (λ s. (tt, R.p_expire (user_sessions u.id) V.session_ttl s))) _ v4 h4 in
      let (_, r5, d5, n5) =
        on_redis-eq-ok (λ s. (tt, R.p_expire (user_sessions u.id) V.session_ttl s)) v4 v5 t5 e5 in
      let same : v2 ≡ w = same2 ∙ same1 in
      let last : v5 ≡ w' = ap (λ x. x.1) h5 in
      let tokens : ok (record { access_token = access; refresh_token = fresh }) ≡ ok ts =
        ap (λ x. x.0) h5 in
      let s5 : w'.redis ≡ opened_store sid request u w.now w.redis =
        rw (← last, r5, r4, r3, same) refl in
      record {
        access = rw (← (access_of tokens)) a1;
        fresh =
            rw (← (refresh_of tokens))
              (subst (λ x. generate_token V.jwt p refresh x ≡ (ok fresh, x)) same1 a2);
        stored = rw s5 (get-opened_store sid request u w.now w.redis);
        permits = λ c. role_codes-GrantsCode c u.roles;
        lifetime = rw s5 (ttl-opened_store sid request u w.now w.redis);
        same_db = rw (← last, d5, d4, d3, same) refl;
        same_now = rw (← last, n5.now, n4.now, n3.now, same) refl;
      }

  check_status-eq-ok :
      (s : UserStatus) (w w' : World R.Store B) (a : Unit {0})
      → check_status R V s w ≡ (ok a, w')
      → (s ≡ status_active) × (w' ≡ w)
  unfolding check_status
  check_status-eq-ok status_pending w w' a h = absurd (ground arith)
  check_status-eq-ok status_inactive w w' a h = absurd (ground arith)
  check_status-eq-ok status_active w w' a h = (refl, ground arith)

  pub check_password-eq-ok :
      (password : String) (u : User) (w w' : World R.Store B) (a : User)
      → check_password R V password u w ≡ (ok a, w')
      → (V.bcrypt.compare password u.password ≡ true) × (w' ≡ w)
  unfolding check_password
  check_password-eq-ok password u w w' a h = ground arith

  pub found_user-eq-ok :
      (e : Failure) (o : Option User) (w w' : World R.Store B) (u : User)
      → found_user R V e o w ≡ (ok u, w')
      → (o ≡ some u) × (w' ≡ w)
  unfolding found_user
  found_user-eq-ok e none w w' u h = absurd (ground arith)
  found_user-eq-ok e (some v) w w' u h = ground arith

  pub log_in-IsOpened :
      (email password sid : String) (request : Request) (w w' : World R.Store B) (ts : Tokens)
      → log_in R V email password sid request w ≡ (ok ts, w')
      → (u : User) × (V.table.find_one_by_email email w.db ≡ some u)
        × (V.bcrypt.compare password u.password ≡ true)
        × (u.status ≡ status_active)
        × IsOpened request sid u ts w w'
  unfolding log_in
  log_in-IsOpened email password sid request w w' ts h =
      let (o, v1, e1, h1) = >>=-eq-ok (on_db (λ b. (V.table.find_one_by_email email b, b))) _ w h in
      let (oe, d1, r1, n1) = on_db-eq-ok (λ b. (V.table.find_one_by_email email b, b)) w v1 o e1 in
      let (u, v2, e2, h2) = >>=-eq-ok (found_user R V wrong_credentials o) _ v1 h1 in
      let (here, same2) = found_user-eq-ok wrong_credentials o v1 v2 u e2 in
      let (x, v3, e3, h3) = >>=-eq-ok (check_password R V password u) _ v2 h2 in
      let (matches, same3) = check_password-eq-ok password u v2 v3 x e3 in
      let (y, v4, e4, h4) = >>=-eq-ok (check_status R V u.status) _ v3 h3 in
      let (active, same4) = check_status-eq-ok u.status v3 v4 y e4 in
      let opened = open_session-IsOpened sid request u v4 w' ts (
        attempt-eq-ok (open_session R V sid request u)
          (wrap "UsersException" "Unable to issue authentication tokens" "TOKENS_ISSUE_ERROR" 500)
          v4 h4) in
      (
        u,
        sym oe ∙ here,
        matches,
        active,
        (let same : v4 ≡ v1 = same4 ∙ same3 ∙ same2 in
            let now4 : v4.now ≡ w.now = ap (λ z. z.now) same ∙ n1.now in
            let redis4 : v4.redis ≡ w.redis = ap (λ z. z.redis) same ∙ r1 in
            let db4 : v4.db ≡ w.db = ap (λ z. z.db) same ∙ d1 in
            record {
              access = generate_token-at V.jwt _ auth v4 w ts.access_token opened.access now4;
              fresh = generate_token-at V.jwt _ refresh v4 w ts.refresh_token opened.fresh now4;
              stored =
                  subst
                    (λ n.
                      R.get (auth_session sid) w'.redis
                      ≡ some (session (new_session R V u request n)))
                    now4 opened.stored;
              permits = opened.permits;
              lifetime = opened.lifetime;
              same_db = opened.same_db ∙ db4;
              same_now = opened.same_now ∙ now4;
            }),
      )
