-- ===== src/Users/Browsers.antt =====
-- The cookies of a browser after a login and after a logout.
use auth_microservice.Prelude.{
  ℕ, suc, String, ◌≡◌, refl, ◌∙◌, true, Option, none, some, [], ◌∷◌, eq_refl,
}
use auth_microservice.Redis.{Redis}
use auth_microservice.Exec.{AuthUser, World, ok}
use auth_microservice.Jwt.{Tokens}
use auth_microservice.Http.{Request}
use auth_microservice.Users.{Services}
use auth_microservice.Users.Entering.{log_in, log_out}
use auth_microservice.Users.Cookies.{
  Environment, CookieOptions, get_ttl_from_env, cookie_domain, options, get_auth_cookie_options,
  get_refresh_cookie_options, set_cookies, log_in_handler, log_out_handler, same_domain, Browser,
  receive_all, cookie, clear_cookie,
}

-- What is left of a cookie with this domain once the service has cleared its cookies.
abbrev pub left_of : (domain : Option String) → (token : String) → Option String
left_of none token = none
left_of (some d) token = some token

same_domain_refl : (d : Option String) → same_domain d d ≡ true
same_domain_refl none = refl
same_domain_refl (some d) = eq_refl d

-- The jar after both cookies were set, and after both were cleared.
module _ (W : Browser) (ts : Tokens) (a b : CookieOptions) (m n : ℕ) (j : W.Jar) where
  abbrev filled : W.Jar
  filled =
      receive_all W
        (cookie "auth_token" ts.access_token a ∷ cookie "refresh_token" ts.refresh_token b ∷ []) j

  abbrev emptied : W.Jar
  emptied =
      receive_all W
        (clear_cookie "auth_token" "/" ∷ clear_cookie "refresh_token" "/users/refresh-token" ∷ [])
        filled

  held-filled :
      a.max_age ≡ some (suc m)
      → b.max_age ≡ some (suc n)
      → (W.held "auth_token" a.domain a.path filled ≡ some ts.access_token)
        × (W.held "refresh_token" b.domain b.path filled ≡ some ts.refresh_token)
  held-filled p q = (
    W.held-cookie "refresh_token" ts.refresh_token b n "auth_token" a.domain a.path _ q
        ∙ W.held-cookie "auth_token" ts.access_token a m "auth_token" a.domain a.path j p
        ∙ rw (same_domain_refl a.domain, eq_refl a.path) refl,
    W.held-cookie "refresh_token" ts.refresh_token b n "refresh_token" b.domain b.path _ q
        ∙ rw (same_domain_refl b.domain, eq_refl b.path) refl,
  )

  held-emptied :
      (d : Option String)
      → a.domain ≡ d
      → b.domain ≡ d
      → a.path ≡ "/"
      → b.path ≡ "/users/refresh-token"
      → a.max_age ≡ some (suc m)
      → b.max_age ≡ some (suc n)
      → (W.held "auth_token" d "/" emptied ≡ left_of d ts.access_token)
        × (W.held "refresh_token" d "/users/refresh-token" emptied ≡ left_of d ts.refresh_token)
  held-emptied none da db pa pb p q = (
    W.held-clear_cookie "refresh_token" "/users/refresh-token" "auth_token" none "/" _
        ∙ W.held-clear_cookie "auth_token" "/" "auth_token" none "/" _,
    W.held-clear_cookie "refresh_token" "/users/refresh-token" "refresh_token" none
        "/users/refresh-token" _,
  )
  held-emptied (some d) da db pa pb p q =
      let (x, y) = held-filled p q in
      (
        W.held-clear_cookie "refresh_token" "/users/refresh-token" "auth_token" (some d) "/" _
            ∙ W.held-clear_cookie "auth_token" "/" "auth_token" (some d) "/" _
            ∙ rw (← da, ← pa) x,
        W.held-clear_cookie "refresh_token" "/users/refresh-token" "refresh_token" (some d)
              "/users/refresh-token" _
            ∙ W.held-clear_cookie "auth_token" "/" "refresh_token" (some d) "/users/refresh-token" _
            ∙ rw (← db, ← pb) y,
      )

module _ (E : Environment) (W : Browser) (R : Redis) {B : Type 0} (V : Services B) where
  -- Where the lifetimes of the cookies are configured and positive, a login that the service grants is
  -- answered with both tokens, and the browser holds them at the configured domain. A logout that
  -- succeeds afterwards removes them from a browser only if no domain is configured: with a
  -- `COOKIE_DOMAIN` both tokens stay in the browser, since the cookies are cleared without it.
  pub log_out_handler-left_of :
      (m n : ℕ) (email password sid : String) (request : Request) (user : AuthUser) (j : W.Jar)
      (ts : Tokens) (w w' v v' : World R.Store B)
      → get_ttl_from_env E "JWT_AUTH_EXPIRES_IN" ≡ ok (some (suc m))
      → get_ttl_from_env E "JWT_REFRESH_EXPIRES_IN" ≡ ok (some (suc n))
      → log_in R V email password sid request w ≡ (ok ts, w')
      → log_out R V user v ≡ (ok tt, v')
      → let entering = (log_in_handler E R V email password sid request w).0 in
        let leaving = (log_out_handler E R V user v).0 in
        let here = receive_all W entering.1 j in
        let after = receive_all W leaving.1 here in
        (entering.0 ≡ ok tt)
        × (W.held "auth_token" (cookie_domain E) "/" here ≡ some ts.access_token)
        × (W.held "refresh_token" (cookie_domain E) "/users/refresh-token" here
            ≡ some ts.refresh_token)
        × (leaving.0 ≡ ok tt)
        × (W.held "auth_token" (cookie_domain E) "/" after
            ≡ left_of (cookie_domain E) ts.access_token)
        × (W.held "refresh_token" (cookie_domain E) "/users/refresh-token" after
            ≡ left_of (cookie_domain E) ts.refresh_token)
  unfolding log_in_handler log_out_handler set_cookies get_auth_cookie_options
      get_refresh_cookie_options
  log_out_handler-left_of m n email password sid request user j ts w w' v v' p q h k =
      let a = options E "/" (some (suc m)) in
      let b = options E "/users/refresh-token" (some (suc n)) in
      let (x, y) = held-filled W ts a b m n j refl refl in
      let (s, t) = held-emptied W ts a b m n j (cookie_domain E) refl refl refl refl refl refl in
      rw (h, k, p, q) (refl, x, y, refl, s, t)
