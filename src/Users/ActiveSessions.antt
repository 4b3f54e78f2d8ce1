-- ===== src/Users/ActiveSessions.antt =====
-- Finding the active session of a token, and writing it back.
use auth_microservice.Prelude.{
  ℕ, String, ◌≡◌, refl, ap, ◌∙◌, inl, inr, true, false, Option, none, some, arith, eq_refl,
  Bool-cases,
}
use auth_microservice.Redis.{
  codes, Session, Value, Key, same_key, Redis, found, session, api_cache, reset_payload, malformed,
  empty_text, auth_session, keep_ttl,
}
use auth_microservice.Exec.{World, lift, on_redis, >>=-eq-ok, ok}
use auth_microservice.Exec.Inversion.{on_redis-eq-ok}
use auth_microservice.Sessions.{read_session}
use auth_microservice.Users.{User, Services}
use auth_microservice.Users.Entering.{renewed, require_active, active_session}

module _ (R : Redis) {B : Type 0} (V : Services B) where
  read_active-eq-ok :
      (o : Option Value) (v v2 w' : World R.Store B) (i : Option Session) (s : Session)
      → lift (read_session (found o)) v ≡ (ok i, v2)
      → require_active R V i v2 ≡ (ok s, w')
      → (o ≡ some (session s)) × (s.active ≡ true) × (w' ≡ v)
  unfolding require_active
  read_active-eq-ok none v v2 w' i s h k = absurd (ground arith)
  read_active-eq-ok (some (session x)) v v2 w' i s h k = ground arith
  read_active-eq-ok (some (reset_payload x)) v v2 w' i s h k = absurd (ground arith)
  read_active-eq-ok (some (api_cache x)) v v2 w' i s h k = absurd (ground arith)
  read_active-eq-ok (some (codes x)) v v2 w' i s h k = absurd (ground arith)
  read_active-eq-ok (some malformed) v v2 w' i s h k = absurd (ground arith)
  read_active-eq-ok (some empty_text) v v2 w' i s h k = absurd (ground arith)

  pub active_session-eq-ok :
      (sid : String) (w w' : World R.Store B) (s : Session)
      → active_session R V sid w ≡ (ok s, w')
      → (R.get (auth_session sid) w.redis ≡ some (session s))
        × (s.active ≡ true)
        × (w'.redis ≡ w.redis)
        × (w'.db ≡ w.db)
        × (w'.now ≡ w.now)
  unfolding active_session
  active_session-eq-ok sid w w' s h =
      let (o, v1, e1, h1) =
        >>=-eq-ok (on_redis (λ r. (found (R.get (auth_session sid) r), r))) _ w h in
      let (oe, r1, d1, q1) =
        on_redis-eq-ok (λ r. (found (R.get (auth_session sid) r), r)) w v1 o e1 in
      let (i, v2, e2, h2) = >>=-eq-ok (lift (read_session o)) _ v1 h1 in
      let (here, active, same) =
        read_active-eq-ok (R.get (auth_session sid) w.redis) v1 v2 w' i s (rw (← oe) e2) h2 in
      (
        here,
        active,
        ap (λ z. z.redis) same ∙ r1,
        ap (λ z. z.db) same ∙ d1,
        ap (λ z. z.now) same ∙ q1.now,
      )

  abbrev pub rewriting : (sid : String) → Session → User → ℕ → R.Store → Unit {0} × R.Store
  rewriting sid s u now r =
      (tt, R.set keep_ttl (auth_session sid) (session (renewed R V s u now)) r)

  pub get-rewritten :
      (sid : String) (x : Value) (r : R.Store)
      → R.get (auth_session sid) (R.set keep_ttl (auth_session sid) x r) ≡ some x
  get-rewritten sid x r =
      R.get-set keep_ttl (auth_session sid) (auth_session sid) x r ∙ ground (arith, eq_refl sid)

  pub ttl-rewritten :
      (sid : String) (x : Value) (r : R.Store) (k : Key)
      → R.ttl k (R.set keep_ttl (auth_session sid) x r) ≡ R.ttl k r
  ttl-rewritten sid x r k =
      R.ttl-set keep_ttl (auth_session sid) k x r
      ∙ elim (Bool-cases (same_key (auth_session sid) k)) [ inl e ↦ rw e refl | inr e ↦ rw e refl ]

  pub other-rewritten :
      (sid : String) (x : Value) (r : R.Store) (k : Key)
      → same_key (auth_session sid) k ≡ false
      → R.get k (R.set keep_ttl (auth_session sid) x r) ≡ R.get k r
  other-rewritten sid x r k other =
      R.get-set keep_ttl (auth_session sid) k x r ∙ ground (arith, other)
