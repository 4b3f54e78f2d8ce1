-- ===== src/Exec/Context.antt =====
-- Code that leaves a part of the state alone, on any schedule.
use auth_microservice.Prelude.{◌≡◌, refl, ◌∙◌, inl, inr}
use auth_microservice.Failure.{Failure}
use auth_microservice.Exec.{
  World, Result, Exec, recover, attempt, on_redis, on_db, continue, ◌>>=◌, ok, err,
}
use auth_microservice.Exec.Calls.{on_redis-outcome, on_db-outcome}

-- What `f` shows of the state is the same after `m`.
abbrev pub Preserves : {S B A X : Type 0} → (World S B → X) → Exec S B A → Type 0
Preserves {S} {B} f m = (w : World S B) → f (m w).1 ≡ f w

abbrev pub KeepsUser : {S B A : Type 0} → Exec S B A → Type 0
KeepsUser m = Preserves (λ w. w.user) m

abbrev pub KeepsDb : {S B A : Type 0} → Exec S B A → Type 0
KeepsDb m = Preserves (λ w. w.db) m

-- What `f` shows of Redis is the same after `m`.
abbrev pub KeepsRedis : {S B A X : Type 0} → (S → X) → Exec S B A → Type 0
KeepsRedis f m = Preserves (λ w. f w.redis) m

module _ {S B A : Type 0} where
  pub on_redis-KeepsUser : (f : S → A × S) → KeepsUser {S = S} {B = B} (on_redis f)
  on_redis-KeepsUser f w = elim (on_redis-outcome f w) [
    | inl (v, e, _, _, same) ↦ rw e (same.user)
    | inr (v, e, _, _, same) ↦ rw e (same.user)
  ]

  pub on_redis-KeepsDb : (f : S → A × S) → KeepsDb {S = S} {B = B} (on_redis f)
  on_redis-KeepsDb f w = elim (on_redis-outcome f w) [
    | inl (v, e, _, d, _) ↦ rw e d
    | inr (v, e, _, d, _) ↦ rw e d
  ]

  pub on_redis-KeepsRedis :
      {X : Type 0} (g : S → X) (f : S → A × S)
      → ((s : S) → g (f s).1 ≡ g s)
      → KeepsRedis {S = S} {B = B} g (on_redis f)
  on_redis-KeepsRedis g f k w = elim (on_redis-outcome f w) [
    | inl (v, e, r, _, _) ↦ rw (e, r) (k w.redis)
    | inr (v, e, inl r, _, _) ↦ rw (e, r) refl
    | inr (v, e, inr r, _, _) ↦ rw (e, r) (k w.redis)
  ]

  pub on_db-KeepsUser : (f : B → A × B) → KeepsUser {S = S} {B = B} (on_db f)
  on_db-KeepsUser f w = elim (on_db-outcome f w) [
    | inl (v, e, _, _, same) ↦ rw e (same.user)
    | inr (v, e, _, _, same) ↦ rw e (same.user)
  ]

  -- A query changes nothing.
  pub on_db-KeepsDb : (f : B → A) → KeepsDb {S = S} {B = B} (on_db (λ b. (f b, b)))
  on_db-KeepsDb f w = elim (on_db-outcome (λ b. (f b, b)) w) [
    | inl (v, e, d, _, _) ↦ rw e d
    | inr (v, e, inl d, _, _) ↦ rw e d
    | inr (v, e, inr d, _, _) ↦ rw e d
  ]

  pub on_db-KeepsRedis :
      {X : Type 0} (g : S → X) (f : B → A × B) → KeepsRedis {S = S} {B = B} g (on_db f)
  on_db-KeepsRedis g f w = elim (on_db-outcome f w) [
    | inl (v, e, _, r, _) ↦ rw (e, r) refl
    | inr (v, e, _, r, _) ↦ rw (e, r) refl
  ]

  pub attempt-Preserves :
      {X : Type 0} (f : World S B → X) (m : Exec S B A) (h : Failure → Exec S B A)
      → Preserves f m
      → ((e : Failure) → Preserves f (h e))
      → Preserves f (attempt m h)
  attempt-Preserves f m h km kh w = go (m w) (km w)
    where
      go : (r : Result A × World S B) → f r.1 ≡ f w → f (recover h r).1 ≡ f w
      go (ok a, v) e = e
      go (err x, v) e = kh x v ∙ e

module _ {S B A C : Type 0} where
  pub >>=-Preserves :
      {X : Type 0} (f : World S B → X) (m : Exec S B A) (k : A → Exec S B C)
      → Preserves f m
      → ((a : A) → Preserves f (k a))
      → Preserves f (m >>= k)
  >>=-Preserves f m k km kk w = go (m w) (km w)
    where
      go : (r : Result A × World S B) → f r.1 ≡ f w → f (continue k r).1 ≡ f w
      go (ok a, v) e = kk a v ∙ e
      go (err x, v) e = e
