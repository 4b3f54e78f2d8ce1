-- ===== src/Exec.antt =====
-- The state that a request works on, and asynchronous code over it. Redis and the database are
-- states of types that the caller gives (S and B). Each call to one of them takes the next entry of `schedule`: the
-- call is answered, or it is refused, or it takes effect while its answer is lost; the last two
-- reject. Past the end of the schedule every call is answered.
pub mod Calls
pub mod Context
pub mod Inversion
use auth_microservice.Prelude.{
  ℕ, String, List, [], ◌∷◌, Option, some, ◌≡◌, ◌⊎◌, inl, inr, refl, arith,
}
use auth_microservice.Failure.{Failure, plain}

-- src/interfaces/auth-user.interface.ts
pub record AuthUser : Type 0 where
  pub id : String
  pub person_id : String
  pub email : String
  pub session_id : String

pub data Delivery : Type 0 where
  answered refused reply_lost : Delivery

-- `now` is the clock in milliseconds. `user` is what the request context holds
-- (src/common/context/request-context.service.ts), null until a guard sets it.
pub record World (S B : Type 0) : Type 0 where
  pub redis : S
  pub db : B
  pub schedule : List Delivery
  pub now : ℕ
  pub user : Option AuthUser

-- The same state with every further call answered.
abbrev pub calm : {S B : Type 0} → World S B → World S B
calm w = record w { schedule = [] }

pub data Result {ℓ} (A : Type ℓ) : Type ℓ where
  ok : A → Result A
  err : Failure → Result A

abbrev pub Exec : (S B A : Type 0) → Type 0
Exec S B A = World S B → Result A × World S B

abbrev pub connection_lost : Failure
connection_lost = record { link = plain "ConnectionError" "connection lost"; causes = [] }

module _ {S B A : Type 0} where
  abbrev pub pure : A → Exec S B A
  pure a w = (ok a, w)

  abbrev pub raise : Failure → Exec S B A
  raise e w = (err e, w)

  abbrev pub lift : Result A → Exec S B A
  lift r w = (r, w)

  abbrev pub recover : (Failure → Exec S B A) → Result A × World S B → Result A × World S B
  recover handler (ok a, w) = (ok a, w)
  recover handler (err e, w) = handler e w

  -- `try { body } catch (error) { handler }`.
  abbrev pub attempt : Exec S B A → (Failure → Exec S B A) → Exec S B A
  attempt body handler w = recover handler (body w)

  abbrev redis_call : Delivery → (S → A × S) → World S B → Result A × World S B
  redis_call answered f w = (ok (f w.redis).0, record w { redis = (f w.redis).1 })
  redis_call refused f w = (err connection_lost, w)
  redis_call reply_lost f w = (err connection_lost, record w { redis = (f w.redis).1 })

  abbrev db_call : Delivery → (B → A × B) → World S B → Result A × World S B
  db_call answered f w = (ok (f w.db).0, record w { db = (f w.db).1 })
  db_call refused f w = (err connection_lost, w)
  db_call reply_lost f w = (err connection_lost, record w { db = (f w.db).1 })

  abbrev redis_scheduled : List Delivery → (S → A × S) → Exec S B A
  redis_scheduled [] f w = redis_call answered f w
  redis_scheduled (d ∷ ds) f w = redis_call d f (record w { schedule = ds })

  -- `await this.redis.raw.…`.
  unfoldable pub on_redis : (S → A × S) → Exec S B A
  on_redis f w = redis_scheduled w.schedule f w

  abbrev db_scheduled : List Delivery → (B → A × B) → Exec S B A
  db_scheduled [] f w = db_call answered f w
  db_scheduled (d ∷ ds) f w = db_call d f (record w { schedule = ds })

  -- `await this.…Repository.…`.
  unfoldable pub on_db : (B → A × B) → Exec S B A
  on_db f w = db_scheduled w.schedule f w

module _ {S B A C : Type 0} where
  abbrev pub continue : (A → Exec S B C) → Result A × World S B → Result C × World S B
  continue f (ok a, w) = f a w
  continue f (err e, w) = (err e, w)

  infixl 10 ◌>>=◌ ◌>>◌
  abbrev pub ◌>>=◌ : Exec S B A → (A → Exec S B C) → Exec S B C
  ◌>>=◌ m f w = continue f (m w)

  abbrev pub ◌>>◌ : Exec S B A → Exec S B C → Exec S B C
  m >> n = m >>= λ _. n

module _ {S B : Type 0} where
  abbrev pub current_time : Exec S B ℕ
  current_time w = (ok w.now, w)

  -- `requestContextService.setUser` and `request.user = …`.
  abbrev pub set_user : AuthUser → Exec S B (Unit {0})
  set_user u w = (ok tt, record w { user = some u })

pub Result-cases {ℓ} :
    {A : Type ℓ} (r : Result A) → ((a : A) × (r ≡ ok a)) ⊎ ((e : Failure) × (r ≡ err e))
Result-cases (ok a) = inl (a, refl)
Result-cases (err e) = inr (e, refl)

-- Inversion of a step that returned, and of a `try` whose handler throws again.
module _ {S B A C : Type 0} where
  pub >>=-eq-ok :
      (m : Exec S B A) (f : A → Exec S B C) (w : World S B) {c : C} {w' : World S B}
      → (m >>= f) w ≡ (ok c, w')
      → (a : A) × (v : World S B) × (m w ≡ (ok a, v)) × (f a v ≡ (ok c, w'))
  >>=-eq-ok m f w {c} {w'} h = go (m w) refl h
    where
      go :
          (r : Result A × World S B)
          → m w ≡ r
          → continue f r ≡ (ok c, w')
          → (a : A) × (v : World S B) × (m w ≡ (ok a, v)) × (f a v ≡ (ok c, w'))
      go (ok a, v) e k = (a, v, e, k)
      go (err x, v) e k = absurd (ground arith)

module _ {S B A : Type 0} where
  pub attempt-eq-ok :
      (m : Exec S B A) (g : Failure → Failure) (w : World S B) {a : A} {w' : World S B}
      → attempt m (λ e. raise (g e)) w ≡ (ok a, w')
      → m w ≡ (ok a, w')
  attempt-eq-ok m g w {a} {w'} h = go (m w) refl h
    where
      go :
          (r : Result A × World S B)
          → m w ≡ r
          → recover (λ e. raise (g e)) r ≡ (ok a, w')
          → m w ≡ (ok a, w')
      go (ok b, v) e k = ground arith
      go (err x, v) e k = absurd (ground arith)
