-- ===== src/Exec/Calls.antt =====
-- The outcomes of one call to Redis or to the database, on any schedule.
use auth_microservice.Prelude.{◌≡◌, refl, ◌⊎◌, inl, inr, List, [], ◌∷◌}
use auth_microservice.Exec.{
  redis_scheduled, db_call, redis_call, db_scheduled, Delivery, World, Result, connection_lost,
  on_redis, on_db, answered, refused, reply_lost, ok, err,
}

-- What a call leaves alone.
pub record SameRequest {S B : Type 0} (w v : World S B) : Type 0 where
  pub now : v.now ≡ w.now
  pub user : v.user ≡ w.user

module _ {S B A : Type 0} where
  abbrev pub RedisOutcome : (S → A × S) → World S B → Result A × World S B → Type 0
  RedisOutcome f w r =
      ((v : World S B) × (r ≡ (ok (f w.redis).0, v))
        × (v.redis ≡ (f w.redis).1)
        × (v.db ≡ w.db)
        × SameRequest w v)
      ⊎ ((v : World S B) × (r ≡ (err connection_lost, v))
          × ((v.redis ≡ w.redis) ⊎ (v.redis ≡ (f w.redis).1))
          × (v.db ≡ w.db)
          × SameRequest w v)

  redis_call-outcome :
      (d : Delivery) (f : S → A × S) (w : World S B) (ds : List Delivery)
      → RedisOutcome f w (redis_call d f (record w { schedule = ds }))
  redis_call-outcome answered f w ds = inl (
    record w { redis = (f w.redis).1; schedule = ds },
    refl,
    refl,
    refl,
    record { now = refl; user = refl },
  )
  redis_call-outcome refused f w ds =
      inr (record w { schedule = ds }, refl, inl refl, refl, record { now = refl; user = refl })
  redis_call-outcome reply_lost f w ds = inr (
    record w { redis = (f w.redis).1; schedule = ds },
    refl,
    inr refl,
    refl,
    record { now = refl; user = refl },
  )

  redis_scheduled-outcome :
      (ds : List Delivery) (f : S → A × S) (w : World S B)
      → RedisOutcome f w (redis_scheduled ds f w)
  redis_scheduled-outcome [] f w =
      inl (record w { redis = (f w.redis).1 }, refl, refl, refl, record { now = refl; user = refl })
  redis_scheduled-outcome (d ∷ ds) f w = redis_call-outcome d f w ds

  -- The call is answered and takes effect, or it rejects and takes effect or not.
  pub on_redis-outcome : (f : S → A × S) (w : World S B) → RedisOutcome f w (on_redis f w)
  unfolding on_redis
  on_redis-outcome f w = redis_scheduled-outcome w.schedule f w

  abbrev pub DbOutcome : (B → A × B) → World S B → Result A × World S B → Type 0
  DbOutcome f w r =
      ((v : World S B) × (r ≡ (ok (f w.db).0, v))
        × (v.db ≡ (f w.db).1)
        × (v.redis ≡ w.redis)
        × SameRequest w v)
      ⊎ ((v : World S B) × (r ≡ (err connection_lost, v))
          × ((v.db ≡ w.db) ⊎ (v.db ≡ (f w.db).1))
          × (v.redis ≡ w.redis)
          × SameRequest w v)

  db_call-outcome :
      (d : Delivery) (f : B → A × B) (w : World S B) (ds : List Delivery)
      → DbOutcome f w (db_call d f (record w { schedule = ds }))
  db_call-outcome answered f w ds = inl (
    record w { db = (f w.db).1; schedule = ds },
    refl,
    refl,
    refl,
    record { now = refl; user = refl },
  )
  db_call-outcome refused f w ds =
      inr (record w { schedule = ds }, refl, inl refl, refl, record { now = refl; user = refl })
  db_call-outcome reply_lost f w ds = inr (
    record w { db = (f w.db).1; schedule = ds },
    refl,
    inr refl,
    refl,
    record { now = refl; user = refl },
  )

  db_scheduled-outcome :
      (ds : List Delivery) (f : B → A × B) (w : World S B) → DbOutcome f w (db_scheduled ds f w)
  db_scheduled-outcome [] f w =
      inl (record w { db = (f w.db).1 }, refl, refl, refl, record { now = refl; user = refl })
  db_scheduled-outcome (d ∷ ds) f w = db_call-outcome d f w ds

  -- The call is answered and takes effect, or it rejects and takes effect or not.
  pub on_db-outcome : (f : B → A × B) (w : World S B) → DbOutcome f w (on_db f w)
  unfolding on_db
  on_db-outcome f w = db_scheduled-outcome w.schedule f w
