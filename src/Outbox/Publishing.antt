-- ===== src/Outbox/Publishing.antt =====
-- What the publisher promises on any schedule, and what it does when every call is answered.
use mathlib.Core.List.{append-nil, append_assoc}
use auth_microservice.Prelude.{
  ℕ, zero, suc, ◌≤◌, String, ◌≡◌, refl, sym, ap, ◌∙◌, ◌≢◌, inl, inr, Bool, Option, none, some, List,
  [], ◌∷◌, ◌++◌, arith, ◌==◌, eq_iff, Bool-cases, length, In, includes,
}
use auth_microservice.Exec.{World, calm, Result, attempt, on_db, continue, ok, err}
use auth_microservice.Exec.Calls.{on_redis-outcome, on_db-outcome}
use auth_microservice.Outbox.{
  OutboxStatus, Event, batch_size, take_events, ids_of, set_status, available, claim,
  claim_available_events, publish, publish_all, handle_audit_events, event_pending,
  event_processing, event_sent,
}

-- Every event that is marked as sent has reached the broker.
abbrev pub SentArrived : List String → List Event → Type 0
SentArrived q [] = Unit
SentArrived q (e ∷ es) = (e.status ≡ event_sent → In e.id q) × SentArrived q es

-- The invariant of the table and the broker: nothing is marked in vain, and no row is lost.
abbrev pub IsSound : List String → World (List String) (List Event) → Type 0
IsSound ids w = SentArrived w.redis w.db × (ids_of w.db ≡ ids)

In-append : (x : String) (q : List String) (y : String) → In x q → In x (q ++ y ∷ [])
In-append x [] y m = absurd m
In-append x (z ∷ q) y (inl e) = inl e
In-append x (z ∷ q) y (inr m) = inr (In-append x q y m)

In-last : (x : String) (q : List String) → In x (q ++ x ∷ [])
In-last x [] = inl refl
In-last x (z ∷ q) = inr (In-last x q)

append-SentArrived :
    (q : List String) (y : String) (es : List Event)
    → SentArrived q es
    → SentArrived (q ++ y ∷ []) es
append-SentArrived q y [] s = tt
append-SentArrived q y (e ∷ es) (s, ss) =
    ((λ h. In-append e.id q y (s h)), append-SentArrived q y es ss)

ids-set_status :
    (s : OutboxStatus) (t : Option ℕ) (ids : List String) (es : List Event)
    → ids_of (set_status s t ids es) ≡ ids_of es
unfolding set_status
ids-set_status s t ids [] = refl
ids-set_status s t ids (e ∷ es) = elim (Bool-cases (includes ids e.id)) [
  | inl h ↦ rw h (ap (λ r. e.id ∷ r) (ids-set_status s t ids es))
  | inr h ↦ rw h (ap (λ r. e.id ∷ r) (ids-set_status s t ids es))
]

-- A change to a state other than sent marks nothing.
unmark-SentArrived :
    (s : OutboxStatus) (t : Option ℕ) (ids q : List String) (es : List Event)
    → s ≢ event_sent
    → SentArrived q es
    → SentArrived q (set_status s t ids es)
unfolding set_status
unmark-SentArrived s t ids q [] other a = tt
unmark-SentArrived s t ids q (e ∷ es) other (a, later) = elim (Bool-cases (includes ids e.id)) [
  | inl h ↦ rw h ((λ k. absurd (other k)), unmark-SentArrived s t ids q es other later)
  | inr h ↦ rw h (a, unmark-SentArrived s t ids q es other later)
]

-- An event that has arrived may be marked.
mark-SentArrived :
    (i : String) (q : List String) (es : List Event)
    → In i q
    → SentArrived q es
    → SentArrived q (set_status event_sent none (i ∷ []) es)
unfolding set_status
mark-SentArrived i q [] m a = tt
mark-SentArrived i q (e ∷ es) m (a, later) = elim (Bool-cases (i == e.id)) [
  | inl h ↦ rw h ((λ k. rw (← ((eq_iff i e.id).0 h)) m), mark-SentArrived i q es m later)
  | inr h ↦ rw h (a, mark-SentArrived i q es m later)
]

pending≢sent : event_pending ≢ event_sent
pending≢sent e = absurd (ground arith)

processing≢sent : event_processing ≢ event_sent
processing≢sent e = absurd (ground arith)

module _ (ids : List String) where
  set_back-IsSound :
      (e : Event) (w : World (List String) (List Event))
      → IsSound ids w
      → IsSound ids
          (on_db {A = Unit {0}} (λ rows. (tt, set_status event_pending none (e.id ∷ []) rows)) w).1
  set_back-IsSound e w (a, l) =
      elim (on_db-outcome {A = Unit {0}}
        (λ rows. (tt, set_status event_pending none (e.id ∷ []) rows)) w) [
          | inl (v, k, d, r, _) ↦ rw (k, d, r) (done)
          | inr (v, k, inl d, r, _) ↦ rw (k, d, r) (a, l)
          | inr (v, k, inr d, r, _) ↦ rw (k, d, r) (done)
        ]
    where
      done :
          SentArrived w.redis (set_status event_pending none (e.id ∷ []) w.db)
          × (ids_of (set_status event_pending none (e.id ∷ []) w.db) ≡ ids)
      done = (
        unmark-SentArrived event_pending none (e.id ∷ []) w.redis w.db pending≢sent a,
        ids-set_status event_pending none (e.id ∷ []) w.db ∙ l,
      )

  -- What emitting an event leaves.
  arrived-IsSound :
      (e : Event) (w v : World (List String) (List Event))
      → IsSound ids w
      → v.redis ≡ w.redis ++ e.id ∷ []
      → v.db ≡ w.db
      → IsSound ids v × In e.id v.redis
  arrived-IsSound e w v (a, l) r d =
      rw (r, d) ((append-SentArrived w.redis e.id w.db a, l), In-last e.id w.redis)

  marked-IsSound :
      (e : Event) (w v : World (List String) (List Event))
      → IsSound ids w
      → In e.id w.redis
      → v.redis ≡ w.redis
      → v.db ≡ set_status event_sent none (e.id ∷ []) w.db
      → IsSound ids v
  marked-IsSound e w v (a, l) m r d =
      rw (r, d)
        (
          mark-SentArrived e.id w.redis w.db m a,
          ids-set_status event_sent none (e.id ∷ []) w.db ∙ l,
        )

  mark-IsSound :
      (e : Event) (w : World (List String) (List Event))
      → IsSound ids w
      → In e.id w.redis
      → IsSound ids
          (attempt
            (on_db {A = Unit {0}} (λ rows. (tt, set_status event_sent none (e.id ∷ []) rows)))
            (λ x. on_db (λ rows. (tt, set_status event_pending none (e.id ∷ []) rows)))
            w).1
  mark-IsSound e w s m =
      elim (on_db-outcome {A = Unit {0}} (λ rows. (tt, set_status event_sent none (e.id ∷ []) rows))
        w) [
          | inl (v, k, d, r, _) ↦ rw k (marked-IsSound e w v s m r d)
          | inr (v, k, inl d, r, _) ↦ rw k (set_back-IsSound e v (rw (r, d) s))
          | inr (v, k, inr d, r, _) ↦ rw k (set_back-IsSound e v (marked-IsSound e w v s m r d))
        ]

  publish-IsSound :
      (e : Event) (w : World (List String) (List Event))
      → IsSound ids w
      → IsSound ids (publish e w).1
  unfolding publish
  publish-IsSound e w s = elim (on_redis-outcome {A = Unit {0}} (λ q. (tt, q ++ e.id ∷ [])) w) [
    | inl (v, k, r, d, _) ↦
        let (sv, m) = arrived-IsSound e w v s r d in rw k (mark-IsSound e v sv m)
    | inr (v, k, inl r, d, _) ↦ rw k (set_back-IsSound e v (rw (r, d) s))
    | inr (v, k, inr r, d, _) ↦ rw k (set_back-IsSound e v (arrived-IsSound e w v s r d).0)
  ]

  publish_all-IsSound :
      (es : List Event) (w : World (List String) (List Event))
      → IsSound ids w
      → IsSound ids (publish_all es w).1
  unfolding publish_all
  publish_all-IsSound [] w s = s
  publish_all-IsSound (e ∷ es) w s =
      go (publish e w) (publish-IsSound e w s) (λ v k. publish_all-IsSound es v k)
    where
      go :
          (r : Result (Unit {0}) × World (List String) (List Event))
          → IsSound ids r.1
          → ((v : World (List String) (List Event))
              → IsSound ids v
              → IsSound ids (publish_all es v).1)
          → IsSound ids (continue (λ _. publish_all es) r).1
      go (ok a, v) k next = next v k
      go (err x, v) k next = k

  claimed-IsSound :
      (locked : String → Bool) (now : ℕ) (w v : World (List String) (List Event))
      → IsSound ids w
      → v.redis ≡ w.redis
      → v.db ≡ (claim locked now w.db).1
      → IsSound ids v
  unfolding claim
  claimed-IsSound locked now w v (a, l) r d =
      rw (r, d)
        (
          unmark-SentArrived event_processing (some now) _ w.redis w.db processing≢sent a,
          ids-set_status event_processing (some now) _ w.db ∙ l,
        )

  -- Whatever calls to the database and to the broker are refused or lose their answer, a run of the
  -- publisher keeps this: every event that is marked as sent has reached the broker, and no row of
  -- the outbox is lost.
  pub handle_audit_events-IsSound :
      (locked : String → Bool) (w : World (List String) (List Event))
      → IsSound ids w
      → IsSound ids (handle_audit_events locked w).1
  unfolding handle_audit_events claim_available_events
  handle_audit_events-IsSound locked w s = elim (on_db-outcome (claim locked w.now) w) [
    | inl (v, k, d, r, _) ↦ rw k (publish_all-IsSound _ v (claimed-IsSound locked w.now w v s r d))
    | inr (v, k, inl d, r, _) ↦ rw k (rw (r, d) s)
    | inr (v, k, inr d, r, _) ↦ rw k (claimed-IsSound locked w.now w v s r d)
  ]

publish_all-emits :
    (es : List Event) (w : World (List String) (List Event))
    → ((publish_all es (calm w)).0 ≡ ok tt)
      × ((publish_all es (calm w)).1.redis ≡ w.redis ++ ids_of es)
unfolding publish_all publish
publish_all-emits [] w = (refl, sym (append-nil w.redis))
publish_all-emits (e ∷ es) w =
    let (done, emitted) = publish_all-emits es (record w {
      redis = w.redis ++ e.id ∷ [];
      db = set_status event_sent none (e.id ∷ []) w.db;
    }) in
    (done, emitted ∙ append_assoc w.redis (e.id ∷ []) (ids_of es))

take_events-bounded : (n : ℕ) (es : List Event) → length (take_events n es) ≤ n
take_events-bounded zero es = omega arith
take_events-bounded (suc n) [] = omega arith
take_events-bounded (suc n) (e ∷ es) = omega (arith, take_events-bounded n es)

-- While the database and the broker answer, a run emits exactly the first events that are available, at
-- most a hundred of them, each once and in the order of their creation.
pub handle_audit_events-emits :
    (locked : String → Bool) (w : World (List String) (List Event))
    → let es = available locked w.now w.db in
      ((handle_audit_events locked (calm w)).0 ≡ ok tt)
      × ((handle_audit_events locked (calm w)).1.redis ≡ w.redis ++ ids_of es)
      × (length es ≤ batch_size)
unfolding handle_audit_events claim_available_events claim available
handle_audit_events-emits locked w =
    let es = available locked w.now w.db in
    let (done, emitted) = publish_all-emits es (record w { db = (claim locked w.now w.db).1 }) in
    (done, emitted, take_events-bounded batch_size _)
