-- ===== src/Outbox.antt =====
-- src/entities/outbox.entity.ts, src/cron/outbox-publisher.service.ts and
-- src/cron/outbox-cleanup.service.ts: the events that wait in the database for the audit service.
-- The table is the list of its rows in the order of the publisher's query (creation, then id); the
-- first state of the world is the list of the ids that reached the message broker, in place of
-- Redis. Metrics and log entries are left out.
pub mod Publishing
pub mod Cleanup
use auth_microservice.Prelude.{
  ℕ, zero, suc, ◌+◌, ◌-◌, ◌*◌, ◌/◌, ◌≤◌, ◌<◌, String, ◌≡◌, refl, sym, ap, subst, ◌∙◌, ◌≢◌, ◌↔◌, ◌⊎◌,
  inl, inr, Bool, true, false, not, ◌&&◌, ◌||◌, Option, none, some, List, [], ◌∷◌, ◌++◌, map, arith,
  ◌==◌, eq_iff, eq_refl, ltb, leb, eqb, if◌then◌else◌, Bool-cases, Option-cases, truthy, get_or,
  length, length-append, any, filter_by, In, includes,
}
use auth_microservice.Exec.{
  AuthUser, Delivery, World, calm, Result, Exec, connection_lost, pure, raise, lift, recover,
  attempt, on_redis, on_db, continue, ◌>>=◌, ◌>>◌, current_time, set_user, Result-cases, >>=-eq-ok,
  attempt-eq-ok, answered, refused, reply_lost, ok, err,
}

pub data OutboxStatus : Type 0 where
  event_pending event_processing event_sent event_failed : OutboxStatus

pub record Event : Type 0 where
  pub id : String
  pub destination : String
  pub pattern_name : String
  pub payload : String
  pub status : OutboxStatus
  pub claimed_at : Option ℕ

abbrev pub batch_size : ℕ
batch_size = 100

abbrev pub processing_timeout_ms : ℕ
processing_timeout_ms = 60000

-- `claimed_at IS NOT NULL AND claimed_at < now - PROCESSING_TIMEOUT_MS`.
abbrev pub is_stale : (now : ℕ) → Option ℕ → Bool
is_stale now none = false
is_stale now (some t) = ltb (t + processing_timeout_ms) now

abbrev pub is_waiting : (now : ℕ) → OutboxStatus → Option ℕ → Bool
is_waiting now event_pending claimed = true
is_waiting now event_processing claimed = is_stale now claimed
is_waiting now event_sent claimed = false
is_waiting now event_failed claimed = false

abbrev pub is_claimable : (now : ℕ) → Event → Bool
is_claimable now e = (e.destination == "audit_queue") && is_waiting now e.status e.claimed_at

abbrev pub take_events : ℕ → List Event → List Event
take_events zero es = []
take_events (suc n) [] = []
take_events (suc n) (e ∷ es) = e ∷ take_events n es

abbrev pub ids_of : List Event → List String
ids_of es = map (λ (e : Event). e.id) es

-- `update(id, { status, claimed_at })`.
unfoldable pub set_status : OutboxStatus → Option ℕ → (ids : List String) → List Event → List Event
set_status s t ids [] = []
set_status s t ids (e ∷ es) =
    let rest = set_status s t ids es in
    if includes ids e.id then record e { status = s; claimed_at = t } ∷ rest else e ∷ rest

-- The rows that the query finds; a row that another transaction holds is skipped.
unfoldable pub available : (locked : String → Bool) (now : ℕ) → List Event → List Event
available locked now rows =
    take_events batch_size (filter_by (λ e. is_claimable now e && not (locked e.id)) rows)

-- The transaction of `claimAvailableEvents`.
unfoldable pub claim : (locked : String → Bool) (now : ℕ) → List Event → List Event × List Event
unfolding available set_status
claim locked now rows =
    let es = available locked now rows in
    (es, set_status event_processing (some now) (ids_of es) rows)

unfoldable pub claim_available_events :
    (locked : String → Bool) → Exec (List String) (List Event) (List Event)
unfolding on_db claim
claim_available_events locked = do now ← current_time; on_db (claim locked now)

-- One round of the loop of `handleAuditEvents`: emit the event and mark it, or set it back.
unfoldable pub publish : Event → Exec (List String) (List Event) (Unit {0})
unfolding on_redis on_db set_status
publish e =
    attempt
      (on_redis (λ q. (tt, q ++ e.id ∷ []))
        >> on_db (λ rows. (tt, set_status event_sent none (e.id ∷ []) rows)))
      (λ x. on_db (λ rows. (tt, set_status event_pending none (e.id ∷ []) rows)))

unfoldable pub publish_all : List Event → Exec (List String) (List Event) (Unit {0})
unfolding publish
publish_all [] = pure tt
publish_all (e ∷ es) = let later = publish_all es in publish e >> later

unfoldable pub handle_audit_events :
    (locked : String → Bool) → Exec (List String) (List Event) (Unit {0})
unfolding claim_available_events publish_all
handle_audit_events locked = claim_available_events locked >>= publish_all

abbrev pub is_sent : OutboxStatus → Bool
is_sent event_sent = true
is_sent _ = false

-- One deletion of `handleOutboxCleanup`: at most so many sent rows go; the second part is `affected`.
unfoldable pub delete_sent : (limit : ℕ) → List Event → List Event × ℕ
delete_sent zero rows = (rows, 0)
delete_sent (suc n) [] = ([], 0)
delete_sent (suc n) (e ∷ rows) = elim (is_sent e.status) [
  | true ↦ let r = delete_sent n rows in (r.0, suc r.1)
  | false ↦ let r = delete_sent (suc n) rows in (e ∷ r.0, r.1)
]

-- The loop, on fuel: none where the fuel is used up, else the rows left and `totalDeleted`.
unfoldable pub clean_up : (fuel limit : ℕ) → List Event → (total : ℕ) → Option (List Event × ℕ)
unfolding delete_sent
clean_up zero limit rows total = none
clean_up (suc fuel) limit rows total =
    let r = delete_sent limit rows in
    let again = clean_up fuel limit r.0 (total + r.1) in
    if eqb r.1 limit then again else some (r.0, total + r.1)

abbrev pub cleanup_batch_size : ℕ
cleanup_batch_size = 1000
