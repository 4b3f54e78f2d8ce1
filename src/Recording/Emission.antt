-- ===== src/Recording/Emission.antt =====
-- The event that a change leaves, and the publisher's next run.
use auth_microservice.Prelude.{
  ℕ, zero, suc, ◌≤◌, ◌<◌, String, ◌≡◌, refl, sym, ap, ◌∙◌, inl, inr, Bool, true, false, not, ◌&&◌,
  some, List, [], ◌∷◌, ◌++◌, append_assoc, arith, eq_iff, if◌then◌else◌, Bool-cases, length,
  length-append, filter_by,
}
use auth_microservice.Exec.{World, calm, ok}
use auth_microservice.Outbox.{
  Event, batch_size, is_claimable, take_events, ids_of, available, handle_audit_events,
  event_pending,
}
use auth_microservice.Outbox.Publishing.{handle_audit_events-emits}
use auth_microservice.Recording.{
  payload_of, EntityMetadata, ChangedEntity, Change, should_skip, AuditPayload, pattern_of,
  event_of, after_change,
}

take_events-all : (n : ℕ) (es : List Event) → length es ≤ n → take_events n es ≡ es
take_events-all zero [] h = refl
take_events-all zero (e ∷ es) h = absurd (omega arith)
take_events-all (suc n) [] h = refl
take_events-all (suc n) (e ∷ es) h = ap (λ ds. e ∷ ds) (take_events-all n es (omega arith))

filter_by-append :
    (p : Event → Bool) (xs ys : List Event)
    → filter_by p (xs ++ ys) ≡ filter_by p xs ++ filter_by p ys
filter_by-append p [] ys = refl
filter_by-append p (x ∷ xs) ys = ground (arith, filter_by-append p xs ys)

ids_of-append : (xs ys : List Event) → ids_of (xs ++ ys) ≡ ids_of xs ++ ids_of ys
ids_of-append [] ys = refl
ids_of-append (x ∷ xs) ys = ap (λ is. x.id ∷ is) (ids_of-append xs ys)

-- The rows that wait for the publisher.
abbrev pub waiting_rows : (locked : String → Bool) (now : ℕ) → List Event → List Event
waiting_rows locked now rows = filter_by (λ e. is_claimable now e && not (locked e.id)) rows

available-snoc :
    (locked : String → Bool) (now : ℕ) (rows : List Event) (e : Event)
    → e.destination ≡ "audit_queue"
    → e.status ≡ event_pending
    → locked e.id ≡ false
    → length (waiting_rows locked now rows) < batch_size
    → available locked now (rows ++ e ∷ []) ≡ available locked now rows ++ e ∷ []
unfolding available
available-snoc locked now rows e d s l few =
    let last : waiting_rows locked now (e ∷ []) ≡ e ∷ [] =
      ground (arith, d, s, l, eq_iff e.destination "audit_queue") in
    let all : waiting_rows locked now (rows ++ e ∷ []) ≡ waiting_rows locked now rows ++ e ∷ [] =
      filter_by-append (λ e. is_claimable now e && not (locked e.id)) rows (e ∷ [])
      ∙ ap (λ es. waiting_rows locked now rows ++ es) last in
    rw all (
      take_events-all batch_size (waiting_rows locked now rows ++ e ∷ [])
        (omega (arith, length-append (waiting_rows locked now rows) (e ∷ []), few))
      ∙ ap (λ es. es ++ e ∷ [])
          (sym (take_events-all batch_size (waiting_rows locked now rows) (omega (arith, few)))))

module _ (text_of : List ℕ → String) (to_json : AuditPayload → String)
    (new_id : List Event → String) where
  -- The event of a change that the user of the request makes now.
  abbrev pub event_left :
      Change → EntityMetadata → ChangedEntity → World (List String) (List Event) → Event
  event_left c m e w =
      event_of text_of to_json new_id (pattern_of c m e) (payload_of c m e w.user w.now) w.db

  -- Two rounds of the recursion are enough, however much fuel is left.
  after_change-runs :
      (fuel : ℕ) (c : Change) (m : EntityMetadata) (e : ChangedEntity)
      (w : World (List String) (List Event))
      → after_change text_of to_json new_id true (suc (suc fuel)) c (some m) (some e) (calm w) ≡ (
        ok tt,
        calm
            (if should_skip (some m) then w else record w { db = w.db ++ event_left c m e w ∷ [] }),
      )
  unfolding after_change
  after_change-runs fuel c m e w = elim (Bool-cases (should_skip (some m))) [
    | inl s ↦ rw s refl
    | inr s ↦ rw s refl
  ]

  -- A change of an entity that is not skipped, within a request and with every call answered, leaves
  -- exactly one event, whatever fuel there is beyond two rounds: the insertion of the event leaves
  -- none. The event is the last that the publisher's next run emits, at whatever time that is, if fewer than a
  -- hundred others wait for it and no other run holds the row.
  pub after_change-emitted :
      (fuel now : ℕ) (c : Change) (m : EntityMetadata) (e : ChangedEntity) (locked : String → Bool)
      (w : World (List String) (List Event))
      → let ev = event_left c m e w in
        let r =
          after_change text_of to_json new_id true (suc (suc fuel)) c (some m) (some e) (calm w) in
        should_skip (some m) ≡ false
        → locked ev.id ≡ false
        → length (waiting_rows locked now w.db) < batch_size
        → (r.0 ≡ ok tt)
          × (r.1.db ≡ w.db ++ ev ∷ [])
          × ((handle_audit_events locked (calm (record r.1 { now = now }))).1.redis
              ≡ (w.redis ++ ids_of (available locked now w.db)) ++ ev.id ∷ [])
  after_change-emitted fuel now c m e locked w s l few =
      let ev : Event = event_left c m e w in
      let w1 : World (List String) (List Event) = record w { db = w.db ++ ev ∷ [] } in
      let runs : after_change text_of to_json new_id true (suc (suc fuel)) c (some m) (some e)
            (calm w)
          ≡ (ok tt, calm w1) =
        after_change-runs fuel c m e w ∙ rw s refl in
      let (_, emits, _) = handle_audit_events-emits locked (record w1 { now = now }) in
      (
        ap (λ z. z.0) runs,
        ap (λ z. z.1.db) runs,
        ap (λ z. (handle_audit_events locked (calm (record z.1 { now = now }))).1.redis) runs
            ∙ emits
            ∙ ap (λ es. w.redis ++ ids_of es) (available-snoc locked now w.db ev refl refl l few)
            ∙ ap (λ is. w.redis ++ is) (ids_of-append (available locked now w.db) (ev ∷ []))
            ∙ sym (append_assoc w.redis (ids_of (available locked now w.db)) (ev.id ∷ [])),
      )
