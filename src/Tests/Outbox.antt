-- ===== src/Tests/Outbox.antt =====
-- The theorems on the outbox at a table of two events.
use auth_microservice.Prelude.{String, refl, inl, false, none, List, [], ◌∷◌, arith}
use auth_microservice.Exec.{World, answered, reply_lost}
use auth_microservice.Outbox.{Event, handle_audit_events, event_pending, event_sent}
use auth_microservice.Outbox.Publishing.{IsSound, handle_audit_events-IsSound}

abbrev waiting : Event
waiting = record {
  id = "e1";
  destination = "audit_queue";
  pattern_name = "audit";
  payload = "{}";
  status = event_pending;
  claimed_at = none;
}

abbrev gone : Event
gone = record waiting { id = "e0"; status = event_sent }

-- The broker's acknowledgement is lost.
abbrev w5 : World (List String) (List Event)
w5 = record {
  redis = "e0" ∷ [];
  db = gone ∷ waiting ∷ [];
  schedule = answered ∷ reply_lost ∷ [];
  now = 100000;
  user = none;
}

handle_audit_events-IsSound_example :
    IsSound ("e0" ∷ "e1" ∷ []) (handle_audit_events (λ i. false) w5).1
handle_audit_events-IsSound_example =
    handle_audit_events-IsSound ("e0" ∷ "e1" ∷ []) (λ i. false) w5
      (((λ h. inl refl), ((λ h. absurd (ground arith)), tt)), refl)
