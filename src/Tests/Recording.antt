-- ===== src/Tests/Recording.antt =====
-- The outbox's events at the change of a user.
use auth_microservice.Prelude.{
  ℕ, String, ◌≡◌, refl, true, false, none, some, List, [], ◌∷◌, ◌++◌, arith, ◌==◌, if◌then◌else◌,
}
use auth_microservice.Exec.{World, calm, ok}
use auth_microservice.Outbox.{Event, ids_of, available, handle_audit_events}
use auth_microservice.Recording.{
  codes, to_snake_case, same_codes, EntityMetadata, ChangedEntity, should_skip, resolve_entity_name,
  AuditPayload, after_change, updated,
}
use auth_microservice.Recording.Emission.{event_left, after_change-emitted}

abbrev text_of_one : List ℕ → String
text_of_one cs =
    if same_codes cs (codes "user_entity_updated") then "user_entity_updated" else "other"

abbrev json_of_one : AuditPayload → String
json_of_one p = "{}"

abbrev next_id : List Event → String
next_id rows = "e1"

abbrev user_metadata : EntityMetadata
user_metadata = record {
  is_outbox = false;
  target_name = some (codes "UserEntity");
  name = some (codes "UserEntity");
  table_name = some (codes "users");
  primary_columns = "id" ∷ [];
}

abbrev a_changed_user : ChangedEntity
a_changed_user = record {
  constructor_name = some (codes "UserEntity");
  value_of = λ k. if k == "id" then some "u1" else none;
}

abbrev quiet : World (List String) (List Event)
quiet = record { redis = []; db = []; schedule = []; now = 5; user = none }

abbrev left : Event
left = event_left text_of_one json_of_one next_id updated user_metadata a_changed_user quiet

snake_case_of_name : to_snake_case (codes "UserEntity v-2") ≡ codes "user_entity_v_2"
unfolding to_snake_case
snake_case_of_name = refl

left_pattern : left.pattern_name ≡ "user_entity_updated"
unfolding to_snake_case resolve_entity_name
left_pattern = refl

not_skipped : should_skip (some user_metadata) ≡ false
unfolding should_skip
not_skipped = refl

after_change-emitted_example :
    let r =
      after_change text_of_one json_of_one next_id true 3 updated
        (some user_metadata)
        (some a_changed_user)
        (calm quiet) in
    (r.0 ≡ ok tt)
    × (r.1.db ≡ quiet.db ++ left ∷ [])
    × ((handle_audit_events (λ i. false) (calm (record r.1 { now = 9 }))).1.redis
        ≡ (quiet.redis ++ ids_of (available (λ i. false) 9 quiet.db)) ++ left.id ∷ [])
after_change-emitted_example =
    after_change-emitted text_of_one json_of_one next_id 1 9 updated user_metadata a_changed_user
      (λ i. false) quiet not_skipped refl (omega arith)
