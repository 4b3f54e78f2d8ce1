-- ===== src/Recording.antt =====
-- src/cron/outbox-subscriber.service.ts with src/common/context/request-context.service.ts: each change
-- of an entity leaves an event in the outbox, within the transaction that makes the change. A text
-- whose characters the code looks at is the list of its codes, and `text_of` makes the text of them. The
-- case of letters outside ASCII is left out. The metadata and the entity come from the ORM; the
-- payload's JSON text is `to_json`, the id of a new row `new_id`.
pub mod Naming
pub mod Emission
use Prim.Native.Char.{code}
use auth_microservice.Prelude.{
  ℕ, zero, suc, ◌+◌, ◌-◌, ◌*◌, ◌/◌, ◌≤◌, ◌<◌, String, ◌≡◌, refl, sym, ap, subst, ◌∙◌, ◌≢◌, ◌↔◌, ◌⊎◌,
  inl, inr, Bool, true, false, not, ◌&&◌, ◌||◌, Option, none, some, List, [], ◌∷◌, ◌++◌, map,
  append-nil, append_assoc, arith, ◌==◌, eq_iff, eq_refl, ltb, leb, eqb, if◌then◌else◌, Bool-cases,
  Option-cases, truthy, get_or, length, length-append, any, filter_by, In, includes,
}
use auth_microservice.Failure.{
  Message, Response, Link, Failure, status?, thrown, wrap, deepest_error_code, deepest_http_message,
  chain_entry, cause_chain, one, many, absent, text, object, service, http, plain,
}
use auth_microservice.Exec.{
  AuthUser, Delivery, World, calm, Result, Exec, connection_lost, pure, raise, lift, recover,
  attempt, on_redis, on_db, continue, ◌>>=◌, ◌>>◌, current_time, set_user, Result-cases, >>=-eq-ok,
  attempt-eq-ok, answered, refused, reply_lost, ok, err,
}
use auth_microservice.Http.Texts.{
  dot, comma, is_space, trim_start, trim_end, trim, head_or, prepend, split_on, split_spaces_from,
  split_spaces, drop, is_bearer,
}
use auth_microservice.Outbox.{
  OutboxStatus, Event, batch_size, processing_timeout_ms, is_stale, is_waiting, is_claimable,
  take_events, ids_of, set_status, available, claim, claim_available_events, publish, publish_all,
  handle_audit_events, is_sent, delete_sent, clean_up, cleanup_batch_size, event_pending,
  event_processing, event_sent, event_failed,
}

abbrev pub codes : String → List ℕ
codes String.[] = []
codes (String.◌∷◌ c s) = code c ∷ codes s

abbrev pub is_upper : ℕ → Bool
is_upper c = leb 65 c && leb c 90

-- `[a-z0-9]`.
abbrev pub is_word : ℕ → Bool
is_word c = (leb 97 c && leb c 122) || (leb 48 c && leb c 57)

-- `[\s-]`.
abbrev pub is_gap : ℕ → Bool
is_gap c = is_space c || eqb c 45

abbrev pub underscore : ℕ
underscore = 95

-- `replaceAll(/([a-z0-9])([A-Z])/g, '$1_$2')`: a match takes both characters.
pub separate_words : List ℕ → List ℕ
separate_words [] = []
separate_words (a ∷ []) = a ∷ []
separate_words (a ∷ b ∷ cs) =
    let matched = a ∷ underscore ∷ b ∷ separate_words cs in
    let unmatched = a ∷ separate_words (b ∷ cs) in
    if is_word a && is_upper b then matched else unmatched

-- `replaceAll(/[\s-]+/g, '_')`; the flag says that a gap is being read.
pub join_gaps : Bool → List ℕ → List ℕ
join_gaps gap [] = []
join_gaps false (c ∷ cs) = elim (is_gap c) [
  | true ↦ underscore ∷ join_gaps true cs
  | false ↦ c ∷ join_gaps false cs
]
join_gaps true (c ∷ cs) = elim (is_gap c) [
  | true ↦ join_gaps true cs
  | false ↦ c ∷ join_gaps false cs
]

abbrev pub to_lower_case : List ℕ → List ℕ
to_lower_case cs = map (λ (c : ℕ). if is_upper c then c + 32 else c) cs

abbrev pub to_upper_case : List ℕ → List ℕ
to_upper_case cs = map (λ (c : ℕ). if leb 97 c && leb c 122 then c - 32 else c) cs

unfoldable pub to_snake_case : List ℕ → List ℕ
unfolding separate_words join_gaps
to_snake_case cs = to_lower_case (join_gaps false (separate_words cs))

abbrev pub same_codes : List ℕ → List ℕ → Bool
same_codes [] [] = true
same_codes [] (d ∷ ds) = false
same_codes (c ∷ cs) [] = false
same_codes (c ∷ cs) (d ∷ ds) = eqb c d && same_codes cs ds

-- `is_outbox` is `target === OutboxEntity`.
pub record EntityMetadata : Type 0 where
  pub is_outbox : Bool
  pub target_name : Option (List ℕ)
  pub name : Option (List ℕ)
  pub table_name : Option (List ℕ)
  pub primary_columns : List String

pub record ChangedEntity : Type 0 where
  pub constructor_name : Option (List ℕ)
  pub value_of : String → Option String

pub data Change : Type 0 where
  created updated removed : Change

abbrev pub is_named : List ℕ → Option (List ℕ) → Bool
is_named expected none = false
is_named expected (some cs) = same_codes cs expected

abbrev lower_name : Option (List ℕ) → Option (List ℕ)
lower_name none = none
lower_name (some cs) = some (to_lower_case cs)

-- `shouldSkip`.
unfoldable pub should_skip : Option EntityMetadata → Bool
should_skip none = true
should_skip (some m) =
    m.is_outbox
    || (is_named (codes "OutboxEntity") m.target_name
        || is_named (codes "outbox") (lower_name m.table_name))

-- `resolveEntityName`, behind the test that there is metadata.
unfoldable pub resolve_entity_name : EntityMetadata → ChangedEntity → List ℕ
resolve_entity_name m e =
    get_or m.target_name (get_or m.name (get_or e.constructor_name (codes "UnknownEntity")))

-- `acc[key] = value`.
abbrev pub assign :
    String → Option String → List (String × Option String) → List (String × Option String)
assign k v [] = (k, v) ∷ []
assign k v ((j, u) ∷ kvs) = if j == k then (j, v) ∷ kvs else (j, u) ∷ assign k v kvs

unfoldable pub extract_from :
    ChangedEntity → List String → List (String × Option String) → List (String × Option String)
extract_from e [] acc = acc
extract_from e (k ∷ ks) acc = extract_from e ks (assign k (e.value_of k) acc)

unfoldable pub extract_primary_keys : EntityMetadata → ChangedEntity → List (String × Option String)
unfolding extract_from
extract_primary_keys m e = extract_from e m.primary_columns []

pub record AuditPayload : Type 0 where
  pub action : List ℕ
  pub entity : List ℕ
  pub primary_key : List (String × Option String)
  pub done_by_id : Option String
  pub done_by_email : Option String
  pub timestamp : ℕ

abbrev pub action_suffix : Change → List ℕ
action_suffix created = codes "_CREATED"
action_suffix updated = codes "_UPDATED"
action_suffix removed = codes "_DELETED"

abbrev pub pattern_suffix : Change → List ℕ
pattern_suffix created = codes "_created"
pattern_suffix updated = codes "_updated"
pattern_suffix removed = codes "_deleted"

-- The outbox's own entity, as the ORM describes it.
abbrev pub outbox_metadata : EntityMetadata
outbox_metadata = record {
  is_outbox = true;
  target_name = some (codes "OutboxEntity");
  name = some (codes "OutboxEntity");
  table_name = some (codes "outbox");
  primary_columns = "id" ∷ [];
}

abbrev pub user_id : Option AuthUser → Option String
user_id none = none
user_id (some u) = some u.id

abbrev pub user_email : Option AuthUser → Option String
user_email none = none
user_email (some u) = some u.email

abbrev pub payload_of :
    Change → EntityMetadata → ChangedEntity → Option AuthUser → (now : ℕ) → AuditPayload
payload_of c m e user now = record {
  action = to_upper_case (resolve_entity_name m e) ++ action_suffix c;
  entity = resolve_entity_name m e;
  primary_key = extract_primary_keys m e;
  done_by_id = user_id user;
  done_by_email = user_email user;
  timestamp = now;
}

abbrev pub pattern_of : Change → EntityMetadata → ChangedEntity → List ℕ
pattern_of c m e = to_snake_case (resolve_entity_name m e) ++ pattern_suffix c

abbrev context_missing : Failure
context_missing = record { link = plain "Error" "RequestContext not initialized"; causes = [] }

abbrev never_ends : Failure
never_ends = record { link = plain "RangeError" "Maximum call stack size exceeded"; causes = [] }

-- `getCurrentUser`; the flag says that the code runs within a request.
unfoldable pub get_current_user : {S B : Type 0} → (in_request : Bool) → Exec S B (Option AuthUser)
get_current_user false = raise context_missing
get_current_user true = λ w. (ok w.user, w)

module _ (text_of : List ℕ → String) (to_json : AuditPayload → String)
    (new_id : List Event → String) where
  abbrev pub event_of : (pattern_text : List ℕ) → AuditPayload → List Event → Event
  event_of pattern_text payload rows = record {
    id = new_id rows;
    destination = "audit_queue";
    pattern_name = text_of pattern_text;
    payload = to_json payload;
    status = event_pending;
    claimed_at = none;
  }

module _ (text_of : List ℕ → String) (to_json : AuditPayload → String)
    (new_id : List Event → String) (in_request : Bool) {S : Type 0} where
  -- `createOutboxRecord`, without what the ORM does after the insertion.
  unfoldable pub insert_event :
      (pattern_text : List ℕ) → AuditPayload → Exec S (List Event) (Unit {0})
  unfolding on_db
  insert_event pattern_text payload =
      on_db (λ rows. (tt, rows ++ event_of text_of to_json new_id pattern_text payload rows ∷ []))

  -- `afterInsert`, `afterUpdate` and `afterRemove`. Saving the event is an insertion, which the ORM
  -- hands to `afterInsert` again: the recursion runs on fuel.
  unfoldable pub after_change :
      (fuel : ℕ)
      → Change
      → Option EntityMetadata
      → Option ChangedEntity
      → Exec S (List Event) (Unit {0})
  unfolding should_skip get_current_user insert_event
  after_change zero c m e = raise never_ends
  after_change (suc fuel) c m none = pure tt
  after_change (suc fuel) c none (some e) = pure tt
  after_change (suc fuel) c (some m) (some e) =
      let again =
        after_change fuel created (some outbox_metadata) (
          some (record { constructor_name = some (codes "OutboxEntity"); value_of = λ k. none })) in
      let recorded = get_current_user in_request >>= λ user. current_time >>= λ now.
      insert_event (pattern_of c m e) (payload_of c m e user now) >> again in
      if should_skip (some m) then pure tt else recorded
