-- ===== src/Tests/ApiKeys.antt =====
-- The theorems on the keys at a database with one key, whose fingerprint is the key itself.
use auth_microservice.Prelude.{
  String, ◌≡◌, refl, false, none, some, List, [], ◌∷◌, arith, if◌then◌else◌,
}
use auth_microservice.Redis.{same_key, same_set, perform_all, api_cache, api_key_fp, api_keys}
use auth_microservice.Exec.{World, Result, pure, ◌>>◌, calm, answered, refused, ok}
use auth_microservice.Permissions.{find_permissions}
use auth_microservice.ApiKeys.{
  ApiKey, key_codes, is_live, find_by_fingerprint, cache_of, drop_commands,
  find_active_by_plain_key,
}
use auth_microservice.ApiKeys.Editing.{
  save_key, deactivate_key, deactivate_found, change_permissions,
}
use auth_microservice.ApiKeys.Lookup.{key_answer, KeysCoherent, find_active_by_plain_key-active}
use auth_microservice.ApiKeys.Deactivation.{
  IsShut, deactivate_found-IsShut, change_permissions-revives, deactivate_races_lookup,
}
use auth_microservice.ApiKeys.Histories.{
  KeyRequest, serve_key, serve_keys, AllOrderly, serve_keys-answer, deactivates, activates, changes,
  looks_up,
}
use auth_microservice.ApiKeys.Reconciliation.{reconcile_api_keys, reconcile_api_keys-live}
use auth_microservice.Tests.Memory.{Memory, memory, empty_memory}
use auth_microservice.Tests.Tables.{permissions, Db, keys}
use auth_microservice.Tests.Worlds.{a_rule, a_key, a_user, a_world}
use auth_microservice.Tests.Tokens.{w0}

abbrev pub plain_hmac : String → String
plain_hmac s = s

pub empty-KeysCoherent : KeysCoherent memory keys empty_memory w0.db
empty-KeysCoherent = record { serves = λ f v hit. absurd (ground arith) }

abbrev w0_failing : World Memory Db
w0_failing = record w0 { schedule = refused ∷ answered ∷ refused ∷ [] }

look_up_failing :
    find_active_by_plain_key memory keys permissions plain_hmac "secret" w0_failing
    ≡ (ok (some ("READ" ∷ [])), w0)
unfolding find_active_by_plain_key
look_up_failing = refl

find_active_by_plain_key-active_example :
    (k : ApiKey) × (find_by_fingerprint keys "secret" w0.db ≡ some k)
    × (some ("READ" ∷ []) ≡ some (key_codes k))
find_active_by_plain_key-active_example =
    find_active_by_plain_key-active memory keys permissions plain_hmac "secret" w0_failing w0
      (some ("READ" ∷ [])) empty-KeysCoherent look_up_failing

abbrev key_history : List KeyRequest
key_history =
    looks_up "secret"
    ∷ changes "r1" []
    ∷ deactivates "r1"
    ∷ looks_up "secret"
    ∷ activates "r1"
    ∷ deactivates "r1"
    ∷ []

key_history-AllOrderly : AllOrderly memory keys permissions plain_hmac key_history w0
unfolding serve_key find_active_by_plain_key
key_history-AllOrderly = (tt, ((λ k e. ground arith), (tt, (tt, (tt, (tt, tt))))))

serve_keys-answer_example :
    (find_active_by_plain_key memory keys permissions plain_hmac "secret"
      (calm (serve_keys memory keys permissions plain_hmac key_history w0))).0
    ≡ key_answer (
        find_by_fingerprint keys "secret"
          (serve_keys memory keys permissions plain_hmac key_history w0).db)
serve_keys-answer_example =
    serve_keys-answer memory keys permissions plain_hmac key_history "secret" w0
      key_history-AllOrderly empty-KeysCoherent

abbrev shut_key : ApiKey
shut_key = record a_key { active = false }

-- Redis refuses nothing, and the database answers.
deactivated :
    deactivate_found memory keys permissions plain_hmac a_key
      (record w0 { schedule = answered ∷ answered ∷ refused ∷ [] })
    ≡ (
      ok tt,
      record w0 {
        redis = perform_all memory (drop_commands "secret") empty_memory;
        db = record { rule = some a_rule; key = some shut_key; user = some a_user };
        schedule = refused ∷ [];
      },
    )
unfolding deactivate_found
deactivated = refl

deactivate_found-IsShut_example : IsShut memory keys permissions plain_hmac "secret" (record w0 {
  redis = perform_all memory (drop_commands "secret") empty_memory;
  db = record { rule = some a_rule; key = some shut_key; user = some a_user };
  schedule = refused ∷ [];
})
deactivate_found-IsShut_example =
    deactivate_found-IsShut memory keys permissions plain_hmac a_key
      (record w0 { schedule = answered ∷ answered ∷ refused ∷ [] })
      (record w0 {
        redis = perform_all memory (drop_commands "secret") empty_memory;
        db = record { rule = some a_rule; key = some shut_key; user = some a_user };
        schedule = refused ∷ [];
      })
      deactivated

abbrev w0_shut : World Memory Db
w0_shut = record w0 { db = record { rule = some a_rule; key = some shut_key; user = some a_user } }

looked_p1 :
    find_permissions {S = Memory} permissions ("p1" ∷ []) (calm w0_shut)
    ≡ (ok (record { id = "p1"; code = "READ" } ∷ []), calm w0_shut)
unfolding find_permissions
looked_p1 = refl

change_permissions-revives_example :
    let after =
      (change_permissions memory keys permissions plain_hmac "r1" ("p1" ∷ []) (calm w0_shut)).1 in
    (find_by_fingerprint keys "secret" after.db ≡ none)
    × ((find_active_by_plain_key memory keys permissions plain_hmac "secret" (calm after)).0
        ≡ ok (some ("READ" ∷ [])))
change_permissions-revives_example =
    change_permissions-revives memory keys permissions plain_hmac "secret" "r1" shut_key ("p1" ∷ [])
      (record { id = "p1"; code = "READ" } ∷ []) w0_shut w0_shut.db refl refl refl looked_p1 refl

deactivate_races_lookup_example :
    let dropped = record (calm w0) {
      redis = perform_all memory (drop_commands "secret") empty_memory;
    } in
    let finish : World Memory Db → Result (Unit {0}) × World Memory Db =
      save_key memory keys permissions plain_hmac shut_key >> pure tt in
    let looked_up =
      (find_active_by_plain_key memory keys permissions plain_hmac "secret" dropped).1 in
    let done = (finish looked_up).1 in
    (deactivate_key memory keys permissions plain_hmac "r1"
        (record w0 { schedule = answered ∷ answered ∷ refused ∷ [] })
      ≡ finish (record dropped { schedule = refused ∷ [] }))
    × ((finish looked_up).0 ≡ ok tt)
    × (find_by_fingerprint keys "secret" done.db ≡ none)
    × ((find_active_by_plain_key memory keys permissions plain_hmac "secret" done).0
        ≡ ok (some ("READ" ∷ [])))
deactivate_races_lookup_example =
    deactivate_races_lookup memory keys permissions plain_hmac "secret" "r1" a_key w0 w0_shut.db
      (refused ∷ []) refl refl refl refl

abbrev cached_keys : Memory
cached_keys = record empty_memory {
  texts = λ k. if same_key (api_key_fp "gone") k then some (api_cache (cache_of a_key)) else none;
  members = λ k. if same_set api_keys k then "gone" ∷ [] else [];
}

reconcile_api_keys-live_example :
    let after = (reconcile_api_keys memory keys (calm (a_world cached_keys))).1 in
    (after.db ≡ w0.db)
    × ((f : String)
        → memory.get (api_key_fp f) after.redis ≡ (
            if is_live (keys.row_by_fingerprint f w0.db)
            then memory.get (api_key_fp f) cached_keys
            else none))
reconcile_api_keys-live_example =
    reconcile_api_keys-live memory keys (a_world cached_keys) (λ f v hit. ground arith)
