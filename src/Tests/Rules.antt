-- ===== src/Tests/Rules.antt =====
-- The theorems on the rules at a database with one rule.
use auth_microservice.Prelude.{
  String, ◌≡◌, refl, false, none, some, List, [], ◌∷◌, arith, eq_iff, if◌then◌else◌,
}
use auth_microservice.Redis.{same_key, same_set, codes, epr, epr_keys}
use auth_microservice.Exec.{World, calm, answered, refused, ok}
use auth_microservice.Rules.{get_permissions_for_endpoint}
use auth_microservice.Rules.Reading.{
  required, answer, Coherent, get_permissions_for_endpoint-required,
}
use auth_microservice.Rules.Editing.{disable_rule}
use auth_microservice.Rules.Histories.{
  Request, serve_all, serve_all-answer, updates, enables, disables, assigns, reads,
}
use auth_microservice.Rules.Outages.{disable_rule-stale}
use auth_microservice.Rules.Reconciliation.{
  handle_cache_reconciliation, IsIndexed, handle_cache_reconciliation-Coherent,
}
use auth_microservice.Tests.Memory.{Memory, memory, empty_memory}
use auth_microservice.Tests.Tables.{permissions, rules, Db}
use auth_microservice.Tests.Worlds.{a_rule, a_key, a_user, a_world}
use auth_microservice.Tests.Tokens.{w0}

pub empty-Coherent : Coherent memory rules empty_memory w0.db
empty-Coherent = record { serves = λ k c hit. absurd (ground arith) }

-- Redis refuses the reading and the writing of the cache.
abbrev w0_failing : World Memory Db
w0_failing = record w0 { schedule = refused ∷ answered ∷ refused ∷ [] }

read_failing :
    get_permissions_for_endpoint memory rules "users.list" w0_failing ≡ (ok ("READ" ∷ []), w0)
unfolding get_permissions_for_endpoint
read_failing = refl

get_permissions_for_endpoint-required_example :
    required (rules.find_by_endpoint_key "users.list" w0.db) ≡ some ("READ" ∷ [])
get_permissions_for_endpoint-required_example =
    get_permissions_for_endpoint-required memory rules "users.list" w0_failing w0 ("READ" ∷ [])
      empty-Coherent read_failing

abbrev a_history : List Request
a_history =
    reads "users.list"
    ∷ disables "r1"
    ∷ reads "users.list"
    ∷ updates "r1" (record { endpoint_key_name = "users.all" })
    ∷ enables "r1"
    ∷ assigns "r1" ("p1" ∷ [])
    ∷ []

serve_all-answer_example :
    (get_permissions_for_endpoint memory rules "users.all"
      (calm (serve_all memory rules permissions a_history w0))).0
    ≡ answer (
        rules.find_by_endpoint_key "users.all" (serve_all memory rules permissions a_history w0).db)
serve_all-answer_example =
    serve_all-answer memory rules permissions a_history "users.all" w0
      (tt, (tt, (tt, (ground (arith, eq_iff "users.all" ""), (tt, (tt, tt)))))) empty-Coherent

abbrev cached_memory : List String → Memory
cached_memory c = record empty_memory {
  texts = λ k. if same_key (epr "users.list") k then some (codes c) else none;
  members = λ k. if same_set epr_keys k then "users.list" ∷ [] else [];
}

disable_rule-stale_example :
    let done =
      disable_rule memory rules permissions "r1" (record (a_world (cached_memory ("READ" ∷ []))) {
        schedule = answered ∷ answered ∷ refused ∷ [];
      }) in
    (done.0 ≡ ok tt)
    × (required (rules.find_by_endpoint_key "users.list" done.1.db) ≡ none)
    × ((get_permissions_for_endpoint memory rules "users.list" (calm done.1)).0 ≡ ok ("READ" ∷ []))
disable_rule-stale_example =
    disable_rule-stale memory rules permissions "r1" a_rule ("READ" ∷ [])
      (a_world (cached_memory ("READ" ∷ [])))
      (record {
        rule = some (record a_rule { enabled = false });
        key = some a_key;
        user = some a_user;
      })
      refl refl refl refl

stale-IsIndexed : IsIndexed memory (cached_memory ("OLD" ∷ []))
stale-IsIndexed = record { listed = λ k c hit. ground arith }

handle_cache_reconciliation-Coherent_example :
    let after =
      (handle_cache_reconciliation memory rules (calm (a_world (cached_memory ("OLD" ∷ []))))).1 in
    Coherent memory rules after.redis after.db
handle_cache_reconciliation-Coherent_example =
    handle_cache_reconciliation-Coherent memory rules permissions
      (a_world (cached_memory ("OLD" ∷ []))) stale-IsIndexed
