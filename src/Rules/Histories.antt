-- ===== src/Rules/Histories.antt =====
-- Whole histories of requests to the rules, while Redis and the database answer.
use auth_microservice.Prelude.{
  String, ◌≡◌, refl, ◌≢◌, inl, inr, true, Option, none, some, List, [], ◌∷◌, arith, eq_iff,
  Bool-cases, In,
}
use auth_microservice.Redis.{Redis, found, perform_all, epr}
use auth_microservice.Exec.{World, calm, pure, recover, Result-cases}
use auth_microservice.Permissions.{PermissionTable}
use auth_microservice.Rules.{
  permission_codes, Rule, RuleTable, read_codes, warm_rule, warm_commands, warm, warm_up_cache,
  from_database, get_permissions_for_endpoint,
}
use auth_microservice.Rules.Reading.{answer, Coherent, get_permissions_for_endpoint-answer}
use auth_microservice.Rules.Coherence.{get-cached_store}
use auth_microservice.Rules.Editing.{
  PatchRule, create, update, delete, assign_permissions, enable_rule, disable_rule,
}
use auth_microservice.Rules.Following.{
  Keeps, enable_rule-Keeps, disable_rule-Keeps, create-Keeps, delete-Keeps,
  assign_permissions-Keeps,
}
use auth_microservice.Rules.Renaming.{update-Keeps}

-- A request that the service serves.
pub data Request : Type 0 where
  creates : (key : String) → Request
  updates : (id : String) → PatchRule → Request
  deletes enables disables : (id : String) → Request
  assigns : (id : String) (permissions_ids : List String) → Request
  reads : (key : String) → Request
  warms : Request

-- What the validation of an update's body gives.
abbrev pub IsNamed : Request → Type 0
IsNamed (updates id dto) = dto.endpoint_key_name ≢ ""
IsNamed (creates key) = Unit
IsNamed (deletes id) = Unit
IsNamed (enables id) = Unit
IsNamed (disables id) = Unit
IsNamed (assigns id ids) = Unit
IsNamed (reads key) = Unit
IsNamed warms = Unit

abbrev pub AllNamed : List Request → Type 0
AllNamed [] = Unit
AllNamed (q ∷ qs) = IsNamed q × AllNamed qs

warm_commands-Coherent :
    (R : Redis) {B : Type 0} (T : RuleTable B) (rs : List Rule) (s : R.Store) (b : B)
    → ((r : Rule)
        → In r rs
        → (T.find_by_endpoint_key r.endpoint_key_name b ≡ some r) × (r.enabled ≡ true))
    → Coherent R T s b
    → Coherent R T (perform_all R (warm_commands R T rs) s) b
unfolding warm_rule
warm_commands-Coherent R T [] s b all co = co
warm_commands-Coherent R T (r ∷ rs) s b all co =
    warm_commands-Coherent R T rs _ b (λ r' m. all r' (inr m))
      (record {
        serves = λ k c hit.
            let (here, on) = all r (inl refl) in
            ground (
              arith,
              here,
              on,
              hit,
              co.serves k c,
              get-cached_store R r.endpoint_key_name k (permission_codes r) s,
              eq_iff r.endpoint_key_name k,
            );
      })

module _ (R : Redis) {B : Type 0} (T : RuleTable B) (P : PermissionTable B) where
  pub warm_up_cache-Keeps :
      (w : World R.Store B) → Coherent R T w.redis w.db → Keeps R T P (warm_up_cache R T (calm w))
  unfolding warm_up_cache
  warm_up_cache-Keeps w co = go (T.find_all_enabled w.db) (λ r m. T.all_enabled r w.db m)
    where
      go :
          (rs : List Rule)
          → ((r : Rule)
              → In r rs
              → (T.find_by_endpoint_key r.endpoint_key_name w.db ≡ some r) × (r.enabled ≡ true))
          → Keeps R T P (recover {A = Unit {0}} (λ e. pure tt) (warm R T rs (calm w)))
      go [] all = co
      go (r ∷ rs) all = warm_commands-Coherent R T (r ∷ rs) w.redis w.db all co

  from_database-Keeps :
      (key : String) (r : Option Rule) (w : World R.Store B)
      → T.find_by_endpoint_key key w.db ≡ r
      → Coherent R T w.redis w.db
      → Keeps R T P (from_database R T key r (calm w))
  unfolding from_database
  from_database-Keeps key none w here co = co
  from_database-Keeps key (some r) w here co = elim (Bool-cases r.enabled) [
    | inr off ↦ rw off co
    | inl on ↦ rw on (record {
      serves = λ k c hit. ground (
        arith,
        here,
        on,
        hit,
        co.serves k c,
        get-cached_store R key k (permission_codes r) w.redis,
        eq_iff key k,
      );
    })
  ]

  pub get_permissions_for_endpoint-Keeps :
      (key : String) (w : World R.Store B)
      → Coherent R T w.redis w.db
      → Keeps R T P (get_permissions_for_endpoint R T key (calm w))
  unfolding get_permissions_for_endpoint
  get_permissions_for_endpoint-Keeps key w co =
      elim (Result-cases (read_codes (found (R.get (epr key) w.redis)))) [
        | inl (none, e) ↦ rw e (from_database-Keeps key (T.find_by_endpoint_key key w.db) w refl co)
        | inl (some c, e) ↦ rw e co
        | inr (f, e) ↦ rw e (from_database-Keeps key (T.find_by_endpoint_key key w.db) w refl co)
      ]

  unfoldable pub serve : Request → World R.Store B → World R.Store B
  serve (creates key) w = (create R T P key (calm w)).1
  serve (updates id dto) w = (update R T P id dto (calm w)).1
  serve (deletes id) w = (delete R T P id (calm w)).1
  serve (enables id) w = (enable_rule R T P id (calm w)).1
  serve (disables id) w = (disable_rule R T P id (calm w)).1
  serve (assigns id ids) w = (assign_permissions R T P id ids (calm w)).1
  serve (reads key) w = (get_permissions_for_endpoint R T key (calm w)).1
  serve warms w = (warm_up_cache R T (calm w)).1

  unfoldable pub serve_all : List Request → World R.Store B → World R.Store B
  serve_all [] w = w
  serve_all (q ∷ qs) w = serve_all qs (serve q w)

  serve-Coherent :
      (q : Request) (w : World R.Store B)
      → IsNamed q
      → Coherent R T w.redis w.db
      → Coherent R T (serve q w).redis (serve q w).db
  unfolding serve
  serve-Coherent (creates key) w named co = create-Keeps R T P key w co
  serve-Coherent (updates id dto) w named co = update-Keeps R T P id dto w named co
  serve-Coherent (deletes id) w named co = delete-Keeps R T P id w co
  serve-Coherent (enables id) w named co = enable_rule-Keeps R T P id w co
  serve-Coherent (disables id) w named co = disable_rule-Keeps R T P id w co
  serve-Coherent (assigns id ids) w named co = assign_permissions-Keeps R T P id ids w co
  serve-Coherent (reads key) w named co = get_permissions_for_endpoint-Keeps key w co
  serve-Coherent warms w named co = warm_up_cache-Keeps w co

  pub serve_all-Coherent :
      (qs : List Request) (w : World R.Store B)
      → AllNamed qs
      → Coherent R T w.redis w.db
      → Coherent R T (serve_all qs w).redis (serve_all qs w).db
  unfolding serve_all
  serve_all-Coherent [] w named co = co
  serve_all-Coherent (q ∷ qs) w (n, ns) co =
      serve_all-Coherent qs (serve q w) ns (serve-Coherent q w n co)

  -- From a coherent cache, after any history of creating, patching (with a name that is not empty),
  -- deleting, enabling, disabling, assigning, reading and warming, with every call answered, an
  -- endpoint's permissions as read through the cache are those of its rule in the database.
  pub serve_all-answer :
      (qs : List Request) (key : String) (w : World R.Store B)
      → AllNamed qs
      → Coherent R T w.redis w.db
      → (get_permissions_for_endpoint R T key (calm (serve_all qs w))).0
        ≡ answer (T.find_by_endpoint_key key (serve_all qs w).db)
  serve_all-answer qs key w named co =
      get_permissions_for_endpoint-answer R T key (serve_all qs w)
        (serve_all-Coherent qs w named co)
