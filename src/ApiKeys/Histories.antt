-- ===== src/ApiKeys/Histories.antt =====
-- Whole histories of requests to the keys, while Redis and the database answer.
use auth_microservice.Prelude.{String, ◌≡◌, true, some, List, [], ◌∷◌}
use auth_microservice.Redis.{Redis}
use auth_microservice.Exec.{World, calm}
use auth_microservice.Permissions.{PermissionTable}
use auth_microservice.ApiKeys.{
  ApiKey, ApiKeyTable, find_by_fingerprint, warm_up_keys, find_active_by_plain_key,
}
use auth_microservice.ApiKeys.Editing.{create_key, deactivate_key, activate_key, change_permissions}
use auth_microservice.ApiKeys.Lookup.{key_answer, KeysCoherent, find_active_by_plain_key-answer}
use auth_microservice.ApiKeys.Keeping.{
  create_key-KeysKeep, deactivate_key-KeysKeep, activate_key-KeysKeep, change_permissions-KeysKeep,
  find_active_by_plain_key-KeysKeep, warm_up_keys-KeysKeep,
}

-- A request that the service serves.
pub data KeyRequest : Type 0 where
  creates_key : (client : String) (permission_ids : List String) (raw : String) → KeyRequest
  deactivates activates : (id : String) → KeyRequest
  changes : (id : String) (permissions_ids : List String) → KeyRequest
  looks_up : (raw : String) → KeyRequest
  warms_keys : KeyRequest

module _ (R : Redis) {B : Type 0} (T : ApiKeyTable B) (P : PermissionTable B)
    (compute_hmac : String → String) where
  unfoldable pub serve_key : KeyRequest → World R.Store B → World R.Store B
  serve_key (creates_key client ids raw) w =
      (create_key R T P compute_hmac client ids raw (calm w)).1
  serve_key (deactivates id) w = (deactivate_key R T P compute_hmac id (calm w)).1
  serve_key (activates id) w = (activate_key R T P compute_hmac id (calm w)).1
  serve_key (changes id ids) w = (change_permissions R T P compute_hmac id ids (calm w)).1
  serve_key (looks_up raw) w = (find_active_by_plain_key R T P compute_hmac raw (calm w)).1
  serve_key warms_keys w = (warm_up_keys R T P compute_hmac (calm w)).1

  unfoldable pub serve_keys : List KeyRequest → World R.Store B → World R.Store B
  serve_keys [] w = w
  serve_keys (q ∷ qs) w = serve_keys qs (serve_key q w)

  -- The permissions are changed only of an active key.
  abbrev pub IsOrderly : KeyRequest → World R.Store B → Type 0
  IsOrderly (changes id ids) w = (k : ApiKey) → T.find_one_by_id id w.db ≡ some k → k.active ≡ true
  IsOrderly (creates_key client ids raw) w = Unit
  IsOrderly (deactivates id) w = Unit
  IsOrderly (activates id) w = Unit
  IsOrderly (looks_up raw) w = Unit
  IsOrderly warms_keys w = Unit

  abbrev pub AllOrderly : List KeyRequest → World R.Store B → Type 0
  AllOrderly [] w = Unit
  AllOrderly (q ∷ qs) w = IsOrderly q w × AllOrderly qs (serve_key q w)

  serve_key-KeysCoherent :
      (q : KeyRequest) (w : World R.Store B)
      → IsOrderly q w
      → KeysCoherent R T w.redis w.db
      → KeysCoherent R T (serve_key q w).redis (serve_key q w).db
  unfolding serve_key
  serve_key-KeysCoherent (creates_key client ids raw) w o co =
      create_key-KeysKeep R T P compute_hmac client ids raw w co
  serve_key-KeysCoherent (deactivates id) w o co =
      deactivate_key-KeysKeep R T P compute_hmac id w co
  serve_key-KeysCoherent (activates id) w o co = activate_key-KeysKeep R T P compute_hmac id w co
  serve_key-KeysCoherent (changes id ids) w o co =
      change_permissions-KeysKeep R T P compute_hmac id ids w o co
  serve_key-KeysCoherent (looks_up raw) w o co =
      find_active_by_plain_key-KeysKeep R T P compute_hmac raw w co
  serve_key-KeysCoherent warms_keys w o co = warm_up_keys-KeysKeep R T P compute_hmac w co

  serve_keys-KeysCoherent :
      (qs : List KeyRequest) (w : World R.Store B)
      → AllOrderly qs w
      → KeysCoherent R T w.redis w.db
      → KeysCoherent R T (serve_keys qs w).redis (serve_keys qs w).db
  unfolding serve_keys
  serve_keys-KeysCoherent [] w o co = co
  serve_keys-KeysCoherent (q ∷ qs) w (o, os) co =
      serve_keys-KeysCoherent qs (serve_key q w) os (serve_key-KeysCoherent q w o co)

  -- From a coherent cache, after any history of creating, deactivating, activating, looking up and warming,
  -- and of changing the permissions of active keys, with every call answered, a key is looked up
  -- through the cache as it is in the database: a deactivated key is turned down, and an
  -- active one has its row's permissions.
  pub serve_keys-answer :
      (qs : List KeyRequest) (raw : String) (w : World R.Store B)
      → AllOrderly qs w
      → KeysCoherent R T w.redis w.db
      → (find_active_by_plain_key R T P compute_hmac raw (calm (serve_keys qs w))).0
        ≡ key_answer (find_by_fingerprint T (compute_hmac raw) (serve_keys qs w).db)
  serve_keys-answer qs raw w o co =
      find_active_by_plain_key-answer R T P compute_hmac raw (serve_keys qs w)
        (serve_keys-KeysCoherent qs w o co)
