-- ===== src/Redis.antt =====
-- The Redis server behind src/common/redis/redis.service.ts, as the services use it. The server and
-- its client are not part of the repository: they are the interface `Redis`, whose laws are the
-- documented behaviour of GET, SET, DEL, SADD, SREM and SMEMBERS. Keys are the texts that the
-- services build, and are read as data; `Keys` proves that no two of them are the same text.
pub mod Keys
use auth_microservice.Prelude.{
  ℕ, String, ◌≡◌, Bool, true, false, not, ◌&&◌, ◌||◌, List, [], ◌∷◌, Option, none, some, ◌==◌,
  if◌then◌else◌, includes,
}

-- src/interfaces/session.interface.ts. Times are instants, which the code writes as ISO texts.
pub record Session : Type 0 where
  pub user_id : String
  pub person_id : String
  pub email : String
  pub permissions : List String
  pub active : Bool
  pub ip : String
  pub user_agent : String
  pub device : String
  pub created_at : ℕ
  pub last_refresh_at : ℕ

-- src/interfaces/api-cache.interface.ts
pub record ApiCache : Type 0 where
  pub client : String
  pub permission_codes : List String

-- A stored text: what `JSON.stringify` made of one of the program's values, a text that
-- `JSON.parse` refuses, or the empty text.
pub data Value : Type 0 where
  session : Session → Value
  api_cache : ApiCache → Value
  codes : List String → Value
  reset_payload : (id : String) → Value
  malformed empty_text : Value

-- Keys of texts and keys of sets.
pub data Key : Type 0 where
  auth_session reset_password api_key_fp epr : String → Key

pub data SetKey : Type 0 where
  user_sessions : String → SetKey
  api_keys epr_keys : SetKey

abbrev pub same_key : Key → Key → Bool
same_key (auth_session s) (auth_session t) = s == t
same_key (reset_password s) (reset_password t) = s == t
same_key (api_key_fp s) (api_key_fp t) = s == t
same_key (epr s) (epr t) = s == t
same_key _ _ = false

abbrev pub same_set : SetKey → SetKey → Bool
same_set (user_sessions s) (user_sessions t) = s == t
same_set api_keys api_keys = true
same_set epr_keys epr_keys = true
same_set _ _ = false

-- The options of SET: a new time to live, KEEPTTL, or none of them.
pub data Expiry : Type 0 where
  px : ℕ → Expiry
  keep_ttl persist : Expiry

abbrev pub ttl_after : Expiry → Option ℕ → Option ℕ
ttl_after (px n) old = some n
ttl_after keep_ttl old = old
ttl_after persist old = none

pub record Redis : Type 1 where
  pub Store : Type 0
  pub get : Key → Store → Option Value
  pub ttl : Key → Store → Option ℕ
  pub s_members : SetKey → Store → List String
  pub set : Expiry → Key → Value → Store → Store
  pub del : Key → Store → Store
  pub s_add : SetKey → String → Store → Store
  pub s_rem : SetKey → String → Store → Store
  pub del_set : SetKey → Store → Store
  pub p_expire : SetKey → ℕ → Store → Store
  pub get-set :
      (m : Expiry) (k j : Key) (v : Value) (s : Store)
      → get j (set m k v s) ≡ (if same_key k j then some v else get j s)
  pub get-del : (k j : Key) (s : Store) → get j (del k s) ≡ (if same_key k j then none else get j s)
  pub get-s_add : (k : SetKey) (x : String) (j : Key) (s : Store) → get j (s_add k x s) ≡ get j s
  pub get-s_rem : (k : SetKey) (x : String) (j : Key) (s : Store) → get j (s_rem k x s) ≡ get j s
  pub get-del_set : (k : SetKey) (j : Key) (s : Store) → get j (del_set k s) ≡ get j s
  pub get-p_expire : (k : SetKey) (n : ℕ) (j : Key) (s : Store) → get j (p_expire k n s) ≡ get j s
  pub ttl-set :
      (m : Expiry) (k j : Key) (v : Value) (s : Store)
      → ttl j (set m k v s) ≡ (if same_key k j then ttl_after m (ttl j s) else ttl j s)
  pub ttl-del : (k j : Key) (s : Store) → ttl j (del k s) ≡ (if same_key k j then none else ttl j s)
  pub ttl-s_add : (k : SetKey) (x : String) (j : Key) (s : Store) → ttl j (s_add k x s) ≡ ttl j s
  pub ttl-p_expire : (k : SetKey) (n : ℕ) (j : Key) (s : Store) → ttl j (p_expire k n s) ≡ ttl j s
  pub ttl-s_rem : (k : SetKey) (x : String) (j : Key) (s : Store) → ttl j (s_rem k x s) ≡ ttl j s
  pub members-set :
      (m : Expiry) (k : Key) (j : SetKey) (v : Value) (s : Store)
      → s_members j (set m k v s) ≡ s_members j s
  pub members-del : (k : Key) (j : SetKey) (s : Store) → s_members j (del k s) ≡ s_members j s
  pub members-s_add :
      (k j : SetKey) (x y : String) (s : Store)
      → includes (s_members j (s_add k x s)) y ≡ (
          if same_set k j
          then (x == y) || includes (s_members j s) y
          else includes (s_members j s) y)
  pub members-s_rem :
      (k j : SetKey) (x y : String) (s : Store)
      → includes (s_members j (s_rem k x s)) y ≡ (
          if same_set k j
          then not (x == y) && includes (s_members j s) y
          else includes (s_members j s) y)
  pub members-del_set :
      (k j : SetKey) (y : String) (s : Store)
      → includes (s_members j (del_set k s)) y
        ≡ (if same_set k j then false else includes (s_members j s) y)

-- `raw ? … : null`: the empty text counts as missing.
abbrev pub found : Option Value → Option Value
found (some empty_text) = none
found o = o

-- A command queued by `multi()`.
pub data Queued : Type 0 where
  q_set : Expiry → Key → Value → Queued
  q_del : Key → Queued
  q_s_add q_s_rem : SetKey → String → Queued
  q_del_set : SetKey → Queued

module _ (R : Redis) where
  abbrev pub perform : Queued → R.Store → R.Store
  perform (q_set m k v) s = R.set m k v s
  perform (q_del k) s = R.del k s
  perform (q_s_add k x) s = R.s_add k x s
  perform (q_s_rem k x) s = R.s_rem k x s
  perform (q_del_set k) s = R.del_set k s

  -- `multi.exec()`: all the commands in the order they were queued, as one call.
  abbrev pub perform_all : List Queued → R.Store → R.Store
  perform_all [] s = s
  perform_all (c ∷ cs) s = perform_all cs (perform c s)
