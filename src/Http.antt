-- ===== src/Http.antt =====
-- What the guards read of a request: src/common/utils/extract-api-key.util.ts,
-- src/common/utils/get-client-ip.util.ts, src/common/utils/same-subnet-check.util.ts and the headers
-- that src/common/guards read. Texts are sequences of characters, as the code walks them.
pub mod Texts
pub mod Subnets
use package.text.Mathlib.Text.{starts_with}
use auth_microservice.Prelude.{
  ℕ, zero, suc, ◌+◌, ◌-◌, ◌*◌, ◌/◌, ◌≤◌, ◌<◌, String, ◌≡◌, refl, sym, ap, subst, ◌∙◌, ◌≢◌, ◌↔◌, ◌⊎◌,
  inl, inr, Bool, true, false, not, ◌&&◌, ◌||◌, Option, none, some, List, [], ◌∷◌, ◌++◌, map, arith,
  ◌==◌, eq_iff, eq_refl, ltb, leb, eqb, if◌then◌else◌, Bool-cases, Option-cases, truthy, get_or,
  length, length-append, any, filter_by, In, includes,
}
use auth_microservice.Failure.{
  Message, Response, Link, Failure, status?, thrown, wrap, deepest_error_code, deepest_http_message,
  chain_entry, cause_chain, one, many, absent, text, object, service, http, plain,
}
use auth_microservice.Exec.{
  AuthUser, Delivery, World, calm, Result, Exec, connection_lost, pure, raise, lift, recover,
  attempt, on_redis, on_db, continue, ◌>>=◌, ◌>>◌, current_time, set_user, Result-cases, >>=-eq-ok,
  attempt-eq-ok, answered, refused, reply_lost, ok, err,
}
use auth_microservice.Http.Texts.{
  dot, comma, is_space, trim_start, trim_end, trim, head_or, prepend, split_on, split_spaces_from,
  split_spaces, drop, is_bearer,
}

-- A header's value: missing, a text, or a list of texts.
pub data Header : Type 0 where
  no_header many_headers : Header
  one_header : String → Header

pub record Request : Type 0 where
  pub auth_token : Option String
  pub api_key : Header
  pub authorization : Header
  pub forwarded_for : Header
  pub ip : Option String
  pub remote_address : Option String
  pub user_agent : Option String

abbrev pub auth_exception : (message code : String) (status : ℕ) → Failure
auth_exception = thrown "AuthException"

-- `extractApiKey`.
unfoldable pub extract_api_key : Header → Result String
unfolding trim
extract_api_key many_headers =
    err (auth_exception "API key header must be a single value" "API_KEY_INVALID" 401)
extract_api_key no_header =
    err (auth_exception "API key header missing" "API_KEY_HEADER_MISSING" 401)
extract_api_key (one_header s) =
    if trim s == ""
    then err (auth_exception "API key header missing" "API_KEY_HEADER_MISSING" 401)
    else ok (trim s)

-- `xff.split(',')[0].trim()`, where the header is one text.
first_forwarded : Header → Option String
unfolding trim split_on
first_forwarded no_header = none
first_forwarded many_headers = none
first_forwarded (one_header s) = some (trim (head_or "" (split_on comma s)))

-- `a || b`.
abbrev or_else : Option String → Option String → Option String
or_else a b = elim (truthy a) [ some s ↦ some s | none ↦ b ]

-- `::1` and IPv4 addresses that are written as IPv6 ones.
plain_address : String → String
unfolding drop
plain_address ip =
    if ip == "::1" then "127.0.0.1" else if starts_with ip "::ffff:" then drop 7 ip else ip

unfoldable pub get_client_ip : Request → String
unfolding first_forwarded plain_address
get_client_ip r = plain_address (
    get_or (truthy (or_else (or_else (first_forwarded r.forwarded_for) r.ip) r.remote_address))
      "unknown")

-- The comparison of `sameSubnetCheck`: both have four parts, and the first three are the same.
abbrev pub same_parts : List String → List String → Bool
same_parts (a ∷ b ∷ c ∷ d ∷ []) (a' ∷ b' ∷ c' ∷ d' ∷ []) = (a == a') && ((b == b') && (c == c'))
same_parts _ _ = false

unfoldable pub same_subnet_check : String → String → Bool
unfolding split_on
same_subnet_check ip1 ip2 = same_parts (split_on dot ip1) (split_on dot ip2)

abbrev header_missing : Failure
header_missing = auth_exception "Authorization header missing" "AUTH_HEADER_MISSING" 401

abbrev header_invalid : Failure
header_invalid = auth_exception "Invalid authorization header format" "AUTH_HEADER_INVALID" 401

-- `[scheme, token]` of the parts, checked.
bearer_parts : List String → Result String
unfolding is_bearer trim
bearer_parts (scheme ∷ token ∷ rest) =
    if is_bearer scheme && not (token == "") then ok (trim token) else err header_invalid
bearer_parts _ = err header_invalid

-- The token of the `Authorization` header.
unfoldable pub extract_bearer : Header → Result String
unfolding trim split_spaces bearer_parts
extract_bearer no_header = err header_missing
extract_bearer many_headers = err header_missing
extract_bearer (one_header s) =
    if trim s == "" then err header_missing else bearer_parts (split_spaces (trim s))
