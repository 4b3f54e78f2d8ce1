-- ===== src/Pagination.antt =====
-- src/interfaces/DTO/pagination.dto.ts and `findAll` of the five services and repositories that
-- list their rows by pages. `rows` is the table in the order of the service's query.
pub mod Pages
use auth_microservice.Prelude.{
  ℕ, zero, suc, ◌+◌, ◌-◌, ◌*◌, ◌/◌, ◌≤◌, ◌<◌, String, ◌≡◌, refl, sym, ap, subst, ◌∙◌, ◌≢◌, ◌↔◌, ◌⊎◌,
  inl, inr, Bool, true, false, not, ◌&&◌, ◌||◌, Option, none, some, List, [], ◌∷◌, ◌++◌, map,
  append-nil, append_assoc, arith, ◌==◌, eq_iff, eq_refl, ltb, leb, eqb, if◌then◌else◌, Bool-cases,
  Option-cases, truthy, get_or, length, length-append, any, filter_by, In, includes,
}
use auth_microservice.Failure.{
  Message, Response, Link, Failure, status?, thrown, wrap, deepest_error_code, deepest_http_message,
  chain_entry, cause_chain, one, many, absent, text, object, service, http, plain,
}
use auth_microservice.Exec.{
  AuthUser, Delivery, World, calm, Result, Exec, connection_lost, pure, raise, lift, recover,
  attempt, on_redis, on_db, continue, ◌>>=◌, ◌>>◌, current_time, set_user, Result-cases, >>=-eq-ok,
  attempt-eq-ok, answered, refused, reply_lost, ok, err,
}

-- The pipe has checked that the page is 1 or more and the limit between 1 and 100.
pub record PaginationQuery : Type 0 where
  pub page : ℕ
  pub limit : ℕ

pub record IsValidQuery (q : PaginationQuery) : Type 0 where
  pub page_positive : 1 ≤ q.page
  pub limit_positive : 1 ≤ q.limit
  pub limit_bounded : q.limit ≤ 100

abbrev pub default_query : PaginationQuery
default_query = record { page = 1; limit = 20 }

-- The field `rows` is the source's `data`.
pub record PaginatedResponse {ℓ} (A : Type ℓ) : Type ℓ where
  pub rows : List A
  pub total : ℕ
  pub page : ℕ
  pub limit : ℕ
  pub total_pages : ℕ

-- `total === 0 ? 0 : Math.ceil(total / limit)`.
unfoldable pub total_pages_of : (total limit : ℕ) → ℕ
total_pages_of total limit = if eqb total 0 then 0 else (total + limit - 1) / limit

module _ {ℓ} {A : Type ℓ} where
  abbrev pub take : ℕ → List A → List A
  take zero xs = []
  take (suc n) [] = []
  take (suc n) (x ∷ xs) = x ∷ take n xs

  abbrev pub drop : ℕ → List A → List A
  drop zero xs = xs
  drop (suc n) [] = []
  drop (suc n) (x ∷ xs) = drop n xs

  -- The constructor of the response.
  unfoldable pub paginated : (rows : List A) (total page limit : ℕ) → PaginatedResponse A
  paginated rows total page limit = record {
    rows = rows;
    total = total;
    page = page;
    limit = limit;
    total_pages = total_pages_of total limit;
  }

  -- `findAndCount({ skip: (page - 1) * limit, take: limit, order })`.
  abbrev pub find_and_count : List A → PaginationQuery → List A × ℕ
  find_and_count xs q = (take q.limit (drop ((q.page - 1) * q.limit) xs), length xs)

module _ {S B A : Type 0} (rows : B → List A) where
  unfoldable pub find_page : PaginationQuery → Exec S B (PaginatedResponse A)
  unfolding on_db paginated
  find_page q = do
    found ← on_db (λ b. (find_and_count (rows b) q, b))
    pure (paginated found.0 found.1 q.page q.limit)

  unfoldable pub find_all_users : PaginationQuery → Exec S B (PaginatedResponse A)
  unfolding find_page
  find_all_users q = find_page q

  abbrev listing :
      (type message code : String) (default : ℕ) → PaginationQuery → Exec S B (PaginatedResponse A)
  listing type message code default q =
      attempt (find_page q) (λ e. raise (wrap type message code default e))

  unfoldable pub find_all_roles : PaginationQuery → Exec S B (PaginatedResponse A)
  unfolding find_page wrap
  find_all_roles q = listing "RolesException" "Roles not found" "ROLE_NOT_FOUND" 404 q

  unfoldable pub find_all_permissions : PaginationQuery → Exec S B (PaginatedResponse A)
  unfolding find_page wrap
  find_all_permissions q =
      listing "PermissionsException" "Permissions not found" "PERMISSION_NOT_FOUND" 404 q

  unfoldable pub find_all_rules : PaginationQuery → Exec S B (PaginatedResponse A)
  unfolding find_page wrap
  find_all_rules q =
      listing "EndpointPRException" "Endpoint Permission Rules not found"
        "ENDPOINT_PERMISSION_RULE_NOT_FOUND" 404 q

  unfoldable pub find_all_api_keys : PaginationQuery → Exec S B (PaginatedResponse A)
  unfolding find_page wrap
  find_all_api_keys q = listing "ApiKeyException" "Api keys not found" "API_KEY_NOT_FOUND" 500 q

-- The services with a listing.
pub data Listing : Type 0 where
  users roles permissions rules api_keys : Listing

abbrev pub find_all :
    {S B A : Type 0} → Listing → (B → List A) → PaginationQuery → Exec S B (PaginatedResponse A)
find_all users rows q = find_all_users rows q
find_all roles rows q = find_all_roles rows q
find_all permissions rows q = find_all_permissions rows q
find_all rules rows q = find_all_rules rows q
find_all api_keys rows q = find_all_api_keys rows q
