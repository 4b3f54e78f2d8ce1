-- ===== src/Tests/Pagination.antt =====
-- The listings at a table of three rows and pages of two.
use auth_microservice.Prelude.{
  ◌+◌, ◌+◌, ◌⊎◌, ◌⊎◌, ◌*◌, ◌≤◌, ◌<◌, String, ◌≡◌, none, List, [], ◌∷◌, arith, length,
}
use auth_microservice.Exec.{World, calm, ok}
use auth_microservice.Pagination.{PaginationQuery, PaginatedResponse, Listing, find_all}
use auth_microservice.Pagination.Pages.{read_pages, find_all-pages}
use auth_microservice.Tests.Memory.{Memory, empty_memory}

abbrev three : World Memory (List String)
three = record {
  redis = empty_memory;
  db = "a" ∷ "b" ∷ "c" ∷ [];
  schedule = [];
  now = 0;
  user = none;
}

abbrev second_page : PaginationQuery
second_page = record { page = 2; limit = 2 }

find_all-pages_example :
    (r : PaginatedResponse String) × (find_all Listing.roles (λ b. b) second_page (calm three)
      ≡ (ok r, calm three))
    × (r.total ≡ length three.db)
    × (length r.rows ≤ 2)
    × ((2 ≤ r.total_pages) ⊎ (r.rows ≡ []))
    × (read_pages Listing.roles (λ b. b) 2 r.total_pages 0 (calm three) ≡ (ok three.db, calm three))
    × (r.total_pages * 2 < r.total + 2)
find_all-pages_example =
    find_all-pages Listing.roles (λ b. b) second_page three
      (record {
        page_positive = omega arith;
        limit_positive = omega arith;
        limit_bounded = omega arith;
      })
