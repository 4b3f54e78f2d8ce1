-- ===== src/Outbox/Cleanup.antt =====
-- The cleanup loop against its description.
use auth_microservice.Prelude.{ℕ, suc, ◌+◌, ◌≤◌, ◌<◌, ◌≡◌, List, [], ◌∷◌, if◌then◌else◌}
use auth_microservice.Outbox.{Event, is_sent}

abbrev pub unsent : List Event → List Event
unsent [] = []
unsent (e ∷ es) = let rest = unsent es in if is_sent e.status then rest else e ∷ rest

abbrev pub count_sent : List Event → ℕ
count_sent [] = 0
count_sent (e ∷ es) = let rest = count_sent es in if is_sent e.status then suc rest else rest

pub record IsBatch (n : ℕ) (rows left : List Event) (a : ℕ) : Type 0 where
  pub keeps : unsent left ≡ unsent rows
  pub counts : count_sent left + a ≡ count_sent rows
  pub bounded : a ≤ n
  pub last : a < n → left ≡ unsent rows
