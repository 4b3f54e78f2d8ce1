-- ===== src/Tests/Subnets.antt =====
-- The theorem on subnets at two addresses of one subnet.
use auth_microservice.Prelude.{◌≡◌, ◌↔◌, true}
use auth_microservice.Http.{same_subnet_check}
use auth_microservice.Http.Subnets.{IsNear, same_subnet_check_iff}

same_subnet_check_iff_example :
    (same_subnet_check "10.0.0.1" "10.0.0.7" ≡ true) ↔ IsNear "10.0.0.1" "10.0.0.7"
same_subnet_check_iff_example = same_subnet_check_iff "10.0.0.1" "10.0.0.7"
