-- ===== src/Tests/Errors.antt =====
-- The theorem on wrapped errors at a concrete error.
use auth_microservice.Prelude.{◌≡◌, ◌∷◌, get_or}
use auth_microservice.Failure.{Failure, thrown, wrap}
use auth_microservice.Failure.Filter.{catch, error}
use auth_microservice.Failure.Chain.{carried_status, deepest_message?, deepest_code?, shown_beside}
use auth_microservice.Failure.Responses.{catch-wrap}

abbrev not_found : Failure
not_found = thrown "PermissionsException" "Permission not found" "PERMISSION_NOT_FOUND" 404

catch-wrap_example :
    let r =
      catch (error (wrap "RolesException" "Role not updated" "ROLE_NOT_UPDATED" 500 not_found)) in
    (r.status_code ≡ get_or (carried_status not_found.link) 500)
    × (r.error_code ≡ "ROLE_NOT_UPDATED")
    × (r.cause_code
        ≡ shown_beside "ROLE_NOT_UPDATED" (deepest_code? (not_found.link ∷ not_found.causes)))
    × (r.message ≡ get_or (deepest_message? (not_found.link ∷ not_found.causes)) "Role not updated")
catch-wrap_example = catch-wrap "RolesException" "Role not updated" "ROLE_NOT_UPDATED" 500 not_found
