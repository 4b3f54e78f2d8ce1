-- ===== src/Failure/Responses.antt =====
-- What a client sees of an error that a service caught and wrapped.
use auth_microservice.Prelude.{ℕ, String, ◌≡◌, ◌∷◌, arith, eq_refl, get_or}
use auth_microservice.Failure.{Failure, wrap}
use auth_microservice.Failure.Chain.{
  status?-carried_status, carried_status, deepest_message?, deepest_code?, shown_beside,
  deepest_error_code-deepest_code, deepest_error_code-wrap, deepest_http_message-wrap,
}
use auth_microservice.Failure.Filter.{error, catch, distinct_code}

-- A service that catches an error, wraps it in its own exception and throws that on answers with the
-- caught error's status where it has one and with the service's default elsewhere, with the
-- service's code, with the deepest code of the caught chain as cause (left out where it is the same,
-- empty or missing), and with the deepest HTTP message of the caught chain, or the service's own.
pub catch-wrap :
    (type message code : String) (default : ℕ) (e : Failure)
    → let r = catch (error (wrap type message code default e)) in
      (r.status_code ≡ get_or (carried_status e.link) default)
      × (r.error_code ≡ code)
      × (r.cause_code ≡ shown_beside code (deepest_code? (e.link ∷ e.causes)))
      × (r.message ≡ get_or (deepest_message? (e.link ∷ e.causes)) message)
unfolding catch wrap distinct_code
catch-wrap type message code default e = ground (
  arith,
  deepest_error_code-wrap type message code default e,
  deepest_error_code-deepest_code e,
  status?-carried_status e.link,
  deepest_http_message-wrap type message code default e,
  eq_refl code,
)
