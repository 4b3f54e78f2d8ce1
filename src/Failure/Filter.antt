-- ===== src/Failure/Filter.antt =====
-- src/common/filters/all-exceptions.filter.ts: the response to a request whose handler threw. The
-- timestamp, the path and the log entry are left out.
use auth_microservice.Prelude.{ℕ, String, Option, none, some, ◌==◌, if◌then◌else◌, get_or, truthy}
use auth_microservice.Failure.{
  Failure, Link, Response, service, http, plain, text, object, status?, deepest_error_code,
  deepest_http_message,
}

-- What was thrown: an `Error` with its causes, or any other value.
pub data Thrown : Type 0 where
  error : Failure → Thrown
  other : Thrown

pub record ErrorResponse : Type 0 where
  pub status_code : ℕ
  pub error_code : String
  pub cause_code : Option String
  pub message : String

response_code : Response → String
response_code (text s) = "INTERNAL_ERROR"
response_code (object message code) = get_or (truthy code) "INTERNAL_ERROR"

-- The code of the exception itself.
unfoldable pub own_code : Link → String
unfolding response_code
own_code (service type message code status) = code
own_code (http type message status response) = response_code response
own_code (plain type message) = "INTERNAL_ERROR"

-- `causeCode`, dropped where it is the exception's own code.
unfoldable pub distinct_code : String → Option String → Option String
distinct_code code none = none
distinct_code code (some c) = if c == code then none else truthy (some c)

unfoldable pub catch : Thrown → ErrorResponse
unfolding status? own_code distinct_code
catch (error e) = record {
  status_code = get_or (status? e.link) 500;
  error_code = own_code e.link;
  cause_code = distinct_code (own_code e.link) (deepest_error_code e);
  message = deepest_http_message e;
}
catch other = record {
  status_code = 500;
  error_code = "INTERNAL_ERROR";
  cause_code = none;
  message = "An unexpected error occurred";
}
