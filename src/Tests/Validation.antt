-- ===== src/Tests/Validation.antt =====
-- The search through validation errors at a body with a nested error.
use auth_microservice.Prelude.{String, ◌≡◌, refl, Option, none, some, List, [], ◌∷◌, get_or}
use auth_microservice.Failure.{Failure}
use auth_microservice.Failure.Filter.{catch, error}
use auth_microservice.Validation.{
  no_errors, then_error, invalid, ValidationError, context_code, constraint_message,
  find_first_error_code, find_first_message, exception_factory,
}
use auth_microservice.Validation.Levels.{IsShallowest}
use auth_microservice.Validation.Shallowest.{exception_factory-IsShallowest}

-- The first error has its code only in a child; the second has one of its own.
abbrev errors : List ValidationError
errors =
    invalid [] []
      (then_error (invalid (some "DEEP" ∷ []) (("isString", "deep") ∷ []) no_errors) no_errors)
    ∷ invalid (none ∷ some "SHALLOW" ∷ []) [] no_errors
    ∷ []

shallow_code : find_first_error_code errors ≡ some (some "SHALLOW")
unfolding find_first_error_code
shallow_code = refl

deep_message : find_first_message errors ≡ some "deep"
unfolding find_first_message
deep_message = refl

exception_factory-IsShallowest_example :
    (code message : Option String) × (e : Failure) × (exception_factory errors ≡ some e)
    × IsShallowest context_code errors code
    × IsShallowest constraint_message errors message
    × (catch (error e) ≡ record {
      status_code = 400;
      error_code = get_or code "VALIDATION_ERROR";
      cause_code = none;
      message = get_or message "Validation failed";
    })
exception_factory-IsShallowest_example = exception_factory-IsShallowest errors
