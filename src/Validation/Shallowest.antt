-- ===== src/Validation/Shallowest.antt =====
-- The search through nested validation errors against its description by levels.
use auth_microservice.Prelude.{
  String, ◌≡◌, refl, subst, Option, none, some, List, [], ◌∷◌, arith, truthy, get_or,
}
use auth_microservice.Failure.{Failure, deepest_error_code, deepest_http_message}
use auth_microservice.Failure.Filter.{catch, error}
use auth_microservice.Validation.{
  invalid, ValidationError, total_size, first_code, context_code, constraint_message, search_queue,
  find_first_error_code, find_first_message, bad_request, exception_factory,
}
use auth_microservice.Validation.Levels.{level, leftmost, IsShallowest}
use auth_microservice.Validation.Searching.{search_queue_total}

find_first_error_code-runs :
    (es : List ValidationError) (r : Option String)
    → search_queue context_code (total_size es) es ≡ some r
    → find_first_error_code es ≡ some r
unfolding find_first_error_code
find_first_error_code-runs es r h = h

find_first_message-runs :
    (es : List ValidationError) (r : Option String)
    → search_queue constraint_message (total_size es) es ≡ some r
    → find_first_message es ≡ some (get_or r "Validation failed")
unfolding find_first_message
find_first_message-runs es r h = rw (h, find_first_message)

catch-bad_request :
    (code : Option String) (message : String)
    → truthy code ≡ code
    → catch (error (bad_request (get_or code "VALIDATION_ERROR") message)) ≡ record {
      status_code = 400;
      error_code = get_or code "VALIDATION_ERROR";
      cause_code = none;
      message = message;
    }
unfolding catch deepest_error_code deepest_http_message
catch-bad_request none message h = ground arith
catch-bad_request (some c) message h = ground (arith, h)

truthy-first_code : (cs : List (Option String)) → truthy (first_code cs) ≡ first_code cs
unfolding first_code
truthy-first_code [] = refl
truthy-first_code (none ∷ cs) = truthy-first_code cs
truthy-first_code (some c ∷ cs) = ground (arith, truthy-first_code cs)

truthy-leftmost :
    (es : List ValidationError) → truthy (leftmost context_code es) ≡ leftmost context_code es
unfolding context_code
truthy-leftmost [] = refl
truthy-leftmost (invalid contexts constraints children ∷ es) =
    ground (arith, truthy-first_code contexts, truthy-leftmost es)

IsShallowest-truthy :
    (es : List ValidationError) (code : Option String)
    → IsShallowest context_code es code
    → truthy code ≡ code
IsShallowest-truthy es none h = refl
IsShallowest-truthy es (some c) (n, here, above) =
    subst (λ o. truthy o ≡ o) here (truthy-leftmost (level n es))

-- A request whose body has the validation errors `es` is answered with status 400, with the first error
-- code and the first message of the shallowest errors that have one (VALIDATION_ERROR and "Validation failed"
-- where no error has one); the two may come from different errors. The loops end on any tree of errors.
pub exception_factory-IsShallowest :
    (es : List ValidationError)
    → (code message : Option String) × (e : Failure) × (exception_factory es ≡ some e)
      × IsShallowest context_code es code
      × IsShallowest constraint_message es message
      × (catch (error e) ≡ record {
        status_code = 400;
        error_code = get_or code "VALIDATION_ERROR";
        cause_code = none;
        message = get_or message "Validation failed";
      })
unfolding exception_factory
exception_factory-IsShallowest es =
    let (code, runs, shallowest) = search_queue_total context_code es in
    let (message, runs', shallowest') = search_queue_total constraint_message es in
    (
      code,
      message,
      bad_request (get_or code "VALIDATION_ERROR") (get_or message "Validation failed"),
      rw (
        find_first_error_code-runs es code runs,
        find_first_message-runs es message runs',
        exception_factory,
      ),
      shallowest,
      shallowest',
      catch-bad_request code (get_or message "Validation failed")
          (IsShallowest-truthy es code shallowest),
    )
