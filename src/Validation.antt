-- ===== src/Validation.antt =====
-- src/common/utils/find-errors-data.util.ts and the exception factory of src/main.ts: what a request
-- whose body fails validation is answered. The validation library's errors are trees; an object
-- whose keys the code walks is the list of its entries in the order of the keys.
pub mod Levels
pub mod Searching
pub mod Shallowest
use auth_microservice.Prelude.{
  ℕ, zero, suc, ◌+◌, ◌-◌, ◌*◌, ◌/◌, ◌≤◌, ◌<◌, String, ◌≡◌, refl, sym, ap, subst, ◌∙◌, ◌≢◌, ◌↔◌, ◌⊎◌,
  inl, inr, Bool, true, false, not, ◌&&◌, ◌||◌, Option, none, some, List, [], ◌∷◌, ◌++◌, map, arith,
  ◌==◌, eq_iff, eq_refl, ltb, leb, eqb, if◌then◌else◌, Bool-cases, Option-cases, truthy, get_or,
  length, length-append, any, filter_by, In, includes,
}
use auth_microservice.Failure.{
  Message, Response, Link, Failure, status?, thrown, wrap, deepest_error_code, deepest_http_message,
  chain_entry, cause_chain, one, many, absent, text, object, service, http, plain,
}

-- `contexts` has the `errorCode` of each context; `constraints` each constraint's key and message.
-- `none` in `contexts` is a context with no code.
mutual
  pub data ValidationError : Type 0 where
    invalid :
        (contexts : List (Option String)) (constraints : List (String × String))
        (children : ValidationErrors)
        → ValidationError

  pub data ValidationErrors : Type 0 where
    no_errors : ValidationErrors
    then_error : ValidationError → ValidationErrors → ValidationErrors

abbrev pub to_list : ValidationErrors → List ValidationError
to_list no_errors = []
to_list (then_error e es) = e ∷ to_list es

abbrev pub children_of : ValidationError → List ValidationError
children_of (invalid contexts constraints children) = to_list children

-- The errors of a tree, itself included.
abbrev mutual
  pub size : ValidationError → ℕ
  size (invalid contexts constraints children) = suc (size_all children)

  pub size_all : ValidationErrors → ℕ
  size_all no_errors = 0
  size_all (then_error e es) = size e + size_all es

abbrev pub total_size : List ValidationError → ℕ
total_size [] = 0
total_size (e ∷ es) = size e + total_size es

-- The loop over the keys of `err.contexts`.
unfoldable pub first_code : List (Option String) → Option String
first_code [] = none
first_code (c ∷ cs) = elim (truthy c) [ none ↦ first_code cs | some code ↦ some code ]

unfoldable pub context_code : ValidationError → Option String
unfolding first_code
context_code (invalid contexts constraints children) = first_code contexts

-- `err.constraints[firstKey]`, where there is a first key and it is not empty.
abbrev pub first_message : List (String × String) → Option String
first_message [] = none
first_message ((key, message) ∷ more) = if key == "" then none else some message

unfoldable pub constraint_message : ValidationError → Option String
constraint_message (invalid contexts constraints children) = first_message constraints

-- The `while` loop of both functions over its queue, on fuel: `none` where the fuel is used up, else what
-- `found` gives at the first error taken from the queue where it gives anything.
unfoldable pub search_queue :
    (found : ValidationError → Option String)
    → (fuel : ℕ) → List ValidationError
    → Option (Option String)
search_queue found fuel [] = some none
search_queue found zero (e ∷ es) = none
search_queue found (suc fuel) (e ∷ es) =
    let rest = search_queue found fuel (es ++ children_of e) in
    elim (found e) [ none ↦ rest | some s ↦ some (some s) ]

unfoldable pub find_first_error_code : List ValidationError → Option (Option String)
unfolding search_queue context_code
find_first_error_code errors = search_queue context_code (total_size errors) errors

unfoldable pub find_first_message : List ValidationError → Option String
unfolding search_queue constraint_message
find_first_message errors = elim (search_queue constraint_message (total_size errors) errors) [
  | none ↦ none
  | some message ↦ some (get_or message "Validation failed")
]

-- `new BadRequestException({ statusCode, errorCode, message })`.
abbrev pub bad_request : (error_code message : String) → Failure
bad_request code message = record {
  link = http "BadRequestException" message 400 (object (one message) (some code));
  causes = [];
}

-- `exceptionFactory` of the validation pipe; `none` stands for a loop that ran out of fuel.
unfoldable pub exception_factory : List ValidationError → Option Failure
unfolding find_first_error_code find_first_message
exception_factory errors = elim (find_first_error_code errors) [
  | none ↦ none
  | some code ↦ elim (find_first_message errors) [
    | none ↦ none
    | some message ↦ some (bad_request (get_or code "VALIDATION_ERROR") message)
  ]
]
