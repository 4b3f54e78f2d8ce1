-- ===== src/Failure.antt =====
-- What a service throws: src/common/exceptions/base-service.exception.ts, the error classes of the
-- services (src/services/*/*.exception*.ts, src/common/guards/auth.exception.ts) and the HTTP
-- exceptions of the framework, which the code only constructs. An `Error` with its chain of
-- `cause`s is the list of the links of that chain, the error itself first; the last link has no
-- cause that is an `Error`. Chains that loop back on themselves are left out.
pub mod Chain
pub mod Filter
pub mod Responses
use Prim.Native.String.{◌++◌}
use auth_microservice.Prelude.{
  ℕ, String, List, [], ◌∷◌, map, Option, none, some, ◌==◌, if◌then◌else◌, get_or,
}

-- `response.message` of an `HttpException` whose response is an object.
pub data Message : Type 0 where
  one : String → Message
  many : List String → Message
  absent : Message

pub data Response : Type 0 where
  text : String → Response
  object : (message : Message) (error_code : Option String) → Response

pub data Link : Type 0 where
  -- A subclass of `BaseServiceException`: its name, message, error code and status.
  service : (type message error_code : String) (status : ℕ) → Link
  -- Any other `HttpException`: its name, its own message, its status and response.
  http : (type message : String) (status : ℕ) (response : Response) → Link
  -- Any other `Error`: its name and message.
  plain : (type message : String) → Link

pub record Failure : Type 0 where
  pub link : Link
  pub causes : List Link

-- `error.status`, which only an `HttpException` has.
unfoldable pub status? : Link → Option ℕ
status? (service type message code status) = some status
status? (http type message status response) = some status
status? (plain type message) = none

-- `new XException(message, code, status)`.
abbrev pub thrown : (type message error_code : String) (status : ℕ) → Failure
thrown type message code status = record { link = service type message code status; causes = [] }

-- `new XException(message, code, error.status ?? default, error)` in a `catch (error)`.
unfoldable pub wrap : (type message error_code : String) (default : ℕ) → Failure → Failure
unfolding status?
wrap type message code default e = record {
  link = service type message code (get_or (status? e.link) default);
  causes = e.link ∷ e.causes;
}

-- `getErrorCode()`.
abbrev error_code? : Link → Option String
error_code? (service type message code status) = some code
error_code? (http type message status response) = none
error_code? (plain type message) = none

-- The loop of `getDeepestErrorCode`: the last code met so far, and the links to come.
deepest_from : Option String → List Link → Option String
deepest_from found [] = found
deepest_from found (l ∷ ls) =
    deepest_from (elim (error_code? l) [ none ↦ found | some c ↦ some c ]) ls

unfoldable pub deepest_error_code : Failure → Option String
unfolding deepest_from
deepest_error_code e = deepest_from none (e.link ∷ e.causes)

-- `msg.join(', ')`.
join : List String → String
join [] = ""
join (s ∷ []) = s
join (s ∷ t ∷ r) = s ++ ", " ++ join (t ∷ r)

-- `msg || err.message`.
message_or : String → String → String
message_or message own = if message == "" then own else message

-- `extractMessage`.
extract_message : (own : String) → Response → String
unfolding join message_or
extract_message own (text s) = s
extract_message own (object (one s) code) = message_or s own
extract_message own (object (many ss) code) = join ss
extract_message own (object absent code) = own

-- The message of a link that is an `HttpException`; a service exception's response is the object
-- with its message, and the framework takes that message for the error's own.
http_message? : Link → Option String
unfolding extract_message
http_message? (service type message code status) =
    some (extract_message message (object (one message) (some code)))
http_message? (http type message status response) = some (extract_message message response)
http_message? (plain type message) = none

message_from : String → List Link → String
message_from found [] = found
message_from found (l ∷ ls) = message_from (get_or (http_message? l) found) ls

-- `getDeepestHttpExceptionMessage`.
unfoldable pub deepest_http_message : Failure → String
unfolding message_from http_message?
deepest_http_message e = message_from "An unexpected error occurred" (e.link ∷ e.causes)

-- One entry of `getCauseChain`.
pub chain_entry : Link → String × String
chain_entry (service type message code status) = (type, message)
chain_entry (http type message status response) = (type, message)
chain_entry (plain type message) = (type, message)

pub cause_chain : Failure → List (String × String)
unfolding chain_entry
cause_chain e = map chain_entry (e.link ∷ e.causes)
