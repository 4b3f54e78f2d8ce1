-- ===== src/Failure/Chain.antt =====
-- What the loops over a cause chain find, and what a service's wrapping of an error does to it.
use Prim.Native.String.{◌++◌}
use auth_microservice.Prelude.{
  ℕ, String, ◌≡◌, refl, ap, eq_iff, List, [], ◌∷◌, Option, none, some, arith, ◌==◌, get_or,
  if◌then◌else◌,
}
use auth_microservice.Failure.{
  Failure, Link, text, object, one, many, absent, status?, join, message_or, extract_message,
  service, http, plain, wrap, deepest_from, deepest_error_code, http_message?, message_from,
  deepest_http_message,
}

abbrev or_else {ℓ} : {A : Type ℓ} → Option A → Option A → Option A
or_else none o = o
or_else (some a) o = some a

deepest_from-or_else :
    (found : Option String) (ls : List Link)
    → deepest_from found ls ≡ or_else (deepest_from none ls) found
unfolding deepest_from
deepest_from-or_else found [] = refl
deepest_from-or_else found (service t m c s ∷ ls) = ground (arith, deepest_from-or_else (some c) ls)
deepest_from-or_else found (http t m s r ∷ ls) = deepest_from-or_else found ls
deepest_from-or_else found (plain t m ∷ ls) = deepest_from-or_else found ls

-- Wrapping a caught error in a service exception leaves the deepest code of the chain as it was; the
-- new code is the deepest only where the caught error's chain holds no code.
pub deepest_error_code-wrap :
    (type message code : String) (default : ℕ) (e : Failure)
    → deepest_error_code (wrap type message code default e)
      ≡ some (get_or (deepest_error_code e) code)
unfolding wrap deepest_error_code deepest_from
deepest_error_code-wrap type message code default e = ground (
  arith,
  deepest_from-or_else (some code) (e.link ∷ e.causes),
  deepest_from-or_else none (e.link ∷ e.causes),
)

-- The status that a link of a chain carries.
abbrev pub carried_status : Link → Option ℕ
carried_status (service t m c status) = some status
carried_status (http t m status r) = some status
carried_status (plain t m) = none

pub status?-carried_status : (l : Link) → status? l ≡ carried_status l
unfolding status?
status?-carried_status (service t m c s) = refl
status?-carried_status (http t m s r) = refl
status?-carried_status (plain t m) = refl

-- The deepest code of a list of links, if it has one.
pub deepest_code? : List Link → Option String
deepest_code? [] = none
deepest_code? (service t m code s ∷ ls) = or_else (deepest_code? ls) (some code)
deepest_code? (http t m s r ∷ ls) = deepest_code? ls
deepest_code? (plain t m ∷ ls) = deepest_code? ls

deepest_from-deepest_code : (ls : List Link) → deepest_from none ls ≡ deepest_code? ls
unfolding deepest_from deepest_code?
deepest_from-deepest_code [] = refl
deepest_from-deepest_code (service t m c s ∷ ls) =
    ground (arith, deepest_from-or_else (some c) ls, deepest_from-deepest_code ls)
deepest_from-deepest_code (http t m s r ∷ ls) = deepest_from-deepest_code ls
deepest_from-deepest_code (plain t m ∷ ls) = deepest_from-deepest_code ls

pub deepest_error_code-deepest_code :
    (e : Failure) → deepest_error_code e ≡ deepest_code? (e.link ∷ e.causes)
unfolding deepest_error_code
deepest_error_code-deepest_code e = deepest_from-deepest_code (e.link ∷ e.causes)

-- The cause that the answer is to show beside a code: none where the chain holds no code, an empty
-- one, or the same.
abbrev pub shown_beside : String → Option String → Option String
shown_beside code none = none
shown_beside code (some c) = if c == code then none else if c == "" then none else some c

-- What a link says to the client: a service exception its message, any other HTTP exception the
-- text of its response, and its own message where that response has none.
separated : List String → String
separated [] = ""
separated (m ∷ []) = m
separated (m ∷ n ∷ ms) = m ++ ", " ++ separated (n ∷ ms)

said? : Link → Option String
unfolding separated
said? (service t own c s) = some own
said? (http t own s (text m)) = some m
said? (http t own s (object (one m) c)) = some (if m == "" then own else m)
said? (http t own s (object (many ms) c)) = some (separated ms)
said? (http t own s (object absent c)) = some own
said? (plain t own) = none

join-separated : (ms : List String) → join ms ≡ separated ms
unfolding join separated
join-separated [] = refl
join-separated (m ∷ []) = refl
join-separated (m ∷ n ∷ ms) = ap (λ s. m ++ ", " ++ s) (join-separated (n ∷ ms))

http_message-said : (l : Link) → http_message? l ≡ said? l
unfolding http_message? said? extract_message message_or
http_message-said (service t own c s) = ground (arith, eq_iff own "")
http_message-said (http t own s (text m)) = refl
http_message-said (http t own s (object (one m) c)) = refl
http_message-said (http t own s (object (many ms) c)) = ap some (join-separated ms)
http_message-said (http t own s (object absent c)) = refl
http_message-said (plain t own) = refl

-- The deepest of the messages that a list of links says to the client, if there is one.
pub deepest_message? : List Link → Option String
deepest_message? [] = none
deepest_message? (l ∷ ls) = or_else (deepest_message? ls) (said? l)

message_from-get_or :
    (found : String) (ls : List Link) → message_from found ls ≡ get_or (deepest_message? ls) found
unfolding message_from deepest_message?
message_from-get_or found [] = refl
message_from-get_or found (l ∷ ls) =
    ground (arith, message_from-get_or (get_or (http_message? l) found) ls, http_message-said l)

-- The message shown for a wrapped error is the deepest HTTP message of what was wrapped, and the new
-- exception's own where there is none.
pub deepest_http_message-wrap :
    (type message code : String) (default : ℕ) (e : Failure)
    → deepest_http_message (wrap type message code default e)
      ≡ get_or (deepest_message? (e.link ∷ e.causes)) message
unfolding wrap deepest_http_message message_from deepest_message?
deepest_http_message-wrap type message code default e =
    ground (arith, message_from-get_or message (e.link ∷ e.causes))
