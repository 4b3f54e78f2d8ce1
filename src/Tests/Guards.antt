-- ===== src/Tests/Guards.antt =====
-- The theorems on the guards at a request of a user with a session.
use auth_microservice.Prelude.{
  String, ◌≡◌, refl, inl, inr, true, none, some, [], ◌∷◌, arith, eq_iff,
}
use auth_microservice.Redis.{Session}
use auth_microservice.Exec.{World, ok}
use auth_microservice.Jwt.{auth}
use auth_microservice.Http.{Request, get_client_ip, same_subnet_check, one_header}
use auth_microservice.Rules.Reading.{Coherent}
use auth_microservice.ApiKeys.{ApiKey}
use auth_microservice.ApiKeys.Lookup.{KeysCoherent}
use auth_microservice.Guards.{auth_user, auth_guard, api_key_guard, microservice_guard}
use auth_microservice.Guards.Granting.{Admitted, auth_guard-Admitted}
use auth_microservice.Guards.Services.{KeyAdmitted, api_key_guard-KeyAdmitted}
use auth_microservice.Guards.Microservices.{TokenAdmitted, microservice_guard-TokenAdmitted}
use auth_microservice.Tests.Memory.{Memory, memory, a_session, with_session}
use auth_microservice.Tests.Tables.{permissions, rules, Db, keys}
use auth_microservice.Tests.Worlds.{a_world}
use auth_microservice.Tests.Tokens.{a_config, Accepts-t1}
use auth_microservice.Tests.ApiKeys.{plain_hmac}

abbrev a_request : Request
a_request = record {
  auth_token = some "t1";
  api_key = one_header "secret";
  authorization = one_header "bearer  t1";
  forwarded_for = one_header " 10.0.0.7, 8.8.8.8";
  ip = none;
  remote_address = none;
  user_agent = some "agent";
}

abbrev w1 : World Memory Db
w1 = a_world with_session

with_session-Coherent : Coherent memory rules with_session w1.db
with_session-Coherent = record { serves = λ k c hit. absurd (ground arith) }

with_session-KeysCoherent : KeysCoherent memory keys with_session w1.db
with_session-KeysCoherent = record { serves = λ k c hit. absurd (ground arith) }

abbrev after_guard : World Memory Db
after_guard = (auth_guard memory rules a_config (some "users.list") a_request w1).1

let_through :
    auth_guard memory rules a_config (some "users.list") a_request w1 ≡ (ok true, after_guard)
unfolding auth_guard
let_through = refl

auth_guard-Admitted_example :
    (sid : String) × (x : Session) × Admitted memory rules a_config
      (some "users.list")
      a_request
      w1
      sid
      x
    × (after_guard.user ≡ some (auth_user x sid))
    × (true ≡ true)
auth_guard-Admitted_example =
    auth_guard-Admitted memory rules a_config (some "users.list") a_request w1 after_guard true
      with_session-Coherent let_through

a_request-Admitted : Admitted memory rules a_config (some "users.list") a_request w1 "s1" a_session
unfolding get_client_ip same_subnet_check
a_request-Admitted = record {
  token = "t1";
  given = refl;
  not_empty = ground (arith, eq_iff "t1" "");
  payload = record { email = "a@b.c"; exp = 901; sid = some "s1" };
  accepted = Accepts-t1 auth;
  named = refl;
  held = record { stored = refl; active = refl; email = refl };
  subnet = refl;
  permitted = ("READ" ∷ [], refl, inr ("READ", inl refl, inl refl));
}

abbrev after_key : World Memory Db
after_key =
    (api_key_guard memory rules keys permissions plain_hmac a_config (some "users.list") a_request
      w1).1

key_let_through :
    api_key_guard memory rules keys permissions plain_hmac a_config (some "users.list") a_request w1
    ≡ (ok true, after_key)
unfolding api_key_guard
key_let_through = refl

api_key_guard-KeyAdmitted_example :
    (k : ApiKey) × KeyAdmitted rules keys plain_hmac (some "users.list") a_request w1.db k
    × (true ≡ true)
api_key_guard-KeyAdmitted_example =
    api_key_guard-KeyAdmitted memory rules keys permissions plain_hmac a_config (some "users.list")
      a_request w1 after_key true with_session-KeysCoherent with_session-Coherent key_let_through

abbrev after_both : World Memory Db
after_both =
    (microservice_guard memory rules keys permissions plain_hmac a_config (some "users.list")
      a_request w1).1

both_let_through :
    microservice_guard memory rules keys permissions plain_hmac a_config
      (some "users.list")
      a_request
      w1
    ≡ (ok true, after_both)
unfolding microservice_guard
both_let_through = refl

microservice_guard-TokenAdmitted_example :
    ((k : ApiKey) × KeyAdmitted rules keys plain_hmac (some "users.list") a_request w1.db k)
    × (sid : String) × (x : Session) × TokenAdmitted memory a_config a_request after_key sid x
    × (after_both.user ≡ some (auth_user x sid))
    × (true ≡ true)
microservice_guard-TokenAdmitted_example =
    microservice_guard-TokenAdmitted memory rules keys permissions plain_hmac a_config
      (some "users.list") a_request w1 after_both true with_session-KeysCoherent
      with_session-Coherent both_let_through
