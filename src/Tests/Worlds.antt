-- ===== src/Tests/Worlds.antt =====
-- The rows of the database of the tests, its table of users, and a world with one row of each.
use auth_microservice.Prelude.{
  String, ◌≡◌, true, false, Option, none, some, [], ◌∷◌, arith, ◌==◌, eq_iff, eq_refl,
  if◌then◌else◌,
}
use auth_microservice.Exec.{World}
use auth_microservice.Rules.{Rule}
use auth_microservice.ApiKeys.{ApiKey}
use auth_microservice.Users.{Role, User, UserTable, status_active}
use auth_microservice.Tests.Memory.{Memory}
use auth_microservice.Tests.Tables.{Db}

abbrev pub a_rule : Rule
a_rule = record {
  id = "r1";
  endpoint_key_name = "users.list";
  enabled = true;
  permissions = record { id = "p1"; code = "READ" } ∷ [];
}

abbrev pub a_key : ApiKey
a_key = record {
  id = "r1";
  key_fingerprint = "secret";
  client = "billing";
  active = true;
  permissions = record { id = "p1"; code = "READ" } ∷ [];
}

abbrev pub user_by_id : String → Option User → Option User
user_by_id i none = none
user_by_id i (some u) = if u.id == i then some u else none

abbrev pub user_by_email : String → Option User → Option User
user_by_email e none = none
user_by_email e (some u) = if u.email == e then some u else none

abbrev pub put_user : User → Option User → Option (Option User)
put_user u none = some (some u)
put_user u (some old) = if u.id == old.id then some (some u) else none

abbrev save_user_in : Db → Option (Option User) → Option Db
save_user_in b none = none
save_user_in b (some o) = some (record b { user = o })

pub user_by_email-eq-some :
    (e : String) (u : User) (o : Option User)
    → user_by_email e o ≡ some u
    → (u.email ≡ e) × (user_by_id u.id o ≡ some u)
user_by_email-eq-some e u none h = absurd (ground arith)
user_by_email-eq-some e u (some old) h = ground (arith, eq_iff old.email e, eq_refl u.id)

pub user_by_id-eq-some :
    (i : String) (u : User) (o : Option User)
    → user_by_id i o ≡ some u
    → (u.id ≡ i) × (user_by_email u.email o ≡ some u)
user_by_id-eq-some i u none h = absurd (ground arith)
user_by_id-eq-some i u (some old) h = ground (arith, eq_iff old.id i, eq_refl u.email)

pub by_id-put_user :
    (u : User) (i : String) (o : Option User) (b b' : Db)
    → save_user_in b (put_user u o) ≡ some b'
    → user_by_id i b'.user ≡ (if u.id == i then some u else user_by_id i o)
by_id-put_user u i none b b' h = ground arith
by_id-put_user u i (some old) b b' h = ground (arith, eq_iff u.id old.id, eq_iff old.id i)

abbrev pub a_role : Role
a_role = record {
  id = "role1";
  name = "reader";
  is_restricted = false;
  permissions = record { id = "p1"; code = "READ" } ∷ [];
}

abbrev pub users : UserTable Db
users = record {
  find_role = λ id b. if id == "role1" then some a_role else none;
  find_one_by_id = λ i b. user_by_id i b.user;
  find_one_by_email = λ e b. user_by_email e b.user;
  new_id = λ b. "u2";
  save = λ u b. save_user_in b (put_user u b.user);
  by_email = λ e u b. user_by_email-eq-some e u b.user;
  by_id = λ i u b. user_by_id-eq-some i u b.user;
  id-save = λ u i b b' h. by_id-put_user u i b.user b b' h;
}

abbrev pub a_user : User
a_user = record {
  id = "u1";
  email = "a@b.c";
  password = "pw!";
  status = status_active;
  person_id = "person1";
  roles = a_role ∷ [];
}

-- A world with one rule and one key in the database.
abbrev pub a_world : Memory → World Memory Db
a_world m = record {
  redis = m;
  db = record { rule = some a_rule; key = some a_key; user = some a_user };
  schedule = [];
  now = 1000;
  user = none;
}
