-- ===== src/Tests/Seed.antt =====
-- The seeding of an empty database, and the routes behind it.
use auth_microservice.Prelude.{
  inl, inr, true, true, ◌≢◌, ◌≢◌, eq_iff, arith, In, ◌≡◌, refl, none, some, [], if◌then◌else◌,
}
use auth_microservice.Redis.{Session, same_key, session, auth_session}
use auth_microservice.Exec.{calm, World, ok}
use auth_microservice.Seed.{run}
use auth_microservice.SeedData.{seed_permissions}
use auth_microservice.Tests.Memory.{memory, Memory, empty_memory, a_session}
use auth_microservice.Tests.Users.{marking}
use auth_microservice.Tests.SeedTables.{SeedDb, seed_db_rules, seed_db_permissions, seed_db_keys}
use auth_microservice.Tests.SeedManagers.{seed_db_users, seed_manager}
use auth_microservice.Http.{one_header, no_header, same_subnet_check, Request, get_client_ip}
use auth_microservice.Rules.Reading.{Coherent}
use auth_microservice.Routes.{by_auth, post, all_routes, patch, enter, Route}
use auth_microservice.Seed.Coverage.{run-Seeded, Outcome}
use auth_microservice.Guards.Granting.{Admitted}
use auth_microservice.Tests.Tokens.{Accepts-t1, a_config}
use auth_microservice.Tests.ApiKeys.{plain_hmac}
use auth_microservice.Jwt.{auth}
use auth_microservice.Routes.Seeded.{enter-unseeded, enter-seeded}

abbrev empty_db : SeedDb
empty_db = record { rule_of = λ k. none; codes = []; role = none; user = none }

abbrev admin_session : Session
admin_session = record a_session { permissions = seed_permissions }

abbrev with_admin : Memory
with_admin = record empty_memory {
  texts = λ j. if same_key (auth_session "s1") j then some (session admin_session) else none;
}

abbrev unseeded_world : World Memory SeedDb
unseeded_world = record {
  redis = with_admin;
  db = empty_db;
  schedule = [];
  now = 1000;
  user = none;
}

run_ok : (run seed_manager marking "salt" unseeded_world).0 ≡ ok tt
unfolding run
run_ok = refl

run-Seeded_example :
    Outcome seed_manager marking "salt" empty_db (run seed_manager marking "salt" unseeded_world)
run-Seeded_example = run-Seeded seed_manager marking "salt" unseeded_world

-- Redis as it was, over the seeded database.
abbrev seeded_world : World Memory SeedDb
seeded_world = record unseeded_world { db = (run seed_manager marking "salt" unseeded_world).1.db }

seeded-Coherent : Coherent memory seed_db_rules with_admin seeded_world.db
seeded-Coherent = record { serves = λ k c hit. absurd (ground (arith, hit)) }

abbrev admin_request : Request
admin_request = record {
  auth_token = some "t1";
  api_key = no_header;
  authorization = no_header;
  forwarded_for = one_header "10.0.0.7";
  ip = none;
  remote_address = none;
  user_agent = some "agent";
}

admin-Admitted :
    Admitted memory seed_db_rules a_config none admin_request seeded_world "s1" admin_session
unfolding get_client_ip same_subnet_check
admin-Admitted = record {
  token = "t1";
  given = refl;
  not_empty = ground (arith, eq_iff "t1" "");
  payload = record { email = "a@b.c"; exp = 901; sid = some "s1" };
  accepted = Accepts-t1 auth;
  named = refl;
  held = record { stored = refl; active = refl; email = refl };
  subnet = refl;
  permitted = tt;
}

-- Behind the key "users.update".
abbrev activate_route : Route
activate_route = record {
  method = post;
  path = "/users/activate/:id";
  guard = by_auth;
  endpoint_key = some "users.update";
  handler = "UsersController.activate";
}

enter-seeded_example :
    (enter memory seed_db_rules seed_db_keys seed_db_permissions plain_hmac a_config activate_route
      admin_request
      (calm seeded_world)).0
    ≡ ok true
enter-seeded_example =
    enter-seeded memory seed_db_rules seed_db_users seed_manager marking "salt" seed_db_keys
      seed_db_permissions plain_hmac a_config unseeded_world seeded_world activate_route
      admin_request "s1" admin_session run_ok refl seeded-Coherent (inr (inr (inl refl))) refl refl
      admin-Admitted (λ code m. m)

abbrev change_route : Route
change_route = record {
  method = patch;
  path = "/api-keys/change-permissions/:id";
  guard = by_auth;
  endpoint_key = some "api-key.update";
  handler = "ApiKeysController.changePermissions";
}

listed_change : In change_route all_routes
listed_change = inr (
    inr (
      inr (
        inr (
          inr (inr (inr (inr (inr (inr (inr (inr (inr (inr (inr (inr (inr (inl refl)))))))))))))))))

enter-unseeded_example :
    enter memory seed_db_rules seed_db_keys seed_db_permissions plain_hmac a_config change_route
      admin_request seeded_world
    ≢ (ok true, seeded_world)
enter-unseeded_example =
    enter-unseeded memory seed_db_rules seed_db_users seed_manager marking "salt" seed_db_keys
      seed_db_permissions plain_hmac a_config unseeded_world seeded_world seeded_world change_route
      admin_request true run_ok refl (λ k m. refl) seeded-Coherent listed_change refl
