-- ===== src/Lib.antt =====
-- Clinfy Auth Microservice: authentication and authorisation for other services.
--
-- The program keeps users' sessions and the permission caches in Redis, and its entities in a
-- database. Three guards decide who gets in: `AuthGuard` reads a signed token from a cookie and the
-- session that it names, `ApiKeyGuard` looks up the key of a calling service, and
-- `MicroserviceGuard` does both. All of them read an endpoint's dynamic permissions through a
-- cache. Services change the entities and make the caches follow; two hourly jobs reconcile them.
--
--   Failure      src/common/exceptions, src/common/filters: what is thrown, and the response to it
--   Exec         asynchronous code as functions on a state of Redis, database, clock and request
--                user; a schedule says which calls are answered, refused, or take effect while
--                their answer is lost, so that every theorem without `calm` holds for all failures
--   Redis        src/common/redis/redis.service.ts: the server as an interface with laws
--   Jwt          src/services/jwt/jwt.service.ts
--   Sessions     src/services/sessions/sessions.service.ts
--   Permissions  src/services/permissions: the lookup that the other services call, and the service
--   Rules        src/services/endpoint-permission-rules, src/cron/epr-cache-reconciliation.service.ts
--   ApiKeys      src/services/api-keys, src/cron/api-keys-cache-reconciliation.service.ts
--   Http         src/common/utils: headers, client addresses and subnets, on the characters
--   Guards       src/common/guards
--   Users        src/services/users/users.service.ts, src/entities/user.entity.ts; Users.Cookies has
--                the handlers of users.controller.ts that set or clear cookies, with
--                src/common/utils/cookie-options.util.ts and src/common/utils/get-ttl.util.ts
--   Roles        src/services/roles/roles.service.ts
--   Outbox       src/entities/outbox.entity.ts, src/cron/outbox-publisher.service.ts,
--                src/cron/outbox-cleanup.service.ts
--   Recording    src/cron/outbox-subscriber.service.ts: the events that changes leave
--   Validation   src/common/utils/find-errors-data.util.ts, and the exception factory of src/main.ts
--   Validators   src/common/validators, and the bodies of the requests on roles
--   Pagination   src/interfaces/DTO/pagination.dto.ts, and `findAll` of the services
--   SeedData, Seed   src/database/seed/seed.data.ts, src/database/seed/seed.service.ts
--   Routes       the controllers: each route with its guard and endpoint key
--   Tests        concrete instances of the interfaces, and the theorems at concrete inputs
--
-- An operation of a service is a function of the same name (`getPermissionsForEndpoint` is
-- `get_permissions_for_endpoint`). A part of it that runs behind a query is a function of its own.
-- A MULTI is one call. The seeding's transaction has its start, COMMIT and ROLLBACK as calls, so
-- that a COMMIT can take effect and lose its answer; that of a registration ends with its body.
-- Loops are recursion over the lists they walk; the cleanup's loop runs on fuel, and more fuel than
-- there are sent rows is enough; the search through validation errors has fuel for each error,
-- which is enough, and the outbox's recursion ends in two rounds.
-- The ORM's tables, the token library, bcrypt, the keyed hash, the mail client, the random ids, the
-- environment, the browser and the decorator's metadata are parameters; the laws asked of them are
-- documented at the interfaces.
--
-- Not modelled: the handlers that only pass their arguments on, dependency injection, e-mail,
-- configuration, metrics, logs and the documentation decorators, which are I/O or wiring of the
-- framework. The listings of details (ids with names) and the ids in messages are left out.
mod Prelude
pub mod Failure
pub mod Exec
pub mod Redis
pub mod Jwt
pub mod Sessions
pub mod Permissions
pub mod Rules
pub mod ApiKeys
pub mod Http
pub mod Guards
pub mod Users
pub mod Outbox
pub mod Roles
pub mod Validation
pub mod Validators
pub mod SeedData
pub mod Seed
pub mod Routes
pub mod Recording
pub mod Pagination
mod Tests
