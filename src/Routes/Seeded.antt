-- ===== src/Routes/Seeded.antt =====
-- The routes of a database that has just been seeded.
use auth_microservice.Prelude.{
  String, ◌≡◌, refl, sym, subst, ◌∙◌, ◌≢◌, inl, inr, Bool, true, false, Option, none, some, List,
  [], ◌∷◌, arith, ◌==◌, eq_iff, Bool-cases, Option-cases, truthy, In, includes,
}
use auth_microservice.Redis.{Session, Redis, found}
use auth_microservice.Rules.{RuleTable}
use auth_microservice.Rules.Reading.{required, Coherent}
use auth_microservice.Guards.Endpoints.{Permits}
use auth_microservice.Users.{UserTable, Bcrypt}
use auth_microservice.Seed.{SeedManager, run}
use auth_microservice.SeedData.{SeedRule, seed_permissions, seed_rules}
use auth_microservice.Seed.Steps.{All, keys_of}
use auth_microservice.Seed.Rules.{IsAssigned}
use auth_microservice.Http.{Request}
use auth_microservice.Routes.{
  calm, auth_guard, ok, World, JwtConfig, PermissionTable, ApiKeyTable, Route, all_routes,
  guard_request, enter, by_auth,
}
use auth_microservice.Seed.Coverage.{
  seed_codes_listed, includes→In, rules_coded, Seeded, run-Seeded,
}
use auth_microservice.Guards.Granting.{Admitted, auth_guard-Admitted, Admitted-auth_guard}
use auth_microservice.Routes.Keys.{
  unseeded_keys, is_unseeded, key_checked, all_routes_checked, routes_checked-In, seeded_key,
  unseeded_key, seed_rules-All, All-In_self,
}

module _ {B : Type 0} {T : RuleTable B} {U : UserTable B} (M : SeedManager T U) where
  assigned-Permits :
      (es : List SeedRule) (k : String) (b : B) (held : List String)
      → includes (keys_of es) k ≡ true
      → All (λ (e : SeedRule). e.enabled ≡ true) es
      → All (IsAssigned M b) es
      → All (λ (e : SeedRule). In e.permission_code held) es
      → Permits T b held (some k)
  assigned-Permits [] k b held m on a g = absurd (ground arith)
  assigned-Permits (e ∷ es) k b held m (o, on) ((r, found, enabled, asks), a) (here, g) =
      elim (Bool-cases (e.endpoint_key_name == k)) [
        | inl same ↦
            let key : e.endpoint_key_name ≡ k = (eq_iff e.endpoint_key_name k).0 same in
            (
              e.permission_code ∷ [],
              subst (λ y. required (T.find_by_endpoint_key y b) ≡ some (e.permission_code ∷ [])) key
                  (ground (arith, found, enabled, o, asks)),
              inr (e.permission_code, inl refl, here),
            )
        | inr other ↦ assigned-Permits es k b held (ground (arith, m, other)) on a g
      ]

module _ (R : Redis) {B : Type 0} (T : RuleTable B) (U : UserTable B) (M : SeedManager T U)
    (h : Bcrypt) (salt : String) (K : ApiKeyTable B) (P : PermissionTable B)
    (compute_hmac : String → String) (c : JwtConfig) where
  -- A session that holds the code of each seeded permission.
  abbrev pub HoldsSeeded : Session → Type 0
  HoldsSeeded x = (code : String) → In code seed_permissions → In code x.permissions

  Seeded-of_ok :
      (v w : World R.Store B)
      → (run M h salt v).0 ≡ ok tt
      → w.db ≡ (run M h salt v).1.db
      → Seeded M h salt v.db w.db
  Seeded-of_ok v w done same = elim (run-Seeded M h salt v) [
    | inl (_, s) ↦ subst (λ b. Seeded M h salt v.db b) (sym same) s
    | inr (e, failed, _) ↦ absurd (ground (arith, failed, done))
  ]

  Seeded-Permits :
      (v w : World R.Store B) (k : String) (x : Session)
      → Seeded M h salt v.db w.db
      → includes (keys_of seed_rules) k ≡ true
      → HoldsSeeded x
      → Permits T w.db x.permissions (some k)
  Seeded-Permits v w k x s listed holds =
      assigned-Permits M seed_rules k w.db x.permissions listed seed_rules-All s.assigned (
        rules_coded (λ c. In c x.permissions) seed_permissions seed_rules seed_codes_listed
          (All-In_self seed_permissions holds))

  Admitted-with_key :
      (w : World R.Store B) (k : Option String) (request : Request) (sid : String) (x : Session)
      → Permits T w.db x.permissions (truthy k)
      → Admitted R T c none request w sid x
      → Admitted R T c k request w sid x
  Admitted-with_key w k request sid x permits a = record {
    token = a.token;
    given = a.given;
    not_empty = a.not_empty;
    payload = a.payload;
    accepted = a.accepted;
    named = a.named;
    held = a.held;
    subnet = a.subnet;
    permitted = permits;
  }

  -- After a run of the seeding that succeeded, while the database is as that run left it, the
  -- cache of the rules is coherent with it (its entries are those of enabled rules of the
  -- database) and Redis and the database answer, a session that is admitted where no permission is
  -- asked for and holds every seeded permission gets through every route behind `AuthGuard`,
  -- except those with one of the two keys that have no seeded rule.
  pub enter-seeded :
      (v w : World R.Store B) (r : Route) (request : Request) (sid : String) (x : Session)
      → (run M h salt v).0 ≡ ok tt
      → w.db ≡ (run M h salt v).1.db
      → Coherent R T w.redis w.db
      → In r all_routes
      → r.guard ≡ by_auth
      → is_unseeded r.endpoint_key ≡ false
      → Admitted R T c none request w sid x
      → HoldsSeeded x
      → (enter R T K P compute_hmac c r request (calm w)).0 ≡ ok true
  unfolding enter guard_request
  enter-seeded v w r request sid x done same co listed guarded seeded admitted holds =
      rw guarded (elim (Option-cases r.endpoint_key) [
        | inl e ↦ rw e (Admitted-auth_guard R T c none request w sid x co admitted)
        | inr (k, e) ↦
            let checked : key_checked r.guard (some k) ≡ true =
              subst (λ o. key_checked r.guard o ≡ true) e
                (routes_checked-In all_routes r all_routes_checked listed) in
            let (full, is_seeded) =
              seeded_key r.guard k checked (subst (λ o. is_unseeded o ≡ false) e seeded) in
            rw e (
              Admitted-auth_guard R T c (some k) request w sid x co (
                Admitted-with_key w (some k) request sid x
                  (rw full (Seeded-Permits v w k x (Seeded-of_ok v w done same) is_seeded holds))
                  admitted))
      ])

  -- After a run of the seeding that succeeded on a database without rules for the two keys that
  -- have no seeded rule, while the database is as that run left it and the cache of the rules is
  -- coherent with it (its entries are those of enabled rules of the database), no request gets
  -- through the routes with these two keys, whoever sends it and whatever calls fail.
  pub enter-unseeded :
      (v w w' : World R.Store B) (r : Route) (request : Request) (b : Bool)
      → (run M h salt v).0 ≡ ok tt
      → w.db ≡ (run M h salt v).1.db
      → ((k : String) → In k unseeded_keys → T.find_by_endpoint_key k v.db ≡ none)
      → Coherent R T w.redis w.db
      → In r all_routes
      → is_unseeded r.endpoint_key ≡ true
      → enter R T K P compute_hmac c r request w ≢ (ok b, w')
  unfolding enter guard_request
  enter-unseeded v w w' r request b done same none_before co listed unseeded got =
      elim (Option-cases r.endpoint_key) [
        | inl e ↦ absurd (ground (arith, subst (λ o. is_unseeded o ≡ true) e unseeded))
        | inr (k, e) ↦
            let here : includes unseeded_keys k ≡ true =
              subst (λ o. is_unseeded o ≡ true) e unseeded in
            let checked : key_checked r.guard (some k) ≡ true =
              subst (λ o. key_checked r.guard o ≡ true) e
                (routes_checked-In all_routes r all_routes_checked listed) in
            let (full, auth_only, missing) = unseeded_key r.guard k checked here in
            let passed : auth_guard R T c (some k) request w ≡ (ok b, w') =
              subst (λ o. auth_guard R T c o request w ≡ (ok b, w')) e
                (subst
                  (λ g.
                    guard_request R T K P compute_hmac c g r.endpoint_key request w ≡ (ok b, w'))
                  auth_only got) in
            let (sid, x, a, _, _) = auth_guard-Admitted R T c (some k) request w w' b co passed in
            let (wanted, asks, _) = subst (λ o. Permits T w.db x.permissions o) full a.permitted in
            let gone : T.find_by_endpoint_key k w.db ≡ none =
              (Seeded-of_ok v w done same).others k missing
              ∙ none_before k (includes→In unseeded_keys k here) in
            absurd (ground (arith, asks, gone))
      ]
