-- ===== src/Routes/Keys.antt =====
-- The keys that the controllers declare, and the rules of the seed data for them.
use auth_microservice.Prelude.{
  String, ◌≡◌, refl, subst, inl, inr, Bool, true, false, not, ◌&&◌, Option, none, some, List, [],
  ◌∷◌, arith, ◌==◌, if◌then◌else◌, truthy, In, includes,
}
use auth_microservice.SeedData.{SeedRule, seed_rules}
use auth_microservice.Seed.Steps.{All, keys_of}
use auth_microservice.Routes.{
  Protection, Route, all_routes, unguarded, by_auth, by_api_key, by_microservice,
}

abbrev pub unseeded_keys : List String
unseeded_keys = "api-key.update" ∷ "api-key.activate" ∷ []

abbrev pub is_unseeded : Option String → Bool
is_unseeded none = false
is_unseeded (some k) = includes unseeded_keys k

abbrev is_by_auth : Protection → Bool
is_by_auth by_auth = true
is_by_auth _ = false

-- A key is not empty, and is seeded or one of the two, not both; these two stand behind `AuthGuard`.
abbrev pub key_checked : Protection → Option String → Bool
key_checked g none = true
key_checked g (some k) =
    not (k == "")
    && (if includes unseeded_keys k
        then is_by_auth g && not (includes (keys_of seed_rules) k)
        else includes (keys_of seed_rules) k)

abbrev routes_checked : List Route → Bool
routes_checked [] = true
routes_checked (r ∷ rs) = key_checked r.guard r.endpoint_key && routes_checked rs

pub all_routes_checked : routes_checked all_routes ≡ true
all_routes_checked = refl

and_parts : (a b : Bool) → (a && b) ≡ true → (a ≡ true) × (b ≡ true)
and_parts a b h = ground arith

pub routes_checked-In :
    (rs : List Route) (r : Route)
    → routes_checked rs ≡ true
    → In r rs
    → key_checked r.guard r.endpoint_key ≡ true
routes_checked-In [] r h m = absurd m
routes_checked-In (x ∷ rs) r h (inl e) =
    subst (λ (y : Route). key_checked y.guard y.endpoint_key ≡ true) e
      (and_parts (key_checked x.guard x.endpoint_key) (routes_checked rs) h).0
routes_checked-In (x ∷ rs) r h (inr m) =
    routes_checked-In rs r (and_parts (key_checked x.guard x.endpoint_key) (routes_checked rs) h).1
      m

-- What the check says of a key.
pub seeded_key :
    (g : Protection) (k : String)
    → key_checked g (some k) ≡ true
    → includes unseeded_keys k ≡ false
    → (truthy (some k) ≡ some k) × (includes (keys_of seed_rules) k ≡ true)
seeded_key g k h u =
    let (full, rest) = and_parts (not (k == "")) _ h in
    (
      ground (arith, full),
      subst
          (λ b.
            (if b
              then is_by_auth g && not (includes (keys_of seed_rules) k)
              else includes (keys_of seed_rules) k)
            ≡ true)
          u rest,
    )

pub unseeded_key :
    (g : Protection) (k : String)
    → key_checked g (some k) ≡ true
    → includes unseeded_keys k ≡ true
    → (truthy (some k) ≡ some k) × (g ≡ by_auth) × (includes (keys_of seed_rules) k ≡ false)
unseeded_key g k h u =
    let (full, rest) = and_parts (not (k == "")) _ h in
    let (auth_only, missing) = and_parts (is_by_auth g) (not (includes (keys_of seed_rules) k)) (
      subst
        (λ b.
          (if b
            then is_by_auth g && not (includes (keys_of seed_rules) k)
            else includes (keys_of seed_rules) k)
          ≡ true)
        u rest) in
    (
      ground (arith, full),
      only_auth g auth_only,
      not_false (includes (keys_of seed_rules) k) missing,
    )
  where
    only_auth : (g : Protection) → is_by_auth g ≡ true → g ≡ by_auth
    only_auth unguarded h = absurd (ground arith)
    only_auth by_auth h = refl
    only_auth by_api_key h = absurd (ground arith)
    only_auth by_microservice h = absurd (ground arith)

    not_false : (b : Bool) → not b ≡ true → b ≡ false
    not_false b h = ground arith

all_enabled : (es : List SeedRule) → Bool
all_enabled [] = true
all_enabled (e ∷ es) = e.enabled && all_enabled es

all_enabled-All :
    (es : List SeedRule) → all_enabled es ≡ true → All (λ (e : SeedRule). e.enabled ≡ true) es
unfolding all_enabled
all_enabled-All [] h = tt
all_enabled-All (e ∷ es) h =
    let (on, more) = and_parts e.enabled (all_enabled es) h in (on, all_enabled-All es more)

pub seed_rules-All : All (λ (e : SeedRule). e.enabled ≡ true) seed_rules
unfolding all_enabled
seed_rules-All = all_enabled-All seed_rules refl

pub All-In_self : {A : Type 0} {P : A → Type 0} (xs : List A) → ((x : A) → In x xs → P x) → All P xs
All-In_self [] f = tt
All-In_self (x ∷ xs) f = (f x (inl refl), All-In_self xs (λ y m. f y (inr m)))
