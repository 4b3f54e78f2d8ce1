-- ===== src/Users/Described.antt =====
-- What a user's session is to contain, apart from how the service builds it.
use auth_microservice.Prelude.{
  ℕ, String, ◌≡◌, refl, ◌↔◌, ◌⊎◌, inl, inr, true, List, [], ◌∷◌, ◌++◌, map, truthy, get_or, In,
}
use auth_microservice.Redis.{Session}
use auth_microservice.Http.{Request, get_client_ip}
use auth_microservice.Permissions.{Permission}
use auth_microservice.Users.{Role, User, role_codes, Services}

-- A permission of one of the roles has the code.
abbrev pub GrantsCode : String → List Role → Type 0
GrantsCode c rs = (r : Role) × In r rs × (p : Permission) × In p r.permissions × (p.code ≡ c)

In-append : {A : Type 0} (a : A) (xs ys : List A) → In a (xs ++ ys) ↔ (In a xs ⊎ In a ys)
In-append a [] ys = (inr, λ i. elim i [ inl none_in ↦ absurd none_in | inr j ↦ j ])
In-append a (x ∷ xs) ys = (
  λ i. elim i [
    | inl e ↦ inl (inl e)
    | inr j ↦ elim ((In-append a xs ys).0 j) [ inl k ↦ inl (inr k) | inr k ↦ inr k ]
  ],
  λ i. elim i [
    | inl (inl e) ↦ inl e
    | inl (inr j) ↦ inr ((In-append a xs ys).1 (inl j))
    | inr j ↦ inr ((In-append a xs ys).1 (inr j))
  ],
)

In-codes :
    (c : String) (ps : List Permission)
    → In c (map (λ (p : Permission). p.code) ps) ↔ ((p : Permission) × In p ps × (p.code ≡ c))
In-codes c [] = (λ i. absurd i, λ (p, i, e). absurd i)
In-codes c (q ∷ ps) = (
  λ i. elim i [
    | inl e ↦ (q, inl refl, e)
    | inr j ↦ let (p, k, e) = (In-codes c ps).0 j in (p, inr k, e)
  ],
  λ (p, i, e). elim i [ inl is ↦ inl (rw is e) | inr j ↦ inr ((In-codes c ps).1 (p, j, e)) ],
)

-- The codes that a user's session is given are those that the roles grant.
pub role_codes-GrantsCode : (c : String) (rs : List Role) → In c (role_codes rs) ↔ GrantsCode c rs
role_codes-GrantsCode c [] = (λ i. absurd i, λ (r, i, p, l, e). absurd i)
role_codes-GrantsCode c (s ∷ rs) = (
  λ i. elim ((In-append c (map (λ (p : Permission). p.code) s.permissions) (role_codes rs)).0 i) [
    | inl j ↦ let (p, k, e) = (In-codes c s.permissions).0 j in (s, inl refl, p, k, e)
    | inr j ↦ let (r, k, p, l, e) = (role_codes-GrantsCode c rs).0 j in (r, inr k, p, l, e)
  ],
  λ (r, i, p, l, e).
      (In-append c (map (λ (p : Permission). p.code) s.permissions) (role_codes rs)).1 (elim i [
        | inl is ↦ inl ((In-codes c s.permissions).1 (p, rw is l, e))
        | inr j ↦ inr ((role_codes-GrantsCode c rs).1 (r, j, p, l, e))
      ]),
)

-- The session of a user who logged in with the request at `created`, and whose permissions were
-- last set at `refreshed`, to those of the given roles.
abbrev pub described :
    {B : Type 0} → Services B → User → List Role → Request → (created refreshed : ℕ) → Session
described V u roles request created refreshed = record {
  user_id = u.id;
  person_id = u.person_id;
  email = u.email;
  permissions = role_codes roles;
  active = true;
  ip = get_client_ip request;
  user_agent = get_or (truthy request.user_agent) "unknown";
  device = V.device_of (get_or (truthy request.user_agent) "unknown");
  created_at = created;
  last_refresh_at = refreshed;
}
