-- ===== src/Tests/SeedManagers.antt =====
-- The roles and users of the database of the seeding, and its entity manager.
use auth_microservice.Prelude.{
  String, ◌≡◌, refl, sym, ap, subst, inl, inr, Bool, true, Option, none, some, List, [], ◌∷◌, map,
  arith, ◌==◌, eq_iff, eq_refl, if◌then◌else◌, Bool-cases, In, includes,
}
use auth_microservice.Permissions.{Permission}
use auth_microservice.Rules.{Rule}
use auth_microservice.Users.{Role, User, UserTable}
use auth_microservice.Tests.Worlds.{
  user_by_id, user_by_email, put_user, user_by_email-eq-some, user_by_id-eq-some,
}
use auth_microservice.Guards.Endpoints.{In-includes}
use auth_microservice.Seed.{SeedManager}
use auth_microservice.Tests.SeedTables.{
  save_rule, SeedDb, make_rule, rule_of_key, seed_db_rules, permission_of, seeded_permission,
}

abbrev role_called : String → Option Role → Option Role
role_called n none = none
role_called n (some r) = if r.name == n then some r else none

abbrev upsert_role_row : String → Bool → Option Role → Option Role
upsert_role_row n x none =
    some (record { id = "role1"; name = n; is_restricted = x; permissions = [] })
upsert_role_row n x (some r) = if r.name == n then some (record r { is_restricted = x }) else none

abbrev with_role : SeedDb → Option Role → Option SeedDb
with_role b none = none
with_role b (some r) = some (record b { role = some r })

abbrev roles_called : List String → Option Role → List Role
roles_called ns none = []
roles_called ns (some r) = if includes ns r.name then r ∷ [] else []

abbrev with_user : SeedDb → Option (Option User) → Option SeedDb
with_user b none = none
with_user b (some u) = some (record b { user = u })

pub saved_user :
    (u : User) (i : String) (o : Option User) (b b' : SeedDb)
    → b.user ≡ o
    → with_user b (put_user u o) ≡ some b'
    → (user_by_id i b'.user ≡ (if u.id == i then some u else user_by_id i o))
      × (b'.rule_of ≡ b.rule_of)
      × (b'.role ≡ b.role)
saved_user u i none b b' e h = ground arith
saved_user u i (some old) b b' e h = ground (arith, eq_iff u.id old.id, eq_iff old.id i)

abbrev pub seed_db_users : UserTable SeedDb
seed_db_users = record {
  find_role = λ i b. none;
  find_one_by_id = λ i b. user_by_id i b.user;
  find_one_by_email = λ e b. user_by_email e b.user;
  new_id = λ b. "u1";
  save = λ u b. with_user b (put_user u b.user);
  by_email = λ e u b. user_by_email-eq-some e u b.user;
  by_id = λ i u b. user_by_id-eq-some i u b.user;
  id-save = λ u i b b' h. (saved_user u i b.user b b' refl h).0;
}

pub listed_permission :
    (cs : List String) (c : String) (p : Permission)
    → seeded_permission c cs ≡ some p
    → (p.code ≡ c) × In p (map permission_of cs)
listed_permission [] c p h = absurd (ground (arith, h))
listed_permission (d ∷ cs) c p h = elim (Bool-cases (d == c)) [
  | inl e ↦ (ground (arith, h, e), inl (ground (arith, h, e, eq_iff d c)))
  | inr e ↦ let (code, m) = listed_permission cs c p (ground (arith, h, e)) in (code, inr m)
]

pub named_role :
    (n : String) (ns : List String) (r : Role) (o : Option Role)
    → role_called n o ≡ some r
    → In n ns
    → In r (roles_called ns o)
named_role n ns r none h m = absurd (ground (arith, h))
named_role n ns r (some q) h m =
    let called : q.name ≡ n = ground (arith, h, eq_iff q.name n) in
    let row : q ≡ r = ground (arith, h) in
    let found : includes ns q.name ≡ true =
      subst (λ y. includes ns y ≡ true) (sym called) (In-includes ns n m) in
    rw found (inl row)

pub upserted_role :
    (n : String) (x : Bool) (o : Option Role) (b b' : SeedDb)
    → with_role b (upsert_role_row n x o) ≡ some b'
    → ((r : Role) × (role_called n b'.role ≡ some r) × (r.name ≡ n))
      × (b'.rule_of ≡ b.rule_of)
      × (b'.codes ≡ b.codes)
upserted_role n x none b b' h = (
  (
    record { id = "role1"; name = n; is_restricted = x; permissions = [] },
    ground (arith, h, eq_refl n),
    refl,
  ),
  ground (arith, h),
  ground (arith, h),
)
upserted_role n x (some r) b b' h = (
  (
    record r { is_restricted = x },
    ground (arith, h, eq_iff r.name n),
    ground (arith, h, eq_iff r.name n),
  ),
  ground (arith, h),
  ground (arith, h),
)

abbrev old_permissions : Option (Bool × List Permission) → List Permission
old_permissions none = []
old_permissions (some (on, ps)) = ps

abbrev upsert_rule_row : String → Bool → SeedDb → Option SeedDb
upsert_rule_row key x b =
    if key == ""
    then none
    else some (record b {
      rule_of = λ k. if key == k then some (x, old_permissions (b.rule_of key)) else b.rule_of k;
    })

pub upserted_rule :
    (key : String) (x : Bool) (b b' : SeedDb)
    → upsert_rule_row key x b ≡ some b'
    → (r : Rule) × (r.enabled ≡ x)
      × ((k : String) → rule_of_key k b' ≡ (if key == k then some r else rule_of_key k b))
upserted_rule key x b b' h = (
  record {
    id = key;
    endpoint_key_name = key;
    enabled = x;
    permissions = old_permissions (b.rule_of key);
  },
  refl,
  λ k. ground (arith, h, eq_iff key k, eq_iff key "", eq_iff k ""),
)

pub rule_codes_kept :
    (key : String) (x : Bool) (b b' : SeedDb)
    → upsert_rule_row key x b ≡ some b'
    → b'.codes ≡ b.codes
rule_codes_kept key x b b' h = ground (arith, h)

pub save_codes_kept : (r : Rule) (b b' : SeedDb) → save_rule r b ≡ some b' → b'.codes ≡ b.codes
save_codes_kept r b b' h = ground (arith, h)

abbrev role_saved : Role → SeedDb → SeedDb
role_saved r b = record b { role = some r }

pub role_called_self : (r : Role) → role_called r.name (some r) ≡ some r
role_called_self r = ground (arith, eq_refl r.name)

pub some-eq : {A : Type 0} (a b : A) → some a ≡ some b → a ≡ b
some-eq a b h = ground (arith, h)

abbrev code_added : String → SeedDb → SeedDb
code_added c b = record b { codes = c ∷ b.codes }

pub code_added_lem :
    (c k : String) (cs : List String)
    → seeded_permission k (c ∷ cs)
      ≡ (if c == k then some (permission_of k) else seeded_permission k cs)
code_added_lem c k cs = ground arith

abbrev pub seed_manager : SeedManager seed_db_rules seed_db_users
seed_manager = record {
  permission_by_code = λ c b. seeded_permission c b.codes;
  all_permissions = λ b. map permission_of b.codes;
  permissions_with = λ cs b. map permission_of cs;
  upsert_permission = λ c b. some (code_added c b);
  upsert_rule = upsert_rule_row;
  role_by_name = λ n b. role_called n b.role;
  roles_with = λ ns b. roles_called ns b.role;
  upsert_role = λ n x b. with_role b (upsert_role_row n x b.role);
  save_role = λ r b. some (role_saved r b);
  by_code = λ c p b h. listed_permission b.codes c p h;
  code-upsert = λ c k b b' h. (
    permission_of k,
    subst
        (λ y.
          seeded_permission k y.codes
          ≡ (if c == k then some (permission_of k) else seeded_permission k b.codes))
        (some-eq (code_added c b) b' h) (code_added_lem c k b.codes),
  );
  key-upsert = upserted_rule;
  name-upsert = λ n x b b' h. (upserted_role n x b.role b b' h).0;
  name-save = λ r b b' h.
      subst (λ y. role_called r.name y.role ≡ some r) (some-eq (role_saved r b) b' h)
        (role_called_self r);
  named = λ n ns r b h m. named_role n ns r b.role h m;
  rules-upsert_permission =
      λ c k b b' h. ap (λ y. rule_of_key k y) (sym (some-eq (code_added c b) b' h));
  codes-upsert_rule = λ key x c b b' h. ap (seeded_permission c) (rule_codes_kept key x b b' h);
  codes-save_rule = λ r c b b' h. ap (seeded_permission c) (save_codes_kept r b b' h);
  rules-upsert_role =
      λ n x k b b' h. ap (λ f. make_rule k (f k)) (upserted_role n x b.role b b' h).1;
  codes-upsert_role = λ n x c b b' h. ap (seeded_permission c) (upserted_role n x b.role b b' h).2;
  rules-save_role = λ r k b b' h. ap (λ y. rule_of_key k y) (sym (some-eq (role_saved r b) b' h));
  rules-save_user =
      λ u k b b' h. ap (λ f. make_rule k (f k)) (saved_user u u.id b.user b b' refl h).1;
  roles-save_user = λ u n b b' h. ap (role_called n) (saved_user u u.id b.user b b' refl h).2;
}
