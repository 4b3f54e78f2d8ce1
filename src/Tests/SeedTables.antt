-- ===== src/Tests/SeedTables.antt =====
-- A database of functions and lists for the seeding, with the laws of its interfaces.
use auth_microservice.Prelude.{
  String, ◌≡◌, refl, sym, subst, inl, inr, Bool, false, not, ◌&&◌, Option, none, some, List, [],
  arith, ◌==◌, eq_iff, if◌then◌else◌, Option-cases, includes,
}
use auth_microservice.Permissions.{Permission, PermissionTable}
use auth_microservice.Rules.{Rule, unless_id, RuleTable}
use auth_microservice.Users.{Role, User}
use auth_microservice.ApiKeys.{ApiKeyTable}

pub record SeedDb : Type 0 where
  pub rule_of : String → Option (Bool × List Permission)
  pub codes : List String
  pub role : Option Role
  pub user : Option User

abbrev pub make_rule : String → Option (Bool × List Permission) → Option Rule
make_rule k none = none
make_rule k (some (on, ps)) =
    if k == ""
    then none
    else some (record { id = k; endpoint_key_name = k; enabled = on; permissions = ps })

abbrev pub rule_of_key : String → SeedDb → Option Rule
rule_of_key k b = make_rule k (b.rule_of k)

abbrev pub save_rule : Rule → SeedDb → Option SeedDb
save_rule r b =
    if (r.id == r.endpoint_key_name) && not (r.id == "")
    then some (record b {
      rule_of = λ k. if r.id == k then some (r.enabled, r.permissions) else b.rule_of k;
    })
    else none

abbrev remove_rule : Rule → SeedDb → SeedDb
remove_rule r b = record b { rule_of = λ k. if k == r.id then none else b.rule_of k }

pub rule_of_key-eq-some :
    (k : String) (r : Rule) (b : SeedDb)
    → rule_of_key k b ≡ some r
    → (r.endpoint_key_name ≡ k) × (r.id ≡ k)
rule_of_key-eq-some k r b h = elim (Option-cases (b.rule_of k)) [
  | inl e ↦ absurd (ground (arith, h, e))
  | inr ((on, ps), e) ↦ ground (arith, h, e)
]

pub rule_of_key-empty : (b : SeedDb) → rule_of_key "" b ≡ none
rule_of_key-empty b = elim (Option-cases (b.rule_of "")) [
  | inl e ↦ ground (arith, e)
  | inr ((on, ps), e) ↦ ground (arith, e)
]

pub rule_of_key-save :
    (r : Rule) (k : String) (b b' : SeedDb)
    → save_rule r b ≡ some b'
    → rule_of_key k b'
      ≡ (if r.endpoint_key_name == k then some r else unless_id r.id (rule_of_key k b))
rule_of_key-save r k b b' h = elim (Option-cases (b.rule_of k)) [
  | inl e ↦ ground (
    arith,
    h,
    e,
    eq_iff r.id r.endpoint_key_name,
    eq_iff r.id k,
    eq_iff r.id "",
    eq_iff k "",
    eq_iff k r.id,
  )
  | inr ((on, ps), e) ↦ ground (
    arith,
    h,
    e,
    eq_iff r.id r.endpoint_key_name,
    eq_iff r.id k,
    eq_iff r.id "",
    eq_iff k "",
    eq_iff k r.id,
  )
]

pub rule_of_key-remove :
    (r : Rule) (k : String) (b : SeedDb)
    → rule_of_key k (remove_rule r b) ≡ unless_id r.id (rule_of_key k b)
rule_of_key-remove r k b = elim (Option-cases (b.rule_of k)) [
  | inl e ↦ ground (arith, e)
  | inr ((on, ps), e) ↦ ground (arith, e)
]

abbrev pub seed_db_rules : RuleTable SeedDb
seed_db_rules = record {
  find_one_by_id = rule_of_key;
  find_by_endpoint_key = rule_of_key;
  find_all_enabled = λ b. [];
  new_id = λ b. "";
  save = save_rule;
  remove = remove_rule;
  by_key = λ k r b h.
      let (e, i) = rule_of_key-eq-some k r b h in
      (e, subst (λ j. rule_of_key j b ≡ some r) (sym i) h);
  by_id = λ k r b h.
      let (e, i) = rule_of_key-eq-some k r b h in
      (i, subst (λ j. rule_of_key j b ≡ some r) (sym e) h);
  new_id-fresh = rule_of_key-empty;
  all_enabled = λ r b m. absurd m;
  key-save = rule_of_key-save;
  key-remove = rule_of_key-remove;
}

abbrev pub permission_of : String → Permission
permission_of c = record { id = c; code = c }

abbrev pub seeded_permission : String → List String → Option Permission
seeded_permission c cs = if includes cs c then some (permission_of c) else none

abbrev pub seed_db_permissions : PermissionTable SeedDb
seed_db_permissions = record { find_one_by_id = λ i b. seeded_permission i b.codes }

pub none-ne-some : {A C : Type 0} (a : A) → none ≡ some a → C
none-ne-some a h = absurd (ground (arith, h))

pub none_among : (fs : List String) (f : String) → false ≡ (includes fs f && false)
none_among fs f = ground arith

-- No API keys.
abbrev pub seed_db_keys : ApiKeyTable SeedDb
seed_db_keys = record {
  find_one_by_id = λ i b. none;
  row_by_fingerprint = λ f b. none;
  find_all_active = λ b. [];
  active_among = λ fs b. [];
  new_id = λ b. "k1";
  save = λ k b. none;
  by_fingerprint = λ f k b h. none-ne-some k h;
  by_id = λ i k b h. none-ne-some k h;
  new_id-fresh = λ b. refl;
  all_active = λ k b m. absurd m;
  among = λ fs f b. none_among fs f;
  save-unique = λ k k' b b' h e. none-ne-some b' h;
  fingerprint-save = λ k f b b' h. none-ne-some b' h;
}
