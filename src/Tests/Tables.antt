-- ===== src/Tests/Tables.antt =====
-- Tables of at most one row, with the laws of the interfaces.
use auth_microservice.Prelude.{
  String, ◌≡◌, refl, subst, inl, inr, Bool, true, false, ◌&&◌, Option, none, some, List, [], ◌∷◌,
  arith, ◌==◌, eq_iff, eq_refl, if◌then◌else◌, Bool-cases, In, includes,
}
use auth_microservice.Permissions.{PermissionTable}
use auth_microservice.Rules.{Rule, unless_id, RuleTable}
use auth_microservice.ApiKeys.{ApiKey, unless_key, is_live, ApiKeyTable}
use auth_microservice.Users.{User}

pub record Db : Type 0 where
  pub rule : Option Rule
  pub key : Option ApiKey
  pub user : Option User

abbrev pub permissions : PermissionTable Db
permissions = record {
  find_one_by_id = λ id b. if id == "p1" then some (record { id = "p1"; code = "READ" }) else none;
}

abbrev rule_at : String → Option Rule → Option Rule
rule_at k none = none
rule_at k (some r) = if r.endpoint_key_name == k then some r else none

abbrev rule_by_id : String → Option Rule → Option Rule
rule_by_id i none = none
rule_by_id i (some r) = if r.id == i then some r else none

abbrev enabled_rules : Option Rule → List Rule
enabled_rules none = []
enabled_rules (some r) = if r.enabled then r ∷ [] else []

abbrev other_id : Bool → String
other_id true = "r2"
other_id false = "r1"

abbrev fresh_rule : Option Rule → String
fresh_rule none = "r1"
fresh_rule (some r) = other_id (r.id == "r1")

-- A second row is refused.
abbrev put_rule : Rule → Option Rule → Option (Option Rule)
put_rule r none = some (some r)
put_rule r (some old) = if r.id == old.id then some (some r) else none

abbrev save_in : Db → Option (Option Rule) → Option Db
save_in b none = none
save_in b (some o) = some (record b { rule = o })

abbrev drop_rule : Rule → Option Rule → Option Rule
drop_rule r none = none
drop_rule r (some old) = if old.id == r.id then none else some old

pub at-put_rule :
    (r : Rule) (k : String) (o : Option Rule) (b b' : Db)
    → b.rule ≡ o
    → save_in b (put_rule r o) ≡ some b'
    → rule_at k b'.rule
      ≡ (if r.endpoint_key_name == k then some r else unless_id r.id (rule_at k o))
at-put_rule r k none b b' e h = ground arith
at-put_rule r k (some old) b b' e h = ground (arith, eq_iff r.id old.id, eq_iff old.id r.id)

pub at-drop_rule :
    (r : Rule) (k : String) (o : Option Rule)
    → rule_at k (drop_rule r o) ≡ unless_id r.id (rule_at k o)
at-drop_rule r k none = refl
at-drop_rule r k (some old) = ground arith

pub rule_at-eq-some :
    (k : String) (r : Rule) (o : Option Rule)
    → rule_at k o ≡ some r
    → (r.endpoint_key_name ≡ k) × (rule_by_id r.id o ≡ some r)
rule_at-eq-some k r none h = absurd (ground arith)
rule_at-eq-some k r (some old) h = ground (arith, eq_iff old.endpoint_key_name k, eq_refl r.id)

pub rule_by_id-eq-some :
    (i : String) (r : Rule) (o : Option Rule)
    → rule_by_id i o ≡ some r
    → (r.id ≡ i) × (rule_at r.endpoint_key_name o ≡ some r)
rule_by_id-eq-some i r none h = absurd (ground arith)
rule_by_id-eq-some i r (some old) h = ground (arith, eq_iff old.id i, eq_refl r.endpoint_key_name)

pub fresh_rule-none : (o : Option Rule) → rule_by_id (fresh_rule o) o ≡ none
fresh_rule-none none = refl
fresh_rule-none (some r) = elim (Bool-cases (r.id == "r1")) [
  | inl e ↦ rw ((eq_iff r.id "r1").0 e) refl
  | inr e ↦ rw (e, e) refl
]

pub In-enabled_rules :
    (r : Rule) (o : Option Rule)
    → In r (enabled_rules o)
    → (rule_at r.endpoint_key_name o ≡ some r) × (r.enabled ≡ true)
In-enabled_rules r none m = absurd m
In-enabled_rules r (some old) m = elim (Bool-cases old.enabled) [
  | inl on ↦ only (subst (λ b. In r (if b then old ∷ [] else [])) on m)
  | inr off ↦ absurd (subst (λ b. In r (if b then old ∷ [] else [])) off m)
]
  where
    only : In r (old ∷ []) → (rule_at r.endpoint_key_name (some old) ≡ some r) × (r.enabled ≡ true)
    only (inl e) = rw (← e) (ground (arith, eq_refl old.endpoint_key_name))
    only (inr m) = absurd m

abbrev pub rules : RuleTable Db
rules = record {
  find_one_by_id = λ i b. rule_by_id i b.rule;
  find_by_endpoint_key = λ k b. rule_at k b.rule;
  find_all_enabled = λ b. enabled_rules b.rule;
  new_id = λ b. fresh_rule b.rule;
  save = λ r b. save_in b (put_rule r b.rule);
  remove = λ r b. record b { rule = drop_rule r b.rule };
  by_key = λ k r b. rule_at-eq-some k r b.rule;
  by_id = λ i r b. rule_by_id-eq-some i r b.rule;
  new_id-fresh = λ b. fresh_rule-none b.rule;
  all_enabled = λ r b. In-enabled_rules r b.rule;
  key-save = λ r k b b' h. at-put_rule r k b.rule b b' refl h;
  key-remove = λ r k b. at-drop_rule r k b.rule;
}

abbrev key_at : String → Option ApiKey → Option ApiKey
key_at f none = none
key_at f (some k) = if k.key_fingerprint == f then some k else none

abbrev key_by_id : String → Option ApiKey → Option ApiKey
key_by_id i none = none
key_by_id i (some k) = if k.id == i then some k else none

abbrev active_keys : Option ApiKey → List ApiKey
active_keys none = []
active_keys (some k) = if k.active then k ∷ [] else []

abbrev active_in : Option ApiKey → List String → List String
active_in o [] = []
active_in o (f ∷ fs) = let rest = active_in o fs in if is_live (key_at f o) then f ∷ rest else rest

abbrev fresh_key : Option ApiKey → String
fresh_key none = "r1"
fresh_key (some k) = other_id (k.id == "r1")

abbrev put_key : ApiKey → Option ApiKey → Option (Option ApiKey)
put_key k none = some (some k)
put_key k (some old) = if k.id == old.id then some (some k) else none

abbrev save_key_in : Db → Option (Option ApiKey) → Option Db
save_key_in b none = none
save_key_in b (some o) = some (record b { key = o })

pub at-put_key :
    (k : ApiKey) (f : String) (o : Option ApiKey) (b b' : Db)
    → save_key_in b (put_key k o) ≡ some b'
    → key_at f b'.key ≡ (if k.key_fingerprint == f then some k else unless_key k.id (key_at f o))
at-put_key k f none b b' h = ground arith
at-put_key k f (some old) b b' h = ground (arith, eq_iff k.id old.id, eq_iff old.id k.id)

pub put_key_unique :
    (k k' : ApiKey) (o : Option ApiKey) (b b' : Db)
    → save_key_in b (put_key k o) ≡ some b'
    → key_at k.key_fingerprint o ≡ some k'
    → k'.id ≡ k.id
put_key_unique k k' none b b' h e = absurd (ground arith)
put_key_unique k k' (some old) b b' h e = ground (arith, eq_iff k.id old.id)

pub key_at-eq-some :
    (f : String) (k : ApiKey) (o : Option ApiKey)
    → key_at f o ≡ some k
    → (k.key_fingerprint ≡ f) × (key_by_id k.id o ≡ some k)
key_at-eq-some f k none h = absurd (ground arith)
key_at-eq-some f k (some old) h = ground (arith, eq_iff old.key_fingerprint f, eq_refl k.id)

pub key_by_id-eq-some :
    (i : String) (k : ApiKey) (o : Option ApiKey)
    → key_by_id i o ≡ some k
    → (k.id ≡ i) × (key_at k.key_fingerprint o ≡ some k)
key_by_id-eq-some i k none h = absurd (ground arith)
key_by_id-eq-some i k (some old) h = ground (arith, eq_iff old.id i, eq_refl k.key_fingerprint)

pub fresh_key-none : (o : Option ApiKey) → key_by_id (fresh_key o) o ≡ none
fresh_key-none none = refl
fresh_key-none (some k) = elim (Bool-cases (k.id == "r1")) [
  | inl e ↦ rw ((eq_iff k.id "r1").0 e) refl
  | inr e ↦ rw (e, e) refl
]

pub In-active_keys :
    (k : ApiKey) (o : Option ApiKey)
    → In k (active_keys o)
    → (key_at k.key_fingerprint o ≡ some k) × (k.active ≡ true)
In-active_keys k none m = absurd m
In-active_keys k (some old) m = elim (Bool-cases old.active) [
  | inl on ↦ only (subst (λ b. In k (if b then old ∷ [] else [])) on m)
  | inr off ↦ absurd (subst (λ b. In k (if b then old ∷ [] else [])) off m)
]
  where
    only : In k (old ∷ []) → (key_at k.key_fingerprint (some old) ≡ some k) × (k.active ≡ true)
    only (inl e) = rw (← e) (ground (arith, eq_refl old.key_fingerprint))
    only (inr m) = absurd m

pub includes-active_in :
    (o : Option ApiKey) (fs : List String) (f : String)
    → includes (active_in o fs) f ≡ (includes fs f && is_live (key_at f o))
includes-active_in o [] f = refl
includes-active_in o (x ∷ fs) f = ground (arith, includes-active_in o fs f, eq_iff x f)

abbrev pub keys : ApiKeyTable Db
keys = record {
  find_one_by_id = λ i b. key_by_id i b.key;
  row_by_fingerprint = λ f b. key_at f b.key;
  find_all_active = λ b. active_keys b.key;
  active_among = λ fs b. active_in b.key fs;
  new_id = λ b. fresh_key b.key;
  save = λ k b. save_key_in b (put_key k b.key);
  by_fingerprint = λ f k b. key_at-eq-some f k b.key;
  by_id = λ i k b. key_by_id-eq-some i k b.key;
  new_id-fresh = λ b. fresh_key-none b.key;
  all_active = λ k b. In-active_keys k b.key;
  among = λ fs f b. includes-active_in b.key fs f;
  save-unique = λ k k' b b' h e. put_key_unique k k' b.key b b' h e;
  fingerprint-save = λ k f b b' h. at-put_key k f b.key b b' h;
}
