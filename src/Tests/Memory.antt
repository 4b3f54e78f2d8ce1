-- ===== src/Tests/Memory.antt =====
-- A Redis server kept in functions, with the laws of the interface.
use auth_microservice.Prelude.{
  ℕ, String, ◌≡◌, refl, ap, ◌∙◌, Bool, true, false, not, ◌&&◌, Option, none, some, List, [], ◌∷◌,
  arith, ◌==◌, eq_iff, if◌then◌else◌, includes,
}
use auth_microservice.Redis.{
  Session, Value, Key, SetKey, same_key, same_set, ttl_after, Redis, session, auth_session,
  user_sessions,
}

pub record Memory : Type 0 where
  pub texts : Key → Option Value
  pub lifetimes : Key → Option ℕ
  pub members : SetKey → List String

abbrev without : String → List String → List String
without x [] = []
without x (y ∷ ys) = let rest = without x ys in if x == y then rest else y ∷ rest

pub includes-without :
    (x y : String) (l : List String) → includes (without x l) y ≡ (not (x == y) && includes l y)
includes-without x y [] = ground arith
includes-without x y (z ∷ l) =
    ground (arith, includes-without x y l, eq_iff x z, eq_iff x y, eq_iff z y)

pub includes_if :
    (b : Bool) (l m : List String) (y : String)
    → includes (if b then l else m) y ≡ (if b then includes l y else includes m y)
includes_if true l m y = refl
includes_if false l m y = refl

abbrev pub memory : Redis
memory = record {
  Store = Memory;
  get = λ k s. s.texts k;
  ttl = λ k s. s.lifetimes k;
  s_members = λ k s. s.members k;
  set = λ m k v s. record s {
    texts = λ j. if same_key k j then some v else s.texts j;
    lifetimes = λ j. if same_key k j then ttl_after m (s.lifetimes j) else s.lifetimes j;
  };
  del = λ k s. record s {
    texts = λ j. if same_key k j then none else s.texts j;
    lifetimes = λ j. if same_key k j then none else s.lifetimes j;
  };
  s_add =
      λ k x s. record s { members = λ j. if same_set k j then x ∷ s.members j else s.members j };
  s_rem = λ k x s. record s {
    members = λ j. if same_set k j then without x (s.members j) else s.members j;
  };
  del_set = λ k s. record s { members = λ j. if same_set k j then [] else s.members j };
  p_expire = λ k n s. s;
  get-set = λ m k j v s. refl;
  get-del = λ k j s. refl;
  get-s_add = λ k x j s. refl;
  get-s_rem = λ k x j s. refl;
  get-del_set = λ k j s. refl;
  get-p_expire = λ k n j s. refl;
  ttl-set = λ m k j v s. refl;
  ttl-del = λ k j s. refl;
  ttl-s_add = λ k x j s. refl;
  ttl-p_expire = λ k n j s. refl;
  ttl-s_rem = λ k x j s. refl;
  members-set = λ m k j v s. refl;
  members-del = λ k j s. refl;
  members-s_add = λ k j x y s. includes_if (same_set k j) (x ∷ s.members j) (s.members j) y;
  members-s_rem = λ k j x y s.
      includes_if (same_set k j) (without x (s.members j)) (s.members j) y
      ∙ ap (λ b. if same_set k j then b else includes (s.members j) y)
          (includes-without x y (s.members j));
  members-del_set = λ k j y s. includes_if (same_set k j) [] (s.members j) y;
}

abbrev pub empty_memory : Memory
empty_memory = record { texts = λ k. none; lifetimes = λ k. none; members = λ k. [] }

abbrev pub a_session : Session
a_session = record {
  user_id = "u1";
  person_id = "person1";
  email = "a@b.c";
  permissions = "READ" ∷ [];
  active = true;
  ip = "10.0.0.1";
  user_agent = "agent";
  device = "phone";
  created_at = 0;
  last_refresh_at = 0;
}

-- The user's index lists two sessions, of which one has expired.
abbrev pub with_session : Memory
with_session = record {
  texts = λ k. if same_key (auth_session "s1") k then some (session a_session) else none;
  lifetimes = λ k. if same_key (auth_session "s1") k then some 60000 else none;
  members = λ k. if same_set (user_sessions "u1") k then "s1" ∷ "s2" ∷ [] else [];
}
