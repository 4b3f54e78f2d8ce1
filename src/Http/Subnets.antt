-- ===== src/Http/Subnets.antt =====
-- The subnet check against dotted addresses.
use Prim.Native.Char.{Char, code}
use Prim.Native.String.{◌++◌ as ◌<>◌}
use package.text.Mathlib.TextLemmas.{cons-append, nil-append}
use package.text.Mathlib.TextEquality.{Char-path}
use auth_microservice.Prelude.{
  String, ◌≡◌, refl, sym, ap, subst, ◌∙◌, ◌↔◌, inl, inr, Bool, true, false, ◌||◌, List, [], ◌∷◌,
  arith, eq_iff, eq_refl, eqb, Bool-cases,
}
use auth_microservice.Http.Texts.{dot, split_on}
use auth_microservice.Http.{same_parts, same_subnet_check}

-- The parts with dots between them.
abbrev pub join_dots : List String → String
join_dots [] = ""
join_dots (s ∷ []) = s
join_dots (s ∷ t ∷ r) = s <> ("." <> join_dots (t ∷ r))

abbrev pub has_dot : String → Bool
has_dot String.[] = false
has_dot (String.◌∷◌ c s) = eqb (code c) dot || has_dot s

abbrev pub NoDots : List String → Type 0
NoDots [] = Unit
NoDots (s ∷ ss) = (has_dot s ≡ false) × NoDots ss

abbrev dot_char : Char
dot_char = "."

split-shape : (s : String) → (h : String) × (t : List String) × (split_on dot s ≡ h ∷ t)
unfolding split_on
split-shape String.[] = ("", [], refl)
split-shape (String.◌∷◌ c s) =
    let (h, t, e) = split-shape s in
    elim (Bool-cases (eqb (code c) dot)) [
      | inl d ↦ ("", split_on dot s, rw d refl)
      | inr d ↦ (String.◌∷◌ c h, t, rw (d, e) refl)
    ]

dotted : (s : String) → "." <> s ≡ String.◌∷◌ dot_char s
dotted s = cons-append dot_char "" s ∙ ap (λ r. String.◌∷◌ dot_char r) (nil-append s)

join-prepend :
    (c : Char) (h : String) (t : List String)
    → join_dots (String.◌∷◌ c h ∷ t) ≡ String.◌∷◌ c (join_dots (h ∷ t))
join-prepend c h [] = refl
join-prepend c h (x ∷ t) = cons-append c h ("." <> join_dots (x ∷ t))

join-split : (s : String) → join_dots (split_on dot s) ≡ s
unfolding split_on
join-split String.[] = refl
join-split (String.◌∷◌ c s) =
    let (h, t, e) = split-shape s in
    let rest : join_dots (h ∷ t) ≡ s = ap join_dots (sym e) ∙ join-split s in
    elim (Bool-cases (eqb (code c) dot)) [
      | inl d ↦
          let is_dot : c ≡ dot_char = Char-path c dot_char (ground (arith, d)) in
          rw (d, e)
            (nil-append ("." <> join_dots (h ∷ t))
              ∙ dotted (join_dots (h ∷ t))
              ∙ rw (rest, is_dot) refl)
      | inr d ↦ rw (d, e) (join-prepend c h t ∙ ap (λ r. String.◌∷◌ c r) rest)
    ]

NoDots-split : (s : String) → NoDots (split_on dot s)
unfolding split_on
NoDots-split String.[] = (refl, tt)
NoDots-split (String.◌∷◌ c s) =
    let (h, t, e) = split-shape s in
    let rest : NoDots (h ∷ t) = subst NoDots e (NoDots-split s) in
    elim (Bool-cases (eqb (code c) dot)) [
      | inl d ↦ rw (d, e) (refl, rest)
      | inr d ↦ rw (d, e) (rw d rest.0, rest.1)
    ]

split-whole : (h : String) → has_dot h ≡ false → split_on dot h ≡ h ∷ []
unfolding split_on
split-whole String.[] n = refl
split-whole (String.◌∷◌ c h) n = elim (Bool-cases (eqb (code c) dot)) [
  | inl d ↦ absurd (ground (arith, n, d))
  | inr d ↦ rw (d, split-whole h (ground (arith, n, d))) refl
]

split-first :
    (h r : String) → has_dot h ≡ false → split_on dot (h <> ("." <> r)) ≡ h ∷ split_on dot r
unfolding split_on
split-first String.[] r n = rw (nil-append ("." <> r), dotted r) refl
split-first (String.◌∷◌ c h) r n = elim (Bool-cases (eqb (code c) dot)) [
  | inl d ↦ absurd (ground (arith, n, d))
  | inr d ↦ rw (cons-append c h ("." <> r), d, split-first h r (ground (arith, n, d))) refl
]

split-join :
    (h : String) (t : List String) → NoDots (h ∷ t) → split_on dot (join_dots (h ∷ t)) ≡ h ∷ t
split-join h [] (n, _) = split-whole h n
split-join h (x ∷ t) (n, ns) =
    split-first h (join_dots (x ∷ t)) n ∙ ap (λ r. h ∷ r) (split-join x t ns)

-- Two dotted addresses of four parts, of which the first three are the same.
pub record IsNear (x y : String) : Type 0 where
  pub a : String
  pub b : String
  pub c : String
  pub d : String
  pub d' : String
  pub first : x ≡ join_dots (a ∷ b ∷ c ∷ d ∷ [])
  pub second : y ≡ join_dots (a ∷ b ∷ c ∷ d' ∷ [])
  pub plain_first : NoDots (a ∷ b ∷ c ∷ d ∷ [])
  pub plain_second : NoDots (a ∷ b ∷ c ∷ d' ∷ [])

same_parts-IsNear :
    (x y : String) (l m : List String)
    → split_on dot x ≡ l
    → split_on dot y ≡ m
    → same_parts l m ≡ true
    → IsNear x y
same_parts-IsNear x y (a ∷ b ∷ c ∷ d ∷ []) (a' ∷ b' ∷ c' ∷ d' ∷ []) e f h =
    let m_is : split_on dot y ≡ a ∷ b ∷ c ∷ d' ∷ [] =
      ground (arith, f, h, eq_iff a a', eq_iff b b', eq_iff c c') in
    record {
      a = a;
      b = b;
      c = c;
      d = d;
      d' = d';
      first = sym (join-split x) ∙ ap join_dots e;
      second = sym (join-split y) ∙ ap join_dots m_is;
      plain_first = subst NoDots e (NoDots-split x);
      plain_second = subst NoDots m_is (NoDots-split y);
    }
same_parts-IsNear x y l m e f h = absurd (ground arith)

IsNear-same_parts : (x y : String) → IsNear x y → same_subnet_check x y ≡ true
unfolding same_subnet_check
IsNear-same_parts x y n =
    rw
      (
        n.first,
        n.second,
        split-join n.a (n.b ∷ n.c ∷ n.d ∷ []) n.plain_first,
        split-join n.a (n.b ∷ n.c ∷ n.d' ∷ []) n.plain_second,
        eq_refl n.a,
        eq_refl n.b,
        eq_refl n.c,
      )
      refl

-- `sameSubnetCheck` accepts exactly the pairs of addresses that are four parts with dots between them, of
-- which the first three are the same; so it turns down every address of another form, such
-- as one of IPv6, even against itself.
pub same_subnet_check_iff : (x y : String) → (same_subnet_check x y ≡ true) ↔ IsNear x y
unfolding same_subnet_check
same_subnet_check_iff x y =
    (same_parts-IsNear x y (split_on dot x) (split_on dot y) refl refl, IsNear-same_parts x y)
