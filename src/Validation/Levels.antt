-- ===== src/Validation/Levels.antt =====
-- The levels of a forest of validation errors, and its sizes.
use auth_microservice.Prelude.{
  ℕ, zero, suc, ◌+◌, ◌<◌, String, ◌≡◌, refl, ap, ◌∙◌, Option, none, some, List, [], ◌∷◌, ◌++◌,
  append-nil, append_assoc, arith,
}
use auth_microservice.Validation.{
  no_errors, then_error, invalid, then_error, invalid, ValidationError, ValidationErrors, to_list,
  children_of, size, size_all, total_size,
}

abbrev pub kids : List ValidationError → List ValidationError
kids [] = []
kids (e ∷ es) = children_of e ++ kids es

-- The errors that are nested `n` deep, from left to right.
abbrev pub level : ℕ → List ValidationError → List ValidationError
level zero es = es
level (suc n) es = level n (kids es)

module _ (found : ValidationError → Option String) where
  -- What the leftmost error that has anything gives.
  abbrev pub leftmost : List ValidationError → Option String
  leftmost [] = none
  leftmost (e ∷ es) = elim (found e) [ none ↦ leftmost es | some s ↦ some s ]

  -- `some s` is what the leftmost error of the shallowest level gives; at `none` no error of any level
  -- gives anything.
  abbrev pub IsShallowest : List ValidationError → Option String → Type 0
  IsShallowest es none = (n : ℕ) → leftmost (level n es) ≡ none
  IsShallowest es (some s) =
      (n : ℕ) × (leftmost (level n es) ≡ some s) × ((m : ℕ) → m < n → leftmost (level m es) ≡ none)

  pub leftmost-append_none :
      (xs ys : List ValidationError) → leftmost xs ≡ none → leftmost (xs ++ ys) ≡ leftmost ys
  leftmost-append_none [] ys h = refl
  leftmost-append_none (x ∷ xs) ys h = ground (arith, leftmost-append_none xs ys)

  pub level-nil : (n : ℕ) → leftmost (level n []) ≡ none
  level-nil zero = refl
  level-nil (suc n) = level-nil n

  pub deeper :
      (es : List ValidationError) (r : Option String)
      → leftmost es ≡ none
      → IsShallowest (kids es) r
      → IsShallowest es r
  deeper es none h below = go
    where
      go : (n : ℕ) → leftmost (level n es) ≡ none
      go zero = h
      go (suc n) = below n
  deeper es (some s) h (n, here, above) = (suc n, here, go)
    where
      go : (m : ℕ) → m < suc n → leftmost (level m es) ≡ none
      go zero lt = h
      go (suc m) lt = above m (omega arith)

kids-append : (xs ys : List ValidationError) → kids (xs ++ ys) ≡ kids xs ++ kids ys
kids-append [] ys = refl
kids-append (x ∷ xs) ys = simp (kids-append xs ys, append_assoc)

pub kids-snoc :
    (ys : List ValidationError) (e : ValidationError)
    → kids (ys ++ e ∷ []) ≡ kids ys ++ children_of e
kids-snoc ys e = kids-append ys (e ∷ []) ∙ ap (λ es. kids ys ++ es) (append-nil (children_of e))

pub total_size-append :
    (xs ys : List ValidationError) → total_size (xs ++ ys) ≡ total_size xs + total_size ys
total_size-append [] ys = omega arith
total_size-append (x ∷ xs) ys = omega (arith, total_size-append xs ys)

total_size-to_list : (es : ValidationErrors) → total_size (to_list es) ≡ size_all es
total_size-to_list no_errors = refl
total_size-to_list (then_error e es) = omega (arith, total_size-to_list es)

pub size-children : (e : ValidationError) → size e ≡ suc (total_size (children_of e))
size-children (invalid contexts constraints children) = omega (arith, total_size-to_list children)
