-- ===== src/Validation/Searching.antt =====
-- The search through nested validation errors, level by level.
use auth_microservice.Prelude.{
  ℕ, zero, suc, ◌≤◌, String, ◌≡◌, refl, sym, ap, subst, ◌∙◌, inl, inr, Option, none, some, List, [],
  ◌∷◌, ◌++◌, append-nil, append_assoc, arith, Option-cases,
}
use auth_microservice.Validation.{ValidationError, children_of, total_size, search_queue}
use auth_microservice.Validation.Levels.{
  kids, leftmost, IsShallowest, leftmost-append_none, level-nil, deeper, kids-snoc,
  total_size-append, size-children,
}

module _ (found : ValidationError → Option String) where
  abbrev Outcome : ℕ → List ValidationError → List ValidationError → Type 0
  Outcome fuel queue es =
      (r : Option String) × (search_queue found fuel queue ≡ some r) × IsShallowest found es r

  -- The errors `ys` are done with and gave nothing; `e` is next, then `xs` and the children of `ys`.
  step :
      (fuel : ℕ) (e : ValidationError) (xs ys : List ValidationError)
      → leftmost found ys ≡ none
      → (leftmost found (ys ++ e ∷ []) ≡ none
          → Outcome fuel (xs ++ kids (ys ++ e ∷ [])) ((ys ++ e ∷ []) ++ xs))
      → Outcome (suc fuel) ((e ∷ xs) ++ kids ys) (ys ++ e ∷ xs)
  unfolding search_queue
  step fuel e xs ys done go = elim (Option-cases (found e)) [
    | inl nothing ↦
        let seen : leftmost found (ys ++ e ∷ []) ≡ none =
          leftmost-append_none found ys (e ∷ []) done ∙ ground (arith, nothing) in
        let (r, runs, best) = go seen in
        let queue : xs ++ kids (ys ++ e ∷ []) ≡ (xs ++ kids ys) ++ children_of e =
          ap (λ es. xs ++ es) (kids-snoc ys e) ∙ sym (append_assoc xs (kids ys) (children_of e)) in
        (
          r,
          rw (nothing, ← queue) runs,
          subst (λ es. IsShallowest found es r) (append_assoc ys (e ∷ []) xs) best,
        )
    | inr (s, here) ↦ (
      some s,
      ground (arith, here),
      (
        zero,
        leftmost-append_none found ys (e ∷ xs) done ∙ ground (arith, here),
        λ m lt. absurd (omega arith),
      ),
    )
  ]

  abbrev Searches : ℕ → Type 0
  Searches fuel =
      (xs ys : List ValidationError)
      → total_size (xs ++ kids ys) ≤ fuel
      → leftmost found ys ≡ none
      → Outcome fuel (xs ++ kids ys) (ys ++ xs)

  next :
      (fuel : ℕ)
      → Searches fuel
      → (e : ValidationError) (xs ys : List ValidationError)
      → total_size ((e ∷ xs) ++ kids ys) ≤ suc fuel
      → leftmost found ys ≡ none
      → Outcome (suc fuel) ((e ∷ xs) ++ kids ys) (ys ++ e ∷ xs)
  next fuel ih e xs ys small done = step fuel e xs ys done (
      ih xs (ys ++ e ∷ []) (
        rw (kids-snoc ys e) (
          omega (
            arith,
            small,
            size-children e,
            total_size-append xs (kids ys),
            total_size-append xs (kids ys ++ children_of e),
            total_size-append (kids ys) (children_of e),
          ))))

  restart :
      (fuel : ℕ)
      → Searches fuel
      → (e : ValidationError) (xs : List ValidationError) → total_size (e ∷ xs) ≤ suc fuel
      → Outcome (suc fuel) (e ∷ xs) (e ∷ xs)
  restart fuel ih e xs small =
      subst (λ q. Outcome (suc fuel) (e ∷ q) (e ∷ xs)) (append-nil xs)
        (next fuel ih e xs [] (omega (arith, small, ap total_size (append-nil xs))) refl)

  last_level :
      (fuel : ℕ) (ys : List ValidationError)
      → kids ys ≡ []
      → leftmost found ys ≡ none
      → Outcome fuel [] ys
  unfolding search_queue
  last_level fuel ys e done =
      (none, refl, deeper found ys none done (λ n. rw e (level-nil found n)))

  -- The queue `kids ys`, as a new level.
  new_level :
      (fuel : ℕ) (qs ys : List ValidationError)
      → ((e : ValidationError) (xs : List ValidationError) → qs ≡ e ∷ xs → Outcome fuel qs qs)
      → kids ys ≡ qs
      → leftmost found ys ≡ none
      → Outcome fuel qs ys
  new_level fuel [] ys go is_queue done = last_level fuel ys is_queue done
  new_level fuel (e ∷ xs) ys go is_queue done =
      let (r, runs, best) = go e xs refl in
      (r, runs, deeper found ys r done (subst (λ q. IsShallowest found q r) (sym is_queue) best))

  pub search_queue_from : (fuel : ℕ) → Searches fuel
  search_queue_from zero [] ys small done =
      subst (λ es. Outcome zero (kids ys) es) (sym (append-nil ys))
        (new_level zero (kids ys) ys
          (λ e xs h. absurd (omega (arith, ap total_size h, size-children e))) refl done)
  search_queue_from zero (e ∷ xs) ys small done = absurd (omega (arith, size-children e))
  search_queue_from (suc fuel) [] ys small done =
      subst (λ es. Outcome (suc fuel) (kids ys) es) (sym (append-nil ys))
        (new_level (suc fuel) (kids ys) ys
          (λ e xs h.
            subst (λ q. Outcome (suc fuel) q q) (sym h)
              (restart fuel (search_queue_from fuel) e xs (omega (arith, ap total_size h))))
          refl done)
  search_queue_from (suc fuel) (e ∷ xs) ys small done =
      next fuel (search_queue_from fuel) e xs ys small done

  -- With fuel for every error the search ends.
  pub search_queue_total : (es : List ValidationError) → Outcome (total_size es) es es
  search_queue_total es =
      subst (λ q. Outcome (total_size es) q es) (append-nil es)
        (search_queue_from (total_size es) es [] (omega (arith, ap total_size (append-nil es)))
          refl)
