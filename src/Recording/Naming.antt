-- ===== src/Recording/Naming.antt =====
-- The names of the audit service's patterns: `toSnakeCase` against a description of its result.
use auth_microservice.Prelude.{
  ℕ, ◌+◌, ◌≡◌, refl, ap, inl, inr, Bool, true, false, ◌&&◌, List, [], ◌∷◌, arith, if◌then◌else◌,
  Bool-cases,
}
use auth_microservice.Recording.{
  is_upper, is_word, is_gap, underscore, separate_words, join_gaps, to_lower_case, to_snake_case,
}

-- A character and the one that stands before it.
abbrev pub starts_word : ℕ → ℕ → Bool
starts_word before c = is_word before && is_upper c

-- Each character behind the first, with `_` before the capitals that follow a small letter or a digit.
abbrev pub mark_words : ℕ → List ℕ → List ℕ
mark_words before [] = []
mark_words before (c ∷ cs) =
    if starts_word before c then underscore ∷ c ∷ mark_words c cs else c ∷ mark_words c cs

abbrev pub words_marked : List ℕ → List ℕ
words_marked [] = []
words_marked (c ∷ cs) = c ∷ mark_words c cs

capital-mark_words : (b : ℕ) (cs : List ℕ) → is_upper b ≡ true → mark_words b cs ≡ words_marked cs
capital-mark_words b [] h = refl
capital-mark_words b (c ∷ cs) h = ground (arith, h)

-- That a match takes both characters makes no difference.
separate_words-marked : (cs : List ℕ) → separate_words cs ≡ words_marked cs
unfolding separate_words
separate_words-marked [] = refl
separate_words-marked (a ∷ []) = refl
separate_words-marked (a ∷ b ∷ cs) =
    ground
      (arith, separate_words-marked cs, separate_words-marked (b ∷ cs), capital-mark_words b cs)

-- No capital, white space or dash is in the text.
abbrev pub IsSnake : List ℕ → Type 0
IsSnake [] = Unit
IsSnake (c ∷ cs) = (is_upper c ≡ false) × (is_gap c ≡ false) × IsSnake cs

abbrev HasNoGap : List ℕ → Type 0
HasNoGap [] = Unit
HasNoGap (c ∷ cs) = (is_gap c ≡ false) × HasNoGap cs

join_gaps-HasNoGap : (gap : Bool) (cs : List ℕ) → HasNoGap (join_gaps gap cs)
unfolding join_gaps
join_gaps-HasNoGap gap [] = tt
join_gaps-HasNoGap false (c ∷ cs) =
    ground (arith, join_gaps-HasNoGap true cs, join_gaps-HasNoGap false cs)
join_gaps-HasNoGap true (c ∷ cs) =
    ground (arith, join_gaps-HasNoGap true cs, join_gaps-HasNoGap false cs)

lowered_upper : (c : ℕ) → is_upper c ≡ true → is_upper (c + 32) ≡ false
lowered_upper c h = ground arith

lowered_gap : (c : ℕ) → is_upper c ≡ true → is_gap (c + 32) ≡ false
lowered_gap c h = ground arith

to_lower_case-IsSnake : (cs : List ℕ) → HasNoGap cs → IsSnake (to_lower_case cs)
to_lower_case-IsSnake [] h = tt
to_lower_case-IsSnake (c ∷ cs) (here, more) = elim (Bool-cases (is_upper c)) [
  | inl u ↦ rw u (lowered_upper c u, lowered_gap c u, to_lower_case-IsSnake cs more)
  | inr l ↦ rw l (l, here, to_lower_case-IsSnake cs more)
]

mark_words-IsSnake : (b : ℕ) (cs : List ℕ) → IsSnake cs → mark_words b cs ≡ cs
mark_words-IsSnake b [] h = refl
mark_words-IsSnake b (c ∷ cs) (u, g, h) = ground (arith, u, mark_words-IsSnake c cs h)

words_marked-IsSnake : (cs : List ℕ) → IsSnake cs → words_marked cs ≡ cs
words_marked-IsSnake [] h = refl
words_marked-IsSnake (c ∷ cs) (u, g, h) = ap (λ ds. c ∷ ds) (mark_words-IsSnake c cs h)

join_gaps-IsSnake : (cs : List ℕ) → IsSnake cs → join_gaps false cs ≡ cs
unfolding join_gaps
join_gaps-IsSnake [] h = refl
join_gaps-IsSnake (c ∷ cs) (u, g, h) = ground (arith, g, join_gaps-IsSnake cs h)

to_lower_case-of_IsSnake : (cs : List ℕ) → IsSnake cs → to_lower_case cs ≡ cs
to_lower_case-of_IsSnake [] h = refl
to_lower_case-of_IsSnake (c ∷ cs) (u, g, h) =
    rw u (ap (λ ds. c ∷ ds) (to_lower_case-of_IsSnake cs h))

to_snake_case-IsSnake : (cs : List ℕ) → IsSnake (to_snake_case cs)
unfolding to_snake_case
to_snake_case-IsSnake cs =
    to_lower_case-IsSnake (join_gaps false (separate_words cs))
      (join_gaps-HasNoGap false (separate_words cs))

to_snake_case-of_IsSnake : (cs : List ℕ) → IsSnake cs → to_snake_case cs ≡ cs
unfolding to_snake_case
to_snake_case-of_IsSnake cs h =
    rw (separate_words-marked cs, words_marked-IsSnake cs h, join_gaps-IsSnake cs h)
      (to_lower_case-of_IsSnake cs h)

-- `toSnakeCase` puts `_` before each capital that stands behind a small letter or a digit, makes one `_` of
-- each run of white space and dashes, and then makes the letters small. Its result has no capital, white
-- space or dash, and applying it again changes nothing.
pub to_snake_case_lem :
    (cs : List ℕ)
    → (to_snake_case cs ≡ to_lower_case (join_gaps false (words_marked cs)))
      × IsSnake (to_snake_case cs)
      × (to_snake_case (to_snake_case cs) ≡ to_snake_case cs)
to_snake_case_lem cs = (
  unfold to_snake_case in ap (λ ds. to_lower_case (join_gaps false ds)) (separate_words-marked cs),
  to_snake_case-IsSnake cs,
  to_snake_case-of_IsSnake (to_snake_case cs) (to_snake_case-IsSnake cs),
)
