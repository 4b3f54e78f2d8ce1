-- ===== src/Pagination/Pages.antt =====
-- The pages of a listing and the table that they are cut from.
use auth_microservice.Prelude.{
  ◌⊎◌, ◌-◌, ℕ, zero, suc, ◌+◌, ◌*◌, ◌≤◌, ◌<◌, ◌≡◌, refl, sym, ap, ◌∙◌, List, [], ◌∷◌, ◌++◌, arith,
  length,
}
use auth_microservice.Pagination.{
  leb, find_all_api_keys, find_all_rules, ◌>>=◌, find_all_permissions, ◌>>=◌, PaginatedResponse,
  find_all_roles, pure, Exec, IsValidQuery, find_all_users, find_and_count, users, roles,
  permissions, rules, api_keys, find_and_count, paginated, ok, calm, find_all, World,
  PaginationQuery, append_assoc, append-nil, Listing, inr, inl, eqb, Bool-cases, drop,
  total_pages_of, take,
}
use native.Mathlib.Nat.{div-mul-le_self, mul-le-mul_right}

module _ {ℓ} {A : Type ℓ} where
  length-take : (n : ℕ) (xs : List A) → length (take n xs) ≤ n
  length-take zero xs = omega arith
  length-take (suc n) [] = omega arith
  length-take (suc n) (x ∷ xs) = omega (arith, length-take n xs)

  drop-nil : (n : ℕ) → drop {A = A} n [] ≡ []
  drop-nil zero = refl
  drop-nil (suc n) = refl

  drop_all : (n : ℕ) (xs : List A) → length xs ≤ n → drop n xs ≡ []
  drop_all zero [] h = refl
  drop_all zero (x ∷ xs) h = absurd (omega arith)
  drop_all (suc n) [] h = refl
  drop_all (suc n) (x ∷ xs) h = drop_all n xs (omega arith)

  take-nil : (n : ℕ) (xs : List A) → xs ≡ [] → take n xs ≡ []
  take-nil zero xs h = refl
  take-nil (suc n) xs h = rw h

  drop-add : (k n : ℕ) (xs : List A) → drop (k + n) xs ≡ drop n (drop k xs)
  drop-add zero n xs = let e : 0 + n ≡ n = omega arith in rw e
  drop-add (suc k) n [] = let e : suc k + n ≡ suc (k + n) = omega arith in rw e (sym (drop-nil n))
  drop-add (suc k) n (x ∷ xs) =
      let e : suc k + n ≡ suc (k + n) = omega arith in rw e (drop-add k n xs)

  take-append-drop : (n : ℕ) (xs : List A) → take n xs ++ drop n xs ≡ xs
  take-append-drop zero xs = refl
  take-append-drop (suc n) [] = refl
  take-append-drop (suc n) (x ∷ xs) = ap (λ ys. x ∷ ys) (take-append-drop n xs)

total_pages_cover : (total limit : ℕ) → 1 ≤ limit → total ≤ total_pages_of total limit * limit
unfolding total_pages_of
total_pages_cover total limit h = grind arith

total_pages_tight :
    (total limit : ℕ) → 1 ≤ limit → total_pages_of total limit * limit < total + limit
unfolding total_pages_of
total_pages_tight total limit h = elim (Bool-cases (eqb total 0)) [
  | inl e ↦ rw e (omega (arith, h))
  | inr e ↦ rw e (omega (arith, h, div-mul-le_self (total + limit - 1) limit))
]

module _ {ℓ} {A : Type ℓ} where
  -- The rows of so many pages in turn, from a page (counted from 0) on.
  abbrev pages_from : (limit n i : ℕ) → List A → List A
  pages_from limit zero i xs = []
  pages_from limit (suc n) i xs = take limit (drop (i * limit) xs) ++ pages_from limit n (suc i) xs

  pages_from-append :
      (limit n i : ℕ) (xs : List A)
      → pages_from limit n i xs ++ drop ((i + n) * limit) xs ≡ drop (i * limit) xs
  pages_from-append limit zero i xs = let e : i + 0 ≡ i = omega arith in rw e refl
  pages_from-append limit (suc n) i xs =
      let e : i + suc n ≡ suc i + n = omega arith in
      let d : suc i * limit ≡ i * limit + limit = grind arith in
      rw (e, append_assoc, pages_from-append limit n (suc i) xs, d, drop-add (i * limit) limit xs)
        (take-append-drop limit (drop (i * limit) xs))

  pages_cover :
      (limit : ℕ) (xs : List A)
      → 1 ≤ limit
      → pages_from limit (total_pages_of (length xs) limit) 0 xs ≡ xs
  pages_cover limit xs h =
      let n : ℕ = total_pages_of (length xs) limit in
      let gone : drop ((0 + n) * limit) xs ≡ [] =
        drop_all ((0 + n) * limit) xs (omega (arith, total_pages_cover (length xs) limit h)) in
      let z : 0 * limit ≡ 0 = omega arith in
      sym (append-nil (pages_from limit n 0 xs))
      ∙ ap (λ ys. pages_from limit n 0 xs ++ ys) (sym gone)
      ∙ pages_from-append limit n 0 xs
      ∙ ap (λ m. drop m xs) z

past_pages :
    {A : Type 0} (page limit : ℕ) (xs : List A)
    → 1 ≤ page
    → 1 ≤ limit
    → (page ≤ total_pages_of (length xs) limit) ⊎ (take limit (drop ((page - 1) * limit) xs) ≡ [])
past_pages page limit xs p l = elim (Bool-cases (leb page (total_pages_of (length xs) limit))) [
  | inl e ↦ inl (ground (arith, e))
  | inr e ↦
      let beyond : total_pages_of (length xs) limit ≤ page - 1 = ground (arith, e) in
      inr (
        take-nil limit (drop ((page - 1) * limit) xs) (
          drop_all ((page - 1) * limit) xs (
            omega (
              arith,
              total_pages_cover (length xs) limit l,
              mul-le-mul_right {m = total_pages_of (length xs) limit} {n = page - 1} limit beyond,
            ))))
]

find_all-calm :
    {S B A : Type 0} (l : Listing) (rows : B → List A) (q : PaginationQuery) (w : World S B)
    → find_all l rows q (calm w) ≡ (
      ok (paginated (find_and_count (rows w.db) q).0 (length (rows w.db)) q.page q.limit),
      calm w,
    )
unfolding find_all_users find_all_roles find_all_permissions find_all_rules find_all_api_keys
find_all-calm users rows q w = refl
find_all-calm roles rows q w = refl
find_all-calm permissions rows q w = refl
find_all-calm rules rows q w = refl
find_all-calm api_keys rows q w = refl

module _ {S B A : Type 0} (l : Listing) (rows : B → List A) where
  -- A client that reads so many pages in turn, from a page (counted from 0) on.
  pub read_pages : (limit n i : ℕ) → Exec S B (List A)
  read_pages limit zero i = pure []
  read_pages limit (suc n) i =
      let later = read_pages limit n (suc i) in
      find_all l rows (record { page = suc i; limit = limit }) >>= λ r.
      later >>= λ more. pure (r.rows ++ more)

  read_pages-calm :
      (limit n i : ℕ) (w : World S B)
      → read_pages limit n i (calm w) ≡ (ok (pages_from limit n i (rows w.db)), calm w)
  unfolding read_pages paginated
  read_pages-calm limit zero i w = refl
  read_pages-calm limit (suc n) i w =
      let e : suc i - 1 ≡ i = omega arith in
      rw
        (
          find_all-calm l rows (record { page = suc i; limit = limit }) w,
          read_pages-calm limit n (suc i) w,
          paginated,
          e,
        )
        refl

  -- On a valid query, with every call answered, each of the five listings answers at most `limit` rows and
  -- the number of all of them, and no rows on a page behind the last; reading the pages 1 to
  -- `total_pages` gives every row of the table once and in order, and the last page is not empty.
  pub find_all-pages :
      (q : PaginationQuery) (w : World S B)
      → IsValidQuery q
      → (r : PaginatedResponse A) × (find_all l rows q (calm w) ≡ (ok r, calm w))
        × (r.total ≡ length (rows w.db))
        × (length r.rows ≤ q.limit)
        × ((q.page ≤ r.total_pages) ⊎ (r.rows ≡ []))
        × (read_pages q.limit r.total_pages 0 (calm w) ≡ (ok (rows w.db), calm w))
        × (r.total_pages * q.limit < r.total + q.limit)
  unfolding paginated
  find_all-pages q w v =
      let xs : List A = rows w.db in
      let skip : ℕ = (q.page - 1) * q.limit in
      (
        paginated (find_and_count xs q).0 (length xs) q.page q.limit,
        find_all-calm l rows q w,
        refl,
        length-take q.limit (drop skip xs),
        past_pages q.page q.limit xs v.page_positive v.limit_positive,
        read_pages-calm q.limit (total_pages_of (length xs) q.limit) 0 w
            ∙ ap (λ ys. (ok ys, calm w)) (pages_cover q.limit xs v.limit_positive),
        total_pages_tight (length xs) q.limit v.limit_positive,
      )
