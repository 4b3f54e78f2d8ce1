-- ===== src/Seed/Steps.antt =====
-- What the steps on permissions and rules leave in the database.
use auth_microservice.Prelude.{
  String, ◌≡◌, sym, ap, subst, ◌∙◌, inl, inr, Bool, true, not, ◌&&◌, Option, some, List, [], ◌∷◌,
  map, arith, ◌==◌, eq_iff, eq_refl, if◌then◌else◌, Bool-cases, Option-cases, In, includes,
}
use auth_microservice.Exec.{World, lift, on_db, >>=-eq-ok, ok}
use auth_microservice.Exec.Inversion.{on_db-eq-ok}
use auth_microservice.Rules.{Rule, RuleTable}
use auth_microservice.Seed.{wrote, write, read}
use auth_microservice.SeedData.{SeedRule}

abbrev pub All {ℓ} : {A : Type 0} → (A → Type ℓ) → List A → Type ℓ
All P [] = Unit
All P (x ∷ xs) = P x × All P xs

pub All-map :
    {A : Type 0} {P Q : A → Type 0} (xs : List A) → ((x : A) → P x → Q x) → All P xs → All Q xs
All-map [] f h = tt
All-map (x ∷ xs) f (p, ps) = (f x p, All-map xs f ps)

pub All-In : {A : Type 0} (P : A → Type 0) (xs : List A) (x : A) → In x xs → All P xs → P x
All-In P [] x m ps = elim m [ ]
All-In P (y ∷ xs) x (inl e) (p, ps) = subst P e p
All-In P (y ∷ xs) x (inr m) (p, ps) = All-In P xs x m ps

abbrev pub keys_of : List SeedRule → List String
keys_of es = map (λ (e : SeedRule). e.endpoint_key_name) es

abbrev pub are_distinct : List String → Bool
are_distinct [] = true
are_distinct (k ∷ ks) = not (includes ks k) && are_distinct ks

module _ {S B : Type 0} where
  pub write-eq-ok :
      (f : B → Option B) (w w' : World S B) (u : Unit {0})
      → write f w ≡ (ok u, w')
      → f w.db ≡ some w'.db
  unfolding write
  write-eq-ok f w w' u h =
      let (x, v, e, k) = >>=-eq-ok (on_db (λ b. wrote (f b) b)) lift w h in
      let (xe, d, _, _) = on_db-eq-ok (λ b. wrote (f b) b) w v x e in
      let same : v ≡ w' = ap (λ z. z.1) k in
      let res : x ≡ ok u = ap (λ z. z.0) k in
      elim (Option-cases (f w.db)) [
        | inl refused_row ↦ absurd (ground (arith, xe, res, refused_row))
        | inr (b', saved) ↦ ground (arith, saved, d, ap (λ z. z.db) same)
      ]

  pub read-eq-ok :
      {A : Type 0} (f : B → A) (w w' : World S B) (a : A)
      → read f w ≡ (ok a, w')
      → (a ≡ f w.db) × (w'.db ≡ w.db)
  unfolding read
  read-eq-ok f w w' a h = let (ae, d, _, _) = on_db-eq-ok (λ b. (f b, b)) w w' a h in (ae, d)

-- A row that is replaced under its key leaves the rows of the other keys.
pub save-found :
    {B : Type 0} (T : RuleTable B) (key k : String) (r r' : Rule) (b b' : B)
    → T.find_by_endpoint_key key b ≡ some r
    → r'.id ≡ r.id
    → r'.endpoint_key_name ≡ r.endpoint_key_name
    → T.save r' b ≡ some b'
    → T.find_by_endpoint_key k b' ≡ (if key == k then some r' else T.find_by_endpoint_key k b)
save-found T key k r r' b b' found same_id same_key saved =
    let (rk, rid) = T.by_key key r b found in
    elim (Option-cases (T.find_by_endpoint_key k b)) [
      | inl e ↦ ground (arith, T.key-save r' k b b' saved, e, rk, same_key)
      | inr (q, e) ↦
          let (qk, qid) = T.by_key k q b e in
          elim (Bool-cases (q.id == r'.id)) [
            | inl same ↦
                let ids : q.id ≡ r.id = (eq_iff q.id r'.id).0 same ∙ same_id in
                let row : some q ≡ some r = sym qid ∙ ap (λ i. T.find_one_by_id i b) ids ∙ rid in
                ground (arith, T.key-save r' k b b' saved, row, rk, qk, same_key, eq_refl key)
            | inr other ↦ ground (arith, T.key-save r' k b b' saved, e, rk, same_key, other)
          ]
    ]
