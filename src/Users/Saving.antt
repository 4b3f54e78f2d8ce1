-- ===== src/Users/Saving.antt =====
-- Finding a user, checking the state of an account and saving its row.
use auth_microservice.Prelude.{
  String, ◌≡◌, refl, sym, ap, ◌∙◌, inl, inr, not, ◌&&◌, some, arith, ◌==◌, Bool-cases, Option-cases,
}
use auth_microservice.Failure.{Failure}
use auth_microservice.Redis.{Redis}
use auth_microservice.Exec.{World, lift, on_db, >>=-eq-ok, ok}
use auth_microservice.Exec.Inversion.{on_db-eq-ok}
use auth_microservice.Users.{
  saving_user, UserStatus, User, Services, user_not_found, hashed_on_update, found_user, find_user,
  save_user, status_active, status_inactive, status_pending,
}
use auth_microservice.Users.Changing.{require_status}
use auth_microservice.Users.Login.{found_user-eq-ok}

module _ (R : Redis) {B : Type 0} (V : Services B) where
  pub require_status-eq-ok :
      (s : UserStatus) (e : Failure) (u a : User) (w w' : World R.Store B)
      → require_status R V s e u w ≡ (ok a, w')
      → (u.status ≡ s) × (w' ≡ w)
  unfolding require_status
  require_status-eq-ok status_active e u a w w' h = ground arith
  require_status-eq-ok status_inactive e u a w w' h = ground arith
  require_status-eq-ok status_pending e u a w w' h = ground arith

  pub save_user-eq-ok :
      (salt original : String) (u a : User) (w w' : World R.Store B)
      → save_user R V salt original u w ≡ (ok a, w')
      → (a ≡ hashed_on_update V.bcrypt salt original u)
        × (V.table.save (hashed_on_update V.bcrypt salt original u) w.db ≡ some w'.db)
        × (w'.redis ≡ w.redis)
  unfolding save_user
  save_user-eq-ok salt original u a w w' h =
      let u' = hashed_on_update V.bcrypt salt original u in
      let (r, v, e, k) =
        >>=-eq-ok (on_db (λ b. saving_user R V u' (V.table.save u' b) b)) lift w h in
      let (re, d, rr, _) = on_db-eq-ok (λ b. saving_user R V u' (V.table.save u' b) b) w v r e in
      let same : v ≡ w' = ap (λ x. x.1) k in
      let res : r ≡ ok a = ap (λ x. x.0) k in
      elim (Option-cases (V.table.save u' w.db)) [
        | inl none_saved ↦ absurd (ground (arith, re, res, none_saved))
        | inr (b', saved) ↦ (
          ground (arith, re, res, saved),
          ground (arith, saved, d, ap (λ z. z.db) same),
          ap (λ z. z.redis) (sym same) ∙ rr,
        )
      ]

  -- Hashing a password changes nothing else.
  pub hashed-same :
      (salt original : String) (u : User)
      → let u' = hashed_on_update V.bcrypt salt original u in
        (u'.id ≡ u.id) × (u'.status ≡ u.status) × (u'.roles ≡ u.roles)
  hashed-same salt original u =
      elim (Bool-cases (not (u.password == "") && not (u.password == original))) [
        | inl e ↦ rw e (refl, refl, refl)
        | inr e ↦ rw e (refl, refl, refl)
      ]

  pub find_user-eq-ok :
      (id : String) (w w' : World R.Store B) (u : User)
      → find_user R V id w ≡ (ok u, w')
      → (V.table.find_one_by_id id w.db ≡ some u)
        × (w'.db ≡ w.db)
        × (w'.redis ≡ w.redis)
        × (w'.now ≡ w.now)
  unfolding find_user
  find_user-eq-ok id w w' u h =
      let (o, v, e, k) =
        >>=-eq-ok (on_db (λ b. (V.table.find_one_by_id id b, b))) (found_user R V user_not_found) w
          h in
      let (oe, d, r, q) = on_db-eq-ok (λ b. (V.table.find_one_by_id id b, b)) w v o e in
      let (here, same) = found_user-eq-ok R V user_not_found o v w' u k in
      (
        sym oe ∙ here,
        ap (λ z. z.db) same ∙ d,
        ap (λ z. z.redis) same ∙ r,
        ap (λ z. z.now) same ∙ q.now,
      )
