-- ===== src/Permissions/Editing.antt =====
-- src/services/permissions/permissions.service.ts: creating, updating and deleting permissions. The
-- table's writing operations are the interface `PermissionWriter`.
use auth_microservice.Prelude.{
  String, ◌≡◌, sym, ap, ◌∙◌, inl, inr, Option, none, some, [], arith, ◌==◌, eq_refl, if◌then◌else◌,
  Option-cases,
}
use auth_microservice.Failure.{Failure, wrap, plain}
use auth_microservice.Exec.{
  World, Result, Exec, raise, lift, attempt, on_db, ◌>>=◌, >>=-eq-ok, attempt-eq-ok, ok, err,
}
use auth_microservice.Exec.Inversion.{on_db-eq-ok}
use auth_microservice.Permissions.{Permission, PermissionTable, or_missing, find_permission}

-- `save` replaces the row with the entity's id or adds a row, and may be refused by the database
-- (`none`); `remove` is refused while a constraint protects the row.
pub record PermissionWriter {B : Type 0} (P : PermissionTable B) : Type 0 where
  pub new_id : B → String
  pub save : Permission → B → Option B
  pub remove : Permission → B → Option B
  pub by_id : (i : String) (p : Permission) (b : B) → P.find_one_by_id i b ≡ some p → p.id ≡ i
  pub id-save :
      (p : Permission) (i : String) (b b' : B)
      → save p b ≡ some b'
      → P.find_one_by_id i b' ≡ (if p.id == i then some p else P.find_one_by_id i b)

abbrev permission_refused : Failure
permission_refused = record { link = plain "QueryFailedError" "constraint violated"; causes = [] }

abbrev saving_permission : {B : Type 0} → Permission → Option B → B → Result Permission × B
saving_permission p none b = (err permission_refused, b)
saving_permission p (some b') b = (ok p, b')

abbrev removing_permission : {B : Type 0} → Option B → B → Result (Unit {0}) × B
removing_permission none b = (err permission_refused, b)
removing_permission (some b') b = (ok tt, b')

module _ {S B : Type 0} (P : PermissionTable B) (W : PermissionWriter P) where
  unfoldable save_permission : Permission → Exec S B Permission
  unfolding on_db
  save_permission p = on_db (λ b. saving_permission p (W.save p b) b) >>= lift

  unfoldable create_permission : (code : String) → Exec S B Permission
  unfolding on_db wrap
  create_permission code =
      attempt
        (on_db (λ b.
            let p : Permission = record { id = W.new_id b; code = code } in
            saving_permission p (W.save p b) b)
          >>= lift)
        (λ e. raise (
          wrap "PermissionsException" "Permission creation failed" "CREATE_PERMISSION_FAILED" 500
            e))

  unfoldable pub update_permission : (id code : String) → Exec S B Permission
  unfolding find_permission save_permission wrap
  update_permission id code =
      attempt (find_permission P id >>= λ p. save_permission (record p { code = code })) (λ e.
        raise
          (wrap "PermissionsException" "Permission update failed" "UPDATE_PERMISSION_FAILED" 500 e))

  unfoldable delete_permission : (id : String) → Exec S B (Unit {0})
  unfolding find_permission on_db wrap
  delete_permission id =
      attempt
        (find_permission P id >>= λ p. on_db (λ b. removing_permission (W.remove p b) b) >>= lift)
        (λ e. raise (
          wrap "PermissionsException" "Permission deletion failed" "DELETE_PERMISSION_FAILED" 500
            e))

  save_permission-eq-ok :
      (p a : Permission) (w w' : World S B)
      → save_permission p w ≡ (ok a, w')
      → (a ≡ p) × (W.save p w.db ≡ some w'.db) × (w'.redis ≡ w.redis)
  unfolding save_permission
  save_permission-eq-ok p a w w' h =
      let (x, v, e, k) = >>=-eq-ok (on_db (λ b. saving_permission p (W.save p b) b)) lift w h in
      let (xe, d, rd, _) = on_db-eq-ok (λ b. saving_permission p (W.save p b) b) w v x e in
      let same : v ≡ w' = ap (λ z. z.1) k in
      let res : x ≡ ok a = ap (λ z. z.0) k in
      elim (Option-cases (W.save p w.db)) [
        | inl refused_row ↦ absurd (ground (arith, xe, res, refused_row))
        | inr (b', saved) ↦ (
          ground (arith, xe, res, saved),
          ground (arith, saved, d, ap (λ z. z.db) same),
          ap (λ z. z.redis) (sym same) ∙ rd,
        )
      ]

  or_missing-eq-ok :
      (o : Option Permission) (w w' : World S B) (p : Permission)
      → or_missing P o w ≡ (ok p, w')
      → (o ≡ some p) × (w' ≡ w)
  unfolding or_missing
  or_missing-eq-ok none w w' p h = absurd (ground arith)
  or_missing-eq-ok (some x) w w' p h = ground arith

  -- Whatever calls fail, an update that succeeded saved the row of the id with the new code and
  -- answered it. It leaves Redis as it was, so that the cached permissions of rules and keys, and the
  -- sessions, keep the code that the permission had.
  pub update_permission-saved :
      (id code : String) (w w' : World S B) (saved : Permission)
      → update_permission id code w ≡ (ok saved, w')
      → (p : Permission) × (P.find_one_by_id id w.db ≡ some p)
        × (saved ≡ record p { code = code })
        × (P.find_one_by_id id w'.db ≡ some saved)
        × (w'.redis ≡ w.redis)
  unfolding update_permission find_permission
  update_permission-saved id code w w' saved h =
      let (p, v, e, k) = >>=-eq-ok (find_permission P id) _ w (
        attempt-eq-ok (find_permission P id >>= λ p. save_permission (record p { code = code }))
          (wrap "PermissionsException" "Permission update failed" "UPDATE_PERMISSION_FAILED" 500) w
          h) in
      let (o, u, f, g) = >>=-eq-ok (on_db (λ b. (P.find_one_by_id id b, b))) (or_missing P) w e in
      let (oe, _, rd, _) = on_db-eq-ok (λ b. (P.find_one_by_id id b, b)) w u o f in
      let (here, same) = or_missing-eq-ok o u v p g in
      let (ae, stored, kept) = save_permission-eq-ok (record p { code = code }) saved v w' k in
      let row : P.find_one_by_id id w.db ≡ some p = sym oe ∙ here in
      (
        p,
        row,
        ae,
        W.id-save (record p { code = code }) id v.db w'.db stored
            ∙ (ground (arith, W.by_id id p w.db row, eq_refl id) ∙ ap some (sym ae)),
        kept ∙ (ap (λ z. z.redis) same ∙ rd),
      )
