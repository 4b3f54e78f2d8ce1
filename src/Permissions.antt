-- ===== src/Permissions.antt =====
-- src/services/permissions/permissions.service.ts and permissions.repository.ts: the lookup by id,
-- which the other services call. The table is the interface `PermissionTable`; its state `B` is
-- the whole database.
pub mod Editing
use auth_microservice.Prelude.{
  String, ◌≡◌, refl, inl, inr, Option, none, some, List, [], ◌∷◌, map, Option-cases,
}
use auth_microservice.Failure.{Failure, thrown}
use auth_microservice.Exec.{
  World, calm, Result, Exec, pure, raise, on_db, ◌>>=◌, Result-cases, ok, err,
}

-- src/entities/permission.entity.ts
pub record Permission : Type 0 where
  pub id : String
  pub code : String

pub record PermissionTable (B : Type 0) : Type 0 where
  pub find_one_by_id : String → B → Option Permission

abbrev pub permission_codes_of : List Permission → List String
permission_codes_of ps = map (λ (p : Permission). p.code) ps

abbrev pub permission_not_found : Failure
permission_not_found =
    thrown "PermissionsException" "Permission not found" "PERMISSION_NOT_FOUND" 404

module _ {S B : Type 0} (P : PermissionTable B) where
  unfoldable pub or_missing : Option Permission → Exec S B Permission
  or_missing none = raise permission_not_found
  or_missing (some p) = pure p

  unfoldable pub find_permission : String → Exec S B Permission
  unfolding on_db or_missing
  find_permission id = on_db (λ b. (P.find_one_by_id id b, b)) >>= or_missing

  -- `Promise.all(ids.map((id) => this.permissionService.findOne(id)))`, one lookup after the other.
  unfoldable pub find_permissions : List String → Exec S B (List Permission)
  unfolding find_permission
  find_permissions [] = pure []
  find_permissions (id ∷ ids) =
      let later = find_permissions ids in do p ← find_permission id; ps ← later; pure (p ∷ ps)

module _ {S B : Type 0} (P : PermissionTable B) where
  -- Looking permissions up changes nothing.
  pub find_permissions-calm :
      (ids : List String) (w : World S B)
      → (r : Result (List Permission)) × (find_permissions P ids (calm w) ≡ (r, calm w))
  unfolding find_permissions
  find_permissions-calm [] w = (ok [], refl)
  find_permissions-calm (id ∷ ids) w = elim (Option-cases (P.find_one_by_id id w.db)) [
    | inl e ↦ (err permission_not_found, rw (e, or_missing))
    | inr (p, e) ↦
        let (r, es) = find_permissions-calm ids w in
        elim (Result-cases r) [
          | inl (ps, k) ↦ (ok (p ∷ ps), rw (e, or_missing, es, k))
          | inr (f, k) ↦ (err f, rw (e, or_missing, es, k))
        ]
  ]
