-- ===== src/Tests/Permissions.antt =====
-- The theorem on permissions at a database whose one row is a permission.
use auth_microservice.Prelude.{
  String, ◌≡◌, refl, Option, none, some, [], arith, ◌==◌, eq_iff, if◌then◌else◌,
}
use auth_microservice.Permissions.{Permission, PermissionTable}
use auth_microservice.Permissions.Editing.{PermissionWriter, update_permission}
use auth_microservice.Exec.{World, ok}
use auth_microservice.Tests.Memory.{Memory, empty_memory}

abbrev permission_by_id : String → Option Permission → Option Permission
permission_by_id i none = none
permission_by_id i (some p) = if p.id == i then some p else none

abbrev put_permission : Permission → Option Permission → Option (Option Permission)
put_permission p none = some (some p)
put_permission p (some old) = if p.id == old.id then some (some p) else none

permission_by_id-eq-some :
    (i : String) (p : Permission) (o : Option Permission) → permission_by_id i o ≡ some p → p.id ≡ i
permission_by_id-eq-some i p none h = absurd (ground arith)
permission_by_id-eq-some i p (some old) h = ground (arith, eq_iff old.id i)

permission_by_id-put_permission :
    (p : Permission) (i : String) (o o' : Option Permission)
    → put_permission p o ≡ some o'
    → permission_by_id i o' ≡ (if p.id == i then some p else permission_by_id i o)
permission_by_id-put_permission p i none o' h = ground arith
permission_by_id-put_permission p i (some old) o' h =
    ground (arith, eq_iff p.id old.id, eq_iff old.id i)

abbrev one_permission : PermissionTable (Option Permission)
one_permission = record { find_one_by_id = permission_by_id }

abbrev writer_of_one : PermissionWriter one_permission
writer_of_one = record {
  new_id = λ o. "p1";
  save = put_permission;
  remove = λ p o. some none;
  by_id = permission_by_id-eq-some;
  id-save = permission_by_id-put_permission;
}

abbrev reading : Permission
reading = record { id = "p1"; code = "READ" }

abbrev viewing : Permission
viewing = record { id = "p1"; code = "VIEW" }

abbrev w_permission : World Memory (Option Permission)
w_permission = record {
  redis = empty_memory;
  db = some reading;
  schedule = [];
  now = 0;
  user = none;
}

abbrev w_permission_after : World Memory (Option Permission)
w_permission_after = record w_permission { db = some viewing }

updated :
    update_permission one_permission writer_of_one "p1" "VIEW" w_permission
    ≡ (ok viewing, w_permission_after)
unfolding update_permission
updated = refl
