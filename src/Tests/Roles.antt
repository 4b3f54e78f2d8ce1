-- ===== src/Tests/Roles.antt =====
-- The theorems on roles at a database whose one row is a role.
use auth_microservice.Prelude.{
  String, ◌≡◌, refl, ◌≢◌, ◌⊎◌, inl, true, false, Option, none, some, List, [], ◌∷◌, arith, ◌==◌,
  eq_iff, if◌then◌else◌, any, In,
}
use auth_microservice.Permissions.{PermissionTable}
use auth_microservice.Users.{Role}
use auth_microservice.Failure.{Failure, wrap}
use auth_microservice.Exec.{World, calm, answered, refused, ok, err}
use auth_microservice.Roles.{
  RoleTable, RoleChange, merge_role, assign_role_permissions, refresh_by_role,
}
use auth_microservice.Roles.Assigning.{saving, IsAssigned, assign_role_permissions-saving}
use auth_microservice.Validation.{bad_request}
use auth_microservice.Validators.{matches, edit_role_handler}
use auth_microservice.Validators.Renaming.{edit_role_handler-renames}
use auth_microservice.Tests.Memory.{Memory, memory, empty_memory}

abbrev role_by_id : String → Option Role → Option Role
role_by_id i none = none
role_by_id i (some r) = if r.id == i then some r else none

abbrev put_role : Role → Option Role → Option (Option Role)
put_role r none = some (some r)
put_role r (some old) = if r.id == old.id then some (some r) else none

role_by_id-eq-some : (i : String) (r : Role) (o : Option Role) → role_by_id i o ≡ some r → r.id ≡ i
role_by_id-eq-some i r none h = absurd (ground arith)
role_by_id-eq-some i r (some old) h = ground (arith, eq_iff old.id i)

role_by_id-put_role :
    (r : Role) (i : String) (o o' : Option Role)
    → put_role r o ≡ some o'
    → role_by_id i o' ≡ (if r.id == i then some r else role_by_id i o)
role_by_id-put_role r i none o' h = ground arith
role_by_id-put_role r i (some old) o' h = ground (arith, eq_iff r.id old.id, eq_iff old.id i)

abbrev roles : RoleTable (Option Role)
roles = record {
  find_one_by_id = role_by_id;
  users_of = λ i o. [];
  new_id = λ o. "role1";
  save = put_role;
  remove = λ r o. some none;
  by_id = role_by_id-eq-some;
  id-save = role_by_id-put_role;
}

abbrev role_permissions : PermissionTable (Option Role)
role_permissions = record {
  find_one_by_id = λ id o. if id == "p2" then some (record { id = "p2"; code = "WRITE" }) else none;
}

abbrev reader : Role
reader = record { id = "role1"; name = "reader"; is_restricted = false; permissions = [] }

abbrev writer : Role
writer = record reader { permissions = record { id = "p2"; code = "WRITE" } ∷ [] }

-- The query of the users to refresh fails.
abbrev w_role : World Memory (Option Role)
w_role = record {
  redis = empty_memory;
  db = some reader;
  schedule = answered ∷ answered ∷ answered ∷ refused ∷ [];
  now = 0;
  user = none;
}

abbrev w_role_after : World Memory (Option Role)
w_role_after = record w_role { db = some writer; schedule = [] }

assigned :
    assign_role_permissions memory roles role_permissions "role1" ("p2" ∷ []) w_role
    ≡ (ok writer, w_role_after)
unfolding assign_role_permissions
assigned = refl

assign_role_permissions-saving_example :
    let found = saving memory roles role_permissions "role1" ("p2" ∷ []) w_role in
    let answer = assign_role_permissions memory roles role_permissions "role1" ("p2" ∷ []) w_role in
    ((e : Failure) × (found.0 ≡ err e)
      × (answer.0
          ≡ err (
              wrap "RolesException" "Permission assignment failed" "ROLE_PERMISSION_ASSIGN_ERROR"
                500 e)))
    ⊎ ((saved : Role) × (found.0 ≡ ok saved)
        × (answer.0 ≡ ok saved)
        × (answer.1 ≡ (refresh_by_role memory roles role_permissions "role1" found.1).1)
        × IsAssigned memory roles role_permissions "role1" ("p2" ∷ []) w_role answer.1 saved)
assign_role_permissions-saving_example =
    assign_role_permissions-saving memory roles role_permissions "role1" ("p2" ∷ []) w_role

abbrev names : Option Role → List (String × String)
names none = []
names (some r) = (r.id, r.name) ∷ []

names-In :
    (i : String) (r : Role) (o : Option Role)
    → role_by_id i o ≡ some r
    → In (r.id, r.name) (names o)
names-In i r none h = absurd (ground arith)
names-In i r (some old) h = inl (ground (arith, h, eq_iff old.id i))

abbrev auditor_change : RoleChange
auditor_change = record { name = "auditor"; is_restricted = true }

abbrev w_calm : World Memory (Option Role)
w_calm = calm w_role

abbrev auditor : Role
auditor = merge_role reader auditor_change

abbrev w_auditor : World Memory (Option Role)
w_auditor = record w_calm { db = some auditor }

renamed :
    edit_role_handler memory roles role_permissions names "role1" auditor_change w_calm
    ≡ (ok auditor, w_auditor)
unfolding edit_role_handler
renamed = refl

edit_role_handler-renames_example :
    (auditor_change.name ≢ "")
    × (any (matches "auditor" none) (names w_calm.db) ≡ false)
    × (r : Role) × (role_by_id "role1" w_calm.db ≡ some r)
    × (r.name ≢ auditor_change.name)
    × (auditor ≡ merge_role r auditor_change)
    × (role_by_id "role1" w_auditor.db ≡ some auditor)
edit_role_handler-renames_example =
    edit_role_handler-renames memory roles role_permissions names names-In "role1" auditor_change
      w_calm w_auditor auditor renamed

-- The same name with another restriction is turned down.
abbrev restriction : RoleChange
restriction = record { name = "reader"; is_restricted = true }

same_name_refused :
    edit_role_handler memory roles role_permissions names "role1" restriction w_calm ≡ (
      err (
          bad_request "ROLE_ALREADY_EXISTS"
            "This role name is already register. Please choose another one."),
      w_calm,
    )
unfolding edit_role_handler
same_name_refused = refl
