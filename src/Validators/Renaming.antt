-- ===== src/Validators/Renaming.antt =====
-- What the checks let through to the update of a role.
use auth_microservice.Prelude.{
  String, ◌≡◌, refl, sym, ap, subst, ◌∙◌, ◌≢◌, inl, inr, Bool, true, false, not, Option, none, some,
  List, [], ◌∷◌, arith, ◌==◌, eq_iff, eq_refl, Bool-cases, truthy, any, In,
}
use auth_microservice.Failure.{Failure, wrap}
use auth_microservice.Redis.{Redis}
use auth_microservice.Exec.{World, Exec, pure, on_db, ◌>>=◌, >>=-eq-ok, attempt-eq-ok, ok}
use auth_microservice.Exec.Inversion.{on_db-eq-ok}
use auth_microservice.Permissions.{PermissionTable}
use auth_microservice.Users.{Role}
use auth_microservice.Roles.{
  RoleTable, RoleChange, merge_role, found_role, find_role, save_role, update_role,
}
use auth_microservice.Roles.Assigning.{save_role-eq-ok, found_role-eq-ok}
use auth_microservice.Validation.{ValidationError, exception_factory}
use auth_microservice.Validators.{
  matches, validate_given, validate, role_fields, role_errors, refused_by, validated,
  edit_role_handler,
}

any-In : {A : Type 0} (p : A → Bool) (x : A) (xs : List A) → In x xs → p x ≡ true → any p xs ≡ true
any-In p x [] i h = absurd i
any-In p x (y ∷ ys) (inl e) h = let k : p y ≡ true = rw e h in ground (arith, k)
any-In p x (y ∷ ys) (inr i) h = let k = any-In p x ys i h in ground (arith, k)

module _ {S B : Type 0} (names : B → List (String × String)) where
  -- The check of a name that is not empty, where the body names no id.
  validate-eq-ok :
      (dto : RoleChange) (w v : World S B) (unique : Bool)
      → validate names none (role_fields dto) (some dto.name) w ≡ (ok unique, v)
      → dto.name ≢ ""
      → (v.db ≡ w.db) × (unique ≡ not (any (matches dto.name none) (names w.db)))
  unfolding validate
  validate-eq-ok dto w v unique h full =
      let ask : B → Bool × B = λ b. (any (matches dto.name none) (names b), b) in
      let given : truthy (some dto.name) ≡ some dto.name = ground (arith, eq_iff dto.name "") in
      let (exists, u, e, k) =
        >>=-eq-ok (on_db ask) (λ exists. pure (not exists)) w
          (subst (λ o. validate_given names none o w ≡ (ok unique, v)) given h) in
      let (is, d, _, _) = on_db-eq-ok ask w u exists e in
      let same : u ≡ v = ap (λ z. z.1) k in
      let answer_is : ok (not exists) ≡ ok unique = ap (λ z. z.0) k in
      (rw (← same) d, ground (arith, answer_is, is))

module _ {S B A : Type 0} where
  refused_by_never : (o : Option Failure) (w w' : World S B) (a : A) → refused_by o w ≢ (ok a, w')
  refused_by_never none w w' a h = absurd (ground arith)
  refused_by_never (some e) w w' a h = absurd (ground arith)

  -- The pipe lets a request through only without errors.
  validated-eq-ok :
      (es : List ValidationError) (handler : Exec S B A) (w w' : World S B) (a : A)
      → validated es handler w ≡ (ok a, w')
      → (es ≡ []) × (handler w ≡ (ok a, w'))
  validated-eq-ok [] handler w w' a h = (refl, h)
  validated-eq-ok (e ∷ es) handler w w' a h =
      absurd (refused_by_never (exception_factory (e ∷ es)) w w' a h)

role_errors-none :
    (name : String) (unique : Bool) → role_errors name unique ≡ [] → (name ≢ "") × (unique ≡ true)
role_errors-none name unique h = elim (Bool-cases (name == "")) [
  | inl e ↦ absurd (ground (arith, e, h))
  | inr e ↦ (λ k. absurd (ground (arith, e, eq_iff name "", k)), ground (arith, e, h))
]

module _ (R : Redis) {B : Type 0} (L : RoleTable B) (P : PermissionTable B)
    (names : B → List (String × String))
    (lists : (i : String) (r : Role) (b : B)
      → L.find_one_by_id i b ≡ some r
      → In (r.id, r.name) (names b)) where
  update_role-eq-ok :
      (id : String) (dto : RoleChange) (w w' : World R.Store B) (saved : Role)
      → update_role R L P id dto w ≡ (ok saved, w')
      → (r : Role) × (L.find_one_by_id id w.db ≡ some r)
        × (saved ≡ merge_role r dto)
        × (L.find_one_by_id id w'.db ≡ some saved)
  unfolding update_role find_role
  update_role-eq-ok id dto w w' saved h =
      let (r, v, e, k) =
        >>=-eq-ok (find_role R L P id) (λ r. save_role R L P (merge_role r dto)) w
          (attempt-eq-ok (find_role R L P id >>= λ r. save_role R L P (merge_role r dto))
            (wrap "RolesException" "Role update failed" "ROLE_NOT_UPDATED" 500) w h) in
      let (o, u, f, g) =
        >>=-eq-ok (on_db (λ b. (L.find_one_by_id id b, b))) (found_role R L P) w e in
      let (is, d, _, _) = on_db-eq-ok (λ b. (L.find_one_by_id id b, b)) w u o f in
      let (here, same) = found_role-eq-ok R L P o u v r g in
      let (saved_is, stored) = save_role-eq-ok R L P (merge_role r dto) saved v w' k in
      let row : L.find_one_by_id id w.db ≡ some r = sym is ∙ here in
      let same_id : r.id ≡ id = L.by_id id r w.db row in
      (
        r,
        row,
        saved_is,
        L.id-save (merge_role r dto) id v.db w'.db stored
            ∙ ground (arith, same_id, eq_refl id, saved_is),
      )

  -- Whatever calls fail, a request that changes a role succeeds only with a name that is not empty and that
  -- no role has, the role itself included: it always renames the role. So the restriction of a
  -- role cannot be changed while its name stays.
  pub edit_role_handler-renames :
      (id : String) (dto : RoleChange) (w w' : World R.Store B) (saved : Role)
      → edit_role_handler R L P names id dto w ≡ (ok saved, w')
      → (dto.name ≢ "")
        × (any (matches dto.name none) (names w.db) ≡ false)
        × (r : Role) × (L.find_one_by_id id w.db ≡ some r)
        × (r.name ≢ dto.name)
        × (saved ≡ merge_role r dto)
        × (L.find_one_by_id id w'.db ≡ some saved)
  unfolding edit_role_handler
  edit_role_handler-renames id dto w w' saved h =
      let (unique, v, e, k) =
        >>=-eq-ok (validate names none (role_fields dto) (some dto.name)) _ w h in
      let (clean, update) =
        validated-eq-ok (role_errors dto.name unique) (update_role R L P id dto) v w' saved k in
      let (full, is_unique) = role_errors-none dto.name unique clean in
      let (d, answer_is) = validate-eq-ok names dto w v unique e full in
      let (r, row, is, stored) = update_role-eq-ok id dto v w' saved update in
      let here : L.find_one_by_id id w.db ≡ some r = rw (← d) row in
      let free : any (matches dto.name none) (names w.db) ≡ false =
        ground (arith, is_unique, answer_is) in
      (
        full,
        free,
        r,
        here,
        (λ same. absurd (
            ground (
              arith,
              free,
              any-In (matches dto.name none) (r.id, r.name) (names w.db) (lists id r w.db here)
                  (rw same (eq_refl dto.name)),
            ))),
        is,
        stored,
      )
