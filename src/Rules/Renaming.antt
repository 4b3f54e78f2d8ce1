-- ===== src/Rules/Renaming.antt =====
-- How the cache follows a patch, which may rename the rule's key.
use auth_microservice.Prelude.{
  String, ◌≡◌, refl, ◌≢◌, inl, inr, some, [], ◌∷◌, arith, ◌==◌, eq_iff, eq_refl, Bool-cases,
  Option-cases, truthy,
}
use auth_microservice.Redis.{Redis}
use auth_microservice.Exec.{World, calm, pure, ◌>>=◌, ◌>>◌}
use auth_microservice.Permissions.{PermissionTable}
use auth_microservice.Rules.{Rule, RuleTable}
use auth_microservice.Rules.Reading.{Coherent}
use auth_microservice.Rules.Coherence.{
  CoherentOutside, dropped_store, dropped-CoherentOutside, loaded-CoherentOutside,
  save-CoherentOutside, Coherent-of_outside_none,
}
use auth_microservice.Rules.Editing.{PatchRule, merge, save_rule, follow, update}
use auth_microservice.Rules.Following.{
  Keeps, load-Keeps, find_rule-Keeps, recover-Keeps, continue-Keeps,
}

module _ (R : Redis) {B : Type 0} (T : RuleTable B) (P : PermissionTable B) where
  follow-Keeps :
      (old key : String) (saved : Rule) (w : World R.Store B)
      → key ≢ ""
      → saved.endpoint_key_name ≡ key
      → CoherentOutside R T (old ∷ key ∷ []) w.redis w.db
      → Keeps R T P (follow R T P old (truthy (some key)) saved (calm w))
  unfolding follow
  follow-Keeps old key saved w named is co = elim (Bool-cases (key == "")) [
    | inl empty ↦ absurd (named ((eq_iff key "").0 empty))
    | inr full ↦ elim (Bool-cases (key == old)) [
      | inr other ↦
          rw (full, other)
            (load-Keeps R T P key (record w { redis = dropped_store R old w.redis })
              (Coherent-of_outside_none R T _ w.db (
                loaded-CoherentOutside R T key [] _ w.db
                  (dropped-CoherentOutside R T old (key ∷ []) w.redis w.db co))))
      | inl same ↦
          rw (full, same, is)
            (load-Keeps R T P key w (
              Coherent-of_outside_none R T _ w.db (
                loaded-CoherentOutside R T key [] w.redis w.db (record {
                  serves = λ k c out hit.
                      co.serves k c (ground (arith, out, (eq_iff key old).0 same)) hit;
                }))))
    ]
  ]

  save_followed-Keeps :
      (r : Rule) (dto : PatchRule) (w : World R.Store B)
      → T.find_one_by_id r.id w.db ≡ some r
      → dto.endpoint_key_name ≢ ""
      → Coherent R T w.redis w.db
      → Keeps R T P (
          (do
            saved ← save_rule R T P (merge r dto)
            follow R T P r.endpoint_key_name (truthy (some dto.endpoint_key_name)) saved
            pure saved)
            (calm w))
  unfolding save_rule
  save_followed-Keeps r dto w here named co = elim (Option-cases (T.save (merge r dto) w.db)) [
    | inl taken ↦ rw taken co
    | inr (b', saved) ↦ rw saved (
        continue-Keeps R T P (merge r dto) _ (
          follow-Keeps r.endpoint_key_name dto.endpoint_key_name (merge r dto)
            (record w { db = b' }) named refl
            (save-CoherentOutside R T (merge r dto)
              (r.endpoint_key_name ∷ dto.endpoint_key_name ∷ []) w.redis w.db b' saved
              (ground (arith, eq_refl dto.endpoint_key_name))
              (λ r' e. ground (arith, here, e, eq_refl r.endpoint_key_name)) co)))
  ]

  pub update-Keeps :
      (id : String) (dto : PatchRule) (w : World R.Store B)
      → dto.endpoint_key_name ≢ ""
      → Coherent R T w.redis w.db
      → Keeps R T P (update R T P id dto (calm w))
  unfolding update
  update-Keeps id dto w named co =
      recover-Keeps R T P _ _
        (find_rule-Keeps R T P _ id w co (λ r here. save_followed-Keeps r dto w here named co))
