-- ===== src/ApiKeys/Coherence.antt =====
-- How the cache of the keys follows the operations, while Redis and the database answer.
use auth_microservice.Prelude.{
  String, ◌≡◌, inl, inr, true, false, none, some, arith, ◌==◌, eq_iff, Bool-cases, Option-cases,
}
use auth_microservice.Redis.{Redis, perform_all, api_key_fp}
use auth_microservice.ApiKeys.{
  ApiKey, ApiKeyTable, find_by_fingerprint, cache_commands, drop_commands,
}
use auth_microservice.ApiKeys.Lookup.{KeysCoherent}
use auth_microservice.ApiKeys.Deactivation.{get-cache_commands, get-drop_commands}

module _ (R : Redis) {B : Type 0} (T : ApiKeyTable B) where
  -- A saved row leaves the rows of the other fingerprints alone.
  row-save_other :
      (k k0 : ApiKey) (f : String) (b b' : B)
      → T.find_one_by_id k.id b ≡ some k0
      → k0.key_fingerprint ≡ k.key_fingerprint
      → T.save k b ≡ some b'
      → (k.key_fingerprint == f) ≡ false
      → T.row_by_fingerprint f b' ≡ T.row_by_fingerprint f b
  row-save_other k k0 f b b' here same saved other =
      elim (Option-cases (T.row_by_fingerprint f b)) [
        | inl e ↦ ground (arith, T.fingerprint-save k f b b' saved, e, other)
        | inr (r, e) ↦ ground (
          arith,
          T.fingerprint-save k f b b' saved,
          e,
          other,
          T.by_fingerprint f r b e,
          eq_iff r.id k.id,
          eq_iff k.key_fingerprint f,
          here,
          same,
        )
      ]

  -- A row saved active, and put into the cache.
  pub cached-KeysCoherent :
      (k k0 : ApiKey) (s s' : R.Store) (b b' : B)
      → T.find_one_by_id k.id b ≡ some k0
      → k0.key_fingerprint ≡ k.key_fingerprint
      → k.active ≡ true
      → T.save k b ≡ some b'
      → ((f : String)
          → (k.key_fingerprint == f) ≡ false
          → R.get (api_key_fp f) s' ≡ R.get (api_key_fp f) s)
      → KeysCoherent R T s b
      → KeysCoherent R T (perform_all R (cache_commands k) s') b'
  cached-KeysCoherent k k0 s s' b b' here same on saved agree co = record {
    serves = λ f v hit. elim (Bool-cases (k.key_fingerprint == f)) [
      | inl e ↦ (
        k,
        ground (arith, T.fingerprint-save k f b b' saved, e, on),
        ground (arith, get-cache_commands R k f s', hit, e),
      )
      | inr e ↦
          let (k', row, is) =
            co.serves f v (ground (arith, get-cache_commands R k f s', agree f e, hit, e)) in
          (k', rw (row-save_other k k0 f b b' here same saved e) row, is)
    ];
  }

  -- A row that is there already, put into the cache again.
  pub recached-KeysCoherent :
      (k : ApiKey) (s : R.Store) (b : B)
      → find_by_fingerprint T k.key_fingerprint b ≡ some k
      → KeysCoherent R T s b
      → KeysCoherent R T (perform_all R (cache_commands k) s) b
  recached-KeysCoherent k s b here co = record {
    serves = λ f v hit. elim (Bool-cases (k.key_fingerprint == f)) [
      | inl e ↦ (
        k,
        ground (arith, here, eq_iff k.key_fingerprint f, e),
        ground (arith, get-cache_commands R k f s, hit, e),
      )
      | inr e ↦ co.serves f v (ground (arith, get-cache_commands R k f s, hit, e))
    ];
  }

  pub dropped-KeysCoherent :
      (g : String) (s : R.Store) (b : B)
      → KeysCoherent R T s b
      → KeysCoherent R T (perform_all R (drop_commands g) s) b
  dropped-KeysCoherent g s b co = record {
    serves = λ f v hit. co.serves f v (ground (arith, get-drop_commands R g f s, hit));
  }

  -- A row saved, with nothing cached for it.
  pub shut-KeysCoherent :
      (k k0 : ApiKey) (s : R.Store) (b b' : B)
      → T.find_one_by_id k.id b ≡ some k0
      → k0.key_fingerprint ≡ k.key_fingerprint
      → T.save k b ≡ some b'
      → KeysCoherent R T s b
      → KeysCoherent R T (perform_all R (drop_commands k.key_fingerprint) s) b'
  shut-KeysCoherent k k0 s b b' here same saved co = record {
    serves = λ f v hit. elim (Bool-cases (k.key_fingerprint == f)) [
      | inl e ↦ absurd (ground (arith, get-drop_commands R k.key_fingerprint f s, hit, e))
      | inr e ↦
          let (k', row, is) =
            co.serves f v (ground (arith, get-drop_commands R k.key_fingerprint f s, hit, e)) in
          (k', rw (row-save_other k k0 f b b' here same saved e) row, is)
    ];
  }

  -- A new row, whose fingerprint no other row has.
  pub inserted-KeysCoherent :
      (k : ApiKey) (s : R.Store) (b b' : B)
      → T.find_one_by_id k.id b ≡ none
      → T.save k b ≡ some b'
      → KeysCoherent R T s b
      → KeysCoherent R T s b'
  inserted-KeysCoherent k s b b' fresh saved co = record {
    serves = λ f v hit.
        let (k', row, is) = co.serves f v hit in
        elim (Option-cases (T.row_by_fingerprint f b)) [
          | inl e ↦ absurd (ground (arith, e, row))
          | inr (r, e) ↦ (
            k',
            ground (
              arith,
              e,
              row,
              T.fingerprint-save k f b b' saved,
              T.save-unique k r b b' saved,
              T.by_fingerprint f r b e,
              eq_iff r.id k.id,
              eq_iff k.key_fingerprint f,
              fresh,
            ),
            is,
          )
        ];
  }
