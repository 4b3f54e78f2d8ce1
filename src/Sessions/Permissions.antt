-- ===== src/Sessions/Permissions.antt =====
-- `refreshSessionPermissions` as a whole: on a calm Redis and under any failures.
use auth_microservice.Prelude.{
  String, ◌≡◌, refl, ap, ◌⊎◌, inl, inr, ◌&&◌, Option, List, [], ◌∷◌, arith, if◌then◌else◌, includes,
}
use auth_microservice.Redis.{Value, Redis, perform_all, auth_session, user_sessions}
use auth_microservice.Exec.{World, calm, on_redis, ok}
use auth_microservice.Exec.Calls.{on_redis-outcome}
use auth_microservice.Sessions.{refresh_index, m_get, refresh_commands, refresh_session_permissions}
use auth_microservice.Sessions.Refresh.{
  updated, is_session, get-refresh_commands, ttl-refresh_commands, members-refresh_commands,
}

abbrev pub with_permissions : List String → Option Value → Option Value
with_permissions permissions o = updated permissions o o

-- Of the sessions before and after a refresh of one user's permissions.
pub record PermissionsRefreshed (R : Redis) (user_id : String) (permissions : List String)
    (before after : R.Store) : Type 0 where
  pub sessions :
      (sid : String)
      → R.get (auth_session sid) after ≡ (
          if includes (R.s_members (user_sessions user_id) before) sid
          then with_permissions permissions (R.get (auth_session sid) before)
          else R.get (auth_session sid) before)
  pub lifetimes : (sid : String) → R.ttl (auth_session sid) after ≡ R.ttl (auth_session sid) before
  pub index :
      (sid : String)
      → includes (R.s_members (user_sessions user_id) after) sid ≡ (
          includes (R.s_members (user_sessions user_id) before) sid
          && is_session (R.get (auth_session sid) before))

-- A session after a refresh that may have failed on the way.
abbrev pub SameOrRefreshed : (R : Redis) → List String → (sid : String) → R.Store → R.Store → Type 0
SameOrRefreshed R permissions sid before after =
    (R.get (auth_session sid) after ≡ R.get (auth_session sid) before)
    ⊎ (R.get (auth_session sid) after
        ≡ with_permissions permissions (R.get (auth_session sid) before))

module _ (R : Redis) (user_id : String) (permissions : List String) where
  index_refreshed :
      (sids : List String) (s : R.Store)
      → R.s_members (user_sessions user_id) s ≡ sids
      → PermissionsRefreshed R user_id permissions s
          (perform_all R (refresh_commands user_id permissions (m_get R sids s)) s)
  index_refreshed sids s e = record {
    sessions = λ sid. rw e (get-refresh_commands R user_id permissions sids sid s s);
    lifetimes = λ sid. ttl-refresh_commands R user_id permissions sids (auth_session sid) s s;
    index = λ sid. ground (arith, e, members-refresh_commands R user_id permissions sids sid s s);
  }

module _ (R : Redis) {B : Type 0} (user_id : String) (permissions : List String) where
  refresh_index-calm :
      (sids : List String) (w : World R.Store B)
      → refresh_index R user_id permissions sids (calm w) ≡ (
        ok tt,
        record (calm w) {
          redis =
              perform_all R (refresh_commands user_id permissions (m_get R sids w.redis)) w.redis;
        },
      )
  unfolding refresh_index
  refresh_index-calm [] w = refl
  refresh_index-calm (sid ∷ sids) w = refl

  -- While Redis answers, refreshing a user's permissions gives every session of the user's index the new
  -- permissions and changes nothing else of it, keeps every session's time to live, leaves the
  -- sessions outside the index alone, and drops from the index exactly the ids with no session.
  pub refresh_session_permissions-calm :
      (w : World R.Store B)
      → (after : R.Store) × (refresh_session_permissions R user_id permissions (calm w)
          ≡ (ok tt, record (calm w) { redis = after }))
        × PermissionsRefreshed R user_id permissions w.redis after
  unfolding refresh_session_permissions
  refresh_session_permissions-calm w = (
    _,
    refresh_index-calm (R.s_members (user_sessions user_id) w.redis) w,
    index_refreshed R user_id permissions (R.s_members (user_sessions user_id) w.redis) w.redis
        refl,
  )

  queue_step :
      (sids : List String) (sid : String) (old : R.Store) (w : World R.Store B)
      → w.redis ≡ old
      → SameOrRefreshed R permissions sid old
          (on_redis {A = Unit {0}}
            (λ s. (tt, perform_all R (refresh_commands user_id permissions (m_get R sids old)) s))
            w).1.redis
  queue_step sids sid old w same =
      elim (on_redis-outcome
        (λ s. (tt, perform_all R (refresh_commands user_id permissions (m_get R sids old)) s)) w) [
          | inl (v, e, r, _, _) ↦ rw (e, r) (performed w.redis same)
          | inr (v, e, inl r, _, _) ↦ rw (e, r) (inl (ap (R.get (auth_session sid)) same))
          | inr (v, e, inr r, _, _) ↦ rw (e, r) (performed w.redis same)
        ]
    where
      performed :
          (s : R.Store)
          → s ≡ old
          → SameOrRefreshed R permissions sid old
              (perform_all R (refresh_commands user_id permissions (m_get R sids old)) s)
      performed s e = ground (arith, get-refresh_commands R user_id permissions sids sid old s)

  refresh_index-SameOrRefreshed :
      (sids : List String) (sid : String) (w : World R.Store B)
      → SameOrRefreshed R permissions sid w.redis
          (refresh_index R user_id permissions sids w).1.redis
  unfolding refresh_index
  refresh_index-SameOrRefreshed [] sid w = inl refl
  refresh_index-SameOrRefreshed (x ∷ xs) sid w =
      elim (on_redis-outcome (λ s. (m_get R (x ∷ xs) s, s)) w) [
        | inl (v, e, r, _, _) ↦ rw e (queue_step (x ∷ xs) sid w.redis v r)
        | inr (v, e, inl r, _, _) ↦ rw (e, r) (inl refl)
        | inr (v, e, inr r, _, _) ↦ rw (e, r) (inl refl)
      ]

  -- Whatever calls fail, a refresh leaves each session as it was or changes its permissions to the new
  -- ones and nothing else: it neither loses, revives nor mixes up a session.
  pub refresh_session_permissions-SameOrRefreshed :
      (w : World R.Store B) (sid : String)
      → SameOrRefreshed R permissions sid w.redis
          (refresh_session_permissions R user_id permissions w).1.redis
  unfolding refresh_session_permissions
  refresh_session_permissions-SameOrRefreshed w sid =
      elim (on_redis-outcome (λ s. (R.s_members (user_sessions user_id) s, s)) w) [
        | inl (v, e, r, _, _) ↦
            rw (e, ← r)
              (refresh_index-SameOrRefreshed (R.s_members (user_sessions user_id) v.redis) sid v)
        | inr (v, e, inl r, _, _) ↦ rw (e, r) (inl refl)
        | inr (v, e, inr r, _, _) ↦ rw (e, r) (inl refl)
      ]
