-- ===== src/Sessions/Refresh.antt =====
-- What `refreshSessionPermissions` does to the sessions of a user.
use auth_microservice.Prelude.{
  ℕ, String, ◌≡◌, refl, ◌∙◌, Bool, true, false, ◌&&◌, Option, none, some, List, [], ◌∷◌, arith,
  ◌==◌, eq_iff, eq_refl, if◌then◌else◌, includes,
}
use auth_microservice.Redis.{
  Value, Key, same_key, ttl_after, Redis, found, perform, perform_all, session, auth_session,
  user_sessions, keep_ttl,
}
use auth_microservice.Sessions.{refresh_command, m_get, refresh_commands}

-- The new text under a session's key, from the text that was read and the text that is there.
abbrev pub updated : List String → Option Value → Option Value → Option Value
updated permissions (some (session s)) old = some (session (record s { permissions = permissions }))
updated permissions _ old = old

-- Whether a text is a session.
abbrev pub is_session : Option Value → Bool
is_session (some (session s)) = true
is_session _ = false

updated_twice :
    (permissions : List String) (raw old : Option Value)
    → updated permissions raw (updated permissions raw old) ≡ updated permissions raw old
updated_twice permissions none old = refl
updated_twice permissions (some (session s)) old = refl
updated_twice permissions (some _) old = refl

keep_either : (b : Bool) (n : Option ℕ) → (if b then ttl_after keep_ttl n else n) ≡ n
keep_either true n = refl
keep_either false n = refl

module _ (R : Redis) (user_id : String) (permissions : List String) where
  get-refresh_command :
      (x sid : String) (raw : Option Value) (s : R.Store)
      → R.get (auth_session sid) (perform R (refresh_command user_id permissions (x, found raw)) s)
        ≡ (if x == sid
            then updated permissions raw (R.get (auth_session sid) s)
            else R.get (auth_session sid) s)
  unfolding refresh_command
  get-refresh_command x sid none s =
      ground (arith, R.get-s_rem (user_sessions user_id) x (auth_session sid) s)
  get-refresh_command x sid (some (session v)) s = R.get-set _ _ _ _ s
  get-refresh_command x sid (some _) s =
      ground (arith, R.get-s_rem (user_sessions user_id) x (auth_session sid) s)

  pub get-refresh_commands :
      (sids : List String) (sid : String) (old s : R.Store)
      → R.get
          (auth_session sid)
          (perform_all R (refresh_commands user_id permissions (m_get R sids old)) s)
        ≡ (if includes sids sid
            then updated permissions (R.get (auth_session sid) old) (R.get (auth_session sid) s)
            else R.get (auth_session sid) s)
  get-refresh_commands [] sid old s = refl
  get-refresh_commands (x ∷ xs) sid old s =
      let next =
        perform R (refresh_command user_id permissions (x, found (R.get (auth_session x) old))) s in
      ground (
        arith,
        get-refresh_commands xs sid old next,
        get-refresh_command x sid (R.get (auth_session x) old) s,
        eq_iff x sid,
        updated_twice permissions (R.get (auth_session sid) old) (R.get (auth_session sid) s),
      )

  ttl-refresh_command :
      (x : String) (raw : Option Value) (j : Key) (s : R.Store)
      → R.ttl j (perform R (refresh_command user_id permissions (x, found raw)) s) ≡ R.ttl j s
  unfolding refresh_command
  ttl-refresh_command x none j s = R.ttl-s_rem _ _ _ s
  ttl-refresh_command x (some (session v)) j s =
      R.ttl-set keep_ttl (auth_session x) j (session (record v { permissions = permissions })) s
      ∙ keep_either (same_key (auth_session x) j) (R.ttl j s)
  ttl-refresh_command x (some _) j s = R.ttl-s_rem _ _ _ s

  pub ttl-refresh_commands :
      (sids : List String) (j : Key) (old s : R.Store)
      → R.ttl j (perform_all R (refresh_commands user_id permissions (m_get R sids old)) s)
        ≡ R.ttl j s
  ttl-refresh_commands [] j old s = refl
  ttl-refresh_commands (x ∷ xs) j old s =
      ttl-refresh_commands xs j old _ ∙ ttl-refresh_command x (R.get (auth_session x) old) j s

  members-refresh_command :
      (x y : String) (raw : Option Value) (s : R.Store)
      → includes
          (R.s_members
            (user_sessions user_id)
            (perform R (refresh_command user_id permissions (x, found raw)) s))
          y
        ≡ (if x == y
            then is_session raw && includes (R.s_members (user_sessions user_id) s) y
            else includes (R.s_members (user_sessions user_id) s) y)
  unfolding refresh_command
  members-refresh_command x y none s = ground (
    arith,
    R.members-s_rem (user_sessions user_id) (user_sessions user_id) x y s,
    eq_refl user_id,
  )
  members-refresh_command x y (some (session v)) s = ground (
    arith,
    R.members-set keep_ttl (auth_session x) (user_sessions user_id)
        (session (record v { permissions = permissions })) s,
  )
  members-refresh_command x y (some _) s = ground (
    arith,
    R.members-s_rem (user_sessions user_id) (user_sessions user_id) x y s,
    eq_refl user_id,
  )

  pub members-refresh_commands :
      (sids : List String) (y : String) (old s : R.Store)
      → includes
          (R.s_members
            (user_sessions user_id)
            (perform_all R (refresh_commands user_id permissions (m_get R sids old)) s))
          y
        ≡ (if includes sids y
            then is_session (R.get (auth_session y) old)
              && includes (R.s_members (user_sessions user_id) s) y
            else includes (R.s_members (user_sessions user_id) s) y)
  members-refresh_commands [] y old s = refl
  members-refresh_commands (x ∷ xs) y old s = ground (
    arith,
    members-refresh_commands xs y old
        (perform R (refresh_command user_id permissions (x, found (R.get (auth_session x) old))) s),
    members-refresh_command x y (R.get (auth_session x) old) s,
    eq_iff x y,
  )
