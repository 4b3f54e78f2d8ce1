-- ===== src/Redis/Keys.antt =====
-- The texts of the keys, as src/services and src/cron build them. Keys of texts and keys of sets
-- share one namespace of the server, so that no two of them may be the same text.
use Prim.Native.Char.{code}
use Prim.Native.String.{◌++◌ as ◌<>◌}
use text.Mathlib.TextLemmas.{append_cancel_left, cons-append}
use auth_microservice.Prelude.{
  refl, ℕ, zero, suc, ◌<◌, ◌≢◌, sym, ◌∙◌, String, ◌≡◌, ap, ◌↔◌, true, arith, eq_iff,
}
use auth_microservice.Redis.{
  Key, SetKey, same_key, auth_session, reset_password, api_key_fp, epr, user_sessions, api_keys,
  epr_keys,
}

-- A character's code, and zero past the end.
abbrev code_at : ℕ → String → ℕ
code_at n String.[] = 0
code_at zero (String.◌∷◌ c s) = code c
code_at (suc n) (String.◌∷◌ c s) = code_at n s

code_at-append : (n : ℕ) (s t : String) → 0 < code_at n s → code_at n (s <> t) ≡ code_at n s
code_at-append n String.[] t h = absurd (omega arith)
code_at-append zero (String.◌∷◌ c s) t h = rw (cons-append c s t) refl
code_at-append (suc n) (String.◌∷◌ c s) t h = rw (cons-append c s t) (code_at-append n s t h)

-- Texts that differ at one character of their beginnings.
apart :
    (n : ℕ) (p q s t : String)
    → 0 < code_at n p
    → 0 < code_at n q
    → code_at n p ≢ code_at n q
    → p <> s ≢ q <> t
apart n p q s t hp hq d h =
    d (sym (code_at-append n p s hp) ∙ ap (code_at n) h ∙ code_at-append n q t hq)

apart_whole : (n : ℕ) (p q s : String) → 0 < code_at n p → code_at n p ≢ code_at n q → p <> s ≢ q
apart_whole n p q s hp d h = d (sym (code_at-append n p s hp) ∙ ap (code_at n) h)

unfoldable pub key_text : Key → String
key_text (auth_session s) = "auth_session:" <> s
key_text (reset_password s) = "reset_password:" <> s
key_text (api_key_fp s) = "api_key:fp:" <> s
key_text (epr s) = "epr:" <> s

unfoldable pub set_text : SetKey → String
set_text (user_sessions s) = "user_sessions:" <> s
set_text api_keys = "api_keys"
set_text epr_keys = "epr_keys"

same_key-key_text : (k j : Key) → key_text k ≡ key_text j → same_key k j ≡ true
unfolding key_text
same_key-key_text (auth_session s) (auth_session t) h =
    ground (arith, eq_iff s t, append_cancel_left "auth_session:" s t h)
same_key-key_text (auth_session s) (reset_password t) h =
    absurd (
      apart 0 "auth_session:" "reset_password:" s t (omega arith) (omega arith) (λ e. omega arith)
        h)
same_key-key_text (auth_session s) (api_key_fp t) h =
    absurd
      (apart 1 "auth_session:" "api_key:fp:" s t (omega arith) (omega arith) (λ e. omega arith) h)
same_key-key_text (auth_session s) (epr t) h =
    absurd (apart 0 "auth_session:" "epr:" s t (omega arith) (omega arith) (λ e. omega arith) h)
same_key-key_text (reset_password s) (auth_session t) h =
    absurd (
      apart 0 "reset_password:" "auth_session:" s t (omega arith) (omega arith) (λ e. omega arith)
        h)
same_key-key_text (reset_password s) (reset_password t) h =
    ground (arith, eq_iff s t, append_cancel_left "reset_password:" s t h)
same_key-key_text (reset_password s) (api_key_fp t) h =
    absurd
      (apart 0 "reset_password:" "api_key:fp:" s t (omega arith) (omega arith) (λ e. omega arith) h)
same_key-key_text (reset_password s) (epr t) h =
    absurd (apart 0 "reset_password:" "epr:" s t (omega arith) (omega arith) (λ e. omega arith) h)
same_key-key_text (api_key_fp s) (auth_session t) h =
    absurd
      (apart 1 "api_key:fp:" "auth_session:" s t (omega arith) (omega arith) (λ e. omega arith) h)
same_key-key_text (api_key_fp s) (reset_password t) h =
    absurd
      (apart 0 "api_key:fp:" "reset_password:" s t (omega arith) (omega arith) (λ e. omega arith) h)
same_key-key_text (api_key_fp s) (api_key_fp t) h =
    ground (arith, eq_iff s t, append_cancel_left "api_key:fp:" s t h)
same_key-key_text (api_key_fp s) (epr t) h =
    absurd (apart 0 "api_key:fp:" "epr:" s t (omega arith) (omega arith) (λ e. omega arith) h)
same_key-key_text (epr s) (auth_session t) h =
    absurd (apart 0 "epr:" "auth_session:" s t (omega arith) (omega arith) (λ e. omega arith) h)
same_key-key_text (epr s) (reset_password t) h =
    absurd (apart 0 "epr:" "reset_password:" s t (omega arith) (omega arith) (λ e. omega arith) h)
same_key-key_text (epr s) (api_key_fp t) h =
    absurd (apart 0 "epr:" "api_key:fp:" s t (omega arith) (omega arith) (λ e. omega arith) h)
same_key-key_text (epr s) (epr t) h = ground (arith, eq_iff s t, append_cancel_left "epr:" s t h)

key_text-same_key : (k j : Key) → same_key k j ≡ true → key_text k ≡ key_text j
unfolding key_text
key_text-same_key (auth_session s) (auth_session t) h =
    ap (λ x. "auth_session:" <> x) ((eq_iff s t).0 h)
key_text-same_key (reset_password s) (reset_password t) h =
    ap (λ x. "reset_password:" <> x) ((eq_iff s t).0 h)
key_text-same_key (api_key_fp s) (api_key_fp t) h = ap (λ x. "api_key:fp:" <> x) ((eq_iff s t).0 h)
key_text-same_key (epr s) (epr t) h = ap (λ x. "epr:" <> x) ((eq_iff s t).0 h)
key_text-same_key (auth_session s) (reset_password t) h = absurd (ground arith)
key_text-same_key (auth_session s) (api_key_fp t) h = absurd (ground arith)
key_text-same_key (auth_session s) (epr t) h = absurd (ground arith)
key_text-same_key (reset_password s) (auth_session t) h = absurd (ground arith)
key_text-same_key (reset_password s) (api_key_fp t) h = absurd (ground arith)
key_text-same_key (reset_password s) (epr t) h = absurd (ground arith)
key_text-same_key (api_key_fp s) (auth_session t) h = absurd (ground arith)
key_text-same_key (api_key_fp s) (reset_password t) h = absurd (ground arith)
key_text-same_key (api_key_fp s) (epr t) h = absurd (ground arith)
key_text-same_key (epr s) (auth_session t) h = absurd (ground arith)
key_text-same_key (epr s) (reset_password t) h = absurd (ground arith)
key_text-same_key (epr s) (api_key_fp t) h = absurd (ground arith)

key_text≢set_text : (k : Key) (j : SetKey) → key_text k ≢ set_text j
unfolding key_text set_text
key_text≢set_text (auth_session s) (user_sessions t) =
    apart 0 "auth_session:" "user_sessions:" s t (omega arith) (omega arith) (λ e. omega arith)
key_text≢set_text (auth_session s) api_keys =
    apart_whole 1 "auth_session:" "api_keys" s (omega arith) (λ e. omega arith)
key_text≢set_text (auth_session s) epr_keys =
    apart_whole 0 "auth_session:" "epr_keys" s (omega arith) (λ e. omega arith)
key_text≢set_text (reset_password s) (user_sessions t) =
    apart 0 "reset_password:" "user_sessions:" s t (omega arith) (omega arith) (λ e. omega arith)
key_text≢set_text (reset_password s) api_keys =
    apart_whole 0 "reset_password:" "api_keys" s (omega arith) (λ e. omega arith)
key_text≢set_text (reset_password s) epr_keys =
    apart_whole 0 "reset_password:" "epr_keys" s (omega arith) (λ e. omega arith)
key_text≢set_text (api_key_fp s) (user_sessions t) =
    apart 0 "api_key:fp:" "user_sessions:" s t (omega arith) (omega arith) (λ e. omega arith)
key_text≢set_text (api_key_fp s) api_keys =
    apart_whole 7 "api_key:fp:" "api_keys" s (omega arith) (λ e. omega arith)
key_text≢set_text (api_key_fp s) epr_keys =
    apart_whole 0 "api_key:fp:" "epr_keys" s (omega arith) (λ e. omega arith)
key_text≢set_text (epr s) (user_sessions t) =
    apart 0 "epr:" "user_sessions:" s t (omega arith) (omega arith) (λ e. omega arith)
key_text≢set_text (epr s) api_keys =
    apart_whole 0 "epr:" "api_keys" s (omega arith) (λ e. omega arith)
key_text≢set_text (epr s) epr_keys =
    apart_whole 3 "epr:" "epr_keys" s (omega arith) (λ e. omega arith)

-- Two keys of texts are the same text exactly if they are the same key, and none is the key of a set:
-- the services never write under one another's keys, whatever ids, fingerprints and key names
-- there are.
pub key_text_iff :
    (k j : Key) (c : SetKey)
    → ((key_text k ≡ key_text j) ↔ (same_key k j ≡ true)) × (key_text k ≢ set_text c)
key_text_iff k j c = ((same_key-key_text k j, key_text-same_key k j), key_text≢set_text k c)
