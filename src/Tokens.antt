-- ===== src/Tokens.antt =====
-- lib/tokens and routes/auth of the API: refresh tokens, and the marks of their ids in Redis.
pub mod Marks
pub mod Refresh
use brand_blitz.Prelude.{
  ℕ, ◌+◌, ◌*◌, Bool, true, false, List, [], ◌∷◌, Option, none, some, ltb, ◌==◌, if◌then◌else◌,
}
use brand_blitz.Texts.{Text}

-- The value of a key `jti:...`: "used" or "revoked".
pub data Mark : Type 0 where
  used revoked : Mark

-- A value of Redis with the time at which it expires, in milliseconds.
pub record Kept {ℓ} (A : Type ℓ) : Type ℓ where
  pub value : A
  pub expires_at : ℕ

-- The keys `jti:...` and the sets `user_refresh_jtis:...`.
pub record TokenStore : Type 0 where
  pub marks : ℕ → Option (Kept Mark)
  pub refresh_sets : ℕ → Option (Kept (List ℕ))

-- The claims of a refresh token that the code reads.
pub record RefreshPayload : Type 0 where
  pub sub : ℕ
  pub jti : ℕ
  pub is_refresh : Bool

abbrev pub refresh_ttl_ms : ℕ
refresh_ttl_ms = 30 * 24 * 60 * 60 * 1000

-- `redis.get`: a key that has expired is not there.
unfoldable pub live {ℓ} : {A : Type ℓ} → ℕ → Option (Kept A) → Option A
live now none = none
live now (some k) = if ltb now k.expires_at then some k.value else none

abbrev pub put {ℓ} : {A : Type ℓ} → ℕ → A → (ℕ → A) → ℕ → A
put key value old i = if key == i then value else old i

unfoldable pub set_mark : ℕ → ℕ → Mark → TokenStore → TokenStore
set_mark now jti m s = record {
  marks = put jti (some (record { value = m; expires_at = now + refresh_ttl_ms })) s.marks;
  refresh_sets = s.refresh_sets;
}

-- Whether the id had a mark before, which is then kept.
unfoldable pub mark_jti_used : ℕ → ℕ → TokenStore → Bool × TokenStore
mark_jti_used now jti s = elim (live now (s.marks jti)) [
  | none ↦ (false, set_mark now jti used s)
  | some m ↦ (true, s)
]

abbrev pub members : ℕ → ℕ → TokenStore → List ℕ
members now user s = elim (live now (s.refresh_sets user)) [ none ↦ [] | some jtis ↦ jtis ]

unfoldable pub register_refresh_jti : ℕ → ℕ → ℕ → TokenStore → TokenStore
register_refresh_jti now user jti s = record {
  marks = s.marks;
  refresh_sets =
      put user
        (some (record { value = jti ∷ members now user s; expires_at = now + refresh_ttl_ms }))
        s.refresh_sets;
}

unfoldable pub revoke_each : ℕ → List ℕ → TokenStore → TokenStore
revoke_each now [] s = s
revoke_each now (jti ∷ jtis) s = revoke_each now jtis (set_mark now jti revoked s)

abbrev pub delete_set : ℕ → TokenStore → TokenStore
delete_set user s = record { marks = s.marks; refresh_sets = put user none s.refresh_sets }

-- What the pipeline does with the members of the user's set.
unfoldable pub revoke_members : ℕ → ℕ → List ℕ → TokenStore → TokenStore
revoke_members now user [] s = s
revoke_members now user (jti ∷ jtis) s = delete_set user (revoke_each now (jti ∷ jtis) s)

unfoldable pub revoke_all_user_refresh_tokens : ℕ → ℕ → TokenStore → TokenStore
revoke_all_user_refresh_tokens now user s = revoke_members now user (members now user s) s

unfoldable pub is_jti_revoked : ℕ → ℕ → TokenStore → Bool
is_jti_revoked now jti s = elim (live now (s.marks jti)) [ none ↦ false | some m ↦ true ]

pub data AuthReply : Type 0 where
  tokens : Text → AuthReply
  requires_two_factor logged_out : AuthReply
  invalid_body invalid_refresh_token token_reuse token_revoked internal_error : AuthReply

-- jsonwebtoken's check of a text at a time, its signing of the claims of a user and a new id, and the
-- users' rows.
module _ (jwt_verify : ℕ → Text → Option RefreshPayload) (jwt_sign : ℕ → ℕ → ℕ → Text)
    (is_user : ℕ → Bool) where
  unfoldable pub verify_refresh_token : ℕ → Text → Option RefreshPayload
  verify_refresh_token now token = elim (jwt_verify now token) [
    | none ↦ none
    | some p ↦ if p.is_refresh then some p else none
  ]

  -- The new refresh token of a user and its registration.
  unfoldable pub issue : ℕ → ℕ → ℕ → TokenStore → AuthReply × TokenStore
  issue now user new_jti s = elim (verify_refresh_token now (jwt_sign now user new_jti)) [
    | none ↦ (internal_error, s)
    | some p ↦ (tokens (jwt_sign now user new_jti), register_refresh_jti now user p.jti s)
  ]

  -- POST /auth/google/callback for a user whose profile is checked, up to the row of the audit log.
  unfoldable pub google_callback : ℕ → ℕ → Bool → ℕ → TokenStore → AuthReply × TokenStore
  google_callback now user has_totp_enabled new_jti s =
      let revoked_store = revoke_all_user_refresh_tokens now user s in
      if has_totp_enabled
      then (requires_two_factor, revoked_store)
      else issue now user new_jti revoked_store

  unfoldable pub rotate : ℕ → RefreshPayload → ℕ → TokenStore → AuthReply × TokenStore
  rotate now p new_jti s =
      if is_jti_revoked now p.jti s
      then (token_revoked, s)
      else if is_user p.sub
      then issue now p.sub new_jti s
      else (invalid_refresh_token, s)

  unfoldable pub rotate_unused : ℕ → RefreshPayload → ℕ → Bool × TokenStore → AuthReply × TokenStore
  rotate_unused now p new_jti (true, s) = (token_reuse, revoke_all_user_refresh_tokens now p.sub s)
  rotate_unused now p new_jti (false, s) = rotate now p new_jti s

  -- POST /auth/refresh.
  unfoldable pub refresh : ℕ → Text → ℕ → TokenStore → AuthReply × TokenStore
  refresh now [] new_jti s = (invalid_body, s)
  refresh now (c ∷ token) new_jti s = elim (verify_refresh_token now (c ∷ token)) [
    | none ↦ (invalid_refresh_token, s)
    | some p ↦ rotate_unused now p new_jti (mark_jti_used now p.jti s)
  ]

  -- POST /auth/logout.
  unfoldable pub logout : ℕ → Text → TokenStore → AuthReply × TokenStore
  logout now [] s = (logged_out, s)
  logout now (c ∷ token) s = elim (verify_refresh_token now (c ∷ token)) [
    | none ↦ (logged_out, s)
    | some p ↦ (logged_out, (mark_jti_used now p.jti s).1)
  ]

-- A request and its time: a sign-in of a user with its second factor and a new id, a refresh, a logout.
pub data Request : Type 0 where
  sign_in : ℕ → Bool → ℕ → Request
  refresh_asked : Text → ℕ → Request
  logout_asked : Text → Request

module _ (jwt_verify : ℕ → Text → Option RefreshPayload) (jwt_sign : ℕ → ℕ → ℕ → Text)
    (is_user : ℕ → Bool) where
  unfoldable pub handle : ℕ → Request → TokenStore → AuthReply × TokenStore
  handle now (sign_in user has_totp_enabled new_jti) s =
      google_callback jwt_verify jwt_sign is_user now user has_totp_enabled new_jti s
  handle now (refresh_asked token new_jti) s =
      refresh jwt_verify jwt_sign is_user now token new_jti s
  handle now (logout_asked token) s = logout jwt_verify jwt_sign is_user now token s

  unfoldable pub handle_all : List (ℕ × Request) → TokenStore → TokenStore
  handle_all [] s = s
  handle_all ((now, r) ∷ rs) s = handle_all rs (handle now r s).1
