-- ===== src/Tokens/Refresh.antt =====
-- routes/auth of the API: what a refresh of the tokens answers.
use brand_blitz.Prelude.{
  ℕ, ◌≡◌, refl, inl, inr, Bool, true, false, ◌∷◌, Option, some, arith, Option-cases,
}
use brand_blitz.Texts.{Text}
use brand_blitz.Tokens.{
  TokenStore, RefreshPayload, live, used, set_mark, mark_jti_used, is_jti_revoked, token_reuse,
  token_revoked, verify_refresh_token, rotate, rotate_unused, refresh,
}

set_mark-revoked :
    (now jti : ℕ) (s : TokenStore) → is_jti_revoked now jti (set_mark now jti used s) ≡ true
unfolding is_jti_revoked set_mark live
set_mark-revoked now jti s = ground arith

-- No refresh by a valid token ever gives new tokens: it is refused as reused where its id has a mark,
-- and as revoked where it has none, since the handler sets the mark before it looks for one.
pub refresh-never_rotates :
    (jwt_verify : ℕ → Text → Option RefreshPayload) (jwt_sign : ℕ → ℕ → ℕ → Text)
    (is_user : ℕ → Bool) (now c : ℕ) (token : Text) (new_jti : ℕ) (s : TokenStore)
    (p : RefreshPayload)
    → verify_refresh_token jwt_verify jwt_sign is_user now (c ∷ token) ≡ some p
    → ((is_jti_revoked now p.jti s ≡ true)
        → (refresh jwt_verify jwt_sign is_user now (c ∷ token) new_jti s).0 ≡ token_reuse)
      × ((is_jti_revoked now p.jti s ≡ false)
          → (refresh jwt_verify jwt_sign is_user now (c ∷ token) new_jti s).0 ≡ token_revoked)
unfolding refresh mark_jti_used rotate_unused rotate is_jti_revoked
refresh-never_rotates jwt_verify jwt_sign is_user now c token new_jti s p valid =
    elim (Option-cases (live now (s.marks p.jti))) [
      | inl e ↦ (
        λ marked. absurd (ground arith),
        λ unmarked.
            rw (refresh, valid) (rw (mark_jti_used, e) (rw (set_mark-revoked now p.jti s) refl)),
      )
      | inr (m, e) ↦ (
        λ marked. rw (refresh, valid) (rw (mark_jti_used, e) refl),
        λ unmarked. absurd (ground arith),
      )
    ]
