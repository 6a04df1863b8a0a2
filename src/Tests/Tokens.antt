-- ===== src/Tests/Tokens.antt =====
-- Runs of the refresh tokens.
use brand_blitz.Prelude.{ℕ, ◌≡◌, refl, Bool, true, false, [], ◌∷◌, Option, none, some, arith}
use brand_blitz.Texts.{Text}
use brand_blitz.Tokens.{
  TokenStore, RefreshPayload, token_reuse, token_revoked, is_jti_revoked, live,
  verify_refresh_token, google_callback, refresh, refresh_asked, logout_asked, handle_all,
}
use brand_blitz.Tokens.Marks.{refresh-google_callback}
use brand_blitz.Tokens.Refresh.{refresh-never_rotates}

-- A token is one letter, the id, and user 1 is its owner.
abbrev verify_letter : ℕ → Text → Option RefreshPayload
verify_letter now [] = none
verify_letter now (c ∷ token) = some (record { sub = 1; jti = c; is_refresh = true })

abbrev sign_letter : ℕ → ℕ → ℕ → Text
sign_letter now user new_jti = new_jti ∷ []

abbrev everybody : ℕ → Bool
everybody user = true

-- User 1 has the id 7.
abbrev before_login : TokenStore
before_login = record {
  marks = λ jti. none;
  refresh_sets = λ user. some (record { value = 7 ∷ []; expires_at = 5000 });
}

refresh-google_callback_example :
    (refresh verify_letter sign_letter everybody 3000 (7 ∷ []) 9 (
      handle_all verify_letter sign_letter everybody
        ((2000, refresh_asked (8 ∷ []) 10) ∷ (2500, logout_asked (7 ∷ [])) ∷ [])
        (google_callback verify_letter sign_letter everybody 1000 1 false 8 before_login).1)).0
    ≡ token_reuse
unfolding live verify_refresh_token
refresh-google_callback_example =
    refresh-google_callback verify_letter sign_letter everybody 1000 1 false 8 before_login
      ((2000, refresh_asked (8 ∷ []) 10) ∷ (2500, logout_asked (7 ∷ [])) ∷ []) 3000 7 []
      (record { sub = 1; jti = 7; is_refresh = true }) 9 refl (omega arith, (omega arith, tt))
      (omega arith) refl

refresh-never_rotates_example :
    ((is_jti_revoked 3000 7 before_login ≡ true)
      → (refresh verify_letter sign_letter everybody 3000 (7 ∷ []) 9 before_login).0 ≡ token_reuse)
    × ((is_jti_revoked 3000 7 before_login ≡ false)
        → (refresh verify_letter sign_letter everybody 3000 (7 ∷ []) 9 before_login).0
          ≡ token_revoked)
unfolding verify_refresh_token
refresh-never_rotates_example =
    refresh-never_rotates verify_letter sign_letter everybody 3000 7 [] 9 before_login
      (record { sub = 1; jti = 7; is_refresh = true }) refl
