-- ===== src/Tokens/Marks.antt =====
-- lib/tokens and routes/auth of the API: what has a mark keeps it, so that a sign-in ends the sessions
-- from before it.
use brand_blitz.Prelude.{
  ℕ, ◌+◌, ◌≤◌, ◌<◌, ◌≡◌, refl, inl, inr, Bool, true, false, ◌||◌, List, [], ◌∷◌, Option, some,
  arith, All, ◌==◌, Bool-cases, Option-cases,
}
use brand_blitz.Texts.{Text}
use brand_blitz.Tokens.{
  TokenStore, RefreshPayload, refresh_ttl_ms, live, Mark, set_mark, mark_jti_used, members,
  register_refresh_jti, revoke_each, revoke_members, revoke_all_user_refresh_tokens, is_jti_revoked,
  token_reuse, verify_refresh_token, issue, google_callback, rotate, rotate_unused, refresh, logout,
  Request, sign_in, refresh_asked, logout_asked, handle, handle_all,
}

abbrev pub has_id : ℕ → List ℕ → Bool
has_id jti [] = false
has_id jti (j ∷ js) = j == jti || has_id jti js

set_mark-same :
    (now at jti : ℕ) (m : Mark) (s : TokenStore)
    → at < now + refresh_ttl_ms
    → is_jti_revoked at jti (set_mark now jti m s) ≡ true
unfolding is_jti_revoked set_mark live
set_mark-same now at jti m s h = ground arith

set_mark-keeps :
    (now at k jti : ℕ) (m : Mark) (s : TokenStore)
    → at < now + refresh_ttl_ms
    → is_jti_revoked at jti s ≡ true
    → is_jti_revoked at jti (set_mark now k m s) ≡ true
unfolding is_jti_revoked set_mark live
set_mark-keeps now at k jti m s h marked = ground arith

revoke_each-keeps :
    (now at jti : ℕ) (js : List ℕ) (s : TokenStore)
    → at < now + refresh_ttl_ms
    → is_jti_revoked at jti s ≡ true
    → is_jti_revoked at jti (revoke_each now js s) ≡ true
unfolding revoke_each
revoke_each-keeps now at jti [] s h marked = marked
revoke_each-keeps now at jti (j ∷ js) s h marked =
    revoke_each-keeps now at jti js _ h (set_mark-keeps now at j jti _ s h marked)

revoke_each-has_id :
    (now at jti : ℕ) (js : List ℕ) (s : TokenStore)
    → at < now + refresh_ttl_ms
    → has_id jti js ≡ true
    → is_jti_revoked at jti (revoke_each now js s) ≡ true
unfolding revoke_each
revoke_each-has_id now at jti [] s h has = absurd (ground arith)
revoke_each-has_id now at jti (j ∷ js) s h has = elim (Bool-cases (j == jti)) [
  | inl e ↦
      let same : j ≡ jti = ground (arith, e) in
      revoke_each-keeps now at jti js _ h (rw same (set_mark-same now at jti _ s h))
  | inr e ↦ revoke_each-has_id now at jti js _ h (ground (arith, e))
]

mark_jti_used-keeps :
    (now at k jti : ℕ) (s : TokenStore)
    → at < now + refresh_ttl_ms
    → is_jti_revoked at jti s ≡ true
    → is_jti_revoked at jti (mark_jti_used now k s).1 ≡ true
unfolding mark_jti_used
mark_jti_used-keeps now at k jti s h marked = elim (Option-cases (live now (s.marks k))) [
  | inl e ↦ rw (mark_jti_used, e) (set_mark-keeps now at k jti _ s h marked)
  | inr (m, e) ↦ rw (mark_jti_used, e) marked
]

revoke_members-keeps :
    (now at user jti : ℕ) (js : List ℕ) (s : TokenStore)
    → at < now + refresh_ttl_ms
    → is_jti_revoked at jti s ≡ true
    → is_jti_revoked at jti (revoke_members now user js s) ≡ true
unfolding revoke_members is_jti_revoked
revoke_members-keeps now at user jti [] s h marked = marked
revoke_members-keeps now at user jti (j ∷ js) s h marked =
    revoke_each-keeps now at jti (j ∷ js) s h marked

revoke_members-has_id :
    (now at user jti : ℕ) (js : List ℕ) (s : TokenStore)
    → at < now + refresh_ttl_ms
    → has_id jti js ≡ true
    → is_jti_revoked at jti (revoke_members now user js s) ≡ true
unfolding revoke_members is_jti_revoked
revoke_members-has_id now at user jti [] s h has = absurd (ground arith)
revoke_members-has_id now at user jti (j ∷ js) s h has =
    revoke_each-has_id now at jti (j ∷ js) s h has

module _ (jwt_verify : ℕ → Text → Option RefreshPayload) (jwt_sign : ℕ → ℕ → ℕ → Text)
    (is_user : ℕ → Bool) (at jti : ℕ) where
  -- The id has a mark at the time `at`.
  abbrev Marked : TokenStore → Type 0
  Marked s = is_jti_revoked at jti s ≡ true

  issue-keeps :
      (now user new_jti : ℕ) (s : TokenStore)
      → Marked s
      → Marked (issue jwt_verify jwt_sign is_user now user new_jti s).1
  unfolding issue register_refresh_jti is_jti_revoked
  issue-keeps now user new_jti s marked =
      elim (Option-cases
        (verify_refresh_token jwt_verify jwt_sign is_user now (jwt_sign now user new_jti))) [
          | inl e ↦ rw (issue, e) marked
          | inr (p, e) ↦ rw (issue, e) marked
        ]

  revoke_all-keeps :
      (now user : ℕ) (s : TokenStore)
      → at < now + refresh_ttl_ms
      → Marked s
      → Marked (revoke_all_user_refresh_tokens now user s)
  unfolding revoke_all_user_refresh_tokens
  revoke_all-keeps now user s h marked =
      revoke_members-keeps now at user jti (members now user s) s h marked

  google_callback-keeps :
      (now user : ℕ) (totp : Bool) (new_jti : ℕ) (s : TokenStore)
      → Marked (revoke_all_user_refresh_tokens now user s)
      → Marked (google_callback jwt_verify jwt_sign is_user now user totp new_jti s).1
  unfolding google_callback
  google_callback-keeps now user true new_jti s marked = marked
  google_callback-keeps now user false new_jti s marked = issue-keeps now user new_jti _ marked

  rotate-keeps :
      (now : ℕ) (p : RefreshPayload) (new_jti : ℕ) (s : TokenStore)
      → Marked s
      → Marked (rotate jwt_verify jwt_sign is_user now p new_jti s).1
  unfolding rotate
  rotate-keeps now p new_jti s marked = elim (Bool-cases (is_jti_revoked now p.jti s)) [
    | inl e ↦ rw e marked
    | inr e ↦ rw e (elim (Bool-cases (is_user p.sub)) [
      | inl u ↦ rw u (issue-keeps now p.sub new_jti s marked)
      | inr u ↦ rw u marked
    ])
  ]

  rotate_unused-keeps :
      (now : ℕ) (p : RefreshPayload) (new_jti : ℕ) (marks : Bool × TokenStore)
      → at < now + refresh_ttl_ms
      → Marked marks.1
      → Marked (rotate_unused jwt_verify jwt_sign is_user now p new_jti marks).1
  unfolding rotate_unused
  rotate_unused-keeps now p new_jti (true, s) h marked = revoke_all-keeps now p.sub s h marked
  rotate_unused-keeps now p new_jti (false, s) h marked = rotate-keeps now p new_jti s marked

  handle-keeps :
      (now : ℕ) (r : Request) (s : TokenStore)
      → at < now + refresh_ttl_ms
      → Marked s
      → Marked (handle jwt_verify jwt_sign is_user now r s).1
  unfolding handle refresh logout
  handle-keeps now (sign_in user totp new_jti) s h marked =
      google_callback-keeps now user totp new_jti s (revoke_all-keeps now user s h marked)
  handle-keeps now (refresh_asked [] new_jti) s h marked = marked
  handle-keeps now (refresh_asked (c ∷ token) new_jti) s h marked =
      elim (Option-cases (verify_refresh_token jwt_verify jwt_sign is_user now (c ∷ token))) [
        | inl e ↦ rw (handle, refresh, e) marked
        | inr (p, e) ↦
            rw (handle, refresh, e)
              (rotate_unused-keeps now p new_jti (mark_jti_used now p.jti s) h
                (mark_jti_used-keeps now at p.jti jti s h marked))
      ]
  handle-keeps now (logout_asked []) s h marked = marked
  handle-keeps now (logout_asked (c ∷ token)) s h marked =
      elim (Option-cases (verify_refresh_token jwt_verify jwt_sign is_user now (c ∷ token))) [
        | inl e ↦ rw (handle, logout, e) marked
        | inr (p, e) ↦ rw (handle, logout, e) (mark_jti_used-keeps now at p.jti jti s h marked)
      ]

  handle_all-keeps :
      (login : ℕ) (rs : List (ℕ × Request)) (s : TokenStore)
      → at < login + refresh_ttl_ms
      → All (λ r. login ≤ r.0) rs
      → Marked s
      → Marked (handle_all jwt_verify jwt_sign is_user rs s)
  unfolding handle_all
  handle_all-keeps login [] s h later marked = marked
  handle_all-keeps login ((now, r) ∷ rs) s h (l, later) marked =
      handle_all-keeps login rs _ h later (handle-keeps now r s (omega (arith, l, h)) marked)

  -- A refresh with an id that has a mark is refused for the reuse of its token.
  refresh-Marked :
      (c : ℕ) (token : Text) (p : RefreshPayload) (new_jti : ℕ) (s : TokenStore)
      → verify_refresh_token jwt_verify jwt_sign is_user at (c ∷ token) ≡ some p
      → p.jti ≡ jti
      → Marked s
      → (refresh jwt_verify jwt_sign is_user at (c ∷ token) new_jti s).0 ≡ token_reuse
  unfolding refresh mark_jti_used rotate_unused is_jti_revoked
  refresh-Marked c token p new_jti s valid same marked =
      elim (Option-cases (live at (s.marks p.jti))) [
        | inl e ↦ absurd (ground (arith, same))
        | inr (m, e) ↦ rw (refresh, valid) (rw (mark_jti_used, e) refl)
      ]

-- Signing in ends the sessions from before: a refresh token whose id was in the user's set is refused
-- for its reuse, whatever requests come in between, within the thirty days after the sign-in.
pub refresh-google_callback :
    (jwt_verify : ℕ → Text → Option RefreshPayload) (jwt_sign : ℕ → ℕ → ℕ → Text)
    (is_user : ℕ → Bool) (login user : ℕ) (totp : Bool) (new_jti : ℕ) (s : TokenStore)
    (rs : List (ℕ × Request)) (at c : ℕ) (token : Text) (p : RefreshPayload) (next_jti : ℕ)
    → has_id p.jti (members login user s) ≡ true
    → All (λ r. login ≤ r.0) rs
    → at < login + refresh_ttl_ms
    → verify_refresh_token jwt_verify jwt_sign is_user at (c ∷ token) ≡ some p
    → (refresh jwt_verify jwt_sign is_user at (c ∷ token) next_jti (
        handle_all jwt_verify jwt_sign is_user rs
          (google_callback jwt_verify jwt_sign is_user login user totp new_jti s).1)).0
      ≡ token_reuse
unfolding revoke_all_user_refresh_tokens
refresh-google_callback jwt_verify jwt_sign is_user login user totp new_jti s rs at c token p
      next_jti has later soon valid =
    refresh-Marked jwt_verify jwt_sign is_user at p.jti c token p next_jti _ valid refl (
      handle_all-keeps jwt_verify jwt_sign is_user at p.jti login rs _ soon later (
        google_callback-keeps jwt_verify jwt_sign is_user at p.jti login user totp new_jti s
          (revoke_members-has_id login at user p.jti (members login user s) s soon has)))
