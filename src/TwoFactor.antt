-- ===== src/TwoFactor.antt =====
-- routes/auth.2fa and db/queries/totp of the API: one user's second factor. A secret's column is its
-- plain text, since pgp_sym_decrypt gives back what was encrypted; audit rows are left out.
pub mod Totp
pub mod Base32
pub mod Backup
use brand_blitz.Prelude.{
  ℕ, ◌+◌, ◌%◌, Bool, true, false, ◌&&◌, not, List, [], ◌∷◌, ◌++◌, Option, none, some, map, keep,
  length, get_elem?, leb, if◌then◌else◌,
}
use brand_blitz.Texts.{Text, codes, is_space, to_upper_case}
use brand_blitz.TwoFactor.Totp.{base32_encode, verify_totp}

pub record BackupCode : Type 0 where
  pub code_hash : Text
  pub used : Bool

-- The secret and whether it is confirmed, and the rows of backup codes.
pub record TwoFactor : Type 0 where
  pub secret : Option (Text × Bool)
  pub backup_codes : List BackupCode

abbrev letter_of : ℕ → ℕ
letter_of i = elim (get_elem? (codes "ABCDEFGHJKLMNPQRSTUVWXYZ23456789") i) [
  | none ↦ 0
  | some c ↦ c
]

-- Five letters, of the random bytes from `offset` on.
abbrev half : (ℕ → ℕ) → ℕ → Text
half bytes offset = map (λ i. letter_of (bytes (offset + i) % 32)) (0 ∷ 1 ∷ 2 ∷ 3 ∷ 4 ∷ [])

unfoldable pub generate_backup_code : (ℕ → ℕ) → Text
generate_backup_code bytes = half bytes 0 ++ (b'-' ∷ half bytes 5)

-- Ten codes, of the bytes that `random` gives for each.
abbrev backup_codes_of : (ℕ → ℕ → ℕ) → List Text
backup_codes_of random =
    map (λ k. generate_backup_code (random k)) (0 ∷ 1 ∷ 2 ∷ 3 ∷ 4 ∷ 5 ∷ 6 ∷ 7 ∷ 8 ∷ 9 ∷ [])

-- `code.replace(/\s/g, "").toUpperCase()`.
unfoldable pub normalised : Text → Text
unfolding is_space
normalised code = to_upper_case (keep (λ c. not (is_space c)) code)

-- `z.string().min(6).max(8)`.
abbrev pub is_code : Text → Bool
is_code code = leb 6 (length code) && leb (length code) 8

pub data TwoFactorError : Type 0 where
  invalid_body user_not_found totp_already_enabled no_enrollment totp_already_confirmed
        invalid_totp_code invalid_pending_token totp_not_enabled internal_error :
      TwoFactorError

pub data TwoFactorReply : Type 0 where
  enrolled : Text → TwoFactorReply
  confirmed regenerated : List Text → TwoFactorReply
  signed_in_by_totp signed_in_by_backup_code removed : TwoFactorReply
  refused : TwoFactorError → TwoFactorReply

-- What a check of a code found.
pub data Checked : Type 0 where
  threw rejected by_totp by_backup_code : Checked

unfoldable pub has_totp_enabled : TwoFactor → Bool
has_totp_enabled s = elim s.secret [ none ↦ false | some (secret, done) ↦ done ]

-- The secret of an enrolment that is confirmed.
abbrev confirmed_secret : TwoFactor → Option Text
confirmed_secret s = elim s.secret [
  | none ↦ none
  | some (secret, done) ↦ if done then some secret else none
]

-- The route `POST /enroll`, with the secret's random bytes; `known` is that the user is found.
unfoldable pub enroll : Bool → List ℕ → TwoFactor → TwoFactorReply × TwoFactor
unfolding has_totp_enabled
enroll known bytes s =
    if not known
    then (refused user_not_found, s)
    else if has_totp_enabled s
    then (refused totp_already_enabled, s)
    else (enrolled (base32_encode bytes), record s { secret = some (base32_encode bytes, false) })

-- The HMAC of the crypto module, and the hash of bcrypt and its comparison.
module _ (hmac : List ℕ → List ℕ → List ℕ) (hash : Text → Text) (compare : Text → Text → Bool) where
  unfoldable pub generate_and_store_backup_codes : (ℕ → ℕ → ℕ) → TwoFactor → TwoFactor
  generate_and_store_backup_codes random s = record s {
    backup_codes =
        map (λ code. (let row : BackupCode = record { code_hash = hash code; used = false } in row))
          (backup_codes_of random);
  }

  -- The first unused row that matches is used.
  unfoldable pub consume_backup_code : Text → List BackupCode → Bool × List BackupCode
  consume_backup_code code [] = (false, [])
  consume_backup_code code (r ∷ rows) =
      let rest = consume_backup_code code rows in
      if not r.used && compare code r.code_hash
      then (true, record r { used = true } ∷ rows)
      else (rest.0, r ∷ rest.1)

  -- A code of the app, or else a backup code.
  unfoldable pub check_code : Text → Text → ℕ → TwoFactor → Checked × TwoFactor
  unfolding consume_backup_code
  check_code code secret step s =
      let consumed = consume_backup_code (normalised code) s.backup_codes in
      elim (verify_totp hmac code secret step) [
        | none ↦ (threw, s)
        | some valid ↦
            if valid
            then (by_totp, s)
            else if consumed.0
            then (by_backup_code, record s { backup_codes = consumed.1 })
            else (rejected, s)
      ]

  abbrev confirm_with : Option Bool → Text → (ℕ → ℕ → ℕ) → TwoFactor → TwoFactorReply × TwoFactor
  confirm_with none secret random s = (refused internal_error, s)
  confirm_with (some valid) secret random s =
      if valid
      then (
        confirmed (backup_codes_of random),
        generate_and_store_backup_codes random (record s { secret = some (secret, true) }),
      )
      else (refused invalid_totp_code, s)

  -- The route `POST /confirm`.
  unfoldable pub confirm : Text → ℕ → (ℕ → ℕ → ℕ) → TwoFactor → TwoFactorReply × TwoFactor
  unfolding generate_and_store_backup_codes
  confirm code step random s =
      if not (is_code code) then (refused invalid_body, s) else elim s.secret [
        | none ↦ (refused no_enrollment, s)
        | some (secret, done) ↦
            if done
            then (refused totp_already_confirmed, s)
            else confirm_with (verify_totp hmac code secret step) secret random s
      ]

  abbrev sign_in_with : Checked × TwoFactor → TwoFactorReply × TwoFactor
  sign_in_with (threw, s) = (refused internal_error, s)
  sign_in_with (rejected, s) = (refused invalid_totp_code, s)
  sign_in_with (by_totp, s) = (signed_in_by_totp, s)
  sign_in_with (by_backup_code, s) = (signed_in_by_backup_code, s)

  -- The route `POST /verify`; `signed` is that the pending token is valid.
  unfoldable pub verify : Bool → Bool → Text → ℕ → TwoFactor → TwoFactorReply × TwoFactor
  unfolding check_code
  verify signed known code step s =
      if not (is_code code)
      then (refused invalid_body, s)
      else if not signed
      then (refused invalid_pending_token, s)
      else if not known
      then (refused user_not_found, s)
      else elim (confirmed_secret s) [
        | none ↦ (refused totp_not_enabled, s)
        | some secret ↦ sign_in_with (check_code code secret step s)
      ]

  -- The secret is deleted, and the rows of backup codes stay: they refer to the user only.
  abbrev remove_with : Checked × TwoFactor → TwoFactorReply × TwoFactor
  remove_with (threw, s) = (refused internal_error, s)
  remove_with (rejected, s) = (refused invalid_totp_code, s)
  remove_with (by_totp, s) = (removed, record s { secret = none })
  remove_with (by_backup_code, s) = (removed, record s { secret = none })

  -- The route `DELETE /disenroll`.
  unfoldable pub disenroll : Text → ℕ → TwoFactor → TwoFactorReply × TwoFactor
  unfolding check_code
  disenroll code step s =
      if not (is_code code) then (refused invalid_body, s) else elim (confirmed_secret s) [
        | none ↦ (refused totp_not_enabled, s)
        | some secret ↦ remove_with (check_code code secret step s)
      ]

  abbrev regenerate_with : Option Bool → (ℕ → ℕ → ℕ) → TwoFactor → TwoFactorReply × TwoFactor
  regenerate_with none random s = (refused internal_error, s)
  regenerate_with (some valid) random s =
      if valid
      then (regenerated (backup_codes_of random), generate_and_store_backup_codes random s)
      else (refused invalid_totp_code, s)

  -- The route `POST /regenerate-backup-codes`.
  unfoldable pub regenerate_backup_codes :
      Text → ℕ → (ℕ → ℕ → ℕ) → TwoFactor → TwoFactorReply × TwoFactor
  unfolding generate_and_store_backup_codes
  regenerate_backup_codes code step random s =
      if not (is_code code) then (refused invalid_body, s) else elim (confirmed_secret s) [
        | none ↦ (refused totp_not_enabled, s)
        | some secret ↦ regenerate_with (verify_totp hmac code secret step) random s
      ]
