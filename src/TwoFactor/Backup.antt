-- ===== src/TwoFactor/Backup.antt =====
-- routes/auth.2fa of the API: backup codes and the length of the codes that the routes take.
use brand_blitz.Prelude.{
  ℕ, ◌≤◌, ◌<◌, ◌≡◌, ◌≢◌, refl, ap, inl, inr, Bool, true, false, ◌&&◌, not, List, [], ◌∷◌, none,
  arith, length, map, keep, every, ltb, Bool-cases, Option-cases, All,
}
use brand_blitz.Texts.{Text, is_space, to_upper_case}
use brand_blitz.TwoFactor.{
  BackupCode, TwoFactor, generate_backup_code, normalised, TwoFactorReply, signed_in_by_backup_code,
  by_backup_code, enroll, confirmed_secret, confirm, verify, disenroll, check_code,
  consume_backup_code, generate_and_store_backup_codes, regenerate_backup_codes,
}

-- The requests of one user, with what each is given.
pub data Request : Type 0 where
  enroll_asked : Bool → List ℕ → Request
  confirm_asked regenerate_asked : Text → ℕ → (ℕ → ℕ → ℕ) → Request
  verify_asked : Bool → Bool → Text → ℕ → Request
  disenroll_asked : Text → ℕ → Request

abbrev pub not_enrolled : TwoFactor
not_enrolled = record { secret = none; backup_codes = [] }

abbrev is_ascii : ℕ → Bool
is_ascii c = ltb c 128

upper-length : (s : Text) → every is_ascii s ≡ true → length (to_upper_case s) ≡ length s
unfolding to_upper_case
upper-length [] h = refl
upper-length (c ∷ s) h = ground (arith, upper-length s)

keep-ascii :
    (p : ℕ → Bool) (s : Text)
    → every is_ascii s ≡ true
    → (every is_ascii (keep p s) ≡ true) × (length (keep p s) ≤ length s)
keep-ascii p [] h = (refl, ground arith)
keep-ascii p (c ∷ s) h = ground (arith, keep-ascii p s)

length-normalised : (s : Text) → every is_ascii s ≡ true → length (normalised s) ≤ length s
unfolding normalised
length-normalised s h =
    let kept = keep-ascii (λ c. not (is_space c)) s h in
    omega (arith, kept.1, upper-length (keep (λ c. not (is_space c)) s) kept.0)

module _ (hmac : List ℕ → List ℕ → List ℕ) (hash : Text → Text) (compare : Text → Text → Bool) where
  pub serve : Request → TwoFactor → TwoFactorReply × TwoFactor
  serve (enroll_asked known bytes) s = enroll known bytes s
  serve (confirm_asked code step random) s = confirm hmac hash compare code step random s
  serve (regenerate_asked code step random) s =
      regenerate_backup_codes hmac hash compare code step random s
  serve (verify_asked signed known code step) s = verify hmac hash compare signed known code step s
  serve (disenroll_asked code step) s = disenroll hmac hash compare code step s

  unfoldable pub serve_all : List Request → TwoFactor → TwoFactor
  unfolding serve
  serve_all [] s = s
  serve_all (r ∷ rs) s = serve_all rs (serve r s).1

  -- The row is the hash of a text of 11 characters.
  abbrev IsLong : BackupCode → Type 0
  IsLong r = (t : Text) × (length t ≡ 11) × (r.code_hash ≡ hash t)

  length-backup_code : (bytes : ℕ → ℕ) → length (generate_backup_code bytes) ≡ 11
  unfolding generate_backup_code
  length-backup_code bytes = refl

  rows-IsLong :
      (random : ℕ → ℕ → ℕ) (ks : List ℕ)
      → All IsLong (
          map
            (λ code. (let row : BackupCode = record { code_hash = hash code; used = false } in row))
            (map (λ k. generate_backup_code (random k)) ks))
  rows-IsLong random [] = tt
  rows-IsLong random (k ∷ ks) = (
    (generate_backup_code (random k), length-backup_code (random k), refl),
    rows-IsLong random ks,
  )

  generate-IsLong :
      (random : ℕ → ℕ → ℕ) (s : TwoFactor)
      → All IsLong (generate_and_store_backup_codes hmac hash compare random s).backup_codes
  unfolding generate_and_store_backup_codes
  generate-IsLong random s = rows-IsLong random (0 ∷ 1 ∷ 2 ∷ 3 ∷ 4 ∷ 5 ∷ 6 ∷ 7 ∷ 8 ∷ 9 ∷ [])

  consume-IsLong :
      (code : Text) (rows : List BackupCode)
      → All IsLong rows
      → All IsLong (consume_backup_code hmac hash compare code rows).1
  unfolding consume_backup_code
  consume-IsLong code [] h = tt
  consume-IsLong code (r ∷ rows) (h, hs) =
      elim (Bool-cases (not r.used && compare code r.code_hash)) [
        | inl e ↦ rw (e, consume_backup_code) (h, hs)
        | inr e ↦ rw (e, consume_backup_code) (h, consume-IsLong code rows hs)
      ]

  check-IsLong :
      (code secret : Text) (step : ℕ) (s : TwoFactor)
      → All IsLong s.backup_codes
      → All IsLong (check_code hmac hash compare code secret step s).1.backup_codes
  unfolding check_code
  check-IsLong code secret step s h =
      ground (arith, consume-IsLong (normalised code) s.backup_codes h)

  serve-IsLong :
      (r : Request) (s : TwoFactor)
      → All IsLong s.backup_codes
      → All IsLong (serve r s).1.backup_codes
  unfolding serve enroll confirm verify disenroll regenerate_backup_codes
  serve-IsLong (enroll_asked known bytes) s h = ground arith
  serve-IsLong (confirm_asked code step random) s h = ground (arith, generate-IsLong random)
  serve-IsLong (regenerate_asked code step random) s h = ground (arith, generate-IsLong random s)
  serve-IsLong (verify_asked signed known code step) s h =
      elim (Option-cases (confirmed_secret s)) [
        | inl e ↦ ground (arith, e)
        | inr (secret, e) ↦ ground (arith, e, check-IsLong code secret step s h)
      ]
  serve-IsLong (disenroll_asked code step) s h = elim (Option-cases (confirmed_secret s)) [
    | inl e ↦ ground (arith, e)
    | inr (secret, e) ↦ ground (arith, e, check-IsLong code secret step s h)
  ]

  module _ (sound : (c d : Text) → compare c (hash d) ≡ true → c ≡ d) where
    consume-short :
        (code : Text) (rows : List BackupCode)
        → length code < 11
        → All IsLong rows
        → (consume_backup_code hmac hash compare code rows).0 ≡ false
    unfolding consume_backup_code
    consume-short code [] l h = refl
    consume-short code (r ∷ rows) l ((t, size, at), hs) =
        elim (Bool-cases (compare code r.code_hash)) [
          | inl e ↦
              let same = sound code t (rw (← at) e) in absurd (omega (arith, ap length same, size))
          | inr e ↦ ground (arith, consume-short code rows l hs)
        ]

    check-short :
        (code secret : Text) (step : ℕ) (s : TwoFactor)
        → length code ≤ 8
        → every is_ascii code ≡ true
        → All IsLong s.backup_codes
        → (check_code hmac hash compare code secret step s).0 ≢ by_backup_code
    unfolding check_code
    check-short code secret step s l ascii h =
        ground (arith, length-normalised code ascii, consume-short (normalised code) s.backup_codes)

    verify-short :
        (signed known : Bool) (code : Text) (step : ℕ) (s : TwoFactor)
        → every is_ascii code ≡ true
        → All IsLong s.backup_codes
        → (verify hmac hash compare signed known code step s).0 ≢ signed_in_by_backup_code
    unfolding verify
    verify-short signed known code step s ascii h = elim (Option-cases (confirmed_secret s)) [
      | inl e ↦ ground (arith, e)
      | inr (secret, e) ↦ ground (arith, e, check-short code secret step s)
    ]

    All-IsLong :
        (rs : List Request) (s : TwoFactor)
        → All IsLong s.backup_codes
        → All IsLong (serve_all rs s).backup_codes
    unfolding serve_all
    All-IsLong [] s h = h
    All-IsLong (r ∷ rs) s h = All-IsLong rs (serve r s).1 (serve-IsLong r s h)

    -- No backup code signs a user in: whatever requests came before, a code of ASCII that the route
    -- takes is too short for one, where bcrypt matches a code with the hash of the same code only.
    pub verify-never_by_backup :
        (requests : List Request) (signed known : Bool) (code : Text) (step : ℕ)
        → every is_ascii code ≡ true
        → (verify hmac hash compare signed known code step (serve_all requests not_enrolled)).0
          ≢ signed_in_by_backup_code
    verify-never_by_backup requests signed known code step ascii =
        verify-short signed known code step (serve_all requests not_enrolled) ascii
          (All-IsLong requests not_enrolled tt)
