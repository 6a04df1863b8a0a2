-- ===== src/Tests/TwoFactor.antt =====
-- Two factors.
use brand_blitz.Prelude.{ℕ, ◌≡◌, ◌≢◌, refl, true, List, [], ◌∷◌, some, arith}
use brand_blitz.Texts.{Text, codes, same_text, same_text_iff}
use brand_blitz.TwoFactor.{verify, signed_in_by_backup_code}
use brand_blitz.TwoFactor.Totp.{base32_decode, base32_encode}
use brand_blitz.TwoFactor.Base32.{base32_decode-base32_encode}
use brand_blitz.TwoFactor.Backup.{
  Request, enroll_asked, confirm_asked, serve_all, not_enrolled, verify-never_by_backup,
}

base32_decode-base32_encode_example :
    base32_decode (base32_encode (255 ∷ 0 ∷ 17 ∷ [])) ≡ some (255 ∷ 0 ∷ 17 ∷ [])
base32_decode-base32_encode_example =
    base32_decode-base32_encode (255 ∷ 0 ∷ 17 ∷ [])
      (ground arith, (ground arith, (ground arith, tt)))

abbrev no_hmac : List ℕ → List ℕ → List ℕ
no_hmac key message = []

abbrev kept : Text → Text
kept code = code

abbrev kept-sound : (c d : Text) → same_text c (kept d) ≡ true → c ≡ d
kept-sound c d h = ground (arith, same_text_iff c d)

-- Where the HMAC is empty, every code of the app is 000000.
abbrev requests : List Request
requests = enroll_asked true (1 ∷ []) ∷ confirm_asked (codes "000000") 5 (λ k i. 0) ∷ []

verify-never_by_backup_example :
    (verify no_hmac kept same_text true true
      (codes "AAAAA-AA")
      9
      (serve_all no_hmac kept same_text requests not_enrolled)).0
    ≢ signed_in_by_backup_code
verify-never_by_backup_example =
    verify-never_by_backup no_hmac kept same_text kept-sound requests true true (codes "AAAAA-AA") 9
      refl
