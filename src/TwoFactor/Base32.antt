-- ===== src/TwoFactor/Base32.antt =====
-- db/queries/totp of the API: what base32Encode makes of a secret's bytes, base32Decode reads.
use brand_blitz.Prelude.{
  ℕ, ◌+◌, ◌-◌, ◌*◌, ◌/◌, ◌%◌, ◌^◌, ◌≤◌, ◌<◌, ◌≡◌, refl, ap, ◌∙◌, Bool, true, ◌&&◌, ◌||◌, List, [],
  ◌∷◌, some, arith, every, leb, All,
}
use brand_blitz.Texts.{Text, to_upper_case}
use brand_blitz.TwoFactor.Totp.{
  char_index, char_at, strip_padding, decode_from, base32_decode, encode_from, base32_encode,
}

char_index-char_at : (i : ℕ) → i < 32 → char_index (char_at i) ≡ some i
char_index-char_at i h = ground arith

-- The decoder at a letter, without and with a byte to give.
decode-no_byte :
    (w d i : ℕ) (s : Text) (bytes : List ℕ)
    → i < 32
    → d < 3
    → decode_from ((w * 32 + i) % 2 ^ 32) (d + 5) s ≡ some bytes
    → decode_from w d (char_at i ∷ s) ≡ some bytes
unfolding decode_from
decode-no_byte w d i s bytes h k e = rw (char_index-char_at i h, decode_from) (ground (arith, e))

decode-byte :
    (w d i b : ℕ) (s : Text) (bytes : List ℕ)
    → i < 32
    → 3 ≤ d
    → (w * 32 + i) % 2 ^ 32 / 2 ^ (d + 5 - 8) % 256 ≡ b
    → decode_from ((w * 32 + i) % 2 ^ 32) (d + 5 - 8) s ≡ some bytes
    → decode_from w d (char_at i ∷ s) ≡ some (b ∷ bytes)
unfolding decode_from
decode-byte w d i b s bytes h k out e =
    rw (char_index-char_at i h, decode_from) (ground (arith, e, out))

-- The decoder has all bytes but `b`, of which the encoder has kept the last `e` bits.
abbrev Rest : ℕ → List ℕ → Type 0
Rest e bytes =
    (v w b : ℕ)
    → b < 256
    → v % 2 ^ e ≡ b % 2 ^ e
    → w % 2 ^ (8 - e) ≡ b / 2 ^ e
    → decode_from w (8 - e) (encode_from v e bytes) ≡ some (b ∷ bytes)

decode-encode :
    (bytes : List ℕ)
    → All (λ b. b < 256) bytes
    → ((v w : ℕ) → decode_from w 0 (encode_from v 0 bytes) ≡ some bytes)
      × Rest 1 bytes
      × Rest 2 bytes
      × Rest 3 bytes
      × Rest 4 bytes
unfolding encode_from
decode-encode [] _ = (
  λ v w. unfold decode_from in refl,
  λ v w b h k l.
      decode-byte w 7 (v * 16 % 32) b [] [] (ground arith) (ground arith) (ground arith)
        (unfold decode_from in refl),
  λ v w b h k l.
      decode-byte w 6 (v * 8 % 32) b [] [] (ground arith) (ground arith) (ground arith)
        (unfold decode_from in refl),
  λ v w b h k l.
      decode-byte w 5 (v * 4 % 32) b [] [] (ground arith) (ground arith) (ground arith)
        (unfold decode_from in refl),
  λ v w b h k l.
      decode-byte w 4 (v * 2 % 32) b [] [] (ground arith) (ground arith) (ground arith)
        (unfold decode_from in refl),
)
decode-encode (c ∷ bytes) (hc, hs) =
    let (ih0, ih1, ih2, ih3, ih4) = decode-encode bytes hs in
    (
      λ v w.
          let n = (v * 256 + c) % 2 ^ 32 in
          let i = n / 8 % 32 in
          decode-no_byte w 0 i (encode_from n 3 bytes) (c ∷ bytes) (ground arith) (ground arith)
            (ih3 n ((w * 32 + i) % 2 ^ 32) c hc (omega arith) (omega arith)),
      λ v w b h k l.
          let n = (v * 256 + c) % 2 ^ 32 in
          let i = n / 16 % 32 in
          decode-byte w 7 i b (encode_from n 4 bytes) (c ∷ bytes) (ground arith) (ground arith)
            (omega arith) (ih4 n ((w * 32 + i) % 2 ^ 32) c hc (omega arith) (omega arith)),
      λ v w b h k l.
          let n = (v * 256 + c) % 2 ^ 32 in
          let i = n / 32 % 32 in
          let j = n / 1 % 32 in
          let w1 = (w * 32 + i) % 2 ^ 32 in
          decode-byte w 6 i b (char_at j ∷ encode_from n 0 bytes) (c ∷ bytes) (ground arith)
            (ground arith) (omega arith)
            (decode-byte w1 3 j c (encode_from n 0 bytes) bytes (ground arith) (ground arith)
              (omega arith) (ih0 n ((w1 * 32 + j) % 2 ^ 32))),
      λ v w b h k l.
          let n = (v * 256 + c) % 2 ^ 32 in
          let i = n / 64 % 32 in
          let j = n / 2 % 32 in
          let w1 = (w * 32 + i) % 2 ^ 32 in
          decode-byte w 5 i b (char_at j ∷ encode_from n 1 bytes) (c ∷ bytes) (ground arith)
            (ground arith) (omega arith)
            (decode-no_byte w1 2 j (encode_from n 1 bytes) (c ∷ bytes) (ground arith) (ground arith)
              (ih1 n ((w1 * 32 + j) % 2 ^ 32) c hc (omega arith) (omega arith))),
      λ v w b h k l.
          let n = (v * 256 + c) % 2 ^ 32 in
          let i = n / 128 % 32 in
          let j = n / 4 % 32 in
          let w1 = (w * 32 + i) % 2 ^ 32 in
          decode-byte w 4 i b (char_at j ∷ encode_from n 2 bytes) (c ∷ bytes) (ground arith)
            (ground arith) (omega arith)
            (decode-no_byte w1 1 j (encode_from n 2 bytes) (c ∷ bytes) (ground arith) (ground arith)
              (ih2 n ((w1 * 32 + j) % 2 ^ 32) c hc (omega arith) (omega arith))),
    )

-- The letters of the alphabet are in upper case, and no padding.
abbrev is_letter : ℕ → Bool
is_letter c = leb b'A' c && leb c b'Z' || leb b'2' c && leb c b'7'

char_at-is_letter : (i : ℕ) → i < 32 → is_letter (char_at i) ≡ true
char_at-is_letter i h = ground arith

encode_from-letters : (v e : ℕ) (bytes : List ℕ) → every is_letter (encode_from v e bytes) ≡ true
unfolding encode_from
encode_from-letters v e [] = ground (arith, char_at-is_letter (v * 2 ^ (5 - e) % 32) (ground arith))
encode_from-letters v e (c ∷ bytes) =
    let n = (v * 256 + c) % 2 ^ 32 in
    ground (
      arith,
      char_at-is_letter (n / 2 ^ (e + 8 - 5) % 32) (ground arith),
      char_at-is_letter (n / 2 ^ (e + 8 - 10) % 32) (ground arith),
      encode_from-letters n (e + 8 - 10) bytes,
      encode_from-letters n (e + 8 - 5) bytes,
    )

upper-letters : (s : Text) → every is_letter s ≡ true → to_upper_case s ≡ s
unfolding to_upper_case
upper-letters [] h = refl
upper-letters (c ∷ s) h = ground (arith, upper-letters s)

strip-letters : (s : Text) → every is_letter s ≡ true → strip_padding s ≡ s
strip-letters [] h = refl
strip-letters (c ∷ s) h = ground (arith, strip-letters s)

-- The base32 text of bytes is decoded to the bytes, however many there are.
pub base32_decode-base32_encode :
    (bytes : List ℕ) → All (λ b. b < 256) bytes → base32_decode (base32_encode bytes) ≡ some bytes
unfolding base32_decode base32_encode
base32_decode-base32_encode bytes h =
    let letters = encode_from-letters 0 0 bytes in
    ap (λ s. decode_from 0 0 (strip_padding s)) (upper-letters (encode_from 0 0 bytes) letters)
    ∙ ap (decode_from 0 0) (strip-letters (encode_from 0 0 bytes) letters)
    ∙ (decode-encode bytes h).0 0 0
