-- ===== src/TwoFactor/Totp.antt =====
-- db/queries/totp of the API: secrets in base32 and the codes of RFC 6238. The HMAC is the crypto
-- module's; a time is the number of its step of 30 seconds. Bits that leave 32 are dropped.
use brand_blitz.Prelude.{
  ℕ, ◌+◌, ◌-◌, ◌*◌, ◌/◌, ◌%◌, ◌^◌, Bool, true, false, ◌&&◌, List, [], ◌∷◌, Option, none, some,
  length, get_elem?, ltb, leb, ◌==◌, if◌then◌else◌,
}
use brand_blitz.Texts.{Text, same_text, to_upper_case}
use brand_blitz.Usdc.Decimal.{to_string, pad_start}
use brand_blitz.WsFrame.BigEndian.{be_bytes}

-- `alphabet.indexOf(char)`, of "ABCDEFGHIJKLMNOPQRSTUVWXYZ234567".
abbrev pub char_index : ℕ → Option ℕ
char_index c =
    if leb b'A' c && leb c b'Z'
    then some (c - b'A')
    else if leb b'2' c && leb c b'7'
    then some (c - 24)
    else none

-- `alphabet[i]`.
abbrev pub char_at : ℕ → ℕ
char_at i = if ltb i 26 then b'A' + i else 24 + i

abbrev pub strip_padding : Text → Text
strip_padding [] = []
strip_padding (c ∷ s) =
    let rest = strip_padding s in if c == b'=' && length rest == 0 then [] else c ∷ rest

-- The bytes, or `none` where the source throws.
unfoldable pub decode_from : ℕ → ℕ → Text → Option (List ℕ)
decode_from value bits [] = some []
decode_from value bits (c ∷ s) = elim (char_index c) [
  | none ↦ none
  | some i ↦
      let next = (value * 32 + i) % 2 ^ 32 in
      let rest = decode_from next (bits + 5 - 8) s in
      let same = decode_from next (bits + 5) s in
      if leb 8 (bits + 5)
      then elim rest [ none ↦ none | some bytes ↦ some (next / 2 ^ (bits + 5 - 8) % 256 ∷ bytes) ]
      else same
]

unfoldable pub base32_decode : Text → Option (List ℕ)
unfolding decode_from
base32_decode encoded = decode_from 0 0 (strip_padding (to_upper_case encoded))

-- The loop `while (bits >= 5)` makes one or two rounds for a byte, since there are 8 to 12 bits.
unfoldable pub encode_from : ℕ → ℕ → List ℕ → Text
encode_from value bits [] = if ltb 0 bits then char_at (value * 2 ^ (5 - bits) % 32) ∷ [] else []
encode_from value bits (byte ∷ bytes) =
    let next = (value * 256 + byte) % 2 ^ 32 in
    let twice = encode_from next (bits + 8 - 10) bytes in
    let once = encode_from next (bits + 8 - 5) bytes in
    char_at (next / 2 ^ (bits + 8 - 5) % 32)
    ∷ (if leb 10 (bits + 8) then char_at (next / 2 ^ (bits + 8 - 10) % 32) ∷ twice else once)

unfoldable pub base32_encode : List ℕ → Text
unfolding encode_from
base32_encode bytes = encode_from 0 0 bytes

-- A byte of a digest; one that is not there counts as 0.
abbrev byte_of : List ℕ → ℕ → ℕ
byte_of bytes i = elim (get_elem? bytes i) [ none ↦ 0 | some b ↦ b ]

-- The four bytes at the offset that the last byte gives, less the highest bit.
unfoldable pub truncated : List ℕ → ℕ
truncated digest =
    let offset = byte_of digest (length digest - 1) % 16 in
    byte_of digest offset % 128 * 2 ^ 24
    + byte_of digest (offset + 1) % 256 * 2 ^ 16
    + byte_of digest (offset + 2) % 256 * 2 ^ 8
    + byte_of digest (offset + 3) % 256

module _ (hmac : List ℕ → List ℕ → List ℕ) where
  -- `none` is where the source throws: the secret is no base32, or the step has more than 64 bits.
  unfoldable pub compute_totp : Text → ℕ → Option Text
  unfolding truncated base32_decode be_bytes to_string
  compute_totp secret step = elim (base32_decode secret) [
    | none ↦ none
    | some key ↦
        if ltb step (2 ^ 64)
        then some (pad_start 6 b'0' (to_string (truncated (hmac key (be_bytes 8 step)) % 1000000)))
        else none
  ]

  try_steps : Text → Text → List ℕ → Option Bool
  unfolding compute_totp
  try_steps token secret [] = some false
  try_steps token secret (step ∷ steps) =
      let rest = try_steps token secret steps in
      elim (compute_totp secret step) [
        | none ↦ none
        | some code ↦ if same_text code token then some true else rest
      ]

  -- Before the first step, the counter is negative, which throws.
  unfoldable pub verify_totp : Text → Text → ℕ → Option Bool
  unfolding try_steps
  verify_totp token secret step =
      if step == 0 then none else try_steps token secret ((step - 1) ∷ step ∷ (step + 1) ∷ [])
