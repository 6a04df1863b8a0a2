-- ===== src/WsFrame.antt =====
-- lib/ws-frame of the API: RFC 6455 frames. A Buffer is a list of bytes; the decoder's offset is the
-- part of the buffer that is already dropped.
pub mod Bits
pub mod BigEndian
pub mod Decode
pub mod RoundTrip
pub mod Stream
pub mod Control
use Prim.Native.Nat.{bit_and, bit_or, bit_xor}
use brand_blitz.Prelude.{
  ℕ, zero, suc, ◌+◌, ◌*◌, ◌/◌, ◌%◌, ◌≡◌, Bool, true, false, not, List, [], ◌∷◌, ◌++◌, Option, none,
  some, length, take, drop, ltb, leb, ◌==◌, if◌then◌else◌,
}
use brand_blitz.Numbers.{to_number}
use brand_blitz.Texts.{codes}
use brand_blitz.Usdc.Decimal.{to_string}
use BigEndian.{Bytes, be_bytes, be_value}

-- What is handed to the encoder: a string, given by its UTF-8 bytes; a Buffer; or another object,
-- given by the bytes of its JSON text.
pub data Payload : Type 0 where
  string buffer object : Bytes → Payload

-- The items of a JSON array of numbers.
json_items : Bytes → Bytes
json_items [] = []
json_items (b ∷ []) = to_string b
json_items (b ∷ b' ∷ bs) = to_string b ++ (b',' ∷ json_items (b' ∷ bs))

-- `JSON.stringify(buffer)`.
unfoldable pub json_of_buffer : Bytes → Bytes
unfolding json_items
json_of_buffer bs = codes "{\"type\":\"Buffer\",\"data\":[" ++ (json_items bs ++ codes "]}")

unfoldable pub payload_bytes : Payload → Bytes
unfolding json_of_buffer
payload_bytes (string s) = s
payload_bytes (buffer bs) = json_of_buffer bs
payload_bytes (object json) = json

ws_header : ℕ → ℕ → Bytes
ws_header opcode size =
    let first = bit_or 0x80 (bit_and opcode 0x0f) in
    if leb size 125
    then first ∷ size ∷ []
    else if leb size 65535
    then first ∷ 126 ∷ be_bytes 2 size
    else first ∷ 127 ∷ be_bytes 8 size

unfoldable pub encode_ws_frame : Payload → ℕ → Bytes
unfolding payload_bytes ws_header
encode_ws_frame payload opcode =
    ws_header opcode (length (payload_bytes payload)) ++ payload_bytes payload

unfoldable pub encode_close_frame : ℕ → Bytes → Bytes
encode_close_frame status reason = encode_ws_frame (buffer (be_bytes 2 status ++ reason)) 0x08

unfoldable pub encode_pong_frame : Bytes → Bytes
encode_pong_frame payload = encode_ws_frame (buffer payload) 0x0a

-- `text` holds the bytes that are decoded as UTF-8.
pub record DecodedWsFrame : Type 0 where
  pub opcode : ℕ
  pub payload : Bytes
  pub text : Option Bytes
  pub is_final : Bool

abbrev pub byte_at : Bytes → ℕ → ℕ
byte_at [] i = 0
byte_at (b ∷ bs) zero = b
byte_at (b ∷ bs) (suc i) = byte_at bs i

-- payload[i] ^ mask[i % 4], from index i on.
pub unmask_from : Bytes → ℕ → Bytes → Bytes
unmask_from mask i [] = []
unmask_from mask i (b ∷ bs) = bit_xor b (byte_at mask (i % 4)) ∷ unmask_from mask (i + 1) bs

abbrev is_masked : ℕ → Bool
is_masked b1 = not (bit_and b1 0x80 == 0)

abbrev mask_size : ℕ → ℕ
mask_size b1 = if is_masked b1 then 4 else 0

-- The payload's length and what follows it, or none where the header is incomplete.
read_length : ℕ → Bytes → Option (ℕ × Bytes)
read_length b1 tail =
    if bit_and b1 0x7f == 126
    then (if ltb (length tail) 2 then none else some (be_value (take 2 tail), drop 2 tail))
    else if bit_and b1 0x7f == 127
    then (if ltb (length tail) 8
        then none
        else some (to_number (be_value (take 8 tail)), drop 8 tail))
    else some (bit_and b1 0x7f, tail)

-- The payload of a body that holds the mask, if any, and at least `size` bytes.
payload_of : ℕ → ℕ → Bytes → Bytes
payload_of b1 size body =
    if is_masked b1 then unmask_from (take 4 body) 0 (take size (drop 4 body)) else take size body

frame_of : ℕ → ℕ → ℕ → Bytes → DecodedWsFrame
unfolding payload_of
frame_of b0 b1 size body = record {
  opcode = bit_and b0 0x0f;
  payload = payload_of b1 size body;
  text = if bit_and b0 0x0f == 1 then some (payload_of b1 size body) else none;
  is_final = not (bit_and b0 0x80 == 0);
}

-- One round of the loop: none is `break`.
pub decode_one : Bytes → Option (DecodedWsFrame × Bytes)
decode_one [] = none
decode_one (b0 ∷ []) = none
decode_one (b0 ∷ b1 ∷ tail) = elim (read_length b1 tail) [
  | none ↦ none
  | some (size, body) ↦
      if ltb (length body) (mask_size b1 + size)
      then none
      else some (frame_of b0 b1 size body, drop (mask_size b1 + size) body)
]

-- The loop, which drops at least two bytes in a round: the buffer's length is fuel enough.
decode_from : ℕ → Bytes → List DecodedWsFrame × Bytes
decode_from zero buf = ([], buf)
decode_from (suc f) buf = elim (decode_one buf) [
  | none ↦ ([], buf)
  | some (frame, rest) ↦ (frame ∷ (decode_from f rest).0, (decode_from f rest).1)
]

pub decode_ws_frames : Bytes → List DecodedWsFrame × Bytes
decode_ws_frames buf = decode_from (length buf) buf
