-- ===== src/WsFrame/RoundTrip.antt =====
-- An encoded frame is decoded to its opcode and payload, and what follows it is left alone; so is a
-- masked frame, as a client sends it.
use Prim.Native.Nat.{bit_and, bit_or, bit_xor}
use brand_blitz.Prelude.{
  ℕ, suc, ◌+◌, ◌%◌, ◌^◌, ◌≤◌, ◌<◌, ◌≡◌, refl, ap, ◌∙◌, inl, inr, true, not, [], ◌∷◌, ◌++◌,
  append_assoc, none, some, arith, length, take, drop, length-append, take-append, drop-append, leb,
  ◌==◌, if◌then◌else◌, Bool-cases, All,
}
use brand_blitz.Numbers.{to_number}
use brand_blitz.WsFrame.{
  Payload, payload_bytes, DecodedWsFrame, unmask_from, mask_size, read_length, payload_of, frame_of,
  ws_header, encode_ws_frame, decode_one, decode_ws_frames,
}
use brand_blitz.WsFrame.BigEndian.{Bytes, be_bytes, length-be_bytes, be_value-be_bytes}
use brand_blitz.WsFrame.Bits.{first_byte, size_byte, xor_twice}
use brand_blitz.WsFrame.Decode.{decode_ws_frames-some}

-- The frame that a final frame with this opcode and payload stands for.
abbrev pub final_frame : ℕ → Bytes → DecodedWsFrame
final_frame opcode payload = record {
  opcode = opcode;
  payload = payload;
  text = if opcode == 1 then some payload else none;
  is_final = true;
}

-- The second byte, with the mask bit, and the extended length of a client's header.
abbrev pub masked_size : ℕ → Bytes
masked_size size =
    if leb size 125
    then (0x80 + size) ∷ []
    else if leb size 65535
    then 0xfe ∷ be_bytes 2 size
    else 0xff ∷ be_bytes 8 size

abbrev first_of : ℕ → ℕ
first_of opcode = bit_or 0x80 (bit_and opcode 0x0f)

-- The payload masked by the four bytes of the key in turn (RFC 6455, 5.3).
pub mask_in_turn : ℕ → ℕ → ℕ → ℕ → Bytes → Bytes
mask_in_turn p q r s [] = []
mask_in_turn p q r s (b ∷ bs) = bit_xor b p ∷ mask_in_turn q r s p bs

-- A client's frame (RFC 6455, 5.2): the mask bit set, four bytes of masking key, and the payload
-- masked by them.
pub client_frame : ℕ → ℕ → ℕ → ℕ → ℕ → Bytes → Bytes
client_frame opcode p q r s payload =
    first_of opcode
    ∷ (masked_size (length payload) ++ ((p ∷ q ∷ r ∷ s ∷ []) ++ mask_in_turn p q r s payload))

to_number_small : (n : ℕ) → n < 2 ^ 53 → to_number n ≡ n
unfolding to_number
to_number_small n h = ground arith

take_all : (bs rest : Bytes) (k : ℕ) → length bs ≡ k → take k (bs ++ rest) ≡ bs
take_all bs rest k h = rw (← h) (take-append bs rest)

drop_all : (bs rest : Bytes) (k : ℕ) → length bs ≡ k → drop k (bs ++ rest) ≡ rest
drop_all bs rest k h = rw (← h) (drop-append bs rest)

read_extended :
    (b1 size : ℕ) (body : Bytes)
    → bit_and b1 0x7f ≡ 126
    → size < 65536
    → read_length b1 (be_bytes 2 size ++ body) ≡ some (size, body)
unfolding read_length
read_extended b1 size body h small = ground (
  arith,
  length-append {0} (be_bytes 2 size) body,
  length-be_bytes 2 size,
  take_all (be_bytes 2 size) body 2,
  drop_all (be_bytes 2 size) body 2,
  be_value-be_bytes 2 size,
)

read_long :
    (b1 size : ℕ) (body : Bytes)
    → bit_and b1 0x7f ≡ 127
    → size < 2 ^ 53
    → read_length b1 (be_bytes 8 size ++ body) ≡ some (size, body)
unfolding read_length
read_long b1 size body h small = ground (
  arith,
  length-append {0} (be_bytes 8 size) body,
  length-be_bytes 8 size,
  take_all (be_bytes 8 size) body 8,
  drop_all (be_bytes 8 size) body 8,
  be_value-be_bytes 8 size,
  to_number_small size,
)

decode_one_of :
    (b0 b1 : ℕ) (tail : Bytes) (size : ℕ) (body : Bytes)
    → read_length b1 tail ≡ some (size, body)
    → mask_size b1 + size ≤ length body
    → decode_one (b0 ∷ b1 ∷ tail) ≡ some (frame_of b0 b1 size body, drop (mask_size b1 + size) body)
unfolding decode_one
decode_one_of b0 b1 tail size body h fits = rw (h, decode_one) (ground arith)

-- What a header with first byte `b0` and a payload make.
abbrev plain_frame : ℕ → Bytes → DecodedWsFrame
plain_frame b0 payload = record {
  opcode = bit_and b0 0x0f;
  payload = payload;
  text = if bit_and b0 0x0f == 1 then some payload else none;
  is_final = not (bit_and b0 0x80 == 0);
}

decode_plain :
    (b0 b1 : ℕ) (tail : Bytes) (size : ℕ) (payload rest : Bytes)
    → bit_and b1 0x80 ≡ 0
    → read_length b1 tail ≡ some (size, payload ++ rest)
    → size ≡ length payload
    → decode_one (b0 ∷ b1 ∷ tail) ≡ some (plain_frame b0 payload, rest)
unfolding frame_of payload_of
decode_plain b0 b1 tail size payload rest flag h same = ground (
  arith,
  decode_one_of b0 b1 tail size (payload ++ rest),
  length-append {0} payload rest,
  take_all payload rest size,
  drop_all payload rest size,
)

decode_masked :
    (b0 b1 : ℕ) (tail : Bytes) (size : ℕ) (key payload rest : Bytes)
    → bit_and b1 0x80 ≡ 0x80
    → read_length b1 tail ≡ some (size, key ++ (payload ++ rest))
    → length key ≡ 4
    → size ≡ length payload
    → decode_one (b0 ∷ b1 ∷ tail) ≡ some (plain_frame b0 (unmask_from key 0 payload), rest)
unfolding frame_of payload_of
decode_masked b0 b1 tail size key payload rest flag h four same = ground (
  arith,
  decode_one_of b0 b1 tail size (key ++ (payload ++ rest)),
  length-append {0} payload rest,
  length-append {0} key (payload ++ rest),
  take_all key (payload ++ rest) 4,
  drop_all key (payload ++ rest) 4,
  take_all payload rest size,
  ap (λ (bs : Bytes). bs ++ rest) refl,
  append_assoc key payload rest,
  length-append {0} key payload,
  drop_all (key ++ payload) rest (4 + size),
)

read_short :
    (b1 size : ℕ) (tail : Bytes)
    → bit_and b1 0x7f ≡ size
    → size ≤ 125
    → read_length b1 tail ≡ some (size, tail)
unfolding read_length
read_short b1 size tail h small = ground arith

plain_frame-final :
    (opcode : ℕ) (payload : Bytes)
    → opcode < 16
    → plain_frame (first_of opcode) payload ≡ final_frame opcode payload
plain_frame-final opcode payload h = ground (arith, first_byte opcode h)

decode_header :
    (opcode : ℕ) (payload rest : Bytes)
    → length payload < 2 ^ 53
    → decode_one (ws_header opcode (length payload) ++ (payload ++ rest))
      ≡ some (plain_frame (first_of opcode) payload, rest)
unfolding ws_header
decode_header opcode payload rest small = elim (Bool-cases (leb (length payload) 125)) [
  | inl short ↦
      let bits = size_byte (length payload) (ground arith) in
      rw short (
        decode_plain (first_of opcode) (length payload) (payload ++ rest) (length payload) payload
          rest bits.1
          (read_short (length payload) (length payload) (payload ++ rest) bits.0 (ground arith))
          refl)
  | inr long ↦ elim (Bool-cases (leb (length payload) 65535)) [
    | inl mid ↦
        rw (long, mid)
          (decode_plain (first_of opcode) 126 (be_bytes 2 (length payload) ++ (payload ++ rest))
            (length payload) payload rest refl
            (read_extended 126 (length payload) (payload ++ rest) refl (ground arith)) refl)
    | inr big ↦
        rw (long, big)
          (decode_plain (first_of opcode) 127 (be_bytes 8 (length payload) ++ (payload ++ rest))
            (length payload) payload rest refl
            (read_long 127 (length payload) (payload ++ rest) refl small) refl)
  ]
]

-- For every payload of fewer than 2 ^ 53 bytes and every opcode below 16, decoding the encoded
-- frame with any bytes behind it gives first one final frame with that opcode and exactly the
-- encoded bytes, and then what decoding the bytes behind it gives.
pub decode_ws_frames-encode_ws_frame :
    (message : Payload) (opcode : ℕ) (rest : Bytes)
    → opcode < 16
    → length (payload_bytes message) < 2 ^ 53
    → decode_ws_frames (encode_ws_frame message opcode ++ rest) ≡ (
      final_frame opcode (payload_bytes message) ∷ (decode_ws_frames rest).0,
      (decode_ws_frames rest).1,
    )
unfolding encode_ws_frame
decode_ws_frames-encode_ws_frame message opcode rest h small =
    let p = payload_bytes message in
    decode_ws_frames-some (encode_ws_frame message opcode ++ rest) (final_frame opcode p) rest (
      rw (append_assoc (ws_header opcode (length p)) p rest) (
        decode_header opcode p rest small
        ∙ ap (λ f. some (f, rest)) (plain_frame-final opcode p h)))

-- Unmasking from a place in the payload takes the key's bytes from that place on, in turn.
unmask_in_turn :
    (p q r s : ℕ) (i : ℕ) (bs : Bytes)
    → All (λ b. b < 256) (p ∷ q ∷ r ∷ s ∷ [])
    → All (λ b. b < 256) bs
    → (i % 4 ≡ 0 → unmask_from (p ∷ q ∷ r ∷ s ∷ []) i (mask_in_turn p q r s bs) ≡ bs)
      × (i % 4 ≡ 1 → unmask_from (p ∷ q ∷ r ∷ s ∷ []) i (mask_in_turn q r s p bs) ≡ bs)
      × (i % 4 ≡ 2 → unmask_from (p ∷ q ∷ r ∷ s ∷ []) i (mask_in_turn r s p q bs) ≡ bs)
      × (i % 4 ≡ 3 → unmask_from (p ∷ q ∷ r ∷ s ∷ []) i (mask_in_turn s p q r bs) ≡ bs)
unfolding unmask_from mask_in_turn
unmask_in_turn p q r s i [] hk h = (λ e. refl, λ e. refl, λ e. refl, λ e. refl)
unmask_in_turn p q r s i (b ∷ bs) (hp, (hq, (hr, (hs, hk)))) (hb, hbs) =
    let rest = unmask_in_turn p q r s (i + 1) bs (hp, (hq, (hr, (hs, tt)))) hbs in
    (
      λ e. rw e (cc (xor_twice b p hb hp, rest.1 (omega (arith, e)))),
      λ e. rw e (cc (xor_twice b q hb hq, rest.2 (omega (arith, e)))),
      λ e. rw e (cc (xor_twice b r hb hr, rest.3 (omega (arith, e)))),
      λ e. rw e (cc (xor_twice b s hb hs, rest.0 (omega (arith, e)))),
    )

length-mask_in_turn : (p q r s : ℕ) (bs : Bytes) → length (mask_in_turn p q r s bs) ≡ length bs
unfolding mask_in_turn
length-mask_in_turn p q r s [] = refl
length-mask_in_turn p q r s (b ∷ bs) = ap suc (length-mask_in_turn q r s p bs)

decode_masked_header :
    (opcode : ℕ) (key payload rest : Bytes)
    → length key ≡ 4
    → length payload < 2 ^ 53
    → decode_one (first_of opcode ∷ (masked_size (length payload) ++ (key ++ (payload ++ rest))))
      ≡ some (plain_frame (first_of opcode) (unmask_from key 0 payload), rest)
decode_masked_header opcode key payload rest four small =
    let n = length payload in
    let body = key ++ (payload ++ rest) in
    elim (Bool-cases (leb n 125)) [
      | inl short ↦
          let bits = size_byte n (ground arith) in
          rw short (
            decode_masked (first_of opcode) (0x80 + n) body n key payload rest bits.3
              (read_short (0x80 + n) n body bits.2 (ground arith)) four refl)
      | inr long ↦ elim (Bool-cases (leb n 65535)) [
        | inl mid ↦
            rw (long, mid)
              (decode_masked (first_of opcode) 0xfe (be_bytes 2 n ++ body) n key payload rest refl
                (read_extended 0xfe n body refl (ground arith)) four refl)
        | inr big ↦
            rw (long, big)
              (decode_masked (first_of opcode) 0xff (be_bytes 8 n ++ body) n key payload rest refl
                (read_long 0xff n body refl small) four refl)
      ]
    ]

-- For every opcode below 16, masking key of four bytes and payload of fewer than 2 ^ 53 bytes,
-- decoding a client's masked frame with any bytes behind it gives first one final frame with that
-- opcode and the payload unmasked, and then what decoding the bytes behind it gives.
pub decode_ws_frames-client_frame :
    (opcode p q r s : ℕ) (payload rest : Bytes)
    → opcode < 16
    → All (λ b. b < 256) (p ∷ q ∷ r ∷ s ∷ [])
    → All (λ b. b < 256) payload
    → length payload < 2 ^ 53
    → decode_ws_frames (client_frame opcode p q r s payload ++ rest)
      ≡ (final_frame opcode payload ∷ (decode_ws_frames rest).0, (decode_ws_frames rest).1)
unfolding client_frame
decode_ws_frames-client_frame opcode p q r s payload rest h hk hp small =
    let key = p ∷ q ∷ r ∷ s ∷ [] in
    let masked = mask_in_turn p q r s payload in
    let same = length-mask_in_turn p q r s payload in
    let clear : unmask_from key 0 masked ≡ payload =
      (unmask_in_turn p q r s 0 payload hk hp).0 refl in
    decode_ws_frames-some (client_frame opcode p q r s payload ++ rest) (final_frame opcode payload)
      rest
      (rw
        (
          append_assoc (masked_size (length payload)) (key ++ masked) rest,
          append_assoc key masked rest,
          ← same,
        )
        (decode_masked_header opcode key masked rest refl (rw same small)
          ∙ ap (λ f. some (f, rest)) (rw clear (plain_frame-final opcode payload h))))
