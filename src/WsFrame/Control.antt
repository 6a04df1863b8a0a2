-- ===== src/WsFrame/Control.antt =====
-- Pong and close frames: what a peer decodes from them is the JSON text of the Buffer that holds
-- the intended payload, and never that payload.
use brand_blitz.Prelude.{
  ◌^◌, ◌≤◌, ◌<◌, ◌≡◌, ◌≢◌, refl, [], ◌∷◌, append-nil, arith, length, length-append, ap,
}
use brand_blitz.Usdc.Decimal.{to_string, to_string-nonempty}
use brand_blitz.Texts.{codes}
use brand_blitz.WsFrame.{
  buffer, json_items, json_of_buffer, payload_bytes, encode_pong_frame, decode_one,
  decode_ws_frames,
}
use brand_blitz.WsFrame.BigEndian.{Bytes}
use brand_blitz.WsFrame.Decode.{decode_ws_frames-none}
use brand_blitz.WsFrame.RoundTrip.{final_frame, decode_ws_frames-encode_ws_frame}

json_items-length : (bs : Bytes) → length bs ≤ length (json_items bs)
unfolding json_items
json_items-length [] = omega arith
json_items-length (b ∷ []) = omega (arith, to_string-nonempty b)
json_items-length (b ∷ b' ∷ bs) = omega (
  arith,
  to_string-nonempty b,
  json_items-length (b' ∷ bs),
  length-append {0} (to_string b) (b',' ∷ json_items (b' ∷ bs)),
)

json_of_buffer-longer : (bs : Bytes) → length bs < length (json_of_buffer bs)
unfolding json_of_buffer
json_of_buffer-longer bs =
    omega (arith, json_items-length bs, length-append {0} (json_items bs) (codes "]}"))

-- A pong that answers a ping with any payload, short enough to be encoded, is decoded by the peer
-- as a final pong frame whose payload is the JSON text of the Buffer, and that differs from the
-- ping's payload.
pub decode_ws_frames-encode_pong_frame :
    (payload : Bytes)
    → length (json_of_buffer payload) < 2 ^ 53
    → (decode_ws_frames (encode_pong_frame payload)
        ≡ (final_frame 0x0a (json_of_buffer payload) ∷ [], []))
      × (json_of_buffer payload ≢ payload)
unfolding encode_pong_frame payload_bytes decode_one
decode_ws_frames-encode_pong_frame payload small = (
  rw
      (
        ← append-nil (encode_pong_frame payload),
        decode_ws_frames-encode_ws_frame (buffer payload) 0x0a [] (omega arith) small,
        decode_ws_frames-none [] refl,
      )
      refl,
  λ e. absurd (omega (arith, json_of_buffer-longer payload, ap length e)),
)
