-- ===== src/Tests/Frames.antt =====
-- Frames of the websocket.
use brand_blitz.Prelude.{◌≢◌, ◌≡◌, [], ◌∷◌, ◌++◌, arith}
use brand_blitz.Usdc.Decimal.{to_string}
use brand_blitz.WsFrame.{json_of_buffer, encode_pong_frame, decode_ws_frames}
use brand_blitz.WsFrame.Control.{decode_ws_frames-encode_pong_frame}
use brand_blitz.WsFrame.BigEndian.{Bytes}
use brand_blitz.WsFrame.RoundTrip.{final_frame, client_frame, decode_ws_frames-client_frame}
use brand_blitz.WsFrame.Stream.{decode_in_two, decode_ws_frames-append}

abbrev hello : Bytes
hello = 104 ∷ 105 ∷ []

abbrev two_bytes : Bytes
two_bytes = 129 ∷ 5 ∷ []

decode_ws_frames-client_frame_example :
    decode_ws_frames (client_frame 1 1 2 3 4 hello ++ two_bytes)
    ≡ (final_frame 1 hello ∷ (decode_ws_frames two_bytes).0, (decode_ws_frames two_bytes).1)
decode_ws_frames-client_frame_example =
    decode_ws_frames-client_frame 1 1 2 3 4 hello two_bytes (ground arith) (ground arith)
      (ground arith) (ground arith)

decode_ws_frames-append_example :
    decode_ws_frames ((129 ∷ 1 ∷ []) ++ (104 ∷ [])) ≡ decode_in_two (129 ∷ 1 ∷ []) (104 ∷ [])
decode_ws_frames-append_example = decode_ws_frames-append (129 ∷ 1 ∷ []) (104 ∷ [])

decode_ws_frames-encode_pong_frame_example :
    (decode_ws_frames (encode_pong_frame hello)
      ≡ (final_frame 0x0a (json_of_buffer hello) ∷ [], []))
    × (json_of_buffer hello ≢ hello)
unfolding json_of_buffer to_string
decode_ws_frames-encode_pong_frame_example = decode_ws_frames-encode_pong_frame hello (ground arith)
