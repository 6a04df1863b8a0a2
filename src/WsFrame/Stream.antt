-- ===== src/WsFrame/Stream.antt =====
-- Frames that arrive in pieces: the chat handler keeps what the decoder returns as remaining and
-- puts it before the next chunk.
use brand_blitz.Prelude.{
  ℕ, zero, suc, ◌+◌, ◌≤◌, ◌≡◌, refl, inl, inr, List, [], ◌∷◌, ◌++◌, some, arith, length, drop,
  length-append, take-append_le, drop-append_le, length-drop, Option-cases,
}
use brand_blitz.WsFrame.{
  DecodedWsFrame, mask_size, read_length, payload_of, frame_of, decode_one, decode_ws_frames,
}
use brand_blitz.WsFrame.BigEndian.{Bytes}
use brand_blitz.WsFrame.Decode.{decode_one-shrinks, decode_ws_frames-none, decode_ws_frames-some}

read_length-append :
    (b1 : ℕ) (tail more : Bytes) (size : ℕ) (body : Bytes)
    → read_length b1 tail ≡ some (size, body)
    → read_length b1 (tail ++ more) ≡ some (size, body ++ more)
unfolding read_length
read_length-append b1 tail more size body h = ground (
  arith,
  length-append {0} tail more,
  take-append_le {0} 2 tail more,
  drop-append_le {0} 2 tail more,
  take-append_le {0} 8 tail more,
  drop-append_le {0} 8 tail more,
)

frame_of-append :
    (b0 b1 size : ℕ) (body more : Bytes)
    → mask_size b1 + size ≤ length body
    → frame_of b0 b1 size (body ++ more) ≡ frame_of b0 b1 size body
unfolding frame_of payload_of
frame_of-append b0 b1 size body more h = ground (
  arith,
  take-append_le {0} size body more,
  take-append_le {0} 4 body more,
  drop-append_le {0} 4 body more,
  take-append_le {0} size (drop 4 body) more,
  length-drop {0} 4 body,
)

decode_one-append :
    (buf more : Bytes) (frame : DecodedWsFrame) (rest : Bytes)
    → decode_one buf ≡ some (frame, rest)
    → decode_one (buf ++ more) ≡ some (frame, rest ++ more)
unfolding decode_one
decode_one-append [] more frame rest h = cc
decode_one-append (b0 ∷ []) more frame rest h = cc
decode_one-append (b0 ∷ b1 ∷ tail) more frame rest h = elim (Option-cases (read_length b1 tail)) [
  | inl e ↦ cc (rw (e, decode_one) at h)
  | inr ((size, body), e) ↦
      let h' = rw (e, decode_one) at h in
      rw (read_length-append b1 tail more size body e, decode_one)
        (ground (
          arith,
          length-append {0} body more,
          frame_of-append b0 b1 size body more,
          drop-append_le {0} (mask_size b1 + size) body more,
        ))
]

-- The decoder run on a first chunk, and then on what it left with a second chunk behind it.
abbrev pub decode_in_two : Bytes → Bytes → List DecodedWsFrame × Bytes
decode_in_two chunk more =
    let first = decode_ws_frames chunk in
    let second = decode_ws_frames (first.1 ++ more) in (first.0 ++ second.0, second.1)

stream_from :
    (f : ℕ) (chunk more : Bytes)
    → length chunk ≤ f
    → decode_ws_frames (chunk ++ more) ≡ decode_in_two chunk more
unfolding decode_one
stream_from zero [] more h = rw (decode_ws_frames-none [] refl) refl
stream_from zero (b ∷ bs) more h = absurd (omega arith)
stream_from (suc f) chunk more h = elim (Option-cases (decode_one chunk)) [
  | inl e ↦ rw (decode_ws_frames-none chunk e) refl
  | inr ((frame, rest), e) ↦
      let ih = stream_from f rest more (omega (arith, decode_one-shrinks chunk frame rest e)) in
      rw
        (
          decode_ws_frames-some (chunk ++ more) frame (rest ++ more)
              (decode_one-append chunk more frame rest e),
          decode_ws_frames-some chunk frame rest e,
          ih,
        )
        refl
]

-- However a byte stream is cut in two, decoding the first part and then what remained with the
-- second part gives the same frames and the same remaining bytes as decoding the whole at once.
pub decode_ws_frames-append :
    (chunk more : Bytes) → decode_ws_frames (chunk ++ more) ≡ decode_in_two chunk more
decode_ws_frames-append chunk more = stream_from (length chunk) chunk more (omega arith)
