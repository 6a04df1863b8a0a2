-- ===== src/WsFrame/Decode.antt =====
-- The decoding loop: it stops only where no complete frame is left, whatever its fuel.
use brand_blitz.Prelude.{
  ℕ, zero, suc, ◌+◌, ◌≤◌, ◌<◌, ◌≡◌, refl, inl, inr, [], ◌∷◌, none, some, arith, length, length-drop,
  Option-cases,
}
use brand_blitz.WsFrame.{
  DecodedWsFrame, mask_size, read_length, decode_one, decode_from, decode_ws_frames,
}
use brand_blitz.WsFrame.BigEndian.{Bytes}

read_length-le :
    (b1 : ℕ) (tail : Bytes) (size : ℕ) (body : Bytes)
    → read_length b1 tail ≡ some (size, body)
    → length body ≤ length tail
unfolding read_length
read_length-le b1 tail size body h = ground (arith, length-drop {0} 2 tail, length-drop {0} 8 tail)

-- A round consumes bytes.
pub decode_one-shrinks :
    (buf : Bytes) (frame : DecodedWsFrame) (rest : Bytes)
    → decode_one buf ≡ some (frame, rest)
    → length rest < length buf
unfolding decode_one
decode_one-shrinks [] frame rest h = cc
decode_one-shrinks (b0 ∷ []) frame rest h = cc
decode_one-shrinks (b0 ∷ b1 ∷ tail) frame rest h = elim (Option-cases (read_length b1 tail)) [
  | inl e ↦ cc (rw (e, decode_one) at h)
  | inr ((size, body), e) ↦
      let h' = rw (e, decode_one) at h in
      ground (arith, length-drop {0} (mask_size b1 + size) body, read_length-le b1 tail size body e)
]

-- More fuel than bytes changes nothing.
decode_from-fuel :
    (f g : ℕ) (buf : Bytes)
    → length buf ≤ f
    → length buf ≤ g
    → decode_from f buf ≡ decode_from g buf
unfolding decode_from decode_one
decode_from-fuel zero zero buf h k = refl
decode_from-fuel zero (suc g) [] h k = refl
decode_from-fuel zero (suc g) (b ∷ bs) h k = absurd (omega arith)
decode_from-fuel (suc f) zero [] h k = refl
decode_from-fuel (suc f) zero (b ∷ bs) h k = absurd (omega arith)
decode_from-fuel (suc f) (suc g) buf h k = elim (Option-cases (decode_one buf)) [
  | inl e ↦ rw (e, decode_from) refl
  | inr ((frame, rest), e) ↦
      let small = decode_one-shrinks buf frame rest e in
      rw (e, decode_from) (rw (decode_from-fuel f g rest (omega arith) (omega arith)) refl)
]

-- The loop's equations, with no fuel.
pub decode_ws_frames-none : (buf : Bytes) → decode_one buf ≡ none → decode_ws_frames buf ≡ ([], buf)
unfolding decode_ws_frames decode_from decode_one
decode_ws_frames-none [] h = refl
decode_ws_frames-none (b ∷ bs) h = rw (h, decode_from) refl

pub decode_ws_frames-some :
    (buf : Bytes) (frame : DecodedWsFrame) (rest : Bytes)
    → decode_one buf ≡ some (frame, rest)
    → decode_ws_frames buf ≡ (frame ∷ (decode_ws_frames rest).0, (decode_ws_frames rest).1)
unfolding decode_ws_frames decode_from
decode_ws_frames-some [] frame rest h = absurd (omega (arith, decode_one-shrinks [] frame rest h))
decode_ws_frames-some (b ∷ bs) frame rest h =
    let small = decode_one-shrinks (b ∷ bs) frame rest h in
    rw (h, decode_from)
      (rw (decode_from-fuel (length bs) (length rest) rest (omega arith) (omega arith)) refl)

complete_from : (f : ℕ) (buf : Bytes) → length buf ≤ f → decode_one (decode_ws_frames buf).1 ≡ none
unfolding decode_one
complete_from zero [] h = rw (decode_ws_frames-none [] refl) refl
complete_from zero (b ∷ bs) h = absurd (omega arith)
complete_from (suc f) buf h = elim (Option-cases (decode_one buf)) [
  | inl e ↦ rw (decode_ws_frames-none buf e) e
  | inr ((frame, rest), e) ↦
      rw (decode_ws_frames-some buf frame rest e)
        (complete_from f rest (omega (arith, decode_one-shrinks buf frame rest e)))
]

-- Whatever the buffer, the loop stops only where no complete frame is left in what it returns as
-- remaining.
pub decode_ws_frames_complete : (buf : Bytes) → decode_one (decode_ws_frames buf).1 ≡ none
decode_ws_frames_complete buf = complete_from (length buf) buf (omega arith)
