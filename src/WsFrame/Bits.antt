-- ===== src/WsFrame/Bits.antt =====
-- The bit tests of a frame's two first bytes, and unmasking, by evaluation over all bytes.
use Prim.Native.Nat.{bit_and, bit_or, bit_xor}
use brand_blitz.Prelude.{ℕ, ◌+◌, ◌<◌, ◌≡◌, refl, Bool, true, ◌&&◌, arith, ◌==◌, ==_iff}
use brand_blitz.Numbers.{holds_below, holds_below-true}

abbrev opens : ℕ → Bool
opens op =
    let first = bit_or 0x80 (bit_and op 0x0f) in
    bit_and first 0x0f == op && bit_and first 0x80 == 0x80

all_open : holds_below opens 16 ≡ true
unfolding holds_below
all_open = refl

-- The first byte of an encoded frame carries its opcode and the final bit.
pub first_byte :
    (op : ℕ)
    → op < 16
    → (bit_and (bit_or 0x80 (bit_and op 0x0f)) 0x0f ≡ op)
      × (bit_and (bit_or 0x80 (bit_and op 0x0f)) 0x80 ≡ 0x80)
first_byte op below = let held = holds_below-true opens 16 op below all_open in ground arith

abbrev sizes : ℕ → Bool
sizes n =
    (bit_and n 0x7f == n && bit_and n 0x80 == 0)
    && (bit_and (0x80 + n) 0x7f == n && bit_and (0x80 + n) 0x80 == 0x80)

all_sizes : holds_below sizes 128 ≡ true
unfolding holds_below
all_sizes = refl

-- The second byte carries a 7-bit number, and whether a mask bit is added to it.
pub size_byte :
    (n : ℕ)
    → n < 128
    → (bit_and n 0x7f ≡ n)
      × (bit_and n 0x80 ≡ 0)
      × (bit_and (0x80 + n) 0x7f ≡ n)
      × (bit_and (0x80 + n) 0x80 ≡ 0x80)
size_byte n below = let held = holds_below-true sizes 128 n below all_sizes in ground arith

abbrev unmasks : ℕ → ℕ → Bool
unmasks m byte = bit_xor (bit_xor byte m) m == byte

abbrev unmasks_all : ℕ → Bool
unmasks_all m = holds_below (unmasks m) 256

masks_unmask : holds_below unmasks_all 256 ≡ true
unfolding holds_below
masks_unmask = refl

-- Masking a byte twice gives it back.
pub xor_twice : (x m : ℕ) → x < 256 → m < 256 → bit_xor (bit_xor x m) m ≡ x
xor_twice x m byte mask =
    let held = holds_below-true unmasks_all 256 m mask masks_unmask in
    (==_iff (bit_xor (bit_xor x m) m) x).0 (holds_below-true (unmasks m) 256 x byte held)
