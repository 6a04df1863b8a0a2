-- ===== src/Numbers.antt =====
-- JavaScript numbers: the part of IEEE 754 binary64 arithmetic, rounding to nearest with ties to
-- even, that the program's results depend on. Only non-negative values below 2 ^ 53 are needed.
use brand_blitz.Prelude.{
  ℕ, zero, suc, ◌+◌, ◌*◌, ◌/◌, ◌%◌, ◌^◌, ◌<◌, ◌≡◌, Bool, true, false, ◌&&◌, ◌||◌, arith, ltb, ◌==◌,
  if◌then◌else◌,
}

-- The value mantissa / 2 ^ shift.
pub record Double : Type 0 where
  pub mantissa : ℕ
  pub shift : ℕ

abbrev round_half_even : ℕ → ℕ → ℕ
round_half_even num den =
    let down : ℕ = num / den in
    let twice : ℕ = 2 * (num % den) in
    if ltb den twice || (twice == den && down % 2 == 1) then down + 1 else down

-- Scales num / den up until it has 53 significant bits, that is until num reaches limit.
scale_from : ℕ → ℕ → ℕ → ℕ → ℕ → Double
scale_from zero limit num den e = record { mantissa = round_half_even num den; shift = e }
scale_from (suc f) limit num den e = elim (ltb num limit) [
  | true ↦ scale_from f limit (num + num) den (suc e)
  | false ↦ record { mantissa = round_half_even num den; shift = e }
]

-- The double nearest to num / den. The smallest normal double is 2 ^ -1022, hence the fuel.
unfoldable pub of_ratio : ℕ → ℕ → Double
unfolding scale_from
of_ratio num den =
    if num == 0
    then record { mantissa = 0; shift = 0 }
    else scale_from 1074 (2 ^ 52 * den) num den 0

-- x * k for an integer k.
unfoldable pub times : Double → ℕ → Double
unfolding of_ratio
times x k = of_ratio (x.mantissa * k) (2 ^ x.shift)

-- `Math.floor`.
unfoldable pub floor : Double → ℕ
floor x = x.mantissa / 2 ^ x.shift

-- `Number(n)` of a bigint: the nearest value with 53 significant bits.
nearest_from : ℕ → ℕ → ℕ → ℕ
nearest_from zero n unit = round_half_even n unit * unit
nearest_from (suc f) n unit = elim (ltb n (2 ^ 53 * unit)) [
  | true ↦ round_half_even n unit * unit
  | false ↦ nearest_from f n (2 * unit)
]

unfoldable pub to_number : ℕ → ℕ
unfolding nearest_from
to_number n = if ltb n (2 ^ 53) then n else nearest_from 971 n 2

-- A test that holds at each of the first `bound` numbers, from the last one down.
unfoldable pub holds_below : (ℕ → Bool) → ℕ → Bool
holds_below test zero = true
holds_below test (suc bound) = elim (test bound) [ false ↦ false | true ↦ holds_below test bound ]

pub holds_below-true :
    (test : ℕ → Bool) (bound k : ℕ) → k < bound → holds_below test bound ≡ true → test k ≡ true
unfolding holds_below
holds_below-true test zero k below held = absurd (omega arith)
holds_below-true test (suc bound) k below held = ground (arith, holds_below-true test bound k)
