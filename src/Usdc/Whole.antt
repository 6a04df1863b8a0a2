-- ===== src/Usdc/Whole.antt =====
-- The decimal text of an integer, read as an amount of USDC.
use brand_blitz.Prelude.{ℕ, ◌*◌, ◌≡◌, some, arith}
use brand_blitz.Usdc.{match_fraction, match_amount, usdc_to_stroops}
use brand_blitz.Usdc.Decimal.{
  to_string, to_string-digits, to_string-nonempty, big_int-to_string, span_digits-all,
  big_int-no_fraction,
}

-- Digits without a point are whole USDC.
pub usdc_to_stroops-to_string :
    (n : ℕ) → usdc_to_stroops (to_string n) ≡ some (to_string (n * 10000000))
unfolding usdc_to_stroops match_amount match_fraction
usdc_to_stroops-to_string n = ground (
  arith,
  span_digits-all (to_string n),
  to_string-digits n,
  to_string-nonempty n,
  big_int-to_string n,
  big_int-no_fraction,
)
