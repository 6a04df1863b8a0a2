-- ===== src/Usdc/RoundTrip.antt =====
-- The decimal text of an amount of stroops reads back as that amount.
use brand_blitz.Prelude.{
  ℕ, ◌+◌, ◌*◌, ◌/◌, ◌%◌, ◌≡◌, ap, true, ◌∷◌, some, arith, append-nil, length, every,
}
use brand_blitz.Usdc.{
  stroops_per_usdc, match_fraction, match_amount, usdc_to_stroops, stroops_to_usdc,
}
use brand_blitz.Usdc.Decimal.{
  Text, is_digit, big_int, to_string, pad_end, pad_start, big_int-to_string, to_string-digits,
  to_string-nonempty, length-to_string, big_int-pad_start, pad_start-digits, length-pad_start,
  span_digits-append,
}

abbrev whole_text : ℕ → Text
whole_text n = to_string (n / stroops_per_usdc)

abbrev fraction_text : ℕ → Text
fraction_text n = pad_start 7 b'0' (to_string (n % stroops_per_usdc))

length-fraction_text : (n : ℕ) → length (fraction_text n) ≡ 7
length-fraction_text n =
    length-pad_start 7 (to_string (n % stroops_per_usdc))
      (length-to_string (n % stroops_per_usdc) 6 (omega arith))

match_fraction-point :
    (s : Text) → every is_digit s ≡ true → length s ≡ 7 → match_fraction (b'.' ∷ s) ≡ some s
unfolding match_fraction
match_fraction-point s h k = ground arith

match_amount-stroops_to_usdc :
    (n : ℕ) → match_amount (stroops_to_usdc n) ≡ some (whole_text n, fraction_text n)
unfolding match_amount stroops_to_usdc
match_amount-stroops_to_usdc n = ground (
  arith,
  span_digits-append (whole_text n) b'.' (fraction_text n),
  to_string-digits (n / stroops_per_usdc),
  to_string-nonempty (n / stroops_per_usdc),
  match_fraction-point (fraction_text n),
  length-fraction_text n,
  pad_start-digits 7 (to_string (n % stroops_per_usdc)),
  to_string-digits (n % stroops_per_usdc),
)

pad_end-full : (s : Text) → length s ≡ 7 → pad_end 7 b'0' s ≡ s
pad_end-full s h = rw h (append-nil s)

value_of_parts :
    (n : ℕ)
    → big_int (whole_text n) * stroops_per_usdc + big_int (pad_end 7 b'0' (fraction_text n)) ≡ n
value_of_parts n =
    rw
      (
        pad_end-full (fraction_text n) (length-fraction_text n),
        big_int-to_string,
        big_int-pad_start,
        big_int-to_string,
      )
      (omega arith)

-- For every amount of stroops, `usdcToStroops` accepts the text that `stroopsToUsdc` prints, and
-- returns the decimal text of that very amount: no stroop is lost or gained.
pub usdc_to_stroops-stroops_to_usdc :
    (n : ℕ) → usdc_to_stroops (stroops_to_usdc n) ≡ some (to_string n)
unfolding usdc_to_stroops
usdc_to_stroops-stroops_to_usdc n =
    rw (match_amount-stroops_to_usdc n, usdc_to_stroops)
      (ap (λ k. some (to_string k)) (value_of_parts n))
