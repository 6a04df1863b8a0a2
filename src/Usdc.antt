-- ===== src/Usdc.antt =====
-- lib/usdc of the API: amounts of USDC as decimal texts and as integer stroops. A text is the list
-- of its UTF-16 code units; a bigint that the program keeps non-negative is a ℕ.
pub mod Decimal
pub mod RoundTrip
pub mod Share
pub mod Whole
use brand_blitz.Prelude.{
  ℕ, ◌+◌, ◌*◌, ◌/◌, ◌%◌, ◌≡◌, Bool, true, false, ◌&&◌, List, [], ◌∷◌, ◌++◌, Option, none, some,
  length, every, leb, ltb, ◌==◌, if◌then◌else◌,
}
use Decimal.{Text, is_digit, span_digits, big_int, to_string, pad_end, pad_start}

abbrev pub stroops_per_usdc : ℕ
stroops_per_usdc = 10000000

-- What follows the whole part in the pattern: the end, or a point and at most seven digits.
match_fraction : Text → Option Text
match_fraction [] = some []
match_fraction (c ∷ rest) =
    if c == b'.' && every is_digit rest && leb (length rest) 7 then some rest else none

-- The two groups of `^(\d+)(?:\.(\d{1,7})?)?$`; an unmatched second group is empty.
match_amount : Text → Option (Text × Text)
unfolding match_fraction
match_amount amount =
    let groups : Text × Text = span_digits amount in
    if length groups.0 == 0
    then none
    else elim (match_fraction groups.1) [ none ↦ none | some frac ↦ some (groups.0, frac) ]

-- `none` is the error that the source throws.
unfoldable pub usdc_to_stroops : Text → Option Text
unfolding match_amount
usdc_to_stroops amount = elim (match_amount amount) [
  | none ↦ none
  | some (whole, frac) ↦
      some (to_string (big_int whole * stroops_per_usdc + big_int (pad_end 7 b'0' frac)))
]

unfoldable pub stroops_to_usdc : ℕ → Text
stroops_to_usdc stroops =
    to_string (stroops / stroops_per_usdc)
    ++ (b'.' ∷ pad_start 7 b'0' (to_string (stroops % stroops_per_usdc)))

unfoldable pub calculate_payout_share_stroops : ℕ → ℕ → ℕ → ℕ
calculate_payout_share_stroops user_score total_points_all_users pool_amount_stroops =
    if total_points_all_users == 0
    then 0
    else pool_amount_stroops * user_score / total_points_all_users
