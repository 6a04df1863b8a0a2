-- ===== src/Tests/Money.antt =====
-- Scores, amounts, shares and payouts.
use Prim.Native.String.{String}
use mathlib.Core.List.{Perm}
use brand_blitz.Prelude.{
  ℕ, ◌+◌, ◌-◌, ◌/◌, ◌≤◌, ◌≡◌, refl, Bool, true, false, List, [], ◌∷◌, Option, none, some, arith,
  ◌==◌, if◌then◌else◌,
}
use brand_blitz.Texts.{codes}
use brand_blitz.Scoring.{a, selects, calculate_round_score}
use brand_blitz.Scoring.Round.{calculate_round_score-linear}
use brand_blitz.Scoring.Ranking.{SessionSummary, Sign, nought, rank_winners}
use brand_blitz.Scoring.Ranking.Order.{IsCollation, BestFirst, rank_winners-BestFirst}
use brand_blitz.Usdc.{usdc_to_stroops, stroops_to_usdc}
use brand_blitz.Usdc.Decimal.{to_string}
use brand_blitz.Usdc.RoundTrip.{usdc_to_stroops-stroops_to_usdc}
use brand_blitz.Payouts.{Winner, LicenseTerms, Allocation, Table, payout_allocations, BatchResult}
use brand_blitz.Payouts.Pool
use brand_blitz.Payouts.Pool.{payout_allocations-le}

calculate_round_score-linear_example :
    calculate_round_score (some a) a 6000
    ≡ (if selects (some a) a then 100 + (if 6000 == 6300 then 28 else (15000 - 6000) / 300) else 0)
calculate_round_score-linear_example = calculate_round_score-linear (some a) a 6000

abbrev no_order : String → String → Sign
no_order s t = nought

abbrev no_order-IsCollation : IsCollation no_order
no_order-IsCollation = record {
  asym = λ s t h k. ground arith;
  trans = λ s t u h k l. ground arith;
}

abbrev summaries : List SessionSummary
summaries =
    record { user_id = "ann"; stellar_address = "GA"; total_score = 120; ended_at = some 5 }
    ∷ record { user_id = "bob"; stellar_address = "GB"; total_score = 300; ended_at = some 9 }
    ∷ []

rank_winners-BestFirst_example :
    BestFirst no_order (rank_winners no_order summaries none)
    × Perm (rank_winners no_order summaries none) summaries
rank_winners-BestFirst_example =
    rank_winners-BestFirst no_order no_order-IsCollation summaries ((5, refl), ((9, refl), tt))

usdc_to_stroops-stroops_to_usdc_example :
    usdc_to_stroops (stroops_to_usdc 12345678) ≡ some (to_string 12345678)
usdc_to_stroops-stroops_to_usdc_example = usdc_to_stroops-stroops_to_usdc 12345678

abbrev winners : List Winner
winners =
    record { user_id = 1; stellar_address = codes "GA"; total_score = 300 }
    ∷ record { user_id = 2; stellar_address = codes "GB"; total_score = 150 }
    ∷ []

abbrev terms : Option LicenseTerms
terms = some (record { fee_bps = 500; user_id = 9; stellar_address = some (codes "GL") })

payout_allocations-le_example : Pool.paid (payout_allocations 1000 terms winners) ≤ 1000
payout_allocations-le_example = payout_allocations-le 1000 terms winners (ground arith)

abbrev allocations : List Allocation
allocations =
    record { user_id = 1; address = codes "GA"; amount_stroops = 600 }
    ∷ record { user_id = 2; address = codes "GB"; amount_stroops = 300 }
    ∷ []

abbrev no_block : ℕ → Bool
no_block user = false

abbrev no_rows : Table
no_rows user = none

abbrev results : List BatchResult
results =
    record {
      success = true;
      tx_hash = some (codes "ab");
      recipients = codes "GA" ∷ codes "GB" ∷ [];
      error = none;
    }
    ∷ []
