-- ===== src/Stellar/BatchPayout/Memo.antt =====
-- The memo of a batch respects the network's limit of 28 bytes.
use brand_blitz.Prelude.{ℕ, ◌≤◌, ◌<◌, ◌∷◌, arith, length, length-append, length-take-le, take, keep}
use brand_blitz.Texts.{Text}
use brand_blitz.Usdc.Decimal.{to_string, length-to_string}
use brand_blitz.Stellar.BatchPayout.{build_payout_memo, is_alphanumeric}

-- For every challenge id, the memo of each of the first 10,000 batches has at most 28 characters.
pub length-build_payout_memo :
    (challenge_id : Text) (batch_index : ℕ)
    → batch_index < 10000
    → length (build_payout_memo challenge_id batch_index) ≤ 28
unfolding build_payout_memo
length-build_payout_memo challenge_id batch_index h = omega (
  arith,
  length-append {0} (take 20 (keep is_alphanumeric challenge_id)) (b'-' ∷ to_string batch_index),
  length-take-le {0} 20 (keep is_alphanumeric challenge_id),
  length-to_string batch_index 3 h,
)
