-- ===== src/Stellar/BatchPayout/Single.antt =====
-- packages/stellar/src/payout.ts: a batch of two recipients whose amounts are whole numbers.
use brand_blitz.Prelude.{Bool, zero, suc, ℕ, ◌<◌, ◌≡◌, true, [], ◌∷◌, none, some, arith, length}
use brand_blitz.Texts.{Text}
use brand_blitz.Usdc.Decimal.{
  to_string, to_string-digits, to_string-nonempty, big_int-to_string, span_digits-all,
  big_int-no_fraction,
}
use brand_blitz.Stellar.BatchPayout.{
  PayoutRecipient, Attempt, accepted, stellar_fraction, is_valid_stellar_amount,
  get_invalid_recipient_reason, is_valid_recipient, chunk_array, attempt_batch, submit_batches,
  submit_batch_payout,
}

is_valid_amount-to_string : (n : ℕ) → 0 < n → is_valid_stellar_amount (to_string n) ≡ true
unfolding is_valid_stellar_amount stellar_fraction
is_valid_amount-to_string n h = ground (
  arith,
  span_digits-all (to_string n),
  to_string-digits n,
  to_string-nonempty n,
  big_int-to_string n,
  big_int-no_fraction,
)

pub is_valid_recipient-to_string :
    (address : Text) (n : ℕ)
    → 0 < length address
    → 0 < n
    → is_valid_recipient (record { address = address; amount = to_string n }) ≡ true
unfolding get_invalid_recipient_reason
is_valid_recipient-to_string address n h k = ground (arith, is_valid_amount-to_string n)

-- Two valid recipients make one batch, which an accepted first attempt pays.
pub submit_batch_payout-pair :
    (has_store : Bool) (retries : ℕ) (submit : ℕ → ℕ → Attempt) (hash : Text)
    (a b : PayoutRecipient)
    → submit 0 0 ≡ accepted hash
    → is_valid_recipient a ≡ true
    → is_valid_recipient b ≡ true
    → submit_batch_payout has_store retries submit (a ∷ b ∷ [])
      ≡ some
          (record { tx_hash = hash; recipients = a ∷ b ∷ []; success = true; error = none } ∷ [], 0)
unfolding submit_batch_payout submit_batches attempt_batch chunk_array
submit_batch_payout-pair has_store zero submit hash a b ok va vb = ground arith
submit_batch_payout-pair has_store (suc retries) submit hash a b ok va vb = ground arith
