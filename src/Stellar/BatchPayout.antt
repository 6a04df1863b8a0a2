-- ===== src/Stellar/BatchPayout.antt =====
-- packages/stellar/src/payout.ts: the batch payout. Building, signing and submitting a transaction
-- is a parameter, which tells by batch and attempt what came of it.
pub mod Batches
pub mod Results
pub mod Memo
pub mod Single
use brand_blitz.Prelude.{
  ℕ, zero, suc, ◌+◌, ◌*◌, ◌-◌, ◌≡◌, Bool, true, false, ◌&&◌, ◌||◌, not, List, [], ◌∷◌, ◌++◌, Option,
  none, some, length, take, drop, keep, every, ltb, leb, ◌==◌, if◌then◌else◌,
}
use brand_blitz.Texts.{Text, is_digit, codes}
use brand_blitz.Usdc.Decimal.{span_digits, big_int, to_string, pad_end}

abbrev pub max_ops_per_tx : ℕ
max_ops_per_tx = 50

pub record PayoutRecipient : Type 0 where
  pub address : Text
  pub amount : Text

pub record PayoutBatchResult : Type 0 where
  pub tx_hash : Text
  pub recipients : List PayoutRecipient
  pub success : Bool
  pub error : Option Text

-- What follows the whole part in `^\d+(?:\.\d{1,7})?$`.
stellar_fraction : Text → Option Text
stellar_fraction [] = some []
stellar_fraction (c ∷ rest) =
    if c == b'.' && (every is_digit rest && (ltb 0 (length rest) && leb (length rest) 7))
    then some rest
    else none

-- The pattern, and `Number(amount) > 0`: no such decimal is so small that it rounds to 0.
pub is_valid_stellar_amount : Text → Bool
unfolding stellar_fraction
is_valid_stellar_amount amount =
    let groups : Text × Text = span_digits amount in
    if length groups.0 == 0 then false else elim (stellar_fraction groups.1) [
      | none ↦ false
      | some frac ↦ ltb 0 (big_int groups.0 * 10000000 + big_int (pad_end 7 b'0' frac))
    ]

-- `none` is a valid recipient.
unfoldable pub get_invalid_recipient_reason : PayoutRecipient → Option Text
unfolding is_valid_stellar_amount
get_invalid_recipient_reason recipient =
    if length recipient.address == 0
    then some (codes "missing address")
    else if is_valid_stellar_amount recipient.amount
    then none
    else some (codes "amount must be a positive Stellar amount with up to 7 decimal places")

abbrev pub is_valid_recipient : PayoutRecipient → Bool
is_valid_recipient r = elim (get_invalid_recipient_reason r) [ none ↦ true | some _ ↦ false ]

-- The slices of `size` from the front; the list's length is fuel enough for a positive size.
chunk_from {ℓ} : {A : Type ℓ} → ℕ → ℕ → List A → List (List A)
chunk_from zero size xs = []
chunk_from (suc f) size [] = []
chunk_from (suc f) size (x ∷ xs) = take size (x ∷ xs) ∷ chunk_from f size (drop size (x ∷ xs))

unfoldable pub chunk_array {ℓ} : {A : Type ℓ} → List A → ℕ → List (List A)
unfolding chunk_from
chunk_array xs size = chunk_from (length xs) size xs

is_alphanumeric : ℕ → Bool
is_alphanumeric c =
    (leb b'a' c && leb c b'z') || ((leb b'A' c && leb c b'Z') || (leb b'0' c && leb c b'9'))

unfoldable pub build_payout_memo : Text → ℕ → Text
unfolding is_alphanumeric
build_payout_memo challenge_id batch_index =
    codes "bb-" ++ (take 20 (keep is_alphanumeric challenge_id) ++ (b'-' ∷ to_string batch_index))

-- What came of one attempt: a hash, `tx_bad_seq`, `tx_bad_seq` where a reset of the sequence that is
-- made for it throws, or another error.
pub data Attempt : Type 0 where
  accepted bad_sequence unreset failed : Text → Attempt

module _ (has_store : Bool) (max_bad_seq_retries : ℕ) (submit : ℕ → ℕ → Attempt) where
  batch_failed : List PayoutRecipient → Text → PayoutBatchResult
  batch_failed batch message = record {
    tx_hash = [];
    recipients = batch;
    success = false;
    error = some message;
  }

  -- One more reset than there were.
  abbrev pub after_reset : Option (PayoutBatchResult × ℕ) → Option (PayoutBatchResult × ℕ)
  after_reset none = none
  after_reset (some (result, resets)) = some (result, suc resets)

  -- The attempts at batch `i` from `attempts` on, `left` before the last allowed one: its result,
  -- and the resets of the sequence. `none` is that a reset threw, and the call with it.
  attempt_batch : ℕ → ℕ → ℕ → List PayoutRecipient → Option (PayoutBatchResult × ℕ)
  unfolding batch_failed
  attempt_batch zero i attempts batch = elim (submit i attempts) [
    | accepted hash ↦
        some (record { tx_hash = hash; recipients = batch; success = true; error = none }, 0)
    | bad_sequence message ↦ some (batch_failed batch message, 0)
    | unreset message ↦ some (batch_failed batch message, 0)
    | failed message ↦ some (batch_failed batch message, 0)
  ]
  attempt_batch (suc left) i attempts batch =
      let again = after_reset (attempt_batch left i (attempts + 1) batch) in
      elim (submit i attempts) [
        | accepted hash ↦
            some (record { tx_hash = hash; recipients = batch; success = true; error = none }, 0)
        | bad_sequence message ↦ if has_store then again else some (batch_failed batch message, 0)
        | unreset message ↦ if has_store then none else some (batch_failed batch message, 0)
        | failed message ↦ some (batch_failed batch message, 0)
      ]

  -- A batch's result before those of the later batches.
  abbrev pub with_result :
      Option (PayoutBatchResult × ℕ)
      → Option (List PayoutBatchResult × ℕ)
      → Option (List PayoutBatchResult × ℕ)
  with_result none rest = none
  with_result (some done) none = none
  with_result (some done) (some rest) = some (done.0 ∷ rest.0, done.1 + rest.1)

  -- The loop over the batches: the results, and the resets in all. Where a reset throws, the results
  -- are lost.
  submit_batches : ℕ → List (List PayoutRecipient) → Option (List PayoutBatchResult × ℕ)
  unfolding attempt_batch
  submit_batches i [] = some ([], 0)
  submit_batches i (batch ∷ batches) =
      let rest = submit_batches (i + 1) batches in
      with_result (attempt_batch max_bad_seq_retries i 0 batch) rest

  unfoldable pub submit_batch_payout : List PayoutRecipient → Option (List PayoutBatchResult × ℕ)
  unfolding submit_batches
  submit_batch_payout recipients =
      submit_batches 0 (chunk_array (keep is_valid_recipient recipients) max_ops_per_tx)
