-- ===== src/Stellar/BatchPayout/Results.antt =====
-- Every valid recipient stands in exactly one result, in order.
use brand_blitz.Prelude.{
  ℕ, zero, suc, ◌+◌, ◌*◌, ◌≤◌, ◌≡◌, refl, Bool, List, [], ◌∷◌, map, arith, length, concat, keep,
  Option, none, some, true, false, if◌then◌else◌, All,
}
use brand_blitz.Texts.{Text}
use brand_blitz.Stellar.BatchPayout.{
  PayoutRecipient, PayoutBatchResult, Attempt, accepted, bad_sequence, unreset, failed, after_reset,
  with_result, is_valid_recipient, chunk_array, max_ops_per_tx, attempt_batch, batch_failed,
  submit_batches, submit_batch_payout,
}
use brand_blitz.Stellar.BatchPayout.Batches.{IsBatch, chunk_array-IsBatch}

abbrev pub recipients_of : List PayoutBatchResult → List (List PayoutRecipient)
recipients_of results = map (λ r. r.recipients) results

abbrev pub ResetThrew : (ℕ → ℕ → Attempt) → Type 0
ResetThrew submit =
    (i : ℕ) × (attempt : ℕ) × (message : Text) × (submit i attempt ≡ unreset message)

-- What the attempts at one batch come to: its result and few resets, or a reset that threw.
abbrev BatchOutcome :
    (ℕ → ℕ → Attempt) → ℕ → List PayoutRecipient → Option (PayoutBatchResult × ℕ) → Type 0
BatchOutcome submit most batch none = ResetThrew submit
BatchOutcome submit most batch (some (result, resets)) =
    (result.recipients ≡ batch) × (resets ≤ most)

-- What a call comes to, where the results stand for these batches.
abbrev BatchesOutcome :
    (ℕ → ℕ → Attempt)
    → ℕ
    → List (List PayoutRecipient)
    → Option (List PayoutBatchResult × ℕ)
    → Type 0
BatchesOutcome submit most batches none = ResetThrew submit
BatchesOutcome submit most batches (some (results, resets)) =
    (recipients_of results ≡ batches) × (resets ≤ most * length batches)

-- The results of a call that returns, or the reset that threw.
abbrev pub PayoutOutcome :
    (ℕ → ℕ → Attempt) → ℕ → List PayoutRecipient → Option (List PayoutBatchResult × ℕ) → Type 0
PayoutOutcome submit most recipients none = ResetThrew submit
PayoutOutcome submit most recipients (some (results, resets)) =
    (concat (recipients_of results) ≡ keep is_valid_recipient recipients)
    × All (IsBatch 50) (recipients_of results)
    × (resets ≤ most * length (recipients_of results))

module _ (has_store : Bool) (max_retries : ℕ) (submit : ℕ → ℕ → Attempt) where
  after_reset-outcome :
      (left : ℕ) (batch : List PayoutRecipient) (out : Option (PayoutBatchResult × ℕ))
      → BatchOutcome submit left batch out
      → BatchOutcome submit (suc left) batch (after_reset has_store max_retries submit out)
  after_reset-outcome left batch none threw = threw
  after_reset-outcome left batch (some (result, resets)) (same, few) = (same, omega (arith, few))

  if-outcome :
      (test : Bool) (most : ℕ) (batch : List PayoutRecipient) (x y : Option (PayoutBatchResult × ℕ))
      → BatchOutcome submit most batch x
      → BatchOutcome submit most batch y
      → BatchOutcome submit most batch (if test then x else y)
  if-outcome true most batch x y h k = h
  if-outcome false most batch x y h k = k

  attempt_batch-of :
      (left i attempts : ℕ) (batch : List PayoutRecipient) (attempt : Attempt)
      → submit i attempts ≡ attempt
      → BatchOutcome submit left batch
          (attempt_batch has_store max_retries submit left i (attempts + 1) batch)
      → BatchOutcome submit
          (suc left)
          batch
          (attempt_batch has_store max_retries submit (suc left) i attempts batch)
  unfolding attempt_batch batch_failed
  attempt_batch-of left i attempts batch (accepted hash) e later =
      rw (attempt_batch, e) (refl, omega arith)
  attempt_batch-of left i attempts batch (failed message) e later =
      rw (attempt_batch, e) (refl, omega arith)
  attempt_batch-of left i attempts batch (bad_sequence message) e later =
      rw (attempt_batch, e)
        (if-outcome has_store (suc left) batch _ _ (after_reset-outcome left batch _ later)
          (refl, omega arith))
  attempt_batch-of left i attempts batch (unreset message) e later =
      rw (attempt_batch, e)
        (if-outcome has_store (suc left) batch none _ (i, attempts, message, e) (refl, omega arith))

  attempt_batch-outcome :
      (left i attempts : ℕ) (batch : List PayoutRecipient)
      → BatchOutcome submit left batch
          (attempt_batch has_store max_retries submit left i attempts batch)
  unfolding attempt_batch batch_failed
  attempt_batch-outcome zero i attempts batch = ground arith
  attempt_batch-outcome (suc left) i attempts batch =
      attempt_batch-of left i attempts batch (submit i attempts) refl
        (attempt_batch-outcome left i (attempts + 1) batch)

  with_result-outcome :
      (batch : List PayoutRecipient) (batches : List (List PayoutRecipient))
      (done : Option (PayoutBatchResult × ℕ)) (rest : Option (List PayoutBatchResult × ℕ))
      → BatchOutcome submit max_retries batch done
      → BatchesOutcome submit max_retries batches rest
      → BatchesOutcome submit max_retries
          (batch ∷ batches)
          (with_result has_store max_retries submit done rest)
  with_result-outcome batch batches none rest threw later = threw
  with_result-outcome batch batches (some done) none here threw = threw
  with_result-outcome batch batches (some (result, k)) (some (results, n)) (same, less)
        (others, more) =
      (cc (same, others), omega (arith, less, more))

  submit_batches-outcome :
      (i : ℕ) (batches : List (List PayoutRecipient))
      → BatchesOutcome submit max_retries batches
          (submit_batches has_store max_retries submit i batches)
  unfolding submit_batches
  submit_batches-outcome i [] = (refl, omega arith)
  submit_batches-outcome i (batch ∷ batches) =
      with_result-outcome batch batches _ _ (attempt_batch-outcome max_retries i 0 batch)
        (submit_batches-outcome (i + 1) batches)

  BatchesOutcome-Payout :
      (recipients : List PayoutRecipient) (batches : List (List PayoutRecipient))
      (out : Option (List PayoutBatchResult × ℕ))
      → concat batches ≡ keep is_valid_recipient recipients
      → All (IsBatch 50) batches
      → BatchesOutcome submit max_retries batches out
      → PayoutOutcome submit max_retries recipients out
  BatchesOutcome-Payout recipients batches none whole fit threw = threw
  BatchesOutcome-Payout recipients batches (some (results, resets)) whole fit (same, few) =
      (rw same whole, rw same fit, rw same few)

-- Whatever comes of the attempts: where the call returns, the recipients of the results put together
-- are exactly the valid recipients, in order, each result holds between one and 50 of them, and the
-- sequence is reset at most the allowed number of times for each result; the call throws only where
-- the reset after some attempt throws.
pub submit_batch_payout-recipients :
    (has_store : Bool) (max_retries : ℕ) (submit : ℕ → ℕ → Attempt)
    (recipients : List PayoutRecipient)
    → PayoutOutcome submit max_retries recipients
        (submit_batch_payout has_store max_retries submit recipients)
unfolding submit_batch_payout
submit_batch_payout-recipients has_store max_retries submit recipients =
    let batches = chunk_array (keep is_valid_recipient recipients) max_ops_per_tx in
    let (whole, fit) = chunk_array-IsBatch (keep is_valid_recipient recipients) 50 (omega arith) in
    BatchesOutcome-Payout has_store max_retries submit recipients batches _ whole fit
      (submit_batches-outcome has_store max_retries submit 0 batches)
