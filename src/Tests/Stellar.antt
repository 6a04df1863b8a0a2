-- ===== src/Tests/Stellar.antt =====
-- Sequence numbers, retries and batches of the Stellar package.
use brand_blitz.Prelude.{ℕ, zero, suc, ◌≢◌, refl, true, false, List, [], ◌∷◌, none, some, arith}
use brand_blitz.Texts.{codes}
use brand_blitz.Stellar.Sequence.{
  Store, reservation_of, System, found, count, Reach, here, next, fresh,
}
use brand_blitz.Stellar.Sequence.Race.{reservations_differ}
use brand_blitz.Stellar.Retry.{Reply, returned, raised, Ends, with_retry, with_retry-Ends}
use brand_blitz.Stellar.BatchPayout.{PayoutRecipient, Attempt, accepted, submit_batch_payout}
use brand_blitz.Stellar.BatchPayout.Results.{PayoutOutcome, submit_batch_payout-recipients}

abbrev store : Store
store = record { base = some 100; offset = none }

abbrev after_two : (t : System) × Reach true (fresh store) t
after_two = (
  _,
  next (next (next (next here (found 0 100 refl refl)) (count 0 100 refl)) (found 1 100 refl refl))
      (count 1 100 refl),
)

reservations_differ_example :
    ((reservation_of 100 1).account_sequence ≢ (reservation_of 100 2).account_sequence)
    × ((reservation_of 100 1).transaction_sequence ≢ (reservation_of 100 2).transaction_sequence)
reservations_differ_example =
    reservations_differ store after_two.0 0 1 (reservation_of 100 1) (reservation_of 100 2)
      after_two.1 (ground arith) refl refl

abbrev flaky : ℕ → Reply ℕ
flaky zero = raised (record { status = some 503; message = []; retry_exhausted = false })
flaky (suc n) = returned n

with_retry-Ends_example : Ends (503 ∷ []) flaky 2 (with_retry (503 ∷ []) flaky 2)
with_retry-Ends_example = with_retry-Ends (503 ∷ []) flaky 2

abbrev recipients : List PayoutRecipient
recipients =
    record { address = codes "GA"; amount = codes "1.5" }
    ∷ record { address = []; amount = codes "2" }
    ∷ []

abbrev always : ℕ → ℕ → Attempt
always batch attempt = accepted (codes "ab")

submit_batch_payout-recipients_example :
    PayoutOutcome always 3 recipients (submit_batch_payout true 3 always recipients)
submit_batch_payout-recipients_example = submit_batch_payout-recipients true 3 always recipients
