-- ===== src/Tests/Challenges.antt =====
-- Challenges and their refunds.
use brand_blitz.Prelude.{
  ℕ, ◌≡◌, refl, false, List, [], ◌∷◌, Option, none, some, ◌==◌, if◌then◌else◌,
}
use brand_blitz.Texts.{Text, codes}
use brand_blitz.Challenges.{
  ended, update_challenge_status, ChallengeRow, NewChallenge, create_challenge, partial_percentage,
}
use brand_blitz.Challenges.Refund.{
  Refund, Refunding, RefundRequest, refund, find_refund_by_challenge_id, refund_amount,
  refund_challenge, clashes,
}
use brand_blitz.Challenges.Refund.Once.{IsRefunded, refund_challenge-once}
use brand_blitz.Challenges.Lifecycle.{Event, confirm, deposit, settle_for_test, pay, opt_in}
use brand_blitz.Payouts.Process.{DailyRun}

abbrev new : NewChallenge
new = record {
  brand_id = 1;
  owner_user_id = 5;
  challenge_id = codes "c";
  deposit_memo = none;
  pool_amount_stroops = 2000;
  ends_at = some 90;
  refund_policy = some partial_percentage;
  refund_percentage = some 5000;
  as_draft = false;
}

abbrev happened : List Event
happened = confirm 2 ∷ deposit (codes "tx") ∷ settle_for_test ∷ pay ∷ opt_in 9 1 ∷ []

abbrev over : ChallengeRow
over = update_challenge_status ended none none (create_challenge 50 new)

abbrev batched_day : DailyRun
batched_day = record {
  locked = false;
  ids = 7 ∷ 8 ∷ [];
  rows = λ id. some over;
  batched = λ id. id == 7;
}

abbrev deposited : ChallengeRow
deposited = record (create_challenge 50 new) { deposit_tx_hash = some (codes "tx") }

abbrev at_seven : ℕ → Option ChallengeRow
at_seven id = if id == 7 then some deposited else none

abbrev asked : RefundRequest
asked = record { challenge_id = 7; admin_id = 1; reason = codes "why"; now = 60 }

abbrev half : Refund
half = record {
  challenge_id = 7;
  admin_id = 1;
  reason = codes "why";
  amount_stroops = 1000;
  destination = codes "GA";
  tx_hash = codes "h";
}

abbrev unrefunded : Refunding
unrefunded = record { challenges = at_seven; refunds = []; payments = [] }

abbrev sender_of : Text → Option Text
sender_of tx = some (codes "GA")

abbrev refunded_half : Refunding
refunded_half = (refund_challenge sender_of (some (codes "h")) asked unrefunded).1

refund_challenge-once_example :
    IsRefunded 60 7 deposited unrefunded half refunded_half
    × ((sender' : Text → Option Text) (submit' : Option Text) (again : RefundRequest)
        → again.challenge_id ≡ 7
        → refund_challenge sender' submit' again refunded_half ≡ (refund half, refunded_half))
unfolding refund_challenge find_refund_by_challenge_id create_challenge refund_amount clashes
refund_challenge-once_example =
    refund_challenge-once sender_of (some (codes "h")) asked deposited half unrefunded refunded_half
      refl refl refl
