-- ===== src/Referrals/Bonus.antt =====
-- services/referrals, db/queries/referral-payouts and queues/processors/referral-bonus.processor of
-- the API: the bonus of a referral, from the payout that earns it to the payment. A referral payout
-- is named by the user who was referred, which is the key of its referral.
pub mod Queue
pub mod Job
use brand_blitz.Prelude.{
  ℕ, ◌/◌, Bool, true, false, ◌||◌, List, [], ◌∷◌, ◌++◌, map, concat, keep, Option, none, some, find,
  min, ltb, ◌==◌, if◌then◌else◌,
}
use brand_blitz.Texts.{Text, is_blank, codes, trim}
use brand_blitz.Usdc.Decimal.{to_string}
use brand_blitz.Stellar.BatchPayout.{
  PayoutRecipient, PayoutBatchResult, Attempt, submit_batch_payout,
}
use brand_blitz.Referrals.{Referral, find_referral_by_referred_id, mark_referral_rewarded}

pub data ReferralPayoutStatus : Type 0 where
  pending sent failed : ReferralPayoutStatus

abbrev pub is_pending : ReferralPayoutStatus → Bool
is_pending pending = true
is_pending _ = false

pub record ReferralPayout : Type 0 where
  pub referred_id : ℕ
  pub challenge_id : Option ℕ
  pub referrer_id : ℕ
  pub referrer_stellar_address : Option Text
  pub referred_stellar_address : Option Text
  pub referrer_amount_stroops : ℕ
  pub referred_amount_stroops : ℕ
  pub status : ReferralPayoutStatus
  pub tx_hash : Option Text
  pub error_message : Text

pub record WalletUser : Type 0 where
  pub embedded_wallet_address : Option Text
  pub stellar_address : Option Text

-- The tables, the jobs that were queued and the audited skips, the last first, and the payments that
-- the network accepted.
pub record Bonuses : Type 0 where
  pub referrals : List Referral
  pub payouts : List ReferralPayout
  pub queued : List ℕ
  pub skipped : List ℕ
  pub paid : List PayoutRecipient

-- What the bonus reads of the other tables: users, sessions by user and challenge, and fraud flags.
pub record Tables : Type 0 where
  pub find_user_by_id : ℕ → Option WalletUser
  pub get_session : ℕ → ℕ → Option ℕ
  pub is_fraud_session : ℕ → Bool

abbrev filled : Option Text → Option Text
filled text = elim text [ none ↦ none | some t ↦ if is_blank (trim t) then none else some (trim t) ]

unfoldable pub resolve_payout_address : Option WalletUser → Option Text
resolve_payout_address none = none
resolve_payout_address (some user) = elim (filled user.embedded_wallet_address) [
  | none ↦ filled user.stellar_address
  | some t ↦ some t
]

-- The session of the user for the challenge was flagged.
unfoldable pub is_flagged : Tables → ℕ → Option ℕ → Bool
is_flagged db user challenge = elim challenge [
  | none ↦ false
  | some c ↦ elim (db.get_session user c) [ none ↦ false | some id ↦ db.is_fraud_session id ]
]

unfoldable pub find_referral_payout : ℕ → List ReferralPayout → Option ReferralPayout
find_referral_payout referred rows = find (λ r. r.referred_id == referred) rows

-- The insertion, which leaves a payout of the same referral as it is, and the row that it returns.
unfoldable pub create_referral_payout :
    ReferralPayout → List ReferralPayout → ReferralPayout × List ReferralPayout
create_referral_payout row rows = elim (find_referral_payout row.referred_id rows) [
  | none ↦ (row, row ∷ rows)
  | some old ↦ (old, rows)
]

abbrev pub referee_amount : ℕ
referee_amount = 10000000

abbrev pub referrer_cap : ℕ
referrer_cap = 50000000

abbrev capped : ℕ → ℕ
capped amount = if ltb referrer_cap amount then referrer_cap else amount

abbrev bonus_row : Referral → Option ℕ → ℕ → Text → Text → ReferralPayout
bonus_row referral challenge amount referrer_address referred_address = record {
  referred_id = referral.referred_id;
  challenge_id = challenge;
  referrer_id = referral.referrer_id;
  referrer_stellar_address = some referrer_address;
  referred_stellar_address = some referred_address;
  referrer_amount_stroops = amount;
  referred_amount_stroops = referee_amount;
  status = pending;
  tx_hash = none;
  error_message = [];
}

-- `enqueues` is whether the queue takes the job: where it does not, the error is logged, and the
-- referral stays marked.
settle_bonus : Bool → ReferralPayout × List ReferralPayout → Bonuses → Bonuses
settle_bonus enqueues (payout, rows) s =
    if is_pending payout.status
    then record s {
      payouts = rows;
      referrals = mark_referral_rewarded payout.referred_id s.referrals;
      queued = if enqueues then payout.referred_id ∷ s.queued else s.queued;
    }
    else record s { payouts = rows }

abbrev both : Option Text → Option Text → Option (Text × Text)
both none b = none
both (some a) none = none
both (some a) (some b) = some (a, b)

-- Both parties are paid, or neither is: nothing is done where an address or the bonus is missing.
create_bonus : Tables → Bool → Referral → Option ℕ → ℕ → Bonuses → Bonuses
unfolding settle_bonus
create_bonus db enqueues referral challenge win s =
    elim (both (resolve_payout_address (db.find_user_by_id referral.referrer_id))
      (resolve_payout_address (db.find_user_by_id referral.referred_id))) [
        | none ↦ s
        | some (referrer_address, referred_address) ↦
            if ltb (capped (win / 10)) 1
            then s
            else settle_bonus enqueues
                (create_referral_payout
                  (bonus_row referral challenge (capped (win / 10)) referrer_address
                    referred_address)
                  s.payouts)
                s
      ]

unfoldable pub queue_referral_bonus_for_payout :
    Tables → Bool → ℕ → Option ℕ → ℕ → Bonuses → Bonuses
unfolding create_bonus
queue_referral_bonus_for_payout db enqueues referred challenge win s =
    elim (find_referral_by_referred_id referred s.referrals) [
      | none ↦ s
      | some referral ↦
          if referral.rewarded
          then s
          else if is_flagged db referred challenge
          then record s { skipped = referral.referred_id ∷ s.skipped }
          else create_bonus db enqueues referral challenge win s
    ]

-- A payout of a challenge to a user, and whether the queue of bonuses takes a job then.
pub record Win : Type 0 where
  pub enqueues : Bool
  pub user_id : ℕ
  pub challenge_id : Option ℕ
  pub amount_stroops : ℕ

unfoldable pub queue_all : Tables → List Win → Bonuses → Bonuses
queue_all db [] s = s
queue_all db (w ∷ ws) s =
    queue_all db ws
      (queue_referral_bonus_for_payout db w.enqueues w.user_id w.challenge_id w.amount_stroops s)

-- `updateReferralPayoutStatus`, which overwrites the hash and the message.
unfoldable pub update_referral_payout_status :
    ℕ → ReferralPayoutStatus → Option Text → Text → List ReferralPayout → List ReferralPayout
update_referral_payout_status referred status tx_hash message [] = []
update_referral_payout_status referred status tx_hash message (r ∷ rows) =
    (if r.referred_id == referred
      then record r { status = status; tx_hash = tx_hash; error_message = message }
      else r)
    ∷ update_referral_payout_status referred status tx_hash message rows

abbrev fail_with : ReferralPayout → Text → Bonuses → Bonuses
fail_with payout message s = record s {
  payouts = update_referral_payout_status payout.referred_id failed none message s.payouts;
}

-- An address that is there and not empty.
abbrev address_of : Option Text → Option Text
address_of text = elim text [ none ↦ none | some t ↦ if is_blank t then none else some t ]

-- The recipients of a job: the amounts are the columns' digits.
abbrev pub recipients_of : ReferralPayout → Text → Text → List PayoutRecipient
recipients_of payout referrer_address referred_address =
    record { address = referrer_address; amount = to_string payout.referrer_amount_stroops }
    ∷ record { address = referred_address; amount = to_string payout.referred_amount_stroops }
    ∷ []

abbrev pub paid_by : List PayoutBatchResult → List PayoutRecipient
paid_by results = concat (map (λ r. r.recipients) (keep (λ r. r.success) results))

-- The first result decides the status.
record_first : ReferralPayout → List PayoutBatchResult → Bonuses → Bonuses
record_first payout [] s = fail_with payout (codes "No Stellar response") s
record_first payout (first ∷ others) s =
    if first.success
    then record s {
      payouts =
          update_referral_payout_status payout.referred_id sent (some first.tx_hash) [] s.payouts;
    }
    else fail_with payout
        (elim first.error [ none ↦ codes "Referral bonus payout failed" | some message ↦ message ])
        s

-- `submit` is what comes of each attempt at the network. Where a reset of the sequence throws, which is
-- after a payment that was not made, the job throws and has written nothing.
module _ (db : Tables) (submit : ℕ → ℕ → Attempt) where
  pay_bonus : ReferralPayout → Bonuses → Bonuses
  unfolding record_first
  pay_bonus payout s =
      elim (both (address_of payout.referrer_stellar_address)
        (address_of payout.referred_stellar_address)) [
          | none ↦ fail_with payout (codes "Missing Stellar address for referral bonus payout") s
          | some (referrer_address, referred_address) ↦
              elim (submit_batch_payout true 1 submit
                (recipients_of payout referrer_address referred_address)) [
                  | none ↦ s
                  | some (results, resets) ↦
                      record_first payout results (record s { paid = paid_by results ++ s.paid })
                ]
        ]

  unfoldable pub process_referral_bonus_job : ℕ → Bonuses → Bonuses
  unfolding pay_bonus
  process_referral_bonus_job id s = elim (find_referral_payout id s.payouts) [
    | none ↦ s
    | some payout ↦
        if is_pending payout.status
        then if is_flagged db payout.referred_id payout.challenge_id
          then record (fail_with payout
              (codes "Referral bonus skipped because session was flagged as fraud") s) {
                skipped = payout.referred_id ∷ s.skipped;
              }
          else pay_bonus payout s
        else s
  ]
