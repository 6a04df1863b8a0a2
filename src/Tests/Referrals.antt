-- ===== src/Tests/Referrals.antt =====
-- Referrals and their bonuses.
use brand_blitz.Prelude.{
  ℕ, ◌*◌, ◌≡◌, refl, true, false, List, [], ◌∷◌, ◌++◌, Option, none, some, arith, map,
  if◌then◌else◌,
}
use brand_blitz.Texts.{Text, codes, same_text}
use brand_blitz.Usdc.{usdc_to_stroops}
use brand_blitz.Usdc.Decimal.{to_string}
use brand_blitz.Stellar.BatchPayout.{Attempt, accepted}
use brand_blitz.Referrals.{ReferralRequest, visit, sign_in, reward, run}
use brand_blitz.Referrals.Attribution.{WellReferred, no_referrals, referral, run-WellReferred}
use brand_blitz.Referrals.Bonus.{
  ReferralPayout, pending, Bonuses, Tables, is_flagged, find_referral_payout, Win, queue_all,
  recipients_of, process_referral_bonus_job,
}
use brand_blitz.Referrals.Bonus.Queue.{BonusesOnce, queue_all-BonusesOnce}
use brand_blitz.Referrals.Bonus.Job.{process_referral_bonus_job-paid}

-- Users 1, 2 and 3 with the codes AAAAA1, AAAAA2 and AAAAA3.
abbrev find_user : Text → Option ℕ
find_user code =
    if same_text code (codes "AAAAA1")
    then some 1
    else if same_text code (codes "AAAAA2")
    then some 2
    else if same_text code (codes "AAAAA3")
    then some 3
    else none

abbrev request_with : Text → ℕ → ReferralRequest
request_with code fingerprint = record {
  fingerprint = fingerprint;
  query_ref = some code;
  cookie_ref = none;
}

abbrev of_one : ReferralRequest
of_one = request_with (codes " aaaaa1") 11

abbrev of_two : ReferralRequest
of_two = request_with (codes "AAAAA2") 12

abbrev nobody-WellReferred : WellReferred []
nobody-WellReferred = record {
  irreflexive = λ u. refl;
  asymmetric = λ u v h. refl;
  once = λ u w v h k. ground arith;
}

run-WellReferred_example :
    WellReferred
      (run find_user
        (visit of_one ∷ sign_in 2 of_one ∷ sign_in 1 of_two ∷ reward 2 ∷ [])
        no_referrals).referrals
run-WellReferred_example =
    run-WellReferred find_user (visit of_one ∷ sign_in 2 of_one ∷ sign_in 1 of_two ∷ reward 2 ∷ [])
      no_referrals nobody-WellReferred

abbrev wallets : Tables
wallets = record {
  find_user_by_id =
      λ u. some (record { embedded_wallet_address = none; stellar_address = some (codes "GA") });
  get_session = λ u c. none;
  is_fraud_session = λ id. false;
}

abbrev before_bonus : Bonuses
before_bonus = record {
  referrals = referral 1 2 ∷ [];
  payouts = [];
  queued = [];
  skipped = [];
  paid = [];
}

abbrev wins : List Win
wins =
    record { enqueues = true; user_id = 2; challenge_id = some 7; amount_stroops = 5000 }
    ∷ record { enqueues = true; user_id = 2; challenge_id = some 8; amount_stroops = 6000 }
    ∷ []

queue_all-BonusesOnce_example : BonusesOnce (queue_all wallets wins before_bonus)
queue_all-BonusesOnce_example =
    queue_all-BonusesOnce wallets wins before_bonus
      (record { bounded = tt; marked = tt; once = tt })

abbrev owed : ReferralPayout
owed = record {
  referred_id = 2;
  challenge_id = some 7;
  referrer_id = 1;
  referrer_stellar_address = some (codes "GA");
  referred_stellar_address = some (codes "GB");
  referrer_amount_stroops = 500;
  referred_amount_stroops = 10000000;
  status = pending;
  tx_hash = none;
  error_message = [];
}

abbrev owing : Bonuses
owing = record {
  referrals = referral 1 2 ∷ [];
  payouts = owed ∷ [];
  queued = 2 ∷ [];
  skipped = [];
  paid = [];
}

abbrev accepting : ℕ → ℕ → Attempt
accepting batch attempt = accepted (codes "h")

process_referral_bonus_job-paid_example :
    ((process_referral_bonus_job wallets accepting 2 owing).paid
      ≡ recipients_of owed (codes "GA") (codes "GB") ++ [])
    × (map (λ r. usdc_to_stroops r.amount) (recipients_of owed (codes "GA") (codes "GB"))
        ≡ some (to_string (500 * 10000000)) ∷ some (to_string (10000000 * 10000000)) ∷ [])
unfolding is_flagged find_referral_payout
process_referral_bonus_job-paid_example =
    process_referral_bonus_job-paid wallets accepting 2 (codes "h") (codes "GA") (codes "GB") owed
      owing refl refl
      (record {
        open_ = refl;
        clean = refl;
        referrer = refl;
        referred = refl;
        addressed = (ground arith, ground arith);
        positive = (ground arith, ground arith);
      })
