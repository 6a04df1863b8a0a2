-- ===== src/Referrals/Bonus/Job.antt =====
-- queues/processors/referral-bonus.processor of the API: what a job pays, in the unit in which the
-- network reads an amount.
use brand_blitz.Prelude.{ℕ, ◌*◌, ◌<◌, ◌≡◌, map, true, false, [], ◌∷◌, ◌++◌, some, arith, length}
use brand_blitz.Texts.{Text}
use brand_blitz.Usdc.{usdc_to_stroops}
use brand_blitz.Usdc.Decimal.{to_string}
use brand_blitz.Usdc.Whole.{usdc_to_stroops-to_string}
use brand_blitz.Stellar.BatchPayout.{Attempt, accepted}
use brand_blitz.Stellar.BatchPayout.Single.{is_valid_recipient-to_string, submit_batch_payout-pair}
use brand_blitz.Referrals.Bonus.{
  ReferralPayout, Bonuses, Tables, pending, find_referral_payout, is_flagged, recipients_of,
  record_first, pay_bonus, process_referral_bonus_job,
}

-- A payout that the job pays: it is pending, not flagged, and has two addresses and two amounts.
pub record IsPayable (db : Tables) (p : ReferralPayout) (a b : Text) : Type 0 where
  pub open_ : p.status ≡ pending
  pub clean : is_flagged db p.referred_id p.challenge_id ≡ false
  pub referrer : p.referrer_stellar_address ≡ some a
  pub referred : p.referred_stellar_address ≡ some b
  pub addressed : (0 < length a) × (0 < length b)
  pub positive : (0 < p.referrer_amount_stroops) × (0 < p.referred_amount_stroops)

pay_bonus-accepted :
    (db : Tables) (submit : ℕ → ℕ → Attempt) (hash a b : Text) (p : ReferralPayout) (s : Bonuses)
    → submit 0 0 ≡ accepted hash
    → IsPayable db p a b
    → (pay_bonus db submit p s).paid ≡ recipients_of p a b ++ s.paid
unfolding pay_bonus record_first
pay_bonus-accepted db submit hash a b p s ok h = ground (
  arith,
  h.referrer,
  h.referred,
  h.addressed,
  submit_batch_payout-pair true 1 submit hash
      (record { address = a; amount = to_string p.referrer_amount_stroops })
      (record { address = b; amount = to_string p.referred_amount_stroops }),
  is_valid_recipient-to_string a p.referrer_amount_stroops h.addressed.0 h.positive.0,
  is_valid_recipient-to_string b p.referred_amount_stroops h.addressed.1 h.positive.1,
)

-- A job that the network accepts pays the two parties, and each amount that it submits is 10,000,000
-- times the bonus, since the network reads whole USDC where the columns hold stroops.
pub process_referral_bonus_job-paid :
    (db : Tables) (submit : ℕ → ℕ → Attempt) (id : ℕ) (hash a b : Text) (p : ReferralPayout)
    (s : Bonuses)
    → submit 0 0 ≡ accepted hash
    → find_referral_payout id s.payouts ≡ some p
    → IsPayable db p a b
    → ((process_referral_bonus_job db submit id s).paid ≡ recipients_of p a b ++ s.paid)
      × (map (λ r. usdc_to_stroops r.amount) (recipients_of p a b)
          ≡ some (to_string (p.referrer_amount_stroops * 10000000))
            ∷ some (to_string (p.referred_amount_stroops * 10000000))
            ∷ [])
unfolding process_referral_bonus_job
process_referral_bonus_job-paid db submit id hash a b p s ok found h = (
  rw (found, process_referral_bonus_job, h.open_, h.clean)
      (pay_bonus-accepted db submit hash a b p s ok h),
  simp usdc_to_stroops-to_string,
)
