-- ===== src/Challenges/Refund/Marked.antt =====
-- services/refund of the API: the only change that a refund makes to a challenge.
use brand_blitz.Prelude.{
  ℕ, ◌∷◌, ◌≡◌, ◌⊎◌, refl, inl, inr, Bool, true, false, Option, none, some, ltb, ◌==◌, if◌then◌else◌,
  Bool-cases, Option-cases,
}
use brand_blitz.Texts.{Text}
use brand_blitz.Usdc.{stroops_to_usdc}
use brand_blitz.Challenges.{ChallengeRow, refunded, is_settled, update_challenge_status}
use brand_blitz.Challenges.Refund.{
  Refund, Refunding, RefundReply, RefundRequest, clashes, refund_amount, challenge_by_id,
  find_refund_by_challenge_id, record_refund, pay_refund, from_sender, from_deposit, failed,
  already_settled, start_refund, refund_challenge,
}

-- The row is as it was, or some row marked as refunded.
abbrev pub IsMarked : Option ChallengeRow → Option ChallengeRow → Type 0
IsMarked before after =
    (after ≡ before)
    ⊎ ((c : ChallengeRow) × (after ≡ some (update_challenge_status refunded none none c)))

abbrev MarksOnly : Refunding → RefundReply × Refunding → Type 0
MarksOnly s out = (k : ℕ) → IsMarked (s.challenges k) (out.1.challenges k)

record_refund-MarksOnly :
    (c : ChallengeRow) (r : Refund) (s : Refunding) → MarksOnly s (record_refund c r s)
unfolding record_refund
record_refund-MarksOnly c r s k = elim (Bool-cases (r.amount_stroops == 0)) [
  | inl nothing ↦ rw (record_refund, nothing) (inl refl)
  | inr due ↦ elim (Bool-cases (clashes r s.refunds)) [
    | inl clash ↦ rw (record_refund, due) (rw clash (inl refl))
    | inr new ↦ elim (Bool-cases (r.challenge_id == k)) [
      | inl here ↦ rw (record_refund, due) (rw new (inr (c, rw here refl)))
      | inr other ↦ rw (record_refund, due) (rw new (inl (rw other refl)))
    ]
  ]
]

if-IsMarked :
    (test : Bool) (x y : RefundReply × Refunding) (s : Refunding) (k : ℕ)
    → IsMarked (s.challenges k) (x.1.challenges k)
    → IsMarked (s.challenges k) (y.1.challenges k)
    → IsMarked (s.challenges k) ((if test then x else y).1.challenges k)
if-IsMarked true x y s k h l = h
if-IsMarked false x y s k h l = l

module _ (sender : Text → Option Text) (submit : Option Text) (req : RefundRequest) where
  pay_refund-MarksOnly :
      (c : ChallengeRow) (destination : Text) (s : Refunding)
      → MarksOnly s (pay_refund sender submit req c destination s)
  unfolding pay_refund
  pay_refund-MarksOnly c destination s k = elim (Bool-cases (ltb 0 (refund_amount req.now c))) [
    | inr nothing ↦ rw (pay_refund, nothing) (record_refund-MarksOnly c _ s k)
    | inl due ↦
        elim submit
          as (λ o.
            IsMarked (s.challenges k) ((pay_refund sender o req c destination s).1.challenges k)) [
              | none ↦ rw (pay_refund, due) (inl refl)
              | some hash ↦
                  let paid : Refunding = record s {
                    payments =
                        (destination, stroops_to_usdc (refund_amount req.now c)) ∷ s.payments;
                  } in
                  rw (pay_refund, due)
                    (record_refund-MarksOnly c
                      (record {
                        challenge_id = req.challenge_id;
                        admin_id = req.admin_id;
                        reason = req.reason;
                        amount_stroops = refund_amount req.now c;
                        destination = destination;
                        tx_hash = hash;
                      })
                      paid k)
            ]
  ]

  from_sender-MarksOnly :
      (c : ChallengeRow) (s : Refunding) (destination : Option Text)
      → MarksOnly s (from_sender sender submit req c s destination)
  from_sender-MarksOnly c s none k = inl refl
  from_sender-MarksOnly c s (some destination) k = pay_refund-MarksOnly c destination s k

  from_deposit-MarksOnly :
      (c : ChallengeRow) (s : Refunding) (tx : Option Text)
      → MarksOnly s (from_deposit sender submit req c s tx)
  from_deposit-MarksOnly c s none k = inl refl
  from_deposit-MarksOnly c s (some tx) k = from_sender-MarksOnly c s (sender tx) k

  start_refund-MarksOnly :
      (c : ChallengeRow) (s : Refunding) → MarksOnly s (start_refund sender submit req c s)
  unfolding start_refund
  start_refund-MarksOnly c s k =
      if-IsMarked (is_settled c.status) (failed already_settled, s) _ s k (inl refl)
        (from_deposit-MarksOnly c s c.deposit_tx_hash k)

  pub refund_challenge-MarksOnly :
      (s : Refunding) (k : ℕ)
      → IsMarked (s.challenges k) ((refund_challenge sender submit req s).1.challenges k)
  unfolding refund_challenge
  refund_challenge-MarksOnly s k =
      elim (Option-cases (find_refund_by_challenge_id req.challenge_id s.refunds)) [
        | inr (r, e) ↦ rw (refund_challenge, e) (inl refl)
        | inl e ↦ elim (Option-cases (challenge_by_id req.challenge_id s.challenges)) [
          | inl f ↦ rw (refund_challenge, e) (rw f (inl refl))
          | inr (c, f) ↦ rw (refund_challenge, e) (rw f (start_refund-MarksOnly c s k))
        ]
      ]
