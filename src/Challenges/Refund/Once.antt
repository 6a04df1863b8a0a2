-- ===== src/Challenges/Refund/Once.antt =====
-- services/refund of the API: what a refund pays, and that it is made once.
use brand_blitz.Prelude.{
  ◌≡◌, refl, sym, subst, ap, ◌∙◌, inl, inr, false, List, ◌∷◌, Option, none, some, arith, ltb,
  Bool-cases, Option-cases, ◌<◌, ◌==◌, ℕ,
}
use brand_blitz.Texts.{Text}
use brand_blitz.Usdc.{stroops_to_usdc}
use brand_blitz.Challenges.{ChallengeRow, refunded, is_settled, update_challenge_status}
use brand_blitz.Challenges.Refund.{
  Refund, Refunding, RefundReply, RefundRequest, failed, not_positive, refund, clashes,
  refund_amount, challenge_by_id, find_refund_by_challenge_id, record_refund, pay_refund,
  start_refund, refund_challenge,
}

-- What a refund leaves, for the challenge that it was made of.
pub record IsRefunded (now : ℕ) (id : ℕ) (c : ChallengeRow) (s : Refunding) (r : Refund)
    (s' : Refunding) : Type 0 where
  pub of_challenge : r.challenge_id ≡ id
  pub amount : r.amount_stroops ≡ refund_amount now c
  pub kept : s'.refunds ≡ r ∷ s.refunds
  pub positive : 0 < r.amount_stroops
  pub paid : s'.payments ≡ (r.destination, stroops_to_usdc r.amount_stroops) ∷ s.payments
  pub marked : s'.challenges id ≡ some (update_challenge_status refunded none none c)

abbrev Outcome : ℕ → ℕ → ChallengeRow → Refunding → RefundReply × Refunding → Type 0
Outcome now id c s (failed e, s') = Unit
Outcome now id c s (refund r, s') = IsRefunded now id c s r s'

record_refund-nothing :
    (c : ChallengeRow) (r : Refund) (s : Refunding)
    → r.amount_stroops ≡ 0
    → record_refund c r s ≡ (failed not_positive, s)
unfolding record_refund
record_refund-nothing c r s nothing = ground (arith, nothing)

record_refund-Outcome :
    (now id : ℕ) (c : ChallengeRow) (r : Refund) (s before : Refunding)
    → r.challenge_id ≡ id
    → r.amount_stroops ≡ refund_amount now c
    → before.refunds ≡ s.refunds
    → before.payments ≡ (r.destination, stroops_to_usdc r.amount_stroops) ∷ s.payments
    → Outcome now id c s (record_refund c r before)
unfolding record_refund
record_refund-Outcome now id c r s before same amount rows paid =
    elim (Bool-cases (r.amount_stroops == 0)) [
      | inl nothing ↦ rw (record_refund, nothing) tt
      | inr due ↦ elim (Bool-cases (clashes r before.refunds)) [
        | inl clash ↦ rw (record_refund, due) (rw clash tt)
        | inr new ↦
            rw (record_refund, due)
              (rw new (record {
                of_challenge = same;
                amount = amount;
                kept = ap (◌∷◌ r) rows;
                positive = ground (arith, due);
                paid = paid;
                marked = ground (arith, same);
              }))
      ]
    ]

module _ (sender : Text → Option Text) (submit : Option Text) where
  pay_refund-Outcome :
      (req : RefundRequest) (c : ChallengeRow) (destination : Text) (s : Refunding)
      → Outcome req.now req.challenge_id c s (pay_refund sender submit req c destination s)
  unfolding pay_refund
  pay_refund-Outcome req c destination s = elim (Bool-cases (ltb 0 (refund_amount req.now c))) [
    | inr nothing ↦
        rw (pay_refund, nothing)
          (subst (Outcome req.now req.challenge_id c s)
            (sym (record_refund-nothing c _ s (ground (arith, nothing)))) tt)
    | inl due ↦
        elim submit
          as (λ o. Outcome req.now req.challenge_id c s (pay_refund sender o req c destination s)) [
            | none ↦ rw (pay_refund, due) tt
            | some hash ↦
                rw (pay_refund, due)
                  (record_refund-Outcome req.now req.challenge_id c _ s _ refl refl refl refl)
          ]
  ]

  start_refund_lem :
      (req : RefundRequest) (c : ChallengeRow) (s : Refunding) (tx destination : Text)
      → is_settled c.status ≡ false
      → c.deposit_tx_hash ≡ some tx
      → sender tx ≡ some destination
      → start_refund sender submit req c s ≡ pay_refund sender submit req c destination s
  unfolding start_refund
  start_refund_lem req c s tx destination open_ e f = ground (arith, open_, e, f)

  start_refund-Outcome :
      (req : RefundRequest) (c : ChallengeRow) (s : Refunding)
      → Outcome req.now req.challenge_id c s (start_refund sender submit req c s)
  unfolding start_refund
  start_refund-Outcome req c s = elim (Bool-cases (is_settled c.status)) [
    | inl over ↦ rw (start_refund, over) tt
    | inr open_ ↦ elim (Option-cases c.deposit_tx_hash) [
      | inl e ↦ ground (arith, e, open_)
      | inr (tx, e) ↦ elim (Option-cases (sender tx)) [
        | inl f ↦ ground (arith, e, f, open_)
        | inr (destination, f) ↦
            subst (Outcome req.now req.challenge_id c s)
              (sym (start_refund_lem req c s tx destination open_ e f))
              (pay_refund-Outcome req c destination s)
      ]
    ]
  ]

find-refund :
    (id : ℕ) (r : Refund) (rows : List Refund)
    → r.challenge_id ≡ id
    → find_refund_by_challenge_id id (r ∷ rows) ≡ some r
unfolding find_refund_by_challenge_id
find-refund id r rows e = ground arith

refund_challenge-known :
    (sender : Text → Option Text) (submit : Option Text) (req : RefundRequest) (r : Refund)
    (s : Refunding)
    → find_refund_by_challenge_id req.challenge_id s.refunds ≡ some r
    → refund_challenge sender submit req s ≡ (refund r, s)
unfolding refund_challenge
refund_challenge-known sender submit req r s e = rw (refund_challenge, e) refl

refund_challenge-first :
    (sender : Text → Option Text) (submit : Option Text) (req : RefundRequest) (c : ChallengeRow)
    (s : Refunding)
    → find_refund_by_challenge_id req.challenge_id s.refunds ≡ none
    → challenge_by_id req.challenge_id s.challenges ≡ some c
    → refund_challenge sender submit req s ≡ start_refund sender submit req c s
unfolding refund_challenge
refund_challenge-first sender submit req c s e f = ground (arith, e, f)

-- A first refund that succeeds is of the amount that the policy gives, which is not 0, pays the
-- depositor exactly that, and marks the challenge as refunded; any later refund of the challenge,
-- whatever the network answers, returns the same refund and pays nothing.
pub refund_challenge-once :
    (sender : Text → Option Text) (submit : Option Text) (req : RefundRequest) (c : ChallengeRow)
    (r : Refund) (s s' : Refunding)
    → find_refund_by_challenge_id req.challenge_id s.refunds ≡ none
    → challenge_by_id req.challenge_id s.challenges ≡ some c
    → refund_challenge sender submit req s ≡ (refund r, s')
    → IsRefunded req.now req.challenge_id c s r s'
      × ((sender' : Text → Option Text) (submit' : Option Text) (again : RefundRequest)
          → again.challenge_id ≡ req.challenge_id
          → refund_challenge sender' submit' again s' ≡ (refund r, s'))
refund_challenge-once sender submit req c r s s' unrefunded found ok =
    let outcome : IsRefunded req.now req.challenge_id c s r s' =
      subst (Outcome req.now req.challenge_id c s)
        (sym (refund_challenge-first sender submit req c s unrefunded found) ∙ ok)
        (start_refund-Outcome sender submit req c s) in
    (
      outcome,
      λ sender' submit' again same. refund_challenge-known sender' submit' again r s' (
          ap (find_refund_by_challenge_id again.challenge_id) outcome.kept
          ∙ find-refund again.challenge_id r s.refunds (outcome.of_challenge ∙ sym same)),
    )

pay_nothing :
    (sender : Text → Option Text) (submit : Option Text) (req : RefundRequest) (c : ChallengeRow)
    (destination : Text) (s : Refunding)
    → refund_amount req.now c ≡ 0
    → pay_refund sender submit req c destination s ≡ (failed not_positive, s)
unfolding pay_refund
pay_nothing sender submit req c destination s h =
    let none_due : ltb 0 (refund_amount req.now c) ≡ false = ground (arith, h) in
    rw (pay_refund, none_due) (record_refund-nothing c _ s h)

-- Where the policy gives nothing, the refund fails on the table's check of the amount, and the
-- challenge is not marked as refunded.
pub refund_challenge-nothing :
    (sender : Text → Option Text) (submit : Option Text) (req : RefundRequest) (c : ChallengeRow)
    (tx destination : Text) (s : Refunding)
    → find_refund_by_challenge_id req.challenge_id s.refunds ≡ none
    → challenge_by_id req.challenge_id s.challenges ≡ some c
    → is_settled c.status ≡ false
    → c.deposit_tx_hash ≡ some tx
    → sender tx ≡ some destination
    → refund_amount req.now c ≡ 0
    → refund_challenge sender submit req s ≡ (failed not_positive, s)
refund_challenge-nothing sender submit req c tx destination s new found open_ deposit from nothing =
    refund_challenge-first sender submit req c s new found
    ∙ start_refund_lem sender submit req c s tx destination open_ deposit from
    ∙ pay_nothing sender submit req c destination s nothing
