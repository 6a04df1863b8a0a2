-- ===== src/Challenges/Refund.antt =====
-- services/refund and db/queries/refunds of the API: the refund of a challenge's deposit. The payment
-- and the search for the depositor are the network's.
pub mod Once
pub mod Marked
use brand_blitz.Prelude.{
  ℕ, ◌*◌, ◌/◌, Bool, true, false, ◌&&◌, ◌||◌, List, [], ◌∷◌, Option, none, some, find, leb, ltb,
  ◌==◌, if◌then◌else◌,
}
use brand_blitz.Texts.{Text, codes, same_text}
use brand_blitz.Usdc.{stroops_to_usdc}
use brand_blitz.Challenges.{
  ChallengeRow, RefundPolicy, none_after_start, refunded, is_settled, is_null,
  update_challenge_status,
}

pub record Refund : Type 0 where
  pub challenge_id : ℕ
  pub admin_id : ℕ
  pub reason : Text
  pub amount_stroops : ℕ
  pub destination : Text
  pub tx_hash : Text

-- The tables, and the payments that the network made: destination and decimal amount.
pub record Refunding : Type 0 where
  pub challenges : ℕ → Option ChallengeRow
  pub refunds : List Refund
  pub payments : List (Text × Text)

pub data RefundError : Type 0 where
  not_found already_settled no_deposit payment_failed not_positive not_unique : RefundError

pub data RefundReply : Type 0 where
  failed : RefundError → RefundReply
  refund : Refund → RefundReply

unfoldable pub find_refund_by_challenge_id : ℕ → List Refund → Option Refund
find_refund_by_challenge_id challenge rows = find (λ r. r.challenge_id == challenge) rows

-- The unique columns of the table.
unfoldable pub clashes : Refund → List Refund → Bool
clashes new [] = false
clashes new (r ∷ rows) =
    (r.challenge_id == new.challenge_id || same_text r.tx_hash new.tx_hash) || clashes new rows

abbrev is_none_after_start : RefundPolicy → Bool
is_none_after_start none_after_start = true
is_none_after_start _ = false

-- A missing start is the date 0.
abbrev pub has_started : ℕ → ChallengeRow → Bool
has_started now c = elim c.starts_at [ none ↦ true | some t ↦ leb t now ]

unfoldable pub refund_amount : ℕ → ChallengeRow → ℕ
refund_amount now c =
    if is_none_after_start c.refund_policy && has_started now c
    then 0
    else c.pool_amount_stroops * c.refund_percentage / 10000

abbrev pub no_refund_due : Text
no_refund_due = codes "no-refund-due"

-- `getChallengeById`.
abbrev pub challenge_by_id : ℕ → (ℕ → Option ChallengeRow) → Option ChallengeRow
challenge_by_id id rows = elim (rows id) [
  | none ↦ none
  | some c ↦ if is_null c.deleted_at then some c else none
]

abbrev pub set_row : ℕ → ChallengeRow → (ℕ → Option ChallengeRow) → ℕ → Option ChallengeRow
set_row id c rows k = if id == k then some c else rows k

-- The insertion, which throws where the amount is 0, which the table's check refuses, or where it is
-- not unique, and what follows it.
pub record_refund : ChallengeRow → Refund → Refunding → RefundReply × Refunding
record_refund c r s =
    if r.amount_stroops == 0
    then (failed not_positive, s)
    else if clashes r s.refunds
    then (failed not_unique, s)
    else (
      refund r,
      record s {
        refunds = r ∷ s.refunds;
        challenges =
            set_row r.challenge_id (update_challenge_status refunded none none c) s.challenges;
      },
    )

pub record RefundRequest : Type 0 where
  pub challenge_id : ℕ
  pub admin_id : ℕ
  pub reason : Text
  pub now : ℕ

-- `sender` finds who made a deposit, `submit` is the hash of the payment, or nothing where it throws.
module _ (sender : Text → Option Text) (submit : Option Text) where
  pub pay_refund : RefundRequest → ChallengeRow → Text → Refunding → RefundReply × Refunding
  unfolding record_refund
  pay_refund req c destination s =
      let amount = refund_amount req.now c in
      let row = λ (hash : Text).
        (let r : Refund = record {
          challenge_id = req.challenge_id;
          admin_id = req.admin_id;
          reason = req.reason;
          amount_stroops = amount;
          destination = destination;
          tx_hash = hash;
        } in
          r) in
      if ltb 0 amount
      then elim submit [
        | none ↦ (failed payment_failed, s)
        | some hash ↦
            record_refund c (row hash)
              (record s { payments = (destination, stroops_to_usdc amount) ∷ s.payments })
      ]
      else record_refund c (row no_refund_due) s

  abbrev from_sender :
      RefundRequest → ChallengeRow → Refunding → Option Text → RefundReply × Refunding
  from_sender req c s none = (failed no_deposit, s)
  from_sender req c s (some destination) = pay_refund req c destination s

  abbrev from_deposit :
      RefundRequest → ChallengeRow → Refunding → Option Text → RefundReply × Refunding
  from_deposit req c s none = (failed no_deposit, s)
  from_deposit req c s (some tx) = from_sender req c s (sender tx)

  pub start_refund : RefundRequest → ChallengeRow → Refunding → RefundReply × Refunding
  unfolding pay_refund
  start_refund req c s =
      if is_settled c.status
      then (failed already_settled, s)
      else from_deposit req c s c.deposit_tx_hash

  unfoldable pub refund_challenge : RefundRequest → Refunding → RefundReply × Refunding
  unfolding start_refund
  refund_challenge req s = elim (find_refund_by_challenge_id req.challenge_id s.refunds) [
    | some r ↦ (refund r, s)
    | none ↦ elim (challenge_by_id req.challenge_id s.challenges) [
      | none ↦ (failed not_found, s)
      | some c ↦ start_refund req c s
    ]
  ]
