-- ===== src/Deposits/Webhook.antt =====
-- routes/webhooks of the API: POST /stellar/deposit behind its rate limit. Of the challenges and the
-- payouts, the state holds what the handler reads and writes. That a memo has the form of a UUID is for
-- the schema library to say.
use brand_blitz.Prelude.{
  ℕ, Bool, true, false, ◌&&◌, ◌||◌, not, List, [], ◌∷◌, ◌++◌, take, Option, none, some, length,
  every, ltb, leb, ◌==◌, if◌then◌else◌,
}
use brand_blitz.Texts.{Text, is_digit, same_text}
use brand_blitz.Challenges.{ChallengeStatus, pending_deposit, active}
use brand_blitz.Usdc.Decimal.{big_int, pad_end, span_digits}
use brand_blitz.Deposits.Verify.{
  Secrets, WebhookRequest, Refusal, next, duplicate, rejected, SeenIds, verify_webhook, is_hex,
}

pub record Challenge : Type 0 where
  pub deposit_memo : Text
  pub status : ChallengeStatus
  pub pool_amount_usdc : Text
  pub deposit_tx : Option Text

pub record Body : Type 0 where
  pub memo : Text
  pub tx_hash : Text
  pub amount : Option Text

pub data DepositReply : Type 0 where
  duplicate_id duplicate_tx already_processed activated : DepositReply
  invalid_body unknown_memo insufficient_balance : DepositReply
  not_verified : Refusal → DepositReply

-- The status of the response is 200.
abbrev pub is_acknowledged : DepositReply → Bool
is_acknowledged duplicate_id = true
is_acknowledged duplicate_tx = true
is_acknowledged already_processed = true
is_acknowledged activated = true
is_acknowledged _ = false

abbrev is_point : ℕ → Bool
is_point c = c == b'.'

-- What stands before and after the first point, up to a second.
before_point : Text → Text
before_point [] = []
before_point (c ∷ rest) = let init = before_point rest in if is_point c then [] else c ∷ init

after_point : Text → Text
unfolding before_point
after_point [] = []
after_point (c ∷ rest) =
    let tail = after_point rest in if is_point c then before_point rest else tail

-- The route's own conversion of the pool's amount, which the database writes with seven decimals.
unfoldable pub required_stroops : Text → ℕ
unfolding before_point after_point
required_stroops value = big_int (before_point value ++ take 7 (pad_end 7 b'0' (after_point value)))

-- `^\d+(\.\d{1,7})?$`.
is_amount : Text → Bool
is_amount value =
    let groups : Text × Text = span_digits value in
    not (length groups.0 == 0) && elim groups.1 [
      | [] ↦ true
      | c ∷ fraction ↦
          is_point c
          && (every is_digit fraction && (leb 1 (length fraction) && leb (length fraction) 7))
    ]

abbrev has_tx : Text → Option Text → Bool
has_tx tx none = false
has_tx tx (some deposit) = same_text deposit tx

abbrev pub is_deposit_tx : Text → List Challenge → Bool
is_deposit_tx tx [] = false
is_deposit_tx tx (c ∷ cs) = has_tx tx c.deposit_tx || is_deposit_tx tx cs

abbrev pub is_payout_tx : Text → List Text → Bool
is_payout_tx tx [] = false
is_payout_tx tx (hash ∷ hashes) = same_text hash tx || is_payout_tx tx hashes

abbrev pub by_memo : Text → List Challenge → Option Challenge
by_memo memo [] = none
by_memo memo (c ∷ cs) =
    let rest = by_memo memo cs in if same_text c.deposit_memo memo then some c else rest

-- The update of the challenge that was found, by its memo.
abbrev pub activate : Text → Text → List Challenge → List Challenge
activate memo tx [] = []
activate memo tx (c ∷ cs) =
    let rest = activate memo tx cs in
    if same_text c.deposit_memo memo
    then record c { status = active; deposit_tx = some tx } ∷ cs
    else c ∷ rest

abbrev pub is_pending : ChallengeStatus → Bool
is_pending pending_deposit = true
is_pending _ = false

pub record ApiState : Type 0 where
  pub seen : SeenIds
  pub challenges : List Challenge

module _ (is_uuid : Text → Bool) where
  unfoldable pub parse_body : Body → Bool
  unfolding is_amount
  parse_body body =
      is_uuid body.memo
      && ((length body.tx_hash == 64 && every is_hex body.tx_hash)
          && elim body.amount [ none ↦ true | some amount ↦ is_amount amount ])

  -- `balance` is the hot wallet's, in stroops, and `payouts` the transactions of the payouts.
  unfoldable pub handle_deposit :
      Body → ℕ → List Text → List Challenge → DepositReply × List Challenge
  unfolding parse_body
  handle_deposit body balance payouts challenges =
      if not (parse_body body)
      then (invalid_body, challenges)
      else if is_deposit_tx body.tx_hash challenges || is_payout_tx body.tx_hash payouts
      then (duplicate_tx, challenges)
      else elim (by_memo body.memo challenges) [
        | none ↦ (unknown_memo, challenges)
        | some challenge ↦
            if not (is_pending challenge.status)
            then (already_processed, challenges)
            else if ltb balance (required_stroops challenge.pool_amount_usdc)
            then (insufficient_balance, challenges)
            else (activated, activate body.memo body.tx_hash challenges)
      ]

module _ (is_uuid : Text → Bool) (sign : Text → ℕ → Text → Text) where
  -- The route with its middleware.
  unfoldable pub deposit_webhook :
      Secrets → WebhookRequest → Body → ℕ → ℕ → List Text → ApiState → DepositReply × ApiState
  deposit_webhook secrets request body now balance payouts s =
      let admission = verify_webhook sign secrets request now s.seen in
      elim admission.0 [
        | rejected why ↦ (not_verified why, s)
        | duplicate ↦ (duplicate_id, s)
        | next ↦
            let handled = handle_deposit is_uuid body balance payouts s.challenges in
            (handled.0, record { seen = admission.1; challenges = handled.1 })
      ]
