-- ===== src/Challenges.antt =====
-- db/queries/challenges of the API, with routes/challenge-management, deleteBrand of
-- db/queries/brands and duplicateChallenge of db/queries/challenge-duplication: the row of a challenge
-- and the operations that change it. Webhooks to the brand are left out; a time is in milliseconds.
pub mod Refund
pub mod Lifecycle
use brand_blitz.Prelude.{
  ℕ, ◌+◌, ◌-◌, Bool, true, false, ◌&&◌, ◌||◌, not, List, [], ◌∷◌, Option, none, some, min, ltb, leb,
  ◌==◌, if◌then◌else◌,
}
use brand_blitz.Texts.{Text}

pub data ChallengeStatus : Type 0 where
  draft pending_deposit active ended settled payout_failed cancelled refunded : ChallengeStatus

pub data RefundPolicy : Type 0 where
  full partial_percentage none_after_start : RefundPolicy

abbrev pub is_ended : ChallengeStatus → Bool
is_ended ended = true
is_ended _ = false

abbrev pub is_settled : ChallengeStatus → Bool
is_settled settled = true
is_settled _ = false

abbrev pub is_draft : ChallengeStatus → Bool
is_draft draft = true
is_draft _ = false

abbrev pub is_pending_deposit : ChallengeStatus → Bool
is_pending_deposit pending_deposit = true
is_pending_deposit _ = false

-- `status IN ('pending_deposit', 'active')`.
abbrev pub is_open : ChallengeStatus → Bool
is_open pending_deposit = true
is_open active = true
is_open _ = false

-- `status IN ('settled', 'ended', 'payout_failed')`.
abbrev pub is_over : ChallengeStatus → Bool
is_over settled = true
is_over ended = true
is_over payout_failed = true
is_over _ = false

-- The percentage is in hundredths. `brand_live` is that the brand is not deleted.
pub record ChallengeRow : Type 0 where
  pub brand_id : ℕ
  pub owner_user_id : ℕ
  pub brand_live : Bool
  pub status : ChallengeStatus
  pub pool_amount_stroops : ℕ
  pub deposit_memo : Option Text
  pub deposit_tx_hash : Option Text
  pub deposit_confirmations : ℕ
  pub payout_tx_hashes : List Text
  pub starts_at : Option ℕ
  pub ends_at : Option ℕ
  pub refund_policy : RefundPolicy
  pub refund_percentage : ℕ
  pub deleted_at : Option ℕ
  pub gallery_opted_in_at : Option ℕ

abbrev pub is_null : Option ℕ → Bool
is_null time = elim time [ none ↦ true | some t ↦ false ]

-- What `createChallenge` is given. The columns that it does not name get their defaults, of which
-- `status` is 'pending_deposit' and `starts_at` the present.
pub record NewChallenge : Type 0 where
  pub brand_id : ℕ
  pub owner_user_id : ℕ
  pub challenge_id : Text
  pub deposit_memo : Option Text
  pub pool_amount_stroops : ℕ
  pub ends_at : Option ℕ
  pub refund_policy : Option RefundPolicy
  pub refund_percentage : Option ℕ
  pub as_draft : Bool

unfoldable pub create_challenge : ℕ → NewChallenge → ChallengeRow
create_challenge now new = record {
  brand_id = new.brand_id;
  owner_user_id = new.owner_user_id;
  brand_live = true;
  status = pending_deposit;
  pool_amount_stroops = new.pool_amount_stroops;
  deposit_memo =
      if new.as_draft
      then none
      else elim new.deposit_memo [ none ↦ some new.challenge_id | some memo ↦ some memo ];
  deposit_tx_hash = none;
  deposit_confirmations = 0;
  payout_tx_hashes = [];
  starts_at = some now;
  ends_at = new.ends_at;
  refund_policy = elim new.refund_policy [ none ↦ full | some policy ↦ policy ];
  refund_percentage = elim new.refund_percentage [ none ↦ 10000 | some percentage ↦ percentage ];
  deleted_at = none;
  gallery_opted_in_at = none;
}

pub data ManageError : Type 0 where
  invalid_draft_dates challenge_not_found forbidden no_longer_a_draft pool_too_small : ManageError

pub data Managed : Type 0 where
  refused : ManageError → Managed
  done : ChallengeRow → Managed

-- The copy is made of an owner's challenge, and the row's other columns are not copied.
unfoldable pub duplicate_challenge : ℕ → Text → ℕ → ChallengeRow → Managed
duplicate_challenge now challenge_id actor c =
    if not (is_null c.deleted_at && c.brand_live)
    then refused challenge_not_found
    else if not (c.owner_user_id == actor)
    then refused forbidden
    else done (
        create_challenge now (record {
          brand_id = c.brand_id;
          owner_user_id = c.owner_user_id;
          challenge_id = challenge_id;
          deposit_memo = none;
          pool_amount_stroops = c.pool_amount_stroops;
          ends_at = none;
          refund_policy = none;
          refund_percentage = none;
          as_draft = true;
        }))

abbrev pub min_pool_stroops : ℕ
min_pool_stroops = 1000000000

-- The route `POST /:id/publish-draft`, with the memo that is generated.
unfoldable pub publish_draft : ℕ → Text → ℕ → ℕ → ℕ → ChallengeRow → Managed
publish_draft now memo user starts_at ends_at c =
    if ltb starts_at now || ltb (ends_at - starts_at) 3600000
    then refused invalid_draft_dates
    else if not (is_null c.deleted_at && c.brand_live)
    then refused challenge_not_found
    else if not (c.owner_user_id == user)
    then refused forbidden
    else if not (is_draft c.status)
    then refused no_longer_a_draft
    else if ltb c.pool_amount_stroops min_pool_stroops
    then refused pool_too_small
    else done (record c {
      status = pending_deposit;
      starts_at = some starts_at;
      ends_at = some ends_at;
      deposit_memo = some memo;
    })

-- `updateChallengeStatus`, where a deposit is given, or payouts are, or neither.
unfoldable pub update_challenge_status :
    ChallengeStatus → Option Text → Option (List Text) → ChallengeRow → ChallengeRow
update_challenge_status status deposit_tx payout_tx_hashes c = elim deposit_tx [
  | some tx ↦ record c { status = status; deposit_tx_hash = some tx }
  | none ↦ elim payout_tx_hashes [
    | some hashes ↦ record c { status = status; payout_tx_hashes = hashes }
    | none ↦ record c { status = status }
  ]
]

-- The confirmations and whether the challenge is active, or `none` where the source throws.
unfoldable pub increment_deposit_confirmations : ℕ → ChallengeRow → Option (ℕ × Bool) × ChallengeRow
increment_deposit_confirmations required c =
    let count = min (c.deposit_confirmations + 1) required in
    let reached = leb required (c.deposit_confirmations + 1) && is_pending_deposit c.status in
    let after : ChallengeRow = record c {
      deposit_confirmations = count;
      status = if reached then active else c.status;
    } in
    if is_open c.status
    then (some (count, not (is_pending_deposit after.status) && leb required count), after)
    else (none, c)

-- What `deleteBrand` does to a challenge of the brand, where the brand is not deleted yet.
unfoldable pub cancel_with_brand : ChallengeRow → ChallengeRow
cancel_with_brand c =
    if c.brand_live
    then record c {
      brand_live = false;
      status = if is_open c.status && is_null c.deleted_at then cancelled else c.status;
    }
    else c

unfoldable pub opt_challenge_into_gallery : ℕ → ℕ → ChallengeRow → Option ChallengeRow
opt_challenge_into_gallery now brand c =
    if c.brand_id == brand && (is_over c.status && is_null c.deleted_at)
    then some (record c { gallery_opted_in_at = some now })
    else none

unfoldable pub opt_challenge_out_of_gallery : ℕ → ChallengeRow → Option ChallengeRow
opt_challenge_out_of_gallery brand c =
    if c.brand_id == brand && is_null c.deleted_at
    then some (record c { gallery_opted_in_at = none })
    else none

unfoldable pub soft_delete_challenge : ℕ → ChallengeRow → ChallengeRow
soft_delete_challenge now c = if is_null c.deleted_at then record c { deleted_at = some now } else c

unfoldable pub restore_challenge : ChallengeRow → ChallengeRow
restore_challenge c = record c { deleted_at = none }
