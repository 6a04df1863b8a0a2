-- ===== src/Payouts.antt =====
-- services/payout and db/queries/payouts of the API: from the ranked winners of a challenge to its
-- payout rows, and what the results of the batches leave of them. These are parts of `processPayout`
-- behind the loop in which it throws (Process), each modelled by itself. A row is named by its user,
-- which is its key within a challenge. The winners that `processPayout` makes of the sessions carry no
-- tier, so its branches for tiers are never taken and are left out; so are its logs, metrics and
-- notifications, and the settlement by the escrow contract.
pub mod Pool
pub mod Retry
pub mod Results
pub mod Process
use brand_blitz.Prelude.{
  ℕ, ◌+◌, ◌-◌, ◌*◌, ◌/◌, Bool, true, false, ◌&&◌, ◌||◌, not, List, [], ◌∷◌, ◌++◌, map, keep, sum,
  Option, none, some, arith, ltb, leb, ◌==◌, if◌then◌else◌,
}
use brand_blitz.Texts.{Text, is_blank, same_text}
use brand_blitz.Usdc.{calculate_payout_share_stroops}

pub data PayoutStatus : Type 0 where
  pending sent confirmed failed : PayoutStatus

-- A ranked session: its address is trimmed, and empty where the user has none.
pub record Winner : Type 0 where
  pub user_id : ℕ
  pub stellar_address : Text
  pub total_score : ℕ

pub record LicenseTerms : Type 0 where
  pub fee_bps : ℕ
  pub user_id : ℕ
  pub stellar_address : Option Text

pub record Allocation : Type 0 where
  pub user_id : ℕ
  pub address : Text
  pub amount_stroops : ℕ

abbrev pub eligible : List Winner → List Winner
eligible ws = keep (λ w. not (is_blank w.stellar_address)) ws

-- The address that a license fee goes to, with the fee, if there is one.
license_payment : ℕ → Option LicenseTerms → Option Allocation
license_payment pool none = none
license_payment pool (some terms) = elim terms.stellar_address [
  | none ↦ none
  | some address ↦
      if is_blank address || terms.fee_bps == 0
      then none
      else some (record {
        user_id = terms.user_id;
        address = address;
        amount_stroops = pool * terms.fee_bps / 10000;
      })
]

abbrev fee_of : Option Allocation → ℕ
fee_of payment = elim payment [ none ↦ 0 | some a ↦ a.amount_stroops ]

-- `Map.set` and `Map.get`, by the user.
set_allocation : Allocation → List Allocation → List Allocation
set_allocation a [] = a ∷ []
set_allocation a (b ∷ bs) =
    let rest = set_allocation a bs in if b.user_id == a.user_id then a ∷ bs else b ∷ rest

allocated : ℕ → List Allocation → ℕ
allocated user [] = 0
allocated user (b ∷ bs) =
    let rest = allocated user bs in if b.user_id == user then b.amount_stroops else rest

player_allocations : ℕ → ℕ → List Winner → List Allocation → List Allocation
unfolding set_allocation
player_allocations total pool [] acc = acc
player_allocations total pool (w ∷ ws) acc =
    let amount = calculate_payout_share_stroops w.total_score total pool in
    let a : Allocation = record {
      user_id = w.user_id;
      address = w.stellar_address;
      amount_stroops = amount;
    } in
    player_allocations total pool ws (if ltb amount 1 then acc else set_allocation a acc)

abbrev add_license : Option Allocation → List Allocation → List Allocation
add_license none acc = acc
add_license (some fee) acc =
    if ltb 0 fee.amount_stroops
    then set_allocation
        (record fee { amount_stroops = allocated fee.user_id acc + fee.amount_stroops }) acc
    else acc

abbrev scores : List Winner → List ℕ
scores ws = map (λ w. w.total_score) ws

-- `payoutAllocations` of `processPayout`.
unfoldable pub payout_allocations : ℕ → Option LicenseTerms → List Winner → List Allocation
unfolding license_payment player_allocations allocated
payout_allocations gross_pool terms ranked =
    let payment = license_payment gross_pool terms in
    add_license payment (
      player_allocations (sum (scores (eligible ranked))) (gross_pool - fee_of payment)
        (eligible ranked) [])

pub record Payout : Type 0 where
  pub stellar_address : Text
  pub amount_stroops : ℕ
  pub status : PayoutStatus
  pub tx_hash : Option Text
  pub error_message : Option Text

-- The payout rows of a challenge, by user.
abbrev pub Table : Type 0
Table = ℕ → Option Payout

abbrev put : Table → ℕ → Payout → Table
put table user payout u = if user == u then some payout else table u

abbrev reopen : PayoutStatus → PayoutStatus
reopen failed = pending
reopen status = status

-- The upsert of `createPayout`: the row that it returns.
unfoldable pub create_payout : Table → Allocation → Payout
create_payout table a = elim (table a.user_id) [
  | none ↦ record {
    stellar_address = a.address;
    amount_stroops = a.amount_stroops;
    status = pending;
    tx_hash = none;
    error_message = none;
  }
  | some p ↦ record p {
    stellar_address = a.address;
    amount_stroops = a.amount_stroops;
    status = reopen p.status;
    error_message = none;
  }
]

abbrev keep_or : Option Text → Option Text → Option Text
keep_or new old = elim new [ none ↦ old | some text ↦ some text ]

unfoldable pub update_payout_status : ℕ → PayoutStatus → Option Text → Option Text → Table → Table
update_payout_status user status tx_hash error_message table u =
    if user == u
    then elim (table u) [
      | none ↦ none
      | some p ↦ some (record p {
        status = status;
        tx_hash = keep_or tx_hash p.tx_hash;
        error_message = keep_or error_message p.error_message;
      })
    ]
    else table u

abbrev pub is_final : PayoutStatus → Bool
is_final sent = true
is_final confirmed = true
is_final _ = false

-- `blocked` is the database's fraud trigger.
module _ (blocked : ℕ → Bool) where
  -- The upserts in turn; what is neither blocked nor sent before is to be paid.
  unfoldable pub prepare_payouts : List Allocation → Table → List Allocation × Table
  unfolding create_payout
  prepare_payouts [] table = ([], table)
  prepare_payouts (a ∷ as') table =
      let payout = create_payout table a in
      let skipped = prepare_payouts as' table in
      let rest = prepare_payouts as' (put table a.user_id payout) in
      if blocked a.user_id
      then skipped
      else if is_final payout.status
      then rest
      else (a ∷ rest.0, rest.1)

-- A result of `submitBatchPayout`, with the addresses of its recipients.
pub record BatchResult : Type 0 where
  pub success : Bool
  pub tx_hash : Option Text
  pub recipients : List Text
  pub error : Option Text

find_record : Text → List Allocation → Option ℕ
find_record address [] = none
find_record address (a ∷ as') =
    let rest = find_record address as' in
    if same_text a.address address then some a.user_id else rest

abbrev status_of : BatchResult → PayoutStatus
status_of result = if result.success then sent else failed

-- `detail` stands for the message of a failure that has none.
module _ (detail : Text) where
  abbrev error_of : BatchResult → Option Text
  error_of result =
      if result.success
      then none
      else elim result.error [ none ↦ some detail | some message ↦ some message ]

  record_recipients : List Allocation → BatchResult → List Text → Table → Table
  unfolding find_record update_payout_status
  record_recipients records result [] table = table
  record_recipients records result (address ∷ addresses) table =
      record_recipients records result addresses (elim (find_record address records) [
        | none ↦ table
        | some user ↦
            update_payout_status user (status_of result) result.tx_hash (error_of result) table
      ])

  unfoldable pub record_results : List Allocation → List BatchResult → Table → Table
  unfolding record_recipients
  record_results records [] table = table
  record_results records (result ∷ results) table =
      record_results records results (record_recipients records result result.recipients table)
