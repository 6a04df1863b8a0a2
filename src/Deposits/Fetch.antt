-- ===== src/Deposits/Fetch.antt =====
-- packages/stellar/src/deposit: the validation of a memo and the deposits that the events of one call of
-- getEvents give. The call's retries are Stellar.Retry's; the time of an event is not carried along.
use brand_blitz.Prelude.{
  ℕ, ◌+◌, ◌-◌, Bool, ◌&&◌, ◌||◌, not, List, [], ◌∷◌, Option, none, some, every, ltb, leb, ◌==◌,
  if◌then◌else◌,
}
use brand_blitz.Texts.{Text, has_content}
use brand_blitz.Deposits.{DepositEvent}

pub data MemoValidation : Type 0 where
  valid : Text → MemoValidation
  missing invalid_format : MemoValidation

abbrev is_high : ℕ → Bool
is_high unit = leb 0xd800 unit && leb unit 0xdbff

abbrev is_low : ℕ → Bool
is_low unit = leb 0xdc00 unit && leb unit 0xdfff

abbrev unit_bytes : ℕ → ℕ
unit_bytes unit = if ltb unit 0x80 then 1 else if ltb unit 0x800 then 2 else 3

-- `Buffer.byteLength(text, "utf8")`; a surrogate without its other half counts as U+FFFD.
unfoldable pub byte_length : Text → ℕ
byte_length [] = 0
byte_length (u ∷ []) = unit_bytes u
byte_length (u ∷ v ∷ rest) =
    let pair = byte_length rest in
    let single = byte_length (v ∷ rest) in
    if is_high u && is_low v then 4 + pair else unit_bytes u + single

abbrev is_control : ℕ → Bool
is_control unit = ltb unit 0x20 || unit == 0x7f

abbrev is_printable : ℕ → Bool
is_printable unit = not (is_control unit)

unfoldable pub validate_deposit_memo : Option Text → MemoValidation
unfolding byte_length
validate_deposit_memo none = missing
validate_deposit_memo (some memo) =
    if not (has_content memo)
    then missing
    else if ltb 28 (byte_length memo) || not (every is_printable memo)
    then invalid_format
    else valid memo

-- What getTransaction says of an event's transaction, if its retries do not fail.
pub record TxReply : Type 0 where
  pub is_success : Bool
  pub memo : Option Text

pub record RpcEvent : Type 0 where
  pub tx_hash : Text
  pub value : Option Text
  pub ledger : ℕ
  pub has_closed_at : Bool

module _ (get_transaction : Text → Option TxReply) where
  deposit_of : RpcEvent → Option DepositEvent
  unfolding validate_deposit_memo
  deposit_of event = elim (get_transaction event.tx_hash) [
    | none ↦ none
    | some reply ↦
        if not reply.is_success || not event.has_closed_at
        then none
        else elim (validate_deposit_memo reply.memo) [
          | valid memo ↦ some (record {
            tx_hash = event.tx_hash;
            amount = elim event.value [ none ↦ b'0' ∷ [] | some value ↦ value ];
            memo = memo;
            ledger = event.ledger;
          })
          | missing ↦ none
          | invalid_format ↦ none
        ]
  ]

  unfoldable pub fetch_deposit_events : List RpcEvent → List DepositEvent
  unfolding deposit_of
  fetch_deposit_events [] = []
  fetch_deposit_events (event ∷ events) =
      let rest = fetch_deposit_events events in
      elim (deposit_of event) [ none ↦ rest | some deposit ↦ deposit ∷ rest ]

unfoldable pub get_deposit_confirmation_count : Option TxReply → Option ℕ → ℕ → ℕ
get_deposit_confirmation_count reply health tx_ledger = elim reply [
  | none ↦ 0
  | some tx ↦
      if tx.is_success then elim health [ none ↦ 0 | some current ↦ current - tx_ledger ] else 0
]
