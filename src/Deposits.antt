-- ===== src/Deposits.antt =====
-- The way of a deposit: packages/stellar/src/deposit (Fetch), apps/deposit-monitor/src/index (Monitor),
-- and of the API middleware/verify-webhook (Verify) and routes/webhooks (Webhook).
pub mod Fetch
pub mod Monitor
pub mod Verify
pub mod Webhook
pub mod Cursor
pub mod Replay
use brand_blitz.Prelude.{ℕ}
use brand_blitz.Texts.{Text}

pub record DepositEvent : Type 0 where
  pub tx_hash : Text
  pub amount : Text
  pub memo : Text
  pub ledger : ℕ
