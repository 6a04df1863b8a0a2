-- ===== src/Stellar.antt =====
-- packages/stellar: transaction sequence numbers, retries and batch payouts.
pub mod Sequence
pub mod Retry
pub mod BatchPayout
