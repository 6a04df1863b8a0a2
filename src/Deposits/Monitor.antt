-- ===== src/Deposits/Monitor.antt =====
-- apps/deposit-monitor/src/index: one poll. The metrics and logs are left out.
use brand_blitz.Prelude.{
  ℕ, Bool, true, false, List, [], ◌∷◌, Option, none, some, ltb, ◌==◌, if◌then◌else◌,
}
use brand_blitz.Deposits.{DepositEvent}

-- What fetchDepositEvents returns.
pub record Fetched : Type 0 where
  pub events : List DepositEvent
  pub latest_ledger : ℕ

-- The key last_ledger of Redis, and the state of who receives the webhooks.
pub record MonitorState {ℓ} (W : Type ℓ) : Type ℓ where
  pub last_ledger : Option ℕ
  pub receiver : W

abbrev pub from_ledger : Option ℕ → ℕ
from_ledger none = 0
from_ledger (some ledger) = ledger

module _ {ℓ} {W : Type ℓ} (deliver : DepositEvent → W → Bool × W) where
  -- The webhooks in turn, up to the first that is not acknowledged.
  unfoldable pub deliver_all : List DepositEvent → W → Bool × W
  deliver_all [] w = (true, w)
  deliver_all (event ∷ events) w =
      let rest = deliver_all events (deliver event w).1 in
      if (deliver event w).0 then rest else (false, (deliver event w).1)

  -- `fetched` is `none` where the fetch throws.
  unfoldable pub poll : (ℕ → Option Fetched) → MonitorState W → MonitorState W
  unfolding deliver_all
  poll fetched s = elim (fetched (from_ledger s.last_ledger)) [
    | none ↦ s
    | some reply ↦
        if from_ledger s.last_ledger == 0
        then record s { last_ledger = some reply.latest_ledger }
        else let sent = deliver_all reply.events s.receiver in
          if sent.0
          then (if ltb (from_ledger s.last_ledger) reply.latest_ledger
              then record { last_ledger = some reply.latest_ledger; receiver = sent.1 }
              else record s { receiver = sent.1 })
          else record s { receiver = sent.1 }
  ]

  unfoldable pub poll_all : List (ℕ → Option Fetched) → MonitorState W → MonitorState W
  unfolding poll
  poll_all [] s = s
  poll_all (fetched ∷ rest) s = poll_all rest (poll fetched s)
